-- ===== src/Fs/Effects.antt =====
-- What the operations do to the entry, the rows and the data that they are about.
use mathlib.Core.Bool.{false≢true}
use airyfs.Prelude.{
  ℕ, ◌-◌, ◌%◌, ◌^◌, ◌<◌, ◌≡◌, ◌≢◌, refl, sym, ap, ◌∙◌, true, false, none, some, arith, nat_beq,
  nat_eq, entry_eq, entry_beq, entry_beq_iff, pair_eq, if◌then◌else◌,
}
use airyfs.Prelude.Int.{pos, dec, dec-pos, as_u32}
use airyfs.Prelude.Table.{
  select, update, delete, select-update_ne, select-update_self, select-delete_where,
  select_of_count-zero,
}
use airyfs.Mode.{Stamp, ok, is_dir_mode}
use airyfs.Db.{Bytes, Inode, Db, update_inode}
use airyfs.Fs.{Fs, Entry, get_link_count, touch, is_dir_row}
use airyfs.Fs.Delete.{unlink, unlinked, drop_if_unlinked}
use airyfs.Fs.Drop.{drop_if_unlinked-here, drop_if_unlinked-rest}
use airyfs.Fs.WellFormed.{IsWellFormed, row_at, entry_at, link_count, lookup_child-entry_at}

-- The chunks, the target and the row of an inode whose count is 0 go, and those of the others stay.
drop_if_unlinked-chunks :
    (ino : ℕ) (db : Db) (i c : ℕ)
    → select (i, c) (drop_if_unlinked ino db).chunks ≡ (
        if nat_beq (get_link_count db ino) 0
        then if nat_beq i ino then none else select (i, c) db.chunks
        else select (i, c) db.chunks)
unfolding drop_if_unlinked
drop_if_unlinked-chunks ino db i c =
    ground (arith, select-delete_where (λ (k : ℕ × ℕ). nat_beq k.0 ino) (i, c) db.chunks)

drop_if_unlinked-symlinks :
    (ino : ℕ) (db : Db) (i : ℕ)
    → select i (drop_if_unlinked ino db).symlinks ≡ (
        if nat_beq (get_link_count db ino) 0
        then if nat_beq i ino then none else select i db.symlinks
        else select i db.symlinks)
unfolding drop_if_unlinked
drop_if_unlinked-symlinks ino db i =
    ground (arith, select-delete_where (λ (k : ℕ). nat_beq k ino) i db.symlinks)

module _ (now : Stamp) (fs fs' : Fs) (parent : ℕ) (name : Bytes) (ino : ℕ) (r : Inode)
    (h : IsWellFormed fs.db) (entry : entry_at fs.db (parent, name) ≡ some ino)
    (was : row_at fs.db ino ≡ some r) (small : link_count fs.db ino < 2 ^ 32)
    (e : unlink now fs parent name ≡ ok fs') where
  unlink-runs : (is_dir_mode r.mode ≡ false) × (unlinked now fs parent name ino ≡ fs')
  unfolding unlink
  unlink-runs = ground (arith, lookup_child-entry_at fs.db parent name h.distinct)

  apart : parent ≢ ino
  apart = λ at.
      let d : is_dir_row (row_at fs.db ino) ≡ true =
        rw at at (h.parents (parent, name) ino entry) in
      let nd : is_dir_row (row_at fs.db ino) ≡ false = rw was unlink-runs.0 in
      false≢true (sym nd ∙ d)

  -- the database when the entry is gone and the count has fallen
  abbrev counted : Db
  counted =
      update_inode ino (λ s. record s { nlink = dec s.nlink; ctime = now })
        (update_inode parent (touch now)
          (record fs.db { dentries = delete (parent, name) fs.db.dentries }))

  counted_row : row_at counted ino ≡ some (record r { nlink = dec r.nlink; ctime = now })
  counted_row =
      select-update_self ino (λ s. record s { nlink = dec s.nlink; ctime = now })
        (update parent (touch now) fs.db.inodes) r
        (select-update_ne parent ino (touch now) fs.db.inodes (λ at. apart (sym at)) ∙ was)

  some_name : link_count fs.db ino ≢ 0
  some_name none_left =
      let miss : nat_beq ino ino ≡ false =
        select_of_count-zero (λ (k : Entry) (v : ℕ). nat_beq v ino) (parent, name) fs.db.dentries
          ino none_left entry in
      ground arith

  -- the count is 0 now exactly if the name was the last one
  counted_zero : nat_beq (get_link_count counted ino) 0 ≡ nat_beq (link_count fs.db ino) 1
  unfolding get_link_count
  counted_zero =
      let count : get_link_count counted ino ≡ as_u32 (dec r.nlink) =
        rw (get_link_count, counted_row) refl in
      let links : r.nlink ≡ pos (link_count fs.db ino) = h.links ino r was unlink-runs.0 in
      let fell : dec (pos (link_count fs.db ino)) ≡ pos (link_count fs.db ino - 1) =
        dec-pos (link_count fs.db ino) (link_count fs.db ino - 1) (ground (arith, some_name)) in
      let value : get_link_count counted ino ≡ (link_count fs.db ino - 1) % 2 ^ 32 =
        count ∙ ap as_u32 (ap dec links ∙ fell) in
      ground (arith, some_name)

  is_dropped : fs'.db ≡ drop_if_unlinked ino counted
  unfolding unlinked
  is_dropped = ap (λ (s : Fs). s.db) (sym unlink-runs.1)

  -- Where the namespace is well formed, the entry names an inode with a row and fewer than 2^32
  -- names, and `unlink` succeeds: exactly that entry is gone, and every other entry stays.
  unlink-entry :
      (entry_at fs'.db (parent, name) ≡ none)
      × ((j : Entry) → j ≢ (parent, name) → entry_at fs'.db j ≡ entry_at fs.db j)
  unlink-entry =
      let gone : (j : Entry)
          → entry_at fs'.db j ≡ (if entry_beq j (parent, name) then none else entry_at fs.db j) =
        λ j.
          ap (λ (d : Db). entry_at d j) is_dropped
          ∙ ap (select j) (drop_if_unlinked-rest ino counted).0
          ∙ select-delete_where (λ (k : Entry). entry_beq k (parent, name)) j fs.db.dentries in
      (
        ground (arith, gone (parent, name), entry_beq_iff (parent, name) (parent, name)),
        λ j other. ground (arith, gone j, entry_beq_iff j (parent, name)),
      )

  -- Where the namespace is well formed, the entry names an inode with a row and fewer than 2^32
  -- names, and `unlink` succeeds: the last name of the inode takes the row and every chunk of
  -- the inode with it; another name only lowers the link count, sets the change time and keeps
  -- the chunks; the chunks of other inodes stay.
  pub unlink-inode :
      (row_at fs'.db ino ≡ (
        if nat_beq (link_count fs.db ino) 1
        then none
        else some (record r { nlink = dec r.nlink; ctime = now })))
      × ((c : ℕ)
          → select (ino, c) fs'.db.chunks
            ≡ (if nat_beq (link_count fs.db ino) 1 then none else select (ino, c) fs.db.chunks))
      × ((i c : ℕ) → i ≢ ino → select (i, c) fs'.db.chunks ≡ select (i, c) fs.db.chunks)
  unlink-inode = rw is_dropped (
    (rw (drop_if_unlinked-here ino counted, counted_zero, counted_row) refl),
    (λ c. ground (arith, drop_if_unlinked-chunks ino counted ino c, counted_zero)),
    (λ i c other. ground (arith, drop_if_unlinked-chunks ino counted i c)),
  )
