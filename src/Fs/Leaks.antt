-- ===== src/Fs/Leaks.antt =====
-- Two behaviours at the edge of the code's intention: what `rmdir` leaves behind, and `rename` of a
-- file to the name that it has.
use airyfs.Prelude.{
  ℕ, ◌^◌, ◌<◌, ◌≡◌, ◌≢◌, refl, sym, ap, ◌∙◌, true, false, Option, none, some, arith, nat_beq,
  nat_eq, entry_eq, pair_eq,
}
use airyfs.Prelude.Int.{ℤ, pos, dec, as_u32}
use airyfs.Prelude.Table.{
  delete, select-update_ne, select-update_self, select_of_count-zero, count-delete,
}
use airyfs.Mode.{Stamp, Stats, ok, is_dir_mode, is_directory}
use airyfs.Db.{Bytes, Inode, Db, update_inode, build_stats}
use airyfs.Fs.{Fs, Entry, getattr, get_link_count}
use airyfs.Fs.Delete.{rmdir, removed_dir, drop_dir_if_unlinked, drop_if_unlinked, child_count}
use airyfs.Fs.Move.{rename, replace_target, move_entry, rekey}
use airyfs.Fs.Drop.{drop_dir_if_unlinked-here, drop_dir_if_unlinked-rest, drop_if_unlinked-here}
use airyfs.Fs.Rename.Target.{is_directory-build_stats, replace_target-Cleared}
use airyfs.Fs.Rename.Rows.{move_entry-Keeps, move_entry-rest}
use airyfs.Fs.WellFormed.{
  IsWellFormed, IsDir, row_at, entry_at, link_count, names_inode, Keeps, lookup_child-entry_at,
}

module _ (now : Stamp) (fs fs' : Fs) (parent : ℕ) (name : Bytes) (ino : ℕ) (r : Inode)
    (h : IsWellFormed fs.db) (entry : entry_at fs.db (parent, name) ≡ some ino)
    (was : row_at fs.db ino ≡ some r) (two : r.nlink ≡ pos 2)
    (e : rmdir now fs parent name ≡ ok fs') where
  rmdir-runs :
      (is_dir_mode r.mode ≡ true)
      × (child_count fs.db ino ≡ 0)
      × (removed_dir now fs parent name ino ≡ fs')
  unfolding rmdir
  rmdir-runs = ground (arith, lookup_child-entry_at fs.db parent name h.distinct)

  apart : parent ≢ ino
  apart at =
      let miss : nat_beq parent ino ≡ false =
        select_of_count-zero (λ (k : Entry) (v : ℕ). nat_beq k.0 ino) (parent, name) fs.db.dentries
          ino (unfold child_count in rmdir-runs.1) entry in
      ground arith

  -- the database before the last test
  abbrev counted : Db
  counted =
      update_inode parent (λ r. record r { nlink = dec r.nlink; ctime = now; mtime = now })
        (update_inode ino (λ r. record r { nlink = dec r.nlink })
          (record fs.db { dentries = delete (parent, name) fs.db.dentries }))

  counted_row : row_at counted ino ≡ some (record r { nlink = pos 1 })
  counted_row =
      select-update_ne parent ino _ _ (λ at. apart (sym at))
      ∙ select-update_self ino (λ r. record r { nlink = dec r.nlink }) fs.db.inodes r was
      ∙ ap (λ (n : ℤ). some (record r { nlink = dec n })) two

  is_dropped : fs'.db ≡ drop_dir_if_unlinked ino counted
  unfolding removed_dir
  is_dropped = ap (λ (s : Fs). s.db) (sym rmdir-runs.2)

  -- Where the namespace is well formed, a `rmdir` that succeeds on a directory with the link
  -- count 2, the count that `mkdir` sets, leaves its row in the table with the link count 1,
  -- and no entry that names it.
  pub rmdir-leaves_row :
      (row_at fs'.db ino ≡ some (record r { nlink = pos 1 })) × (link_count fs'.db ino ≡ 0)
  unfolding get_link_count
  rmdir-leaves_row =
      let one : get_link_count counted ino ≡ 1 = rw (get_link_count, counted_row) refl in
      let single = h.single ino r was rmdir-runs.0 in
      rw is_dropped (
        (rw (drop_dir_if_unlinked-here ino counted, one, counted_row) refl),
        (rw (drop_dir_if_unlinked-rest ino counted).0 (
            ground (
              arith,
              count-delete (names_inode ino) (parent, name) fs.db.dentries ino h.distinct entry,
            ))),
      )

Keeps-none : (o o' : Option Inode) → o ≡ none → Keeps o o' → o' ≡ none
Keeps-none none none e k = refl
Keeps-none none (some r) e k = absurd k
Keeps-none (some r) o' e k = cc

module _ (now_dst now : Stamp) (fs fs' : Fs) (parent : ℕ) (name : Bytes) (ino : ℕ) (r : Inode)
    (h : IsWellFormed fs.db) (small : (i : ℕ) → link_count fs.db i < 2 ^ 32)
    (entry : entry_at fs.db (parent, name) ≡ some ino) (was : row_at fs.db ino ≡ some r)
    (file : is_dir_mode r.mode ≡ false) (one : link_count fs.db ino ≡ 1)
    (e : rename now_dst now fs parent name parent name ≡ ok fs') where
  -- the database after the first half
  abbrev cut_db : Db
  cut_db =
      update_inode ino (λ s. record s { nlink = dec s.nlink; ctime = now_dst })
        (record fs.db { dentries = delete (parent, name) fs.db.dentries })

  abbrev cleared_db : Db
  cleared_db = drop_if_unlinked ino cut_db

  clears : replace_target now_dst fs.db (build_stats ino r) parent name (some ino) ≡ ok cleared_db
  unfolding replace_target getattr
  clears =
      let kind : is_directory (build_stats ino r) ≡ false = is_directory-build_stats ino r ∙ file in
      ground arith

  no_row : row_at cleared_db ino ≡ none
  unfolding get_link_count
  no_row =
      let there : row_at cut_db ino ≡ some (record r { nlink = dec r.nlink; ctime = now_dst }) =
        select-update_self ino (λ s. record s { nlink = dec s.nlink; ctime = now_dst }) fs.db.inodes
          r was in
      let links : r.nlink ≡ pos 1 = h.links ino r was file ∙ ap pos one in
      let zero_left : get_link_count cut_db ino ≡ 0 =
        rw (get_link_count, there) (ap (λ (n : ℤ). as_u32 (dec n)) links) in
      rw (drop_if_unlinked-here ino cut_db, zero_left) refl

  moves : fs'.db ≡ move_entry now cleared_db (build_stats ino r) (parent, name) (parent, name)
  unfolding rename getattr
  moves = ground (arith, lookup_child-entry_at fs.db parent name h.distinct, clears)

  -- Where the namespace is well formed and no inode has 2^32 names, a `rename` that succeeds of
  -- an entry to its own parent and name, for an inode that is no directory and has this one
  -- name, leaves neither the entry nor the row of the inode.
  pub rename-same_name : (row_at fs'.db ino ≡ none) × (entry_at fs'.db (parent, name) ≡ none)
  unfolding rekey
  rename-same_name =
      let k : Entry = (parent, name) in
      let src : Stats = build_stats ino r in
      let cleared =
        replace_target-Cleared now_dst fs.db src parent name h small (some ino) cleared_db entry
          clears in
      let dir : IsDir cleared_db parent = cleared.dirs k ino entry in
      rw moves (
        Keeps-none (row_at cleared_db ino) _ no_row
            (move_entry-Keeps now cleared_db src k k dir dir ino),
        (rw ((move_entry-rest now cleared_db src k k dir dir).0, rekey, cleared.free) cleared.free),
      )
