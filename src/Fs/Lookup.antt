-- ===== src/Fs/Lookup.antt =====
-- A name that was just created is found, with the attributes that the creating call has returned.
use mathlib.Core.Path.{subst}
use airyfs.Prelude.{
  ℕ, ◌+◌, ◌%◌, ◌^◌, ◌≤◌, ◌<◌, ◌≡◌, ◌≢◌, refl, sym, ap, ◌∙◌, false, some, List, ◌∷◌, arith, length,
  nat_eq, entry_eq, entry_beq_iff, bytes_beq, bytes_beq_iff, ltb,
}
use airyfs.Prelude.Int.{pos, inc}
use airyfs.Prelude.Table.{select, update, select-update}
use airyfs.Mode.{already_exists, err, Stamp, Stats, ok, s_ifdir, s_ifreg, permissions, max_name_len}
use airyfs.Db.{Bytes, Inode, build_stats}
use airyfs.File.{FileHandle}
use airyfs.Fs.{Fs, Entry, lookup, found_child, getattr, touch, dot_dot, cached_as}
use airyfs.Fs.Make.{check_new, create_file, created_file, mkdir, made_dir, new_inode, new_stats}
use airyfs.Fs.Create.{check_new-bind, create_file-IsWellFormed, mkdir-IsWellFormed}
use airyfs.Fs.WellFormed.{
  IsWellFormed, IsDir, row_at, entry_at, lookup_child-entry_at, check_new_ok, dir_exists,
}

-- `lookup` reports the row that the entry names, and caches the entry.
lookup-found :
    (fs : Fs) (parent : ℕ) (name : Bytes) (ino : ℕ) (r : Inode)
    → IsWellFormed fs.db
    → length name ≤ max_name_len
    → name ≢ dot_dot
    → entry_at fs.db (parent, name) ≡ some ino
    → row_at fs.db ino ≡ some r
    → lookup fs parent name ≡ ok (some (build_stats ino r), cached_as (parent, name) ino fs)
unfolding lookup found_child getattr
lookup-found fs parent name ino r h short plain entry was =
    let not_dots : bytes_beq name dot_dot ≡ false = ground (arith, bytes_beq_iff name dot_dot) in
    let fits : ltb max_name_len (length name) ≡ false = ground arith in
    rw (fits, not_dots, lookup_child-entry_at fs.db parent name h.distinct, entry, found_child, was)
      refl

-- A row that was just inserted, when the parent has been updated, and when its count was set first.
row_inserted :
    (rows : List (ℕ × Inode)) (parent ino : ℕ) (row : Inode) (g : Inode → Inode)
    → parent ≢ ino
    → select ino (update parent g ((ino, row) ∷ rows)) ≡ some row
unfolding select
row_inserted rows parent ino row g apart =
    ground (arith, select-update parent ino g ((ino, row) ∷ rows))

pub row_counted :
    (rows : List (ℕ × Inode)) (parent ino : ℕ) (row : Inode) (f g : Inode → Inode)
    → parent ≢ ino
    → select ino (update parent g (update ino f ((ino, row) ∷ rows))) ≡ some (f row)
unfolding select update
row_counted rows parent ino row f g apart =
    ground (arith, select-update parent ino g (update ino f ((ino, row) ∷ rows)))

pub entry_inserted :
    (entries : List (Entry × ℕ)) (k : Entry) (ino : ℕ) → select k ((k, ino) ∷ entries) ≡ some ino
unfolding select
entry_inserted entries k ino = ground (arith, entry_beq_iff k k)

module _ (now : Stamp) (fs fs' : Fs) (parent : ℕ) (name : Bytes) (mode uid gid : ℕ) (stats : Stats)
    (h : IsWellFormed fs.db) (dir : IsDir fs.db parent) (plain : name ≢ dot_dot)
    (uid_fits : uid < 2 ^ 32) (gid_fits : gid < 2 ^ 32) where
  apart : parent ≢ fs.db.last_ino + 1
  apart = omega (arith, h.fresh parent (dir_exists fs.db parent dir))

  stats_of_row :
      (kind nlink : ℕ)
      → kind ≤ 0o170000
      → nlink ≤ 2
      → build_stats
          (fs.db.last_ino + 1)
          (new_inode (kind + permissions mode) (pos nlink) uid gid 0 0 now)
        ≡ new_stats (fs.db.last_ino + 1) (kind + permissions mode) nlink uid gid 0 0 now
  unfolding build_stats
  stats_of_row kind nlink k n =
      let m : (kind + permissions mode) % 2 ^ 32 ≡ kind + permissions mode = omega arith in
      let l : nlink % 2 ^ 32 ≡ nlink = omega arith in
      let u : uid % 2 ^ 32 ≡ uid = omega arith in
      let g : gid % 2 ^ 32 ≡ gid = omega arith in rw (m, l, u, g) refl

  short_name : check_new fs.db parent name ≡ ok tt → length name ≤ max_name_len
  short_name e = (check_new_ok fs.db parent name h e).1

  -- In a well-formed namespace, after `create_file` in a directory has succeeded, for a name
  -- other than `..` and a user and a group below 2^32, `lookup` of the name finds exactly the
  -- attributes that `create_file` has returned, and caches the entry.
  pub create_file-lookup :
      (file : FileHandle)
      → create_file now fs parent name mode uid gid ≡ ok (stats, file, fs')
      → lookup fs' parent name ≡ ok (some stats, cached_as (parent, name) stats.ino fs')
  unfolding create_file created_file
  create_file-lookup file e =
      let is = (check_new-bind fs.db parent name _ (stats, file, fs') h e).1 in
      let short = short_name (ground arith) in
      let row : Inode = new_inode (s_ifreg + permissions mode) (pos 1) uid gid 0 0 now in
      let made : Fs = created_file now fs parent name mode uid gid in
      let formed : IsWellFormed made.db =
        subst (λ (r : Stats × FileHandle × Fs). IsWellFormed r.2.db) (sym is)
          (create_file-IsWellFormed now fs parent name uid gid h dir mode stats file fs' e) in
      subst
        (λ (r : Stats × FileHandle × Fs).
          lookup r.2 parent name ≡ ok (some r.0, cached_as (parent, name) r.0.ino r.2))
        is
        (lookup-found made parent name (fs.db.last_ino + 1) row formed short plain
            (entry_inserted fs.db.dentries (parent, name) (fs.db.last_ino + 1))
            (row_inserted fs.db.inodes parent (fs.db.last_ino + 1) row (touch now) apart)
          ∙ ap (λ (s : Stats). ok (some s, cached_as (parent, name) (fs.db.last_ino + 1) made))
              (stats_of_row s_ifreg 1 (omega arith) (omega arith)))

  -- In a well-formed namespace, after `mkdir` in a directory has succeeded, for a name other
  -- than `..` and a user and a group below 2^32, `lookup` of the name finds exactly the
  -- attributes that `mkdir` has returned, and caches the entry.
  mkdir-lookup :
      mkdir now fs parent name mode uid gid ≡ ok (stats, fs')
      → lookup fs' parent name ≡ ok (some stats, cached_as (parent, name) stats.ino fs')
  unfolding mkdir made_dir
  mkdir-lookup e =
      let is = (check_new-bind fs.db parent name _ (stats, fs') h e).1 in
      let short = short_name (ground arith) in
      let row : Inode = new_inode (s_ifdir + permissions mode) (pos 0) uid gid 0 0 now in
      let f : Inode → Inode = λ r. record r { nlink = pos 2 } in
      let made : Fs = made_dir now fs parent name mode uid gid in
      let formed : IsWellFormed made.db =
        subst (λ (r : Stats × Fs). IsWellFormed r.1.db) (sym is)
          (mkdir-IsWellFormed now fs parent name uid gid h dir mode stats fs' e) in
      subst
        (λ (r : Stats × Fs).
          lookup r.1 parent name ≡ ok (some r.0, cached_as (parent, name) r.0.ino r.1))
        is
        (lookup-found made parent name (fs.db.last_ino + 1) (f row) formed short plain
            (entry_inserted fs.db.dentries (parent, name) (fs.db.last_ino + 1))
            (row_counted fs.db.inodes parent (fs.db.last_ino + 1) row f
              (λ r. record r { nlink = inc r.nlink; ctime = now; mtime = now }) apart)
          ∙ ap (λ (s : Stats). ok (some s, cached_as (parent, name) (fs.db.last_ino + 1) made))
              (stats_of_row s_ifdir 2 (omega arith) (omega arith)))

module _ (now now' : Stamp) (fs fs' : Fs) (parent : ℕ) (name : Bytes) (uid gid mode : ℕ)
    (h : IsWellFormed fs.db) (dir : IsDir fs.db parent) where
  -- In a well-formed namespace, after `create_file` in a directory has succeeded, every further
  -- `create_file` of the same name there fails with `already_exists`, whatever its mode and
  -- owner.
  create_file-again :
      (stats : Stats) (file : FileHandle) (mode' uid' gid' : ℕ)
      → create_file now fs parent name mode uid gid ≡ ok (stats, file, fs')
      → create_file now' fs' parent name mode' uid' gid' ≡ err already_exists
  unfolding create_file created_file check_new
  create_file-again stats file mode' uid' gid' e =
      let is = (check_new-bind fs.db parent name _ (stats, file, fs') h e).1 in
      let short : length name ≤ max_name_len =
        (check_new_ok fs.db parent name h (ground arith)).1 in
      let fits : ltb max_name_len (length name) ≡ false = ground arith in
      let formed : IsWellFormed fs'.db =
        create_file-IsWellFormed now fs parent name uid gid h dir mode stats file fs' e in
      let entry : entry_at fs'.db (parent, name) ≡ some (fs.db.last_ino + 1) =
        subst
          (λ (r : Stats × FileHandle × Fs).
            entry_at r.2.db (parent, name) ≡ some (fs.db.last_ino + 1))
          is (entry_inserted fs.db.dentries (parent, name) (fs.db.last_ino + 1)) in
      rw (fits, lookup_child-entry_at fs'.db parent name formed.distinct, entry) refl
