-- ===== src/Fs/Create.antt =====
-- The operations that create an entry keep the namespace well formed.
use mathlib.Core.Bool.{false≢true}
use mathlib.Core.Path.{subst}
use airyfs.Prelude.{
  ℕ, ◌+◌, ◌≡◌, ◌≢◌, refl, sym, ap, ◌∙◌, true, false, none, some, Option-cases, Bool-cases, inl, inr,
  List, ◌∷◌, arith, length, nat_beq, nat_eq,
}
use airyfs.Prelude.Int.{pos, inc}
use airyfs.Prelude.Table.{select, update, select-update}
use airyfs.Mode.{Stamp, Stats, ok, ◌>>◌, is_dir_mode, s_ifdir, s_ifreg, s_iflnk, permissions}
use airyfs.Db.{Bytes, Inode, Db}
use airyfs.File.{FileHandle}
use airyfs.Fs.{Fs, touch, is_dir_row}
use airyfs.Fs.Make.{
  check_new, mkdir, made_dir, create_file, created_file, mknod, made_node, symlink, made_symlink,
  new_inode,
}
use airyfs.Fs.WellFormed.Add.{IsWellFormed-create}
use airyfs.Fs.WellFormed.{IsWellFormed, Keeps, IsDir, entry_at, dir_exists, check_new_ok}

-- An update of a directory's row that leaves its kind keeps every row.
module _ (rows rows' : List (ℕ × Inode)) (parent ino : ℕ) (row : Inode) (g : Inode → Inode)
    (dir : is_dir_row (select parent rows) ≡ true) (apart : parent ≢ ino)
    (kind : (r : Inode) → (g r).mode ≡ r.mode)
    (others : (i : ℕ) → i ≢ ino → select i rows' ≡ select i rows)
    (new : select ino rows' ≡ some row) where
  parent_kept : (i : ℕ) → i ≢ ino → Keeps (select i rows) (select i (update parent g rows'))
  parent_kept i other = elim (Option-cases (select i rows)) [
    | inl absent ↦
        rw (select-update parent i g, others i other, absent)
          (elim (Bool-cases (nat_beq parent i)) [ inl at ↦ rw at tt | inr off ↦ rw off tt ])
    | inr (r, there) ↦
        rw (select-update parent i g, others i other, there)
          (elim (Bool-cases (nat_beq parent i)) [
            | inl at ↦ rw at (
              ap is_dir_mode (kind r),
              λ nd.
                  absurd
                    (false≢true (sym nd ∙ (let d : is_dir_mode r.mode ≡ true = ground arith in d))),
            )
            | inr off ↦ rw off (refl, λ _. refl)
          ])
  ]

  row_kept : select ino (update parent g rows') ≡ some row
  row_kept = rw (select-update parent ino g, new) (ground arith)

-- A row that was just inserted, and one whose link count is then set.
module _ (m : List (ℕ × Inode)) (ino : ℕ) (row : Inode) (f : Inode → Inode) where
  inserted_others : (i : ℕ) → i ≢ ino → select i ((ino, row) ∷ m) ≡ select i m
  unfolding select
  inserted_others i apart = ground arith

  inserted_new : select ino ((ino, row) ∷ m) ≡ some row
  unfolding select
  inserted_new = ground arith

  counted_others : (i : ℕ) → i ≢ ino → select i (update ino f ((ino, row) ∷ m)) ≡ select i m
  counted_others i apart = rw (select-update, inserted_others i apart) (ground arith)

  counted_new : select ino (update ino f ((ino, row) ∷ m)) ≡ some (f row)
  counted_new = rw (select-update, inserted_new) (ground arith)

module _ (now : Stamp) (fs : Fs) (parent : ℕ) (name : Bytes) (uid gid : ℕ) (h : IsWellFormed fs.db)
    (dir : IsDir fs.db parent) (absent : entry_at fs.db (parent, name) ≡ none) where
  -- the parent is no new inode
  old_parent : parent ≢ fs.db.last_ino + 1
  old_parent = omega (arith, h.fresh parent (dir_exists fs.db parent dir))

  -- what the four operations share
  module _ (db' : Db) (rows' : List (ℕ × Inode)) (row : Inode) (g : Inode → Inode)
      (inodes : db'.inodes ≡ update parent g rows')
      (entries : db'.dentries ≡ ((parent, name), fs.db.last_ino + 1) ∷ fs.db.dentries)
      (last : db'.last_ino ≡ fs.db.last_ino + 1) (kind : (r : Inode) → (g r).mode ≡ r.mode)
      (others : (i : ℕ) → i ≢ fs.db.last_ino + 1 → select i rows' ≡ select i fs.db.inodes)
      (new : select (fs.db.last_ino + 1) rows' ≡ some row)
      (one : is_dir_mode row.mode ≡ false → row.nlink ≡ pos 1) where
    child-IsWellFormed : IsWellFormed db'
    child-IsWellFormed =
        IsWellFormed-create db' (parent, name) row h absent dir entries last
          (λ i apart. rw inodes (
            parent_kept fs.db.inodes rows' parent (fs.db.last_ino + 1) row g dir old_parent kind
              others new i apart))
          (rw inodes (
            row_kept fs.db.inodes rows' parent (fs.db.last_ino + 1) row g dir old_parent kind others
              new))
          one

  made_dir-IsWellFormed : (mode : ℕ) → IsWellFormed (made_dir now fs parent name mode uid gid).db
  unfolding made_dir
  made_dir-IsWellFormed mode =
      let row : Inode = new_inode (s_ifdir + permissions mode) (pos 0) uid gid 0 0 now in
      let f : Inode → Inode = λ r. record r { nlink = pos 2 } in
      let dir_mode : is_dir_mode row.mode ≡ true = ground arith in
      child-IsWellFormed _ (update _ f ((_, row) ∷ fs.db.inodes)) (f row)
        (λ r. record r { nlink = inc r.nlink; ctime = now; mtime = now }) refl refl refl (λ r. refl)
        (counted_others fs.db.inodes _ row f) (counted_new fs.db.inodes _ row f)
        (λ nd. absurd (false≢true (sym nd ∙ dir_mode)))

  created_file-IsWellFormed :
      (mode : ℕ) → IsWellFormed (created_file now fs parent name mode uid gid).db
  unfolding created_file
  created_file-IsWellFormed mode =
      let row : Inode = new_inode (s_ifreg + permissions mode) (pos 1) uid gid 0 0 now in
      child-IsWellFormed _ ((_, row) ∷ fs.db.inodes) row (touch now) refl refl refl (λ r. refl)
        (inserted_others fs.db.inodes _ row (touch now))
        (inserted_new fs.db.inodes _ row (touch now)) (λ nd. refl)

  made_node-IsWellFormed :
      (mode rdev : ℕ) → IsWellFormed (made_node now fs parent name mode rdev uid gid).db
  unfolding made_node
  made_node-IsWellFormed mode rdev =
      let row : Inode = new_inode mode (pos 0) uid gid 0 rdev now in
      let f : Inode → Inode = λ r. record r { nlink = inc r.nlink } in
      child-IsWellFormed _ (update _ f ((_, row) ∷ fs.db.inodes)) (f row) (touch now) refl refl refl
        (λ r. refl) (counted_others fs.db.inodes _ row f) (counted_new fs.db.inodes _ row f)
        (λ nd. refl)

  made_symlink-IsWellFormed :
      (target : Bytes) → IsWellFormed (made_symlink now fs parent name target uid gid).db
  unfolding made_symlink
  made_symlink-IsWellFormed target =
      let row : Inode = new_inode (s_iflnk + 0o777) (pos 0) uid gid (length target) 0 now in
      let f : Inode → Inode = λ r. record r { nlink = inc r.nlink } in
      child-IsWellFormed _ (update _ f ((_, row) ∷ fs.db.inodes)) (f row) (touch now) refl refl refl
        (λ r. refl) (counted_others fs.db.inodes _ row f) (counted_new fs.db.inodes _ row f)
        (λ nd. refl)

-- An operation that checks first and then creates succeeds exactly when the check does.
pub check_new-bind :
    {A : Type 0} (db : Db) (parent : ℕ) (name : Bytes) (made out : A)
    → IsWellFormed db
    → (check_new db parent name >> ok made) ≡ ok out
    → (entry_at db (parent, name) ≡ none) × (made ≡ out)
check_new-bind db parent name made out h e = ground (arith, check_new_ok db parent name h)

-- Each of the four operations, where it succeeds, keeps the namespace well formed.
module _ (now : Stamp) (fs : Fs) (parent : ℕ) (name : Bytes) (uid gid : ℕ) (h : IsWellFormed fs.db)
    (dir : IsDir fs.db parent) where
  -- If the namespace is well formed and the parent is a directory, then the namespace is well
  -- formed after every `mkdir` that succeeds.
  pub mkdir-IsWellFormed :
      (mode : ℕ) (stats : Stats) (fs' : Fs)
      → mkdir now fs parent name mode uid gid ≡ ok (stats, fs')
      → IsWellFormed fs'.db
  unfolding mkdir
  mkdir-IsWellFormed mode stats fs' e =
      let (absent, is) = check_new-bind fs.db parent name _ (stats, fs') h e in
      subst (λ (r : Stats × Fs). IsWellFormed r.1.db) is
        (made_dir-IsWellFormed now fs parent name uid gid h dir absent mode)

  -- If the namespace is well formed and the parent is a directory, then the namespace is well
  -- formed after every `create_file` that succeeds.
  pub create_file-IsWellFormed :
      (mode : ℕ) (stats : Stats) (file : FileHandle) (fs' : Fs)
      → create_file now fs parent name mode uid gid ≡ ok (stats, file, fs')
      → IsWellFormed fs'.db
  unfolding create_file
  create_file-IsWellFormed mode stats file fs' e =
      let (absent, is) = check_new-bind fs.db parent name _ (stats, file, fs') h e in
      subst (λ (r : Stats × FileHandle × Fs). IsWellFormed r.2.db) is
        (created_file-IsWellFormed now fs parent name uid gid h dir absent mode)

  -- If the namespace is well formed and the parent is a directory, then the namespace is well
  -- formed after every `mknod` that succeeds, for any mode.
  pub mknod-IsWellFormed :
      (mode rdev : ℕ) (stats : Stats) (fs' : Fs)
      → mknod now fs parent name mode rdev uid gid ≡ ok (stats, fs')
      → IsWellFormed fs'.db
  unfolding mknod
  mknod-IsWellFormed mode rdev stats fs' e =
      let (absent, is) = check_new-bind fs.db parent name _ (stats, fs') h e in
      subst (λ (r : Stats × Fs). IsWellFormed r.1.db) is
        (made_node-IsWellFormed now fs parent name uid gid h dir absent mode rdev)

  -- If the namespace is well formed and the parent is a directory, then the namespace is well
  -- formed after every `symlink` that succeeds.
  pub symlink-IsWellFormed :
      (target : Bytes) (stats : Stats) (fs' : Fs)
      → symlink now fs parent name target uid gid ≡ ok (stats, fs')
      → IsWellFormed fs'.db
  unfolding symlink
  symlink-IsWellFormed target stats fs' e =
      let (absent, is) = check_new-bind fs.db parent name _ (stats, fs') h e in
      subst (λ (r : Stats × Fs). IsWellFormed r.1.db) is
        (made_symlink-IsWellFormed now fs parent name uid gid h dir absent target)
