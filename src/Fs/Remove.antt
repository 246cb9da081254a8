-- ===== src/Fs/Remove.antt =====
-- `unlink` and `rmdir` keep the namespace well formed.
use mathlib.Core.Bool.{false≢true}
use mathlib.Core.Path.{subst}
use airyfs.Prelude.{
  ℕ, ◌^◌, ◌<◌, ◌≡◌, ◌≢◌, refl, sym, ◌∙◌, true, false, some, Option-cases, inl, inr, arith, nat_beq,
  nat_eq, entry_eq,
}
use airyfs.Prelude.Int.{dec}
use airyfs.Prelude.Table.{
  select, update, delete, select-update_ne, select-update_self, select_of_count-zero,
}
use airyfs.Mode.{Stamp, ok, is_dir_mode}
use airyfs.Db.{Bytes, Inode, Db, update_inode}
use airyfs.Fs.{Fs, Entry, touch, is_dir_row}
use airyfs.Fs.Delete.{
  unlink, unlinked, rmdir, removed_dir, drop_if_unlinked, drop_dir_if_unlinked, child_count,
}
use airyfs.Fs.WellFormed.{IsWellFormed, IsDir, row_at, entry_at, link_count, lookup_child-entry_at}
use airyfs.Fs.Drop.{
  Keeps-update, drop_if_unlinked-others, drop_if_unlinked-here, drop_if_unlinked-rest,
  drop_dir_if_unlinked-others, drop_dir_if_unlinked-here, drop_dir_if_unlinked-rest,
  dropped-IsWellFormed,
}

module _ (now : Stamp) (fs : Fs) (parent : ℕ) (name : Bytes) (ino : ℕ) (h : IsWellFormed fs.db)
    (entry : entry_at fs.db (parent, name) ≡ some ino) (small : link_count fs.db ino < 2 ^ 32) where
  -- the parent is a directory
  parent-IsDir : IsDir fs.db parent
  parent-IsDir = h.parents (parent, name) ino entry

  unlinked-IsWellFormed :
      is_dir_row (row_at fs.db ino) ≡ false → IsWellFormed (unlinked now fs parent name ino).db
  unfolding unlinked
  unlinked-IsWellFormed file = elim (Option-cases (row_at fs.db ino)) [
    | inl absent ↦ absurd (h.targets (parent, name) ino entry absent)
    | inr (r, was) ↦
        let cut : Db = record fs.db { dentries = delete (parent, name) fs.db.dentries } in
        let touched : Db = update_inode parent (touch now) cut in
        let f : Inode → Inode = λ s. record s { nlink = dec s.nlink; ctime = now } in
        let counted : Db = update_inode ino f touched in
        let apart : parent ≢ ino =
          λ at. let d : IsDir fs.db ino = rw at at parent-IsDir in false≢true (sym file ∙ d) in
        dropped-IsWellFormed fs.db counted (drop_if_unlinked ino counted) (parent, name) ino r (f r)
          h entry (drop_if_unlinked-rest ino counted).0 (drop_if_unlinked-rest ino counted).1
          (λ i other.
            rw (select-update_ne ino i f touched.inodes other)
              (Keeps-update fs.db.inodes parent i (touch now) (λ s. refl) (λ s _ _ _. refl)))
          was
          (select-update_self ino f touched.inodes r
            (select-update_ne parent ino (touch now) fs.db.inodes (λ at. apart (sym at)) ∙ was))
          refl refl small
          (λ d.
            absurd (let nd : is_dir_mode r.mode ≡ false = ground arith in false≢true (sym nd ∙ d)))
          (drop_if_unlinked-others ino counted) (drop_if_unlinked-here ino counted)
  ]

  removed_dir-IsWellFormed :
      (r : Inode)
      → row_at fs.db ino ≡ some r
      → is_dir_mode r.mode ≡ true
      → child_count fs.db ino ≡ 0
      → IsWellFormed (removed_dir now fs parent name ino).db
  unfolding removed_dir
  removed_dir-IsWellFormed r was d empty =
      let no_child : (j : Entry) (i : ℕ) → entry_at fs.db j ≡ some i → j.0 ≢ ino = λ j i e at.
        let miss : nat_beq j.0 ino ≡ false =
          select_of_count-zero (λ (k : Entry) (v : ℕ). nat_beq k.0 ino) j fs.db.dentries i
            (unfold child_count in empty) e in
        ground arith in
      let apart : parent ≢ ino = λ at. no_child (parent, name) ino entry at in
      let f : Inode → Inode = λ s. record s { nlink = dec s.nlink } in
      let g : Inode → Inode = λ s. record s { nlink = dec s.nlink; ctime = now; mtime = now } in
      let cut : Db = record fs.db { dentries = delete (parent, name) fs.db.dentries } in
      let counted : Db = update_inode parent g (update_inode ino f cut) in
      dropped-IsWellFormed fs.db counted (drop_dir_if_unlinked ino counted) (parent, name) ino r
        (f r) h entry (drop_dir_if_unlinked-rest ino counted).0
        (drop_dir_if_unlinked-rest ino counted).1
        (λ i other.
          let kept : select i (update ino f fs.db.inodes) ≡ row_at fs.db i =
            select-update_ne ino i f fs.db.inodes other in
          rw (← kept) (
            Keeps-update (update ino f fs.db.inodes) parent i g (λ s. refl)
              (λ s at there nd.
                let is_dir : is_dir_mode s.mode ≡ true = ground (arith, parent-IsDir) in
                absurd (false≢true (sym nd ∙ is_dir)))))
        was
        (select-update_ne parent ino g (update ino f fs.db.inodes) (λ at. apart (sym at))
          ∙ select-update_self ino f fs.db.inodes r was)
        refl refl small (λ _. no_child) (drop_dir_if_unlinked-others ino counted)
        (drop_dir_if_unlinked-here ino counted)

-- Both operations, where they succeed, keep the namespace well formed.
module _ (now : Stamp) (fs fs' : Fs) (parent : ℕ) (name : Bytes) (h : IsWellFormed fs.db)
    (small : (ino : ℕ) → link_count fs.db ino < 2 ^ 32) where
  -- If the namespace is well formed and no inode has 2^32 names, then it is well formed after
  -- every `unlink` that succeeds.
  pub unlink-IsWellFormed : unlink now fs parent name ≡ ok fs' → IsWellFormed fs'.db
  unfolding unlink
  unlink-IsWellFormed e = elim (Option-cases (entry_at fs.db (parent, name))) [
    | inl absent ↦ absurd (ground (arith, lookup_child-entry_at fs.db parent name h.distinct))
    | inr (ino, entry) ↦
        let done : (is_dir_row (row_at fs.db ino) ≡ false)
            × (unlinked now fs parent name ino ≡ fs') =
          ground (arith, lookup_child-entry_at fs.db parent name h.distinct) in
        subst (λ (s : Fs). IsWellFormed s.db) done.1
          (unlinked-IsWellFormed now fs parent name ino h entry (small ino) done.0)
  ]

  -- If the namespace is well formed and no inode has 2^32 names, then it is well formed after
  -- every `rmdir` that succeeds.
  pub rmdir-IsWellFormed : rmdir now fs parent name ≡ ok fs' → IsWellFormed fs'.db
  unfolding rmdir
  rmdir-IsWellFormed e = elim (Option-cases (entry_at fs.db (parent, name))) [
    | inl absent ↦ absurd (ground (arith, lookup_child-entry_at fs.db parent name h.distinct))
    | inr (ino, entry) ↦ elim (Option-cases (row_at fs.db ino)) [
      | inl gone ↦ absurd (h.targets (parent, name) ino entry gone)
      | inr (r, was) ↦
          let done : (is_dir_mode r.mode ≡ true)
              × (child_count fs.db ino ≡ 0)
              × (removed_dir now fs parent name ino ≡ fs') =
            ground (arith, lookup_child-entry_at fs.db parent name h.distinct) in
          subst (λ (s : Fs). IsWellFormed s.db) done.2
            (removed_dir-IsWellFormed now fs parent name ino h entry (small ino) r was done.0
              done.1)
    ]
  ]
