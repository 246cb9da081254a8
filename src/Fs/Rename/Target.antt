-- ===== src/Fs/Rename/Target.antt =====
-- The first half of `rename`: the entry at the destination goes.
use mathlib.Core.Bool.{false≢true}
use mathlib.Core.Path.{subst}
use airyfs.Prelude.{
  ℕ, ◌^◌, ◌≤◌, ◌<◌, ◌≡◌, ◌≢◌, refl, sym, ap, ◌∙◌, Bool, true, false, none, some, Option,
  Option-cases, length, Bool-cases, inl, inr, arith, nat_beq, nat_eq, entry_eq, entry_beq,
  entry_beq_iff,
}
use airyfs.Prelude.Int.{dec}
use airyfs.Prelude.Table.{
  length-delete_where, select, delete, select-update_ne, select-update_self, select-delete_where,
  select_of_count-zero,
}
use airyfs.Mode.{Stamp, Stats, ok, is_dir_mode, is_directory}
use airyfs.Db.{Bytes, Inode, Db, update_inode, build_stats}
use airyfs.Fs.{Entry, getattr, is_dir_row}
use airyfs.Fs.Delete.{drop_if_unlinked, child_count}
use airyfs.Fs.Move.{replace_target}
use airyfs.Fs.WellFormed.{IsWellFormed, IsDir, row_at, entry_at, link_count}
use airyfs.Fs.Drop.{
  Keeps-refl, drop_if_unlinked-others, drop_if_unlinked-here, drop_if_unlinked-rest,
  dropped-IsWellFormed,
}

-- The kind that `getattr` reports is that of the row.
pub is_directory-build_stats :
    (ino : ℕ) (r : Inode) → is_directory (build_stats ino r) ≡ is_dir_mode r.mode
unfolding build_stats
is_directory-build_stats ino r = ap (λ t. nat_beq t 0o040000) (omega arith)

-- What `rename` needs of the database when the destination's entry is gone.
pub record Cleared (db db' : Db) (k : Entry) : Type 0 where
  pub formed : IsWellFormed db'
  pub free : entry_at db' k ≡ none
  pub others : (j : Entry) → j ≢ k → entry_at db' j ≡ entry_at db j
  pub dirs : (j : Entry) (i : ℕ) → entry_at db j ≡ some i → IsDir db' j.0
  pub dir : IsDir db k.0 → IsDir db' k.0
  pub shorter : length db'.dentries ≤ length db.dentries

module _ (now : Stamp) (db : Db) (src : Stats) (parent : ℕ) (name : Bytes) (h : IsWellFormed db)
    (small : (ino : ℕ) → link_count db ino < 2 ^ 32) where
  replaced-Cleared :
      (dst : ℕ) (r : Inode)
      → entry_at db (parent, name) ≡ some dst
      → row_at db dst ≡ some r
      → (is_dir_mode r.mode ≡ true → child_count db dst ≡ 0)
      → Cleared db
          (drop_if_unlinked dst (
            update_inode dst
              (λ s. record s { nlink = dec s.nlink; ctime = now })
              (record db { dentries = delete (parent, name) db.dentries })))
          (parent, name)
  replaced-Cleared dst r entry was empty =
      let f : Inode → Inode = λ s. record s { nlink = dec s.nlink; ctime = now } in
      let cut : Db = record db { dentries = delete (parent, name) db.dentries } in
      let counted : Db = update_inode dst f cut in
      let db' : Db = drop_if_unlinked dst counted in
      let rest = drop_if_unlinked-rest dst counted in
      let at_name : Entry → Bool = λ (j : Entry). entry_beq j (parent, name) in
      let no_child : is_dir_mode r.mode ≡ true
          → (j : Entry) (i : ℕ) → entry_at db j ≡ some i
          → j.0 ≢ dst =
        λ d j i e at.
          let miss : nat_beq j.0 dst ≡ false =
            select_of_count-zero (λ (k : Entry) (v : ℕ). nat_beq k.0 dst) j db.dentries i
              (unfold child_count in empty d) e in
          ground arith in
      let not_dst : (j : Entry) (i : ℕ) → entry_at db j ≡ some i → j.0 ≢ dst = λ j i e.
        elim (Bool-cases (is_dir_mode r.mode)) [
          | inl d ↦ no_child d j i e
          | inr nd ↦ λ at.
              let d : is_dir_row (row_at db dst) ≡ true = rw at at (h.parents j i e) in
              let nd' : is_dir_row (row_at db dst) ≡ false = rw was nd in false≢true (sym nd' ∙ d)
        ] in
      let kept : (i : ℕ) → i ≢ dst → row_at db' i ≡ row_at db i = λ i apart.
        drop_if_unlinked-others dst counted i apart ∙ select-update_ne dst i f db.inodes apart in
      record {
        formed =
            dropped-IsWellFormed db counted db' (parent, name) dst r (f r) h entry rest.0 rest.1
              (λ i apart. rw (select-update_ne dst i f db.inodes apart) (Keeps-refl (row_at db i)))
              was (select-update_self dst f db.inodes r was) refl refl (small dst) no_child
              (drop_if_unlinked-others dst counted) (drop_if_unlinked-here dst counted);
        free =
            ap (select (parent, name)) rest.0
            ∙ ground (
              arith,
              select-delete_where at_name (parent, name) db.dentries,
              entry_beq_iff (parent, name) (parent, name),
            );
        others = λ j apart.
            ap (select j) rest.0
            ∙ ground
                (arith, select-delete_where at_name j db.dentries, entry_beq_iff j (parent, name));
        dirs = λ j i e. rw (kept j.0 (not_dst j i e)) (h.parents j i e);
        dir = λ d. rw (kept parent (not_dst (parent, name) dst entry)) d;
        shorter = rw rest.0 (length-delete_where at_name db.dentries);
      }

  -- What `rename` does to the destination, whether it exists or not.
  pub replace_target-Cleared :
      (target : Option ℕ) (db' : Db)
      → entry_at db (parent, name) ≡ target
      → replace_target now db src parent name target ≡ ok db'
      → Cleared db db' (parent, name)
  unfolding replace_target getattr
  replace_target-Cleared none db' entry e =
      let same : db ≡ db' = ground arith in
      subst (λ (d : Db). Cleared db d (parent, name)) same
        (record {
          formed = h;
          free = entry;
          others = λ j _. refl;
          dirs = h.parents;
          dir = λ d. d;
          shorter = omega arith;
        })
  replace_target-Cleared (some dst) db' entry e = elim (Option-cases (row_at db dst)) [
    | inl absent ↦ absurd (h.targets (parent, name) dst entry absent)
    | inr (r, was) ↦
        let done : (is_dir_mode r.mode ≡ true → child_count db dst ≡ 0)
            × (drop_if_unlinked dst (
                  update_inode dst (λ s. record s { nlink = dec s.nlink; ctime = now })
                    (record db { dentries = delete (parent, name) db.dentries }))
                ≡ db') =
          ground (arith, is_directory-build_stats dst r) in
        subst (λ (d : Db). Cleared db d (parent, name)) done.1
          (replaced-Cleared dst r entry was done.0)
  ]
