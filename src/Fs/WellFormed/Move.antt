-- ===== src/Fs/WellFormed/Move.antt =====
-- Entries stay, or one of them gets another key.
use airyfs.Prelude.{
  ℕ, ◌≡◌, sym, ◌∙◌, ap, none, some, ◌∷◌, arith, nat_eq, entry_eq, entry_beq, inl, inr,
}
use airyfs.Prelude.Table.{
  select, delete, count_where, select-delete_where, Distinct, Distinct-delete_where, count-delete,
}
use airyfs.Db.{Db}
use airyfs.Fs.{Entry}
use airyfs.Fs.WellFormed.{
  IsWellFormed, names_inode, link_count, row_at, entry_at, IsDir, Keeps, Keeps-row, Keeps-exists,
  Keeps-absent, Keeps-dir, entry_of_cons,
}

-- Rows change in ways that keep them, and the entries stay: the shape of `chmod` and the like.
module _ {db : Db} (db' : Db) (h : IsWellFormed db) (last : db'.last_ino ≡ db.last_ino)
    (same : (i : ℕ) → Keeps (row_at db i) (row_at db' i)) where
  -- with the same number of names for each inode, and entries that were there
  rows_kept :
      Distinct db'.dentries
      → ((j : Entry) (i : ℕ)
          → entry_at db' j ≡ some i
          → ((j' : Entry) × (entry_at db j' ≡ some i)) × IsDir db j.0)
      → ((i : ℕ) → link_count db' i ≡ link_count db i)
      → IsWellFormed db'
  rows_kept distinct from equal = record {
    distinct = distinct;
    targets = λ j i e.
        let found = (from j i e).0 in Keeps-exists _ _ (same i) (h.targets found.0 i found.1);
    parents = λ j i e. Keeps-dir _ _ (same j.0) (from j i e).1;
    fresh = λ i e. rw last (h.fresh i (Keeps-absent _ _ (same i) e));
    links = λ i r e nd.
        let old = Keeps-row (row_at db i) (row_at db' i) r (same i) e in
        rw (equal i) (old.3 (sym old.2 ∙ nd) ∙ h.links i old.0 old.1 (sym old.2 ∙ nd));
    single = λ i r e d.
        let old = Keeps-row (row_at db i) (row_at db' i) r (same i) e in
        rw (equal i) (h.single i old.0 old.1 (sym old.2 ∙ d));
  }

  pub IsWellFormed-keep : db'.dentries ≡ db.dentries → IsWellFormed db'
  IsWellFormed-keep entries =
      rows_kept (rw entries h.distinct)
        (λ j i e. let e' : entry_at db j ≡ some i = rw entries at e in ((j, e'), h.parents j i e'))
        (λ i. rw entries)

  -- The entry at `old` gets the key `new`, which is free and in a directory.
  pub IsWellFormed-move :
      (old new : Entry) (ino : ℕ)
      → entry_at db old ≡ some ino
      → entry_at db new ≡ none
      → IsDir db new.0
      → db'.dentries ≡ (new, ino) ∷ delete old db.dentries
      → IsWellFormed db'
  unfolding select count_where
  IsWellFormed-move old new ino entry free dir entries =
      rows_kept
        (rw entries (
          rw select-delete_where (ground arith),
          Distinct-delete_where (λ (j : Entry). entry_beq j old) db.dentries h.distinct,
        ))
        (λ j i e. elim (entry_of_cons new ino (delete old db.dentries) j i (rw entries at e)) [
          | inl (at, is) ↦ ((old, entry ∙ ap some is), rw (← at) dir)
          | inr kept ↦
              let e' : entry_at db j ≡ some i =
                ground
                  (arith, select-delete_where (λ (j' : Entry). entry_beq j' old) j db.dentries) in
              ((j, e'), h.parents j i e')
        ])
        (λ i.
          rw entries
            (ground (arith, count-delete (names_inode i) old db.dentries ino h.distinct entry)))
