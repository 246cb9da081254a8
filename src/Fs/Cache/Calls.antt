-- ===== src/Fs/Cache/Calls.antt =====
-- Coherence when a table and the calls change together.
use airyfs.Prelude.{
  ℕ, ◌≡◌, ◌≢◌, refl, ◌∙◌, Bool, some, Bool-cases, inl, inr, List, ◌∷◌, arith, nat_eq, entry_eq,
  pair_eq, bytes_eq, entry_beq, entry_beq_iff, if◌then◌else◌,
}
use airyfs.Prelude.Table.{length-delete_where, select, delete, select-delete_where}
use airyfs.Fs.{Fs, Entry, insert, remove}
use airyfs.Fs.WellFormed.{entry_at}
use airyfs.Fs.Cache.{latest, IsCoherent, Advances}

module _ (fs fs' : Fs) (h : IsCoherent fs) where
  -- an entry that the table has is put
  pub insert-IsCoherent :
      (k : Entry) (ino : ℕ)
      → entry_at fs'.db k ≡ some ino
      → ((j : Entry) → j ≢ k → entry_at fs'.db j ≡ entry_at fs.db j)
      → fs'.cache ≡ insert k ino ∷ fs.cache
      → IsCoherent fs'
  unfolding latest
  insert-IsCoherent k ino here others calls j v e =
      let e' : latest (insert k ino ∷ fs.cache) j ≡ some v = rw calls at e in
      elim (Bool-cases (entry_beq k j)) [
        | inl same ↦
            let at : k ≡ j = (entry_beq_iff k j).0 same in
            let is : ino ≡ v = ground arith in rw (← at, ← is) here
        | inr other ↦
            let apart : j ≢ k = λ at. ground (arith, entry_beq_iff k j) in
            others j apart ∙ h j v (ground arith)
      ]

  -- an entry goes
  remove-IsCoherent :
      (k : Entry)
      → ((j : Entry) → j ≢ k → entry_at fs'.db j ≡ entry_at fs.db j)
      → fs'.cache ≡ remove k ∷ fs.cache
      → IsCoherent fs'
  unfolding latest
  remove-IsCoherent k others calls j v e =
      let e' : latest (remove k ∷ fs.cache) j ≡ some v = rw calls at e in
      elim (Bool-cases (entry_beq k j)) [
        | inl same ↦ absurd (ground arith)
        | inr other ↦
            let apart : j ≢ k = λ at. ground (arith, entry_beq_iff k j) in
            others j apart ∙ h j v (ground arith)
      ]

  -- the entries and the calls stay
  same-IsCoherent : fs'.db.dentries ≡ fs.db.dentries → fs'.cache ≡ fs.cache → IsCoherent fs'
  same-IsCoherent entries calls k v e = rw entries (h k v (rw calls at e))

-- an entry that was inserted into the table
pub entry_at-cons :
    (m : List (Entry × ℕ)) (k j : Entry) (ino : ℕ)
    → select j ((k, ino) ∷ m) ≡ (if entry_beq k j then some ino else select j m)
unfolding select
entry_at-cons m k j ino = refl

module _ (fs fs' : Fs) (c : IsCoherent fs) where
  -- An entry was inserted and cached.
  pub inserted-Advances :
      (k : Entry) (ino : ℕ)
      → fs'.db.dentries ≡ (k, ino) ∷ fs.db.dentries
      → fs'.cache ≡ insert k ino ∷ fs.cache
      → Advances fs fs'
  inserted-Advances k ino entries calls =
      let at : (j : Entry)
          → entry_at fs'.db j ≡ (if entry_beq k j then some ino else entry_at fs.db j) =
        λ j. rw entries (entry_at-cons fs.db.dentries k j ino) in
      record {
        coherent =
            insert-IsCoherent fs fs' c k ino (ground (arith, at k, entry_beq_iff k k))
              (λ j apart. ground (arith, at j, entry_beq_iff k j)) calls;
        grown = rw entries (omega arith);
      }

  -- An entry was deleted and its key removed.
  pub deleted-Advances :
      (k : Entry)
      → fs'.db.dentries ≡ delete k fs.db.dentries
      → fs'.cache ≡ remove k ∷ fs.cache
      → Advances fs fs'
  deleted-Advances k entries calls =
      let p : Entry → Bool = λ (i : Entry). entry_beq i k in
      record {
        coherent =
            remove-IsCoherent fs fs' c k
              (λ j apart.
                rw entries
                  (ground (arith, select-delete_where p j fs.db.dentries, entry_beq_iff j k)))
              calls;
        grown = rw entries (omega (arith, length-delete_where p fs.db.dentries));
      }

  -- The entries and the calls stay.
  pub same-Advances : fs'.db.dentries ≡ fs.db.dentries → fs'.cache ≡ fs.cache → Advances fs fs'
  same-Advances entries calls = record {
    coherent = same-IsCoherent fs fs' c entries calls;
    grown = rw entries (omega arith);
  }
