-- ===== src/PathApi/Walk.antt =====
-- Resolution of a path: with a coherent cache the answer is that of the table alone.
use airyfs.Prelude.{
  ℕ, ◌≡◌, refl, ◌∙◌, Option, none, some, Option-cases, inl, inr, List, [], ◌∷◌, nat_eq, entry_eq,
  pair_eq, bytes_eq,
}
use airyfs.Prelude.Table.{Distinct}
use airyfs.Mode.{Result, ok}
use airyfs.Db.{Bytes, Db, root_ino}
use airyfs.Fs.{Fs, Entry, get, insert}
use airyfs.Fs.WellFormed.{entry_at, lookup_child-entry_at}
use airyfs.Fs.Cache.{Lru, IsCoherent, latest}
use airyfs.Fs.Cache.Calls.{insert-IsCoherent}
use airyfs.PathName.{split_path}
use airyfs.PathApi.{PathOp, from_result, ◌>>=◌, resolve_from, resolve_path}

-- Follow the entries of the table, from a directory down.
unfoldable pub walk : Db → List Bytes → ℕ → Option ℕ
walk db [] ino = some ino
walk db (name ∷ rest) ino = elim (entry_at db (ino, name)) [
  | none ↦ none
  | some child ↦ walk db rest child
]

-- A method answers, leaves the tables as they are, and the cache coherent.
pub record Answers {A : Type 0} (m : PathOp A) (fs : Fs) (answer : Result A) : Type 0 where
  pub after : Fs
  pub result : m fs ≡ from_result answer after
  pub tables : after.db ≡ fs.db
  pub chunking : after.chunk_size ≡ fs.chunk_size
  pub coherent : IsCoherent after

-- One answer after another.
pub Answers-bind :
    {A B : Type 0} (m : PathOp A) (f : A → PathOp B) (fs : Fs) (a : A) (r : Result B)
    → (first : Answers m fs (ok a)) → Answers (f a) first.after r
    → Answers (m >>= f) fs r
Answers-bind m f fs a r first next = record {
  after = next.after;
  result = rw (first.result, ◌>>=◌) next.result;
  tables = next.tables ∙ first.tables;
  chunking = next.chunking ∙ first.chunking;
  coherent = next.coherent;
}

module _ (lru : Lru) where
  -- a call of `get` changes no value that the cache may hold
  asked-IsCoherent :
      (fs : Fs) (k : Entry) → IsCoherent fs → IsCoherent (record fs { cache = get k ∷ fs.cache })
  unfolding latest
  asked-IsCoherent fs k c = c

  resolve_from-walk :
      (names : List Bytes) (ino : ℕ) (fs : Fs)
      → Distinct fs.db.dentries
      → IsCoherent fs
      → Answers (resolve_from lru names ino) fs (ok (walk fs.db names ino))
  unfolding resolve_from walk
  resolve_from-walk [] ino fs d c = record {
    after = fs;
    result = refl;
    tables = refl;
    chunking = refl;
    coherent = c;
  }
  resolve_from-walk (name ∷ rest) ino fs d c =
      let k : Entry = (ino, name) in
      let asked : Fs = record fs { cache = get k ∷ fs.cache } in
      let c' : IsCoherent asked = asked-IsCoherent fs k c in
      elim (Option-cases (lru.hits fs.cache k)) [
        | inr (child, hit) ↦
            let entry : entry_at fs.db k ≡ some child =
              c k child (lru.hits_latest fs.cache k child hit) in
            let below = resolve_from-walk rest child asked d c' in
            record {
              after = below.after;
              result = rw (hit, entry, resolve_from, walk) below.result;
              tables = below.tables;
              chunking = below.chunking;
              coherent = below.coherent;
            }
        | inl miss ↦ elim (Option-cases (entry_at fs.db k)) [
          | inl absent ↦ record {
            after = asked;
            result =
                rw (miss, lookup_child-entry_at fs.db ino name d, absent, resolve_from, walk) refl;
            tables = refl;
            chunking = refl;
            coherent = c';
          }
          | inr (child, entry) ↦
              let told : Fs = record asked { cache = insert k child ∷ asked.cache } in
              let c'' : IsCoherent told =
                insert-IsCoherent asked told c' k child entry (λ j _. refl) refl in
              let below = resolve_from-walk rest child told d c'' in
              record {
                after = below.after;
                result =
                    rw (miss, lookup_child-entry_at fs.db ino name d, entry, resolve_from, walk)
                      below.result;
                tables = below.tables;
                chunking = below.chunking;
                coherent = below.coherent;
              }
        ]
      ]

  -- Where no name stands twice in a directory and the cache is coherent with the table,
  -- `resolve_path` of a path answers what following the entries of the table alone from the
  -- root gives, whatever the cache still holds and however it evicts; it never fails, and
  -- leaves the tables as they are, and the cache coherent.
  pub resolve_path-walk :
      (path : Bytes) (fs : Fs)
      → Distinct fs.db.dentries
      → IsCoherent fs
      → Answers (resolve_path lru path) fs (ok (walk fs.db (split_path path) root_ino))
  unfolding resolve_path
  resolve_path-walk path fs d c = resolve_from-walk (split_path path) root_ino fs d c
