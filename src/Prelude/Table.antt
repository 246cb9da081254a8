-- ===== src/Prelude/Table.antt =====
-- A database table as an association list from its key to the rest of a row.
use Prim.Native.Nat.{ℕ, ◌+◌, ◌≤◌}
use mathlib.Core.Path.{◌≡◌, refl}
use mathlib.Core.Bool.{Bool, true, false}
use mathlib.Core.Logic.{◌≢◌}
use mathlib.Core.Option
use mathlib.Core.Option.{Option, none, some}
use mathlib.Core.List.{List, [], ◌∷◌}
use native.Mathlib.Nat.{zero-add}
use native.Mathlib.Omega.{arith}
use airyfs.Prelude.Tests.{if◌then◌else◌}
use airyfs.Prelude.Lists.{length}
use airyfs.Prelude.Keys.{Key, ◌==◌}

-- the rows that a lookup by a unique key finds
abbrev pub to_rows {ℓ} : {V : Type ℓ} → Option V → List V
to_rows none = []
to_rows (some v) = v ∷ []

module _ {ℓ} {K V : Type ℓ} where
  -- SELECT COUNT(*) WHERE
  unfoldable pub count_where : (K → V → Bool) → List (K × V) → ℕ
  count_where p [] = 0
  count_where p ((j, v) ∷ m) = (if p j v then 1 else 0) + count_where p m

  -- DELETE WHERE
  unfoldable pub delete_where : (K → Bool) → List (K × V) → List (K × V)
  delete_where p [] = []
  delete_where p ((j, v) ∷ m) = let rest = delete_where p m in if p j then rest else (j, v) ∷ rest

  pub length-delete_where : (p : K → Bool) (m : List (K × V)) → length (delete_where p m) ≤ length m
  unfolding delete_where
  length-delete_where p [] = omega arith
  length-delete_where p ((j, v) ∷ m) = ground (arith, length-delete_where p m)

module _ {ℓ} {K V : Type ℓ} ⦃e : Key K⦄ where
  -- SELECT WHERE key = ?
  unfoldable pub select : K → List (K × V) → Option V
  select k [] = none
  select k ((j, v) ∷ m) = if j == k then some v else select k m

  -- the values of every row with the key, in the order of the table
  unfoldable pub select_all : K → List (K × V) → List V
  select_all k [] = []
  select_all k ((j, v) ∷ m) = let rest = select_all k m in if j == k then v ∷ rest else rest

  -- DELETE WHERE key = ?
  abbrev pub delete : K → List (K × V) → List (K × V)
  delete k = delete_where (λ j. j == k)

  -- UPDATE SET … WHERE key = ?
  unfoldable pub update : K → (V → V) → List (K × V) → List (K × V)
  update k f [] = []
  update k f ((j, v) ∷ m) = (j, (if j == k then f v else v)) ∷ update k f m

  -- INSERT OR REPLACE
  abbrev pub replace : K → V → List (K × V) → List (K × V)
  replace k v m = (k, v) ∷ delete k m

  pub select-delete_where :
      (p : K → Bool) (k : K) (m : List (K × V))
      → select k (delete_where p m) ≡ (if p k then none else select k m)
  unfolding select delete_where
  select-delete_where p k [] = ground arith
  select-delete_where p k ((j, v) ∷ m) = ground (arith, select-delete_where p k m, e.decides j k)

  pub select-replace :
      (k j : K) (v : V) (m : List (K × V))
      → select j (replace k v m) ≡ (if k == j then some v else select j m)
  unfolding select
  select-replace k j v m =
      ground (arith, select-delete_where (λ i. i == k) j m, e.decides j k, e.decides k j)

  pub select-update :
      (k j : K) (f : V → V) (m : List (K × V))
      → select j (update k f m) ≡ (if k == j then Option.map f (select j m) else select j m)
  unfolding select update
  select-update k j f [] = ground arith
  select-update k j f ((i, v) ∷ m) =
      ground (arith, select-update k j f m, e.decides i k, e.decides k j, e.decides i j)

  -- No key stands in two rows: a PRIMARY KEY or UNIQUE constraint.
  abbrev pub Distinct : List (K × V) → Type ℓ
  Distinct [] = Unit
  Distinct ((k, v) ∷ m) = (select k m ≡ none) × Distinct m

  select_all_of_none : (k : K) (m : List (K × V)) → select k m ≡ none → select_all k m ≡ []
  unfolding select select_all
  select_all_of_none k [] h = refl
  select_all_of_none k ((j, v) ∷ m) h = ground (arith, select_all_of_none k m)

  pub select_all-Distinct :
      (k : K) (m : List (K × V)) → Distinct m → select_all k m ≡ to_rows (select k m)
  unfolding select select_all
  select_all-Distinct k [] d = refl
  select_all-Distinct k ((j, v) ∷ m) d =
      ground (arith, select_all-Distinct k m d.1, select_all_of_none k m, e.decides j k)

  pub Distinct-delete_where :
      (p : K → Bool) (m : List (K × V)) → Distinct m → Distinct (delete_where p m)
  unfolding delete_where
  Distinct-delete_where p [] d = d
  Distinct-delete_where p ((j, v) ∷ m) d =
      ground (arith, Distinct-delete_where p m d.1, select-delete_where p j m)

  pub Distinct-replace : (k : K) (v : V) (m : List (K × V)) → Distinct m → Distinct (replace k v m)
  unfolding select
  Distinct-replace k v m d = (
    ground (arith, select-delete_where (λ j. j == k) k m, e.decides k k),
    Distinct-delete_where (λ j. j == k) m d,
  )

  count-delete_absent :
      (q : K → V → Bool) (k : K) (m : List (K × V))
      → select k m ≡ none
      → count_where q (delete k m) ≡ count_where q m
  unfolding select delete_where count_where
  count-delete_absent q k [] h = refl
  count-delete_absent q k ((j, v) ∷ m) h = ground (arith, count-delete_absent q k m)

  -- Deleting a row takes it out of each count that it was in.
  pub count-delete :
      (q : K → V → Bool) (k : K) (m : List (K × V)) (v : V)
      → Distinct m
      → select k m ≡ some v
      → count_where q (delete k m) + (if q k v then 1 else 0) ≡ count_where q m
  unfolding select delete_where count_where
  count-delete q k [] v d h = cc
  count-delete q k ((j, w) ∷ m) v d h =
      ground (arith, count-delete q k m v d.1, count-delete_absent q k m, e.decides j k)

  -- A count is 0 exactly when no row counts.
  pub select_of_count-zero :
      (q : K → V → Bool) (k : K) (m : List (K × V)) (v : V)
      → count_where q m ≡ 0
      → select k m ≡ some v
      → q k v ≡ false
  unfolding select count_where
  select_of_count-zero q k [] v c h = cc
  select_of_count-zero q k ((j, w) ∷ m) v c h =
      ground (arith, select_of_count-zero q k m v, e.decides j k)

  pub count-zero_of_select :
      (q : K → V → Bool) (m : List (K × V))
      → Distinct m
      → ((k : K) (v : V) → select k m ≡ some v → q k v ≡ false)
      → count_where q m ≡ 0
  unfolding select count_where
  count-zero_of_select q [] d h = refl
  count-zero_of_select q ((j, w) ∷ m) d h =
      let here : q j w ≡ false =
        h j w (let self : e.beq j j ≡ true = (e.decides j j).1 refl in rw self) in
      let later : (k : K) (v : V) → select k m ≡ some v → q k v ≡ false =
        λ k v s. h k v (ground (arith, e.decides j k, d.0)) in
      rw (here, zero-add) (count-zero_of_select q m d.1 later)

  pub select-update_ne :
      (k j : K) (f : V → V) (m : List (K × V)) → j ≢ k → select j (update k f m) ≡ select j m
  select-update_ne k j f m apart = ground (arith, select-update k j f m, e.decides k j)

  pub select-update_self :
      (k : K) (f : V → V) (m : List (K × V)) (v : V)
      → select k m ≡ some v
      → select k (update k f m) ≡ some (f v)
  select-update_self k f m v there = ground (arith, select-update k k f m, e.decides k k)
