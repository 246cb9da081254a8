-- ===== src/FdTable/Heap.antt =====
-- The heap of freed descriptors by the number of copies of each element.
use airyfs.Prelude.{
  ℕ, ◌+◌, ◌≤◌, ◌≡◌, refl, none, some, List, [], ◌∷◌, arith, nat_beq, if◌then◌else◌,
}
use airyfs.FdTable.{top, without_one, pop, without_all}

unfoldable pub copies : ℕ → List ℕ → ℕ
copies x [] = 0
copies x (y ∷ ys) = (if nat_beq y x then 1 else 0) + copies x ys

top_in : (x : ℕ) (xs : List ℕ) → 1 ≤ copies (top x xs) (x ∷ xs)
unfolding copies
top_in x [] = ground arith
top_in x (y ∷ ys) = ground (arith, top_in y ys)

top_least : (j x : ℕ) (xs : List ℕ) → 1 ≤ copies j (x ∷ xs) → top x xs ≤ j
unfolding copies
top_least j x [] h = ground arith
top_least j x (y ∷ ys) h = ground (arith, top_least j y ys)

copies-without_one :
    (j x : ℕ) (xs : List ℕ)
    → 1 ≤ copies x xs
    → copies j (without_one x xs) + (if nat_beq x j then 1 else 0) ≡ copies j xs
unfolding copies
copies-without_one j x [] h = ground arith
copies-without_one j x (y ∷ ys) h = ground (arith, copies-without_one j x ys)

pub copies-without_all :
    (j x : ℕ) (xs : List ℕ) → copies j (without_all x xs) ≡ (if nat_beq x j then 0 else copies j xs)
unfolding without_all copies
copies-without_all j x [] = ground arith
copies-without_all j x (y ∷ ys) = ground (arith, copies-without_all j x ys)

-- `pop` takes one copy of the least element.
pub pop-least :
    (xs rest : List ℕ) (x : ℕ)
    → pop xs ≡ some (x, rest)
    → (1 ≤ copies x xs)
      × ((j : ℕ) → 1 ≤ copies j xs → x ≤ j)
      × ((j : ℕ) → copies j rest + (if nat_beq x j then 1 else 0) ≡ copies j xs)
unfolding pop
pop-least [] rest x e = cc
pop-least (y ∷ ys) rest x e =
    let at : top y ys ≡ x = ground arith in
    let is : without_one (top y ys) (y ∷ ys) ≡ rest = ground arith in
    rw (← at, ← is)
      (
        top_in y ys,
        λ j. top_least j y ys,
        λ j. copies-without_one j (top y ys) (y ∷ ys) (top_in y ys),
      )

pub pop-none : (xs : List ℕ) (j : ℕ) → pop xs ≡ none → copies j xs ≡ 0
unfolding pop copies
pop-none [] j e = refl
pop-none (y ∷ ys) j e = cc
