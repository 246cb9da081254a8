-- ===== src/Prelude/Keys.antt =====
-- Keys of a table: a Boolean equality that decides equality, for numbers, texts as bytes, and pairs.
use Prim.Native.Nat.{ℕ}
use mathlib.Core.Path.{◌≡◌, refl}
use mathlib.Core.Logic.{◌↔◌}
use mathlib.Core.Bool.{Bool, true, false, ◌&&◌}
use mathlib.Core.List.{List, [], ◌∷◌}
use native.Mathlib.Omega.{arith}
use airyfs.Prelude.Tests.{nat_beq, nat_beq_iff}

pub record Key {ℓ} (A : Type ℓ) : Type ℓ where
  pub beq : A → A → Bool
  pub decides : (a b : A) → (beq a b ≡ true) ↔ (a ≡ b)

infix 50 ◌==◌
abbrev pub ◌==◌ {ℓ} : {A : Type ℓ} ⦃e : Key A⦄ → A → A → Bool
◌==◌ ⦃e⦄ = e.beq

abbrev pub bytes_beq : List ℕ → List ℕ → Bool
bytes_beq [] [] = true
bytes_beq [] (y ∷ ys) = false
bytes_beq (x ∷ xs) [] = false
bytes_beq (x ∷ xs) (y ∷ ys) = nat_beq x y && bytes_beq xs ys

pub bytes_beq_iff : (xs ys : List ℕ) → (bytes_beq xs ys ≡ true) ↔ (xs ≡ ys)
bytes_beq_iff [] [] = (λ _. refl, λ _. refl)
bytes_beq_iff [] (y ∷ ys) = (λ h. cc, λ h. cc)
bytes_beq_iff (x ∷ xs) [] = (λ h. cc, λ h. cc)
bytes_beq_iff (x ∷ xs) (y ∷ ys) = ground (arith, bytes_beq_iff xs ys)

abbrev pub entry_beq : ℕ × List ℕ → ℕ × List ℕ → Bool
entry_beq a b = nat_beq a.0 b.0 && bytes_beq a.1 b.1

pub entry_beq_iff : (a b : ℕ × List ℕ) → (entry_beq a b ≡ true) ↔ (a ≡ b)
entry_beq_iff a b = ground (arith, bytes_beq_iff a.1 b.1)

abbrev pub pair_beq : ℕ × ℕ → ℕ × ℕ → Bool
pair_beq a b = nat_beq a.0 b.0 && nat_beq a.1 b.1

pub pair_beq_iff : (a b : ℕ × ℕ) → (pair_beq a b ≡ true) ↔ (a ≡ b)
pair_beq_iff a b = ground arith

instance abbrev pub nat_eq : Key ℕ
nat_eq = record { beq = nat_beq; decides = nat_beq_iff }

instance abbrev pub bytes_eq : Key (List ℕ)
bytes_eq = record { beq = bytes_beq; decides = bytes_beq_iff }

instance abbrev pub entry_eq : Key (ℕ × List ℕ)
entry_eq = record { beq = entry_beq; decides = entry_beq_iff }

instance abbrev pub pair_eq : Key (ℕ × ℕ)
pair_eq = record { beq = pair_beq; decides = pair_beq_iff }
