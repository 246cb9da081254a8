-- ===== src/File/Read/Cover.antt =====
-- How far a read has come when it reaches a chunk: the arithmetic.
use native.Mathlib.Nat.{div-add-mod', mod-lt, mul-le-mul_right}
use airyfs.Prelude.{ℕ, ◌+◌, ◌-◌, ◌*◌, ◌/◌, ◌%◌, ◌<◌, ◌≤◌, ◌≡◌, ◌⊎◌, min, arith}
use airyfs.File.{skip_of}

-- Chunk k is the first one, or begins after the offset.
place :
    (cs q r off k : ℕ)
    → q * cs + r ≡ off
    → r < cs
    → q ≤ k
    → ((k ≡ q) × (k * cs + r ≡ off)) ⊎ ((q < k) × (off ≤ k * cs))
place cs q r off k split small from = grind (arith, mul-le-mul_right {m = q + 1} {n = k} cs)

module _ (cs off size : ℕ) where
  -- the number of bytes before chunk k
  unfoldable pub covered : ℕ → ℕ
  covered k = min size (k * cs - off)

  pub covered_start : 0 < cs → covered (off / cs) ≡ 0
  unfolding covered
  covered_start pos = omega (arith, div-add-mod' off cs)

  -- once the read is complete it stays so
  pub covered_full : (k m : ℕ) → k ≤ m → size ≤ covered k → covered m ≡ covered k
  unfolding covered
  covered_full k m h full = omega (arith, mul-le-mul_right {m = k} {n = m} cs h)

  -- the chunk of the last byte is the last one that is needed
  pub covered_end : (n : ℕ) → 0 < cs → (off + size - 1) / cs + 1 ≤ n → covered n ≡ size
  unfolding covered
  covered_end n pos h = omega (
    arith,
    div-add-mod' (off + size - 1) cs,
    mod-lt (off + size - 1) pos,
    mul-le-mul_right {m = (off + size - 1) / cs + 1} {n = n} cs h,
  )

  module _ (pos : 0 < cs) (k : ℕ) (from : off / cs ≤ k) where
    here : ((k ≡ off / cs) × (k * cs + off % cs ≡ off)) ⊎ ((off / cs < k) × (off ≤ k * cs))
    here = place cs (off / cs) (off % cs) off k (div-add-mod' off cs) (mod-lt off pos) from

    pub skip-lt : skip_of cs (off / cs) (off % cs) size k < cs
    unfolding skip_of
    skip-lt = ground (arith, mod-lt off pos)

    pub covered-suc :
        covered (k + 1)
        ≡ covered k + min (cs - skip_of cs (off / cs) (off % cs) size k) (size - covered k)
    unfolding covered skip_of
    covered-suc = ground (arith, here, mod-lt off pos)

    pub covered_position :
        covered k < size → off + covered k ≡ k * cs + skip_of cs (off / cs) (off % cs) size k
    unfolding covered skip_of
    covered_position h = ground (arith, here, mod-lt off pos)
