-- ===== src/File/Read/Step.antt =====
-- The rounds of `pread`: each one adds the bytes up to the end of its chunk.
use native.Mathlib.Nat.{add-zero}
use airyfs.Prelude.{
  ℕ, zero, suc, ◌+◌, ◌-◌, ◌*◌, ◌/◌, ◌%◌, ◌<◌, ◌≤◌, ◌≡◌, sym, min, [], ◌++◌, length, get_or, take,
  drop, replicate, arith, ltb, leb, ◌&&◌, Bool-cases, inl, inr, length-append, length-replicate,
  length-take, length-drop, get_or-append, get_or-take, get_or-drop, get_or-replicate,
  get_or_of_length-le,
}
use mathlib.Core.List.{append_assoc, append-nil}
use mathlib.Core.Bool.{false}
use airyfs.Db.{Bytes}
use airyfs.File.{skip_of, fill_gap, read_chunk}
use airyfs.File.Content.{slice, slice-append, slice-eq}
use airyfs.File.Read.Cover.{covered, covered-suc, covered_full, covered_position, skip-lt}

-- Bytes that a chunk adds: `xs` is what the chunk holds from `skip` on, zeros where it ends.
pub record Adds (xs : Bytes) (chunk : Bytes) (skip n : ℕ) : Type 0 where
  pub len : length xs ≡ n
  pub bytes : (i : ℕ) → i < n → get_or xs i 0 ≡ get_or chunk (skip + i) 0

Adds-zeros : (chunk : Bytes) (skip n : ℕ) → length chunk ≤ skip → Adds (replicate n 0) chunk skip n
Adds-zeros chunk skip n h = record {
  len = length-replicate n 0;
  bytes = λ i p.
      rw (get_or-replicate {A = ℕ} n i 0, get_or_of_length-le chunk (skip + i) 0 (omega arith));
}

Adds-copy :
    (chunk : Bytes) (skip n z : ℕ)
    → skip + n ≤ length chunk
    → (0 < z → length chunk ≤ skip + n)
    → Adds (take n (drop skip chunk) ++ replicate z 0) chunk skip (n + z)
Adds-copy chunk skip n z h k = record {
  len = omega (
    arith,
    length-append (take n (drop skip chunk)) (replicate {A = ℕ} z 0),
    length-take n (drop skip chunk),
    length-drop skip chunk,
    length-replicate {A = ℕ} z 0,
  );
  bytes = λ i p. rw get_or-append (
      ground (
        arith,
        length-take n (drop skip chunk),
        length-drop skip chunk,
        get_or-take n (drop skip chunk) i 0,
        get_or-drop skip chunk i 0,
        get_or-replicate {A = ℕ} z (i - length (take n (drop skip chunk))) 0,
        get_or_of_length-le chunk (skip + i) 0,
      ));
}

module _ (cs off size : ℕ) (f : ℕ → ℕ) (pos : 0 < cs) where
  abbrev skip : ℕ → ℕ
  skip = skip_of cs (off / cs) (off % cs) size

  -- The result holds the bytes before chunk k.
  pub record Covers (k : ℕ) (result : Bytes) : Type 0 where
    pub bytes : slice f off (length result) ≡ result
    pub len : length result ≡ covered cs off size k

  pub Covers-append :
      (k : ℕ) (result xs chunk : Bytes)
      → off / cs ≤ k
      → Covers k result
      → ((i : ℕ) → i < cs → f (k * cs + i) ≡ get_or chunk i 0)
      → Adds xs chunk (skip k) (min (cs - skip k) (size - length result))
      → Covers (k + 1) (result ++ xs)
  Covers-append k result xs chunk from c holds a = record {
    bytes = slice-append f off result xs c.bytes (
        slice-eq f (off + length result) xs (λ i p.
          let room : covered cs off size k < size = omega (arith, c.len, a.len) in
          let at : off + length result + i ≡ k * cs + (skip k + i) =
            omega (arith, c.len, covered_position cs off size pos k from room) in
          rw (at, holds (skip k + i) (omega (arith, a.len)))
            (sym (a.bytes i (omega (arith, a.len))))));
    len = omega (arith, length-append result xs, c.len, a.len, covered-suc cs off size pos k from);
  }

  -- the loop that fills missing chunks
  pub Covers-fill_gap :
      (n next : ℕ) (result : Bytes)
      → off / cs ≤ next
      → Covers next result
      → ((k i : ℕ) → next ≤ k → k < next + n → i < cs → f (k * cs + i) ≡ 0)
      → Covers (next + n) (fill_gap cs (off / cs) (off % cs) size n next result)
  unfolding fill_gap
  Covers-fill_gap zero next result from c missing = rw add-zero c
  Covers-fill_gap (suc n) next result from c missing =
      let count : ℕ = min (cs - skip next) (size - length result) in
      let round : Covers (next + 1) (result ++ replicate count 0) =
        Covers-append next result (replicate count 0) [] from c
          (λ i p. missing next i (omega arith) (omega arith) p)
          (Adds-zeros [] (skip next) count (omega arith)) in
      let later =
        Covers-fill_gap n (next + 1) (result ++ replicate count 0) (omega arith) round
          (λ k i p q. missing k i (omega arith) (omega arith)) in
      let at : next + suc n ≡ next + 1 + n = omega arith in
      elim (Bool-cases (ltb (length result) size)) [
        | inl more ↦ rw (more, at) later
        | inr full ↦ rw full (record {
          bytes = c.bytes;
          len = omega (
            arith,
            c.len,
            covered_full cs off size next (next + suc n) (omega arith)
                (let short : size ≤ length result = ground arith in omega (arith, c.len)),
          );
        })
      ]

  abbrev read : ℕ → Bytes → Bytes → Bytes
  read = read_chunk cs (off / cs) (off % cs) size

  -- a chunk that reaches past `skip`: a copy, and zeros where the chunk is short
  read_long :
      (k : ℕ) (chunk result : Bytes)
      → skip k < cs
      → length chunk ≤ cs
      → leb (length chunk) (skip k) ≡ false
      → (xs : Bytes) × (read k chunk result ≡ result ++ xs)
        × Adds xs chunk (skip k) (min (cs - skip k) (size - length result))
  unfolding read_chunk
  read_long k chunk result inside fits long =
      let at : ℕ = skip k in
      let count : ℕ = min (length chunk - at) (size - length result) in
      let part : Bytes = take count (drop at chunk) in
      let z : ℕ = min (cs - (at + count)) (size - length (result ++ part)) in
      let reaches : at < length chunk = ground arith in
      let size_part : length part ≡ count =
        omega (arith, length-take count (drop at chunk), length-drop at chunk) in
      let total : count + z ≡ min (cs - at) (size - length result) =
        omega (arith, size_part, length-append result part) in
      (
        part ++ replicate z 0,
        elim (Bool-cases (ltb (at + count) cs && ltb (length (result ++ part)) size)) [
          | inl pads ↦ rw (long, pads, append_assoc)
          | inr whole ↦
              let none_left : z ≡ 0 = ground arith in rw (long, whole, none_left, append-nil)
        ],
        rw (← total) (
            Adds-copy chunk at count z (omega arith)
              (λ p. omega (arith, size_part, length-append result part))),
      )

  read_chunk-Adds :
      (k : ℕ) (chunk result : Bytes)
      → skip k < cs
      → length chunk ≤ cs
      → (xs : Bytes) × (read k chunk result ≡ result ++ xs)
        × Adds xs chunk (skip k) (min (cs - skip k) (size - length result))
  unfolding read_chunk
  read_chunk-Adds k chunk result inside fits = elim (Bool-cases (leb (length chunk) (skip k))) [
    | inl short ↦ (
      replicate (min (cs - skip k) (size - length result)) 0,
      rw short,
      Adds-zeros chunk (skip k) _ (ground arith),
    )
    | inr long ↦ read_long k chunk result inside fits long
  ]

  -- the round for a stored chunk
  pub Covers-read_chunk :
      (k : ℕ) (chunk result : Bytes)
      → off / cs ≤ k
      → length chunk ≤ cs
      → Covers k result
      → ((i : ℕ) → i < cs → f (k * cs + i) ≡ get_or chunk i 0)
      → Covers (k + 1) (read k chunk result)
  Covers-read_chunk k chunk result from fits c holds =
      let (xs, e, adds) = read_chunk-Adds k chunk result (skip-lt cs off size pos k from) fits in
      rw e (Covers-append k result xs chunk from c holds adds)
