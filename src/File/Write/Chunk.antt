-- ===== src/File/Write/Chunk.antt =====
-- One round of the write loop: the chunk that it stores.
use native.Mathlib.Nat.{mod-lt, div-add-mod', mul-le-mul_right, sub-zero}
use airyfs.Prelude.{
  ℕ, ◌+◌, ◌-◌, ◌*◌, ◌/◌, ◌%◌, ◌<◌, ◌≤◌, ◌≡◌, ◌≢◌, ◌⊎◌, ap, ◌++◌, length, get_or, take, drop,
  replicate, arith, ltb, leb, nat_beq, pair_eq, ◌&&◌, if◌then◌else◌, Bool-cases, inl, inr,
  length-append, length-take, length-drop, length-replicate, get_or-append, get_or-take,
  get_or-drop, get_or-replicate, get_or_of_length-le,
}
use airyfs.Prelude.Table.{select, select-delete_where}
use airyfs.Db.{Bytes, Db}
use airyfs.File.{FileHandle, pad_to, copy_at, chunk_or_empty, put_chunk, new_chunk}
use airyfs.File.Content.{byte_at}

pub chunk_or_empty-put_chunk :
    (db : Db) (ino k : ℕ) (chunk : Bytes) (ino' j : ℕ)
    → chunk_or_empty (put_chunk db ino k chunk) ino' j
      ≡ (if nat_beq ino ino' && nat_beq k j then chunk else chunk_or_empty db ino' j)
unfolding chunk_or_empty select
chunk_or_empty-put_chunk db ino k chunk ino' j = ground (
  arith,
  select-delete_where (λ (key : ℕ × ℕ). nat_beq key.0 ino && nat_beq key.1 k) (ino', j) db.chunks,
)

pub get_or-pad_to : (n : ℕ) (c : Bytes) (i : ℕ) → get_or (pad_to n c) i 0 ≡ get_or c i 0
unfolding pad_to
get_or-pad_to n c i = ground (
  arith,
  get_or-append c (replicate (n - length c) 0) i 0,
  get_or-replicate {A = ℕ} (n - length c) (i - length c) 0,
  get_or_of_length-le c i 0,
)

pub length-pad_to :
    (n : ℕ) (c : Bytes) → (n ≤ length (pad_to n c)) × (length c ≤ length (pad_to n c))
unfolding pad_to
length-pad_to n c =
    ground (
      arith,
      length-append c (replicate (n - length c) 0),
      length-replicate {A = ℕ} (n - length c) 0,
    )

length-pad_to-le : (n m : ℕ) (c : Bytes) → length c ≤ m → n ≤ m → length (pad_to n c) ≤ m
unfolding pad_to
length-pad_to-le n m c h k =
    ground (
      arith,
      length-append c (replicate (n - length c) 0),
      length-replicate {A = ℕ} (n - length c) 0,
    )

-- the target is long enough, as `copy_from_slice` demands
pub get_or-copy_at :
    (c : Bytes) (at : ℕ) (src : Bytes) (i : ℕ)
    → at + length src ≤ length c
    → get_or (copy_at c at src) i 0
      ≡ (if leb at i && ltb i (at + length src) then get_or src (i - at) 0 else get_or c i 0)
unfolding copy_at
get_or-copy_at c at src i h =
    let rest : Bytes = drop (at + length src) c in
    let at_eq : length (take at c) ≡ at = omega (arith, length-take at c) in
    rw (get_or-append, at_eq, get_or-append)
      (ground
        (arith, get_or-take at c i 0, get_or-drop (at + length src) c (i - at - length src) 0))

pub length-copy_at :
    (c : Bytes) (at : ℕ) (src : Bytes)
    → at + length src ≤ length c
    → length (copy_at c at src) ≡ length c
unfolding copy_at
length-copy_at c at src h = omega (
  arith,
  length-append (take at c) (src ++ drop (at + length src) c),
  length-append src (drop (at + length src) c),
  length-take at c,
  length-drop (at + length src) c,
)

module _ (db : Db) (file : FileHandle) (current : ℕ) (piece : Bytes) where
  open file use {ino, chunk_size as cs}

  module _ (fits : current % cs + length piece ≤ cs) where
    get_or-new_chunk :
        (i : ℕ)
        → i < cs
        → get_or (new_chunk db file current piece) i 0 ≡ (
            if leb (current % cs) i && ltb i (current % cs + length piece)
            then get_or piece (i - current % cs) 0
            else get_or (chunk_or_empty db ino (current / cs)) i 0)
    unfolding new_chunk
    get_or-new_chunk i h =
        let at : ℕ = current % cs in
        let old : Bytes = chunk_or_empty db ino (current / cs) in
        elim (Bool-cases (nat_beq (length piece) cs)) [
          | inl all ↦
              let start : current % cs ≡ 0 = ground arith in
              rw (all, start, sub-zero) (ground arith)
          | inr part ↦
              rw
                (
                  part,
                  get_or-copy_at (pad_to (at + length piece) old) at piece i
                      (length-pad_to (at + length piece) old).0,
                )
                (rw (get_or-pad_to (at + length piece) old i))
        ]

    pub length-new_chunk :
        length (chunk_or_empty db ino (current / cs)) ≤ cs
        → length (new_chunk db file current piece) ≤ cs
    unfolding new_chunk
    length-new_chunk old_fits =
        let at : ℕ = current % cs in
        let old : Bytes = chunk_or_empty db ino (current / cs) in
        let padded : Bytes = pad_to (at + length piece) old in
        ground (
          arith,
          length-copy_at padded at piece (length-pad_to (at + length piece) old).0,
          length-pad_to-le (at + length piece) cs old,
        )

    pub byte_at-put_chunk :
        (p : ℕ)
        → 0 < cs
        → byte_at (put_chunk db ino (current / cs) (new_chunk db file current piece)) file p ≡ (
            if leb current p && ltb p (current + length piece)
            then get_or piece (p - current) 0
            else byte_at db file p)
    unfolding byte_at
    byte_at-put_chunk p pos =
        let split_c : current / cs * cs + current % cs ≡ current = div-add-mod' current cs in
        let split_p : p / cs * cs + p % cs ≡ p = div-add-mod' p cs in
        let inside : p % cs < cs = mod-lt p pos in
        rw chunk_or_empty-put_chunk (elim (Bool-cases (nat_beq (current / cs) (p / cs))) [
          | inl same ↦
              let e : current / cs ≡ p / cs = ground arith in
              let products : current / cs * cs ≡ p / cs * cs = ap (λ (t : ℕ). t * cs) e in
              let shift : p - current ≡ p % cs - current % cs = omega arith in
              ground (arith, get_or-new_chunk (p % cs) inside)
          | inr other ↦
              let apart : current / cs ≢ p / cs = ground arith in
              let outside : (p < current) ⊎ (current + length piece ≤ p) = grind (
                arith,
                mul-le-mul_right {m = current / cs + 1} {n = p / cs} cs,
                mul-le-mul_right {m = p / cs + 1} {n = current / cs} cs,
              ) in
              ground arith
        ])
