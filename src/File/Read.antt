-- ===== src/File/Read.antt =====
-- `pread` returns the bytes of the file, the zeros of its gaps included.
mod Cover
mod Step
use native.Mathlib.Nat.{div-add-mod', mod-lt, mul-le-mul_right, add-zero}
use airyfs.Prelude.{
  ℕ, zero, suc, ◌+◌, ◌-◌, ◌*◌, ◌/◌, ◌%◌, ◌<◌, ◌≤◌, ◌≡◌, refl, sym, ap, ◌∙◌, min, some, none, [],
  ◌++◌, length, get_or, replicate, arith, pair_eq, ltb, leb, Option-cases, inl, inr, Bool-cases,
  length-append, length-replicate, get_or-replicate,
}
use native.Mathlib.Decide.{dec_lt}
use airyfs.Prelude.Table.{select}
use airyfs.Db.{Bytes, Db}
use airyfs.File.{
  FileHandle, chunk_or_empty, select_chunks, read_rows, pread, size_of, fill_gap, read_chunk,
}
use airyfs.File.Content.{
  byte_at, slice, slice-append, slice-eq, length-slice, ChunksFit, div_of_chunk, mod_of_chunk,
  chunk_of_none, chunk_of_some,
}
use Cover.{covered, covered_start, covered_end, covered_position}
use Step.{Covers, Covers-fill_gap, Covers-read_chunk}

-- A position between two chunk boundaries lies in a chunk between them.
chunk_between :
    (cs lo hi p : ℕ) → 0 < cs → lo * cs ≤ p → p < hi * cs → (lo ≤ p / cs) × (p / cs < hi)
chunk_between cs lo hi p pos h k = (
  grind (arith, div-add-mod' p cs, mod-lt p pos, mul-le-mul_right {m = p / cs + 1} {n = lo} cs),
  grind (arith, div-add-mod' p cs, mul-le-mul_right {m = hi} {n = p / cs} cs),
)

module _ (db : Db) (file : FileHandle) (off size : ℕ) (fit : ChunksFit db file) where
  open file use {ino, chunk_size as cs}

  abbrev f : ℕ → ℕ
  f = byte_at db file

  abbrev Reaches : ℕ → Bytes → Type 0
  Reaches = Covers cs off size f fit.positive

  byte_in_chunk : (k i : ℕ) → i < cs → f (k * cs + i) ≡ get_or (chunk_or_empty db ino k) i 0
  unfolding byte_at
  byte_in_chunk k i h = rw (div_of_chunk k cs i h, mod_of_chunk k cs i h)

  resized :
      (first next : ℕ) (result : Bytes)
      → Reaches next result
      → ((k i : ℕ) → next ≤ k → k < first → i < cs → f (k * cs + i) ≡ 0)
      → covered cs off size first ≡ size
      → read_rows cs (off / cs) (off % cs) size [] next result ≡ slice f off size
  unfolding read_rows covered
  resized first next result c missing end =
      let tail : Bytes = replicate (size - length result) 0 in
      let zeros : (i : ℕ) → i < length tail → f (off + length result + i) ≡ get_or tail i 0 = λ i p.
        let room : i < size - length result =
          omega (arith, length-replicate {A = ℕ} (size - length result) 0) in
        let at : ℕ = off + length result + i in
        let inside : (next ≤ at / cs) × (at / cs < first) =
          chunk_between cs next first at fit.positive (omega (arith, c.len))
            (omega (arith, c.len)) in
        let zero_at : f (at / cs * cs + at % cs) ≡ 0 =
          missing (at / cs) (at % cs) inside.0 inside.1 (mod-lt at fit.positive) in
        rw (get_or-replicate {A = ℕ} (size - length result) i 0)
          (rw (div-add-mod' at cs) at zero_at) in
      elim (Bool-cases (ltb (length result) size)) [
        | inl short ↦
            let whole : slice f off (length (result ++ tail)) ≡ result ++ tail =
              slice-append f off result tail c.bytes
                (slice-eq f (off + length result) tail zeros) in
            let all : length (result ++ tail) ≡ size = ground (
              arith,
              length-append result tail,
              length-replicate {A = ℕ} (size - length result) 0,
            ) in
            rw short (sym (rw all at whole))
        | inr full ↦
            let all : length result ≡ size = ground (arith, c.len) in
            rw full (sym (rw all at c.bytes))
      ]

  rows_read :
      (n first next : ℕ) (result : Bytes)
      → off / cs ≤ next
      → next ≤ first
      → Reaches next result
      → ((k i : ℕ) → next ≤ k → k < first → i < cs → f (k * cs + i) ≡ 0)
      → covered cs off size (first + n) ≡ size
      → read_rows cs (off / cs) (off % cs) size (select_chunks db ino first n) next result
        ≡ slice f off size
  unfolding select_chunks read_rows
  rows_read zero first next result from le c missing end =
      resized first next result c missing (rw add-zero at end)
  rows_read (suc n) first next result from le c missing end =
      elim (Option-cases (select (ino, first) db.chunks)) [
        | inl gone ↦
            rw (gone, select_chunks)
              (rows_read n (first + 1) next result from (omega arith) c
                (λ k i p q r. elim (dec_lt k first) [
                  | yes below ↦ missing k i p below r
                  | no above ↦
                      let same : k ≡ first = omega arith in
                      rw same (
                        byte_in_chunk first i r
                        ∙ ap (λ c. get_or c i 0) (chunk_of_none db ino first gone))
                ])
                (rw (← from_suc) end))
        | inr (chunk, stored) ↦
            let held : chunk_or_empty db ino first ≡ chunk = chunk_of_some db ino first stored in
            let size_ok : length chunk ≤ cs = rw held at (fit.fits first) in
            let before : next + (first - next) ≡ first = omega arith in
            let filled : Reaches first
                (fill_gap cs (off / cs) (off % cs) size (first - next) next result) =
              rw before at (
                Covers-fill_gap cs off size f fit.positive (first - next) next result from c
                  (λ k i p q r. missing k i p (omega arith) r)) in
            rw (stored, select_chunks)
              (rows_read n (first + 1) (first + 1) _ (omega arith) (omega arith)
                (Covers-read_chunk cs off size f fit.positive first chunk _ (omega arith) size_ok
                  filled (λ i p. byte_in_chunk first i p ∙ ap (λ c. get_or c i 0) held))
                (λ k i p q r. absurd (omega arith)) (rw (← from_suc) end))
      ]
    where
      from_suc : first + suc n ≡ first + 1 + n
      from_suc = omega arith

-- Where no chunk is longer than the chunk size, which is positive, `pread` returns the bytes
-- from the offset on that the chunks stand for, as many as asked for and as the file has.
pub pread-eq-slice :
    (db : Db) (file : FileHandle) (off size : ℕ)
    → ChunksFit db file
    → pread db file off size ≡ slice (byte_at db file) off (min size (size_of db file.ino - off))
unfolding pread
pread-eq-slice db file off size fit = elim (Bool-cases (leb (size_of db file.ino) off)) [
  | inl past ↦
      let nothing : min size (size_of db file.ino - off) ≡ 0 = ground arith in
      rw (past, nothing) (unfold slice in refl)
  | inr before ↦
      let n : ℕ = min size (size_of db file.ino - off) in
      let first : ℕ = off / file.chunk_size in
      let last : ℕ = (off + n - 1) / file.chunk_size in
      rw before (
        rows_read db file off n fit (last + 1 - first) first first [] (omega arith) (omega arith)
          (record {
            bytes = unfold slice in refl;
            len = sym (covered_start file.chunk_size off n fit.positive);
          })
          (λ k i p q r. absurd (omega arith))
          (covered_end file.chunk_size off n (first + (last + 1 - first)) fit.positive
            (omega arith)))
]
