-- ===== src/PathApi/Contents/Chunk.antt =====
-- One round of the loop of `pwrite` by path.
use airyfs.Prelude.{
  ℕ, ◌+◌, ◌-◌, ◌*◌, ◌^◌, ◌≤◌, ◌<◌, min, max, ◌≡◌, ◌≢◌, refl, sym, ap, ◌∙◌, Bool, true, false, ◌&&◌,
  ◌||◌, Bool-cases, inl, inr, arith, length, take, drop, replicate, get_or, ltb, leb, nat_beq,
  nat_eq, entry_eq, pair_eq, bytes_eq, if◌then◌else◌, get_or-take, get_or-drop, length-take,
  length-drop, length-replicate,
}
use airyfs.Db.{Bytes, Db}
use airyfs.File.{add64, pad_to, copy_at, chunk_or_empty}
use airyfs.File.Write.Chunk.{get_or-pad_to, length-pad_to, get_or-copy_at}
use airyfs.PathApi.Contents.{written_chunk, resize}

-- the chunk that is changed, at its full length
abbrev old_chunk : Bool → ℕ → Bytes → Bytes
old_chunk needs_read cs stored = if needs_read then resize cs stored else replicate cs 0

length-resize : (n : ℕ) (c : Bytes) → length (resize n c) ≡ n
length-resize n c = omega (arith, length-take n (pad_to n c), length-pad_to n c)

get_or-resize : (n : ℕ) (c : Bytes) (i : ℕ) → i < n → get_or (resize n c) i 0 ≡ get_or c i 0
get_or-resize n c i h = ground (arith, get_or-take n (pad_to n c) i 0, get_or-pad_to n c i)

length-old_chunk :
    (needs_read : Bool) (cs : ℕ) (stored : Bytes) → length (old_chunk needs_read cs stored) ≡ cs
length-old_chunk true cs stored = length-resize cs stored
length-old_chunk false cs stored = length-replicate cs 0

-- A piece is copied into a chunk, and the chunk is cut.
get_or-pasted :
    (old : Bytes) (cs from : ℕ) (piece : Bytes) (keep i : ℕ)
    → length old ≡ cs
    → from + length piece ≤ cs
    → get_or (take keep (copy_at old from piece)) i 0 ≡ (
        if ltb i keep
        then (if leb from i && ltb i (from + length piece)
            then get_or piece (i - from) 0
            else get_or old i 0)
        else 0)
get_or-pasted old cs from piece keep i full fits =
    ground (arith, get_or-take keep (copy_at old from piece) i 0, get_or-copy_at old from piece i)

-- the part of the bytes that goes into a chunk
length-piece :
    (bytes : Bytes) (at count : ℕ)
    → at + count ≤ length bytes
    → length (take (min (length bytes) (at + count) - at) (drop at bytes)) ≡ count
length-piece bytes at count fits = omega (
  arith,
  length-take (min (length bytes) (at + count) - at) (drop at bytes),
  length-drop at bytes,
)

get_or-piece :
    (bytes : Bytes) (at count i : ℕ)
    → at + count ≤ length bytes
    → i < count
    → get_or (take (min (length bytes) (at + count) - at) (drop at bytes)) i 0
      ≡ get_or bytes (at + i) 0
get_or-piece bytes at count i fits inside = ground (
  arith,
  get_or-take (min (length bytes) (at + count) - at) (drop at bytes) i 0,
  get_or-drop at bytes i 0,
)

-- The byte of a cut chunk, when what is cut off was zero.
chosen :
    (kept within within' : Bool) (new new' old old' : ℕ)
    → within ≡ within'
    → (within ≡ true → new ≡ new')
    → (within ≡ false → old ≡ old')
    → (kept ≡ false → (within ≡ false) × (old' ≡ 0))
    → (if kept then (if within then new else old) else 0) ≡ (if within' then new' else old')
chosen kept true within' new new' old old' e f g h = ground (arith, f refl, h)
chosen kept false within' new new' old old' e f g h = ground (arith, g refl, h)

module _ (db : Db) (ino cs off : ℕ) (bytes : Bytes) (size last index : ℕ) (pos : 0 < cs)
    (bound : off + length bytes < 2 ^ 63) (below : index * cs < off + length bytes)
    (above : off < index * cs + cs) (ends : index ≡ last → off + length bytes ≤ index * cs + cs)
    (goes_on : index ≢ last → index * cs + cs ≤ off + length bytes) where
  pub get_or-written_chunk :
      (i : ℕ)
      → i < cs
      → (size ≤ index * cs + i → get_or (chunk_or_empty db ino index) i 0 ≡ 0)
      → get_or (written_chunk db ino cs off bytes size last index) i 0 ≡ (
          if leb off (index * cs + i) && ltb (index * cs + i) (off + length bytes)
          then get_or bytes (index * cs + i - off) 0
          else get_or (chunk_or_empty db ino index) i 0)
  unfolding written_chunk
  get_or-written_chunk i inside tail =
      let no_wrap : add64 off (length bytes) ≡ off + length bytes = omega arith in
      let start : ℕ = index * cs in
      let data_start : ℕ = if ltb start off then off - start else 0 in
      let data_end : ℕ = min cs (off + length bytes - start) in
      let src : ℕ = if ltb off start then start - off else 0 in
      let count : ℕ = data_end - data_start in
      let ordered : data_start ≤ data_end = ground arith in
      let enough : src + count ≤ length bytes = ground arith in
      let piece : Bytes = take (min (length bytes) (src + count) - src) (drop src bytes) in
      let old : Bytes =
        old_chunk (ltb 0 data_start || ltb data_end cs) cs (chunk_or_empty db ino index) in
      let old_end : ℕ = if ltb start size then min (size - start) cs else 0 in
      let keep : ℕ = if nat_beq index last then max (off + length bytes - start) old_end else cs in
      let length_piece : length piece ≡ count = length-piece bytes src count enough in
      let full : length old ≡ cs =
        length-old_chunk (ltb 0 data_start || ltb data_end cs) cs (chunk_or_empty db ino index) in
      let fits : data_start + length piece ≤ cs = omega (arith, length_piece) in
      let span : data_start + length piece ≡ data_end = omega (arith, length_piece, ordered) in
      let of_piece : leb data_start i && ltb i data_end ≡ true
          → get_or piece (i - data_start) 0 ≡ get_or bytes (index * cs + i - off) 0 =
        λ within.
          (let at : src + (i - data_start) ≡ index * cs + i - off = ground arith in
            get_or-piece bytes src count (i - data_start) enough (ground arith)
            ∙ ap (λ (t : ℕ). get_or bytes t 0) at) in
      let of_old : leb data_start i && ltb i data_end ≡ false
          → get_or old i 0 ≡ get_or (chunk_or_empty db ino index) i 0 =
        λ outside. elim (Bool-cases (ltb 0 data_start || ltb data_end cs)) [
          | inl read ↦ rw read (get_or-resize cs (chunk_or_empty db ino index) i inside)
          | inr whole ↦ absurd (ground arith)
        ] in
      let same : leb data_start i && ltb i data_end
          ≡ (leb off (index * cs + i) && ltb (index * cs + i) (off + length bytes)) =
        ground arith in
      let kept : ltb i keep ≡ false
          → (leb data_start i && ltb i data_end ≡ false) × (size ≤ index * cs + i) =
        λ cut. (ground arith, ground arith) in
      let to_end : leb data_start i && ltb i (data_start + length piece)
          ≡ (leb data_start i && ltb i data_end) =
        ap (λ (t : ℕ). leb data_start i && ltb i t) span in
      rw no_wrap (
        get_or-pasted old cs data_start piece keep i full fits
        ∙ chosen (ltb i keep) (leb data_start i && ltb i (data_start + length piece))
            (leb off (index * cs + i) && ltb (index * cs + i) (off + length bytes))
            (get_or piece (i - data_start) 0) (get_or bytes (index * cs + i - off) 0)
            (get_or old i 0) (get_or (chunk_or_empty db ino index) i 0) (to_end ∙ same)
            (λ e. of_piece (sym to_end ∙ e)) (λ e. of_old (sym to_end ∙ e))
            (λ cut. (to_end ∙ (kept cut).0, tail (kept cut).1)))
