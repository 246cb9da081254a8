-- ===== src/Mounts/OpenFile/ReadBack.antt =====
-- What is written to an open file of a virtual mount is read back.
use airyfs.Prelude.{
  ℕ, zero, suc, ◌+◌, ◌-◌, ◌^◌, ◌≤◌, ◌<◌, ◌≡◌, refl, ap, ◌∙◌, min, true, false, some, inl, inr,
  Bool-cases, [], ◌∷◌, ◌++◌, leb, length, take, drop, arith,
}
use airyfs.Prelude.Int.{pos}
use airyfs.Db.{Bytes}
use airyfs.File.{pad_to, copy_at}
use airyfs.File.Write.Chunk.{length-pad_to, length-copy_at}
use airyfs.Mounts.OpenFile.{OpenFile, seek_set, read, write, write_start, moved, new_offset, seek}

drop-append : (n : ℕ) (d rest : Bytes) → n ≤ length d → drop n (take n d ++ rest) ≡ rest
drop-append zero d rest h = refl
drop-append (suc n) [] rest h = absurd (omega arith)
drop-append (suc n) (c ∷ d) rest h = drop-append n d rest (omega arith)

take-append : (a rest : Bytes) → take (length a) (a ++ rest) ≡ a
take-append [] rest = refl
take-append (c ∷ a) rest = ap (λ b. c ∷ b) (take-append a rest)

-- the bytes at the place that was written
copied :
    (d : Bytes) (start : ℕ) (buf : Bytes)
    → start ≤ length d
    → take (length buf) (drop start (copy_at d start buf)) ≡ buf
unfolding copy_at
copied d start buf h =
    ap (take (length buf)) (drop-append start d (buf ++ drop (start + length buf) d) h)
    ∙ take-append buf (drop (start + length buf) d)

read_inside :
    (size : ℕ) (file : OpenFile)
    → 0 < size
    → file.offset + size ≤ length file.data_bytes
    → read size file
      ≡ (take size (drop file.offset file.data_bytes), record file { offset = file.offset + size })
unfolding read
read_inside size file p h =
    let more : leb (length file.data_bytes) file.offset ≡ false = ground arith in
    let got : min (file.offset + size) (length file.data_bytes) - file.offset ≡ size =
      omega arith in
    rw (more, got) refl

seek_to :
    (at : ℕ) (file : OpenFile)
    → at < 2 ^ 63
    → seek (pos at) seek_set file ≡ some (at, record file { offset = at })
unfolding seek new_offset moved
seek_to at file h = ground arith

write_from :
    (file : OpenFile) (start : ℕ)
    → (file.append ≡ true → start ≡ length file.data_bytes)
    → (file.append ≡ false → start ≡ file.offset)
    → write_start file ≡ start
unfolding write_start
write_from file start at_end at_offset = elim (Bool-cases file.append) [
  | inl on ↦ ground (arith, at_end on)
  | inr off ↦ ground (arith, at_offset off)
]

-- Where at least one byte is written to an open file of a virtual mount, at the number of its
-- bytes if it has O_APPEND and at its offset if not, and that start is below 2^63, seeking back
-- to the start succeeds, and reading as many bytes there gives the bytes that were written and
-- leaves the file as the write left it.
pub write-seek-read :
    (file : OpenFile) (start c : ℕ) (cs : Bytes)
    → (file.append ≡ true → start ≡ length file.data_bytes)
    → (file.append ≡ false → start ≡ file.offset)
    → start < 2 ^ 63
    → (back : OpenFile) × (seek (pos start) seek_set (write (c ∷ cs) file) ≡ some (start, back))
      × (read (length (c ∷ cs)) back ≡ (c ∷ cs, write (c ∷ cs) file))
unfolding write
write-seek-read file start c cs at_end at_offset h =
    let from : write_start file ≡ start = write_from file start at_end at_offset in
    let buf : Bytes = c ∷ cs in
    let padded = pad_to (start + length buf) file.data_bytes in
    let written : OpenFile = record file {
      data_bytes = copy_at padded start buf;
      offset = start + length buf;
      dirty = true;
    } in
    let back : OpenFile = record written { offset = start } in
    let fits : start + length buf ≤ length padded =
      (length-pad_to (start + length buf) file.data_bytes).0 in
    let whole : length (copy_at padded start buf) ≡ length padded =
      length-copy_at padded start buf fits in
    rw from (
      back,
      seek_to start written h,
      read_inside (length buf) back (omega arith) (omega arith)
          ∙ ap (λ bytes. (bytes, written)) (copied padded start buf (omega arith)),
    )
