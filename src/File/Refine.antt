-- ===== src/File/Refine.antt =====
-- A file against its specification: a list of bytes that is read, overwritten and resized.
use mathlib.Core.List.{append-nil}
use native.Mathlib.Nat.{zero-add}
use airyfs.Prelude.{
  ℕ, ◌+◌, ◌-◌, ◌^◌, ◌<◌, ◌≤◌, ◌≡◌, refl, sym, ◌∙◌, min, max, [], ◌∷◌, ◌++◌, length, get_or, take,
  drop, replicate, arith, ltb, leb, ◌&&◌, if◌then◌else◌, length-append, length-take, length-drop,
  length-replicate, get_or-append, get_or-take, get_or-drop, get_or-replicate, get_or_of_length-le,
}
use airyfs.Mode.{Stamp}
use airyfs.Db.{Bytes, Db}
use airyfs.File.{FileHandle, size_of, pread, pwrite, truncate}
use airyfs.File.Content.{
  byte_at, slice-eq, IsFile, contents, get_or-slice, take-slice, drop-slice, length-slice,
}
use airyfs.File.Read.{pread-eq-slice}
use airyfs.File.Write.{Wrote, pwrite-Wrote}
use airyfs.File.Truncate.{truncate-Truncated}

splice : ℕ → Bytes → Bytes → Bytes
splice off ws xs =
    take off xs ++ (replicate (off - length xs) 0 ++ (ws ++ drop (off + length ws) xs))

-- POSIX pwrite on a list of bytes: a gap between the end and the offset is filled with zeros, and
-- writing nothing changes nothing.
pub overwrite : ℕ → Bytes → Bytes → Bytes
unfolding splice
overwrite off [] xs = xs
overwrite off (b ∷ bs) xs = splice off (b ∷ bs) xs

pub overwrite-empty : (ws : Bytes) → overwrite 0 ws [] ≡ ws
unfolding overwrite
overwrite-empty [] = refl
overwrite-empty (b ∷ bs) = rw zero-add (append-nil (b ∷ bs))

-- POSIX ftruncate on a list of bytes.
pub resize : ℕ → Bytes → Bytes
resize n xs = take n xs ++ replicate (n - length xs) 0

-- A list is the contents of a file of its length that holds its bytes.
contents-eq :
    (db : Db) (file : FileHandle) (xs : Bytes)
    → size_of db file.ino ≡ length xs
    → ((i : ℕ) → i < length xs → byte_at db file i ≡ get_or xs i 0)
    → contents db file ≡ xs
unfolding contents
contents-eq db file xs size same =
    rw size (slice-eq (byte_at db file) 0 xs (λ i p. rw zero-add (same i p)))

length-contents : (db : Db) (file : FileHandle) → length (contents db file) ≡ size_of db file.ino
unfolding contents
length-contents db file = length-slice (byte_at db file) 0 (size_of db file.ino)

get_or-contents :
    (db : Db) (file : FileHandle) (i : ℕ)
    → IsFile db file
    → get_or (contents db file) i 0 ≡ byte_at db file i
unfolding contents
get_or-contents db file i h = rw (get_or-slice, zero-add) (ground (arith, h.tail i))

-- For a sound file, `pread` of `size` bytes at `off` returns that part of the contents: fewer
-- bytes where the file ends before, and none at or past the end.
pub pread-contents :
    (db : Db) (file : FileHandle) (off size : ℕ)
    → IsFile db file
    → pread db file off size ≡ take size (drop off (contents db file))
unfolding contents
pread-contents db file off size h =
    pread-eq-slice db file off size h.fit ∙ sym (rw (drop-slice, take-slice, zero-add))

length-splice :
    (off : ℕ) (ws xs : Bytes)
    → 0 < length ws
    → length (splice off ws xs) ≡ max (length xs) (off + length ws)
unfolding splice
length-splice off ws xs h =
    let gap : Bytes = replicate (off - length xs) 0 in
    let rest : Bytes = drop (off + length ws) xs in
    omega (
      arith,
      length-append (take off xs) (gap ++ (ws ++ rest)),
      length-append gap (ws ++ rest),
      length-append ws rest,
      length-take off xs,
      length-drop (off + length ws) xs,
      length-replicate {A = ℕ} (off - length xs) 0,
    )

get_or-splice :
    (off : ℕ) (ws xs : Bytes) (i : ℕ)
    → get_or (splice off ws xs) i 0
      ≡ (if leb off i && ltb i (off + length ws) then get_or ws (i - off) 0 else get_or xs i 0)
unfolding splice
get_or-splice off ws xs i =
    let gap : Bytes = replicate (off - length xs) 0 in
    let rest : Bytes = drop (off + length ws) xs in
    let kept : length (take off xs) ≡ min off (length xs) = length-take off xs in
    let filled : length gap ≡ off - length xs = length-replicate {A = ℕ} (off - length xs) 0 in
    rw (get_or-append (take off xs), get_or-append gap, get_or-append ws, kept, filled)
      (ground (
        arith,
        get_or-take off xs i 0,
        get_or-drop (off + length ws) xs (i - min off (length xs) - (off - length xs) - length ws)
            0,
        get_or-replicate {A = ℕ} (off - length xs) (i - min off (length xs)) 0,
        get_or_of_length-le xs i 0,
      ))

-- For a sound file and a write that ends below 2^63, the contents after `pwrite` are the old
-- contents with the bytes laid over them at the offset, a gap before the offset filled with
-- zeros; a write of no bytes changes nothing.
pub contents-pwrite :
    (now : Stamp) (db : Db) (file : FileHandle) (off : ℕ) (bytes : Bytes)
    → IsFile db file
    → off + length bytes < 2 ^ 63
    → contents (pwrite now db file off bytes) file ≡ overwrite off bytes (contents db file)
unfolding overwrite
contents-pwrite now db file off [] h bound = unfold pwrite in refl
contents-pwrite now db file off (b ∷ bs) h bound =
    let ws : Bytes = b ∷ bs in
    let xs : Bytes = contents db file in
    let db' : Db = pwrite now db file off ws in
    let w : Wrote db file off ws db' = pwrite-Wrote now db file off b bs h.fit h.stored bound in
    contents-eq db' file (splice off ws xs)
      (omega (arith, w.size, length-splice off ws xs (omega arith), length-contents db file))
      (λ i p. rw (w.bytes_at i, get_or-splice) (ground (arith, get_or-contents db file i h)))

-- A sound file is sound after a write that ends below 2^63: no chunk longer than the chunk
-- size, and only zeros past the size.
pub pwrite-IsFile :
    (now : Stamp) (db : Db) (file : FileHandle) (off : ℕ) (bytes : Bytes)
    → IsFile db file
    → off + length bytes < 2 ^ 63
    → IsFile (pwrite now db file off bytes) file
pwrite-IsFile now db file off [] h bound = unfold pwrite in h
pwrite-IsFile now db file off (b ∷ bs) h bound =
    let w : Wrote db file off (b ∷ bs) (pwrite now db file off (b ∷ bs)) =
      pwrite-Wrote now db file off b bs h.fit h.stored bound in
    record {
      row = w.row;
      stored = w.stored;
      fit = w.fit;
      tail = λ p above.
          w.bytes_at p
          ∙ (let past : off + length (b ∷ bs) ≤ p = omega (arith, w.size) in
              let out : size_of db file.ino ≤ p = omega (arith, w.size) in
              ground (arith, h.tail p out));
    }

-- For a sound file, the contents after `truncate` are the old contents cut to the new size, or
-- extended to it with zeros.
pub contents-truncate :
    (now : Stamp) (db : Db) (file : FileHandle) (new_size : ℕ)
    → IsFile db file
    → contents (truncate now db file new_size) file ≡ resize new_size (contents db file)
unfolding resize
contents-truncate now db file new_size h =
    let xs : Bytes = contents db file in
    let t = truncate-Truncated now db file new_size h in
    contents-eq (truncate now db file new_size) file
      (take new_size xs ++ replicate (new_size - length xs) 0)
      (omega (
        arith,
        t.size,
        length-append (take new_size xs) (replicate (new_size - length xs) 0),
        length-take new_size xs,
        length-replicate {A = ℕ} (new_size - length xs) 0,
      ))
      (λ i p.
        rw (t.bytes_at i, get_or-append)
          (ground (
            arith,
            get_or-contents db file i h,
            length-contents db file,
            h.tail i,
            length-take new_size xs,
            get_or-take new_size xs i 0,
            get_or-replicate {A = ℕ} (new_size - length xs) (i - length (take new_size xs)) 0,
          )))
