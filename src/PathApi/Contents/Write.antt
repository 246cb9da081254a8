-- ===== src/PathApi/Contents/Write.antt =====
-- `pwrite` by path writes what `pwrite` of an open file writes.
use native.Mathlib.Decide.{ℕ_discrete}
use airyfs.Prelude.{
  ℕ, zero, suc, ◌+◌, ◌-◌, ◌*◌, ◌/◌, ◌%◌, ◌^◌, ◌≤◌, ◌<◌, max, ◌≡◌, ◌≢◌, refl, sym, ap, ◌∙◌, false,
  ◌&&◌, some, Bool-cases, inl, inr, ◌∷◌, arith, length, get_or, ltb, leb, nat_beq, nat_eq, entry_eq,
  pair_eq, bytes_eq, if◌then◌else◌,
}
use airyfs.Prelude.Table.{select}
use airyfs.Mode.{Stamp}
use airyfs.Db.{Bytes, Inode, Db}
use airyfs.File.{FileHandle, add64, size_of, chunk_or_empty, put_chunk, pwrite}
use native.Mathlib.Nat.{le-div_iff_mul-le, div-mul-le_self, div-add-mod', mod-lt, mul-le-mul_right}
use airyfs.File.Content.{byte_at, slice, IsFile, contents, div_of_chunk, mod_of_chunk}
use airyfs.File.Write.{pwrite-Wrote, size_of-update_inode}
use airyfs.File.Write.Chunk.{chunk_or_empty-put_chunk}
use airyfs.PathApi.Contents.{written_chunk, write_chunks, write_bytes, sub64}
use airyfs.PathApi.Contents.Chunk.{get_or-written_chunk}

-- the stored byte at an offset of a chunk
abbrev stored : Db → ℕ → ℕ → ℕ → ℕ
stored db ino k i = get_or (chunk_or_empty db ino k) i 0

module _ (ino cs off : ℕ) (bytes : Bytes) (size last : ℕ) (wide : 0 < cs)
    (bound : off + length bytes < 2 ^ 63) where
  -- a chunk that the write reaches
  abbrev Reaches : ℕ → Type 0
  Reaches k =
      (k * cs < off + length bytes)
      × (off < k * cs + cs)
      × (k ≡ last → off + length bytes ≤ k * cs + cs)
      × (k ≢ last → k * cs + cs ≤ off + length bytes)

  -- the byte after the write
  abbrev after : Db → ℕ → ℕ → ℕ
  after db k i =
      if leb off (k * cs + i) && ltb (k * cs + i) (off + length bytes)
      then get_or bytes (k * cs + i - off) 0
      else stored db ino k i

  stored-write_chunks :
      (left index : ℕ) (db : Db)
      → ((k : ℕ) → index ≤ k → k < index + left → Reaches k)
      → ((k i : ℕ) → index ≤ k → i < cs → size ≤ k * cs + i → stored db ino k i ≡ 0)
      → (j i : ℕ) → i < cs
      → stored (write_chunks left ino cs off bytes size last index db) ino j i
        ≡ (if leb index j && ltb j (index + left) then after db j i else stored db ino j i)
  unfolding write_chunks
  stored-write_chunks zero index db reach tail j i inside = ground arith
  stored-write_chunks (suc left) index db reach tail j i inside =
      let chunk : Bytes = written_chunk db ino cs off bytes size last index in
      let db' : Db = put_chunk db ino index chunk in
      let put : (k : ℕ)
          → chunk_or_empty db' ino k
            ≡ (if nat_beq index k then chunk else chunk_or_empty db ino k) =
        λ k. ground (arith, chunk_or_empty-put_chunk db ino index chunk ino k) in
      let here = reach index (omega arith) (omega arith) in
      let written : stored db' ino index i ≡ after db index i =
        ap (λ (c : Bytes). get_or c i 0) (put index ∙ ground arith)
        ∙ get_or-written_chunk db ino cs off bytes size last index wide bound here.0 here.1 here.2
            here.3 i inside (tail index i (omega arith) inside) in
      let other : (k n : ℕ) → k ≢ index → stored db' ino k n ≡ stored db ino k n =
        λ k n apart. ap (λ (c : Bytes). get_or c n 0) (put k ∙ ground arith) in
      let rest =
        stored-write_chunks left (index + 1) db' (λ k low high. reach k (omega arith) (omega arith))
          (λ k n low less beyond. other k n (omega arith) ∙ tail k n (omega arith) less beyond) j i
          inside in
      elim (ℕ_discrete j index) [
        | yes at ↦
            ground (
              arith,
              ap (λ (k : ℕ). stored db' ino k i) at,
              ap (λ (k : ℕ). after db k i) at,
              written,
            )
        | no apart ↦ ground (arith, other j i apart)
      ]

-- The chunks from that of the first byte to that of the last are those that the write reaches.
range-Reaches :
    (cs off : ℕ) (bytes : Bytes)
    → (wide : 0 < cs) → (bound : off + length bytes < 2 ^ 63) → 0 < length bytes
    → (k : ℕ) → off / cs ≤ k
    → k ≤ (off + length bytes - 1) / cs
    → Reaches 0 cs off bytes 0 ((off + length bytes - 1) / cs) wide bound k
range-Reaches cs off bytes wide bound some_bytes k low high =
    let end : ℕ = off + length bytes - 1 in
    let split_off : off / cs * cs + off % cs ≡ off = div-add-mod' off cs in
    let split_end : end / cs * cs + end % cs ≡ end = div-add-mod' end cs in
    let in_off : off % cs < cs = mod-lt off wide in
    let in_end : end % cs < cs = mod-lt end wide in
    let from : off / cs * cs ≤ k * cs = mul-le-mul_right cs low in
    let to : k * cs ≤ end / cs * cs = mul-le-mul_right cs high in
    (
      omega arith,
      omega arith,
      λ at. (let same : k * cs ≡ end / cs * cs = ap (λ (t : ℕ). t * cs) at in omega arith),
      λ apart.
          (let next : (k + 1) * cs ≤ end / cs * cs = mul-le-mul_right cs (omega arith) in
            let more : (k + 1) * cs ≡ k * cs + cs = grind arith in omega arith),
    )

div_mono : {cs a b : ℕ} → 0 < cs → a ≤ b → a / cs ≤ b / cs
div_mono {cs} {a} {b} wide h = (le-div_iff_mul-le wide).1 (omega (arith, div-mul-le_self a cs))

slice-equal : (f g : ℕ → ℕ) → ((p : ℕ) → f p ≡ g p) → (a n : ℕ) → slice f a n ≡ slice g a n
unfolding slice
slice-equal f g h a zero = refl
slice-equal f g h a (suc n) = cc (h a, slice-equal f g h (a + 1) n)

write_chunks-inodes :
    (left ino cs off : ℕ) (bytes : Bytes) (size last index : ℕ) (db : Db)
    → (write_chunks left ino cs off bytes size last index db).inodes ≡ db.inodes
unfolding write_chunks
write_chunks-inodes zero ino cs off bytes size last index db = refl
write_chunks-inodes (suc left) ino cs off bytes size last index db =
    write_chunks-inodes left ino cs off bytes size last (index + 1) _

module _ (now now' : Stamp) (db : Db) (file : FileHandle) (off b : ℕ) (bs : Bytes)
    (sound : IsFile db file) (bound : off + length (b ∷ bs) < 2 ^ 63) where
  open file use {ino, chunk_size as cs}

  abbrev all_bytes : Bytes
  all_bytes = b ∷ bs

  -- the tables after the write by path
  abbrev by_path : Db
  by_path = write_bytes now ino false cs all_bytes (size_of db ino) off db

  byte_at-write_bytes :
      (p : ℕ)
      → byte_at by_path file p ≡ (
          if leb off p && ltb p (off + length all_bytes)
          then get_or all_bytes (p - off) 0
          else byte_at db file p)
  unfolding write_bytes byte_at chunk_or_empty
  byte_at-write_bytes p =
      let last : ℕ = (off + length all_bytes - 1) / cs in
      let wide : 0 < cs = sound.fit.positive in
      let no_wrap : add64 off (length all_bytes) ≡ off + length all_bytes = omega arith in
      let ends : sub64 (add64 off (length all_bytes)) 1 ≡ off + length all_bytes - 1 =
        omega arith in
      let split_p : p / cs * cs + p % cs ≡ p = div-add-mod' p cs in
      let inside : p % cs < cs = mod-lt p wide in
      let reach : (k : ℕ)
          → off / cs ≤ k
          → k < off / cs + (last + 1 - off / cs)
          → Reaches 0 cs off all_bytes 0 last wide bound k =
        λ k low high. range-Reaches cs off all_bytes wide bound (omega arith) k low (omega arith) in
      let tail : (k i : ℕ)
          → off / cs ≤ k
          → i < cs
          → size_of db ino ≤ k * cs + i
          → stored db ino k i ≡ 0 =
        λ k i low less beyond.
          rw (div_of_chunk k cs i less, mod_of_chunk k cs i less) at
            (sound.tail (k * cs + i) beyond) in
      let written =
        stored-write_chunks ino cs off all_bytes (size_of db ino) last wide bound
          (last + 1 - off / cs) (off / cs) db reach tail (p / cs) (p % cs) inside in
      let seen = rw split_p at written in
      let low : off ≤ p → off / cs ≤ p / cs = λ h. div_mono wide h in
      let high : p ≤ off + length all_bytes - 1 → p / cs ≤ last = λ h. div_mono wide h in
      rw ends (elim (Bool-cases (leb off p && ltb p (off + length all_bytes))) [
        | inl within ↦
            let at_least : off / cs ≤ p / cs = low (ground arith) in
            let at_most : p / cs ≤ last = high (ground arith) in seen ∙ ground arith
        | inr outside ↦ seen ∙ ground arith
      ])

  size_of-write_bytes : size_of by_path ino ≡ max (size_of db ino) (off + length all_bytes)
  unfolding write_bytes
  size_of-write_bytes =
      let no_wrap : add64 off (length all_bytes) ≡ off + length all_bytes = omega arith in
      let set_row : Inode → Inode =
        λ r. record r { size = max (size_of db ino) (add64 off (length all_bytes)); mtime = now } in
      let last : ℕ = sub64 (add64 off (length all_bytes)) 1 / cs in
      let written : Db =
        write_chunks (last + 1 - off / cs) ino cs off all_bytes (size_of db ino) last (off / cs)
          db in
      let same : written.inodes ≡ db.inodes =
        write_chunks-inodes (last + 1 - off / cs) ino cs off all_bytes (size_of db ino) last
          (off / cs) db in
      let there : select ino written.inodes ≡ some sound.row = rw same sound.stored in
      size_of-update_inode written ino set_row there ∙ ap (max (size_of db ino)) no_wrap

  pub contents-write_bytes :
      contents by_path file ≡ contents (pwrite now' db file off all_bytes) file
  unfolding contents
  contents-write_bytes =
      let other = pwrite-Wrote now' db file off b bs sound.fit sound.stored bound in
      let sizes : size_of by_path ino ≡ size_of (pwrite now' db file off all_bytes) ino =
        size_of-write_bytes ∙ sym other.size in
      rw sizes (
        slice-equal (byte_at by_path file) (byte_at (pwrite now' db file off all_bytes) file)
          (λ p. byte_at-write_bytes p ∙ (let e = other.bytes_at p in ground arith)) 0 _)
