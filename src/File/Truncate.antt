-- ===== src/File/Truncate.antt =====
-- `truncate` keeps the bytes below the new size and leaves zeros above it.
use native.Mathlib.Nat.{mod-lt, div-add-mod', mul-le-mul_right}
use airyfs.Prelude.{
  Bool, ◌⊎◌, ℕ, ◌+◌, ◌-◌, ◌*◌, ◌/◌, ◌%◌, ◌<◌, ◌≤◌, ◌≡◌, ap, ◌∙◌, some, List, [], length, get_or,
  arith, ltb, nat_beq, nat_eq, pair_eq, ◌&&◌, if◌then◌else◌, inl, inr, length-take, get_or-take,
  get_or_of_length-le,
}
use airyfs.Prelude.Table.{select, delete_where, select-delete_where, select-update}
use airyfs.Mode.{Stamp}
use airyfs.Db.{Bytes, Db, Inode, update_inode}
use airyfs.File.{FileHandle, chunk_or_empty, cut_chunk, truncate_chunks, truncate, size_of}
use native.Mathlib.Decide.{dec_lt}
use airyfs.File.Content.{byte_at, mod_of_chunk, ChunksFit, IsFile}
use airyfs.File.Write.{select-update_inode, size_of-update_inode}

-- The last chunk of a file of n bytes, and how much of it the file uses.
last_chunk :
    (n cs : ℕ)
    → 0 < n
    → 0 < cs
    → ((n % cs ≡ 0) × (n ≡ (n - 1) / cs * cs + cs))
      ⊎ ((0 < n % cs) × (n ≡ (n - 1) / cs * cs + n % cs))
last_chunk n cs h pos =
    let l : ℕ = (n - 1) / cs in
    let m : ℕ = (n - 1) % cs in
    let split : l * cs + m ≡ n - 1 = div-add-mod' (n - 1) cs in
    let small : m < cs = mod-lt (n - 1) pos in
    elim (dec_lt (m + 1) cs) [
      | yes part ↦
          let e : n ≡ l * cs + (m + 1) = omega arith in
          let r : n % cs ≡ m + 1 = ap (λ t. t % cs) e ∙ mod_of_chunk l cs (m + 1) part in
          inr (omega arith, omega arith)
      | no full ↦
          let e : n ≡ (l + 1) * cs + 0 = omega arith in
          inl (ap (λ t. t % cs) e ∙ mod_of_chunk (l + 1) cs 0 pos, omega arith)
    ]

-- A position and the end n of a file, chunk by chunk.
position :
    (n p cs : ℕ)
    → 0 < n
    → 0 < cs
    → (((n - 1) / cs < p / cs) × (n ≤ p))
      ⊎ ((p / cs < (n - 1) / cs) × (p < n))
      ⊎ (((n - 1) / cs ≡ p / cs)
          × (((n % cs ≡ 0) × (p < n))
              ⊎ ((0 < n % cs) × (((p % cs < n % cs) × (p < n)) ⊎ ((n % cs ≤ p % cs) × (n ≤ p))))))
position n p cs h pos = grind (
  arith,
  last_chunk n cs h pos,
  div-add-mod' p cs,
  mod-lt p pos,
  mod-lt n pos,
  mul-le-mul_right {m = (n - 1) / cs + 1} {n = p / cs} cs,
  mul-le-mul_right {m = p / cs + 1} {n = (n - 1) / cs} cs,
)

get_or-cut_chunk :
    (at : ℕ) (c : Bytes) (i : ℕ)
    → get_or (cut_chunk at c) i 0 ≡ (if ltb i at then get_or c i 0 else 0)
unfolding cut_chunk
get_or-cut_chunk at c i = ground (arith, get_or-take at c i 0, get_or_of_length-le c i 0)

length-cut_chunk : (at : ℕ) (c : Bytes) → length (cut_chunk at c) ≤ length c
unfolding cut_chunk
length-cut_chunk at c = ground (arith, length-take at c)

cut_chunk-nil : (at : ℕ) → cut_chunk at [] ≡ []
unfolding cut_chunk
cut_chunk-nil at = ground arith

module _ (db : Db) (file : FileHandle) (now_size new_size : ℕ) where
  open file use {ino, chunk_size as cs}

  abbrev db' : Db
  db' = truncate_chunks db file now_size new_size

  abbrev last : ℕ
  last = (new_size - 1) / cs

  -- what becomes of each chunk
  chunk-truncate_chunks :
      (j : ℕ)
      → chunk_or_empty db' ino j ≡ (
          if nat_beq new_size 0
          then []
          else if ltb new_size now_size
          then (if ltb last j
              then []
              else if ltb 0 (new_size % cs) && nat_beq last j
              then cut_chunk (new_size % cs) (chunk_or_empty db ino j)
              else chunk_or_empty db ino j)
          else chunk_or_empty db ino j)
  unfolding truncate_chunks chunk_or_empty
  chunk-truncate_chunks j =
      let at : ℕ = new_size % cs in
      let m : List ((ℕ × ℕ) × Bytes) = db.chunks in
      let beyond : ℕ × ℕ → Bool = λ k. nat_beq k.0 ino && ltb last k.1 in
      ground (
        arith,
        select-delete_where (λ (k : ℕ × ℕ). nat_beq k.0 ino) (ino, j) m,
        select-delete_where beyond (ino, j) m,
        select-update (ino, last) (ino, j) (cut_chunk at) (delete_where beyond m),
        cut_chunk-nil at,
      )

  module _ (pos : 0 < cs) where
    -- the bytes below the new size stay, those above it are zeros
    pub byte_at-truncate_chunks :
        (p : ℕ)
        → (now_size ≤ p → byte_at db file p ≡ 0)
        → byte_at db' file p ≡ (if ltb p new_size then byte_at db file p else 0)
    unfolding byte_at
    byte_at-truncate_chunks p tail = rw chunk-truncate_chunks (elim (dec_lt 0 new_size) [
      | yes some_left ↦ ground (
        arith,
        position new_size p cs some_left pos,
        get_or-cut_chunk (new_size % cs) (chunk_or_empty db ino (p / cs)) (p % cs),
      )
      | no none_left ↦ ground arith
    ])

    pub truncate_chunks-ChunksFit : ChunksFit db file → ChunksFit db' file
    truncate_chunks-ChunksFit fit = record {
      positive = pos;
      fits = λ j.
          rw chunk-truncate_chunks (
            ground (arith, fit.fits j, length-cut_chunk (new_size % cs) (chunk_or_empty db ino j)));
    }

  inodes-truncate_chunks : db'.inodes ≡ db.inodes
  unfolding truncate_chunks
  inodes-truncate_chunks = ground arith

-- After `truncate`: the new size, the bytes kept, and a sound file again.
pub record Truncated (db : Db) (file : FileHandle) (new_size : ℕ) (db' : Db) : Type 0 where
  pub size : size_of db' file.ino ≡ new_size
  pub bytes_at : (p : ℕ) → byte_at db' file p ≡ (if ltb p new_size then byte_at db file p else 0)
  pub sound : IsFile db' file

-- For a sound file, `truncate` sets the size, keeps each byte below the new size, leaves only
-- zeros from there on, so that growing again shows none of the old bytes, and leaves the file
-- sound.
pub truncate-Truncated :
    (now : Stamp) (db : Db) (file : FileHandle) (new_size : ℕ)
    → IsFile db file
    → Truncated db file new_size (truncate now db file new_size)
unfolding truncate byte_at chunk_or_empty
truncate-Truncated now db file new_size h =
    let cut : Db = truncate_chunks db file (size_of db file.ino) new_size in
    let set_row : Inode → Inode = λ r. record r { size = new_size; mtime = now; ctime = now } in
    let same_rows : cut.inodes ≡ db.inodes =
      inodes-truncate_chunks db file (size_of db file.ino) new_size in
    let stored' : select file.ino cut.inodes ≡ some h.row = rw same_rows h.stored in
    let size' : size_of (update_inode file.ino set_row cut) file.ino ≡ new_size =
      size_of-update_inode cut file.ino set_row stored' in
    let bytes' : (p : ℕ) → byte_at cut file p ≡ (if ltb p new_size then byte_at db file p else 0) =
      λ p.
        byte_at-truncate_chunks db file (size_of db file.ino) new_size h.fit.positive p
          (h.tail p) in
    let fit' : ChunksFit cut file =
      truncate_chunks-ChunksFit db file (size_of db file.ino) new_size h.fit.positive h.fit in
    record {
      size = size';
      bytes_at = bytes';
      sound = record {
        row = set_row h.row;
        stored = select-update_inode cut file.ino set_row stored';
        fit = record { positive = fit'.positive; fits = fit'.fits };
        tail =
            λ p above. bytes' p ∙ (let high : new_size ≤ p = omega (arith, size') in ground arith);
      };
    }
