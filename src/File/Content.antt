-- ===== src/File/Content.antt =====
-- The bytes that the chunks of an inode stand for: a missing chunk, and what a chunk lacks at its
-- end, is zero.
use native.Mathlib.Nat.{
  add-zero, zero-min, min-zero, suc-min-suc, sub-zero, zero-sub, suc-sub-suc, mul-add-div_right,
  div-eq_of_lt, mul-add-mod_self_right, mod-eq_of_lt,
}
use airyfs.Prelude.{
  ℕ, zero, suc, ◌+◌, ◌*◌, ◌/◌, ◌%◌, ◌<◌, ◌≤◌, ◌≡◌, refl, ap, ◌∙◌, some, none, [], ◌∷◌, ◌++◌, length,
  get_or, take, drop, ltb, if◌then◌else◌, min, ◌-◌, nat_eq, arith, pair_eq,
}
use airyfs.Prelude.Table.{select}
use airyfs.Db.{Bytes, Db, Inode}
use airyfs.File.{FileHandle, chunk_or_empty, size_of}

-- The byte at a position.
unfoldable pub byte_at : Db → FileHandle → ℕ → ℕ
byte_at db file p =
    get_or (chunk_or_empty db file.ino (p / file.chunk_size)) (p % file.chunk_size) 0

-- f a, f (a + 1), … : n bytes
unfoldable pub slice : (ℕ → ℕ) → ℕ → ℕ → Bytes
slice f a zero = []
slice f a (suc n) = f a ∷ slice f (a + 1) n

-- No chunk is longer than the chunk size.
pub record ChunksFit (db : Db) (file : FileHandle) : Type 0 where
  pub positive : 0 < file.chunk_size
  pub fits : (index : ℕ) → length (chunk_or_empty db file.ino index) ≤ file.chunk_size

pub length-slice : (f : ℕ → ℕ) (a n : ℕ) → length (slice f a n) ≡ n
unfolding slice
length-slice f a zero = refl
length-slice f a (suc n) = ap suc (length-slice f (a + 1) n)

pub slice-append :
    (f : ℕ → ℕ) (a : ℕ) (xs ys : Bytes)
    → slice f a (length xs) ≡ xs
    → slice f (a + length xs) (length ys) ≡ ys
    → slice f a (length (xs ++ ys)) ≡ xs ++ ys
unfolding slice
slice-append f a [] ys h k = rw add-zero at k
slice-append f a (x ∷ xs) ys h k =
    let tail_eq : slice f (a + 1) (length xs) ≡ xs = ground arith in
    let from : a + length (x ∷ xs) ≡ (a + 1) + length xs = omega arith in
    let k' : slice f ((a + 1) + length xs) (length ys) ≡ ys = rw from at k in
    ground (arith, slice-append f (a + 1) xs ys tail_eq k')

-- A list is a slice if it agrees with the function at each index.
pub slice-eq :
    (f : ℕ → ℕ) (a : ℕ) (xs : Bytes)
    → ((i : ℕ) → i < length xs → f (a + i) ≡ get_or xs i 0)
    → slice f a (length xs) ≡ xs
unfolding slice
slice-eq f a [] h = refl
slice-eq f a (x ∷ xs) h =
    let first : f a ≡ x = rw add-zero at (h 0 (omega arith)) in
    let later : slice f (a + 1) (length xs) ≡ xs = slice-eq f (a + 1) xs (λ i p.
      ap f (let e : (a + 1) + i ≡ a + suc i = omega arith in e) ∙ h (suc i) (omega arith)) in
    cc (first, later)

pub div_of_chunk : (k cs j : ℕ) → j < cs → (k * cs + j) / cs ≡ k
div_of_chunk k cs j h =
    rw (mul-add-div_right (let p : 0 < cs = omega arith in p) k j, div-eq_of_lt h, add-zero)

pub mod_of_chunk : (k cs j : ℕ) → j < cs → (k * cs + j) % cs ≡ j
mod_of_chunk k cs j h = rw (mul-add-mod_self_right, mod-eq_of_lt h)

-- what a row, or no row, of fs_data gives
pub chunk_of_none :
    (db : Db) (ino index : ℕ)
    → select (ino, index) db.chunks ≡ none
    → chunk_or_empty db ino index ≡ []
unfolding chunk_or_empty
chunk_of_none db ino index h = rw (h, chunk_or_empty)

pub chunk_of_some :
    (db : Db) (ino index : ℕ) {c : Bytes}
    → select (ino, index) db.chunks ≡ some c
    → chunk_or_empty db ino index ≡ c
unfolding chunk_or_empty
chunk_of_some db ino index h = rw (h, chunk_or_empty)

-- A sound file: its row is there, its chunks fit, and beyond its size there are only zeros.
pub record IsFile (db : Db) (file : FileHandle) : Type 0 where
  pub row : Inode
  pub stored : select file.ino db.inodes ≡ some row
  pub fit : ChunksFit db file
  pub tail : (p : ℕ) → size_of db file.ino ≤ p → byte_at db file p ≡ 0

-- All bytes of a file, as a list: what a user of the file sees.
unfoldable pub contents : Db → FileHandle → Bytes
contents db file = slice (byte_at db file) 0 (size_of db file.ino)

pub get_or-slice :
    (f : ℕ → ℕ) (a n i : ℕ) → get_or (slice f a n) i 0 ≡ (if ltb i n then f (a + i) else 0)
unfolding slice
get_or-slice f a zero i = ground arith
get_or-slice f a (suc n) zero = rw add-zero (ground arith)
get_or-slice f a (suc n) (suc i) =
    let at : a + 1 + i ≡ a + suc i = omega arith in
    let moved : f (a + 1 + i) ≡ f (a + suc i) = ap f at in
    ground (arith, get_or-slice f (a + 1) n i)

pub take-slice : (f : ℕ → ℕ) (n a m : ℕ) → take n (slice f a m) ≡ slice f a (min n m)
unfolding slice
take-slice f zero a m = rw zero-min
take-slice f (suc n) a zero = rw min-zero
take-slice f (suc n) a (suc m) = rw (suc-min-suc, take-slice f n (a + 1) m)

pub drop-slice : (f : ℕ → ℕ) (n a m : ℕ) → drop n (slice f a m) ≡ slice f (a + n) (m - n)
unfolding slice
drop-slice f zero a m = rw (add-zero, sub-zero)
drop-slice f (suc n) a zero = rw zero-sub
drop-slice f (suc n) a (suc m) =
    let at : a + 1 + n ≡ a + suc n = omega arith in rw (drop-slice f n (a + 1) m, at, suc-sub-suc)
