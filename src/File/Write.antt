-- ===== src/File/Write.antt =====
-- `pwrite` puts its data at its offset and leaves every other byte as it was.
pub mod Chunk
use native.Mathlib.Nat.{mod-lt, mod-eq_of_lt}
use airyfs.Prelude.{
  ℕ, zero, suc, ◌+◌, ◌-◌, ◌/◌, ◌%◌, ◌^◌, ◌<◌, ◌≤◌, ◌≡◌, ◌≢◌, refl, ap, ◌∙◌, min, max, some, [], ◌∷◌,
  length, get_or, take, drop, arith, ltb, leb, nat_beq, nat_eq, ◌&&◌, if◌then◌else◌, Bool-cases,
  inl, inr, length-take, length-drop, get_or-take, get_or-drop,
}
use airyfs.Prelude.Table.{select, select-update}
use airyfs.Mode.{Stamp}
use airyfs.Db.{Bytes, Db, Inode, update_inode}
use airyfs.File.{
  FileHandle, add64, chunk_or_empty, put_chunk, new_chunk, to_write, write_loop,
  write_data_at_offset, pwrite, size_of, pread,
}
use airyfs.File.Content.{byte_at, slice, slice-eq, ChunksFit}
use airyfs.File.Read.{pread-eq-slice}
use Chunk.{chunk_or_empty-put_chunk, length-new_chunk, byte_at-put_chunk}

-- What a write of `bytes` from index `from` on leaves at position p.
abbrev written_byte : Db → FileHandle → ℕ → Bytes → ℕ → ℕ → ℕ
written_byte db file off bytes from p =
    if leb (off + from) p && ltb p (off + length bytes)
    then get_or bytes (p - off) 0
    else byte_at db file p

module _ (file : FileHandle) (off : ℕ) (bytes : Bytes) (bound : off + length bytes < 2 ^ 63) where
  open file use {ino, chunk_size as cs}

  -- one round: how much it writes, and the database after it
  abbrev count : ℕ → ℕ
  count w = to_write file (off + w) (length bytes - w)

  abbrev round : Db → ℕ → Db
  round db w =
      put_chunk db ino ((off + w) / cs)
        (new_chunk db file (off + w) (take (count w) (drop w bytes)))

  module _ (db : Db) (fit : ChunksFit db file) (w : ℕ) (more : w < length bytes) where
    count_bounds :
        (0 < count w)
        × (w + count w ≤ length bytes)
        × ((off + w) % cs + count w ≤ cs)
        × (length (take (count w) (drop w bytes)) ≡ count w)
    unfolding to_write
    count_bounds = omega (
      arith,
      fit.positive,
      mod-lt (off + w) fit.positive,
      length-take (count w) (drop w bytes),
      length-drop w bytes,
    )

    round-ChunksFit : ChunksFit (round db w) file
    round-ChunksFit = record {
      positive = fit.positive;
      fits = λ index. rw chunk_or_empty-put_chunk (
          ground (
            arith,
            fit.fits index,
            length-new_chunk db file (off + w) (take (count w) (drop w bytes))
                (omega (arith, count_bounds)) (fit.fits ((off + w) / cs)),
          ));
    }

    byte_at-round :
        (p : ℕ)
        → written_byte (round db w) file off bytes (w + count w) p
          ≡ written_byte db file off bytes w p
    byte_at-round p =
        let piece : Bytes = take (count w) (drop w bytes) in
        let i : ℕ = p - (off + w) in
        let fits : (off + w) % cs + length piece ≤ cs = omega (arith, count_bounds) in
        elim (Bool-cases (leb (off + w) p && ltb p (off + (w + count w)))) [
          | inl inside ↦
              let index : w + i ≡ p - off = ground arith in
              let read : get_or bytes (w + i) 0 ≡ get_or bytes (p - off) 0 =
                ap (λ j. get_or bytes j 0) index in
              ground (
                arith,
                count_bounds,
                byte_at-put_chunk db file (off + w) piece fits p fit.positive,
                get_or-take (count w) (drop w bytes) i 0,
                get_or-drop w bytes i 0,
              )
          | inr outside ↦
              ground
                (arith, count_bounds, byte_at-put_chunk db file (off + w) piece fits p fit.positive)
        ]

  -- `db'` is `db` after the bytes from index w on were written.
  pub record Writes (db : Db) (w : ℕ) (db' : Db) : Type 0 where
    pub bytes_at : (p : ℕ) → byte_at db' file p ≡ written_byte db file off bytes w p
    pub fit : ChunksFit db' file
    pub others :
        (ino' index : ℕ) → ino' ≢ ino → chunk_or_empty db' ino' index ≡ chunk_or_empty db ino' index
    pub rest : db' ≡ record db { chunks = db'.chunks }

  loop-Writes :
      (fuel : ℕ) (db : Db) (w : ℕ)
      → ChunksFit db file
      → w ≤ length bytes
      → length bytes ≤ w + fuel
      → Writes db w (write_loop fuel db file off bytes w)
  unfolding write_loop
  loop-Writes zero db w fit le enough = record {
    bytes_at = λ p. ground arith;
    fit = fit;
    others = λ ino' index apart. refl;
    rest = refl;
  }
  loop-Writes (suc fuel) db w fit le enough =
      let no_wrap : add64 off w ≡ off + w = omega arith in
      elim (Bool-cases (ltb w (length bytes))) [
        | inl more ↦
            let lt : w < length bytes = ground arith in
            let bounds = count_bounds db fit w lt in
            let later =
              loop-Writes fuel (round db w) (w + count w) (round-ChunksFit db fit w lt) bounds.1
                (omega arith) in
            rw (more, no_wrap)
              (record {
                bytes_at = λ p. later.bytes_at p ∙ byte_at-round db fit w lt p;
                fit = later.fit;
                others = λ ino' index apart.
                    later.others ino' index apart ∙ rw chunk_or_empty-put_chunk (ground arith);
                rest = later.rest;
              })
        | inr done ↦ rw done (record {
          bytes_at = λ p. ground arith;
          fit = fit;
          others = λ ino' index apart. refl;
          rest = refl;
        })
      ]

-- the row of an inode after an update, and its size
pub select-update_inode :
    (db : Db) (ino : ℕ) (f : Inode → Inode) {row : Inode}
    → select ino db.inodes ≡ some row
    → select ino (update_inode ino f db).inodes ≡ some (f row)
select-update_inode db ino f h = ground (arith, select-update ino ino f db.inodes)

pub size_of-update_inode :
    (db : Db) (ino : ℕ) (f : Inode → Inode) {row : Inode}
    → select ino db.inodes ≡ some row
    → size_of (update_inode ino f db) ino ≡ (f row).size
unfolding size_of
size_of-update_inode db ino f h = ground (arith, select-update ino ino f db.inodes)

-- After a write of at least one byte, within 2^63: the bytes of the file, its size, and what stays.
pub record Wrote (db : Db) (file : FileHandle) (off : ℕ) (bytes : Bytes) (db' : Db) : Type 0 where
  pub bytes_at : (p : ℕ) → byte_at db' file p ≡ written_byte db file off bytes 0 p
  pub size : size_of db' file.ino ≡ max (size_of db file.ino) (off + length bytes)
  pub fit : ChunksFit db' file
  pub row : Inode
  pub stored : select file.ino db'.inodes ≡ some row

pub pwrite-Wrote :
    (now : Stamp) (db : Db) (file : FileHandle) (off b : ℕ) (bs : Bytes) {row : Inode}
    → ChunksFit db file
    → select file.ino db.inodes ≡ some row
    → off + length (b ∷ bs) < 2 ^ 63
    → Wrote db file off (b ∷ bs) (pwrite now db file off (b ∷ bs))
unfolding pwrite write_data_at_offset byte_at chunk_or_empty
pwrite-Wrote now db file off b bs {row} fit stored bound =
    let bytes : Bytes = b ∷ bs in
    let w = loop-Writes file off bytes bound (length bytes) db 0 fit (omega arith) (omega arith) in
    let same_rows : (write_loop (length bytes) db file off bytes 0).inodes ≡ db.inodes =
      ap (λ (d : Db). d.inodes) w.rest in
    let set_row : Inode → Inode =
      λ r. record r { size = max (size_of db file.ino) (add64 off (length bytes)); mtime = now } in
    let written : Db = write_loop (length bytes) db file off bytes 0 in
    let stored' : select file.ino written.inodes ≡ some row = rw same_rows stored in
    record {
      bytes_at = w.bytes_at;
      row = set_row row;
      stored = select-update_inode written file.ino set_row stored';
      size =
          size_of-update_inode written file.ino set_row stored'
          ∙ (let no_wrap : add64 off (length bytes) ≡ off + length bytes = omega arith in
              ap (max (size_of db file.ino)) no_wrap);
      fit = record { positive = fit.positive; fits = w.fit.fits };
    }

-- Where no chunk is longer than the chunk size, which is positive, and the inode has a row,
-- reading as many bytes at the offset of a write that ends below 2^63 as it wrote returns the
-- bytes that it wrote.
pread-pwrite :
    (now : Stamp) (db : Db) (file : FileHandle) (off : ℕ) (bytes : Bytes) {row : Inode}
    → ChunksFit db file
    → select file.ino db.inodes ≡ some row
    → off + length bytes < 2 ^ 63
    → pread (pwrite now db file off bytes) file off (length bytes) ≡ bytes
unfolding pwrite
pread-pwrite now db file off [] fit stored bound =
    pread-eq-slice db file off 0 fit
    ∙ (let none_asked : min 0 (size_of db file.ino - off) ≡ 0 = omega arith in
        rw none_asked (unfold slice in refl))
pread-pwrite now db file off (b ∷ bs) fit stored bound =
    let bytes : Bytes = b ∷ bs in
    let db' : Db = pwrite now db file off bytes in
    let w : Wrote db file off bytes db' = pwrite-Wrote now db file off b bs fit stored bound in
    let all : min (length bytes) (size_of db' file.ino - off) ≡ length bytes =
      omega (arith, w.size) in
    pread-eq-slice db' file off (length bytes) w.fit
    ∙ (rw all (
        slice-eq (byte_at db' file) off bytes (λ i p.
          let index : off + i - off ≡ i = omega arith in
          rw (w.bytes_at (off + i), index) (ground arith))))
