-- ===== src/File.antt =====
-- `AgentFSFile` of sdk/rust/src/filesystem/agentfs.rs: an open file reads and writes the chunks of
-- its inode in the table fs_data. Each operation takes the database and returns it.
pub mod Content
pub mod Read
pub mod Write
pub mod Truncate
pub mod Refine
use airyfs.Prelude.{
  ℕ, zero, suc, ◌+◌, ◌-◌, ◌/◌, ◌%◌, ◌^◌, min, max, none, some, List, [], ◌∷◌, ◌++◌, length, take,
  drop, replicate, ltb, leb, nat_beq, nat_eq, pair_eq, if◌then◌else◌, ◌&&◌,
}
use airyfs.Prelude.Table.{select, update, replace, delete_where}
use airyfs.Mode.{Stamp, Stats, Result, ok, err, not_found}
use airyfs.Db.{Bytes, Db, build_stats, update_inode}

pub record FileHandle : Type 0 where
  pub ino : ℕ
  pub chunk_size : ℕ

-- u64 addition
abbrev pub add64 : ℕ → ℕ → ℕ
add64 a b = (a + b) % 2 ^ 64

-- `SELECT size FROM fs_inode WHERE ino = ?`, 0 for a missing row
unfoldable pub size_of : Db → ℕ → ℕ
size_of db ino = elim (select ino db.inodes) [ none ↦ 0 | some row ↦ row.size ]

-- `SELECT chunk_index, data FROM fs_data WHERE ino = ? AND chunk_index >= ? AND chunk_index <= ?
-- ORDER BY chunk_index`: (ino, chunk_index) is the primary key, so the ordered rows are those of
-- each index in turn. The last argument is the number of indices.
unfoldable pub select_chunks : Db → ℕ → ℕ → ℕ → List (ℕ × Bytes)
select_chunks db ino first zero = []
select_chunks db ino first (suc n) =
    let rest = select_chunks db ino (first + 1) n in
    elim (select (ino, first) db.chunks) [ none ↦ rest | some data_ ↦ (first, data_) ∷ rest ]

module _ (chunk_size start_chunk start_offset size : ℕ) where
  -- the offset inside a chunk at which the read begins
  unfoldable pub skip_of : ℕ → ℕ
  skip_of index = if nat_beq index start_chunk then start_offset else 0

  -- `while next_expected_chunk < chunk_index && result.len() < size`; the first argument is
  -- chunk_index - next_expected_chunk, so it is 0 when the first test fails.
  unfoldable pub fill_gap : ℕ → ℕ → Bytes → Bytes
  fill_gap zero next result = result
  fill_gap (suc left) next result =
      let more = result ++ replicate (min (chunk_size - skip_of next) (size - length result)) 0 in
      let rest = fill_gap left (next + 1) more in if ltb (length result) size then rest else result

  -- what one row adds to the result
  unfoldable pub read_chunk : ℕ → Bytes → Bytes → Bytes
  read_chunk index chunk result =
      let skip = skip_of index in
      if leb (length chunk) skip
      then result ++ replicate (min (chunk_size - skip) (size - length result)) 0
      else (let count = min (length chunk - skip) (size - length result) in
          let chunk_end = skip + count in
          let copied = result ++ take count (drop skip chunk) in
          if ltb chunk_end chunk_size && ltb (length copied) size
          then copied ++ replicate (min (chunk_size - chunk_end) (size - length copied)) 0
          else copied)

  -- `while let Some(row) = rows.next()`, then `result.resize(size, 0)` if the result is short
  unfoldable pub read_rows : List (ℕ × Bytes) → ℕ → Bytes → Bytes
  read_rows [] next result =
      if ltb (length result) size then result ++ replicate (size - length result) 0 else result
  read_rows ((index, chunk) ∷ rows) next result =
      read_rows rows (index + 1) (read_chunk index chunk (fill_gap (index - next) next result))

unfoldable pub pread : Db → FileHandle → ℕ → ℕ → Bytes
pread db file offset size =
    let file_size = size_of db file.ino in
    let size' = min size (file_size - offset) in
    let first = offset / file.chunk_size in
    let last = (offset + size' - 1) / file.chunk_size in
    if leb file_size offset
    then []
    else read_rows file.chunk_size first (offset % file.chunk_size) size'
        (select_chunks db file.ino first (last + 1 - first)) first []

-- `chunk_data.resize(n, 0)` for a chunk that is shorter than n
unfoldable pub pad_to : ℕ → Bytes → Bytes
pad_to n chunk = if ltb (length chunk) n then chunk ++ replicate (n - length chunk) 0 else chunk

-- `chunk_data[at..at + src.len()].copy_from_slice(src)`
unfoldable pub copy_at : Bytes → ℕ → Bytes → Bytes
copy_at chunk at src = take at chunk ++ (src ++ drop (at + length src) chunk)

-- the stored chunk, or an empty one
unfoldable pub chunk_or_empty : Db → ℕ → ℕ → Bytes
chunk_or_empty db ino index = elim (select (ino, index) db.chunks) [ none ↦ [] | some c ↦ c ]

-- `INSERT OR REPLACE INTO fs_data`
abbrev pub put_chunk : Db → ℕ → ℕ → Bytes → Db
put_chunk db ino index chunk = record db { chunks = replace (ino, index) chunk db.chunks }

-- one round of the loop of `write_data_at_offset_with_conn`
unfoldable pub new_chunk : Db → FileHandle → ℕ → Bytes → Bytes
new_chunk db file current_offset piece =
    let at = current_offset % file.chunk_size in
    if nat_beq (length piece) file.chunk_size
    then piece
    else copy_at
        (pad_to (at + length piece) (chunk_or_empty db file.ino (current_offset / file.chunk_size)))
        at piece

-- how much the round writes
unfoldable pub to_write : FileHandle → ℕ → ℕ → ℕ
to_write file current_offset remaining_data =
    min (file.chunk_size - current_offset % file.chunk_size) remaining_data

-- `while written < data.len()`, on fuel; every round writes at least one byte, so data.len() rounds
-- are enough.
unfoldable pub write_loop : ℕ → Db → FileHandle → ℕ → Bytes → ℕ → Db
write_loop zero db file offset bytes written = db
write_loop (suc fuel) db file offset bytes written =
    let current = add64 offset written in
    let count = to_write file current (length bytes - written) in
    let chunk = new_chunk db file current (take count (drop written bytes)) in
    let rest =
      write_loop fuel (put_chunk db file.ino (current / file.chunk_size) chunk) file offset bytes
        (written + count) in
    if ltb written (length bytes) then rest else db

unfoldable pub write_data_at_offset : Db → FileHandle → ℕ → Bytes → Db
write_data_at_offset db file offset bytes = write_loop (length bytes) db file offset bytes 0

unfoldable pub pwrite : Stamp → Db → FileHandle → ℕ → Bytes → Db
pwrite now db file offset [] = db
pwrite now db file offset (b ∷ bs) =
    let bytes = b ∷ bs in
    let current_size = size_of db file.ino in
    let new_size = max current_size (add64 offset (length bytes)) in
    update_inode file.ino (λ row. record row { size = new_size; mtime = now })
      (write_data_at_offset db file offset bytes)

-- `if chunk_data.len() > offset_in_chunk { chunk_data.truncate(offset_in_chunk) … }`
unfoldable pub cut_chunk : ℕ → Bytes → Bytes
cut_chunk at chunk = if ltb at (length chunk) then take at chunk else chunk

-- the three branches of `truncate` on the chunks
unfoldable pub truncate_chunks : Db → FileHandle → ℕ → ℕ → Db
truncate_chunks db file current_size new_size =
    let last = (new_size - 1) / file.chunk_size in
    let at = new_size % file.chunk_size in
    let kept = record db {
      chunks = delete_where (λ k. nat_beq k.0 file.ino && ltb last k.1) db.chunks;
    } in
    let cut = record kept { chunks = update (file.ino, last) (cut_chunk at) kept.chunks } in
    if nat_beq new_size 0
    then record db { chunks = delete_where (λ k. nat_beq k.0 file.ino) db.chunks }
    else if ltb new_size current_size
    then if ltb 0 at then cut else kept
    else db

unfoldable pub truncate : Stamp → Db → FileHandle → ℕ → Db
truncate now db file new_size =
    update_inode file.ino (λ row. record row { size = new_size; mtime = now; ctime = now })
      (truncate_chunks db file (size_of db file.ino) new_size)

unfoldable pub fstat : Db → FileHandle → Result Stats
unfolding build_stats
fstat db file = elim (select file.ino db.inodes) [
  | none ↦ err not_found
  | some row ↦ ok (build_stats file.ino row)
]
