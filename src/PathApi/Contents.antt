-- ===== src/PathApi/Contents.antt =====
-- `read_file`, `pread` and `pwrite` of `impl AgentFS`, by path.
pub mod Chunk
pub mod ByPath
pub mod Write
use airyfs.Prelude.{
  ℕ, zero, suc, Bool, true, false, ◌+◌, ◌-◌, ◌*◌, ◌/◌, ◌%◌, ◌^◌, ◌||◌, min, max, ◌++◌, none, some,
  Option, List, [], ◌∷◌, length, take, drop, replicate, ltb, leb, nat_beq, nat_eq, pair_eq,
  if◌then◌else◌,
}
use airyfs.Prelude.Int.{pos}
use airyfs.Prelude.Table.{select}
use airyfs.Mode
use airyfs.Mode.{s_ifreg, Stamp}
use airyfs.Db.{Bytes, Db, update_inode}
use airyfs.File.{add64, size_of, select_chunks, pad_to, copy_at, chunk_or_empty, put_chunk}
use airyfs.Fs.{Fs, Entry}
use airyfs.Fs.Make.{new_inode, insert_inode, insert_dentry}
use airyfs.Fs.Cache.{Lru}
use airyfs.PathName.{normalize_path, split_path}
use airyfs.PathApi.{
  PathOp, returns, ◌>>=◌, ◌>>◌, done, query, execute, resolve_path, not_root, last_name,
  resolve_parent,
}
use airyfs.PathApi.Remove.{transaction}

-- u64 subtraction
abbrev pub sub64 : ℕ → ℕ → ℕ
sub64 a b = (a + 2 ^ 64 - b) % 2 ^ 64

-- `resize(n, 0)`
abbrev pub resize : ℕ → Bytes → Bytes
resize n chunk = take n (pad_to n chunk)

-- the rows one after another: neither a missing chunk nor a short one is filled
unfoldable pub concat_rows : List (ℕ × Bytes) → Bytes
concat_rows [] = []
concat_rows ((index, chunk) ∷ rows) = chunk ++ concat_rows rows

-- `SELECT chunk_index, data FROM fs_data WHERE ino = ? ORDER BY chunk_index`
unfoldable pub insert_row : ℕ → Bytes → List (ℕ × Bytes) → List (ℕ × Bytes)
insert_row index chunk [] = (index, chunk) ∷ []
insert_row index chunk ((i, c) ∷ rows) =
    if ltb index i then (index, chunk) ∷ (i, c) ∷ rows else (i, c) ∷ insert_row index chunk rows

unfoldable pub all_rows : ℕ → List ((ℕ × ℕ) × Bytes) → List (ℕ × Bytes)
all_rows ino [] = []
all_rows ino (((owner, index), chunk) ∷ m) =
    let rest = all_rows ino m in if nat_beq owner ino then insert_row index chunk rest else rest

abbrev pub row_skip : ℕ → Bytes → ℕ
row_skip start [] = start
row_skip start (b ∷ bs) = 0

-- the loop of `pread`: the first row that gives a byte is entered at the offset, whatever its index
unfoldable pub take_rows : ℕ → ℕ → List (ℕ × Bytes) → Bytes → Bytes
take_rows start size [] result = result
take_rows start size ((index, chunk) ∷ rows) result =
    let skip = row_skip start result in
    let count = min (length chunk - skip) (size - length result) in
    take_rows start size rows
      (if leb (length chunk) skip then result else result ++ take count (drop skip chunk))

-- the chunks of `pread`'s range
unfoldable pub pread_bytes : Db → ℕ → ℕ → ℕ → ℕ → Bytes
pread_bytes db ino chunk_size offset size =
    let start_chunk = offset / chunk_size in
    let end_chunk = (add64 offset size - 1) / chunk_size in
    take_rows (offset % chunk_size) size
      (select_chunks db ino start_chunk (end_chunk + 1 - start_chunk)) []

-- one round of the loop of `pwrite`
unfoldable pub written_chunk : Db → ℕ → ℕ → ℕ → Bytes → ℕ → ℕ → ℕ → Bytes
written_chunk db ino chunk_size offset bytes current_size end_chunk index =
    let write_end = add64 offset (length bytes) in
    let chunk_start = index * chunk_size in
    let data_start = if ltb chunk_start offset then offset - chunk_start else 0 in
    let data_end = min chunk_size (write_end - chunk_start) in
    let src_start = if ltb offset chunk_start then chunk_start - offset else 0 in
    let src_end = min (length bytes) (src_start + (data_end - data_start)) in
    let needs_read = ltb 0 data_start || ltb data_end chunk_size in
    let old =
      if needs_read
      then resize chunk_size (chunk_or_empty db ino index)
      else replicate chunk_size 0 in
    let copied = copy_at old data_start (take (src_end - src_start) (drop src_start bytes)) in
    let old_end =
      if ltb chunk_start current_size then min (current_size - chunk_start) chunk_size else 0 in
    let actual_len =
      if nat_beq index end_chunk then max (write_end - chunk_start) old_end else chunk_size in
    take actual_len copied

-- `for chunk_idx in start_chunk..=end_chunk`; the first argument is the number of rounds left
unfoldable pub write_chunks : ℕ → ℕ → ℕ → ℕ → Bytes → ℕ → ℕ → ℕ → Db → Db
write_chunks zero ino chunk_size offset bytes current_size end_chunk index db = db
write_chunks (suc left) ino chunk_size offset bytes current_size end_chunk index db =
    let chunk = written_chunk db ino chunk_size offset bytes current_size end_chunk index in
    write_chunks left ino chunk_size offset bytes current_size end_chunk (index + 1)
      (put_chunk db ino index chunk)

-- what `pwrite` does once it has the inode
unfoldable pub write_bytes : Stamp → ℕ → Bool → ℕ → Bytes → ℕ → ℕ → Db → Db
write_bytes now ino is_new chunk_size [] current_size offset db =
    update_inode ino (λ r. record r { mtime = now }) db
write_bytes now ino is_new chunk_size (b ∷ bs) current_size offset db =
    let bytes = b ∷ bs in
    let write_end = add64 offset (length bytes) in
    let start_chunk = offset / chunk_size in
    let end_chunk = sub64 write_end 1 / chunk_size in
    let written =
      write_chunks (end_chunk + 1 - start_chunk) ino chunk_size offset bytes current_size end_chunk
        start_chunk db in
    if is_new
    then written
    else update_inode ino (λ r. record r { size = max current_size write_end; mtime = now }) written

-- an inode of its final size, for a path that names none
unfoldable pub new_file : Stamp → Entry → ℕ → Db → Db
new_file now k size db =
    insert_dentry k (db.last_ino + 1)
      (insert_inode (new_inode (s_ifreg + 0o644) (pos 1) 0 0 size 0 now) db)

module _ (lru : Lru) where
  unfoldable pub read_file : Bytes → PathOp (Option Bytes)
  read_file path = resolve_path lru path >>= λ found. elim found [
    | none ↦ done none
    | some ino ↦ query (λ db. Mode.ok (some (concat_rows (all_rows ino db.chunks))))
  ]

  unfoldable pub pread_path : Bytes → ℕ → ℕ → PathOp (Option Bytes)
  pread_path path offset size = resolve_path lru path >>= λ found. elim found [
    | none ↦ done none
    | some ino ↦ λ fs. returns (some (pread_bytes fs.db ino fs.chunk_size offset size)) fs
  ]

  unfoldable pub pwrite_path : Stamp → Bytes → ℕ → Bytes → PathOp (Unit {0})
  pwrite_path now given offset bytes = do
    let path = normalize_path given
    let components = split_path path
    not_root components
    parent ← resolve_parent lru components
    let k : Entry = (parent, last_name components)
    transaction (
        resolve_path lru path >>= λ found. elim found [
          | some ino ↦ (λ fs. returns tt (record fs {
            db = write_bytes now ino false fs.chunk_size bytes (size_of fs.db ino) offset fs.db;
          }))
          | none ↦ (λ fs.
              let made = new_file now k (add64 offset (length bytes)) fs.db in
              returns tt (record fs {
                db = write_bytes now (fs.db.last_ino + 1) true fs.chunk_size bytes 0 offset made;
              }))
        ])
