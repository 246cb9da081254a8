-- ===== src/Fs.antt =====
-- `impl FileSystem for AgentFS` of sdk/rust/src/filesystem/agentfs.rs. A method takes the state and
-- returns an error, or its result and the new state; an error leaves the state as it was. The clock
-- is an argument. The calls of the LRU cache of directory entries are recorded, newest first.
pub mod Make
pub mod Delete
pub mod Move
pub mod Modify
pub mod WellFormed
pub mod Create
pub mod Drop
pub mod Remove
pub mod Attributes
pub mod Rename
pub mod Effects
pub mod Leaks
pub mod Lookup
pub mod Cache
pub mod Requests
use airyfs.Prelude.{
  ℕ, ◌+◌, Bool, true, false, not, ◌&&◌, Option, none, some, List, [], ◌∷◌, length, ltb, nat_beq,
  bytes_beq, nat_eq, entry_eq, if◌then◌else◌,
}
use airyfs.Prelude.Int.{ℤ, pos, inc, dec, as_u32}
use airyfs.Prelude.Table.{select, select_all, delete, delete_where, count_where}
use airyfs.Mode.{
  FsError, not_found, already_exists, not_empty, not_a_directory, is_a_directory, not_a_symlink,
  invalid_path, root_operation, name_too_long, Result, ok, err, ◌>>=◌, ◌>>◌, fail_if, max_name_len,
  s_ifreg, s_ifdir, s_iflnk, file_type, permissions, is_dir_mode, Stamp, TimeChange, Stats,
  is_directory,
}
use airyfs.Db.{Bytes, Inode, Db, root_ino, build_stats, update_inode}
use airyfs.File.{FileHandle}

-- the key of a directory entry: the parent's inode and the name
abbrev pub Entry : Type 0
Entry = ℕ × Bytes

-- `DentryCache`: a call of the cache
pub data CacheCall : Type 0 where
  get : Entry → CacheCall
  insert : Entry → ℕ → CacheCall
  remove : Entry → CacheCall

pub record Fs : Type 0 where
  pub db : Db
  pub cache : List CacheCall
  pub chunk_size : ℕ

abbrev pub cached_as : Entry → ℕ → Fs → Fs
cached_as k ino fs = record fs { cache = insert k ino ∷ fs.cache }

abbrev pub uncached : Entry → Fs → Fs
uncached k fs = record fs { cache = remove k ∷ fs.cache }

abbrev pub with_db : Fs → Db → Fs
with_db fs db = record fs { db = db }

-- `lookup_child`: the rows are counted, and the last one is taken
unfoldable pub lookup_child : Db → ℕ → Bytes → Result (Option ℕ)
lookup_child db parent name = elim (select_all (parent, name) db.dentries) [
  | [] ↦ ok none
  | ino ∷ rest ↦ elim rest [ [] ↦ ok (some ino) | _ ∷ _ ↦ err invalid_path ]
]

-- `.ok_or(…)?` on the result of a query
abbrev pub or_else {ℓ} : {A : Type ℓ} → Option A → FsError → Result A
or_else none e = err e
or_else (some a) e = ok a

-- `if ….is_some() { return Err(…) }`
abbrev pub fail_if_some {ℓ} : {A : Type ℓ} → Option A → FsError → Result (Unit {0})
fail_if_some none e = ok tt
fail_if_some (some a) e = err e

abbrev pub check_name : Bytes → Result (Unit {0})
check_name name = fail_if (ltb max_name_len (length name)) name_too_long

unfoldable pub getattr : Db → ℕ → Option Stats
getattr db ino = elim (select ino db.inodes) [ none ↦ none | some row ↦ some (build_stats ino row) ]

-- `get_link_count`
unfoldable pub get_link_count : Db → ℕ → ℕ
get_link_count db ino = elim (select ino db.inodes) [ none ↦ 0 | some row ↦ as_u32 row.nlink ]

-- `SELECT parent_ino FROM fs_dentry WHERE ino = ? LIMIT 1`: the first row, the root without one
unfoldable pub parent_of : ℕ → List (Entry × ℕ) → ℕ
parent_of ino [] = root_ino
parent_of ino (((parent, _), child) ∷ m) = if nat_beq child ino then parent else parent_of ino m

abbrev pub dot_dot : Bytes
dot_dot = b'.' ∷ b'.' ∷ []

-- `..` is the parent of the directory, and of the root the root
unfoldable pub parent_stats : Db → ℕ → Option Stats
parent_stats db parent =
    if nat_beq parent root_ino
    then getattr db root_ino
    else getattr db (parent_of parent db.dentries)

unfoldable pub found_child : Fs → Entry → Option ℕ → Option Stats × Fs
found_child fs k none = (none, fs)
found_child fs k (some child) = elim (getattr fs.db child) [
  | none ↦ (none, fs)
  | some stats ↦ (some stats, cached_as k child fs)
]

unfoldable pub lookup : Fs → ℕ → Bytes → Result (Option Stats × Fs)
unfolding found_child parent_stats
lookup fs parent name = do
  check_name name
  if bytes_beq name dot_dot
      then ok (parent_stats fs.db parent, fs)
      else do child ← lookup_child fs.db parent name; ok (found_child fs (parent, name) child)

-- `readlink`: only a symbolic link has a target
unfoldable pub readlink : Db → ℕ → Result (Option Bytes)
readlink db ino = elim (select ino db.inodes) [
  | none ↦ ok none
  | some row ↦
      if nat_beq (file_type row.mode) s_iflnk
      then ok (select ino db.symlinks)
      else err not_a_symlink
]

-- `open`: a handle on an inode that exists
unfoldable pub open_file : Fs → ℕ → Result FileHandle
open_file fs ino = elim (select ino fs.db.inodes) [
  | none ↦ err not_found
  | some _ ↦ ok (record { ino = ino; chunk_size = fs.chunk_size })
]

abbrev pub touch : Stamp → Inode → Inode
touch now row = record row { ctime = now; mtime = now }

-- a missing row passes the test of `unlink`
abbrev pub is_dir_row : Option Inode → Bool
is_dir_row none = false
is_dir_row (some row) = is_dir_mode row.mode
