-- ===== src/Db.antt =====
-- The tables of sdk/rust/src/filesystem/agentfs.rs (`initialize_schema`) and the row that the SQL
-- statements of that file read and write. A text or a blob is the list of its bytes. Sizes are kept
-- as the u64 whose bits the i64 column holds; link counts and seconds are signed.
use airyfs.Prelude.{ℕ, ◌%◌, ◌^◌, List, nat_eq}
use airyfs.Prelude.Table.{update}
use airyfs.Prelude.Int.{ℤ, as_u32}
use airyfs.Mode.{Stamp, Stats}

abbrev pub Bytes : Type 0
Bytes = List ℕ

-- A row of fs_inode, without its key `ino`.
pub record Inode : Type 0 where
  pub mode : ℕ
  pub nlink : ℤ
  pub uid : ℕ
  pub gid : ℕ
  pub size : ℕ
  pub atime : Stamp
  pub mtime : Stamp
  pub ctime : Stamp
  pub rdev : ℕ

-- `fs_dentry` maps (parent_ino, name) to ino, `fs_data` maps (ino, chunk_index) to data, and
-- `last_ino` is the counter of AUTOINCREMENT.
pub record Db : Type 0 where
  pub inodes : List (ℕ × Inode)
  pub dentries : List ((ℕ × Bytes) × ℕ)
  pub chunks : List ((ℕ × ℕ) × Bytes)
  pub symlinks : List (ℕ × Bytes)
  pub last_ino : ℕ

abbrev pub root_ino : ℕ
root_ino = 1

abbrev pub default_chunk_size : ℕ
default_chunk_size = 4096

-- `AgentFS::build_stats_from_row`
unfoldable pub build_stats : ℕ → Inode → Stats
build_stats ino row = record {
  ino = ino;
  mode = row.mode % 2 ^ 32;
  nlink = as_u32 row.nlink;
  uid = row.uid % 2 ^ 32;
  gid = row.gid % 2 ^ 32;
  size = row.size;
  atime = row.atime;
  mtime = row.mtime;
  ctime = row.ctime;
  rdev = row.rdev;
}

-- `UPDATE fs_inode SET … WHERE ino = ?`
abbrev pub update_inode : ℕ → (Inode → Inode) → Db → Db
update_inode ino f db = record db { inodes = update ino f db.inodes }
