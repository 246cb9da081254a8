-- ===== src/Schema.antt =====
-- `initialize_schema` of sdk/rust/src/filesystem/agentfs.rs: the root directory of the filesystem.
-- The tables of a new database are empty, and creating them again changes nothing.
pub mod Root
use airyfs.Prelude.{ℕ, ◌+◌, max, Option, none, some, List, [], ◌∷◌, nat_eq}
use airyfs.Prelude.Int.{pos}
use airyfs.Prelude.Table.{select}
use airyfs.Mode.{Stamp, s_ifdir}
use airyfs.Db.{Inode, Db, root_ino, update_inode}

abbrev pub default_dir_mode : ℕ
default_dir_mode = s_ifdir + 0o755

abbrev pub empty_db : Db
empty_db = record { inodes = []; dentries = []; chunks = []; symlinks = []; last_ino = 0 }

abbrev pub root_inode : Stamp → ℕ → ℕ → Inode
root_inode now uid gid = record {
  mode = default_dir_mode;
  nlink = pos 2;
  uid = uid;
  gid = gid;
  size = 0;
  atime = now;
  mtime = now;
  ctime = now;
  rdev = 0;
}

-- the root is created, or gets the owner of the process; a given key moves the counter of
-- AUTOINCREMENT up to it
unfoldable pub ensure_root : Stamp → ℕ → ℕ → Db → Db
ensure_root now uid gid db = elim (select root_ino db.inodes) [
  | none ↦ record db {
    inodes = (root_ino, root_inode now uid gid) ∷ db.inodes;
    last_ino = max db.last_ino root_ino;
  }
  | some _ ↦ update_inode root_ino (λ r. record r { uid = uid; gid = gid }) db
]
