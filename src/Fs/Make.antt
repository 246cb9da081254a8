-- ===== src/Fs/Make.antt =====
-- `mkdir`, `create_file`, `mknod`, `symlink` and `link` of sdk/rust/src/filesystem/agentfs.rs.
use airyfs.Prelude.{ℕ, ◌+◌, ◌∷◌, length, nat_eq, entry_eq}
use airyfs.Prelude.Int.{ℤ, pos, inc}
use airyfs.Prelude.Table.{select}
use airyfs.Mode.{
  not_found, already_exists, is_a_directory, Result, ok, ◌>>=◌, ◌>>◌, fail_if, s_ifreg, s_ifdir,
  s_iflnk, permissions, is_dir_mode, Stamp, Stats,
}
use airyfs.Db.{Bytes, Inode, Db, update_inode}
use airyfs.File.{FileHandle}
use airyfs.Fs.{
  Entry, Fs, cached_as, check_name, fail_if_some, getattr, lookup_child, or_else, touch, with_db,
}

abbrev pub new_stats : ℕ → ℕ → ℕ → ℕ → ℕ → ℕ → ℕ → Stamp → Stats
new_stats ino mode nlink uid gid size rdev now = record {
  ino = ino;
  mode = mode;
  nlink = nlink;
  uid = uid;
  gid = gid;
  size = size;
  atime = now;
  mtime = now;
  ctime = now;
  rdev = rdev;
}

abbrev pub new_inode : ℕ → ℤ → ℕ → ℕ → ℕ → ℕ → Stamp → Inode
new_inode mode nlink uid gid size rdev now = record {
  mode = mode;
  nlink = nlink;
  uid = uid;
  gid = gid;
  size = size;
  atime = now;
  mtime = now;
  ctime = now;
  rdev = rdev;
}

-- INSERT INTO fs_dentry: `lookup_child` has found no row with the key
abbrev pub insert_dentry : Entry → ℕ → Db → Db
insert_dentry k ino db = record db { dentries = (k, ino) ∷ db.dentries }

-- INSERT INTO fs_inode … RETURNING ino: the new number is above all that were ever given
abbrev pub insert_inode : Inode → Db → Db
insert_inode row db = record db {
  inodes = (db.last_ino + 1, row) ∷ db.inodes;
  last_ino = db.last_ino + 1;
}

-- the tests before an entry is created
unfoldable pub check_new : Db → ℕ → Bytes → Result (Unit {0})
check_new db parent name = do
  check_name name
  found ← lookup_child db parent name
  fail_if_some found already_exists

-- `mkdir`
unfoldable pub made_dir : Stamp → Fs → ℕ → Bytes → ℕ → ℕ → ℕ → Fs
made_dir now fs parent name mode uid gid =
    let ino = fs.db.last_ino + 1 in
    let row = new_inode (s_ifdir + permissions mode) (pos 0) uid gid 0 0 now in
    let linked = insert_dentry (parent, name) ino (insert_inode row fs.db) in
    let counted = update_inode ino (λ r. record r { nlink = pos 2 }) linked in
    let db =
      update_inode parent (λ r. record r { nlink = inc r.nlink; ctime = now; mtime = now })
        counted in
    cached_as (parent, name) ino (with_db fs db)

unfoldable pub mkdir : Stamp → Fs → ℕ → Bytes → ℕ → ℕ → ℕ → Result (Stats × Fs)
mkdir now fs parent name mode uid gid = do
  check_new fs.db parent name
  ok (
    new_stats (fs.db.last_ino + 1) (s_ifdir + permissions mode) 2 uid gid 0 0 now,
    made_dir now fs parent name mode uid gid,
  )

-- `create_file`
unfoldable pub created_file : Stamp → Fs → ℕ → Bytes → ℕ → ℕ → ℕ → Fs
created_file now fs parent name mode uid gid =
    let ino = fs.db.last_ino + 1 in
    let row = new_inode (s_ifreg + permissions mode) (pos 1) uid gid 0 0 now in
    let linked = insert_dentry (parent, name) ino (insert_inode row fs.db) in
    cached_as (parent, name) ino (with_db fs (update_inode parent (touch now) linked))

unfoldable pub create_file : Stamp → Fs → ℕ → Bytes → ℕ → ℕ → ℕ → Result (Stats × FileHandle × Fs)
create_file now fs parent name mode uid gid = do
  check_new fs.db parent name
  ok (
    new_stats (fs.db.last_ino + 1) (s_ifreg + permissions mode) 1 uid gid 0 0 now,
    record { ino = fs.db.last_ino + 1; chunk_size = fs.chunk_size },
    created_file now fs parent name mode uid gid,
  )

-- `mknod`: the mode is stored as it is given
unfoldable pub made_node : Stamp → Fs → ℕ → Bytes → ℕ → ℕ → ℕ → ℕ → Fs
made_node now fs parent name mode rdev uid gid =
    let ino = fs.db.last_ino + 1 in
    let row = new_inode mode (pos 0) uid gid 0 rdev now in
    let linked = insert_dentry (parent, name) ino (insert_inode row fs.db) in
    let counted = update_inode ino (λ r. record r { nlink = inc r.nlink }) linked in
    cached_as (parent, name) ino (with_db fs (update_inode parent (touch now) counted))

unfoldable pub mknod : Stamp → Fs → ℕ → Bytes → ℕ → ℕ → ℕ → ℕ → Result (Stats × Fs)
mknod now fs parent name mode rdev uid gid = do
  check_new fs.db parent name
  ok (
    new_stats (fs.db.last_ino + 1) mode 1 uid gid 0 rdev now,
    made_node now fs parent name mode rdev uid gid,
  )

-- `symlink`
unfoldable pub made_symlink : Stamp → Fs → ℕ → Bytes → Bytes → ℕ → ℕ → Fs
made_symlink now fs parent name target uid gid =
    let ino = fs.db.last_ino + 1 in
    let row = new_inode (s_iflnk + 0o777) (pos 0) uid gid (length target) 0 now in
    let inserted = insert_inode row fs.db in
    let stored = record inserted { symlinks = (ino, target) ∷ inserted.symlinks } in
    let linked = insert_dentry (parent, name) ino stored in
    let counted = update_inode ino (λ r. record r { nlink = inc r.nlink }) linked in
    cached_as (parent, name) ino (with_db fs (update_inode parent (touch now) counted))

unfoldable pub symlink : Stamp → Fs → ℕ → Bytes → Bytes → ℕ → ℕ → Result (Stats × Fs)
symlink now fs parent name target uid gid = do
  check_new fs.db parent name
  ok (
    new_stats (fs.db.last_ino + 1) (s_iflnk + 0o777) 1 uid gid (length target) 0 now,
    made_symlink now fs parent name target uid gid,
  )

-- `link`: a new entry for an inode that is no directory
unfoldable pub linked_node : Stamp → Fs → ℕ → ℕ → Bytes → Fs
linked_node now fs ino parent name =
    let linked = insert_dentry (parent, name) ino fs.db in
    let counted = update_inode ino (λ r. record r { nlink = inc r.nlink; ctime = now }) linked in
    cached_as (parent, name) ino (with_db fs (update_inode parent (touch now) counted))

unfoldable pub link : Stamp → Fs → ℕ → ℕ → Bytes → Result (Stats × Fs)
link now fs ino parent name = do
  check_name name
  row ← or_else (select ino fs.db.inodes) not_found
  fail_if (is_dir_mode row.mode) is_a_directory
  found ← lookup_child fs.db parent name
  fail_if_some found already_exists
  let fs' = linked_node now fs ino parent name
  stats ← or_else (getattr fs'.db ino) not_found
  ok (stats, fs')
