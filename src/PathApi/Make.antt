-- ===== src/PathApi/Make.antt =====
-- `mkdir`, `mknod`, `create_file`, `symlink` and `link` of `impl AgentFS`, by path.
pub mod Parent
pub mod RoundTrip
use airyfs.Prelude.{ℕ, ◌+◌, none, some, List, ◌∷◌, length, nat_eq}
use airyfs.Prelude.Int.{pos, inc}
use airyfs.Prelude.Table.{select}
use airyfs.Mode
use airyfs.Mode.{
  not_found, already_exists, is_a_directory, s_ifreg, s_ifdir, s_iflnk, permissions, is_dir_mode,
  fail_if, Stamp, Stats,
}
use airyfs.Db.{Bytes, Db, update_inode}
use airyfs.File.{FileHandle}
use airyfs.Fs.{Fs, Entry, insert, lookup_child}
use airyfs.Fs.Make.{new_inode, new_stats, insert_inode, insert_dentry, made_dir}
use airyfs.Fs.Cache.{Lru}
use airyfs.PathName.{normalize_path}
use airyfs.PathApi.{
  PathOp, returns, ◌>>=◌, ◌>>◌, query, execute, call, required, refuse_if_some, resolve_path,
  not_root, path_components, last_name, resolve_parent,
}

-- what a new entry needs: its name is free
abbrev pub free_name : ℕ → Bytes → PathOp (Unit {0})
free_name parent name =
    query (λ db. lookup_child db parent name) >>= λ found. refuse_if_some already_exists found

-- The path-based methods leave the parent's times.
unfoldable pub add_node : Stamp → Entry → ℕ → ℕ → ℕ → ℕ → Db → Db
add_node now k mode rdev uid gid db =
    let ino = db.last_ino + 1 in
    let linked =
      insert_dentry k ino (insert_inode (new_inode mode (pos 0) uid gid 0 rdev now) db) in
    update_inode ino (λ r. record r { nlink = inc r.nlink }) linked

unfoldable pub add_file : Stamp → Entry → ℕ → ℕ → ℕ → Db → Db
add_file now k mode uid gid db =
    let row = new_inode (s_ifreg + permissions mode) (pos 1) uid gid 0 0 now in
    insert_dentry k (db.last_ino + 1) (insert_inode row db)

unfoldable pub add_symlink : Stamp → Entry → Bytes → ℕ → ℕ → Db → Db
add_symlink now k target uid gid db =
    let ino = db.last_ino + 1 in
    let row = new_inode (s_iflnk + 0o777) (pos 0) uid gid (length target) 0 now in
    let inserted = insert_inode row db in
    let stored = record inserted { symlinks = (ino, target) ∷ inserted.symlinks } in
    update_inode ino (λ r. record r { nlink = inc r.nlink }) (insert_dentry k ino stored)

unfoldable pub add_link : Entry → ℕ → Db → Db
add_link k ino db =
    update_inode ino (λ r. record r { nlink = inc r.nlink }) (insert_dentry k ino db)

-- an inode that is there and no directory
unfoldable pub not_a_dir : Db → ℕ → Mode.Result (Unit {0})
not_a_dir db ino = elim (select ino db.inodes) [
  | none ↦ Mode.err not_found
  | some row ↦ fail_if (is_dir_mode row.mode) is_a_directory
]

module _ (lru : Lru) where
  -- the mode is DEFAULT_DIR_MODE; the parent's kind is not looked at
  unfoldable pub mkdir_path : Stamp → Bytes → ℕ → ℕ → PathOp (Unit {0})
  mkdir_path now path uid gid = do
    let components = path_components path
    not_root components
    parent ← resolve_parent lru components
    free_name parent (last_name components)
    λ fs. returns tt (made_dir now fs parent (last_name components) 0o755 uid gid)

  unfoldable pub mknod_path : Stamp → Bytes → ℕ → ℕ → ℕ → ℕ → PathOp (Unit {0})
  mknod_path now path mode rdev uid gid = do
    let components = path_components path
    not_root components
    parent ← resolve_parent lru components
    let k : Entry = (parent, last_name components)
    free_name parent (last_name components)
    ino ← query (λ db. Mode.ok (db.last_ino + 1))
    execute (add_node now k mode rdev uid gid)
    call (insert k ino)

  unfoldable pub create_file_path : Stamp → Bytes → ℕ → ℕ → ℕ → PathOp (Stats × FileHandle)
  create_file_path now path mode uid gid = do
    let components = path_components path
    not_root components
    parent ← resolve_parent lru components
    let k : Entry = (parent, last_name components)
    free_name parent (last_name components)
    ino ← query (λ db. Mode.ok (db.last_ino + 1))
    execute (add_file now k mode uid gid)
    call (insert k ino)
    λ fs.
        returns
          (
            new_stats ino (s_ifreg + permissions mode) 1 uid gid 0 0 now,
            record { ino = ino; chunk_size = fs.chunk_size },
          )
          fs

  unfoldable pub symlink_path : Stamp → Bytes → Bytes → ℕ → ℕ → PathOp (Unit {0})
  symlink_path now target linkpath uid gid = do
    let components = path_components linkpath
    not_root components
    parent ← resolve_parent lru components
    let k : Entry = (parent, last_name components)
    free_name parent (last_name components)
    ino ← query (λ db. Mode.ok (db.last_ino + 1))
    execute (add_symlink now k target uid gid)
    call (insert k ino)

  unfoldable pub link_path : Bytes → Bytes → PathOp (Unit {0})
  link_path oldpath newpath = do
    let components = path_components newpath
    not_root components
    found ← resolve_path lru (normalize_path oldpath)
    ino ← required not_found found
    query (λ db. not_a_dir db ino)
    parent ← resolve_parent lru components
    let k : Entry = (parent, last_name components)
    free_name parent (last_name components)
    execute (add_link k ino)
    call (insert k ino)
