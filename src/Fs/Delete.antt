-- ===== src/Fs/Delete.antt =====
-- `unlink` and `rmdir` of sdk/rust/src/filesystem/agentfs.rs.
use airyfs.Prelude.{ℕ, not, ltb, nat_beq, nat_eq, entry_eq, if◌then◌else◌}
use airyfs.Prelude.Int.{dec}
use airyfs.Prelude.Table.{select, delete, delete_where, count_where}
use airyfs.Mode.{
  not_found, not_empty, not_a_directory, is_a_directory, root_operation, Result, ok, ◌>>=◌, ◌>>◌,
  fail_if, is_dir_mode, Stamp,
}
use airyfs.Db.{Bytes, Db, root_ino, update_inode}
use airyfs.Fs.{
  Fs, check_name, get_link_count, is_dir_row, lookup_child, or_else, touch, uncached, with_db,
}

-- the chunks, the target and the row of an inode that no entry names
abbrev pub drop_inode : ℕ → Db → Db
drop_inode ino db = record db {
  chunks = delete_where (λ k. nat_beq k.0 ino) db.chunks;
  symlinks = delete ino db.symlinks;
  inodes = delete ino db.inodes;
}

unfoldable pub drop_if_unlinked : ℕ → Db → Db
drop_if_unlinked ino db = if nat_beq (get_link_count db ino) 0 then drop_inode ino db else db

-- `unlink`
unfoldable pub unlinked : Stamp → Fs → ℕ → Bytes → ℕ → Fs
unlinked now fs parent name ino =
    let cut = record fs.db { dentries = delete (parent, name) fs.db.dentries } in
    let touched = update_inode parent (touch now) cut in
    let counted = update_inode ino (λ r. record r { nlink = dec r.nlink; ctime = now }) touched in
    uncached (parent, name) (with_db fs (drop_if_unlinked ino counted))

unfoldable pub unlink : Stamp → Fs → ℕ → Bytes → Result Fs
unlink now fs parent name = do
  check_name name
  found ← lookup_child fs.db parent name
  ino ← or_else found not_found
  fail_if (is_dir_row (select ino fs.db.inodes)) is_a_directory
  ok (unlinked now fs parent name ino)

-- SELECT COUNT(*) FROM fs_dentry WHERE parent_ino = ?
unfoldable pub child_count : Db → ℕ → ℕ
child_count db parent = count_where (λ k _. nat_beq k.0 parent) db.dentries

-- the end of `rmdir`: only the row is deleted
unfoldable pub drop_dir_if_unlinked : ℕ → Db → Db
drop_dir_if_unlinked ino db =
    if nat_beq (get_link_count db ino) 0 then record db { inodes = delete ino db.inodes } else db

-- `rmdir`
unfoldable pub removed_dir : Stamp → Fs → ℕ → Bytes → ℕ → Fs
removed_dir now fs parent name ino =
    let cut = record fs.db { dentries = delete (parent, name) fs.db.dentries } in
    let counted = update_inode ino (λ r. record r { nlink = dec r.nlink }) cut in
    let touched =
      update_inode parent (λ r. record r { nlink = dec r.nlink; ctime = now; mtime = now })
        counted in
    uncached (parent, name) (with_db fs (drop_dir_if_unlinked ino touched))

unfoldable pub rmdir : Stamp → Fs → ℕ → Bytes → Result Fs
rmdir now fs parent name = do
  check_name name
  found ← lookup_child fs.db parent name
  ino ← or_else found not_found
  fail_if (nat_beq ino root_ino) root_operation
  row ← or_else (select ino fs.db.inodes) not_found
  fail_if (not (is_dir_mode row.mode)) not_a_directory
  fail_if (ltb 0 (child_count fs.db ino)) not_empty
  ok (removed_dir now fs parent name ino)
