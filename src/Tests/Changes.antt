-- ===== src/Tests/Changes.antt =====
-- Changes to the tree of the directory /, the file /a and the directory /b.
use airyfs.Prelude.{
  ℕ, ◌<◌, ◌^◌, ◌+◌, ◌≡◌, ◌≢◌, refl, none, some, arith, nat_beq, nat_eq, entry_eq, pair_eq,
  if◌then◌else◌,
}
use airyfs.Prelude.Int.{pos, dec}
use airyfs.Prelude.Table.{select, select_all, update, count_where}
use airyfs.Mode.{Stats, Result, ok, err, s_ifreg, s_ifdir, TimeChange}
use airyfs.Db.{Inode, build_stats}
use airyfs.Fs.{Fs, lookup_child, getattr}
use airyfs.Fs.Make.{created_file, made_dir, link, linked_node}
use airyfs.Fs.Delete.{unlink, unlinked, rmdir, removed_dir, child_count}
use airyfs.Fs.Move.{rename, replace_target}
use airyfs.Fs.Modify.{chmod, chown, utimens}
use airyfs.Fs.WellFormed.{IsWellFormed, IsDir, link_count, row_at, entry_at}
use airyfs.Fs.Remove.{unlink-IsWellFormed}
use airyfs.Fs.Rename.{rename-IsWellFormed}
use airyfs.Fs.Effects.{unlink-inode}
use airyfs.Fs.Leaks.{rmdir-leaves_row, rename-same_name}
use airyfs.Schema.{ensure_root}
use airyfs.Tests.{epoch, later, tree_fs, name_a, name_b}
use airyfs.Tests.Names.{tree_formed}

tree_small : (ino : ℕ) → link_count tree_fs.db ino < 2 ^ 32
unfolding count_where ensure_root created_file made_dir
tree_small = λ ino. ground arith

tree-IsDir : IsDir tree_fs.db 1
unfolding made_dir created_file ensure_root select update
tree-IsDir = refl

unlink_runs : unlink later tree_fs 1 name_a ≡ ok (unlinked later tree_fs 1 name_a 2)
unfolding unlink lookup_child ensure_root select_all created_file made_dir select update
unlink_runs = refl

rmdir_runs : rmdir later tree_fs 1 name_b ≡ ok (removed_dir later tree_fs 1 name_b 3)
unfolding rmdir lookup_child ensure_root select_all created_file made_dir select update child_count
    count_where
rmdir_runs = refl

unlink-IsWellFormed_example : IsWellFormed (unlinked later tree_fs 1 name_a 2).db
unlink-IsWellFormed_example =
    unlink-IsWellFormed later tree_fs (unlinked later tree_fs 1 name_a 2) 1 name_a tree_formed
      tree_small unlink_runs

abbrev ok_or : Result Fs → Fs
ok_or (ok fs) = fs
ok_or (err e) = tree_fs

-- /a moves into /b
abbrev moved_fs : Fs
moved_fs = ok_or (rename later later tree_fs 1 name_a 3 name_a)

rename_runs : rename later later tree_fs 1 name_a 3 name_a ≡ ok moved_fs
unfolding rename lookup_child ensure_root select_all created_file made_dir select getattr update
    replace_target
rename_runs = refl

new-IsDir : IsDir tree_fs.db 3
unfolding made_dir created_file ensure_root select update
new-IsDir = refl

rename-IsWellFormed_example : IsWellFormed moved_fs.db
rename-IsWellFormed_example =
    rename-IsWellFormed later later tree_fs moved_fs 1 3 name_a name_a tree_formed tree_small
      new-IsDir rename_runs

abbrev tree_file : Inode
tree_file = record {
  mode = s_ifreg + 0o644;
  nlink = pos 1;
  uid = 501;
  gid = 20;
  size = 0;
  atime = epoch;
  mtime = epoch;
  ctime = epoch;
  rdev = 0;
}

abbrev tree_child : Inode
tree_child = record tree_file { mode = s_ifdir + 0o755; nlink = pos 2 }

file_row : row_at tree_fs.db 2 ≡ some tree_file
unfolding made_dir created_file ensure_root select update
file_row = refl

file_entry : entry_at tree_fs.db (1, name_a) ≡ some 2
unfolding made_dir created_file ensure_root select update
file_entry = refl

dir_row : row_at tree_fs.db 3 ≡ some tree_child
unfolding made_dir created_file ensure_root select update
dir_row = refl

dir_entry : entry_at tree_fs.db (1, name_b) ≡ some 3
unfolding made_dir created_file ensure_root select update
dir_entry = refl

one_name : link_count tree_fs.db 2 ≡ 1
unfolding made_dir created_file ensure_root count_where update select
one_name = refl

unlink-inode_example :
    (row_at (unlinked later tree_fs 1 name_a 2).db 2 ≡ (
      if nat_beq (link_count tree_fs.db 2) 1
      then none
      else some (record tree_file { nlink = dec tree_file.nlink; ctime = later })))
    × ((c : ℕ)
        → select (2, c) (unlinked later tree_fs 1 name_a 2).db.chunks
          ≡ (if nat_beq (link_count tree_fs.db 2) 1 then none else select (2, c) tree_fs.db.chunks))
    × ((i c : ℕ)
        → i ≢ 2
        → select (i, c) (unlinked later tree_fs 1 name_a 2).db.chunks
          ≡ select (i, c) tree_fs.db.chunks)
unlink-inode_example =
    unlink-inode later tree_fs (unlinked later tree_fs 1 name_a 2) 1 name_a 2 tree_file tree_formed
      file_entry file_row (tree_small 2) unlink_runs

rmdir-leaves_row_example :
    (row_at (removed_dir later tree_fs 1 name_b 3).db 3
      ≡ some (record tree_child { nlink = pos 1 }))
    × (link_count (removed_dir later tree_fs 1 name_b 3).db 3 ≡ 0)
rmdir-leaves_row_example =
    rmdir-leaves_row later tree_fs (removed_dir later tree_fs 1 name_b 3) 1 name_b 3 tree_child
      tree_formed dir_entry dir_row refl rmdir_runs

abbrev same_fs : Fs
same_fs = ok_or (rename later later tree_fs 1 name_a 1 name_a)

same_runs : rename later later tree_fs 1 name_a 1 name_a ≡ ok same_fs
unfolding rename lookup_child ensure_root select_all created_file made_dir select getattr update
    replace_target build_stats
same_runs = refl

rename-same_name_example : (row_at same_fs.db 2 ≡ none) × (entry_at same_fs.db (1, name_a) ≡ none)
rename-same_name_example =
    rename-same_name later later tree_fs same_fs 1 name_a 2 tree_file tree_formed tree_small
      file_entry file_row refl one_name same_runs

abbrev linked_fs : Fs
linked_fs = linked_node later tree_fs 2 3 name_b

abbrev linked_stats : Stats
linked_stats = record {
  ino = 2;
  mode = s_ifreg + 0o644;
  nlink = 2;
  uid = 501;
  gid = 20;
  size = 0;
  atime = epoch;
  mtime = epoch;
  ctime = later;
  rdev = 0;
}

link_runs : link later tree_fs 2 3 name_b ≡ ok (linked_stats, linked_fs)
unfolding link lookup_child ensure_root select_all created_file made_dir select update getattr
    linked_node build_stats
link_runs = refl

abbrev chmod_fs : Fs
chmod_fs = ok_or (chmod later tree_fs 2 0o600)

chmod_runs : chmod later tree_fs 2 0o600 ≡ ok chmod_fs
unfolding chmod ensure_root created_file made_dir select update
chmod_runs = refl

abbrev chown_fs : Fs
chown_fs = ok_or (chown later tree_fs 2 (some 7) none)

chown_runs : chown later tree_fs 2 (some 7) none ≡ ok chown_fs
unfolding chown ensure_root created_file made_dir select update
chown_runs = refl

abbrev timed_fs : Fs
timed_fs = ok_or (utimens later later later tree_fs 2 (TimeChange.set (pos 9) 0) TimeChange.omit)

utimens_runs :
    utimens later later later tree_fs 2 (TimeChange.set (pos 9) 0) TimeChange.omit ≡ ok timed_fs
unfolding utimens ensure_root created_file made_dir select update
utimens_runs = refl
