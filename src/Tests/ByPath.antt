-- ===== src/Tests/ByPath.antt =====
-- Methods that take a path, on the tree with links.
use mathlib.Core.Path.{subst}
use airyfs.Prelude.{
  sym, ◌+◌, ◌≡◌, ◌≢◌, ◌&&◌, refl, not, some, none, false, [], ◌∷◌, arith, nat_eq, entry_eq, pair_eq,
  bytes_eq,
}
use airyfs.Prelude.Int.{pos, dec}
use airyfs.Prelude.Table.{select, update, count_where}
use airyfs.Mode.{ok, err, not_found, s_ifdir}
use airyfs.Db.{Bytes, Inode, build_stats, root_ino}
use airyfs.File.{pwrite}
use airyfs.File.Content.{contents}
use airyfs.Fs.{Fs, getattr, is_dir_row}
use airyfs.Fs.Make.{new_stats, made_dir, created_file, made_symlink}
use airyfs.Fs.Delete.{child_count}
use airyfs.Fs.WellFormed.{IsWellFormed, row_at, entry_at}
use airyfs.PathName.{
  dot, slash, split_path, normalize_path, trim_end, resolved, resolve_dots, non_empty, split,
  add_component, without_last, join, is_empty,
}
use airyfs.PathApi.{returns, path_components, last_name, resolve_path}
use airyfs.PathApi.Walk.{walk, Answers, resolve_path-walk}
use airyfs.PathApi.Stat.{trim_pieces, lstat, next_path, target_path, path_parent, path_join}
use airyfs.PathApi.Stat.Links.{Links, attributes}
use airyfs.PathApi.Make.{mkdir_path}
use airyfs.PathApi.Make.RoundTrip.{mkdir_path-lstat, mkdir_path-under_file}
use airyfs.PathApi.Remove.{remove_path}
use airyfs.PathApi.Remove.Links.{remove_path-dangling, remove_path-lowers_parent}
use airyfs.PathApi.Contents.{pwrite_path}
use airyfs.PathApi.Contents.ByPath.{pwrite_path-contents}
use airyfs.PathApi.Listing.{readdir}
use airyfs.PathApi.Listing.Sorted.{Ascending, lists, is_some, readdir-lists}
use airyfs.Schema.{ensure_root}
use airyfs.Tests.{epoch, later, file_fs, tree_fs, name_a, name_b}
use airyfs.Tests.Files.{hello, handle, empty-IsFile}
use airyfs.Tests.Names.{file_formed, tree_formed}
use airyfs.Tests.Requests.{
  full_cache, name_c, name_d, name_l, name_x, links_fs, file-IsCoherent, tree-IsCoherent,
  links_formed, links-IsCoherent,
}

-- /a, /a/x, /b, /b/x and the paths of the links
abbrev path_a : Bytes
path_a = slash ∷ name_a

abbrev path_a_x : Bytes
path_a_x = slash ∷ b'a' ∷ slash ∷ name_x

abbrev path_b : Bytes
path_b = slash ∷ name_b

abbrev path_b_x : Bytes
path_b_x = slash ∷ b'b' ∷ slash ∷ name_x

abbrev path_c : Bytes
path_c = slash ∷ name_c

abbrev path_d : Bytes
path_d = slash ∷ name_d

abbrev path_l : Bytes
path_l = slash ∷ name_l

-- a path with dots
abbrev odd_b : Bytes
odd_b = slash ∷ b'a' ∷ slash ∷ b'.' ∷ b'.' ∷ slash ∷ name_b

odd_b_names : split_path odd_b ≡ name_b ∷ []
unfolding split_path normalize_path trim_end resolved resolve_dots non_empty split add_component
    without_last join
odd_b_names = refl

walks_b : walk tree_fs.db (split_path odd_b) root_ino ≡ some 3
unfolding walk split_path normalize_path trim_end resolved resolve_dots non_empty split
    add_component without_last join select made_dir created_file ensure_root
walks_b = refl

resolve_path-walk_example :
    Answers
      (resolve_path full_cache odd_b)
      tree_fs
      (ok (walk tree_fs.db (split_path odd_b) root_ino))
resolve_path-walk_example =
    resolve_path-walk full_cache odd_b tree_fs tree_formed.distinct tree-IsCoherent

same_c' : normalize_path (normalize_path path_c) ≡ path_c
unfolding normalize_path trim_end resolved resolve_dots non_empty split add_component join
same_c' = refl

same_d : normalize_path (normalize_path path_d) ≡ path_d
unfolding normalize_path trim_end resolved resolve_dots non_empty split add_component join
same_d = refl

c_to_b : next_path path_c name_b ≡ path_b
unfolding next_path normalize_path trim_end target_path path_join path_parent trim_pieces
    without_last non_empty split resolved resolve_dots add_component join
c_to_b = refl

d_to_x : next_path path_d name_x ≡ slash ∷ name_x
unfolding next_path normalize_path trim_end target_path path_join path_parent trim_pieces
    without_last non_empty split resolved resolve_dots add_component join
d_to_x = refl

at_c : walk links_fs.db (split_path path_c) root_ino ≡ some 4
unfolding walk split_path normalize_path trim_end resolved resolve_dots non_empty split
    add_component join select made_symlink made_dir created_file ensure_root
at_c = refl

at_d : walk links_fs.db (split_path path_d) root_ino ≡ some 5
unfolding walk split_path normalize_path trim_end resolved resolve_dots non_empty split
    add_component join select made_symlink made_dir created_file ensure_root
at_d = refl

-- one link, from /c to /b
one_link : Links links_fs.db path_c 1 path_b
unfolding select made_symlink update made_dir created_file ensure_root
one_link =
    Links.hop path_c path_b 0 4 _ name_b at_c refl refl refl
      (Links.here (next_path path_c name_b) path_b 0 refl c_to_b)

dead_link : Links links_fs.db path_d 1 (slash ∷ name_x)
unfolding select made_symlink update made_dir created_file ensure_root
dead_link =
    Links.hop path_d (slash ∷ name_x) 0 5 _ name_x at_d refl refl refl
      (Links.here (next_path path_d name_x) (slash ∷ name_x) 0 refl d_to_x)

b_stats : attributes links_fs.db path_b ≡ some (new_stats 3 (s_ifdir + 0o755) 2 501 20 0 0 epoch)
unfolding attributes walk split_path normalize_path trim_end resolved resolve_dots non_empty split
    add_component join select made_symlink made_dir getattr update created_file build_stats
    without_last ensure_root
b_stats = refl

x_gone : attributes links_fs.db (slash ∷ name_x) ≡ none
unfolding attributes walk split_path normalize_path trim_end resolved resolve_dots non_empty split
    add_component join select made_symlink made_dir created_file ensure_root
x_gone = refl

-- `c/.` is not normalised before its link is followed
abbrev c_dot : Bytes
c_dot = b'c' ∷ slash ∷ dot

names_b_x : path_components path_b_x ≡ name_b ∷ name_x ∷ []
unfolding path_components split_path normalize_path trim_end resolved resolve_dots non_empty split
    add_component join
names_b_x = refl

up_b : walk tree_fs.db (without_last (name_b ∷ name_x ∷ [])) root_ino ≡ some 3
unfolding walk without_last select made_dir created_file ensure_root
up_b = refl

b_x_free : entry_at tree_fs.db (3, last_name (name_b ∷ name_x ∷ [])) ≡ none
unfolding select made_dir created_file ensure_root
b_x_free = refl

b_row : row_at tree_fs.db 3 ≢ none
unfolding made_dir created_file ensure_root select update
b_row = λ e. cc

mkdir_path-lstat_example :
    (fs' : Fs) × (mkdir_path full_cache later path_b_x 7 8 tree_fs ≡ returns tt fs')
    × Answers
        (lstat full_cache path_b_x)
        fs'
        (ok (some (new_stats (tree_fs.db.last_ino + 1) (s_ifdir + 0o755) 2 7 8 0 0 later)))
mkdir_path-lstat_example =
    mkdir_path-lstat full_cache later path_b_x name_b (name_x ∷ []) 3 7 8 tree_fs names_b_x
      tree_formed.distinct tree-IsCoherent up_b b_x_free tree_formed.fresh b_row (omega arith)
      (omega arith)

names_a_x : path_components path_a_x ≡ name_a ∷ name_x ∷ []
unfolding path_components split_path normalize_path trim_end resolved resolve_dots non_empty split
    add_component join
names_a_x = refl

up_a : walk tree_fs.db (without_last (name_a ∷ name_x ∷ [])) root_ino ≡ some 2
unfolding walk without_last select made_dir created_file ensure_root
up_a = refl

a_x_free : entry_at tree_fs.db (2, last_name (name_a ∷ name_x ∷ [])) ≡ none
unfolding select made_dir created_file ensure_root
a_x_free = refl

a_row : row_at tree_fs.db 2 ≢ none
unfolding made_dir created_file ensure_root select update
a_row = λ e. cc

a_file : is_dir_row (row_at tree_fs.db 2) ≡ false
unfolding select made_dir update created_file ensure_root
a_file = refl

mkdir_path-under_file_example :
    (fs' : Fs) × (mkdir_path full_cache later path_a_x 7 8 tree_fs ≡ returns tt fs')
    × (IsWellFormed fs'.db → ⊥)
mkdir_path-under_file_example =
    mkdir_path-under_file full_cache later path_a_x name_a (name_x ∷ []) 2 7 8 tree_fs names_a_x
      tree_formed.distinct tree-IsCoherent up_a a_x_free tree_formed.fresh a_row a_file

cut_d : split_path (normalize_path path_d) ≡ name_d ∷ []
unfolding split_path normalize_path trim_end resolved resolve_dots non_empty split add_component
    join
cut_d = refl

up_d : walk links_fs.db (without_last (name_d ∷ [])) root_ino ≡ some 1
unfolding walk without_last
up_d = refl

entry_d : entry_at links_fs.db (1, last_name (name_d ∷ [])) ≡ some 5
unfolding select made_symlink last_name made_dir created_file ensure_root
entry_d = refl

remove_path-dangling_example :
    Answers (remove_path full_cache later path_d) links_fs (err not_found)
remove_path-dangling_example =
    remove_path-dangling full_cache later path_d (slash ∷ name_x) 1 5 1 name_d [] links_fs cut_d
      links_formed.distinct links-IsCoherent up_d entry_d (omega arith) (omega arith)
      (subst (λ (p : Bytes). Links links_fs.db p 1 (slash ∷ name_x)) (sym same_d) dead_link) x_gone

cut_c : split_path (normalize_path path_c) ≡ name_c ∷ []
unfolding split_path normalize_path trim_end resolved resolve_dots non_empty split add_component
    join
cut_c = refl

up_c : walk links_fs.db (without_last (name_c ∷ [])) root_ino ≡ some 1
unfolding walk without_last
up_c = refl

entry_c : entry_at links_fs.db (1, last_name (name_c ∷ [])) ≡ some 4
unfolding select made_symlink last_name made_dir created_file ensure_root
entry_c = refl

no_child_c : child_count links_fs.db 4 ≡ 0
unfolding child_count count_where made_symlink made_dir created_file ensure_root select
no_child_c = refl

abbrev root_row : Inode
root_row = record {
  mode = 0o040755;
  nlink = pos 3;
  uid = 501;
  gid = 20;
  size = 0;
  atime = epoch;
  mtime = later;
  ctime = later;
  rdev = 0;
}

root_there : row_at links_fs.db 1 ≡ some root_row
unfolding select made_symlink update made_dir created_file ensure_root
root_there = refl

remove_path-lowers_parent_example :
    (fs' : Fs) × (remove_path full_cache later path_c links_fs ≡ returns tt fs')
    × (row_at fs'.db 1
        ≡ some (record root_row { nlink = dec root_row.nlink; ctime = later; mtime = later }))
remove_path-lowers_parent_example =
    remove_path-lowers_parent full_cache later path_c path_b 1 4 1 name_c [] links_fs cut_c
      links_formed.distinct links-IsCoherent up_c entry_c (omega arith) (omega arith)
      (subst (λ (p : Bytes). Links links_fs.db p 1 path_b) (sym same_c') one_link)
      (new_stats 3 (s_ifdir + 0o755) 2 501 20 0 0 epoch) root_row b_stats refl no_child_c
      (omega arith) root_there

cut_a : split_path (normalize_path path_a) ≡ name_a ∷ []
unfolding split_path normalize_path trim_end resolved resolve_dots non_empty split add_component
    join
cut_a = refl

up_root : walk file_fs.db (without_last (name_a ∷ [])) root_ino ≡ some 1
unfolding walk without_last
up_root = refl

entry_a : entry_at file_fs.db (1, last_name (name_a ∷ [])) ≡ some 2
unfolding select created_file last_name ensure_root
entry_a = refl

pwrite_path-contents_example :
    (fs' : Fs) × (pwrite_path full_cache later path_a 2 hello file_fs ≡ returns tt fs')
    × (contents fs'.db handle ≡ contents (pwrite epoch file_fs.db handle 2 hello) handle)
unfolding created_file
pwrite_path-contents_example =
    pwrite_path-contents full_cache later epoch path_a 2 1 name_a [] file_fs 2 b'h'
      (b'e' ∷ b'l' ∷ b'l' ∷ b'o' ∷ []) cut_a file_formed.distinct file-IsCoherent up_root entry_a
      empty-IsFile (omega arith)

readdir-lists_example :
    Ascending (readdir links_fs.db 1)
    × ((name : Bytes)
        → lists name (readdir links_fs.db 1)
          ≡ (not (is_empty name) && is_some (select (1, name) links_fs.db.dentries)))
readdir-lists_example = readdir-lists links_fs.db 1 links_formed.distinct
