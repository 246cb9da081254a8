-- ===== src/Tests/Names.antt =====
-- Names in the tree of the directory /, the file /a and the directory /b.
use airyfs.Prelude.{◌+◌, ◌≡◌, ◌≢◌, refl, some, arith, nat_eq, entry_eq}
use airyfs.Prelude.Table.{select, select_all, update}
use airyfs.Mode.{Stats, ok, s_ifreg, s_ifdir}
use airyfs.File.{FileHandle}
use airyfs.Fs.{lookup, lookup_child, cached_as, dot_dot}
use airyfs.Fs.Make.{
  created_file, create_file, mkdir, mknod, made_node, symlink, made_symlink, check_new, new_stats,
}
use airyfs.Fs.Create.{create_file-IsWellFormed, mkdir-IsWellFormed}
use airyfs.Fs.Lookup.{create_file-lookup}
use airyfs.Fs.WellFormed.{IsWellFormed, IsDir}
use airyfs.Schema.{ensure_root, empty_db}
use airyfs.Schema.Root.{ensure_root-IsWellFormed, empty_db-IsWellFormed}
use airyfs.Tests.{epoch, later, fresh_fs, file_fs, tree_fs, name_a, name_b}

fresh_formed : IsWellFormed fresh_fs.db
fresh_formed = ensure_root-IsWellFormed epoch 501 20 empty_db empty_db-IsWellFormed

pub fresh-IsDir : IsDir fresh_fs.db 1
unfolding ensure_root select
fresh-IsDir = refl

abbrev pub file_stats : Stats
file_stats = new_stats 2 (s_ifreg + 0o644) 1 501 20 0 0 epoch

abbrev pub file_handle : FileHandle
file_handle = record { ino = 2; chunk_size = 4 }

pub makes_file :
    create_file epoch fresh_fs 1 name_a 0o644 501 20 ≡ ok (file_stats, file_handle, file_fs)
unfolding create_file check_new lookup_child ensure_root select_all select
makes_file = refl

pub file_formed : IsWellFormed file_fs.db
file_formed =
    create_file-IsWellFormed epoch fresh_fs 1 name_a 501 20 fresh_formed fresh-IsDir 0o644
      file_stats file_handle file_fs makes_file

pub file-IsDir : IsDir file_fs.db 1
unfolding created_file ensure_root select update
file-IsDir = refl

abbrev pub dir_stats : Stats
dir_stats = new_stats 3 (s_ifdir + 0o755) 2 501 20 0 0 epoch

pub makes_dir : mkdir epoch file_fs 1 name_b 0o755 501 20 ≡ ok (dir_stats, tree_fs)
unfolding mkdir check_new lookup_child ensure_root select_all created_file select
makes_dir = refl

pub tree_formed : IsWellFormed tree_fs.db
tree_formed =
    mkdir-IsWellFormed epoch file_fs 1 name_b 501 20 file_formed file-IsDir 0o755 dir_stats tree_fs
      makes_dir

makes_node :
    mknod later file_fs 1 name_b 0o020600 5 501 20
    ≡ ok (
      new_stats 3 0o020600 1 501 20 0 5 later,
      made_node later file_fs 1 name_b 0o020600 5 501 20,
    )
unfolding mknod check_new lookup_child ensure_root select_all created_file select
makes_node = refl

makes_symlink :
    symlink later file_fs 1 name_b name_a 501 20
    ≡ ok
        (new_stats 3 0o120777 1 501 20 1 0 later, made_symlink later file_fs 1 name_b name_a 501 20)
unfolding symlink check_new lookup_child ensure_root select_all created_file select
makes_symlink = refl

plain_a : name_a ≢ dot_dot
plain_a = λ e. cc

plain_b : name_b ≢ dot_dot
plain_b = λ e. cc

create_file-lookup_example :
    lookup file_fs 1 name_a ≡ ok (some file_stats, cached_as (1, name_a) 2 file_fs)
create_file-lookup_example =
    create_file-lookup epoch fresh_fs file_fs 1 name_a 0o644 501 20 file_stats fresh_formed
      fresh-IsDir plain_a (omega arith) (omega arith) file_handle makes_file
