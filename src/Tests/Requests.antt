-- ===== src/Tests/Requests.antt =====
-- A file system after some requests: /a, /b, and the symbolic links /c to b, /d to nothing and /l to
-- itself.
use airyfs.Prelude.{◌≡◌, refl, [], ◌∷◌, arith, nat_eq, entry_eq}
use airyfs.Prelude.Table.{select, select_all, update}
use airyfs.Mode.{ok}
use airyfs.Db.{Bytes}
use airyfs.Fs.{Fs, lookup_child}
use airyfs.Fs.Make.{new_stats, check_new, made_dir, created_file, made_symlink, symlink}
use airyfs.Fs.WellFormed.{IsWellFormed, IsDir}
use airyfs.Fs.Cache.{IsCoherent, Lru, latest}
use airyfs.Fs.Requests.{Step, Reach}
use airyfs.Fs.Requests.Sound.{Reach-IsWellFormed, Reach-IsCoherent}
use airyfs.Schema.{ensure_root}
use airyfs.Tests.{epoch, later, fresh_fs, file_fs, tree_fs, name_a, name_b}
use airyfs.Tests.Names.{
  makes_file, makes_dir, fresh-IsDir, file-IsDir, file_stats, file_handle, dir_stats,
}

-- a cache that drops nothing
abbrev pub full_cache : Lru
full_cache = record { hits = latest; hits_latest = λ log k v e. e }

abbrev pub name_c : Bytes
name_c = b'c' ∷ []

abbrev pub name_d : Bytes
name_d = b'd' ∷ []

abbrev pub name_l : Bytes
name_l = b'l' ∷ []

abbrev pub name_x : Bytes
name_x = b'x' ∷ []

abbrev pub c_fs : Fs
c_fs = made_symlink later tree_fs 1 name_c name_b 501 20

abbrev pub d_fs : Fs
d_fs = made_symlink later c_fs 1 name_d name_x 501 20

abbrev pub links_fs : Fs
links_fs = made_symlink later d_fs 1 name_l name_l 501 20

tree-IsDir : IsDir tree_fs.db 1
unfolding select made_dir update created_file ensure_root
tree-IsDir = refl

c-IsDir : IsDir c_fs.db 1
unfolding made_symlink made_dir created_file ensure_root select update
c-IsDir = refl

d-IsDir : IsDir d_fs.db 1
unfolding made_symlink made_dir created_file ensure_root select update
d-IsDir = refl

makes_c :
    symlink later tree_fs 1 name_c name_b 501 20
    ≡ ok (new_stats 4 0o120777 1 501 20 1 0 later, c_fs)
unfolding symlink check_new lookup_child select_all made_dir created_file ensure_root select
makes_c = refl

makes_d :
    symlink later c_fs 1 name_d name_x 501 20 ≡ ok (new_stats 5 0o120777 1 501 20 1 0 later, d_fs)
unfolding symlink check_new lookup_child select_all made_symlink made_dir created_file ensure_root
    select
makes_d = refl

makes_l :
    symlink later d_fs 1 name_l name_l 501 20
    ≡ ok (new_stats 6 0o120777 1 501 20 1 0 later, links_fs)
unfolding symlink check_new lookup_child select_all made_symlink made_dir created_file ensure_root
    select
makes_l = refl

reach_file : Reach 1 file_fs
reach_file =
    Reach.after 0 fresh_fs file_fs (Reach.mounted 0 fresh_fs epoch 501 20 refl refl refl)
      (Step.create_file epoch 1 name_a 0o644 501 20 file_stats file_handle fresh-IsDir makes_file)

reach_tree : Reach 2 tree_fs
reach_tree =
    Reach.after 1 file_fs tree_fs reach_file
      (Step.mkdir epoch 1 name_b 0o755 501 20 dir_stats file-IsDir makes_dir)

reach_c : Reach 3 c_fs
reach_c = Reach.after 2 tree_fs c_fs reach_tree (
    Step.symlink later 1 name_c name_b 501 20 (new_stats 4 0o120777 1 501 20 1 0 later) tree-IsDir
      makes_c)

reach_d : Reach 4 d_fs
reach_d = Reach.after 3 c_fs d_fs reach_c (
    Step.symlink later 1 name_d name_x 501 20 (new_stats 5 0o120777 1 501 20 1 0 later) c-IsDir
      makes_d)

reach_links : Reach 5 links_fs
reach_links = Reach.after 4 d_fs links_fs reach_d (
    Step.symlink later 1 name_l name_l 501 20 (new_stats 6 0o120777 1 501 20 1 0 later) d-IsDir
      makes_l)

pub file-IsCoherent : IsCoherent file_fs
file-IsCoherent = Reach-IsCoherent 1 file_fs reach_file (omega arith)

pub tree-IsCoherent : IsCoherent tree_fs
tree-IsCoherent = Reach-IsCoherent 2 tree_fs reach_tree (omega arith)

pub links-IsCoherent : IsCoherent links_fs
links-IsCoherent = Reach-IsCoherent 5 links_fs reach_links (omega arith)

pub links_formed : IsWellFormed links_fs.db
links_formed = Reach-IsWellFormed 5 links_fs reach_links (omega arith)

Reach-IsWellFormed_example : IsWellFormed tree_fs.db
Reach-IsWellFormed_example = Reach-IsWellFormed 2 tree_fs reach_tree (omega arith)

Reach-IsCoherent_example : IsCoherent links_fs
Reach-IsCoherent_example = Reach-IsCoherent 5 links_fs reach_links (omega arith)
