-- ===== src/Tests/Overlay.antt =====
-- An overlay on a base with the file /a, of two bytes, and the directory /b with the file /b/x.
use airyfs.Mounts.{trim_start}
use airyfs.Prelude.Table.{select_all, delete_where, update, select}
use airyfs.PathApi.Remove.{starts_with}
use airyfs.PathApi.Listing
use airyfs.PathApi.Listing.{insert_name, name_before, named_rows}
use airyfs.Overlay.CopyUp.{
  resolve_delta_parent, walk_directories, walk_base, ensure_parent_dirs, ensure_dirs, copy_file,
}
use airyfs.Prelude.{
  ℕ, ◌+◌, ◌≡◌, refl, true, Option, none, some, List, [], ◌∷◌, nat_beq, nat_eq, bytes_beq, arith,
  if◌then◌else◌, entry_eq,
}
use airyfs.Mode
use airyfs.Mode.{Stats, s_ifreg, s_ifdir, not_a_symlink, not_found}
use airyfs.Db.{Bytes, build_stats}
use airyfs.File.{pread, size_of}
use airyfs.Fs.{Fs, getattr, lookup_child, found_child, parent_of, parent_stats, get_link_count}
use airyfs.Fs
use airyfs.Fs.Make.{new_stats, check_new, made_dir, created_file}
use airyfs.Fs.Make
use airyfs.PathName.{without_last, non_empty, split}
use airyfs.Overlay.{Base, Overlay, returns, ◌>>=◌}
use airyfs.Overlay.Maps.{
  new_overlay, load, is_whiteout, build_path, promoted, contains, child_of, remove_whiteout,
  new_overlay_ino, covered, load_origins, load_whiteouts, without, add_origin_mapping,
  promote_to_delta, child_whiteouts, get_or_create_overlay_ino, create_whiteout, forget_path,
  refresh_overlay_mapping, place_eq,
}
use airyfs.Overlay.Read.{
  lookup, readdir, base_entries, insert_entry, listed_directory, add_shown, is_shown, lookup_layers,
  base_directory, delta_entry_ino, lookup_base, origin_ino,
}
use airyfs.Overlay.Change.{unlink, create_file, prepare, hide, or_absent}
use airyfs.Overlay.Safe.{after}
use airyfs.Mounts.Inside.{absolute}
use airyfs.PathName.Pieces.{all_of}
use airyfs.File.Content.{contents}
use airyfs.Fs.Delete
use airyfs.Fs.Delete.{drop_if_unlinked, unlinked}
use airyfs.Overlay.Sound.{IsSound, is_known, info_at}
use airyfs.Overlay.Requests.{
  Request, serve, serve_all, serve_all-IsSound, serve_all-known, load-IsSound, remount,
  remount-keeps,
}
use airyfs.Overlay.Quiet.{value}
use airyfs.Overlay.Hidden.{any_of, prefixes, is_whiteout-prefixes}
use airyfs.Overlay.Removed.{remove, by_unlink, remove-lookup}
use airyfs.Overlay.Copied.{next_file, copy_file-contents}
use airyfs.Schema.{ensure_root}
use airyfs.Tests.{epoch, later, name_a, name_b, fresh_fs}
use airyfs.Tests.Requests.{name_x}

abbrev base_stats : ℕ → Stats
base_stats ino =
    if nat_beq ino 1
    then new_stats 1 (s_ifdir + 0o755) 3 0 0 0 0 epoch
    else if nat_beq ino 3
    then new_stats 3 (s_ifdir + 0o755) 2 0 0 0 0 epoch
    else new_stats ino (s_ifreg + 0o644) 1 0 0 2 0 epoch

abbrev base_child : ℕ → Bytes → Option Stats
base_child parent name =
    if nat_beq parent 1
    then if bytes_beq name name_a
      then some (base_stats 2)
      else if bytes_beq name name_b
      then some (base_stats 3)
      else none
    else if nat_beq parent 3
    then if bytes_beq name name_x then some (base_stats 4) else none
    else none

abbrev base_names : ℕ → List Bytes
base_names ino =
    if nat_beq ino 1 then name_a ∷ name_b ∷ [] else if nat_beq ino 3 then name_x ∷ [] else []

abbrev pub test_base : Base
test_base = record {
  lookup = λ parent name. Mode.ok (base_child parent name);
  getattr = λ ino. Mode.ok (some (base_stats ino));
  readlink = λ ino. Mode.err not_a_symlink;
  readdir = λ ino. Mode.ok (some (base_names ino));
  readdir_plus = λ ino. Mode.ok (some []);
  open_file = λ ino. Mode.ok (λ offset size. Mode.ok (b'h' ∷ b'i' ∷ []));
}

abbrev pub opened : Overlay
opened = load (new_overlay fresh_fs [] [])

-- after /a was looked up
abbrev pub known_a : Overlay
known_a = after (lookup test_base 1 name_a opened)

abbrev first_lookup : List Request
first_lookup = Request.lookup 1 name_a ∷ []

abbrev history : List Request
history = Request.lookup 1 name_a ∷ Request.open_file later 2 ∷ Request.unlink later 1 name_a ∷ []

abbrev at_a : Bytes
at_a = absolute (name_a ∷ [])

abbrev served : Overlay
served = serve_all test_base history opened

abbrev unlinked_a : Overlay
unlinked_a = after (unlink test_base later 1 name_a opened)

listing : value (readdir test_base 1 opened) ≡ some (name_a ∷ name_b ∷ [])
unfolding readdir select load new_overlay base_entries listed_directory walk_base non_empty split
    add_shown is_shown is_whiteout covered contains load_whiteouts child_whiteouts insert_entry
    trim_start child_of load_origins insert_name name_before named_rows Listing.readdir starts_with
    delete_where ensure_root
listing = refl

-- a file of the base is there, and `create_file` of its name succeeds
create_over_base :
    value (
      (create_file test_base later 1 name_a 0o644 0 0 >>= λ made.
      λ o. returns (pread o.delta.db made.1 0 10) o)
        opened)
    ≡ some []
unfolding create_file select load new_overlay build_path prepare ensure_parent_dirs ensure_dirs
    without_last non_empty split resolve_delta_parent Make.create_file check_new lookup_child
    select_all remove_whiteout build_stats created_file made_dir Make.mkdir found_child getattr
    Fs.lookup parent_of parent_stats walk_directories add_origin_mapping contains
    get_or_create_overlay_ino load_origins load_whiteouts new_overlay_ino promote_to_delta promoted
    without delete_where update ensure_root pread size_of
create_over_base = refl

serve_all-IsSound_example : IsSound (serve_all test_base history opened)
serve_all-IsSound_example = serve_all-IsSound test_base history fresh_fs [] [] tt

known_2 : is_known (info_at (serve_all test_base first_lookup opened) 2) ≡ true
unfolding serve_all serve select load new_overlay build_path lookup is_whiteout covered non_empty
    split contains load_whiteouts lookup_layers resolve_delta_parent Fs.lookup lookup_child
    select_all getattr parent_of parent_stats base_directory lookup_base get_or_create_overlay_ino
    load_origins new_overlay_ino delete_where ensure_root
known_2 = refl

serve_all-known_example :
    is_known (info_at (serve_all test_base history (serve_all test_base first_lookup opened)) 2)
    ≡ true
serve_all-known_example =
    serve_all-known test_base first_lookup history opened 2 (load-IsSound fresh_fs [] [] tt) known_2

remount-keeps_example :
    (is_whiteout (remount served) at_a ≡ is_whiteout served at_a)
    × (select 2 (remount served).origin_map ≡ select 2 served.origin_map)
remount-keeps_example =
    remount-keeps served at_a 2 (serve_all-IsSound test_base history fresh_fs [] [] tt)

remove-lookup_example : value (lookup test_base 1 name_a unlinked_a) ≡ some none
unfolding remove unlink select load new_overlay build_path lookup is_whiteout covered non_empty
    split contains load_whiteouts lookup_layers resolve_delta_parent Fs.lookup lookup_child
    select_all build_stats drop_if_unlinked Delete.unlink unlinked found_child get_link_count
    getattr parent_of parent_stats hide or_absent walk_base walk_directories base_directory
    delta_entry_ino lookup_base origin_ino create_whiteout forget_path get_or_create_overlay_ino
    load_origins new_overlay_ino refresh_overlay_mapping delete_where update ensure_root all_of
remove-lookup_example =
    remove-lookup test_base 1 name_a [] later by_unlink opened unlinked_a refl refl refl refl refl

is_whiteout-prefixes_example :
    is_whiteout unlinked_a (absolute (name_a ∷ name_x ∷ []))
    ≡ any_of (λ p. contains unlinked_a.whiteouts (absolute p)) (prefixes (name_a ∷ name_x ∷ []))
unfolding all_of
is_whiteout-prefixes_example = is_whiteout-prefixes unlinked_a (name_a ∷ name_x ∷ []) refl

copy_file-contents_example :
    (o' : Overlay) × (copy_file test_base later 1 name_a 2 (base_stats 2) opened
      ≡ returns (opened.delta.db.last_ino + 1) o')
    × (contents o'.delta.db (next_file opened.delta) ≡ b'h' ∷ b'i' ∷ [])
unfolding load new_overlay check_new lookup_child select_all select ensure_root
copy_file-contents_example =
    copy_file-contents test_base later opened 1 name_a 2 (base_stats 2)
      (λ offset size. Mode.ok (b'h' ∷ b'i' ∷ [])) (b'h' ∷ b'i' ∷ []) (omega arith) (λ index. refl)
      refl refl refl (omega arith)

-- with /a hidden
abbrev hidden_a : Overlay
hidden_a = create_whiteout later at_a opened
