-- ===== src/Overlay/Change.antt =====
-- The methods of `OverlayFS` that change: chmod, chown, utimens, open, mkdir, create_file, mknod,
-- symlink, unlink, rmdir, link and rename.
use airyfs.Prelude.{ℕ, Bool, true, false, not, Option, none, some, List, [], ◌∷◌, nat_eq}
use airyfs.Prelude.Table.{replace}
use airyfs.Mode
use airyfs.Mode.{
  FsError, not_found, already_exists, not_empty, not_a_directory, is_a_directory, Result, Stamp,
  TimeChange, Stats, is_directory,
}
use airyfs.Db.{Bytes}
use airyfs.File.{FileHandle}
use airyfs.Fs
use airyfs.Fs.{Fs}
use airyfs.Fs.Make
use airyfs.Fs.Delete
use airyfs.Fs.Move
use airyfs.Fs.Modify
use airyfs.PathApi.Listing.{chown_ino}
use airyfs.Overlay.{
  Base, in_delta, in_base, InodeInfo, Overlay, returns, fails, Op, ◌>>=◌, ◌>>◌, done, refuse,
  from_result, required, gets, modify, mapped, in_delta_layer, changes_delta,
}
use airyfs.Overlay.Maps.{
  place_eq, is_whiteout, create_whiteout, remove_whiteout, get_or_create_overlay_ino, inode_info,
  build_path,
}
use airyfs.Overlay.CopyUp.{resolve_delta_parent, ensure_parent_dirs, copy_up, create_in}
use airyfs.Overlay.Read.{with_ino, lookup, readdir}

-- a copy takes the number of what it was copied from
unfoldable pub remap : ℕ → InodeInfo → ℕ → Overlay → Overlay
remap ino info delta_ino o = record o {
  inode_map =
      replace ino (record info { layer = in_delta; underlying_ino = delta_ino }) o.inode_map;
  reverse_map = replace (in_delta, delta_ino) ino o.reverse_map;
}

abbrev pub refuse_if : Bool → FsError → Op (Unit {0})
refuse_if true e = refuse e
refuse_if false e = done tt

-- the number of a new entry of the delta
abbrev pub new_number : Bytes → Stats → Op Stats
new_number path made = mapped (get_or_create_overlay_ino (in_delta, made.ino) path) >>= λ number.
    done (with_ino number made)

-- `Err(NotFound) => {}`
unfoldable pub or_absent : (Fs → Result Fs) → Op (Unit {0})
or_absent change o = elim (change o.delta) [
  | Mode.ok fs ↦ returns tt (record o { delta = fs })
  | Mode.err e ↦ elim e [ FsError.not_found ↦ returns tt o | other ↦ fails other o ]
]

abbrev pub in_parent : (ℕ → Op (Unit {0})) → Option ℕ → Op (Unit {0})
in_parent change none = done tt
in_parent change (some parent) = change parent

abbrev pub require_directory : Stats → Op (Unit {0})
require_directory s = refuse_if (not (is_directory s)) not_a_directory

abbrev pub require_empty : List Bytes → Op (Unit {0})
require_empty [] = done tt
require_empty (e ∷ es) = refuse not_empty

abbrev pub refuse_present : Option Stats → Op (Unit {0})
refuse_present none = done tt
refuse_present (some s) = refuse already_exists

abbrev pub whiteout_if : Stamp → Bytes → Option Stats → Op (Unit {0})
whiteout_if now path none = done tt
whiteout_if now path (some s) = modify (create_whiteout now path)

module _ (base : Base) where
  unfoldable pub copy_up_and_update_mapping : Stamp → ℕ → InodeInfo → Op ℕ
  copy_up_and_update_mapping now ino info = do
    delta_ino ← copy_up base now info.path info.underlying_ino
    modify (remap ino info delta_ino)
    done delta_ino

  -- the inode of the delta that a change goes to
  unfoldable pub writable : Stamp → ℕ → Op ℕ
  writable now ino = do
    info ← inode_info ino
    hidden ← gets (λ o. is_whiteout o info.path)
    refuse_if hidden not_found
    elim info.layer [
      | in_delta ↦ done info.underlying_ino
      | in_base ↦ copy_up_and_update_mapping now ino info
    ]

  unfoldable pub chmod : Stamp → ℕ → ℕ → Op (Unit {0})
  chmod now ino mode =
      writable now ino >>= λ delta_ino. changes_delta (λ fs. Modify.chmod now fs delta_ino mode)

  -- the inherent method of the delta
  unfoldable pub chown : Stamp → ℕ → Option ℕ → Option ℕ → Op (Unit {0})
  chown now ino uid gid = writable now ino >>= λ delta_ino.
      modify (λ o. record o { delta = chown_ino o.delta delta_ino uid gid })

  unfoldable pub utimens : Stamp → ℕ → TimeChange → TimeChange → Op (Unit {0})
  utimens now ino atime mtime = writable now ino >>= λ delta_ino.
      changes_delta (λ fs. Modify.utimens now now now fs delta_ino atime mtime)

  unfoldable pub open_delta : Stamp → ℕ → Op FileHandle
  open_delta now ino =
      writable now ino >>= λ delta_ino. λ o. from_result (Fs.open_file o.delta delta_ino) o

  -- the directory of the delta that a new entry goes to
  unfoldable pub prepare : Stamp → Bytes → InodeInfo → ℕ → ℕ → Op ℕ
  prepare now path info uid gid = do
    modify (remove_whiteout path)
    ensure_parent_dirs base now path uid gid
    found ← resolve_delta_parent info
    required not_found found

  unfoldable pub mkdir : Stamp → ℕ → Bytes → ℕ → ℕ → ℕ → Op Stats
  mkdir now parent name mode uid gid = do
    info ← inode_info parent
    path ← build_path parent name
    found ← lookup base parent name
    refuse_present found
    dir ← prepare now path info uid gid
    made ← in_delta_layer (λ fs. Make.mkdir now fs dir name mode uid gid)
    new_number path made

  unfoldable pub create_file : Stamp → ℕ → Bytes → ℕ → ℕ → ℕ → Op (Stats × FileHandle)
  create_file now parent name mode uid gid = do
    info ← inode_info parent
    path ← build_path parent name
    dir ← prepare now path info uid gid
    made ← in_delta_layer (create_in now dir name mode uid gid)
    stats ← new_number path made.0
    done (stats, made.1)

  unfoldable pub mknod : Stamp → ℕ → Bytes → ℕ → ℕ → ℕ → ℕ → Op Stats
  mknod now parent name mode rdev uid gid = do
    info ← inode_info parent
    path ← build_path parent name
    dir ← prepare now path info uid gid
    made ← in_delta_layer (λ fs. Make.mknod now fs dir name mode rdev uid gid)
    new_number path made

  unfoldable pub symlink : Stamp → ℕ → Bytes → Bytes → ℕ → ℕ → Op Stats
  symlink now parent name target uid gid = do
    info ← inode_info parent
    path ← build_path parent name
    dir ← prepare now path info uid gid
    made ← in_delta_layer (λ fs. Make.symlink now fs dir name target uid gid)
    new_number path made

  -- what is still there comes from the base
  unfoldable pub hide : Stamp → ℕ → Bytes → Bytes → Op (Unit {0})
  hide now parent name path = lookup base parent name >>= λ found. whiteout_if now path found

  unfoldable pub unlink : Stamp → ℕ → Bytes → Op (Unit {0})
  unlink now parent name = do
    info ← inode_info parent
    path ← build_path parent name
    found ← lookup base parent name
    stats ← required not_found found
    refuse_if (is_directory stats) is_a_directory
    dir ← resolve_delta_parent info
    in_parent (λ d. or_absent (λ fs. Delete.unlink now fs d name)) dir
    hide now parent name path

  unfoldable pub rmdir : Stamp → ℕ → Bytes → Op (Unit {0})
  rmdir now parent name = do
    info ← inode_info parent
    path ← build_path parent name
    found ← lookup base parent name
    stats ← required not_found found
    require_directory stats
    entries ← readdir base stats.ino
    require_empty entries
    dir ← resolve_delta_parent info
    in_parent (λ d. or_absent (λ fs. Delete.rmdir now fs d name)) dir
    hide now parent name path

  -- the copy keeps its entry in the maps until it is looked up
  unfoldable pub linked_ino : Stamp → InodeInfo → Op ℕ
  linked_ino now info = elim info.layer [
    | in_delta ↦ done info.underlying_ino
    | in_base ↦ copy_up base now info.path info.underlying_ino
  ]

  unfoldable pub link : Stamp → ℕ → ℕ → Bytes → Op Stats
  link now ino parent name = do
    info ← inode_info ino
    parent_info ← inode_info parent
    path ← build_path parent name
    delta_ino ← linked_ino now info
    dir ← prepare now path parent_info 0 0
    made ← in_delta_layer (λ fs. Make.link now fs delta_ino dir name)
    done (with_ino ino made)

  abbrev pub copy_source : Stamp → Bytes → InodeInfo → Op (Unit {0})
  copy_source now path info = elim info.layer [
    | in_delta ↦ done tt
    | in_base ↦ copy_up base now path info.underlying_ino >>= λ copied. done tt
  ]

  unfoldable pub rename : Stamp → ℕ → Bytes → ℕ → Bytes → Op (Unit {0})
  rename now old_parent old_name new_parent new_name = do
    old_info ← inode_info old_parent
    new_info ← inode_info new_parent
    old_path ← build_path old_parent old_name
    new_path ← build_path new_parent new_name
    found ← lookup base old_parent old_name
    stats ← required not_found found
    src_info ← inode_info stats.ino
    copy_source now old_path src_info
    modify (remove_whiteout new_path)
    ensure_parent_dirs base now new_path 0 0
    src ← resolve_delta_parent old_info
    src_dir ← required not_found src
    dst ← resolve_delta_parent new_info
    dst_dir ← required not_found dst
    changes_delta (λ fs. Move.rename now now fs src_dir old_name dst_dir new_name)
    hide now old_parent old_name old_path
