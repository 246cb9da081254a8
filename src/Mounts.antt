-- ===== src/Mounts.antt =====
-- sandbox/src/vfs/mount.rs, bind.rs and sqlite.rs: the mount table, and what a mount makes of a
-- path of the sandbox. Paths are bytes; whether they are UTF-8 is a parameter, as the source asks
-- its standard library.
pub mod Resolve
pub mod Inside
pub mod Config
pub mod OpenFile
use airyfs.Prelude.{
  ℕ, suc, ◌+◌, Bool, true, false, not, ◌&&◌, ◌||◌, Option, none, some, List, [], ◌∷◌, ◌++◌, ltb,
  nat_beq, bytes_beq, if◌then◌else◌,
}
use airyfs.Db.{Bytes}
use airyfs.PathName.{slash, dot, is_empty, split}
use airyfs.PathApi.Stat.{starts_with_slash, path_join}
use airyfs.PathApi.Remove.{starts_with}

pub data VfsError : Type 0 where
  not_found : VfsError
  invalid_input : VfsError

pub data VfsResult : Type 0 where
  ok : Bytes → VfsResult
  err : VfsError → VfsResult

-- The two kinds of file system that a mount names; the second keeps its files in a database that
-- path translation does not ask.
pub data Vfs : Type 0 where
  bind_vfs : (host_root sandbox_root : Bytes) → Vfs
  sqlite_vfs : (mount_point : Bytes) → Vfs

pub record MountPoint : Type 0 where
  pub sandbox_path : Bytes
  pub vfs : Vfs

-- `self.mounts`
abbrev pub MountTable : Type 0
MountTable = List MountPoint

-- `.trim_start_matches('/')`
unfoldable pub trim_start : Bytes → Bytes
trim_start [] = []
trim_start (c ∷ cs) = let rest = trim_start cs in if nat_beq c slash then rest else c ∷ cs

-- `.strip_prefix(p)`, once the prefix is known to be there
unfoldable pub strip_prefix : Bytes → Bytes → Option Bytes
strip_prefix [] bs = some bs
strip_prefix (p ∷ ps) [] = none
strip_prefix (p ∷ ps) (b ∷ bs) = let rest = strip_prefix ps bs in if nat_beq p b then rest else none

abbrev pub or_empty : Option Bytes → Bytes
or_empty none = []
or_empty (some bs) = bs

-- `self.host_root.clone()` or `self.host_root.join(relative)`
unfoldable pub host_path : Bytes → Bytes → Bytes
host_path host_root relative =
    if is_empty relative
    then host_root
    else if is_empty host_root
    then relative
    else path_join host_root relative

-- `BindVfs`
unfoldable pub bind_translate : Bytes → Bytes → Bytes → VfsResult
bind_translate host_root sandbox_root path =
    if bytes_beq path sandbox_root || starts_with (sandbox_root ++ (slash ∷ [])) path
    then ok (host_path host_root (trim_start (or_empty (strip_prefix sandbox_root path))))
    else err not_found

-- `SqliteVfs`
unfoldable pub sqlite_translate : Bytes → Bytes → VfsResult
sqlite_translate mount_point path = if starts_with mount_point path then ok path else err not_found

-- `translate_to_relative` of `SqliteVfs`, for a path that is UTF-8
unfoldable pub translate_to_relative : Bytes → Bytes → VfsResult
translate_to_relative mount_point path =
    if bytes_beq path mount_point
    then ok (slash ∷ [])
    else elim (strip_prefix (mount_point ++ (slash ∷ [])) path) [
      | some rel ↦ ok (slash ∷ rel)
      | none ↦ err not_found
    ]

-- `components()` leaves empty pieces and `.` out
unfoldable pub normal_components : List Bytes → ℕ
normal_components [] = 0
normal_components (w ∷ ws) =
    let rest = normal_components ws in if is_empty w || bytes_beq w dot then rest else suc rest

-- the root counts as one, and so does a `.` that a relative path begins with
unfoldable pub first_component : Bytes → ℕ
first_component path =
    if starts_with_slash path
    then 1
    else elim (split path) [ [] ↦ 0 | w ∷ ws ↦ if bytes_beq w dot then 1 else 0 ]

-- `m.sandbox_path.components().count()`
unfoldable pub depth : MountPoint → ℕ
depth m = first_component m.sandbox_path + normal_components (split m.sandbox_path)

-- `sort_by_key` is stable: a mount goes before the first one that is not deeper
unfoldable pub insert_mount : MountPoint → MountTable → MountTable
insert_mount m [] = m ∷ []
insert_mount m (n ∷ ns) =
    let rest = insert_mount m ns in if ltb (depth m) (depth n) then n ∷ rest else m ∷ n ∷ ns

unfoldable pub sort_by_depth : MountTable → MountTable
sort_by_depth [] = []
sort_by_depth (m ∷ ms) = insert_mount m (sort_by_depth ms)

unfoldable pub add_mount : MountTable → Bytes → Vfs → MountTable
add_mount mounts sandbox_path vfs =
    sort_by_depth (mounts ++ (record { sandbox_path = sandbox_path; vfs = vfs } ∷ []))

module _ (is_utf8 : Bytes → Bool) where
  -- a path of the mount or of the caller that is not UTF-8 is refused
  unfoldable pub translate_path : Vfs → Bytes → VfsResult
  translate_path (bind_vfs host_root sandbox_root) path =
      if is_utf8 sandbox_root && is_utf8 path
      then bind_translate host_root sandbox_root path
      else err invalid_input
  translate_path (sqlite_vfs mount_point) path =
      if is_utf8 path && is_utf8 mount_point
      then sqlite_translate mount_point path
      else err invalid_input

  -- `for mount in &self.mounts`
  unfoldable pub resolve : MountTable → Bytes → Option (Vfs × Bytes)
  resolve [] path = none
  resolve (m ∷ ms) path =
      let rest = resolve ms path in
      elim (translate_path m.vfs path) [ ok translated ↦ some (m.vfs, translated) | err e ↦ rest ]
