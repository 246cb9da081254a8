-- ===== src/PathApi/Stat.antt =====
-- `lstat`, `stat`, `stat_with_conn`, `readlink` and `open` of `impl AgentFS`.
pub mod Links
pub mod Words
pub mod Follow
use airyfs.Prelude.{
  ℕ, zero, suc, Bool, true, false, none, some, Option, List, [], ◌∷◌, ◌++◌, ◌||◌, bytes_beq,
  nat_beq, nat_eq, if◌then◌else◌,
}
use airyfs.Prelude.Table.{select}
use airyfs.Mode
use airyfs.Mode.{FsError, not_found, invalid_path, symlink_loop, file_type, s_iflnk, Stats}
use airyfs.Db.{Bytes, build_stats}
use airyfs.File.{FileHandle}
use airyfs.Fs.{Fs, getattr, readlink}
use airyfs.Fs.Cache.{Lru}
use airyfs.PathName.{slash, dot, root, is_empty, split, without_last, join, normalize_path}
use airyfs.PathApi.{PathOp, returns, ◌>>=◌, done, refuse, query, required, resolve_path}

-- `target.starts_with('/')`
abbrev pub starts_with_slash : Bytes → Bool
starts_with_slash [] = false
starts_with_slash (c ∷ cs) = nat_beq c slash

abbrev pub ends_with_slash : Bytes → Bool
ends_with_slash [] = false
ends_with_slash (c ∷ cs) = elim cs [ [] ↦ nat_beq c slash | d ∷ ds ↦ ends_with_slash cs ]

-- what `Path::components` passes over
abbrev pub is_passed : Bytes → Bool
is_passed w = is_empty w || bytes_beq w dot

-- the pieces up to the last component
unfoldable pub trim_pieces : List Bytes → List Bytes
trim_pieces [] = []
trim_pieces (w ∷ ws) =
    let rest = trim_pieces ws in
    elim rest [ [] ↦ if is_passed w then [] else w ∷ [] | v ∷ vs ↦ w ∷ v ∷ vs ]

-- `Path::parent` of a path that begins with `/`, as a part of its text, and `/` for the root, which has
-- none: the last component goes, with the slashes and the `.` beside it
unfoldable pub path_parent : Bytes → Bytes
path_parent [] = root
path_parent (c ∷ cs) = slash ∷ join (trim_pieces (without_last (trim_pieces (split cs))))

-- `Path::join` with a relative path
unfoldable pub path_join : Bytes → Bytes → Bytes
path_join dir target = if ends_with_slash dir then dir ++ target else dir ++ (slash ∷ target)

-- where a symbolic link at `current` leads, before and after it is normalised
unfoldable pub target_path : Bytes → Bytes → Bytes
target_path current target =
    if starts_with_slash target then target else path_join (path_parent current) target

unfoldable pub next_path : Bytes → Bytes → Bytes
next_path current target = normalize_path (target_path current target)

-- `for _ in 0..max_symlink_depth`
abbrev pub max_symlink_depth : ℕ
max_symlink_depth = 40

module _ (lru : Lru) where
  -- `readlink_with_conn`
  unfoldable pub readlink_path : Bytes → PathOp (Option Bytes)
  readlink_path path = resolve_path lru (normalize_path path) >>= λ found. elim found [
    | none ↦ done none
    | some ino ↦ query (λ db. readlink db ino)
  ]

  unfoldable pub lstat : Bytes → PathOp (Option Stats)
  lstat path = resolve_path lru (normalize_path path) >>= λ found. elim found [
    | none ↦ done none
    | some ino ↦ query (λ db. Mode.ok (getattr db ino))
  ]

  -- the loop, with the error for a link that has no target
  unfoldable pub stat_loop : ℕ → FsError → Bytes → PathOp (Option Stats)
  stat_loop zero missing current = refuse symlink_loop
  stat_loop (suc rounds) missing current = resolve_path lru current >>= λ found. elim found [
    | none ↦ done none
    | some ino ↦ query (λ db. Mode.ok (select ino db.inodes)) >>= λ row. elim row [
      | none ↦ done none
      | some r ↦
          if nat_beq (file_type r.mode) s_iflnk
          then (readlink_path current >>= required missing >>= λ target.
              stat_loop rounds missing (next_path current target))
          else done (some (build_stats ino r))
    ]
  ]

  unfoldable pub stat : Bytes → PathOp (Option Stats)
  stat path = stat_loop max_symlink_depth not_found (normalize_path path)

  unfoldable pub stat_with_conn : Bytes → PathOp (Option Stats)
  stat_with_conn path = stat_loop max_symlink_depth invalid_path (normalize_path path)

  unfoldable pub open_path : Bytes → PathOp FileHandle
  open_path path = do
    found ← resolve_path lru (normalize_path path)
    ino ← required not_found found
    λ fs. returns (record { ino = ino; chunk_size = fs.chunk_size }) fs
