-- ===== src/Overlay/CopyUp.antt =====
-- How `OverlayFS` brings the directories and the files of the base into the delta.
use airyfs.Prelude.{ℕ, Option, none, some, List, [], ◌∷◌, ◌++◌, if◌then◌else◌}
use airyfs.Mode
use airyfs.Mode.{
  not_found, not_a_directory, root_operation, Result, Stamp, Stats, is_directory, is_symlink,
  permissions,
}
use airyfs.Db.{Bytes}
use airyfs.File.{FileHandle, pwrite}
use airyfs.Fs
use airyfs.Fs.{Fs, with_db}
use airyfs.Fs.Make
use airyfs.PathName.{slash, without_last}
use airyfs.PathApi.{last_name}
use airyfs.Overlay.{
  Base, in_delta, in_base, InodeInfo, Op, ◌>>=◌, ◌>>◌, done, refuse, from_result, required, modify,
  in_delta_layer,
}
use airyfs.Overlay.Maps.{components, remove_whiteout, add_origin_mapping, promote_to_delta}

abbrev pub delta_lookup : ℕ → Bytes → Op (Option Stats)
delta_lookup parent name = in_delta_layer (λ fs. Fs.lookup fs parent name)

-- the walk of `resolve_delta_parent`, through directories only
unfoldable pub walk_directories : ℕ → List Bytes → Op (Option ℕ)
walk_directories ino [] = done (some ino)
walk_directories ino (c ∷ cs) = delta_lookup ino c >>= λ found. elim found [
  | none ↦ done none
  | some s ↦ if is_directory s then walk_directories s.ino cs else done none
]

unfoldable pub resolve_delta_parent : InodeInfo → Op (Option ℕ)
resolve_delta_parent info = elim info.layer [
  | in_delta ↦ done (some info.underlying_ino)
  | in_base ↦ walk_directories 1 (components info.path)
]

-- the walk of `copy_up`, through entries of any kind
unfoldable pub walk_delta : ℕ → List Bytes → Op (Option ℕ)
walk_delta ino [] = done (some ino)
walk_delta ino (c ∷ cs) =
    delta_lookup ino c >>= λ found. elim found [ none ↦ done none | some s ↦ walk_delta s.ino cs ]

abbrev pub base_or : ℕ → Option Stats → ℕ
base_or ino none = ino
base_or ino (some s) = s.ino

abbrev pub owner_or : ℕ × ℕ → Option Stats → ℕ × ℕ
owner_or owner none = owner
owner_or owner (some s) = (s.uid, s.gid)

-- the origin of a directory that the base has too
abbrev pub keep_origin : Bytes → ℕ → Option Stats → Op (Unit {0})
keep_origin path delta_ino none = done tt
keep_origin path delta_ino (some s) =
    modify (λ o. promote_to_delta path delta_ino (add_origin_mapping delta_ino s.ino o))

unfoldable pub copy_directory : Stamp → ℕ → Bytes → Stats → Op ℕ
copy_directory now parent name stats = do
  made ←
      in_delta_layer
        (λ fs. Make.mkdir now fs parent name (permissions stats.mode) stats.uid stats.gid)
  done made.ino

abbrev pub created : Stats × FileHandle × Fs → (Stats × FileHandle) × Fs
created (stats, file, fs) = ((stats, file), fs)

abbrev pub create_in : Stamp → ℕ → Bytes → ℕ → ℕ → ℕ → Fs → Result ((Stats × FileHandle) × Fs)
create_in now parent name mode uid gid fs =
    elim (Make.create_file now fs parent name mode uid gid) [
      | Mode.ok made ↦ Mode.ok (created made)
      | Mode.err e ↦ Mode.err e
    ]

abbrev pub write_delta : Stamp → FileHandle → ℕ → Bytes → Op (Unit {0})
write_delta now file offset bytes =
    modify (λ o. record o { delta = with_db o.delta (pwrite now o.delta.db file offset bytes) })

module _ (base : Base) where
  abbrev pub base_lookup : ℕ → Bytes → Op (Option Stats)
  base_lookup parent name = from_result (base.lookup parent name)

  -- the walk down the base, where the delta has the directory
  unfoldable pub walk_base : ℕ → List Bytes → Op (Option ℕ)
  walk_base ino [] = done (some ino)
  walk_base ino (c ∷ cs) =
      base_lookup ino c >>= λ found. elim found [ none ↦ done none | some s ↦ walk_base s.ino cs ]

  -- the loop of `ensure_parent_dirs`
  unfoldable pub ensure_dirs : Stamp → ℕ × ℕ → Bytes → ℕ → ℕ → List Bytes → Op (Unit {0})
  ensure_dirs now owner path delta_ino base_ino [] = done tt
  ensure_dirs now owner path delta_ino base_ino (c ∷ cs) =
      let current = path ++ (slash ∷ c) in
      modify (remove_whiteout current)
      >> (delta_lookup delta_ino c >>= λ found. elim found [
        | some stats ↦
            if is_directory stats
            then (base_lookup base_ino c >>= λ below.
                ensure_dirs now owner current stats.ino (base_or base_ino below) cs)
            else refuse not_a_directory
        | none ↦ base_lookup base_ino c >>= λ below.
            in_delta_layer (λ fs.
              Make.mkdir now fs delta_ino c 0o755 (owner_or owner below).0 (owner_or owner below).1)
            >>= λ made.
                keep_origin current made.ino below
                >> ensure_dirs now owner current made.ino (base_or base_ino below) cs
      ])

  unfoldable pub ensure_parent_dirs : Stamp → Bytes → ℕ → ℕ → Op (Unit {0})
  ensure_parent_dirs now path uid gid =
      ensure_dirs now (uid, gid) [] 1 1 (without_last (components path))

  -- the target of a link
  unfoldable pub copy_symlink : Stamp → ℕ → Bytes → ℕ → Stats → Op ℕ
  copy_symlink now parent name base_ino stats = do
    read ← from_result (base.readlink base_ino)
    target ← required not_found read
    made ← in_delta_layer (λ fs. Make.symlink now fs parent name target stats.uid stats.gid)
    done made.ino

  -- the bytes of a file, and of whatever else the base has
  unfoldable pub copy_file : Stamp → ℕ → Bytes → ℕ → Stats → Op ℕ
  copy_file now parent name base_ino stats = do
    pread ← from_result (base.open_file base_ino)
    content ← from_result (pread 0 stats.size)
    made ← in_delta_layer (create_in now parent name stats.mode stats.uid stats.gid)
    write_delta now made.1 0 content
    done made.0.ino

  unfoldable pub copy_node : Stamp → ℕ → Bytes → ℕ → Stats → Op ℕ
  copy_node now parent name base_ino stats =
      if is_symlink stats
      then copy_symlink now parent name base_ino stats
      else if is_directory stats
      then copy_directory now parent name stats
      else copy_file now parent name base_ino stats

  -- what the delta has at the path already
  unfoldable pub already_copied : List Bytes → Bytes → Op (Option Stats)
  already_copied parents name = walk_delta 1 parents >>= λ found. elim found [
    | none ↦ done none
    | some parent ↦ delta_lookup parent name
  ]

  unfoldable pub copy_new : Stamp → Bytes → List Bytes → Bytes → ℕ → Op ℕ
  copy_new now path parents name base_ino = do
    got ← from_result (base.getattr base_ino)
    stats ← required not_found got
    ensure_parent_dirs now path stats.uid stats.gid
    found ← walk_delta 1 parents
    parent ← required not_found found
    delta_ino ← copy_node now parent name base_ino stats
    modify (add_origin_mapping delta_ino base_ino)
    done delta_ino

  unfoldable pub copy_up : Stamp → Bytes → ℕ → Op ℕ
  copy_up now path base_ino = elim (components path) [
    | [] ↦ refuse root_operation
    | c ∷ cs ↦
        let parents = without_last (c ∷ cs) in
        let name = last_name (c ∷ cs) in
        already_copied parents name >>= λ there. elim there [
          | some stats ↦ done stats.ino
          | none ↦ copy_new now path parents name base_ino
        ]
  ]
