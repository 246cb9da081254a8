-- ===== src/Overlay/Read.antt =====
-- The methods of `OverlayFS` that look: lookup, getattr, readlink, readdir, readdir_plus and statfs.
use airyfs.Prelude.{
  ℕ, Bool, true, false, not, ◌&&◌, Option, none, some, List, [], ◌∷◌, bytes_beq, nat_eq,
  if◌then◌else◌,
}
use airyfs.Prelude.Table.{select}
use airyfs.Mode.{Stats}
use airyfs.Db.{Bytes}
use airyfs.Fs
use airyfs.Fs.{Fs}
use airyfs.PathName.{root}
use airyfs.PathApi.Listing.{name_before, FilesystemStats, statfs}
use airyfs.PathApi.Listing
use airyfs.Overlay.{
  Base, in_delta, in_base, InodeInfo, Overlay, Op, ◌>>=◌, done, from_result, gets, mapped,
}
use airyfs.Overlay.Maps.{
  place_eq, components, contains, is_whiteout, child_whiteouts, get_or_create_overlay_ino,
  refresh_overlay_mapping, inode_info, child_path, build_path,
}
use airyfs.Overlay.CopyUp.{delta_lookup, resolve_delta_parent, base_lookup, walk_base}

abbrev pub with_ino : ℕ → Stats → Stats
with_ino ino s = record s { ino = ino }

-- an entry of the delta keeps the number of the file of the base that it is a copy of
unfoldable pub origin_ino : ℕ → ℕ → Bytes → Overlay → ℕ × Overlay
origin_ino ino delta_ino path o = elim (select delta_ino o.origin_map) [
  | none ↦ (ino, o)
  | some base_ino ↦ elim (select (in_base, base_ino) o.reverse_map) [
    | none ↦ (ino, o)
    | some existing ↦ (existing, refresh_overlay_mapping existing (in_delta, delta_ino) path o)
  ]
]

-- the number of an entry of the delta
unfoldable pub delta_entry_ino : ℕ → Bytes → Overlay → ℕ × Overlay
delta_entry_ino delta_ino path o =
    let (ino, o') = get_or_create_overlay_ino (in_delta, delta_ino) path o in
    origin_ino ino delta_ino path o'

abbrev pub found_in_delta : Option ℕ → Bytes → Op (Option Stats)
found_in_delta none name = done none
found_in_delta (some parent) name = delta_lookup parent name

abbrev pub numbered : ℕ → Option Stats → Option Stats
numbered ino none = none
numbered ino (some s) = some (with_ino ino s)

-- `!self.is_whiteout(&entry_path) && !child_whiteouts.contains(&entry)`
unfoldable pub is_shown : Overlay → Bytes → Bytes → Bool
is_shown o dir entry =
    not (is_whiteout o (child_path dir entry))
    && not (contains (child_whiteouts dir o.whiteouts) entry)

-- the set of entries, in the order that it is returned in
unfoldable pub insert_entry : Bytes → List Bytes → List Bytes
insert_entry entry [] = entry ∷ []
insert_entry entry (e ∷ es) =
    let rest = insert_entry entry es in
    if bytes_beq entry e then e ∷ es else if name_before entry e then entry ∷ e ∷ es else e ∷ rest

unfoldable pub add_shown : Overlay → Bytes → List Bytes → List Bytes → List Bytes
add_shown o dir [] entries = entries
add_shown o dir (e ∷ es) entries =
    add_shown o dir es (if is_shown o dir e then insert_entry e entries else entries)

-- the inherent method of the delta, which does not ask for the kind
abbrev pub delta_entries : InodeInfo → Overlay → List Bytes
delta_entries info o = elim info.layer [
  | in_delta ↦ Listing.readdir o.delta.db info.underlying_ino
  | in_base ↦ []
]

abbrev pub or_nil : {A : Type 0} → Option (List A) → List A
or_nil none = []
or_nil (some rows) = rows

-- the map of entries, in the order that it is returned in
unfoldable pub put_entry : Bytes → Stats → List (Bytes × Stats) → List (Bytes × Stats)
put_entry entry s [] = (entry, s) ∷ []
put_entry entry s ((e, t) ∷ es) =
    let rest = put_entry entry s es in
    if bytes_beq entry e
    then (entry, s) ∷ es
    else if name_before entry e
    then (entry, s) ∷ (e, t) ∷ es
    else (e, t) ∷ rest

-- the number of an entry of the delta in a listing
unfoldable pub listed_ino : ℕ → Bytes → Overlay → ℕ × Overlay
listed_ino delta_ino path o = elim (select delta_ino o.origin_map) [
  | some base_ino ↦ get_or_create_overlay_ino (in_base, base_ino) path o
  | none ↦ get_or_create_overlay_ino (in_delta, delta_ino) path o
]

-- the entries that are shown, each with a number of the overlay
unfoldable pub put_shown :
    (ℕ → Bytes → Overlay → ℕ × Overlay)
    → Bytes
    → List (Bytes × Stats)
    → List (Bytes × Stats)
    → Op (List (Bytes × Stats))
put_shown number dir [] entries = done entries
put_shown number dir ((e, s) ∷ rows) entries = gets (λ o. is_shown o dir e) >>= λ shown.
    elim shown [
      | false ↦ put_shown number dir rows entries
      | true ↦ mapped (number s.ino (child_path dir e)) >>= λ ino.
          put_shown number dir rows (put_entry e (with_ino ino s) entries)
    ]

abbrev pub delta_rows : InodeInfo → Overlay → List (Bytes × Stats)
delta_rows info o = elim info.layer [
  | in_delta ↦ Listing.readdir_plus o.delta.db info.underlying_ino
  | in_base ↦ []
]

unfoldable pub overlay_statfs : Op FilesystemStats
overlay_statfs = gets (λ o. statfs o.delta.db)

module _ (base : Base) where
  -- the directory of the base at the path of a directory of the overlay
  unfoldable pub base_directory : InodeInfo → Op (Option ℕ)
  base_directory info = elim info.layer [
    | in_base ↦ done (some info.underlying_ino)
    | in_delta ↦
        if bytes_beq info.path root then done (some 1) else walk_base base 1 (components info.path)
  ]

  unfoldable pub lookup_base : InodeInfo → Bytes → Bytes → Op (Option Stats)
  lookup_base info name path = base_directory info >>= λ parent. elim parent [
    | none ↦ done none
    | some ino ↦ base_lookup base ino name >>= λ found. elim found [
      | none ↦ done none
      | some s ↦ mapped (get_or_create_overlay_ino (in_base, s.ino) path) >>= λ number.
          done (some (with_ino number s))
    ]
  ]

  unfoldable pub lookup_layers : InodeInfo → Bytes → Bytes → Op (Option Stats)
  lookup_layers info name path = resolve_delta_parent info >>= λ parent.
      found_in_delta parent name >>= λ found. elim found [
        | some s ↦ mapped (delta_entry_ino s.ino path) >>= λ number. done (some (with_ino number s))
        | none ↦ lookup_base info name path
      ]

  unfoldable pub lookup : ℕ → Bytes → Op (Option Stats)
  lookup parent name = do
    info ← inode_info parent
    path ← build_path parent name
    hidden ← gets (λ o. is_whiteout o path)
    if hidden then done none else lookup_layers info name path

  abbrev pub layer_getattr : InodeInfo → Op (Option Stats)
  layer_getattr info = elim info.layer [
    | in_delta ↦ gets (λ o. Fs.getattr o.delta.db info.underlying_ino)
    | in_base ↦ from_result (base.getattr info.underlying_ino)
  ]

  unfoldable pub getattr : ℕ → Op (Option Stats)
  getattr ino o = elim (select ino o.inode_map) [
    | none ↦ done none o
    | some info ↦
        if is_whiteout o info.path
        then done none o
        else (layer_getattr info >>= λ found. done (numbered ino found)) o
  ]

  abbrev pub layer_readlink : InodeInfo → Op (Option Bytes)
  layer_readlink info = elim info.layer [
    | in_delta ↦ λ o. from_result (Fs.readlink o.delta.db info.underlying_ino) o
    | in_base ↦ from_result (base.readlink info.underlying_ino)
  ]

  unfoldable pub readlink : ℕ → Op (Option Bytes)
  readlink ino = do
    info ← inode_info ino
    hidden ← gets (λ o. is_whiteout o info.path)
    if hidden then done none else layer_readlink info

  -- the walk that a listing makes: the root is walked to as well
  unfoldable pub listed_directory : InodeInfo → Op (Option ℕ)
  listed_directory info = elim info.layer [
    | in_base ↦ done (some info.underlying_ino)
    | in_delta ↦ walk_base base 1 (components info.path)
  ]

  unfoldable pub base_entries : InodeInfo → Op (List Bytes)
  base_entries info = listed_directory info >>= λ found. elim found [
    | none ↦ done []
    | some ino ↦ from_result (base.readdir ino) >>= λ rows. done (or_nil rows)
  ]

  unfoldable pub readdir : ℕ → Op (List Bytes)
  readdir ino = do
    info ← inode_info ino
    in_delta_dir ← gets (λ o. add_shown o info.path (delta_entries info o) [])
    in_base_dir ← base_entries info
    gets (λ o. add_shown o info.path in_base_dir in_delta_dir)

  unfoldable pub base_rows : InodeInfo → Op (List (Bytes × Stats))
  base_rows info = listed_directory info >>= λ found. elim found [
    | none ↦ done []
    | some ino ↦ from_result (base.readdir_plus ino) >>= λ rows. done (or_nil rows)
  ]

  -- the delta comes last, and so overrides
  unfoldable pub readdir_plus : ℕ → Op (List (Bytes × Stats))
  readdir_plus ino = do
    info ← inode_info ino
    below ← base_rows info
    entries ← put_shown (λ b. get_or_create_overlay_ino (in_base, b)) info.path below []
    above ← gets (delta_rows info)
    put_shown listed_ino info.path above entries
