-- ===== src/Overlay/Maps.antt =====
-- The maps, whiteouts and origins of `OverlayFS`, in sdk/rust/src/filesystem/overlayfs.rs.
use airyfs.Prelude.{
  ℕ, ◌+◌, ◌≡◌, Bool, true, false, ◌||◌, Option, none, some, List, [], ◌∷◌, ◌++◌, nat_beq, nat_eq,
  bytes_beq, bytes_eq, Key, ◌↔◌, length, drop, if◌then◌else◌, arith,
}
use airyfs.Prelude.Int.{ℤ}
use airyfs.Prelude.Table.{select, update, delete, replace}
use airyfs.Mode.{not_found, Stamp}
use airyfs.Db.{Bytes, root_ino}
use airyfs.Fs.{Fs}
use airyfs.PathName.{slash, root, split, non_empty}
use airyfs.PathName.Pieces.{slash_free}
use airyfs.PathApi.Remove.{starts_with}
use airyfs.Mounts.{trim_start}
use airyfs.Overlay.{
  ◌>>=◌, InodeInfo, Op, Overlay, Place, done, in_base, in_delta, place_beq, required,
}

-- `HashSet`
unfoldable pub contains : List Bytes → Bytes → Bool
contains [] p = false
contains (w ∷ ws) p = bytes_beq w p || contains ws p

unfoldable pub without : Bytes → List Bytes → List Bytes
without p [] = []
without p (w ∷ ws) = let rest = without p ws in if bytes_beq w p then rest else w ∷ rest

-- `path.split('/').filter(|s| !s.is_empty())`
abbrev pub components : Bytes → List Bytes
components path = non_empty (split path)

-- the path and its ancestors
unfoldable pub covered : List Bytes → Bytes → List Bytes → Bool
covered ws current [] = false
covered ws current (c ∷ cs) =
    let next = current ++ (slash ∷ c) in contains ws next || covered ws next cs

unfoldable pub is_whiteout : Overlay → Bytes → Bool
is_whiteout o path = covered o.whiteouts [] (components path)

unfoldable pub create_whiteout : Stamp → Bytes → Overlay → Overlay
create_whiteout now path o = record o {
  fs_whiteout = replace path now.secs o.fs_whiteout;
  whiteouts = path ∷ o.whiteouts;
}

unfoldable pub remove_whiteout : Bytes → Overlay → Overlay
remove_whiteout path o =
    if contains o.whiteouts path
    then record o { fs_whiteout = delete path o.fs_whiteout; whiteouts = without path o.whiteouts }
    else o

-- the name of a whiteout that stands directly below a directory
unfoldable pub child_of : Bytes → Bytes → Option Bytes
child_of dir p =
    if bytes_beq dir root
    then (let trimmed = trim_start p in if slash_free trimmed then some trimmed else none)
    else if starts_with (dir ++ (slash ∷ [])) p
    then (let rest = drop (length dir + 1) p in if slash_free rest then some rest else none)
    else none

-- `get_child_whiteouts`
unfoldable pub child_whiteouts : Bytes → List Bytes → List Bytes
child_whiteouts dir [] = []
child_whiteouts dir (p ∷ ps) =
    let rest = child_whiteouts dir ps in
    elim (child_of dir p) [ none ↦ rest | some name ↦ name ∷ rest ]

pub place_beq_iff : (a b : Place) → (place_beq a b ≡ true) ↔ (a ≡ b)
place_beq_iff (in_delta, a) (in_delta, b) = ground arith
place_beq_iff (in_delta, a) (in_base, b) = ground arith
place_beq_iff (in_base, a) (in_delta, b) = ground arith
place_beq_iff (in_base, a) (in_base, b) = ground arith

instance abbrev pub place_eq : Key Place
place_eq = record { beq = place_beq; decides = place_beq_iff }

-- `alloc_ino`, and the entries of a new number
unfoldable pub new_overlay_ino : Place → Bytes → Overlay → ℕ × Overlay
new_overlay_ino place path o =
    let info : InodeInfo = record { layer = place.0; underlying_ino = place.1; path = path } in
    (
      o.next_ino,
      record o {
        next_ino = o.next_ino + 1;
        inode_map = replace o.next_ino info o.inode_map;
        reverse_map = replace place o.next_ino o.reverse_map;
        path_map = replace path o.next_ino o.path_map;
      },
    )

unfoldable pub get_or_create_overlay_ino : Place → Bytes → Overlay → ℕ × Overlay
get_or_create_overlay_ino place path o = elim (select place o.reverse_map) [
  | some ino ↦ (ino, o)
  | none ↦ new_overlay_ino place path o
]

-- the old path, where it still leads to the number
unfoldable pub forget_path : Bytes → ℕ → List (Bytes × ℕ) → List (Bytes × ℕ)
forget_path path ino m = elim (select path m) [
  | none ↦ m
  | some i ↦ if nat_beq i ino then delete path m else m
]

unfoldable pub refresh_overlay_mapping : ℕ → Place → Bytes → Overlay → Overlay
refresh_overlay_mapping ino place path o = elim (select ino o.inode_map) [
  | none ↦ o
  | some old ↦
      let info : InodeInfo = record { layer = place.0; underlying_ino = place.1; path = path } in
      record o {
        inode_map = update ino (λ _. info) o.inode_map;
        reverse_map = replace place ino o.reverse_map;
        path_map = replace path ino (forget_path old.path ino o.path_map);
      }
]

-- `get_inode_info`, where a number that is not known is an error
abbrev pub inode_info : ℕ → Op InodeInfo
inode_info ino o = required not_found (select ino o.inode_map) o

abbrev pub child_path : Bytes → Bytes → Bytes
child_path dir name = if bytes_beq dir root then slash ∷ name else dir ++ (slash ∷ name)

unfoldable pub build_path : ℕ → Bytes → Op Bytes
build_path parent name = do info ← inode_info parent; done (child_path info.path name)

unfoldable pub add_origin_mapping : ℕ → ℕ → Overlay → Overlay
add_origin_mapping delta_ino base_ino o = record o {
  fs_origin = replace delta_ino base_ino o.fs_origin;
  origin_map = replace delta_ino base_ino o.origin_map;
}

-- an inode of the base whose directory now stands in the delta
unfoldable pub promoted : ℕ → InodeInfo → ℕ → Overlay → Overlay
promoted ino info delta_ino o = record o {
  inode_map =
      update ino (λ i. record i { layer = in_delta; underlying_ino = delta_ino }) o.inode_map;
  reverse_map =
      replace (in_delta, delta_ino) ino (delete (in_base, info.underlying_ino) o.reverse_map);
}

unfoldable pub promote_to_delta : Bytes → ℕ → Overlay → Overlay
promote_to_delta path delta_ino o = elim (select path o.path_map) [
  | none ↦ o
  | some ino ↦ elim (select ino o.inode_map) [
    | none ↦ o
    | some info ↦ elim info.layer [ in_delta ↦ o | in_base ↦ promoted ino info delta_ino o ]
  ]
]

-- `OverlayFS::new` on a delta whose database has these two tables
unfoldable pub new_overlay : Fs → List (Bytes × ℤ) → List (ℕ × ℕ) → Overlay
new_overlay delta fs_whiteout fs_origin = record {
  delta = delta;
  inode_map = (root_ino, record { layer = in_delta; underlying_ino = 1; path = root }) ∷ [];
  reverse_map = ((in_delta, 1), root_ino) ∷ [];
  path_map = (root, root_ino) ∷ [];
  next_ino = 2;
  whiteouts = [];
  origin_map = [];
  fs_whiteout = fs_whiteout;
  fs_origin = fs_origin;
}

unfoldable pub load_whiteouts : List (Bytes × ℤ) → List Bytes → List Bytes
load_whiteouts [] ws = ws
load_whiteouts ((path, at) ∷ rows) ws = load_whiteouts rows (path ∷ ws)

unfoldable pub load_origins : List (ℕ × ℕ) → List (ℕ × ℕ) → List (ℕ × ℕ)
load_origins [] m = m
load_origins ((d, b) ∷ rows) m = load_origins rows (replace d b m)

unfoldable pub load : Overlay → Overlay
load o = record o {
  whiteouts = load_whiteouts o.fs_whiteout o.whiteouts;
  origin_map = load_origins o.fs_origin o.origin_map;
}
