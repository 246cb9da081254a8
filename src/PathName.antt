-- ===== src/PathName.antt =====
-- `normalize_path` and `split_path` of sdk/rust/src/filesystem/agentfs.rs. A path is its bytes; the
-- source cuts it at `/` only, so its UTF-8 stays whole.
pub mod Pieces
pub mod Clean
use airyfs.Prelude.{
  ℕ, Bool, true, false, not, List, [], ◌∷◌, ◌++◌, nat_beq, bytes_beq, if◌then◌else◌,
}
use airyfs.Db.{Bytes}

abbrev pub slash : ℕ
slash = b'/'

abbrev pub dot : Bytes
dot = b'.' ∷ []

abbrev pub two_dots : Bytes
two_dots = b'.' ∷ b'.' ∷ []

abbrev pub root : Bytes
root = slash ∷ []

abbrev pub is_empty : Bytes → Bool
is_empty [] = true
is_empty (c ∷ cs) = false

-- `path.trim_end_matches('/')`
unfoldable pub trim_end : Bytes → Bytes
trim_end [] = []
trim_end (c ∷ cs) =
    let rest = trim_end cs in
    if is_empty rest then if nat_beq c slash then [] else c ∷ [] else c ∷ rest

abbrev pub put_front : ℕ → List Bytes → List Bytes
put_front c [] = (c ∷ []) ∷ []
put_front c (w ∷ ws) = (c ∷ w) ∷ ws

-- `.split('/')`: one piece more than there are slashes
unfoldable pub split : Bytes → List Bytes
split [] = [] ∷ []
split (c ∷ cs) = let rest = split cs in if nat_beq c slash then [] ∷ rest else put_front c rest

-- `.filter(|s| !s.is_empty())`
unfoldable pub non_empty : List Bytes → List Bytes
non_empty [] = []
non_empty (w ∷ ws) = let rest = non_empty ws in if is_empty w then rest else w ∷ rest

-- `Vec::pop`, for the vector that is left
unfoldable pub without_last : List Bytes → List Bytes
without_last [] = []
without_last (w ∷ ws) = elim ws [ [] ↦ [] | v ∷ vs ↦ w ∷ without_last ws ]

-- one component
unfoldable pub add_component : List Bytes → Bytes → List Bytes
add_component result c =
    if bytes_beq c dot
    then result
    else if bytes_beq c two_dots
    then without_last result
    else result ++ (c ∷ [])

-- `for component in components`
unfoldable pub resolve_dots : List Bytes → List Bytes → List Bytes
resolve_dots result [] = result
resolve_dots result (c ∷ cs) = resolve_dots (add_component result c) cs

-- `result.join("/")`
unfoldable pub join : List Bytes → Bytes
join [] = []
join (w ∷ ws) = elim ws [ [] ↦ w | v ∷ vs ↦ w ++ (slash ∷ join ws) ]

unfoldable pub resolved : Bytes → Bytes
resolved path = elim (resolve_dots [] (non_empty (split path))) [
  | [] ↦ root
  | w ∷ ws ↦ slash ∷ join (w ∷ ws)
]

-- a path that does not begin with `/` gets one, and its dots stay
unfoldable pub normalize_path : Bytes → Bytes
normalize_path path = elim (trim_end path) [
  | [] ↦ resolved root
  | c ∷ cs ↦ if nat_beq c slash then resolved (c ∷ cs) else slash ∷ c ∷ cs
]

unfoldable pub split_path : Bytes → List Bytes
split_path path =
    let normalized = normalize_path path in
    if bytes_beq normalized root then [] else non_empty (split normalized)
