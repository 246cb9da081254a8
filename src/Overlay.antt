-- ===== src/Overlay.antt =====
-- sdk/rust/src/filesystem/overlayfs.rs: the state of `OverlayFS`, and how its methods go on.
-- The base layer is a parameter: it is read only, and answers a question always in the same way.
-- A request reads the clock once, its argument `now`. A request that fails keeps what it did before.
pub mod Maps
pub mod CopyUp
pub mod Read
pub mod Change
pub mod Sound
pub mod Moved
pub mod Safe
pub mod Requests
pub mod Hidden
pub mod Quiet
pub mod Ends
pub mod Removed
pub mod Copied
pub mod Listed
pub mod Layers
use airyfs.Prelude.{
  ℕ, ◌+◌, ◌≡◌, Bool, true, false, not, ◌&&◌, ◌||◌, Option, none, some, List, [], ◌∷◌, ◌++◌, ltb,
  nat_beq, nat_eq, bytes_beq, bytes_eq, Key, ◌↔◌, length, drop, if◌then◌else◌, arith,
}
use airyfs.Prelude.Int.{ℤ}
use airyfs.Prelude.Table.{select, update, delete, replace}
use airyfs.Mode
use airyfs.Mode.{FsError, not_found, Result, Stamp, Stats}
use airyfs.Db.{Bytes, Db, root_ino}
use airyfs.Fs.{Fs}
use airyfs.PathName.{slash, root, split, non_empty}
use airyfs.PathName.Pieces.{slash_free}
use airyfs.PathApi.Remove.{starts_with}
use airyfs.Mounts.{trim_start}

-- `Arc<dyn FileSystem>`, for what the overlay asks of it; an open file is its `pread`
pub record Base : Type 0 where
  pub lookup : ℕ → Bytes → Result (Option Stats)
  pub getattr : ℕ → Result (Option Stats)
  pub readlink : ℕ → Result (Option Bytes)
  pub readdir : ℕ → Result (Option (List Bytes))
  pub readdir_plus : ℕ → Result (Option (List (Bytes × Stats)))
  pub open_file : ℕ → Result (ℕ → ℕ → Result Bytes)

pub data Layer : Type 0 where
  in_delta in_base : Layer

abbrev pub layer_beq : Layer → Layer → Bool
layer_beq in_delta in_delta = true
layer_beq in_base in_base = true
layer_beq _ _ = false

-- a key of `reverse_map`
abbrev pub Place : Type 0
Place = Layer × ℕ

abbrev pub place_beq : Place → Place → Bool
place_beq a b = layer_beq a.0 b.0 && nat_beq a.1 b.1

pub record InodeInfo : Type 0 where
  pub layer : Layer
  pub underlying_ino : ℕ
  pub path : Bytes

-- The maps and sets in memory, and the tables fs_whiteout and fs_origin of the delta's database.
pub record Overlay : Type 0 where
  pub delta : Fs
  pub inode_map : List (ℕ × InodeInfo)
  pub reverse_map : List (Place × ℕ)
  pub path_map : List (Bytes × ℕ)
  pub next_ino : ℕ
  pub whiteouts : List Bytes
  pub origin_map : List (ℕ × ℕ)
  pub fs_whiteout : List (Bytes × ℤ)
  pub fs_origin : List (ℕ × ℕ)

pub data Outcome (A : Type 0) : Type 0 where
  returns : A → Overlay → Outcome A
  fails : FsError → Overlay → Outcome A

abbrev pub Op : Type 0 → Type 0
Op A = Overlay → Outcome A

-- `?`
infixl 5 ◌>>=◌
abbrev pub ◌>>=◌ : {A B : Type 0} → Op A → (A → Op B) → Op B
◌>>=◌ m rest o = elim (m o) [ returns a o' ↦ rest a o' | fails e o' ↦ fails e o' ]

infixl 5 ◌>>◌
abbrev pub ◌>>◌ : {B : Type 0} → Op (Unit {0}) → Op B → Op B
m >> rest = m >>= λ _. rest

abbrev pub done : {A : Type 0} → A → Op A
done a o = returns a o

abbrev pub refuse : {A : Type 0} → FsError → Op A
refuse e o = fails e o

abbrev pub from_result : {A : Type 0} → Result A → Op A
from_result (Mode.ok a) o = returns a o
from_result (Mode.err e) o = fails e o

abbrev pub required : {A : Type 0} → FsError → Option A → Op A
required e none o = fails e o
required e (some a) o = returns a o

abbrev pub gets : {A : Type 0} → (Overlay → A) → Op A
gets f o = returns (f o) o

abbrev pub modify : (Overlay → Overlay) → Op (Unit {0})
modify f o = returns tt (f o)

-- a change of the maps that gives a value
abbrev pub mapped : {A : Type 0} → (Overlay → A × Overlay) → Op A
mapped f o = let (a, o') = f o in returns a o'

-- a method of the delta; one that fails leaves it
abbrev pub in_delta_layer : {A : Type 0} → (Fs → Result (A × Fs)) → Op A
in_delta_layer f o = elim (f o.delta) [
  | Mode.ok (a, fs) ↦ returns a (record o { delta = fs })
  | Mode.err e ↦ fails e o
]

abbrev pub changes_delta : (Fs → Result Fs) → Op (Unit {0})
changes_delta f o = elim (f o.delta) [
  | Mode.ok fs ↦ returns tt (record o { delta = fs })
  | Mode.err e ↦ fails e o
]
