-- ===== src/Overlay/Layers.antt =====
-- What `readdir` of the overlay lists, by the whiteouts, the table of the delta and the base.
use airyfs.Prelude.{ℕ, ◌≡◌, true, none, some, entry_eq, List, [], ◌∷◌, nat_eq}
use airyfs.Mode.{ok, Stats}
use airyfs.PathName.Pieces.{is_named, all_of}
use airyfs.Mounts.Inside.{absolute}
use airyfs.Overlay.Maps.{contains}
use airyfs.Db.{Bytes}
use airyfs.Overlay.{Base, Overlay}
use airyfs.Overlay.Read.{readdir}

-- The base has these names in the directory to which these components lead from an inode.
pub data BaseLists (base : Base) : ℕ → List Bytes → List Bytes → Type 0 where
  directory :
      (ino : ℕ) (below : List Bytes)
      → base.readdir ino ≡ ok (some below)
      → BaseLists base ino [] below
  no_directory : (ino : ℕ) → base.readdir ino ≡ ok none → BaseLists base ino [] []
  no_entry :
      (ino : ℕ) (c : Bytes) (cs : List Bytes)
      → base.lookup ino c ≡ ok none
      → BaseLists base ino (c ∷ cs) []
  down :
      (ino : ℕ) (c : Bytes) (cs below : List Bytes) (s : Stats)
      → base.lookup ino c ≡ ok (some s)
      → BaseLists base s.ino cs below
      → BaseLists base ino (c ∷ cs) below

-- a set of paths with named components
abbrev pub IsPaths : List Bytes → Type 0
IsPaths hidden =
    (p : Bytes)
    → contains hidden p ≡ true
    → (us : List Bytes) × (p ≡ absolute us) × (all_of is_named us ≡ true)
