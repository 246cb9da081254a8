-- ===== src/PathApi/Stat/Links.antt =====
-- Symbolic links in a row, as the table has them.
use airyfs.Prelude.{
  ℕ, suc, ◌≡◌, refl, false, Option, none, some, Bool-cases, inl, inr, List, [], ◌∷◌, nat_beq,
  nat_eq, entry_eq, pair_eq, bytes_eq, if◌then◌else◌,
}
use airyfs.Prelude.Table.{select}
use airyfs.Mode.{Stats, file_type, s_iflnk, is_symlink}
use airyfs.Db.{Bytes, Inode, Db, root_ino}
use airyfs.Fs.{getattr}
use airyfs.Fs.WellFormed.{row_at}
use airyfs.PathName.{
  slash, root, normalize_path, split_path, resolved, join, resolve_dots, non_empty, split, trim_end,
}
use airyfs.PathName.Clean.{normalize_path-idempotent}
use airyfs.PathApi.Walk.{walk}
use airyfs.PathApi.Stat.{next_path}

from_pieces :
    (ws : List Bytes)
    → (rest : Bytes) × ((elim ws as (λ _. Bytes) [ [] ↦ root | v ∷ vs ↦ slash ∷ join (v ∷ vs) ])
        ≡ slash ∷ rest)
from_pieces [] = ([], refl)
from_pieces (w ∷ ws) = (join (w ∷ ws), refl)

resolved-slash : (path : Bytes) → (rest : Bytes) × (resolved path ≡ slash ∷ rest)
unfolding resolved
resolved-slash path = from_pieces (resolve_dots [] (non_empty (split path)))

-- Every normalised path begins at the root.
pub normalize_path-slash : (path : Bytes) → (rest : Bytes) × (normalize_path path ≡ slash ∷ rest)
unfolding normalize_path
normalize_path-slash path = begins (trim_end path)
  where
    begins :
        (cs : Bytes)
        → (rest : Bytes) × ((elim cs as (λ _. Bytes) [
          | [] ↦ resolved root
          | d ∷ ds ↦ if nat_beq d slash then resolved (d ∷ ds) else slash ∷ d ∷ ds
        ])
            ≡ slash ∷ rest)
    begins [] = resolved-slash root
    begins (c ∷ cs) = elim (Bool-cases (nat_beq c slash)) [
      | inl slashed ↦ rw slashed (resolved-slash (c ∷ cs))
      | inr bare ↦ (c ∷ cs, rw bare refl)
    ]

-- A normalised path has the same components when it is normalised again.
pub split_path-normalize_path :
    (path : Bytes)
    → split_path (normalize_path (normalize_path path)) ≡ split_path (normalize_path path)
unfolding split_path
split_path-normalize_path path =
    let (rest, is) = normalize_path-slash path in rw (is, normalize_path-idempotent rest) refl

-- the inode that a path names, itself, and its attributes
abbrev pub named_ino : Db → Bytes → Option ℕ
named_ino db path = walk db (split_path path) root_ino

unfoldable pub attributes : Db → Bytes → Option Stats
attributes db path = elim (named_ino db path) [ none ↦ none | some ino ↦ getattr db ino ]

-- what `lstat` shows is not a symbolic link
abbrev pub Ends : Option Stats → Type 0
Ends none = Unit
Ends (some stats) = is_symlink stats ≡ false

-- So many symbolic links lead from one path to the next.
pub data Links (db : Db) : Bytes → ℕ → Bytes → Type 0 where
  here : (path q : Bytes) (n : ℕ) → n ≡ 0 → path ≡ q → Links db path n q
  hop :
      (path q : Bytes) (n ino : ℕ) (row : Inode) (target : Bytes)
      → named_ino db path ≡ some ino
      → row_at db ino ≡ some row
      → file_type row.mode ≡ s_iflnk
      → select ino db.symlinks ≡ some target
      → Links db (next_path path target) n q
      → Links db path (suc n) q
