-- ===== src/PathApi/Make/Parent.antt =====
-- The parent of a path, its last name, and the walk to both.
use airyfs.Prelude.{
  ℕ, ◌≡◌, refl, ◌∙◌, true, false, Option, none, some, Option-cases, inl, inr, List, [], ◌∷◌, arith,
  length, nat_beq, nat_eq, entry_eq, pair_eq, bytes_eq,
}
use airyfs.Prelude.Table.{Distinct}
use airyfs.Mode.{ok}
use airyfs.Db.{Bytes, Db, root_ino}
use airyfs.Fs.{Fs}
use airyfs.Fs.WellFormed.{entry_at}
use airyfs.Fs.Cache.{Lru, IsCoherent}
use airyfs.PathName.{slash, join, split_path, without_last}
use airyfs.PathName.Pieces.{is_clean, all_of}
use airyfs.PathName.Clean.{components-join, split_path-components, split_path-clean}
use airyfs.PathApi.{resolve_parent, parent_path, last_name, path_components}
use airyfs.PathApi.Walk.{walk, Answers, resolve_path-walk}
use airyfs.PathApi.Stat.Links.{normalize_path-slash}

-- A path put together from components is cut into them again.
split_path-join : (ws : List Bytes) → all_of is_clean ws ≡ true → split_path (slash ∷ join ws) ≡ ws
split_path-join ws clean = split_path-components (join ws) ∙ components-join ws clean

without_last-clean :
    (ws : List Bytes) → all_of is_clean ws ≡ true → all_of is_clean (without_last ws) ≡ true
unfolding all_of without_last
without_last-clean [] h = refl
without_last-clean (w ∷ []) h = refl
without_last-clean (w ∷ v ∷ ws) h = ground (arith, without_last-clean (v ∷ ws))

split_path-parent_path :
    (w : Bytes) (ws : List Bytes)
    → all_of is_clean (w ∷ ws) ≡ true
    → split_path (parent_path (w ∷ ws)) ≡ without_last (w ∷ ws)
unfolding parent_path without_last join all_of
split_path-parent_path w [] h = split_path-join [] refl
split_path-parent_path w (v ∷ ws) h =
    let more : nat_beq (length (w ∷ v ∷ ws)) 1 ≡ false = ground arith in
    rw more (split_path-join (without_last (w ∷ v ∷ ws)) (without_last-clean (w ∷ v ∷ ws) h))

-- The components of every path are clean.
pub path_components-clean : (path : Bytes) → all_of is_clean (path_components path) ≡ true
unfolding path_components
path_components-clean path =
    let (rest, is) = normalize_path-slash path in rw is (split_path-clean rest)

-- the last step of a walk
pub walk-last :
    (db : Db) (w : Bytes) (ws : List Bytes) (ino : ℕ)
    → walk db (w ∷ ws) ino ≡ (elim (walk db (without_last (w ∷ ws)) ino) as (λ _. Option ℕ) [
      | none ↦ none
      | some parent ↦ entry_at db (parent, last_name (w ∷ ws))
    ])
unfolding walk without_last last_name
walk-last db w [] ino = ground arith
walk-last db w (v ∷ ws) ino = elim (Option-cases (entry_at db (ino, w))) [
  | inl absent ↦ ground arith
  | inr (child, entry) ↦ ground (arith, walk-last db v ws child)
]

module _ (lru : Lru) (fs : Fs) (w : Bytes) (ws : List Bytes)
    (clean : all_of is_clean (w ∷ ws) ≡ true) (d : Distinct fs.db.dentries)
    (c : IsCoherent fs) where
  pub resolve_parent-Answers :
      (parent : ℕ)
      → walk fs.db (without_last (w ∷ ws)) root_ino ≡ some parent
      → Answers (resolve_parent lru (w ∷ ws)) fs (ok parent)
  unfolding resolve_parent
  resolve_parent-Answers parent found =
      let up = resolve_path-walk lru (parent_path (w ∷ ws)) fs d c in
      record {
        after = up.after;
        result = ground (arith, up.result, split_path-parent_path w ws clean);
        tables = up.tables;
        chunking = up.chunking;
        coherent = up.coherent;
      }
