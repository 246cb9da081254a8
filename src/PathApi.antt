-- ===== src/PathApi.antt =====
-- The methods of `impl AgentFS` that take a path, of sdk/rust/src/filesystem/agentfs.rs: the state
-- they thread, the resolution of a path through the LRU cache, and the parent of a path. The cache
-- is the crate's, taken as a parameter. A method that fails keeps what it did before.
pub mod Walk
pub mod Stat
pub mod Make
pub mod Remove
pub mod Contents
pub mod Listing
use airyfs.Prelude.{
  ℕ, Option, none, some, List, [], ◌∷◌, length, nat_beq, nat_eq, entry_eq, if◌then◌else◌,
}
use airyfs.Prelude.Table.{select}
use airyfs.Mode
use airyfs.Mode.{FsError, not_found, root_operation, Result}
use airyfs.Db.{Bytes, Db, root_ino}
use airyfs.Fs.{Fs, Entry, CacheCall, get, insert, remove, lookup_child}
use airyfs.Fs.Cache.{Lru}
use airyfs.PathName.{slash, root, is_empty, join, without_last, normalize_path, split_path}

-- how a method ends, with the state that it leaves
pub data Outcome (A : Type 0) : Type 0 where
  returns : A → Fs → Outcome A
  fails : FsError → Fs → Outcome A

abbrev pub PathOp : Type 0 → Type 0
PathOp A = Fs → Outcome A

-- `?`
infixl 5 ◌>>=◌
abbrev pub ◌>>=◌ : {A B : Type 0} → PathOp A → (A → PathOp B) → PathOp B
◌>>=◌ m rest fs = elim (m fs) [ returns a fs' ↦ rest a fs' | fails e fs' ↦ fails e fs' ]

infixl 5 ◌>>◌
abbrev pub ◌>>◌ : {B : Type 0} → PathOp (Unit {0}) → PathOp B → PathOp B
m >> rest = m >>= λ _. rest

abbrev pub done : {A : Type 0} → A → PathOp A
done a fs = returns a fs

abbrev pub refuse : {A : Type 0} → FsError → PathOp A
refuse e fs = fails e fs

abbrev pub from_result : {A : Type 0} → Result A → PathOp A
from_result (Mode.ok a) fs = returns a fs
from_result (Mode.err e) fs = fails e fs

-- statements that read, and that change the tables
abbrev pub query : {A : Type 0} → (Db → Result A) → PathOp A
query q fs = from_result (q fs.db) fs

abbrev pub execute : (Db → Db) → PathOp (Unit {0})
execute change fs = returns tt (record fs { db = change fs.db })

abbrev pub call : CacheCall → PathOp (Unit {0})
call c fs = returns tt (record fs { cache = c ∷ fs.cache })

-- `.ok_or(…)?` on what a step returns
abbrev pub required : {A : Type 0} → FsError → Option A → PathOp A
required e none fs = fails e fs
required e (some a) fs = returns a fs

abbrev pub refuse_if_some : {A : Type 0} → FsError → Option A → PathOp (Unit {0})
refuse_if_some e none fs = returns tt fs
refuse_if_some e (some a) fs = fails e fs

module _ (lru : Lru) where
  -- the loop of `resolve_path_with_conn`: the cache is asked before the table, and told what the
  -- table answered
  unfoldable pub resolve_from : List Bytes → ℕ → PathOp (Option ℕ)
  resolve_from [] ino fs = returns (some ino) fs
  resolve_from (name ∷ rest) ino fs =
      let k : Entry = (ino, name) in
      let asked : Fs = record fs { cache = get k ∷ fs.cache } in
      elim (lru.hits fs.cache k) [
        | some child ↦ resolve_from rest child asked
        | none ↦ elim (lookup_child fs.db ino name) [
          | Mode.err e ↦ fails e asked
          | Mode.ok found ↦ elim found [
            | none ↦ returns none asked
            | some child ↦
                resolve_from rest child (record asked { cache = insert k child ∷ asked.cache })
          ]
        ]
      ]

  -- `resolve_path`
  unfoldable pub resolve_path : Bytes → PathOp (Option ℕ)
  resolve_path path = resolve_from (split_path path) root_ino

-- `components[..components.len() - 1]` put together again
unfoldable pub parent_path : List Bytes → Bytes
parent_path components =
    if nat_beq (length components) 1 then root else slash ∷ join (without_last components)

-- `components.last().unwrap()`: the methods have returned before where there is none
unfoldable pub last_name : List Bytes → Bytes
last_name [] = []
last_name (w ∷ ws) = elim ws [ [] ↦ w | v ∷ vs ↦ last_name ws ]

-- `if components.is_empty() { return Err(RootOperation) }`
abbrev pub not_root : List Bytes → PathOp (Unit {0})
not_root [] fs = fails root_operation fs
not_root (w ∷ ws) fs = returns tt fs

-- the components of the path that a method was given: normalised, and again by `split_path`
unfoldable pub path_components : Bytes → List Bytes
path_components path = split_path (normalize_path path)

unfoldable pub resolve_parent : Lru → List Bytes → PathOp ℕ
resolve_parent lru components =
    resolve_path lru (parent_path components) >>= λ found. required not_found found
