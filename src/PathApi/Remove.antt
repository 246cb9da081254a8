-- ===== src/PathApi/Remove.antt =====
-- `remove` and `rename` of `impl AgentFS`, by path.
pub mod Links
use airyfs.Prelude.{
  ℕ, Bool, true, false, not, ◌&&◌, ◌||◌, ◌++◌, none, some, Option, List, [], ◌∷◌, ltb, nat_beq,
  bytes_beq, nat_eq, entry_eq, if◌then◌else◌,
}
use airyfs.Prelude.Int.{dec}
use airyfs.Prelude.Table.{delete}
use airyfs.Mode
use airyfs.Mode.{
  FsError, not_found, not_empty, not_a_directory, is_a_directory, invalid_path, root_operation,
  invalid_rename, fail_if, Stamp, Stats, is_directory,
}
use airyfs.Db.{Bytes, Db, root_ino, update_inode}
use airyfs.Fs.{Fs, Entry, insert, remove}
use airyfs.Fs.Delete.{drop_if_unlinked, child_count}
use airyfs.Fs.Move.{move_entry}
use airyfs.Fs.Cache.{Lru}
use airyfs.PathName.{slash, root, normalize_path, split_path}
use airyfs.PathApi.{
  PathOp, returns, fails, ◌>>=◌, ◌>>◌, done, query, execute, call, required, resolve_path, not_root,
  path_components, last_name, resolve_parent,
}
use airyfs.PathApi.Stat.{stat_with_conn}

-- `if … { return Err(…) }`
abbrev pub refuse_if : Bool → FsError → PathOp (Unit {0})
refuse_if test e = query (λ _. fail_if test e)

-- an error rolls the tables back, and leaves the cache
abbrev pub transaction : {A : Type 0} → PathOp A → PathOp A
transaction m fs = elim (m fs) [
  | returns a fs' ↦ returns a fs'
  | fails e fs' ↦ fails e (record fs' { db = fs.db })
]

abbrev pub cut_entry : Entry → Db → Db
cut_entry k db = record db { dentries = delete k db.dentries }

-- a removed directory's `..`
abbrev pub leave_parent : Stamp → Bool → ℕ → Db → Db
leave_parent now is_dir parent db =
    if is_dir
    then update_inode parent (λ r. record r { nlink = dec r.nlink; ctime = now; mtime = now }) db
    else db

-- one link of an inode less, and the inode with its last
unfoldable pub drop_link : ℕ → Db → Db
drop_link ino db =
    drop_if_unlinked ino (update_inode ino (λ r. record r { nlink = dec r.nlink }) db)

-- the tables after `remove`
unfoldable pub removed_path : Stamp → ℕ → Bool → Entry → Db → Db
removed_path now ino is_dir k db =
    let counted = update_inode ino (λ r. record r { nlink = dec r.nlink }) (cut_entry k db) in
    drop_if_unlinked ino (leave_parent now is_dir k.0 counted)

-- `to_path.starts_with(&from_prefix)`
unfoldable pub starts_with : Bytes → Bytes → Bool
starts_with [] bs = true
starts_with (p ∷ ps) [] = false
starts_with (p ∷ ps) (b ∷ bs) = nat_beq p b && starts_with ps bs

module _ (lru : Lru) where
  -- the kind is that of what a link leads to
  unfoldable pub remove_path : Stamp → Bytes → PathOp (Unit {0})
  remove_path now given = do
    let path = normalize_path given
    let components = split_path path
    not_root components
    found ← resolve_path lru path
    ino ← required not_found found
    refuse_if (nat_beq ino root_ino) root_operation
    shown ← stat_with_conn lru path
    stats ← required not_found shown
    query (λ db. fail_if (ltb 0 (child_count db ino)) not_empty)
    parent ← resolve_parent lru components
    let k : Entry = (parent, last_name components)
    execute (removed_path now ino (is_directory stats) k)
    call (remove k)

  -- the first half of `rename`: what the destination names goes
  unfoldable pub replace_path : Bytes → Entry → Stats → PathOp (Unit {0})
  replace_path to_path new src = resolve_path lru to_path >>= λ found. elim found [
    | none ↦ done tt
    | some dst ↦ (do
      shown ← stat_with_conn lru to_path
      dst_stats ← required not_found shown
      refuse_if (is_directory dst_stats && not (is_directory src)) is_a_directory
      refuse_if (not (is_directory dst_stats) && is_directory src) not_a_directory
      query (λ db. fail_if (is_directory dst_stats && ltb 0 (child_count db dst)) not_empty)
      execute (λ db. drop_link dst (cut_entry new db)))
  ]

  unfoldable pub rename_path : Stamp → Bytes → Bytes → PathOp (Unit {0})
  rename_path now from to = do
    let from_path = normalize_path from
    let to_path = normalize_path to
    refuse_if (bytes_beq from_path root) root_operation
    found ← resolve_path lru from_path
    src_ino ← required not_found found
    shown ← stat_with_conn lru from_path
    src ← required not_found shown
    let inside = starts_with (from_path ++ (slash ∷ [])) to_path || bytes_beq to_path from_path
    refuse_if (is_directory src && inside) invalid_rename
    let from_components = split_path from_path
    refuse_if (elim from_components [ [] ↦ true | _ ∷ _ ↦ false ]) invalid_path
    src_parent ← resolve_parent lru from_components
    let to_components = split_path to_path
    not_root to_components
    dst_parent ← resolve_parent lru to_components
    let old : Entry = (src_parent, last_name from_components)
    let new : Entry = (dst_parent, last_name to_components)
    transaction (
        replace_path to_path new src
        >> execute (λ db. move_entry now db (record src { ino = src_ino }) old new))
    call (remove old)
    call (remove new)
    call (insert new src_ino)
