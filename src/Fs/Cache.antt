-- ===== src/Fs/Cache.antt =====
-- What the LRU cache of directory entries may answer, and when its answers are those of the table.
pub mod Calls
pub mod Ops
pub mod Changes
use mathlib.Core.Bool.{false≢true}
use mathlib.Core.Path.{subst}
use native.Mathlib.Decide.{ℕ_discrete}
use airyfs.Prelude.{
  ℕ, zero, suc, ◌+◌, ◌-◌, ◌*◌, ◌/◌, ◌%◌, ◌^◌, ◌≤◌, ◌<◌, min, max, ◌≡◌, ◌≢◌, ◌⊎◌, ◌↔◌, refl, sym, ap,
  ◌∙◌, Bool, true, false, not, ◌&&◌, ◌||◌, Option, none, some, Option-cases, Bool-cases, inl, inr,
  List, [], ◌∷◌, ◌++◌, map, arith, length, take, drop, replicate, get_or, ltb, leb, nat_beq, nat_eq,
  entry_eq, pair_eq, bytes_eq, entry_beq, entry_beq_iff, bytes_beq, bytes_beq_iff, if◌then◌else◌,
  ◌==◌,
}
use airyfs.Prelude.Int.{ℤ, pos, negsuc, inc, dec, dec-pos, as_u32}
use airyfs.Prelude.Table.{
  select, select_all, update, delete, delete_where, replace, select-update, select-update_ne,
  select-update_self, select-delete_where, select_of_count-zero, count_where, count-delete,
  Distinct, Distinct-delete_where, count-zero_of_select, select_all-Distinct,
}
use airyfs.Mode.{
  FsError, Stamp, TimeChange, Stats, Result, Result-cases, ok, err, ◌>>=◌, ◌>>◌, fail_if,
  is_dir_mode, is_directory, max_name_len, file_type, permissions, s_ifdir, s_ifreg, s_iflnk,
  not_found, already_exists, not_empty, not_a_directory, is_a_directory, not_a_symlink,
  invalid_path, root_operation, symlink_loop, invalid_rename, name_too_long,
}
use airyfs.Db.{Bytes, Inode, Db, root_ino, update_inode, build_stats}
use airyfs.File.{FileHandle}
use airyfs.Fs.{
  Fs, Entry, CacheCall, get, insert, remove, lookup_child, lookup, found_child, getattr,
  get_link_count, touch, is_dir_row, dot_dot, cached_as, uncached, with_db, or_else, fail_if_some,
  check_name,
}
use airyfs.Fs.Make.{
  check_new, create_file, created_file, mkdir, made_dir, mknod, made_node, symlink, made_symlink,
  link, linked_node, new_inode, new_stats, insert_inode, insert_dentry,
}
use airyfs.Fs.Delete.{
  unlink, unlinked, drop_inode, drop_if_unlinked, rmdir, removed_dir, drop_dir_if_unlinked,
  child_count,
}
use airyfs.Fs.Move.{rename, replace_target, move_entry, rekey}
use airyfs.Fs.Modify.{chmod, chown, utimens, set_owner, both_none, both_omit, resolve}
use airyfs.Fs.WellFormed.{
  IsWellFormed, IsDir, Keeps, Keeps-dir, row_at, entry_at, link_count, names_inode,
  lookup_child-entry_at, check_new_ok, dir_exists,
}
use airyfs.Fs.Drop.{
  Keeps-refl, Keeps-update, Keeps-trans, drop_if_unlinked-rest, drop_dir_if_unlinked-rest,
  drop_if_unlinked-here, drop_if_unlinked-others,
}

-- the value of the last `insert` of a key that no `remove` has followed
unfoldable pub latest : List CacheCall → Entry → Option ℕ
latest [] k = none
latest (get j ∷ log) k = latest log k
latest (insert j v ∷ log) k = if j == k then some v else latest log k
latest (remove j ∷ log) k = if j == k then none else latest log k

-- The cache of the crate lru: its answer depends on the calls before. It may have dropped an entry,
-- and otherwise answers with the value that was put last.
pub record Lru : Type 0 where
  pub hits : List CacheCall → Entry → Option ℕ
  pub hits_latest :
      (log : List CacheCall) (k : Entry) (v : ℕ) → hits log k ≡ some v → latest log k ≡ some v

-- What the cache may hold is in the table.
abbrev pub IsCoherent : Fs → Type 0
IsCoherent fs = (k : Entry) (v : ℕ) → latest fs.cache k ≡ some v → entry_at fs.db k ≡ some v

-- One request later: the cache is coherent, and there is at most one entry more.
pub record Advances (fs fs' : Fs) : Type 0 where
  pub coherent : IsCoherent fs'
  pub grown : length fs'.db.dentries ≤ length fs.db.dentries + 1
