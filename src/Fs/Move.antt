-- ===== src/Fs/Move.antt =====
-- `rename` of sdk/rust/src/filesystem/agentfs.rs.
use airyfs.Prelude.{
  ℕ, not, ◌&&◌, Option, none, some, List, ◌∷◌, ltb, nat_beq, nat_eq, entry_eq, if◌then◌else◌,
}
use airyfs.Prelude.Int.{inc, dec}
use airyfs.Prelude.Table.{select, delete}
use airyfs.Mode.{
  not_found, not_empty, not_a_directory, is_a_directory, root_operation, Result, ok, ◌>>=◌, ◌>>◌,
  fail_if, Stamp, Stats, is_directory,
}
use airyfs.Db.{Bytes, Db, root_ino, update_inode}
use airyfs.Fs.{
  Entry, Fs, cached_as, check_name, getattr, lookup_child, or_else, touch, uncached, with_db,
}
use airyfs.Fs.Delete.{child_count, drop_if_unlinked}

-- the first half of `rename`: an entry at the destination is removed
unfoldable pub replace_target : Stamp → Db → Stats → ℕ → Bytes → Option ℕ → Result Db
replace_target now db src parent name none = ok db
replace_target now db src parent name (some dst) = do
  dst_stats ← or_else (getattr db dst) not_found
  fail_if (is_directory dst_stats && not (is_directory src)) is_a_directory
  fail_if (not (is_directory dst_stats) && is_directory src) not_a_directory
  fail_if (is_directory dst_stats && ltb 0 (child_count db dst)) not_empty
  let cut = record db { dentries = delete (parent, name) db.dentries }
  let counted = update_inode dst (λ r. record r { nlink = dec r.nlink; ctime = now }) cut
  ok (drop_if_unlinked dst counted)

-- UPDATE fs_dentry SET parent_ino = ?, name = ? WHERE parent_ino = ? AND name = ?: no other row has
-- the new key, for `replace_target` has removed it
unfoldable pub rekey : Entry → Entry → List (Entry × ℕ) → List (Entry × ℕ)
rekey old new m = elim (select old m) [ none ↦ m | some ino ↦ (new, ino) ∷ delete old m ]

-- the second half: the entry moves, and the counts of the parents follow
unfoldable pub move_entry : Stamp → Db → Stats → Entry → Entry → Db
move_entry now db src old new =
    let moved = record db { dentries = rekey old new db.dentries } in
    let across = not (nat_beq old.0 new.0) in
    let left = update_inode old.0 (λ r. record r { nlink = dec r.nlink }) moved in
    let recounted = update_inode new.0 (λ r. record r { nlink = inc r.nlink }) left in
    let counted = if is_directory src && across then recounted else moved in
    let stamped = update_inode src.ino (λ r. record r { ctime = now }) counted in
    let from = update_inode old.0 (touch now) stamped in
    if across then update_inode new.0 (touch now) from else from

-- `rename`; `now_dst` is the clock when the destination is replaced. An error in the transaction
-- rolls the database back.
unfoldable pub rename : Stamp → Stamp → Fs → ℕ → Bytes → ℕ → Bytes → Result Fs
rename now_dst now fs old_parent old_name new_parent new_name = do
  check_name new_name
  found ← lookup_child fs.db old_parent old_name
  src_ino ← or_else found not_found
  fail_if (nat_beq src_ino root_ino) root_operation
  src ← or_else (getattr fs.db src_ino) not_found
  target ← lookup_child fs.db new_parent new_name
  cleared ← replace_target now_dst fs.db src new_parent new_name target
  let db = move_entry now cleared src (old_parent, old_name) (new_parent, new_name)
  ok (
      cached_as (new_parent, new_name) src_ino
        (uncached (new_parent, new_name) (uncached (old_parent, old_name) (with_db fs db))))
