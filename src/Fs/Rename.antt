-- ===== src/Fs/Rename.antt =====
-- `rename` keeps the namespace well formed.
pub mod Target
pub mod Rows
use mathlib.Core.Bool.{false≢true}
use mathlib.Core.Path.{subst}
use airyfs.Prelude.{
  ℕ, ◌^◌, ◌<◌, ◌≡◌, ◌≢◌, refl, sym, ap, ◌∙◌, Bool, true, false, none, some, Option, Option-cases,
  Bool-cases, inl, inr, List, arith, nat_beq, nat_eq, entry_eq, entry_beq, entry_beq_iff,
}
use airyfs.Prelude.Int.{inc, dec}
use airyfs.Prelude.Table.{
  select, update, delete, select-update_ne, select-update_self, select-delete_where,
  select_of_count-zero,
}
use airyfs.Mode.{Stamp, Stats, Result-cases, ok, is_dir_mode, is_directory}
use airyfs.Db.{Bytes, Inode, Db, update_inode, build_stats}
use airyfs.Fs.{Fs, Entry, getattr, touch, is_dir_row, cached_as, uncached, with_db}
use airyfs.Fs.Delete.{drop_if_unlinked, child_count}
use airyfs.Fs.Move.{rename, replace_target, move_entry, rekey}
use airyfs.Fs.WellFormed.{
  IsWellFormed, Keeps, IsDir, row_at, entry_at, link_count, lookup_child-entry_at, Keeps-dir,
}
use airyfs.Fs.WellFormed.Move.{IsWellFormed-keep, IsWellFormed-move}
use airyfs.Fs.Drop.{
  Keeps-refl, Keeps-update, Keeps-trans, drop_if_unlinked-others, drop_if_unlinked-here,
  drop_if_unlinked-rest, dropped-IsWellFormed,
}
use airyfs.Fs.Rename.Target.{is_directory-build_stats, replace_target-Cleared}
use airyfs.Fs.Rename.Rows.{move_entry-IsWellFormed}

-- `rename`, where it succeeds, keeps the namespace well formed.
-- What a `rename` that succeeds has done.
pub record Renamed (now_dst now : Stamp) (fs fs' : Fs) (old new : Entry) : Type 0 where
  pub ino : ℕ
  pub row : Inode
  pub cleared : Db
  pub entry : entry_at fs.db old ≡ some ino
  pub was : row_at fs.db ino ≡ some row
  pub replaced :
      replace_target now_dst fs.db (build_stats ino row) new.0 new.1 (entry_at fs.db new)
      ≡ ok cleared
  pub result :
      fs'
      ≡ cached_as new ino (
          uncached new
            (uncached old (with_db fs (move_entry now cleared (build_stats ino row) old new))))

module _ (now_dst now : Stamp) (fs fs' : Fs) (old_parent new_parent : ℕ) (old_name new_name : Bytes)
    (h : IsWellFormed fs.db) where
  pub rename-Renamed :
      rename now_dst now fs old_parent old_name new_parent new_name ≡ ok fs'
      → Renamed now_dst now fs fs' (old_parent, old_name) (new_parent, new_name)
  unfolding rename getattr
  rename-Renamed e =
      let seen = lookup_child-entry_at fs.db old_parent old_name h.distinct in
      let seen' = lookup_child-entry_at fs.db new_parent new_name h.distinct in
      elim (Option-cases (entry_at fs.db (old_parent, old_name))) [
        | inl absent ↦ absurd (ground arith)
        | inr (ino, entry) ↦ elim (Option-cases (row_at fs.db ino)) [
          | inl gone ↦ absurd (h.targets (old_parent, old_name) ino entry gone)
          | inr (r, was) ↦
              elim (Result-cases (
                replace_target now_dst fs.db (build_stats ino r) new_parent new_name
                  (entry_at fs.db (new_parent, new_name)))) [
                    | inl (x, failed) ↦ absurd (ground arith)
                    | inr (db', cleared) ↦ record {
                      ino = ino;
                      row = r;
                      cleared = db';
                      entry = entry;
                      was = was;
                      replaced = cleared;
                      result = ground arith;
                    }
                  ]
        ]
      ]

module _ (now_dst now : Stamp) (fs fs' : Fs) (old_parent new_parent : ℕ) (old_name new_name : Bytes)
    (h : IsWellFormed fs.db) (small : (ino : ℕ) → link_count fs.db ino < 2 ^ 32)
    (to : IsDir fs.db new_parent) where
  -- If the namespace is well formed, no inode has 2^32 names and the new parent is a directory,
  -- then the namespace is well formed after every `rename` that succeeds, whether the
  -- destination exists, is replaced, or is the source itself.
  pub rename-IsWellFormed :
      rename now_dst now fs old_parent old_name new_parent new_name ≡ ok fs' → IsWellFormed fs'.db
  rename-IsWellFormed e =
      let old : Entry = (old_parent, old_name) in
      let new : Entry = (new_parent, new_name) in
      let done = rename-Renamed now_dst now fs fs' old_parent new_parent old_name new_name h e in
      let src : Stats = build_stats done.ino done.row in
      let cleared =
        replace_target-Cleared now_dst fs.db src new_parent new_name h small (entry_at fs.db new)
          done.cleared refl done.replaced in
      rw done.result (
        move_entry-IsWellFormed now done.cleared src old new (cleared.dirs old done.ino done.entry)
          (cleared.dir to) cleared.formed cleared.free)
