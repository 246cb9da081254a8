-- ===== src/PathApi/Listing.antt =====
-- `readdir`, `readdir_plus`, `statfs` and `chown` of `impl AgentFS`, and the checks that the trait
-- puts before the first two.
pub mod Sorted
use airyfs.Prelude.{
  ℕ, ◌+◌, ◌%◌, ◌^◌, ltb, Bool, true, false, ◌&&◌, ◌||◌, none, some, Option, List, [], ◌∷◌, length,
  map, nat_beq, nat_eq, if◌then◌else◌,
}
use airyfs.Prelude.Table.{select}
use airyfs.Mode.{not_a_directory, is_dir_mode, Result, ok, err, Stats}
use airyfs.Db.{Bytes, Inode, Db, build_stats, update_inode}
use airyfs.Fs.{Fs, Entry, with_db}
use airyfs.Fs.Modify.{set_owner, both_none}
use airyfs.PathName.{is_empty}

-- the order of the column `name`: bytes, a prefix first
unfoldable pub name_before : Bytes → Bytes → Bool
name_before [] [] = false
name_before [] (c ∷ cs) = true
name_before (b ∷ bs) [] = false
name_before (b ∷ bs) (c ∷ cs) = ltb b c || nat_beq b c && name_before bs cs

-- ORDER BY name
unfoldable pub insert_name {ℓ} : {A : Type ℓ} → Bytes → A → List (Bytes × A) → List (Bytes × A)
insert_name name a [] = (name, a) ∷ []
insert_name name a ((n, b) ∷ rows) =
    if name_before name n then (name, a) ∷ (n, b) ∷ rows else (n, b) ∷ insert_name name a rows

-- SELECT name, ino FROM fs_dentry WHERE parent_ino = ? ORDER BY name, less the rows with no name
unfoldable pub named_rows : ℕ → List (Entry × ℕ) → List (Bytes × ℕ)
named_rows parent [] = []
named_rows parent (((p, name), ino) ∷ m) =
    let rest = named_rows parent m in
    if nat_beq p parent then if is_empty name then rest else insert_name name ino rest else rest

unfoldable pub readdir : Db → ℕ → List Bytes
readdir db ino = map (λ (r : Bytes × ℕ). r.0) (named_rows ino db.dentries)

-- JOIN fs_inode i ON d.ino = i.ino: an entry whose inode is missing is left out
unfoldable pub joined_rows : List (ℕ × Inode) → List (Bytes × ℕ) → List (Bytes × Stats)
joined_rows inodes [] = []
joined_rows inodes ((name, ino) ∷ rows) =
    let rest = joined_rows inodes rows in
    elim (select ino inodes) [ none ↦ rest | some row ↦ (name, build_stats ino row) ∷ rest ]

unfoldable pub readdir_plus : Db → ℕ → List (Bytes × Stats)
readdir_plus db ino = joined_rows db.inodes (named_rows ino db.dentries)

-- what the trait checks first
unfoldable pub if_directory : {A : Type 0} → Db → ℕ → A → Result (Option A)
if_directory db ino rows = elim (select ino db.inodes) [
  | none ↦ ok none
  | some row ↦ if is_dir_mode row.mode then ok (some rows) else err not_a_directory
]

unfoldable pub readdir_ino : Db → ℕ → Result (Option (List Bytes))
readdir_ino db ino = if_directory db ino (readdir db ino)

unfoldable pub readdir_plus_ino : Db → ℕ → Result (Option (List (Bytes × Stats)))
readdir_plus_ino db ino = if_directory db ino (readdir_plus db ino)

-- `FilesystemStats`
pub record FilesystemStats : Type 0 where
  pub inodes : ℕ
  pub bytes_used : ℕ

-- SELECT SUM(size) FROM fs_inode
unfoldable pub sum_sizes : List (ℕ × Inode) → ℕ
sum_sizes [] = 0
sum_sizes ((ino, row) ∷ m) = row.size + sum_sizes m

unfoldable pub statfs : Db → FilesystemStats
statfs db = record { inodes = length db.inodes; bytes_used = sum_sizes db.inodes }

-- `AgentFS::chown`: no change time, and nothing for a missing inode
unfoldable pub chown_ino : Fs → ℕ → Option ℕ → Option ℕ → Fs
chown_ino fs ino uid gid =
    if both_none uid gid then fs else with_db fs (update_inode ino (set_owner uid gid) fs.db)
