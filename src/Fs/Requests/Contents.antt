-- ===== src/Fs/Requests/Contents.antt =====
-- `pwrite` and `truncate` of an open file change chunks and one row: the namespace stays well
-- formed and the cache coherent.
use airyfs.Prelude.{
  ℕ, zero, suc, ◌≡◌, refl, Bool-cases, inl, inr, [], ◌∷◌, arith, length, ltb, nat_eq, entry_eq,
  pair_eq, bytes_eq,
}
use airyfs.Mode.{Stamp}
use airyfs.Db.{Bytes, Inode, Db, update_inode}
use airyfs.File.{FileHandle, pwrite, write_loop, write_data_at_offset, truncate, truncate_chunks}
use airyfs.Fs.{Fs, with_db}
use airyfs.Fs.WellFormed.{IsWellFormed}
use airyfs.Fs.Drop.{Keeps-update}
use airyfs.Fs.WellFormed.Move.{IsWellFormed-keep}
use airyfs.Fs.Cache.{IsCoherent, Advances}
use airyfs.Fs.Cache.Calls.{same-Advances}

-- only chunks differ
abbrev SameRows : Db → Db → Type 0
SameRows db db' =
    (db'.inodes ≡ db.inodes) × (db'.dentries ≡ db.dentries) × (db'.last_ino ≡ db.last_ino)

write_loop-SameRows :
    (fuel : ℕ) (db : Db) (file : FileHandle) (offset : ℕ) (bytes : Bytes) (written : ℕ)
    → SameRows db (write_loop fuel db file offset bytes written)
unfolding write_loop
write_loop-SameRows zero db file offset bytes written = (refl, refl, refl)
write_loop-SameRows (suc fuel) db file offset bytes written =
    elim (Bool-cases (ltb written (length bytes))) [
      | inl more ↦ rw more (write_loop-SameRows fuel _ file offset bytes _)
      | inr done ↦ rw done (refl, refl, refl)
    ]

truncate_chunks-SameRows :
    (db : Db) (file : FileHandle) (current_size new_size : ℕ)
    → SameRows db (truncate_chunks db file current_size new_size)
unfolding truncate_chunks
truncate_chunks-SameRows db file current_size new_size = ground arith

module _ (fs : Fs) (h : IsWellFormed fs.db) (c : IsCoherent fs) where
  -- chunks change, then one row, and it keeps its kind and count
  rewritten :
      (db : Db) (ino : ℕ) (g : Inode → Inode)
      → SameRows fs.db db
      → ((r : Inode) → (g r).mode ≡ r.mode)
      → ((r : Inode) → (g r).nlink ≡ r.nlink)
      → IsWellFormed (update_inode ino g db) × Advances fs (with_db fs (update_inode ino g db))
  rewritten db ino g same kind count = (
    IsWellFormed-keep (update_inode ino g db) h same.2
        (λ i. rw same.0 (Keeps-update fs.db.inodes ino i g kind (λ r _ _ _. count r))) same.1,
    same-Advances fs (with_db fs (update_inode ino g db)) c same.1 refl,
  )

  pub pwrite_sound :
      (now : Stamp) (file : FileHandle) (offset : ℕ) (bytes : Bytes)
      → IsWellFormed (pwrite now fs.db file offset bytes)
        × Advances fs (with_db fs (pwrite now fs.db file offset bytes))
  unfolding pwrite write_data_at_offset
  pwrite_sound now file offset [] = (h, same-Advances fs fs c refl refl)
  pwrite_sound now file offset (b ∷ bs) =
      rewritten (write_data_at_offset fs.db file offset (b ∷ bs)) file.ino _
        (write_loop-SameRows (length (b ∷ bs)) fs.db file offset (b ∷ bs) 0) (λ r. refl) (λ r. refl)

  pub truncate_sound :
      (now : Stamp) (file : FileHandle) (new_size : ℕ)
      → IsWellFormed (truncate now fs.db file new_size)
        × Advances fs (with_db fs (truncate now fs.db file new_size))
  unfolding truncate
  truncate_sound now file new_size =
      rewritten (truncate_chunks fs.db file _ new_size) file.ino _
        (truncate_chunks-SameRows fs.db file _ new_size) (λ r. refl) (λ r. refl)
