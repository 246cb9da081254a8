-- ===== src/Schema/Root.antt =====
-- Opening a database leaves its namespace well formed, with a root directory.
use airyfs.Prelude.{
  ℕ, ◌≡◌, refl, max, true, none, some, Option-cases, inl, inr, List, ◌∷◌, arith, nat_beq, nat_eq,
  if◌then◌else◌,
}
use airyfs.Prelude.Table.{select, count_where}
use airyfs.Mode.{Stamp, is_dir_mode}
use airyfs.Db.{Inode, Db, root_ino, update_inode}
use airyfs.Fs.WellFormed.{IsWellFormed, row_at, link_count_of_none}
use airyfs.Fs.WellFormed.Move.{IsWellFormed-keep}
use airyfs.Fs.Drop.{Keeps-update}
use airyfs.Schema.{ensure_root, empty_db, root_inode}

pub empty_db-IsWellFormed : IsWellFormed empty_db
unfolding select count_where
empty_db-IsWellFormed = record {
  distinct = tt;
  targets = λ k ino e. cc;
  parents = λ k ino e. cc;
  fresh = λ ino there. absurd (there refl);
  links = λ ino row e nd. cc;
  single = λ ino row e d. cc;
}

-- the rows when the root is new
root_row :
    (m : List (ℕ × Inode)) (r : Inode) (i : ℕ)
    → select i ((root_ino, r) ∷ m) ≡ (if nat_beq root_ino i then some r else select i m)
unfolding select
root_row m r i = refl

module _ (now : Stamp) (uid gid : ℕ) (db : Db) (h : IsWellFormed db) where
  owned-IsWellFormed :
      IsWellFormed (update_inode root_ino (λ r. record r { uid = uid; gid = gid }) db)
  owned-IsWellFormed =
      IsWellFormed-keep _ h refl
        (λ i.
          Keeps-update db.inodes root_ino i (λ r. record r { uid = uid; gid = gid }) (λ s. refl)
            (λ s _ _ _. refl))
        refl

  abbrev with_root : Db
  with_root = record db {
    inodes = (root_ino, root_inode now uid gid) ∷ db.inodes;
    last_ino = max db.last_ino root_ino;
  }

  created-IsWellFormed : row_at db root_ino ≡ none → IsWellFormed with_root
  created-IsWellFormed absent =
      let row : (i : ℕ)
          → row_at with_root i
            ≡ (if nat_beq root_ino i then some (root_inode now uid gid) else row_at db i) =
        root_row db.inodes (root_inode now uid gid) in
      let kind : is_dir_mode (root_inode now uid gid).mode ≡ true = ground arith in
      record {
        distinct = h.distinct;
        targets = λ k i e. ground (arith, row i, h.targets k i e);
        parents = λ k i e. ground (arith, row k.0, h.parents k i e);
        fresh = λ i there. ground (arith, row i, h.fresh i);
        links = λ i r e nd. ground (arith, row i, h.links i r);
        single = λ i r e d. ground (arith, row i, h.single i r, link_count_of_none db i h);
      }

  -- A well-formed namespace is well formed after the database is opened, whether the root is
  -- created or gets a new owner.
  pub ensure_root-IsWellFormed : IsWellFormed (ensure_root now uid gid db)
  unfolding ensure_root
  ensure_root-IsWellFormed = elim (Option-cases (row_at db root_ino)) [
    | inr (r, there) ↦ rw (ensure_root, there) owned-IsWellFormed
    | inl absent ↦ rw (ensure_root, absent) (created-IsWellFormed absent)
  ]
