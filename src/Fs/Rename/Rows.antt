-- ===== src/Fs/Rename/Rows.antt =====
-- The second half of `rename`: the entry moves, and the rows of the parents follow.
use mathlib.Core.Bool.{false≢true}
use airyfs.Prelude.{
  ℕ, ◌≡◌, refl, sym, ◌∙◌, true, none, Option-cases, Bool-cases, inl, inr, List, arith, nat_beq,
  nat_eq, entry_eq,
}
use airyfs.Prelude.Int.{inc, dec}
use airyfs.Prelude.Table.{select, update}
use airyfs.Mode.{Stamp, Stats, is_dir_mode, is_directory}
use airyfs.Db.{Inode, Db}
use airyfs.Fs.{Entry, touch, is_dir_row}
use airyfs.Fs.Move.{move_entry, rekey}
use airyfs.Fs.WellFormed.{IsWellFormed, Keeps, IsDir, row_at, entry_at, Keeps-dir}
use airyfs.Fs.WellFormed.Move.{IsWellFormed-keep, IsWellFormed-move}
use airyfs.Fs.Drop.{Keeps-refl, Keeps-update, Keeps-trans}

-- The rows after the second half of `rename`: the link counts change of directories only.
module _ (now : Stamp) (db : Db) (src : Stats) (old new : Entry) (from : IsDir db old.0)
    (to : IsDir db new.0) where
  counted_row :
      (rows : List (ℕ × Inode)) (f : Inode → Inode) (j i : ℕ)
      → is_dir_row (select j rows) ≡ true
      → ((r : Inode) → (f r).mode ≡ r.mode)
      → Keeps (select i rows) (select i (update j f rows))
  counted_row rows f j i d kind = Keeps-update rows j i f kind (λ s at there nd.
      let is_dir : is_dir_mode s.mode ≡ true = ground arith in
      absurd (false≢true (sym nd ∙ is_dir)))

  timed_row :
      (rows : List (ℕ × Inode)) (f : Inode → Inode) (j i : ℕ)
      → ((r : Inode) → (f r).mode ≡ r.mode)
      → ((r : Inode) → (f r).nlink ≡ r.nlink)
      → Keeps (select i rows) (select i (update j f rows))
  timed_row rows f j i kind count = Keeps-update rows j i f kind (λ s _ _ _. count s)

  recounted_row :
      (i : ℕ)
      → Keeps (row_at db i) (
          select i (
            update new.0
              (λ r. record r { nlink = inc r.nlink })
              (update old.0 (λ r. record r { nlink = dec r.nlink }) db.inodes)))
  recounted_row i =
      let down : Inode → Inode = λ r. record r { nlink = dec r.nlink } in
      let left : List (ℕ × Inode) = update old.0 down db.inodes in
      let left_row : (j : ℕ) → Keeps (row_at db j) (select j left) =
        λ j. counted_row db.inodes down old.0 j from (λ s. refl) in
      Keeps-trans (row_at db i) (select i left) _ (left_row i) (
        counted_row left (λ r. record r { nlink = inc r.nlink }) new.0 i
          (Keeps-dir (row_at db new.0) (select new.0 left) (left_row new.0) to) (λ s. refl))

  -- the stamps on the inode and on one parent, or on both
  stamped_row :
      (rows : List (ℕ × Inode)) (i : ℕ)
      → Keeps (row_at db i) (select i rows)
      → (let stamped = update src.ino (λ r. record r { ctime = now }) rows in
          let touched = update old.0 (touch now) stamped in
          Keeps (row_at db i) (select i touched)
          × Keeps (row_at db i) (select i (update new.0 (touch now) touched)))
  stamped_row rows i keeps =
      let stamped : List (ℕ × Inode) = update src.ino (λ r. record r { ctime = now }) rows in
      let touched : List (ℕ × Inode) = update old.0 (touch now) stamped in
      let once =
        Keeps-trans (row_at db i) (select i rows) (select i stamped) keeps
          (timed_row rows (λ r. record r { ctime = now }) src.ino i (λ s. refl) (λ s. refl)) in
      let twice =
        Keeps-trans (row_at db i) (select i stamped) (select i touched) once
          (timed_row stamped (touch now) old.0 i (λ s. refl) (λ s. refl)) in
      (
        twice,
        Keeps-trans (row_at db i) (select i touched) _ twice
            (timed_row touched (touch now) new.0 i (λ s. refl) (λ s. refl)),
      )

  pub move_entry-Keeps : (i : ℕ) → Keeps (row_at db i) (row_at (move_entry now db src old new) i)
  unfolding move_entry
  move_entry-Keeps i =
      let plain = stamped_row db.inodes i (Keeps-refl (row_at db i)) in
      elim (Bool-cases (nat_beq old.0 new.0)) [
        | inl same ↦ elim (Bool-cases (is_directory src)) [
          | inl d ↦ rw (same, d) plain.0
          | inr nd ↦ rw (same, nd) plain.0
        ]
        | inr across ↦ elim (Bool-cases (is_directory src)) [
          | inl d ↦ rw (across, d) (stamped_row _ i (recounted_row i)).1
          | inr nd ↦ rw (across, nd) plain.1
        ]
      ]

  pub move_entry-rest :
      ((move_entry now db src old new).dentries ≡ rekey old new db.dentries)
      × ((move_entry now db src old new).last_ino ≡ db.last_ino)
  unfolding move_entry
  move_entry-rest = ground arith

  -- The second half keeps the namespace well formed where the destination is free, or is the source.
  pub move_entry-IsWellFormed :
      IsWellFormed db → entry_at db new ≡ none → IsWellFormed (move_entry now db src old new)
  unfolding rekey
  move_entry-IsWellFormed h free = elim (Option-cases (entry_at db old)) [
    | inl absent ↦
        IsWellFormed-keep (move_entry now db src old new) h move_entry-rest.1 move_entry-Keeps
          (move_entry-rest.0 ∙ (rw (rekey, absent) refl))
    | inr (ino, there) ↦
        IsWellFormed-move (move_entry now db src old new) h move_entry-rest.1 move_entry-Keeps old
          new ino there free to (move_entry-rest.0 ∙ (rw (rekey, there) refl))
  ]
