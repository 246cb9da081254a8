-- ===== src/Fs/WellFormed/Add.antt =====
-- A new entry, for a new inode or for one that exists.
use mathlib.Core.Bool.{false≢true}
use native.Mathlib.Decide.{ℕ_discrete}
use airyfs.Prelude.{
  ℕ, ◌+◌, ◌≤◌, ◌≡◌, ◌≢◌, sym, ◌∙◌, ap, true, false, none, some, ◌∷◌, arith, nat_eq, entry_eq,
  Option-cases, inl, inr,
}
use airyfs.Prelude.Int.{pos, inc}
use airyfs.Mode.{is_dir_mode}
use airyfs.Db.{Inode, Db}
use airyfs.Fs.{Entry}
use airyfs.Fs.WellFormed.{
  IsWellFormed, link_count, row_at, entry_at, IsDir, Keeps, Keeps-row, Keeps-exists, Keeps-absent,
  Keeps-dir, link_count_of_none, entry_of_cons, dir_exists, link_count-cons,
}

-- A new inode with one name: the shape of `mkdir`, `create_file`, `mknod` and `symlink`.
module _ {db : Db} (db' : Db) (k : Entry) (row : Inode) (h : IsWellFormed db)
    (new : entry_at db k ≡ none) (dir : IsDir db k.0)
    (entries : db'.dentries ≡ (k, db.last_ino + 1) ∷ db.dentries)
    (last : db'.last_ino ≡ db.last_ino + 1)
    (same : (i : ℕ) → i ≢ db.last_ino + 1 → Keeps (row_at db i) (row_at db' i))
    (here : row_at db' (db.last_ino + 1) ≡ some row)
    (one : is_dir_mode row.mode ≡ false → row.nlink ≡ pos 1) where
  abbrev ino : ℕ
  ino = db.last_ino + 1

  not_new : (i : ℕ) → row_at db i ≢ none → i ≢ ino
  not_new i there = omega (arith, h.fresh i there)

  lift_exists : (i : ℕ) → row_at db i ≢ none → row_at db' i ≢ none
  lift_exists i there = Keeps-exists _ _ (same i (not_new i there)) there

  lift-IsDir : (i : ℕ) → IsDir db i → IsDir db' i
  lift-IsDir i d = Keeps-dir _ _ (same i (not_new i (dir_exists db i d))) d

  none_yet : link_count db ino ≡ 0
  none_yet = link_count_of_none db ino h (elim (Option-cases (row_at db ino)) [
    | inl absent ↦ absent
    | inr (r', there) ↦ absurd (omega (arith, h.fresh ino (λ e'. cc (there, e'))))
  ])

  -- what the counts of the old and of the new inode are
  count_new : link_count db' ino ≡ 1
  count_new = ground (arith, link_count-cons db db' k ino ino entries, none_yet)

  count_old : (i : ℕ) → i ≢ ino → link_count db' i ≡ link_count db i
  count_old i apart = ground (arith, link_count-cons db db' k ino i entries)

  new_links :
      (i : ℕ) (r : Inode)
      → row_at db' i ≡ some r
      → is_dir_mode r.mode ≡ false
      → r.nlink ≡ pos (link_count db' i)
  new_links i r e nd = elim (ℕ_discrete i ino) [
    | yes at ↦
        let is_row : r ≡ row = ground arith in
        let count : link_count db' i ≡ 1 = rw at count_new in rw count (ground (arith, one))
    | no apart ↦
        let old = Keeps-row (row_at db i) (row_at db' i) r (same i apart) e in
        rw (count_old i apart) (old.3 (sym old.2 ∙ nd) ∙ h.links i old.0 old.1 (sym old.2 ∙ nd))
  ]

  new_single :
      (i : ℕ) (r : Inode) → row_at db' i ≡ some r → is_dir_mode r.mode ≡ true → link_count db' i ≤ 1
  new_single i r e d = elim (ℕ_discrete i ino) [
    | yes at ↦ rw (at, count_new) (omega arith)
    | no apart ↦
        let old = Keeps-row (row_at db i) (row_at db' i) r (same i apart) e in
        rw (count_old i apart) (h.single i old.0 old.1 (sym old.2 ∙ d))
  ]

  pub IsWellFormed-create : IsWellFormed db'
  IsWellFormed-create = record {
    distinct = rw entries (new, h.distinct);
    targets = λ j i e. elim (entry_of_cons k ino db.dentries j i (rw entries at e)) [
      | inl (at, is) ↦ λ absent. cc (here, is, absent)
      | inr old ↦ lift_exists i (h.targets j i old)
    ];
    parents = λ j i e. elim (entry_of_cons k ino db.dentries j i (rw entries at e)) [
      | inl (at, is) ↦ rw (← at) (lift-IsDir k.0 dir)
      | inr old ↦ lift-IsDir j.0 (h.parents j i old)
    ];
    fresh = λ i there. elim (ℕ_discrete i ino) [
      | yes at ↦ omega (arith, last)
      | no apart ↦ omega (arith, last, h.fresh i (Keeps-absent _ _ (same i apart) there))
    ];
    links = new_links;
    single = new_single;
  }

-- One more name of an inode that is no directory: the shape of `link`.
module _ {db : Db} (db' : Db) (k : Entry) (ino : ℕ) (r r' : Inode) (h : IsWellFormed db)
    (new : entry_at db k ≡ none) (dir : IsDir db k.0)
    (entries : db'.dentries ≡ (k, ino) ∷ db.dentries) (last : db'.last_ino ≡ db.last_ino)
    (same : (i : ℕ) → i ≢ ino → Keeps (row_at db i) (row_at db' i)) (was : row_at db ino ≡ some r)
    (there : row_at db' ino ≡ some r') (kind : is_dir_mode r'.mode ≡ is_dir_mode r.mode)
    (file : is_dir_mode r.mode ≡ false) (more : r'.nlink ≡ inc r.nlink) where
  exists_still : (i : ℕ) → row_at db i ≢ none → row_at db' i ≢ none
  exists_still i e = elim (ℕ_discrete i ino) [
    | yes at ↦ λ absent. cc (at, there, absent)
    | no apart ↦ Keeps-exists _ _ (same i apart) e
  ]

  IsDir-still : (i : ℕ) → IsDir db i → IsDir db' i
  IsDir-still i d = elim (ℕ_discrete i ino) [
    | yes at ↦
        let d' : is_dir_mode r.mode ≡ true = ground arith in absurd (false≢true (sym file ∙ d'))
    | no apart ↦ Keeps-dir _ _ (same i apart) d
  ]

  more_links :
      (i : ℕ) (s : Inode)
      → row_at db' i ≡ some s
      → is_dir_mode s.mode ≡ false
      → s.nlink ≡ pos (link_count db' i)
  more_links i s e nd = elim (ℕ_discrete i ino) [
    | yes at ↦
        let is : s ≡ r' = ground arith in
        let count : link_count db' ino ≡ link_count db ino + 1 =
          ground (arith, link_count-cons db db' k ino ino entries) in
        let counted : r'.nlink ≡ pos (link_count db' ino) =
          more ∙ ap inc (h.links ino r was file) ∙ sym (ap pos count) in
        rw (is, at) counted
    | no apart ↦
        let old = Keeps-row (row_at db i) (row_at db' i) s (same i apart) e in
        let equal : link_count db' i ≡ link_count db i =
          ground (arith, link_count-cons db db' k ino i entries) in
        rw equal (old.3 (sym old.2 ∙ nd) ∙ h.links i old.0 old.1 (sym old.2 ∙ nd))
  ]

  more_single :
      (i : ℕ) (s : Inode) → row_at db' i ≡ some s → is_dir_mode s.mode ≡ true → link_count db' i ≤ 1
  more_single i s e d = elim (ℕ_discrete i ino) [
    | yes at ↦
        let is : s ≡ r' = ground arith in absurd (false≢true (sym file ∙ sym kind ∙ rw is at d))
    | no apart ↦
        let old = Keeps-row (row_at db i) (row_at db' i) s (same i apart) e in
        let equal : link_count db' i ≡ link_count db i =
          ground (arith, link_count-cons db db' k ino i entries) in
        rw equal (h.single i old.0 old.1 (sym old.2 ∙ d))
  ]

  pub IsWellFormed-link : IsWellFormed db'
  IsWellFormed-link = record {
    distinct = rw entries (new, h.distinct);
    targets = λ j i e. elim (entry_of_cons k ino db.dentries j i (rw entries at e)) [
      | inl (at, is) ↦ λ absent. cc (there, is, absent)
      | inr old ↦ exists_still i (h.targets j i old)
    ];
    parents = λ j i e. elim (entry_of_cons k ino db.dentries j i (rw entries at e)) [
      | inl (at, is) ↦ rw (← at) (IsDir-still k.0 dir)
      | inr old ↦ IsDir-still j.0 (h.parents j i old)
    ];
    fresh = λ i e. elim (ℕ_discrete i ino) [
      | yes at ↦ rw (at, last) (h.fresh ino (λ absent. cc (was, absent)))
      | no apart ↦ rw last (h.fresh i (Keeps-absent _ _ (same i apart) e))
    ];
    links = more_links;
    single = more_single;
  }
