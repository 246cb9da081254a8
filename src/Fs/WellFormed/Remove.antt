-- ===== src/Fs/WellFormed/Remove.antt =====
-- An entry less.
use mathlib.Core.Bool.{false≢true}
use native.Mathlib.Decide.{ℕ_discrete}
use airyfs.Prelude.{
  ℕ, ◌+◌, ◌≤◌, ◌≡◌, ◌≢◌, sym, ◌∙◌, ap, true, false, none, some, arith, nat_beq, nat_eq, entry_eq,
  entry_beq, if◌then◌else◌, ◌⊎◌, inl, inr,
}
use airyfs.Prelude.Int.{pos, dec, dec-pos}
use airyfs.Prelude.Table.{
  select, delete, select-delete_where, Distinct-delete_where, count-delete, select_of_count-zero,
}
use airyfs.Mode.{is_dir_mode}
use airyfs.Db.{Inode, Db}
use airyfs.Fs.{Entry}
use airyfs.Fs.WellFormed.{
  IsWellFormed, names_inode, link_count, row_at, entry_at, IsDir, Keeps, Keeps-row, Keeps-exists,
  Keeps-absent, Keeps-dir,
}

-- An entry less: the shape of `unlink`, `rmdir` and the first half of `rename`. The inode that it
-- named stays with one link less, or goes if that was its only name and it is no entry's parent.
module _ {db : Db} (db' : Db) (k : Entry) (ino : ℕ) (h : IsWellFormed db)
    (entry : entry_at db k ≡ some ino) (entries : db'.dentries ≡ delete k db.dentries)
    (last : db'.last_ino ≡ db.last_ino)
    (same : (i : ℕ) → i ≢ ino → Keeps (row_at db i) (row_at db' i))
    (here : ((row_at db' ino ≡ none)
        × (link_count db ino ≤ 1)
        × ((j : Entry) (i : ℕ) → entry_at db j ≡ some i → j.0 ≢ ino))
      ⊎ ((r r' : Inode) × (row_at db ino ≡ some r)
          × (row_at db' ino ≡ some r')
          × (is_dir_mode r'.mode ≡ is_dir_mode r.mode)
          × (is_dir_mode r.mode ≡ false → r'.nlink ≡ dec r.nlink))) where
  old_entry : (j : Entry) (i : ℕ) → entry_at db' j ≡ some i → entry_at db j ≡ some i
  old_entry j i e = ground (
    arith,
    ap (select j) entries,
    select-delete_where (λ (j' : Entry). entry_beq j' k) j db.dentries,
  )

  count : (i : ℕ) → link_count db' i + (if nat_beq ino i then 1 else 0) ≡ link_count db i
  count i = rw entries (count-delete (names_inode i) k db.dentries ino h.distinct entry)

  -- an inode that some entry still names, or that was there and is another, is there
  still_named : (j : Entry) (i : ℕ) → entry_at db' j ≡ some i → row_at db' i ≢ none
  still_named j i e = elim (ℕ_discrete i ino) [
    | no apart ↦ Keeps-exists _ _ (same i apart) (h.targets j i (old_entry j i e))
    | yes at ↦ elim here [
      | inl (gone, only, _) ↦
          let none_left : link_count db' ino ≡ 0 = ground (arith, count ino) in
          absurd (
            false≢true (
              sym (select_of_count-zero (names_inode ino) j db'.dentries i none_left e)
              ∙ (let is : nat_beq i ino ≡ true = ground arith in is)))
      | inr (r, r', _, there, _, _) ↦ λ absent. cc (at, there, absent)
    ]
  ]

  still-IsDir : (j : Entry) (i : ℕ) → entry_at db' j ≡ some i → IsDir db' j.0
  still-IsDir j i e = elim (ℕ_discrete j.0 ino) [
    | no apart ↦ Keeps-dir _ _ (same j.0 apart) (h.parents j i (old_entry j i e))
    | yes at ↦ elim here [
      | inl (_, _, childless) ↦ absurd (childless j i (old_entry j i e) at)
      | inr (r, r', was, there, kind, _) ↦
          let d : IsDir db j.0 = h.parents j i (old_entry j i e) in
          let d' : is_dir_mode r'.mode ≡ true = kind ∙ ground arith in rw (at, there) d'
    ]
  ]

  less_links :
      (i : ℕ) (r : Inode)
      → row_at db' i ≡ some r
      → is_dir_mode r.mode ≡ false
      → r.nlink ≡ pos (link_count db' i)
  less_links i r e nd = elim (ℕ_discrete i ino) [
    | yes at ↦ elim here [
      | inl (gone, _, _) ↦ absurd (let e' : row_at db' ino ≡ some r = rw at at e in cc (gone, e'))
      | inr (r₀, r', was, there, kind, dropped) ↦
          let is : r ≡ r' = ground arith in
          let nd' : is_dir_mode r₀.mode ≡ false = sym kind ∙ rw is at nd in
          let less : link_count db' ino + 1 ≡ link_count db ino = ground (arith, count ino) in
          let counted : r'.nlink ≡ pos (link_count db' ino) =
            dropped nd'
            ∙ ap dec (h.links ino r₀ was nd')
            ∙ dec-pos (link_count db ino) (link_count db' ino) less in
          rw (is, at) counted
    ]
    | no apart ↦
        let old = Keeps-row (row_at db i) (row_at db' i) r (same i apart) e in
        let equal : link_count db' i ≡ link_count db i = ground (arith, count i) in
        rw equal (old.3 (sym old.2 ∙ nd) ∙ h.links i old.0 old.1 (sym old.2 ∙ nd))
  ]

  less_single :
      (i : ℕ) (r : Inode) → row_at db' i ≡ some r → is_dir_mode r.mode ≡ true → link_count db' i ≤ 1
  less_single i r e d = elim (ℕ_discrete i ino) [
    | yes at ↦ elim here [
      | inl (_, only, _) ↦ rw at (omega (arith, count ino))
      | inr (r₀, r', was, there, kind, _) ↦
          let is : r ≡ r' = ground arith in
          rw at (omega (arith, count ino, h.single ino r₀ was (sym kind ∙ rw is at d)))
    ]
    | no apart ↦
        let old = Keeps-row (row_at db i) (row_at db' i) r (same i apart) e in
        omega (arith, count i, h.single i old.0 old.1 (sym old.2 ∙ d))
  ]

  pub IsWellFormed-remove : IsWellFormed db'
  IsWellFormed-remove = record {
    distinct =
        rw entries (Distinct-delete_where (λ (j : Entry). entry_beq j k) db.dentries h.distinct);
    targets = still_named;
    parents = still-IsDir;
    fresh = λ i there. elim (ℕ_discrete i ino) [
      | yes at ↦ rw (at, last) (h.fresh ino (h.targets k ino entry))
      | no apart ↦ rw last (h.fresh i (Keeps-absent _ _ (same i apart) there))
    ];
    links = less_links;
    single = less_single;
  }
