-- ===== src/Fs/Attributes.antt =====
-- `link`, `chmod`, `chown` and `utimens` keep the namespace well formed.
use mathlib.Core.Bool.{false≢true}
use mathlib.Core.Path.{subst}
use airyfs.Prelude.{
  ℕ, ◌+◌, ◌≡◌, ◌≢◌, refl, sym, ap, ◌∙◌, false, none, some, Option, Option-cases, Bool-cases, inl,
  inr, List, arith, nat_beq, nat_eq, entry_eq,
}
use airyfs.Prelude.Int.{inc}
use airyfs.Prelude.Table.{select, update, select-update_ne, select-update_self}
use airyfs.Mode.{Stamp, Stats, TimeChange, ok, is_dir_mode, file_type, permissions}
use airyfs.Db.{Bytes, Inode, update_inode}
use airyfs.Fs.{Fs, with_db, touch, is_dir_row}
use airyfs.Fs.Make.{link, linked_node}
use airyfs.Fs.Modify.{chmod, chown, utimens, set_owner, both_none, both_omit, resolve}
use airyfs.Fs.WellFormed.{IsWellFormed, IsDir, row_at, entry_at, lookup_child-entry_at}
use airyfs.Fs.WellFormed.Add.{IsWellFormed-link}
use airyfs.Fs.WellFormed.Move.{IsWellFormed-keep}
use airyfs.Fs.Drop.{Keeps-update, Keeps-update_at}

linked_node-IsWellFormed :
    (now : Stamp) (fs : Fs) (ino parent : ℕ) (name : Bytes) (r : Inode)
    → IsWellFormed fs.db
    → IsDir fs.db parent
    → row_at fs.db ino ≡ some r
    → is_dir_mode r.mode ≡ false
    → entry_at fs.db (parent, name) ≡ none
    → IsWellFormed (linked_node now fs ino parent name).db
unfolding linked_node
linked_node-IsWellFormed now fs ino parent name r h dir was file free =
    let f : Inode → Inode = λ s. record s { nlink = inc s.nlink; ctime = now } in
    let rows : List (ℕ × Inode) = update ino f fs.db.inodes in
    let apart : ino ≢ parent = λ at.
      let d : IsDir fs.db ino = rw at dir in
      let nd : is_dir_row (row_at fs.db ino) ≡ false = rw was file in false≢true (sym nd ∙ d) in
    IsWellFormed-link (linked_node now fs ino parent name).db (parent, name) ino r (f r) h free dir
      refl refl
      (λ i other.
        let kept : select i rows ≡ row_at fs.db i = select-update_ne ino i f fs.db.inodes other in
        rw (← kept) (Keeps-update rows parent i (touch now) (λ s. refl) (λ s _ _ _. refl)))
      was
      (select-update_ne parent ino (touch now) rows apart
        ∙ select-update_self ino f fs.db.inodes r was)
      refl file refl

-- Setting permissions leaves the kind.
is_dir_mode-chmod :
    (old mode : ℕ) → is_dir_mode (file_type old + permissions mode) ≡ is_dir_mode old
is_dir_mode-chmod old mode = ap (λ t. nat_beq t 0o040000) (omega arith)

module _ (now : Stamp) (fs fs' : Fs) (h : IsWellFormed fs.db) where
  -- an update of one row that leaves its kind and its count
  updated-IsWellFormed :
      (ino : ℕ) (g : Inode → Inode)
      → ((r : Inode)
          → row_at fs.db ino ≡ some r
          → (is_dir_mode (g r).mode ≡ is_dir_mode r.mode) × ((g r).nlink ≡ r.nlink))
      → IsWellFormed (update_inode ino g fs.db)
  updated-IsWellFormed ino g keeps =
      IsWellFormed-keep (update_inode ino g fs.db) h refl
        (λ i.
          Keeps-update_at fs.db.inodes ino i g
            (λ r at there. let k = keeps r (rw at there) in (k.0, λ _. k.1)))
        refl

  -- If the namespace is well formed and the new parent is a directory, then the namespace is
  -- well formed after every `link` that succeeds.
  pub link-IsWellFormed :
      (ino parent : ℕ) (name : Bytes) (stats : Stats)
      → IsDir fs.db parent
      → link now fs ino parent name ≡ ok (stats, fs')
      → IsWellFormed fs'.db
  unfolding link
  link-IsWellFormed ino parent name stats dir e = elim (Option-cases (row_at fs.db ino)) [
    | inl absent ↦ absurd (ground arith)
    | inr (r, was) ↦
        let done : (is_dir_mode r.mode ≡ false)
            × (entry_at fs.db (parent, name) ≡ none)
            × (linked_node now fs ino parent name ≡ fs') =
          ground (arith, lookup_child-entry_at fs.db parent name h.distinct) in
        subst (λ (s : Fs). IsWellFormed s.db) done.2
          (linked_node-IsWellFormed now fs ino parent name r h dir was done.0 done.1)
  ]

  -- A well-formed namespace is well formed after every `chmod` that succeeds.
  pub chmod-IsWellFormed : (ino mode : ℕ) → chmod now fs ino mode ≡ ok fs' → IsWellFormed fs'.db
  unfolding chmod
  chmod-IsWellFormed ino mode e = elim (Option-cases (row_at fs.db ino)) [
    | inl absent ↦ absurd (ground arith)
    | inr (r, was) ↦
        let new_mode : ℕ = file_type r.mode + permissions mode in
        let g : Inode → Inode = λ s. record s { mode = new_mode; ctime = now } in
        let done : with_db fs (update_inode ino g fs.db) ≡ fs' = ground arith in
        subst (λ (s : Fs). IsWellFormed s.db) done
          (updated-IsWellFormed ino g (λ s there.
            let is : r ≡ s = ground arith in
            (is_dir_mode-chmod r.mode mode ∙ ap (λ (t : Inode). is_dir_mode t.mode) is, refl)))
  ]

  -- A well-formed namespace is well formed after every `chown` that succeeds.
  pub chown-IsWellFormed :
      (ino : ℕ) (uid gid : Option ℕ) → chown now fs ino uid gid ≡ ok fs' → IsWellFormed fs'.db
  unfolding chown
  chown-IsWellFormed ino uid gid e =
      let g : Inode → Inode = λ s. record (set_owner uid gid s) { ctime = now } in
      elim (Bool-cases (both_none uid gid)) [
        | inl none_given ↦
            let done : fs ≡ fs' = ground arith in subst (λ (s : Fs). IsWellFormed s.db) done h
        | inr given ↦ elim (Option-cases (row_at fs.db ino)) [
          | inl absent ↦ absurd (ground arith)
          | inr (r, was) ↦
              let done : with_db fs (update_inode ino g fs.db) ≡ fs' = ground arith in
              subst (λ (s : Fs). IsWellFormed s.db) done
                (updated-IsWellFormed ino g (λ s there. (ground arith, ground arith)))
        ]
      ]

  -- A well-formed namespace is well formed after every `utimens` that succeeds.
  pub utimens-IsWellFormed :
      (now_a now_m : Stamp) (ino : ℕ) (atime mtime : TimeChange)
      → utimens now_a now_m now fs ino atime mtime ≡ ok fs'
      → IsWellFormed fs'.db
  unfolding utimens
  utimens-IsWellFormed now_a now_m ino atime mtime e =
      let g : Inode → Inode = λ r. record r {
        atime = resolve now_a r.atime atime;
        mtime = resolve now_m r.mtime mtime;
        ctime = now;
      } in
      elim (Option-cases (row_at fs.db ino)) [
        | inl absent ↦ absurd (ground arith)
        | inr (r, was) ↦ elim (Bool-cases (both_omit atime mtime)) [
          | inl none_given ↦
              let done : fs ≡ fs' = ground arith in subst (λ (s : Fs). IsWellFormed s.db) done h
          | inr given ↦
              let done : with_db fs (update_inode ino g fs.db) ≡ fs' = ground arith in
              subst (λ (s : Fs). IsWellFormed s.db) done
                (updated-IsWellFormed ino g (λ s there. (refl, refl)))
        ]
      ]
