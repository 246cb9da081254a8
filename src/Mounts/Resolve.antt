-- ===== src/Mounts/Resolve.antt =====
-- `MountTable::add_mount` and `MountTable::resolve` against the mount that a path ought to reach.
use airyfs.Prelude.{
  ℕ, ◌≤◌, ◌≡◌, ◌⊎◌, inl, inr, refl, sym, ap, ◌∙◌, Bool, true, false, Option, none, some, [], ◌∷◌,
  ◌++◌, ltb, if◌then◌else◌, Bool-cases, arith,
}
use airyfs.Db.{Bytes}
use airyfs.Mounts.{
  Vfs, VfsError, VfsResult, ok, err, MountPoint, MountTable, depth, insert_mount, sort_by_depth,
  add_mount, translate_path, resolve,
}

-- no mount is deeper
abbrev pub NoDeeper : ℕ → MountTable → Type 0
NoDeeper d [] = Unit
NoDeeper d (m ∷ ms) = (depth m ≤ d) × NoDeeper d ms

abbrev pub DeepestFirst : MountTable → Type 0
DeepestFirst [] = Unit
DeepestFirst (m ∷ ms) = NoDeeper (depth m) ms × DeepestFirst ms

-- the mounts of `history`, added in that order
unfoldable pub add_all : MountTable → MountTable → MountTable
add_all mounts [] = mounts
add_all mounts (m ∷ history) = add_all (add_mount mounts m.sandbox_path m.vfs) history

-- the deeper of two mounts, and the first of two that are as deep
unfoldable pub deeper : Option MountPoint → Option MountPoint → Option MountPoint
deeper none o = o
deeper (some m) none = some m
deeper (some m) (some n) = if ltb (depth m) (depth n) then some n else some m

NoDeeper-mono : (d e : ℕ) (ms : MountTable) → d ≤ e → NoDeeper d ms → NoDeeper e ms
NoDeeper-mono d e [] le h = tt
NoDeeper-mono d e (m ∷ ms) le h = (omega arith, NoDeeper-mono d e ms le h.1)

insert-NoDeeper :
    (d : ℕ) (m : MountPoint) (ms : MountTable)
    → depth m ≤ d
    → NoDeeper d ms
    → NoDeeper d (insert_mount m ms)
unfolding insert_mount
insert-NoDeeper d m [] le h = (le, tt)
insert-NoDeeper d m (n ∷ ns) le h = elim (Bool-cases (ltb (depth m) (depth n))) [
  | inl t ↦ rw t (h.0, insert-NoDeeper d m ns le h.1)
  | inr f ↦ rw f (le, h)
]

insert-DeepestFirst :
    (m : MountPoint) (ms : MountTable) → DeepestFirst ms → DeepestFirst (insert_mount m ms)
unfolding insert_mount
insert-DeepestFirst m [] h = (tt, tt)
insert-DeepestFirst m (n ∷ ns) h = elim (Bool-cases (ltb (depth m) (depth n))) [
  | inl t ↦ rw t (insert-NoDeeper (depth n) m ns (ground arith) h.0, insert-DeepestFirst m ns h.1)
  | inr f ↦
      let le : depth n ≤ depth m = ground arith in
      rw f ((le, NoDeeper-mono (depth n) (depth m) ns le h.0), h)
]

sort-DeepestFirst : (ms : MountTable) → DeepestFirst (sort_by_depth ms)
unfolding sort_by_depth
sort-DeepestFirst [] = tt
sort-DeepestFirst (m ∷ ms) = insert-DeepestFirst m (sort_by_depth ms) (sort-DeepestFirst ms)

add_all-DeepestFirst :
    (mounts history : MountTable) → DeepestFirst mounts → DeepestFirst (add_all mounts history)
unfolding add_all add_mount
add_all-DeepestFirst mounts [] h = h
add_all-DeepestFirst mounts (m ∷ history) h =
    add_all-DeepestFirst (add_mount mounts m.sandbox_path m.vfs) history
      (sort-DeepestFirst (mounts ++ (record { sandbox_path = m.sandbox_path; vfs = m.vfs } ∷ [])))

deeper_assoc : (a b c : Option MountPoint) → deeper (deeper a b) c ≡ deeper a (deeper b c)
unfolding deeper
deeper_assoc none b c = refl
deeper_assoc (some m) none c = refl
deeper_assoc (some m) (some n) none = ground arith
deeper_assoc (some m) (some n) (some o) = ground arith

deeper-none : (o : Option MountPoint) → deeper o none ≡ o
unfolding deeper
deeper-none none = refl
deeper-none (some m) = refl

VfsResult-cases : (r : VfsResult) → ((t : Bytes) × (r ≡ ok t)) ⊎ ((e : VfsError) × (r ≡ err e))
VfsResult-cases (ok t) = inl (t, refl)
VfsResult-cases (err e) = inr (e, refl)

module _ (is_utf8 : Bytes → Bool) (path : Bytes) where
  unfoldable pub if_matching : MountPoint → Option MountPoint
  if_matching m = elim (translate_path is_utf8 m.vfs path) [ ok t ↦ some m | err e ↦ none ]

  -- the deepest mount that translates the path, and the first of several as deep
  unfoldable pub deepest : MountTable → Option MountPoint
  deepest [] = none
  deepest (m ∷ ms) = deeper (if_matching m) (deepest ms)

  unfoldable pub answer : Option MountPoint → Option (Vfs × Bytes)
  answer none = none
  answer (some m) = elim (translate_path is_utf8 m.vfs path) [
    | ok t ↦ some (m.vfs, t)
    | err e ↦ none
  ]

  translate-cases :
      (vfs : Vfs)
      → ((t : Bytes) × (translate_path is_utf8 vfs path ≡ ok t))
        ⊎ ((e : VfsError) × (translate_path is_utf8 vfs path ≡ err e))
  translate-cases vfs = VfsResult-cases (translate_path is_utf8 vfs path)

  if_matching-cases : (m : MountPoint) → (if_matching m ≡ none) ⊎ (if_matching m ≡ some m)
  unfolding if_matching
  if_matching-cases m = elim (translate-cases m.vfs) [
    | inl (t, h) ↦ inr (ground arith)
    | inr (e, h) ↦ inl (ground arith)
  ]

  deeper-NoDeeper :
      (m : MountPoint) (ms : MountTable)
      → NoDeeper (depth m) ms
      → deeper (some m) (deepest ms) ≡ some m
  unfolding deepest deeper
  deeper-NoDeeper m [] h = refl
  deeper-NoDeeper m (n ∷ ns) h = elim (if_matching-cases n) [
    | inl none_there ↦ rw none_there (deeper-NoDeeper m ns h.1)
    | inr there ↦
        let shallower : ltb (depth m) (depth n) ≡ false = ground arith in
        let first : deeper (some m) (some n) ≡ some m = rw shallower in
        rw there (
          sym (deeper_assoc (some m) (some n) (deepest ns))
          ∙ ap (λ o. deeper o (deepest ns)) first
          ∙ deeper-NoDeeper m ns h.1)
  ]

  resolve-first :
      (ms : MountTable) → DeepestFirst ms → resolve is_utf8 ms path ≡ answer (deepest ms)
  unfolding deepest resolve answer if_matching deeper
  resolve-first [] h = refl
  resolve-first (m ∷ ms) h = elim (translate-cases m.vfs) [
    | inl (t, h') ↦ ground (arith, deeper-NoDeeper m ms h.0)
    | inr (e, h') ↦ ground (arith, resolve-first ms h.1)
  ]

  -- a strictly deeper mount may come first
  matching-swap :
      (m n : MountPoint)
      → ltb (depth m) (depth n) ≡ true
      → deeper (if_matching n) (if_matching m) ≡ deeper (if_matching m) (if_matching n)
  unfolding deeper
  matching-swap m n t = ground (arith, if_matching-cases m, if_matching-cases n)

  insert-deepest :
      (m : MountPoint) (ms : MountTable) → deepest (insert_mount m ms) ≡ deepest (m ∷ ms)
  unfolding deepest insert_mount
  insert-deepest m [] = refl
  insert-deepest m (n ∷ ns) = elim (Bool-cases (ltb (depth m) (depth n))) [
    | inl t ↦ rw t (
        ap (deeper (if_matching n)) (insert-deepest m ns)
        ∙ sym (deeper_assoc (if_matching n) (if_matching m) (deepest ns))
        ∙ ap (λ o. deeper o (deepest ns)) (matching-swap m n t)
        ∙ deeper_assoc (if_matching m) (if_matching n) (deepest ns))
    | inr f ↦ rw f
  ]

  sort-deepest : (ms : MountTable) → deepest (sort_by_depth ms) ≡ deepest ms
  unfolding deepest sort_by_depth
  sort-deepest [] = refl
  sort-deepest (m ∷ ms) =
      insert-deepest m (sort_by_depth ms) ∙ ap (deeper (if_matching m)) (sort-deepest ms)

  append-deepest : (ms ns : MountTable) → deepest (ms ++ ns) ≡ deeper (deepest ms) (deepest ns)
  unfolding deepest deeper
  append-deepest [] ns = refl
  append-deepest (m ∷ ms) ns =
      ap (deeper (if_matching m)) (append-deepest ms ns)
      ∙ sym (deeper_assoc (if_matching m) (deepest ms) (deepest ns))

  add_all-deepest :
      (mounts history : MountTable)
      → deepest (add_all mounts history) ≡ deeper (deepest mounts) (deepest history)
  unfolding add_all add_mount deepest
  add_all-deepest mounts [] = sym (deeper-none (deepest mounts))
  add_all-deepest mounts (m ∷ history) =
      add_all-deepest (add_mount mounts m.sandbox_path m.vfs) history
      ∙ ap (λ o. deeper o (deepest history)) (sort-deepest (mounts ++ (m ∷ [])))
      ∙ ap (λ o. deeper o (deepest history)) (append-deepest mounts (m ∷ []))
      ∙ deeper_assoc (deepest mounts) (deepest (m ∷ [])) (deepest history)
      ∙ ap (λ o. deeper (deepest mounts) (deeper o (deepest history))) (deeper-none (if_matching m))

  -- After any mounts are added to an empty mount table in some order, `resolve` of a path
  -- answers with the mount that translates it and has the most components, and with the one
  -- that was added first where several have as many; it answers none where no mount translates
  -- the path.
  pub resolve-deepest :
      (history : MountTable) → resolve is_utf8 (add_all [] history) path ≡ answer (deepest history)
  unfolding deepest deeper
  resolve-deepest history =
      resolve-first (add_all [] history) (add_all-DeepestFirst [] history tt)
      ∙ ap answer (add_all-deepest [] history)
