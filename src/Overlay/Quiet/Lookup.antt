-- ===== src/Overlay/Quiet/Lookup.antt =====
-- `lookup` of the overlay, where it finds nothing.
use airyfs.Prelude.{
  ℕ, ◌≡◌, refl, ap, Option, none, some, List, [], ◌∷◌, bytes_beq, nat_eq, Option-cases, Bool-cases,
  inl, inr, ltb, length,
}
use airyfs.Mode
use airyfs.Mode.{FsError, Result, Stats, is_directory, Result-cases}
use airyfs.Db.{Bytes}
use airyfs.Fs.{Fs, CacheCall, Entry, insert}
use airyfs.Fs
use airyfs.PathName.{root}
use airyfs.Overlay.{Base, in_base, InodeInfo, Overlay, Outcome, returns, fails}
use airyfs.Overlay.Maps.{components, get_or_create_overlay_ino, child_path, build_path}
use airyfs.Overlay.CopyUp.{delta_lookup, walk_directories, resolve_delta_parent, walk_base}
use airyfs.Overlay.Read.{
  with_ino, delta_entry_ino, found_in_delta, base_directory, lookup_base, lookup_layers,
}
use airyfs.Overlay.Read
use airyfs.Overlay.Safe.{after}
use airyfs.Overlay.Quiet.{
  value, recached, IsRecached, IsQuiet, IsAbsent, bind-IsQuiet, bind-IsAbsent, done-IsQuiet,
  from_result-IsQuiet, none-IsAbsent, some-IsAbsent, option-IsQuiet, option-IsAbsent, if-IsQuiet,
  if-IsAbsent, layer-IsQuiet, inode_info-IsQuiet, whiteout-IsQuiet,
}

found_child-stays :
    (fs : Fs) (k : Entry) (child : Option ℕ)
    → (c : List CacheCall) × ((Fs.found_child fs k child).1 ≡ record fs { cache = c })
unfolding Fs.found_child
found_child-stays fs k none = (fs.cache, refl)
found_child-stays fs k (some child) = elim (Option-cases (Fs.getattr fs.db child)) [
  | inl missing ↦ rw (missing, Fs.found_child) (fs.cache, refl)
  | inr (s, there) ↦ rw (there, Fs.found_child) (insert k child ∷ fs.cache, refl)
]

found_child-same :
    (fs : Fs) (c : List CacheCall) (k : Entry) (child : Option ℕ)
    → (Fs.found_child (record fs { cache = c }) k child).0 ≡ (Fs.found_child fs k child).0
unfolding Fs.found_child
found_child-same fs c k none = refl
found_child-same fs c k (some child) = elim (Option-cases (Fs.getattr fs.db child)) [
  | inl missing ↦ rw (missing, Fs.found_child) refl
  | inr (s, there) ↦ rw (there, Fs.found_child) refl
]

abbrev pub in_layer : {A : Type 0} → Overlay → Result (A × Fs) → Outcome A
in_layer o (Mode.ok (a, fs)) = returns a (record o { delta = fs })
in_layer o (Mode.err e) = fails e o

abbrev find_child : Fs → Entry → Result (Option ℕ) → Result (Option Stats × Fs)
find_child fs k r = Mode.◌>>=◌ r (λ child. Mode.ok (Fs.found_child fs k child))

in_layer-same :
    (o : Overlay) (c : List CacheCall) (k : Entry) (r : Result (Option ℕ))
    → value (in_layer (recached c o) (find_child (recached c o).delta k r))
      ≡ value (in_layer o (find_child o.delta k r))
in_layer-same o c k (Mode.err e) = refl
in_layer-same o c k (Mode.ok child) = ap some (found_child-same o.delta c k child)

in_layer-stays :
    (o : Overlay) (k : Entry) (r : Result (Option ℕ))
    → IsRecached o (after (in_layer o (find_child o.delta k r)))
in_layer-stays o k (Mode.err e) = (o.delta.cache, refl)
in_layer-stays o k (Mode.ok child) =
    let (c, at) = found_child-stays o.delta k child in (c, ap (λ fs. record o { delta = fs }) at)

delta_lookup-IsQuiet : (parent : ℕ) (name : Bytes) → IsQuiet (delta_lookup parent name)
unfolding Fs.lookup
delta_lookup-IsQuiet parent name = elim (Bool-cases (ltb Mode.max_name_len (length name))) [
  | inl long ↦ rw long (record { same = λ o c. refl; stays = λ o. (o.delta.cache, refl) })
  | inr short ↦ rw short (elim (Bool-cases (bytes_beq name Fs.dot_dot)) [
    | inl dots ↦ rw dots (record { same = λ o c. refl; stays = λ o. (o.delta.cache, refl) })
    | inr plain ↦ rw plain (record {
      same = λ o c. in_layer-same o c (parent, name) (Fs.lookup_child o.delta.db parent name);
      stays = λ o. in_layer-stays o (parent, name) (Fs.lookup_child o.delta.db parent name);
    })
  ])
]

walk_directories-IsQuiet : (ino : ℕ) (cs : List Bytes) → IsQuiet (walk_directories ino cs)
unfolding walk_directories
walk_directories-IsQuiet ino [] = done-IsQuiet (some ino)
walk_directories-IsQuiet ino (c ∷ cs) = bind-IsQuiet (delta_lookup-IsQuiet ino c) (λ found.
    option-IsQuiet found (done-IsQuiet none)
      (λ s. if-IsQuiet (is_directory s) (walk_directories-IsQuiet s.ino cs) (done-IsQuiet none)))

resolve_delta_parent-IsQuiet : (info : InodeInfo) → IsQuiet (resolve_delta_parent info)
unfolding resolve_delta_parent
resolve_delta_parent-IsQuiet info =
    layer-IsQuiet info.layer (done-IsQuiet (some info.underlying_ino))
      (walk_directories-IsQuiet 1 (components info.path))

found_in_delta-IsQuiet : (parent : Option ℕ) (name : Bytes) → IsQuiet (found_in_delta parent name)
found_in_delta-IsQuiet none name = done-IsQuiet none
found_in_delta-IsQuiet (some parent) name = delta_lookup-IsQuiet parent name

module _ (base : Base) where
  walk_base-IsQuiet : (ino : ℕ) (cs : List Bytes) → IsQuiet (walk_base base ino cs)
  unfolding walk_base
  walk_base-IsQuiet ino [] = done-IsQuiet (some ino)
  walk_base-IsQuiet ino (c ∷ cs) =
      bind-IsQuiet (from_result-IsQuiet (base.lookup ino c))
        (λ found. option-IsQuiet found (done-IsQuiet none) (λ s. walk_base-IsQuiet s.ino cs))

  base_directory-IsQuiet : (info : InodeInfo) → IsQuiet (base_directory base info)
  unfolding base_directory
  base_directory-IsQuiet info =
      layer-IsQuiet info.layer
        (if-IsQuiet (bytes_beq info.path root) (done-IsQuiet (some 1))
          (walk_base-IsQuiet 1 (components info.path)))
        (done-IsQuiet (some info.underlying_ino))

  lookup_base-IsAbsent :
      (info : InodeInfo) (name path : Bytes) → IsAbsent (lookup_base base info name path)
  unfolding lookup_base
  lookup_base-IsAbsent info name path = bind-IsAbsent (base_directory-IsQuiet info) (λ parent.
      option-IsAbsent parent none-IsAbsent (λ ino.
        bind-IsAbsent (from_result-IsQuiet (base.lookup ino name)) (λ found.
          option-IsAbsent found none-IsAbsent (λ s.
            some-IsAbsent (get_or_create_overlay_ino (in_base, s.ino) path) (λ n. with_ino n s)))))

  lookup_layers-IsAbsent :
      (info : InodeInfo) (name path : Bytes) → IsAbsent (lookup_layers base info name path)
  unfolding lookup_layers
  lookup_layers-IsAbsent info name path =
      bind-IsAbsent (resolve_delta_parent-IsQuiet info) (λ parent.
        bind-IsAbsent (found_in_delta-IsQuiet parent name) (λ found.
          option-IsAbsent found (lookup_base-IsAbsent info name path)
            (λ s. some-IsAbsent (delta_entry_ino s.ino path) (λ n. with_ino n s))))

  pub lookup-IsAbsent : (parent : ℕ) (name : Bytes) → IsAbsent (Read.lookup base parent name)
  unfolding Read.lookup build_path
  lookup-IsAbsent parent name = bind-IsAbsent (inode_info-IsQuiet parent) (λ info.
      bind-IsAbsent
        (bind-IsQuiet (inode_info-IsQuiet parent) (λ i. done-IsQuiet (child_path i.path name)))
        (λ path.
          bind-IsAbsent (whiteout-IsQuiet path)
            (λ hidden. if-IsAbsent hidden none-IsAbsent (lookup_layers-IsAbsent info name path))))
