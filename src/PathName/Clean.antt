-- ===== src/PathName/Clean.antt =====
-- The components of a path from the root, and normalising twice.
use airyfs.Prelude.{
  ◌≡◌, ◌⊎◌, inl, inr, refl, sym, ap, ◌∙◌, true, false, List, [], ◌∷◌, ◌++◌, bytes_beq_iff, arith,
  Bool-cases,
}
use airyfs.Db.{Bytes}
use airyfs.PathName.{
  slash, root, is_empty, trim_end, split, non_empty, resolve_dots, join, resolved, normalize_path,
  split_path,
}
use airyfs.PathName.Pieces.{
  slash_free, is_named, is_clean, all_of, split-slash_free, non_empty-named, resolve_dots-clean,
  resolve_dots-id, split-join, clean-named,
}

-- The components that a path from the root resolves to.
abbrev pub components : Bytes → List Bytes
components path = resolve_dots [] (non_empty (split path))

pub components-clean : (path : Bytes) → all_of is_clean (components path) ≡ true
unfolding all_of
components-clean path =
    resolve_dots-clean [] (non_empty (split path)) refl
      (non_empty-named (split path) (split-slash_free path))

resolved-join : (path : Bytes) → resolved path ≡ slash ∷ join (components path)
unfolding resolved join
resolved-join path = ground arith

-- the pieces of a path that was put together
pub pieces_of-join :
    (ws : List Bytes) → all_of is_clean ws ≡ true → non_empty (split (slash ∷ join ws)) ≡ ws
unfolding split non_empty
pieces_of-join ws h = ground (arith, split-join ws (clean-named ws h))

join-none : (ws : List Bytes) → all_of is_clean ws ≡ true → join ws ≡ [] → ws ≡ []
unfolding all_of join
join-none [] h e = refl
join-none (w ∷ []) h e = ground arith
join-none ([] ∷ v ∷ ws) h e = ground arith
join-none ((c ∷ cs) ∷ v ∷ ws) h e = cc

trim_end-word : (w : Bytes) → slash_free w ≡ true → trim_end w ≡ w
unfolding trim_end
trim_end-word [] h = refl
trim_end-word (c ∷ []) h = ground arith
trim_end-word (c ∷ d ∷ cs) h = ground (arith, trim_end-word (d ∷ cs))

trim_end-append : (w r : Bytes) → trim_end r ≡ r → is_empty r ≡ false → trim_end (w ++ r) ≡ w ++ r
unfolding trim_end
trim_end-append [] r h k = h
trim_end-append (c ∷ []) r h k = ground arith
trim_end-append (c ∷ d ∷ w) r h k = ground (arith, trim_end-append (d ∷ w) r)

join-not_empty :
    (w : Bytes) (ws : List Bytes)
    → all_of is_named (w ∷ ws) ≡ true
    → is_empty (join (w ∷ ws)) ≡ false
unfolding all_of join
join-not_empty [] ws h = ground arith
join-not_empty (c ∷ cs) [] h = refl
join-not_empty (c ∷ cs) (v ∷ ws) h = refl

-- a joined path ends in no slash
trim_end-join : (ws : List Bytes) → all_of is_named ws ≡ true → trim_end (join ws) ≡ join ws
unfolding all_of join trim_end
trim_end-join [] h = refl
trim_end-join (w ∷ []) h = ground (arith, trim_end-word w)
trim_end-join (w ∷ v ∷ ws) h =
    let inner : trim_end (join (v ∷ ws)) ≡ join (v ∷ ws) = trim_end-join (v ∷ ws) (ground arith) in
    let some_left : is_empty (join (v ∷ ws)) ≡ false = join-not_empty v ws (ground arith) in
    trim_end-append w (slash ∷ join (v ∷ ws)) (rw (inner, some_left) refl) refl

trim_end-front :
    (r : Bytes) → trim_end r ≡ r → is_empty r ≡ false → trim_end (slash ∷ r) ≡ slash ∷ r
trim_end-front r h k = trim_end-append (slash ∷ []) r h k

pub components-join :
    (ws : List Bytes) → all_of is_clean ws ≡ true → components (trim_end (slash ∷ join ws)) ≡ ws
unfolding trim_end split non_empty resolve_dots join
components-join [] h = refl
components-join (w ∷ ws) h =
    let named = clean-named (w ∷ ws) h in
    let whole : trim_end (slash ∷ join (w ∷ ws)) ≡ slash ∷ join (w ∷ ws) =
      trim_end-front (join (w ∷ ws)) (trim_end-join (w ∷ ws) named) (join-not_empty w ws named) in
    ap components whole
    ∙ ap (resolve_dots []) (pieces_of-join (w ∷ ws) h)
    ∙ resolve_dots-id [] (w ∷ ws) h

trim_end-cases :
    (rest : Bytes)
    → (trim_end (slash ∷ rest) ≡ []) ⊎ ((r : Bytes) × (trim_end (slash ∷ rest) ≡ slash ∷ r))
unfolding trim_end
trim_end-cases rest = elim (Bool-cases (is_empty (trim_end rest))) [
  | inl bare ↦ inl (ground arith)
  | inr more ↦ inr (trim_end rest, ground arith)
]

root_has_none : resolved root ≡ slash ∷ join (components [])
unfolding resolved split non_empty resolve_dots join
root_has_none = refl

pub normalized :
    (rest : Bytes)
    → normalize_path (slash ∷ rest) ≡ slash ∷ join (components (trim_end (slash ∷ rest)))
unfolding normalize_path
normalized rest = elim (trim_end-cases rest) [
  | inl bare ↦ rw (normalize_path, bare) root_has_none
  | inr (r, more) ↦ rw (normalize_path, more) (resolved-join (slash ∷ r))
]

module _ (rest : Bytes) where
  -- The components that `split_path` finds in a path from the root are those of the path
  -- without its slashes at the end, in order, empty ones and `.` left out and each `..` taking
  -- the one before it with it: normalising, joining and splitting again lose nothing.
  pub split_path-components :
      split_path (slash ∷ rest) ≡ resolve_dots [] (non_empty (split (trim_end (slash ∷ rest))))
  unfolding split_path
  split_path-components =
      let ws : List Bytes = components (trim_end (slash ∷ rest)) in
      let clean = components-clean (trim_end (slash ∷ rest)) in
      ground (
        arith,
        pieces_of-join ws clean,
        join-none ws clean,
        bytes_beq_iff (slash ∷ join ws) root,
        normalized rest,
      )

  -- No component that `split_path` finds in a path from the root is empty, `.` or `..`, and
  -- none has a slash.
  pub split_path-clean : all_of is_clean (split_path (slash ∷ rest)) ≡ true
  unfolding split_path all_of
  split_path-clean = ground (
    arith,
    pieces_of-join (components (trim_end (slash ∷ rest)))
        (components-clean (trim_end (slash ∷ rest))),
    components-clean (trim_end (slash ∷ rest)),
    normalized rest,
  )

  -- Normalising a path from the root a second time changes nothing.
  pub normalize_path-idempotent :
      normalize_path (normalize_path (slash ∷ rest)) ≡ normalize_path (slash ∷ rest)
  normalize_path-idempotent =
      let ws : List Bytes = components (trim_end (slash ∷ rest)) in
      let again : normalize_path (slash ∷ join ws)
          ≡ slash ∷ join (components (trim_end (slash ∷ join ws))) =
        normalized (join ws) in
      ap normalize_path (normalized rest)
      ∙ again
      ∙ ap (λ (vs : List Bytes). slash ∷ join vs)
          (components-join ws (components-clean (trim_end (slash ∷ rest))))
      ∙ sym (normalized rest)
