-- ===== src/PathApi/Stat/Words.antt =====
-- Where a symbolic link leads, on the components of a path: `next_path` against them.
use mathlib.Core.Path.{subst}
use mathlib.Core.List.{append-nil}
use airyfs.Prelude.{
  ℕ, suc, ◌≡◌, ◌⊎◌, inl, inr, refl, sym, ap, ◌∙◌, true, Option, none, some, List, [], ◌∷◌, ◌++◌,
  nat_beq, nat_eq, entry_eq, pair_eq, bytes_eq, if◌then◌else◌, Bool-cases, arith,
}
use airyfs.Prelude.Table.{select}
use airyfs.Mode.{Stats, file_type, s_iflnk}
use airyfs.Db.{Bytes, Inode, Db, root_ino}
use airyfs.Fs.{getattr}
use airyfs.Fs.WellFormed.{row_at}
use airyfs.PathName.{
  slash, trim_end, split, non_empty, without_last, add_component, resolve_dots, join,
  normalize_path, split_path,
}
use airyfs.PathName.Pieces.{
  slash_free, is_clean, all_of, split-slash_free, split-word, split-append, all-without_last,
}
use airyfs.PathName.Clean.{components, components-clean, normalized, split_path-components}
use airyfs.PathApi.Walk.{walk}
use airyfs.PathApi.Stat.{
  starts_with_slash, ends_with_slash, is_passed, trim_pieces, path_parent, path_join, target_path,
  next_path,
}
use airyfs.PathApi.Stat.Links.{attributes, Links, normalize_path-slash}

-- The components of a path, `..` among them, without what stands for nothing.
unfoldable pub kept : List Bytes → List Bytes
kept [] = []
kept (w ∷ ws) = let rest = kept ws in if is_passed w then rest else w ∷ rest

abbrev pub words : Bytes → List Bytes
words path = kept (split path)

kept-append : (a b : List Bytes) → kept (a ++ b) ≡ kept a ++ kept b
unfolding kept
kept-append [] b = refl
kept-append (w ∷ a) b = ground (arith, kept-append a b)

resolve_dots-kept :
    (result ws : List Bytes) → resolve_dots result (kept ws) ≡ resolve_dots result (non_empty ws)
unfolding resolve_dots kept non_empty add_component
resolve_dots-kept result [] = refl
resolve_dots-kept result (w ∷ ws) =
    ground (arith, resolve_dots-kept result ws, resolve_dots-kept (add_component result w) ws)

kept-clean : (ws : List Bytes) → all_of is_clean ws ≡ true → kept ws ≡ ws
unfolding kept all_of
kept-clean [] h = refl
kept-clean (w ∷ ws) h = ground (arith, kept-clean ws)

-- the pieces of a path, cut after a slash
abbrev head : List Bytes → Bytes
head [] = []
head (w ∷ ws) = w

abbrev tail : List Bytes → List Bytes
tail [] = []
tail (w ∷ ws) = ws

split-cons : (cs : Bytes) → split cs ≡ head (split cs) ∷ tail (split cs)
unfolding split
split-cons [] = refl
split-cons (c ∷ cs) = ground (arith, split-cons cs)

List-cases : {A : Type 0} (xs : List A) → (xs ≡ []) ⊎ ((x : A) × (rest : List A) × (xs ≡ x ∷ rest))
List-cases [] = inl refl
List-cases (x ∷ rest) = inr (x, rest, refl)

-- slashes at the end give no piece
trim_end-pieces :
    (cs : Bytes)
    → (head (split (trim_end cs)) ≡ head (split cs))
      × (kept (tail (split (trim_end cs))) ≡ kept (tail (split cs)))
unfolding trim_end split kept
trim_end-pieces [] = (refl, refl)
trim_end-pieces (c ∷ cs) = elim (List-cases (trim_end cs)) [
  | inl bare ↦ ground (arith, trim_end-pieces cs, split-cons cs, ap split bare)
  | inr (d, r, more) ↦ ground (
    arith,
    trim_end-pieces cs,
    split-cons cs,
    split-cons (trim_end cs),
    split-cons (d ∷ r),
    ap split more,
  )
]

words-trim_end : (cs : Bytes) → words (trim_end cs) ≡ words cs
unfolding kept
words-trim_end cs =
    ap kept (split-cons (trim_end cs))
    ∙ ground (arith, trim_end-pieces cs)
    ∙ ap kept (sym (split-cons cs))

-- a slash ends a piece
split-slash : (a b : Bytes) → split (a ++ (slash ∷ b)) ≡ split a ++ split b
unfolding split
split-slash [] b = ground arith
split-slash (c ∷ a) b = ground (arith, split-slash a b, split-cons a)

append_assoc : (a b c : Bytes) → (a ++ b) ++ c ≡ a ++ (b ++ c)
append_assoc [] b c = refl
append_assoc (x ∷ a) b c = ap (λ r. x ∷ r) (append_assoc a b c)

last_slash : (dir : Bytes) → ends_with_slash dir ≡ true → (a : Bytes) × (dir ≡ a ++ (slash ∷ []))
last_slash [] h = ground arith
last_slash (c ∷ []) h = ([], ground arith)
last_slash (c ∷ d ∷ dir) h = let (a, e) = last_slash (d ∷ dir) h in (c ∷ a, ap (λ r. c ∷ r) e)

words-slash : (a b : Bytes) → words (a ++ (slash ∷ b)) ≡ words a ++ words b
words-slash a b = ap kept (split-slash a b) ∙ kept-append (split a) (split b)

words-path_join : (dir target : Bytes) → words (path_join dir target) ≡ words dir ++ words target
unfolding path_join kept split
words-path_join dir target = elim (Bool-cases (ends_with_slash dir)) [
  | inr bare ↦ rw bare (words-slash dir target)
  | inl shut ↦
      let (a, e) = last_slash dir shut in
      rw shut (
        ap (λ p. words (p ++ target)) e
        ∙ ap words (append_assoc a (slash ∷ []) target)
        ∙ words-slash a target
        ∙ ap (λ ws. ws ++ words target)
            (sym (append-nil (words a)) ∙ sym (words-slash a []) ∙ sym (ap words e)))
]

kept-none : (ws : List Bytes) → kept ws ≡ [] → trim_pieces ws ≡ []
unfolding kept trim_pieces
kept-none [] h = refl
kept-none (w ∷ ws) h = ground (arith, kept-none ws)

kept-trim_pieces : (ws : List Bytes) → kept (trim_pieces ws) ≡ kept ws
unfolding kept trim_pieces
kept-trim_pieces [] = refl
kept-trim_pieces (w ∷ ws) = elim (List-cases (trim_pieces ws)) [
  | inl bare ↦ ground (arith, kept-trim_pieces ws, ap kept bare)
  | inr (v, vs, more) ↦ ground (arith, kept-trim_pieces ws, ap kept more)
]

kept-without_last :
    (ws : List Bytes) → kept (without_last (trim_pieces ws)) ≡ without_last (kept ws)
unfolding kept trim_pieces without_last
kept-without_last [] = refl
kept-without_last (w ∷ ws) = elim (List-cases (trim_pieces ws)) [
  | inl bare ↦ ground (arith, kept-trim_pieces ws, ap kept bare)
  | inr (v, vs, more) ↦ elim (List-cases (kept ws)) [
    | inl gone ↦ ground (arith, kept-none ws gone)
    | inr (u, us, some_kept) ↦ ground (
      arith,
      kept-without_last ws,
      ap (λ r. kept (without_last r)) more,
      ap without_last some_kept,
    )
  ]
]

trim_pieces-slash_free :
    (ws : List Bytes) → all_of slash_free ws ≡ true → all_of slash_free (trim_pieces ws) ≡ true
unfolding all_of trim_pieces
trim_pieces-slash_free [] h = refl
trim_pieces-slash_free (w ∷ ws) h = elim (List-cases (trim_pieces ws)) [
  | inl bare ↦ ground (arith, ap (all_of slash_free) bare)
  | inr (v, vs, more) ↦ ground (arith, trim_pieces-slash_free ws, ap (all_of slash_free) more)
]

split-join_free :
    (w : Bytes) (ws : List Bytes)
    → all_of slash_free (w ∷ ws) ≡ true
    → split (join (w ∷ ws)) ≡ w ∷ ws
unfolding join all_of
split-join_free w [] h = split-word w (ground arith)
split-join_free w (v ∷ ws) h =
    split-append w (join (v ∷ ws)) (ground arith)
    ∙ ap (λ r. w ∷ r) (split-join_free v ws (ground arith))

words-join : (ws : List Bytes) → all_of slash_free ws ≡ true → words (slash ∷ join ws) ≡ kept ws
unfolding split kept join
words-join [] h = refl
words-join (w ∷ ws) h = ap kept (split-join_free w ws h)

-- The parent has the components but the last.
words-path_parent :
    (rest : Bytes) → words (path_parent (slash ∷ rest)) ≡ without_last (words (slash ∷ rest))
unfolding path_parent split kept
words-path_parent rest =
    let shorter : List Bytes = without_last (trim_pieces (split rest)) in
    words-join (trim_pieces shorter) (
      trim_pieces-slash_free shorter (
        all-without_last slash_free (trim_pieces (split rest))
          (trim_pieces-slash_free (split rest) (split-slash_free rest))))
    ∙ kept-trim_pieces shorter
    ∙ kept-without_last (split rest)

-- where a link with this target leads, from the components of its own path
unfoldable pub leads : List Bytes → Bytes → List Bytes
leads ws target =
    resolve_dots [] ((if starts_with_slash target then [] else without_last ws) ++ words target)

clean-slash_free : (ws : List Bytes) → all_of is_clean ws ≡ true → all_of slash_free ws ≡ true
unfolding all_of
clean-slash_free [] h = refl
clean-slash_free (w ∷ ws) h = ground (arith, clean-slash_free ws)

words-normalize_path :
    (rest : Bytes) → words (normalize_path (slash ∷ rest)) ≡ resolve_dots [] (words (slash ∷ rest))
words-normalize_path rest =
    let path : Bytes = slash ∷ rest in
    ap words (normalized rest)
    ∙ words-join (components (trim_end path))
        (clean-slash_free (components (trim_end path)) (components-clean (trim_end path)))
    ∙ kept-clean (components (trim_end path)) (components-clean (trim_end path))
    ∙ sym (resolve_dots-kept [] (split (trim_end path)))
    ∙ ap (resolve_dots []) (words-trim_end path)

split_path-words :
    (rest : Bytes) → split_path (slash ∷ rest) ≡ resolve_dots [] (words (slash ∷ rest))
split_path-words rest =
    let path : Bytes = slash ∷ rest in
    split_path-components rest
    ∙ sym (resolve_dots-kept [] (split (trim_end path)))
    ∙ ap (resolve_dots []) (words-trim_end path)

path_join-slash :
    (dir target : Bytes) → (rest : Bytes) × (path_join (slash ∷ dir) target ≡ slash ∷ rest)
unfolding path_join
path_join-slash dir target = elim (Bool-cases (ends_with_slash (slash ∷ dir))) [
  | inl shut ↦ (dir ++ target, rw shut refl)
  | inr bare ↦ (dir ++ (slash ∷ target), rw bare refl)
]

target-slash :
    (path target : Bytes) → (rest : Bytes) × (target_path (slash ∷ path) target ≡ slash ∷ rest)
unfolding target_path path_parent
target-slash path [] = path_join-slash _ []
target-slash path (c ∷ cs) = elim (Bool-cases (nat_beq c slash)) [
  | inl whole ↦ (cs, ground arith)
  | inr part ↦
      let (rest, e) =
        path_join-slash (join (trim_pieces (without_last (trim_pieces (split path))))) (c ∷ cs) in
      (rest, rw part e)
]

words-target_path :
    (path target : Bytes)
    → words (target_path (slash ∷ path) target)
      ≡ (if starts_with_slash target then [] else without_last (words (slash ∷ path)))
        ++ words target
unfolding target_path
words-target_path path target = elim (Bool-cases (starts_with_slash target)) [
  | inl whole ↦ rw whole refl
  | inr part ↦ rw part (
      words-path_join (path_parent (slash ∷ path)) target
      ∙ ap (λ ws. ws ++ words target) (words-path_parent path))
]

-- So many symbolic links lead on from the path with these components. The `..` of a path take the
-- component before them with them when it is looked up, and so do those of a target, which is read
-- from the directory of the link if it does not begin with a slash.
pub data LinkTrail (db : Db) : List Bytes → ℕ → List Bytes → Type 0 where
  ends : (ws vs : List Bytes) (n : ℕ) → n ≡ 0 → ws ≡ vs → LinkTrail db ws n vs
  follows :
      (ws vs : List Bytes) (n ino : ℕ) (row : Inode) (target : Bytes)
      → walk db (resolve_dots [] ws) root_ino ≡ some ino
      → row_at db ino ≡ some row
      → file_type row.mode ≡ s_iflnk
      → select ino db.symlinks ≡ some target
      → LinkTrail db (leads ws target) n vs
      → LinkTrail db ws (suc n) vs

words-next_path :
    (rest target : Bytes)
    → (r : Bytes) × (next_path (slash ∷ rest) target ≡ slash ∷ r)
      × (words (slash ∷ r) ≡ leads (words (slash ∷ rest)) target)
unfolding next_path leads
words-next_path rest target =
    let (q, at) = target-slash rest target in
    let (r, is) = normalize_path-slash (slash ∷ q) in
    (
      r,
      ap normalize_path at ∙ is,
      ap words (sym is)
          ∙ words-normalize_path q
          ∙ ap (resolve_dots []) (ap words (sym at) ∙ words-target_path rest target),
    )

-- The links of the text of a path are those of its components.
pub LinkTrail-Links :
    (db : Db) (rest : Bytes) (ws vs : List Bytes) (n : ℕ)
    → words (slash ∷ rest) ≡ ws
    → LinkTrail db ws n vs
    → (q : Bytes) × Links db (slash ∷ rest) n (slash ∷ q) × (words (slash ∷ q) ≡ vs)
LinkTrail-Links db rest ws _ n e (LinkTrail.ends _ vs _ none_left same) =
    (rest, Links.here (slash ∷ rest) (slash ∷ rest) n none_left refl, e ∙ same)
LinkTrail-Links db rest ws _ _ e
      (LinkTrail.follows _ vs n ino row target named there kind stored later) =
    let (r, is, onto) = words-next_path rest target in
    let (q, links, last) =
      LinkTrail-Links db r (leads ws target) vs n (onto ∙ ap (λ us. leads us target) e) later in
    (
      q,
      Links.hop (slash ∷ rest) (slash ∷ q) n ino row target
          (ap (λ us. walk db us root_ino) (split_path-words rest ∙ ap (resolve_dots []) e) ∙ named)
          there kind stored (subst (λ p. Links db p n (slash ∷ q)) (sym is) links),
      last,
    )

-- the attributes of what the components lead to
abbrev pub attributes_at : Db → List Bytes → Option Stats
attributes_at db ws = elim (walk db (resolve_dots [] ws) root_ino) [
  | none ↦ none
  | some ino ↦ getattr db ino
]

pub attributes-words :
    (db : Db) (q : Bytes) (vs : List Bytes)
    → words (slash ∷ q) ≡ vs
    → attributes db (slash ∷ q) ≡ attributes_at db vs
unfolding attributes
attributes-words db q vs e =
    ap (λ us. elim (walk db us root_ino) [ none ↦ none | some ino ↦ getattr db ino ])
      (split_path-words q ∙ ap (resolve_dots []) e)
