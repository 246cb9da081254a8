-- ===== src/Overlay/Hidden.antt =====
-- `is_whiteout` against the paths above a path.
use mathlib.Core.List.{append-nil}
use airyfs.Prelude.{
  ◌≡◌, refl, sym, ap, ◌∙◌, Bool, true, false, ◌||◌, List, [], ◌∷◌, ◌++◌, map, bytes_beq_iff, arith,
}
use airyfs.Mode.{Stamp}
use airyfs.Db.{Bytes}
use airyfs.PathName.{slash, root, split, non_empty}
use airyfs.PathName.Pieces.{slash_free, is_named, all_of, split-word, split-append}
use airyfs.Mounts.Inside.{absolute}
use airyfs.Overlay.{Overlay}
use airyfs.Overlay.Maps.{components, contains, covered, is_whiteout, create_whiteout, child_path}

-- the first components of a path, one or more
unfoldable pub prefixes : List Bytes → List (List Bytes)
prefixes [] = []
prefixes (w ∷ ws) = (w ∷ []) ∷ map (λ p. w ∷ p) (prefixes ws)

unfoldable pub any_of : (List Bytes → Bool) → List (List Bytes) → Bool
any_of p [] = false
any_of p (w ∷ ws) = p w || any_of p ws

any_of-map :
    (p : List Bytes → Bool) (f : List Bytes → List Bytes) (ws : List (List Bytes))
    → any_of p (map f ws) ≡ any_of (λ w. p (f w)) ws
unfolding any_of
any_of-map p f [] = refl
any_of-map p f (w ∷ ws) = ap (λ b. p (f w) || b) (any_of-map p f ws)

any_of-same :
    (p q : List Bytes → Bool) (ws : List (List Bytes))
    → ((w : List Bytes) → p w ≡ q w)
    → any_of p ws ≡ any_of q ws
unfolding any_of
any_of-same p q [] h = refl
any_of-same p q (w ∷ ws) h = ground (arith, h w, any_of-same p q ws h)

pub append_assoc : (a b c : Bytes) → (a ++ b) ++ c ≡ a ++ (b ++ c)
append_assoc [] b c = refl
append_assoc (x ∷ a) b c = ap (λ r. x ∷ r) (append_assoc a b c)

pub absolute-append :
    (vs : List Bytes) (w : Bytes) → absolute (vs ++ (w ∷ [])) ≡ absolute vs ++ (slash ∷ w)
unfolding absolute
absolute-append [] w = ap (λ r. slash ∷ r) (append-nil w)
absolute-append (v ∷ vs) w =
    ap (λ r. slash ∷ r)
      (ap (λ r. v ++ r) (absolute-append vs w) ∙ sym (append_assoc v (absolute vs) (slash ∷ w)))

split-absolute :
    (w : Bytes) (ws : List Bytes)
    → slash_free w ≡ true
    → all_of is_named ws ≡ true
    → split (w ++ absolute ws) ≡ w ∷ ws
unfolding absolute all_of
split-absolute w [] h g = ap split (append-nil w) ∙ split-word w h
split-absolute w (v ∷ ws) h g =
    split-append w (v ++ absolute ws) h
    ∙ ap (λ r. w ∷ r) (split-absolute v ws (ground arith) (ground arith))

non_empty-id : (ws : List Bytes) → all_of is_named ws ≡ true → non_empty ws ≡ ws
unfolding non_empty all_of
non_empty-id [] h = refl
non_empty-id (w ∷ ws) h = ground (arith, non_empty-id ws)

pub components-absolute :
    (ws : List Bytes) → all_of is_named ws ≡ true → components (absolute ws) ≡ ws
unfolding absolute split non_empty all_of
components-absolute [] h = refl
components-absolute (w ∷ ws) h =
    ap non_empty (split-absolute w ws (ground arith) (ground arith)) ∙ non_empty-id (w ∷ ws) h

covered-prefixes :
    (hidden : List Bytes) (current : Bytes) (ws : List Bytes)
    → covered hidden current ws
      ≡ any_of (λ p. contains hidden (current ++ absolute p)) (prefixes ws)
unfolding covered prefixes any_of absolute
covered-prefixes hidden current [] = refl
covered-prefixes hidden current (w ∷ ws) =
    let next : Bytes = current ++ (slash ∷ w) in
    let here : current ++ absolute (w ∷ []) ≡ next =
      ap (λ r. current ++ (slash ∷ r)) (append-nil w) in
    let deeper = λ (p : List Bytes). append_assoc current (slash ∷ w) (absolute p) in
    ground (
      arith,
      here,
      covered-prefixes hidden next ws,
      any_of-map (λ p. contains hidden (current ++ absolute p)) (λ p. w ∷ p) (prefixes ws),
      any_of-same (λ p. contains hidden (next ++ absolute p))
          (λ p. contains hidden (current ++ absolute (w ∷ p))) (prefixes ws)
          (λ p. ap (contains hidden) (deeper p)),
    )

-- A path of named components without slashes is covered by a whiteout exactly when one of the
-- paths of its first components, itself included, is in the set of whiteouts.
pub is_whiteout-prefixes :
    (o : Overlay) (ws : List Bytes)
    → all_of is_named ws ≡ true
    → is_whiteout o (absolute ws) ≡ any_of (λ p. contains o.whiteouts (absolute p)) (prefixes ws)
unfolding is_whiteout
is_whiteout-prefixes o ws h =
    ap (covered o.whiteouts []) (components-absolute ws h) ∙ covered-prefixes o.whiteouts [] ws

pub any_of-last :
    (p : List Bytes → Bool) (ws : List Bytes) (w : Bytes)
    → p (ws ++ (w ∷ [])) ≡ true
    → any_of p (prefixes (ws ++ (w ∷ []))) ≡ true
unfolding any_of prefixes
any_of-last p [] w h = ground arith
any_of-last p (v ∷ ws) w h = ground (
  arith,
  any_of-map p (λ r. v ∷ r) (prefixes (ws ++ (w ∷ []))),
  any_of-last (λ r. p (v ∷ r)) ws w h,
)

abbrev pub dir_path : List Bytes → Bytes
dir_path [] = root
dir_path (w ∷ ws) = absolute (w ∷ ws)

pub child_path-absolute :
    (ws : List Bytes) (w : Bytes)
    → all_of is_named ws ≡ true
    → child_path (dir_path ws) w ≡ absolute (ws ++ (w ∷ []))
unfolding absolute all_of
child_path-absolute [] w h = ap (λ r. slash ∷ r) (sym (append-nil w))
child_path-absolute ([] ∷ ws) w h = ground arith
child_path-absolute ((c ∷ v) ∷ ws) w h = sym (absolute-append ((c ∷ v) ∷ ws) w)

pub all_of-last :
    (p : Bytes → Bool) (ws : List Bytes) (w : Bytes)
    → all_of p ws ≡ true
    → p w ≡ true
    → all_of p (ws ++ (w ∷ [])) ≡ true
unfolding all_of
all_of-last p [] w h k = ground arith
all_of-last p (v ∷ ws) w h k = ground (arith, all_of-last p ws w)

-- a whiteout covers the path that it is put on
pub create_whiteout-hides :
    (now : Stamp) (ws : List Bytes) (w : Bytes) (o : Overlay)
    → all_of is_named ws ≡ true
    → is_named w ≡ true
    → let path : Bytes = child_path (dir_path ws) w in
      is_whiteout (create_whiteout now path o) path ≡ true
unfolding create_whiteout contains
create_whiteout-hides now ws w o h k =
    let path : Bytes = absolute (ws ++ (w ∷ [])) in
    let marked : Overlay = create_whiteout now path o in
    rw (child_path-absolute ws w h) (
      is_whiteout-prefixes marked (ws ++ (w ∷ [])) (all_of-last is_named ws w h k)
      ∙ any_of-last (λ p. contains marked.whiteouts (absolute p)) ws w
          (ground (arith, bytes_beq_iff path path)))
