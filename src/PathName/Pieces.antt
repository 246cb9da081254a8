-- ===== src/PathName/Pieces.antt =====
-- The pieces of a path: what splitting gives, what the dots leave, and joining.
use mathlib.Core.List.{append-nil}
use airyfs.Prelude.{
  ℕ, ◌≡◌, refl, sym, ap, Bool, true, false, not, ◌&&◌, List, [], ◌∷◌, ◌++◌, nat_beq, bytes_beq,
  arith,
}
use airyfs.Db.{Bytes}
use airyfs.PathName.{
  slash, dot, two_dots, is_empty, put_front, split, non_empty, without_last, add_component,
  resolve_dots, join,
}

abbrev pub slash_free : Bytes → Bool
slash_free [] = true
slash_free (c ∷ cs) = not (nat_beq c slash) && slash_free cs

-- a component as it comes from a path, and one that stays in it
abbrev pub is_named : Bytes → Bool
is_named w = not (is_empty w) && slash_free w

abbrev pub is_clean : Bytes → Bool
is_clean w = is_named w && not (bytes_beq w dot) && not (bytes_beq w two_dots)

unfoldable pub all_of : (Bytes → Bool) → List Bytes → Bool
all_of p [] = true
all_of p (w ∷ ws) = p w && all_of p ws

put_front-slash_free :
    (c : ℕ) (ws : List Bytes)
    → nat_beq c slash ≡ false
    → all_of slash_free ws ≡ true
    → all_of slash_free (put_front c ws) ≡ true
unfolding all_of
put_front-slash_free c [] h k = ground arith
put_front-slash_free c (w ∷ ws) h k = ground arith

pub split-slash_free : (cs : Bytes) → all_of slash_free (split cs) ≡ true
unfolding split all_of
split-slash_free [] = refl
split-slash_free (c ∷ cs) = ground (arith, split-slash_free cs, put_front-slash_free c (split cs))

pub non_empty-named :
    (ws : List Bytes) → all_of slash_free ws ≡ true → all_of is_named (non_empty ws) ≡ true
unfolding non_empty all_of
non_empty-named [] h = refl
non_empty-named (w ∷ ws) h = ground (arith, non_empty-named ws)

all-append :
    (p : Bytes → Bool) (ws : List Bytes) (w : Bytes)
    → all_of p (ws ++ (w ∷ [])) ≡ all_of p ws && p w
unfolding all_of
all-append p [] w = ground arith
all-append p (v ∷ ws) w = ground (arith, all-append p ws w)

pub all-without_last :
    (p : Bytes → Bool) (ws : List Bytes) → all_of p ws ≡ true → all_of p (without_last ws) ≡ true
unfolding all_of without_last
all-without_last p [] h = refl
all-without_last p (v ∷ []) h = refl
all-without_last p (v ∷ w ∷ ws) h = ground (arith, all-without_last p (w ∷ ws))

pub resolve_dots-clean :
    (result cs : List Bytes)
    → all_of is_clean result ≡ true
    → all_of is_named cs ≡ true
    → all_of is_clean (resolve_dots result cs) ≡ true
unfolding resolve_dots all_of add_component
resolve_dots-clean result [] r n = r
resolve_dots-clean result (c ∷ cs) r n =
    resolve_dots-clean (add_component result c) cs
      (ground (arith, all-append is_clean result c, all-without_last is_clean result))
      (ground arith)

append_assoc : (xs ys : List Bytes) (w : Bytes) → (xs ++ (w ∷ [])) ++ ys ≡ xs ++ (w ∷ ys)
append_assoc [] ys w = refl
append_assoc (x ∷ xs) ys w = ap (λ zs. x ∷ zs) (append_assoc xs ys w)

-- clean components stay
pub resolve_dots-id :
    (result cs : List Bytes) → all_of is_clean cs ≡ true → resolve_dots result cs ≡ result ++ cs
unfolding resolve_dots all_of add_component
resolve_dots-id result [] h = sym (append-nil result)
resolve_dots-id result (c ∷ cs) h =
    ground (arith, resolve_dots-id (result ++ (c ∷ [])) cs, append_assoc result cs c)

pub split-word : (w : Bytes) → slash_free w ≡ true → split w ≡ w ∷ []
unfolding split
split-word [] h = refl
split-word (c ∷ cs) h = ground (arith, split-word cs)

pub split-append :
    (w rest : Bytes) → slash_free w ≡ true → split (w ++ (slash ∷ rest)) ≡ w ∷ split rest
unfolding split
split-append [] rest h = ground arith
split-append (c ∷ cs) rest h = ground (arith, split-append cs rest)

-- Splitting what was joined gives the components back.
pub split-join : (ws : List Bytes) → all_of is_named ws ≡ true → non_empty (split (join ws)) ≡ ws
unfolding join all_of non_empty split
split-join [] h = refl
split-join (w ∷ []) h = ground (arith, split-word w)
split-join (w ∷ v ∷ ws) h = ground (arith, split-append w (join (v ∷ ws)), split-join (v ∷ ws))

pub clean-named : (ws : List Bytes) → all_of is_clean ws ≡ true → all_of is_named ws ≡ true
unfolding all_of
clean-named [] h = refl
clean-named (w ∷ ws) h = ground (arith, clean-named ws)
