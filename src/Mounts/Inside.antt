-- ===== src/Mounts/Inside.antt =====
-- `BindVfs::translate_path` against the components of its paths.
use mathlib.Core.List.{append-nil}
use airyfs.Prelude.{
  ◌≡◌, refl, sym, ap, ◌∙◌, Bool, true, false, ◌||◌, Option, none, some, List, [], ◌∷◌, ◌++◌,
  nat_beq, bytes_beq, if◌then◌else◌, Option-cases, inl, inr, arith,
}
use airyfs.Db.{Bytes}
use airyfs.PathName.{slash, is_empty}
use airyfs.PathName.Pieces.{slash_free, is_named, all_of}
use airyfs.PathApi.Stat.{starts_with_slash, path_join, ends_with_slash}
use airyfs.PathApi.Remove.{starts_with}
use airyfs.Mounts.{
  VfsResult, ok, err, not_found, bind_vfs, trim_start, strip_prefix, or_empty, host_path,
  bind_translate, translate_path,
}

-- a path of named components, without a slash at its end
unfoldable pub absolute : List Bytes → Bytes
absolute [] = []
absolute (w ∷ ws) = slash ∷ (w ++ absolute ws)

-- the components below those of the mount
unfoldable pub strip_components : List Bytes → List Bytes → Option (List Bytes)
strip_components [] ws = some ws
strip_components (u ∷ us) [] = none
strip_components (u ∷ us) (w ∷ ws) =
    let rest = strip_components us ws in if bytes_beq u w then rest else none

abbrev pub below : Bytes → Option (List Bytes) → VfsResult
below host_root none = err not_found
below host_root (some ws) = ok (host_root ++ absolute ws)

-- a prefix that ends where a component does
unfoldable cut : Bytes → Bytes → Option Bytes
cut [] bs = if is_empty bs || starts_with_slash bs then some bs else none
cut (a ∷ ps) [] = none
cut (a ∷ ps) (b ∷ bs) = let rest = cut ps bs in if nat_beq a b then rest else none

abbrev absolute_of : Option (List Bytes) → Option Bytes
absolute_of none = none
absolute_of (some ws) = some (absolute ws)

abbrev placed : Bytes → Option Bytes → VfsResult
placed host_root none = err not_found
placed host_root (some bs) = ok (host_path host_root (trim_start bs))

-- the test of the source, and what it keeps
cut-strip_prefix :
    (ps bs : Bytes)
    → cut ps bs ≡ (
        if bytes_beq bs ps || starts_with (ps ++ (slash ∷ [])) bs
        then some (or_empty (strip_prefix ps bs))
        else none)
unfolding cut starts_with strip_prefix
cut-strip_prefix [] [] = refl
cut-strip_prefix [] (b ∷ bs) = ground arith
cut-strip_prefix (a ∷ ps) [] = refl
cut-strip_prefix (a ∷ ps) (b ∷ bs) = ground (arith, cut-strip_prefix ps bs)

bind_translate-cut :
    (host_root sandbox_root path : Bytes)
    → bind_translate host_root sandbox_root path ≡ placed host_root (cut sandbox_root path)
unfolding bind_translate
bind_translate-cut host_root sandbox_root path = ground (arith, cut-strip_prefix sandbox_root path)

cut-append :
    (u w : Bytes) (us ws : List Bytes)
    → slash_free u ≡ true
    → slash_free w ≡ true
    → cut (u ++ absolute us) (w ++ absolute ws)
      ≡ (if bytes_beq u w then cut (absolute us) (absolute ws) else none)
unfolding cut absolute
cut-append [] [] us ws f g = refl
cut-append [] (c ∷ w) [] ws f g = ground arith
cut-append [] (c ∷ w) (v ∷ us) ws f g = ground arith
cut-append (b ∷ u) [] us [] f g = refl
cut-append (b ∷ u) [] us (v ∷ ws) f g = ground arith
cut-append (b ∷ u) (c ∷ w) us ws f g = ground (arith, cut-append u w us ws)

cut-absolute :
    (us ws : List Bytes)
    → all_of is_named us ≡ true
    → all_of is_named ws ≡ true
    → cut (absolute us) (absolute ws) ≡ absolute_of (strip_components us ws)
unfolding cut absolute strip_components all_of
cut-absolute [] [] f g = refl
cut-absolute [] (w ∷ ws) f g = refl
cut-absolute (u ∷ us) [] f g = refl
cut-absolute (u ∷ us) (w ∷ ws) f g = ground (arith, cut-append u w us ws, cut-absolute us ws)

strip_components-named :
    (us ws rest : List Bytes)
    → strip_components us ws ≡ some rest
    → all_of is_named ws ≡ true
    → all_of is_named rest ≡ true
unfolding strip_components all_of
strip_components-named [] ws rest h g = ground arith
strip_components-named (u ∷ us) [] rest h g = ground arith
strip_components-named (u ∷ us) (w ∷ ws) rest h g =
    ground (arith, strip_components-named us ws rest)

host_path-absolute :
    (host_root : Bytes) (ws : List Bytes)
    → is_empty host_root ≡ false
    → ends_with_slash host_root ≡ false
    → all_of is_named ws ≡ true
    → host_path host_root (trim_start (absolute ws)) ≡ host_root ++ absolute ws
unfolding host_path trim_start absolute all_of path_join
host_path-absolute host_root [] e s g = sym (append-nil host_root)
host_path-absolute host_root ([] ∷ ws) e s g = ground arith
host_path-absolute host_root ((c ∷ w) ∷ ws) e s g = ground arith

-- Where both paths are UTF-8, the host directory is neither empty nor ends in a slash, and the
-- components of the mount and of the path are not empty and without slashes, with one slash
-- written before each, a bind mount translates the path exactly when the components of the
-- mount are the first ones of the path, to the host directory followed by the remaining
-- components; every other path is refused with not_found, one whose name only begins like the
-- mount included.
pub translate_path-below :
    (is_utf8 : Bytes → Bool) (host_root : Bytes) (us ws : List Bytes)
    → is_utf8 (absolute us) ≡ true
    → is_utf8 (absolute ws) ≡ true
    → is_empty host_root ≡ false
    → ends_with_slash host_root ≡ false
    → all_of is_named us ≡ true
    → all_of is_named ws ≡ true
    → translate_path is_utf8 (bind_vfs host_root (absolute us)) (absolute ws)
      ≡ below host_root (strip_components us ws)
unfolding translate_path
translate_path-below is_utf8 host_root us ws u v e s f g =
    rw (u, v)
      (bind_translate-cut host_root (absolute us) (absolute ws)
        ∙ ap (placed host_root) (cut-absolute us ws f g)
        ∙ elim (Option-cases (strip_components us ws)) [
          | inl outside ↦ rw outside
          | inr (rest, inside) ↦ rw inside (
              ap ok (
                host_path-absolute host_root rest e s (strip_components-named us ws rest inside g)))
        ])
