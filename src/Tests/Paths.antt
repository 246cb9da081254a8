-- ===== src/Tests/Paths.antt =====
-- Paths with empty components and dots.
use airyfs.Prelude.{◌≡◌, refl, [], ◌∷◌}
use airyfs.Db.{Bytes}
use airyfs.PathName.{
  slash, two_dots, normalize_path, split_path, resolve_dots, non_empty, split, trim_end, join,
  add_component, without_last, resolved,
}
use airyfs.Tests.{name_a, name_b}

-- a/../b//
abbrev odd_path : Bytes
odd_path = b'a' ∷ slash ∷ b'.' ∷ b'.' ∷ slash ∷ b'b' ∷ slash ∷ slash ∷ []

from_root : split_path (slash ∷ odd_path) ≡ name_b ∷ []
unfolding split_path normalize_path trim_end resolved resolve_dots non_empty split add_component
    without_last join
from_root = refl

relative_keeps_dots : split_path odd_path ≡ name_a ∷ two_dots ∷ name_b ∷ []
unfolding split_path normalize_path trim_end non_empty split
relative_keeps_dots = refl
