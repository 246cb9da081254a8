-- ===== src/Mounts/Config/RoundTrip.antt =====
-- `MountConfig::from_str` on the text of a configuration.
use airyfs.Prelude.{
  ℕ, ◌≡◌, refl, ap, ◌∙◌, Bool, true, not, ◌&&◌, Option, some, [], ◌∷◌, ◌++◌, nat_beq, bytes_eq,
  arith,
}
use airyfs.Prelude.Table.{select}
use airyfs.Db.{Bytes}
use airyfs.PathApi.Stat.{starts_with_slash}
use airyfs.Mounts.Config.{
  MountType, bind, sqlite, MountConfig, ok, comma, equals, key_type, key_src, key_dst, type_bind,
  type_sqlite, split_commas, key_value, insert_option, read_options, read_paths, config_of,
  from_str,
}

unfoldable pub free_of : ℕ → Bytes → Bool
free_of b [] = true
free_of b (c ∷ cs) = not (nat_beq c b) && free_of b cs

abbrev pub option_text : Bytes → Bytes → Bytes
option_text k v = k ++ (equals ∷ v)

abbrev pub source_of : MountType → Bytes
source_of (bind src) = src
source_of (sqlite src) = src

abbrev pub kind_of : MountType → Bytes
kind_of (bind src) = type_bind
kind_of (sqlite src) = type_sqlite

-- `type=…,src=…,dst=…`
unfoldable pub config_text : MountConfig → Bytes
config_text c =
    option_text key_type (kind_of c.mount_type)
    ++ (comma
        ∷ (option_text key_src (source_of c.mount_type) ++ (comma ∷ option_text key_dst c.dst)))

-- a bind mount keeps the resolved source, which resolves to itself
abbrev pub IsResolved : (Bytes → Option Bytes) → MountType → Type 0
IsResolved canonicalize (bind src) = canonicalize src ≡ some src
IsResolved canonicalize (sqlite src) = Unit

split_commas-last : (w : Bytes) → free_of comma w ≡ true → split_commas w ≡ w ∷ []
unfolding split_commas free_of
split_commas-last [] h = refl
split_commas-last (c ∷ w) h = ground (arith, split_commas-last w)

split_commas-append :
    (w rest : Bytes)
    → free_of comma w ≡ true
    → split_commas (w ++ (comma ∷ rest)) ≡ w ∷ split_commas rest
unfolding split_commas free_of
split_commas-append [] rest h = refl
split_commas-append (c ∷ w) rest h = ground (arith, split_commas-append w rest)

split_commas-three :
    (a b c : Bytes)
    → free_of comma a ≡ true
    → free_of comma b ≡ true
    → free_of comma c ≡ true
    → split_commas (a ++ (comma ∷ (b ++ (comma ∷ c)))) ≡ a ∷ b ∷ c ∷ []
split_commas-three a b c h k l =
    split_commas-append a (b ++ (comma ∷ c)) h
    ∙ ap (λ ws. a ∷ ws) (split_commas-append b c k)
    ∙ ap (λ ws. a ∷ b ∷ ws) (split_commas-last c l)

from_str-fields :
    (canonicalize : Bytes → Option Bytes) (t : MountType) (dst : Bytes)
    → free_of comma (source_of t) ≡ true
    → free_of comma dst ≡ true
    → starts_with_slash dst ≡ true
    → IsResolved canonicalize t
    → from_str canonicalize (config_text (record { mount_type = t; dst = dst }))
      ≡ ok (record { mount_type = t; dst = dst })
unfolding from_str config_text read_options key_value insert_option select config_of read_paths
    free_of
from_str-fields canonicalize (bind src) dst h k a r =
    let parts =
      split_commas-three (option_text key_type type_bind) (option_text key_src src)
        (option_text key_dst dst) refl h k in
    rw (parts, a, r) refl
from_str-fields canonicalize (sqlite src) dst h k a r =
    let parts =
      split_commas-three (option_text key_type type_sqlite) (option_text key_src src)
        (option_text key_dst dst) refl h k in
    rw (parts, a) refl

-- Where source and destination have no comma, the destination begins with a slash, and the
-- source of a bind mount resolves to itself, parsing the text of a mount, type=…,src=…,dst=…,
-- gives the mount back.
pub from_str-config_text :
    (canonicalize : Bytes → Option Bytes) (c : MountConfig)
    → free_of comma (source_of c.mount_type) ≡ true
    → free_of comma c.dst ≡ true
    → starts_with_slash c.dst ≡ true
    → IsResolved canonicalize c.mount_type
    → from_str canonicalize (config_text c) ≡ ok c
from_str-config_text canonicalize c h k a r =
    from_str-fields canonicalize c.mount_type c.dst h k a r
