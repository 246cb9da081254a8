-- ===== src/Mounts/Config.antt =====
-- `MountConfig::from_str` of sandbox/src/vfs/mount.rs: a mount as it is given on the command line.
pub mod RoundTrip
use airyfs.Prelude.{
  ℕ, Bool, true, false, not, ◌&&◌, Option, none, some, List, [], ◌∷◌, ◌++◌, nat_beq, bytes_beq,
  bytes_eq, if◌then◌else◌,
}
use airyfs.Prelude.Table.{select}
use airyfs.Db.{Bytes}
use airyfs.PathName.{put_front}
use airyfs.PathApi.Stat.{starts_with_slash}

pub data MountType : Type 0 where
  bind : (src : Bytes) → MountType
  sqlite : (src : Bytes) → MountType

pub record MountConfig : Type 0 where
  pub mount_type : MountType
  pub dst : Bytes

-- the messages, with what they quote
pub data ParseError : Type 0 where
  invalid_option : Bytes → ParseError
  duplicate_key : Bytes → ParseError
  missing_type : ParseError
  missing_src : ParseError
  missing_dst : ParseError
  relative_dst : Bytes → ParseError
  canonicalize_failed : Bytes → ParseError
  unsupported_type : Bytes → ParseError

pub data Parsed {ℓ} (A : Type ℓ) : Type ℓ where
  ok : A → Parsed A
  err : ParseError → Parsed A

infixl 1 ◌>>=◌
abbrev pub ◌>>=◌ {ℓ} : {A B : Type ℓ} → Parsed A → (A → Parsed B) → Parsed B
ok a >>= rest = rest a
err e >>= rest = err e

abbrev pub comma : ℕ
comma = b','

abbrev pub equals : ℕ
equals = b'='

abbrev pub key_type : Bytes
key_type = b't' ∷ b'y' ∷ b'p' ∷ b'e' ∷ []

abbrev pub key_src : Bytes
key_src = b's' ∷ b'r' ∷ b'c' ∷ []

abbrev pub key_source : Bytes
key_source = b's' ∷ b'o' ∷ b'u' ∷ b'r' ∷ b'c' ∷ b'e' ∷ []

abbrev pub key_dst : Bytes
key_dst = b'd' ∷ b's' ∷ b't' ∷ []

abbrev pub key_target : Bytes
key_target = b't' ∷ b'a' ∷ b'r' ∷ b'g' ∷ b'e' ∷ b't' ∷ []

abbrev pub type_bind : Bytes
type_bind = b'b' ∷ b'i' ∷ b'n' ∷ b'd' ∷ []

abbrev pub type_sqlite : Bytes
type_sqlite = b's' ∷ b'q' ∷ b'l' ∷ b'i' ∷ b't' ∷ b'e' ∷ []

-- `s.split(',')`
unfoldable pub split_commas : Bytes → List Bytes
split_commas [] = [] ∷ []
split_commas (c ∷ cs) =
    let rest = split_commas cs in if nat_beq c comma then [] ∷ rest else put_front c rest

abbrev pub in_front : ℕ → Option (Bytes × Bytes) → Option (Bytes × Bytes)
in_front c none = none
in_front c (some (k, v)) = some (c ∷ k, v)

-- `part.splitn(2, '=')`, where it gives two pieces
unfoldable pub key_value : Bytes → Option (Bytes × Bytes)
key_value [] = none
key_value (c ∷ cs) =
    let rest = key_value cs in if nat_beq c equals then some ([], cs) else in_front c rest

abbrev pub Options : Type 0
Options = List (Bytes × Bytes)

-- `options.insert`, which must not find the key
unfoldable pub insert_option : Bytes → Bytes → Options → Parsed Options
insert_option k v options = elim (select k options) [
  | none ↦ ok ((k, v) ∷ options)
  | some old ↦ err (duplicate_key k)
]

-- `for part in s.split(',')`
unfoldable pub read_options : Options → List Bytes → Parsed Options
read_options options [] = ok options
read_options options (part ∷ parts) = elim (key_value part) [
  | none ↦ err (invalid_option part)
  | some (k, v) ↦ insert_option k v options >>= λ added. read_options added parts
]

abbrev pub or_else : Option Bytes → Option Bytes → Option Bytes
or_else none other = other
or_else (some v) other = some v

abbrev pub required : Option Bytes → ParseError → Parsed Bytes
required none e = err e
required (some v) e = ok v

-- `src` or `source`, and `dst` or `target`, which must be absolute
unfoldable pub read_paths : Options → Parsed (Bytes × Bytes)
read_paths options = do
  src ← required (or_else (select key_src options) (select key_source options)) missing_src
  dst ← required (or_else (select key_dst options) (select key_target options)) missing_dst
  if starts_with_slash dst then ok (src, dst) else err (relative_dst dst)

-- `std::fs::canonicalize` is the parameter.
module _ (canonicalize : Bytes → Option Bytes) where
  unfoldable pub config_of : Bytes → Options → Parsed MountConfig
  config_of kind options =
      if bytes_beq kind type_bind
      then (read_paths options >>= λ paths.
          required (canonicalize paths.0) (canonicalize_failed paths.0) >>= λ src.
          ok (record { mount_type = bind src; dst = paths.1 }))
      else if bytes_beq kind type_sqlite
      then (read_paths options >>= λ paths.
          ok (record { mount_type = sqlite paths.0; dst = paths.1 }))
      else err (unsupported_type kind)

  unfoldable pub from_str : Bytes → Parsed MountConfig
  from_str s = do
    options ← read_options [] (split_commas s)
    kind ← required (select key_type options) missing_type
    config_of kind options
