-- ===== src/Mode.antt =====
-- sdk/rust/src/filesystem/mod.rs: errors with their errno, file type bits of a mode, and `Stats`.
-- A mode is its 32-bit value. `S_IFMT` selects the bits 12 to 15 and `0o7777` the bits 0 to 11, so
-- `mode & S_IFMT` is written by division, and an or of disjoint bits as a sum.
use airyfs.Prelude.{ℕ, ◌*◌, ◌/◌, ◌%◌, ◌≡◌, ◌⊎◌, inl, inr, refl, Bool, nat_beq}
use airyfs.Prelude.Int.{ℤ}

pub data FsError : Type 0 where
  not_found already_exists not_empty not_a_directory is_a_directory not_a_symlink : FsError
  invalid_path root_operation symlink_loop invalid_rename name_too_long : FsError

-- The values of libc on Linux.
unfoldable pub to_errno : FsError → ℕ
to_errno FsError.not_found = 2
to_errno FsError.already_exists = 17
to_errno FsError.not_empty = 39
to_errno FsError.not_a_directory = 20
to_errno FsError.is_a_directory = 21
to_errno FsError.not_a_symlink = 22
to_errno FsError.invalid_path = 22
to_errno FsError.root_operation = 1
to_errno FsError.symlink_loop = 40
to_errno FsError.invalid_rename = 22
to_errno FsError.name_too_long = 36

pub data Result {ℓ} (A : Type ℓ) : Type ℓ where
  ok : A → Result A
  err : FsError → Result A

pub Result-cases {ℓ} :
    {A : Type ℓ} (r : Result A) → ((e : FsError) × (r ≡ err e)) ⊎ ((a : A) × (r ≡ ok a))
Result-cases (err e) = inl (e, refl)
Result-cases (ok a) = inr (a, refl)

-- `?`: the first error ends the call
infixl 5 ◌>>=◌
abbrev pub ◌>>=◌ {ℓ κ} : {A : Type ℓ} {B : Type κ} → Result A → (A → Result B) → Result B
err e >>= rest = err e
ok a >>= rest = rest a

-- An early return of an error.
abbrev pub fail_if : Bool → FsError → Result (Unit {0})
fail_if Bool.true e = err e
fail_if Bool.false e = ok tt

infixl 5 ◌>>◌
abbrev pub ◌>>◌ {ℓ} : {B : Type ℓ} → Result (Unit {0}) → Result B → Result B
check >> rest = check >>= λ _. rest

abbrev pub max_name_len : ℕ
max_name_len = 255

abbrev pub s_ifreg : ℕ
s_ifreg = 0o100000

abbrev pub s_ifdir : ℕ
s_ifdir = 0o040000

abbrev pub s_iflnk : ℕ
s_iflnk = 0o120000

-- mode & S_IFMT
abbrev pub file_type : ℕ → ℕ
file_type mode = mode / 4096 % 16 * 4096

-- mode & 0o7777
abbrev pub permissions : ℕ → ℕ
permissions mode = mode % 4096

abbrev pub is_dir_mode : ℕ → Bool
is_dir_mode mode = nat_beq (file_type mode) s_ifdir

-- A point in time: the columns `…time` and `…time_nsec`.
pub record Stamp : Type 0 where
  pub secs : ℤ
  pub nsec : ℕ

pub data TimeChange : Type 0 where
  omit now : TimeChange
  set : ℤ → ℕ → TimeChange

pub record Stats : Type 0 where
  pub ino : ℕ
  pub mode : ℕ
  pub nlink : ℕ
  pub uid : ℕ
  pub gid : ℕ
  pub size : ℕ
  pub atime : Stamp
  pub mtime : Stamp
  pub ctime : Stamp
  pub rdev : ℕ

abbrev pub is_file : Stats → Bool
is_file s = nat_beq (file_type s.mode) s_ifreg

abbrev pub is_directory : Stats → Bool
is_directory s = is_dir_mode s.mode

abbrev pub is_symlink : Stats → Bool
is_symlink s = nat_beq (file_type s.mode) s_iflnk
