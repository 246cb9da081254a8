-- ===== src/Tests.antt =====
-- Concrete runs, and the theorems at concrete states.
pub mod Files
pub mod Names
pub mod Changes
pub mod Descriptors
pub mod Paths
pub mod Requests
pub mod ByPath
pub mod Mounts
pub mod Stores
pub mod Overlay
pub mod Pool
use airyfs.Prelude.{ℕ, ◌≡◌, refl, ◌∷◌, [], ◌+◌}
use airyfs.Prelude.Int.{pos}
use airyfs.Mode.{Stamp, s_ifreg}
use airyfs.Db.{Bytes, Db, Inode}
use airyfs.Fs.{Fs}
use airyfs.Fs.Make.{created_file, made_dir}
use airyfs.Schema.{ensure_root, empty_db}

abbrev pub epoch : Stamp
epoch = record { secs = pos 0; nsec = 0 }

abbrev pub later : Stamp
later = record { secs = pos 7; nsec = 5 }

abbrev pub name_a : Bytes
name_a = b'a' ∷ []

abbrev pub name_b : Bytes
name_b = b'b' ∷ []

-- a new filesystem with chunks of four bytes
abbrev pub fresh_fs : Fs
fresh_fs = record { db = ensure_root epoch 501 20 empty_db; cache = []; chunk_size = 4 }

-- the file /a
abbrev pub file_fs : Fs
file_fs = created_file epoch fresh_fs 1 name_a 0o644 501 20

-- the file /a and the directory /b
abbrev pub tree_fs : Fs
tree_fs = made_dir epoch file_fs 1 name_b 0o755 501 20
