-- ===== src/Tests/Mounts.antt =====
-- Mounts at /a and below it, paths under them, and mounts as the command line gives them.
use airyfs.File.{pad_to, copy_at}
use airyfs.PathApi.Remove.{starts_with}
use airyfs.PathApi.Stat.{path_join}
use airyfs.PathName.Pieces.{all_of}
use airyfs.Prelude.{◌≡◌, refl, Bool, true, false, some, List, [], ◌∷◌, ◌++◌, arith}
use airyfs.Db.{Bytes}
use airyfs.PathName.{slash, split}
use airyfs.Mounts.{
  ok, err, not_found, bind_vfs, sqlite_vfs, MountTable, resolve, translate_path,
  translate_to_relative, sqlite_translate, trim_start, strip_prefix, host_path, bind_translate,
  normal_components, first_component, depth,
}
use airyfs.Mounts.Resolve.{add_all, deepest, deeper, if_matching, answer, resolve-deepest}
use airyfs.Mounts.Inside.{absolute, translate_path-below, strip_components}
use airyfs.Prelude.Int.{pos}
use airyfs.Mounts.OpenFile.{OpenFile, read, write, seek, seek_set, write_start}
use airyfs.Mounts.OpenFile.ReadBack.{write-seek-read}
use airyfs.Mounts.Config
use airyfs.Mounts.Config.{MountConfig, bind, sqlite, from_str, Parsed}
use airyfs.Mounts.Config.RoundTrip.{config_text, from_str-config_text, free_of}

abbrev always : Bytes → Bool
always bs = true

abbrev at_a : Bytes
at_a = slash ∷ b'a' ∷ []

abbrev at_a_s : Bytes
at_a_s = slash ∷ b'a' ∷ slash ∷ b's' ∷ []

abbrev at_a_s_f : Bytes
at_a_s_f = slash ∷ b'a' ∷ slash ∷ b's' ∷ slash ∷ b'f' ∷ []

abbrev at_ab : Bytes
at_ab = slash ∷ b'a' ∷ b'b' ∷ []

abbrev host : Bytes
host = slash ∷ b'h' ∷ []

abbrev host_special : Bytes
host_special = slash ∷ b'k' ∷ []

-- /a, then /a/s, then /a/s once more
abbrev history : MountTable
history =
    record { sandbox_path = at_a; vfs = bind_vfs host at_a }
    ∷ record { sandbox_path = at_a_s; vfs = bind_vfs host_special at_a_s }
    ∷ record { sandbox_path = at_a_s; vfs = sqlite_vfs at_a_s }
    ∷ []

resolve-deepest_example :
    resolve always (add_all [] history) at_a_s_f
    ≡ some (bind_vfs host_special at_a_s, host_special ++ (slash ∷ b'f' ∷ []))
unfolding answer deepest deeper if_matching translate_path bind_translate starts_with
    sqlite_translate depth first_component normal_components split host_path trim_start strip_prefix
    path_join
resolve-deepest_example = resolve-deepest always at_a_s_f history

abbrev names_a : List Bytes
names_a = (b'a' ∷ []) ∷ []

abbrev names_a_s_f : List Bytes
names_a_s_f = (b'a' ∷ []) ∷ (b's' ∷ []) ∷ (b'f' ∷ []) ∷ []

translate_path-below_example :
    translate_path always (bind_vfs host (absolute names_a)) (absolute names_a_s_f)
    ≡ ok (host ++ (slash ∷ b's' ∷ slash ∷ b'f' ∷ []))
unfolding all_of strip_components absolute
translate_path-below_example =
    translate_path-below always host names_a names_a_s_f refl refl refl refl refl refl

-- a name that only begins like the mount's: outside for a bind mount, inside for the other
bind-beside : translate_path always (bind_vfs host at_a) at_ab ≡ err not_found
unfolding translate_path bind_translate starts_with
bind-beside = refl

sqlite-beside : translate_path always (sqlite_vfs at_a) at_ab ≡ ok at_ab
unfolding translate_path sqlite_translate starts_with
sqlite-beside = refl

relative-beside : translate_to_relative at_a at_ab ≡ err not_found
unfolding translate_to_relative strip_prefix
relative-beside = refl

-- `..` stays in the host path
bind-dots :
    translate_path always (bind_vfs host at_a) (slash ∷ b'a' ∷ slash ∷ b'.' ∷ b'.' ∷ [])
    ≡ ok (slash ∷ b'h' ∷ slash ∷ b'.' ∷ b'.' ∷ [])
unfolding translate_path bind_translate starts_with host_path trim_start strip_prefix path_join
bind-dots = refl

abbrev bind_config : MountConfig
bind_config = record { mount_type = bind host; dst = at_a }

from_str-config_text_example : from_str some (config_text bind_config) ≡ Config.ok bind_config
unfolding free_of
from_str-config_text_example = from_str-config_text some bind_config refl refl refl refl

-- two bytes written past the end of three, the gap between them zero
abbrev open_file : OpenFile
open_file = record {
  data_bytes = b'x' ∷ b'y' ∷ b'z' ∷ [];
  offset = 4;
  append = false;
  dirty = false;
}

written_gap : write (b'a' ∷ b'b' ∷ []) open_file ≡ record {
  data_bytes = b'x' ∷ b'y' ∷ b'z' ∷ 0 ∷ b'a' ∷ b'b' ∷ [];
  offset = 6;
  append = false;
  dirty = true;
}
unfolding write copy_at write_start pad_to
written_gap = refl

-- with O_APPEND, whatever the offset
abbrev appending : OpenFile
appending = record open_file { offset = 1; append = true }

write-seek-read_example :
    (back : OpenFile) × (seek (pos 3) seek_set (write (b'a' ∷ b'b' ∷ []) appending)
      ≡ some (3, back))
    × (read 2 back ≡ (b'a' ∷ b'b' ∷ [], write (b'a' ∷ b'b' ∷ []) appending))
write-seek-read_example =
    write-seek-read appending 3 (b'a') (b'b' ∷ []) (λ on. refl) (λ off. cc) (omega arith)
