-- ===== src/Mounts/OpenFile.antt =====
-- `SqliteFileOps` of sandbox/src/vfs/sqlite.rs: an open file of a virtual mount, whose bytes stay in
-- memory until they are written back. The offset is an i64 that is never negative.
pub mod ReadBack
use airyfs.Prelude.{
  ℕ, zero, suc, ◌+◌, ◌-◌, ◌^◌, min, Bool, true, false, Option, none, some, List, [], ◌∷◌, ltb, leb,
  length, take, drop, if◌then◌else◌,
}
use airyfs.Prelude.Int.{ℤ, pos, negsuc}
use airyfs.Db.{Bytes}
use airyfs.File.{pad_to, copy_at}

-- `append` says whether O_APPEND is among the flags.
pub record OpenFile : Type 0 where
  pub data_bytes : Bytes
  pub offset : ℕ
  pub append : Bool
  pub dirty : Bool

pub data Whence : Type 0 where
  seek_set : Whence
  seek_cur : Whence
  seek_end : Whence
  other_whence : Whence

unfoldable pub read : ℕ → OpenFile → Bytes × OpenFile
read size file =
    if leb (length file.data_bytes) file.offset
    then ([], file)
    else let end = min (file.offset + size) (length file.data_bytes) in
      let bytes_read = end - file.offset in
      (
        take bytes_read (drop file.offset file.data_bytes),
        record file { offset = file.offset + bytes_read },
      )

-- O_APPEND writes at the end, wherever the offset is
unfoldable pub write_start : OpenFile → ℕ
write_start file = if file.append then length file.data_bytes else file.offset

unfoldable pub write : Bytes → OpenFile → OpenFile
write buf file =
    let start = write_start file in
    record file {
      data_bytes = copy_at (pad_to (start + length buf) file.data_bytes) start buf;
      offset = start + length buf;
      dirty = true;
    }

-- a sum that is no i64 wraps to a negative number, and those are refused
unfoldable pub moved : ℕ → ℤ → Option ℕ
moved from (pos by) = if ltb (from + by) (2 ^ 63) then some (from + by) else none
moved from (negsuc by) = if ltb by from then some (from - by - 1) else none

unfoldable pub new_offset : ℤ → Whence → OpenFile → Option ℕ
new_offset by seek_set file = moved 0 by
new_offset by seek_cur file = moved file.offset by
new_offset by seek_end file = moved (length file.data_bytes) by
new_offset by other_whence file = none

-- both errors are none
unfoldable pub seek : ℤ → Whence → OpenFile → Option (ℕ × OpenFile)
seek by whence file = elim (new_offset by whence file) [
  | none ↦ none
  | some at ↦ some (at, record file { offset = at })
]
