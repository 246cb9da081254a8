-- ===== src/Fs/Modify.antt =====
-- `chmod`, `chown` and `utimens` of sdk/rust/src/filesystem/agentfs.rs.
use airyfs.Prelude.{ℕ, ◌+◌, Bool, true, false, Option, none, some, nat_eq, entry_eq, if◌then◌else◌}
use airyfs.Prelude.Table.{select}
use airyfs.Mode.{not_found, Result, ok, ◌>>=◌, file_type, permissions, Stamp, TimeChange}
use airyfs.Db.{Inode, update_inode}
use airyfs.Fs.{Fs, or_else, with_db}

-- `chmod`: the file type bits stay
unfoldable pub chmod : Stamp → Fs → ℕ → ℕ → Result Fs
chmod now fs ino mode = do
  row ← or_else (select ino fs.db.inodes) not_found
  let new_mode = file_type row.mode + permissions mode
  ok (with_db fs (update_inode ino (λ r. record r { mode = new_mode; ctime = now }) fs.db))

abbrev pub set_owner : Option ℕ → Option ℕ → Inode → Inode
set_owner none none r = r
set_owner (some u) none r = record r { uid = u }
set_owner none (some g) r = record r { gid = g }
set_owner (some u) (some g) r = record r { uid = u; gid = g }

abbrev pub both_none : Option ℕ → Option ℕ → Bool
both_none none none = true
both_none _ _ = false

-- `chown`
unfoldable pub chown : Stamp → Fs → ℕ → Option ℕ → Option ℕ → Result Fs
chown now fs ino uid gid = if both_none uid gid then ok fs else (do
  row ← or_else (select ino fs.db.inodes) not_found
  ok (with_db fs (update_inode ino (λ r. record (set_owner uid gid r) { ctime = now }) fs.db)))

-- the time that a request sets
abbrev pub resolve : Stamp → Stamp → TimeChange → Stamp
resolve now old TimeChange.omit = old
resolve now old TimeChange.now = now
resolve now old (TimeChange.set secs nsec) = record { secs = secs; nsec = nsec }

abbrev pub both_omit : TimeChange → TimeChange → Bool
both_omit TimeChange.omit TimeChange.omit = true
both_omit _ _ = false

-- `utimens`; the clock is read at most once for each of the three times
unfoldable pub utimens : Stamp → Stamp → Stamp → Fs → ℕ → TimeChange → TimeChange → Result Fs
utimens now_a now_m now_c fs ino atime mtime = do
  row ← or_else (select ino fs.db.inodes) not_found
  let timed = λ (r : Inode). record r {
    atime = resolve now_a r.atime atime;
    mtime = resolve now_m r.mtime mtime;
    ctime = now_c;
  }
  ok (if both_omit atime mtime then fs else with_db fs (update_inode ino timed fs.db))
