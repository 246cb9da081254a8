-- ===== src/Fs/Requests.antt =====
-- The requests of `impl FileSystem for AgentFS` and of open files, as steps from a mounted file
-- system. A request that fails leaves the state, so only those that succeed are steps. The kernel,
-- which sends the requests, creates and moves entries into directories only, and does not send the
-- rename of an entry to itself; these two facts are premises of the steps.
pub mod Contents
pub mod Sound
use airyfs.Prelude.{ℕ, zero, suc, ◌≡◌, ◌≢◌, Option, List, []}
use airyfs.Mode.{Stamp, TimeChange, Stats, ok}
use airyfs.Db.{Bytes}
use airyfs.File
use airyfs.File.{FileHandle}
use airyfs.Fs
use airyfs.Fs.{Fs, Entry, with_db}
use airyfs.Fs.Make
use airyfs.Fs.Delete
use airyfs.Fs.Move
use airyfs.Fs.Modify
use airyfs.Fs.WellFormed.{IsDir}
use airyfs.Schema.{ensure_root, empty_db}

pub data Step (fs fs' : Fs) : Type 0 where
  lookup :
      (parent : ℕ) (name : Bytes) (o : Option Stats)
      → Fs.lookup fs parent name ≡ ok (o, fs')
      → Step fs fs'
  mkdir :
      (now : Stamp) (parent : ℕ) (name : Bytes) (mode uid gid : ℕ) (stats : Stats)
      → IsDir fs.db parent
      → Make.mkdir now fs parent name mode uid gid ≡ ok (stats, fs')
      → Step fs fs'
  create_file :
      (now : Stamp) (parent : ℕ) (name : Bytes) (mode uid gid : ℕ) (stats : Stats)
      (file : FileHandle)
      → IsDir fs.db parent
      → Make.create_file now fs parent name mode uid gid ≡ ok (stats, file, fs')
      → Step fs fs'
  mknod :
      (now : Stamp) (parent : ℕ) (name : Bytes) (mode rdev uid gid : ℕ) (stats : Stats)
      → IsDir fs.db parent
      → Make.mknod now fs parent name mode rdev uid gid ≡ ok (stats, fs')
      → Step fs fs'
  symlink :
      (now : Stamp) (parent : ℕ) (name target : Bytes) (uid gid : ℕ) (stats : Stats)
      → IsDir fs.db parent
      → Make.symlink now fs parent name target uid gid ≡ ok (stats, fs')
      → Step fs fs'
  link :
      (now : Stamp) (ino parent : ℕ) (name : Bytes) (stats : Stats)
      → IsDir fs.db parent
      → Make.link now fs ino parent name ≡ ok (stats, fs')
      → Step fs fs'
  unlink :
      (now : Stamp) (parent : ℕ) (name : Bytes)
      → Delete.unlink now fs parent name ≡ ok fs'
      → Step fs fs'
  rmdir :
      (now : Stamp) (parent : ℕ) (name : Bytes)
      → Delete.rmdir now fs parent name ≡ ok fs'
      → Step fs fs'
  rename :
      (now_dst now : Stamp) (old_parent new_parent : ℕ) (old_name new_name : Bytes)
      → IsDir fs.db new_parent
      → ◌≢◌ {A = Entry} (old_parent, old_name) (new_parent, new_name)
      → Move.rename now_dst now fs old_parent old_name new_parent new_name ≡ ok fs'
      → Step fs fs'
  chmod : (now : Stamp) (ino mode : ℕ) → Modify.chmod now fs ino mode ≡ ok fs' → Step fs fs'
  chown :
      (now : Stamp) (ino : ℕ) (uid gid : Option ℕ)
      → Modify.chown now fs ino uid gid ≡ ok fs'
      → Step fs fs'
  utimens :
      (now_a now_m now : Stamp) (ino : ℕ) (atime mtime : TimeChange)
      → Modify.utimens now_a now_m now fs ino atime mtime ≡ ok fs'
      → Step fs fs'
  pwrite :
      (now : Stamp) (file : FileHandle) (offset : ℕ) (bytes : Bytes)
      → with_db fs (File.pwrite now fs.db file offset bytes) ≡ fs'
      → Step fs fs'
  truncate :
      (now : Stamp) (file : FileHandle) (new_size : ℕ)
      → with_db fs (File.truncate now fs.db file new_size) ≡ fs'
      → Step fs fs'

-- The states after a number of requests; before the first the database has the root, and the cache
-- is empty.
pub data Reach : ℕ → Fs → Type 0 where
  mounted :
      (n : ℕ) (fs : Fs) (now : Stamp) (uid gid : ℕ)
      → n ≡ 0
      → fs.db ≡ ensure_root now uid gid empty_db
      → fs.cache ≡ []
      → Reach n fs
  after : (n : ℕ) (fs fs' : Fs) → Reach n fs → Step fs fs' → Reach (suc n) fs'
