-- ===== src/Fs/Requests/Sound.antt =====
-- What holds after any sequence of requests.
use mathlib.Core.Path.{subst}
use airyfs.Prelude.{
  ℕ, ◌^◌, ◌≤◌, ◌<◌, ◌≡◌, Bool, some, List, [], ◌∷◌, arith, length, nat_eq, entry_eq, pair_eq,
  bytes_eq,
}
use airyfs.Prelude.Table.{select, count_where}
use airyfs.Fs.{Fs, Entry}
use airyfs.Fs.WellFormed.{IsWellFormed, link_count, names_inode}
use airyfs.Schema.{ensure_root, empty_db}
use airyfs.Schema.Root.{empty_db-IsWellFormed, ensure_root-IsWellFormed}
use airyfs.Fs.Cache.{IsCoherent, Advances, latest}
use airyfs.Fs.Requests.{Step, Reach}
use airyfs.Fs.Requests.Contents.{pwrite_sound, truncate_sound}
use airyfs.Fs.Create.{
  mkdir-IsWellFormed, create_file-IsWellFormed, mknod-IsWellFormed, symlink-IsWellFormed,
}
use airyfs.Fs.Attributes.{
  link-IsWellFormed, chmod-IsWellFormed, chown-IsWellFormed, utimens-IsWellFormed,
}
use airyfs.Fs.Remove.{unlink-IsWellFormed, rmdir-IsWellFormed}
use airyfs.Fs.Rename.{rename-IsWellFormed}
use airyfs.Fs.Cache.Ops.{
  lookup-db, lookup-Advances, mkdir-Advances, create_file-Advances, mknod-Advances,
  symlink-Advances, link-Advances, unlink-Advances, rmdir-Advances,
}
use airyfs.Fs.Cache.Changes.{rename-Advances, chmod-Advances, chown-Advances, utimens-Advances}

count-le-length : (p : Entry → ℕ → Bool) (m : List (Entry × ℕ)) → count_where p m ≤ length m
unfolding count_where
count-le-length p [] = omega arith
count-le-length p ((k, v) ∷ m) = ground (arith, count-le-length p m)

-- One request keeps both invariants.
Step-sound :
    (fs fs' : Fs)
    → IsWellFormed fs.db
    → IsCoherent fs
    → ((ino : ℕ) → link_count fs.db ino < 2 ^ 32)
    → Step fs fs'
    → IsWellFormed fs'.db × Advances fs fs'
Step-sound fs fs' h c small (Step.lookup parent name o e) =
    (rw (lookup-db fs fs' parent name h o e) h, lookup-Advances fs fs' parent name h c o e)
Step-sound fs fs' h c small (Step.mkdir now parent name mode uid gid stats dir e) = (
  mkdir-IsWellFormed now fs parent name uid gid h dir mode stats fs' e,
  mkdir-Advances now fs fs' parent name h c mode uid gid stats e,
)
Step-sound fs fs' h c small (Step.create_file now parent name mode uid gid stats file dir e) = (
  create_file-IsWellFormed now fs parent name uid gid h dir mode stats file fs' e,
  create_file-Advances now fs fs' parent name h c mode uid gid stats file e,
)
Step-sound fs fs' h c small (Step.mknod now parent name mode rdev uid gid stats dir e) = (
  mknod-IsWellFormed now fs parent name uid gid h dir mode rdev stats fs' e,
  mknod-Advances now fs fs' parent name h c mode rdev uid gid stats e,
)
Step-sound fs fs' h c small (Step.symlink now parent name target uid gid stats dir e) = (
  symlink-IsWellFormed now fs parent name uid gid h dir target stats fs' e,
  symlink-Advances now fs fs' parent name h c target uid gid stats e,
)
Step-sound fs fs' h c small (Step.link now ino parent name stats dir e) = (
  link-IsWellFormed now fs fs' h ino parent name stats dir e,
  link-Advances now fs fs' parent name h c ino stats e,
)
Step-sound fs fs' h c small (Step.unlink now parent name e) = (
  unlink-IsWellFormed now fs fs' parent name h small e,
  unlink-Advances now fs fs' parent name h c e,
)
Step-sound fs fs' h c small (Step.rmdir now parent name e) = (
  rmdir-IsWellFormed now fs fs' parent name h small e,
  rmdir-Advances now fs fs' parent name h c e,
)
Step-sound fs fs' h c small
      (Step.rename now_dst now old_parent new_parent old_name new_name dir apart e) =
    (
      rename-IsWellFormed now_dst now fs fs' old_parent new_parent old_name new_name h small dir e,
      rename-Advances now_dst now fs fs' old_parent new_parent old_name new_name h small c dir apart
          e,
    )
Step-sound fs fs' h c small (Step.chmod now ino mode e) =
    (chmod-IsWellFormed now fs fs' h ino mode e, chmod-Advances fs fs' c now ino mode e)
Step-sound fs fs' h c small (Step.chown now ino uid gid e) =
    (chown-IsWellFormed now fs fs' h ino uid gid e, chown-Advances fs fs' c now ino uid gid e)
Step-sound fs fs' h c small (Step.utimens now_a now_m now ino atime mtime e) = (
  utimens-IsWellFormed now fs fs' h now_a now_m ino atime mtime e,
  utimens-Advances fs fs' c now_a now_m now ino atime mtime e,
)
Step-sound fs fs' h c small (Step.pwrite now file offset bytes e) =
    subst (λ (s : Fs). IsWellFormed s.db × Advances fs s) e
      (pwrite_sound fs h c now file offset bytes)
Step-sound fs fs' h c small (Step.truncate now file new_size e) =
    subst (λ (s : Fs). IsWellFormed s.db × Advances fs s) e
      (truncate_sound fs h c now file new_size)

-- Every state, with at most as many entries as requests.
Reach-sound :
    (n : ℕ) (fs : Fs)
    → Reach n fs
    → n < 2 ^ 32
    → IsWellFormed fs.db × IsCoherent fs × (length fs.db.dentries ≤ n)
unfolding latest ensure_root select
Reach-sound _ _ (Reach.mounted n fs now uid gid zeroth db calls) few = (
  rw db (ensure_root-IsWellFormed now uid gid empty_db empty_db-IsWellFormed),
  λ k v e. (let e' : latest [] k ≡ some v = rw calls at e in cc),
  rw db (omega arith),
)
Reach-sound _ _ (Reach.after n fs fs' r step) few =
    let before = Reach-sound n fs r (omega arith) in
    let now =
      Step-sound fs fs' before.0 before.1
        (λ ino. omega (arith, count-le-length (names_inode ino) fs.db.dentries, before.2)) step in
    (now.0, now.1.coherent, omega (arith, now.1.grown, before.2))

-- After any sequence of fewer than 2^32 requests that succeed, from a new database with its
-- root, the namespace is well formed. The requests are `lookup`, `mkdir`, `create_file`,
-- `mknod`, `symlink`, `link`, `unlink`, `rmdir`, `rename`, `chmod`, `chown`, `utimens`, and
-- `pwrite` and `truncate` of an open file; entries are created in and moved into directories
-- only, and no entry is renamed to itself.
pub Reach-IsWellFormed : (n : ℕ) (fs : Fs) → Reach n fs → n < 2 ^ 32 → IsWellFormed fs.db
Reach-IsWellFormed n fs r few = (Reach-sound n fs r few).0

-- After any sequence of fewer than 2^32 requests that succeed, from a new database with its
-- root and an empty cache, where entries are created in and moved into directories only and no
-- entry is renamed to itself, whatever the cache of directory entries may still hold, by the
-- calls that were made of it, is an entry of the table with the same inode.
pub Reach-IsCoherent : (n : ℕ) (fs : Fs) → Reach n fs → n < 2 ^ 32 → IsCoherent fs
Reach-IsCoherent n fs r few = (Reach-sound n fs r few).1
