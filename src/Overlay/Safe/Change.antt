-- ===== src/Overlay/Safe/Change.antt =====
-- The methods of the overlay that change are safe.
use airyfs.Prelude.{
  ℕ, ◌≡◌, ◌≢◌, inl, inr, refl, ap, Bool, true, false, not, Option, none, some, List, [], ◌∷◌,
  nat_eq, Bool-cases,
}
use airyfs.Mode
use airyfs.Mode.{
  FsError, Result, Stamp, Stats, is_directory, is_symlink, not_found, not_a_directory, TimeChange,
  already_exists, not_empty, is_a_directory,
}
use airyfs.Db.{Bytes, root_ino}
use airyfs.Fs.{Fs}
use airyfs.Overlay.{
  Base, in_delta, InodeInfo, Overlay, Outcome, returns, fails, Op, ◌>>=◌, required,
}
use airyfs.Overlay.Maps.{place_eq, inode_info, is_whiteout, build_path}
use airyfs.Overlay.CopyUp.{create_in, copy_up}
use airyfs.Overlay.Sound.{
  is_known, info_at, IsSound, Extends, Extends-refl, Extends-trans, with_delta-Extends,
  remove_whiteout-Extends, get_or_create_overlay_ino-Extends, create_whiteout-Extends,
}
use airyfs.Overlay.Moved.{remap-Extends, layer-cases}
use airyfs.Fs.Make
use airyfs.Overlay.Safe.{
  after, IsSafe, bind-IsSafe, build_path-IsSafe, changes_delta-IsSafe, done-IsSafe,
  from_result-IsSafe, in_delta_layer-IsSafe, inode_info-IsSafe, layer-IsSafe, mapped-IsSafe,
  modify-IsSafe, refuse-IsSafe, required-IsSafe,
}
use airyfs.Overlay.Read.{with_ino}
use airyfs.Overlay.Safe.CopyUp.{
  copy_up-IsSafe, ensure_parent_dirs-IsSafe, resolve_delta_parent-IsSafe,
}
use airyfs.Fs
use airyfs.Fs.Delete
use airyfs.Fs.Move
use airyfs.PathApi.Listing.{chown_ino}
use airyfs.Overlay.Change
use airyfs.Overlay.Change.{
  remap, refuse_if, new_number, or_absent, in_parent, require_directory, require_empty,
  refuse_present, whiteout_if, copy_up_and_update_mapping, writable, open_delta, prepare, hide,
  linked_ino, copy_source,
}
use airyfs.Overlay.Safe.Read.{lookup-IsSafe, readdir-IsSafe}

refuse_if-IsSafe : (test : Bool) (e : FsError) → IsSafe (refuse_if test e)
refuse_if-IsSafe true e = refuse-IsSafe e
refuse_if-IsSafe false e = done-IsSafe tt

new_number-IsSafe : (path : Bytes) (made : Stats) → IsSafe (new_number path made)
new_number-IsSafe path made =
    bind-IsSafe (mapped-IsSafe _ (get_or_create_overlay_ino-Extends (in_delta, made.ino) path))
      (λ number. done-IsSafe (with_ino number made))

after_absent :
    (o : Overlay) (r : Result Fs)
    → IsSound o
    → Extends o (
        after {A = Unit {0}} (elim r [
          | Mode.ok fs ↦ returns tt (record o { delta = fs })
          | Mode.err e ↦ elim e [ FsError.not_found ↦ returns tt o | other ↦ fails other o ]
        ]))
after_absent o (Mode.ok fs) h = with_delta-Extends o fs h
after_absent o (Mode.err FsError.not_found) h = Extends-refl o h
after_absent o (Mode.err other) h = Extends-refl o h

or_absent-IsSafe : (change : Fs → Result Fs) → IsSafe (or_absent change)
unfolding or_absent
or_absent-IsSafe change = record { keeps = λ o h. after_absent o (change o.delta) h }

in_parent-IsSafe :
    (change : ℕ → Op (Unit {0})) (found : Option ℕ)
    → ((d : ℕ) → IsSafe (change d))
    → IsSafe (in_parent change found)
in_parent-IsSafe change none s = done-IsSafe tt
in_parent-IsSafe change (some d) s = s d

require_empty-IsSafe : (entries : List Bytes) → IsSafe (require_empty entries)
require_empty-IsSafe [] = done-IsSafe tt
require_empty-IsSafe (e ∷ es) = refuse-IsSafe not_empty

refuse_present-IsSafe : (found : Option Stats) → IsSafe (refuse_present found)
refuse_present-IsSafe none = done-IsSafe tt
refuse_present-IsSafe (some s) = refuse-IsSafe already_exists

whiteout_if-IsSafe :
    (now : Stamp) (path : Bytes) (found : Option Stats) → IsSafe (whiteout_if now path found)
whiteout_if-IsSafe now path none = done-IsSafe tt
whiteout_if-IsSafe now path (some s) = modify-IsSafe _ (create_whiteout-Extends now path)

module _ (base : Base) (now : Stamp) where
  -- the number that is copied up is known, and is not the root's
  after_copy_up :
      (o : Overlay) (ino : ℕ) (info : InodeInfo) (r : Outcome ℕ)
      → ino ≢ root_ino
      → is_known (info_at o ino) ≡ true
      → Extends o (after r)
      → Extends o (
          after {A = ℕ}
            (elim r [ returns d o' ↦ returns d (remap ino info d o') | fails e o' ↦ fails e o' ]))
  after_copy_up o ino info (returns d o') other there e =
      Extends-trans e (remap-Extends ino d info o' e.sound other (e.known ino there))
  after_copy_up o ino info (fails x o') other there e = e

  -- a step on what is known of a number
  after_info :
      {B : Type 0} (o : Overlay) (found : Option InodeInfo) (f : InodeInfo → Op B)
      → IsSound o
      → ((info : InodeInfo) → found ≡ some info → Extends o (after (f info o)))
      → Extends o (
          after {A = B} (elim (required not_found found o) [
            | returns info o' ↦ f info o'
            | fails e o' ↦ fails e o'
          ]))
  after_info o none f h s = Extends-refl o h
  after_info o (some info) f h s = s info refl

  writable-IsSafe : (ino : ℕ) → IsSafe (writable base now ino)
  unfolding writable copy_up_and_update_mapping
  writable-IsSafe ino = record {
    keeps = λ o h. after_info o (info_at o ino) _ h (λ info there.
        elim (Bool-cases (is_whiteout o info.path)) [
          | inl hidden ↦ rw hidden (Extends-refl o h)
          | inr shown ↦ rw shown (elim (layer-cases info.layer) [
            | inl above ↦ rw above (Extends-refl o h)
            | inr below ↦ rw below (
                after_copy_up o ino info (copy_up base now info.path info.underlying_ino o)
                  (λ e. cc (h.numbers.root_stays, there, below, e)) (ap is_known there)
                  ((copy_up-IsSafe base now info.path info.underlying_ino).keeps o h))
          ])
        ]);
  }

  pub chmod-IsSafe : (ino mode : ℕ) → IsSafe (Change.chmod base now ino mode)
  unfolding Change.chmod
  chmod-IsSafe ino mode = bind-IsSafe (writable-IsSafe ino) (λ d. changes_delta-IsSafe _)

  pub chown-IsSafe : (ino : ℕ) (uid gid : Option ℕ) → IsSafe (Change.chown base now ino uid gid)
  unfolding Change.chown
  chown-IsSafe ino uid gid =
      bind-IsSafe (writable-IsSafe ino)
        (λ d. modify-IsSafe _ (λ o h. with_delta-Extends o (chown_ino o.delta d uid gid) h))

  pub utimens-IsSafe :
      (ino : ℕ) (atime mtime : TimeChange) → IsSafe (Change.utimens base now ino atime mtime)
  unfolding Change.utimens
  utimens-IsSafe ino atime mtime = bind-IsSafe (writable-IsSafe ino) (λ d. changes_delta-IsSafe _)

  pub open_delta-IsSafe : (ino : ℕ) → IsSafe (open_delta base now ino)
  unfolding open_delta
  open_delta-IsSafe ino =
      bind-IsSafe (writable-IsSafe ino)
        (λ d. record { keeps = λ o h. (from_result-IsSafe (Fs.open_file o.delta d)).keeps o h })

  prepare-IsSafe :
      (path : Bytes) (info : InodeInfo) (uid gid : ℕ) → IsSafe (prepare base now path info uid gid)
  unfolding prepare
  prepare-IsSafe path info uid gid =
      bind-IsSafe (modify-IsSafe _ (remove_whiteout-Extends path)) (λ _.
        bind-IsSafe (ensure_parent_dirs-IsSafe base now path uid gid) (λ _.
          bind-IsSafe (resolve_delta_parent-IsSafe info)
            (λ found. required-IsSafe not_found found)))

  pub mkdir-IsSafe :
      (parent : ℕ) (name : Bytes) (mode uid gid : ℕ)
      → IsSafe (Change.mkdir base now parent name mode uid gid)
  unfolding Change.mkdir
  mkdir-IsSafe parent name mode uid gid = bind-IsSafe (inode_info-IsSafe parent) (λ info.
      bind-IsSafe (build_path-IsSafe parent name) (λ path.
        bind-IsSafe (lookup-IsSafe base parent name) (λ found.
          bind-IsSafe (refuse_present-IsSafe found) (λ _.
            bind-IsSafe (prepare-IsSafe path info uid gid) (λ dir.
              bind-IsSafe (in_delta_layer-IsSafe _) (λ made. new_number-IsSafe path made))))))

  -- the way of create_file, mknod and symlink to the directory of the delta
  in_prepared-IsSafe :
      {B : Type 0} (parent : ℕ) (name : Bytes) (uid gid : ℕ) (f : Bytes → ℕ → Op B)
      → ((path : Bytes) (dir : ℕ) → IsSafe (f path dir))
      → IsSafe (
          inode_info parent >>= λ info. build_path parent name >>= λ path.
          prepare base now path info uid gid >>= λ dir. f path dir)
  in_prepared-IsSafe parent name uid gid f s = bind-IsSafe (inode_info-IsSafe parent) (λ info.
      bind-IsSafe (build_path-IsSafe parent name)
        (λ path. bind-IsSafe (prepare-IsSafe path info uid gid) (λ dir. s path dir)))

  pub create_file-IsSafe :
      (parent : ℕ) (name : Bytes) (mode uid gid : ℕ)
      → IsSafe (Change.create_file base now parent name mode uid gid)
  unfolding Change.create_file
  create_file-IsSafe parent name mode uid gid =
      in_prepared-IsSafe parent name uid gid _ (λ path dir.
        bind-IsSafe (in_delta_layer-IsSafe (create_in now dir name mode uid gid)) (λ made.
          bind-IsSafe (new_number-IsSafe path made.0) (λ stats. done-IsSafe (stats, made.1))))

  pub mknod-IsSafe :
      (parent : ℕ) (name : Bytes) (mode rdev uid gid : ℕ)
      → IsSafe (Change.mknod base now parent name mode rdev uid gid)
  unfolding Change.mknod
  mknod-IsSafe parent name mode rdev uid gid = in_prepared-IsSafe parent name uid gid _ (λ path dir.
      bind-IsSafe (in_delta_layer-IsSafe (λ fs. Make.mknod now fs dir name mode rdev uid gid))
        (λ made. new_number-IsSafe path made))

  pub symlink-IsSafe :
      (parent : ℕ) (name target : Bytes) (uid gid : ℕ)
      → IsSafe (Change.symlink base now parent name target uid gid)
  unfolding Change.symlink
  symlink-IsSafe parent name target uid gid = in_prepared-IsSafe parent name uid gid _ (λ path dir.
      bind-IsSafe (in_delta_layer-IsSafe (λ fs. Make.symlink now fs dir name target uid gid))
        (λ made. new_number-IsSafe path made))

  hide-IsSafe : (parent : ℕ) (name path : Bytes) → IsSafe (hide base now parent name path)
  unfolding hide
  hide-IsSafe parent name path =
      bind-IsSafe (lookup-IsSafe base parent name) (λ found. whiteout_if-IsSafe now path found)

  pub unlink-IsSafe : (parent : ℕ) (name : Bytes) → IsSafe (Change.unlink base now parent name)
  unfolding Change.unlink
  unlink-IsSafe parent name = bind-IsSafe (inode_info-IsSafe parent) (λ info.
      bind-IsSafe (build_path-IsSafe parent name) (λ path.
        bind-IsSafe (lookup-IsSafe base parent name) (λ found.
          bind-IsSafe (required-IsSafe not_found found) (λ stats.
            bind-IsSafe (refuse_if-IsSafe (is_directory stats) is_a_directory) (λ _.
              bind-IsSafe (resolve_delta_parent-IsSafe info) (λ dir.
                bind-IsSafe
                  (in_parent-IsSafe _ dir
                    (λ d. or_absent-IsSafe (λ fs. Delete.unlink now fs d name)))
                  (λ _. hide-IsSafe parent name path)))))))

  pub rmdir-IsSafe : (parent : ℕ) (name : Bytes) → IsSafe (Change.rmdir base now parent name)
  unfolding Change.rmdir
  rmdir-IsSafe parent name = bind-IsSafe (inode_info-IsSafe parent) (λ info.
      bind-IsSafe (build_path-IsSafe parent name) (λ path.
        bind-IsSafe (lookup-IsSafe base parent name) (λ found.
          bind-IsSafe (required-IsSafe not_found found) (λ stats.
            bind-IsSafe (refuse_if-IsSafe (not (is_directory stats)) not_a_directory) (λ _.
              bind-IsSafe (readdir-IsSafe base stats.ino) (λ entries.
                bind-IsSafe (require_empty-IsSafe entries) (λ _.
                  bind-IsSafe (resolve_delta_parent-IsSafe info) (λ dir.
                    bind-IsSafe
                      (in_parent-IsSafe _ dir
                        (λ d. or_absent-IsSafe (λ fs. Delete.rmdir now fs d name)))
                      (λ _. hide-IsSafe parent name path)))))))))

  pub link-IsSafe : (ino parent : ℕ) (name : Bytes) → IsSafe (Change.link base now ino parent name)
  unfolding Change.link linked_ino
  link-IsSafe ino parent name = bind-IsSafe (inode_info-IsSafe ino) (λ info.
      bind-IsSafe (inode_info-IsSafe parent) (λ parent_info.
        bind-IsSafe (build_path-IsSafe parent name) (λ path.
          bind-IsSafe
            (layer-IsSafe info.layer (done-IsSafe info.underlying_ino)
              (copy_up-IsSafe base now info.path info.underlying_ino))
            (λ d. bind-IsSafe (prepare-IsSafe path parent_info 0 0) (λ dir.
              bind-IsSafe (in_delta_layer-IsSafe (λ fs. Make.link now fs d dir name))
                (λ made. done-IsSafe (with_ino ino made)))))))

  pub rename-IsSafe :
      (old_parent : ℕ) (old_name : Bytes) (new_parent : ℕ) (new_name : Bytes)
      → IsSafe (Change.rename base now old_parent old_name new_parent new_name)
  unfolding Change.rename
  rename-IsSafe old_parent old_name new_parent new_name =
      bind-IsSafe (inode_info-IsSafe old_parent) (λ old_info.
        bind-IsSafe (inode_info-IsSafe new_parent) (λ new_info.
          bind-IsSafe (build_path-IsSafe old_parent old_name) (λ old_path.
            bind-IsSafe (build_path-IsSafe new_parent new_name) (λ new_path.
              bind-IsSafe (lookup-IsSafe base old_parent old_name) (λ found.
                bind-IsSafe (required-IsSafe not_found found) (λ stats.
                  bind-IsSafe (inode_info-IsSafe stats.ino) (λ src.
                    bind-IsSafe
                      (layer-IsSafe src.layer (done-IsSafe tt) (
                        bind-IsSafe (copy_up-IsSafe base now old_path src.underlying_ino)
                          (λ _. done-IsSafe tt)))
                      (λ _. bind-IsSafe (modify-IsSafe _ (remove_whiteout-Extends new_path)) (λ _.
                        bind-IsSafe (ensure_parent_dirs-IsSafe base now new_path 0 0) (λ _.
                          bind-IsSafe (resolve_delta_parent-IsSafe old_info) (λ a.
                            bind-IsSafe (required-IsSafe not_found a) (λ src_dir.
                              bind-IsSafe (resolve_delta_parent-IsSafe new_info) (λ b.
                                bind-IsSafe (required-IsSafe not_found b) (λ dst_dir.
                                  bind-IsSafe
                                    (changes_delta-IsSafe (λ fs.
                                      Move.rename now now fs src_dir old_name dst_dir new_name))
                                    (λ _. hide-IsSafe old_parent old_name old_path)))))))))))))))
