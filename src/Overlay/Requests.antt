-- ===== src/Overlay/Requests.antt =====
-- Sequences of requests to an overlay that was opened on a database, whether they succeed or fail,
-- and what a new overlay on the same database knows.
use airyfs.Prelude.{
  ℕ, ◌≡◌, refl, sym, ◌∙◌, true, ◌||◌, Option, none, some, List, [], ◌∷◌, ◌++◌, nat_eq, bytes_eq,
  arith,
}
use airyfs.Prelude.Int.{ℤ}
use airyfs.Prelude.Table.{select, replace, Distinct, select-replace}
use airyfs.Mode.{Stamp, TimeChange}
use airyfs.Db.{Bytes}
use airyfs.File
use airyfs.File.{FileHandle}
use airyfs.Fs.{Fs, with_db}
use airyfs.PathName.{slash}
use airyfs.Overlay.{Base, Overlay, Op, modify}
use airyfs.Overlay.Maps.{
  place_eq, contains, components, covered, is_whiteout, new_overlay, load_whiteouts, load_origins,
  load,
}
use airyfs.Overlay.Read
use airyfs.Overlay.Change
use airyfs.Overlay.Sound.{
  is_known, info_at, IsSound, Extends, Extends-refl, Extends-trans, with_delta-Extends,
}
use airyfs.Overlay.Safe.{IsSafe, after, modify-IsSafe}
use airyfs.Overlay.Safe.Read.{lookup-IsSafe, readdir-IsSafe, readdir_plus-IsSafe}
use airyfs.Overlay.Safe.Change.{
  chmod-IsSafe, chown-IsSafe, utimens-IsSafe, open_delta-IsSafe, mkdir-IsSafe, create_file-IsSafe,
  mknod-IsSafe, symlink-IsSafe, unlink-IsSafe, rmdir-IsSafe, link-IsSafe, rename-IsSafe,
}

-- The last two go to a file that is open, and so to the delta.
pub data Request : Type 0 where
  lookup : (parent : ℕ) (name : Bytes) → Request
  readdir readdir_plus : (ino : ℕ) → Request
  chmod : Stamp → (ino mode : ℕ) → Request
  chown : Stamp → (ino : ℕ) (uid gid : Option ℕ) → Request
  utimens : Stamp → (ino : ℕ) (atime mtime : TimeChange) → Request
  open_file : Stamp → (ino : ℕ) → Request
  mkdir create_file : Stamp → (parent : ℕ) (name : Bytes) (mode uid gid : ℕ) → Request
  mknod : Stamp → (parent : ℕ) (name : Bytes) (mode rdev uid gid : ℕ) → Request
  symlink : Stamp → (parent : ℕ) (name target : Bytes) (uid gid : ℕ) → Request
  unlink rmdir : Stamp → (parent : ℕ) (name : Bytes) → Request
  link : Stamp → (ino parent : ℕ) (name : Bytes) → Request
  rename : Stamp → (old_parent : ℕ) (old_name : Bytes) (new_parent : ℕ) (new_name : Bytes) → Request
  pwrite : Stamp → FileHandle → (offset : ℕ) (bytes : Bytes) → Request
  truncate : Stamp → FileHandle → (size : ℕ) → Request

abbrev pub change_tables : (Fs → Fs) → Op (Unit {0})
change_tables f = modify (λ o. record o { delta = f o.delta })

change_tables-IsSafe : (f : Fs → Fs) → IsSafe (change_tables f)
change_tables-IsSafe f = modify-IsSafe _ (λ o h. with_delta-Extends o (f o.delta) h)

-- a table that is read in: the sets have its rows
contains-load_whiteouts :
    (rows : List (Bytes × ℤ)) (ws : List Bytes) (p : Bytes)
    → contains (load_whiteouts rows ws) p ≡ contains ws p || is_known (select p rows)
unfolding load_whiteouts contains select
contains-load_whiteouts [] ws p = ground arith
contains-load_whiteouts ((path, at) ∷ rows) ws p =
    ground (arith, contains-load_whiteouts rows (path ∷ ws) p)

abbrev or_else : Option ℕ → Option ℕ → Option ℕ
or_else none b = b
or_else (some a) b = some a

select-load_origins :
    (rows m : List (ℕ × ℕ)) (d : ℕ)
    → Distinct rows
    → select d (load_origins rows m) ≡ or_else (select d rows) (select d m)
unfolding load_origins select
select-load_origins [] m d h = refl
select-load_origins ((k, b) ∷ rows) m d h =
    select-load_origins rows (replace k b m) d h.1 ∙ ground (arith, select-replace k d b m, h.0)

pub load-IsSound :
    (delta : Fs) (fs_whiteout : List (Bytes × ℤ)) (fs_origin : List (ℕ × ℕ))
    → Distinct fs_origin
    → IsSound (load (new_overlay delta fs_whiteout fs_origin))
unfolding load new_overlay contains select
load-IsSound delta fs_whiteout fs_origin d = record {
  numbers = record {
    below = λ ino k. ground arith;
    places = λ place ino e. ground arith;
    named = λ path ino e. ground arith;
    root_stays = refl;
    not_root = λ b e. ground arith;
  };
  stored = record {
    hidden = λ p. contains-load_whiteouts fs_whiteout [] p;
    copies = λ n. select-load_origins fs_origin [] n d ∙ ground arith;
    keys = d;
  };
}

module _ (base : Base) where
  abbrev ended : {A : Type 0} → Op A → Overlay → Overlay
  ended m o = after (m o)

  unfoldable pub serve : Request → Overlay → Overlay
  serve (lookup parent name) o = after (Read.lookup base parent name o)
  serve (readdir ino) o = after (Read.readdir base ino o)
  serve (readdir_plus ino) o = after (Read.readdir_plus base ino o)
  serve (chmod now ino mode) o = after (Change.chmod base now ino mode o)
  serve (chown now ino uid gid) o = after (Change.chown base now ino uid gid o)
  serve (utimens now ino atime mtime) o = after (Change.utimens base now ino atime mtime o)
  serve (open_file now ino) o = after (Change.open_delta base now ino o)
  serve (mkdir now parent name mode uid gid) o =
      after (Change.mkdir base now parent name mode uid gid o)
  serve (create_file now parent name mode uid gid) o =
      after (Change.create_file base now parent name mode uid gid o)
  serve (mknod now parent name mode rdev uid gid) o =
      after (Change.mknod base now parent name mode rdev uid gid o)
  serve (symlink now parent name target uid gid) o =
      after (Change.symlink base now parent name target uid gid o)
  serve (unlink now parent name) o = after (Change.unlink base now parent name o)
  serve (rmdir now parent name) o = after (Change.rmdir base now parent name o)
  serve (link now ino parent name) o = after (Change.link base now ino parent name o)
  serve (rename now old_parent old_name new_parent new_name) o =
      after (Change.rename base now old_parent old_name new_parent new_name o)
  serve (pwrite now file offset bytes) o =
      after (change_tables (λ fs. with_db fs (File.pwrite now fs.db file offset bytes)) o)
  serve (truncate now file size) o =
      after (change_tables (λ fs. with_db fs (File.truncate now fs.db file size)) o)

  unfoldable pub serve_all : List Request → Overlay → Overlay
  serve_all [] o = o
  serve_all (r ∷ rs) o = serve_all rs (serve r o)

  serve-Extends : (r : Request) (o : Overlay) → IsSound o → Extends o (serve r o)
  unfolding serve
  serve-Extends (lookup parent name) = (lookup-IsSafe base parent name).keeps
  serve-Extends (readdir ino) = (readdir-IsSafe base ino).keeps
  serve-Extends (readdir_plus ino) = (readdir_plus-IsSafe base ino).keeps
  serve-Extends (chmod now ino mode) = (chmod-IsSafe base now ino mode).keeps
  serve-Extends (chown now ino uid gid) = (chown-IsSafe base now ino uid gid).keeps
  serve-Extends (utimens now ino atime mtime) = (utimens-IsSafe base now ino atime mtime).keeps
  serve-Extends (open_file now ino) = (open_delta-IsSafe base now ino).keeps
  serve-Extends (mkdir now parent name mode uid gid) =
      (mkdir-IsSafe base now parent name mode uid gid).keeps
  serve-Extends (create_file now parent name mode uid gid) =
      (create_file-IsSafe base now parent name mode uid gid).keeps
  serve-Extends (mknod now parent name mode rdev uid gid) =
      (mknod-IsSafe base now parent name mode rdev uid gid).keeps
  serve-Extends (symlink now parent name target uid gid) =
      (symlink-IsSafe base now parent name target uid gid).keeps
  serve-Extends (unlink now parent name) = (unlink-IsSafe base now parent name).keeps
  serve-Extends (rmdir now parent name) = (rmdir-IsSafe base now parent name).keeps
  serve-Extends (link now ino parent name) = (link-IsSafe base now ino parent name).keeps
  serve-Extends (rename now old_parent old_name new_parent new_name) =
      (rename-IsSafe base now old_parent old_name new_parent new_name).keeps
  serve-Extends (pwrite now file offset bytes) = (change_tables-IsSafe _).keeps
  serve-Extends (truncate now file size) = (change_tables-IsSafe _).keeps

  serve_all-Extends : (rs : List Request) (o : Overlay) → IsSound o → Extends o (serve_all rs o)
  unfolding serve_all
  serve_all-Extends [] o h = Extends-refl o h
  serve_all-Extends (r ∷ rs) o h =
      let e = serve-Extends r o h in Extends-trans e (serve_all-Extends rs (serve r o) e.sound)

  -- On any base, after any sequence of requests to an overlay that was opened on a database,
  -- whether each of them succeeds or fails, and where fs_origin has one row for each inode of
  -- the delta: every number of the overlay that is in use is below the next one, reverse_map
  -- and path_map lead only to numbers that are known, the root stays the root of the delta and
  -- no inode of the base has its number, and the whiteouts and origins in memory are exactly
  -- those of the tables fs_whiteout and fs_origin. The requests are lookup, readdir,
  -- readdir_plus, chmod, chown, utimens, open, mkdir, create_file, mknod, symlink, unlink,
  -- rmdir, link and rename, and pwrite and truncate of an open file.
  pub serve_all-IsSound :
      (rs : List Request) (delta : Fs) (fs_whiteout : List (Bytes × ℤ)) (fs_origin : List (ℕ × ℕ))
      → Distinct fs_origin
      → IsSound (serve_all rs (load (new_overlay delta fs_whiteout fs_origin)))
  serve_all-IsSound rs delta fs_whiteout fs_origin d =
      (serve_all-Extends rs _ (load-IsSound delta fs_whiteout fs_origin d)).sound

  -- A number that a sound overlay knows after some requests is known after any further
  -- requests: no request takes a number away, whether it succeeds or fails.
  pub serve_all-known :
      (first rest : List Request) (o : Overlay) (ino : ℕ)
      → IsSound o
      → is_known (info_at (serve_all first o) ino) ≡ true
      → is_known (info_at (serve_all rest (serve_all first o)) ino) ≡ true
  serve_all-known first rest o ino h k =
      let e = serve_all-Extends first o h in
      (serve_all-Extends rest (serve_all first o) e.sound).known ino k

-- the overlay that is opened on the database of another
abbrev pub remount : Overlay → Overlay
remount o = load (new_overlay o.delta o.fs_whiteout o.fs_origin)

covered-same :
    (ws vs : List Bytes) (current : Bytes) (cs : List Bytes)
    → ((p : Bytes) → contains ws p ≡ contains vs p)
    → covered ws current cs ≡ covered vs current cs
unfolding covered
covered-same ws vs current [] h = refl
covered-same ws vs current (c ∷ cs) h =
    ground (arith, h (current ++ (slash ∷ c)), covered-same ws vs (current ++ (slash ∷ c)) cs h)

-- An overlay that is opened anew on the database of a sound overlay has the same whiteouts, for
-- every path, and the same origin of every inode of the delta.
pub remount-keeps :
    (o : Overlay) (path : Bytes) (d : ℕ)
    → IsSound o
    → (is_whiteout (remount o) path ≡ is_whiteout o path)
      × (select d (remount o).origin_map ≡ select d o.origin_map)
unfolding is_whiteout load new_overlay
remount-keeps o path d h =
    let again = load-IsSound o.delta o.fs_whiteout o.fs_origin h.stored.keys in
    (
      covered-same (remount o).whiteouts o.whiteouts [] (components path)
          (λ p. again.stored.hidden p ∙ sym (h.stored.hidden p)),
      again.stored.copies d ∙ sym (h.stored.copies d),
    )
