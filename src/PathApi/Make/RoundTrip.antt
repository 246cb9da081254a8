-- ===== src/PathApi/Make/RoundTrip.antt =====
-- `mkdir` by path, and what `lstat` then shows.
use mathlib.Core.Bool.{false≢true}
use mathlib.Core.Path.{subst}
use airyfs.Prelude.{
  ℕ, ◌+◌, ◌%◌, ◌^◌, ◌≤◌, ◌<◌, ◌≡◌, ◌≢◌, refl, sym, ap, ◌∙◌, true, false, Option, none, some,
  Option-cases, inl, inr, List, [], ◌∷◌, arith, nat_eq, entry_eq, pair_eq, bytes_eq, entry_beq,
  entry_beq_iff, if◌then◌else◌,
}
use airyfs.Prelude.Int.{pos, inc}
use airyfs.Prelude.Table.{select, update, select-update, Distinct}
use airyfs.Mode.{Stamp, Stats, ok, permissions, s_ifdir}
use airyfs.Db.{Bytes, Inode, Db, root_ino, build_stats}
use airyfs.Fs.{Fs, Entry, getattr, is_dir_row}
use airyfs.Fs.Make.{made_dir, new_inode, new_stats}
use airyfs.Fs.WellFormed.{IsWellFormed, row_at, entry_at, lookup_child-entry_at}
use airyfs.Fs.Lookup.{row_counted, entry_inserted}
use airyfs.Fs.Cache.{Lru, IsCoherent}
use airyfs.Fs.Cache.Calls.{inserted-Advances, entry_at-cons}
use airyfs.PathName.{normalize_path, without_last}
use airyfs.PathName.Pieces.{is_clean, all_of}
use airyfs.PathApi.{returns, last_name, path_components}
use airyfs.PathApi.Make.{mkdir_path}
use airyfs.PathApi.Make.Parent.{path_components-clean, walk-last, resolve_parent-Answers}
use airyfs.PathApi.Walk.{walk, Answers, resolve_path-walk}
use airyfs.PathApi.Stat.{lstat}
use airyfs.PathApi.Stat.Links.{attributes, named_ino}

-- An entry more, and every walk that arrived arrives.
walk-grown :
    (db db' : Db)
    → ((k : Entry) (v : ℕ) → entry_at db k ≡ some v → entry_at db' k ≡ some v)
    → (names : List Bytes) (ino child : ℕ) → walk db names ino ≡ some child
    → walk db' names ino ≡ some child
unfolding walk
walk-grown db db' grows [] ino child e = e
walk-grown db db' grows (name ∷ rest) ino child e = elim (Option-cases (entry_at db (ino, name))) [
  | inl absent ↦ absurd (ground arith)
  | inr (next, entry) ↦
      rw (grows (ino, name) next entry, walk)
        (walk-grown db db' grows rest next child (ground arith))
]

-- `lstat` shows what the table has under the path.
lstat-attributes :
    (lru : Lru) (path : Bytes) (fs : Fs)
    → Distinct fs.db.dentries
    → IsCoherent fs
    → Answers (lstat lru path) fs (ok (attributes fs.db (normalize_path path)))
unfolding lstat attributes
lstat-attributes lru path fs d c =
    let found = resolve_path-walk lru (normalize_path path) fs d c in
    record {
      after = found.after;
      result = ground (arith, found.result, found.tables);
      tables = found.tables;
      chunking = found.chunking;
      coherent = found.coherent;
    }

-- the attributes of a new directory
dir_stats :
    (ino uid gid : ℕ) (now : Stamp)
    → uid < 2 ^ 32
    → gid < 2 ^ 32
    → build_stats ino (new_inode (s_ifdir + 0o755) (pos 2) uid gid 0 0 now)
      ≡ new_stats ino (s_ifdir + 0o755) 2 uid gid 0 0 now
unfolding build_stats
dir_stats ino uid gid now u g =
    let u' : uid % 2 ^ 32 ≡ uid = omega arith in
    let g' : gid % 2 ^ 32 ≡ gid = omega arith in rw (u', g') refl

-- the kind of an inode that is there before another is made
kept_kind :
    (rows : List (ℕ × Inode)) (parent ino : ℕ) (row : Inode) (f g : Inode → Inode)
    → parent ≢ ino
    → is_dir_row (select parent rows) ≡ false
    → ((r : Inode) → (g r).mode ≡ r.mode)
    → is_dir_row (select parent (update parent g (update ino f ((ino, row) ∷ rows)))) ≡ false
unfolding select
kept_kind rows parent ino row f g apart file kind = elim (Option-cases (select parent rows)) [
  | inl gone ↦ ground (
    arith,
    select-update parent parent g (update ino f ((ino, row) ∷ rows)),
    select-update ino parent f ((ino, row) ∷ rows),
  )
  | inr (r, there) ↦ ground (
    arith,
    kind r,
    select-update parent parent g (update ino f ((ino, row) ∷ rows)),
    select-update ino parent f ((ino, row) ∷ rows),
  )
]

module _ (lru : Lru) (now : Stamp) (path : Bytes) (w : Bytes) (ws : List Bytes) (parent uid gid : ℕ)
    (fs : Fs) (cut : path_components path ≡ w ∷ ws) (d : Distinct fs.db.dentries)
    (c : IsCoherent fs) (up : walk fs.db (without_last (w ∷ ws)) root_ino ≡ some parent)
    (absent : entry_at fs.db (parent, last_name (w ∷ ws)) ≡ none) where
  -- It makes the directory in whatever the parent's path names.
  mkdir_path-makes :
      (fs' : Fs) × (fs'.db ≡ fs.db)
      × IsCoherent fs'
      × (mkdir_path lru now path uid gid fs
          ≡ returns tt (made_dir now fs' parent (last_name (w ∷ ws)) 0o755 uid gid))
  unfolding mkdir_path
  mkdir_path-makes =
      let clean : all_of is_clean (w ∷ ws) ≡ true = rw cut at (path_components-clean path) in
      let up' = resolve_parent-Answers lru fs w ws clean d c parent up in
      (
        up'.after,
        up'.tables,
        up'.coherent,
        ground (
          arith,
          up'.result,
          up'.tables,
          lookup_child-entry_at up'.after.db parent (last_name (w ∷ ws)) (rw up'.tables d),
        ),
      )

  -- Where no name stands twice in a directory, the cache is coherent, no row is above the
  -- counter, the parent of the path names an inode that exists, the last name is free there,
  -- and the user and the group are below 2^32, `mkdir` of the path succeeds, and `lstat` of the
  -- path then answers the attributes of a new directory: the next inode number, the mode
  -- 0o40755, the link count 2, and the given owner and time.
  pub mkdir_path-lstat :
      ((i : ℕ) → row_at fs.db i ≢ none → i ≤ fs.db.last_ino)
      → row_at fs.db parent ≢ none
      → uid < 2 ^ 32
      → gid < 2 ^ 32
      → (fs' : Fs) × (mkdir_path lru now path uid gid fs ≡ returns tt fs')
        × Answers
            (lstat lru path)
            fs'
            (ok (some (new_stats (fs.db.last_ino + 1) (s_ifdir + 0o755) 2 uid gid 0 0 now)))
  unfolding made_dir attributes getattr path_components
  mkdir_path-lstat fresh exists uid_fits gid_fits =
      let (old, same, c', made) = mkdir_path-makes in
      let name : Bytes = last_name (w ∷ ws) in
      let ino : ℕ = fs.db.last_ino + 1 in
      let fs' : Fs = made_dir now old parent name 0o755 uid gid in
      let entries : fs'.db.dentries ≡ ((parent, name), ino) ∷ fs.db.dentries = rw same refl in
      let c'' : IsCoherent fs' =
        (inserted-Advances old fs' c' (parent, name) (old.db.last_ino + 1) refl refl).coherent in
      let d' : Distinct fs'.db.dentries =
        subst (λ (m : List (Entry × ℕ)). Distinct m) (sym entries) (absent, d) in
      let at : (j : Entry)
          → entry_at fs'.db j
            ≡ (if entry_beq (parent, name) j then some ino else entry_at fs.db j) =
        λ j. rw entries (entry_at-cons fs.db.dentries (parent, name) j ino) in
      let grown : walk fs'.db (without_last (w ∷ ws)) root_ino ≡ some parent =
        walk-grown fs.db fs'.db
          (λ k v e. ground (arith, at k, entry_beq_iff (parent, name) k, absent))
          (without_last (w ∷ ws)) root_ino parent up in
      let named : named_ino fs'.db (normalize_path path) ≡ some ino = ground (
        arith,
        walk-last fs'.db w ws root_ino,
        at (parent, name),
        entry_beq_iff (parent, name) (parent, name),
      ) in
      let apart : parent ≢ ino = omega (arith, fresh parent exists) in
      let row : Inode = new_inode (s_ifdir + 0o755) (pos 2) uid gid 0 0 now in
      let there : row_at fs'.db ino ≡ some row = rw same (
        row_counted fs.db.inodes parent ino
          (new_inode (s_ifdir + permissions 0o755) (pos 0) uid gid 0 0 now)
          (λ r. record r { nlink = pos 2 })
          (λ r. record r { nlink = inc r.nlink; ctime = now; mtime = now }) apart) in
      let shown : attributes fs'.db (normalize_path path)
          ≡ some (new_stats ino (s_ifdir + 0o755) 2 uid gid 0 0 now) =
        (let found : attributes fs'.db (normalize_path path) ≡ some (build_stats ino row) =
            ground arith in
          found ∙ ap (λ (t : Stats). some t) (dir_stats ino uid gid now uid_fits gid_fits)) in
      (
        fs',
        made,
        subst (λ (o : Option Stats). Answers (lstat lru path) fs' (ok o)) shown
            (lstat-attributes lru path fs' d' c''),
      )

  -- Where no name stands twice in a directory, the cache is coherent, no row is above the
  -- counter, the last name of the path is free and its parent names an inode that exists and is
  -- no directory, `mkdir` of the path still succeeds, and the namespace is not well formed
  -- after it.
  pub mkdir_path-under_file :
      ((i : ℕ) → row_at fs.db i ≢ none → i ≤ fs.db.last_ino)
      → row_at fs.db parent ≢ none
      → is_dir_row (row_at fs.db parent) ≡ false
      → (fs' : Fs) × (mkdir_path lru now path uid gid fs ≡ returns tt fs')
        × (IsWellFormed fs'.db → ⊥)
  unfolding made_dir select
  mkdir_path-under_file fresh exists file =
      let (old, same, c', made) = mkdir_path-makes in
      let name : Bytes = last_name (w ∷ ws) in
      let ino : ℕ = fs.db.last_ino + 1 in
      let fs' : Fs = made_dir now old parent name 0o755 uid gid in
      let entry : entry_at fs'.db (parent, name) ≡ some ino =
        rw same (entry_inserted fs.db.dentries (parent, name) ino) in
      let apart : parent ≢ ino = omega (arith, fresh parent exists) in
      let kind : is_dir_row (row_at fs'.db parent) ≡ false =
        rw same (kept_kind fs.db.inodes parent ino _ _ _ apart file (λ r. refl)) in
      (fs', made, λ formed. false≢true (sym kind ∙ formed.parents (parent, name) ino entry))
