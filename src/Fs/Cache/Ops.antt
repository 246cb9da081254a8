-- ===== src/Fs/Cache/Ops.antt =====
-- Every operation leaves the cache coherent with the table.
use mathlib.Core.Path.{subst}
use airyfs.Prelude.{
  ℕ, ◌+◌, ◌≡◌, refl, Option, Option-cases, Bool-cases, inl, inr, arith, nat_eq, entry_eq, pair_eq,
  bytes_eq, bytes_beq,
}
use airyfs.Prelude.Table.{select}
use airyfs.Mode.{Stamp, Stats, ok}
use airyfs.Db.{Bytes}
use airyfs.File.{FileHandle}
use airyfs.Fs.{Fs, lookup, found_child, getattr, dot_dot, cached_as}
use airyfs.Fs.Make.{
  create_file, created_file, mkdir, made_dir, mknod, made_node, symlink, made_symlink, link,
  linked_node,
}
use airyfs.Fs.Delete.{unlink, unlinked, rmdir, removed_dir}
use airyfs.Fs.WellFormed.{IsWellFormed, entry_at, lookup_child-entry_at}
use airyfs.Fs.Drop.{drop_if_unlinked-rest, drop_dir_if_unlinked-rest}
use airyfs.Fs.Create.{check_new-bind}
use airyfs.Fs.Cache.{IsCoherent, Advances}
use airyfs.Fs.Cache.Calls.{inserted-Advances, deleted-Advances, same-Advances, insert-IsCoherent}

module _ (fs fs' : Fs) (parent : ℕ) (name : Bytes) (h : IsWellFormed fs.db) where
  -- `lookup` only reads the tables.
  pub lookup-db : (o : Option Stats) → lookup fs parent name ≡ ok (o, fs') → fs'.db ≡ fs.db
  unfolding lookup found_child getattr
  lookup-db o e = ground (arith, lookup_child-entry_at fs.db parent name h.distinct)

  pub lookup-Advances :
      IsCoherent fs → (o : Option Stats) → lookup fs parent name ≡ ok (o, fs') → Advances fs fs'
  unfolding lookup found_child getattr
  lookup-Advances c o e = elim (Bool-cases (bytes_beq name dot_dot)) [
    | inl up ↦
        let done : fs ≡ fs' = ground arith in
        subst (Advances fs) done (same-Advances fs fs c refl refl)
    | inr plain ↦ elim (Option-cases (entry_at fs.db (parent, name))) [
      | inl absent ↦
          let done : fs ≡ fs' =
            ground (arith, lookup_child-entry_at fs.db parent name h.distinct) in
          subst (Advances fs) done (same-Advances fs fs c refl refl)
      | inr (ino, entry) ↦ elim (Option-cases (select ino fs.db.inodes)) [
        | inl missing ↦
            let done : fs ≡ fs' =
              ground (arith, lookup_child-entry_at fs.db parent name h.distinct) in
            subst (Advances fs) done (same-Advances fs fs c refl refl)
        | inr (row, found) ↦
            let done : cached_as (parent, name) ino fs ≡ fs' =
              ground (arith, lookup_child-entry_at fs.db parent name h.distinct) in
            subst (Advances fs) done (record {
              coherent =
                  insert-IsCoherent fs (cached_as (parent, name) ino fs) c (parent, name) ino entry
                    (λ _ _. refl) refl;
              grown = omega arith;
            })
      ]
    ]
  ]

module _ (now : Stamp) (fs fs' : Fs) (parent : ℕ) (name : Bytes) (h : IsWellFormed fs.db)
    (c : IsCoherent fs) where
  pub mkdir-Advances :
      (mode uid gid : ℕ) (stats : Stats)
      → mkdir now fs parent name mode uid gid ≡ ok (stats, fs')
      → Advances fs fs'
  unfolding mkdir
  mkdir-Advances mode uid gid stats e =
      let is = (check_new-bind fs.db parent name _ (stats, fs') h e).1 in
      subst (λ (r : Stats × Fs). Advances fs r.1) is
        (inserted-Advances fs (made_dir now fs parent name mode uid gid) c (parent, name)
          (fs.db.last_ino + 1) (unfold made_dir in refl) (unfold made_dir in refl))

  pub create_file-Advances :
      (mode uid gid : ℕ) (stats : Stats) (file : FileHandle)
      → create_file now fs parent name mode uid gid ≡ ok (stats, file, fs')
      → Advances fs fs'
  unfolding create_file
  create_file-Advances mode uid gid stats file e =
      let is = (check_new-bind fs.db parent name _ (stats, file, fs') h e).1 in
      subst (λ (r : Stats × FileHandle × Fs). Advances fs r.2) is
        (inserted-Advances fs (created_file now fs parent name mode uid gid) c (parent, name)
          (fs.db.last_ino + 1) (unfold created_file in refl) (unfold created_file in refl))

  pub mknod-Advances :
      (mode rdev uid gid : ℕ) (stats : Stats)
      → mknod now fs parent name mode rdev uid gid ≡ ok (stats, fs')
      → Advances fs fs'
  unfolding mknod
  mknod-Advances mode rdev uid gid stats e =
      let is = (check_new-bind fs.db parent name _ (stats, fs') h e).1 in
      subst (λ (r : Stats × Fs). Advances fs r.1) is
        (inserted-Advances fs (made_node now fs parent name mode rdev uid gid) c (parent, name)
          (fs.db.last_ino + 1) (unfold made_node in refl) (unfold made_node in refl))

  pub symlink-Advances :
      (target : Bytes) (uid gid : ℕ) (stats : Stats)
      → symlink now fs parent name target uid gid ≡ ok (stats, fs')
      → Advances fs fs'
  unfolding symlink
  symlink-Advances target uid gid stats e =
      let is = (check_new-bind fs.db parent name _ (stats, fs') h e).1 in
      subst (λ (r : Stats × Fs). Advances fs r.1) is
        (inserted-Advances fs (made_symlink now fs parent name target uid gid) c (parent, name)
          (fs.db.last_ino + 1) (unfold made_symlink in refl) (unfold made_symlink in refl))

  pub link-Advances :
      (ino : ℕ) (stats : Stats) → link now fs ino parent name ≡ ok (stats, fs') → Advances fs fs'
  unfolding link
  link-Advances ino stats e =
      let done : linked_node now fs ino parent name ≡ fs' =
        ground (arith, lookup_child-entry_at fs.db parent name h.distinct) in
      subst (Advances fs) done (
        inserted-Advances fs (linked_node now fs ino parent name) c (parent, name) ino
          (unfold linked_node in refl) (unfold linked_node in refl))

  unlinked-Advances : (ino : ℕ) → Advances fs (unlinked now fs parent name ino)
  unlinked-Advances ino =
      deleted-Advances fs (unlinked now fs parent name ino) c (parent, name)
        (unfold unlinked in (drop_if_unlinked-rest ino _).0) (unfold unlinked in refl)

  removed_dir-Advances : (ino : ℕ) → Advances fs (removed_dir now fs parent name ino)
  removed_dir-Advances ino =
      deleted-Advances fs (removed_dir now fs parent name ino) c (parent, name)
        (unfold removed_dir in (drop_dir_if_unlinked-rest ino _).0) (unfold removed_dir in refl)

  pub unlink-Advances : unlink now fs parent name ≡ ok fs' → Advances fs fs'
  unfolding unlink
  unlink-Advances e = elim (Option-cases (entry_at fs.db (parent, name))) [
    | inl absent ↦ absurd (ground (arith, lookup_child-entry_at fs.db parent name h.distinct))
    | inr (ino, entry) ↦
        let done : unlinked now fs parent name ino ≡ fs' =
          ground (arith, lookup_child-entry_at fs.db parent name h.distinct) in
        subst (Advances fs) done (unlinked-Advances ino)
  ]

  pub rmdir-Advances : rmdir now fs parent name ≡ ok fs' → Advances fs fs'
  unfolding rmdir
  rmdir-Advances e = elim (Option-cases (entry_at fs.db (parent, name))) [
    | inl absent ↦ absurd (ground (arith, lookup_child-entry_at fs.db parent name h.distinct))
    | inr (ino, entry) ↦
        let done : removed_dir now fs parent name ino ≡ fs' =
          ground (arith, lookup_child-entry_at fs.db parent name h.distinct) in
        subst (Advances fs) done (removed_dir-Advances ino)
  ]
