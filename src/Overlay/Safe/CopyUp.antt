-- ===== src/Overlay/Safe/CopyUp.antt =====
-- The methods below the requests that go to the delta are safe.
use airyfs.Prelude.{ℕ, Option, none, some, List, [], ◌∷◌, ◌++◌, nat_eq}
use airyfs.Mode
use airyfs.Mode.{
  FsError, Result, Stamp, Stats, is_directory, is_symlink, not_found, not_a_directory,
}
use airyfs.Db.{Bytes}
use airyfs.PathName.{slash, without_last}
use airyfs.PathApi.{last_name}
use airyfs.Overlay.{Base, InodeInfo}
use airyfs.Overlay.Maps.{place_eq, components, add_origin_mapping}
use airyfs.Overlay.CopyUp.{
  delta_lookup, walk_directories, resolve_delta_parent, walk_delta, walk_base, base_or, owner_or,
  keep_origin, ensure_dirs, ensure_parent_dirs, copy_symlink, copy_directory, copy_file, copy_node,
  already_copied, copy_new, copy_up,
}
use airyfs.Overlay.Sound.{
  Extends-trans, with_delta-Extends, remove_whiteout-Extends, add_origin_mapping-Extends,
}
use airyfs.Overlay.Moved.{promote_to_delta-Extends}
use airyfs.Fs.Make
use airyfs.Overlay.Safe.{
  IsSafe, bind-IsSafe, done-IsSafe, from_result-IsSafe, if-IsSafe, in_delta_layer-IsSafe,
  layer-IsSafe, list-IsSafe, modify-IsSafe, option-IsSafe, refuse-IsSafe, required-IsSafe,
}

pub delta_lookup-IsSafe : (parent : ℕ) (name : Bytes) → IsSafe (delta_lookup parent name)
delta_lookup-IsSafe parent name = in_delta_layer-IsSafe _

walk_directories-IsSafe : (ino : ℕ) (cs : List Bytes) → IsSafe (walk_directories ino cs)
unfolding walk_directories
walk_directories-IsSafe ino [] = done-IsSafe (some ino)
walk_directories-IsSafe ino (c ∷ cs) = bind-IsSafe (delta_lookup-IsSafe ino c) (λ found.
    option-IsSafe found (done-IsSafe none)
      (λ s. if-IsSafe (is_directory s) (walk_directories-IsSafe s.ino cs) (done-IsSafe none)))

pub resolve_delta_parent-IsSafe : (info : InodeInfo) → IsSafe (resolve_delta_parent info)
unfolding resolve_delta_parent
resolve_delta_parent-IsSafe info =
    layer-IsSafe info.layer (done-IsSafe (some info.underlying_ino))
      (walk_directories-IsSafe 1 (components info.path))

walk_delta-IsSafe : (ino : ℕ) (cs : List Bytes) → IsSafe (walk_delta ino cs)
unfolding walk_delta
walk_delta-IsSafe ino [] = done-IsSafe (some ino)
walk_delta-IsSafe ino (c ∷ cs) =
    bind-IsSafe (delta_lookup-IsSafe ino c)
      (λ found. option-IsSafe found (done-IsSafe none) (λ s. walk_delta-IsSafe s.ino cs))

keep_origin-IsSafe :
    (path : Bytes) (d : ℕ) (below : Option Stats) → IsSafe (keep_origin path d below)
keep_origin-IsSafe path d none = done-IsSafe tt
keep_origin-IsSafe path d (some s) = modify-IsSafe _ (λ o h.
    let e = add_origin_mapping-Extends d s.ino o h in
    Extends-trans e (promote_to_delta-Extends path d (add_origin_mapping d s.ino o) e.sound))

module _ (base : Base) where
  pub walk_base-IsSafe : (ino : ℕ) (cs : List Bytes) → IsSafe (walk_base base ino cs)
  unfolding walk_base
  walk_base-IsSafe ino [] = done-IsSafe (some ino)
  walk_base-IsSafe ino (c ∷ cs) =
      bind-IsSafe (from_result-IsSafe (base.lookup ino c))
        (λ found. option-IsSafe found (done-IsSafe none) (λ s. walk_base-IsSafe s.ino cs))

  ensure_dirs-IsSafe :
      (now : Stamp) (owner : ℕ × ℕ) (path : Bytes) (d b : ℕ) (cs : List Bytes)
      → IsSafe (ensure_dirs base now owner path d b cs)
  unfolding ensure_dirs
  ensure_dirs-IsSafe now owner path d b [] = done-IsSafe tt
  ensure_dirs-IsSafe now owner path d b (c ∷ cs) =
      let current = path ++ (slash ∷ c) in
      bind-IsSafe (modify-IsSafe _ (λ o h. remove_whiteout-Extends current o h)) (λ _.
        bind-IsSafe (delta_lookup-IsSafe d c) (λ found.
          option-IsSafe found
            (bind-IsSafe (from_result-IsSafe (base.lookup b c)) (λ below.
              bind-IsSafe
                (in_delta_layer-IsSafe (λ fs.
                  Make.mkdir now fs d c 0o755 (owner_or owner below).0 (owner_or owner below).1))
                (λ made.
                  bind-IsSafe (keep_origin-IsSafe current made.ino below)
                    (λ _. ensure_dirs-IsSafe now owner current made.ino (base_or b below) cs))))
            (λ stats.
              if-IsSafe (is_directory stats)
                (bind-IsSafe (from_result-IsSafe (base.lookup b c))
                  (λ below. ensure_dirs-IsSafe now owner current stats.ino (base_or b below) cs))
                (refuse-IsSafe not_a_directory))))

  pub ensure_parent_dirs-IsSafe :
      (now : Stamp) (path : Bytes) (uid gid : ℕ) → IsSafe (ensure_parent_dirs base now path uid gid)
  unfolding ensure_parent_dirs
  ensure_parent_dirs-IsSafe now path uid gid =
      ensure_dirs-IsSafe now (uid, gid) [] 1 1 (without_last (components path))

  copy_node-IsSafe :
      (now : Stamp) (parent : ℕ) (name : Bytes) (b : ℕ) (stats : Stats)
      → IsSafe (copy_node base now parent name b stats)
  unfolding copy_node copy_symlink copy_directory copy_file
  copy_node-IsSafe now parent name b stats =
      if-IsSafe (is_symlink stats)
        (bind-IsSafe (from_result-IsSafe (base.readlink b)) (λ read.
          bind-IsSafe (required-IsSafe not_found read)
            (λ target. bind-IsSafe (in_delta_layer-IsSafe _) (λ made. done-IsSafe made.ino))))
        (if-IsSafe (is_directory stats)
          (bind-IsSafe (in_delta_layer-IsSafe _) (λ made. done-IsSafe made.ino))
          (bind-IsSafe (from_result-IsSafe (base.open_file b)) (λ pread.
            bind-IsSafe (from_result-IsSafe (pread 0 stats.size)) (λ content.
              bind-IsSafe (in_delta_layer-IsSafe _) (λ made.
                bind-IsSafe (modify-IsSafe _ (λ o h. with_delta-Extends o _ h))
                  (λ _. done-IsSafe made.0.ino))))))

  already_copied-IsSafe :
      (parents : List Bytes) (name : Bytes) → IsSafe (already_copied base parents name)
  unfolding already_copied
  already_copied-IsSafe parents name =
      bind-IsSafe (walk_delta-IsSafe 1 parents) (λ found.
        option-IsSafe found (done-IsSafe none) (λ parent. delta_lookup-IsSafe parent name))

  copy_new-IsSafe :
      (now : Stamp) (path : Bytes) (parents : List Bytes) (name : Bytes) (b : ℕ)
      → IsSafe (copy_new base now path parents name b)
  unfolding copy_new
  copy_new-IsSafe now path parents name b =
      bind-IsSafe (from_result-IsSafe (base.getattr b)) (λ got.
        bind-IsSafe (required-IsSafe not_found got) (λ stats.
          bind-IsSafe (ensure_parent_dirs-IsSafe now path stats.uid stats.gid) (λ _.
            bind-IsSafe (walk_delta-IsSafe 1 parents) (λ found.
              bind-IsSafe (required-IsSafe not_found found) (λ parent.
                bind-IsSafe (copy_node-IsSafe now parent name b stats) (λ d.
                  bind-IsSafe (modify-IsSafe _ (λ o h. add_origin_mapping-Extends d b o h))
                    (λ _. done-IsSafe d)))))))

  pub copy_up-IsSafe : (now : Stamp) (path : Bytes) (b : ℕ) → IsSafe (copy_up base now path b)
  unfolding copy_up
  copy_up-IsSafe now path b =
      list-IsSafe (components path) (refuse-IsSafe Mode.root_operation) (λ c cs.
        let parents = without_last (c ∷ cs) in
        let name = last_name (c ∷ cs) in
        bind-IsSafe (already_copied-IsSafe parents name) (λ there.
          option-IsSafe there (copy_new-IsSafe now path parents name b)
            (λ stats. done-IsSafe stats.ino)))
