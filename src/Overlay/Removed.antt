-- ===== src/Overlay/Removed.antt =====
-- What unlink, rmdir and rename leave at the old name.
use airyfs.Prelude.{
  ℕ, ◌≡◌, refl, sym, ap, ◌∙◌, true, Option, none, some, List, nat_eq, Option-cases, inl, inr, arith,
}
use airyfs.Prelude.Table.{select}
use airyfs.Mode.{Stamp, Stats, is_directory, not_found, is_a_directory}
use airyfs.Fs.Delete
use airyfs.Fs.Move
use airyfs.Db.{Bytes}
use airyfs.PathName.{root}
use airyfs.PathName.Pieces.{is_named, all_of}
use airyfs.Overlay.{
  Base, InodeInfo, Overlay, Outcome, returns, fails, Op, ◌>>=◌, done, required, modify,
  changes_delta,
}
use airyfs.Overlay.Maps.{
  remove_whiteout, is_whiteout, create_whiteout, inode_info, child_path, build_path,
}
use airyfs.Overlay.CopyUp.{resolve_delta_parent, ensure_parent_dirs}
use airyfs.Overlay.Read.{lookup, readdir}
use airyfs.Overlay.Change.{
  hide, whiteout_if, refuse_if, in_parent, or_absent, require_directory, require_empty, copy_source,
  unlink, rmdir, rename,
}
use airyfs.Overlay.Safe.{after}
use airyfs.Overlay.Hidden.{dir_path, create_whiteout-hides}
use airyfs.Overlay.Ends.{Ends, EndsAt, bind-Ends, bind-EndsAt, Ends-at}
use airyfs.Overlay.Quiet.{value, recached, next, taken, bind-returns}
use airyfs.Overlay.Quiet.Lookup.{lookup-IsAbsent}

abbrev path_of : Option InodeInfo → Option Bytes
path_of none = none
path_of (some info) = some info.path

-- the path of a number
abbrev pub path_at : ℕ → Overlay → Option Bytes
path_at ino o = path_of (select ino o.inode_map)

bind-value :
    {A B : Type 0} (m : Op A) (f : A → Op B) {a : A} {o p : Overlay}
    → m o ≡ returns a p
    → value ((m >>= f) o) ≡ value (f a p)
bind-value m f e = ap value (bind-returns m f e)

module _ (base : Base) (parent : ℕ) (name : Bytes) (ws : List Bytes) where
  -- the name is not found, if the parent is where it was
  abbrev IsGone : Overlay → Type 0
  IsGone o = path_at parent o ≡ some (dir_path ws) → value (lookup base parent name o) ≡ some none

  lookup-hidden :
      (o : Overlay) (info : InodeInfo)
      → select parent o.inode_map ≡ some info
      → is_whiteout o (child_path info.path name) ≡ true
      → value (lookup base parent name o) ≡ some none
  unfolding lookup build_path
  lookup-hidden o info e h =
      let info_here : inode_info parent o ≡ returns info o = ap (λ r. required not_found r o) e in
      let path_here : build_path parent name o ≡ returns (child_path info.path name) o =
        ap (λ r. next (λ i. done (child_path i.path name)) r) info_here in
      bind-value (inode_info parent) _ info_here
      ∙ bind-value (build_path parent name) _ path_here
      ∙ (rw h refl)

  hidden-IsGone :
      (now : Stamp) (o : Overlay)
      → all_of is_named ws ≡ true
      → is_named name ≡ true
      → IsGone (create_whiteout now (child_path (dir_path ws) name) o)
  unfolding create_whiteout
  hidden-IsGone now o h k at = elim (Option-cases (select parent o.inode_map)) [
    | inl none_there ↦ ground arith
    | inr (info, e) ↦
        let marked : Overlay = create_whiteout now (child_path (dir_path ws) name) o in
        let same : info.path ≡ dir_path ws = ap (taken root) (sym (ap path_of e) ∙ at) in
        lookup-hidden marked info e (
          ap (λ p. is_whiteout marked (child_path p name)) same
          ∙ create_whiteout-hides now ws name o h k)
  ]

  hide_after :
      (now : Stamp) (r : Outcome (Option Stats)) (o o' : Overlay)
      → all_of is_named ws ≡ true
      → is_named name ≡ true
      → lookup base parent name o ≡ r
      → next (whiteout_if now (child_path (dir_path ws) name)) r ≡ returns tt o'
      → IsGone o'
  hide_after now (returns none p) o o' h k found e at =
      let gone = (lookup-IsAbsent base parent name).gone o in
      let none_there = ap value found in
      let (c, stays) = (gone o.delta.cache none_there).1 in
      let ends : recached c o ≡ o' = sym stays ∙ ap after found ∙ ap after e in
      ap (λ q. value (lookup base parent name q)) (sym ends) ∙ (gone c none_there).0
  hide_after now (returns (some s) p) o o' h k found e at =
      let ends : create_whiteout now (child_path (dir_path ws) name) p ≡ o' = ap after e in
      ap (λ q. value (lookup base parent name q)) (sym ends)
      ∙ hidden-IsGone now p h k (ap (path_at parent) ends ∙ at)
  hide_after now (fails x p) o o' h k found e at = ground arith

  hide-Ends :
      (now : Stamp)
      → all_of is_named ws ≡ true
      → is_named name ≡ true
      → Ends IsGone (hide base now parent name (child_path (dir_path ws) name))
  unfolding hide
  hide-Ends now h k = record {
    ends = λ o o' e. hide_after now (lookup base parent name o) o o' h k refl e;
  }

  -- the two numbers that they begin with
  info_here :
      (o : Overlay) (info : InodeInfo)
      → select parent o.inode_map ≡ some info
      → inode_info parent o ≡ returns info o
  info_here o info e = ap (λ r. required not_found r o) e

  path_here :
      (o : Overlay) (info : InodeInfo)
      → path_at parent o ≡ some (dir_path ws)
      → select parent o.inode_map ≡ some info
      → build_path parent name o ≡ returns (child_path (dir_path ws) name) o
  unfolding build_path
  path_here o info before e =
      ap (next (λ i. done (child_path i.path name))) (info_here o info e)
      ∙ ap (λ p. returns (child_path p name) o) (ap (taken root) (sym (ap path_of e) ∙ before))

  from_path :
      (f : InodeInfo → Bytes → Op (Unit {0})) (o : Overlay)
      → path_at parent o ≡ some (dir_path ws)
      → ((info : InodeInfo) → Ends IsGone (f info (child_path (dir_path ws) name)))
      → EndsAt IsGone
          (inode_info parent >>= λ info. build_path parent name >>= λ path. f info path)
          o
  from_path f o before s = elim (Option-cases (select parent o.inode_map)) [
    | inl none_there ↦ ground arith
    | inr (info, e) ↦
        bind-EndsAt (inode_info parent) (λ i. build_path parent name >>= λ path. f i path) info
          (info_here o info e)
          (bind-EndsAt (build_path parent name) (f info) (child_path (dir_path ws) name)
            (path_here o info before e) (Ends-at o (s info)))
  ]

  other_info :
      {P : Overlay → Type 0} (other : ℕ) (f : InodeInfo → Op (Unit {0})) (o : Overlay)
      → ((info : InodeInfo) → EndsAt P (f info) o)
      → EndsAt P (inode_info other >>= f) o
  other_info other f o s = elim (Option-cases (select other o.inode_map)) [
    | inl missing ↦ record {
      ends_at = λ o' h.
          let failed = sym (ap (λ r. next f (required not_found r o)) missing) ∙ h in ground arith;
    }
    | inr (info, e) ↦
        bind-EndsAt (inode_info other) f info (ap (λ r. required not_found r o) e) (s info)
  ]

  from_paths :
      (other : ℕ) (f : InodeInfo → InodeInfo → Bytes → Op (Unit {0})) (o : Overlay)
      → path_at parent o ≡ some (dir_path ws)
      → ((info to : InodeInfo) → Ends IsGone (f info to (child_path (dir_path ws) name)))
      → EndsAt IsGone
          (inode_info parent >>= λ info.
            inode_info other >>= λ to. build_path parent name >>= λ path. f info to path)
          o
  from_paths other f o before s = elim (Option-cases (select parent o.inode_map)) [
    | inl none_there ↦ ground arith
    | inr (info, e) ↦
        bind-EndsAt (inode_info parent)
          (λ i. inode_info other >>= λ to. build_path parent name >>= λ path. f i to path) info
          (info_here o info e)
          (other_info other (λ to. build_path parent name >>= λ path. f info to path) o
            (λ to.
              bind-EndsAt (build_path parent name) (f info to) (child_path (dir_path ws) name)
                (path_here o info before e) (Ends-at o (s info to))))
  ]

  unlink-lookup :
      (now : Stamp) (o o' : Overlay)
      → all_of is_named ws ≡ true
      → is_named name ≡ true
      → path_at parent o ≡ some (dir_path ws)
      → path_at parent o' ≡ some (dir_path ws)
      → unlink base now parent name o ≡ returns tt o'
      → value (lookup base parent name o') ≡ some none
  unfolding unlink
  unlink-lookup now o o' h k before at e =
      (from_path _ o before (λ info. bind-Ends (lookup base parent name) (λ found.
          bind-Ends (required not_found found) (λ stats.
            bind-Ends (refuse_if (is_directory stats) is_a_directory) (λ _.
              bind-Ends (resolve_delta_parent info) (λ dir.
                bind-Ends (in_parent (λ d. or_absent (λ fs. Delete.unlink now fs d name)) dir)
                  (λ _. hide-Ends now h k))))))).ends_at
        o' e at

  rmdir-lookup :
      (now : Stamp) (o o' : Overlay)
      → all_of is_named ws ≡ true
      → is_named name ≡ true
      → path_at parent o ≡ some (dir_path ws)
      → path_at parent o' ≡ some (dir_path ws)
      → rmdir base now parent name o ≡ returns tt o'
      → value (lookup base parent name o') ≡ some none
  unfolding rmdir
  rmdir-lookup now o o' h k before at e =
      (from_path _ o before (λ info. bind-Ends (lookup base parent name) (λ found.
          bind-Ends (required not_found found) (λ stats. bind-Ends (require_directory stats) (λ _.
            bind-Ends (readdir base stats.ino) (λ entries. bind-Ends (require_empty entries) (λ _.
              bind-Ends (resolve_delta_parent info) (λ dir.
                bind-Ends (in_parent (λ d. or_absent (λ fs. Delete.rmdir now fs d name)) dir)
                  (λ _. hide-Ends now h k))))))))).ends_at
        o' e at

  rename-lookup :
      (now : Stamp) (new_parent : ℕ) (new_name : Bytes) (o o' : Overlay)
      → all_of is_named ws ≡ true
      → is_named name ≡ true
      → path_at parent o ≡ some (dir_path ws)
      → path_at parent o' ≡ some (dir_path ws)
      → rename base now parent name new_parent new_name o ≡ returns tt o'
      → value (lookup base parent name o') ≡ some none
  unfolding rename
  rename-lookup now new_parent new_name o o' h k before at e =
      let old_path : Bytes = child_path (dir_path ws) name in
      (from_paths new_parent _ o before (λ info to.
          bind-Ends (build_path new_parent new_name) (λ new_path.
            bind-Ends (lookup base parent name) (λ found.
              bind-Ends (required not_found found) (λ stats.
                bind-Ends (inode_info stats.ino) (λ src.
                  bind-Ends (copy_source base now old_path src) (λ _.
                    bind-Ends (modify (remove_whiteout new_path)) (λ _.
                      bind-Ends (ensure_parent_dirs base now new_path 0 0) (λ _.
                        bind-Ends (resolve_delta_parent info) (λ from.
                          bind-Ends (required not_found from) (λ src_dir.
                            bind-Ends (resolve_delta_parent to) (λ into.
                              bind-Ends (required not_found into) (λ dst_dir.
                                bind-Ends
                                  (changes_delta
                                    (λ fs. Move.rename now now fs src_dir name dst_dir new_name))
                                  (λ _. hide-Ends now h k)))))))))))))).ends_at
        o' e at

-- the calls that take a name away
pub data Removal : Type 0 where
  by_unlink by_rmdir : Removal
  by_rename : (new_parent : ℕ) (new_name : Bytes) → Removal

unfoldable pub remove : Base → Stamp → ℕ → Bytes → Removal → Op (Unit {0})
remove base now parent name by_unlink = unlink base now parent name
remove base now parent name by_rmdir = rmdir base now parent name
remove base now parent name (by_rename new_parent new_name) =
    rename base now parent name new_parent new_name

-- After an unlink, an rmdir or a rename that returns, lookup of the old name finds nothing,
-- whether the entry came from the delta, from the base, or from both, and whatever the base
-- answers; the name and the components of the path of the parent are not empty and have no
-- slash, and the parent has the same path before and after the call.
pub remove-lookup :
    (base : Base) (parent : ℕ) (name : Bytes) (ws : List Bytes) (now : Stamp) (r : Removal)
    (o o' : Overlay)
    → all_of is_named ws ≡ true
    → is_named name ≡ true
    → path_at parent o ≡ some (dir_path ws)
    → path_at parent o' ≡ some (dir_path ws)
    → remove base now parent name r o ≡ returns tt o'
    → value (lookup base parent name o') ≡ some none
unfolding remove
remove-lookup base parent name ws now by_unlink = unlink-lookup base parent name ws now
remove-lookup base parent name ws now by_rmdir = rmdir-lookup base parent name ws now
remove-lookup base parent name ws now (by_rename new_parent new_name) =
    rename-lookup base parent name ws now new_parent new_name
