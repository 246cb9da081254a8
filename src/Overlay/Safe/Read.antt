-- ===== src/Overlay/Safe/Read.antt =====
-- The methods of the overlay that look are safe.
use airyfs.Prelude.{
  ℕ, inl, inr, ap, ◌∙◌, Bool, true, false, Option, none, some, List, [], ◌∷◌, nat_eq, bytes_beq,
  Option-cases,
}
use airyfs.Prelude.Table.{select}
use airyfs.Mode.{Stats}
use airyfs.Db.{Bytes}
use airyfs.PathName.{root}
use airyfs.Overlay.{Base, in_delta, in_base, InodeInfo, Overlay, Op}
use airyfs.Overlay.Maps.{place_eq, components, is_whiteout, get_or_create_overlay_ino, child_path}
use airyfs.Overlay.Sound.{
  IsSound, Extends, Extends-refl, Extends-trans, get_or_create_overlay_ino-Extends,
}
use airyfs.Overlay.Moved.{refresh_overlay_mapping-Extends}
use airyfs.Overlay.Safe.{
  IsSafe, bind-IsSafe, build_path-IsSafe, done-IsSafe, from_result-IsSafe, gets-IsSafe, if-IsSafe,
  inode_info-IsSafe, layer-IsSafe, mapped-IsSafe, option-IsSafe,
}
use airyfs.Overlay.Read
use airyfs.Overlay.Read.{
  with_ino, origin_ino, delta_entry_ino, found_in_delta, numbered, is_shown, insert_entry,
  add_shown, delta_entries, or_nil, put_entry, listed_ino, put_shown, delta_rows, overlay_statfs,
  base_directory, lookup_base, lookup_layers, layer_getattr, layer_readlink, listed_directory,
  base_entries, base_rows,
}
use airyfs.Overlay.Safe.CopyUp.{delta_lookup-IsSafe, resolve_delta_parent-IsSafe, walk_base-IsSafe}

origin_ino-Extends :
    (ino d : ℕ) (path : Bytes) (o : Overlay) → IsSound o → Extends o (origin_ino ino d path o).1
unfolding origin_ino
origin_ino-Extends ino d path o h = elim (Option-cases (select d o.origin_map)) [
  | inl new ↦ rw (new, origin_ino) (Extends-refl o h)
  | inr (b, copied) ↦ elim (Option-cases (select (in_base, b) o.reverse_map)) [
    | inl unknown ↦ rw (copied, origin_ino) (rw unknown (Extends-refl o h))
    | inr (number, there) ↦
        rw (copied, origin_ino)
          (rw there (
            refresh_overlay_mapping-Extends number d path o h
              (λ e. h.numbers.not_root b (there ∙ ap some e))))
  ]
]

delta_entry_ino-Extends :
    (d : ℕ) (path : Bytes) (o : Overlay) → IsSound o → Extends o (delta_entry_ino d path o).1
unfolding delta_entry_ino
delta_entry_ino-Extends d path o h =
    let e = get_or_create_overlay_ino-Extends (in_delta, d) path o h in
    let made = get_or_create_overlay_ino (in_delta, d) path o in
    Extends-trans e (origin_ino-Extends made.0 d path made.1 e.sound)

found_in_delta-IsSafe : (found : Option ℕ) (name : Bytes) → IsSafe (found_in_delta found name)
found_in_delta-IsSafe none name = done-IsSafe none
found_in_delta-IsSafe (some d) name = delta_lookup-IsSafe d name

listed_ino-Extends :
    (d : ℕ) (path : Bytes) (o : Overlay) → IsSound o → Extends o (listed_ino d path o).1
unfolding listed_ino
listed_ino-Extends d path o h = elim (Option-cases (select d o.origin_map)) [
  | inl new ↦ rw (new, listed_ino) (get_or_create_overlay_ino-Extends (in_delta, d) path o h)
  | inr (b, copied) ↦
      rw (copied, listed_ino) (get_or_create_overlay_ino-Extends (in_base, b) path o h)
]

bool-IsSafe :
    {B : Type 0} (b : Bool) {m n : Op B}
    → IsSafe m
    → IsSafe n
    → IsSafe (elim b as (λ _. Op B) [ false ↦ m | true ↦ n ])
bool-IsSafe false sm sn = sm
bool-IsSafe true sm sn = sn

put_shown-IsSafe :
    (number : ℕ → Bytes → Overlay → ℕ × Overlay) (dir : Bytes) (rows entries : List (Bytes × Stats))
    → ((d : ℕ) (path : Bytes) (o : Overlay) → IsSound o → Extends o (number d path o).1)
    → IsSafe (put_shown number dir rows entries)
unfolding put_shown
put_shown-IsSafe number dir [] entries s = done-IsSafe entries
put_shown-IsSafe number dir ((e, stats) ∷ rows) entries s =
    bind-IsSafe (gets-IsSafe (λ o. is_shown o dir e)) (λ shown.
      bool-IsSafe shown (put_shown-IsSafe number dir rows entries s) (
        bind-IsSafe
          (mapped-IsSafe (number stats.ino (child_path dir e)) (s stats.ino (child_path dir e)))
          (λ ino. put_shown-IsSafe number dir rows (put_entry e (with_ino ino stats) entries) s)))

module _ (base : Base) where
  base_directory-IsSafe : (info : InodeInfo) → IsSafe (base_directory base info)
  unfolding base_directory
  base_directory-IsSafe info =
      layer-IsSafe info.layer
        (if-IsSafe (bytes_beq info.path root) (done-IsSafe (some 1))
          (walk_base-IsSafe base 1 (components info.path)))
        (done-IsSafe (some info.underlying_ino))

  lookup_base-IsSafe :
      (info : InodeInfo) (name path : Bytes) → IsSafe (lookup_base base info name path)
  unfolding lookup_base
  lookup_base-IsSafe info name path = bind-IsSafe (base_directory-IsSafe info) (λ parent.
      option-IsSafe parent (done-IsSafe none) (λ ino.
        bind-IsSafe (from_result-IsSafe (base.lookup ino name)) (λ found.
          option-IsSafe found (done-IsSafe none) (λ s.
            bind-IsSafe (mapped-IsSafe _ (get_or_create_overlay_ino-Extends (in_base, s.ino) path))
              (λ number. done-IsSafe (some (with_ino number s)))))))

  lookup_layers-IsSafe :
      (info : InodeInfo) (name path : Bytes) → IsSafe (lookup_layers base info name path)
  unfolding lookup_layers
  lookup_layers-IsSafe info name path = bind-IsSafe (resolve_delta_parent-IsSafe info) (λ parent.
      bind-IsSafe (found_in_delta-IsSafe parent name) (λ found.
        option-IsSafe found (lookup_base-IsSafe info name path) (λ s.
          bind-IsSafe (mapped-IsSafe _ (delta_entry_ino-Extends s.ino path))
            (λ number. done-IsSafe (some (with_ino number s))))))

  pub lookup-IsSafe : (parent : ℕ) (name : Bytes) → IsSafe (Read.lookup base parent name)
  unfolding Read.lookup
  lookup-IsSafe parent name = bind-IsSafe (inode_info-IsSafe parent) (λ info.
      bind-IsSafe (build_path-IsSafe parent name) (λ path.
        bind-IsSafe (gets-IsSafe (λ o. is_whiteout o path))
          (λ hidden. if-IsSafe hidden (done-IsSafe none) (lookup_layers-IsSafe info name path))))

  listed_directory-IsSafe : (info : InodeInfo) → IsSafe (listed_directory base info)
  unfolding listed_directory
  listed_directory-IsSafe info =
      layer-IsSafe info.layer (walk_base-IsSafe base 1 (components info.path))
        (done-IsSafe (some info.underlying_ino))

  pub readdir-IsSafe : (ino : ℕ) → IsSafe (Read.readdir base ino)
  unfolding Read.readdir base_entries
  readdir-IsSafe ino = bind-IsSafe (inode_info-IsSafe ino) (λ info.
      bind-IsSafe (gets-IsSafe (λ o. add_shown o info.path (delta_entries info o) [])) (λ above.
        bind-IsSafe
          (bind-IsSafe (listed_directory-IsSafe info) (λ found.
            option-IsSafe found (done-IsSafe []) (λ d.
              bind-IsSafe (from_result-IsSafe (base.readdir d))
                (λ rows. done-IsSafe (or_nil rows)))))
          (λ below. gets-IsSafe (λ o. add_shown o info.path below above))))

  pub readdir_plus-IsSafe : (ino : ℕ) → IsSafe (Read.readdir_plus base ino)
  unfolding Read.readdir_plus base_rows
  readdir_plus-IsSafe ino = bind-IsSafe (inode_info-IsSafe ino) (λ info.
      bind-IsSafe
        (bind-IsSafe (listed_directory-IsSafe info) (λ found.
          option-IsSafe found (done-IsSafe []) (λ d.
            bind-IsSafe (from_result-IsSafe (base.readdir_plus d))
              (λ rows. done-IsSafe (or_nil rows)))))
        (λ below.
          bind-IsSafe
            (put_shown-IsSafe (λ b. get_or_create_overlay_ino (in_base, b)) info.path below []
              (λ b. get_or_create_overlay_ino-Extends (in_base, b)))
            (λ entries.
              bind-IsSafe (gets-IsSafe (delta_rows info))
                (λ above. put_shown-IsSafe listed_ino info.path above entries listed_ino-Extends))))
