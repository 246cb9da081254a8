-- ===== src/Overlay/Moved.antt =====
-- The steps by which a number of the overlay takes a new place in the delta.
use airyfs.Prelude.{
  ℕ, ◌≡◌, ◌≢◌, ◌⊎◌, inl, inr, refl, sym, ap, ◌∙◌, true, Option, some, List, nat_eq, bytes_beq,
  bytes_eq, Option-cases, Bool-cases, arith,
}
use airyfs.Prelude.Table.{
  select, update, delete, replace, select-replace, select-update, select-update_ne,
  select-delete_where,
}
use airyfs.Db.{Bytes, root_ino}
use airyfs.Overlay.{Layer, in_delta, in_base, Place, place_beq, InodeInfo, Overlay}
use airyfs.Overlay.Maps.{place_eq, forget_path, refresh_overlay_mapping, promoted, promote_to_delta}
use airyfs.Overlay.Change.{remap}
use airyfs.Overlay.Sound.{is_known, info_at, Stored, IsSound, Extends, Extends-refl}

pub layer-cases : (l : Layer) → (l ≡ in_delta) ⊎ (l ≡ in_base)
layer-cases in_delta = inl refl
layer-cases in_base = inr refl

-- entries that were there, or that lead to the number
abbrev pub Within : {K : Type 0} → ℕ → (K → Option ℕ) → (K → Option ℕ) → Type 0
Within {K} ino new old = (k : K) (i : ℕ) → new k ≡ some i → (i ≡ ino) ⊎ (old k ≡ some i)

-- A number other than the root's that takes a new place, in the delta: the numbers that are known
-- stay the same.
moved-Extends :
    (ino u : ℕ) (o o' : Overlay) (reverse : List (Place × ℕ))
    → IsSound o
    → ino ≢ root_ino
    → is_known (info_at o ino) ≡ true
    → ((i : ℕ) → is_known (info_at o' i) ≡ is_known (info_at o i))
    → info_at o' root_ino ≡ info_at o root_ino
    → o'.next_ino ≡ o.next_ino
    → o'.reverse_map ≡ replace (in_delta, u) ino reverse
    → ((k : Place) (i : ℕ) → select k reverse ≡ some i → select k o.reverse_map ≡ some i)
    → Within {K = Bytes} ino (λ k. select k o'.path_map) (λ k. select k o.path_map)
    → Stored o'.whiteouts o'.fs_whiteout o'.origin_map o'.fs_origin
    → Extends o o'
moved-Extends ino u o o' reverse h other there same root_same next back part q stored =
    let n = h.numbers in
    let at = λ (k : Place). select-replace (in_delta, u) k ino reverse in
    record {
      grows = omega (arith, next);
      known = λ i k. same i ∙ k;
      sound = record {
        stored = stored;
        numbers = record {
          below = λ i k. ground (arith, next, n.below i (sym (same i) ∙ k));
          places = λ place i e.
              same i ∙ ground (arith, back, at place, n.places place i, part place i, there);
          named = λ path i e.
              same i
              ∙ elim (q path i e) [ inl itself ↦ rw itself there | inr old ↦ n.named path i old ];
          root_stays = root_same ∙ n.root_stays;
          not_root = λ b e.
              n.not_root b (ground (arith, back, at (in_base, b), part (in_base, b) root_ino));
        };
      };
    }

known-update :
    (ino i : ℕ) (change : InodeInfo → InodeInfo) (m : List (ℕ × InodeInfo))
    → is_known (select i (update ino change m)) ≡ is_known (select i m)
known-update ino i change m = ground (arith, select-update ino i change m)

known-replace :
    (ino i : ℕ) (info : InodeInfo) (m : List (ℕ × InodeInfo))
    → is_known (select ino m) ≡ true
    → is_known (select i (replace ino info m)) ≡ is_known (select i m)
known-replace ino i info m h = ground (arith, select-replace ino i info m)

forget_path-within :
    (path : Bytes) (ino : ℕ) (m : List (Bytes × ℕ)) (k : Bytes) (i : ℕ)
    → select k (forget_path path ino m) ≡ some i
    → select k m ≡ some i
unfolding forget_path
forget_path-within path ino m k i e =
    ground (arith, select-delete_where (λ j. bytes_beq j path) k m)

forget_path-Within :
    (path new : Bytes) (ino : ℕ) (m : List (Bytes × ℕ))
    → Within {K = Bytes} ino
        (λ k. select k (replace new ino (forget_path path ino m)))
        (λ k. select k m)
unfolding forget_path
forget_path-Within path new ino m k i e =
    let at = select-replace new k ino (forget_path path ino m) in
    elim (Bool-cases (bytes_beq new k)) [
      | inl same ↦ inl (ground (arith, at))
      | inr apart ↦ inr (forget_path-within path ino m k i (ground (arith, at)))
    ]

pub refresh_overlay_mapping-Extends :
    (ino u : ℕ) (path : Bytes) (o : Overlay)
    → IsSound o
    → ino ≢ root_ino
    → Extends o (refresh_overlay_mapping ino (in_delta, u) path o)
unfolding refresh_overlay_mapping
refresh_overlay_mapping-Extends ino u path o h other =
    elim (Option-cases (select ino o.inode_map)) [
      | inl absent ↦ rw (absent, refresh_overlay_mapping) (Extends-refl o h)
      | inr (old, there) ↦
          let info : InodeInfo = record { layer = in_delta; underlying_ino = u; path = path } in
          let o' : Overlay = record o {
            inode_map = update ino (λ _. info) o.inode_map;
            reverse_map = replace (in_delta, u) ino o.reverse_map;
            path_map = replace path ino (forget_path old.path ino o.path_map);
          } in
          rw (there, refresh_overlay_mapping)
            (moved-Extends ino u o o' o.reverse_map h other (ap is_known there)
              (λ i. known-update ino i (λ _. info) o.inode_map)
              (select-update_ne ino root_ino (λ _. info) o.inode_map (λ e. other (sym e))) refl refl
              (λ k i e. e) (forget_path-Within old.path path ino o.path_map) h.stored)
    ]

promoted-Extends :
    (ino u : ℕ) (info : InodeInfo) (o : Overlay)
    → IsSound o
    → info_at o ino ≡ some info
    → info.layer ≡ in_base
    → Extends o (promoted ino info u o)
unfolding promoted
promoted-Extends ino u info o h there below =
    let other : ino ≢ root_ino = λ e. cc (h.numbers.root_stays, there, below, e) in
    let change : InodeInfo → InodeInfo = λ i. record i { layer = in_delta; underlying_ino = u } in
    moved-Extends ino u o (promoted ino info u o)
      (delete (in_base, info.underlying_ino) o.reverse_map) h other (ap is_known there)
      (λ i. known-update ino i change o.inode_map)
      (select-update_ne ino root_ino change o.inode_map (λ e. other (sym e))) refl refl
      (λ k i e. ground (
        arith,
        select-delete_where (λ j. place_beq j (in_base, info.underlying_ino)) k o.reverse_map,
      ))
      (λ k i e. inr e) h.stored

pub promote_to_delta-Extends :
    (path : Bytes) (u : ℕ) (o : Overlay) → IsSound o → Extends o (promote_to_delta path u o)
unfolding promote_to_delta
promote_to_delta-Extends path u o h = elim (Option-cases (select path o.path_map)) [
  | inl absent ↦ rw (absent, promote_to_delta) (Extends-refl o h)
  | inr (ino, e) ↦ elim (Option-cases (select ino o.inode_map)) [
    | inl absent ↦ rw (e, promote_to_delta) (rw absent (Extends-refl o h))
    | inr (info, there) ↦
        rw (e, promote_to_delta)
          (rw there (elim (layer-cases info.layer) [
            | inl above ↦ rw above (Extends-refl o h)
            | inr below ↦ rw below (promoted-Extends ino u info o h there below)
          ]))
  ]
]

pub remap-Extends :
    (ino u : ℕ) (info : InodeInfo) (o : Overlay)
    → IsSound o
    → ino ≢ root_ino
    → is_known (info_at o ino) ≡ true
    → Extends o (remap ino info u o)
unfolding remap
remap-Extends ino u info o h other there =
    moved-Extends ino u o (remap ino info u o) o.reverse_map h other there
      (λ i.
        known-replace ino i (record info { layer = in_delta; underlying_ino = u }) o.inode_map
          there)
      (ground (
        arith,
        select-replace ino root_ino (record info { layer = in_delta; underlying_ino = u })
            o.inode_map,
      ))
      refl refl (λ k i e. e) (λ k i e. inr e) h.stored
