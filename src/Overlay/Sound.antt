-- ===== src/Overlay/Sound.antt =====
-- What holds of the maps of the overlay between two requests, and the steps that keep it.
use airyfs.Prelude.{
  ℕ, ◌≤◌, ◌<◌, ◌≡◌, ◌≢◌, inl, inr, refl, ap, Bool, true, false, not, ◌&&◌, Option, none, some, List,
  [], ◌∷◌, nat_eq, bytes_beq, bytes_beq_iff, bytes_eq, Option-cases, Bool-cases, arith,
}
use airyfs.Prelude.Int.{ℤ}
use airyfs.Prelude.Table.{
  select, delete, Distinct, select-replace, select-delete_where, Distinct-replace,
}
use airyfs.Mode.{Stamp}
use airyfs.Db.{Bytes, root_ino}
use airyfs.Fs.{Fs}
use airyfs.PathName.{root}
use airyfs.Overlay.{in_delta, in_base, Place, InodeInfo, Overlay}
use airyfs.Overlay.Maps.{
  place_eq, contains, without, create_whiteout, remove_whiteout, new_overlay_ino,
  get_or_create_overlay_ino, add_origin_mapping,
}

abbrev pub info_at : Overlay → ℕ → Option InodeInfo
info_at o ino = select ino o.inode_map

abbrev pub is_known : {A : Type 0} → Option A → Bool
is_known none = false
is_known (some a) = true

abbrev pub root_info : InodeInfo
root_info = record { layer = in_delta; underlying_ino = 1; path = root }

-- Every number is below the next one; the maps lead to numbers that are known; the root stays what
-- it is, and no inode of the base has its number.
pub record Numbers (inodes : List (ℕ × InodeInfo)) (reverse : List (Place × ℕ))
    (paths : List (Bytes × ℕ)) (next : ℕ) : Type 0 where
  pub below : (ino : ℕ) → is_known (select ino inodes) ≡ true → ino < next
  pub places :
      (place : Place) (ino : ℕ)
      → select place reverse ≡ some ino
      → is_known (select ino inodes) ≡ true
  pub named :
      (path : Bytes) (ino : ℕ) → select path paths ≡ some ino → is_known (select ino inodes) ≡ true
  pub root_stays : select root_ino inodes ≡ some root_info
  pub not_root : (b : ℕ) → select (in_base, b) reverse ≢ some root_ino

-- The sets in memory are those of the tables.
pub record Stored (whiteouts : List Bytes) (fs_whiteout : List (Bytes × ℤ))
    (origins fs_origin : List (ℕ × ℕ)) : Type 0 where
  pub hidden : (p : Bytes) → contains whiteouts p ≡ is_known (select p fs_whiteout)
  pub copies : (d : ℕ) → select d origins ≡ select d fs_origin
  pub keys : Distinct fs_origin

pub record IsSound (o : Overlay) : Type 0 where
  pub numbers : Numbers o.inode_map o.reverse_map o.path_map o.next_ino
  pub stored : Stored o.whiteouts o.fs_whiteout o.origin_map o.fs_origin

-- No number is forgotten, and a sound overlay stays sound.
pub record Extends (o o' : Overlay) : Type 0 where
  pub grows : o.next_ino ≤ o'.next_ino
  pub known : (ino : ℕ) → is_known (info_at o ino) ≡ true → is_known (info_at o' ino) ≡ true
  pub sound : IsSound o'

pub Extends-refl : (o : Overlay) → IsSound o → Extends o o
Extends-refl o h = record { grows = omega arith; known = λ ino k. k; sound = h }

pub Extends-trans : {a b c : Overlay} → Extends a b → Extends b c → Extends a c
Extends-trans {a} {b} {c} f g = record {
  grows = omega (arith, f.grows, g.grows);
  known = λ ino k. g.known ino (f.known ino k);
  sound = g.sound;
}

-- the steps that leave the numbers
unnumbered-Extends :
    (o o' : Overlay)
    → o'.inode_map ≡ o.inode_map
    → Numbers o'.inode_map o'.reverse_map o'.path_map o'.next_ino
    → o.next_ino ≤ o'.next_ino
    → Stored o'.whiteouts o'.fs_whiteout o'.origin_map o'.fs_origin
    → Extends o o'
unnumbered-Extends o o' same n le s = record {
  grows = le;
  known = λ ino k. ground (arith, same);
  sound = record { numbers = n; stored = s };
}

pub with_delta-Extends : (o : Overlay) (fs : Fs) → IsSound o → Extends o (record o { delta = fs })
with_delta-Extends o fs h =
    unnumbered-Extends o (record o { delta = fs }) refl h.numbers (omega arith) h.stored

contains-without :
    (p q : Bytes) (ws : List Bytes)
    → contains (without p ws) q ≡ not (bytes_beq p q) && contains ws q
unfolding contains without
contains-without p q [] = ground arith
contains-without p q (w ∷ ws) =
    ground (arith, contains-without p q ws, bytes_beq_iff w p, bytes_beq_iff p q, bytes_beq_iff w q)

pub create_whiteout-Extends :
    (now : Stamp) (path : Bytes) (o : Overlay) → IsSound o → Extends o (create_whiteout now path o)
unfolding create_whiteout contains
create_whiteout-Extends now path o h =
    unnumbered-Extends o (create_whiteout now path o) refl h.numbers (omega arith) (record {
      hidden = λ p. ground (arith, h.stored.hidden p, select-replace path p now.secs o.fs_whiteout);
      copies = h.stored.copies;
      keys = h.stored.keys;
    })

pub remove_whiteout-Extends :
    (path : Bytes) (o : Overlay) → IsSound o → Extends o (remove_whiteout path o)
unfolding remove_whiteout
remove_whiteout-Extends path o h = elim (Bool-cases (contains o.whiteouts path)) [
  | inr absent ↦ rw absent (Extends-refl o h)
  | inl there ↦
      let cleared : Overlay = record o {
        fs_whiteout = delete path o.fs_whiteout;
        whiteouts = without path o.whiteouts;
      } in
      rw there (
        unnumbered-Extends o cleared refl h.numbers (omega arith) (record {
          hidden = λ p. ground (
            arith,
            h.stored.hidden p,
            contains-without path p o.whiteouts,
            select-delete_where (λ j. bytes_beq j path) p o.fs_whiteout,
            bytes_beq_iff path p,
            bytes_beq_iff p path,
          );
          copies = h.stored.copies;
          keys = h.stored.keys;
        }))
]

pub add_origin_mapping-Extends :
    (d b : ℕ) (o : Overlay) → IsSound o → Extends o (add_origin_mapping d b o)
unfolding add_origin_mapping
add_origin_mapping-Extends d b o h =
    unnumbered-Extends o (add_origin_mapping d b o) refl h.numbers (omega arith) (record {
      hidden = h.stored.hidden;
      copies = λ e. ground (
        arith,
        h.stored.copies e,
        select-replace d e b o.origin_map,
        select-replace d e b o.fs_origin,
      );
      keys = Distinct-replace d b o.fs_origin h.stored.keys;
    })

new_overlay_ino-Extends :
    (place : Place) (path : Bytes) (o : Overlay)
    → IsSound o
    → Extends o (new_overlay_ino place path o).1
unfolding new_overlay_ino
new_overlay_ino-Extends place path o h =
    let n = h.numbers in
    let root_below = n.below root_ino (ap is_known n.root_stays) in
    let at = λ (ino : ℕ).
      select-replace o.next_ino ino
        (record { layer = place.0; underlying_ino = place.1; path = path }) o.inode_map in
    record {
      grows = omega arith;
      known = λ ino k. ground (arith, at ino);
      sound = record {
        stored = h.stored;
        numbers = record {
          below = λ ino k. ground (arith, at ino, n.below ino);
          places = λ q ino e.
              ground
                (arith, at ino, n.places q ino, select-replace place q o.next_ino o.reverse_map);
          named = λ q ino e.
              ground (arith, at ino, n.named q ino, select-replace path q o.next_ino o.path_map);
          root_stays = ground (arith, at root_ino, n.root_stays);
          not_root = λ b e.
              ground
                (arith, n.not_root b, select-replace place (in_base, b) o.next_ino o.reverse_map);
        };
      };
    }

pub get_or_create_overlay_ino-Extends :
    (place : Place) (path : Bytes) (o : Overlay)
    → IsSound o
    → Extends o (get_or_create_overlay_ino place path o).1
unfolding get_or_create_overlay_ino
get_or_create_overlay_ino-Extends place path o h =
    elim (Option-cases (select place o.reverse_map)) [
      | inl new ↦ rw (new, get_or_create_overlay_ino) (new_overlay_ino-Extends place path o h)
      | inr (ino, there) ↦ rw (there, get_or_create_overlay_ino) (Extends-refl o h)
    ]
