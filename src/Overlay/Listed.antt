-- ===== src/Overlay/Listed.antt =====
-- What `readdir` of the overlay lists.
use airyfs.Prelude.{
  ℕ, ◌≡◌, ap, ◌∙◌, ◌&&◌, ◌||◌, some, List, [], ◌∷◌, bytes_beq, bytes_beq_iff, nat_eq, if◌then◌else◌,
  arith,
}
use airyfs.Prelude.Table.{select}
use airyfs.Mode.{not_found}
use airyfs.Db.{Bytes}
use airyfs.PathApi.Listing.Sorted.{lists, Ascending, name_before_total}
use airyfs.Overlay.{Base, InodeInfo, Overlay, returns, Op, ◌>>=◌, required, gets}
use airyfs.Overlay.Quiet.{next}
use airyfs.Overlay.Read.{is_shown, insert_entry, add_shown, delta_entries, base_entries, readdir}

lists-insert_entry :
    (entry n : Bytes) (es : List Bytes)
    → lists n (insert_entry entry es) ≡ bytes_beq entry n || lists n es
unfolding insert_entry
lists-insert_entry entry n [] = ground arith
lists-insert_entry entry n (e ∷ es) = ground (
  arith,
  lists-insert_entry entry n es,
  bytes_beq_iff entry e,
  bytes_beq_iff entry n,
  bytes_beq_iff e n,
)

insert_entry-Ascending :
    (entry : Bytes) (es : List Bytes) → Ascending es → Ascending (insert_entry entry es)
unfolding insert_entry
insert_entry-Ascending entry [] up = tt
insert_entry-Ascending entry (e ∷ []) up =
    ground (arith, name_before_total entry e, bytes_beq_iff entry e)
insert_entry-Ascending entry (e ∷ f ∷ es) up =
    ground (
      arith,
      insert_entry-Ascending entry (f ∷ es),
      name_before_total entry e,
      bytes_beq_iff entry e,
    )

lists-add_shown :
    (o : Overlay) (dir : Bytes) (es entries : List Bytes) (n : Bytes)
    → lists n (add_shown o dir es entries) ≡ lists n entries || (is_shown o dir n && lists n es)
unfolding add_shown
lists-add_shown o dir [] entries n = ground arith
lists-add_shown o dir (e ∷ es) entries n = ground (
  arith,
  lists-add_shown o dir es (if is_shown o dir e then insert_entry e entries else entries) n,
  lists-insert_entry e n entries,
  bytes_beq_iff e n,
  ap (is_shown o dir),
)

add_shown-Ascending :
    (o : Overlay) (dir : Bytes) (es entries : List Bytes)
    → Ascending entries
    → Ascending (add_shown o dir es entries)
unfolding add_shown
add_shown-Ascending o dir [] entries up = up
add_shown-Ascending o dir (e ∷ es) entries up =
    add_shown-Ascending o dir es (if is_shown o dir e then insert_entry e entries else entries)
      (ground (arith, insert_entry-Ascending e entries))

-- Where the overlay knows the number and the base answers with its names below the path, or has
-- no directory there, readdir returns and leaves the overlay as it is; the names that it lists
-- are in ascending order, each once, and are exactly those that the delta or the base has there
-- and that are not behind a whiteout.
pub readdir-is_shown :
    (base : Base) (ino : ℕ) (info : InodeInfo) (below : List Bytes) (o : Overlay)
    → select ino o.inode_map ≡ some info
    → base_entries base info o ≡ returns below o
    → (names : List Bytes) × (readdir base ino o ≡ returns names o)
      × Ascending names
      × ((n : Bytes)
          → lists n names
            ≡ is_shown o info.path n && (lists n (delta_entries info o) || lists n below))
unfolding readdir
readdir-is_shown base ino info below o e listed =
    let rest : InodeInfo → Op (List Bytes) = λ a.
      gets (λ p. add_shown p a.path (delta_entries a p) []) >>= λ over.
      base_entries base a >>= λ under. gets (λ p. add_shown p a.path under over) in
    let above : List Bytes = add_shown o info.path (delta_entries info o) [] in
    let names : List Bytes = add_shown o info.path below above in
    (
      names,
      ap (λ r. next rest (required not_found r o)) e
          ∙ ap (next (λ (b : List Bytes). gets (λ p. add_shown p info.path b above))) listed,
      add_shown-Ascending o info.path below above
          (add_shown-Ascending o info.path (delta_entries info o) [] tt),
      (λ n. ground (
        arith,
        lists-add_shown o info.path below above n,
        lists-add_shown o info.path (delta_entries info o) [] n,
      )),
    )
