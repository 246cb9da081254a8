-- ===== src/PathApi/Listing/Sorted.antt =====
-- What a directory listing holds: each name of the directory once, in order.
use mathlib.Core.Path.{subst}
use native.Mathlib.Decide.{ℕ_discrete}
use airyfs.Prelude.{
  ℕ, ◌≡◌, ◌≢◌, refl, sym, ap, ◌∙◌, Bool, true, false, not, ◌&&◌, ◌||◌, Option, none, some,
  Bool-cases, inl, inr, List, [], ◌∷◌, map, arith, nat_beq, nat_eq, entry_eq, pair_eq, bytes_eq,
  bytes_beq, bytes_beq_iff, if◌then◌else◌,
}
use airyfs.Prelude.Table.{select, Distinct}
use airyfs.Db.{Bytes, Db}
use airyfs.Fs.{Entry}
use airyfs.PathName.{is_empty}
use airyfs.PathApi.Listing.{name_before, insert_name, named_rows, readdir}

abbrev pub lists : Bytes → List Bytes → Bool
lists name [] = false
lists name (n ∷ ns) = bytes_beq n name || lists name ns

abbrev pub is_some : Option ℕ → Bool
is_some none = false
is_some (some ino) = true

-- each name before the next one
abbrev pub Ascending : List Bytes → Type 0
Ascending [] = Unit
Ascending (a ∷ ns) = elim ns [ [] ↦ Unit | b ∷ rest ↦ (name_before a b ≡ true) × Ascending ns ]

abbrev names : List (Bytes × ℕ) → List Bytes
names [] = []
names ((n, ino) ∷ rows) = n ∷ names rows

-- Two different names: one is before the other.
pub name_before_total : (a b : Bytes) → name_before a b ≡ false → a ≢ b → name_before b a ≡ true
unfolding name_before
name_before_total [] [] h apart = absurd (apart refl)
name_before_total [] (c ∷ cs) h apart = cc
name_before_total (b ∷ bs) [] h apart = refl
name_before_total (b ∷ bs) (c ∷ cs) h apart = elim (ℕ_discrete b c) [
  | yes same ↦
      let later : bs ≢ cs = λ e. apart (cc (same, e)) in ground (arith, name_before_total bs cs)
  | no other ↦ ground arith
]

select-insert_name :
    (k n : Bytes) (ino : ℕ) (rows : List (Bytes × ℕ))
    → select k rows ≡ none
    → select n (insert_name k ino rows) ≡ (if bytes_beq k n then some ino else select n rows)
unfolding select insert_name
select-insert_name k n ino [] absent = ground arith
select-insert_name k n ino ((m, i) ∷ rows) absent = ground (
  arith,
  select-insert_name k n ino rows,
  bytes_beq_iff m k,
  bytes_beq_iff k n,
  bytes_beq_iff m n,
)

insert_name-Ascending :
    (k : Bytes) (ino : ℕ) (rows : List (Bytes × ℕ))
    → select k rows ≡ none
    → Ascending (names rows)
    → Ascending (names (insert_name k ino rows))
unfolding select insert_name
insert_name-Ascending k ino [] absent up = tt
insert_name-Ascending k ino ((m, i) ∷ []) absent up =
    ground (arith, name_before_total k m, bytes_beq_iff m k)
insert_name-Ascending k ino ((m, i) ∷ (m', i') ∷ rows) absent up =
    ground (
      arith,
      insert_name-Ascending k ino ((m', i') ∷ rows),
      name_before_total k m,
      bytes_beq_iff m k,
    )

-- The rows of a directory, by name, are its entries, less one without a name.
select-named_rows :
    (p : ℕ) (n : Bytes) (m : List (Entry × ℕ))
    → Distinct m
    → select n (named_rows p m) ≡ (if is_empty n then none else select (p, n) m)
unfolding select named_rows
select-named_rows p n [] d = ground arith
select-named_rows p n (((q, name), ino) ∷ m) d =
    let rest : List (Bytes × ℕ) = named_rows p m in
    let ih = select-named_rows p n m d.1 in
    elim (ℕ_discrete q p) [
      | no other ↦ ground arith
      | yes same ↦ elim (Bool-cases (is_empty name)) [
        | inl bare ↦
            let skipped : is_empty n ≡ false → bytes_beq name n ≡ false =
              λ full. ground (arith, bytes_beq_iff name n, ap is_empty) in
            ground arith
        | inr full ↦
            let absent : select name rest ≡ none =
              select-named_rows p name m d.1
              ∙ ground (arith, ap (λ (t : ℕ). select (t, name) m) same, d.0) in
            let at = select-insert_name name n ino rest absent in
            elim (Bool-cases (bytes_beq name n)) [
              | inl equal ↦
                  let n_full : is_empty n ≡ false =
                    ap is_empty (sym ((bytes_beq_iff name n).0 equal)) ∙ full in
                  ground arith
              | inr apart ↦ ground arith
            ]
      ]
    ]

lists-names :
    (n : Bytes) (rows : List (Bytes × ℕ))
    → lists n (map (λ (r : Bytes × ℕ). r.0) rows) ≡ is_some (select n rows)
unfolding select
lists-names n [] = refl
lists-names n ((m, ino) ∷ rows) = ground (arith, lists-names n rows)

names-map : (rows : List (Bytes × ℕ)) → names rows ≡ map (λ (r : Bytes × ℕ). r.0) rows
names-map [] = refl
names-map ((n, ino) ∷ rows) = ap (λ (ns : List Bytes). n ∷ ns) (names-map rows)

named_rows-Ascending :
    (p : ℕ) (m : List (Entry × ℕ)) → Distinct m → Ascending (names (named_rows p m))
unfolding named_rows
named_rows-Ascending p [] d = tt
named_rows-Ascending p (((q, name), ino) ∷ m) d =
    let ih = named_rows-Ascending p m d.1 in
    elim (ℕ_discrete q p) [
      | no other ↦ let skip : nat_beq q p ≡ false = ground arith in rw skip ih
      | yes same ↦
          let at : nat_beq q p ≡ true = ground arith in
          elim (Bool-cases (is_empty name)) [
            | inl bare ↦ rw (at, bare) ih
            | inr full ↦
                let absent : select name (named_rows p m) ≡ none =
                  select-named_rows p name m d.1
                  ∙ ground (arith, ap (λ (t : ℕ). select (t, name) m) same, d.0) in
                rw (at, full) (insert_name-Ascending name ino (named_rows p m) absent ih)
          ]
    ]

-- Where no name stands twice in a directory, `readdir` lists the names of the directory in
-- ascending order, each once, and exactly those names of its entries that are not empty.
pub readdir-lists :
    (db : Db) (ino : ℕ)
    → Distinct db.dentries
    → Ascending (readdir db ino)
      × ((name : Bytes)
          → lists name (readdir db ino)
            ≡ (not (is_empty name) && is_some (select (ino, name) db.dentries)))
unfolding readdir
readdir-lists db ino d = (
  subst Ascending (names-map (named_rows ino db.dentries)) (named_rows-Ascending ino db.dentries d),
  λ name.
      lists-names name (named_rows ino db.dentries)
      ∙ ground (arith, select-named_rows ino name db.dentries d),
)
