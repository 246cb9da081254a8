-- ===== src/Fs/WellFormed.antt =====
-- The namespace that the tables describe: what holds of them between two operations.
pub mod Add
pub mod Remove
pub mod Move
use native.Mathlib.Decide.{ℕ_discrete}
use mathlib.Core.Bool.{false≢true}
use airyfs.Prelude.{
  ℕ, ◌+◌, ◌≤◌, ◌<◌, ◌≡◌, ◌≢◌, refl, sym, ◌∙◌, ap, Bool, true, false, Option, none, some, List, [],
  ◌∷◌, arith, length, nat_beq, nat_eq, entry_eq, entry_beq, entry_beq_iff, if◌then◌else◌,
  Option-cases, Bool-cases, ◌⊎◌, inl, inr,
}
use airyfs.Prelude.Int.{ℤ, pos, inc, dec, dec-pos}
use airyfs.Prelude.Table.{
  select, delete, select-delete_where, select_all-Distinct, count_where, Distinct,
  Distinct-delete_where, count-delete, count-zero_of_select, select_of_count-zero,
}
use airyfs.Mode.{is_dir_mode, Result, ok, max_name_len}
use airyfs.Db.{Bytes, Inode, Db, root_ino}
use airyfs.Fs.{Entry, is_dir_row, lookup_child}
use airyfs.Fs.Make.{check_new}

-- the number of entries that name an inode
abbrev pub names_inode : ℕ → Entry → ℕ → Bool
names_inode ino k v = nat_beq v ino

abbrev pub link_count : Db → ℕ → ℕ
link_count db ino = count_where (names_inode ino) db.dentries

abbrev pub row_at : Db → ℕ → Option Inode
row_at db ino = select ino db.inodes

abbrev pub entry_at : Db → Entry → Option ℕ
entry_at db k = select k db.dentries

abbrev pub IsDir : Db → ℕ → Type 0
IsDir db ino = is_dir_row (row_at db ino) ≡ true

-- No name twice in a directory; every entry names an inode that exists and stands in a directory;
-- no inode number above the last one given; the link count of what is no directory is the number
-- of its names, and a directory has at most one name.
pub record IsWellFormed (db : Db) : Type 0 where
  pub distinct : Distinct db.dentries
  pub targets : (k : Entry) (ino : ℕ) → entry_at db k ≡ some ino → row_at db ino ≢ none
  pub parents : (k : Entry) (ino : ℕ) → entry_at db k ≡ some ino → IsDir db k.0
  pub fresh : (ino : ℕ) → row_at db ino ≢ none → ino ≤ db.last_ino
  pub links :
      (ino : ℕ) (row : Inode)
      → row_at db ino ≡ some row
      → is_dir_mode row.mode ≡ false
      → row.nlink ≡ pos (link_count db ino)
  pub single :
      (ino : ℕ) (row : Inode)
      → row_at db ino ≡ some row
      → is_dir_mode row.mode ≡ true
      → link_count db ino ≤ 1

-- An inode that stays: there or not as before, of the same kind, and with the same link count if it
-- is no directory.
abbrev pub Keeps : Option Inode → Option Inode → Type 0
Keeps none none = Unit
Keeps none (some r) = ⊥
Keeps (some r) none = ⊥
Keeps (some r) (some r') =
    (is_dir_mode r'.mode ≡ is_dir_mode r.mode) × (is_dir_mode r.mode ≡ false → r'.nlink ≡ r.nlink)

pub Keeps-row :
    (o o' : Option Inode) (r' : Inode)
    → Keeps o o'
    → o' ≡ some r'
    → (r : Inode) × (o ≡ some r)
      × (is_dir_mode r'.mode ≡ is_dir_mode r.mode)
      × (is_dir_mode r.mode ≡ false → r'.nlink ≡ r.nlink)
Keeps-row none none r' k e = cc
Keeps-row none (some s) r' k e = absurd k
Keeps-row (some r) none r' k e = absurd k
Keeps-row (some r) (some s) r' k e = (r, refl, ground arith, λ h. ground arith)

pub Keeps-exists : (o o' : Option Inode) → Keeps o o' → o ≢ none → o' ≢ none
Keeps-exists none o' k h = absurd (h refl)
Keeps-exists (some r) none k h = absurd k
Keeps-exists (some r) (some r') k h = λ e. cc

pub Keeps-absent : (o o' : Option Inode) → Keeps o o' → o' ≢ none → o ≢ none
Keeps-absent none none k h = h
Keeps-absent none (some r') k h = absurd k
Keeps-absent (some r) o' k h = λ e. cc

pub Keeps-dir : (o o' : Option Inode) → Keeps o o' → is_dir_row o ≡ true → is_dir_row o' ≡ true
Keeps-dir none o' k h = cc
Keeps-dir (some r) none k h = absurd k
Keeps-dir (some r) (some r') k h = ground arith

-- No entry names an inode that does not exist.
pub link_count_of_none :
    (db : Db) (ino : ℕ) → IsWellFormed db → row_at db ino ≡ none → link_count db ino ≡ 0
link_count_of_none db ino h absent =
    count-zero_of_select (names_inode ino) db.dentries h.distinct (λ k v e.
      elim (ℕ_discrete v ino) [
        | yes same ↦ absurd (h.targets k v e (rw same absent))
        | no other ↦ ground arith
      ])

-- An entry of a table with a new row is that row or an old one.
pub entry_of_cons :
    (k : Entry) (ino : ℕ) (m : List (Entry × ℕ)) (j : Entry) (i : ℕ)
    → select j ((k, ino) ∷ m) ≡ some i
    → ((k ≡ j) × (ino ≡ i)) ⊎ (select j m ≡ some i)
unfolding select
entry_of_cons k ino m j i e = elim (Bool-cases (entry_beq k j)) [
  | inl same ↦ inl ((entry_beq_iff k j).0 same, ground arith)
  | inr other ↦ inr (ground arith)
]

pub dir_exists : (db : Db) (i : ℕ) → IsDir db i → row_at db i ≢ none
dir_exists db i d = λ e. cc (let e' : is_dir_row (row_at db i) ≡ false = rw e in e', d)

-- A new entry is one more name of its inode.
pub link_count-cons :
    (db db' : Db) (k : Entry) (ino i : ℕ)
    → db'.dentries ≡ (k, ino) ∷ db.dentries
    → link_count db' i ≡ (if nat_beq ino i then 1 else 0) + link_count db i
unfolding count_where
link_count-cons db db' k ino i e = rw e

-- The checks of the operations, on a table with unique names.
pub lookup_child-entry_at :
    (db : Db) (parent : ℕ) (name : Bytes)
    → Distinct db.dentries
    → lookup_child db parent name ≡ ok (entry_at db (parent, name))
unfolding lookup_child
lookup_child-entry_at db parent name d =
    ground (arith, select_all-Distinct (parent, name) db.dentries d)

-- Exactly a short name that is not taken may be created.
pub check_new_ok :
    (db : Db) (parent : ℕ) (name : Bytes)
    → IsWellFormed db
    → check_new db parent name ≡ ok tt
    → (entry_at db (parent, name) ≡ none) × (length name ≤ max_name_len)
unfolding check_new
check_new_ok db parent name h e = ground (arith, lookup_child-entry_at db parent name h.distinct)
