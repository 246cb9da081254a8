-- ===== src/Fs/Drop.antt =====
-- An entry goes, its inode loses a link, and is dropped at a link count of 0.
use mathlib.Core.Bool.{false≢true}
use airyfs.Prelude.{
  ℕ, zero, suc, ◌^◌, ◌≤◌, ◌<◌, ◌≡◌, ◌≢◌, refl, sym, ap, ◌∙◌, true, false, none, some, Option,
  Option-cases, Bool-cases, inl, inr, List, arith, nat_beq, nat_eq, entry_eq, if◌then◌else◌,
}
use airyfs.Prelude.Int.{pos, dec, as_u32}
use airyfs.Prelude.Table.{select, update, delete, select-update, select-delete_where}
use airyfs.Mode.{is_dir_mode}
use airyfs.Db.{Inode, Db}
use airyfs.Fs.{Entry, get_link_count, is_dir_row}
use airyfs.Fs.Delete.{drop_if_unlinked, drop_dir_if_unlinked}
use airyfs.Fs.WellFormed.{IsWellFormed, Keeps, row_at, entry_at, link_count}
use airyfs.Fs.WellFormed.Remove.{IsWellFormed-remove}

-- Updating the row of another inode, or of a directory, keeps a row.
pub Keeps-refl : (o : Option Inode) → Keeps o o
Keeps-refl none = tt
Keeps-refl (some r) = (refl, λ _. refl)

pub Keeps-update_at :
    (m : List (ℕ × Inode)) (j i : ℕ) (g : Inode → Inode)
    → ((r : Inode)
        → j ≡ i
        → select i m ≡ some r
        → (is_dir_mode (g r).mode ≡ is_dir_mode r.mode)
          × (is_dir_mode r.mode ≡ false → (g r).nlink ≡ r.nlink))
    → Keeps (select i m) (select i (update j g m))
Keeps-update_at m j i g keeps = elim (Bool-cases (nat_beq j i)) [
  | inr off ↦ rw (select-update j i g, off) (Keeps-refl (select i m))
  | inl at ↦ elim (Option-cases (select i m)) [
    | inl absent ↦ rw (select-update j i g, at, absent) tt
    | inr (r, there) ↦ rw (select-update j i g, at, there) (keeps r (ground arith) there)
  ]
]

pub Keeps-update :
    (m : List (ℕ × Inode)) (j i : ℕ) (g : Inode → Inode)
    → ((r : Inode) → (g r).mode ≡ r.mode)
    → ((r : Inode)
        → j ≡ i
        → select i m ≡ some r
        → is_dir_mode r.mode ≡ false
        → (g r).nlink ≡ r.nlink)
    → Keeps (select i m) (select i (update j g m))
Keeps-update m j i g kind count =
    Keeps-update_at m j i g (λ r at there. (ap is_dir_mode (kind r), λ nd. count r at there nd))

pub Keeps-trans : (a b c : Option Inode) → Keeps a b → Keeps b c → Keeps a c
Keeps-trans none none c p q = q
Keeps-trans none (some s) c p q = absurd p
Keeps-trans (some r) none c p q = absurd p
Keeps-trans (some r) (some s) none p q = absurd q
Keeps-trans (some r) (some s) (some t) p q = (q.0 ∙ p.0, λ nd. q.1 (p.0 ∙ nd) ∙ p.1 nd)

-- The row of an inode after its link count fell and the row went if that reached 0.
pub drop_if_unlinked-others :
    (ino : ℕ) (db : Db) (i : ℕ) → i ≢ ino → row_at (drop_if_unlinked ino db) i ≡ row_at db i
unfolding drop_if_unlinked
drop_if_unlinked-others ino db i apart =
    ground (arith, select-delete_where (λ (j : ℕ). nat_beq j ino) i db.inodes)

pub drop_if_unlinked-here :
    (ino : ℕ) (db : Db)
    → row_at (drop_if_unlinked ino db) ino
      ≡ (if nat_beq (get_link_count db ino) 0 then none else row_at db ino)
unfolding drop_if_unlinked
drop_if_unlinked-here ino db =
    ground (arith, select-delete_where (λ (j : ℕ). nat_beq j ino) ino db.inodes)

pub drop_if_unlinked-rest :
    (ino : ℕ) (db : Db)
    → ((drop_if_unlinked ino db).dentries ≡ db.dentries)
      × ((drop_if_unlinked ino db).last_ino ≡ db.last_ino)
unfolding drop_if_unlinked
drop_if_unlinked-rest ino db = ground arith

-- The same of the row that `rmdir` drops.
pub drop_dir_if_unlinked-others :
    (ino : ℕ) (db : Db) (i : ℕ) → i ≢ ino → row_at (drop_dir_if_unlinked ino db) i ≡ row_at db i
unfolding drop_dir_if_unlinked
drop_dir_if_unlinked-others ino db i apart =
    ground (arith, select-delete_where (λ (j : ℕ). nat_beq j ino) i db.inodes)

pub drop_dir_if_unlinked-here :
    (ino : ℕ) (db : Db)
    → row_at (drop_dir_if_unlinked ino db) ino
      ≡ (if nat_beq (get_link_count db ino) 0 then none else row_at db ino)
unfolding drop_dir_if_unlinked
drop_dir_if_unlinked-here ino db =
    ground (arith, select-delete_where (λ (j : ℕ). nat_beq j ino) ino db.inodes)

pub drop_dir_if_unlinked-rest :
    (ino : ℕ) (db : Db)
    → ((drop_dir_if_unlinked ino db).dentries ≡ db.dentries)
      × ((drop_dir_if_unlinked ino db).last_ino ≡ db.last_ino)
unfolding drop_dir_if_unlinked
drop_dir_if_unlinked-rest ino db = ground arith

-- A link count that falls to 0 modulo 2^32 was 1, if it was below 2^32.
dec_to_zero : (n : ℕ) → n < 2 ^ 32 → as_u32 (dec (pos n)) ≡ 0 → n ≡ 1
dec_to_zero zero small e = absurd (omega arith)
dec_to_zero (suc n) small e = omega arith

-- What an entry's removal does in `unlink`, `rmdir` and `rename`: `counted` is the database when the
-- entry is gone and the count has fallen, `db'` that after the row is dropped at a count of 0.
module _ (db counted db' : Db) (k : Entry) (ino : ℕ) (r r' : Inode) (h : IsWellFormed db)
    (entry : entry_at db k ≡ some ino) (entries : db'.dentries ≡ delete k db.dentries)
    (last : db'.last_ino ≡ db.last_ino)
    (same : (i : ℕ) → i ≢ ino → Keeps (row_at db i) (row_at counted i))
    (was : row_at db ino ≡ some r) (there : row_at counted ino ≡ some r') (kind : r'.mode ≡ r.mode)
    (dropped : r'.nlink ≡ dec r.nlink) (small : link_count db ino < 2 ^ 32)
    (childless : is_dir_mode r.mode ≡ true
      → (j : Entry) (i : ℕ) → entry_at db j ≡ some i
      → j.0 ≢ ino)
    (others : (i : ℕ) → i ≢ ino → row_at db' i ≡ row_at counted i)
    (here : row_at db' ino
      ≡ (if nat_beq (get_link_count counted ino) 0 then none else row_at counted ino)) where
  count_is : get_link_count counted ino ≡ as_u32 r'.nlink
  unfolding get_link_count
  count_is = rw (there, get_link_count)

  -- the only name, if the row goes
  only_name : as_u32 r'.nlink ≡ 0 → link_count db ino ≤ 1
  only_name e = elim (Bool-cases (is_dir_mode r.mode)) [
    | inl d ↦ h.single ino r was d
    | inr nd ↦
        let e' : as_u32 (dec (pos (link_count db ino))) ≡ 0 =
          sym (ap as_u32 (dropped ∙ ap dec (h.links ino r was nd))) ∙ e in
        omega (arith, dec_to_zero (link_count db ino) small e')
  ]

  no_parent : (j : Entry) (i : ℕ) → entry_at db j ≡ some i → j.0 ≢ ino
  no_parent j i e = elim (Bool-cases (is_dir_mode r.mode)) [
    | inl d ↦ childless d j i e
    | inr nd ↦ λ at.
        let d : is_dir_row (row_at db ino) ≡ true = rw at at (h.parents j i e) in
        let nd' : is_dir_row (row_at db ino) ≡ false = rw was nd in false≢true (sym nd' ∙ d)
  ]

  pub dropped-IsWellFormed : IsWellFormed db'
  dropped-IsWellFormed =
      IsWellFormed-remove db' k ino h entry entries last
        (λ i apart. rw (others i apart) (same i apart))
        (elim (Bool-cases (nat_beq (get_link_count counted ino) 0)) [
          | inl zero_left ↦
              inl (here ∙ (rw zero_left), only_name (sym count_is ∙ ground arith), no_parent)
          | inr some_left ↦
              inr (r, r', was, here ∙ (rw some_left there), ap is_dir_mode kind, λ _. dropped)
        ])
