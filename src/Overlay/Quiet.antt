-- ===== src/Overlay/Quiet.antt =====
-- Methods of the overlay that change only the cache of the delta, and give the same value whatever
-- that cache holds; and methods of which that is so where they find nothing.
pub mod Lookup
use airyfs.Prelude.{
  ℕ, ◌≡◌, refl, sym, ap, ◌∙◌, Bool, true, false, Option, none, some, List, [], ◌∷◌, bytes_beq,
  nat_eq, if◌then◌else◌, arith, Option-cases, Bool-cases, inl, inr, ltb, length,
}
use airyfs.Prelude.Table.{select}
use airyfs.Mode
use airyfs.Mode.{FsError, Result, Stats, is_directory, Result-cases}
use airyfs.Db.{Bytes}
use airyfs.Fs.{Fs, CacheCall, Entry, insert}
use airyfs.Fs
use airyfs.PathName.{root}
use airyfs.Overlay.{
  Base, Layer, in_delta, in_base, InodeInfo, Overlay, Outcome, returns, fails, Op, ◌>>=◌, done,
  from_result, required, gets, mapped,
}
use airyfs.Overlay.Maps.{
  components, is_whiteout, get_or_create_overlay_ino, inode_info, child_path, build_path,
}
use airyfs.Overlay.CopyUp.{delta_lookup, walk_directories, resolve_delta_parent, walk_base}
use airyfs.Overlay.Read.{
  with_ino, delta_entry_ino, found_in_delta, base_directory, lookup_base, lookup_layers,
}
use airyfs.Overlay.Read
use airyfs.Overlay.Safe.{after}

-- the value that a method returns
abbrev pub value : {A : Type 0} → Outcome A → Option A
value (returns a o) = some a
value (fails e o) = none

abbrev pub recached : List CacheCall → Overlay → Overlay
recached c o = record o { delta = record o.delta { cache = c } }

abbrev pub IsRecached : Overlay → Overlay → Type 0
IsRecached o o' = (c : List CacheCall) × (o' ≡ recached c o)

pub record IsQuiet {A : Type 0} (m : Op A) : Type 0 where
  pub same : (o : Overlay) (c : List CacheCall) → value (m (recached c o)) ≡ value (m o)
  pub stays : (o : Overlay) → IsRecached o (after (m o))

pub record IsAbsent {A : Type 0} (m : Op (Option A)) : Type 0 where
  pub gone :
      (o : Overlay) (c : List CacheCall)
      → value (m o) ≡ some none
      → (value (m (recached c o)) ≡ some none) × IsRecached o (after (m o))

abbrev pub taken : {A : Type 0} → A → Option A → A
taken b none = b
taken b (some a) = a

module _ {A B : Type 0} where
  abbrev pub next : (A → Op B) → Outcome A → Outcome B
  next f r = elim r [ returns a o ↦ f a o | fails e o ↦ fails e o ]

  pub bind-returns :
      (m : Op A) (f : A → Op B) {a : A} {o p : Overlay} → m o ≡ returns a p → (m >>= f) o ≡ f a p
  bind-returns m f e = ap (next f) e

  next-same :
      (o : Overlay) (f : A → Op B) (r r' : Outcome A)
      → value r' ≡ value r
      → IsRecached o (after r)
      → IsRecached o (after r')
      → ((a : A) → IsQuiet (f a))
      → value (next f r') ≡ value (next f r)
  next-same o f (returns a p) (returns b q) e (c, u) (d, v) s =
      ap (λ o'. value (f b o')) v
      ∙ (s b).same o d
      ∙ sym ((s b).same o c)
      ∙ ap (λ o'. value (f b o')) (sym u)
      ∙ ap (λ x. value (f x p)) (ap (taken b) e)
  next-same o f (returns a p) (fails x q) e u v s = ground arith
  next-same o f (fails x p) (returns b q) e u v s = ground arith
  next-same o f (fails x p) (fails y q) e u v s = refl

  next-stays :
      (o : Overlay) (f : A → Op B) (r : Outcome A)
      → IsRecached o (after r)
      → ((a : A) → IsQuiet (f a))
      → IsRecached o (after (next f r))
  next-stays o f (returns a p) (c, u) s = let (d, v) = (s a).stays p in (d, v ∙ ap (recached d) u)
  next-stays o f (fails x p) u s = u

  pub bind-IsQuiet :
      {m : Op A} {f : A → Op B} → IsQuiet m → ((a : A) → IsQuiet (f a)) → IsQuiet (m >>= f)
  bind-IsQuiet {m} {f} q s = record {
    same = λ o c.
        let (d, v) = q.stays (recached c o) in
        next-same o f (m o) (m (recached c o)) (q.same o c) (q.stays o) (d, v) s;
    stays = λ o. next-stays o f (m o) (q.stays o) s;
  }

module _ {A B : Type 0} where
  next-gone :
      (o : Overlay) (f : A → Op (Option B)) (r r' : Outcome A)
      → value r' ≡ value r
      → IsRecached o (after r)
      → IsRecached o (after r')
      → ((a : A) → IsAbsent (f a))
      → value (next f r) ≡ some none
      → (value (next f r') ≡ some none) × IsRecached o (after (next f r))
  next-gone o f (returns a p) (returns b q) e (c, u) (d, v) s h =
      let here = (s a).gone p d h in
      let at : recached d p ≡ q = ap (recached d) u ∙ sym v in
      let (c', w) = here.1 in
      (
        ap (λ x. value (f x q)) (ap (taken b) e) ∙ ap (λ o'. value (f a o')) (sym at) ∙ here.0,
        (c', w ∙ ap (recached c') u),
      )
  next-gone o f (returns a p) (fails x q) e u v s h = ground arith
  next-gone o f (fails x p) r' e u v s h = ground arith

  pub bind-IsAbsent :
      {m : Op A} {f : A → Op (Option B)}
      → IsQuiet m
      → ((a : A) → IsAbsent (f a))
      → IsAbsent (m >>= f)
  bind-IsAbsent {m} {f} q s = record {
    gone = λ o c h.
        let (d, v) = q.stays (recached c o) in
        next-gone o f (m o) (m (recached c o)) (q.same o c) (q.stays o) (d, v) s h;
  }

module _ {A : Type 0} where
  pub done-IsQuiet : (a : A) → IsQuiet (done a)
  done-IsQuiet a = record { same = λ o c. refl; stays = λ o. (o.delta.cache, refl) }

  pub from_result-IsQuiet : (r : Result A) → IsQuiet (from_result r)
  from_result-IsQuiet (Mode.ok a) = record {
    same = λ o c. refl;
    stays = λ o. (o.delta.cache, refl);
  }
  from_result-IsQuiet (Mode.err e) = record {
    same = λ o c. refl;
    stays = λ o. (o.delta.cache, refl);
  }

  pub none-IsAbsent : IsAbsent (done {A = Option A} none)
  none-IsAbsent = record { gone = λ o c h. (refl, (o.delta.cache, refl)) }

pub some-IsAbsent :
    {A : Type 0} (f : Overlay → ℕ × Overlay) (g : ℕ → A)
    → IsAbsent (mapped f >>= λ n. done (some (g n)))
some-IsAbsent f g = record { gone = λ o c h. ground arith }

pub option-IsQuiet :
    {A B : Type 0} (found : Option A) {n : Op B} {f : A → Op B}
    → IsQuiet n
    → ((a : A) → IsQuiet (f a))
    → IsQuiet (elim found as (λ _. Op B) [ none ↦ n | some a ↦ f a ])
option-IsQuiet none q s = q
option-IsQuiet (some a) q s = s a

pub option-IsAbsent :
    {A B : Type 0} (found : Option A) {n : Op (Option B)} {f : A → Op (Option B)}
    → IsAbsent n
    → ((a : A) → IsAbsent (f a))
    → IsAbsent (elim found as (λ _. Op (Option B)) [ none ↦ n | some a ↦ f a ])
option-IsAbsent none q s = q
option-IsAbsent (some a) q s = s a

pub if-IsQuiet :
    {A : Type 0} (b : Bool) {m n : Op A} → IsQuiet m → IsQuiet n → IsQuiet (if b then m else n)
if-IsQuiet true q s = q
if-IsQuiet false q s = s

pub if-IsAbsent :
    {A : Type 0} (b : Bool) {m n : Op (Option A)}
    → IsAbsent m
    → IsAbsent n
    → IsAbsent (if b then m else n)
if-IsAbsent true q s = q
if-IsAbsent false q s = s

pub layer-IsQuiet :
    {A : Type 0} (l : Layer) {m n : Op A}
    → IsQuiet m
    → IsQuiet n
    → IsQuiet (elim l as (λ _. Op A) [ in_delta ↦ m | in_base ↦ n ])
layer-IsQuiet in_delta q s = q
layer-IsQuiet in_base q s = s

required-stays :
    {A : Type 0} (e : FsError) (found : Option A) (o : Overlay)
    → IsRecached o (after (required e found o))
required-stays e none o = (o.delta.cache, refl)
required-stays e (some a) o = (o.delta.cache, refl)

required-same :
    {A : Type 0} (e : FsError) (found : Option A) (o o' : Overlay)
    → value (required e found o') ≡ value (required e found o)
required-same e none o o' = refl
required-same e (some a) o o' = refl

pub inode_info-IsQuiet : (ino : ℕ) → IsQuiet (inode_info ino)
inode_info-IsQuiet ino = record {
  same = λ o c. required-same Mode.not_found (select ino o.inode_map) o (recached c o);
  stays = λ o. required-stays Mode.not_found (select ino o.inode_map) o;
}

pub whiteout-IsQuiet : (path : Bytes) → IsQuiet (gets (λ o. is_whiteout o path))
unfolding is_whiteout
whiteout-IsQuiet path = record { same = λ o c. refl; stays = λ o. (o.delta.cache, refl) }
