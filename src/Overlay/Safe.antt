-- ===== src/Overlay/Safe.antt =====
-- Methods of the overlay after which it is sound again, and knows every number that it knew, whether
-- they return or fail: how such methods compose.
pub mod CopyUp
pub mod Read
pub mod Change
use airyfs.Prelude.{
  ℕ, ◌≡◌, ◌≢◌, ◌⊎◌, inl, inr, refl, sym, ap, ◌∙◌, Bool, true, false, not, Option, none, some, List,
  [], ◌∷◌, ◌++◌, nat_eq, if◌then◌else◌, Option-cases, Bool-cases, arith,
}
use airyfs.Prelude.Table.{select}
use airyfs.Mode
use airyfs.Mode.{
  FsError, Result, Stamp, Stats, is_directory, is_symlink, not_found, not_a_directory,
}
use airyfs.Db.{Bytes, root_ino}
use airyfs.File.{FileHandle}
use airyfs.Fs.{Fs}
use airyfs.PathName.{slash, without_last}
use airyfs.PathApi.{last_name}
use airyfs.Overlay.{
  Base, Layer, in_delta, in_base, Place, InodeInfo, Overlay, Outcome, returns, fails, Op, ◌>>=◌,
  ◌>>◌, done, refuse, from_result, required, gets, modify, mapped, in_delta_layer, changes_delta,
}
use airyfs.Overlay.Maps.{
  place_eq, components, remove_whiteout, add_origin_mapping, promote_to_delta, inode_info,
  child_path, build_path,
}
use airyfs.Overlay.CopyUp.{
  delta_lookup, walk_directories, resolve_delta_parent, walk_delta, walk_base, base_lookup, base_or,
  owner_or, keep_origin, ensure_dirs, ensure_parent_dirs, copy_symlink, copy_directory, create_in,
  write_delta, copy_file, copy_node, already_copied, copy_new, copy_up,
}
use airyfs.Overlay.Sound.{
  is_known, info_at, IsSound, Extends, Extends-refl, Extends-trans, with_delta-Extends,
  remove_whiteout-Extends, add_origin_mapping-Extends,
}
use airyfs.Overlay.Moved.{promote_to_delta-Extends}

abbrev pub after : {A : Type 0} → Outcome A → Overlay
after (returns a o) = o
after (fails e o) = o

pub record IsSafe {A : Type 0} (m : Op A) : Type 0 where
  pub keeps : (o : Overlay) → IsSound o → Extends o (after (m o))

module _ {A : Type 0} where
  pub done-IsSafe : (a : A) → IsSafe (done a)
  done-IsSafe a = record { keeps = λ o h. Extends-refl o h }

  pub from_result-IsSafe : (r : Result A) → IsSafe (from_result r)
  from_result-IsSafe (Mode.ok a) = record { keeps = λ o h. Extends-refl o h }
  from_result-IsSafe (Mode.err e) = record { keeps = λ o h. Extends-refl o h }

  pub required-IsSafe : (e : FsError) (found : Option A) → IsSafe (required e found)
  required-IsSafe e none = record { keeps = λ o h. Extends-refl o h }
  required-IsSafe e (some a) = record { keeps = λ o h. Extends-refl o h }

  pub gets-IsSafe : (f : Overlay → A) → IsSafe (gets f)
  gets-IsSafe f = record { keeps = λ o h. Extends-refl o h }

  pub mapped-IsSafe :
      (f : Overlay → A × Overlay)
      → ((o : Overlay) → IsSound o → Extends o (f o).1)
      → IsSafe (mapped f)
  mapped-IsSafe f s = record { keeps = s }

  after_delta :
      (o : Overlay) (r : Result (A × Fs))
      → IsSound o
      → Extends o (
          after {A = A} (elim r [
            | Mode.ok (a, fs) ↦ returns a (record o { delta = fs })
            | Mode.err e ↦ fails e o
          ]))
  after_delta o (Mode.ok (a, fs)) h = with_delta-Extends o fs h
  after_delta o (Mode.err e) h = Extends-refl o h

  pub in_delta_layer-IsSafe : (f : Fs → Result (A × Fs)) → IsSafe (in_delta_layer f)
  in_delta_layer-IsSafe f = record { keeps = λ o h. after_delta o (f o.delta) h }

  pub if-IsSafe : (b : Bool) {m n : Op A} → IsSafe m → IsSafe n → IsSafe (if b then m else n)
  if-IsSafe true sm sn = sm
  if-IsSafe false sm sn = sn

pub refuse-IsSafe : {A : Type 0} (e : FsError) → IsSafe (refuse {A = A} e)
refuse-IsSafe e = record { keeps = λ o h. Extends-refl o h }

pub modify-IsSafe :
    (f : Overlay → Overlay) → ((o : Overlay) → IsSound o → Extends o (f o)) → IsSafe (modify f)
modify-IsSafe f s = record { keeps = s }

after_change :
    (o : Overlay) (r : Result Fs)
    → IsSound o
    → Extends o (
        after {A = Unit {0}}
          (elim r [ Mode.ok fs ↦ returns tt (record o { delta = fs }) | Mode.err e ↦ fails e o ]))
after_change o (Mode.ok fs) h = with_delta-Extends o fs h
after_change o (Mode.err e) h = Extends-refl o h

pub changes_delta-IsSafe : (f : Fs → Result Fs) → IsSafe (changes_delta f)
changes_delta-IsSafe f = record { keeps = λ o h. after_change o (f o.delta) h }

module _ {A B : Type 0} where
  after_bind :
      (o : Overlay) (r : Outcome A) (f : A → Op B)
      → Extends o (after r)
      → ((a : A) → IsSafe (f a))
      → Extends o (after {A = B} (elim r [ returns a o' ↦ f a o' | fails e o' ↦ fails e o' ]))
  after_bind o (returns a o') f e s = Extends-trans e ((s a).keeps o' e.sound)
  after_bind o (fails x o') f e s = e

  pub bind-IsSafe :
      {m : Op A} {f : A → Op B} → IsSafe m → ((a : A) → IsSafe (f a)) → IsSafe (m >>= f)
  bind-IsSafe {m} {f} sm sf = record { keeps = λ o h. after_bind o (m o) f (sm.keeps o h) sf }

pub option-IsSafe :
    {A B : Type 0} (found : Option A) {n : Op B} {f : A → Op B}
    → IsSafe n
    → ((a : A) → IsSafe (f a))
    → IsSafe (elim found as (λ _. Op B) [ none ↦ n | some a ↦ f a ])
option-IsSafe none sn sf = sn
option-IsSafe (some a) sn sf = sf a

pub layer-IsSafe :
    {B : Type 0} (l : Layer) {m n : Op B}
    → IsSafe m
    → IsSafe n
    → IsSafe (elim l as (λ _. Op B) [ in_delta ↦ m | in_base ↦ n ])
layer-IsSafe in_delta sm sn = sm
layer-IsSafe in_base sm sn = sn

pub list-IsSafe :
    {A B : Type 0} (items : List A) {n : Op B} {f : A → List A → Op B}
    → IsSafe n
    → ((a : A) (rest : List A) → IsSafe (f a rest))
    → IsSafe (elim items as (λ _. Op B) [ [] ↦ n | a ∷ rest ↦ f a rest ])
list-IsSafe [] sn sf = sn
list-IsSafe (a ∷ rest) sn sf = sf a rest

pub inode_info-IsSafe : (ino : ℕ) → IsSafe (inode_info ino)
inode_info-IsSafe ino = record {
  keeps = λ o h. (required-IsSafe not_found (info_at o ino)).keeps o h;
}

pub build_path-IsSafe : (parent : ℕ) (name : Bytes) → IsSafe (build_path parent name)
unfolding build_path
build_path-IsSafe parent name = bind-IsSafe (inode_info-IsSafe parent) (λ info. done-IsSafe _)
