-- ===== src/Overlay/Ends.antt =====
-- What holds of the overlay whenever a method returns: from its last step.
use airyfs.Prelude.{◌≡◌, sym, ap, ◌∙◌, nat_eq, arith}
use airyfs.Overlay.{Overlay, Outcome, returns, fails, Op, ◌>>=◌}
use airyfs.Overlay.Quiet.{next}

pub record Ends (P : Overlay → Type 0) (m : Op (Unit {0})) : Type 0 where
  pub ends : (o o' : Overlay) → m o ≡ returns tt o' → P o'

pub record EndsAt (P : Overlay → Type 0) (m : Op (Unit {0})) (o : Overlay) : Type 0 where
  pub ends_at : (o' : Overlay) → m o ≡ returns tt o' → P o'

module _ {A : Type 0} where
  after_then :
      (P : Overlay → Type 0) (f : A → Op (Unit {0})) (r : Outcome A) (o' : Overlay)
      → ((a : A) → Ends P (f a))
      → next f r ≡ returns tt o'
      → P o'
  after_then P f (returns a o) o' s h = (s a).ends o o' h
  after_then P f (fails e o) o' s h = ground arith

  pub bind-Ends :
      {P : Overlay → Type 0} (m : Op A) {f : A → Op (Unit {0})}
      → ((a : A) → Ends P (f a))
      → Ends P (m >>= f)
  bind-Ends {P} m {f} s = record { ends = λ o o' h. after_then P f (m o) o' s h }

  pub bind-EndsAt :
      {P : Overlay → Type 0} (m : Op A) (f : A → Op (Unit {0})) {o : Overlay} (a : A)
      → m o ≡ returns a o
      → EndsAt P (f a) o
      → EndsAt P (m >>= f) o
  bind-EndsAt {P} m f {o} a e s = record {
    ends_at = λ o' h. s.ends_at o' (sym (ap (next f) e) ∙ h);
  }

pub Ends-at : {P : Overlay → Type 0} {m : Op (Unit {0})} (o : Overlay) → Ends P m → EndsAt P m o
Ends-at o s = record { ends_at = s.ends o }
