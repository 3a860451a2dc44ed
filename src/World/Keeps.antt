-- ===== src/World/Keeps.antt =====
-- What a function leaves alone: an observation of the state is the same before and after it,
-- whether the function returns a value or an error. One rule for each way to build an action.
use local_tls.Base.{String, Bool, true, false, ◌≡◌, refl, ◌∙◌, if◌then◌else◌}
use local_tls.Errors.{Error, Outcome, ok, err}
use local_tls.Host.{Host}
use local_tls.World
use local_tls.World.{World, M, pure, raise, lift, gets, context, attempt}
use local_tls.World.{defers, or_else, ignore, modify, ◌>>=◌}

pub record Keeps {H : Host} {X A : Type 0} (obs : World H → X) (m : M H A) : Type 0 where
  pub at : (w : World H) → obs (m w).1 ≡ obs w

module _ {H : Host} {X A : Type 0} {obs : World H → X} where
  pub Keeps-pure : (a : A) → Keeps obs (pure a)
  unfolding ◌>>=◌
  Keeps-pure a = record { at = λ w. refl }

  pub Keeps-raise : (e : Error) → Keeps obs (raise {A = A} e)
  unfolding ◌>>=◌
  Keeps-raise e = record { at = λ w. refl }

  pub Keeps-lift : (r : Outcome A) → Keeps obs (lift r)
  unfolding ◌>>=◌
  Keeps-lift r = record { at = λ w. refl }

  pub Keeps-gets : (f : World H → A) → Keeps obs (gets f)
  unfolding ◌>>=◌
  Keeps-gets f = record { at = λ w. refl }

  pub Keeps-context : (s : String) (m : M H A) → Keeps obs m → Keeps obs (context s m)
  unfolding ◌>>=◌
  Keeps-context s m k = record { at = λ w. k.at w }

  pub Keeps-attempt : (m : M H A) → Keeps obs m → Keeps obs (attempt m)
  unfolding ◌>>=◌
  Keeps-attempt m k = record { at = λ w. k.at w }

  pub Keeps-defers :
      (f : M H (Unit {0})) (m : M H A) → Keeps obs f → Keeps obs m → Keeps obs (defers f m)
  unfolding ◌>>=◌
  Keeps-defers f m kf km = record { at = λ w. kf.at (m w).1 ∙ km.at w }

  after_keeps :
      (r : Outcome A) (f : M H (Unit {0})) (w : World H)
      → Keeps obs f
      → obs (World.after r f w).1 ≡ obs w
  after_keeps (ok a) f w k = refl
  after_keeps (err e) f w k = k.at w

  pub Keeps-or_else :
      (m : M H A) (f : M H (Unit {0})) → Keeps obs m → Keeps obs f → Keeps obs (or_else m f)
  unfolding ◌>>=◌
  Keeps-or_else m f km kf = record { at = λ w. after_keeps (m w).0 f (m w).1 kf ∙ km.at w }

  pub Keeps-if :
      (b : Bool) (m n : M H A) → Keeps obs m → Keeps obs n → Keeps obs (if b then m else n)
  Keeps-if true m n km kn = km
  Keeps-if false m n km kn = kn

module _ {H : Host} {X : Type 0} {obs : World H → X} where
  pub Keeps-modify :
      (f : World H → World H) → ((w : World H) → obs (f w) ≡ obs w) → Keeps obs (modify f)
  unfolding ◌>>=◌
  Keeps-modify f k = record { at = k }

  pub Keeps-ignore : (m : M H (Unit {0})) → Keeps obs m → Keeps obs (ignore m)
  unfolding ◌>>=◌
  Keeps-ignore m k = record { at = λ w. k.at w }

module _ {H : Host} {X A B : Type 0} {obs : World H → X} where
  continue_keeps :
      (r : Outcome A) (f : A → M H B) (w : World H)
      → ((a : A) → Keeps obs (f a))
      → obs (World.continue r f w).1 ≡ obs w
  continue_keeps (ok a) f w k = (k a).at w
  continue_keeps (err e) f w k = refl

  pub Keeps-bind :
      (m : M H A) (f : A → M H B) → Keeps obs m → ((a : A) → Keeps obs (f a)) → Keeps obs (m >>= f)
  unfolding ◌>>=◌
  Keeps-bind m f km kf = record { at = λ w. continue_keeps (m w).0 f (m w).1 kf ∙ km.at w }

pub ruleset keeps_rules = (
  Keeps-pure, Keeps-raise, Keeps-lift, Keeps-gets, Keeps-context, Keeps-attempt, Keeps-defers,
  Keeps-or_else, Keeps-if, Keeps-ignore, Keeps-bind,
)
