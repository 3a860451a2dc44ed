-- ===== src/World/Hoare/Rules.antt =====
-- One rule for each way to build an action.
use local_tls.Base.{String, ◌≡◌, refl}
use local_tls.Errors.{Error, Outcome, ok, err, wrapped}
use local_tls.Host.{Host}
use local_tls.World
use local_tls.World.{World, M, pure, raise, lift, gets, context, attempt, modify, ignore, on_root}
use local_tls.World.{defers, or_else, ◌>>=◌}

abbrev pub Ends :
    {H : Host} {A : Type 0}
    → (A → World H → Type 0)
    → (Error → World H → Type 0)
    → Outcome A
    → World H
    → Type 0
Ends Q E (ok a) w = Q a w
Ends Q E (err e) w = E e w

pub record Triple {H : Host} {A : Type 0} (P : World H → Type 0) (m : M H A)
    (Q : A → World H → Type 0) (E : Error → World H → Type 0) : Type 0 where
  pub at : (w : World H) → P w → Ends Q E (m w).0 (m w).1

module _ {H : Host} {A : Type 0} {P : World H → Type 0} {Q : A → World H → Type 0}
    {E : Error → World H → Type 0} where
  pub Triple-pure : (a : A) → ((w : World H) → P w → Q a w) → Triple P (pure a) Q E
  unfolding ◌>>=◌
  Triple-pure a h = record { at = h }

  pub Triple-raise : (e : Error) → ((w : World H) → P w → E e w) → Triple P (raise e) Q E
  unfolding ◌>>=◌
  Triple-raise e h = record { at = h }

  pub Triple-lift :
      (r : Outcome A)
      → ((a : A) (w : World H) → r ≡ ok a → P w → Q a w)
      → ((e : Error) (w : World H) → r ≡ err e → P w → E e w)
      → Triple P (lift r) Q E
  unfolding ◌>>=◌
  Triple-lift (ok a) h k = record { at = λ w p. h a w refl p }
  Triple-lift (err e) h k = record { at = λ w p. k e w refl p }

  pub Triple-gets : (f : World H → A) → ((w : World H) → P w → Q (f w) w) → Triple P (gets f) Q E
  unfolding ◌>>=◌
  Triple-gets f h = record { at = h }

  pub Triple-context :
      (s : String) {m : M H A} → Triple P m Q (λ e. E (Error.wrap s e)) → Triple P (context s m) Q E
  unfolding ◌>>=◌
  Triple-context s {m} t = record { at = λ w p. context_at (m w).0 (m w).1 (t.at w p) }
    where
      context_at :
          (r : Outcome A) (w : World H)
          → Ends Q (λ e. E (Error.wrap s e)) r w
          → Ends Q E (wrapped s r) w
      context_at (ok a) w h = h
      context_at (err e) w h = h

  pub Triple-or_else :
      {F : Error → World H → Type 0} {m : M H A} {f : M H (Unit {0})}
      → Triple P m Q F
      → ((e : Error) → Triple (F e) f (λ _. E e) (λ _. E e))
      → Triple P (or_else m f) Q E
  unfolding ◌>>=◌
  Triple-or_else {F} {m} {f} tm tf = record { at = λ w p. or_else_at (m w).0 (m w).1 (tm.at w p) }
    where
      dropped :
          (e : Error) (r : Outcome (Unit {0})) (w : World H)
          → Ends (λ _. E e) (λ _. E e) r w
          → E e w
      dropped e (ok a) w h = h
      dropped e (err x) w h = h

      or_else_at :
          (r : Outcome A) (w : World H)
          → Ends Q F r w
          → Ends Q E (World.after r f w).0 (World.after r f w).1
      or_else_at (ok a) w h = h
      or_else_at (err e) w h = dropped e (f w).0 (f w).1 ((tf e).at w h)

  pub Triple-defers :
      {F : A → World H → Type 0} {G : Error → World H → Type 0} {m : M H A} {f : M H (Unit {0})}
      → Triple P m F G
      → ((a : A) → Triple (F a) f (λ _. Q a) (λ _. Q a))
      → ((e : Error) → Triple (G e) f (λ _. E e) (λ _. E e))
      → Triple P (defers f m) Q E
  unfolding ◌>>=◌
  Triple-defers {F} {G} {m} {f} tm tq te = record {
    at = λ w p. defers_at (m w).0 (m w).1 (tm.at w p);
  }
    where
      dropped :
          (R : World H → Type 0) (r : Outcome (Unit {0})) (w : World H)
          → Ends (λ _. R) (λ _. R) r w
          → R w
      dropped R (ok a) w h = h
      dropped R (err x) w h = h

      defers_at : (r : Outcome A) (w : World H) → Ends F G r w → Ends Q E r (f w).1
      defers_at (ok a) w h = dropped (Q a) (f w).0 (f w).1 ((tq a).at w h)
      defers_at (err e) w h = dropped (E e) (f w).0 (f w).1 ((te e).at w h)

  pub Triple-weaken :
      {P' : World H → Type 0} {Q' : A → World H → Type 0} {E' : Error → World H → Type 0}
      {m : M H A}
      → ((w : World H) → P w → P' w)
      → ((a : A) (w : World H) → Q' a w → Q a w)
      → ((e : Error) (w : World H) → E' e w → E e w)
      → Triple P' m Q' E'
      → Triple P m Q E
  Triple-weaken {Q'} {E'} {m} p q e t = record {
    at = λ w h. weaken_at (m w).0 (m w).1 (t.at w (p w h));
  }
    where
      weaken_at : (r : Outcome A) (w : World H) → Ends Q' E' r w → Ends Q E r w
      weaken_at (ok a) w h = q a w h
      weaken_at (err x) w h = e x w h

module _ {H : Host} {P : World H → Type 0} {E : Error → World H → Type 0} where
  pub Triple-modify :
      {Q : Unit {0} → World H → Type 0} (f : World H → World H)
      → ((w : World H) → P w → Q tt (f w))
      → Triple P (modify f) Q E
  unfolding ◌>>=◌
  Triple-modify f h = record { at = h }

  pub Triple-ignore :
      {Q : Unit {0} → World H → Type 0} {m : M H (Unit {0})}
      → Triple P m Q (λ _. Q tt)
      → Triple P (ignore m) Q E
  unfolding ◌>>=◌
  Triple-ignore {Q} {m} t = record { at = λ w p. ignore_at (m w).0 (m w).1 (t.at w p) }
    where
      ignore_at : (r : Outcome (Unit {0})) (w : World H) → Ends Q (λ _. Q tt) r w → Q tt w
      ignore_at (ok a) w h = h
      ignore_at (err e) w h = h

module _ {H : Host} {A B : Type 0} {P : World H → Type 0} {Q : A → World H → Type 0}
    {R : B → World H → Type 0} {E : Error → World H → Type 0} where
  pub Triple-bind :
      {m : M H A} {f : A → M H B}
      → Triple P m Q E
      → ((a : A) → Triple (Q a) (f a) R E)
      → Triple P (m >>= f) R E
  unfolding ◌>>=◌
  Triple-bind {m} {f} tm tf = record { at = λ w p. bind_at (m w).0 (m w).1 (tm.at w p) }
    where
      bind_at :
          (r : Outcome A) (w : World H)
          → Ends Q E r w
          → Ends R E (World.continue r f w).0 (World.continue r f w).1
      bind_at (ok a) w h = (tf a).at w h
      bind_at (err e) w h = h
