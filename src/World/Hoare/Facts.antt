-- ===== src/World/Hoare/Facts.antt =====
-- What holds where a function returns, what it keeps, and facts carried along.
use local_tls.Base.{String, Bool, true, false, if◌then◌else◌, ◌≡◌, refl, sym, subst}
use local_tls.Errors.{Error, Outcome, ok, err}
use local_tls.Host.{Host}
use local_tls.World.{World, M, lift, context, on_root}
use local_tls.World.{or_else, ◌>>=◌}
use local_tls.World.Keeps.{Keeps}
use local_tls.World.Hoare.Rules.{Ends, Triple}

-- Every property of an observation that is kept holds afterwards as before.
pub Triple-keeps :
    {H : Host} {X A : Type 0} {obs : World H → X} {m : M H A} (R : X → Type 0)
    → Keeps obs m
    → Triple (λ w. R (obs w)) m (λ _ w. R (obs w)) (λ _ w. R (obs w))
Triple-keeps {H} {A = A} {obs} {m} R k = record { at = λ w p. kept_at (m w).0 (m w).1 w (k.at w) p }
  where
    kept_at :
        (r : Outcome A) (v w : World H)
        → obs v ≡ obs w
        → R (obs w)
        → Ends (λ _ u. R (obs u)) (λ _ u. R (obs u)) r v
    kept_at (ok a) v w e p = subst R (sym e) p
    kept_at (err x) v w e p = subst R (sym e) p

-- What holds if the function returns a value; nothing is said about a failure.
abbrev pub Unclaimed : {H : Host} → Error → World H → Type 0
Unclaimed e w = Unit {0}

module _ {H : Host} {A : Type 0} where
  weakened_at :
      (Q : A → World H → Type 0) (E : Error → World H → Type 0) (r : Outcome A) (w : World H)
      → Ends Q E r w
      → Ends Q Unclaimed r w
  weakened_at Q E (ok a) w h = h
  weakened_at Q E (err e) w h = tt

  pub Triple-returns :
      {P : World H → Type 0} {Q : A → World H → Type 0} {E : Error → World H → Type 0} {m : M H A}
      → Triple P m Q E
      → Triple P m Q Unclaimed
  Triple-returns {P} {Q} {E} {m} t = record {
    at = λ w p. weakened_at Q E (m w).0 (m w).1 (t.at w p);
  }

  pub Triple-anything : {P : World H → Type 0} {m : M H A} → Triple P m (λ _ _. Unit {0}) Unclaimed
  Triple-anything {P} {m} = record { at = λ w p. anything_at (m w).0 (m w).1 }
    where
      anything_at : (r : Outcome A) (w : World H) → Ends (λ _ _. Unit {0}) Unclaimed r w
      anything_at (ok a) w = tt
      anything_at (err e) w = tt

  both_at :
      (Q Q' : A → World H → Type 0) (r : Outcome A) (w : World H)
      → Ends Q Unclaimed r w
      → Ends Q' Unclaimed r w
      → Ends (λ a v. Q a v × Q' a v) Unclaimed r w
  both_at Q Q' (ok a) w h k = (h, k)
  both_at Q Q' (err e) w h k = tt

  pub Triple-both :
      {P P' : World H → Type 0} {Q Q' : A → World H → Type 0} {m : M H A}
      → Triple P m Q Unclaimed
      → Triple P' m Q' Unclaimed
      → Triple (λ w. P w × P' w) m (λ a w. Q a w × Q' a w) Unclaimed
  Triple-both {P} {P'} {Q} {Q'} {m} t u = record {
    at = λ w p. both_at Q Q' (m w).0 (m w).1 (t.at w p.0) (u.at w p.1);
  }

  pub Triple-exists :
      {X : Type 0} {P : X → World H → Type 0} {Q : A → World H → Type 0}
      {E : Error → World H → Type 0} {m : M H A}
      → ((x : X) → Triple (P x) m Q E)
      → Triple (λ w. (x : X) × P x w) m Q E
  Triple-exists t = record { at = λ w (x, p). (t x).at w p }

  -- A check whose failure is an error, with whatever the failure runs.
  pub Triple-check :
      {P : World H → Type 0} (s : String) (r : Outcome A) (f : M H (Unit {0}))
      → Triple P (or_else (context s (lift r)) f) (λ a w. (r ≡ ok a) × P w) Unclaimed
  unfolding ◌>>=◌
  Triple-check s (ok a) f = record { at = λ w p. (refl, p) }
  Triple-check s (err e) f = record { at = λ w p. tt }

  pub Triple-test :
      {P : World H → Type 0} (r : Outcome A) (f : M H (Unit {0}))
      → Triple P (or_else (lift r) f) (λ a w. (r ≡ ok a) × P w) Unclaimed
  unfolding ◌>>=◌
  Triple-test (ok a) f = record { at = λ w p. (refl, p) }
  Triple-test (err e) f = record { at = λ w p. tt }

  -- The postcondition, read off a run that returned a value.
  pub Triple-result :
      {P : World H → Type 0} {Q : A → World H → Type 0} {E : Error → World H → Type 0} {m : M H A}
      → Triple P m Q E
      → (w : World H) (a : A) → P w
      → (m w).0 ≡ ok a
      → Q a (m w).1
  Triple-result {P} {Q} {E} {m} t w a p e = subst (λ r. Ends Q E r (m w).1) e (t.at w p)

pub Triple-if :
    {H : Host} {A : Type 0} {P : World H → Type 0} {Q : A → World H → Type 0}
    {E : Error → World H → Type 0} {m n : M H A} (b : Bool)
    → (b ≡ true → Triple P m Q E)
    → (b ≡ false → Triple P n Q E)
    → Triple P (if b then m else n) Q E
Triple-if true t u = t refl
Triple-if false t u = u refl

module _ {H : Host} {A : Type 0} where
  -- A fact in front of the state's condition becomes a hypothesis.
  pub Triple-fact :
      {F : Type 0} {P : World H → Type 0} {Q : A → World H → Type 0} {E : Error → World H → Type 0}
      {m : M H A}
      → (F → Triple P m Q E)
      → Triple (λ w. F × P w) m Q E
  Triple-fact t = record { at = λ w p. (t p.0).at w p.1 }

  pub Triple-on_root :
      {P : World H → Type 0} (f : H.RootState → Outcome A × H.RootState) (r : H.RootState)
      → Triple (λ w. (w.root ≡ r) × P w) (on_root f) (λ a _. ((f r).0 ≡ ok a) × Unit {0}) Unclaimed
  unfolding ◌>>=◌
  Triple-on_root f r = record { at = λ w h. root_at (f w.root).0 (f r).0 _ (λ i. (f (h.0 i)).0) }
    where
      root_at :
          (o o' : Outcome A) (v : World H)
          → o ≡ o'
          → Ends (λ a _. (o' ≡ ok a) × Unit {0}) Unclaimed o v
      root_at (ok a) o' v e = (sym e, tt)
      root_at (err x) o' v e = tt
