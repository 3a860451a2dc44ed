-- ===== src/World/Total.antt =====
-- Functions that return a value: triples whose failure is impossible.
use local_tls.Base.{true, ◌≡◌, refl, sym, subst}
use local_tls.Errors.{Error, Outcome, ok, err, is_ok}
use local_tls.Host.{Host}
use local_tls.World.{World, M, or_else, defers}
use local_tls.World.Keeps.{Keeps}
use local_tls.World.Hoare.{Ends, Triple, Triple-or_else, Triple-defers, Triple-anything}

module _ {H : Host} where
  -- No error comes.
  abbrev pub Never : Error → World H → Type 0
  Never e w = ⊥

  -- A guard whose step cannot fail.
  pub sure :
      {A : Type 0} {P : World H → Type 0} {Q : A → World H → Type 0} {m : M H A}
      (f : M H (Unit {0}))
      → Triple P m Q Never
      → Triple P (or_else m f) Q Never
  sure f t = Triple-or_else {F = Never} t (λ e. record { at = λ w h. elim h [ ] })

  -- What runs at the end is beside the point.
  pub sure_defers :
      {A : Type 0} {P : World H → Type 0} {Q : A → World H → Type 0} {m : M H A}
      (f : M H (Unit {0}))
      → Triple P m Q Never
      → Triple P (defers f m) (λ _ _. Unit {0}) Never
  sure_defers {Q} f t =
      Triple-defers {F = Q} {G = Never} t (λ a. Triple-anything)
        (λ e. record { at = λ w h. elim h [ ] })

  pub surely :
      {A : Type 0} {P : World H → Type 0} {Q : A → World H → Type 0} {m : M H A}
      → Triple P m Q Never
      → (w : World H) → P w
      → is_ok (m w).0 ≡ true
  surely {A} {Q = Q} {m} t w p = ok_at (m w).0 (m w).1 (t.at w p)
    where
      ok_at : (r : Outcome A) (v : World H) → Ends Q Never r v → is_ok r ≡ true
      ok_at (ok a) v h = refl
      ok_at (err e) v h = absurd h

  -- A total function keeps what it does not look at.
  pub framed :
      {A X : Type 0} {obs : World H → X} {P : World H → Type 0} {Q : A → World H → Type 0}
      {m : M H A} (R : X → Type 0)
      → Keeps obs m
      → Triple P m Q Never
      → Triple (λ w. P w × R (obs w)) m (λ a w. Q a w × R (obs w)) Never
  framed {A} {obs = obs} {Q = Q} {m} R k t = record {
    at = λ w (p, r). framed_at (m w).0 (m w).1 (t.at w p) (subst R (sym (k.at w)) r);
  }
    where
      framed_at :
          (o : Outcome A) (v : World H)
          → Ends Q Never o v
          → R (obs v)
          → Ends (λ a u. Q a u × R (obs u)) Never o v
      framed_at (ok a) v q r = (q, r)
      framed_at (err e) v q r = absurd q
