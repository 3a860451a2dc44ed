-- ===== src/WinRoot/Action.antt =====
-- Actions over one state: the functions of the trust store run over the certificate store's alone.
use local_tls.Base.{String}
use local_tls.Errors.{Error, Outcome, ok, err, wrapped}

abbrev pub State : Type 0 → Type 0 → Type 0
State S A = S → Outcome A × S

module _ {S : Type 0} {A : Type 0} where
  pub pure : A → State S A
  pure a r = (ok a, r)

  pub raise : Error → State S A
  raise e r = (err e, r)

  pub lift : Outcome A → State S A
  lift o r = (o, r)

  pub context : String → State S A → State S A
  context message f r = (wrapped message (f r).0, (f r).1)

  pub attempt : State S A → State S (Outcome A)
  attempt f r = (ok (f r).0, (f r).1)

  -- `defer g()` with a dropped result.
  pub finally : State S (Unit {0}) → State S A → State S A
  finally g f r = ((f r).0, (g (f r).1).1)

module _ {S : Type 0} where
  pub ignore : State S (Unit {0}) → State S (Unit {0})
  ignore f r = (ok tt, (f r).1)

module _ {S : Type 0} {A B : Type 0} where
  abbrev pub continue : Outcome A → (A → State S B) → State S B
  continue (ok a) f r = f a r
  continue (err e) f r = (err e, r)

  infixl 5 ◌>>=◌ ◌>>◌
  -- Opening this opens the other ways to build an action too.
  unfoldable pub ◌>>=◌ : State S A → (A → State S B) → State S B
  unfolding pure raise lift context attempt finally ignore
  ◌>>=◌ m f r = continue (m r).0 f (m r).1

  abbrev pub ◌>>◌ : State S A → State S B → State S B
  m >> k = m >>= λ _. k
