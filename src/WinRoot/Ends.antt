-- ===== src/WinRoot/Ends.antt =====
-- How an action over the certificate store ends: a relation of its outcome and the state behind it,
-- with one rule for each way to build an action.
use local_tls.Base.{String, Bool, true, false, ◌≡◌, refl, if◌then◌else◌}
use local_tls.Errors.{Error, Outcome, ok, err, wrapped}
use local_tls.WinRoot.Action
use local_tls.WinRoot.Action.{State, pure, raise, lift, context, attempt, finally, ignore, ◌>>=◌}

pub record Ends {S A : Type 0} (P : S → Type 0) (m : State S A) (Q : Outcome A → S → Type 0)
    : Type 0 where
  pub at : (r : S) → P r → Q (m r).0 (m r).1

module _ {S A : Type 0} {P : S → Type 0} {Q : Outcome A → S → Type 0} where
  pub Ends-pure : (a : A) → ((r : S) → P r → Q (ok a) r) → Ends P (pure a) Q
  unfolding ◌>>=◌
  Ends-pure a h = record { at = h }

  pub Ends-raise : (e : Error) → ((r : S) → P r → Q (err e) r) → Ends P (raise e) Q
  unfolding ◌>>=◌
  Ends-raise e h = record { at = h }

  pub Ends-lift : (o : Outcome A) → ((r : S) → P r → Q o r) → Ends P (lift o) Q
  unfolding ◌>>=◌
  Ends-lift o h = record { at = h }

  pub Ends-context :
      (s : String) {f : State S A} → Ends P f (λ o r. Q (wrapped s o) r) → Ends P (context s f) Q
  unfolding ◌>>=◌
  Ends-context s t = record { at = t.at }

  pub Ends-finally :
      {g : State S (Unit {0})} {f : State S A} {R : Outcome A → S → Type 0}
      → Ends P f R
      → ((o : Outcome A) → Ends (R o) g (λ _. Q o))
      → Ends P (finally g f) Q
  unfolding ◌>>=◌
  Ends-finally {f} t u = record { at = λ r p. (u (f r).0).at (f r).1 (t.at r p) }

  pub Ends-weaken :
      {P' : S → Type 0} {Q' : Outcome A → S → Type 0} {m : State S A}
      → ((r : S) → P r → P' r)
      → ((o : Outcome A) (r : S) → Q' o r → Q o r)
      → Ends P' m Q'
      → Ends P m Q
  Ends-weaken {m} p q t = record { at = λ r h. q (m r).0 (m r).1 (t.at r (p r h)) }

  -- A fact in front of the state's condition becomes a hypothesis.
  pub Ends-fact : {F : Type 0} {m : State S A} → (F → Ends P m Q) → Ends (λ r. F × P r) m Q
  Ends-fact t = record { at = λ r h. (t h.0).at r h.1 }

module _ {S : Type 0} {P : S → Type 0} {Q : Outcome (Unit {0}) → S → Type 0} where
  pub Ends-ignore : {f : State S (Unit {0})} → Ends P f (λ _. Q (ok tt)) → Ends P (ignore f) Q
  unfolding ◌>>=◌
  Ends-ignore t = record { at = t.at }

module _ {S A : Type 0} {P : S → Type 0} {Q : Outcome (Outcome A) → S → Type 0} where
  pub Ends-attempt : {f : State S A} → Ends P f (λ o. Q (ok o)) → Ends P (attempt f) Q
  unfolding ◌>>=◌
  Ends-attempt t = record { at = t.at }

module _ {S A B : Type 0} {P : S → Type 0} {Q : Outcome A → S → Type 0}
    {R : Outcome B → S → Type 0} where
  pub Ends-bind :
      {m : State S A} {f : A → State S B}
      → Ends P m Q
      → ((e : Error) (r : S) → Q (err e) r → R (err e) r)
      → ((a : A) → Ends (Q (ok a)) (f a) R)
      → Ends P (m >>= f) R
  unfolding ◌>>=◌
  Ends-bind {m} {f} t fail u = record { at = λ r p. bound (m r).0 (m r).1 (t.at r p) }
    where
      bound :
          (o : Outcome A) (r : S) → Q o r → R (Action.continue o f r).0 (Action.continue o f r).1
      bound (ok a) r q = (u a).at r q
      bound (err e) r q = fail e r q

pub Ends-if :
    {S A : Type 0} {P : S → Type 0} {Q : Outcome A → S → Type 0} {m n : State S A} (b : Bool)
    → (b ≡ true → Ends P m Q)
    → (b ≡ false → Ends P n Q)
    → Ends P (if b then m else n) Q
Ends-if true h k = h refl
Ends-if false h k = k refl
