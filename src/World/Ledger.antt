-- ===== src/World/Ledger.antt =====
-- Accounts of open key handles: what a function is handed, what its result owns, and that nothing
-- else is left open, whichever way the function ends.
use local_tls.Base.{ℕ, ◌+◌, ◌-◌, ◌≤◌, String, ◌≡◌, refl, ap, ◌==◌, arith, if◌then◌else◌}
use local_tls.Errors
use local_tls.Errors.{Error, Outcome, ok, err}
use local_tls.Host.{Host, Signer}
use local_tls.World
use local_tls.World.Keeps.{Keeps}
use local_tls.World.{World, M, pure, raise, gets, attempt, context, on_keys, defers, or_else, ◌>>=◌}

-- How often each handle is open in the key provider.
pub record Live (H : Host) : Type 0 where
  pub count : H.KeyState → ℕ → ℕ

abbrev pub Account : Type 0
Account = ℕ → ℕ

abbrev pub nothing : Account
nothing j = 0

-- A signer with no `Close` method has no handle to release.
abbrev pub held : Signer → Account
held s j = if s.closer then (if j == s.handle then 1 else 0) else 0

abbrev pub owed : {A : Type 0} → (A → Account) → Account → Outcome A → Account
owed out fail (ok a) j = out a j
owed out fail (err e) j = fail j

infixl 65 ◌⊕◌
abbrev pub ◌⊕◌ : Account → Account → Account
(a ⊕ b) j = a j + b j

pub owed-nothing : {A : Type 0} (r : Outcome A) (j : ℕ) → owed (λ _. nothing) nothing r j ≡ 0
owed-nothing (ok a) j = refl
owed-nothing (err e) j = refl

-- From a state where the handles of `inp` are open, `m` ends with them closed, except for those
-- that its result owns by `out`, or by `fail` where it fails; all other handles are as before.
pub record Ledger {H : Host} {A : Type 0} (live : Live H) (inp : Account) (out : A → Account)
    (fail : Account) (m : M H A) : Type 0 where
  pub at :
      (w : World H)
      → ((j : ℕ) → inp j ≤ live.count w.keys j)
      → (j : ℕ) → live.count (m w).1.keys j + inp j ≡ live.count w.keys j + owed out fail (m w).0 j

-- What the package relies on in a signer's `Close`: it releases that handle and no other.
pub record Closes (H : Host) (live : Live H) : Type 0 where
  pub at :
      (h : ℕ) (k : H.KeyState) (j : ℕ)
      → live.count (H.close_handle h k).1 j ≡ live.count k j - (if j == h then 1 else 0)

-- What it relies on in a call that opens a key: the signer's handle is open once more, and a
-- failure opens nothing.
pub record Opens {H : Host} (live : Live H) (open' : H.KeyState → Outcome Signer × H.KeyState)
    : Type 0 where
  pub at :
      (k : H.KeyState) (j : ℕ)
      → live.count (open' k).1 j ≡ live.count k j + owed held nothing (open' k).0 j

module _ {H : Host} {live : Live H} {A : Type 0} where
  pub Ledger-pure :
      {inp fail : Account} {out : A → Account} (a : A)
      → ((j : ℕ) → inp j ≡ out a j)
      → Ledger live inp out fail (pure a)
  unfolding ◌>>=◌
  Ledger-pure a e = record { at = λ w h j. omega (arith, e j) }

  pub Ledger-raise :
      {fail : Account} {out : A → Account} (e : Error) → Ledger live fail out fail (raise e)
  unfolding ◌>>=◌
  Ledger-raise e = record { at = λ w h j. refl }

  -- A call that opens and closes no handle, whatever is open.
  pub Ledger-neutral :
      {inp : Account} {m : M H A}
      → Keeps {H = H} (λ w. live.count w.keys) m
      → Ledger live inp (λ _. inp) inp m
  Ledger-neutral {inp} {m} k = record {
    at = λ w h j. neutral_at (m w).0 j (ap (λ (f : ℕ → ℕ). f j) (k.at w));
  }
    where
      neutral_at :
          {n p : ℕ} (r : Outcome A) (j : ℕ) → n ≡ p → n + inp j ≡ p + owed (λ _. inp) inp r j
      neutral_at (ok a) j e = omega arith
      neutral_at (err x) j e = omega arith

  pub Ledger-gets :
      {inp fail : Account} (f : World H → A) → Ledger live inp (λ _. inp) fail (gets f)
  unfolding ◌>>=◌
  Ledger-gets f = record { at = λ w h j. refl }

  -- The pair of value and error owns what the value owns.
  pub Ledger-attempt :
      {inp fail fail' : Account} {out : A → Account} {m : M H A}
      → Ledger live inp out fail m
      → Ledger live inp (owed out fail) fail' (attempt m)
  unfolding ◌>>=◌
  Ledger-attempt l = record { at = λ w h j. l.at w h j }

  pub Ledger-context :
      {inp fail : Account} {out : A → Account} {m : M H A} (s : String)
      → Ledger live inp out fail m
      → Ledger live inp out fail (context s m)
  unfolding ◌>>=◌
  Ledger-context {inp} {fail} {out} {m} s l = record {
    at = λ w h j. context_at _ _ (m w).0 j (l.at w h j);
  }
    where
      context_at :
          (n p : ℕ) (r : Outcome A) (j : ℕ)
          → n + inp j ≡ p + owed out fail r j
          → n + inp j ≡ p + owed out fail (Errors.wrapped s r) j
      context_at n p (ok a) j e = e
      context_at n p (err x) j e = e

  -- The handles of `s` stay open while the body runs, and the deferred call closes them.
  pub Ledger-defers :
      {s fail : Account} {out : A → Account} {f : M H (Unit {0})} {m : M H A}
      → Ledger live s (λ _. nothing) nothing f
      → Ledger live nothing out fail m
      → Ledger live s out fail (defers f m)
  unfolding ◌>>=◌
  Ledger-defers {s} {f} {m} lf lm = record {
    at = λ w h j.
        let body = λ (i : ℕ). lm.at w (λ k. omega arith) i in
        omega (
          arith,
          body j,
          lf.at (m w).1 (λ i. omega (arith, h i, body i)) j,
          owed-nothing (f (m w).1).0 j,
        );
  }

  -- A failure closes what it still holds.
  pub Ledger-or_else :
      {inp s : Account} {out : A → Account} {f : M H (Unit {0})} {m : M H A}
      → Ledger live inp out s m
      → Ledger live s (λ _. nothing) nothing f
      → Ledger live inp out nothing (or_else m f)
  unfolding ◌>>=◌
  Ledger-or_else {inp} {s} {out} {f} {m} lm lf = record {
    at = λ w h j. or_else_at w (m w).0 (m w).1 h (lm.at w h) j;
  }
    where
      or_else_at :
          (w : World H) (r : Outcome A) (v : World H)
          → ((j : ℕ) → inp j ≤ live.count w.keys j)
          → ((j : ℕ) → live.count v.keys j + inp j ≡ live.count w.keys j + owed out s r j)
          → (j : ℕ)
          → live.count (World.after r f v).1.keys j + inp j
            ≡ live.count w.keys j + owed out nothing (World.after r f v).0 j
      or_else_at w (ok a) v h e j = e j
      or_else_at w (err x) v h e j =
          omega (arith, e j, lf.at v (λ i. omega (arith, h i, e i)) j, owed-nothing (f v).0 j)

  -- The same call while the handles of `s` are open.
  pub Ledger-frame :
      {inp fail : Account} {out : A → Account} {m : M H A} (s : Account)
      → Ledger live inp out fail m
      → Ledger live (inp ⊕ s) (λ a. out a ⊕ s) (fail ⊕ s) m
  Ledger-frame {inp} {fail} {out} {m} s l = record {
    at = λ w h j. frame_at _ _ (m w).0 j (l.at w (λ k. omega (arith, h k)) j);
  }
    where
      frame_at :
          (n p : ℕ) (r : Outcome A) (j : ℕ)
          → n + inp j ≡ p + owed out fail r j
          → n + (inp j + s j) ≡ p + owed (λ a. out a ⊕ s) (fail ⊕ s) r j
      frame_at n p (ok a) j e = omega arith
      frame_at n p (err x) j e = omega arith

module _ {H : Host} {live : Live H} {A B : Type 0} where
  pub Ledger-bind :
      {inp fail : Account} {mid : A → Account} {out : B → Account} {m : M H A} {f : A → M H B}
      → Ledger live inp mid fail m
      → ((a : A) → Ledger live (mid a) out fail (f a))
      → Ledger live inp out fail (m >>= f)
  unfolding ◌>>=◌
  Ledger-bind {inp} {fail} {mid} {out} {m} {f} lm lf = record {
    at = λ w h j. bind_at w (m w).0 (m w).1 h (lm.at w h) j;
  }
    where
      bind_at :
          (w : World H) (r : Outcome A) (v : World H)
          → ((j : ℕ) → inp j ≤ live.count w.keys j)
          → ((j : ℕ) → live.count v.keys j + inp j ≡ live.count w.keys j + owed mid fail r j)
          → (j : ℕ)
          → live.count (World.continue r f v).1.keys j + inp j
            ≡ live.count w.keys j + owed out fail (World.continue r f v).0 j
      bind_at w (ok a) v h e j = omega (arith, e j, (lf a).at v (λ i. omega (arith, h i, e i)) j)
      bind_at w (err x) v h e j = e j

  -- A neutral step that fails leaves what was open.
  pub Ledger-step :
      {inp : Account} {out : B → Account} {m : M H A} {f : A → M H B}
      → Keeps {H = H} (λ w. live.count w.keys) m
      → ((a : A) → Ledger live inp out inp (f a))
      → Ledger live inp out inp (m >>= f)
  Ledger-step k lf = Ledger-bind (Ledger-neutral k) lf

  -- A neutral step whose failure releases what was open.
  pub Ledger-guard :
      {inp : Account} {out : B → Account} {m : M H A} {r : M H (Unit {0})} {f : A → M H B}
      → Keeps {H = H} (λ w. live.count w.keys) m
      → Ledger live inp (λ _. nothing) nothing r
      → ((a : A) → Ledger live inp out nothing (f a))
      → Ledger live inp out nothing (or_else m r >>= f)
  Ledger-guard k lr lf = Ledger-bind (Ledger-or_else (Ledger-neutral k) lr) lf

module _ {H : Host} {live : Live H} where
  pub Ledger-open :
      {open' : H.KeyState → Outcome Signer × H.KeyState}
      → Opens live open'
      → Ledger live nothing held nothing (on_keys open')
  unfolding ◌>>=◌
  Ledger-open o = record { at = λ w h j. omega (arith, o.at w.keys j) }

  -- Opening one more while the handles of `rest` are open.
  pub Ledger-open_more :
      {rest : Account} {open' : H.KeyState → Outcome Signer × H.KeyState}
      → Opens live open'
      → Ledger live rest (λ s. rest ⊕ held s) rest (on_keys open')
  unfolding ◌>>=◌
  Ledger-open_more {rest} {open'} o = record {
    at = λ w h j. more_at _ _ (open' w.keys).0 j (o.at w.keys j);
  }
    where
      more_at :
          (n p : ℕ) (r : Outcome Signer) (j : ℕ)
          → n ≡ p + owed held nothing r j
          → n + rest j ≡ p + owed (λ s. rest ⊕ held s) rest r j
      more_at n p (ok a) j e = omega arith
      more_at n p (err x) j e = omega arith
