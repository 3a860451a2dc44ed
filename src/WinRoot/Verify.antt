-- ===== src/WinRoot/Verify.antt =====
-- What the answer of `VerifyTrust` says about the store.
use local_tls.Base.{
  ℕ, String, str_eq, ◌<◌, Bool, true, false, ◌≡◌, refl, sym, ap, subst, ◌∙◌, ◌↔◌, arith,
}
use local_tls.Base.{Option, none, some, List, length, if◌then◌else◌}
use local_tls.Errors.{Outcome, ok, err, wrapped}
use local_tls.Host.{Host}
use local_tls.TrustStore.{TrustState, trust_healthy, trust_absent}
use local_tls.WinRoot
use local_tls.WinRoot.{CryptoApi}
use local_tls.WinRoot.Action
use local_tls.WinRoot.Action.{State, context, ◌>>=◌}
use local_tls.WinRoot.Search.{
  Listing, Enumerates, Answers, any_matches, is_some, find_cert_by_sha256-Answers,
}

-- What the calls around an enumeration are documented to do: a store that was opened can be
-- enumerated, and neither opening it nor making a context changes a certificate.
pub record Opens {H : Host} (api : CryptoApi H) (l : Listing api) : Type 0 where
  pub usable :
      (read_only : Bool) (r : H.RootState) (store : ℕ)
      → (api.open_root read_only r).0 ≡ ok store
      → l.usable (api.open_root read_only r).1 store ≡ true
  pub opened :
      (read_only : Bool) (r : H.RootState) → l.anchors (api.open_root read_only r).1 ≡ l.anchors r
  pub created :
      (der : H.Bytes) (r : H.RootState) (store : ℕ)
      → (l.anchors (api.create_context der r).1 ≡ l.anchors r)
        × (l.usable (api.create_context der r).1 store ≡ l.usable r store)

module _ {S A B : Type 0} where
  continued :
      (o : Outcome A) (f : A → State S B) (r : S) (b : B)
      → (Action.continue o f r).0 ≡ ok b
      → (a : A) × (o ≡ ok a) × ((f a r).0 ≡ ok b)
  continued (ok a) f r b h = (a, refl, h)
  continued (err e) f r b h = cc

  -- A sequence that returned a value did so in each of its parts.
  bind_returned :
      (m : State S A) (f : A → State S B) (r : S) (b : B)
      → ((m >>= f) r).0 ≡ ok b
      → (a : A) × ((m r).0 ≡ ok a) × ((f a (m r).1).0 ≡ ok b)
  unfolding ◌>>=◌
  bind_returned m f r b h = continued (m r).0 f (m r).1 b h

module _ {S A : Type 0} where
  context_returned :
      (s : String) (f : State S A) (r : S) (a : A) → (context s f r).0 ≡ ok a → (f r).0 ≡ ok a
  unfolding ◌>>=◌
  context_returned s f r a h = unwrapped (f r).0 h
    where
      unwrapped : (o : Outcome A) → wrapped s o ≡ ok a → o ≡ ok a
      unwrapped (ok x) e = e
      unwrapped (err x) e = cc

  finally_returned :
      (g : State S (Unit {0})) (f : State S A) (r : S) (a : A)
      → (Action.finally g f r).0 ≡ ok a
      → (f r).0 ≡ ok a
  unfolding ◌>>=◌
  finally_returned g f r a h = h

pure_absent : {S : Type 0} (r : S) → (WinRoot.pure trust_absent r).0 ≡ ok trust_healthy → ⊥
unfolding ◌>>=◌
pure_absent r e = cc

module _ {H : Host} (api : CryptoApi H) where
  -- The answer behind the search by fingerprint.
  conflict_is :
      (c : Option api.Context) (r : H.RootState)
      → (WinRoot.conflict_state api c r).0 ≡ ok trust_healthy
      → ⊥
  unfolding WinRoot.conflict_state ◌>>=◌
  conflict_is none r h = cc
  conflict_is (some c) r h = cc

  found_is :
      (store : ℕ) (cn : String) (c : api.Context) (r : H.RootState) (s : TrustState)
      → (WinRoot.state_of api store cn (some c) r).0 ≡ ok s
      → s ≡ trust_healthy
  unfolding WinRoot.state_of ◌>>=◌
  found_is store cn c r s h = cc

  absent_is :
      (store : ℕ) (cn : String) (nameless : Bool) (r : H.RootState)
      → ((if nameless then WinRoot.pure trust_absent else (do
        conflict ← context "find certificate by CN" (WinRoot.find_cert_by_cn api store cn)
        WinRoot.conflict_state api conflict))
          r).0
        ≡ ok trust_healthy
      → ⊥
  absent_is store cn true r e = pure_absent r e
  absent_is store cn false r e =
      let (c, o, f) = bind_returned _ _ r trust_healthy e in conflict_is c _ f

  state_is :
      (store : ℕ) (cn : String) (c : Option api.Context) (r : H.RootState) (s : TrustState)
      → (WinRoot.state_of api store cn c r).0 ≡ ok s
      → (s ≡ trust_healthy) ↔ (is_some c ≡ true)
  unfolding WinRoot.state_of
  state_is store cn (some c) r s h = (λ _. refl, λ _. found_is store cn c r s h)
  state_is store cn none r s h =
      (λ e. absurd (absent_is store cn (str_eq cn "") r (h ∙ ap ok e)), λ e. ground arith)

module _ {H : Host} {api : CryptoApi H} {l : Listing api} where
  module _ (laws : Enumerates api l) (opens : Opens api l) (fuel : ℕ) (der : H.Bytes)
      (s : TrustState) where
    abbrev Tells : H.RootState → Type 0
    Tells r = (s ≡ trust_healthy) ↔ (any_matches H (H.sha256 der) (l.anchors r) ≡ true)

    same_answer :
        (store : ℕ) (cn : String) (existing : Option api.Context) (r r' : H.RootState)
        (o : Outcome (Option api.Context))
        → Answers api (H.sha256 der) (l.anchors r) o
        → o ≡ ok existing
        → (WinRoot.state_of api store cn existing r').0 ≡ ok s
        → Tells r
    same_answer store cn existing r r' o (answer, is, there, right) e h =
        let k = state_is api store cn existing r' s h in
        let t = same answer existing (sym is ∙ e) in
        (λ x. sym there ∙ t ∙ k.0 x, λ y. k.1 (sym t ∙ there ∙ y))
      where
        same : (x y : Option api.Context) → ok x ≡ ok y → is_some x ≡ is_some y
        same none none e = refl
        same (some c) (some d) e = refl
        same none (some d) e = cc
        same (some c) none e = cc

    with-Tells :
        (store : ℕ) (cert : api.Context) (r : H.RootState)
        → l.usable r store ≡ true
        → length (l.anchors r) < fuel
        → (WinRoot.verify_with api fuel store der cert r).0 ≡ ok s
        → Tells r
    unfolding WinRoot.verify_with
    with-Tells store cert r u lt h =
        let (existing, o, k) = bind_returned _ _ _ _ (finally_returned _ _ _ _ h) in
        same_answer store _ existing r _ _
          (find_cert_by_sha256-Answers laws fuel store (H.sha256 der) r u lt).0
          (context_returned _ _ r existing o) k

    created_still :
        (r : H.RootState) (store : ℕ)
        → (l.anchors (context "CertCreateCertificateContext" (api.create_context der) r).1
            ≡ l.anchors r)
          × (l.usable (context "CertCreateCertificateContext" (api.create_context der) r).1 store
              ≡ l.usable r store)
    unfolding ◌>>=◌
    created_still r store = opens.created der r store

    in-Tells :
        (store : ℕ) (r : H.RootState)
        → l.usable r store ≡ true
        → length (l.anchors r) < fuel
        → (WinRoot.verify_in api fuel store der r).0 ≡ ok s
        → Tells r
    unfolding WinRoot.verify_in
    in-Tells store r u lt h =
        let (cert, o, k) = bind_returned _ _ _ _ h in
        let (a, v) = created_still r store in
        subst (λ (x : List H.Bytes). (s ≡ trust_healthy) ↔ (any_matches H (H.sha256 der) x ≡ true))
          a
          (with-Tells store cert _ (v ∙ u)
            (subst (λ (x : List H.Bytes). length x < fuel) (sym a) lt) k)

    opened_still :
        (r : H.RootState) (store : ℕ)
        → (context "open Root store" (WinRoot.open_machine_root_store_read_only api) r).0 ≡ ok store
        → (l.anchors (context "open Root store" (WinRoot.open_machine_root_store_read_only api) r).1
            ≡ l.anchors r)
          × (l.usable
                (context "open Root store" (WinRoot.open_machine_root_store_read_only api) r).1
                store
              ≡ true)
    unfolding WinRoot.open_machine_root_store_read_only ◌>>=◌
    opened_still r store e = (
      opens.opened true r,
      opens.usable true r store (
          context_returned "CertOpenStore(LocalMachine\\Root read-only)" (api.open_root true) r
            store
            (context_returned "open Root store" (WinRoot.open_machine_root_store_read_only api) r
              store e)),
    )

    opened-Tells :
        (r : H.RootState)
        → length (l.anchors r) < fuel
        → ((context "open Root store" (WinRoot.open_machine_root_store_read_only api) >>= λ store.
              Action.finally (api.close_store store) (WinRoot.verify_in api fuel store der))
            r).0
          ≡ ok s
        → Tells r
    opened-Tells r lt h =
        let (store, o, k) = bind_returned _ _ _ _ h in
        let (a, u) = opened_still r store o in
        subst (λ (x : List H.Bytes). (s ≡ trust_healthy) ↔ (any_matches H (H.sha256 der) x ≡ true))
          a
          (in-Tells store _ u (subst (λ (x : List H.Bytes). length x < fuel) (sym a) lt)
            (finally_returned _ _ _ _ k))

    checked_state : (r : H.RootState) → (Action.lift (WinRoot.not_empty api der) r).1 ≡ r
    unfolding ◌>>=◌
    checked_state r = refl

    -- Where enumeration and opening do as documented, and `VerifyTrust` answers with more fuel than
    -- the store has certificates, it answers `TrustHealthy` exactly when a certificate of the store
    -- has the fingerprint of the given one.
    pub verify_trust_healthy_iff :
        (r : H.RootState)
        → length (l.anchors r) < fuel
        → (WinRoot.verify_trust api fuel der r).0 ≡ ok s
        → (s ≡ trust_healthy) ↔ (any_matches H (H.sha256 der) (l.anchors r) ≡ true)
    unfolding WinRoot.verify_trust
    verify_trust_healthy_iff r lt h =
        let (e0, o0, h0) = bind_returned _ _ _ _ h in
        let c = checked_state r in
        subst Tells c
          (opened-Tells _ (subst (λ (x : H.RootState). length (l.anchors x) < fuel) (sym c) lt) h0)
