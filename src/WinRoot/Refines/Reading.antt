-- ===== src/WinRoot/Refines/Reading.antt =====
-- Verification and the presence check over CryptoAPI keep their contracts.
use local_tls.Base.{
  ℕ, ◌<◌, String, str_eq, true, false, ◌≡◌, ◌≢◌, refl, sym, ◌∙◌, Option, none, some, List, length,
}
use local_tls.Errors.{ok}
use local_tls.Host.{Host}
use local_tls.TrustStore.{TrustState, trust_healthy, trust_absent, trust_conflict}
use local_tls.TrustStore.Contract.{any_matches, Verifies, Tells}
use local_tls.WinRoot
use local_tls.WinRoot.{CryptoApi, install_trust, verify_trust, is_trusted_sha256}
use local_tls.WinRoot.Action.{context}
use local_tls.WinRoot.Search.{Listing, Enumerates}
use local_tls.WinRoot.Verify.{Opens}
use local_tls.WinRoot.Change.{Releases}
use local_tls.WinRoot.Ends.{
  Ends, Ends-pure, Ends-lift, Ends-context, Ends-finally, Ends-weaken, Ends-ignore, Ends-bind,
  Ends-attempt, Ends-if,
}
use local_tls.WinRoot.Edits.{
  Edits, Found, Opened, Ends-open_read, Ends-find, Ends-free, Ends-close, Ends-search,
}
use local_tls.WinRoot.Refines.Removal.{Here, Started, checked}

module _ {H : Host} {api : CryptoApi H} {l : Listing api} (laws : Enumerates api l)
    (opens : Opens api l) (releases : Releases api l) (edits : Edits api l) (s : List H.Bytes) where
  -- An answer that is not `TrustHealthy`, where no certificate has the fingerprint.
  unhealthy :
      (fp : List ℕ) (state : TrustState) (r : H.RootState)
      → state ≢ trust_healthy
      → (any_matches H fp s ≡ false) × (l.anchors r ≡ s)
      → Verifies H fp s (ok state) (l.anchors r)
  unhealthy fp state r d (no', kept) = (kept, (λ e. absurd (d e), λ t. cc))

  by_name :
      (fp : List ℕ) (store : ℕ) (cn : String)
      → Ends
          (λ r. (any_matches H fp s ≡ false) × (l.anchors r ≡ s))
          (context "find certificate by CN" (WinRoot.find_cert_by_cn api store cn))
          (λ _ r. (any_matches H fp s ≡ false) × (l.anchors r ≡ s))
  unfolding WinRoot.find_cert_by_cn
  by_name fp store cn = Ends-context _ (
      Ends-bind {Q = λ _ r. (any_matches H fp s ≡ false) × (l.anchors r ≡ s)}
        (Ends-attempt (record { at = λ r p. (p.0, edits.subject_still store cn r ∙ p.1) }))
        (λ e r q. q) (λ o. Ends-lift _ (λ r q. q)))

  conflict :
      (fp : List ℕ) (c : Option api.Context)
      → Ends
          (λ r. (any_matches H fp s ≡ false) × (l.anchors r ≡ s))
          (WinRoot.conflict_state api c)
          (λ o r. Verifies H fp s o (l.anchors r))
  unfolding WinRoot.conflict_state
  conflict fp none = Ends-pure _ (λ r p. unhealthy fp trust_absent r (λ e. cc) p)
  conflict fp (some c) =
      Ends-bind {Q = λ _ r. (any_matches H fp s ≡ false) × (l.anchors r ≡ s)}
        (Ends-ignore (Ends-free releases (λ x. (any_matches H fp s ≡ false) × (x ≡ s)) c))
        (λ e r q. q.1) (λ u. Ends-pure _ (λ r p. unhealthy fp trust_conflict r (λ e. cc) p))

  answered :
      (fp : List ℕ) (store : ℕ) (cn : String) (existing : Option api.Context)
      → Ends
          (λ r. Found api fp s (ok existing) × Here laws opens releases edits s r)
          (WinRoot.state_of api store cn existing)
          (λ o r. Verifies H fp s o (l.anchors r))
  unfolding WinRoot.state_of
  answered fp store cn (some c) =
      Ends-bind {Q = λ _ r. (any_matches H fp s ≡ true) × (l.anchors r ≡ s)}
        (Ends-ignore (
          Ends-weaken (λ r p. (sym p.0.0, p.1)) (λ o r q. q)
            (Ends-free releases (λ x. (any_matches H fp s ≡ true) × (x ≡ s)) c)))
        (λ e r q. q.1) (λ u. Ends-pure _ (λ r p. (p.1, (λ _. p.0, λ _. refl))))
  answered fp store cn none =
      Ends-weaken (λ r p. (sym p.0.0, p.1)) (λ o r q. q)
        (Ends-if (str_eq cn "") (λ _. Ends-pure _ (λ r p. unhealthy fp trust_absent r (λ e. cc) p))
          (λ _.
            Ends-bind {Q = λ _ r. (any_matches H fp s ≡ false) × (l.anchors r ≡ s)}
              (by_name fp store cn) (λ e r q. q.1) (conflict fp)))

  -- Making a context leaves the store open.
  made_open :
      (der : H.Bytes) (store : ℕ)
      → Ends
          (Opened laws opens edits s (ok store))
          (context "CertCreateCertificateContext" (api.create_context der))
          (λ _ r. (l.anchors r ≡ s) × (l.usable r store ≡ true))
  made_open der store = Ends-context _ (record {
    at = λ r p. ((opens.created der r store).0 ∙ p.0, (opens.created der r store).1 ∙ p.1);
  })

  module _ (fuel : ℕ) (lt : length s < fuel) where
    verified_with :
        (store : ℕ) (der : H.Bytes) (c : api.Context)
        → Ends
            (λ r. (l.anchors r ≡ s) × (l.usable r store ≡ true))
            (WinRoot.verify_with api fuel store der c)
            (λ o r. Verifies H (H.sha256 der) s o (l.anchors r))
    unfolding WinRoot.verify_with
    verified_with store der c =
        Ends-finally {R = λ o r. Verifies H (H.sha256 der) s o (l.anchors r)}
          (Ends-bind {Q = λ o r. Found api (H.sha256 der) s o × Here laws opens releases edits s r}
            (Ends-find laws opens edits s fuel _ store (H.sha256 der) lt) (λ e r q. absurd q.0)
            (answered (H.sha256 der) store _))
          (λ o. Ends-free releases (Verifies H (H.sha256 der) s o) c)

    pub verify-Verifies :
        (der : H.Bytes)
        → Ends
            (Here laws opens releases edits s)
            (verify_trust api fuel der)
            (λ o r. Verifies H (H.sha256 der) s o (l.anchors r))
    unfolding verify_trust WinRoot.verify_in
    verify-Verifies der =
        Ends-bind {Q = Started laws opens releases edits s}
          (checked laws opens releases edits s der) (λ e r q. q.0)
          λ u.
            Ends-bind {Q = Opened laws opens edits s} (Ends-open_read laws opens edits s _)
              (λ e r q. q.0)
              λ store.
                Ends-finally {R = λ o r. Verifies H (H.sha256 der) s o (l.anchors r)}
                  (Ends-bind {Q = λ _ r. (l.anchors r ≡ s) × (l.usable r store ≡ true)}
                    (made_open der store) (λ e r q. q.0) (verified_with store der))
                  (λ o. Ends-close releases (Verifies H (H.sha256 der) s o) store)

    told :
        (fp : List ℕ) (existing : Option api.Context)
        → Ends
            (λ r. Found api fp s (ok existing) × Here laws opens releases edits s r)
            (WinRoot.found_state api existing)
            (λ o r. Tells H fp s o (l.anchors r))
    unfolding WinRoot.found_state
    told fp none = Ends-pure _ (λ r p. (p.1, p.0.0))
    told fp (some c) =
        Ends-bind {Q = λ _ r. (any_matches H fp s ≡ true) × (l.anchors r ≡ s)}
          (Ends-ignore (
            Ends-weaken (λ r p. (sym p.0.0, p.1)) (λ o r q. q)
              (Ends-free releases (λ x. (any_matches H fp s ≡ true) × (x ≡ s)) c)))
          (λ e r q. q.1) (λ u. Ends-pure _ (λ r p. (p.1, sym p.0)))

    pub is_trusted-Tells :
        (fp : List ℕ)
        → Ends
            (Here laws opens releases edits s)
            (is_trusted_sha256 api fuel fp)
            (λ o r. Tells H fp s o (l.anchors r))
    unfolding is_trusted_sha256
    is_trusted-Tells fp =
        Ends-bind {Q = Opened laws opens edits s} (Ends-open_read laws opens edits s _)
          (λ e r q. q.0)
          λ store.
            Ends-finally {R = λ o r. Tells H fp s o (l.anchors r)}
              (Ends-bind {Q = λ o r. Found api fp s o × Here laws opens releases edits s r}
                (Ends-search laws opens edits s fuel store fp lt) (λ e r q. absurd q.0) (told fp))
              (λ o. Ends-close releases (Tells H fp s o) store)
