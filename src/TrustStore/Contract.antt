-- ===== src/TrustStore/Contract.antt =====
-- The contract of the trust store over the list of anchors alone: it knows no store handles, no
-- certificate contexts and no enumeration.
use local_tls.Base.{ℕ, Bool, true, false, ◌||◌, ◌≡◌, ◌↔◌, ◌⊎◌, List, [], ◌∷◌, ◌++◌, bytes_eq}
use local_tls.Errors.{Outcome, ok, err, errors_is, trust_anchor_not_found}
use local_tls.Host.{Host}
use local_tls.TrustStore.{TrustStore, TrustState, trust_healthy}

-- Is there a certificate with this fingerprint?
abbrev pub any_matches : (H : Host) → List ℕ → List H.Bytes → Bool
any_matches H fp [] = false
any_matches H fp (b ∷ bs) = bytes_eq (H.sha256 b) fp || any_matches H fp bs

-- A certificate with the fingerprint `fp` is there, and no fingerprint is new but this one.
abbrev pub Gains : (H : Host) → List ℕ → List H.Bytes → List H.Bytes → Type 0
Gains H fp before behind =
    (any_matches H fp behind ≡ true)
    × ((other : List ℕ)
        → any_matches H other behind ≡ true
        → (fp ≡ other) ⊎ (any_matches H other before ≡ true))

-- One certificate with the fingerprint `fp` is gone, and all others are there as before.
abbrev pub Loses : (H : Host) → List ℕ → List H.Bytes → List H.Bytes → Type 0
Loses H fp before behind =
    (front : List H.Bytes) × (b : H.Bytes) × (back : List H.Bytes) × (before ≡ front ++ (b ∷ back))
    × (H.sha256 b ≡ fp)
    × (behind ≡ front ++ back)

-- An installation changes nothing where the certificate is there, and adds it otherwise; a failure
-- changes nothing.
abbrev pub Installs :
    (H : Host) → List ℕ → List H.Bytes → Outcome (Unit {0}) → List H.Bytes → Type 0
Installs H fp before (ok u) behind =
    ((any_matches H fp before ≡ true) × (behind ≡ before))
    ⊎ ((any_matches H fp before ≡ false) × Gains H fp before behind)
Installs H fp before (err e) behind = behind ≡ before

-- A removal takes away one certificate with the fingerprint; a failure changes nothing, and is
-- `ErrTrustAnchorNotFound` only where no certificate has the fingerprint.
abbrev pub Removes : (H : Host) → List ℕ → List H.Bytes → Outcome (Unit {0}) → List H.Bytes → Type 0
Removes H fp before (ok u) behind = Loses H fp before behind
Removes H fp before (err e) behind =
    (behind ≡ before)
    × (errors_is e trust_anchor_not_found ≡ true → any_matches H fp before ≡ false)

-- A verification changes nothing, and answers `TrustHealthy` exactly where the certificate is there.
abbrev pub Verifies :
    (H : Host) → List ℕ → List H.Bytes → Outcome TrustState → List H.Bytes → Type 0
Verifies H fp before (ok state) behind =
    (behind ≡ before) × ((state ≡ trust_healthy) ↔ (any_matches H fp before ≡ true))
Verifies H fp before (err e) behind = behind ≡ before

abbrev pub Tells : (H : Host) → List ℕ → List H.Bytes → Outcome Bool → List H.Bytes → Type 0
Tells H fp before (ok b) behind = (behind ≡ before) × (b ≡ any_matches H fp before)
Tells H fp before (err e) behind = behind ≡ before

-- A trust store that keeps the contract from every state that `Fits`.
pub record IsTrustStore {H : Host} (anchors : H.RootState → List H.Bytes)
    (Fits : H.RootState → Type 0) (ts : TrustStore H) : Type 0 where
  pub install :
      (der : H.Bytes) (r : H.RootState)
      → Fits r
      → Installs H
          (H.sha256 der)
          (anchors r)
          (ts.install_trust der r).0
          (anchors (ts.install_trust der r).1)
  pub ensure :
      (der : H.Bytes) (r : H.RootState)
      → Fits r
      → Installs H
          (H.sha256 der)
          (anchors r)
          (ts.ensure_trusted der r).0
          (anchors (ts.ensure_trusted der r).1)
  pub remove :
      (der : H.Bytes) (r : H.RootState)
      → Fits r
      → Removes H
          (H.sha256 der)
          (anchors r)
          (ts.remove_trust der r).0
          (anchors (ts.remove_trust der r).1)
  pub remove_by_sha256 :
      (fp : List ℕ) (r : H.RootState)
      → Fits r
      → Removes H fp
          (anchors r)
          (ts.remove_trust_by_sha256 fp r).0
          (anchors (ts.remove_trust_by_sha256 fp r).1)
  pub verify :
      (der : H.Bytes) (r : H.RootState)
      → Fits r
      → Verifies H
          (H.sha256 der)
          (anchors r)
          (ts.verify_trust der r).0
          (anchors (ts.verify_trust der r).1)
  pub is_trusted :
      (fp : List ℕ) (r : H.RootState)
      → Fits r
      → Tells H fp (anchors r) (ts.is_trusted_sha256 fp r).0 (anchors (ts.is_trusted_sha256 fp r).1)
