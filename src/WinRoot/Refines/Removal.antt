-- ===== src/WinRoot/Refines/Removal.antt =====
-- A removal over CryptoAPI keeps the contract of a removal.
use local_tls.Base.{
  ℕ, ◌<◌, String, Bool, true, false, ◌≡◌, refl, sym, subst, ◌∙◌, Option, none, some, List, length,
  if◌then◌else◌,
}
use local_tls.Errors.{Error, Outcome, ok, err, wrapped, errors_is, trust_anchor_not_found}
use local_tls.Host.{Host}
use local_tls.TrustStore.Contract.{any_matches, Removes}
use local_tls.WinRoot
use local_tls.WinRoot.{CryptoApi, install_trust, remove_trust, remove_trust_by_sha256}
use local_tls.WinRoot.Action.{context, finally, ◌>>=◌}
use local_tls.WinRoot.Search.{Listing, Enumerates}
use local_tls.WinRoot.Verify.{Opens}
use local_tls.WinRoot.Change.{Releases}
use local_tls.WinRoot.Ends.{Ends, Ends-raise, Ends-lift, Ends-context, Ends-finally, Ends-bind}
use local_tls.WinRoot.Edits.{Edits, Deleted, Found, Opened, Ends-open_write, Ends-find, Ends-close}

module _ {H : Host} {api : CryptoApi H} {l : Listing api} (laws : Enumerates api l)
    (opens : Opens api l) (releases : Releases api l) (edits : Edits api l) (s : List H.Bytes) where
  abbrev pub Here : H.RootState → Type 0
  Here r = l.anchors r ≡ s

  -- A removal behind its search.
  deleted :
      (fp : List ℕ) (missing : String) (existing : Option api.Context)
      → Ends
          (λ r. Found api fp s (ok existing) × Here r)
          (WinRoot.delete_found api missing existing)
          (λ o r. Removes H fp s o (l.anchors r))
  unfolding WinRoot.delete_found
  deleted fp missing none = Ends-raise _ (λ r p. (p.1, λ e. sym p.0.0))
  deleted fp missing (some c) = Ends-context _ (record {
    at = λ r p.
        removed (api.delete_from_store c r).0 (l.anchors (api.delete_from_store c r).1)
          (p.0.1 c refl)
          (subst
            (λ (x : List H.Bytes).
              Deleted H (H.sha256 (api.encoded c)) x (api.delete_from_store c r).0
                (l.anchors (api.delete_from_store c r).1))
            p.1 (edits.deleted c r));
  })
    where
      removed :
          (o : Outcome (Unit {0})) (behind : List H.Bytes)
          → H.sha256 (api.encoded c) ≡ fp
          → Deleted H (H.sha256 (api.encoded c)) s o behind
          → Removes H fp s (wrapped "CertDeleteCertificateFromStore" o) behind
      removed (ok u) behind e (front, b, back, split, same, left) =
          (front, b, back, split, same ∙ e, left)
      removed (err x) behind e (kept, own) = (kept, λ is. cc)

  -- The state before a call of the trust store was made, and an error that is not the package's.
  abbrev pub Started : {A : Type 0} → Outcome A → H.RootState → Type 0
  Started (ok a) r = Here r
  Started (err e) r = Here r × (errors_is e trust_anchor_not_found ≡ false)

  pub checked : (der : H.Bytes) → Ends Here (WinRoot.lift (WinRoot.not_empty api der)) Started
  checked der = Ends-lift _ (λ r p. started (H.is_empty der) r p)
    where
      started :
          (b : Bool) (r : H.RootState)
          → Here r
          → Started (if b then err (WinRoot.text "empty certificate DER") else ok (tt {0})) r
      started true r p = (p, refl)
      started false r p = p

  not_missing :
      (fp : List ℕ) (e : Error)
      → errors_is e trust_anchor_not_found ≡ false
      → errors_is e trust_anchor_not_found ≡ true
      → any_matches H fp s ≡ false
  not_missing fp e f t = cc

  module _ (fuel : ℕ) (lt : length s < fuel) where
    -- A removal of a fingerprint in a store that was opened.
    removed_in :
        (fp : List ℕ) (message missing : String) (store : ℕ)
        → Ends
            (Opened laws opens edits s (ok store))
            (finally (api.close_store store) (do
              existing ← context message (WinRoot.find_cert_by_sha256 api fuel store fp)
              WinRoot.delete_found api missing existing))
            (λ o r. Removes H fp s o (l.anchors r))
    removed_in fp message missing store =
        Ends-finally {R = λ o r. Removes H fp s o (l.anchors r)}
          (Ends-bind {Q = λ o r. Found api fp s o × Here r}
            (Ends-find laws opens edits s fuel message store fp lt) (λ e r q. absurd q.0)
            (deleted fp missing))
          (λ o. Ends-close releases (Removes H fp s o) store)

    pub remove_by_sha256-Removes :
        (fp : List ℕ)
        → Ends Here (remove_trust_by_sha256 api fuel fp) (λ o r. Removes H fp s o (l.anchors r))
    unfolding remove_trust_by_sha256
    remove_by_sha256-Removes fp =
        Ends-bind {Q = Opened laws opens edits s} (Ends-open_write laws opens edits s)
          (λ e r q. (q.0, not_missing fp e q.1)) (removed_in fp _ _)

    pub remove-Removes :
        (der : H.Bytes)
        → Ends Here (remove_trust api fuel der) (λ o r. Removes H (H.sha256 der) s o (l.anchors r))
    unfolding remove_trust
    remove-Removes der =
        Ends-bind {Q = Started} (checked der) (λ e r q. (q.0, not_missing (H.sha256 der) e q.1))
          λ u.
            Ends-bind {Q = Opened laws opens edits s} (Ends-open_write laws opens edits s)
              (λ e r q. (q.0, not_missing (H.sha256 der) e q.1)) (removed_in (H.sha256 der) _ _)
