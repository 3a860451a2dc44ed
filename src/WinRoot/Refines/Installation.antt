-- ===== src/WinRoot/Refines/Installation.antt =====
-- An installation over CryptoAPI keeps the contract of an installation.
use local_tls.Base.{ℕ, ◌<◌, false, ◌≡◌, sym, subst, inl, inr, Option, none, some, List, length}
use local_tls.Errors.{Outcome, ok, err, wrapped}
use local_tls.Host.{Host}
use local_tls.TrustStore.Contract.{any_matches, Gains, Installs}
use local_tls.WinRoot
use local_tls.WinRoot.{CryptoApi, install_trust, verify_trust, is_trusted_sha256}
use local_tls.WinRoot.Action.{context}
use local_tls.WinRoot.Search.{Listing, Enumerates}
use local_tls.WinRoot.Verify.{Opens}
use local_tls.WinRoot.Change.{Releases}
use local_tls.WinRoot.Ends.{
  Ends, Ends-context, Ends-finally, Ends-weaken, Ends-ignore, Ends-bind, Ends-fact,
}
use local_tls.WinRoot.Edits.{
  Edits, Added, Found, Opened, Ends-open_write, Ends-find, Ends-free, Ends-close, Ends-create, Made,
}
use local_tls.WinRoot.Refines.Removal.{Here, Started, checked}

module _ {H : Host} {api : CryptoApi H} {l : Listing api} (laws : Enumerates api l)
    (opens : Opens api l) (releases : Releases api l) (edits : Edits api l) (s : List H.Bytes) where
  -- The certificate is not there yet.
  abbrev Missing : H.Bytes → H.RootState → Type 0
  Missing der r = (any_matches H (H.sha256 der) s ≡ false) × (l.anchors r ≡ s)

  added :
      (store : ℕ) (der : H.Bytes) (c : api.Context)
      → api.encoded c ≡ der
      → Ends
          (Missing der)
          (context "CertAddCertificateContextToStore" (api.add_replacing store c))
          (λ o r. Installs H (H.sha256 der) s o (l.anchors r))
  added store der c e = Ends-context _ (record {
    at = λ r p. installed (api.add_replacing store c r).0 _ p.0 (
        subst
          (λ (x : List H.Bytes).
            Added H (H.sha256 (api.encoded c)) x (api.add_replacing store c r).0
              (l.anchors (api.add_replacing store c r).1))
          p.1 (edits.added store c r));
  })
    where
      installed :
          (o : Outcome (Unit {0})) (behind : List H.Bytes)
          → any_matches H (H.sha256 der) s ≡ false
          → Added H (H.sha256 (api.encoded c)) s o behind
          → Installs H (H.sha256 der) s (wrapped "CertAddCertificateContextToStore" o) behind
      installed (ok u) behind no' gains =
          inr (no', subst (λ (x : H.Bytes). Gains H (H.sha256 x) s behind) e gains)
      installed (err x) behind no' kept = kept

  add_certificate :
      (store : ℕ) (der : H.Bytes)
      → Ends
          (Missing der)
          (WinRoot.add_certificate api store der)
          (λ o r. Installs H (H.sha256 der) s o (l.anchors r))
  unfolding WinRoot.add_certificate
  add_certificate store der =
      Ends-bind {Q = λ o r. Made api der o × Missing der r}
        (Ends-create opens edits (λ x. (any_matches H (H.sha256 der) s ≡ false) × (x ≡ s)) _ der)
        (λ e r q. q.1.1)
        λ c.
          Ends-finally {R = λ o r. Installs H (H.sha256 der) s o (l.anchors r)}
            (Ends-fact {P = Missing der} (added store der c))
            (λ o. Ends-free releases (Installs H (H.sha256 der) s o) c)

  -- An installation behind its search.
  installed :
      (store : ℕ) (der : H.Bytes) (existing : Option api.Context)
      → Ends
          (λ r. Found api (H.sha256 der) s (ok existing) × Here laws opens releases edits s r)
          (WinRoot.install_missing api store der existing)
          (λ o r. Installs H (H.sha256 der) s o (l.anchors r))
  unfolding WinRoot.install_missing
  installed store der none =
      Ends-weaken (λ r p. (sym p.0.0, p.1)) (λ o r q. q) (add_certificate store der)
  installed store der (some c) = Ends-ignore (
      Ends-weaken (λ r p. inl (sym p.0.0, p.1)) (λ o r q. q)
        (Ends-free releases (Installs H (H.sha256 der) s (ok tt)) c))

  pub install-Installs :
      (fuel : ℕ)
      → length s < fuel
      → (der : H.Bytes)
      → Ends
          (Here laws opens releases edits s)
          (install_trust api fuel der)
          (λ o r. Installs H (H.sha256 der) s o (l.anchors r))
  unfolding install_trust
  install-Installs fuel lt der =
      Ends-bind {Q = Started laws opens releases edits s} (checked laws opens releases edits s der)
        (λ e r q. q.0)
        λ u.
          Ends-bind {Q = Opened laws opens edits s} (Ends-open_write laws opens edits s)
            (λ e r q. q.0)
            λ store.
              Ends-finally {R = λ o r. Installs H (H.sha256 der) s o (l.anchors r)}
                (Ends-bind
                  {Q = λ o r. Found api (H.sha256 der) s o × Here laws opens releases edits s r}
                  (Ends-find laws opens edits s fuel _ store (H.sha256 der) lt)
                  (λ e r q. absurd q.0) (installed store der))
                (λ o. Ends-close releases (Installs H (H.sha256 der) s o) store)
