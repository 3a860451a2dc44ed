-- ===== src/WinRoot/Change.antt =====
-- What installing and removing do where there is nothing to change.
use local_tls.Base.{
  ℕ, ◌<◌, true, false, ◌≡◌, refl, sym, ap, subst, ◌∙◌, Option, none, some, List, length,
}
use local_tls.Errors.{Error, ok, err, errors_is, trust_anchor_not_found}
use local_tls.Host.{Host}
use local_tls.WinRoot
use local_tls.WinRoot.{CryptoApi}
use local_tls.WinRoot.Action.{◌>>=◌}
use local_tls.WinRoot.Search.{
  Listing, Enumerates, Answers, any_matches, is_some, find_cert_by_sha256-Answers,
}
use local_tls.WinRoot.Verify.{Opens}

-- Closing a store and freeing a context change no certificate.
pub record Releases {H : Host} (api : CryptoApi H) (l : Listing api) : Type 0 where
  pub closed : (store : ℕ) (r : H.RootState) → l.anchors (api.close_store store r).1 ≡ l.anchors r
  pub freed : (c : api.Context) (r : H.RootState) → l.anchors (api.free_context c r).1 ≡ l.anchors r

module _ {H : Host} {api : CryptoApi H} {l : Listing api} (laws : Enumerates api l)
    (opens : Opens api l) (releases : Releases api l) (fuel : ℕ) where
  -- The search in a store that was just opened.
  searched :
      (fp : List ℕ) (r : H.RootState) (store : ℕ)
      → (api.open_root false r).0 ≡ ok store
      → length (l.anchors r) < fuel
      → Answers api fp
          (l.anchors r)
          (WinRoot.find_cert_by_sha256 api fuel store fp (api.open_root false r).1).0
        × (l.anchors (WinRoot.find_cert_by_sha256 api fuel store fp (api.open_root false r).1).1
            ≡ l.anchors r)
  searched fp r store o lt =
      let a = opens.opened false r in
      let (answers, kept) =
        find_cert_by_sha256-Answers laws fuel store fp (api.open_root false r).1
          (opens.usable false r store o)
          (subst (λ (x : List H.Bytes). length x < fuel) (sym a) lt) in
      (
        subst
            (λ (x : List H.Bytes).
              Answers api fp x
                (WinRoot.find_cert_by_sha256 api fuel store fp (api.open_root false r).1).0)
            a answers,
        kept ∙ a,
      )

  no_context : (answer : Option api.Context) → is_some answer ≡ false → answer ≡ none
  no_context none e = refl
  no_context (some c) e = cc

  a_context :
      (answer : Option api.Context) → is_some answer ≡ true → (c : api.Context) × (answer ≡ some c)
  a_context none e = cc
  a_context (some c) e = (c, refl)

  -- Where CryptoAPI does as documented, the fuel is more than the number of certificates, the store
  -- can be opened and no certificate of it has the fingerprint, `RemoveTrustBySHA256` returns an
  -- error that is `ErrTrustAnchorNotFound`, and every certificate is still there.
  pub remove_absent :
      (fp : List ℕ) (r : H.RootState) (store : ℕ)
      → (api.open_root false r).0 ≡ ok store
      → length (l.anchors r) < fuel
      → any_matches H fp (l.anchors r) ≡ false
      → ((e : Error) × ((WinRoot.remove_trust_by_sha256 api fuel fp r).0 ≡ err e)
          × (errors_is e trust_anchor_not_found ≡ true))
        × (l.anchors (WinRoot.remove_trust_by_sha256 api fuel fp r).1 ≡ l.anchors r)
  unfolding WinRoot.remove_trust_by_sha256 WinRoot.open_machine_root_store ◌>>=◌
  remove_absent fp r store o lt no' =
      let ((answer, is, there, right), kept) = searched fp r store o lt in
      let f = is ∙ ap ok (no_context answer (there ∙ no')) in
      rw o rw f ((_, refl, refl), releases.closed store _ ∙ kept)

  -- `InstallTrust` is idempotent: where CryptoAPI does as documented, the fuel is more than the
  -- number of certificates, the store can be opened, the given bytes are not empty and a certificate
  -- has the fingerprint of the given one, it succeeds, and the certificates are as before.
  pub install_present :
      (der : H.Bytes) (r : H.RootState) (store : ℕ)
      → H.is_empty der ≡ false
      → (api.open_root false r).0 ≡ ok store
      → length (l.anchors r) < fuel
      → any_matches H (H.sha256 der) (l.anchors r) ≡ true
      → ((WinRoot.install_trust api fuel der r).0 ≡ ok tt)
        × (l.anchors (WinRoot.install_trust api fuel der r).1 ≡ l.anchors r)
  unfolding WinRoot.install_trust WinRoot.open_machine_root_store ◌>>=◌
  install_present der r store full o lt yes' =
      let ((answer, is, there, right), kept) = searched (H.sha256 der) r store o lt in
      let (c, some_c) = a_context answer (there ∙ yes') in
      let f = is ∙ ap ok some_c in
      rw full rw o rw f (refl, releases.closed store _ ∙ releases.freed c _ ∙ kept)
