-- ===== src/WinRoot.antt =====
-- truststore_windows.go: LocalMachine\Root over CryptoAPI, whose calls are parameters.
pub mod Action
pub mod Search
pub mod Verify
pub mod Change
pub mod Ends
pub mod Edits
pub mod Refines
use local_tls.Base.{ℕ, zero, suc, String, str_eq, Bool, true, false, ◌||◌, ◌==◌, ◌%◌}
use local_tls.Base.{Option, none, some, List, bytes_eq, if◌then◌else◌}
use local_tls.Errors.{Error, Outcome, ok, err, errno, text, sentinel, wrap, trust_anchor_not_found}
use local_tls.Host.{Host}
use local_tls.TrustStore.{
  TrustStore, TrustState, trust_healthy, trust_absent, trust_conflict, OnRoot,
}
use local_tls.WinRoot.Action.{pure, raise, lift, context, attempt, finally, ignore, ◌>>=◌, ◌>>◌}

-- The calls of golang.org/x/sys/windows. A context is a `*CertContext`; an enumeration frees the
-- context that it is handed, and a deletion the one that it deletes.
pub record CryptoApi (H : Host) : Type 1 where
  pub Context : Type 0
  pub encoded : Context → H.Bytes
  -- `CertOpenStore` of LocalMachine\Root, read-only or not.
  pub open_root : Bool → OnRoot H ℕ
  pub close_store : ℕ → OnRoot H (Unit {0})
  pub create_context : H.Bytes → OnRoot H Context
  pub free_context : Context → OnRoot H (Unit {0})
  pub add_replacing : ℕ → Context → OnRoot H (Unit {0})
  pub delete_from_store : Context → OnRoot H (Unit {0})
  pub enumerate : ℕ → Option Context → OnRoot H (Option Context)
  pub find_by_subject : ℕ → String → OnRoot H (Option Context)
  -- `CertGetNameString`, the size that it asks for and the text.
  pub name_size : Context → ℕ
  pub name_string : Context → String
  -- `bytes.Contains([]byte(err.Error()), …)`.
  pub mentions : Error → String → Bool

module _ {H : Host} (api : CryptoApi H) where
  unfoldable pub is_enum_end : Error → Bool
  is_enum_end (errno e) = e % 65536 == 0x2004 || e == 0x80092004
  is_enum_end e = api.mentions e "0x80092004"

  unfoldable pub is_cert_not_found : Error → Bool
  is_cert_not_found (errno e) = e % 65536 == 0x2004 || e == 0x80092004
  is_cert_not_found e =
      api.mentions e "0x80092004" || api.mentions e "Cannot find object or property"

  unfoldable pub get_cert_common_name : api.Context → String
  get_cert_common_name cert = if api.name_size cert == 0 then "" else api.name_string cert

  -- `return nil, nil` where the search ended, the error otherwise.
  abbrev pub or_absent :
      (Error → Bool) → Outcome (Option api.Context) → Outcome (Option api.Context)
  or_absent ended (ok c) = ok c
  or_absent ended (err e) = if ended e then ok none else err e

  -- One turn of the loop of `findCertBySHA256`, with the rest of the loop.
  examine :
      List ℕ
      → (api.Context → OnRoot H (Option api.Context))
      → Option api.Context
      → OnRoot H (Option api.Context)
  examine fp rest none = pure none
  examine fp rest (some c) =
      if bytes_eq (H.sha256 (api.encoded c)) fp then pure (some c) else rest c

  -- The loop on fuel: one unit for each certificate that is looked at, and one for the end.
  unfoldable pub find_from : ℕ → ℕ → List ℕ → Option api.Context → OnRoot H (Option api.Context)
  unfolding examine
  find_from zero store fp prev = raise (text "out of fuel")
  find_from (suc fuel) store fp prev = do
    r ← attempt (api.enumerate store prev)
    next ← lift (or_absent is_enum_end r)
    examine fp (λ c. find_from fuel store fp (some c)) next

  -- `findCertByCN`.
  unfoldable pub find_cert_by_cn : ℕ → String → OnRoot H (Option api.Context)
  find_cert_by_cn store cn = do
    r ← attempt (api.find_by_subject store cn)
    lift (or_absent is_cert_not_found r)

  unfoldable pub open_machine_root_store : OnRoot H ℕ
  open_machine_root_store = context "CertOpenStore(LocalMachine\\Root)" (api.open_root false)

  unfoldable pub open_machine_root_store_read_only : OnRoot H ℕ
  open_machine_root_store_read_only =
      context "CertOpenStore(LocalMachine\\Root read-only)" (api.open_root true)

  -- `if len(certificateDER) == 0`.
  abbrev pub not_empty : H.Bytes → Outcome (Unit {0})
  not_empty der = if H.is_empty der then err (text "empty certificate DER") else ok tt

  -- What a removal does with the certificate that was found, or not.
  delete_found : String → Option api.Context → OnRoot H (Unit {0})
  delete_found missing none = raise (wrap missing (sentinel trust_anchor_not_found))
  delete_found missing (some c) = context "CertDeleteCertificateFromStore" (api.delete_from_store c)

  -- `InstallTrust` where no certificate with the fingerprint is there.
  add_certificate : ℕ → H.Bytes → OnRoot H (Unit {0})
  add_certificate store der = do
    cert ← context "CertCreateCertificateContext" (api.create_context der)
    finally (api.free_context cert)
        (context "CertAddCertificateContextToStore" (api.add_replacing store cert))

  install_missing : ℕ → H.Bytes → Option api.Context → OnRoot H (Unit {0})
  unfolding add_certificate
  install_missing store der none = add_certificate store der
  install_missing store der (some c) = ignore (api.free_context c)

  -- `VerifyTrust` behind the search by fingerprint.
  conflict_state : Option api.Context → OnRoot H TrustState
  conflict_state none = pure trust_absent
  conflict_state (some c) = do ignore (api.free_context c); pure trust_conflict

  state_of : ℕ → String → Option api.Context → OnRoot H TrustState
  unfolding conflict_state
  state_of store cn (some c) = do ignore (api.free_context c); pure trust_healthy
  state_of store cn none = if str_eq cn "" then pure trust_absent else (do
    conflict ← context "find certificate by CN" (find_cert_by_cn store cn)
    conflict_state conflict)

  found_state : Option api.Context → OnRoot H Bool
  found_state none = pure false
  found_state (some c) = do ignore (api.free_context c); pure true

  module _ (fuel : ℕ) where
    unfoldable pub find_cert_by_sha256 : ℕ → List ℕ → OnRoot H (Option api.Context)
    find_cert_by_sha256 store fp = find_from fuel store fp none

    unfoldable pub install_trust : H.Bytes → OnRoot H (Unit {0})
    unfolding install_missing
    install_trust der = do
      lift (not_empty der)
      store ← open_machine_root_store
      finally (api.close_store store) (do
        existing ← context "find existing certificate" (find_cert_by_sha256 store (H.sha256 der))
        install_missing store der existing)

    unfoldable pub remove_trust : H.Bytes → OnRoot H (Unit {0})
    unfolding delete_found
    remove_trust der = do
      lift (not_empty der)
      store ← open_machine_root_store
      finally (api.close_store store) (do
        existing ← context "find certificate to remove" (find_cert_by_sha256 store (H.sha256 der))
        delete_found "" existing)

    unfoldable pub remove_trust_by_sha256 : List ℕ → OnRoot H (Unit {0})
    unfolding delete_found
    remove_trust_by_sha256 fp = do
      store ← open_machine_root_store
      finally (api.close_store store) (do
        existing ← context "find certificate by SHA-256" (find_cert_by_sha256 store fp)
        delete_found "certificate not found in LocalMachine\\Root" existing)

    -- `VerifyTrust` with the certificate's context, and with the open store.
    verify_with : ℕ → H.Bytes → api.Context → OnRoot H TrustState
    unfolding state_of
    verify_with store der cert = finally (api.free_context cert) (do
      existing ← context "find certificate by SHA-256" (find_cert_by_sha256 store (H.sha256 der))
      state_of store (get_cert_common_name cert) existing)

    verify_in : ℕ → H.Bytes → OnRoot H TrustState
    unfolding verify_with
    verify_in store der = do
      cert ← context "CertCreateCertificateContext" (api.create_context der)
      verify_with store der cert

    unfoldable pub verify_trust : H.Bytes → OnRoot H TrustState
    unfolding verify_in
    verify_trust der = do
      lift (not_empty der)
      store ← context "open Root store" open_machine_root_store_read_only
      finally (api.close_store store) (verify_in store der)

    unfoldable pub is_trusted_sha256 : List ℕ → OnRoot H Bool
    unfolding found_state
    is_trusted_sha256 fp = do
      store ← context "open Root store" open_machine_root_store_read_only
      finally (api.close_store store)
          (do existing ← find_cert_by_sha256 store fp; found_state existing)

    -- `platformTrustStore`; `EnsureTrusted` is `InstallTrust`.
    abbrev pub windows_trust_store : TrustStore H
    windows_trust_store = record {
      install_trust = install_trust;
      remove_trust = remove_trust;
      remove_trust_by_sha256 = remove_trust_by_sha256;
      verify_trust = verify_trust;
      is_trusted_sha256 = is_trusted_sha256;
      ensure_trusted = install_trust;
    }
