-- ===== src/Smoke.antt =====
-- smoke_windows.go: provisioning and cleanup of the smoke-test material under test key names.
pub mod Preflight
pub mod Isolated
pub mod Balance
pub mod Reports
use local_tls.Base.{
  ℕ, String, Bool, true, false, some, List, [], ◌∷◌, ◌++◌, starts_with, if◌then◌else◌,
}
use local_tls.Errors.{
  Error, Outcome, ok, err, text, wrap, errors_is, key_not_found, trust_anchor_not_found,
}
use local_tls.Host.{Host, FilePath, Signer}
use local_tls.Identity.{smoke_key_namespace, smoke_ca_key_name, smoke_server_key_name, ca_cert_file}
use local_tls.World.{M, pure, raise, lift, gets, attempt, on_keys, on_root, ◌>>=◌, ◌>>◌}
use local_tls.Os.{remove_all, join}
use local_tls.Runes.{Runes}
use local_tls.Fingerprint.{parse_sha256_fingerprint}
use local_tls.Files.{file_exists}
use local_tls.KeyStore.{OnKeys, MachineKeyStore, Windowscng, close_signer}
use local_tls.TestKeys.{test_create_key, test_open_key, test_delete_key}
use local_tls.TrustStore.{TrustStore, TrustState}
use local_tls.Material.{Material}
use local_tls.Provision.{provision_with_key_store}

abbrev pub validate_smoke_key_name : String → Outcome (Unit {0})
validate_smoke_key_name name =
    if starts_with name smoke_key_namespace
    then ok tt
    else err (text "smoke key name must start with \"Keppin.Test.Smoke.\"")

abbrev pub inconsistent_smoke : Error
inconsistent_smoke = text "inconsistent smoke state: CNG key exists but CA certificate is missing"

-- The error of the close is formatted with `%v` and is not wrapped.
abbrev pub with_close_error : Outcome (Unit {0}) → Error
with_close_error (ok u) = inconsistent_smoke
with_close_error (err e) = wrap "close probe signer" inconsistent_smoke

abbrev pub append_unless_absent :
    {A : Type 0} → (Error → Bool) → List Error → String → Outcome A → List Error
append_unless_absent absent errs op (ok a) = errs
append_unless_absent absent errs op (err e) = if absent e then errs else errs ++ (wrap op e ∷ [])

abbrev pub append_any : {A : Type 0} → List Error → String → Outcome A → List Error
append_any errs op (ok a) = errs
append_any errs op (err e) = errs ++ (wrap op e ∷ [])

module _ {H : Host} where
  -- The classes of the probe's outcome.
  preflight_probed : Outcome Signer → M H (Unit {0})
  preflight_probed (err e) =
      if errors_is e key_not_found
      then pure tt
      else raise (wrap "open smoke CA key during preflight" e)
  preflight_probed (ok signer) = do r ← attempt (close_signer signer); raise (with_close_error r)

  -- Open, never create.
  preflight_probe : (String → OnKeys H Signer) → M H (Unit {0})
  unfolding preflight_probed
  preflight_probe open' = do
    r ← attempt (on_keys {H = H} (open' smoke_ca_key_name))
    preflight_probed r

  unfoldable pub preflight_smoke_state : FilePath → (String → OnKeys H Signer) → M H (Unit {0})
  unfolding preflight_probe
  preflight_smoke_state ca_path open' = do
    there ← file_exists ca_path
    if there then pure tt else preflight_probe open'

  -- The loop over the two key names.
  delete_smoke_keys : List String → (String → OnKeys H (Unit {0})) → List Error → M H (List Error)
  delete_smoke_keys [] delete errs = pure errs
  delete_smoke_keys (name ∷ names) delete errs = do
    r ← attempt (on_keys {H = H} (delete name))
    delete_smoke_keys names delete
        (append_unless_absent (λ e. errors_is e key_not_found) errs "delete smoke key" r)

  -- `cleanupSmoke`, the joined error as the list of its parts.
  unfoldable pub cleanup_smoke_with :
      FilePath → M H (Unit {0}) → (String → OnKeys H (Unit {0})) → M H (List Error)
  unfolding delete_smoke_keys
  cleanup_smoke_with root_dir remove_trust delete = do
    t ← attempt remove_trust
    errs ← delete_smoke_keys (smoke_ca_key_name ∷ smoke_server_key_name ∷ []) delete (
        append_unless_absent (λ e. errors_is e trust_anchor_not_found) []
          "remove smoke CA trust anchor" t)
    r ← attempt (remove_all root_dir)
    pure (append_any errs "remove smoke state directory" r)

  module _ (c : Windowscng H) where
    abbrev pub smoke_key_store : MachineKeyStore H
    smoke_key_store = record {
      load_or_create_ca_key = test_create_key c smoke_ca_key_name;
      load_or_create_server_key = test_create_key c smoke_server_key_name;
    }

    module _ (ts : TrustStore H) where
      -- `ProvisionWithKeyStore` is `provisionWithKeyStore` without the repair of trust.
      unfoldable pub provision_smoke : FilePath → M H (Material H)
      provision_smoke root_dir = do
        lift (validate_smoke_key_name smoke_ca_key_name)
        lift (validate_smoke_key_name smoke_server_key_name)
        preflight_smoke_state (join (join root_dir "tls") ca_cert_file) (test_open_key c)
        provision_with_key_store root_dir smoke_key_store ts (some (gets (λ w. w.clock))) false

      unfoldable pub cleanup_smoke : FilePath → H.Bytes → M H (List Error)
      cleanup_smoke root_dir ca_cert_der =
          cleanup_smoke_with root_dir (on_root {H = H} (ts.remove_trust ca_cert_der))
            (test_delete_key c)

  module _ (ts : TrustStore H) where
    unfoldable pub verify_smoke_trust : H.Bytes → M H TrustState
    verify_smoke_trust ca_cert_der = on_root {H = H} (ts.verify_trust ca_cert_der)

    unfoldable pub cleanup_smoke_anchor_by_sha256 : Runes → M H (Unit {0})
    cleanup_smoke_anchor_by_sha256 hex_fp = do
      fp ← lift (parse_sha256_fingerprint hex_fp)
      on_root {H = H} (ts.remove_trust_by_sha256 fp)
