-- ===== src/Cleanup.antt =====
-- cleanup.go and cleanup_windows.go: the exact removal of what the package owns. The joined error
-- is the list of its parts, empty for `nil`.
pub mod Reports
pub mod Confined
pub mod Emptied
use local_tls.Base.{ℕ, String, ◌||◌, Option, none, some, List, [], ◌∷◌, ◌++◌, if◌then◌else◌}
use local_tls.Errors.{
  Error, Outcome, ok, err, text, wrap, errors_is, is_not_exist, key_not_found,
  trust_anchor_not_found,
}
use local_tls.Host.{Host, FilePath}
use local_tls.Identity.{ca_cert_file}
use local_tls.World.{M, pure, raise, context, attempt, on_keys, on_root, ◌>>=◌}
use local_tls.Os.{stat, read_file, remove_all, join}
use local_tls.KeyStore.{MachineKeyDeleter, Windowscng, platform_key_deleter}
use local_tls.TrustStore.{TrustStore}
use local_tls.Machine.{machine_tls_path}

-- An error that wraps one of the two "absent" sentinels is dropped.
unfoldable pub append_cleanup_error : {A : Type 0} → List Error → String → Outcome A → List Error
append_cleanup_error errs op (ok a) = errs
append_cleanup_error errs op (err e) =
    if errors_is e key_not_found || errors_is e trust_anchor_not_found
    then errs
    else errs ++ (wrap op e ∷ [])

module _ {H : Host} where
  unfoldable pub remove_state_dir : FilePath → M H (Unit {0})
  remove_state_dir tls_dir = do
    r ← attempt (stat tls_dir)
    elim r [
      | ok n ↦ context "remove TLS state directory" (remove_all tls_dir)
      | err e ↦ if is_not_exist e then pure tt else raise (wrap "stat TLS state directory" e)
    ]

  abbrev pub run_removal : Option (M H (Unit {0})) → String → List Error → M H (List Error)
  run_removal none op errs = pure errs
  run_removal (some m) op errs = do r ← attempt m; pure (append_cleanup_error errs op r)

  unfoldable pub delete_keys : Option (MachineKeyDeleter H) → List Error → M H (List Error)
  delete_keys none errs = pure errs
  delete_keys (some kd) errs = do
    r ← attempt (on_keys {H = H} kd.delete_ca_key)
    s ← attempt (on_keys {H = H} kd.delete_server_key)
    pure (
        append_cleanup_error (append_cleanup_error errs "delete Local-TLS CA key" r)
          "delete Local-TLS server key" s)

  unfoldable pub cleanup_local_tls :
      FilePath → Option (MachineKeyDeleter H) → Option (M H (Unit {0})) → M H (List Error)
  unfolding delete_keys
  cleanup_local_tls tls_dir kd remove_trust = do
    after_trust ← run_removal remove_trust "remove CA trust anchor" []
    after_keys ← delete_keys kd after_trust
    r ← attempt (remove_state_dir tls_dir)
    pure (elim r [ ok a ↦ after_keys | err e ↦ after_keys ++ (e ∷ []) ])

  module _ (c : Windowscng H) (ts : TrustStore H) where
    -- The closure `removeTrust` of `CleanupMachine`.
    remove_trust_by_der : FilePath → M H (Unit {0})
    remove_trust_by_der path = do
      r ← attempt (read_file path)
      elim r [
        | ok der ↦ on_root {H = H} (ts.remove_trust der)
        | err e ↦
            if is_not_exist e
            then raise (text "CA certificate DER is missing")
            else raise (wrap "read CA certificate" e)
      ]

    -- The outer error is for a failure before anything is removed.
    unfoldable pub cleanup_machine : M H (List Error)
    unfolding remove_trust_by_der
    cleanup_machine = do
      tls_dir ← context "resolve machine TLS path" machine_tls_path
      cleanup_local_tls tls_dir (some (platform_key_deleter c))
          (some (remove_trust_by_der (join tls_dir ca_cert_file)))

    unfoldable pub cleanup_machine_by_sha256 : List ℕ → M H (List Error)
    cleanup_machine_by_sha256 fp = do
      tls_dir ← context "resolve machine TLS path" machine_tls_path
      cleanup_local_tls tls_dir (some (platform_key_deleter c))
          (some (on_root {H = H} (ts.remove_trust_by_sha256 fp)))
