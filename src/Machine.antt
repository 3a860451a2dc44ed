-- ===== src/Machine.antt =====
-- composition_windows.go and machinepath_windows.go: the machine entry points.
pub mod Handles
pub mod ReadOnly
pub mod Balance
pub mod Verified
pub mod Reloaded
pub mod Persist
pub mod Trusted
pub mod Served
pub mod Calm
use local_tls.Base.{
  String, str_eq, not, ◌&&◌, ◌||◌, Bool, true, false, none, [], ◌∷◌, if◌then◌else◌,
}
use local_tls.Errors.{Outcome, ok, err, text, errors_is, key_not_found}
use local_tls.Host.{Host, FilePath, name, Signer, Certificate}
use local_tls.Identity.{
  file_system_dir, tls_sub_dir, ca_cert_file, server_cert_file, prod_ca_key_name,
  prod_server_key_name,
}
use local_tls.World.{M, pure, raise, lift, gets, context, attempt, on_keys, on_root, or_else}
use local_tls.World.{◌>>=◌, ◌>>◌}
use local_tls.Os.{read_file, join}
use local_tls.Files.{file_exists}
use local_tls.Certificate.{parse_certificate, verify_public_key_match}
use local_tls.Certificate.San.{validate_san}
use local_tls.KeyStore.{
  OnKeys, Windowscng, open_production_key, platform_key_store, close_production_signer,
}
use local_tls.TrustStore.{TrustStore, TrustState, trust_healthy}
use local_tls.Material.{Material, material_from_signers, provision_state_inconsistent}
use local_tls.Provision.{renew_if_needed, provision_with_key_store}

-- `if state != TrustHealthy`.
abbrev pub require_healthy : TrustState → Outcome (Unit {0})
require_healthy trust_healthy = ok tt
require_healthy _ = err (text "CA not trusted")

module _ {H : Host} where
  -- `filepath.Join(os.Getenv("ProgramData"), "Keppin", "Agent")`.
  unfoldable pub machine_agent_path : M H FilePath
  machine_agent_path = do
    pd ← gets (λ w. w.program_data)
    lift (
        if str_eq pd ""
        then err (text "%ProgramData% is not set")
        else ok (join (join (name pd ∷ []) file_system_dir) "Agent"))

  unfoldable pub machine_tls_path : M H FilePath
  machine_tls_path = do root ← machine_agent_path; pure (join root tls_sub_dir)

  probed : Outcome Signer → M H Bool
  probed (ok signer) = do close_production_signer signer; pure true
  probed (err e) = if errors_is e key_not_found then pure false else raise e

  -- Open, never create: is the key there?
  unfoldable pub probe_key : (String → OnKeys H Signer) → String → M H Bool
  unfolding probed
  probe_key open' key = do r ← attempt (on_keys {H = H} (open' key)); probed r

  unfoldable pub check_inconsistent_machine_state : FilePath → (String → OnKeys H Signer) → M H Bool
  check_inconsistent_machine_state root open' = do
    let tls_dir = join root tls_sub_dir
    ca_der ← file_exists (join tls_dir ca_cert_file)
    server_der ← file_exists (join tls_dir server_cert_file)
    if (ca_der && not server_der) || (server_der && not ca_der) then pure true else (do
      ca_key ← probe_key open' prod_ca_key_name
      server_key ← probe_key open' prod_server_key_name
      pure (provision_state_inconsistent ca_der server_der ca_key server_key))

  unfoldable pub load_serving_checked :
      Certificate H → Certificate H → Signer → TrustStore H → M H (Material H)
  load_serving_checked ca server signer ts = do
    or_else
        (context "server cert/key mismatch"
          (lift (verify_public_key_match server.public_key signer.public_key)))
        (close_production_signer signer)
    or_else
        (context "server certificate was not issued by our CA"
          (lift (H.check_signature_from server.raw ca.raw)))
        (close_production_signer signer)
    or_else (lift (validate_san server.info)) (close_production_signer signer)
    state ←
        or_else (context "verify CA trust" (on_root {H = H} (ts.verify_trust ca.raw)))
          (close_production_signer signer)
    or_else (lift (require_healthy state)) (close_production_signer signer)
    pure (material_from_signers ca server signer)

  -- The two public certificates from disk.
  pub load_ca_cert : FilePath → M H (Certificate H)
  load_ca_cert tls_dir = do
    der ← context "read CA certificate" (read_file (join tls_dir ca_cert_file))
    context "parse CA certificate" (lift (parse_certificate {H = H} der))

  pub load_server_cert : FilePath → M H (Certificate H)
  load_server_cert tls_dir = do
    der ← context "read server certificate" (read_file (join tls_dir server_cert_file))
    context "parse server certificate" (lift (parse_certificate {H = H} der))

  module _ (c : Windowscng H) (ts : TrustStore H) where
    -- `LoadServingMaterial` from the point where it has the directory.
    pub load_serving_from : FilePath → M H (Material H)
    unfolding load_ca_cert load_server_cert
    load_serving_from tls_dir = do
      ca ← load_ca_cert tls_dir
      server ← load_server_cert tls_dir
      signer ←
          context "open server key" (on_keys {H = H} (open_production_key c prod_server_key_name))
      load_serving_checked ca server signer ts

    unfoldable pub load_serving_material : M H (Material H)
    unfolding load_serving_from
    load_serving_material = do
      root ← context "resolve machine agent path" machine_agent_path
      load_serving_from (join root tls_sub_dir)

    -- `ReloadMachine` from the point where it holds both signers.
    pub reload_checked :
        FilePath → Certificate H → Signer → Certificate H → Signer → M H (Material H)
    reload_checked tls_dir ca ca_signer server server_signer = do
      let release = (close_production_signer ca_signer >> close_production_signer server_signer)
      or_else
          (context "server cert/key mismatch"
            (lift (verify_public_key_match server.public_key server_signer.public_key)))
          release
      or_else
          (context "server certificate was not issued by our CA"
            (lift (H.check_signature_from server.raw ca.raw)))
          release
      or_else (lift (validate_san server.info)) release
      state ← or_else (context "verify CA trust" (on_root {H = H} (ts.verify_trust ca.raw))) release
      or_else (lift (require_healthy state)) release
      now ← gets (λ w. w.clock)
      current ← or_else (renew_if_needed tls_dir now ca ca_signer server server_signer) release
      close_production_signer ca_signer
      pure (material_from_signers ca current server_signer)

    -- `ReloadMachine` from the point where it has the directory.
    pub reload_from : FilePath → M H (Material H)
    unfolding reload_checked load_ca_cert load_server_cert
    reload_from tls_dir = do
      ca ← load_ca_cert tls_dir
      ca_signer ← context "open CA key" (on_keys {H = H} (open_production_key c prod_ca_key_name))
      or_else
          (context "CA cert/key mismatch"
            (lift (verify_public_key_match ca.public_key ca_signer.public_key)))
          (close_production_signer ca_signer)
      server ← or_else (load_server_cert tls_dir) (close_production_signer ca_signer)
      server_signer ←
          or_else
            (context "open server key"
              (on_keys {H = H} (open_production_key c prod_server_key_name)))
            (close_production_signer ca_signer)
      reload_checked tls_dir ca ca_signer server server_signer

    unfoldable pub reload_machine : M H (Material H)
    unfolding reload_from
    reload_machine = do
      root ← context "resolve machine agent path" machine_agent_path
      reload_from (join root tls_sub_dir)

    -- The steps of `ProvisionMachine` behind the pre-check, and behind the path.
    provision_unless : FilePath → Bool → M H (Material H)
    provision_unless root inconsistent =
        if inconsistent
        then raise (text "inconsistent machine state")
        else provision_with_key_store root (platform_key_store c) ts none true

    provision_at : FilePath → M H (Material H)
    unfolding provision_unless
    provision_at root = do
      inconsistent ←
          context "provision pre-check"
            (check_inconsistent_machine_state root (open_production_key c))
      provision_unless root inconsistent

    unfoldable pub provision_machine : M H (Material H)
    unfolding provision_at
    provision_machine = do
      root ← context "resolve machine agent path" machine_agent_path
      provision_at root
