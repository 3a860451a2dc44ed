-- ===== src/Provision.antt =====
-- provision.go: provisioning over a key store, and the reload of what it left on disk.
pub mod Handles
pub mod Frame
pub mod OnDisk
pub mod Persist
pub mod Trusted
pub mod Calm
use local_tls.Base.{true, false, Bool, Option, none, some, if◌then◌else◌}
use local_tls.Errors.{text}
use local_tls.Host.{Host, Time, FilePath, Signer, Certificate}
use local_tls.Identity.{tls_sub_dir, ca_cert_file, server_cert_file}
use local_tls.World.{M, pure, raise, lift, gets, context, on_keys, on_root, defers, or_else}
use local_tls.World.{◌>>=◌, ◌>>◌}
use local_tls.Os.{read_file, mkdir_all, join}
use local_tls.Files.{file_exists, atomic_write}
use local_tls.Certificate.{
  parse_certificate, verify_public_key_match, validate_ca_lifetime, generate_ca_with_signer,
  generate_server_cert_with_signer,
}
use local_tls.Certificate.San.{validate_san}
use local_tls.Certificate.Times.{needs_renewal}
use local_tls.KeyStore.{MachineKeyStore, close_signer}
use local_tls.TrustStore.{TrustStore, TrustState, trust_healthy, trust_absent}
use local_tls.Material.{Material, material_from_signers}

module _ {H : Host} where
  -- The signer is closed if its public key is not the certificate's.
  matched : Certificate H → Signer → M H (Certificate H × Signer)
  matched cert signer = do
    or_else (lift (verify_public_key_match cert.public_key signer.public_key)) (close_signer signer)
    pure (cert, signer)

  unfoldable pub load_ca_signer : FilePath → MachineKeyStore H → M H (Certificate H × Signer)
  unfolding matched
  load_ca_signer tls_dir ks = do
    der ← context "read CA certificate" (read_file (join tls_dir ca_cert_file))
    cert ← context "parse CA certificate" (lift (parse_certificate {H = H} der))
    signer ← context "load CA key" (on_keys {H = H} ks.load_or_create_ca_key)
    context "CA cert/key mismatch" (matched cert signer)

  unfoldable pub load_server_signer : FilePath → MachineKeyStore H → M H (Certificate H × Signer)
  unfolding matched
  load_server_signer tls_dir ks = do
    der ← context "read server certificate" (read_file (join tls_dir server_cert_file))
    cert ← context "parse server certificate" (lift (parse_certificate {H = H} der))
    signer ← context "load server key" (on_keys {H = H} ks.load_or_create_server_key)
    context "server cert/key mismatch" (matched cert signer)

  -- The check after a reinstall, and the `switch` on the trust state with the elevated repair.
  restored : TrustState → M H (Unit {0})
  restored trust_healthy = pure tt
  restored _ = raise (text "CA trust reinstall did not restore trust")

  settle_trust : TrustStore H → Bool → Certificate H → TrustState → M H (Unit {0})
  unfolding restored
  settle_trust ts repair ca trust_healthy = pure tt
  settle_trust ts false ca trust_absent = raise (text "CA not trusted")
  settle_trust ts true ca trust_absent = do
    context "reinstall CA trust anchor" (on_root {H = H} (ts.install_trust ca.raw))
    reinstalled ←
        context "verify CA trust after reinstall" (on_root {H = H} (ts.verify_trust ca.raw))
    restored reinstalled
  settle_trust ts repair ca _ = raise (text "CA not trusted")

  -- The renewal of a server certificate that is near or past its expiry; the key is reused.
  renewal : FilePath → Time → Certificate H → Signer → Signer → M H (Certificate H)
  renewal tls_dir now ca ca_signer server_signer = do
    lift (validate_ca_lifetime ca.info now)
    renewed ←
        context "renew server certificate"
          (generate_server_cert_with_signer now ca ca_signer server_signer)
    atomic_write {H = H} (join tls_dir server_cert_file) renewed.raw 0o600
    pure renewed

  unfoldable pub renew_if_needed :
      FilePath → Time → Certificate H → Signer → Certificate H → Signer → M H (Certificate H)
  unfolding renewal
  renew_if_needed tls_dir now ca ca_signer server server_signer =
      if needs_renewal now server.not_after
      then renewal tls_dir now ca ca_signer server_signer
      else pure server

  -- What `reloadWithKeyStore` does while it holds both signers.
  reload_body :
      FilePath
      → TrustStore H
      → M H Time
      → Bool
      → Certificate H × Signer
      → Certificate H × Signer
      → M H (Material H)
  unfolding settle_trust
  reload_body tls_dir ts now repair (ca, ca_signer) (server, server_signer) = do
    context "server certificate was not issued by our CA"
        (lift (H.check_signature_from server.raw ca.raw))
    lift (validate_san server.info)
    state ← context "verify CA trust" (on_root {H = H} (ts.verify_trust ca.raw))
    settle_trust ts repair ca state
    now_time ← now
    current ← renew_if_needed tls_dir now_time ca ca_signer server server_signer
    pure (material_from_signers ca current server_signer)

  unfoldable pub reload_with_key_store :
      FilePath → MachineKeyStore H → TrustStore H → M H Time → Bool → M H (Material H)
  unfolding reload_body
  reload_with_key_store tls_dir ks ts now repair = do
    ca ← context "load CA" (load_ca_signer tls_dir ks)
    defers (close_signer ca.1) (do
      server ← context "load server certificate" (load_server_signer tls_dir ks)
      or_else (reload_body tls_dir ts now repair ca server) (close_signer server.1))

  -- What `firstProvisionWithKeyStore` does while it holds the CA signer, then both.
  first_with_server :
      FilePath → TrustStore H → Time → Certificate H → Signer → Signer → M H (Material H)
  first_with_server tls_dir ts now ca ca_signer server_signer = do
    server ←
        context "generate server certificate"
          (generate_server_cert_with_signer now ca ca_signer server_signer)
    atomic_write {H = H} (join tls_dir ca_cert_file) ca.raw 0o600
    atomic_write {H = H} (join tls_dir server_cert_file) server.raw 0o600
    context "install CA in trust store" (on_root {H = H} (ts.install_trust ca.raw))
    pure (material_from_signers ca server server_signer)

  first_with_ca : FilePath → MachineKeyStore H → TrustStore H → Time → Signer → M H (Material H)
  first_with_ca tls_dir ks ts now ca_signer = do
    ca ← context "generate CA certificate" (generate_ca_with_signer now ca_signer)
    server_signer ←
        context "load or create server key" (on_keys {H = H} ks.load_or_create_server_key)
    or_else (first_with_server tls_dir ts now ca ca_signer server_signer)
        (close_signer server_signer)

  unfoldable pub first_provision_with_key_store :
      FilePath → MachineKeyStore H → TrustStore H → M H Time → M H (Material H)
  unfolding first_with_ca first_with_server
  first_provision_with_key_store tls_dir ks ts now = do
    context "create tls directory" (mkdir_all tls_dir)
    now_time ← now
    ca_signer ← context "load or create CA key" (on_keys {H = H} ks.load_or_create_ca_key)
    defers (close_signer ca_signer) (first_with_ca tls_dir ks ts now_time ca_signer)

  -- `if now == nil { now = time.Now }`.
  abbrev pub clock_of : Option (M H Time) → M H Time
  clock_of none = gets (λ w. w.clock)
  clock_of (some now) = now

  unfoldable pub provision_with_key_store :
      FilePath → MachineKeyStore H → TrustStore H → Option (M H Time) → Bool → M H (Material H)
  provision_with_key_store data_dir ks ts now repair = do
    let tls_dir = join data_dir tls_sub_dir
    ca_there ← file_exists (join tls_dir ca_cert_file)
    server_there ← (if ca_there then file_exists (join tls_dir server_cert_file) else pure false)
    if server_there
        then reload_with_key_store tls_dir ks ts (clock_of now) repair
        else first_provision_with_key_store tls_dir ks ts (clock_of now)
