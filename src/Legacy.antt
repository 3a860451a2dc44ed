-- ===== src/Legacy.antt =====
-- provision.go and certificate.go: the provisioning with exported keys behind a `Protector`.
pub mod Partial
pub mod RoundTrip
use local_tls.Base.{ℕ, String, ◌==◌, ◌&&◌, Bool, Option, none, some, List, if◌then◌else◌}
use local_tls.Errors.{Outcome, ok, err, text, from_option}
use local_tls.Host.{Host, Time, FilePath, PublicKey, ecdsa, other, Signer, Certificate}
use local_tls.Identity.{tls_sub_dir, ca_cert_file, ca_key_file, server_cert_file, server_key_file}
use local_tls.World.{World, M, pure, raise, lift, context, on_root, ◌>>=◌, ◌>>◌}
use local_tls.Os.{read_file, mkdir_all, join}
use local_tls.Files.{all_files_exist, any_file_exists, atomic_write}
use local_tls.Certificate.{
  parse_certificate, validate_ca_lifetime, or_now, create_ca_cert_self_signed,
  create_server_cert_with_pub,
}
use local_tls.Certificate.San.{validate_san}
use local_tls.Certificate.Times.{needs_renewal}
use local_tls.TrustStore.{TrustStore}
use local_tls.Material.{Material, material_from_signers}
use local_tls.Machine.{require_healthy}
use local_tls.Provision.{clock_of}

-- `*ecdsa.PrivateKey` and the routines of the standard library on it. `generate_key` is
-- `ecdsa.GenerateKey` of P-256 over the random source; `parse_key` is `x509.ParsePKCS8PrivateKey`,
-- with nothing for a key of another type.
pub record ExportedKeys (H : Host) : Type 1 where
  pub Key : Type 0
  pub coordinates : Key → ℕ × ℕ
  -- The key as a signer, which has no `Close`.
  pub signer : Key → Signer
  pub generate_key : List (Outcome (List ℕ)) → Outcome Key × List (Outcome (List ℕ))
  pub marshal : Key → Outcome H.Bytes
  pub parse_key : H.Bytes → Outcome (Option Key)

-- protector.go.
pub record Protector (H : Host) : Type 0 where
  pub protect : H.Bytes → Outcome H.Bytes
  pub unprotect : H.Bytes → Outcome H.Bytes

module _ {H : Host} (x : ExportedKeys H) where
  unfoldable pub verify_key_match : PublicKey → x.Key → Outcome (Unit {0})
  verify_key_match (ecdsa c a b) key =
      if a == (x.coordinates key).0 && b == (x.coordinates key).1
      then ok tt
      else err (text "private key does not match certificate public key")
  verify_key_match (other n) key = err (text "unsupported public key type")

  fresh_key : M H x.Key
  fresh_key w = ((x.generate_key w.random).0, record w { random = (x.generate_key w.random).1 })

  unfoldable pub generate_ca : Time → M H (Certificate H × x.Key)
  unfolding fresh_key
  generate_ca now = do
    time ← or_now now
    key ← context "generate CA private key" fresh_key
    cert ← create_ca_cert_self_signed time (x.signer key)
    pure (cert, key)

  unfoldable pub generate_server_cert : Time → Certificate H → x.Key → M H (Certificate H × x.Key)
  unfolding fresh_key
  generate_server_cert now ca ca_key = do
    time ← or_now now
    key ← context "generate server private key" fresh_key
    cert ← create_server_cert_with_pub time ca (x.signer ca_key) (x.signer key).public_key
    pure (cert, key)

  -- `materialFrom`, over `tlsCertFromMaterial`.
  unfoldable pub material_from : Certificate H → Certificate H → x.Key → Material H
  material_from ca server server_key = material_from_signers ca server (x.signer server_key)

  module _ (p : Protector H) where
    -- `marshaledKey` and `Protect`, with the words that the caller adds to an error.
    protected_key : String → String → x.Key → M H H.Bytes
    protected_key on_marshal on_protect key = do
      der ← context on_marshal (context "marshal PKCS#8" (lift (x.marshal key)))
      context on_protect (lift (p.protect der))

    unfoldable pub load_ca : FilePath → M H (Certificate H × x.Key)
    load_ca tls_dir = do
      der ← context "read CA certificate" (read_file (join tls_dir ca_cert_file))
      cert ← context "parse CA certificate" (lift (parse_certificate {H = H} der))
      stored ← context "read protected CA key" (read_file (join tls_dir ca_key_file))
      key_der ← context "unprotect CA key" (lift (p.unprotect stored))
      parsed ← context "parse CA private key" (lift (x.parse_key key_der))
      key ← lift (from_option parsed (text "unexpected key type"))
      context "CA cert/key mismatch" (lift (verify_key_match cert.public_key key))
      pure (cert, key)

    unfoldable pub load_server : FilePath → M H (Certificate H × x.Key)
    load_server tls_dir = do
      der ← context "read server certificate" (read_file (join tls_dir server_cert_file))
      cert ← context "parse server certificate" (lift (parse_certificate {H = H} der))
      stored ← context "read protected server key" (read_file (join tls_dir server_key_file))
      key_der ← context "unprotect server key" (lift (p.unprotect stored))
      parsed ← context "parse server private key" (lift (x.parse_key key_der))
      key ← lift (from_option parsed (text "unexpected key type"))
      context "server cert/key mismatch" (lift (verify_key_match cert.public_key key))
      pure (cert, key)

    -- `firstProvision` behind the test for files that are there.
    make_material : FilePath → TrustStore H → M H Time → M H (Material H)
    unfolding protected_key
    make_material tls_dir ts now = do
      context "create tls directory" (mkdir_all tls_dir)
      now_time ← now
      ca ← context "generate CA" (generate_ca now_time)
      server ← context "generate server certificate" (generate_server_cert now_time ca.0 ca.1)
      ca_key ← protected_key "marshal CA key" "protect CA key" ca.1
      server_key ← protected_key "marshal server key" "protect server key" server.1
      atomic_write {H = H} (join tls_dir ca_cert_file) ca.0.raw 0o600
      atomic_write {H = H} (join tls_dir ca_key_file) ca_key 0o600
      atomic_write {H = H} (join tls_dir server_cert_file) server.0.raw 0o600
      atomic_write {H = H} (join tls_dir server_key_file) server_key 0o600
      context "install CA in trust store" (on_root {H = H} (ts.install_trust ca.0.raw))
      pure (material_from ca.0 server.0 server.1)

    unfoldable pub first_provision : FilePath → TrustStore H → M H Time → M H (Material H)
    unfolding make_material
    first_provision tls_dir ts now = do
      some_file ← any_file_exists tls_dir
      if some_file
          then raise (text "incomplete local TLS material")
          else make_material tls_dir ts now

    -- The renewal in `reload`, with a new key.
    renew_pair :
        FilePath
        → Time
        → Certificate H × x.Key
        → Certificate H × x.Key
        → M H (Certificate H × x.Key)
    unfolding protected_key
    renew_pair tls_dir now ca server =
        if needs_renewal now server.0.not_after
        then (do
          lift (validate_ca_lifetime ca.0.info now)
          renewed ← context "renew server certificate" (generate_server_cert now ca.0 ca.1)
          server_key ←
              protected_key "marshal renewed server key" "protect renewed server key" renewed.1
          atomic_write {H = H} (join tls_dir server_cert_file) renewed.0.raw 0o600
          atomic_write {H = H} (join tls_dir server_key_file) server_key 0o600
          pure renewed)
        else pure server

    unfoldable pub reload : FilePath → TrustStore H → M H Time → M H (Material H)
    unfolding renew_pair
    reload tls_dir ts now = do
      ca ← context "load CA" (load_ca tls_dir)
      server ← context "load server certificate" (load_server tls_dir)
      context "server certificate was not issued by our CA"
          (lift (H.check_signature_from server.0.raw ca.0.raw))
      lift (validate_san server.0.info)
      state ← context "verify CA trust" (on_root {H = H} (ts.verify_trust ca.0.raw))
      lift (require_healthy state)
      now_time ← now
      current ← renew_pair tls_dir now_time ca server
      pure (material_from ca.0 current.0 current.1)

    unfoldable pub provision : FilePath → TrustStore H → Option (M H Time) → M H (Material H)
    provision data_dir ts now = do
      all_files ← all_files_exist (join data_dir tls_sub_dir)
      if all_files
          then reload (join data_dir tls_sub_dir) ts (clock_of now)
          else first_provision (join data_dir tls_sub_dir) ts (clock_of now)
