-- ===== src/Material.antt =====
-- provision.go: the provisioned material, its release, and the presence check that decides whether
-- a machine may be provisioned.
pub mod Presence
use local_tls.Base.{ℕ, Bool, true, not, ◌&&◌, ◌||◌, Option, none, some, List, [], ◌∷◌}
use local_tls.Base.{if◌then◌else◌}
use local_tls.Host.{Host, Signer, Certificate}
use local_tls.World.{M, pure}
use local_tls.KeyStore.{close_signer}

-- A `tls.Certificate`. An `*ecdsa.PrivateKey` is a signer with no `Close`.
pub record TlsCertificate (H : Host) : Type 0 where
  pub chain : List H.Bytes
  pub private_key : Signer
  pub leaf : Certificate H

pub record Material (H : Host) : Type 0 where
  pub certificate : TlsCertificate H
  pub ca_certificate : Certificate H
  pub server_certificate : Certificate H
  pub ca_fingerprint_sha256 : List ℕ

-- Presence of the CA DER, the server DER, the CA key and the server key.
unfoldable pub provision_state_inconsistent : Bool → Bool → Bool → Bool → Bool
provision_state_inconsistent ca_der server_der ca_key server_key =
    if (ca_der && not server_der) || (server_der && not ca_der)
    then true
    else if not ca_der
    then ca_key || server_key
    else not (ca_key && server_key)

module _ {H : Host} where
  unfoldable pub tls_cert_from_signer : Certificate H → Signer → TlsCertificate H
  tls_cert_from_signer cert signer = record {
    chain = cert.raw ∷ [];
    private_key = signer;
    leaf = cert;
  }

  unfoldable pub material_from_signers : Certificate H → Certificate H → Signer → Material H
  unfolding tls_cert_from_signer
  material_from_signers ca server signer = record {
    certificate = tls_cert_from_signer server signer;
    ca_certificate = ca;
    server_certificate = server;
    ca_fingerprint_sha256 = H.sha256 ca.raw;
  }

  -- `(*Material).Close`, on a nil pointer too.
  unfoldable pub close_material : Option (Material H) → M H (Unit {0})
  close_material none = pure tt
  close_material (some m) = close_signer m.certificate.private_key
