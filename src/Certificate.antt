-- ===== src/Certificate.antt =====
-- certificate.go: the CA and server certificates, their lifetimes and the key comparison.
pub mod Times
pub mod San
pub mod Renewal
pub mod Frame
pub mod Serial
pub mod Calm
use mathlib.Core.List.{foldl}
use local_tls.Base.{ℕ, ◌+◌, ◌*◌, Bool, true, false, ◌&&◌, List, [], ◌∷◌, ◌==◌, if◌then◌else◌}
use local_tls.Errors.{Outcome, ok, err, text, wrap}
use local_tls.Host.{Host, Time, Curve, p224, p256, p384, p521, PublicKey, ecdsa, other, Info}
use local_tls.Host.{Signer, Certificate}
use local_tls.Identity.{cert_organization, ca_cert_common_name}
use local_tls.World.{World, M, pure, lift, gets, context, ◌>>=◌, ◌>>◌}
use San.{loopback4, loopback6}
use Times.{is_zero, add, before, ca_validity, backdating, capped_server_not_after}

-- `KeyUsageDigitalSignature`, `KeyUsageCertSign`, `ExtKeyUsageServerAuth`.
abbrev pub digital_signature : ℕ
digital_signature = 1

abbrev pub cert_sign : ℕ
cert_sign = 32

abbrev pub server_auth : ℕ
server_auth = 1

-- `big.Int.SetBytes`.
abbrev pub set_bytes : List ℕ → ℕ
set_bytes = foldl (λ n b. n * 256 + b) 0

-- `randomSerial` over the coming reads of `crypto/rand`: a read of all zeros is repeated.
unfoldable pub draw_serial : List (Outcome (List ℕ)) → Outcome ℕ × List (Outcome (List ℕ))
draw_serial [] = (err (text "no more random bytes"), [])
draw_serial (err e ∷ reads) = (err (wrap "read random bytes for serial" e), reads)
draw_serial (ok bytes ∷ reads) =
    let again = draw_serial reads in
    if set_bytes bytes == 0 then again else (ok (set_bytes bytes), reads)

abbrev pub same_curve : Curve → Curve → Bool
same_curve p224 p224 = true
same_curve p256 p256 = true
same_curve p384 p384 = true
same_curve p521 p521 = true
same_curve _ _ = false

-- `pub, ok := key.(*ecdsa.PublicKey)` and `pub.Curve == elliptic.P256()`.
abbrev pub is_p256 : PublicKey → Bool
is_p256 (ecdsa c x y) = same_curve c p256
is_p256 (other n) = false

abbrev pub ca_template : ℕ → Time → Info
ca_template serial now = record {
  serial = serial;
  common_name = ca_cert_common_name;
  organization = cert_organization ∷ [];
  not_before = add now backdating;
  not_after = add now ca_validity;
  is_ca = true;
  basic_constraints_valid = true;
  max_path_len = 0;
  max_path_len_zero = true;
  key_usage = cert_sign;
  ext_key_usage = [];
  dns_names = [];
  ip_addresses = [];
}

abbrev pub server_template : ℕ → Time → Time → Info
server_template serial now ca_not_after = record {
  serial = serial;
  common_name = "localhost";
  organization = cert_organization ∷ [];
  not_before = add now backdating;
  not_after = capped_server_not_after now ca_not_after;
  is_ca = false;
  basic_constraints_valid = false;
  max_path_len = 0;
  max_path_len_zero = false;
  key_usage = digital_signature;
  ext_key_usage = server_auth ∷ [];
  dns_names = "localhost" ∷ [];
  ip_addresses = loopback4 ∷ loopback6 ∷ [];
}

-- Only X and Y are compared.
unfoldable pub verify_public_key_match : PublicKey → PublicKey → Outcome (Unit {0})
verify_public_key_match (ecdsa c x y) (ecdsa c' x' y') =
    if x == x' && y == y'
    then ok tt
    else err (text "public key does not match certificate public key")
verify_public_key_match (ecdsa c x y) (other n) =
    err (text "public key type is not *ecdsa.PublicKey")
verify_public_key_match (other n) key = err (text "unsupported public key type")

unfoldable pub validate_ca_lifetime : Info → Time → Outcome (Unit {0})
validate_ca_lifetime ca now =
    if before now ca.not_before
    then err (text "CA certificate is not yet valid: CA recovery/reprovisioning required")
    else if before now ca.not_after
    then ok tt
    else err (text "CA certificate has expired: CA recovery/reprovisioning required")

module _ {H : Host} where
  -- `x509.ParseCertificate`, with `Raw`.
  unfoldable pub parse_certificate : H.Bytes → Outcome (Certificate H)
  parse_certificate der = elim (H.parse_certificate der) [
    | ok (info, key) ↦ ok (record { raw = der; info = info; public_key = key })
    | err e ↦ err e
  ]

  create_certificate : Info → Info → PublicKey → Signer → M H H.Bytes
  create_certificate template parent key signer = do
    keys ← gets (λ w. w.keys)
    lift (H.create_certificate template parent key signer keys)

  unfoldable pub random_serial : M H ℕ
  unfolding draw_serial
  random_serial w = ((draw_serial w.random).0, record w { random = (draw_serial w.random).1 })

  -- `if now.IsZero() { now = time.Now() }`.
  unfoldable pub or_now : Time → M H Time
  or_now now = if is_zero now then gets (λ w. w.clock) else pure now

  unfoldable pub create_ca_cert_self_signed : Time → Signer → M H (Certificate H)
  unfolding create_certificate
  create_ca_cert_self_signed now signer = do
    serial ← context "generate CA serial" random_serial
    der ← context "create CA certificate" (
        create_certificate (ca_template serial now) (ca_template serial now) signer.public_key
          signer)
    context "parse CA certificate" (lift (parse_certificate der))

  unfoldable pub create_server_cert_with_pub :
      Time → Certificate H → Signer → PublicKey → M H (Certificate H)
  unfolding create_certificate
  create_server_cert_with_pub now ca ca_signer key = do
    serial ← context "generate server serial" random_serial
    der ←
        context "create server certificate"
          (create_certificate (server_template serial now ca.not_after) ca.info key ca_signer)
    context "parse server certificate" (lift (parse_certificate der))

  unfoldable pub generate_ca_with_signer : Time → Signer → M H (Certificate H)
  unfolding or_now
  generate_ca_with_signer now signer = do
    time ← or_now now
    lift (
        if is_p256 signer.public_key
        then ok tt
        else err (text "CA signer must have an ECDSA P-256 public key"))
    create_ca_cert_self_signed time signer

  unfoldable pub generate_server_cert_with_signer :
      Time → Certificate H → Signer → Signer → M H (Certificate H)
  unfolding or_now
  generate_server_cert_with_signer now ca ca_signer server_signer = do
    time ← or_now now
    lift (
        if is_p256 server_signer.public_key
        then ok tt
        else err (text "server signer must have an ECDSA P-256 public key"))
    create_server_cert_with_pub time ca ca_signer server_signer.public_key
