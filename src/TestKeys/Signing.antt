-- ===== src/TestKeys/Signing.antt =====
-- What a successful signing test shows.
use local_tls.Base.{ℕ, true, ◌≡◌, ◌↔◌, refl, arith, List}
use local_tls.Errors.{Outcome, ok, err, wrapped}
use local_tls.Host.{Host, Signer, PublicKey, Curve, ecdsa, other}
use local_tls.Identity.{test_sign_message}
use local_tls.World
use local_tls.World.{World, lift, ◌>>=◌}
use local_tls.TestKeys.{SignerApi, check_signature, test_sign_and_verify}

module _ {H : Host} (sg : SignerApi H) where
  -- The digest that is signed.
  abbrev pub test_digest : List ℕ
  test_digest = H.sha256 (sg.message test_sign_message)

  -- The signature of this call verifies under the signer's own public key.
  abbrev pub Verifies : Signer → Outcome sg.Signature → Type 0
  Verifies s o =
      (sig : sg.Signature) × (o ≡ ok sig)
      × (curve : Curve) × (x : ℕ) × (y : ℕ) × (s.public_key ≡ ecdsa curve x y)
      × (sg.verify_asn1 curve x y test_digest sig ≡ true)

  checked_iff :
      (key : PublicKey) (sig : sg.Signature)
      → (check_signature sg key test_digest sig ≡ ok tt) ↔ (
          (curve : Curve) × (x : ℕ) × (y : ℕ) × (key ≡ ecdsa curve x y)
          × (sg.verify_asn1 curve x y test_digest sig ≡ true))
  unfolding check_signature
  checked_iff (other n) sig = (λ h. cc, λ h. let (a, x, y, e, v) = h in cc)
  checked_iff (ecdsa curve x y) sig =
      (λ h. (curve, x, y, refl, ground arith), λ h. let (c', x', y', e, v) = h in same c' x' y' e v)
    where
      same :
          (c' : Curve) (x' y' : ℕ)
          → ecdsa curve x y ≡ ecdsa c' x' y'
          → sg.verify_asn1 c' x' y' test_digest sig ≡ true
          → check_signature sg (ecdsa curve x y) test_digest sig ≡ ok tt
      same c' x' y' e v = ground arith

  -- `TestSignAndVerify` succeeds exactly when the signer signs the digest of the test message, its
  -- public key is an ECDSA key, and the signature verifies under this key.
  pub test_sign_iff :
      (s : Signer) (w : World H)
      → ((test_sign_and_verify sg s w).0 ≡ ok tt) ↔ Verifies s (sg.sign s test_digest w.keys).0
  unfolding test_sign_and_verify ◌>>=◌
  test_sign_iff s w = signed (sg.sign s test_digest w.keys).0 _
    where
      signed :
          (o : Outcome sg.Signature) (v : World H)
          → ((World.continue
                (wrapped "sign" o)
                (λ sig. lift {H = H} (check_signature sg s.public_key test_digest sig))
                v).0
              ≡ ok tt)
            ↔ Verifies s o
      signed (ok sig) v = (
        λ h. let (a, x, y, e, v) = (checked_iff s.public_key sig).0 h in (sig, refl, a, x, y, e, v),
        λ h.
            let (t, is, a, x, y, e, good) = h in
            (checked_iff s.public_key sig).1 (a, x, y, e, moved t a x y is good),
      )
        where
          moved :
              (t : sg.Signature) (a : Curve) (x y : ℕ)
              → ok sig ≡ ok t
              → sg.verify_asn1 a x y test_digest t ≡ true
              → sg.verify_asn1 a x y test_digest sig ≡ true
          moved t a x y is v = cc
      signed (err e) v = (λ h. cc, λ h. let (t, is, a, x, y, k, v) = h in cc)
