-- ===== src/TestKeys.antt =====
-- verify_windows.go: the operations on test keys, which refuse every name outside the test
-- namespace, and the proof that a principal can sign.
pub mod Isolated
pub mod Handles
pub mod Elsewhere
pub mod Signing
use local_tls.Base.{ℕ, String, Bool, List, starts_with, if◌then◌else◌}
use local_tls.Errors.{Outcome, ok, err, text}
use local_tls.Host.{Host, Signer, PublicKey, ecdsa, Curve, other}
use local_tls.Identity.{test_key_namespace, test_sign_message}
use local_tls.World.{M, lift, context, on_keys, ◌>>=◌}
use local_tls.KeyStore.{
  OnKeys, Windowscng, load_or_create_key, open_production_key, delete_production_key,
}

-- `strings.HasPrefix(name, testKeyPrefix)`, in front of a call of the key provider.
abbrev pub in_test_namespace : String → Bool
in_test_namespace name = starts_with name test_key_namespace

abbrev pub guarded : {S A : Type 0} → Bool → (S → Outcome A × S) → S → Outcome A × S
guarded inside call k =
    if inside then call k else (err (text "test key name must start with \"Keppin.Test.\""), k)

module _ {H : Host} (c : Windowscng H) where
  -- Behind the guard these are the calls of the production path, the error mapped by `mapCNGError`.
  unfoldable pub test_create_key : String → OnKeys H Signer
  test_create_key name = guarded (in_test_namespace name) (load_or_create_key c name)

  unfoldable pub test_open_key : String → OnKeys H Signer
  test_open_key name = guarded (in_test_namespace name) (open_production_key c name)

  unfoldable pub test_delete_key : String → OnKeys H (Unit {0})
  test_delete_key name = guarded (in_test_namespace name) (delete_production_key c name)

-- `Sign` of a `crypto.Signer` over a SHA-256 digest, `ecdsa.VerifyASN1`, and `[]byte(s)`.
pub record SignerApi (H : Host) : Type 1 where
  pub Signature : Type 0
  pub message : String → H.Bytes
  pub sign : Signer → List ℕ → OnKeys H Signature
  pub verify_asn1 : Curve → ℕ → ℕ → List ℕ → Signature → Bool

module _ {H : Host} (sg : SignerApi H) where
  check_signature : PublicKey → List ℕ → sg.Signature → Outcome (Unit {0})
  check_signature (other n) hash sig = err (text "public key is not ECDSA")
  check_signature (ecdsa curve x y) hash sig =
      if sg.verify_asn1 curve x y hash sig
      then ok tt
      else err (text "signature verification failed: signature does not match public key")

  unfoldable pub test_sign_and_verify : Signer → M H (Unit {0})
  unfolding check_signature
  test_sign_and_verify s = do
    let hash = H.sha256 (sg.message test_sign_message)
    sig ← context "sign" (on_keys {H = H} (sg.sign s hash))
    lift (check_signature s.public_key hash sig)
