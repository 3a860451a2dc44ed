-- ===== src/VerifyCommand/Fingerprints.antt =====
-- The command's own reading of a fingerprint agrees with the package's, and the exit code of the
-- presence check.
use local_tls.Base.{
  ℕ, String, Bool, true, false, Option, none, some, List, ◌∷◌, ◌≡◌, ◌↔◌, refl, arith,
}
use local_tls.Errors.{Outcome, ok, err, wrapped}
use local_tls.Host.{Host}
use local_tls.World.{World, ◌>>=◌}
use local_tls.Runes.{Runes, codes, trim_space}
use local_tls.Fingerprint.{copied, hex_decode, into_array, parse_sha256_fingerprint}
use local_tls.KeyStore.{Windowscng}
use local_tls.TestKeys.{SignerApi}
use local_tls.TrustStore.{TrustStore}
use local_tls.VerifyCommand
use local_tls.VerifyCommand.{Process, read_operand, run}

decoded_iff :
    (r : Outcome (List ℕ)) (fp : List ℕ)
    → (elim r [ ok bytes ↦ some (copied 32 bytes) | err e ↦ none ] ≡ some fp)
      ↔ (into_array (wrapped "invalid hex fingerprint" r) ≡ ok fp)
decoded_iff (ok bytes) fp = ground arith
decoded_iff (err e) fp = ground arith

-- The command reads an argument as a fingerprint exactly when `ParseSHA256Fingerprint` does, and as
-- the same one.
pub read_operand_iff :
    (t : Runes) (fp : List ℕ) → (read_operand t ≡ some fp) ↔ (parse_sha256_fingerprint t ≡ ok fp)
unfolding read_operand parse_sha256_fingerprint
read_operand_iff t fp = ground (arith, decoded_iff (hex_decode (trim_space t)) fp)

module _ {H : Host} (c : Windowscng H) (sg : SignerApi H) (ts : TrustStore H) (p : Process H) where
  presence_iff : (r : Outcome Bool) → (VerifyCommand.presence_code r ≡ 0) ↔ (r ≡ ok true)
  presence_iff (ok true) = ground arith
  presence_iff (ok false) = ground arith
  presence_iff (err e) = ground arith

  Shown : Option (List ℕ) → World H → Type 0
  Shown o w = (fp : List ℕ) × (o ≡ some fp) × ((ts.is_trusted_sha256 fp w.root).0 ≡ ok true)

  Shown-iff :
      (o : Option (List ℕ)) (w : World H)
      → ((VerifyCommand.with_fingerprint c sg ts p o w).0 ≡ ok 0) ↔ Shown o w
  unfolding VerifyCommand.with_fingerprint Shown ◌>>=◌
  Shown-iff none w = (λ h. cc, λ h. let (fp, e, k) = h in cc)
  Shown-iff (some fp) w =
      let answer = presence_iff (ts.is_trusted_sha256 fp w.root).0 in
      (
        λ h. (fp, refl, answer.0 (ground arith)),
        λ h. let (fp', e, k) = h in cc (answer.1 (same fp' e k)),
      )
    where
      same :
          (fp' : List ℕ)
          → some fp ≡ some fp'
          → (ts.is_trusted_sha256 fp' w.root).0 ≡ ok true
          → (ts.is_trusted_sha256 fp w.root).0 ≡ ok true
      same fp' e k = cc

  -- `verify -trust-is` exits with code 0 exactly when `ParseSHA256Fingerprint` reads the argument as
  -- a fingerprint and the trust store answers that a certificate with this fingerprint is present.
  pub trust_is_iff :
      (program a : String) (rest : List String) (w : World H)
      → ((run c sg ts p (program ∷ "-trust-is" ∷ a ∷ rest) w).0 ≡ ok 0) ↔ (
          (fp : List ℕ) × (parse_sha256_fingerprint (codes a) ≡ ok fp)
          × ((ts.is_trusted_sha256 fp w.root).0 ≡ ok true))
  unfolding run VerifyCommand.dispatch VerifyCommand.handle_trust_is_sha256
      VerifyCommand.trust_is_operand Shown
  trust_is_iff program a rest w =
      let shown = Shown-iff (read_operand (codes a)) w in
      (
        λ h. let (fp, e, k) = shown.0 h in (fp, (read_operand_iff (codes a) fp).0 e, k),
        λ h. let (fp, e, k) = h in shown.1 (fp, (read_operand_iff (codes a) fp).1 e, k),
      )
