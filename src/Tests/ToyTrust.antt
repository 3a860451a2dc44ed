-- ===== src/Tests/ToyTrust.antt =====
-- The small trust store keeps the contract of TrustStore/Contract.antt.
use local_tls.Base.{
  ℕ, List, [], ◌∷◌, Bool, true, false, ◌≡◌, refl, sym, ◌∙◌, inl, inr, bytes_eq, ◌||◌, bytes_eq_iff,
  arith, if◌then◌else◌,
}
use local_tls.Errors.{ok}
use local_tls.TrustStore.{trust_healthy, trust_absent}
use local_tls.TrustStore.Contract.{any_matches, Installs, Removes, Verifies, IsTrustStore}
use local_tls.Tests.Toy.{toy, Blob, digest, trusted, same_digest, roots, listed, unlisted}
use local_tls.Tests.ToyRoot.{same_digest_iff, gained, lost}

same-bytes_eq : (d e : List ℕ) → same_digest d e ≡ bytes_eq e d
same-bytes_eq d e = ground (arith, same_digest_iff d e, bytes_eq_iff e d)

either : (t u : Bool) → (if t then true else u) ≡ (t || u)
either true u = refl
either false u = refl

trusted-any_matches : (d : List ℕ) (r : List Blob) → trusted d r ≡ any_matches toy d r
trusted-any_matches d [] = refl
trusted-any_matches d (b ∷ r) =
    rw (same-bytes_eq d (digest b), trusted-any_matches d r)
      (either (bytes_eq (digest b) d) (any_matches toy d r))

installs :
    (b : Blob) (r : List Blob) (t : Bool)
    → trusted (digest b) r ≡ t
    → Installs toy (digest b) r (listed b r).0 (listed b r).1
installs b r true e = rw e (inl (sym (trusted-any_matches (digest b) r) ∙ e, refl))
installs b r false e = rw e (inr (sym (trusted-any_matches (digest b) r) ∙ e, gained b r))

removes :
    (d : List ℕ) (r : List Blob) (t : Bool)
    → trusted d r ≡ t
    → Removes toy d r (unlisted d r).0 (unlisted d r).1
removes d r true e = rw e (lost d r e)
removes d r false e = rw e (refl, λ h. sym (trusted-any_matches d r) ∙ e)

missing_at :
    (d : List ℕ) (r : List Blob)
    → trusted d r ≡ false
    → any_matches toy d r ≡ true
    → (if false then trust_healthy else trust_absent) ≡ trust_healthy
missing_at d r e h = let same = trusted-any_matches d r in cc

verifies :
    (d : List ℕ) (r : List Blob) (t : Bool)
    → trusted d r ≡ t
    → Verifies toy d r (ok (if trusted d r then trust_healthy else trust_absent)) r
verifies d r true e = rw e (refl, (λ h. sym (trusted-any_matches d r) ∙ e, λ h. refl))
verifies d r false e = rw e (refl, (λ h. cc, λ h. missing_at d r e h))

pub roots-IsTrustStore : IsTrustStore {H = toy} (λ r. r) (λ _. Unit {0}) roots
roots-IsTrustStore = record {
  install = λ b r u. installs b r (trusted (digest b) r) refl;
  ensure = λ b r u. installs b r (trusted (digest b) r) refl;
  remove = λ b r u. removes (digest b) r (trusted (digest b) r) refl;
  remove_by_sha256 = λ d r u. removes d r (trusted d r) refl;
  verify = λ b r u. verifies (digest b) r (trusted (digest b) r) refl;
  is_trusted = λ d r u. (refl, trusted-any_matches d r);
}
