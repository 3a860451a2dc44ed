-- ===== src/VerifyCommand/Usage/Misuse.antt =====
-- Which command lines the verify command refuses, apart from its code, and how a run then ends.
use local_tls.Base.{
  ℕ, ◌≤◌, String, Bool, true, false, List, [], ◌∷◌, ◌≡◌, if◌then◌else◌, not, ◌||◌, ◌↔◌, str_eq,
  str_append, starts_with,
}
use local_tls.Errors.{Outcome, ok, err, is_ok}
use local_tls.Host.{Host}
use local_tls.World.{World}
use local_tls.Runes.{codes}
use local_tls.Fingerprint.{parse_sha256_fingerprint}
use local_tls.Identity.{env_prefix, test_key_namespace}
use local_tls.VerifyCommand.{Process}

-- The arguments after the operation lack the one that it needs.
abbrev pub missing : List String → Bool
missing [] = true
missing (argument ∷ rest) = false

-- The argument is missing, or `ParseSHA256Fingerprint` refuses it.
abbrev pub malformed : List String → Bool
malformed [] = true
malformed (argument ∷ rest) = not (is_ok (parse_sha256_fingerprint (codes argument)))

-- The name from the environment is set and lies outside the test namespace.
abbrev pub foreign : String → Bool
foreign name = not (str_eq name "" || starts_with name test_key_namespace)

abbrev pub among : String → List String → Bool
among s [] = false
among s (t ∷ ts) = str_eq s t || among s ts

abbrev pub key_operations : List String
key_operations = "-create" ∷ "-open" ∷ "-sign" ∷ "-delete" ∷ []

abbrev pub pem_operations : List String
pem_operations = "-trust-install" ∷ "-trust-verify" ∷ "-trust-remove" ∷ []

-- The usage errors: no operation or an unknown one, a key operation with a foreign name in the
-- environment, a trust operation without its argument, or with a malformed fingerprint.
abbrev pub misused : {H : Host} → Process H → List String → Bool
misused p [] = true
misused p (program ∷ []) = true
misused p (program ∷ operation ∷ rest) =
    if among operation key_operations
    then foreign (p.getenv (str_append env_prefix "_VERIFY_KEY_NAME"))
    else if among operation pem_operations
    then missing rest
    else if among operation ("-trust-is" ∷ [])
    then malformed rest
    else true

-- The process ends with exit code 0, 1 or 2: with 2 exactly on a usage error, and then nothing was
-- done.
abbrev pub Ended : {H : Host} → Bool → World H → Outcome ℕ × World H → Type 0
Ended usage_error w (ok code, v) =
    (code ≤ 2) × ((code ≡ 2) ↔ (usage_error ≡ true)) × (code ≡ 2 → v ≡ w)
Ended usage_error w (err e, v) = ⊥
