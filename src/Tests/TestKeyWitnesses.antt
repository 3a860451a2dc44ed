-- ===== src/Tests/TestKeyWitnesses.antt =====
-- The theorems about fingerprints, test keys, the smoke path and the verify command, at concrete
-- inputs.
use local_tls.Base.{
  ℕ, ◌+◌, String, true, List, [], ◌∷◌, ◌++◌, map, length, ◌≡◌, ◌↔◌, ◌⊎◌, refl, arith,
}
use local_tls.Errors.{ok, is_ok}
use local_tls.Host.{FilePath, name, ecdsa, p256, Signer}
use local_tls.Identity.{
  prod_ca_key_name, prod_server_key_name, smoke_ca_key_name, smoke_server_key_name,
}
use local_tls.World.{M, on_root}
use local_tls.Os.{remove_all}
use local_tls.Runes.{Runes, codes, to_lower, trim_space, trim_left, is_space}
use local_tls.Runes.Trim.{AllSpace}
use local_tls.Files.{file_exists}
use local_tls.Fingerprint.{parse_sha256_fingerprint, hex_encode, hex_decode, hex_value, copied}
use local_tls.Fingerprint.Exact.{AllBytes, parse_fingerprint_iff, parse-encode}
use local_tls.TestKeys.{test_create_key, test_open_key, test_delete_key, test_sign_and_verify}
use local_tls.TestKeys.Isolated.{test_keys_isolated}
use local_tls.TestKeys.Signing.{Verifies, test_digest, test_sign_iff}
use local_tls.Machine.Balance.{left_open}
use local_tls.Smoke.{preflight_smoke_state, provision_smoke, cleanup_smoke, cleanup_smoke_with}
use local_tls.Smoke.Preflight.{KeyMissing, preflight_smoke_iff}
use local_tls.Smoke.Balance.{provision_smoke_balance}
use local_tls.Smoke.Isolated.{smoke_isolated}
use local_tls.Smoke.Reports.{
  GoneOr, no_key, no_anchor, after_ca, before_removal, cleanup_smoke_reports_iff,
}
use local_tls.VerifyCommand.{run}
use local_tls.VerifyCommand.Usage.{misused, Ended, run-Ended}
use local_tls.VerifyCommand.Balance.{verify_command_balance}
use local_tls.VerifyCommand.Isolated.{verify_command_isolated}
use local_tls.VerifyCommand.Fingerprints.{trust_is_iff}
use local_tls.Tests.Toy.{toy, cng, roots, closes, opens, fresh, junk}
use local_tls.Tests.ToyCommand.{names, signing, opens_nothing, shell}

-- Thirty-two bytes.
abbrev eight : List ℕ
eight = 0x01 ∷ 0x23 ∷ 0x45 ∷ 0x67 ∷ 0x89 ∷ 0xab ∷ 0xcd ∷ 0xef ∷ []

abbrev print : List ℕ
print = eight ++ (eight ++ (eight ++ eight))

abbrev spelled : Runes
spelled = codes "  0123456789ABCDEF0123456789abcdef0123456789abcdef0123456789abcdef\n"

spelled_read : parse_sha256_fingerprint spelled ≡ ok print
unfolding parse_sha256_fingerprint trim_space trim_left is_space hex_decode hex_value copied
spelled_read = refl

parse_fingerprint_iff_example : (parse_sha256_fingerprint spelled ≡ ok print) ↔ (
    (length print ≡ 32) × AllBytes print × (map to_lower (trim_space spelled) ≡ hex_encode print))
parse_fingerprint_iff_example = parse_fingerprint_iff spelled print

blank : AllSpace (32 ∷ 9 ∷ []) × AllSpace (10 ∷ [])
unfolding is_space
blank = ((refl, (refl, tt)), (refl, tt))

parse-encode_example :
    parse_sha256_fingerprint ((32 ∷ 9 ∷ []) ++ (hex_encode print ++ (10 ∷ []))) ≡ ok print
parse-encode_example = parse-encode (32 ∷ 9 ∷ []) print (10 ∷ []) blank.0 blank.1 refl (omega arith)

-- Test keys: the name of a production key is refused.
test_keys_isolated_example :
    ((test_create_key cng prod_ca_key_name fresh.keys).1.stored prod_ca_key_name
      ≡ fresh.keys.stored prod_ca_key_name)
    × ((test_open_key cng prod_ca_key_name fresh.keys).1.stored prod_ca_key_name
        ≡ fresh.keys.stored prod_ca_key_name)
    × ((test_delete_key cng prod_ca_key_name fresh.keys).1.stored prod_ca_key_name
        ≡ fresh.keys.stored prod_ca_key_name)
test_keys_isolated_example =
    test_keys_isolated names prod_ca_key_name fresh.keys refl prod_ca_key_name

abbrev signer : Signer
signer = record { handle = 3; public_key = ecdsa p256 3 1; closer = true }

test_sign_iff_example :
    ((test_sign_and_verify signing signer fresh).0 ≡ ok tt)
    ↔ Verifies signing signer (signing.sign signer (test_digest signing) fresh.keys).0
test_sign_iff_example = test_sign_iff signing signer fresh

-- The smoke path, under a directory of its own.
abbrev smoke_root : FilePath
smoke_root = name "smoke" ∷ []

preflight_smoke_iff_example :
    ((preflight_smoke_state smoke_root (test_open_key cng) fresh).0 ≡ ok tt) ↔ (
      ((file_exists smoke_root fresh).0 ≡ ok true)
      ⊎ KeyMissing (test_open_key cng smoke_ca_key_name fresh.keys).0)
preflight_smoke_iff_example = preflight_smoke_iff (test_open_key cng) smoke_root fresh

provision_smoke_balance_example :
    (provision_smoke cng roots smoke_root fresh).1.keys.open' 11
    ≡ fresh.keys.open' 11 + left_open (provision_smoke cng roots smoke_root fresh).0 11
provision_smoke_balance_example = provision_smoke_balance opens closes roots smoke_root fresh 11

smoke_isolated_example :
    ((provision_smoke cng roots smoke_root fresh).1.keys.stored prod_server_key_name
      ≡ fresh.keys.stored prod_server_key_name)
    × ((cleanup_smoke cng roots smoke_root (junk 7) fresh).1.keys.stored prod_server_key_name
        ≡ fresh.keys.stored prod_server_key_name)
smoke_isolated_example =
    smoke_isolated names prod_server_key_name refl roots smoke_root fresh (junk 7)

abbrev no_trust : M toy (Unit {0})
no_trust = on_root {H = toy} (roots.remove_trust (junk 7))

cleanup_smoke_reports_iff_example :
    ((cleanup_smoke_with smoke_root no_trust (test_delete_key cng) fresh).1
      ≡ (remove_all {H = toy} smoke_root (before_removal no_trust (test_delete_key cng) fresh)).1)
    × (((cleanup_smoke_with smoke_root no_trust (test_delete_key cng) fresh).0 ≡ ok []) ↔ (
        GoneOr no_anchor (no_trust fresh).0
        × GoneOr no_key (test_delete_key cng smoke_ca_key_name (no_trust fresh).1.keys).0
        × GoneOr no_key
            (test_delete_key cng smoke_server_key_name
              (after_ca no_trust (test_delete_key cng) fresh)).0
        × (is_ok
              (remove_all {H = toy} smoke_root
                (before_removal no_trust (test_delete_key cng) fresh)).0
            ≡ true)))
cleanup_smoke_reports_iff_example =
    cleanup_smoke_reports_iff no_trust (test_delete_key cng) fresh smoke_root

-- The verify command.
abbrev create_args : List String
create_args = "verify" ∷ "-create" ∷ []

run-Ended_example :
    Ended (misused shell create_args) fresh (run cng signing roots shell create_args fresh)
run-Ended_example = run-Ended cng signing roots shell create_args fresh

verify_command_balance_example :
    (run cng signing roots shell create_args fresh).1.keys.open' 10 ≡ fresh.keys.open' 10
verify_command_balance_example =
    verify_command_balance closes opens opens_nothing roots shell create_args fresh 10

verify_command_isolated_example :
    (run cng signing roots shell create_args fresh).1.keys.stored prod_ca_key_name
    ≡ fresh.keys.stored prod_ca_key_name
verify_command_isolated_example =
    verify_command_isolated names prod_ca_key_name refl signing (λ s hash k. refl) roots shell
      create_args fresh

trust_is_iff_example :
    ((run cng signing roots shell ("verify" ∷ "-trust-is" ∷ "abc" ∷ []) fresh).0 ≡ ok 0) ↔ (
      (fp : List ℕ) × (parse_sha256_fingerprint (codes "abc") ≡ ok fp)
      × ((roots.is_trusted_sha256 fp fresh.root).0 ≡ ok true))
trust_is_iff_example = trust_is_iff cng signing roots shell "verify" "abc" [] fresh
