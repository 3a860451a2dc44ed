-- ===== src/Tests/ExampleWitnesses.antt =====
-- The example programs, at concrete inputs.
use local_tls.Base.{◌+◌, ◌≡◌, refl}
use local_tls.Errors.{Outcome, err, text}
use local_tls.Material.{TlsCertificate}
use local_tls.Machine.{load_serving_material}
use local_tls.Runes.{trim_space, trim_left, is_space}
use local_tls.Fingerprint.{parse_sha256_fingerprint, hex_decode, hex_value}
use local_tls.Examples.{serving_main, fingerprint_main}
use local_tls.Examples.Balance.{unreleased, serving_main_balance}
use local_tls.Tests.Toy.{toy, cng, roots, closes, opens}
use local_tls.Tests.Runs.{provisioned}

-- A port that cannot be bound.
abbrev refuse : TlsCertificate toy → Outcome (Unit {0})
refuse cert = err (text "listen tcp: address in use")

serving_main_balance_example :
    (serving_main cng roots refuse provisioned.1).1.keys.open' 11
    ≡ provisioned.1.keys.open' 11
      + unreleased refuse (load_serving_material cng roots provisioned.1).0 11
serving_main_balance_example = serving_main_balance closes opens roots refuse provisioned.1 11

parsed : fingerprint_main ≡ 0
unfolding fingerprint_main parse_sha256_fingerprint trim_space trim_left is_space hex_decode
    hex_value
parsed = refl
