-- ===== src/Tests/Runs.antt =====
-- Provisioning, serving, reloading and cleanup on a fresh machine.
use local_tls.Base.{ℕ, ◌+◌, List, [], ◌∷◌, ◌≡◌, refl}
use local_tls.Errors.{Error, Outcome, ok, err, text, wrap}
use local_tls.World.{World, ◌>>=◌}
use local_tls.Base.Int.{pos, ◌+ℤ◌, ◌-ℤ◌}
use local_tls.Material.{
  Material, material_from_signers, provision_state_inconsistent, tls_cert_from_signer,
}
use local_tls.Os
use local_tls.Files.{file_exists, atomic_write, discard}
use local_tls.Certificate.{
  parse_certificate, verify_public_key_match, validate_ca_lifetime, random_serial,
  create_ca_cert_self_signed, create_server_cert_with_pub, generate_ca_with_signer,
  generate_server_cert_with_signer,
}
use local_tls.Certificate.San.{validate_san, ip_equal}
use local_tls.Certificate.Times.{needs_renewal, capped_server_not_after}
use local_tls.KeyStore.{
  map_cng_error, close_signer, close_production_signer, load_or_create_key, open_production_key,
  delete_production_key,
}
use local_tls.Provision.{
  load_ca_signer, load_server_signer, renew_if_needed, reload_with_key_store,
  first_provision_with_key_store, provision_with_key_store,
}
use local_tls.Machine.{
  machine_agent_path, machine_tls_path, check_inconsistent_machine_state, probe_key,
  load_serving_checked, load_serving_material, reload_machine, provision_machine,
}
use local_tls.Cleanup.{
  append_cleanup_error, remove_state_dir, delete_keys, cleanup_local_tls, cleanup_machine,
}
use local_tls.Tests.Toy.{toy, cng, roots, fresh}

abbrev fingerprint : Outcome (Material toy) → List ℕ
fingerprint (ok m) = m.ca_fingerprint_sha256
fingerprint (err e) = []

abbrev open_handles : World toy → ℕ
open_handles w = w.keys.open' 10 + w.keys.open' 11

-- The line names what the runs of this file call.
unfoldable pub provisioned : Outcome (Material toy) × World toy
unfolding provision_machine load_serving_material reload_machine cleanup_machine ◌>>=◌
    machine_agent_path check_inconsistent_machine_state probe_key provision_with_key_store
    provision_state_inconsistent file_exists Os.stat Os.os_call open_production_key
    load_or_create_key first_provision_with_key_store Os.mkdir_all close_signer
    generate_ca_with_signer create_ca_cert_self_signed random_serial parse_certificate
    generate_server_cert_with_signer create_server_cert_with_pub capped_server_not_after
    atomic_write Os.create_temp Os.write Os.sync Os.close Os.chmod Os.rename Os.remove
    material_from_signers tls_cert_from_signer close_production_signer map_cng_error
    load_serving_checked verify_public_key_match validate_san ip_equal renew_if_needed needs_renewal
    reload_with_key_store load_ca_signer load_server_signer Os.read_file cleanup_local_tls
    delete_keys append_cleanup_error remove_state_dir Os.remove_all delete_production_key
    machine_tls_path validate_ca_lifetime discard ◌+ℤ◌ ◌-ℤ◌
provisioned = provision_machine cng roots fresh

-- The first provisioning makes a CA, and leaves the server key open.
provision_fingerprint : fingerprint provisioned.0 ≡ 7 ∷ []
unfolding provisioned
provision_fingerprint = refl

provision_handles : open_handles provisioned.1 ≡ 1
unfolding provisioned
provision_handles = refl

unfoldable pub served : Outcome (Material toy) × World toy
unfolding provisioned
served = load_serving_material cng roots provisioned.1

served_fingerprint : fingerprint served.0 ≡ 7 ∷ []
unfolding served
served_fingerprint = refl

-- Provisioning again keeps the CA.
again : Outcome (Material toy) × World toy
unfolding provisioned
again = provision_machine cng roots provisioned.1

again_fingerprint : fingerprint again.0 ≡ 7 ∷ []
unfolding again
again_fingerprint = refl

-- Eighty days later the server certificate is due; a reload issues one that lasts 90 days more.
abbrev later : World toy
later = record provisioned.1 { clock = pos 806_912_000_000_000_000; random = ok (9 ∷ []) ∷ [] }

renewed : Outcome (Material toy) × World toy
unfolding provisioned
renewed = reload_machine cng roots later

serial_of : Outcome (Material toy) → ℕ
serial_of (ok m) = m.server_certificate.serial
serial_of (err e) = 0

renewed_serial : serial_of renewed.0 ≡ 9
unfolding renewed serial_of
renewed_serial = refl

renewed_fingerprint : fingerprint renewed.0 ≡ 7 ∷ []
unfolding renewed
renewed_fingerprint = refl

-- Removal leaves no anchor; the second removal reports the missing certificate.
unfoldable pub cleaned : Outcome (List Error) × World toy
unfolding provisioned
cleaned = cleanup_machine cng roots provisioned.1

cleaned_errors : cleaned.0 ≡ ok []
unfolding cleaned
cleaned_errors = refl

cleaned_anchors : cleaned.1.root ≡ []
unfolding cleaned
cleaned_anchors = refl

cleaned_again :
    (cleanup_machine cng roots cleaned.1).0
    ≡ ok (wrap "remove CA trust anchor" (text "CA certificate DER is missing") ∷ [])
unfolding cleaned
cleaned_again = refl
