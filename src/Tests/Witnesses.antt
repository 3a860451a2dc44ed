-- ===== src/Tests/Witnesses.antt =====
-- The theorems about the machine entry points, the files and the cleanup, at concrete inputs.
use local_tls.Base.{◌+◌, true, false, some, none, ◌≡◌, ◌≢◌, refl, str_eq, [], ◌∷◌, if◌then◌else◌}
use local_tls.Base.Int.{pos}
use local_tls.Errors.{Outcome, ok, err, is_ok}
use local_tls.Host.{Certificate, ecdsa, p256}
use local_tls.Identity.{prod_ca_key_name, tls_sub_dir, ca_cert_file}
use local_tls.World.{World, file, directory}
use local_tls.Os.{join}
use local_tls.Files.{atomic_write}
use local_tls.Files.Atomic.{atomic_write_all_or_nothing}
use local_tls.Certificate.San.{loopback6}
use local_tls.KeyStore.{open_production_key}
use local_tls.Material.{Material, material_from_signers}
use local_tls.Provision.Persist.{Persisted}
use local_tls.Machine.{
  provision_machine, load_serving_material, reload_machine, check_inconsistent_machine_state,
}
use local_tls.Machine.ReadOnly.{agent_root, durable, serving_read_only, provision_fails_closed}
use local_tls.Machine.Balance.{
  left_open, load_serving_balance, reload_machine_balance, provision_machine_balance,
}
use local_tls.Machine.Verified.{Vouched, load_serving-Vouched}
use local_tls.Machine.Persist.{provision_machine_persists}
use local_tls.Machine.Calm.{provision_machine_calm}
use local_tls.Tests.ToyCalm.{windows_roots, provides, fresh-Open}
use local_tls.Machine.Served.{provision-load_serving}
use local_tls.Machine.Trusted.{provision_machine_trusted}
use local_tls.TrustStore.Contract.{any_matches}
use local_tls.Tests.ToyTrust.{roots-IsTrustStore}
use local_tls.Machine.Reloaded.{Reloaded, reload_machine-Reloaded}
use local_tls.Tests.Toy.{
  toy, cng, roots, closes, opens, seen, read_only, fresh, junk, empty, digest,
}
use local_tls.Tests.Runs.{provisioned, served}

-- Handles: the server key's is number 11.
provision_machine_balance_example :
    (provision_machine cng roots fresh).1.keys.open' 11
    ≡ fresh.keys.open' 11 + left_open (provision_machine cng roots fresh).0 11
provision_machine_balance_example = provision_machine_balance closes opens roots fresh 11

load_serving_balance_example :
    (load_serving_material cng roots provisioned.1).1.keys.open' 11
    ≡ provisioned.1.keys.open' 11 + left_open (load_serving_material cng roots provisioned.1).0 11
load_serving_balance_example = load_serving_balance closes opens roots provisioned.1 11

reload_machine_balance_example :
    (reload_machine cng roots provisioned.1).1.keys.open' 10
    ≡ provisioned.1.keys.open' 10 + left_open (reload_machine cng roots provisioned.1).0 10
reload_machine_balance_example = reload_machine_balance closes opens roots provisioned.1 10

-- The material that serving returns after the provisioning.
abbrev pub nobody : Certificate toy
nobody = record {
  raw = empty;
  info = record {
    serial = 0;
    common_name = "";
    organization = [];
    not_before = pos 100;
    not_after = pos 900;
    is_ca = true;
    basic_constraints_valid = true;
    max_path_len = 0;
    max_path_len_zero = true;
    key_usage = 32;
    ext_key_usage = [];
    dns_names = "localhost" ∷ [];
    ip_addresses = loopback6 ∷ (127 ∷ 0 ∷ 0 ∷ 1 ∷ []) ∷ [];
  };
  public_key = ecdsa p256 1 2;
}

abbrev pub material_of : Outcome (Material toy) → Material toy
material_of (ok m) = m
material_of (err e) =
    material_from_signers nobody nobody
      (record { handle = 0; public_key = ecdsa p256 1 2; closer = false })

pub returned : (r : Outcome (Material toy)) → is_ok r ≡ true → r ≡ ok (material_of r)
returned (ok m) e = refl
returned (err x) e = cc

serving_works : is_ok (load_serving_material cng roots provisioned.1).0 ≡ true
unfolding served
serving_works = refl

load_serving-Vouched_example :
    Vouched roots
      (join (agent_root provisioned.1) tls_sub_dir)
      provisioned.1.fs
      provisioned.1.root
      (material_of (load_serving_material cng roots provisioned.1).0)
load_serving-Vouched_example =
    load_serving-Vouched provisioned.1 cng roots
      (material_of (load_serving_material cng roots provisioned.1).0) (returned _ serving_works)

reload_works : is_ok (reload_machine cng roots provisioned.1).0 ≡ true
unfolding served
reload_works = refl

reload_machine-Reloaded_example :
    Reloaded cng roots
      (join (agent_root provisioned.1) tls_sub_dir)
      provisioned.1.fs
      provisioned.1.root
      provisioned.1.keys
      provisioned.1.clock
      (material_of (reload_machine cng roots provisioned.1).0)
    × Persisted
        (join (agent_root provisioned.1) tls_sub_dir)
        (material_of (reload_machine cng roots provisioned.1).0)
        (reload_machine cng roots provisioned.1).1
reload_machine-Reloaded_example =
    reload_machine-Reloaded provisioned.1 cng roots
      (material_of (reload_machine cng roots provisioned.1).0) (returned _ reload_works)

provisioning_works : is_ok (provision_machine cng roots fresh).0 ≡ true
unfolding provisioned
provisioning_works = refl

provision_machine_persists_example :
    Persisted
      (join (agent_root fresh) tls_sub_dir)
      (material_of (provision_machine cng roots fresh).0)
      (provision_machine cng roots fresh).1
provision_machine_persists_example =
    provision_machine_persists cng roots fresh (material_of (provision_machine cng roots fresh).0)
      (returned _ provisioning_works)

provision_machine_trusted_example :
    any_matches toy
      (material_of (provision_machine cng roots fresh).0).ca_fingerprint_sha256
      (provision_machine cng roots fresh).1.root
    ≡ true
provision_machine_trusted_example =
    provision_machine_trusted roots-IsTrustStore cng fresh
      (material_of (provision_machine cng roots fresh).0) (returned _ provisioning_works)

serving_there :
    is_ok (load_serving_material cng roots (provision_machine cng roots fresh).1).0 ≡ true
unfolding served
serving_there = refl

provision-load_serving_example :
    let first = material_of (provision_machine cng roots fresh).0 in
    let then' =
      material_of (load_serving_material cng roots (provision_machine cng roots fresh).1).0 in
    (then'.ca_certificate.raw ≡ first.ca_certificate.raw)
    × (then'.server_certificate.raw ≡ first.server_certificate.raw)
    × (then'.ca_fingerprint_sha256 ≡ digest first.ca_certificate.raw)
provision-load_serving_example =
    provision-load_serving cng roots fresh (material_of (provision_machine cng roots fresh).0)
      (material_of (load_serving_material cng roots (provision_machine cng roots fresh).1).0)
      (returned _ provisioning_works) (returned _ serving_there)

provision_machine_calm_example : is_ok (provision_machine cng windows_roots fresh).0 ≡ true
provision_machine_calm_example =
    provision_machine_calm provides 4 (5 ∷ 6 ∷ []) fresh refl fresh-Open

-- A CA key without any certificate.
abbrev orphaned : World toy
orphaned = record fresh {
  keys = record {
    stored = λ t. if str_eq t prod_ca_key_name then some (ecdsa p256 3 1) else none;
    made = 4;
    open' = λ j. 0;
  };
}

refuses :
    (check_inconsistent_machine_state (agent_root orphaned) (open_production_key cng) orphaned).0
    ≢ ok false
unfolding served
refuses e = cc

provision_fails_closed_example :
    (is_ok (provision_machine cng roots orphaned).0 ≡ false)
    × (durable seen (provision_machine cng roots orphaned).1 ≡ durable seen orphaned)
provision_fails_closed_example = provision_fails_closed read_only orphaned refuses

serving_read_only_example :
    durable seen (load_serving_material cng roots provisioned.1).1 ≡ durable seen provisioned.1
serving_read_only_example = serving_read_only read_only provisioned.1

-- A directory with one file, and a disk that is full at the second call.
abbrev full : World toy
full = record fresh {
  fs = λ p. elim p [ [] ↦ some directory | _ ↦ none ];
  faults = none ∷ some 28 ∷ [];
}

atomic_write_all_or_nothing_example :
    (atomic_write {H = toy} (join [] ca_cert_file) (junk 5) 0o600 full).1.fs (join [] ca_cert_file)
    ≡ (if is_ok (atomic_write {H = toy} (join [] ca_cert_file) (junk 5) 0o600 full).0
        then some (file 0o600 (junk 5))
        else full.fs (join [] ca_cert_file))
atomic_write_all_or_nothing_example =
    atomic_write_all_or_nothing [] ca_cert_file (junk 5) 0o600 full
