-- ===== src/Tests/StoreWitnesses.antt =====
-- The theorems about the certificate store and the exported keys, at concrete inputs.
use local_tls.Base.{ℕ, Option, sym, ap, List, length, ◌<◌}
use local_tls.Base.{true, false, some, none, ◌≡◌, refl, [], ◌∷◌, arith, if◌then◌else◌}
use local_tls.Errors.{Error, Outcome, ok, err, is_ok, errors_is, trust_anchor_not_found}
use local_tls.Identity.{tls_sub_dir, ca_cert_file}
use local_tls.World.{World, file}
use local_tls.Os.{join, path_eq}
use local_tls.TrustStore.{trust_healthy}
use local_tls.WinRoot.{
  remove_trust_by_sha256, find_cert_by_sha256, find_from, is_enum_end, get_cert_common_name,
  verify_trust, windows_trust_store, open_machine_root_store_read_only,
}
use local_tls.WinRoot.Search.{Answers, find_cert_by_sha256-Answers}
use local_tls.WinRoot.Refines.{windows_trust_store-IsTrustStore}
use local_tls.TrustStore.Contract.{IsTrustStore}
use local_tls.WinRoot.Change.{remove_absent}
use local_tls.WinRoot.Action
use local_tls.World.{◌>>=◌}
use local_tls.Os
use local_tls.Files
use local_tls.Material.{material_from_signers, tls_cert_from_signer}
use local_tls.Certificate.{
  or_now, create_ca_cert_self_signed, random_serial, draw_serial, parse_certificate,
  create_server_cert_with_pub,
}
use local_tls.Certificate.Times.{capped_server_not_after}
use local_tls.Legacy.{provision, first_provision, generate_ca, generate_server_cert, material_from}
use local_tls.Legacy.Partial.{untroubled, provision_refuses_partial}
use local_tls.Legacy.RoundTrip.{Recovers, KeyOnDisk, provision_keeps_key}
use local_tls.World.Keeps.{Keeps-gets}
use local_tls.Tests.Witnesses.{material_of, returned}
use local_tls.Tests.ToyLegacy.{exported, plain, key_of}
use local_tls.Tests.ToyRoot.{crypto, enumerates, crypto-Opens, releases, edits}
use local_tls.Tests.Toy.{Blob}
use local_tls.Tests.Toy.{toy, roots, fresh, junk}

-- The certificate store, with two certificates.
abbrev two : List Blob
two = junk 3 ∷ junk 4 ∷ []

find_cert_by_sha256-Answers_example :
    Answers crypto (4 ∷ 0 ∷ []) two (find_cert_by_sha256 crypto 3 1 (4 ∷ 0 ∷ []) two).0
    × ((find_cert_by_sha256 crypto 3 1 (4 ∷ 0 ∷ []) two).1 ≡ two)
find_cert_by_sha256-Answers_example =
    find_cert_by_sha256-Answers enumerates 3 1 (4 ∷ 0 ∷ []) two refl (omega arith)

verify_answers : (verify_trust crypto 3 (junk 4) two).0 ≡ ok trust_healthy
unfolding verify_trust find_cert_by_sha256 find_from is_enum_end get_cert_common_name
    open_machine_root_store_read_only Action.◌>>=◌
verify_answers = refl

windows_trust_store-IsTrustStore_example :
    IsTrustStore {H = toy} (λ r. r) (λ r. length r < 3) (windows_trust_store crypto 3)
windows_trust_store-IsTrustStore_example =
    windows_trust_store-IsTrustStore enumerates crypto-Opens releases edits 3

remove_absent_example :
    ((e : Error) × ((remove_trust_by_sha256 crypto 3 (9 ∷ []) two).0 ≡ err e)
      × (errors_is e trust_anchor_not_found ≡ true))
    × ((remove_trust_by_sha256 crypto 3 (9 ∷ []) two).1 ≡ two)
remove_absent_example =
    remove_absent enumerates crypto-Opens releases 3 (9 ∷ []) two 1 refl (omega arith) refl

-- A directory with the CA certificate and nothing else.
abbrev lone : World toy
lone = record fresh {
  fs = λ q.
      if path_eq q (join (join [] tls_sub_dir) ca_cert_file)
      then some (file 0o600 (junk 2))
      else none;
}

provision_refuses_partial_example :
    (is_ok (provision exported plain [] roots none (untroubled lone)).0 ≡ false)
    × ((provision exported plain [] roots none (untroubled lone)).1 ≡ untroubled lone)
provision_refuses_partial_example =
    provision_refuses_partial exported plain roots [] none lone refl refl

abbrev key_in : Outcome Blob → Outcome (Option ℕ)
key_in (ok b) = key_of b
key_in (err e) = err e

recovers : Recovers exported plain
recovers = record { unprotects = λ b s e. cc; parses = λ k b e. sym (ap key_in e) }

exporting_works : is_ok (provision exported plain [] roots none fresh).0 ≡ true
unfolding provision ◌>>=◌ Files.all_files_exist Files.file_exists Os.stat Os.os_call first_provision
    Files.any_file_exists Os.mkdir_all generate_ca or_now create_ca_cert_self_signed random_serial
    draw_serial parse_certificate generate_server_cert create_server_cert_with_pub
    capped_server_not_after Files.atomic_write Os.create_temp Os.write Os.sync Os.close Os.chmod
    Os.rename Os.remove Files.discard material_from material_from_signers tls_cert_from_signer
exporting_works = refl

provision_keeps_key_example :
    KeyOnDisk recovers
      (join [] tls_sub_dir)
      (material_of (provision exported plain [] roots none fresh).0)
      (provision exported plain [] roots none fresh).1
provision_keeps_key_example =
    provision_keeps_key recovers roots [] none (Keeps-gets _) fresh
      (material_of (provision exported plain [] roots none fresh).0) (returned _ exporting_works)
