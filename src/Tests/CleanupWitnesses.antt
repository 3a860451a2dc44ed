-- ===== src/Tests/CleanupWitnesses.antt =====
-- The theorems about the cleanup, at concrete inputs.
use local_tls.Base.{
  true, some, none, ◌≡◌, ◌↔◌, refl, [], ◌∷◌, Option, String, str_eq_iff, false, subst,
}
use local_tls.Errors.{
  Outcome, ok, err, is_ok, errors_is, key_not_found, trust_anchor_not_found, Error,
}
use local_tls.Host.{PublicKey}
use local_tls.Identity.{prod_ca_key_name, prod_server_key_name, tls_sub_dir, ca_cert_file}
use local_tls.World.{M, on_root}
use local_tls.Host.{FilePath}
use local_tls.Os.{join, under}
use local_tls.KeyStore.{delete_production_key, platform_key_deleter}
use local_tls.Machine.ReadOnly.{agent_root}
use local_tls.Cleanup.{cleanup_local_tls, cleanup_machine, remove_state_dir}
use local_tls.Cleanup.Reports.{Excused, before_dir, cleanup_attempts_all, cleanup_reports_iff}
use local_tls.Cleanup.Confined.{cleanup_machine_confined}
use local_tls.Cleanup.Emptied.{Deletes, Empty, Rooted, cleanup_machine_empties}
use local_tls.Tests.Toy.{toy, cng, roots, fresh, Provider, delete_found}
use local_tls.Tests.ToyCommand.{names}
use local_tls.Tests.Runs.{provisioned, cleaned}

abbrev drop_anchor : M toy (Unit {0})
drop_anchor = on_root {H = toy} (roots.remove_trust_by_sha256 (7 ∷ []))

cleanup_reports_iff_example :
    ((cleanup_local_tls
        (join [] tls_sub_dir)
        (some (platform_key_deleter cng))
        (some drop_anchor)
        provisioned.1).0
      ≡ ok [])
    ↔ (Excused (drop_anchor provisioned.1).0
        × Excused (delete_production_key cng prod_ca_key_name (drop_anchor provisioned.1).1.keys).0
        × Excused
            (delete_production_key cng prod_server_key_name
              (delete_production_key cng prod_ca_key_name (drop_anchor provisioned.1).1.keys).1).0
        × (is_ok
              (remove_state_dir {H = toy}
                (join [] tls_sub_dir)
                (before_dir (platform_key_deleter cng) drop_anchor provisioned.1)).0
            ≡ true))
cleanup_reports_iff_example =
    cleanup_reports_iff (platform_key_deleter cng) drop_anchor provisioned.1 (join [] tls_sub_dir)

cleanup_attempts_all_example :
    ((cleanup_local_tls
        (join [] tls_sub_dir)
        (some (platform_key_deleter cng))
        (some drop_anchor)
        provisioned.1).1
      ≡ (remove_state_dir {H = toy}
          (join [] tls_sub_dir)
          (before_dir (platform_key_deleter cng) drop_anchor provisioned.1)).1)
    × (is_ok
          (cleanup_local_tls
            (join [] tls_sub_dir)
            (some (platform_key_deleter cng))
            (some drop_anchor)
            provisioned.1).0
        ≡ true)
cleanup_attempts_all_example =
    cleanup_attempts_all (platform_key_deleter cng) drop_anchor provisioned.1 (join [] tls_sub_dir)

cleanup_machine_confined_example :
    (cleanup_machine cng roots provisioned.1).1.fs (agent_root fresh)
    ≡ provisioned.1.fs (agent_root fresh)
unfolding provisioned
cleanup_machine_confined_example =
    cleanup_machine_confined cng roots provisioned.1 (agent_root fresh) refl

abbrev Foreign : Outcome (Unit {0}) → Type 0
Foreign (ok u) = Unit {0}
Foreign (err x) = (errors_is x key_not_found ≡ false) × (errors_is x trust_anchor_not_found ≡ false)

deletes : Deletes names
deletes = record {
  deleted = λ t k e. gone_at (k.stored t) t k refl;
  missing = λ t k x e i. gone_at (k.stored t) t k refl;
  foreign = λ t k x e. foreign_at (k.stored t) t k x e;
}
  where
    gone_at :
        (o : Option PublicKey) (t : String) (k : Provider)
        → k.stored t ≡ o
        → (delete_found o t k).1.stored t ≡ none
    gone_at none t k e = e
    gone_at (some key) t k e = rw ((str_eq_iff t t).1 refl) refl

    foreign_at :
        (o : Option PublicKey) (t : String) (k : Provider) (x : Error)
        → (delete_found o t k).0 ≡ err x
        → (errors_is x key_not_found ≡ false) × (errors_is x trust_anchor_not_found ≡ false)
    foreign_at none t k x e = subst Foreign e (refl, refl)
    foreign_at (some key) t k x e = cc

cleaning_works : (cleanup_machine cng roots provisioned.1).0 ≡ ok []
unfolding cleaned
cleaning_works = refl

-- The CA certificate that provisioning wrote.
abbrev ca_path : FilePath
ca_path = join (join (agent_root provisioned.1) tls_sub_dir) ca_cert_file

ca_path_inside : under (join (agent_root provisioned.1) tls_sub_dir) ca_path ≡ true
unfolding provisioned
ca_path_inside = refl

ca_path-Rooted : Rooted (join (agent_root provisioned.1) tls_sub_dir) ca_path provisioned.1
unfolding provisioned
ca_path-Rooted e = cc

cleanup_machine_empties_example :
    Empty deletes roots provisioned.1 ca_path (cleanup_machine cng roots provisioned.1).1
cleanup_machine_empties_example =
    cleanup_machine_empties deletes roots provisioned.1 ca_path ca_path_inside ca_path-Rooted
      cleaning_works
