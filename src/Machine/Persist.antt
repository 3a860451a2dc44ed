-- ===== src/Machine/Persist.antt =====
-- What is on disk when `ProvisionMachine` returns material.
use local_tls.Base.{Bool, true, false, none, ◌≡◌, refl, subst}
use local_tls.Errors.{ok}
use local_tls.Host.{Host, FilePath}
use local_tls.Identity.{tls_sub_dir}
use local_tls.World.{World}
use local_tls.World.Keeps.{keeps_rules}
use local_tls.World.Hoare.{
  Triple, Triple-bind, Triple-context, Triple-weaken, Triple-anything, Triple-fact, Triple-result,
  Triple-raise, Triple-returns, Unclaimed,
}
use local_tls.Os.{join}
use local_tls.KeyStore.{Windowscng, platform_key_store}
use local_tls.TrustStore.{TrustStore}
use local_tls.Material.{Material}
use local_tls.Provision.Persist.{Persisted, provision_triple}
use local_tls.Machine
use local_tls.Machine.ReadOnly.{agent_root}
use local_tls.Machine.Verified.{agent_path_triple}

module _ {H : Host} (c : Windowscng H) (ts : TrustStore H) where
  unless_triple :
      (root : FilePath) (inconsistent : Bool)
      → Triple
          (λ _. Unit {0})
          (Machine.provision_unless c ts root inconsistent)
          (Persisted (join root tls_sub_dir))
          Unclaimed
  unfolding Machine.provision_unless
  unless_triple root true = Triple-raise _ (λ w h. tt)
  unless_triple root false =
      provision_triple root (platform_key_store c) ts none true (search keeps_rules)

  at_triple :
      (root : FilePath)
      → Triple
          (λ _. Unit {0})
          (Machine.provision_at c ts root)
          (Persisted (join root tls_sub_dir))
          Unclaimed
  unfolding Machine.provision_at
  at_triple root =
      Triple-bind {Q = λ _ _. Unit {0}} Triple-anything
        λ inconsistent. unless_triple root inconsistent

  -- When `ProvisionMachine` returns material, the certificate files of the machine's TLS directory
  -- hold exactly the returned CA and server certificates.
  pub provision_machine_persists :
      (w : World H) (m : Material H)
      → (Machine.provision_machine c ts w).0 ≡ ok m
      → Persisted (join (agent_root w) tls_sub_dir) m (Machine.provision_machine c ts w).1
  unfolding Machine.provision_machine
  provision_machine_persists w m e =
      Triple-result (Triple-bind (Triple-context _ (Triple-returns (agent_path_triple w))) rooted) w
        m refl e
    where
      rooted :
          (root : FilePath)
          → Triple
              (λ v. (root ≡ agent_root w) × (v ≡ w))
              (Machine.provision_at c ts root)
              (Persisted (join (agent_root w) tls_sub_dir))
              Unclaimed
      rooted root = Triple-fact λ same.
          subst
            (λ p.
              Triple (λ v. v ≡ w) (Machine.provision_at c ts root) (Persisted (join p tls_sub_dir))
                Unclaimed)
            same (Triple-weaken (λ v h. tt) (λ a v h. h) (λ x v h. tt) (at_triple root))
