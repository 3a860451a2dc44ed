-- ===== src/Machine/Trusted.antt =====
-- What `ProvisionMachine` says about the anchors when it returns material.
use local_tls.Base.{Bool, true, false, none, List, ◌≡◌}
use local_tls.Errors.{ok}
use local_tls.Host.{Host, FilePath}
use local_tls.World.{World}
use local_tls.World.Keeps.{keeps_rules}
use local_tls.World.Hoare.{
  Triple, Triple-bind, Triple-context, Triple-anything, Triple-result, Triple-raise, Unclaimed,
}
use local_tls.KeyStore.{Windowscng, platform_key_store}
use local_tls.TrustStore.{TrustStore}
use local_tls.TrustStore.Contract.{any_matches, IsTrustStore}
use local_tls.Material.{Material}
use local_tls.Provision.Trusted.{IsTrusted, provision-IsTrusted_triple}
use local_tls.Machine

module _ {H : Host} {anchors : H.RootState → List H.Bytes} {ts : TrustStore H}
    (store : IsTrustStore anchors (λ _. Unit {0}) ts) (c : Windowscng H) where
  unless-IsTrusted :
      (root : FilePath) (inconsistent : Bool)
      → Triple
          (λ _. Unit {0})
          (Machine.provision_unless c ts root inconsistent)
          (IsTrusted store)
          Unclaimed
  unfolding Machine.provision_unless
  unless-IsTrusted root true = Triple-raise _ (λ w h. tt)
  unless-IsTrusted root false =
      provision-IsTrusted_triple store root (platform_key_store c) none true (search keeps_rules)

  at-IsTrusted :
      (root : FilePath)
      → Triple (λ _. Unit {0}) (Machine.provision_at c ts root) (IsTrusted store) Unclaimed
  unfolding Machine.provision_at
  at-IsTrusted root =
      Triple-bind {Q = λ _ _. Unit {0}} Triple-anything
        λ inconsistent. unless-IsTrusted root inconsistent

  -- Over a trust store that keeps its contract from every state, `ProvisionMachine` returns material
  -- only with a CA whose fingerprint is that of an anchor in the state afterwards.
  pub provision_machine_trusted :
      (w : World H) (m : Material H)
      → (Machine.provision_machine c ts w).0 ≡ ok m
      → any_matches H m.ca_fingerprint_sha256 (anchors (Machine.provision_machine c ts w).1.root)
        ≡ true
  unfolding Machine.provision_machine
  provision_machine_trusted w m e =
      Triple-result {P = λ _. Unit {0}}
        (Triple-bind {Q = λ _ _. Unit {0}} (Triple-context _ Triple-anything) at-IsTrusted) w m tt e
