-- ===== src/Provision/Frame.antt =====
-- What provisioning over a key store leaves alone: every observation that looks at neither files,
-- random bytes nor trust anchors, and that the two calls of the key store and a close do not change.
use local_tls.Base.{Bool, true, false, Option}
use local_tls.Host.{Host, Time, FilePath, Signer, Certificate}
use local_tls.World.{World, M, on_keys}
use local_tls.World.Keeps.{Keeps, keeps_rules}
use local_tls.Os.Frame.{IgnoresFaults, IgnoresFiles, IgnoresRandom, IgnoresRoot, os_frame}
use local_tls.Files.Frame.{Keeps-file_exists, Keeps-atomic_write}
use local_tls.Certificate.Frame.{
  Keeps-generate_ca_with_signer, Keeps-generate_server_cert_with_signer,
}
use local_tls.KeyStore.{MachineKeyStore, close_signer}
use local_tls.TrustStore.{TrustStore, TrustState, trust_healthy, trust_absent}
use local_tls.Provision

-- An observation of the kind above.
pub record Blind {H : Host} {X : Type 0} (ks : MachineKeyStore H) (obs : World H → X) : Type 0 where
  pub faults : IgnoresFaults obs
  pub files : IgnoresFiles obs
  pub random : IgnoresRandom obs
  pub root : IgnoresRoot obs
  pub ca_key : Keeps obs (on_keys {H = H} ks.load_or_create_ca_key)
  pub server_key : Keeps obs (on_keys {H = H} ks.load_or_create_server_key)
  pub close : (s : Signer) → Keeps obs (close_signer s)

module _ {H : Host} {X : Type 0} {obs : World H → X} {ks : MachineKeyStore H}
    (blind : Blind ks obs) where
  faults : IgnoresFaults obs
  faults = blind.faults

  files : IgnoresFiles obs
  files = blind.files

  random : IgnoresRandom obs
  random = blind.random

  root : IgnoresRoot obs
  root = blind.root

  ca_key : Keeps obs (on_keys {H = H} ks.load_or_create_ca_key)
  ca_key = blind.ca_key

  server_key : Keeps obs (on_keys {H = H} ks.load_or_create_server_key)
  server_key = blind.server_key

  close_keeps : (s : Signer) → Keeps obs (close_signer s)
  close_keeps = blind.close

  matched_keeps : (cert : Certificate H) (s : Signer) → Keeps obs (Provision.matched cert s)
  unfolding Provision.matched
  matched_keeps cert s = search (keeps_rules, close_keeps)

  load_ca_keeps : (d : FilePath) → Keeps obs (Provision.load_ca_signer d ks)
  unfolding Provision.load_ca_signer
  load_ca_keeps d = search (keeps_rules, os_frame, faults, ca_key, matched_keeps) depth 20

  load_server_keeps : (d : FilePath) → Keeps obs (Provision.load_server_signer d ks)
  unfolding Provision.load_server_signer
  load_server_keeps d = search (keeps_rules, os_frame, faults, server_key, matched_keeps) depth 20

  restored_keeps : (state : TrustState) → Keeps obs (Provision.restored {H = H} state)
  unfolding Provision.restored
  restored_keeps trust_healthy = search keeps_rules
  restored_keeps _ = search keeps_rules

  module _ (ts : TrustStore H) {now : M H Time} (reads : Keeps obs now) (d : FilePath) where
    settled_keeps :
        (repair : Bool) (ca : Certificate H) (state : TrustState)
        → Keeps obs (Provision.settle_trust ts repair ca state)
    unfolding Provision.settle_trust
    settled_keeps repair ca trust_healthy = search keeps_rules
    settled_keeps false ca trust_absent = search keeps_rules
    settled_keeps true ca trust_absent = search (keeps_rules, os_frame, root, restored_keeps)
    settled_keeps repair ca _ = search keeps_rules

    renewed_keeps :
        (t : Time) (ca : Certificate H) (cs : Signer) (server : Certificate H) (ss : Signer)
        → Keeps obs (Provision.renew_if_needed d t ca cs server ss)
    unfolding Provision.renew_if_needed
    renewed_keeps t ca cs server ss =
        search
          (
            keeps_rules, Keeps-generate_server_cert_with_signer, Keeps-atomic_write, faults, files,
            random,
          )
          depth 20

    body_keeps :
        (repair : Bool) (p q : Certificate H × Signer)
        → Keeps obs (Provision.reload_body d ts now repair p q)
    unfolding Provision.reload_body
    body_keeps repair p q =
        search (keeps_rules, os_frame, root, settled_keeps, renewed_keeps) depth 20

    pub reload_keeps :
        (repair : Bool) → Keeps obs (Provision.reload_with_key_store d ks ts now repair)
    unfolding Provision.reload_with_key_store
    reload_keeps repair =
        search (keeps_rules, load_ca_keeps, load_server_keeps, close_keeps, body_keeps) depth 20

    with_server :
        (t : Time) (ca : Certificate H) (cs ss : Signer)
        → Keeps obs (Provision.first_with_server d ts t ca cs ss)
    unfolding Provision.first_with_server
    with_server t ca cs ss =
        search
          (
            keeps_rules, os_frame, root, Keeps-generate_server_cert_with_signer, Keeps-atomic_write,
            faults, files, random,
          )
          depth 20

    with_ca : (t : Time) (cs : Signer) → Keeps obs (Provision.first_with_ca d ks ts t cs)
    unfolding Provision.first_with_ca
    with_ca t cs =
        search
          (keeps_rules, Keeps-generate_ca_with_signer, random, server_key, close_keeps, with_server)
          depth 20

    pub first_keeps : Keeps obs (Provision.first_provision_with_key_store d ks ts now)
    unfolding Provision.first_provision_with_key_store
    first_keeps =
        search (keeps_rules, os_frame, faults, files, ca_key, close_keeps, with_ca) depth 20

  pub provision_keeps :
      (ts : TrustStore H) (now : Option (M H Time))
      → Keeps obs (Provision.clock_of now)
      → (d : FilePath) (repair : Bool)
      → Keeps obs (Provision.provision_with_key_store d ks ts now repair)
  unfolding Provision.provision_with_key_store
  provision_keeps ts now reads d repair =
      search (keeps_rules, Keeps-file_exists, faults, reload_keeps, first_keeps) depth 20
