-- ===== src/Provision/Handles.antt =====
-- Handles in provisioning: after a success exactly the handle of the returned material is open in
-- addition, and after a failure none is.
use local_tls.Base.{ℕ, Bool, true, false, refl, Option, if◌then◌else◌}
use local_tls.Host.{Host, Time, FilePath, Signer, Certificate}
use local_tls.World.{World, M}
use local_tls.World.Keeps.{Keeps, keeps_rules}
use local_tls.World.Ledger.{
  Live, Closes, Ledger, held, nothing, Ledger-pure, Ledger-context, Ledger-bind, Ledger-step,
  Ledger-or_else, Ledger-defers, Ledger-neutral, Ledger-open,
}
use local_tls.Os.Frame.{IgnoresFaults, IgnoresFiles, IgnoresRandom, IgnoresRoot, os_frame}
use local_tls.Files.Frame.{Keeps-file_exists, Keeps-atomic_write}
use local_tls.Certificate.Frame.{
  Keeps-generate_ca_with_signer, Keeps-generate_server_cert_with_signer,
}
use local_tls.KeyStore.{MachineKeyStore}
use local_tls.KeyStore.Handles.{OpensKeys, Ledger-close_signer}
use local_tls.TrustStore.{TrustStore, TrustState, trust_healthy, trust_absent}
use local_tls.Identity.{tls_sub_dir}
use local_tls.Os.{join}
use local_tls.Material.{Material, material_from_signers}
use local_tls.Provision

-- The handle that a material owns.
abbrev pub owned : {H : Host} → Material H → ℕ → ℕ
owned m = held m.certificate.private_key

module _ {H : Host} {live : Live H} (closes : Closes H live) where
  faults : IgnoresFaults (λ (w : World H). live.count w.keys)
  faults = record { at = λ w f. refl }

  files : IgnoresFiles (λ (w : World H). live.count w.keys)
  files = record { at = λ w fs ds. refl }

  random : IgnoresRandom (λ (w : World H). live.count w.keys)
  random = record { at = λ w r. refl }

  matched-Ledger :
      (cert : Certificate H) (s : Signer)
      → Ledger live (held s) (λ p. held p.1) nothing (Provision.matched cert s)
  unfolding Provision.matched
  matched-Ledger cert s =
      Ledger-bind
        (Ledger-or_else (Ledger-neutral (search keeps_rules)) (Ledger-close_signer s closes))
        (λ _. Ledger-pure (cert, s) (λ j. refl))

  module _ {ks : MachineKeyStore H} (opens : OpensKeys live ks) where
    load_ca-Ledger :
        (d : FilePath) → Ledger live nothing (λ p. held p.1) nothing (Provision.load_ca_signer d ks)
    unfolding Provision.load_ca_signer
    load_ca-Ledger d = Ledger-step (search (keeps_rules, os_frame, faults)) (λ der.
        Ledger-step (search keeps_rules) (λ cert.
          Ledger-bind (Ledger-context _ (Ledger-open opens.ca_key))
            (λ s. Ledger-context _ (matched-Ledger cert s))))

    load_server-Ledger :
        (d : FilePath)
        → Ledger live nothing (λ p. held p.1) nothing (Provision.load_server_signer d ks)
    unfolding Provision.load_server_signer
    load_server-Ledger d = Ledger-step (search (keeps_rules, os_frame, faults)) (λ der.
        Ledger-step (search keeps_rules) (λ cert.
          Ledger-bind (Ledger-context _ (Ledger-open opens.server_key))
            (λ s. Ledger-context _ (matched-Ledger cert s))))

  root : IgnoresRoot (λ (w : World H). live.count w.keys)
  root = record { at = λ w r. refl }

  restored_keeps :
      (state : TrustState)
      → Keeps {H = H} (λ w. live.count w.keys) (Provision.restored {H = H} state)
  unfolding Provision.restored
  restored_keeps trust_healthy = search keeps_rules
  restored_keeps _ = search keeps_rules

  settle_keeps :
      (ts : TrustStore H) (repair : Bool) (ca : Certificate H) (state : TrustState)
      → Keeps {H = H} (λ w. live.count w.keys) (Provision.settle_trust ts repair ca state)
  unfolding Provision.settle_trust
  settle_keeps ts repair ca trust_healthy = search keeps_rules
  settle_keeps ts false ca trust_absent = search keeps_rules
  settle_keeps ts true ca trust_absent = search (keeps_rules, os_frame, root, restored_keeps)
  settle_keeps ts repair ca _ = search keeps_rules

  pub renew_keeps :
      (d : FilePath) (now : Time) (ca : Certificate H) (cs : Signer) (server : Certificate H)
      (ss : Signer)
      → Keeps {H = H}
          (λ w. live.count w.keys)
          (Provision.renew_if_needed {H = H} d now ca cs server ss)
  unfolding Provision.renew_if_needed
  renew_keeps d now ca cs server ss =
      search
        (
          keeps_rules, Keeps-generate_server_cert_with_signer, Keeps-atomic_write, faults, files,
          random,
        )
        depth 12

  body-Ledger :
      (d : FilePath) (ts : TrustStore H) (now : M H Time) (repair : Bool)
      (ca server : Certificate H) (cs ss : Signer)
      → Keeps {H = H} (λ w. live.count w.keys) now
      → Ledger live
          (held ss)
          owned
          (held ss)
          (Provision.reload_body d ts now repair (ca, cs) (server, ss))
  unfolding Provision.reload_body material_from_signers
  body-Ledger d ts now repair ca server cs ss kn = Ledger-step (search keeps_rules) λ _.
      Ledger-step (search keeps_rules) λ _.
        Ledger-step (search (keeps_rules, os_frame, root)) λ state.
          Ledger-step (settle_keeps ts repair ca state) λ _. Ledger-step kn λ t.
            Ledger-step (renew_keeps d t ca cs server ss)
              λ current. Ledger-pure (material_from_signers ca current ss) (λ j. refl)

  module _ {ks : MachineKeyStore H} (opens : OpensKeys live ks) (ts : TrustStore H) {now : M H Time}
      (reads : Keeps {H = H} (λ w. live.count w.keys) now) where
    pub reload-Ledger :
        (d : FilePath) (repair : Bool)
        → Ledger live nothing owned nothing (Provision.reload_with_key_store d ks ts now repair)
    unfolding Provision.reload_with_key_store
    reload-Ledger d repair = Ledger-bind (Ledger-context _ (load_ca-Ledger opens d)) λ (ca, cs).
        Ledger-defers (Ledger-close_signer cs closes) (
          Ledger-bind (Ledger-context _ (load_server-Ledger opens d)) λ (server, ss).
            Ledger-or_else (body-Ledger d ts now repair ca server cs ss reads)
              (Ledger-close_signer ss closes))

    with_server :
        (d : FilePath) (t : Time) (ca : Certificate H) (cs ss : Signer)
        → Ledger live (held ss) owned (held ss) (Provision.first_with_server d ts t ca cs ss)
    unfolding Provision.first_with_server material_from_signers
    with_server d t ca cs ss =
        Ledger-step (search (keeps_rules, Keeps-generate_server_cert_with_signer, random)) λ server.
          Ledger-step (search (keeps_rules, Keeps-atomic_write, faults, files)) λ _.
            Ledger-step (search (keeps_rules, Keeps-atomic_write, faults, files)) λ _.
              Ledger-step (search (keeps_rules, os_frame, root))
                λ _. Ledger-pure (material_from_signers ca server ss) (λ j. refl)

    pub first-Ledger :
        (d : FilePath)
        → Ledger live nothing owned nothing (Provision.first_provision_with_key_store d ks ts now)
    unfolding Provision.first_provision_with_key_store
    first-Ledger d = Ledger-step (search (keeps_rules, os_frame, faults, files)) λ _.
        Ledger-step reads λ t. Ledger-bind (Ledger-context _ (Ledger-open opens.ca_key)) λ cs.
          Ledger-defers (Ledger-close_signer cs closes) (
            Ledger-step (search (keeps_rules, Keeps-generate_ca_with_signer, random)) λ ca.
              Ledger-bind (Ledger-context _ (Ledger-open opens.server_key))
                λ ss. Ledger-or_else (with_server d t ca cs ss) (Ledger-close_signer ss closes))

  provision_branch :
      {ks : MachineKeyStore H} (opens : OpensKeys live ks) (ts : TrustStore H) {now : M H Time}
      (reads : Keeps {H = H} (λ w. live.count w.keys) now) (d : FilePath) (repair b : Bool)
      → Ledger live nothing owned nothing (
          if b
          then Provision.reload_with_key_store d ks ts now repair
          else Provision.first_provision_with_key_store d ks ts now)
  provision_branch opens ts reads d repair true = reload-Ledger opens ts reads d repair
  provision_branch opens ts reads d repair false = first-Ledger opens ts reads d

  -- `provisionWithKeyStore`, on both of its paths, with a clock that opens no handle.
  pub provision-Ledger :
      {ks : MachineKeyStore H} (opens : OpensKeys live ks) (ts : TrustStore H)
      (now : Option (M H Time))
      → Keeps {H = H} (λ w. live.count w.keys) (Provision.clock_of now)
      → (d : FilePath) (repair : Bool)
      → Ledger live nothing owned nothing (Provision.provision_with_key_store d ks ts now repair)
  unfolding Provision.provision_with_key_store
  provision-Ledger opens ts now reads d repair =
      Ledger-step (search (keeps_rules, Keeps-file_exists, faults)) λ ca_there.
        Ledger-step (search (keeps_rules, Keeps-file_exists, faults))
          λ server_there. provision_branch opens ts reads (join d tls_sub_dir) repair server_there
