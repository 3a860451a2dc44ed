-- ===== src/Provision/Persist.antt =====
-- What the two certificate files hold when provisioning or a reload returns material.
use local_tls.Base.{Bool, true, false, Option, ◌≡◌, refl, if◌then◌else◌}
use local_tls.Errors.{ok}
use local_tls.Host.{Host, Time, FilePath, Signer, Certificate}
use local_tls.Identity.{tls_sub_dir, ca_cert_file, server_cert_file}
use local_tls.World.{World, M}
use local_tls.World.Keeps.{Keeps, keeps_rules}
use local_tls.World.Hoare.{
  Triple, Triple-bind, Triple-context, Triple-weaken, Triple-both, Triple-anything, Triple-keeps,
  Triple-or_else, Triple-defers, Triple-pure, Triple-result, Unclaimed,
}
use local_tls.Os.{join}
use local_tls.Os.Frame.{os_frame}
use local_tls.Files.Contents.{files_stay, written_triple, untouched_triple}
use local_tls.KeyStore.{MachineKeyStore, close_signer}
use local_tls.TrustStore.{TrustStore, TrustState, trust_healthy, trust_absent}
use local_tls.Material.{Material, material_from_signers}
use local_tls.Provision
use local_tls.Provision.OnDisk.{
  CaOnDisk, Held, no_root, no_keys, renew_triple, load_ca_triple, load_server_triple,
}

module _ {H : Host} (d : FilePath) where
  restored_keeps :
      (state : TrustState) → Keeps {H = H} (λ w. w.fs) (Provision.restored {H = H} state)
  unfolding Provision.restored
  restored_keeps trust_healthy = search keeps_rules
  restored_keeps _ = search keeps_rules

  settle_keeps :
      (ts : TrustStore H) (repair : Bool) (ca : Certificate H) (state : TrustState)
      → Keeps {H = H} (λ w. w.fs) (Provision.settle_trust ts repair ca state)
  unfolding Provision.settle_trust
  settle_keeps ts repair ca trust_healthy = search keeps_rules
  settle_keeps ts false ca trust_absent = search keeps_rules
  settle_keeps ts true ca trust_absent = search (keeps_rules, os_frame, no_root, restored_keeps)
  settle_keeps ts repair ca _ = search keeps_rules

  close_keeps : (s : Signer) → Keeps {H = H} (λ w. w.fs) (close_signer s)
  unfolding close_signer
  close_keeps s = search (keeps_rules, os_frame, no_keys)

  -- The material is what is on disk.
  abbrev pub Persisted : Material H → World H → Type 0
  Persisted m w = Held d m.ca_certificate m.server_certificate w.fs

  module _ (ts : TrustStore H) {now : M H Time} (reads : Keeps {H = H} (λ w. w.fs) now) where
    body_triple :
        (repair : Bool) (ca server : Certificate H) (cs ss : Signer)
        → Triple
            (λ w. Held d ca server w.fs)
            (Provision.reload_body d ts now repair (ca, cs) (server, ss))
            Persisted
            Unclaimed
    unfolding Provision.reload_body material_from_signers
    body_triple repair ca server cs ss =
        Triple-bind {Q = λ _ w. Held d ca server w.fs}
          (files_stay (Held d ca server) (search keeps_rules))
          λ _.
            Triple-bind {Q = λ _ w. Held d ca server w.fs}
              (files_stay (Held d ca server) (search keeps_rules))
              λ _.
                Triple-bind {Q = λ _ w. Held d ca server w.fs}
                  (files_stay (Held d ca server) (search (keeps_rules, os_frame, no_root)))
                  λ state.
                    Triple-bind {Q = λ _ w. Held d ca server w.fs}
                      (files_stay (Held d ca server) (settle_keeps ts repair ca state))
                      λ _.
                        Triple-bind {Q = λ _ w. Held d ca server w.fs}
                          (files_stay (Held d ca server) reads)
                          λ t.
                            Triple-bind (renew_triple d t ca cs server ss) λ current.
                              Triple-pure (material_from_signers ca current ss) (λ w h. h)

    reload_triple :
        (ks : MachineKeyStore H) (repair : Bool)
        → Triple
            (λ _. Unit {0})
            (Provision.reload_with_key_store d ks ts now repair)
            Persisted
            Unclaimed
    unfolding Provision.reload_with_key_store
    reload_triple ks repair = Triple-bind (Triple-context _ (load_ca_triple d ks)) λ (ca, cs).
        Triple-defers {F = Persisted} {G = Unclaimed}
          (Triple-bind {Q = λ p w. Held d ca p.0 w.fs}
            (Triple-context _ (load_server_triple d ca ks))
            λ (server, ss).
              Triple-or_else {F = Unclaimed} (body_triple repair ca server cs ss)
                (λ e. Triple-anything))
          (λ m.
            Triple-keeps (λ fs. Held d m.ca_certificate m.server_certificate fs) (close_keeps cs))
          (λ e. Triple-anything)

    with_server_triple :
        (t : Time) (ca : Certificate H) (cs ss : Signer)
        → Triple (λ _. Unit {0}) (Provision.first_with_server d ts t ca cs ss) Persisted Unclaimed
    unfolding Provision.first_with_server material_from_signers
    with_server_triple t ca cs ss = Triple-bind {Q = λ _ _. Unit {0}} Triple-anything λ server.
        Triple-bind {Q = λ _ w. CaOnDisk d ca w.fs} (written_triple d ca_cert_file ca.raw 0o600)
          λ _. Triple-bind {Q = λ _ w. Held d ca server w.fs} (written_both ca server) λ _.
            Triple-bind {Q = λ _ w. Held d ca server w.fs}
              (files_stay (Held d ca server) (search (keeps_rules, os_frame, no_root)))
              λ _. Triple-pure (material_from_signers ca server ss) (λ w h. h)
      where
        written_both :
            (ca server : Certificate H)
            → Triple
                (λ w. CaOnDisk d ca w.fs)
                (Provision.atomic_write {H = H} (join d server_cert_file) server.raw 0o600)
                (λ _ w. Held d ca server w.fs)
                Unclaimed
        written_both ca server =
            Triple-weaken (λ w h. (h, tt)) (λ a w h. h) (λ e w h. tt)
              (Triple-both
                (untouched_triple d ca_cert_file ca.raw (join d server_cert_file) server.raw 0o600
                  refl)
                (written_triple d server_cert_file server.raw 0o600))

    first_triple :
        (ks : MachineKeyStore H)
        → Triple
            (λ _. Unit {0})
            (Provision.first_provision_with_key_store d ks ts now)
            Persisted
            Unclaimed
    unfolding Provision.first_provision_with_key_store
    first_triple ks = Triple-bind {Q = λ _ _. Unit {0}} Triple-anything λ _.
        Triple-bind {Q = λ _ _. Unit {0}} Triple-anything λ t.
          Triple-bind {Q = λ _ _. Unit {0}} Triple-anything λ cs.
            Triple-defers {F = Persisted} {G = Unclaimed}
              (Triple-bind {Q = λ _ _. Unit {0}} Triple-anything λ ca.
                Triple-bind {Q = λ _ _. Unit {0}} Triple-anything λ ss.
                  Triple-or_else {F = Unclaimed} (with_server_triple t ca cs ss)
                    (λ e. Triple-anything))
              (λ m.
                Triple-keeps (λ fs. Held d m.ca_certificate m.server_certificate fs)
                  (close_keeps cs))
              (λ e. Triple-anything)

    provision_branch :
        (ks : MachineKeyStore H) (repair there : Bool)
        → Triple
            (λ _. Unit {0})
            (if there
              then Provision.reload_with_key_store d ks ts now repair
              else Provision.first_provision_with_key_store d ks ts now)
            Persisted
            Unclaimed
    provision_branch ks repair true = reload_triple ks repair
    provision_branch ks repair false = first_triple ks

pub provision_triple :
    {H : Host} (root : FilePath) (ks : MachineKeyStore H) (ts : TrustStore H)
    (now : Option (M H Time)) (repair : Bool)
    → Keeps {H = H} (λ w. w.fs) (Provision.clock_of now)
    → Triple
        (λ _. Unit {0})
        (Provision.provision_with_key_store root ks ts now repair)
        (Persisted (join root tls_sub_dir))
        Unclaimed
unfolding Provision.provision_with_key_store
provision_triple root ks ts now repair reads =
    Triple-bind {Q = λ _ _. Unit {0}} Triple-anything λ ca_there.
      Triple-bind {Q = λ _ _. Unit {0}} Triple-anything
        λ server_there. provision_branch (join root tls_sub_dir) ts reads ks repair server_there

-- When `ProvisionWithKeyStore` returns material, by a first provisioning, a reload or a reload that
-- renewed, the two certificate files hold exactly the returned CA and server certificates. The
-- clock that the caller passes touches no file.
pub provision_persists :
    {H : Host} (root : FilePath) (ks : MachineKeyStore H) (ts : TrustStore H)
    (now : Option (M H Time)) (repair : Bool)
    → Keeps {H = H} (λ w. w.fs) (Provision.clock_of now)
    → (w : World H) (m : Material H)
    → (Provision.provision_with_key_store root ks ts now repair w).0 ≡ ok m
    → Persisted
        (join root tls_sub_dir)
        m
        (Provision.provision_with_key_store root ks ts now repair w).1
provision_persists root ks ts now repair reads w m e =
    Triple-result (provision_triple root ks ts now repair reads) w m tt e
