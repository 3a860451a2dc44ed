-- ===== src/Provision/Trusted.antt =====
-- The CA of the material that provisioning returns is a trust anchor, over any trust store that
-- keeps its contract.
use local_tls.Base.{Bool, true, false, Option, List, ◌≡◌, refl, sym, subst, inl, inr, if◌then◌else◌}
use local_tls.Errors.{Outcome, ok, err}
use local_tls.Host.{Host, Time, FilePath, Signer, Certificate}
use local_tls.Identity.{tls_sub_dir}
use local_tls.World.{World, M, on_root, ◌>>=◌}
use local_tls.World.Keeps.{Keeps, keeps_rules}
use local_tls.World.Hoare.{
  Triple, Ends, Triple-bind, Triple-context, Triple-anything, Triple-keeps, Triple-or_else,
  Triple-defers, Triple-pure, Triple-raise, Triple-returns, Unclaimed,
}
use local_tls.Os.{join}
use local_tls.Os.Frame.{IgnoresFaults, IgnoresFiles, IgnoresRandom, IgnoresKeys, os_frame}
use local_tls.Files.Frame.{Keeps-atomic_write}
use local_tls.Certificate.Frame.{Keeps-generate_server_cert_with_signer}
use local_tls.KeyStore.{MachineKeyStore, close_signer}
use local_tls.TrustStore.{TrustStore, TrustState, trust_healthy, trust_absent}
use local_tls.TrustStore.Contract.{any_matches, Installs, Verifies, IsTrustStore}
use local_tls.Material.{Material, material_from_signers}
use local_tls.Provision

module _ {H : Host} where
  faults : IgnoresFaults (λ (w : World H). w.root)
  faults = record { at = λ w f. refl }

  files : IgnoresFiles (λ (w : World H). w.root)
  files = record { at = λ w fs ds. refl }

  random : IgnoresRandom (λ (w : World H). w.root)
  random = record { at = λ w r. refl }

  keys : IgnoresKeys (λ (w : World H). w.root)
  keys = record { at = λ w k. refl }

  close_root : (s : Signer) → Keeps {H = H} (λ w. w.root) (close_signer s)
  unfolding close_signer
  close_root s = search (keeps_rules, os_frame, keys)

  renew_root :
      (d : FilePath) (t : Time) (ca : Certificate H) (cs : Signer) (server : Certificate H)
      (ss : Signer)
      → Keeps {H = H} (λ w. w.root) (Provision.renew_if_needed d t ca cs server ss)
  unfolding Provision.renew_if_needed
  renew_root d t ca cs server ss =
      search
        (
          keeps_rules, Keeps-generate_server_cert_with_signer, Keeps-atomic_write, faults, files,
          random,
        )
        depth 20

module _ {H : Host} {anchors : H.RootState → List H.Bytes} {ts : TrustStore H}
    (store : IsTrustStore anchors (λ _. Unit {0}) ts) where
  -- The certificate is among the anchors.
  abbrev pub Trusts : H.Bytes → H.RootState → Type 0
  Trusts der r = any_matches H (H.sha256 der) (anchors r) ≡ true

  -- The material's CA is among the anchors.
  abbrev pub IsTrusted : Material H → World H → Type 0
  IsTrusted m w = any_matches H m.ca_fingerprint_sha256 (anchors w.root) ≡ true

  install_triple :
      (der : H.Bytes)
      → Triple
          (λ _. Unit {0})
          (on_root {H = H} (ts.install_trust der))
          (λ _ w. Trusts der w.root)
          Unclaimed
  unfolding ◌>>=◌
  install_triple der = record {
    at = λ w p.
        installed_at (anchors w.root) (ts.install_trust der w.root).0 _
          (store.install der w.root tt);
  }
    where
      installed_at :
          (before : List H.Bytes) (o : Outcome (Unit {0})) (v : World H)
          → Installs H (H.sha256 der) before o (anchors v.root)
          → Ends (λ _ w. Trusts der w.root) Unclaimed o v
      installed_at before (ok u) v (inl (there, same)) =
          subst (λ (x : List H.Bytes). any_matches H (H.sha256 der) x ≡ true) (sym same) there
      installed_at before (ok u) v (inr (missing, gains)) = gains.0
      installed_at before (err e) v h = tt

  -- A verification that answers `TrustHealthy` speaks of the anchors behind it too.
  abbrev pub Tells : H.Bytes → TrustState → World H → Type 0
  Tells der state w = state ≡ trust_healthy → Trusts der w.root

  verify_triple :
      (der : H.Bytes)
      → Triple (λ _. Unit {0}) (on_root {H = H} (ts.verify_trust der)) (Tells der) Unclaimed
  unfolding ◌>>=◌
  verify_triple der = record {
    at = λ w p.
        verified_at (anchors w.root) (ts.verify_trust der w.root).0 _ (store.verify der w.root tt);
  }
    where
      verified_at :
          (before : List H.Bytes) (o : Outcome TrustState) (v : World H)
          → Verifies H (H.sha256 der) before o (anchors v.root)
          → Ends (Tells der) Unclaimed o v
      verified_at before (ok state) v (same, healthy) = λ e.
          subst (λ (x : List H.Bytes). any_matches H (H.sha256 der) x ≡ true) (sym same)
            (healthy.0 e)
      verified_at before (err e) v h = tt

  restored_triple :
      (der : H.Bytes) (state : TrustState)
      → Triple (Tells der state) (Provision.restored state) (λ _ w. Trusts der w.root) Unclaimed
  unfolding Provision.restored
  restored_triple der trust_healthy = Triple-pure tt (λ w h. h refl)
  restored_triple der _ = Triple-raise _ (λ w h. tt)

  -- The switch on the trust state goes on only with a CA that is trusted.
  settle_triple :
      (repair : Bool) (ca : Certificate H) (state : TrustState)
      → Triple
          (Tells ca.raw state)
          (Provision.settle_trust ts repair ca state)
          (λ _ w. Trusts ca.raw w.root)
          Unclaimed
  unfolding Provision.settle_trust
  settle_triple repair ca trust_healthy = Triple-pure tt (λ w h. h refl)
  settle_triple false ca trust_absent = Triple-raise _ (λ w h. tt)
  settle_triple true ca trust_absent = Triple-bind {Q = λ _ _. Unit {0}} Triple-anything λ _.
      Triple-bind {Q = Tells ca.raw} (Triple-context _ (verify_triple ca.raw))
        (restored_triple ca.raw)
  settle_triple repair ca _ = Triple-raise _ (λ w h. tt)

  -- What keeps the anchors keeps the trust.
  trust_stays :
      {A : Type 0} {m : M H A} (der : H.Bytes)
      → Keeps {H = H} (λ w. w.root) m
      → Triple (λ w. Trusts der w.root) m (λ _ w. Trusts der w.root) Unclaimed
  trust_stays der k = Triple-returns (Triple-keeps {obs = λ w. w.root} (Trusts der) k)

  module _ {now : M H Time} (reads : Keeps {H = H} (λ w. w.root) now) (d : FilePath) where
    body_triple :
        (repair : Bool) (ca server : Certificate H) (cs ss : Signer)
        → Triple
            (λ _. Unit {0})
            (Provision.reload_body d ts now repair (ca, cs) (server, ss))
            IsTrusted
            Unclaimed
    unfolding Provision.reload_body material_from_signers
    body_triple repair ca server cs ss = Triple-bind {Q = λ _ _. Unit {0}} Triple-anything λ _.
        Triple-bind {Q = λ _ _. Unit {0}} Triple-anything λ _.
          Triple-bind {Q = Tells ca.raw} (Triple-context _ (verify_triple ca.raw)) λ state.
            Triple-bind {Q = λ _ w. Trusts ca.raw w.root} (settle_triple repair ca state) λ _.
              Triple-bind {Q = λ _ w. Trusts ca.raw w.root} (trust_stays ca.raw reads) λ t.
                Triple-bind {Q = λ _ w. Trusts ca.raw w.root}
                  (trust_stays ca.raw (renew_root d t ca cs server ss))
                  λ current. Triple-pure (material_from_signers ca current ss) (λ w h. h)

    -- The deferred close touches no anchor.
    closed_triple :
        (s : Signer) (m : Material H)
        → Triple (IsTrusted m) (close_signer s) (λ _. IsTrusted m) (λ _. IsTrusted m)
    closed_triple s m =
        Triple-keeps {obs = λ w. w.root}
          (λ r. any_matches H m.ca_fingerprint_sha256 (anchors r) ≡ true) (close_root s)

    reload_triple :
        (ks : MachineKeyStore H) (repair : Bool)
        → Triple
            (λ _. Unit {0})
            (Provision.reload_with_key_store d ks ts now repair)
            IsTrusted
            Unclaimed
    unfolding Provision.reload_with_key_store
    reload_triple ks repair = Triple-bind {Q = λ _ _. Unit {0}} Triple-anything λ (ca, cs).
        Triple-defers {F = IsTrusted} {G = Unclaimed}
          (Triple-bind {Q = λ _ _. Unit {0}} Triple-anything λ (server, ss).
            Triple-or_else {F = Unclaimed} (body_triple repair ca server cs ss)
              (λ e. Triple-anything))
          (closed_triple cs) (λ e. Triple-anything)

    with_server_triple :
        (t : Time) (ca : Certificate H) (cs ss : Signer)
        → Triple (λ _. Unit {0}) (Provision.first_with_server d ts t ca cs ss) IsTrusted Unclaimed
    unfolding Provision.first_with_server material_from_signers
    with_server_triple t ca cs ss = Triple-bind {Q = λ _ _. Unit {0}} Triple-anything λ server.
        Triple-bind {Q = λ _ _. Unit {0}} Triple-anything λ _.
          Triple-bind {Q = λ _ _. Unit {0}} Triple-anything λ _.
            Triple-bind {Q = λ _ w. Trusts ca.raw w.root} (Triple-context _ (install_triple ca.raw))
              λ _. Triple-pure (material_from_signers ca server ss) (λ w h. h)

    first_triple :
        (ks : MachineKeyStore H)
        → Triple
            (λ _. Unit {0})
            (Provision.first_provision_with_key_store d ks ts now)
            IsTrusted
            Unclaimed
    unfolding Provision.first_provision_with_key_store
    first_triple ks = Triple-bind {Q = λ _ _. Unit {0}} Triple-anything λ _.
        Triple-bind {Q = λ _ _. Unit {0}} Triple-anything λ t.
          Triple-bind {Q = λ _ _. Unit {0}} Triple-anything λ cs.
            Triple-defers {F = IsTrusted} {G = Unclaimed}
              (Triple-bind {Q = λ _ _. Unit {0}} Triple-anything λ ca.
                Triple-bind {Q = λ _ _. Unit {0}} Triple-anything λ ss.
                  Triple-or_else {F = Unclaimed} (with_server_triple t ca cs ss)
                    (λ e. Triple-anything))
              (closed_triple cs) (λ e. Triple-anything)

    branch_triple :
        (ks : MachineKeyStore H) (repair there : Bool)
        → Triple
            (λ _. Unit {0})
            (if there
              then Provision.reload_with_key_store d ks ts now repair
              else Provision.first_provision_with_key_store d ks ts now)
            IsTrusted
            Unclaimed
    branch_triple ks repair true = reload_triple ks repair
    branch_triple ks repair false = first_triple ks

  -- `provisionWithKeyStore` returns material only with a CA that is among the anchors.
  pub provision-IsTrusted_triple :
      (root : FilePath) (ks : MachineKeyStore H) (now : Option (M H Time)) (repair : Bool)
      → Keeps {H = H} (λ w. w.root) (Provision.clock_of now)
      → Triple
          (λ _. Unit {0})
          (Provision.provision_with_key_store root ks ts now repair)
          IsTrusted
          Unclaimed
  unfolding Provision.provision_with_key_store
  provision-IsTrusted_triple root ks now repair reads =
      Triple-bind {Q = λ _ _. Unit {0}} Triple-anything λ ca_there.
        Triple-bind {Q = λ _ _. Unit {0}} Triple-anything
          λ server_there. branch_triple reads (join root tls_sub_dir) ks repair server_there
