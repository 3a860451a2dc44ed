-- ===== src/Machine/Reloaded.antt =====
-- What `ReloadMachine` has checked when it returns material, and what is then on disk.
pub mod Checks
use local_tls.Base.{
  true, String, Option, ◌≡◌, refl, sym, subst, ap, ◌∙◌, ◌⊎◌, inl, inr, if◌then◌else◌,
}
use local_tls.Errors.{Outcome, ok, err}
use local_tls.Host.{Host, Time, FilePath, Signer, Certificate}
use local_tls.Identity.{
  tls_sub_dir, ca_cert_file, server_cert_file, prod_ca_key_name, prod_server_key_name,
}
use local_tls.World.{World, Node, M, context, on_keys, on_root, ◌>>=◌}
use local_tls.World.Keeps.{Keeps, keeps_rules}
use local_tls.World.Hoare.{
  Triple, Ends, Triple-keeps, Triple-gets, Triple-if, Triple-bind, Triple-context, Triple-weaken,
  Triple-both, Triple-anything, Triple-returns, Triple-or_else, Triple-pure, Triple-test,
  Triple-check, Triple-fact, Triple-on_root, Triple-result, Unclaimed,
}
use local_tls.Os.{join}
use local_tls.Os.Frame.{os_frame, IgnoresRoot, IgnoresFaults}
use local_tls.Files.Contents.{files_stay}
use local_tls.Certificate.{verify_public_key_match}
use local_tls.Certificate.San.{validate_san}
use local_tls.KeyStore.{
  OnKeys, Windowscng, close_signer, close_production_signer, open_production_key,
}
use local_tls.TrustStore.{TrustStore, trust_healthy}
use local_tls.Material.{Material, material_from_signers}
use local_tls.Provision.OnDisk.{Held, no_keys, renew_triple}
use local_tls.Provision.{renew_if_needed}
use local_tls.Certificate.Times.{needs_renewal}
use local_tls.Machine
use local_tls.Machine.ReadOnly.{agent_root}
use local_tls.Machine.Verified.{
  Here, Loaded, healthy_only, ca_triple, server_triple, agent_path_triple,
}
pub use Checks.{Reloaded}
use Checks.{At, Result, checked_triple}

module _ {H : Host} (fs : FilePath → Option (Node H)) (r : H.RootState) (k : H.KeyState) (t : Time)
    (c : Windowscng H) (ts : TrustStore H) (d : FilePath) where
  -- The same files, anchors and time, and these keys.
  abbrev Keyed : H.KeyState → World H → Type 0
  Keyed q w = At fs r k t c ts d w × (w.keys ≡ q)

  keys_faults : IgnoresFaults (λ (w : World H). w.keys)
  keys_faults = record { at = λ w f. refl }

  clock_faults : IgnoresFaults (λ (w : World H). w.clock)
  clock_faults = record { at = λ w f. refl }

  -- Where only files are read, the keys and the time are as before.
  beside_keys :
      {A : Type 0} {m : M H A} {Q : A → World H → Type 0} (q : H.KeyState)
      → Keeps {H = H} (λ w. w.keys) m
      → Keeps {H = H} (λ w. w.clock) m
      → Triple (Here fs r) m (λ a w. Q a w × Here fs r w) Unclaimed
      → Triple (Keyed q) m (λ a w. Q a w × Keyed q w) Unclaimed
  beside_keys q keys clock u =
      Triple-weaken (λ w h. (h.0.0, (h.0.1, h.1))) (λ a w h. (h.0.0, ((h.0.1, h.1.0), h.1.1)))
        (λ e w h. tt)
        (Triple-both u (
          Triple-both (Triple-returns (Triple-keeps (λ x. x ≡ t) clock))
            (Triple-returns (Triple-keeps (λ x. x ≡ q) keys))))

  open_triple :
      (s : String) (q : H.KeyState) (f : OnKeys H Signer)
      → Triple
          (Keyed q)
          (context s (on_keys {H = H} f))
          (λ key w. ((f q).0 ≡ ok key) × Keyed (f q).1 w)
          Unclaimed
  unfolding ◌>>=◌
  open_triple s q f = Triple-context _ (record {
    at = λ w (here', keys).
        opened_at (f w.keys).0 w (ap (λ x. (f x).0) (sym keys)) here' (ap (λ x. (f x).1) keys);
  })
    where
      opened_at :
          (o : Outcome Signer) (w : World H)
          → (f q).0 ≡ o
          → At fs r k t c ts d w
          → (f w.keys).1 ≡ (f q).1
          → Ends
              (λ key v. ((f q).0 ≡ ok key) × Keyed (f q).1 v)
              Unclaimed
              o
              (record w { keys = (f w.keys).1 })
      opened_at (ok key) w e h keys = (e, (h, keys))
      opened_at (err x) w e h keys = tt

  ca_keys : (p : FilePath) → Keeps {H = H} (λ w. w.keys) (Machine.load_ca_cert p)
  unfolding Machine.load_ca_cert
  ca_keys p = search (keeps_rules, os_frame, keys_faults)

  server_keys : (p : FilePath) → Keeps {H = H} (λ w. w.keys) (Machine.load_server_cert p)
  unfolding Machine.load_server_cert
  server_keys p = search (keeps_rules, os_frame, keys_faults)

  ca_clock : (p : FilePath) → Keeps {H = H} (λ w. w.clock) (Machine.load_ca_cert p)
  unfolding Machine.load_ca_cert
  ca_clock p = search (keeps_rules, os_frame, clock_faults)

  server_clock : (p : FilePath) → Keeps {H = H} (λ w. w.clock) (Machine.load_server_cert p)
  unfolding Machine.load_server_cert
  server_clock p = search (keeps_rules, os_frame, clock_faults)

  -- The keys behind the opening of the CA's.
  abbrev ca_after : H.KeyState
  ca_after = (open_production_key c prod_ca_key_name k).1

  from_tls_dir : Triple (Keyed k) (Machine.reload_from c ts d) (Result fs r k t c ts d) Unclaimed
  unfolding Machine.reload_from
  from_tls_dir =
      Triple-bind
        (beside_keys {Q = λ ca w. Loaded {H = H} fs (join d ca_cert_file) ca} k (ca_keys d)
          (ca_clock d) (ca_triple fs r d))
        λ ca. Triple-fact λ on_ca.
          Triple-bind (open_triple _ k (open_production_key c prod_ca_key_name)) λ cs.
            Triple-fact λ ca_open. Triple-bind (Triple-check _ _ _) λ _. Triple-fact λ ca_key.
              Triple-bind
                (Triple-or_else {F = Unclaimed}
                  (beside_keys {Q = λ server w. Loaded {H = H} fs (join d server_cert_file) server}
                    ca_after (server_keys d) (server_clock d) (server_triple fs r d))
                  (λ e. Triple-anything))
                λ server. Triple-fact λ on_server.
                  Triple-bind
                    (Triple-or_else {F = Unclaimed}
                      (open_triple _ ca_after (open_production_key c prod_server_key_name))
                      (λ e. Triple-anything))
                    λ ss. Triple-fact λ server_open.
                      Triple-weaken (λ w h. h.0) (λ m w h. h) (λ e w h. tt)
                        (checked_triple fs r k t c ts d ca cs server ss on_ca on_server ca_open
                          server_open ca_key)

module _ {H : Host} (w : World H) (c : Windowscng H) (ts : TrustStore H) where
  rooted :
      (root : FilePath)
      → Triple
          (λ v. (root ≡ agent_root w) × (v ≡ w))
          (Machine.reload_from c ts (join root tls_sub_dir))
          (λ m v.
            Reloaded c ts (join (agent_root w) tls_sub_dir) w.fs w.root w.keys w.clock m
            × Held (join (agent_root w) tls_sub_dir) m.ca_certificate m.server_certificate v.fs)
          Unclaimed
  rooted root = Triple-fact λ e.
      subst
        (λ p.
          Triple (λ v. v ≡ w) (Machine.reload_from c ts (join p tls_sub_dir))
            (λ m v.
              Reloaded c ts (join (agent_root w) tls_sub_dir) w.fs w.root w.keys w.clock m
              × Held (join (agent_root w) tls_sub_dir) m.ca_certificate m.server_certificate v.fs)
            Unclaimed)
        (sym e)
        (Triple-weaken
          (λ v h. (
            (
              (ap (λ (u : World H). u.root) h, ap (λ (u : World H). u.fs) h),
              ap (λ (u : World H). u.clock) h,
            ),
            ap (λ (u : World H). u.keys) h,
          ))
          (λ m v h. h) (λ x v h. tt)
          (from_tls_dir w.fs w.root w.keys w.clock c ts (join (agent_root w) tls_sub_dir)))

  -- `ReloadMachine` returns material only if all of this holds of the state at the call: parsing the
  -- bytes of the CA certificate file gives the material's CA certificate, and parsing those of the
  -- server certificate file gives a certificate; the key provider opens the CA key, and after it the
  -- server key, which is the material's; the public keys of the two certificates are those of the
  -- keys; the CA issued the server certificate, whose names are exactly the loopback ones; the trust
  -- store calls the CA healthy; the fingerprint is the CA's, and the leaf to serve has the bytes of
  -- the returned server certificate, which is the one on disk unless that one's renewal was due at
  -- the time of the clock. Afterwards the two files hold the returned certificates, renewed or not.
  pub reload_machine-Reloaded :
      (m : Material H)
      → (Machine.reload_machine c ts w).0 ≡ ok m
      → Reloaded c ts (join (agent_root w) tls_sub_dir) w.fs w.root w.keys w.clock m
        × Held
            (join (agent_root w) tls_sub_dir)
            m.ca_certificate
            m.server_certificate
            (Machine.reload_machine c ts w).1.fs
  unfolding Machine.reload_machine
  reload_machine-Reloaded m e =
      Triple-result (Triple-bind (Triple-context _ (Triple-returns (agent_path_triple w))) rooted) w
        m refl e
