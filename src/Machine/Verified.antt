-- ===== src/Machine/Verified.antt =====
-- What `LoadServingMaterial` has checked when it returns material.
use local_tls.Base.{String, Bool, true, false, Option, ◌≡◌, refl, sym, subst, ap, ◌∙◌}
use local_tls.Base.{[], ◌∷◌, if◌then◌else◌}
use local_tls.Errors.{ok, err, text}
use local_tls.Host.{Host, FilePath, Signer, Certificate, name}
use local_tls.Identity.{file_system_dir, tls_sub_dir, ca_cert_file, server_cert_file}
use local_tls.World.{World, Node, M, lift, context}
use local_tls.World.Keeps.{Keeps, keeps_rules}
use local_tls.World.Hoare.{
  Triple, Triple-gets, Triple-bind, Triple-context, Triple-lift, Triple-weaken, Triple-both,
  Triple-anything, Triple-returns, Triple-or_else, Triple-pure, Triple-test, Triple-check,
  Triple-fact, Triple-keeps, Triple-on_root, Triple-result, Unclaimed,
}
use local_tls.Os.{read_file, join}
use local_tls.Os.Frame.{os_frame, IgnoresFaults, IgnoresKeys}
use local_tls.Files.Contents.{HoldsBytes, read_file_triple}
use local_tls.Certificate.{parse_certificate, verify_public_key_match}
use local_tls.Certificate.San.{validate_san}
use local_tls.KeyStore.{Windowscng}
use local_tls.TrustStore.{TrustStore, TrustState, trust_healthy}
use local_tls.Material.{Material, material_from_signers}
use local_tls.Provision.OnDisk.{parse_certificate-raw}
use local_tls.Machine
use local_tls.Machine.ReadOnly.{agent_root}

-- The state's files and trust anchors vouch for the material: its certificates are those on disk,
-- its key is the server certificate's, the CA issued that certificate, its names are exactly the
-- loopback ones, the CA is trusted, and the fingerprint is the CA's.
abbrev pub Vouched :
    {H : Host}
    → TrustStore H
    → FilePath
    → (FilePath → Option (Node H))
    → H.RootState
    → Material H
    → Type 0
Vouched {H} ts d fs r m =
    HoldsBytes {H = H} fs (join d ca_cert_file) m.ca_certificate.raw
    × HoldsBytes {H = H} fs (join d server_cert_file) m.server_certificate.raw
    × (verify_public_key_match m.server_certificate.public_key m.certificate.private_key.public_key
        ≡ ok tt)
    × (H.check_signature_from m.server_certificate.raw m.ca_certificate.raw ≡ ok tt)
    × (validate_san m.server_certificate.info ≡ ok tt)
    × ((ts.verify_trust m.ca_certificate.raw r).0 ≡ ok trust_healthy)
    × (m.certificate.leaf.raw ≡ m.server_certificate.raw)
    × (m.ca_fingerprint_sha256 ≡ H.sha256 m.ca_certificate.raw)

-- The file holds the certificate's bytes, and its fields are what parsing them gives.
abbrev pub Loaded : {H : Host} → (FilePath → Option (Node H)) → FilePath → Certificate H → Type 0
Loaded {H} fs p cert =
    HoldsBytes {H = H} fs p cert.raw × (parse_certificate {H = H} cert.raw ≡ ok cert)

pub healthy_only : (s : TrustState) → Machine.require_healthy s ≡ ok tt → s ≡ trust_healthy
healthy_only trust_healthy e = refl
healthy_only TrustState.trust_absent e = cc
healthy_only TrustState.trust_conflict e = cc
healthy_only TrustState.trust_error e = cc
healthy_only (TrustState.unknown n) e = cc

module _ {H : Host} (fs : FilePath → Option (Node H)) (r : H.RootState) where
  abbrev pub Here : World H → Type 0
  Here w = (w.root ≡ r) × (w.fs ≡ fs)

  pub here :
      {A : Type 0} {m : M H A}
      → Keeps {H = H} (λ w. w.root) m
      → Keeps {H = H} (λ w. w.fs) m
      → Triple Here m (λ _. Here) Unclaimed
  here k l =
      Triple-both (Triple-returns (Triple-keeps (λ x. x ≡ r) k))
        (Triple-returns (Triple-keeps (λ x. x ≡ fs) l))

  pub root_faults : IgnoresFaults (λ (w : World H). w.root)
  root_faults = record { at = λ w f. refl }

  pub root_keys : IgnoresKeys (λ (w : World H). w.root)
  root_keys = record { at = λ w k. refl }

  pub fs_keys : IgnoresKeys (λ (w : World H). w.fs)
  fs_keys = record { at = λ w k. refl }

  -- Reading and parsing a certificate.
  read_triple :
      (p : FilePath)
      → Triple Here (read_file p) (λ b w. HoldsBytes {H = H} fs p b × Here w) Unclaimed
  read_triple p =
      Triple-weaken (λ w h. h)
        (λ b w h. (subst (λ f. HoldsBytes {H = H} f p b) h.1.1 h.1.0, (h.0, h.1.1))) (λ e w h. tt)
        (Triple-both (Triple-returns (Triple-keeps (λ x. x ≡ r) (search (os_frame, root_faults))))
          (read_file_triple (λ f. f ≡ fs) p))

  parsed_triple :
      (p : FilePath) (s : String) (der : H.Bytes)
      → Triple
          (λ w. HoldsBytes {H = H} fs p der × Here w)
          (context s (lift (parse_certificate {H = H} der)))
          (λ cert w. Loaded {H = H} fs p cert × Here w)
          Unclaimed
  parsed_triple p s der = Triple-context _ (
      Triple-lift _
        (λ cert w e h. (
          subst (λ b. HoldsBytes {H = H} fs p b × (parse_certificate {H = H} b ≡ ok cert))
              (sym (parse_certificate-raw der cert e)) (h.0, e),
          h.1,
        ))
        (λ e w q h. tt))

  pub ca_triple :
      (d : FilePath)
      → Triple Here
          (Machine.load_ca_cert d)
          (λ cert w. Loaded {H = H} fs (join d ca_cert_file) cert × Here w)
          Unclaimed
  unfolding Machine.load_ca_cert
  ca_triple d =
      Triple-bind (Triple-context _ (read_triple (join d ca_cert_file)))
        λ der. parsed_triple (join d ca_cert_file) _ der

  pub server_triple :
      (d : FilePath)
      → Triple Here
          (Machine.load_server_cert d)
          (λ cert w. Loaded {H = H} fs (join d server_cert_file) cert × Here w)
          Unclaimed
  unfolding Machine.load_server_cert
  server_triple d =
      Triple-bind (Triple-context _ (read_triple (join d server_cert_file)))
        λ der. parsed_triple (join d server_cert_file) _ der

  module _ (ts : TrustStore H) (d : FilePath) where
    checked_triple :
        (ca server : Certificate H) (s : Signer)
        → HoldsBytes {H = H} fs (join d ca_cert_file) ca.raw
        → HoldsBytes {H = H} fs (join d server_cert_file) server.raw
        → Triple Here
            (Machine.load_serving_checked ca server s ts)
            (λ m _. Vouched ts d fs r m)
            Unclaimed
    unfolding Machine.load_serving_checked material_from_signers
    checked_triple ca server s on_ca on_server = Triple-bind (Triple-check _ _ _) λ _.
        Triple-fact λ matches. Triple-bind (Triple-check _ _ _) λ _. Triple-fact λ issued.
          Triple-bind (Triple-test _ _) λ _. Triple-fact λ san.
            Triple-bind
              (Triple-or_else {F = Unclaimed}
                (Triple-context _ (Triple-on_root (ts.verify_trust ca.raw) r))
                (λ e. Triple-anything))
              λ state. Triple-fact λ verified.
                Triple-bind {Q = λ a w. (Machine.require_healthy state ≡ ok a) × Unit {0}}
                  (Triple-test _ _)
                  λ _. Triple-fact λ healthy.
                    Triple-pure (material_from_signers ca server s) (λ w h. (
                      on_ca,
                      on_server,
                      matches,
                      issued,
                      san,
                      verified ∙ ap ok (healthy_only state healthy),
                      refl,
                      refl,
                    ))

    module _ (c : Windowscng H) where
      from_tls_dir :
          Triple Here (Machine.load_serving_from c ts d) (λ m _. Vouched ts d fs r m) Unclaimed
      unfolding Machine.load_serving_from
      from_tls_dir = Triple-bind (ca_triple d) λ ca. Triple-fact λ on_ca.
          Triple-bind (server_triple d) λ server. Triple-fact λ on_server.
            Triple-bind {Q = λ _. Here}
              (here (search (keeps_rules, os_frame, root_keys))
                (search (keeps_rules, os_frame, fs_keys)))
              λ s. checked_triple ca server s on_ca.0 on_server.0

path_of :
    (pd : String) (unset : Bool) (root : FilePath)
    → (if unset
        then err (text "%ProgramData% is not set")
        else ok (join (join (name pd ∷ []) file_system_dir) "Agent"))
      ≡ ok root
    → root ≡ join (join (name pd ∷ []) file_system_dir) "Agent"
path_of pd true root e = cc
path_of pd false root e = cc

module _ {H : Host} (w : World H) where
  -- Where `MachineAgentPath` answers, it answers `agent_root`, and it changes nothing.
  pub agent_path_triple :
      Triple
        (λ v. v ≡ w)
        Machine.machine_agent_path
        (λ root v. (root ≡ agent_root w) × (v ≡ w))
        (λ _ v. v ≡ w)
  unfolding Machine.machine_agent_path
  agent_path_triple =
      Triple-bind {Q = λ pd v. (pd ≡ w.program_data) × (v ≡ w)}
        (Triple-gets _ (λ v h. (ap (λ (u : World H). u.program_data) h, h)))
        λ pd.
          Triple-lift _
            (λ root v e h. (
              path_of pd _ root e
                  ∙ ap (λ (q : String). join (join (name q ∷ []) file_system_dir) "Agent") h.0,
              h.1,
            ))
            (λ e v q h. h.1)

  serving_triple :
      (c : Windowscng H) (ts : TrustStore H) (root : FilePath)
      → Triple
          (λ v. (root ≡ agent_root w) × (v ≡ w))
          (Machine.load_serving_from c ts (join root tls_sub_dir))
          (λ m _. Vouched ts (join (agent_root w) tls_sub_dir) w.fs w.root m)
          Unclaimed
  serving_triple c ts root = Triple-fact λ e.
      subst
        (λ p.
          Triple (λ v. v ≡ w) (Machine.load_serving_from c ts (join p tls_sub_dir))
            (λ m _. Vouched ts (join (agent_root w) tls_sub_dir) w.fs w.root m) Unclaimed)
        (sym e)
        (Triple-weaken (λ v h. (ap (λ (u : World H). u.root) h, ap (λ (u : World H). u.fs) h))
          (λ m v h. h) (λ x v h. tt)
          (from_tls_dir w.fs w.root ts (join (agent_root w) tls_sub_dir) c))

  -- `LoadServingMaterial` returns material only if its certificates are those on disk, its key is
  -- the server certificate's, the CA issued that certificate, the names are exactly the loopback
  -- ones and the CA is trusted at the call; the fingerprint is the CA's.
  pub load_serving-Vouched :
      (c : Windowscng H) (ts : TrustStore H) (m : Material H)
      → (Machine.load_serving_material c ts w).0 ≡ ok m
      → Vouched ts (join (agent_root w) tls_sub_dir) w.fs w.root m
  unfolding Machine.load_serving_material
  load_serving-Vouched c ts m e =
      Triple-result
        (Triple-bind (Triple-context _ (Triple-returns agent_path_triple))
          λ root. serving_triple c ts root)
        w m refl e
