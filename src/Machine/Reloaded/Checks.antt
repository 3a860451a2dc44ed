-- ===== src/Machine/Reloaded/Checks.antt =====
-- What `ReloadMachine` has checked when it returns material, and its checks behind the loading of
-- certificates and keys.
use local_tls.Base.{true, Option, ◌≡◌, refl, sym, subst, ap, ◌∙◌, ◌⊎◌, inl, inr}
use local_tls.Errors.{ok}
use local_tls.Host.{Host, Time, FilePath, Signer, Certificate}
use local_tls.Identity.{ca_cert_file, server_cert_file, prod_ca_key_name, prod_server_key_name}
use local_tls.World.{World, Node, on_root}
use local_tls.World.Keeps.{Keeps, keeps_rules}
use local_tls.World.Hoare.{
  Triple, Triple-keeps, Triple-gets, Triple-if, Triple-bind, Triple-context, Triple-weaken,
  Triple-both, Triple-anything, Triple-returns, Triple-or_else, Triple-pure, Triple-test,
  Triple-check, Triple-fact, Triple-on_root, Unclaimed,
}
use local_tls.Os.{join}
use local_tls.Os.Frame.{os_frame, IgnoresRoot}
use local_tls.Files.Contents.{files_stay}
use local_tls.Certificate.{verify_public_key_match}
use local_tls.Certificate.San.{validate_san}
use local_tls.KeyStore.{Windowscng, close_signer, close_production_signer, open_production_key}
use local_tls.TrustStore.{TrustStore, trust_healthy}
use local_tls.Material.{Material, material_from_signers}
use local_tls.Provision.OnDisk.{Held, no_keys, renew_triple}
use local_tls.Provision.{renew_if_needed}
use local_tls.Certificate.Times.{needs_renewal}
use local_tls.Machine
use local_tls.Machine.Verified.{Here, Loaded, healthy_only}

-- What `ReloadMachine` found from the files `fs`, the anchors `r` and the keys `k`: the two
-- certificates are what parsing the files' bytes gives; the keys are those that the key provider
-- opened, first the CA's and then the server's. The CA is the material's, its key is the opened one
-- and it is trusted; it had issued the server certificate on disk, whose names are exactly the
-- loopback ones and whose key is the material's, the opened one; the fingerprint is the CA's, and the
-- leaf to serve is the returned certificate, which is the one on disk unless its renewal was due.
abbrev pub Reloaded :
    {H : Host}
    → Windowscng H
    → TrustStore H
    → FilePath
    → (FilePath → Option (Node H))
    → H.RootState
    → H.KeyState
    → Time
    → Material H
    → Type 0
Reloaded {H} c ts d fs r k now m =
    (server : Certificate H) × (ca_signer : Signer) × Loaded {H = H} fs (join d ca_cert_file)
      m.ca_certificate
    × Loaded {H = H} fs (join d server_cert_file) server
    × ((open_production_key c prod_ca_key_name k).0 ≡ ok ca_signer)
    × ((open_production_key c prod_server_key_name (open_production_key c prod_ca_key_name k).1).0
        ≡ ok m.certificate.private_key)
    × (verify_public_key_match m.ca_certificate.public_key ca_signer.public_key ≡ ok tt)
    × (verify_public_key_match server.public_key m.certificate.private_key.public_key ≡ ok tt)
    × (H.check_signature_from server.raw m.ca_certificate.raw ≡ ok tt)
    × (validate_san server.info ≡ ok tt)
    × ((ts.verify_trust m.ca_certificate.raw r).0 ≡ ok trust_healthy)
    × (m.ca_fingerprint_sha256 ≡ H.sha256 m.ca_certificate.raw)
    × (m.certificate.leaf.raw ≡ m.server_certificate.raw)
    × ((m.server_certificate ≡ server) ⊎ (needs_renewal now server.not_after ≡ true))

module _ {H : Host} (fs : FilePath → Option (Node H)) (r : H.RootState) (k : H.KeyState) (t : Time)
    (c : Windowscng H) (ts : TrustStore H) (d : FilePath) where
  -- The verdict on the CA; the files are as before.
  trust_triple :
      (ca : Certificate H)
      → Triple
          (Here fs r)
          (on_root {H = H} (ts.verify_trust ca.raw))
          (λ state w. ((ts.verify_trust ca.raw r).0 ≡ ok state) × (w.fs ≡ fs))
          Unclaimed
  trust_triple ca =
      Triple-weaken (λ w h. ((h.0, h.1), h.1)) (λ a w h. (h.0.0, h.1)) (λ e w h. tt)
        (Triple-both (Triple-on_root {P = λ w. w.fs ≡ fs} (ts.verify_trust ca.raw) r)
          (files_stay (λ f. f ≡ fs) (search (os_frame, no_root))))
    where
      no_root : IgnoresRoot (λ (w : World H). w.fs)
      no_root = record { at = λ w q. refl }

  -- The same files and anchors, and this time.
  abbrev pub At : World H → Type 0
  At w = Here fs r w × (w.clock ≡ t)

  clock_root : IgnoresRoot (λ (w : World H). w.clock)
  clock_root = record { at = λ w q. refl }

  verdict_now_triple :
      (ca : Certificate H)
      → Triple At
          (on_root {H = H} (ts.verify_trust ca.raw))
          (λ state w. ((ts.verify_trust ca.raw r).0 ≡ ok state) × ((w.fs ≡ fs) × (w.clock ≡ t)))
          Unclaimed
  verdict_now_triple ca =
      Triple-weaken (λ w h. h) (λ a w h. (h.0.0, (h.0.1, h.1))) (λ e w h. tt)
        (Triple-both (trust_triple ca)
          (Triple-returns (Triple-keeps (λ x. x ≡ t) (search (os_frame, clock_root)))))

  -- The server certificate is as before, or its renewal was due.
  abbrev Due : Time → Certificate H → Certificate H → Type 0
  Due now server current = (current ≡ server) ⊎ (needs_renewal now server.not_after ≡ true)

  renew_if_needed-Due :
      (now : Time) (ca : Certificate H) (cs : Signer) (server : Certificate H) (ss : Signer)
      → Triple
          (λ w. Held d ca server w.fs)
          (renew_if_needed {H = H} d now ca cs server ss)
          (λ current w. Due now server current × Held d ca current w.fs)
          Unclaimed
  unfolding renew_if_needed
  renew_if_needed-Due now ca cs server ss =
      Triple-weaken (λ w h. (tt, h)) (λ a w h. h) (λ e w h. tt)
        (Triple-both
          (Triple-if {P = λ w. Unit {0}} {Q = λ current w. Due now server current}
            (needs_renewal now server.not_after)
            (λ e. Triple-weaken (λ w h. h) (λ a w h. inr e) (λ x w h. tt) Triple-anything)
            (λ e. Triple-pure server (λ w h. inl refl)))
          (renew_triple d now ca cs server ss))

  close_keeps : (s : Signer) → Keeps {H = H} (λ w. w.fs) (close_production_signer s)
  unfolding close_production_signer close_signer
  close_keeps s = search (keeps_rules, os_frame, no_keys d)

  abbrev pub Result : Material H → World H → Type 0
  Result m w = Reloaded c ts d fs r k t m × Held d m.ca_certificate m.server_certificate w.fs

  pub checked_triple :
      (ca : Certificate H) (cs : Signer) (server : Certificate H) (ss : Signer)
      → Loaded {H = H} fs (join d ca_cert_file) ca
      → Loaded {H = H} fs (join d server_cert_file) server
      → (open_production_key c prod_ca_key_name k).0 ≡ ok cs
      → (open_production_key c prod_server_key_name (open_production_key c prod_ca_key_name k).1).0
        ≡ ok ss
      → verify_public_key_match ca.public_key cs.public_key ≡ ok tt
      → Triple At (Machine.reload_checked c ts d ca cs server ss) Result Unclaimed
  unfolding Machine.reload_checked material_from_signers
  checked_triple ca cs server ss on_ca on_server ca_open server_open ca_key =
      Triple-bind (Triple-check _ _ _) λ _. Triple-fact λ matches.
        Triple-bind (Triple-check _ _ _) λ _. Triple-fact λ issued.
          Triple-bind (Triple-test _ _) λ _. Triple-fact λ san.
            Triple-bind
              (Triple-or_else {F = Unclaimed} (Triple-context _ (verdict_now_triple ca))
                (λ e. Triple-anything))
              λ state. Triple-fact λ verified.
                Triple-bind
                  {Q = λ a w.
                    (Machine.require_healthy state ≡ ok a) × ((w.fs ≡ fs) × (w.clock ≡ t))}
                  (Triple-test _ _)
                  λ _. Triple-fact λ healthy.
                    Triple-bind {Q = λ now w. (now ≡ t) × Held d ca server w.fs}
                      (Triple-gets _ (λ w h.
                        (h.1, subst (λ f. Held d ca server f) (sym h.0) (on_ca.0, on_server.0))))
                      λ now. Triple-fact λ it_is.
                        Triple-bind
                          {Q = λ current w. Due now server current × Held d ca current w.fs}
                          (Triple-or_else {F = Unclaimed} (renew_if_needed-Due now ca cs server ss)
                            (λ e. Triple-anything))
                          λ current. Triple-fact λ due.
                            Triple-bind {Q = λ _ w. Held d ca current w.fs}
                              (files_stay (λ f. Held d ca current f) (close_keeps cs))
                              λ _. Triple-pure (material_from_signers ca current ss) (λ w h. (
                                (
                                  server,
                                  cs,
                                  on_ca,
                                  on_server,
                                  ca_open,
                                  server_open,
                                  ca_key,
                                  matches,
                                  issued,
                                  san,
                                  verified ∙ ap ok (healthy_only state healthy),
                                  refl,
                                  refl,
                                  subst (λ x. Due x server current) it_is due,
                                ),
                                h,
                              ))
