-- ===== src/Legacy/RoundTrip.antt =====
-- The server key that `Provision` returns and the protected key on disk.
use local_tls.Base.{Option, none, some, String, ◌≡◌, refl, sym, subst, ap, ◌∙◌}
use local_tls.Errors.{Error, ok, from_option}
use local_tls.Host.{Host, Time, FilePath, Certificate}
use local_tls.Identity.{tls_sub_dir, server_cert_file, server_key_file}
use local_tls.World.{World, Node, M}
use local_tls.World.Keeps.{Keeps, keeps_rules}
use local_tls.World.Hoare.{
  Triple, Triple-bind, Triple-context, Triple-lift, Triple-weaken, Triple-both, Triple-anything,
  Triple-if, Triple-pure, Triple-fact, Triple-raise, Triple-result, Unclaimed,
}
use local_tls.Os.{join}
use local_tls.Os.Frame.{os_frame}
use local_tls.Files.{atomic_write}
use local_tls.Files.Contents.{
  HoldsBytes, files_stay, read_file_triple, written_triple, untouched_triple,
}
use local_tls.TrustStore.{TrustStore}
use local_tls.Material.{Material, material_from_signers}
use local_tls.Provision.{clock_of}
use local_tls.Provision.OnDisk.{parse_certificate-raw, no_root}
use local_tls.Legacy
use local_tls.Legacy.{ExportedKeys, Protector}

-- Unprotecting undoes protecting, and parsing a PKCS#8 key undoes marshalling it.
pub record Recovers {H : Host} (x : ExportedKeys H) (p : Protector H) : Type 0 where
  pub unprotects : (b s : H.Bytes) → p.protect b ≡ ok s → p.unprotect s ≡ ok b
  pub parses : (k : x.Key) (b : H.Bytes) → x.marshal k ≡ ok b → x.parse_key b ≡ ok (some k)

-- The bytes are a protected form of the key.
abbrev pub Protects : {H : Host} (x : ExportedKeys H) (p : Protector H) → x.Key → H.Bytes → Type 0
Protects {H} x p key stored =
    (der : H.Bytes) × (p.unprotect stored ≡ ok der) × (x.parse_key der ≡ ok (some key))

-- The files hold the server certificate and a protected form of the key.
abbrev pub OnDisk :
    {H : Host} (x : ExportedKeys H) (p : Protector H)
    → FilePath
    → Certificate H
    → x.Key
    → (FilePath → Option (Node H))
    → Type 0
OnDisk {H} x p d cert key fs =
    HoldsBytes {H = H} fs (join d server_cert_file) cert.raw
    × ((stored : H.Bytes) × Protects x p key stored
        × HoldsBytes {H = H} fs (join d server_key_file) stored)

module _ {H : Host} {x : ExportedKeys H} {p : Protector H} (recovers : Recovers x p)
    (d : FilePath) where
  -- The material's key is the one that is on disk.
  abbrev pub KeyOnDisk : Material H → World H → Type 0
  KeyOnDisk m w =
      (key : x.Key) × (m.certificate.private_key ≡ x.signer key)
      × OnDisk x p d m.server_certificate key w.fs

  protected_triple :
      (s t : String) (key : x.Key)
      → Triple
          (λ _. Unit {0})
          (Legacy.protected_key x p s t key)
          (λ stored _. Protects x p key stored × Unit {0})
          Unclaimed
  unfolding Legacy.protected_key
  protected_triple s t key =
      Triple-bind {Q = λ der w. x.marshal key ≡ ok der}
        (Triple-context _ (Triple-context _ (Triple-lift _ (λ der w e h. e) (λ e w r h. tt))))
        λ der. Triple-context _ (
          Triple-lift _
            (λ stored w e h.
              ((der, recovers.unprotects der stored e, recovers.parses key der h), tt))
            (λ e w r h. tt))

  -- Both files of the server, one after the other.
  pair_triple :
      (cert : Certificate H) (key : x.Key) (stored : H.Bytes)
      → Protects x p key stored
      → Triple
          (λ w. HoldsBytes {H = H} w.fs (join d server_cert_file) cert.raw)
          (atomic_write {H = H} (join d server_key_file) stored 0o600)
          (λ _ w. OnDisk x p d cert key w.fs)
          Unclaimed
  pair_triple cert key stored protects =
      Triple-weaken (λ w h. (h, tt)) (λ a w h. (h.0, (stored, protects, h.1))) (λ e w h. tt)
        (Triple-both
          (untouched_triple d server_cert_file cert.raw (join d server_key_file) stored 0o600 refl)
          (written_triple d server_key_file stored 0o600))

  module _ (ts : TrustStore H) where
    make_triple :
        (now : M H Time)
        → Triple (λ _. Unit {0}) (Legacy.make_material x p d ts now) KeyOnDisk Unclaimed
    unfolding Legacy.make_material Legacy.material_from material_from_signers
    make_triple now = Triple-bind {Q = λ _ _. Unit {0}} Triple-anything λ _.
        Triple-bind {Q = λ _ _. Unit {0}} Triple-anything λ t.
          Triple-bind {Q = λ _ _. Unit {0}} Triple-anything λ ca.
            Triple-bind {Q = λ _ _. Unit {0}} Triple-anything λ server.
              Triple-bind {Q = λ _ _. Unit {0}} Triple-anything λ ca_key.
                Triple-bind (protected_triple _ _ server.1) λ stored. Triple-fact λ protects.
                  Triple-bind {Q = λ _ _. Unit {0}} Triple-anything λ _.
                    Triple-bind {Q = λ _ _. Unit {0}} Triple-anything λ _.
                      Triple-bind (written_triple d server_cert_file server.0.raw 0o600) λ _.
                        Triple-bind (pair_triple server.0 server.1 stored protects) λ _.
                          Triple-bind {Q = λ _ w. OnDisk x p d server.0 server.1 w.fs}
                            (files_stay (OnDisk x p d server.0 server.1)
                              (search (keeps_rules, os_frame, no_root)))
                            λ _. Triple-pure _ (λ w h. (server.1, refl, h))

    first_triple :
        (now : M H Time)
        → Triple (λ _. Unit {0}) (Legacy.first_provision x p d ts now) KeyOnDisk Unclaimed
    unfolding Legacy.first_provision
    first_triple now =
        Triple-bind {Q = λ _ _. Unit {0}} Triple-anything
          λ some_file. Triple-if some_file (λ e. Triple-raise _ (λ w h. tt)) (λ e. make_triple now)

    found : (o : Option x.Key) (e : Error) (key : x.Key) → from_option o e ≡ ok key → o ≡ some key
    found none e key h = cc
    found (some k) e key h = cc

    load_triple :
        Triple
          (λ _. Unit {0})
          (Legacy.load_server x p d)
          (λ s w. OnDisk x p d s.0 s.1 w.fs)
          Unclaimed
    unfolding Legacy.load_server
    load_triple =
        Triple-bind (Triple-context _ (read_file_triple (λ _. Unit {0}) (join d server_cert_file)))
          λ der.
            Triple-bind {Q = λ cert w. HoldsBytes {H = H} w.fs (join d server_cert_file) cert.raw}
              (Triple-context _ (
                Triple-lift _
                  (λ cert w e h.
                    subst (λ b. HoldsBytes {H = H} w.fs (join d server_cert_file) b)
                      (sym (parse_certificate-raw der cert e)) h.0)
                  (λ e w r h. tt)))
              λ cert.
                Triple-bind
                  (Triple-context _ (
                    read_file_triple
                      (λ fs. HoldsBytes {H = H} fs (join d server_cert_file) cert.raw)
                      (join d server_key_file)))
                  λ stored.
                    Triple-bind
                      {Q = λ key_der w.
                        (p.unprotect stored ≡ ok key_der)
                        × HoldsBytes {H = H} w.fs (join d server_key_file) stored
                        × HoldsBytes {H = H} w.fs (join d server_cert_file) cert.raw}
                      (Triple-context _ (Triple-lift _ (λ a w e h. (e, h.0, h.1)) (λ e w r h. tt)))
                      λ key_der.
                        Triple-bind
                          {Q = λ parsed w.
                            (x.parse_key key_der ≡ ok parsed)
                            × (p.unprotect stored ≡ ok key_der)
                            × HoldsBytes {H = H} w.fs (join d server_key_file) stored
                            × HoldsBytes {H = H} w.fs (join d server_cert_file) cert.raw}
                          (Triple-context _
                            (Triple-lift _ (λ a w e h. (e, h.0, h.1, h.2)) (λ e w r h. tt)))
                          λ parsed.
                            Triple-bind {Q = λ key w. OnDisk x p d cert key w.fs}
                              (Triple-lift _
                                (λ key w e h. (
                                  h.3,
                                  (stored, (key_der, h.1, h.0 ∙ ap ok (found parsed _ key e)), h.2),
                                ))
                                (λ e w r h. tt))
                              λ key.
                                Triple-bind {Q = λ _ w. OnDisk x p d cert key w.fs}
                                  (Triple-context _ (Triple-lift _ (λ a w e h. h) (λ e w r h. tt)))
                                  λ _. Triple-pure (cert, key) (λ w h. h)

    renewed_triple :
        (now : Time) (ca server : Certificate H × x.Key)
        → Triple
            (λ w. OnDisk x p d server.0 server.1 w.fs)
            (Legacy.renew_pair x p d now ca server)
            (λ s w. OnDisk x p d s.0 s.1 w.fs)
            Unclaimed
    unfolding Legacy.renew_pair
    renewed_triple now ca server =
        Triple-if (Legacy.needs_renewal now server.0.not_after)
          (λ e. Triple-bind {Q = λ _ _. Unit {0}} Triple-anything λ _.
            Triple-bind {Q = λ _ _. Unit {0}} Triple-anything λ renewed.
              Triple-bind (protected_triple _ _ renewed.1) λ stored. Triple-fact λ protects.
                Triple-bind (written_triple d server_cert_file renewed.0.raw 0o600) λ _.
                  Triple-bind (pair_triple renewed.0 renewed.1 stored protects)
                    λ _. Triple-pure renewed (λ w h. h))
          (λ e. Triple-pure server (λ w h. h))

    stays :
        {A : Type 0} {m : M H A} (server : Certificate H × x.Key)
        → Keeps {H = H} (λ w. w.fs) m
        → Triple
            (λ w. OnDisk x p d server.0 server.1 w.fs)
            m
            (λ _ w. OnDisk x p d server.0 server.1 w.fs)
            Unclaimed
    stays server k = files_stay (OnDisk x p d server.0 server.1) k

    reload_triple :
        {now : M H Time}
        → Keeps {H = H} (λ w. w.fs) now
        → Triple (λ _. Unit {0}) (Legacy.reload x p d ts now) KeyOnDisk Unclaimed
    unfolding Legacy.reload Legacy.material_from material_from_signers
    reload_triple reads = Triple-bind {Q = λ _ _. Unit {0}} Triple-anything λ ca.
        Triple-bind (Triple-context _ load_triple) λ server.
          Triple-bind (stays server (search keeps_rules)) λ _.
            Triple-bind (stays server (search keeps_rules)) λ _.
              Triple-bind (stays server (search (keeps_rules, os_frame, no_root))) λ state.
                Triple-bind (stays server (search keeps_rules)) λ _.
                  Triple-bind (stays server reads) λ t.
                    Triple-bind (renewed_triple t ca server)
                      λ current. Triple-pure _ (λ w h. (current.1, refl, h))

module _ {H : Host} {x : ExportedKeys H} {p : Protector H} (recovers : Recovers x p)
    (ts : TrustStore H) (data_dir : FilePath) (now : Option (M H Time)) where
  -- Where unprotecting undoes protecting, parsing a PKCS#8 key undoes marshalling it, and the clock
  -- changes no file: when `Provision` returns material, the server certificate on disk is the
  -- material's, and reading, unprotecting and parsing the key file gives the material's private
  -- key; so it is after a first provisioning, after a reload and after a renewal with a new key.
  pub provision_keeps_key :
      Keeps {H = H} (λ w. w.fs) (clock_of now)
      → (w : World H) (m : Material H) → (Legacy.provision x p data_dir ts now w).0 ≡ ok m
      → KeyOnDisk recovers (join data_dir tls_sub_dir) m (Legacy.provision x p data_dir ts now w).1
  unfolding Legacy.provision
  provision_keeps_key reads w m e =
      Triple-result {P = λ _. Unit {0}}
        (Triple-bind {Q = λ _ _. Unit {0}} Triple-anything λ all_files.
          Triple-if all_files (λ _. reload_triple recovers (join data_dir tls_sub_dir) ts reads)
            (λ _. first_triple recovers (join data_dir tls_sub_dir) ts (clock_of now)))
        w m tt e
