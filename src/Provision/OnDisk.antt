-- ===== src/Provision/OnDisk.antt =====
-- The certificates that loading and renewal return are those on disk.
use local_tls.Base.{Option, ◌≡◌, refl, sym, subst, arith}
use local_tls.Errors.{ok}
use local_tls.Host.{Host, Time, FilePath, Signer, Certificate}
use local_tls.Identity.{ca_cert_file, server_cert_file}
use local_tls.World.{World, Node}
use local_tls.World.Keeps.{keeps_rules}
use local_tls.World.Hoare.{
  Triple, Triple-bind, Triple-context, Triple-lift, Triple-weaken, Triple-both, Triple-anything,
  Triple-if, Triple-or_else, Triple-pure, Unclaimed,
}
use local_tls.Os.{join}
use local_tls.Os.Frame.{os_frame, IgnoresRandom, IgnoresRoot, IgnoresKeys}
use local_tls.Files.Contents.{
  HoldsBytes, files_stay, read_file_triple, written_triple, untouched_triple,
}
use local_tls.Certificate.{parse_certificate}
use local_tls.Certificate.Frame.{Keeps-generate_server_cert_with_signer}
use local_tls.KeyStore.{MachineKeyStore}
use local_tls.Provision

pub parse_certificate-raw :
    {H : Host} (der : H.Bytes) (c : Certificate H)
    → parse_certificate {H = H} der ≡ ok c
    → c.raw ≡ der
unfolding parse_certificate
parse_certificate-raw {H} der c e = ground arith

module _ {H : Host} (d : FilePath) where
  -- The two files hold these certificates.
  abbrev pub CaOnDisk : Certificate H → (FilePath → Option (Node H)) → Type 0
  CaOnDisk ca fs = HoldsBytes {H = H} fs (join d ca_cert_file) ca.raw

  abbrev pub ServerOnDisk : Certificate H → (FilePath → Option (Node H)) → Type 0
  ServerOnDisk server fs = HoldsBytes {H = H} fs (join d server_cert_file) server.raw

  pub no_random : IgnoresRandom (λ (w : World H). w.fs)
  no_random = record { at = λ w r. refl }

  pub no_root : IgnoresRoot (λ (w : World H). w.fs)
  no_root = record { at = λ w r. refl }

  pub no_keys : IgnoresKeys (λ (w : World H). w.fs)
  no_keys = record { at = λ w k. refl }

  abbrev pub Held : Certificate H → Certificate H → (FilePath → Option (Node H)) → Type 0
  Held ca server fs = CaOnDisk ca fs × ServerOnDisk server fs

  -- Writing the server certificate leaves the CA's.
  replaced :
      (ca server renewed : Certificate H)
      → Triple
          (λ w. Held ca server w.fs)
          (Provision.atomic_write {H = H} (join d server_cert_file) renewed.raw 0o600)
          (λ _ w. Held ca renewed w.fs)
          Unclaimed
  replaced ca server renewed =
      Triple-weaken (λ w h. (h.0, tt)) (λ a w h. h) (λ e w h. tt)
        (Triple-both
          (untouched_triple d ca_cert_file ca.raw (join d server_cert_file) renewed.raw 0o600 refl)
          (written_triple d server_cert_file renewed.raw 0o600))

  renewal_triple :
      (now : Time) (ca : Certificate H) (cs : Signer) (server : Certificate H) (ss : Signer)
      → Triple
          (λ w. Held ca server w.fs)
          (Provision.renewal {H = H} d now ca cs ss)
          (λ current w. Held ca current w.fs)
          Unclaimed
  unfolding Provision.renewal
  renewal_triple now ca cs server ss =
      Triple-bind {Q = λ _ w. Held ca server w.fs} (Triple-lift _ (λ a w e h. h) (λ e w r h. tt))
        λ _.
          Triple-bind {Q = λ _ w. Held ca server w.fs}
            (files_stay (Held ca server)
              (search (keeps_rules, Keeps-generate_server_cert_with_signer, no_random) depth 12))
            λ renewed.
              Triple-bind {Q = λ _ w. Held ca renewed w.fs} (replaced ca server renewed)
                λ _. Triple-pure renewed (λ w h. h)

  matched_stays :
      (R : Certificate H → (FilePath → Option (Node H)) → Type 0) (cert : Certificate H)
      (s : Signer)
      → Triple (λ w. R cert w.fs) (Provision.matched cert s) (λ p w. R p.0 w.fs) Unclaimed
  unfolding Provision.matched
  matched_stays R cert s =
      Triple-bind {Q = λ _ w. R cert w.fs}
        (Triple-or_else {F = λ _ _. Unit {0}} (Triple-lift _ (λ a w e h. h) (λ e w r h. tt))
          (λ e. Triple-anything))
        λ _. Triple-pure (cert, s) (λ w h. h)

  pub renew_triple :
      (now : Time) (ca : Certificate H) (cs : Signer) (server : Certificate H) (ss : Signer)
      → Triple
          (λ w. CaOnDisk ca w.fs × ServerOnDisk server w.fs)
          (Provision.renew_if_needed {H = H} d now ca cs server ss)
          (λ current w. CaOnDisk ca w.fs × ServerOnDisk current w.fs)
          Unclaimed
  unfolding Provision.renew_if_needed
  renew_triple now ca cs server ss =
      Triple-if {m = Provision.renewal {H = H} d now ca cs ss} {n = Provision.pure server}
        (Provision.needs_renewal now server.not_after) (λ _. renewal_triple now ca cs server ss)
        (λ _. Triple-pure server (λ w h. h))

  -- The certificate that was read is the one on disk.
  pub load_ca_triple :
      (ks : MachineKeyStore H)
      → Triple (λ _. Unit {0}) (Provision.load_ca_signer d ks) (λ p w. CaOnDisk p.0 w.fs) Unclaimed
  unfolding Provision.load_ca_signer
  load_ca_triple ks =
      Triple-bind {Q = λ der w. HoldsBytes {H = H} w.fs (join d ca_cert_file) der}
        (Triple-context _ (
          Triple-weaken (λ w h. h) (λ a w h. h.0) (λ e w h. tt)
            (read_file_triple (λ _. Unit {0}) (join d ca_cert_file))))
        λ der.
          Triple-bind {Q = λ cert w. CaOnDisk cert w.fs}
            (Triple-context _ (
              Triple-lift _
                (λ cert w e h.
                  subst (λ b. HoldsBytes {H = H} w.fs (join d ca_cert_file) b)
                    (sym (parse_certificate-raw der cert e)) h)
                (λ e w r h. tt)))
            λ cert.
              Triple-bind {Q = λ _ w. CaOnDisk cert w.fs}
                (files_stay (CaOnDisk cert) (search (keeps_rules, os_frame, no_keys)))
                λ s. Triple-context _ (matched_stays (CaOnDisk) cert s)

  pub load_server_triple :
      (ca : Certificate H) (ks : MachineKeyStore H)
      → Triple
          (λ w. CaOnDisk ca w.fs)
          (Provision.load_server_signer d ks)
          (λ p w. Held ca p.0 w.fs)
          Unclaimed
  unfolding Provision.load_server_signer
  load_server_triple ca ks =
      Triple-bind
        {Q = λ der w. HoldsBytes {H = H} w.fs (join d server_cert_file) der × CaOnDisk ca w.fs}
        (Triple-context _ (read_file_triple (CaOnDisk ca) (join d server_cert_file)))
        λ der.
          Triple-bind {Q = λ cert w. Held ca cert w.fs}
            (Triple-context _ (
              Triple-lift _
                (λ cert w e h. (
                  h.1,
                  subst (λ b. HoldsBytes {H = H} w.fs (join d server_cert_file) b)
                      (sym (parse_certificate-raw der cert e)) h.0,
                ))
                (λ e w r h. tt)))
            λ cert.
              Triple-bind {Q = λ _ w. Held ca cert w.fs}
                (files_stay (Held ca cert) (search (keeps_rules, os_frame, no_keys)))
                λ s. Triple-context _ (matched_stays (Held ca) cert s)
