-- ===== src/Machine/Served.antt =====
-- The agent serves what the installer made: `LoadServingMaterial` after `ProvisionMachine`.
use local_tls.Base.{[], ◌∷◌, String, Bool, true, false, none, some, Option, ◌≡◌, refl, sym, ap, ◌∙◌}
use local_tls.Errors.{Outcome, ok, err}
use local_tls.Host.{Host, FilePath, Signer, name}
use local_tls.Identity.{tls_sub_dir, ca_cert_file, server_cert_file, file_system_dir}
use local_tls.World.{World, Node, file}
use local_tls.World.Keeps.{Keeps, Keeps-bind, keeps_rules}
use local_tls.Os.{join}
use local_tls.Os.Frame.{
  IgnoresFaults, IgnoresFiles, IgnoresRandom, IgnoresKeys, IgnoresRoot, os_frame,
}
use local_tls.Files.Contents.{HoldsBytes}
use local_tls.Files.Frame.{Keeps-file_exists}
use local_tls.KeyStore.{
  OnKeys, Windowscng, close_signer, close_production_signer, platform_key_store, MachineKeyStore,
}
use local_tls.TrustStore.{TrustStore}
use local_tls.Material.{Material}
use local_tls.Provision.Frame.{Blind, provision_keeps}
use local_tls.Machine
use local_tls.Machine.Verified.{load_serving-Vouched}
use local_tls.Machine.Persist.{provision_machine_persists}

abbrev agent_tls : String → FilePath
agent_tls p = join (join (join (name p ∷ []) file_system_dir) "Agent") tls_sub_dir

module _ {H : Host} where
  faults : IgnoresFaults (λ (w : World H). w.program_data)
  faults = record { at = λ w f. refl }

  files : IgnoresFiles (λ (w : World H). w.program_data)
  files = record { at = λ w fs ds. refl }

  random : IgnoresRandom (λ (w : World H). w.program_data)
  random = record { at = λ w r. refl }

  keys : IgnoresKeys (λ (w : World H). w.program_data)
  keys = record { at = λ w k. refl }

  root : IgnoresRoot (λ (w : World H). w.program_data)
  root = record { at = λ w r. refl }

  close_keeps : (s : Signer) → Keeps {H = H} (λ w. w.program_data) (close_signer s)
  unfolding close_signer
  close_keeps s = search (keeps_rules, os_frame, keys)

  close_production_keeps :
      (s : Signer) → Keeps {H = H} (λ w. w.program_data) (close_production_signer s)
  unfolding close_production_signer
  close_production_keeps s = search (keeps_rules, close_keeps)

  blind : (ks : MachineKeyStore H) → Blind ks (λ w. w.program_data)
  blind ks = record {
    faults = faults;
    files = files;
    random = random;
    root = root;
    ca_key = search (os_frame, keys);
    server_key = search (os_frame, keys);
    close = close_keeps;
  }

  probed_keeps : (r : Outcome Signer) → Keeps {H = H} (λ w. w.program_data) (Machine.probed r)
  unfolding Machine.probed
  probed_keeps (ok s) = search (keeps_rules, close_production_keeps)
  probed_keeps (err e) = search keeps_rules

  probe_keeps :
      (opens : String → OnKeys H Signer) (key : String)
      → Keeps {H = H} (λ w. w.program_data) (Machine.probe_key opens key)
  unfolding Machine.probe_key
  probe_keeps opens key = Keeps-bind _ _ (search (keeps_rules, os_frame, keys)) probed_keeps

  check_keeps :
      (d : FilePath) (opens : String → OnKeys H Signer)
      → Keeps {H = H} (λ w. w.program_data) (Machine.check_inconsistent_machine_state d opens)
  unfolding Machine.check_inconsistent_machine_state
  check_keeps d opens = search (keeps_rules, Keeps-file_exists, faults, probe_keeps) depth 20

  module _ (c : Windowscng H) (ts : TrustStore H) where
    unless_keeps :
        (d : FilePath) (b : Bool)
        → Keeps {H = H} (λ w. w.program_data) (Machine.provision_unless c ts d b)
    unfolding Machine.provision_unless
    unless_keeps d true = search keeps_rules
    unless_keeps d false =
        provision_keeps (blind (platform_key_store c)) ts none (search keeps_rules) d true

    at_keeps : (d : FilePath) → Keeps {H = H} (λ w. w.program_data) (Machine.provision_at c ts d)
    unfolding Machine.provision_at
    at_keeps d = search (keeps_rules, check_keeps, unless_keeps) depth 12

    machine_keeps : Keeps {H = H} (λ w. w.program_data) (Machine.provision_machine c ts)
    unfolding Machine.provision_machine Machine.machine_agent_path
    machine_keeps = search (keeps_rules, at_keeps) depth 12

  bytes_of : H.Bytes → Option (Node H) → H.Bytes
  bytes_of d (some (file mode x)) = x
  bytes_of d _ = d

  -- A file holds one sequence of bytes, and the directory is the same whichever state names it.
  holds_once :
      (fs : FilePath → Option (Node H)) (f p q : String) (b b' : H.Bytes)
      → p ≡ q
      → HoldsBytes fs (join (agent_tls p) f) b
      → HoldsBytes fs (join (agent_tls q) f) b'
      → b ≡ b'
  unfolding bytes_of
  holds_once fs f p q b b' i (mode, e) (mode', e') =
      ap (bytes_of b) (sym e ∙ ap (λ x. fs (join (agent_tls x) f)) i ∙ e')

  -- When `ProvisionMachine` returns material and `LoadServingMaterial` returns material from the
  -- state it left, both have the same CA certificate and the same server certificate, and the
  -- fingerprint served is that of the CA certificate.
  pub provision-load_serving :
      (c : Windowscng H) (ts : TrustStore H) (w : World H) (m served : Material H)
      → (Machine.provision_machine c ts w).0 ≡ ok m
      → (Machine.load_serving_material c ts (Machine.provision_machine c ts w).1).0 ≡ ok served
      → (served.ca_certificate.raw ≡ m.ca_certificate.raw)
        × (served.server_certificate.raw ≡ m.server_certificate.raw)
        × (served.ca_fingerprint_sha256 ≡ H.sha256 m.ca_certificate.raw)
  provision-load_serving c ts w m served e e' =
      let v = load_serving-Vouched (Machine.provision_machine c ts w).1 c ts served e' in
      let there = provision_machine_persists c ts w m e in
      let same = (machine_keeps c ts).at w in
      let fs = (Machine.provision_machine c ts w).1.fs in
      let ca = holds_once fs ca_cert_file _ _ _ _ same v.0 there.0 in
      (ca, holds_once fs server_cert_file _ _ _ _ same v.1 there.1, v.7 ∙ ap H.sha256 ca)
