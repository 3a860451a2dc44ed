-- ===== src/Machine/Calm.antt =====
-- `ProvisionMachine` on a machine where nothing was provisioned and nothing fails.
use local_tls.Base.{ℕ, String, str_eq, Bool, true, false, none, List, ◌≡◌, refl, sym, subst}
use local_tls.Errors.{Outcome, ok, err, is_ok, sentinel, key_not_found, cng_key_not_found}
use local_tls.Host.{Host, FilePath, Signer, Time}
use local_tls.Identity.{
  tls_sub_dir, ca_cert_file, server_cert_file, prod_ca_key_name, prod_server_key_name,
}
use local_tls.World.{World, ◌>>=◌}
use local_tls.World.Hoare.{
  Ends, Triple, Triple-pure, Triple-bind, Triple-context, Triple-fact, Triple-gets,
}
use local_tls.World.Total.{Never, surely}
use local_tls.Os.{join}
use local_tls.Certificate.Calm.{Issues}
use local_tls.KeyStore.{
  Windowscng, map_error, map_cng_error, load_or_create_key, open_production_key, platform_key_store,
}
use local_tls.TrustStore.{TrustStore}
use local_tls.Material.{provision_state_inconsistent}
use local_tls.Provision.Calm.{Made, Works, Open, exists_calm, provision_calm}
use local_tls.Machine
use local_tls.Machine.ReadOnly.{agent_root}

-- The key provider in a state without keys (`Absent`) reports that a missing key is missing, and can
-- make the CA's key, which then signs (`Signs`); it can make the server's, and the CA's still signs.
-- The two certificates of the program can be issued at a time that is `Timely`. From a state that is
-- `Ready`, the trust store takes every certificate that can be parsed.
pub record Provides {H : Host} (Absent : H.KeyState → Type 0) (Signs : Signer → H.KeyState → Type 0)
    (Timely : Time → Type 0) (Ready : H.RootState → Type 0) (c : Windowscng H) (ts : TrustStore H)
    : Type 0 where
  pub missing :
      (key : String) (k : H.KeyState)
      → Absent k
      → ((c.open' key k).0 ≡ err (sentinel cng_key_not_found)) × Absent (c.open' key k).1
  pub ca_key : (k : H.KeyState) → Absent k → Made H Signs (c.load_or_create prod_ca_key_name k)
  pub server_key :
      (s : Signer) (k : H.KeyState)
      → Signs s k
      → Made H (λ _. Signs s) (c.load_or_create prod_server_key_name k)
  pub issues : Issues H Signs Timely
  pub installs :
      (der : H.Bytes) (r : H.RootState)
      → Ready r
      → is_ok (H.parse_certificate der) ≡ true
      → is_ok (ts.install_trust der r).0 ≡ true

module _ {H : Host} {Absent : H.KeyState → Type 0} {Signs : Signer → H.KeyState → Type 0}
    {Timely : Time → Type 0} {Ready : H.RootState → Type 0} {c : Windowscng H} {ts : TrustStore H}
    (provides : Provides Absent Signs Timely Ready c ts) (n : ℕ) (rest : List ℕ) where
  mapped_made :
      (K : Signer → H.KeyState → Type 0) (p : Outcome Signer × H.KeyState)
      → Made H K p
      → Made H K (map_error p)
  unfolding map_error
  mapped_made K (ok s, k) h = h
  mapped_made K (err e, k) h = absurd h

  works : Works Absent Signs Timely Ready (platform_key_store c) ts
  unfolding load_or_create_key
  works = record {
    ca_key = λ k a. mapped_made _ _ (provides.ca_key k a);
    server_key = λ s k signs. mapped_made _ _ (provides.server_key s k signs);
    issues = provides.issues;
    installs = provides.installs;
  }

  unopened :
      (key : String) (k : H.KeyState)
      → (c.open' key k).0 ≡ err (sentinel cng_key_not_found)
      → open_production_key c key k ≡ (err (sentinel key_not_found), (c.open' key k).1)
  unfolding open_production_key map_error map_cng_error
  unopened key k e =
      subst
        (λ (o : Outcome Signer).
          map_error (o, (c.open' key k).1) ≡ (err (sentinel key_not_found), (c.open' key k).1))
        (sym e) refl

  abbrev Absence : FilePath → Bool → World H → Type 0
  Absence root b w = (b ≡ false) × Open Absent Timely Ready n rest root w

  probe_calm :
      (root : FilePath) (key : String)
      → Triple
          (Open Absent Timely Ready n rest root)
          (Machine.probe_key (open_production_key c) key)
          (Absence root)
          Never
  unfolding Machine.probe_key Machine.probed ◌>>=◌
  probe_calm root key = record {
    at = λ w (vacant, (absent, serials, ready, timely)).
        let (gone, still) = provides.missing key w.keys absent in
        subst
          (λ p.
            Ends (Absence root) Never (Machine.probed {H = H} p.0 (record w { keys = p.1 })).0
              (Machine.probed {H = H} p.0 (record w { keys = p.1 })).1)
          (sym (unopened key w.keys gone)) (refl, (vacant, (still, serials, ready, timely)));
  }

  check_calm :
      (root : FilePath)
      → Triple
          (Open Absent Timely Ready n rest root)
          (Machine.check_inconsistent_machine_state root (open_production_key c))
          (Absence root)
          Never
  unfolding Machine.check_inconsistent_machine_state provision_state_inconsistent
  check_calm root =
      Triple-bind
        (exists_calm works n rest root (join (join root tls_sub_dir) ca_cert_file) (λ w h. h.0.0.3))
        λ ca_der. Triple-fact λ a.
          Triple-bind
            (exists_calm works n rest root (join (join root tls_sub_dir) server_cert_file)
              (λ w h. h.0.0.4))
            λ server_der. Triple-fact λ b.
              rw (a, b)
                (Triple-bind (probe_calm root prod_ca_key_name) λ ca_key. Triple-fact λ e.
                  Triple-bind (probe_calm root prod_server_key_name) λ server_key.
                    Triple-fact λ e'. rw (e, e') (Triple-pure false (λ w h. (refl, h))))

  at_calm :
      (root : FilePath)
      → Triple
          (Open Absent Timely Ready n rest root)
          (Machine.provision_at c ts root)
          (λ _ _. Unit {0})
          Never
  unfolding Machine.provision_at Machine.provision_unless
  at_calm root = Triple-bind (Triple-context _ (check_calm root)) λ inconsistent. Triple-fact λ e.
      rw e (
        provision_calm works n rest root none true
          (λ P timely. Triple-gets _ (λ w h. (timely w h, h))))

  -- On a machine where nothing was provisioned, `ProvisionMachine` returns material, provided that:
  -- `ProgramData` is set; no call of the operating system fails; no file is where the TLS directory
  -- or a directory above it should be; neither certificate file is there, nor a file of the name
  -- that `os.CreateTemp` tries first; the random source supplies two serial numbers; there are no
  -- keys, opening a missing key reports that it is missing, making one gives a P-256 key, and the CA
  -- key signs, also after the server key was made; at the time of the clock, a signing P-256 key
  -- issues its CA certificate and a server certificate under it, which can be parsed; and the trust
  -- store is in a state in which it takes every certificate that can be parsed.
  pub provision_machine_calm :
      (w : World H)
      → str_eq w.program_data "" ≡ false
      → Open Absent Timely Ready n rest (agent_root w) w
      → is_ok (Machine.provision_machine c ts w).0 ≡ true
  unfolding Machine.provision_machine Machine.machine_agent_path ◌>>=◌
  provision_machine_calm w set open' = rw set (surely (at_calm (agent_root w)) w open')
