-- ===== src/Machine/ReadOnly.antt =====
-- What the read-only entry points leave alone.
use local_tls.Base.{
  [], ◌∷◌, str_eq, ℕ, ◌≢◌, arith, String, ◌≡◌, refl, Bool, true, false, Option, List, if◌then◌else◌,
}
use local_tls.Errors.{is_ok, text, wrapped, Outcome, ok, err}
use local_tls.Host.{Host, FilePath, name, Signer, Certificate, PublicKey}
use local_tls.Identity.{file_system_dir}
use local_tls.Os.{join}
use local_tls.World
use local_tls.World.{World, Node, M, pure, raise, on_keys, on_root, ◌>>=◌}
use local_tls.World.Keeps.{Keeps, keeps_rules, Keeps-bind, Keeps-context}
use local_tls.Os.Frame.{IgnoresFaults, os_frame}
use local_tls.Files.Frame.{Keeps-file_exists}
use local_tls.KeyStore.{Windowscng, close_signer, close_production_signer, open_production_key}
use local_tls.TrustStore.{TrustStore}
use local_tls.Machine

-- An observation that opening a key, closing a handle and verifying trust do not change.
pub record Reads {H : Host} {X : Type 0} (c : Windowscng H) (ts : TrustStore H) (obs : World H → X)
    : Type 0 where
  pub faults : IgnoresFaults obs
  pub open_key : (key : String) → Keeps obs (on_keys {H = H} (open_production_key c key))
  pub close_key : (s : Signer) → Keeps obs (close_signer s)
  pub verify : (der : H.Bytes) → Keeps obs (on_root {H = H} (ts.verify_trust der))

module _ {H : Host} {X : Type 0} {c : Windowscng H} {ts : TrustStore H} {obs : World H → X}
    (reads : Reads c ts obs) where
  open reads use {faults, open_key, close_key, verify}

  close_production : (s : Signer) → Keeps obs (close_production_signer s)
  unfolding close_production_signer
  close_production s = search (keeps_rules, close_key s)

  agent_path : Keeps obs Machine.machine_agent_path
  unfolding Machine.machine_agent_path
  agent_path = search keeps_rules

  serving_checked :
      (ca server : Certificate H) (s : Signer)
      → Keeps obs (Machine.load_serving_checked ca server s ts)
  unfolding Machine.load_serving_checked
  serving_checked ca server s = search (keeps_rules, close_production, verify) depth 20

  pub load_serving_keeps : Keeps obs (Machine.load_serving_material c ts)
  unfolding Machine.load_serving_material
  load_serving_keeps = Keeps-bind _ _ (Keeps-context _ _ agent_path) λ root.
      Keeps-bind _ _ (search (keeps_rules, os_frame)) λ ca.
        Keeps-bind _ _ (search (keeps_rules, os_frame))
          λ server. Keeps-bind _ _ (Keeps-context _ _ (open_key _)) λ s. serving_checked ca server s

  probed : (r : Outcome Signer) → Keeps obs (Machine.probed r)
  unfolding Machine.probed
  probed (ok s) = search (keeps_rules, close_production)
  probed (err e) = search keeps_rules

  probe_key : (key : String) → Keeps obs (Machine.probe_key {H = H} (open_production_key c) key)
  unfolding Machine.probe_key
  probe_key key = Keeps-bind _ _ (search (keeps_rules, open_key)) probed

  pub check_inconsistent_keeps :
      (d : FilePath)
      → Keeps obs (Machine.check_inconsistent_machine_state {H = H} d (open_production_key c))
  unfolding Machine.check_inconsistent_machine_state
  check_inconsistent_keeps d = search (keeps_rules, Keeps-file_exists, faults, probe_key) depth 20

-- What outlives the process: the files, the persisted keys and the trust anchors.
pub record Durable (H : Host) : Type 0 where
  pub files : FilePath → Option (Node H)
  pub stored : String → Option PublicKey
  pub anchors : List H.Bytes

-- How the two external states are read, and what the package relies on: opening a key, closing a
-- handle and verifying trust change neither.
pub record Contents (H : Host) : Type 0 where
  pub stored : H.KeyState → String → Option PublicKey
  pub anchors : H.RootState → List H.Bytes

pub record IsReadOnly {H : Host} (o : Contents H) (c : Windowscng H) (ts : TrustStore H)
    : Type 0 where
  pub open' : (key : String) (k : H.KeyState) → o.stored (c.open' key k).1 ≡ o.stored k
  pub close : (h : ℕ) (k : H.KeyState) → o.stored (H.close_handle h k).1 ≡ o.stored k
  pub verify : (der : H.Bytes) (r : H.RootState) → o.anchors (ts.verify_trust der r).1 ≡ o.anchors r

-- Where `MachineAgentPath` points.
abbrev pub agent_root : {H : Host} → World H → FilePath
agent_root w = join (join (name w.program_data ∷ []) file_system_dir) "Agent"

abbrev pub durable : {H : Host} → Contents H → World H → Durable H
durable o w = record { files = w.fs; stored = o.stored w.keys; anchors = o.anchors w.root }

module _ {H : Host} {o : Contents H} {c : Windowscng H} {ts : TrustStore H}
    (ro : IsReadOnly o c ts) where
  open_stored :
      (key : String) (k : H.KeyState) → o.stored (open_production_key c key k).1 ≡ o.stored k
  unfolding open_production_key
  open_stored key k = ground (arith, ro.open' key k)

  durable-Reads : Reads c ts (durable o)
  unfolding ◌>>=◌ close_signer
  durable-Reads = record {
    faults = record { at = λ w f. refl };
    open_key = λ key. record {
      at = λ w i. record {
        files = w.fs;
        stored = open_stored key w.keys i;
        anchors = o.anchors w.root;
      };
    };
    close_key = λ s. record { at = λ w. close_at w s.closer s.handle };
    verify = λ der. record {
      at = λ w i. record {
        files = w.fs;
        stored = o.stored w.keys;
        anchors = ro.verify der w.root i;
      };
    };
  }
    where
      close_at :
          (w : World H) (b : Bool) (h : ℕ)
          → durable o ((if b then on_keys {H = H} (H.close_handle h) else pure tt) w).1
            ≡ durable o w
      close_at w true h =
          λ i. record { files = w.fs; stored = ro.close h w.keys i; anchors = o.anchors w.root }
      close_at w false h = refl

  -- `LoadServingMaterial` changes no file, no persisted key and no trust anchor, whether it succeeds
  -- or fails, where opening a key, closing a handle and verifying trust do not.
  pub serving_read_only :
      (w : World H) → durable o (Machine.load_serving_material c ts w).1 ≡ durable o w
  serving_read_only w = (load_serving_keeps durable-Reads).at w

  check_read_only :
      (root : FilePath)
      → Keeps
          (durable o)
          (Machine.check_inconsistent_machine_state {H = H} root (open_production_key c))
  check_read_only root = check_inconsistent_keeps durable-Reads root

  -- Where the pre-check does not answer that the state is consistent, because it is not or because
  -- it cannot be decided, `ProvisionMachine` fails, and files, persisted keys and trust anchors are
  -- as before, where opening a key and closing a handle leave them alone.
  pub provision_fails_closed :
      (w : World H)
      → (Machine.check_inconsistent_machine_state {H = H}
          (agent_root w)
          (open_production_key c)
          w).0
        ≢ ok false
      → (is_ok (Machine.provision_machine c ts w).0 ≡ false)
        × (durable o (Machine.provision_machine c ts w).1 ≡ durable o w)
  unfolding Machine.provision_machine Machine.machine_agent_path ◌>>=◌
  provision_fails_closed w refused = rooted (str_eq w.program_data "")
    where
      decided :
          (r : Outcome Bool) (v : World H)
          → r ≢ ok false
          → durable o v ≡ durable o w
          → (is_ok
                (World.continue
                  (wrapped "provision pre-check" r)
                  (Machine.provision_unless c ts (agent_root w))
                  v).0
              ≡ false)
            × (durable o
                  (World.continue
                    (wrapped "provision pre-check" r)
                    (Machine.provision_unless c ts (agent_root w))
                    v).1
                ≡ durable o w)
      decided (ok true) v no' same = (refl, same)
      decided (ok false) v no' same = absurd (no' refl)
      decided (err e) v no' same = (refl, same)

      rooted :
          (unset : Bool)
          → (is_ok
                (World.continue
                  (wrapped "resolve machine agent path"
                    (if unset then err (text "%ProgramData% is not set") else ok (agent_root w)))
                  (Machine.provision_at c ts)
                  w).0
              ≡ false)
            × (durable o
                  (World.continue
                    (wrapped "resolve machine agent path"
                      (if unset then err (text "%ProgramData% is not set") else ok (agent_root w)))
                    (Machine.provision_at c ts)
                    w).1
                ≡ durable o w)
      rooted true = (refl, refl)
      rooted false = decided _ _ refused ((check_read_only (agent_root w)).at w)
