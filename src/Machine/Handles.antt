-- ===== src/Machine/Handles.antt =====
-- Handles in the machine entry points.
use local_tls.Base.{Bool, true, false, refl, String, none, if◌then◌else◌}
use local_tls.Errors.{Outcome, ok, err, text, errors_is, key_not_found}
use local_tls.Host.{Host, FilePath, Signer, Certificate}
use local_tls.Identity.{prod_ca_key_name, prod_server_key_name}
use local_tls.World.{World, pure, raise, context, on_keys, or_else, ◌>>=◌, ◌>>◌}
use local_tls.World.Keeps.{Keeps, keeps_rules}
use local_tls.World.Ledger.{
  Live, Closes, Opens, Ledger, held, nothing, ◌⊕◌, owed, Ledger-pure, Ledger-raise, Ledger-context,
  Ledger-bind, Ledger-step, Ledger-guard, Ledger-or_else, Ledger-open, Ledger-gets,
  Ledger-open_more, Ledger-attempt,
}
use local_tls.Os.Frame.{IgnoresFaults, IgnoresRoot, Keeps-on_root, os_frame}
use local_tls.Files.Frame.{Keeps-file_exists}
use local_tls.KeyStore.{open_production_key, OnKeys, Windowscng, platform_key_store}
use local_tls.KeyStore.Handles.{
  OpensCng, open_production_key-Opens, platform_key_store-OpensKeys, Ledger-close_production,
  Ledger-close_first,
}
use local_tls.TrustStore.{TrustStore}
use local_tls.Material.{material_from_signers}
use local_tls.Provision.Handles.{owned, renew_keeps, provision-Ledger}
use local_tls.Machine

module _ {H : Host} {live : Live H} (closes : Closes H live) where
  faults : IgnoresFaults (λ (w : World H). live.count w.keys)
  faults = record { at = λ w f. refl }

  root : IgnoresRoot (λ (w : World H). live.count w.keys)
  root = record { at = λ w r. refl }

  agent_path_keeps : Keeps (λ (w : World H). live.count w.keys) Machine.machine_agent_path
  unfolding Machine.machine_agent_path
  agent_path_keeps = search keeps_rules

  -- `loadServingMaterial` takes the signer over, and closes it on every failure.
  serving_checked-Ledger :
      (ca server : Certificate H) (s : Signer) (ts : TrustStore H)
      → Ledger live (held s) owned nothing (Machine.load_serving_checked ca server s ts)
  unfolding Machine.load_serving_checked material_from_signers
  serving_checked-Ledger ca server s ts =
      let release = Ledger-close_production s closes in
      Ledger-guard (search keeps_rules) release λ _. Ledger-guard (search keeps_rules) release λ _.
        Ledger-guard (search keeps_rules) release λ _.
          Ledger-guard (search (keeps_rules, Keeps-on_root, root)) release λ state.
            Ledger-guard (search keeps_rules) release
              λ _. Ledger-pure (material_from_signers ca server s) (λ j. refl)

  -- `closeProductionSigner(caSigner); closeProductionSigner(serverSigner)`.
  release_both :
      (cs ss : Signer)
      → Ledger live
          (held cs ⊕ held ss)
          (λ _. nothing)
          nothing
          (Machine.close_production_signer cs >> Machine.close_production_signer ss)
  release_both cs ss =
      Ledger-bind (Ledger-close_first cs (held ss) closes) λ _. Ledger-close_production ss closes

  reload_checked-Ledger :
      (c : Windowscng H) (ts : TrustStore H) (d : FilePath) (ca : Certificate H) (cs : Signer)
      (server : Certificate H) (ss : Signer)
      → Ledger live
          (held cs ⊕ held ss)
          owned
          nothing
          (Machine.reload_checked c ts d ca cs server ss)
  unfolding Machine.reload_checked material_from_signers
  reload_checked-Ledger c ts d ca cs server ss =
      let release = release_both cs ss in
      Ledger-guard (search keeps_rules) release λ _. Ledger-guard (search keeps_rules) release λ _.
        Ledger-guard (search keeps_rules) release λ _.
          Ledger-guard (search (keeps_rules, Keeps-on_root, root)) release λ state.
            Ledger-guard (search keeps_rules) release λ _. Ledger-bind (Ledger-gets _) λ now.
              Ledger-guard (renew_keeps closes d now ca cs server ss) release λ current.
                Ledger-bind (Ledger-close_first cs (held ss) closes)
                  λ _. Ledger-pure (material_from_signers ca current ss) (λ j. refl)

  probe-Ledger :
      {open' : String → OnKeys H Signer} (opens : (name : String) → Opens live (open' name))
      (key : String)
      → Ledger live nothing (λ _. nothing) nothing (Machine.probe_key open' key)
  unfolding Machine.probe_key
  probe-Ledger {open'} opens key =
      Ledger-bind {mid = owed held nothing} (Ledger-attempt (Ledger-open (opens key)))
        λ r. probed-Ledger r
    where
      probed-Ledger :
          (r : Outcome Signer)
          → Ledger live (owed held nothing r) (λ _. nothing) nothing (Machine.probed {H = H} r)
      probed-Ledger (ok s) =
          Ledger-bind (Ledger-close_production s closes) λ _. Ledger-pure true (λ j. refl)
      probed-Ledger (err e) = probed_err (errors_is e key_not_found)
        where
          probed_err :
              (b : Bool)
              → Ledger {H = H} live nothing
                  (λ _. nothing)
                  nothing
                  (if b then pure false else raise e)
          probed_err true = Ledger-pure false (λ j. refl)
          probed_err false = Ledger-raise e

  module _ {c : Windowscng H} (cng : OpensCng live c) (ts : TrustStore H) where
    pub load_serving-Ledger : Ledger live nothing owned nothing (Machine.load_serving_material c ts)
    unfolding Machine.load_serving_material
    load_serving-Ledger = Ledger-step (search (keeps_rules, agent_path_keeps)) λ d.
        Ledger-step (search (keeps_rules, os_frame, faults)) λ ca.
          Ledger-step (search (keeps_rules, os_frame, faults)) λ server.
            Ledger-bind (Ledger-context _ (Ledger-open (open_production_key-Opens cng _)))
              λ s. serving_checked-Ledger ca server s ts

    -- The server key is opened while the CA signer is held, and a failure closes that.
    open_server :
        (cs : Signer)
        → Ledger live
            (held cs)
            (λ ss. held cs ⊕ held ss)
            nothing
            (or_else
              (context "open server key"
                (on_keys {H = H} (open_production_key c prod_server_key_name)))
              (Machine.close_production_signer cs))
    open_server cs =
        Ledger-or_else (Ledger-context _ (Ledger-open_more (open_production_key-Opens cng _)))
          (Ledger-close_production cs closes)

    pub reload_machine-Ledger : Ledger live nothing owned nothing (Machine.reload_machine c ts)
    unfolding Machine.reload_machine
    reload_machine-Ledger = Ledger-step (search (keeps_rules, agent_path_keeps)) λ d.
        Ledger-step (search (keeps_rules, os_frame, faults)) λ ca.
          Ledger-bind (Ledger-context _ (Ledger-open (open_production_key-Opens cng _))) λ cs.
            let release = Ledger-close_production cs closes in
            Ledger-guard (search keeps_rules) release λ _.
              Ledger-guard (search (keeps_rules, os_frame, faults)) release λ server.
                Ledger-bind (open_server cs) λ ss. reload_checked-Ledger c ts _ ca cs server ss

    check_branch :
        (partial' ca_der server_der : Bool)
        → Ledger live nothing
            (λ _. nothing)
            nothing
            (if partial' then pure true else (do
              ca_key ← Machine.probe_key (open_production_key c) prod_ca_key_name
              server_key ← Machine.probe_key (open_production_key c) prod_server_key_name
              pure (Machine.provision_state_inconsistent ca_der server_der ca_key server_key)))
    check_branch true ca_der server_der = Ledger-pure true (λ j. refl)
    check_branch false ca_der server_der =
        Ledger-bind (probe-Ledger (open_production_key-Opens cng) _) λ ca_key.
          Ledger-bind (probe-Ledger (open_production_key-Opens cng) _)
            λ server_key. Ledger-pure _ (λ j. refl)

    -- The pre-check closes every key that it probes.
    pub check_inconsistent-Ledger :
        (d : FilePath)
        → Ledger live nothing
            (λ _. nothing)
            nothing
            (Machine.check_inconsistent_machine_state d (open_production_key c))
    unfolding Machine.check_inconsistent_machine_state
    check_inconsistent-Ledger d =
        Ledger-step (search (keeps_rules, Keeps-file_exists, faults)) λ ca_der.
          Ledger-step (search (keeps_rules, Keeps-file_exists, faults))
            λ server_der. check_branch _ ca_der server_der

    provision_decided :
        (d : FilePath) (inconsistent : Bool)
        → Ledger live nothing owned nothing (
            if inconsistent
            then raise (text "inconsistent machine state")
            else Machine.provision_with_key_store d (platform_key_store c) ts none true)
    provision_decided d true = Ledger-raise _
    provision_decided d false =
        provision-Ledger closes (platform_key_store-OpensKeys cng) ts none (search keeps_rules) d
          true

    pub provision_machine-Ledger :
        Ledger live nothing owned nothing (Machine.provision_machine c ts)
    unfolding Machine.provision_machine
    provision_machine-Ledger = Ledger-step (search (keeps_rules, agent_path_keeps)) λ d.
        Ledger-bind (Ledger-context _ (check_inconsistent-Ledger d))
          λ inconsistent. provision_decided d inconsistent
