-- ===== src/Machine/Balance.antt =====
-- What the machine entry points leave open in the key provider.
use local_tls.Base.{ℕ, ◌+◌, ◌≡◌, arith}
use local_tls.Errors.{Outcome, ok, err}
use local_tls.Host.{Host, FilePath}
use local_tls.World.{World, M}
use local_tls.World.Ledger.{Live, Closes, Ledger, Account, nothing, owed}
use local_tls.KeyStore.{Windowscng, open_production_key}
use local_tls.KeyStore.Handles.{OpensCng}
use local_tls.TrustStore.{TrustStore}
use local_tls.Material.{Material}
use local_tls.Provision.Handles.{owned}
use local_tls.Machine
use local_tls.Machine.Handles.{
  load_serving-Ledger, reload_machine-Ledger, check_inconsistent-Ledger, provision_machine-Ledger,
}

-- The handle of a material that was returned, and none where an error was.
abbrev pub left_open : {H : Host} → Outcome (Material H) → Account
left_open r = owed owned nothing r

pub balanced :
    {H : Host} {live : Live H} {A : Type 0} {out : A → Account} {m : M H A}
    → Ledger live nothing out nothing m
    → (w : World H) (j : ℕ)
    → live.count (m w).1.keys j ≡ live.count w.keys j + owed out nothing (m w).0 j
balanced l w j = omega (arith, l.at w (λ i. omega arith) j)

module _ {H : Host} {live : Live H} (closes : Closes H live) {c : Windowscng H}
    (cng : OpensCng live c) (ts : TrustStore H) (w : World H) (j : ℕ) where
  -- Where an open of the key provider opens one handle or fails and opens none, and a close
  -- releases exactly its handle:
  -- `LoadServingMaterial` leaves open exactly the server key's handle when it returns the material,
  -- and no handle when it fails, at whatever call that is; handles opened before stay open.
  pub load_serving_balance :
      live.count (Machine.load_serving_material c ts w).1.keys j
      ≡ live.count w.keys j + left_open (Machine.load_serving_material c ts w).0 j
  load_serving_balance = balanced (load_serving-Ledger closes cng ts) w j

  -- Where an open of the key provider opens one handle or fails and opens none, and a close
  -- releases exactly its handle:
  -- `ReloadMachine` opens two keys; it leaves open exactly the server key's handle when it returns
  -- the material, and no handle when it fails, at whatever call that is.
  pub reload_machine_balance :
      live.count (Machine.reload_machine c ts w).1.keys j
      ≡ live.count w.keys j + left_open (Machine.reload_machine c ts w).0 j
  reload_machine_balance = balanced (reload_machine-Ledger closes cng ts) w j

  -- Where an open of the key provider opens one handle or fails and opens none, and a close
  -- releases exactly its handle:
  -- `ProvisionMachine`, through the pre-check and then a first provisioning or a reload, leaves open
  -- exactly the server key's handle when it returns the material, and no handle when it fails.
  pub provision_machine_balance :
      live.count (Machine.provision_machine c ts w).1.keys j
      ≡ live.count w.keys j + left_open (Machine.provision_machine c ts w).0 j
  provision_machine_balance = balanced (provision_machine-Ledger closes cng ts) w j

  -- Where an open of the key provider opens one handle or fails and opens none, and a close
  -- releases exactly its handle:
  -- `checkInconsistentMachineState` opens both keys at most and leaves no handle open, whether it
  -- answers or fails.
  pub check_inconsistent_balance :
      (root : FilePath)
      → live.count
          (Machine.check_inconsistent_machine_state root (open_production_key c) w).1.keys
          j
        ≡ live.count w.keys j
  check_inconsistent_balance root = omega (
    arith,
    checked (Machine.check_inconsistent_machine_state root (open_production_key c) w).0
        (balanced (check_inconsistent-Ledger closes cng ts root) w j),
  )
    where
      checked :
          {A : Type 0} {n p : ℕ} (r : Outcome A) → n ≡ p + owed (λ _. nothing) nothing r j → n ≡ p
      checked (ok a) e = omega (arith, e)
      checked (err x) e = omega (arith, e)
