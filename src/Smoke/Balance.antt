-- ===== src/Smoke/Balance.antt =====
-- What smoke provisioning leaves open in the key provider.
use local_tls.Base.{ℕ, ◌+◌, false, ◌≡◌}
use local_tls.Host.{Host, FilePath}
use local_tls.Identity.{smoke_ca_key_name, smoke_server_key_name}
use local_tls.World.{World}
use local_tls.World.Keeps.{keeps_rules}
use local_tls.World.Ledger.{Live, Closes, Ledger, Ledger-step, Ledger-bind, nothing}
use local_tls.KeyStore.{Windowscng}
use local_tls.KeyStore.Handles.{OpensCng, OpensKeys}
use local_tls.TestKeys.Handles.{test_open-Opens, test_create-Opens}
use local_tls.TrustStore.{TrustStore}
use local_tls.Provision.Handles.{owned, provision-Ledger}
use local_tls.Machine.Balance.{left_open, balanced}
use local_tls.Smoke.{smoke_key_store, provision_smoke}
use local_tls.Smoke.Preflight.{preflight_smoke-Ledger}

module _ {H : Host} {live : Live H} {c : Windowscng H} (cng : OpensCng live c) where
  smoke_key_store-OpensKeys : OpensKeys live (smoke_key_store c)
  smoke_key_store-OpensKeys = record {
    ca_key = test_create-Opens cng smoke_ca_key_name;
    server_key = test_create-Opens cng smoke_server_key_name;
  }

  module _ (closes : Closes H live) (ts : TrustStore H) where
    provision_smoke-Ledger :
        (d : FilePath) → Ledger live nothing owned nothing (provision_smoke c ts d)
    unfolding provision_smoke
    provision_smoke-Ledger d = Ledger-step (search keeps_rules) λ u.
        Ledger-step (search keeps_rules) λ v.
          Ledger-bind (preflight_smoke-Ledger closes (test_open-Opens cng) _)
            λ x. provision-Ledger closes smoke_key_store-OpensKeys ts _ (search keeps_rules) d false

    -- Where an open of the key provider opens one handle or fails and opens none, and a close
    -- releases exactly its handle:
    -- `ProvisionSmoke` leaves open exactly the server key's handle when it returns the material, and
    -- no handle when it fails, the probe of the preflight included.
    pub provision_smoke_balance :
        (d : FilePath) (w : World H) (j : ℕ)
        → live.count (provision_smoke c ts d w).1.keys j
          ≡ live.count w.keys j + left_open (provision_smoke c ts d w).0 j
    provision_smoke_balance d w j = balanced (provision_smoke-Ledger d) w j
