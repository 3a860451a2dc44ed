-- ===== src/TestKeys/Handles.antt =====
-- The handles behind test keys.
use local_tls.Base.{String, Bool, true, false, arith}
use local_tls.Errors.{Outcome}
use local_tls.Host.{Host, Signer}
use local_tls.World.Ledger.{Live, Opens}
use local_tls.KeyStore.{Windowscng}
use local_tls.KeyStore.Handles.{OpensCng, open_production_key-Opens, load_or_create-Opens}
use local_tls.TestKeys.{in_test_namespace, guarded, test_create_key, test_open_key}

-- A refused name opens nothing.
guarded-Opens :
    {H : Host} {live : Live H} (inside : Bool) {call : H.KeyState → Outcome Signer × H.KeyState}
    → Opens {H = H} live call
    → Opens {H = H} live (guarded inside call)
guarded-Opens true o = o
guarded-Opens false o = record { at = λ k j. omega arith }

module _ {H : Host} {live : Live H} {c : Windowscng H} (cng : OpensCng live c) where
  pub test_open-Opens : (name : String) → Opens live (test_open_key c name)
  unfolding test_open_key
  test_open-Opens name = guarded-Opens (in_test_namespace name) (open_production_key-Opens cng name)

  pub test_create-Opens : (name : String) → Opens live (test_create_key c name)
  unfolding test_create_key
  test_create-Opens name = guarded-Opens (in_test_namespace name) (load_or_create-Opens cng name)
