-- ===== src/KeyStore.antt =====
-- keystore.go and keystore_windows.go: the interfaces of the key store, and the implementation
-- over the package windowscng, whose functions are parameters.
pub mod Handles
use local_tls.Base.{String, if◌then◌else◌}
use local_tls.Errors.{
  Error, Outcome, ok, err, errors_is, sentinel, key_not_found, cng_key_not_found,
}
use local_tls.Host.{Host, Signer}
use local_tls.Identity.{prod_ca_key_name, prod_server_key_name}
use local_tls.World.{M, pure, on_keys, ignore}

-- A call of the key provider: a result and the provider's new state.
abbrev pub OnKeys : Host → Type 0 → Type 0
OnKeys H A = H.KeyState → Outcome A × H.KeyState

pub record MachineKeyStore (H : Host) : Type 0 where
  pub load_or_create_ca_key : OnKeys H Signer
  pub load_or_create_server_key : OnKeys H Signer

pub record MachineKeyDeleter (H : Host) : Type 0 where
  pub delete_ca_key : OnKeys H (Unit {0})
  pub delete_server_key : OnKeys H (Unit {0})

-- github.com/keppin-oss/cng/windowscng.
pub record Windowscng (H : Host) : Type 0 where
  pub load_or_create : String → OnKeys H Signer
  pub open' : String → OnKeys H Signer
  pub delete : String → OnKeys H (Unit {0})

unfoldable pub map_cng_error : Error → Error
map_cng_error e = if errors_is e cng_key_not_found then sentinel key_not_found else e

unfoldable pub map_error : {S A : Type 0} → Outcome A × S → Outcome A × S
map_error (ok a, k) = (ok a, k)
map_error (err e, k) = (err (map_cng_error e), k)

module _ {H : Host} where
  -- `closeSigner`: a signer with no `Close` has no handle.
  unfoldable pub close_signer : Signer → M H (Unit {0})
  close_signer s = if s.closer then on_keys {H = H} (H.close_handle s.handle) else pure tt

  -- The error is dropped.
  unfoldable pub close_production_signer : Signer → M H (Unit {0})
  close_production_signer s = ignore (close_signer s)

  module _ (c : Windowscng H) where
    unfoldable pub load_or_create_key : String → OnKeys H Signer
    unfolding map_error
    load_or_create_key name k = map_error (c.load_or_create name k)

    unfoldable pub open_production_key : String → OnKeys H Signer
    unfolding map_error
    open_production_key name k = map_error (c.open' name k)

    unfoldable pub delete_production_key : String → OnKeys H (Unit {0})
    unfolding map_error
    delete_production_key name k = map_error (c.delete name k)

    abbrev pub platform_key_store : MachineKeyStore H
    platform_key_store = record {
      load_or_create_ca_key = load_or_create_key prod_ca_key_name;
      load_or_create_server_key = load_or_create_key prod_server_key_name;
    }

    abbrev pub platform_key_deleter : MachineKeyDeleter H
    platform_key_deleter = record {
      delete_ca_key = delete_production_key prod_ca_key_name;
      delete_server_key = delete_production_key prod_server_key_name;
    }
