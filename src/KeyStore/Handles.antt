-- ===== src/KeyStore/Handles.antt =====
-- The handles behind the signers.
use local_tls.Base.{ℕ, ◌+◌, String, ◌≡◌, refl, arith}
use local_tls.Errors.{Outcome, ok, err}
use local_tls.Identity.{prod_ca_key_name, prod_server_key_name}
use local_tls.Host.{Host, Signer}
use local_tls.World.{◌>>=◌}
use local_tls.World.Ledger.{
  Live, Closes, Opens, Ledger, Account, ◌⊕◌, held, nothing, owed, owed-nothing,
}
use local_tls.KeyStore.{
  MachineKeyStore, Windowscng, close_signer, close_production_signer, map_error,
  open_production_key, load_or_create_key, platform_key_store,
}

module _ {H : Host} {live : Live H} where
  -- `closeSigner` gives back exactly the signer's handle.
  pub Ledger-close_signer :
      (s : Signer) → Closes H live → Ledger live (held s) (λ _. nothing) nothing (close_signer s)
  unfolding close_signer ◌>>=◌
  Ledger-close_signer s c = record {
    at = λ w h j.
        ground
          (arith, c.at s.handle w.keys j, h j, owed-nothing (H.close_handle s.handle w.keys).0 j);
  }

  -- `closeProductionSigner` does so too, and never fails.
  pub Ledger-close_production :
      {fail : Account} (s : Signer)
      → Closes H live
      → Ledger live (held s) (λ _. nothing) fail (close_production_signer s)
  unfolding close_production_signer close_signer ◌>>=◌
  Ledger-close_production s c = record { at = λ w h j. ground (arith, c.at s.handle w.keys j, h j) }

  -- The same while the handles of `rest` are open.
  pub Ledger-close_first :
      {fail : Account} (s : Signer) (rest : Account)
      → Closes H live
      → Ledger live (held s ⊕ rest) (λ _. rest) fail (close_production_signer s)
  unfolding close_production_signer close_signer ◌>>=◌
  Ledger-close_first s rest c = record { at = λ w h j. ground (arith, c.at s.handle w.keys j, h j) }

-- The mapping of the error leaves the provider's state.
pub mapped_state : {S A : Type 0} (r : Outcome A × S) → (map_error r).1 ≡ r.1
unfolding map_error
mapped_state (ok a, k) = refl
mapped_state (err e, k) = refl

-- Both keys of a key store open one handle or none.
pub record OpensKeys {H : Host} (live : Live H) (ks : MachineKeyStore H) : Type 0 where
  pub ca_key : Opens live ks.load_or_create_ca_key
  pub server_key : Opens live ks.load_or_create_server_key

-- What the package relies on in windowscng: a successful open or create opens one handle, a failed
-- none.
pub record OpensCng {H : Host} (live : Live H) (c : Windowscng H) : Type 0 where
  pub load_or_create : (name : String) → Opens live (c.load_or_create name)
  pub open' : (name : String) → Opens live (c.open' name)

module _ {H : Host} {live : Live H} where
  mapped-Opens :
      {f : H.KeyState → Outcome Signer × H.KeyState}
      → Opens live f
      → Opens live (λ k. map_error (f k))
  unfolding map_error
  mapped-Opens {f} o = record { at = λ k j. mapped_at _ (f k).0 (f k).1 j (o.at k j) }
    where
      mapped_at :
          (n : ℕ) (r : Outcome Signer) (v : H.KeyState) (j : ℕ)
          → live.count v j ≡ n + owed held nothing r j
          → live.count (map_error (r, v)).1 j ≡ n + owed held nothing (map_error (r, v)).0 j
      mapped_at n (ok s) v j e = e
      mapped_at n (err x) v j e = e

  module _ {c : Windowscng H} (o : OpensCng live c) where
    pub open_production_key-Opens : (name : String) → Opens live (open_production_key c name)
    unfolding open_production_key
    open_production_key-Opens name = mapped-Opens (o.open' name)

    pub load_or_create-Opens : (name : String) → Opens live (load_or_create_key c name)
    unfolding load_or_create_key
    load_or_create-Opens name = mapped-Opens (o.load_or_create name)

    pub platform_key_store-OpensKeys : OpensKeys live (platform_key_store c)
    platform_key_store-OpensKeys = record {
      ca_key = load_or_create-Opens prod_ca_key_name;
      server_key = load_or_create-Opens prod_server_key_name;
    }
