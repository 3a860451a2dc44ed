-- ===== src/TestKeys/Isolated.antt =====
-- The test operations cannot touch a key outside the test namespace.
use local_tls.Base.{ℕ, String, Bool, true, false, Option, ◌≡◌, ◌≢◌, refl, sym, ap, ◌∙◌}
use local_tls.Host.{Host, PublicKey}
use local_tls.Identity.{prod_ca_key_name, prod_server_key_name}
use local_tls.KeyStore.{
  OnKeys, Windowscng, load_or_create_key, open_production_key, delete_production_key,
}
use local_tls.KeyStore.Handles.{mapped_state}
use local_tls.TestKeys.{in_test_namespace, guarded, test_create_key, test_open_key, test_delete_key}

-- What is stored under each name, and what the package relies on in windowscng: creating, opening
-- and deleting a key changes what is stored under that name at most, and closing a handle nothing.
pub record NamesOnly {H : Host} (c : Windowscng H) : Type 0 where
  pub stored : H.KeyState → String → Option PublicKey
  pub create_elsewhere :
      (name n : String) (k : H.KeyState)
      → name ≢ n
      → stored (c.load_or_create name k).1 n ≡ stored k n
  pub open_elsewhere :
      (name n : String) (k : H.KeyState) → name ≢ n → stored (c.open' name k).1 n ≡ stored k n
  pub delete_elsewhere :
      (name n : String) (k : H.KeyState) → name ≢ n → stored (c.delete name k).1 n ≡ stored k n
  pub close : (h : ℕ) (k : H.KeyState) (n : String) → stored (H.close_handle h k).1 n ≡ stored k n

module _ {H : Host} {c : Windowscng H} (names : NamesOnly c) where
  -- A guarded call on any name, seen at a name outside the namespace.
  guarded_elsewhere :
      {A : Type 0} (call : String → OnKeys H A) (name n : String) (k : H.KeyState)
      → in_test_namespace n ≡ false
      → (name ≢ n → names.stored (call name k).1 n ≡ names.stored k n)
      → (inside : Bool) → in_test_namespace name ≡ inside
      → names.stored (guarded inside (call name) k).1 n ≡ names.stored k n
  guarded_elsewhere call name n k out same false e = refl
  guarded_elsewhere call name n k out same true e =
      same (λ eq. cc (sym e ∙ ap in_test_namespace eq ∙ out))

  module _ (n : String) (k : H.KeyState) where
    -- Where the key provider changes what is stored under the name of a call at most, and `n` is a
    -- name outside the test namespace: whatever name `TestCreateKey`, `TestOpenKey` and
    -- `TestDeleteKey` are called with, what is stored under `n` stays as it is.
    pub test_keys_isolated :
        in_test_namespace n ≡ false
        → (name : String)
        → (names.stored (test_create_key c name k).1 n ≡ names.stored k n)
          × (names.stored (test_open_key c name k).1 n ≡ names.stored k n)
          × (names.stored (test_delete_key c name k).1 n ≡ names.stored k n)
    unfolding test_create_key test_open_key test_delete_key load_or_create_key open_production_key
        delete_production_key
    test_keys_isolated out name = (
      guarded_elsewhere (load_or_create_key c) name n k out
          (λ d. ap (λ s. names.stored s n) (mapped_state _) ∙ names.create_elsewhere name n k d) _
          refl,
      guarded_elsewhere (open_production_key c) name n k out
          (λ d. ap (λ s. names.stored s n) (mapped_state _) ∙ names.open_elsewhere name n k d) _
          refl,
      guarded_elsewhere (delete_production_key c) name n k out
          (λ d. ap (λ s. names.stored s n) (mapped_state _) ∙ names.delete_elsewhere name n k d) _
          refl,
    )

-- The production keys' names are outside.
pub production_outside :
    (in_test_namespace prod_ca_key_name ≡ false) × (in_test_namespace prod_server_key_name ≡ false)
production_outside = (refl, refl)
