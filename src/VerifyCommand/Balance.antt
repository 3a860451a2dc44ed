-- ===== src/VerifyCommand/Balance.antt =====
-- What the verify command leaves open in the key provider.
use local_tls.Base.{
  ℕ, ◌+◌, String, Bool, true, false, Option, none, some, List, [], ◌∷◌, ◌≡◌, refl, ap, ◌∙◌, arith,
  if◌then◌else◌,
}
use local_tls.Errors.{Outcome, ok, err}
use local_tls.Host.{Host, FilePath, Signer}
use local_tls.World.{World, M, pure, attempt, on_keys, on_root, ◌>>=◌}
use local_tls.World.Keeps.{Keeps, keeps_rules}
use local_tls.World.Ledger.{
  Live, Closes, Ledger, Ledger-bind, Ledger-step, Ledger-open, Ledger-attempt, Ledger-pure,
  Ledger-neutral, Ledger-defers, held, nothing, owed, owed-nothing,
}
use local_tls.Os.Frame.{IgnoresFaults, IgnoresRoot, os_frame}
use local_tls.KeyStore.{Windowscng, close_production_signer, delete_production_key, map_error}
use local_tls.KeyStore.Handles.{OpensCng, Ledger-close_production, mapped_state}
use local_tls.TestKeys.{
  SignerApi, in_test_namespace, guarded, test_delete_key, test_sign_and_verify,
}
use local_tls.TestKeys.Handles.{test_open-Opens, test_create-Opens}
use local_tls.TrustStore.{TrustStore}
use local_tls.Machine.Balance.{balanced}
use local_tls.VerifyCommand
use local_tls.VerifyCommand.{KeyName, named, exits, Process, exit_code, trust_code, operand, run}

-- What the command relies on: signing and deleting a key open and close no handle.
pub record OpensNothing {H : Host} (live : Live H) (c : Windowscng H) (sg : SignerApi H)
    : Type 0 where
  pub sign :
      (s : Signer) (hash : List ℕ) (k : H.KeyState) → live.count (sg.sign s hash k).1 ≡ live.count k
  pub delete : (name : String) (k : H.KeyState) → live.count (c.delete name k).1 ≡ live.count k

-- The command owns no handle when it ends.
abbrev Balanced : {H : Host} → Live H → M H ℕ → Type 0
Balanced live m = Ledger live nothing (λ _. nothing) nothing m

if_balanced :
    {H : Host} {live : Live H} {m n : M H ℕ} (b : Bool)
    → Balanced live m
    → Balanced live n
    → Balanced live (if b then m else n)
if_balanced true h k = h
if_balanced false h k = k

module _ {H : Host} {live : Live H} (closes : Closes H live) where
  faults : IgnoresFaults (λ (w : World H). live.count w.keys)
  faults = record { at = λ w f. refl }

  root : IgnoresRoot (λ (w : World H). live.count w.keys)
  root = record { at = λ w r. refl }

module _ {H : Host} {live : Live H} (closes : Closes H live) {c : Windowscng H}
    (cng : OpensCng live c) {sg : SignerApi H} (no_open : OpensNothing live c sg)
    (ts : TrustStore H) (p : Process H) where
  close_dropped :
      (s : Signer)
      → Ledger live (held s) (λ _. nothing) nothing (VerifyCommand.close_dropped c sg ts p s)
  unfolding VerifyCommand.close_dropped close_production_signer
  close_dropped s = Ledger-close_production s closes

  sign :
      (s : Signer) (hash : List ℕ)
      → Keeps {H = H} (λ w. live.count w.keys) (on_keys {H = H} (sg.sign s hash))
  unfolding ◌>>=◌
  sign s hash = record { at = λ w. no_open.sign s hash w.keys }

  sign_and_verify :
      (s : Signer) → Keeps {H = H} (λ w. live.count w.keys) (test_sign_and_verify sg s)
  unfolding test_sign_and_verify
  sign_and_verify s = search (keeps_rules, sign) depth 12

  delete :
      (name : String)
      → Keeps {H = H} (λ w. live.count w.keys) (on_keys {H = H} (test_delete_key c name))
  unfolding test_delete_key delete_production_key ◌>>=◌
  delete name = record { at = λ w. guarded_at (in_test_namespace name) w.keys }
    where
      guarded_at :
          (b : Bool) (k : H.KeyState)
          → live.count (guarded b (λ k. map_error (c.delete name k)) k).1 ≡ live.count k
      guarded_at true k = ap live.count (mapped_state (c.delete name k)) ∙ no_open.delete name k
      guarded_at false k = refl

  created :
      (r : Outcome Signer)
      → Ledger live (owed held nothing r) (λ _. nothing) nothing (VerifyCommand.created c sg ts p r)
  unfolding VerifyCommand.created
  created (ok s) = Ledger-defers (close_dropped s) (Ledger-pure 0 (λ j. refl))
  created (err e) = Ledger-pure 1 (λ j. refl)

  opened :
      (r : Outcome Signer)
      → Ledger live (owed held nothing r) (λ _. nothing) nothing (VerifyCommand.opened c sg ts p r)
  unfolding VerifyCommand.opened
  opened (ok s) = Ledger-defers (close_dropped s) (Ledger-pure 1 (λ j. refl))
  opened (err e) = Ledger-pure _ (λ j. refl)

  signed :
      (r : Outcome Signer)
      → Ledger live (owed held nothing r) (λ _. nothing) nothing (VerifyCommand.signed c sg ts p r)
  unfolding VerifyCommand.signed
  signed (ok s) =
      Ledger-defers (close_dropped s) (Ledger-neutral (search (keeps_rules, sign_and_verify)))
  signed (err e) = Ledger-pure 1 (λ j. refl)

  generated_name : Keeps {H = H} (λ w. live.count w.keys) (VerifyCommand.generated_name c sg ts p)
  unfolding VerifyCommand.generated_name
  generated_name = record { at = λ w. refl }

  key_name : Keeps {H = H} (λ w. live.count w.keys) (VerifyCommand.key_name c sg ts p)
  unfolding VerifyCommand.key_name
  key_name = search (keeps_rules, generated_name)

  -- A key operation behind `keyName`.
  with_name :
      {handle : String → M H ℕ}
      → ((name : String) → Balanced live (handle name))
      → Balanced live
          (VerifyCommand.key_name c sg ts p >>= VerifyCommand.with_key_name c sg ts p handle)
  unfolding VerifyCommand.with_key_name
  with_name {handle} h = Ledger-step key_name by_name
    where
      by_name : (k : KeyName) → Balanced live (VerifyCommand.with_key_name c sg ts p handle k)
      by_name (named name) = h name
      by_name (exits code) = Ledger-pure code (λ j. refl)

  read_pem :
      (d : FilePath)
      → Keeps {H = H} (λ w. live.count w.keys) (VerifyCommand.read_pem_file c sg ts p d)
  unfolding VerifyCommand.read_pem_file
  read_pem d = search (keeps_rules, os_frame, faults) depth 12

  -- An operation on a PEM file that calls the trust store once.
  with_pem :
      {A : Type 0} (call : H.Bytes → H.RootState → Outcome A × H.RootState) (code : Outcome A → ℕ)
      (argument : Option String)
      → Balanced live (
          VerifyCommand.with_pem c sg ts p
            (λ der. do r ← attempt (on_root {H = H} (call der)); pure (code r))
            argument)
  unfolding VerifyCommand.with_pem VerifyCommand.with_der
  with_pem call code none = Ledger-pure 2 (λ j. refl)
  with_pem call code (some a) = Ledger-step (search (keeps_rules, read_pem)) by_der
    where
      by_der :
          (r : Outcome H.Bytes)
          → Balanced live (
              VerifyCommand.with_der c sg ts p
                (λ der. do o ← attempt (on_root {H = H} (call der)); pure (code o))
                r)
      by_der (ok der) = Ledger-neutral (search (keeps_rules, os_frame, root))
      by_der (err e) = Ledger-pure 1 (λ j. refl)

  with_fingerprint :
      (o : Option (List ℕ)) → Balanced live (VerifyCommand.with_fingerprint c sg ts p o)
  unfolding VerifyCommand.with_fingerprint
  with_fingerprint none = Ledger-pure 2 (λ j. refl)
  with_fingerprint (some fp) = Ledger-neutral (search (keeps_rules, os_frame, root))

  with_operand : (o : Option String) → Balanced live (VerifyCommand.trust_is_operand c sg ts p o)
  unfolding VerifyCommand.trust_is_operand
  with_operand none = Ledger-pure 2 (λ j. refl)
  with_operand (some a) = with_fingerprint _

  create : Balanced live (VerifyCommand.handle_create c sg ts p)
  unfolding VerifyCommand.handle_create
  create = with_name λ name.
      Ledger-bind (Ledger-attempt {fail' = nothing} (Ledger-open (test_create-Opens cng name)))
        created

  open_key : Balanced live (VerifyCommand.handle_open c sg ts p)
  unfolding VerifyCommand.handle_open
  open_key = with_name λ name.
      Ledger-bind (Ledger-attempt {fail' = nothing} (Ledger-open (test_open-Opens cng name))) opened

  sign_key : Balanced live (VerifyCommand.handle_sign c sg ts p)
  unfolding VerifyCommand.handle_sign
  sign_key = with_name λ name.
      Ledger-bind (Ledger-attempt {fail' = nothing} (Ledger-open (test_open-Opens cng name))) signed

  delete_key : Balanced live (VerifyCommand.handle_delete c sg ts p)
  unfolding VerifyCommand.handle_delete
  delete_key = with_name λ name. Ledger-neutral (search (keeps_rules, delete))

  install_trust :
      (args : List String) → Balanced live (VerifyCommand.handle_trust_install c sg ts p args)
  unfolding VerifyCommand.handle_trust_install
  install_trust args = with_pem ts.install_trust exit_code (operand args)

  verify_trust :
      (args : List String) → Balanced live (VerifyCommand.handle_trust_verify c sg ts p args)
  unfolding VerifyCommand.handle_trust_verify
  verify_trust args = with_pem ts.verify_trust trust_code (operand args)

  remove_trust :
      (args : List String) → Balanced live (VerifyCommand.handle_trust_remove c sg ts p args)
  unfolding VerifyCommand.handle_trust_remove
  remove_trust args = with_pem ts.remove_trust exit_code (operand args)

  is_trusted :
      (args : List String) → Balanced live (VerifyCommand.handle_trust_is_sha256 c sg ts p args)
  unfolding VerifyCommand.handle_trust_is_sha256
  is_trusted args = with_operand (operand args)

  run_balanced : (args : List String) → Balanced live (run c sg ts p args)
  unfolding run VerifyCommand.dispatch
  run_balanced [] = Ledger-pure 2 (λ j. refl)
  run_balanced (program ∷ []) = Ledger-pure 2 (λ j. refl)
  run_balanced (program ∷ operation ∷ rest) = if_balanced _ create (
      if_balanced _ open_key (
        if_balanced _ sign_key (
          if_balanced _ delete_key (
            if_balanced _ (install_trust _) (
              if_balanced _ (verify_trust _) (
                if_balanced _ (remove_trust _)
                  (if_balanced _ (is_trusted _) (Ledger-pure 2 (λ j. refl)))))))))

  -- Where an open of the key provider opens one handle or fails and opens none, a close releases
  -- exactly its handle, and signing and deleting open and close none:
  -- the verify command ends with exactly the handles open that were open before, whatever its
  -- arguments are and whether its operation succeeds or fails.
  pub verify_command_balance :
      (args : List String) (w : World H) (j : ℕ)
      → live.count (run c sg ts p args w).1.keys j ≡ live.count w.keys j
  verify_command_balance args w j = settled _ (balanced (run_balanced args) w j)
    where
      settled : {n m : ℕ} (r : Outcome ℕ) → n ≡ m + owed (λ _. nothing) nothing r j → n ≡ m
      settled r e = omega (arith, e, owed-nothing r j)
