-- ===== src/VerifyCommand/Isolated.antt =====
-- The verify command cannot touch a key outside the test namespace.
use local_tls.Base.{
  String, Bool, true, false, Option, none, some, List, [], ◌∷◌, ◌≡◌, refl, ℕ, if◌then◌else◌,
}
use local_tls.Errors.{Outcome, ok, err}
use local_tls.Host.{Host, FilePath, Signer}
use local_tls.World.{World, M, attempt, pure, on_keys, on_root, ◌>>=◌}
use local_tls.World.Keeps.{Keeps, Keeps-bind, Keeps-pure, keeps_rules}
use local_tls.Os.Frame.{os_frame}
use local_tls.KeyStore.{Windowscng}
use local_tls.TestKeys.{SignerApi, in_test_namespace, test_sign_and_verify}
use local_tls.TestKeys.Isolated.{NamesOnly}
use local_tls.TestKeys.Elsewhere.{seen, faults, root, close, create, open_key, delete_key}
use local_tls.TrustStore.{TrustStore}
use local_tls.VerifyCommand
use local_tls.VerifyCommand.{KeyName, named, exits, Process, exit_code, trust_code, operand, run}

if_keeps :
    {H : Host} {X : Type 0} {obs : World H → X} {m n : M H ℕ} (b : Bool)
    → Keeps obs m
    → Keeps obs n
    → Keeps obs (if b then m else n)
if_keeps true h k = h
if_keeps false h k = k

module _ {H : Host} {c : Windowscng H} (names : NamesOnly c) (n : String)
    (out : in_test_namespace n ≡ false) (sg : SignerApi H)
    (signs : (s : Signer) (hash : List ℕ) (k : H.KeyState)
      → names.stored (sg.sign s hash k).1 n ≡ names.stored k n)
    (ts : TrustStore H) (p : Process H) where
  close_dropped : (s : Signer) → Keeps (seen names n) (VerifyCommand.close_dropped c sg ts p s)
  unfolding VerifyCommand.close_dropped
  close_dropped s = search (keeps_rules, close)

  sign : (s : Signer) (hash : List ℕ) → Keeps (seen names n) (on_keys {H = H} (sg.sign s hash))
  unfolding ◌>>=◌
  sign s hash = record { at = λ w. signs s hash w.keys }

  sign_and_verify : (s : Signer) → Keeps (seen names n) (test_sign_and_verify sg s)
  unfolding test_sign_and_verify
  sign_and_verify s = search (keeps_rules, sign) depth 12

  created : (r : Outcome Signer) → Keeps (seen names n) (VerifyCommand.created c sg ts p r)
  unfolding VerifyCommand.created
  created (ok s) = search (keeps_rules, close_dropped)
  created (err e) = search keeps_rules

  opened : (r : Outcome Signer) → Keeps (seen names n) (VerifyCommand.opened c sg ts p r)
  unfolding VerifyCommand.opened
  opened (ok s) = search (keeps_rules, close_dropped)
  opened (err e) = search keeps_rules

  signed : (r : Outcome Signer) → Keeps (seen names n) (VerifyCommand.signed c sg ts p r)
  unfolding VerifyCommand.signed
  signed (ok s) = search (keeps_rules, close_dropped, sign_and_verify)
  signed (err e) = search keeps_rules

  generated_name : Keeps (seen names n) (VerifyCommand.generated_name c sg ts p)
  unfolding VerifyCommand.generated_name
  generated_name = record { at = λ w. refl }

  key_name : Keeps (seen names n) (VerifyCommand.key_name c sg ts p)
  unfolding VerifyCommand.key_name
  key_name = search (keeps_rules, generated_name)

  with_name :
      {handle : String → M H ℕ}
      → ((name : String) → Keeps (seen names n) (handle name))
      → Keeps
          (seen names n)
          (VerifyCommand.key_name c sg ts p >>= VerifyCommand.with_key_name c sg ts p handle)
  unfolding VerifyCommand.with_key_name
  with_name {handle} h = Keeps-bind _ _ key_name by_name
    where
      by_name :
          (k : KeyName) → Keeps (seen names n) (VerifyCommand.with_key_name c sg ts p handle k)
      by_name (named name) = h name
      by_name (exits code) = search keeps_rules

  read_pem : (d : FilePath) → Keeps (seen names n) (VerifyCommand.read_pem_file c sg ts p d)
  unfolding VerifyCommand.read_pem_file
  read_pem d = search (keeps_rules, os_frame, faults) depth 12

  with_pem :
      {A : Type 0} (call : H.Bytes → H.RootState → Outcome A × H.RootState) (code : Outcome A → ℕ)
      (argument : Option String)
      → Keeps (seen names n) (
          VerifyCommand.with_pem c sg ts p
            (λ der. do r ← attempt (on_root {H = H} (call der)); pure (code r))
            argument)
  unfolding VerifyCommand.with_pem VerifyCommand.with_der
  with_pem call code none = search keeps_rules
  with_pem call code (some a) = Keeps-bind _ _ (search (keeps_rules, read_pem)) by_der
    where
      by_der :
          (r : Outcome H.Bytes)
          → Keeps (seen names n) (
              VerifyCommand.with_der c sg ts p
                (λ der. do o ← attempt (on_root {H = H} (call der)); pure (code o))
                r)
      by_der (ok der) = search (keeps_rules, os_frame, root)
      by_der (err e) = search keeps_rules

  with_fingerprint :
      (o : Option (List ℕ)) → Keeps (seen names n) (VerifyCommand.with_fingerprint c sg ts p o)
  unfolding VerifyCommand.with_fingerprint
  with_fingerprint none = search keeps_rules
  with_fingerprint (some fp) = search (keeps_rules, os_frame, root)

  with_operand :
      (o : Option String) → Keeps (seen names n) (VerifyCommand.trust_is_operand c sg ts p o)
  unfolding VerifyCommand.trust_is_operand
  with_operand none = search keeps_rules
  with_operand (some a) = with_fingerprint _

  create_key : Keeps (seen names n) (VerifyCommand.handle_create c sg ts p)
  unfolding VerifyCommand.handle_create
  create_key = with_name λ name. search (keeps_rules, create names n out, created)

  open_it : Keeps (seen names n) (VerifyCommand.handle_open c sg ts p)
  unfolding VerifyCommand.handle_open
  open_it = with_name λ name. search (keeps_rules, open_key names n out, opened)

  sign_it : Keeps (seen names n) (VerifyCommand.handle_sign c sg ts p)
  unfolding VerifyCommand.handle_sign
  sign_it = with_name λ name. search (keeps_rules, open_key names n out, signed)

  delete_it : Keeps (seen names n) (VerifyCommand.handle_delete c sg ts p)
  unfolding VerifyCommand.handle_delete
  delete_it = with_name λ name. search (keeps_rules, delete_key names n out)

  install_trust :
      (args : List String)
      → Keeps (seen names n) (VerifyCommand.handle_trust_install c sg ts p args)
  unfolding VerifyCommand.handle_trust_install
  install_trust args = with_pem ts.install_trust exit_code (operand args)

  verify_trust :
      (args : List String) → Keeps (seen names n) (VerifyCommand.handle_trust_verify c sg ts p args)
  unfolding VerifyCommand.handle_trust_verify
  verify_trust args = with_pem ts.verify_trust trust_code (operand args)

  remove_trust :
      (args : List String) → Keeps (seen names n) (VerifyCommand.handle_trust_remove c sg ts p args)
  unfolding VerifyCommand.handle_trust_remove
  remove_trust args = with_pem ts.remove_trust exit_code (operand args)

  is_trusted :
      (args : List String)
      → Keeps (seen names n) (VerifyCommand.handle_trust_is_sha256 c sg ts p args)
  unfolding VerifyCommand.handle_trust_is_sha256
  is_trusted args = with_operand (operand args)

  run_keeps : (args : List String) → Keeps (seen names n) (run c sg ts p args)
  unfolding run VerifyCommand.dispatch
  run_keeps [] = search keeps_rules
  run_keeps (program ∷ []) = search keeps_rules
  run_keeps (program ∷ operation ∷ rest) = if_keeps _ create_key (
      if_keeps _ open_it (
        if_keeps _ sign_it (
          if_keeps _ delete_it (
            if_keeps _ (install_trust _) (
              if_keeps _ (verify_trust _)
                (if_keeps _ (remove_trust _) (if_keeps _ (is_trusted _) (Keeps-pure 2))))))))

  -- Where the key provider changes what is stored under the name of a call at most, a close and a
  -- signature change nothing of that, and `n` is a name outside the test namespace: the verify
  -- command leaves what is stored under `n` as it is, whatever its arguments and its environment
  -- are.
  pub verify_command_isolated :
      (args : List String) (w : World H)
      → names.stored (run c sg ts p args w).1.keys n ≡ names.stored w.keys n
  verify_command_isolated args w = (run_keeps args).at w
