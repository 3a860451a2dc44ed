-- ===== src/VerifyCommand.antt =====
-- cmd/verify/main.go: the command that tries the key and trust operations by hand. A handler returns
-- the exit code; what it prints is left out.
pub mod Usage
pub mod Balance
pub mod Isolated
pub mod Fingerprints
use local_tls.Base.{
  ℕ, zero, suc, ◌/◌, ◌%◌, String, str_eq, str_append, starts_with, Bool, true, false, ◌||◌, ◌==◌,
  Option, none, some, List, [], ◌∷◌, map, if◌then◌else◌,
}
use local_tls.Errors.{Error, Outcome, ok, err, text, from_option}
use local_tls.Host.{Host, FilePath, Signer}
use local_tls.Identity.{env_prefix, test_key_namespace}
use local_tls.World.{M, pure, lift, context, attempt, on_keys, on_root, defers, ignore, ◌>>=◌, ◌>>◌}
use local_tls.Os.{read_file}
use local_tls.Runes.{Runes, codes, byte_length, trim_space, to_lower, contains}
use local_tls.Fingerprint.{copied, hex_decode}
use local_tls.Certificate.{parse_certificate}
use local_tls.KeyStore.{Windowscng, close_signer}
use local_tls.TestKeys.{
  SignerApi, test_create_key, test_open_key, test_delete_key, test_sign_and_verify,
}
use local_tls.TrustStore.{TrustStore, TrustState, trust_healthy}

-- The process: `os.Getenv`, the file that an argument names, `pem.Decode` with the block's type and
-- bytes, and `err.Error()`.
pub record Process (H : Host) : Type 0 where
  pub getenv : String → String
  pub path_of : String → FilePath
  pub pem_decode : H.Bytes → Option (String × H.Bytes)
  pub message : Error → Runes

-- What `keyName` does: it returns a name, or ends the process with an exit code.
pub data KeyName : Type 0 where
  named : String → KeyName
  exits : ℕ → KeyName

-- The hexadecimal digit as a text; `hex.EncodeToString`.
digit_of : ℕ → List String → String
digit_of n [] = ""
digit_of zero (s ∷ r) = s
digit_of (suc n) (s ∷ r) = digit_of n r

abbrev pub digits : List String
digits =
    "0" ∷ "1" ∷ "2" ∷ "3" ∷ "4" ∷ "5" ∷ "6" ∷ "7" ∷ "8" ∷ "9" ∷ "a" ∷ "b" ∷ "c" ∷ "d" ∷ "e" ∷ "f"
    ∷ []

hex_text : List ℕ → String
unfolding digit_of
hex_text [] = ""
hex_text (b ∷ bs) =
    str_append (digit_of (b / 16) digits) (str_append (digit_of (b % 16) digits) (hex_text bs))

-- The random suffix of four bytes, or `os.Exit(1)`.
generated : List (Outcome (List ℕ)) → KeyName
unfolding hex_text
generated [] = exits 1
generated (err e ∷ reads) = exits 1
generated (ok bytes ∷ reads) =
    named (str_append test_key_namespace (str_append "LocalHTTPS.verify." (hex_text bytes)))

abbrev pub later_reads : List (Outcome (List ℕ)) → List (Outcome (List ℕ))
later_reads [] = []
later_reads (r ∷ reads) = reads

-- `unicode.ToLower` as far as the texts searched for, which are ASCII, can tell: besides A to Z, only
-- U+0130 and the Kelvin sign U+212A become letters of ASCII.
abbrev pub rune_lower : ℕ → ℕ
rune_lower c = if c == 0x130 then 0x69 else if c == 0x212A then 0x6B else to_lower c

-- `isAccessDenied`.
any_contained : Runes → List String → Bool
any_contained lower [] = false
any_contained lower (s ∷ ss) = contains lower (codes s) || any_contained lower ss

unfoldable pub is_access_denied : Runes → Bool
unfolding any_contained
is_access_denied msg =
    any_contained (map rune_lower msg)
      ("access is denied" ∷ "access denied" ∷ "0x80090010" ∷ "0x801f0005" ∷ [])

-- `if err != nil { …; return 1 }; …; return 0`.
abbrev pub exit_code : {A : Type 0} → Outcome A → ℕ
exit_code (ok a) = 0
exit_code (err e) = 1

abbrev pub trust_code : Outcome TrustState → ℕ
trust_code (ok trust_healthy) = 0
trust_code _ = 1

abbrev pub presence_code : Outcome Bool → ℕ
presence_code (ok true) = 0
presence_code _ = 1

-- `os.Args[2]`, if it is there.
abbrev pub operand : List String → Option String
operand (program ∷ operation ∷ argument ∷ rest) = some argument
operand _ = none

-- The checks of `handleTrustIsSHA256` on the trimmed argument.
unfoldable pub read_operand : Runes → Option (List ℕ)
read_operand t =
    let s = trim_space t in
    if byte_length s == 64
    then elim (hex_decode s) [ ok bytes ↦ some (copied 32 bytes) | err e ↦ none ]
    else none

module _ {H : Host} (c : Windowscng H) (sg : SignerApi H) (ts : TrustStore H) (p : Process H) where
  generated_name : M H KeyName
  unfolding generated
  generated_name w = (ok (generated w.random), record w { random = later_reads w.random })

  unfoldable pub key_name : M H KeyName
  unfolding generated_name
  key_name =
      let name = p.getenv (str_append env_prefix "_VERIFY_KEY_NAME") in
      if str_eq name ""
      then generated_name
      else pure (if starts_with name test_key_namespace then named name else exits 2)

  -- What the handlers of the key operations do with the name, or with the end of the process.
  with_key_name : (String → M H ℕ) → KeyName → M H ℕ
  with_key_name handle (named name) = handle name
  with_key_name handle (exits code) = pure code

  -- `closeSigner` of the command drops the error.
  close_dropped : Signer → M H (Unit {0})
  close_dropped s = ignore (close_signer s)

  created : Outcome Signer → M H ℕ
  unfolding close_dropped
  created (ok s) = defers (close_dropped s) (pure 0)
  created (err e) = pure 1

  unfoldable pub handle_create : M H ℕ
  unfolding with_key_name created
  handle_create = do
    k ← key_name
    with_key_name (λ name. do r ← attempt (on_keys {H = H} (test_create_key c name)); created r) k

  opened : Outcome Signer → M H ℕ
  unfolding close_dropped
  opened (ok s) = defers (close_dropped s) (pure 1)
  opened (err e) = pure (if is_access_denied (p.message e) then 0 else 1)

  unfoldable pub handle_open : M H ℕ
  unfolding with_key_name opened
  handle_open = do
    k ← key_name
    with_key_name (λ name. do r ← attempt (on_keys {H = H} (test_open_key c name)); opened r) k

  signed : Outcome Signer → M H ℕ
  unfolding close_dropped
  signed (ok s) =
      defers (close_dropped s) (do r ← attempt (test_sign_and_verify sg s); pure (exit_code r))
  signed (err e) = pure 1

  unfoldable pub handle_sign : M H ℕ
  unfolding with_key_name signed
  handle_sign = do
    k ← key_name
    with_key_name (λ name. do r ← attempt (on_keys {H = H} (test_open_key c name)); signed r) k

  unfoldable pub handle_delete : M H ℕ
  unfolding with_key_name
  handle_delete = do
    k ← key_name
    with_key_name
        (λ name. do r ← attempt (on_keys {H = H} (test_delete_key c name)); pure (exit_code r)) k

  -- The checks on a PEM block.
  certificate_block : Option (String × H.Bytes) → Outcome H.Bytes
  certificate_block none = err (text "no PEM block found")
  certificate_block (some (type, bytes)) =
      if str_eq type "CERTIFICATE" then ok bytes else err (text "unexpected PEM block type")

  unfoldable pub read_pem_file : FilePath → M H H.Bytes
  unfolding certificate_block
  read_pem_file path = do
    contents ← context "read file" (read_file path)
    block ← lift (certificate_block (p.pem_decode contents))
    cert ← context "parse certificate" (lift (parse_certificate {H = H} block))
    pure cert.raw

  -- The shape of the handlers of a PEM file: exit code 2 without the argument, 1 on an error of
  -- the file, then the operation's.
  with_der : (H.Bytes → M H ℕ) → Outcome H.Bytes → M H ℕ
  with_der act (ok der) = act der
  with_der act (err e) = pure 1

  with_pem : (H.Bytes → M H ℕ) → Option String → M H ℕ
  unfolding with_der
  with_pem act none = pure 2
  with_pem act (some argument) = do r ← attempt (read_pem_file (p.path_of argument)); with_der act r

  unfoldable pub handle_trust_install : List String → M H ℕ
  unfolding with_pem
  handle_trust_install args =
      with_pem (λ der. do r ← attempt (on_root {H = H} (ts.install_trust der)); pure (exit_code r))
        (operand args)

  unfoldable pub handle_trust_verify : List String → M H ℕ
  unfolding with_pem
  handle_trust_verify args =
      with_pem (λ der. do r ← attempt (on_root {H = H} (ts.verify_trust der)); pure (trust_code r))
        (operand args)

  unfoldable pub handle_trust_remove : List String → M H ℕ
  unfolding with_pem
  handle_trust_remove args =
      with_pem (λ der. do r ← attempt (on_root {H = H} (ts.remove_trust der)); pure (exit_code r))
        (operand args)

  with_fingerprint : Option (List ℕ) → M H ℕ
  with_fingerprint none = pure 2
  with_fingerprint (some fp) = do
    r ← attempt (on_root {H = H} (ts.is_trusted_sha256 fp))
    pure (presence_code r)

  trust_is_operand : Option String → M H ℕ
  unfolding with_fingerprint
  trust_is_operand none = pure 2
  trust_is_operand (some argument) = with_fingerprint (read_operand (codes argument))

  unfoldable pub handle_trust_is_sha256 : List String → M H ℕ
  unfolding trust_is_operand
  handle_trust_is_sha256 args = trust_is_operand (operand args)

  -- The `switch` of `run`.
  dispatch : String → List String → M H ℕ
  dispatch operation args =
      if str_eq operation "-create"
      then handle_create
      else if str_eq operation "-open"
      then handle_open
      else if str_eq operation "-sign"
      then handle_sign
      else if str_eq operation "-delete"
      then handle_delete
      else if str_eq operation "-trust-install"
      then handle_trust_install args
      else if str_eq operation "-trust-verify"
      then handle_trust_verify args
      else if str_eq operation "-trust-remove"
      then handle_trust_remove args
      else if str_eq operation "-trust-is"
      then handle_trust_is_sha256 args
      else pure 2

  -- `run` over `os.Args`.
  unfoldable pub run : List String → M H ℕ
  unfolding dispatch
  run [] = pure 2
  run (program ∷ []) = pure 2
  run (program ∷ operation ∷ rest) = dispatch operation (program ∷ operation ∷ rest)
