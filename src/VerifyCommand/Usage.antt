-- ===== src/VerifyCommand/Usage.antt =====
-- The exit codes of the verify command.
pub mod Misuse
use local_tls.Base.{
  ℕ, ◌≤◌, String, Bool, true, false, Option, none, some, List, [], ◌∷◌, ◌≡◌, refl, arith,
  if◌then◌else◌, not, ◌||◌, ◌↔◌, str_eq, str_append, starts_with,
}
use local_tls.Errors.{Outcome, ok, err, is_ok}
use local_tls.Host.{Host, Signer}
use local_tls.World.{World, M, pure, ◌>>=◌}
use local_tls.Runes.{codes}
use local_tls.Fingerprint.{parse_sha256_fingerprint}
use local_tls.Identity.{env_prefix, test_key_namespace}
use local_tls.VerifyCommand.Fingerprints.{read_operand_iff}
use local_tls.KeyStore.{Windowscng}
use local_tls.TestKeys.{SignerApi, test_create_key, test_open_key, test_delete_key}
use local_tls.TrustStore.{TrustStore, TrustState, trust_healthy}
use local_tls.VerifyCommand
use local_tls.VerifyCommand.{KeyName, named, exits, Process, exit_code, run}
pub use Misuse.{misused, Ended}
use Misuse.{missing, malformed, foreign}

-- Code 0 or 1.
abbrev pub Answered : {H : Host} → Outcome ℕ × World H → Type 0
Answered (ok code, v) = code ≤ 1
Answered (err e, v) = ⊥

Ended-of : {H : Host} (w : World H) (r : Outcome ℕ × World H) → Answered r → Ended false w r
Ended-of w (ok code, v) h =
    (omega arith, (λ e. absurd (omega arith), λ e. cc), λ e. absurd (omega arith))
Ended-of w (err e, v) h = elim h [ ]

-- Code 2 in the state given is a usage error.
refused_here : {H : Host} (w : World H) → Ended true w (ok 2, w)
refused_here w = (omega arith, (λ e. refl, λ e. refl), λ e. refl)

record AlwaysEnds {H : Host} (usage_error : Bool) (m : M H ℕ) : Type 0 where
  at : (w : World H) → Ended usage_error w (m w)

end : {H : Host} {b : Bool} {m : M H ℕ} → ((w : World H) → Ended b w (m w)) → AlwaysEnds b m
end h = record { at = h }

-- One more operation of a group with the same usage errors.
either_ends :
    {H : Host} {m n : M H ℕ} (b c x y : Bool)
    → AlwaysEnds x m
    → AlwaysEnds (if c then x else y) n
    → AlwaysEnds (if b || c then x else y) (if b then m else n)
either_ends true c x y h k = h
either_ends false c x y h k = k

refused : {H : Host} → AlwaysEnds {H = H} true (pure 2)
unfolding ◌>>=◌
refused = end refused_here

exit_code_le : {A : Type 0} (r : Outcome A) → exit_code r ≤ 1
exit_code_le (ok a) = omega arith
exit_code_le (err e) = omega arith

module _ {H : Host} (c : Windowscng H) (sg : SignerApi H) (ts : TrustStore H) (p : Process H) where
  abbrev foreign_name : Bool
  foreign_name = foreign (p.getenv (str_append env_prefix "_VERIFY_KEY_NAME"))

  created : (r : Outcome Signer) (w : World H) → Answered (VerifyCommand.created c sg ts p r w)
  unfolding VerifyCommand.created ◌>>=◌
  created (ok s) w = omega arith
  created (err e) w = omega arith

  opened : (r : Outcome Signer) (w : World H) → Answered (VerifyCommand.opened c sg ts p r w)
  unfolding VerifyCommand.opened ◌>>=◌
  opened (ok s) w = omega arith
  opened (err e) w = ground arith

  signed : (r : Outcome Signer) (w : World H) → Answered (VerifyCommand.signed c sg ts p r w)
  unfolding VerifyCommand.signed ◌>>=◌
  signed (ok s) w = exit_code_le _
  signed (err e) w = omega arith

  module _ (handle : String → M H ℕ)
      (h : (name : String) (w : World H) → Answered (handle name w)) where
    abbrev Handled : World H → KeyName → World H → Type 0
    Handled w k v = Ended false w (VerifyCommand.with_key_name c sg ts p handle k v)

    from_reads :
        (w v : World H) (reads : List (Outcome (List ℕ)))
        → Handled w (VerifyCommand.generated reads) v
    unfolding VerifyCommand.generated VerifyCommand.with_key_name ◌>>=◌
    from_reads w v [] = Ended-of w (ok 1, v) (omega arith)
    from_reads w v (err e ∷ reads) = Ended-of w (ok 1, v) (omega arith)
    from_reads w v (ok bytes ∷ reads) = Ended-of w _ (h _ v)

    by_name :
        (unset inside : Bool) (name : String) (w : World H)
        → Ended (not (unset || inside)) w (
            ((if unset
                  then VerifyCommand.generated_name c sg ts p
                  else pure (if inside then named name else exits 2))
                >>= VerifyCommand.with_key_name c sg ts p handle)
              w)
    unfolding VerifyCommand.generated_name VerifyCommand.with_key_name ◌>>=◌
    by_name true inside name w = from_reads w _ w.random
    by_name false true name w = Ended-of w _ (h name w)
    by_name false false name w = refused_here w

    -- A key operation ends with code 2 exactly where the environment names a foreign key.
    key-Ended :
        (w : World H)
        → Ended foreign_name w
            ((VerifyCommand.key_name c sg ts p >>= VerifyCommand.with_key_name c sg ts p handle) w)
    unfolding VerifyCommand.key_name
    key-Ended w = by_name _ _ _ w

  -- A PEM operation ends with code 2 exactly without its argument.
  pem-Ended :
      (act : H.Bytes → M H ℕ)
      → ((der : H.Bytes) (w : World H) → Answered (act der w))
      → (program operation : String) (rest : List String) (w : World H)
      → Ended (missing rest) w (
          VerifyCommand.with_pem c sg ts p act
            (VerifyCommand.operand (program ∷ operation ∷ rest))
            w)
  unfolding VerifyCommand.with_pem ◌>>=◌
  pem-Ended act h program operation [] w = refused_here w
  pem-Ended act h program operation (a ∷ rest) w = read _ _
    where
      read :
          (r : Outcome H.Bytes) (v : World H)
          → Ended false w (VerifyCommand.with_der c sg ts p act r v)
      read (ok der) v = Ended-of w _ (h der v)
      read (err e) v = Ended-of w (ok 1, v) (omega arith)

  trust_code_le : (r : Outcome TrustState) → VerifyCommand.trust_code r ≤ 1
  trust_code_le (ok trust_healthy) = omega arith
  trust_code_le (ok _) = omega arith
  trust_code_le (err e) = omega arith

  presence_code_le : (r : Outcome Bool) → VerifyCommand.presence_code r ≤ 1
  presence_code_le (ok true) = omega arith
  presence_code_le (ok false) = omega arith
  presence_code_le (err e) = omega arith

  create-Ended : (w : World H) → Ended foreign_name w (VerifyCommand.handle_create c sg ts p w)
  unfolding VerifyCommand.handle_create ◌>>=◌
  create-Ended w = key-Ended _ (λ name v. created (test_create_key c name v.keys).0 _) w

  open-Ended : (w : World H) → Ended foreign_name w (VerifyCommand.handle_open c sg ts p w)
  unfolding VerifyCommand.handle_open ◌>>=◌
  open-Ended w = key-Ended _ (λ name v. opened (test_open_key c name v.keys).0 _) w

  sign-Ended : (w : World H) → Ended foreign_name w (VerifyCommand.handle_sign c sg ts p w)
  unfolding VerifyCommand.handle_sign ◌>>=◌
  sign-Ended w = key-Ended _ (λ name v. signed (test_open_key c name v.keys).0 _) w

  delete-Ended : (w : World H) → Ended foreign_name w (VerifyCommand.handle_delete c sg ts p w)
  unfolding VerifyCommand.handle_delete ◌>>=◌
  delete-Ended w = key-Ended _ (λ name v. exit_code_le (test_delete_key c name v.keys).0) w

  install-Ended :
      (program operation : String) (rest : List String) (w : World H)
      → Ended
          (missing rest)
          w
          (VerifyCommand.handle_trust_install c sg ts p (program ∷ operation ∷ rest) w)
  unfolding VerifyCommand.handle_trust_install ◌>>=◌
  install-Ended = pem-Ended _ (λ der v. exit_code_le (ts.install_trust der v.root).0)

  verify-Ended :
      (program operation : String) (rest : List String) (w : World H)
      → Ended
          (missing rest)
          w
          (VerifyCommand.handle_trust_verify c sg ts p (program ∷ operation ∷ rest) w)
  unfolding VerifyCommand.handle_trust_verify ◌>>=◌
  verify-Ended = pem-Ended _ (λ der v. trust_code_le (ts.verify_trust der v.root).0)

  remove-Ended :
      (program operation : String) (rest : List String) (w : World H)
      → Ended
          (missing rest)
          w
          (VerifyCommand.handle_trust_remove c sg ts p (program ∷ operation ∷ rest) w)
  unfolding VerifyCommand.handle_trust_remove ◌>>=◌
  remove-Ended = pem-Ended _ (λ der v. exit_code_le (ts.remove_trust der v.root).0)

  -- Where the two readings of the fingerprint agree, the code is 2 exactly when it is refused.
  fingerprint-Ended :
      (o : Option (List ℕ)) (r : Outcome (List ℕ)) (w : World H)
      → ((fp : List ℕ) → (o ≡ some fp) ↔ (r ≡ ok fp))
      → Ended (not (is_ok r)) w (VerifyCommand.with_fingerprint c sg ts p o w)
  unfolding VerifyCommand.with_fingerprint ◌>>=◌
  fingerprint-Ended none (ok fp) w h = let e = (h fp).1 refl in cc
  fingerprint-Ended none (err e) w h = refused_here w
  fingerprint-Ended (some fp) (ok gp) w h =
      let r = ts.is_trusted_sha256 fp w.root in
      Ended-of w (ok (VerifyCommand.presence_code r.0), record w { root = r.1 })
        (presence_code_le r.0)
  fingerprint-Ended (some fp) (err x) w h = let e = (h fp).0 refl in cc

  trust_is-Ended :
      (program operation : String) (rest : List String) (w : World H)
      → Ended
          (malformed rest)
          w
          (VerifyCommand.handle_trust_is_sha256 c sg ts p (program ∷ operation ∷ rest) w)
  unfolding VerifyCommand.handle_trust_is_sha256 VerifyCommand.trust_is_operand ◌>>=◌
  trust_is-Ended program operation [] w = refused_here w
  trust_is-Ended program operation (a ∷ rest) w =
      fingerprint-Ended (VerifyCommand.read_operand (codes a)) _ w (read_operand_iff (codes a))

  -- The command always ends with exit code 0, 1 or 2. It ends with 2 exactly in these cases: there
  -- is no operation or an unknown one; a key operation finds a name in the environment that is set
  -- and outside the test namespace; `-trust-install`, `-trust-verify` or `-trust-remove` has no
  -- argument; `-trust-is` has no argument, or one that `ParseSHA256Fingerprint` refuses. The
  -- machine is then exactly as before.
  pub run-Ended :
      (args : List String) (w : World H) → Ended (misused p args) w (run c sg ts p args w)
  unfolding run VerifyCommand.dispatch
  run-Ended [] w = refused.at w
  run-Ended (program ∷ []) w = refused.at w
  run-Ended (program ∷ operation ∷ rest) w =
      (either_ends _ _ _ _ (end create-Ended) (
          either_ends _ _ _ _ (end open-Ended) (
            either_ends _ _ _ _ (end sign-Ended) (
              either_ends _ false _ _ (end delete-Ended) (
                either_ends _ _ _ _ (end (install-Ended program operation rest)) (
                  either_ends _ _ _ _ (end (verify-Ended program operation rest)) (
                    either_ends _ false _ _ (end (remove-Ended program operation rest)) (
                      either_ends _ false _ _ (end (trust_is-Ended program operation rest))
                        refused)))))))).at
        w
