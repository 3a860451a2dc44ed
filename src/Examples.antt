-- ===== src/Examples.antt =====
-- The programs under examples: what they call and the exit code. What they print is left out.
pub mod Balance
use local_tls.Base.{ℕ, some, if◌then◌else◌}
use local_tls.Errors.{Outcome, ok, err, is_ok}
use local_tls.Host.{Host}
use local_tls.World.{M, pure, attempt, defers, ignore, ◌>>=◌}
use local_tls.KeyStore.{Windowscng}
use local_tls.TrustStore.{TrustStore}
use local_tls.Material.{Material, TlsCertificate, close_material}
use local_tls.Machine.{load_serving_material, provision_machine}
use local_tls.Runes.{codes}
use local_tls.Fingerprint.{parse_sha256_fingerprint}

-- `log.Fatalf` ends the process with exit code 1, and runs no deferred call.
abbrev pub fatal_code : {A : Type 0} → Outcome A → ℕ
fatal_code (ok a) = 0
fatal_code (err e) = 1

module _ {H : Host} (c : Windowscng H) (ts : TrustStore H) where
  module _ (listen : TlsCertificate H → Outcome (Unit {0})) where
    -- `main` of examples/serving behind `LoadServingMaterial`; `listen` is `tls.Listen`.
    serve_with : Outcome (Material H) → M H ℕ
    serve_with (err e) = pure 1
    serve_with (ok m) =
        if is_ok (listen m.certificate)
        then defers (ignore (close_material (some m))) (pure 0)
        else pure 1

    unfoldable pub serving_main : M H ℕ
    unfolding serve_with
    serving_main = do r ← attempt (load_serving_material c ts); serve_with r

  -- `main` of examples/provision. The material stays open until the process ends.
  unfoldable pub provision_main : M H ℕ
  provision_main = do r ← attempt (provision_machine c ts); pure (fatal_code r)

-- `main` of examples/fingerprint.
unfoldable pub fingerprint_main : ℕ
fingerprint_main = fatal_code (
    parse_sha256_fingerprint
      (codes "  0123456789abcdef0123456789abcdef0123456789abcdef0123456789abcdef  "))
