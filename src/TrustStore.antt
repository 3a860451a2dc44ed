-- ===== src/TrustStore.antt =====
-- truststore.go: the trust states and the interface of the trust store.
pub mod Contract
use local_tls.Base.{ℕ, Bool, List}
use local_tls.Errors.{Outcome}
use local_tls.Host.{Host}

-- `unknown` stands for the other values of the integer type.
pub data TrustState : Type 0 where
  trust_healthy trust_absent trust_conflict trust_error : TrustState
  unknown : ℕ → TrustState

abbrev pub OnRoot : Host → Type 0 → Type 0
OnRoot H A = H.RootState → Outcome A × H.RootState

-- `TrustProvisioner` and `TrustVerifier` together; `VerifyTrust` returns a state or an error.
pub record TrustStore (H : Host) : Type 0 where
  pub install_trust : H.Bytes → OnRoot H (Unit {0})
  pub remove_trust : H.Bytes → OnRoot H (Unit {0})
  pub remove_trust_by_sha256 : List ℕ → OnRoot H (Unit {0})
  pub verify_trust : H.Bytes → OnRoot H TrustState
  pub is_trusted_sha256 : List ℕ → OnRoot H Bool
  pub ensure_trusted : H.Bytes → OnRoot H (Unit {0})
