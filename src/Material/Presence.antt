-- ===== src/Material/Presence.antt =====
-- Which combinations of certificates and keys `provisionStateInconsistent` lets through.
use local_tls.Base.{Bool, true, false, ◌≡◌, ◌↔◌, ◌⊎◌, arith}
use local_tls.Material.{provision_state_inconsistent}

-- The check passes exactly when nothing is there (a first install) or when both certificates and
-- both keys are there; each of the fourteen partial states is refused.
pub consistent_iff :
    (ca_der server_der ca_key server_key : Bool)
    → (provision_state_inconsistent ca_der server_der ca_key server_key ≡ false) ↔ (
        ((ca_der ≡ false) × (server_der ≡ false) × (ca_key ≡ false) × (server_key ≡ false))
        ⊎ ((ca_der ≡ true) × (server_der ≡ true) × (ca_key ≡ true) × (server_key ≡ true)))
unfolding provision_state_inconsistent
consistent_iff a b c d = ground arith
