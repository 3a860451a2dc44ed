-- ===== src/Certificate/Renewal.antt =====
-- Lifetimes: the cap on a server certificate, the CA's own lifetime and the renewal window.
use local_tls.Base.{◌+◌, ◌-◌, ◌*◌, ◌/◌, true, ◌≡◌, ◌↔◌, ◌⊎◌, arith}
use local_tls.Base.Int.{pos, negsuc, ◌+ℤ◌, ◌-ℤ◌, ◌≤ℤ◌, ◌<ℤ◌}
use local_tls.Errors.{ok}
use local_tls.Host.{Time, Info}
use local_tls.Certificate.{validate_ca_lifetime}
use local_tls.Certificate.Times.{
  second, add, server_validity, renewal_threshold, capped_server_not_after, needs_renewal,
}

-- The expiry of a server certificate is the earlier one of 90 days from now and the CA's expiry.
pub capped_server_not_after_least :
    (now ca_not_after : Time)
    → (capped_server_not_after now ca_not_after ≤ℤ ca_not_after)
      × (capped_server_not_after now ca_not_after ≤ℤ add now server_validity)
      × ((capped_server_not_after now ca_not_after ≡ ca_not_after)
          ⊎ (capped_server_not_after now ca_not_after ≡ add now server_validity))
unfolding capped_server_not_after
capped_server_not_after_least now ca = ground arith

-- The CA may issue exactly from its first instant on and before its last.
pub validate_ca_lifetime_iff :
    (ca : Info) (now : Time)
    → (validate_ca_lifetime ca now ≡ ok tt) ↔ ((ca.not_before ≤ℤ now) × (now <ℤ ca.not_after))
unfolding validate_ca_lifetime
validate_ca_lifetime_iff ca now = ground arith

-- Renewal is due exactly when at most 30 days are left, whatever the int64 limit of the difference
-- of two times.
pub needs_renewal_iff :
    (now not_after : Time)
    → (needs_renewal now not_after ≡ true) ↔ (not_after ≤ℤ add now renewal_threshold)
unfolding needs_renewal ◌+ℤ◌ ◌-ℤ◌
needs_renewal_iff now not_after = ground arith

-- A time as a certificate holds it: whole seconds, rounded down.
abbrev pub to_second : Time → Time
to_second (pos n) = pos (n / second * second)
to_second (negsuc n) = negsuc (n / second * second + (second - 1))

-- A certificate that is issued now is due for renewal again at once exactly when the CA itself has
-- at most 30 days left, where the CA's expiry is in whole seconds.
pub reissue_due_iff :
    (now ca_not_after : Time)
    → to_second ca_not_after ≡ ca_not_after
    → (needs_renewal now (to_second (capped_server_not_after now ca_not_after)) ≡ true)
      ↔ (ca_not_after ≤ℤ add now renewal_threshold)
unfolding capped_server_not_after needs_renewal ◌+ℤ◌ ◌-ℤ◌
reissue_due_iff now ca h = ground arith
