-- ===== src/Tests/CertificateWitnesses.antt =====
-- The theorems about certificates and the presence check, at concrete inputs.
use local_tls.Base.{ℕ, ◌<◌, inr, true, false, ◌≡◌, ◌↔◌, ◌⊎◌, inl, refl, [], ◌∷◌, arith}
use local_tls.Base.Int.{pos, ◌≤ℤ◌, ◌<ℤ◌}
use local_tls.Errors.{ok}
use local_tls.Certificate.{validate_ca_lifetime, draw_serial}
use local_tls.Certificate.Times.{renewal_threshold, add, capped_server_not_after, needs_renewal}
use local_tls.Certificate.Renewal.{
  validate_ca_lifetime_iff, needs_renewal_iff, reissue_due_iff, to_second,
}
use local_tls.Certificate.San.{validate_san}
use local_tls.Certificate.San.Loopback.{validate_san_iff, BothLoopbacks}
use local_tls.Certificate.Serial.{draw_serial_total}
use local_tls.Material.{provision_state_inconsistent}
use local_tls.Material.Presence.{consistent_iff}
use local_tls.Tests.Witnesses.{nobody}

-- The presence check, and the certificates.
consistent_iff_example : (provision_state_inconsistent true true true false ≡ false) ↔ (
    ((true ≡ false) × (true ≡ false) × (true ≡ false) × (false ≡ false))
    ⊎ ((true ≡ true) × (true ≡ true) × (true ≡ true) × (false ≡ true)))
consistent_iff_example = consistent_iff true true true false

validate_san_iff_example :
    (validate_san nobody.info ≡ ok tt)
    ↔ ((nobody.dns_names ≡ "localhost" ∷ []) × BothLoopbacks nobody.ip_addresses)
validate_san_iff_example = validate_san_iff nobody.info

validate_ca_lifetime_iff_example :
    (validate_ca_lifetime nobody.info (pos 100) ≡ ok tt)
    ↔ ((nobody.not_before ≤ℤ pos 100) × (pos 100 <ℤ nobody.not_after))
validate_ca_lifetime_iff_example = validate_ca_lifetime_iff nobody.info (pos 100)

needs_renewal_iff_example :
    (needs_renewal (pos 7) (pos 2_592_000_000_000_007) ≡ true)
    ↔ (pos 2_592_000_000_000_007 ≤ℤ add (pos 7) renewal_threshold)
needs_renewal_iff_example = needs_renewal_iff (pos 7) (pos 2_592_000_000_000_007)

reissue_due_iff_example :
    (needs_renewal (pos 9) (to_second (capped_server_not_after (pos 9) (pos 3_000_000_000))) ≡ true)
    ↔ (pos 3_000_000_000 ≤ℤ add (pos 9) renewal_threshold)
reissue_due_iff_example = reissue_due_iff (pos 9) (pos 3_000_000_000) refl

draw_serial_total_example :
    (n : ℕ) × ((draw_serial (ok (0 ∷ []) ∷ ok (1 ∷ 4 ∷ []) ∷ [])).0 ≡ ok n) × (0 < n)
draw_serial_total_example =
    draw_serial_total (ok (0 ∷ []) ∷ ok (1 ∷ 4 ∷ []) ∷ []) (inr (inl λ e. ground arith))
