-- ===== src/Certificate/Times.antt =====
-- The times of certificate.go and the parts of package time that they use. Instants are integers
-- without bound: the int64 seconds of `time.Time` overflow only after 292 billion years.
use local_tls.Base.{ℕ, ◌-◌, ◌*◌, ◌^◌, Bool, false, ◌||◌, ◌==◌, if◌then◌else◌}
use local_tls.Base.Int.{ℤ, pos, negsuc, ◌+ℤ◌, ◌-ℤ◌, leb_ℤ, ltb_ℤ}
use local_tls.Host.{Time}

abbrev pub second : ℕ
second = 1_000_000_000

abbrev pub hour : ℕ
hour = 3600 * second

abbrev pub ca_validity : ℤ
ca_validity = pos (5 * 365 * 24 * hour)

abbrev pub server_validity : ℤ
server_validity = pos (90 * 24 * hour)

abbrev pub renewal_threshold : ℤ
renewal_threshold = pos (30 * 24 * hour)

-- `-5 * time.Minute`.
abbrev pub backdating : ℤ
backdating = negsuc (300 * second - 1)

-- `Time.IsZero`, `Before`, `After`, `Add`.
abbrev pub is_zero : Time → Bool
is_zero (pos n) = n == 0
is_zero (negsuc n) = false

abbrev pub before : Time → Time → Bool
before t u = ltb_ℤ t u

abbrev pub add : Time → ℤ → Time
add t d = t +ℤ d

abbrev pub max_duration : ℤ
max_duration = pos (2 ^ 63 - 1)

abbrev pub min_duration : ℤ
min_duration = negsuc (2 ^ 63 - 1)

-- `Time.Sub`: the difference, held within an int64.
abbrev pub sub : Time → Time → ℤ
sub t u =
    let d = t -ℤ u in
    if ltb_ℤ max_duration d then max_duration else if ltb_ℤ d min_duration then min_duration else d

unfoldable pub capped_server_not_after : Time → Time → Time
capped_server_not_after now ca_not_after =
    let not_after = add now server_validity in
    if before ca_not_after not_after then ca_not_after else not_after

-- The renewal test of `reload`, `reloadWithKeyStore` and `ReloadMachine`.
unfoldable pub needs_renewal : Time → Time → Bool
needs_renewal now not_after = before not_after now || leb_ℤ (sub not_after now) renewal_threshold
