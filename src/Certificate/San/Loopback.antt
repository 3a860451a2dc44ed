-- ===== src/Certificate/San/Loopback.antt =====
-- What `validateSAN` accepts.
use local_tls.Base.{
  String, str_eq_iff, bytes_eq_iff, length, ◌==◌, ◌&&◌, ◌++◌, false, true, ◌≡◌, ◌↔◌, ◌⊎◌, List, [],
  ◌∷◌, arith,
}
use local_tls.Errors.{ok}
use local_tls.Host.{Ip, Info}
use local_tls.Certificate.San.{
  ip_equal, loopback4, loopback6, v4_in_v6, dns_is_localhost, found_both, validate_san,
}

-- Exactly one address of each family.
abbrev pub BothLoopbacks : List Ip → Type 0
BothLoopbacks ips =
    (a : Ip) × (b : Ip) × (ips ≡ a ∷ b ∷ [])
    × (((ip_equal a loopback4 ≡ true) × (ip_equal b loopback6 ≡ true))
        ⊎ ((ip_equal a loopback6 ≡ true) × (ip_equal b loopback4 ≡ true)))

-- No address is both.
loopbacks_differ : (a : Ip) → ip_equal a loopback4 ≡ true → ip_equal a loopback6 ≡ true → ⊥
unfolding ip_equal
loopbacks_differ a h k = ground (
  arith,
  bytes_eq_iff a loopback4,
  bytes_eq_iff a loopback6,
  bytes_eq_iff (v4_in_v6 ++ a) loopback6,
)

dns_is_localhost_iff :
    (names : List String) → (dns_is_localhost names ≡ true) ↔ (names ≡ "localhost" ∷ [])
unfolding dns_is_localhost
dns_is_localhost_iff [] = ground arith
dns_is_localhost_iff (s ∷ []) = ground (arith, str_eq_iff s "localhost")
dns_is_localhost_iff (s ∷ t ∷ names) = ground arith

-- The two flags of the loop, over a list of two.
addresses_iff :
    (ips : List Ip) → ((length ips == 2) && found_both ips false false ≡ true) ↔ BothLoopbacks ips
unfolding found_both
addresses_iff [] = ground arith
addresses_iff (a ∷ []) = ground arith
addresses_iff (a ∷ b ∷ []) = ground (arith, loopbacks_differ a, loopbacks_differ b)
addresses_iff (a ∷ b ∷ c ∷ ips) = ground arith

-- `validateSAN` accepts a certificate exactly when its only DNS name is `localhost` and its IP
-- addresses are 127.0.0.1 and ::1, once each and in either order.
pub validate_san_iff :
    (cert : Info)
    → (validate_san cert ≡ ok tt)
      ↔ ((cert.dns_names ≡ "localhost" ∷ []) × BothLoopbacks cert.ip_addresses)
unfolding validate_san
validate_san_iff cert =
    let d = dns_is_localhost_iff cert.dns_names in
    let i = addresses_iff cert.ip_addresses in ground (arith, d, i)
