-- ===== src/Certificate/San.antt =====
-- `validateSAN` of provision.go, and `net.IP.Equal`.
pub mod Loopback
use local_tls.Base.{String, str_eq, Bool, false, ◌&&◌, ◌||◌, ◌==◌, not, if◌then◌else◌}
use local_tls.Base.{List, [], ◌∷◌, ◌++◌, length, bytes_eq}
use local_tls.Errors.{Outcome, ok, err, text}
use local_tls.Host.{Ip, Info}

-- `net.IPv4(127, 0, 0, 1)`, in its 16-byte form, and `net.IPv6loopback`.
abbrev pub v4_in_v6 : Ip
v4_in_v6 = 0 ∷ 0 ∷ 0 ∷ 0 ∷ 0 ∷ 0 ∷ 0 ∷ 0 ∷ 0 ∷ 0 ∷ 255 ∷ 255 ∷ []

abbrev pub loopback4 : Ip
loopback4 = v4_in_v6 ++ (127 ∷ 0 ∷ 0 ∷ 1 ∷ [])

abbrev pub loopback6 : Ip
loopback6 = 0 ∷ 0 ∷ 0 ∷ 0 ∷ 0 ∷ 0 ∷ 0 ∷ 0 ∷ 0 ∷ 0 ∷ 0 ∷ 0 ∷ 0 ∷ 0 ∷ 0 ∷ 1 ∷ []

-- `ip.Equal(x)`: a 4-byte address equals its 16-byte form.
unfoldable pub ip_equal : Ip → Ip → Bool
ip_equal ip x =
    if length ip == length x
    then bytes_eq ip x
    else if length ip == 4 && length x == 16
    then bytes_eq (v4_in_v6 ++ ip) x
    else if length ip == 16 && length x == 4
    then bytes_eq ip (v4_in_v6 ++ x)
    else false

dns_is_localhost : List String → Bool
dns_is_localhost (s ∷ []) = str_eq s "localhost"
dns_is_localhost _ = false

-- The loop over `cert.IPAddresses` with its two flags.
found_both : List Ip → Bool → Bool → Bool
found_both [] found4 found6 = found4 && found6
found_both (ip ∷ ips) found4 found6 =
    found_both ips (found4 || ip_equal ip loopback4) (found6 || ip_equal ip loopback6)

unfoldable pub validate_san : Info → Outcome (Unit {0})
unfolding dns_is_localhost found_both
validate_san cert =
    if not (dns_is_localhost cert.dns_names)
    then err (text "server certificate DNS SAN must be exactly [localhost]")
    else if not (length cert.ip_addresses == 2)
    then err (text "server certificate IP SAN must have exactly 2 entries")
    else if not (found_both cert.ip_addresses false false)
    then err (text "server certificate IP SAN must contain 127.0.0.1 and ::1")
    else ok tt
