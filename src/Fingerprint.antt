-- ===== src/Fingerprint.antt =====
-- truststore.go: the fingerprint of a certificate and its hexadecimal text, with `encoding/hex`.
pub mod Exact
use local_tls.Base.{
  ℕ, zero, suc, ◌+◌, ◌-◌, ◌*◌, ◌/◌, ◌%◌, ◌&&◌, Option, none, some, List, [], ◌∷◌, ltb, leb, ◌==◌,
  if◌then◌else◌,
}
use local_tls.Errors.{Outcome, ok, err, text, wrapped}
use local_tls.Host.{Host}
use local_tls.Runes.{Runes, byte_length, trim_space}

-- The value of a hexadecimal digit, in either case.
unfoldable pub hex_value : ℕ → Option ℕ
hex_value c =
    if leb b'0' c && leb c b'9'
    then some (c - b'0')
    else if leb b'a' c && leb c b'f'
    then some (c - b'a' + 10)
    else if leb b'A' c && leb c b'F'
    then some (c - b'A' + 10)
    else none

-- The lower-case digit.
unfoldable pub hex_digit : ℕ → ℕ
hex_digit n = if ltb n 10 then b'0' + n else b'a' + (n - 10)

-- `hex.EncodeToString`, and the verb `%x` on bytes.
unfoldable pub hex_encode : List ℕ → Runes
hex_encode [] = []
hex_encode (b ∷ bs) = hex_digit (b / 16) ∷ hex_digit (b % 16) ∷ hex_encode bs

abbrev pub put_pair : Option ℕ → Option ℕ → Outcome (List ℕ) → Outcome (List ℕ)
put_pair none b rest = err (text "encoding/hex: invalid byte")
put_pair (some a) none rest = err (text "encoding/hex: invalid byte")
put_pair (some a) (some b) (ok bs) = ok ((a * 16 + b) ∷ bs)
put_pair (some a) (some b) (err e) = err e

abbrev pub left_over : Option ℕ → Outcome (List ℕ)
left_over none = err (text "encoding/hex: invalid byte")
left_over (some a) = err (text "encoding/hex: odd length hex string")

-- `hex.DecodeString`.
unfoldable pub hex_decode : Runes → Outcome (List ℕ)
hex_decode [] = ok []
hex_decode (c ∷ []) = left_over (hex_value c)
hex_decode (c ∷ d ∷ s) = put_pair (hex_value c) (hex_value d) (hex_decode s)

-- `copy` into an array of `n` zeros.
unfoldable pub copied : ℕ → List ℕ → List ℕ
copied zero bs = []
copied (suc n) [] = 0 ∷ copied n []
copied (suc n) (b ∷ bs) = b ∷ copied n bs

abbrev pub into_array : Outcome (List ℕ) → Outcome (List ℕ)
into_array (ok bs) = ok (copied 32 bs)
into_array (err e) = err e

unfoldable pub parse_sha256_fingerprint : Runes → Outcome (List ℕ)
parse_sha256_fingerprint t =
    let s = trim_space t in
    if byte_length s == 64
    then into_array (wrapped "invalid hex fingerprint" (hex_decode s))
    else err (text "fingerprint must be 64 hex characters (32 bytes SHA-256)")

unfoldable pub compute_sha256_fingerprint : (H : Host) → H.Bytes → List ℕ
compute_sha256_fingerprint H der = H.sha256 der
