-- ===== src/Fingerprint/Exact.antt =====
-- Which texts are read as a fingerprint, and the round trip through the hexadecimal text.
use local_tls.Base.{
  ℕ, ◌*◌, ◌/◌, ◌%◌, ◌<◌, false, Option, none, some, List, [], ◌∷◌, ◌++◌, map, length, ◌==◌, ◌≡◌,
  ◌≢◌, ◌↔◌, refl, arith, ap, subst, Bool-cases, ==_iff, inl, inr,
}
use local_tls.Errors.{Outcome, ok, err, wrapped}
use local_tls.Runes.{Runes, rune_len, byte_length, trim_space, to_lower, is_space}
use local_tls.Runes.Trim.{AllSpace, NoSpace, trim_space-between}
use local_tls.Fingerprint.{
  hex_value, hex_digit, hex_encode, put_pair, left_over, hex_decode, copied, into_array,
  parse_sha256_fingerprint,
}

abbrev pub AllBytes : List ℕ → Type 0
AllBytes [] = Unit {0}
AllBytes (b ∷ bs) = (b < 256) × AllBytes bs

-- A digit, in either case, for a number below 16.
hex_value_iff : (c a : ℕ) → (hex_value c ≡ some a) ↔ ((a < 16) × (to_lower c ≡ hex_digit a))
unfolding hex_value hex_digit
hex_value_iff c a = ground arith

left_over-ne-ok : (o : Option ℕ) (bs : List ℕ) → left_over o ≢ ok bs
left_over-ne-ok none bs h = cc
left_over-ne-ok (some a) bs h = cc

put_pair-ne-nil : (o p : Option ℕ) (r : Outcome (List ℕ)) → put_pair o p r ≢ ok []
put_pair-ne-nil none p r h = cc
put_pair-ne-nil (some a) none r h = cc
put_pair-ne-nil (some a) (some b) (ok bs) h = cc
put_pair-ne-nil (some a) (some b) (err e) h = cc

-- Two digits and the rest.
put_pair_iff :
    (o p : Option ℕ) (r : Outcome (List ℕ)) (b : ℕ) (bs : List ℕ)
    → ((x : ℕ) → o ≡ some x → x < 16)
    → ((y : ℕ) → p ≡ some y → y < 16)
    → (put_pair o p r ≡ ok (b ∷ bs))
      ↔ ((b < 256) × (o ≡ some (b / 16)) × (p ≡ some (b % 16)) × (r ≡ ok bs))
put_pair_iff none p r b bs ho hp = ground arith
put_pair_iff (some x) none r b bs ho hp = ground arith
put_pair_iff (some x) (some y) (ok l) b bs ho hp = ground (arith, ho x refl, hp y refl)
put_pair_iff (some x) (some y) (err e) b bs ho hp = ground arith

decode_iff :
    (s : Runes) (bs : List ℕ)
    → (hex_decode s ≡ ok bs) ↔ (AllBytes bs × (map to_lower s ≡ hex_encode bs))
unfolding hex_decode hex_encode
decode_iff [] [] = (λ h. (tt, refl), λ h. refl)
decode_iff [] (b ∷ bs) = ground arith
decode_iff (c ∷ []) [] = ground (arith, left_over-ne-ok (hex_value c) [])
decode_iff (c ∷ []) (b ∷ bs) = ground (arith, left_over-ne-ok (hex_value c) (b ∷ bs))
decode_iff (c ∷ d ∷ s) [] =
    ground (arith, put_pair-ne-nil (hex_value c) (hex_value d) (hex_decode s))
decode_iff (c ∷ d ∷ s) (b ∷ bs) =
    let pair =
      put_pair_iff (hex_value c) (hex_value d) (hex_decode s) b bs
        (λ x h. ((hex_value_iff c x).0 h).0) (λ y h. ((hex_value_iff d y).0 h).0) in
    ground (arith, pair, hex_value_iff c (b / 16), hex_value_iff d (b % 16), decode_iff s bs)

rune_len_of_digit : (c a : ℕ) → to_lower c ≡ hex_digit a → a < 16 → rune_len c ≡ 1
unfolding hex_digit
rune_len_of_digit c a e h = ground arith

-- A text of digits has two bytes for each byte.
byte_length_of_digits :
    (s : Runes) (bs : List ℕ)
    → AllBytes bs
    → map to_lower s ≡ hex_encode bs
    → byte_length s ≡ 2 * length bs
unfolding hex_encode
byte_length_of_digits [] [] h e = refl
byte_length_of_digits [] (b ∷ bs) h e = cc
byte_length_of_digits (c ∷ []) [] h e = cc
byte_length_of_digits (c ∷ []) (b ∷ bs) h e = cc
byte_length_of_digits (c ∷ d ∷ s) [] h e = cc
byte_length_of_digits (c ∷ d ∷ s) (b ∷ bs) h e = ground (
  arith,
  rune_len_of_digit c (b / 16),
  rune_len_of_digit d (b % 16),
  byte_length_of_digits s bs h.1,
)

copied-length : (bs : List ℕ) → copied (length bs) bs ≡ bs
unfolding copied
copied-length [] = refl
copied-length (b ∷ bs) = ap (λ l. b ∷ l) (copied-length bs)

copied_self : (bs : List ℕ) → length bs ≡ 32 → copied 32 bs ≡ bs
copied_self bs e = subst (λ n. copied n bs ≡ bs) e (copied-length bs)

-- What the checked length and the decoding accept, from the trimmed text.
read_forth :
    (s : Runes) (fp : List ℕ) (r : Outcome (List ℕ))
    → hex_decode s ≡ r
    → byte_length s ≡ 64
    → into_array (wrapped "invalid hex fingerprint" r) ≡ ok fp
    → (length fp ≡ 32) × AllBytes fp × (map to_lower s ≡ hex_encode fp)
read_forth s fp (err e) d n h = cc
read_forth s fp (ok bs) d n h =
    let digits = (decode_iff s bs).0 d in
    let len : length bs ≡ 32 = omega (arith, byte_length_of_digits s bs digits.0 digits.1) in
    let same : bs ≡ fp = cc (copied_self bs len) in
    subst (λ l. (length l ≡ 32) × AllBytes l × (map to_lower s ≡ hex_encode l)) same
      (len, digits.0, digits.1)

-- A text is read as the fingerprint `fp` exactly when `fp` has 32 bytes and the text without the
-- surrounding white space is the hexadecimal text of `fp`, in upper or lower case.
pub parse_fingerprint_iff :
    (t : Runes) (fp : List ℕ)
    → (parse_sha256_fingerprint t ≡ ok fp)
      ↔ ((length fp ≡ 32) × AllBytes fp × (map to_lower (trim_space t) ≡ hex_encode fp))
unfolding parse_sha256_fingerprint
parse_fingerprint_iff t fp = (
  λ h. elim (Bool-cases (byte_length (trim_space t) == 64)) [
    | inl e ↦
        read_forth (trim_space t) fp _ refl ((==_iff (byte_length (trim_space t)) 64).0 e)
          (rw e at h)
    | inr e ↦ absurd (ground arith)
  ],
  λ h.
      let d = (decode_iff (trim_space t) fp).1 (h.1, h.2) in
      let n : byte_length (trim_space t) ≡ 64 =
        omega (arith, byte_length_of_digits (trim_space t) fp h.1 h.2) in
      rw ((==_iff (byte_length (trim_space t)) 64).1 n, d) (ap (λ l. ok l) (copied_self fp h.0)),
)

digit_no_space : (a : ℕ) → a < 16 → is_space (hex_digit a) ≡ false
unfolding hex_digit is_space
digit_no_space a h = ground arith

digit_lower : (a : ℕ) → a < 16 → to_lower (hex_digit a) ≡ hex_digit a
unfolding hex_digit
digit_lower a h = ground arith

encode-NoSpace : (bs : List ℕ) → AllBytes bs → NoSpace (hex_encode bs)
unfolding hex_encode
encode-NoSpace [] h = tt
encode-NoSpace (b ∷ bs) h = (
  digit_no_space (b / 16) (omega (arith, h.0)),
  (digit_no_space (b % 16) (omega arith), encode-NoSpace bs h.1),
)

encode_lower : (bs : List ℕ) → AllBytes bs → map to_lower (hex_encode bs) ≡ hex_encode bs
unfolding hex_encode
encode_lower [] h = refl
encode_lower (b ∷ bs) h = cc (
  digit_lower (b / 16) (omega (arith, h.0)),
  digit_lower (b % 16) (omega arith),
  encode_lower bs h.1,
)

-- A fingerprint of 32 bytes is read back from its hexadecimal text, whatever white space stands
-- around the text.
pub parse-encode :
    (before : Runes) (fp : List ℕ) (behind : Runes)
    → AllSpace before
    → AllSpace behind
    → length fp ≡ 32
    → AllBytes fp
    → parse_sha256_fingerprint (before ++ (hex_encode fp ++ behind)) ≡ ok fp
parse-encode before fp behind hb ha n bytes =
    (parse_fingerprint_iff (before ++ (hex_encode fp ++ behind)) fp).1 (
      n,
      bytes,
      rw (trim_space-between before (hex_encode fp) behind hb (encode-NoSpace fp bytes) ha)
          (encode_lower fp bytes),
    )
