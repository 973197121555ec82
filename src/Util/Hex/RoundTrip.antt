-- ===== src/Util/Hex/RoundTrip.antt =====
-- util.cc: format_hex, decode_hex and hex_to_uint together.
use maock.Prelude.{
  ℕ, ◌*◌, ◌/◌, ◌%◌, ◌<◌, ◌≡◌, refl, ap, ◌↔◌, Bool, true, ◌&&◌, [], ◌∷◌, arith, ◌==◌, &&_true,
  all_below, all_below_sound, length,
}
use maock.Bytes.{Bytes, IsBytes}
use maock.Util.Hex.{
  lower_xdigit, upper_xdigit, is_hex_digit, hex_to_uint, format_hex, all_hex, is_hex_string,
  decode_hex,
}

abbrev digit_test : ℕ → Bool
digit_test d =
    hex_to_uint (lower_xdigit d) == d
    && (hex_to_uint (upper_xdigit d) == d
        && (is_hex_digit (lower_xdigit d) && is_hex_digit (upper_xdigit d)))

digit_table : all_below 16 digit_test ≡ true
unfolding all_below hex_to_uint
digit_table = refl

-- A digit that is written, in either case, is a hexadecimal digit and stands for its value.
pub hex_to_uint-xdigit :
    (d : ℕ)
    → d < 16
    → (hex_to_uint (lower_xdigit d) ≡ d)
      × (hex_to_uint (upper_xdigit d) ≡ d)
      × (is_hex_digit (lower_xdigit d) ≡ true)
      × (is_hex_digit (upper_xdigit d) ≡ true)
hex_to_uint-xdigit d h =
    let t = all_below_sound 16 digit_test d digit_table h in
    let (a, r) = &&_true (hex_to_uint (lower_xdigit d) == d) _ t in
    let (b, q) = &&_true (hex_to_uint (upper_xdigit d) == d) _ r in
    let (c, e) = &&_true (is_hex_digit (lower_xdigit d)) _ q in (ground arith, ground arith, c, e)

length-format_hex : (s : Bytes) → length (format_hex s) ≡ 2 * length s
unfolding format_hex
length-format_hex [] = omega arith
length-format_hex (c ∷ s) = omega (arith, length-format_hex s)

all_hex-format_hex : (s : Bytes) → IsBytes s → all_hex (format_hex s) ≡ true
unfolding all_hex format_hex
all_hex-format_hex [] h = refl
all_hex-format_hex (c ∷ s) h =
    rw
      ((hex_to_uint-xdigit (c / 16) (omega arith)).2, (hex_to_uint-xdigit (c % 16) (omega arith)).2)
      (all_hex-format_hex s h.1)

decode_hex-bytes : (s : Bytes) → IsBytes s → decode_hex (format_hex s) ≡ s
unfolding decode_hex format_hex
decode_hex-bytes [] h = refl
decode_hex-bytes (c ∷ s) h =
    let hi = hex_to_uint-xdigit (c / 16) (omega arith) in
    let lo = hex_to_uint-xdigit (c % 16) (omega arith) in
    rw (hi.0, lo.0, decode_hex-bytes s h.1) (ap (λ (n : ℕ). n ∷ s) (let small = h.0 in omega arith))

-- The hexadecimal text of any bytes is a hexadecimal string and decodes to the bytes.
pub decode_hex-format_hex :
    (s : Bytes)
    → IsBytes s
    → (is_hex_string (format_hex s) ≡ true) × (decode_hex (format_hex s) ≡ s)
unfolding is_hex_string
decode_hex-format_hex s h =
    (ground (arith, length-format_hex s, all_hex-format_hex s h), decode_hex-bytes s h)

-- Below 128, hex_to_uint gives 256 exactly above 'z', and not wherever the byte is no digit.
pub hex_to_uint_invalid : (c : ℕ) → c < 128 → (hex_to_uint c ≡ 256) ↔ (b'z' < c)
unfolding hex_to_uint
hex_to_uint_invalid c h = (λ e. ground arith, λ e. ground arith)
