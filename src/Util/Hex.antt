-- ===== src/Util/Hex.antt =====
-- util.h and util.cc: character classes and hexadecimal digits.
pub mod RoundTrip
use maock.Prelude.{
  ℕ, ◌+◌, ◌-◌, ◌*◌, ◌/◌, ◌%◌, ◌^◌, Bool, true, false, not, ◌&&◌, ◌||◌, [], ◌∷◌, leb, ◌==◌,
  if◌then◌else◌, length, get_or,
}
use maock.Bytes.{Bytes, codes}

abbrev pub between : ℕ → ℕ → ℕ → Bool
between lo hi c = leb lo c && leb c hi

abbrev pub is_alpha : ℕ → Bool
is_alpha c = between b'A' b'Z' c || between b'a' b'z' c

abbrev pub is_digit : ℕ → Bool
is_digit c = between b'0' b'9' c

abbrev pub is_hex_digit : ℕ → Bool
is_hex_digit c = is_digit c || (between b'A' b'F' c || between b'a' b'f' c)

-- LOWER_XDIGITS and UPPER_XDIGITS
abbrev pub lower_xdigit : ℕ → ℕ
lower_xdigit d = get_or (codes "0123456789abcdef") d 0

abbrev pub upper_xdigit : ℕ → ℕ
upper_xdigit d = get_or (codes "0123456789ABCDEF") d 0

-- hex_to_uint of a byte below 128, as a uint32_t: the difference may wrap below '0'.
unfoldable pub hex_to_uint : ℕ → ℕ
hex_to_uint c =
    if leb c b'9'
    then (c + 2 ^ 32 - b'0') % 2 ^ 32
    else if leb c b'Z'
    then c - b'A' + 10
    else if leb c b'z'
    then c - b'a' + 10
    else 256

unfoldable pub upcase : ℕ → ℕ
upcase c = if between b'a' b'z' c then c - b'a' + b'A' else c

-- format_hex: both digits of each byte
unfoldable pub format_hex : Bytes → Bytes
format_hex [] = []
format_hex (c ∷ s) = lower_xdigit (c / 16) ∷ lower_xdigit (c % 16) ∷ format_hex s

-- is_hex_string
unfoldable pub all_hex : Bytes → Bool
all_hex [] = true
all_hex (c ∷ s) = is_hex_digit c && all_hex s

unfoldable pub is_hex_string : Bytes → Bool
unfolding all_hex
is_hex_string s = if length s % 2 == 0 then all_hex s else false

-- decode_hex, of a text for which is_hex_string holds: two digits make a byte, stored in a
-- `uint8_t`. The digits do not overlap, so `|` is `+`.
unfoldable pub decode_hex : Bytes → Bytes
unfolding hex_to_uint
decode_hex [] = []
decode_hex (c ∷ []) = []
decode_hex (c ∷ d ∷ s) = (hex_to_uint c * 16 + hex_to_uint d) % 256 ∷ decode_hex s
