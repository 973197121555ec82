-- ===== src/Util/Percent.antt =====
-- util.cc and util.h: percent encoding and decoding.
pub mod RoundTrip
use maock.Prelude.{
  ℕ, ◌+◌, ◌-◌, ◌*◌, ◌/◌, ◌%◌, Bool, false, not, ◌&&◌, ◌||◌, [], ◌∷◌, ◌==◌, if◌then◌else◌,
}
use maock.Bytes.{Bytes, codes}
use maock.Util.Hex.{is_alpha, is_digit, is_hex_digit, upper_xdigit, hex_to_uint}

-- std::find over a literal
unfoldable pub one_of : Bytes → ℕ → Bool
one_of [] c = false
one_of (x ∷ xs) c = x == c || one_of xs c

unfoldable pub in_rfc3986_unreserved_chars : ℕ → Bool
unfolding one_of
in_rfc3986_unreserved_chars c = is_alpha c || (is_digit c || one_of (codes "-._~") c)

unfoldable pub in_rfc3986_sub_delims : ℕ → Bool
unfolding one_of
in_rfc3986_sub_delims c = one_of (codes "!$&'()*+,;=") c

unfoldable pub in_token : ℕ → Bool
unfolding one_of
in_token c = is_alpha c || (is_digit c || one_of (codes "!#$%&'*+-.^_`|~") c)

unfoldable pub in_attr_char : ℕ → Bool
unfolding in_token
in_attr_char c = in_token c && not (one_of (codes "*'%") c)

-- The three encoders differ in the bytes that they keep.
unfoldable pub encode_with : (ℕ → Bool) → Bytes → Bytes
encode_with keep [] = []
encode_with keep (c ∷ s) =
    let rest = encode_with keep s in
    if keep c then c ∷ rest else b'%' ∷ upper_xdigit (c / 16) ∷ upper_xdigit (c % 16) ∷ rest

abbrev pub keeps_path : ℕ → Bool
keeps_path c = in_rfc3986_unreserved_chars c || (in_rfc3986_sub_delims c || c == b'/')

abbrev pub keeps_token : ℕ → Bool
keeps_token c = not (c == b'%') && in_token c

unfoldable pub percent_encode : Bytes → Bytes
unfolding encode_with in_rfc3986_unreserved_chars
percent_encode = encode_with in_rfc3986_unreserved_chars

unfoldable pub percent_encode_path : Bytes → Bytes
unfolding encode_with in_rfc3986_unreserved_chars in_rfc3986_sub_delims
percent_encode_path = encode_with keeps_path

unfoldable pub percent_encode_token : Bytes → Bytes
unfolding encode_with in_token
percent_encode_token = encode_with keeps_token

-- percent_decode: a `%` with two hexadecimal digits behind it is a byte, any other stands for
-- itself.
unfoldable pub percent_decode : Bytes → Bytes
unfolding hex_to_uint
percent_decode [] = []
percent_decode (c ∷ []) = c ∷ []
percent_decode (c ∷ d ∷ []) = c ∷ percent_decode (d ∷ [])
percent_decode (c ∷ d ∷ e ∷ s) =
    let plain = c ∷ percent_decode (d ∷ e ∷ s) in
    let coded = (hex_to_uint d * 16 + hex_to_uint e) % 256 ∷ percent_decode s in
    if not (c == b'%') then plain else if is_hex_digit d && is_hex_digit e then coded else plain

-- quote_string: the text itself where there is no quote, else a backslash before each quote
unfoldable pub quote_string : Bytes → Bytes
quote_string [] = []
quote_string (c ∷ s) = if c == b'"' then b'\\' ∷ b'"' ∷ quote_string s else c ∷ quote_string s
