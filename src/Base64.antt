-- ===== src/Base64.antt =====
-- base64.h: encoding and decoding.
pub mod RoundTrip
use maock.Prelude.{
  ℕ, ◌+◌, ◌-◌, ◌*◌, ◌/◌, ◌%◌, ◌^◌, Bool, ◌&&◌, Option, none, some, [], ◌∷◌, leb, ◌==◌,
  if◌then◌else◌, length, get_or,
}
use maock.Prelude.Partial.{◌>>=◌}
use maock.Bytes.{Bytes, codes, is_empty}

-- B64_CHARS
abbrev pub b64_char : ℕ → ℕ
b64_char v = get_or (codes "ABCDEFGHIJKLMNOPQRSTUVWXYZabcdefghijklmnopqrstuvwxyz0123456789+/") v 0

-- INDEX_TABLE; `none` is -1
unfoldable pub b64_index : ℕ → Option ℕ
b64_index c =
    if leb b'A' c && leb c b'Z'
    then some (c - b'A')
    else if leb b'a' c && leb c b'z'
    then some (c - b'a' + 26)
    else if leb b'0' c && leb c b'9'
    then some (c - b'0' + 52)
    else if c == b'+'
    then some 62
    else if c == b'/'
    then some 63
    else none

-- The letter of the 6 bits from bit `k` of `n` on.
abbrev pub letter : ℕ → ℕ → ℕ
letter n k = b64_char (n / 2 ^ k % 64)

-- encode: four letters for three bytes, and one or two bytes at the end with padding.
unfoldable pub encode : Bytes → Bytes
encode [] = []
encode (a ∷ []) = let n = a * 2 ^ 16 in letter n 18 ∷ letter n 12 ∷ b'=' ∷ b'=' ∷ []
encode (a ∷ b ∷ []) =
    let n = a * 2 ^ 16 + b * 2 ^ 8 in letter n 18 ∷ letter n 12 ∷ letter n 6 ∷ b'=' ∷ []
encode (a ∷ b ∷ c ∷ s) =
    let n = a * 2 ^ 16 + b * 2 ^ 8 + c in
    letter n 18 ∷ letter n 12 ∷ letter n 6 ∷ letter n 0 ∷ encode s

abbrev pub encode_length : ℕ → ℕ
encode_length n = (n + 2) / 3 * 4

-- The three bytes of `n`.
abbrev pub byte_at : ℕ → ℕ → ℕ
byte_at n k = n / 2 ^ k % 256

-- The fourth letter of a group, after three with the sum `n`. `rest` is what decoding gives behind
-- the group, and `at_end` says that nothing is behind it.
unfoldable pub decode_fourth : ℕ → ℕ → Bool → Option Bytes → Option Bytes
decode_fourth n d at_end rest = elim (b64_index d) [
  | some i ↦
      let m = n + i in (rest >>= λ out. some (byte_at m 16 ∷ byte_at m 8 ∷ byte_at m 0 ∷ out))
  | none ↦ if d == b'=' && at_end then some (byte_at n 16 ∷ byte_at n 8 ∷ []) else none
]

unfoldable pub decode_third : ℕ → ℕ → ℕ → Bool → Option Bytes → Option Bytes
decode_third n c d at_end rest = elim (b64_index c) [
  | some i ↦ decode_fourth (n + i * 2 ^ 6) d at_end rest
  | none ↦ if c == b'=' && (d == b'=' && at_end) then some (byte_at n 16 ∷ []) else none
]

-- The loop over groups of four; `none` is a return of d_first, which leaves nothing. A length that
-- is no multiple of 4 is kept out by the caller.
unfoldable pub decode_groups : Bytes → Option Bytes
decode_groups [] = some []
decode_groups (a ∷ []) = none
decode_groups (a ∷ b ∷ []) = none
decode_groups (a ∷ b ∷ c ∷ []) = none
decode_groups (a ∷ b ∷ c ∷ d ∷ s) =
    let rest = decode_groups s in
    (b64_index a >>= λ i.
    b64_index b >>= λ j. decode_third (i * 2 ^ 18 + j * 2 ^ 12) c d (is_empty s) rest)

abbrev pub or_nothing : Option Bytes → Bytes
or_nothing none = []
or_nothing (some out) = out

-- decode
unfoldable pub decode : Bytes → Bytes
unfolding decode_groups
decode s = if length s % 4 == 0 then or_nothing (decode_groups s) else []
