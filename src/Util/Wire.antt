-- ===== src/Util/Wire.antt =====
-- util.cc: integers in network byte order.
pub mod RoundTrip
use maock.Prelude.{ℕ, ◌+◌, ◌*◌, ◌/◌, ◌%◌, ◌^◌, [], ◌∷◌, get_or}
use maock.Bytes.{Bytes}

-- put_uint16be and put_uint32be: the bytes that are written. htons and htonl put the most significant
-- byte first.
unfoldable pub put_uint16be : ℕ → Bytes
put_uint16be n = n / 2 ^ 8 % 256 ∷ n % 256 ∷ []

unfoldable pub put_uint32be : ℕ → Bytes
put_uint32be n = n / 2 ^ 24 % 256 ∷ n / 2 ^ 16 % 256 ∷ n / 2 ^ 8 % 256 ∷ n % 256 ∷ []

-- The byte at `i`; the caller gives bytes enough.
abbrev pub byte_of : Bytes → ℕ → ℕ
byte_of s i = get_or s i 0

unfoldable pub get_uint16 : Bytes → ℕ
get_uint16 s = byte_of s 0 * 2 ^ 8 + byte_of s 1

unfoldable pub get_uint32 : Bytes → ℕ
get_uint32 s = byte_of s 0 * 2 ^ 24 + byte_of s 1 * 2 ^ 16 + byte_of s 2 * 2 ^ 8 + byte_of s 3

unfoldable pub get_uint64 : Bytes → ℕ
get_uint64 s =
    byte_of s 0 * 2 ^ 56
    + byte_of s 1 * 2 ^ 48
    + byte_of s 2 * 2 ^ 40
    + byte_of s 3 * 2 ^ 32
    + byte_of s 4 * 2 ^ 24
    + byte_of s 5 * 2 ^ 16
    + byte_of s 6 * 2 ^ 8
    + byte_of s 7
