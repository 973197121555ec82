-- ===== src/Util/Token68.antt =====
-- util.cc: to_token68 and to_base64.
pub mod Inverse
use maock.Prelude.{ℕ, zero, suc, ◌-◌, ◌%◌, [], ◌∷◌, ◌++◌, map, ◌==◌, if◌then◌else◌, length}
use maock.Bytes.{Bytes}
use maock.Util.Host.{before}

abbrev pub token68_char : ℕ → ℕ
token68_char c = if c == b'+' then b'-' else if c == b'/' then b'_' else c

abbrev pub base64_char : ℕ → ℕ
base64_char c = if c == b'-' then b'+' else if c == b'_' then b'/' else c

-- to_token68: the padding is erased.
unfoldable pub to_token68 : Bytes → Bytes
unfolding before
to_token68 s = before b'=' (map token68_char s)

-- std::fill_n with '='
abbrev pub fill : ℕ → Bytes
fill zero = []
fill (suc n) = b'=' ∷ fill n

-- The padding behind a text of this length.
abbrev pub padding : ℕ → Bytes
padding size = let rem = size % 4 in if rem == 0 then [] else fill (4 - rem)

unfoldable pub to_base64 : Bytes → Bytes
to_base64 s = map base64_char s ++ padding (length s)
