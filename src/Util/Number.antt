-- ===== src/Util/Number.antt =====
-- util.cc: parse_uint and parse_uint_with_unit, on `int64_t`.
pub mod Correct
use maock.Prelude.{
  ℕ, ◌+◌, ◌-◌, ◌*◌, ◌/◌, ◌^◌, not, ◌||◌, Option, none, some, [], ◌∷◌, ltb, ◌==◌, if◌then◌else◌,
  length, get_or,
}
use maock.Prelude.Partial.{◌>>=◌}
use maock.Bytes.{Bytes}
use maock.Bytes.Decimal.{is_digit}

-- std::numeric_limits<int64_t>::max()
abbrev pub max_int64 : ℕ
max_int64 = 2 ^ 63 - 1

-- The loop of parse_uint_digits, with the number and the count of the digits so far; `none` is
-- {-1, 0}. The tests come before each step, so no step passes the largest value.
unfoldable pub digits_from : ℕ → ℕ → Bytes → Option (ℕ × ℕ)
digits_from n i [] = some (n, i)
digits_from n i (c ∷ s) =
    let later = digits_from (n * 10 + (c - b'0')) (i + 1) s in
    if is_digit c
    then if ltb (max_int64 / 10) n
      then none
      else if ltb (max_int64 - (c - b'0')) (n * 10)
      then none
      else later
    else some (n, i)

unfoldable pub parse_uint_digits : Bytes → Option (ℕ × ℕ)
unfolding digits_from
parse_uint_digits s = digits_from 0 0 s >>= λ p. if p.1 == 0 then none else some p

-- parse_uint; `none` is -1
unfoldable pub parse_uint : Bytes → Option ℕ
unfolding parse_uint_digits
parse_uint s = parse_uint_digits s >>= λ p. if p.1 == length s then some p.0 else none

-- The switch over the unit.
unfoldable pub unit_of : ℕ → Option ℕ
unit_of c =
    if c == b'K' || c == b'k'
    then some (2 ^ 10)
    else if c == b'M' || c == b'm'
    then some (2 ^ 20)
    else if c == b'G' || c == b'g'
    then some (2 ^ 30)
    else none

unfoldable pub times_unit : ℕ → ℕ → Option ℕ
times_unit n mul = if ltb (max_int64 / mul) n then none else some (n * mul)

unfoldable pub parse_uint_with_unit : Bytes → Option ℕ
unfolding parse_uint_digits unit_of times_unit
parse_uint_with_unit s = parse_uint_digits s >>= λ p.
    if p.1 == length s
    then some p.0
    else if not (p.1 + 1 == length s)
    then none
    else (unit_of (get_or s p.1 0) >>= times_unit p.0)
