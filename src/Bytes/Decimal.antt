-- ===== src/Bytes/Decimal.antt =====
-- std::to_string and std::stoi: decimal numerals.
use mathlib.Core.List.{foldl, foldl-append, concat-ne-nil}
use maock.Prelude.{
  ℕ, zero, suc, ◌+◌, ◌-◌, ◌*◌, ◌/◌, ◌%◌, ◌^◌, ◌<◌, ◌≡◌, ◌≢◌, inl, inr, Bool, true, false, ◌&&◌,
  ◌||◌, Option, none, some, [], ◌∷◌, ◌++◌, arith, ltb, leb, ◌==◌, if◌then◌else◌, Bool-cases, All,
  All-append,
}
use maock.Prelude.Int.{ℤ, pos, negsuc}
use maock.Bytes.{Bytes}

-- The digits of `n`, the last one first found.
to_decimal_fuel : ℕ → ℕ → Bytes
to_decimal_fuel zero n = []
to_decimal_fuel (suc f) n =
    let more = to_decimal_fuel f (n / 10) ++ (48 + n % 10) ∷ [] in
    if ltb n 10 then (48 + n) ∷ [] else more

unfoldable pub to_decimal : ℕ → Bytes
unfolding to_decimal_fuel
to_decimal n = to_decimal_fuel (suc n) n

abbrev pub is_digit : ℕ → Bool
is_digit c = leb 48 c && leb c 57

abbrev pub add_digit : ℕ → ℕ → ℕ
add_digit n c = n * 10 + (c - 48)

-- The number that a text of digits stands for.
abbrev pub of_decimal : Bytes → ℕ
of_decimal = foldl add_digit 0

of_decimal-to_decimal_fuel : (f n : ℕ) → n < f → of_decimal (to_decimal_fuel f n) ≡ n
unfolding to_decimal_fuel
of_decimal-to_decimal_fuel zero n h = absurd (omega arith)
of_decimal-to_decimal_fuel (suc f) n h = elim (Bool-cases (ltb n 10)) [
  | inl small ↦ rw small (ground arith)
  | inr large ↦
      rw large
        (rw foldl-append (ground (arith, of_decimal-to_decimal_fuel f (n / 10) (ground arith))))
]

-- Reading back a printed number gives the number.
pub of_decimal-to_decimal : (n : ℕ) → of_decimal (to_decimal n) ≡ n
unfolding to_decimal
of_decimal-to_decimal n = of_decimal-to_decimal_fuel (suc n) n (omega arith)

IsDigits-fuel : (f n : ℕ) → All (λ c. is_digit c ≡ true) (to_decimal_fuel f n)
unfolding to_decimal_fuel
IsDigits-fuel zero n = tt
IsDigits-fuel (suc f) n = elim (Bool-cases (ltb n 10)) [
  | inl small ↦ rw small (ground arith, tt)
  | inr large ↦
      rw large
        (All-append _ (to_decimal_fuel f (n / 10)) _ (IsDigits-fuel f (n / 10)) (ground arith, tt))
]

pub to_decimal-IsDigits : (n : ℕ) → All (λ c. is_digit c ≡ true) (to_decimal n)
unfolding to_decimal
to_decimal-IsDigits n = IsDigits-fuel (suc n) n

pub to_decimal-ne-nil : (n : ℕ) → to_decimal n ≢ []
unfolding to_decimal to_decimal_fuel
to_decimal-ne-nil n = elim (Bool-cases (ltb n 10)) [
  | inl small ↦ rw small (λ e. cc)
  | inr large ↦ rw large (concat-ne-nil (48 + n % 10) (to_decimal_fuel n (n / 10)))
]

-- std::isspace in the "C" locale
abbrev is_space : ℕ → Bool
is_space c = (leb 9 c && leb c 13) || c == 32

-- The digits at the head of the text.
abbrev pub leading_digits : Bytes → Bytes
leading_digits [] = []
leading_digits (c ∷ s) = let later = leading_digits s in if is_digit c then c ∷ later else []

skip_space : Bytes → Bytes
skip_space [] = []
skip_space (c ∷ s) = let later = skip_space s in if is_space c then later else c ∷ s

-- A value of `int`, from the sign and the digits; `none` for invalid_argument and out_of_range.
signed : Bool → Bytes → Option ℤ
signed minus [] = none
signed true digits =
    let n = of_decimal digits in
    if ltb (2 ^ 31) n then none else if n == 0 then some (pos 0) else some (negsuc (n - 1))
signed false digits = let n = of_decimal digits in if ltb n (2 ^ 31) then some (pos n) else none

after_sign : Bytes → Option ℤ
unfolding signed
after_sign [] = none
after_sign (c ∷ s) =
    if c == b'-'
    then signed true (leading_digits s)
    else if c == b'+'
    then signed false (leading_digits s)
    else signed false (leading_digits (c ∷ s))

unfoldable pub stoi : Bytes → Option ℤ
unfolding skip_space after_sign
stoi s = after_sign (skip_space s)

-- std::to_string of a signed number
unfoldable pub to_string : ℤ → Bytes
unfolding to_decimal
to_string (pos n) = to_decimal n
to_string (negsuc n) = b'-' ∷ to_decimal (n + 1)
