-- ===== src/Util/Number/Correct.antt =====
-- util.cc: parse_uint, parse_uint_with_unit and the numbers of a text.
use mathlib.Core.List.{foldl}
use maock.Prelude.{
  ℕ, suc, ◌+◌, ◌-◌, ◌*◌, ◌/◌, ◌≤◌, ◌<◌, ◌≡◌, refl, sym, ap, ◌∙◌, ◌≢◌, ◌↔◌, inl, inr, true, some, [],
  ◌∷◌, arith, ltb, Bool-cases, Option-cases, All, length, take, take_all,
}
use maock.Bytes.{Bytes}
use maock.Bytes.Decimal.{
  is_digit, add_digit, of_decimal, to_decimal, of_decimal-to_decimal, to_decimal-IsDigits,
  to_decimal-ne-nil,
}
use maock.Util.Number.{
  max_int64, digits_from, parse_uint_digits, parse_uint, unit_of, times_unit, parse_uint_with_unit,
}

abbrev pub IsDigits : Bytes → Type 0
IsDigits = All (λ c. is_digit c ≡ true)

length_pos : (s : Bytes) → s ≢ [] → 0 < length s
length_pos [] ne = absurd (ne refl)
length_pos (c ∷ s) ne = omega arith

foldl_grows : (n : ℕ) (s : Bytes) → n ≤ foldl add_digit n s
unfolding foldl
foldl_grows n [] = omega arith
foldl_grows n (c ∷ s) = omega (arith, foldl_grows (n * 10 + (c - 48)) s)

digits_from-IsDigits :
    (n i : ℕ) (s : Bytes)
    → IsDigits s
    → foldl add_digit n s ≤ max_int64
    → digits_from n i s ≡ some (foldl add_digit n s, i + length s)
unfolding digits_from foldl
digits_from-IsDigits n i [] d h = ground arith
digits_from-IsDigits n i (c ∷ s) d h = ground (
  arith,
  digits_from-IsDigits (n * 10 + (c - 48)) (i + 1) s d.1 h,
  foldl_grows (n * 10 + (c - 48)) s,
)

-- What the loop accepts is digits up to where it stops, and the number that they stand for.
digits_from_sound :
    (n i m j : ℕ) (s : Bytes)
    → n ≤ max_int64
    → digits_from n i s ≡ some (m, j)
    → (k : ℕ) × (j ≡ i + k)
      × (k ≤ length s)
      × IsDigits (take k s)
      × (m ≡ foldl add_digit n (take k s))
      × (m ≤ max_int64)
unfolding digits_from foldl
digits_from_sound n i m j [] b e = (0, ground arith, omega arith, tt, ground arith, ground arith)
digits_from_sound n i m j (c ∷ s) b e = elim (Bool-cases (is_digit c)) [
  | inr other ↦ (0, ground arith, omega arith, tt, ground arith, ground arith)
  | inl digit ↦ elim (Bool-cases (ltb (max_int64 / 10) n)) [
    | inl large ↦ absurd (ground arith)
    | inr fits ↦ elim (Bool-cases (ltb (max_int64 - (c - b'0')) (n * 10))) [
      | inl large ↦ absurd (ground arith)
      | inr room ↦
          let (k, ej, ek, ds, em, bound) =
            digits_from_sound (n * 10 + (c - b'0')) (i + 1) m j s (ground arith) (ground arith) in
          (suc k, omega arith, omega arith, (digit, ds), em, bound)
    ]
  ]
]

-- parse_uint accepts exactly the texts of at least one digit whose number fits an int64_t, and
-- gives that number.
pub parse_uint_iff :
    (s : Bytes) (n : ℕ)
    → (parse_uint s ≡ some n) ↔ ((s ≢ []) × IsDigits s × (of_decimal s ≡ n) × (n ≤ max_int64))
unfolding parse_uint parse_uint_digits
parse_uint_iff s n = (
  (λ e. elim (Option-cases (digits_from 0 0 s)) [
    | inl stop ↦ absurd (ground arith)
    | inr ((m, j), found) ↦
        let (k, ej, ek, ds, em, bound) = digits_from_sound 0 0 m j s (omega arith) found in
        let full : k ≡ length s = ground (arith, found) in
        let whole : take k s ≡ s = take_all k s (omega arith) in
        let same : m ≡ n = ground (arith, found) in
        (
          (λ z. absurd (ground (arith, found, ap (λ (u : Bytes). length u) z))),
          rw whole at ds,
          sym (rw whole at em) ∙ same,
          omega arith,
        )
  ]),
  λ (ne, ds, e, fits).
      let run = digits_from-IsDigits 0 0 s ds (omega arith) in ground (arith, run, length_pos s ne),
)

-- A printed number in the range of an int64_t is read back.
pub parse_uint-to_decimal : (n : ℕ) → n ≤ max_int64 → parse_uint (to_decimal n) ≡ some n
parse_uint-to_decimal n h =
    (parse_uint_iff (to_decimal n) n).1
      (to_decimal-ne-nil n, to_decimal-IsDigits n, of_decimal-to_decimal n, h)

-- A number with a unit is never above the range, whatever the text and its unit.
pub parse_uint_with_unit-le : (s : Bytes) (n : ℕ) → parse_uint_with_unit s ≡ some n → n ≤ max_int64
unfolding parse_uint_with_unit parse_uint_digits unit_of times_unit
parse_uint_with_unit-le s n e = elim (Option-cases (digits_from 0 0 s)) [
  | inl stop ↦ absurd (ground (arith, stop))
  | inr ((m, j), found) ↦
      let (k, ej, ek, ds, em, bound) = digits_from_sound 0 0 m j s (omega arith) found in
      ground (arith, found)
]
