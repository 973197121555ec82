-- ===== src/Http2/Status.antt =====
-- http2.cc: status codes.
use mathlib.Core.List.{foldl}
use maock.Prelude.{
  ℕ, ◌+◌, ◌-◌, ◌*◌, ◌/◌, ◌≤◌, ◌≡◌, refl, ◌↔◌, Bool, true, not, ◌&&◌, ◌||◌, Option, none, some, [],
  ◌∷◌, arith, ltb, ◌==◌, if◌then◌else◌, All, length,
}
use maock.Bytes.{Bytes}
use maock.Bytes.Decimal.{is_digit, of_decimal}

-- The loop of parse_http_status_code; `none` is -1.
unfoldable pub status_from : ℕ → Bytes → Option ℕ
status_from n [] = some n
status_from n (c ∷ s) =
    let later = status_from (n * 10 + (c - b'0')) s in if is_digit c then later else none

unfoldable pub parse_http_status_code : Bytes → Option ℕ
unfolding status_from
parse_http_status_code src =
    if length src == 3
    then elim (status_from 0 src) [ none ↦ none | some n ↦ if ltb n 100 then none else some n ]
    else none

-- expect_response_body of a status code
unfoldable pub expect_response_body : ℕ → Bool
expect_response_body code =
    code == 101 || (not (code / 100 == 1) && not (code == 304) && not (code == 204))

-- A status code is read exactly from three digits whose number is from 100 to 999, and is that
-- number.
pub parse_http_status_code_iff :
    (s : Bytes) (n : ℕ)
    → (parse_http_status_code s ≡ some n) ↔ (
        (length s ≡ 3)
        × All (λ c. is_digit c ≡ true) s
        × (of_decimal s ≡ n)
        × (100 ≤ n)
        × (n ≤ 999))
unfolding parse_http_status_code foldl
parse_http_status_code_iff [] n = (λ e. absurd (ground arith), λ h. absurd (ground (arith, h.0)))
parse_http_status_code_iff (a ∷ []) n =
    (λ e. absurd (ground arith), λ h. absurd (ground (arith, h.0)))
parse_http_status_code_iff (a ∷ b ∷ []) n =
    (λ e. absurd (ground arith), λ h. absurd (ground (arith, h.0)))
parse_http_status_code_iff (a ∷ b ∷ c ∷ []) n = (
  λ e. (
    refl,
    (ground arith, (ground arith, (ground arith, tt))),
    ground arith,
    ground arith,
    ground arith,
  ),
  λ (l, (da, (db, (dc, u))), e, lo, hi). ground (arith, da, db, dc, e, lo),
)
parse_http_status_code_iff (a ∷ b ∷ c ∷ d ∷ s) n =
    (λ e. absurd (ground arith), λ h. absurd (omega (arith, h.0)))
