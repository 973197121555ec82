-- ===== src/Http2/Path/Normal/Decoded.antt =====
-- http2.cc: what normalize_path makes of the percent codes of a path.
use maock.Prelude.{
  ℕ, ◌+◌, ◌*◌, ◌<◌, ◌≡◌, refl, sym, ap, ◌∙◌, inl, inr, Bool, true, false, ◌&&◌, ◌||◌, [], ◌∷◌,
  arith, ltb, ◌==◌, if◌then◌else◌, Bool-cases, length,
}
use maock.Bytes.{Bytes}
use maock.Util.Hex.{between, is_hex_digit, hex_to_uint, upcase}
use maock.Util.Percent.{in_rfc3986_unreserved_chars, percent_decode}
use maock.Util.Percent.RoundTrip.{percent_decode_plain, not_percent}
use maock.Http2.Path.{path_join}
use maock.Http2.Path.Normal.{
  decode_kept, has_percent, normalize_with, normalize_path, keeps_colon, normalize_path_colon,
}

-- A text in which each percent sign begins a code of two hexadecimal digits.
pub data IsEncoded : Bytes → Type 0 where
  done : IsEncoded []
  plain : (c : ℕ) (s : Bytes) → (c == b'%') ≡ false → IsEncoded s → IsEncoded (c ∷ s)
  coded :
      (c d e : ℕ) (s : Bytes)
      → c ≡ b'%'
      → (is_hex_digit d && is_hex_digit e) ≡ true
      → IsEncoded s
      → IsEncoded (c ∷ d ∷ e ∷ s)

-- A digit of a hexadecimal number that is not a lower case letter.
abbrev is_upper_digit : ℕ → Bool
is_upper_digit d = between b'0' b'9' d || between b'A' b'F' d

-- A text in which each percent sign begins a code of two digits, none a lower case letter, of a
-- character that `keep` does not name.
pub data IsNormal (keep : ℕ → Bool) : Bytes → Type 0 where
  done : IsNormal keep []
  plain : (c : ℕ) (s : Bytes) → (c == b'%') ≡ false → IsNormal keep s → IsNormal keep (c ∷ s)
  coded :
      (d e : ℕ) (s : Bytes)
      → (is_upper_digit d && is_upper_digit e) ≡ true
      → keep (hex_to_uint d * 16 + hex_to_uint e) ≡ false
      → IsNormal keep s
      → IsNormal keep (b'%' ∷ d ∷ e ∷ s)

hex_lt : (d : ℕ) → is_hex_digit d ≡ true → hex_to_uint d < 16
unfolding hex_to_uint
hex_lt d h = ground arith

hex_upcase :
    (d : ℕ)
    → is_hex_digit d ≡ true
    → (hex_to_uint (upcase d) ≡ hex_to_uint d)
      × (is_hex_digit (upcase d) ≡ true)
      × (is_upper_digit (upcase d) ≡ true)
unfolding hex_to_uint upcase
hex_upcase d h = ground arith

module _ (keep : ℕ → Bool) (no_percent : keep b'%' ≡ false) where
  decode_kept_plain :
      (c : ℕ) (s : Bytes) → (c == b'%') ≡ false → decode_kept keep (c ∷ s) ≡ c ∷ decode_kept keep s
  unfolding decode_kept
  decode_kept_plain c [] h = refl
  decode_kept_plain c (d ∷ []) h = refl
  decode_kept_plain c (d ∷ e ∷ s) h = rw h refl

  abbrev code : ℕ → ℕ → ℕ
  code d e = hex_to_uint d * 16 + hex_to_uint e

  decode_kept_coded :
      (d e : ℕ) (s : Bytes)
      → (is_hex_digit d && is_hex_digit e) ≡ true
      → decode_kept keep (b'%' ∷ d ∷ e ∷ s) ≡ (
          if keep (code d e)
          then code d e ∷ decode_kept keep s
          else b'%' ∷ upcase d ∷ upcase e ∷ decode_kept keep s)
  unfolding decode_kept
  decode_kept_coded d e s h = rw h refl

  percent_decode-code :
      (d e : ℕ) (s : Bytes)
      → (is_hex_digit d && is_hex_digit e) ≡ true
      → percent_decode (b'%' ∷ d ∷ e ∷ s) ≡ code d e ∷ percent_decode s
  unfolding percent_decode
  percent_decode-code d e s h =
      let hi = hex_lt d (ground (arith, h)) in
      let lo = hex_lt e (ground (arith, h)) in
      rw h (ap (λ (n : ℕ). n ∷ percent_decode s) (omega (arith, hi, lo)))

  both_upcase :
      (d e : ℕ)
      → (is_hex_digit d && is_hex_digit e) ≡ true
      → ((is_hex_digit (upcase d) && is_hex_digit (upcase e)) ≡ true)
        × (code (upcase d) (upcase e) ≡ code d e)
        × ((is_upper_digit (upcase d) && is_upper_digit (upcase e)) ≡ true)
  both_upcase d e h =
      let a = hex_upcase d (ground (arith, h)) in
      let b = hex_upcase e (ground (arith, h)) in
      (rw (a.1, b.1) refl, rw (a.0, b.0) refl, rw (a.2, b.2) refl)

  -- What decode_kept must do to a text.
  abbrev Normal : Bytes → Bytes → Type 0
  Normal s t = (percent_decode t ≡ percent_decode s) × IsNormal keep t

  decode_kept-Normal : {s : Bytes} → IsEncoded s → Normal s (decode_kept keep s)
  decode_kept-Normal done = unfold decode_kept in (refl, done)
  decode_kept-Normal (plain c s h enc) =
      let (same, fine) = decode_kept-Normal enc in
      rw (decode_kept_plain c s h) (
        percent_decode_plain c (decode_kept keep s) h
            ∙ ap (λ t. c ∷ t) same
            ∙ sym (percent_decode_plain c s h),
        plain c (decode_kept keep s) h fine,
      )
  decode_kept-Normal (coded c d e s is h enc) =
      let (same, fine) = decode_kept-Normal enc in
      let t = decode_kept keep s in
      let (hex, value, up) = both_upcase d e h in
      rw (is, decode_kept_coded d e s h)
        (elim (Bool-cases (keep (code d e))) [
          | inl k ↦
              let other = not_percent keep (code d e) no_percent k in
              rw k (
                percent_decode_plain (code d e) t other
                    ∙ ap (λ t. code d e ∷ t) same
                    ∙ sym (percent_decode-code d e s h),
                plain (code d e) t other fine,
              )
          | inr k ↦ rw k (
            percent_decode-code (upcase d) (upcase e) t hex
                ∙ rw (value, same) refl
                ∙ sym (percent_decode-code d e s h),
            coded (upcase d) (upcase e) t up (rw value k) fine,
          )
        ])

  decode_kept-no_percent : (s : Bytes) → has_percent s ≡ false → decode_kept keep s ≡ s
  decode_kept-no_percent [] h = unfold decode_kept in refl
  decode_kept-no_percent (c ∷ s) h =
      decode_kept_plain c s (ground (arith, h))
      ∙ ap (λ t. c ∷ t) (decode_kept-no_percent s (ground (arith, h)))

  decode_kept-short : (s : Bytes) → ltb (length s) 3 ≡ true → decode_kept keep s ≡ s
  unfolding decode_kept
  decode_kept-short [] h = refl
  decode_kept-short (c ∷ []) h = refl
  decode_kept-short (c ∷ d ∷ []) h = refl
  decode_kept-short (c ∷ d ∷ e ∷ s) h = absurd (ground (arith, h))

  normalize_with-decode_kept :
      (path query : Bytes)
      → normalize_with keep path query ≡ path_join [] [] (decode_kept keep path) query
  unfolding normalize_with
  normalize_with-decode_kept path query = elim (Bool-cases (ltb (length path) 3)) [
    | inl t ↦ rw (t, decode_kept-short path t) refl
    | inr f ↦ elim (Bool-cases (has_percent path)) [
      | inl p ↦ rw (f, p) refl
      | inr n ↦ rw (f, n, decode_kept-no_percent path n) refl
    ]
  ]

-- For every path in which each percent sign begins a code of two hexadecimal digits, and every query,
-- normalize_path is path_join of a path that percent_decode decodes to the same text, and in which each
-- percent sign begins a code of two digits, none a lower case letter, of a character that is not
-- unreserved. So is normalize_path_colon, where a colon counts as unreserved.
pub normalize_path-Normal :
    (path query : Bytes)
    → IsEncoded path
    → ((t : Bytes) × (normalize_path path query ≡ path_join [] [] t query)
        × (percent_decode t ≡ percent_decode path)
        × IsNormal in_rfc3986_unreserved_chars t)
      × ((t : Bytes) × (normalize_path_colon path query ≡ path_join [] [] t query)
          × (percent_decode t ≡ percent_decode path)
          × IsNormal keeps_colon t)
unfolding normalize_path normalize_path_colon in_rfc3986_unreserved_chars
normalize_path-Normal path query h =
    let (same, fine) = decode_kept-Normal in_rfc3986_unreserved_chars refl h in
    let (same', fine') = decode_kept-Normal keeps_colon refl h in
    (
      (
        decode_kept in_rfc3986_unreserved_chars path,
        normalize_with-decode_kept in_rfc3986_unreserved_chars refl path query,
        same,
        fine,
      ),
      (
        decode_kept keeps_colon path,
        normalize_with-decode_kept keeps_colon refl path query,
        same',
        fine',
      ),
    )
