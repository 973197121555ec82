-- ===== src/Util/Percent/RoundTrip.antt =====
-- util.cc: the percent encoders and the decoder together.
use maock.Prelude.{
  ℕ, ◌/◌, ◌%◌, ◌<◌, ◌≡◌, refl, ap, ◌∙◌, inl, inr, Bool, true, false, ◌||◌, [], ◌∷◌, arith, ◌==◌,
  Bool-cases, All,
}
use maock.Bytes.{Bytes, IsBytes}
use maock.Util.Hex.{upper_xdigit, is_hex_digit}
use maock.Util.Hex.RoundTrip.{hex_to_uint-xdigit}
use maock.Util.Percent.{
  encode_with, keeps_path, percent_encode, percent_encode_path, percent_encode_token,
  percent_decode,
}

pub percent_decode_plain :
    (c : ℕ) (s : Bytes) → (c == b'%') ≡ false → percent_decode (c ∷ s) ≡ c ∷ percent_decode s
unfolding percent_decode
percent_decode_plain c [] h = refl
percent_decode_plain c (d ∷ []) h = refl
percent_decode_plain c (d ∷ e ∷ s) h = rw h

percent_decode_coded :
    (c : ℕ) (s : Bytes)
    → c < 256
    → percent_decode (b'%' ∷ upper_xdigit (c / 16) ∷ upper_xdigit (c % 16) ∷ s)
      ≡ c ∷ percent_decode s
unfolding percent_decode
percent_decode_coded c s h =
    let hi = hex_to_uint-xdigit (c / 16) (omega arith) in
    let lo = hex_to_uint-xdigit (c % 16) (omega arith) in
    rw (hi.3, lo.3, hi.1, lo.1) (ap (λ (n : ℕ). n ∷ percent_decode s) (omega arith))

pub not_percent :
    (keep : ℕ → Bool) (c : ℕ) → keep b'%' ≡ false → keep c ≡ true → (c == b'%') ≡ false
not_percent keep c k kept = elim (Bool-cases (c == b'%')) [
  | inl same ↦ let e : c ≡ b'%' = ground arith in cc (ap keep e)
  | inr other ↦ other
]

-- An encoder that does not keep `%` can be undone.
percent_decode-encode_with :
    (keep : ℕ → Bool) (s : Bytes)
    → keep b'%' ≡ false
    → IsBytes s
    → percent_decode (encode_with keep s) ≡ s
unfolding encode_with
percent_decode-encode_with keep [] k h = unfold percent_decode in refl
percent_decode-encode_with keep (c ∷ s) k h = elim (Bool-cases (keep c)) [
  | inl kept ↦ rw kept (
      percent_decode_plain c (encode_with keep s) (not_percent keep c k kept)
      ∙ ap (λ (u : Bytes). c ∷ u) (percent_decode-encode_with keep s k h.1))
  | inr coded ↦ rw coded (
      percent_decode_coded c (encode_with keep s) h.0
      ∙ ap (λ (u : Bytes). c ∷ u) (percent_decode-encode_with keep s k h.1))
]

-- Each of the three encoders is undone by percent_decode, whatever the bytes.
pub percent_decode-percent_encode :
    (s : Bytes)
    → IsBytes s
    → (percent_decode (percent_encode s) ≡ s)
      × (percent_decode (percent_encode_path s) ≡ s)
      × (percent_decode (percent_encode_token s) ≡ s)
unfolding percent_encode percent_encode_path percent_encode_token
percent_decode-percent_encode s h = (
  percent_decode-encode_with _ s refl h,
  percent_decode-encode_with _ s refl h,
  percent_decode-encode_with _ s refl h,
)

-- Every byte of the encoded path is one that a path may hold, a `%`, or an upper-case digit.
abbrev pub is_path_byte : ℕ → Bool
is_path_byte c = keeps_path c || (c == b'%' || is_hex_digit c)

encode_with-clean :
    (s : Bytes) → IsBytes s → All (λ c. is_path_byte c ≡ true) (encode_with keeps_path s)
unfolding encode_with
encode_with-clean [] h = tt
encode_with-clean (c ∷ s) h = elim (Bool-cases (keeps_path c)) [
  | inl kept ↦ rw kept (ground (arith, kept), encode_with-clean s h.1)
  | inr coded ↦
      let hi = hex_to_uint-xdigit (c / 16) (omega arith) in
      let lo = hex_to_uint-xdigit (c % 16) (omega arith) in
      rw coded
        (ground arith, (ground (arith, hi.3), (ground (arith, lo.3), encode_with-clean s h.1)))
]

-- Whatever the bytes, an encoded path holds only bytes that a URI path may hold.
pub percent_encode_path-clean :
    (s : Bytes) → IsBytes s → All (λ c. is_path_byte c ≡ true) (percent_encode_path s)
unfolding percent_encode_path
percent_encode_path-clean s h = encode_with-clean s h
