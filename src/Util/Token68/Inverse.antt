-- ===== src/Util/Token68/Inverse.antt =====
-- util.cc: to_token68 of a text of Base64, and back.
use maock.Prelude.{
  ℕ, suc, ◌+◌, ◌*◌, ◌/◌, ◌%◌, ◌^◌, ◌≡◌, refl, Bool, true, false, not, ◌&&◌, ◌||◌, [], ◌∷◌, arith,
  ◌==◌, all_below, all_below_sound, All, length,
}
use maock.Bytes.{Bytes, IsBytes}
use maock.Base64.RoundTrip.{decode-encode}
use maock.Base64.{encode_length, decode, b64_char, letter, encode}
use maock.Util.Host.{before}
use maock.Util.Token68.{token68_char, base64_char, to_token68, to_base64}

-- The characters that Base64 and a token68 share are none of these.
abbrev pub is_special : ℕ → Bool
is_special c = c == b'+' || c == b'/' || c == b'='

letters :
    all_below 64 (λ v.
      base64_char (token68_char (b64_char v)) == b64_char v
      && not (is_special (token68_char (b64_char v))))
    ≡ true
unfolding all_below
letters = refl

letter-token68_char :
    (n k : ℕ)
    → (base64_char (token68_char (letter n k)) ≡ letter n k)
      × (is_special (token68_char (letter n k)) ≡ false)
letter-token68_char n k =
    let fine =
      all_below_sound 64
        (λ v.
          base64_char (token68_char (b64_char v)) == b64_char v
          && not (is_special (token68_char (b64_char v))))
        (n / 2 ^ k % 64) letters (omega arith) in
    split (base64_char (token68_char (letter n k))) (letter n k)
      (is_special (token68_char (letter n k))) fine
  where
    split : (a b : ℕ) (c : Bool) → (a == b && not c) ≡ true → (a ≡ b) × (c ≡ false)
    split a b true h = absurd (ground (arith, h))
    split a b false h = (ground (arith, h), refl)

to_token68-letter :
    (n k : ℕ) (s : Bytes) → to_token68 (letter n k ∷ s) ≡ token68_char (letter n k) ∷ to_token68 s
unfolding to_token68 before
to_token68-letter n k s =
    let plain : (token68_char (letter n k) == b'=') ≡ false =
      not_equal (token68_char (letter n k)) (letter-token68_char n k).1 in
    rw plain refl
  where
    not_equal : (c : ℕ) → is_special c ≡ false → (c == b'=') ≡ false
    not_equal c h = ground (arith, h)

mod_four : (n : ℕ) → suc (suc (suc (suc n))) % 4 ≡ n % 4
mod_four n = omega arith

-- to_base64 undoes to_token68, whose text has none of the characters that only Base64 has.
encoded-Inverse :
    (s : Bytes)
    → (to_base64 (to_token68 (encode s)) ≡ encode s)
      × All (λ c. is_special c ≡ false) (to_token68 (encode s))
unfolding encode to_base64
encoded-Inverse [] = unfold to_token68 before in (refl, tt)
encoded-Inverse (a ∷ []) =
    let n = a * 2 ^ 16 in
    let (x, x') = letter-token68_char n 18 in
    let (y, y') = letter-token68_char n 12 in
    rw (to_token68-letter n 18, to_token68-letter n 12, x, y)
      (unfold to_token68 before in (refl, (x', (y', tt))))
encoded-Inverse (a ∷ b ∷ []) =
    let n = a * 2 ^ 16 + b * 2 ^ 8 in
    let (x, x') = letter-token68_char n 18 in
    let (y, y') = letter-token68_char n 12 in
    let (z, z') = letter-token68_char n 6 in
    rw (to_token68-letter n 18, to_token68-letter n 12, to_token68-letter n 6)
      (unfold to_token68 before in (rw (x, y, z) refl, (x', (y', (z', tt)))))
encoded-Inverse (a ∷ b ∷ c ∷ s) =
    let n = a * 2 ^ 16 + b * 2 ^ 8 + c in
    let (x, x') = letter-token68_char n 18 in
    let (y, y') = letter-token68_char n 12 in
    let (z, z') = letter-token68_char n 6 in
    let (w, w') = letter-token68_char n 0 in
    let (same, fine) = encoded-Inverse s in
    rw
      (to_token68-letter n 18, to_token68-letter n 12, to_token68-letter n 6, to_token68-letter n 0)
      (
        rw (x, y, z, w, mod_four (length (to_token68 (encode s))), same) refl,
        (x', (y', (z', (w', fine)))),
      )

-- Whatever the bytes: the Base64 of them has the length of encode_length and decodes to the bytes; its
-- token68 has no plus sign, no slash and no padding; and to_base64 of that is the Base64 again, so the
-- bytes can be read from the token68.
pub decode-to_base64 :
    (s : Bytes)
    → IsBytes s
    → (length (encode s) ≡ encode_length (length s))
      × (decode (encode s) ≡ s)
      × (to_base64 (to_token68 (encode s)) ≡ encode s)
      × (decode (to_base64 (to_token68 (encode s))) ≡ s)
      × All (λ c. is_special c ≡ false) (to_token68 (encode s))
decode-to_base64 s h =
    let (size, back) = decode-encode s h in
    let (same, fine) = encoded-Inverse s in (size, back, same, rw same back, fine)
