-- ===== src/Base64/RoundTrip.antt =====
-- base64.h: encode and decode together.
use maock.Prelude.{
  ℕ, ◌+◌, ◌*◌, ◌/◌, ◌%◌, ◌^◌, ◌<◌, ◌≡◌, refl, ap, ◌∙◌, Bool, true, false, Option, none, some, [],
  ◌∷◌, arith, ◌==◌, all_below, all_below_sound, length,
}
use maock.Bytes.{Bytes, IsBytes, is_empty}
use maock.Base64.{
  b64_char, b64_index, letter, encode, encode_length, byte_at, decode_fourth, decode_third,
  decode_groups, decode,
}

abbrev is_some_of : Option ℕ → ℕ → Bool
is_some_of none v = false
is_some_of (some i) v = i == v

index_table : all_below 64 (λ v. is_some_of (b64_index (b64_char v)) v) ≡ true
unfolding all_below b64_index
index_table = refl

is_some_of_iff : (o : Option ℕ) (v : ℕ) → is_some_of o v ≡ true → o ≡ some v
is_some_of_iff none v h = cc
is_some_of_iff (some i) v h = ground arith

b64_index-letter : (n k : ℕ) → b64_index (letter n k) ≡ some (n / 2 ^ k % 64)
b64_index-letter n k =
    let v = n / 2 ^ k % 64 in
    is_some_of_iff _ v
      (all_below_sound 64 (λ v. is_some_of (b64_index (b64_char v)) v) v index_table (omega arith))

length-encode : (s : Bytes) → length (encode s) ≡ encode_length (length s)
unfolding encode
length-encode [] = refl
length-encode (a ∷ []) = refl
length-encode (a ∷ b ∷ []) = refl
length-encode (a ∷ b ∷ c ∷ s) = omega (arith, length-encode s)

-- A group of four letters is three bytes of their sum.
decode_third_letters :
    (m c d i j : ℕ) (at_end : Bool) (out : Bytes)
    → b64_index c ≡ some i
    → b64_index d ≡ some j
    → decode_third m c d at_end (some out)
      ≡ (let n = m + i * 2 ^ 6 + j in some (byte_at n 16 ∷ byte_at n 8 ∷ byte_at n 0 ∷ out))
unfolding decode_third decode_fourth
decode_third_letters m c d i j at_end out ec ed = rw (ec, decode_third) (rw (ed, decode_fourth))

-- A padded group of three letters is two bytes.
decode_third_padded :
    (m c i : ℕ)
    → b64_index c ≡ some i
    → decode_third m c b'=' true (some [])
      ≡ (let n = m + i * 2 ^ 6 in some (byte_at n 16 ∷ byte_at n 8 ∷ []))
unfolding decode_third decode_fourth b64_index
decode_third_padded m c i ec = rw (ec, decode_third)

recombine :
    (n : ℕ)
    → n < 2 ^ 24
    → n / 2 ^ 18 % 64 * 2 ^ 18 + n / 2 ^ 12 % 64 * 2 ^ 12 + n / 2 ^ 6 % 64 * 2 ^ 6 + n / 2 ^ 0 % 64
      ≡ n
recombine n h = omega arith

split_bytes :
    (a b c n : ℕ)
    → a < 256
    → b < 256
    → c < 256
    → n ≡ a * 2 ^ 16 + b * 2 ^ 8 + c
    → (byte_at n 16 ≡ a) × (byte_at n 8 ≡ b) × (byte_at n 0 ≡ c) × (n < 2 ^ 24)
split_bytes a b c n ha hb hc e = omega arith

decode_groups-encode : (s : Bytes) → IsBytes s → decode_groups (encode s) ≡ some s
unfolding encode decode_groups
decode_groups-encode [] h = refl
decode_groups-encode (a ∷ []) h =
    let n = a * 2 ^ 16 in
    rw (b64_index-letter n 18, b64_index-letter n 12)
      (unfold decode_third b64_index in
        ap (λ (v : ℕ). some (v ∷ [])) (let small = h.0 in omega arith))
decode_groups-encode (a ∷ b ∷ []) h =
    let n = a * 2 ^ 16 + b * 2 ^ 8 in
    let parts = split_bytes a b 0 n h.0 h.1.0 (omega arith) (omega arith) in
    let sum : n / 2 ^ 18 % 64 * 2 ^ 18 + n / 2 ^ 12 % 64 * 2 ^ 12 + n / 2 ^ 6 % 64 * 2 ^ 6 ≡ n =
      omega arith in
    rw (b64_index-letter n 18, b64_index-letter n 12)
      (decode_third_padded (n / 2 ^ 18 % 64 * 2 ^ 18 + n / 2 ^ 12 % 64 * 2 ^ 12) (letter n 6)
          (n / 2 ^ 6 % 64) (b64_index-letter n 6)
        ∙ rw (sum, parts.0, parts.1))
decode_groups-encode (a ∷ b ∷ c ∷ s) h =
    let n = a * 2 ^ 16 + b * 2 ^ 8 + c in
    let parts = split_bytes a b c n h.0 h.1.0 h.1.1.0 refl in
    rw (b64_index-letter n 18, b64_index-letter n 12, decode_groups-encode s h.1.1.1)
      (decode_third_letters (n / 2 ^ 18 % 64 * 2 ^ 18 + n / 2 ^ 12 % 64 * 2 ^ 12) (letter n 6)
          (letter n 0) (n / 2 ^ 6 % 64) (n / 2 ^ 0 % 64) (is_empty (encode s)) s
          (b64_index-letter n 6) (b64_index-letter n 0)
        ∙ rw (recombine n parts.3, parts.0, parts.1, parts.2))

-- Whatever the bytes, the encoded text has the length of encode_length, and decodes to the bytes.
pub decode-encode :
    (s : Bytes)
    → IsBytes s
    → (length (encode s) ≡ encode_length (length s)) × (decode (encode s) ≡ s)
unfolding decode
decode-encode s h = (
  length-encode s,
  (let whole : (length (encode s) % 4 == 0) ≡ true = ground (arith, length-encode s) in
      rw (whole, decode_groups-encode s h)),
)
