-- ===== src/Response/Argument/Uuid.antt =====
-- H2Server_Response.h: the shape of a generated UUID.
use maock.Prelude.{
  ℕ, zero, suc, ◌+◌, ◌≤◌, ◌<◌, ◌≡◌, refl, Bool, true, ◌&&◌, ◌||◌, Option, none, some, List, [], ◌∷◌,
  ◌++◌, arith, leb, ◌==◌, get_elem?,
}
use maock.Bytes.{Bytes, codes}
use maock.Response.Argument.{hex_digit, hex_draws, generate_uuid_v4}

-- A lower-case hexadecimal digit.
abbrev pub is_lower_hex : ℕ → Bool
is_lower_hex c = (leb b'0' c && leb c b'9') || (leb b'a' c && leb c b'f')

-- A pattern of bytes: a given one, or any digit.
abbrev pub Fits : List (Option ℕ) → Bytes → Type 0
Fits [] [] = Unit
Fits [] (c ∷ s) = ⊥
Fits (p ∷ ps) [] = ⊥
Fits (none ∷ ps) (c ∷ s) = (is_lower_hex c ≡ true) × Fits ps s
Fits (some b ∷ ps) (c ∷ s) = (c ≡ b) × Fits ps s

abbrev pub digits : ℕ → List (Option ℕ)
digits zero = []
digits (suc n) = none ∷ digits n

abbrev pub dash : List (Option ℕ)
dash = some b'-' ∷ []

-- 8-4-4-4-12 digits, the version digit 4 at the head of the third group
abbrev pub uuid_pattern : List (Option ℕ)
uuid_pattern =
    digits 8
    ++ (dash
        ++ (digits 4
            ++ (dash ++ (some b'4' ∷ (digits 3 ++ (dash ++ (digits 4 ++ (dash ++ digits 12))))))))

hex_digit-is_lower_hex : (d : ℕ) → d < 16 → is_lower_hex (hex_digit d) ≡ true
hex_digit-is_lower_hex d h = ground arith

Fits-draws :
    (dis : ℕ → ℕ) (n k : ℕ) (ps : List (Option ℕ)) (s : Bytes)
    → ((i : ℕ) → dis i < 16)
    → Fits ps s
    → Fits (digits n ++ ps) (hex_draws dis k n ++ s)
unfolding hex_draws
Fits-draws dis zero k ps s h f = f
Fits-draws dis (suc n) k ps s h f =
    (hex_digit-is_lower_hex (dis k) (h k), Fits-draws dis n (k + 1) ps s h f)

-- With draws below 16, a UUID is 36 bytes: groups of 8, 4, 4, 4 and 12 lower-case hexadecimal
-- digits with dashes between them, the third beginning with 4.
pub generate_uuid_v4-Fits :
    (dis : ℕ → ℕ) (dis2 : ℕ)
    → ((k : ℕ) → dis k < 16)
    → dis2 < 16
    → Fits uuid_pattern (generate_uuid_v4 dis dis2)
unfolding generate_uuid_v4
generate_uuid_v4-Fits dis dis2 h h2 =
    let p5 = dash ++ digits 12 in
    let s5 = codes "-" ++ hex_draws dis 18 12 in
    let p4 = dash ++ (none ∷ (digits 3 ++ p5)) in
    let s4 = codes "-" ++ (hex_digit dis2 ∷ (hex_draws dis 15 3 ++ s5)) in
    let p3 = dash ++ (some b'4' ∷ (digits 3 ++ p4)) in
    let s3 = codes "-4" ++ (hex_draws dis 12 3 ++ s4) in
    let p2 = dash ++ (digits 4 ++ p3) in
    let s2 = codes "-" ++ (hex_draws dis 8 4 ++ s3) in
    let f5 : Fits p5 s5 = (refl, Fits-draws dis 12 18 [] [] h tt) in
    let f4 : Fits p4 s4 =
      (refl, (hex_digit-is_lower_hex dis2 h2, Fits-draws dis 3 15 p5 s5 h f5)) in
    let f3 : Fits p3 s3 = (refl, (refl, Fits-draws dis 3 12 p4 s4 h f4)) in
    let f2 : Fits p2 s2 = (refl, Fits-draws dis 4 8 p3 s3 h f3) in Fits-draws dis 8 0 p2 s2 h f2

-- With the second distribution between 8 and 11, the fourth group begins with 8, 9, a or b.
pub generate_uuid_v4-variant :
    (dis : ℕ → ℕ) (dis2 : ℕ)
    → 8 ≤ dis2
    → dis2 ≤ 11
    → (c : ℕ) × (get_elem? (generate_uuid_v4 dis dis2) 19 ≡ some c)
      × ((c == b'8' || c == b'9' || c == b'a' || c == b'b') ≡ true)
unfolding generate_uuid_v4
generate_uuid_v4-variant dis dis2 lo hi = (hex_digit dis2, refl, ground arith)
