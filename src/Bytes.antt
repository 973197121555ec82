-- ===== src/Bytes.antt =====
-- The parts of `std::string` and `StringRef` that the program uses: comparison, search and
-- slices, over lists of byte values.
pub mod Find
pub mod Order
pub mod Decimal
use Prim.Native.Char.{code}
use Prim.Native.String.{String}
use maock.Prelude.{
  ℕ, suc, ◌<◌, Bool, true, false, ◌&&◌, Option, none, some, List, [], ◌∷◌, ltb, ◌==◌, if◌then◌else◌,
  All, take, drop,
}

abbrev pub Bytes : Type 0
Bytes = List ℕ

abbrev pub IsBytes : Bytes → Type 0
IsBytes = All (λ c. c < 256)

-- The code points of a literal: its bytes, as every literal of the program is ASCII.
abbrev pub codes : String → Bytes
codes String.[] = []
codes (String.◌∷◌ c s) = code c ∷ codes s

abbrev pub is_empty : Bytes → Bool
is_empty [] = true
is_empty (_ ∷ _) = false

-- operator== of two strings
unfoldable pub eqb : Bytes → Bytes → Bool
eqb [] [] = true
eqb (x ∷ xs) (y ∷ ys) = x == y && eqb xs ys
eqb _ _ = false

-- `t` is a prefix of `s`: std::equal after the test of the lengths
unfoldable pub starts_with : Bytes → Bytes → Bool
starts_with s [] = true
starts_with [] (y ∷ ys) = false
starts_with (x ∷ xs) (y ∷ ys) = x == y && starts_with xs ys

-- std::string::find from the start: the first position where `t` occurs
unfoldable pub find? : Bytes → Bytes → Option ℕ
unfolding starts_with
find? [] t = if starts_with [] t then some 0 else none
find? (c ∷ s) t =
    let later = find? s t in
    if starts_with (c ∷ s) t then some 0 else elim later [ none ↦ none | some i ↦ some (suc i) ]

-- operator< of two strings: lexicographic, by unsigned bytes
unfoldable pub lex_lt : Bytes → Bytes → Bool
lex_lt _ [] = false
lex_lt [] (_ ∷ _) = true
lex_lt (x ∷ xs) (y ∷ ys) =
    let later = lex_lt xs ys in if ltb x y then true else if ltb y x then false else later

-- substr(from, n)
abbrev pub substr : Bytes → ℕ → ℕ → Bytes
substr s from n = take n (drop from s)
