-- ===== src/Response/Pointer.antt =====
-- H2Server_Response.h, lines 65 to 275: extended JSON pointers, and the value that one selects.
-- An extended pointer mixes plain pointers with parts `/~#N#name` and `/~#N#value`, which select
-- the N-th member of an object. The documents are those of the RapidJSON library, a parameter.
pub mod Split
pub mod Member
use mathlib.Core.List.{reverse}
use maock.Prelude.{
  ℕ, zero, suc, ◌+◌, ◌-◌, ◌/◌, Bool, true, false, Option, none, some, List, [], ◌∷◌, ◌++◌, ltb,
  ◌==◌, if◌then◌else◌, length, take, drop,
}
use maock.Prelude.Int.{ℤ, pos, negsuc}
use maock.Prelude.Partial.{◌>>=◌}
use maock.Bytes.{Bytes, codes, eqb, find?}
use maock.Bytes.Decimal.{to_decimal, stoi, to_string}

-- What convertRapidVJsonValueToStr can see of a value: the first of its tests that holds, with
-- what the library returns for it.
pub data View : Type 0 where
  text : Bytes → View
  boolean : Bool → View
  uint64 : ℕ → View
  double : Bytes → View
  object : Bytes → View
  other : View

-- The library: documents, its pointers and the members of an object. `members` is `none` where
-- the library's assertion that the value is an object fails.
pub record Json : Type 1 where
  pub Value : Type 0
  pub null_document : Value
  pub parse : Bytes → Value
  pub pointer_get : Bytes → Value → Option Value
  pub members : Value → Option (List (Value × Value))
  pub view : Value → View

abbrev pub indicator : Bytes
indicator = codes "/~#"

-- The part that begins with an indicator ends before its next slash, at `found` behind the
-- first byte; the rest is the text from nextJsonPtrPos on, if there is such a slash.
unfoldable pub cut_special : Bytes → Option ℕ → List Bytes × Option Bytes
cut_special special none = (special ∷ [], none)
cut_special special (some j) = (take (suc j) special ∷ [], some (drop (suc j) special))

-- What stands before the indicator, if anything does: `if (end_pos - start_pos)`.
abbrev pub plain_part : Bytes → ℕ → List Bytes
plain_part start zero = []
plain_part start (suc i) = take (suc i) start ∷ []

-- One round of the loop, with the end_pos that it found: the parts that it appends, and what is
-- left from start_pos on.
unfoldable pub split_round : Bytes → Option ℕ → List Bytes × Option Bytes
unfolding cut_special find?
split_round start none = (start ∷ [], none)
split_round start (some i) =
    let special = drop i start in
    let (parts, rest) = cut_special special (find? (drop 1 special) (codes "/")) in
    (plain_part start i ++ parts, rest)

abbrev pub resume : (Bytes → List Bytes) → Option Bytes → List Bytes
resume again none = []
resume again (some rest) = again rest

-- The `while` loop.
unfoldable pub split_from : ℕ → Bytes → List Bytes
unfolding split_round find?
split_from zero start = []
split_from (suc fuel) start =
    let (parts, left) = split_round start (find? start indicator) in
    parts ++ resume (split_from fuel) left

unfoldable pub split_complex_json_pointer : Bytes → List Bytes
unfolding split_from
split_complex_json_pointer s = split_from (suc (length s)) s

-- getNthValue and getNthName: the loops over the members, in one text over what they return.
module _ {ℓ κ} {A : Type ℓ} {B : Type κ} (pick : A → B) where
  -- from MemberBegin up, `index` counts from 1
  unfoldable pub nth_forward : ℕ → ℕ → List A → Option B
  nth_forward index n [] = none
  nth_forward index n (x ∷ xs) =
      let later = nth_forward (index + 1) n xs in if index == n then some (pick x) else later

  -- from the last member down to the second; `k` stands for index -(k + 1)
  unfoldable pub nth_backward : ℕ → ℕ → List A → Option B
  nth_backward k m [] = none
  nth_backward k m (x ∷ []) = none
  nth_backward k m (x ∷ y ∷ xs) =
      let later = nth_backward (k + 1) m (y ∷ xs) in if k == m then some (pick x) else later

  unfoldable pub get_nth : List A → ℤ → Option B
  unfolding nth_forward nth_backward
  get_nth [] n = none
  get_nth (x ∷ xs) (pos n) = if ltb 0 n then nth_forward 1 n (x ∷ xs) else none
  get_nth (x ∷ xs) (negsuc m) =
      if m + 1 == length (x ∷ xs) then some (pick x) else nth_backward 0 m (reverse (x ∷ xs))

-- std::string from a `const char*`: up to the first NUL
unfoldable pub c_str : Bytes → Bytes
c_str [] = []
c_str (c ∷ s) = let later = c_str s in if c == 0 then [] else c ∷ later

unfoldable pub show_view : View → Bytes
unfolding c_str to_decimal
show_view (text s) = c_str s
show_view (boolean b) = if b then codes "true" else codes "false"
show_view (uint64 n) = to_decimal n
show_view (double s) = s
show_view (object s) = c_str s
show_view other = []

module _ (json : Json) where
  open json use {Value, pointer_get, members, view}

  unfoldable pub convert_json_value_to_str : Option Value → Bytes
  unfolding show_view
  convert_json_value_to_str none = []
  convert_json_value_to_str (some v) = show_view (view v)

  -- What one part of the pointer does: stop with a name, or go on from a value or from nothing.
  pub data Step : Type 0 where
    stop : Option Value → Step
    go : Option Value → Step

  -- What follows the number: `#name` ends the walk, `#value` goes on, and anything else is
  -- reported and skipped. `none` is the exception of `substr`.
  unfoldable pub member_step : Bytes → Value → ℤ → Option Step
  unfolding to_string eqb get_nth
  member_step part v index =
      let str = indicator ++ to_string index in
      let name_or_value = drop (length str) part in
      if ltb (length part) (length str)
      then none
      else if eqb name_or_value (codes "#name")
      then (members v >>= λ ms. some (stop (get_nth (λ m. m.0) ms index)))
      else if eqb name_or_value (codes "#value")
      then (members v >>= λ ms. some (go (get_nth (λ m. m.1) ms index)))
      else some (go (some v))

  -- `part` holds the indicator; `none` is also exit(1) where no number follows it.
  unfoldable pub special_step : Bytes → Value → Option Step
  unfolding stoi member_step
  special_step part v = stoi (drop 3 part) >>= member_step part v

  unfoldable pub pointer_step : Bytes → Value → Option Step
  unfolding special_step find?
  pointer_step part v = elim (find? part indicator) [
    | some i ↦ special_step part v
    | none ↦ some (go (pointer_get (c_str part) v))
  ]

  unfoldable pub follow : List Bytes → Value → Option (Option Value)
  unfolding pointer_step
  follow [] v = some (some v)
  follow (part ∷ parts) v =
      let again = λ (w : Value). follow parts w in
      elim (pointer_step part v) [
        | none ↦ none
        | some s ↦ elim s [
          | stop w ↦ some w
          | go w ↦ elim w [ none ↦ some none | some u ↦ again u ]
        ]
      ]

  unfoldable pub get_value_from_json_ptr : Value → Bytes → Option Bytes
  unfolding follow split_complex_json_pointer convert_json_value_to_str
  get_value_from_json_ptr d pointer = do
    found ← follow (split_complex_json_pointer pointer) d
    some (convert_json_value_to_str found)
