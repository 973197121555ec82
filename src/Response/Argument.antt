-- ===== src/Response/Argument.antt =====
-- Argument of H2Server_Response.h: the text that takes the place of a placeholder.
pub mod Substring
pub mod Uuid
use maock.Prelude.{
  ℕ, zero, suc, ◌+◌, ◌-◌, ◌<◌, Bool, true, false, not, ◌&&◌, ◌||◌, Option, none, some, List, [],
  ◌∷◌, ◌++◌, ltb, if◌then◌else◌, length,
}
use maock.Prelude.Int.{ℤ, pos, negsuc}
use maock.Prelude.Partial.{◌>>=◌}
use maock.Bytes.{Bytes, codes, is_empty, eqb, substr}
use maock.Response.Pointer.{Json, get_value_from_json_ptr}
use maock.Message
use maock.Message.{Message, values}

pub data ValueType : Type 0 where
  val_invalid val_random_hex val_timestamp val_uuid val_raw_payload : ValueType

pub record SchemaArgument : Type 0 where
  pub type_of_value : Bytes
  pub value_identifier : Bytes
  pub substring_start : ℤ
  pub substring_length : ℤ
  pub regex : Bytes

-- `reg_exp` is compiled from `regex`.
pub record Argument : Type 0 where
  pub json_pointer : Bytes
  pub header_name : Bytes
  pub substring_start : ℤ
  pub substring_length : ℤ
  pub regex : Bytes
  pub regex_present : Bool
  pub val_type : ValueType

abbrev plain_argument : SchemaArgument → Argument
plain_argument a = record {
  json_pointer = [];
  header_name = [];
  substring_start = a.substring_start;
  substring_length = a.substring_length;
  regex = a.regex;
  regex_present = not (is_empty a.regex);
  val_type = val_invalid;
}

-- The constructor.
unfoldable pub new_argument : SchemaArgument → Argument
unfolding eqb
new_argument a =
    let plain = plain_argument a in
    if eqb a.type_of_value (codes "JsonPointer")
    then record plain { json_pointer = a.value_identifier }
    else if eqb a.type_of_value (codes "Header")
    then record plain { header_name = a.value_identifier }
    else if eqb a.type_of_value (codes "Pseudo-UUID")
    then record plain { val_type = val_uuid }
    else if eqb a.type_of_value (codes "RandomHex")
    then record plain { val_type = val_random_hex }
    else if eqb a.type_of_value (codes "TimeStamp")
    then record plain { val_type = val_timestamp }
    else if eqb a.type_of_value (codes "RawPayload")
    then record plain { val_type = val_raw_payload }
    else plain

-- A digit of a stream in std::hex
abbrev pub hex_digit : ℕ → ℕ
hex_digit d = if ltb d 10 then 48 + d else 87 + d

-- `n` draws of the distribution from 0 to 15, from the `k`-th on, each written as a digit
unfoldable pub hex_draws : (ℕ → ℕ) → ℕ → ℕ → Bytes
hex_draws dis k zero = []
hex_draws dis k (suc n) = hex_digit (dis k) ∷ hex_draws dis (k + 1) n

-- generate_uuid_v4, from the draws of the two distributions
unfoldable pub generate_uuid_v4 : (ℕ → ℕ) → ℕ → Bytes
unfolding hex_draws
generate_uuid_v4 dis dis2 =
    hex_draws dis 0 8
    ++ (codes "-"
        ++ (hex_draws dis 8 4
            ++ (codes "-4"
                ++ (hex_draws dis 12 3
                    ++ (codes "-"
                        ++ (hex_digit dis2
                            ∷ (hex_draws dis 15 3 ++ (codes "-" ++ hex_draws dis 18 12))))))))

-- What one evaluation draws or reads from outside: the time as std::put_time writes it, and the
-- numbers of the generators.
pub record Outside : Type 0 where
  pub timestamp : Bytes
  pub dis : ℕ → ℕ
  pub dis2 : ℕ

-- The switch over val_type.
unfoldable pub generated_value : ValueType → Outside → Bytes → Bytes
unfolding generate_uuid_v4
generated_value val_timestamp o payload = o.timestamp
generated_value val_random_hex o payload = hex_digit (o.dis 0) ∷ []
generated_value val_uuid o payload = generate_uuid_v4 o.dis o.dis2
generated_value val_raw_payload o payload = payload
generated_value val_invalid o payload = []

-- substring_length as the count of `substr`: a negative number is a huge `size_t`.
abbrev pub count_of : ℤ → Bytes → ℕ
count_of (pos n) s = n
count_of (negsuc n) s = length s

abbrev pub is_minus_one : ℤ → Bool
is_minus_one (negsuc zero) = true
is_minus_one _ = false

-- The last test of getValue. A negative start is a huge `size_t` in `substring_start < size()`.
unfoldable pub apply_substring : ℤ → ℤ → Bytes → Bytes
apply_substring (negsuc n) count s = s
apply_substring (pos start) count s =
    if (ltb 0 start || not (is_minus_one count)) && ltb start (length s)
    then substr s start (count_of count s)
    else s

-- std::regex_search of the library: the expression and the text, to the first match.
module _ (search : Bytes → Bytes → Option Bytes) where
  unfoldable pub apply_regex : Argument → Bytes → Bytes
  apply_regex a s =
      if a.regex_present then elim (search a.regex s) [ some m ↦ m | none ↦ [] ] else s

  unfoldable pub finish_value : Argument → Bytes → Bytes
  unfolding apply_regex apply_substring
  finish_value a s = apply_substring a.substring_start a.substring_length (apply_regex a s)

  -- The first header value, if the argument names a header that is there.
  abbrev pub header_value : Argument → List (Bytes × Bytes) → Option Bytes
  header_value a headers =
      if is_empty a.header_name
      then none
      else elim (values a.header_name headers) [ [] ↦ none | v ∷ vs ↦ some v ]

  module _ (json : Json) where
    -- getValue: the value, and the request, whose payload may have been decoded.
    unfoldable pub get_value : Argument → Outside → Message json → Option (Bytes × Message json)
    unfolding get_value_from_json_ptr finish_value generated_value values
        Message.decode_json_if_not_yet
    get_value a o m =
        if not (is_empty a.json_pointer)
        then (get_value_from_json_ptr json (Message.decode_json_if_not_yet json m).json_payload
              a.json_pointer
            >>= λ s. some (finish_value a s, Message.decode_json_if_not_yet json m))
        else some (
          finish_value a (elim (header_value a m.headers) [
            | some v ↦ v
            | none ↦ generated_value a.val_type o m.raw_payload
          ]),
          m,
        )
