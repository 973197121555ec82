-- ===== src/Tests/Texts.antt =====
-- The texts of responses, and the utilities, on small inputs.
use mathlib.Core.List.{reverse}
use maock.Prelude.{ℕ, ◌≡◌, refl, true, false, Option, some, [], ◌∷◌, ◌++◌, map, arith}
use maock.Prelude.Int.{pos, negsuc}
use maock.Prelude.Partial.{◌>>=◌}
use maock.Bytes.{Bytes, IsBytes, codes, starts_with, find?}
use maock.Http2.Status.{expect_response_body}
use maock.Response.Tokens.{token_at, tokenize_from, tokenize_string}
use maock.Response.Argument.{Outside, new_argument}
use maock.Response.Produce.{SchemaText, Template, new_template, produce_payload}
use maock.Response.Produce.Payload.{
  weave, all_values, after_all, produce_payload-weave, weave-new_template,
}
use maock.Util.Percent.{percent_encode, percent_encode_path, percent_encode_token, percent_decode}
use maock.Util.Percent.RoundTrip.{percent_decode-percent_encode}
use maock.Util.Number.{digits_from, parse_uint_digits, unit_of, times_unit, parse_uint_with_unit}
use maock.Util.Host.Split.{join_by}
use maock.Http2.Path.{slash, clean_path}
use maock.Http2.Path.Segments.{walk}
use maock.Http2.Path.Clean.{clean_path-walk}
use maock.Tests.Matching.{json, get}

abbrev hash : Bytes
hash = codes "#"

-- A payload with one place, for the raw payload of the request.
abbrev echo : SchemaText
echo = record {
  text = codes "<#>";
  placeholder = hash;
  arguments =
      record {
        type_of_value = codes "RawPayload";
        value_identifier = [];
        substring_start = pos 0;
        substring_length = negsuc 0;
        regex = [];
      }
      ∷ [];
}

abbrev echo_template : Template
echo_template = record {
  tokens = codes "<" ∷ codes ">" ∷ [];
  arguments = map new_argument echo.arguments;
}

new_template-echo : new_template echo ≡ some echo_template
unfolding new_template tokenize_string tokenize_from token_at find? starts_with
new_template-echo = refl

abbrev search : Bytes → Bytes → Option Bytes
search e s = some s

abbrev outside : ℕ → Outside
outside k = record { timestamp = []; dis = λ i. 0; dis2 = 8 }

produce_payload-weave_example : produce_payload search json echo_template outside get ≡ (
    all_values search json (map new_argument echo.arguments) outside 0 get >>= λ vs. some (
      weave (tokenize_string echo.text echo.placeholder) vs,
      after_all search json (map new_argument echo.arguments) get,
    ))
produce_payload-weave_example =
    produce_payload-weave search json echo echo_template outside get new_template-echo

weave-new_template_example :
    weave echo_template.tokens (map (λ _. echo.placeholder) echo_template.arguments) ≡ echo.text
weave-new_template_example = weave-new_template echo echo_template new_template-echo

abbrev bytes : Bytes
bytes = 0 ∷ 37 ∷ 97 ∷ 255 ∷ []

bytes-IsBytes : IsBytes bytes
bytes-IsBytes = (omega arith, (omega arith, (omega arith, (omega arith, tt))))

percent_decode-percent_encode_example :
    (percent_decode (percent_encode bytes) ≡ bytes)
    × (percent_decode (percent_encode_path bytes) ≡ bytes)
    × (percent_decode (percent_encode_token bytes) ≡ bytes)
percent_decode-percent_encode_example = percent_decode-percent_encode bytes bytes-IsBytes

two_k : parse_uint_with_unit (codes "2k") ≡ some 2048
unfolding parse_uint_with_unit parse_uint_digits digits_from unit_of times_unit
two_k = refl

clean_path-walk_example :
    clean_path (slash ∷ join_by slash (codes "a" ∷ codes ".." ∷ codes "b" ∷ []))
    ≡ slash
      ∷ join_by slash (
          reverse (walk [] (codes "a" ∷ codes ".." ∷ codes "b" ∷ [])).0
          ++ ((walk [] (codes "a" ∷ codes ".." ∷ codes "b" ∷ [])).1 ∷ []))
clean_path-walk_example =
    clean_path-walk (codes "a") (codes ".." ∷ codes "b" ∷ [])
      ((refl, tt), ((refl, (refl, tt)), ((refl, tt), tt)))
      ((λ e. ground arith), ((λ e. ground arith), tt))

bodies :
    (expect_response_body 304 ≡ false)
    × (expect_response_body 101 ≡ true)
    × (expect_response_body 150 ≡ false)
unfolding expect_response_body
bodies = (refl, refl, refl)
