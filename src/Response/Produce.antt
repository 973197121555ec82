-- ===== src/Response/Produce.antt =====
-- H2Server_Response of H2Server_Response.h: the checked configuration of a response, and the
-- payload and headers that are made of it for a request. The Lua step is not modelled.
pub mod Payload
use maock.Prelude.{
  ℕ, suc, ◌+◌, Bool, false, not, ◌&&◌, ◌||◌, Option, none, some, List, [], ◌∷◌, ◌++◌, map, ◌==◌,
  if◌then◌else◌, length, take, drop,
}
use maock.Prelude.Partial.{◌>>=◌}
use maock.Bytes.{Bytes, codes, is_empty, eqb, find?}
use maock.Response.Pointer.{Json}
use maock.Response.Tokens.{tokenize_string}
use maock.Response.Argument.{SchemaArgument, Argument, new_argument, Outside, get_value}
use maock.Message.{Message}

-- Schema_Response_Header and Schema_Response_Payload: a text, its placeholder and the arguments.
pub record SchemaText : Type 0 where
  pub text : Bytes
  pub placeholder : Bytes
  pub arguments : List SchemaArgument

-- A text with places for values: `tokenizedPayload` and `payload_arguments`, or the two members
-- of H2Server_Response_Header.
pub record Template : Type 0 where
  pub tokens : List Bytes
  pub arguments : List Argument

-- The tokens and arguments of a text; `none` is exit(1) where their numbers do not fit.
unfoldable pub new_template : SchemaText → Option Template
unfolding tokenize_string new_argument
new_template t =
    let tokens = tokenize_string t.text t.placeholder in
    let arguments = map new_argument t.arguments in
    if length tokens == length arguments + 1
    then some (record { tokens = tokens; arguments = arguments })
    else none

-- find(":", 1)
unfoldable pub find_colon : Bytes → Option ℕ
unfolding find?
find_colon [] = none
find_colon (c ∷ s) = elim (find? s (codes ":")) [ none ↦ none | some i ↦ some (suc i) ]

abbrev pub starts_with_colon : Bytes → Bool
starts_with_colon [] = false
starts_with_colon (c ∷ s) = c == b':'

-- The constructor of H2Server_Response_Header; `none` is abort() or exit(1).
unfoldable pub new_header : SchemaText → Option Template
unfolding find_colon new_template
new_header h = elim (find_colon h.text) [
  | none ↦ none
  | some t ↦
      if starts_with_colon h.text && t == 1
      then none
      else if is_empty (drop (t + 1) h.text)
      then none
      else new_template h
]

unfoldable pub has_key : Bytes → List (Bytes × Bytes) → Bool
unfolding eqb
has_key k [] = false
has_key k ((j, v) ∷ m) = eqb j k || has_key k m

-- The cut of produce_header: at the first colon behind the first byte. Where there is none,
-- `t` is npos, and both parts are the whole text.
unfoldable pub split_header : Bytes → Bytes × Bytes
unfolding find_colon
split_header s = elim (find_colon s) [ some t ↦ (take t s, drop (t + 1) s) | none ↦ (s, s) ]

module _ (search : Bytes → Bytes → Option Bytes) (json : Json) where
  -- The loop over the tokens: behind each, the value of its argument, as long as there are any.
  -- `env` gives what the evaluations read from outside, one after the other.
  unfoldable pub fill :
      List Bytes → List Argument → (ℕ → Outside) → ℕ → Message json → Option (Bytes × Message json)
  fill [] arguments env k m = some ([], m)
  fill (t ∷ ts) [] env k m = fill ts [] env k m >>= λ p. some (t ++ p.0, p.1)
  fill (t ∷ ts) (a ∷ arguments) env k m =
      let later = fill ts arguments env (k + 1) in
      (get_value search json a (env k) m >>= λ v. later v.1 >>= λ p. some (t ++ (v.0 ++ p.0), p.1))

  -- produce_payload
  unfoldable pub produce_payload :
      Template → (ℕ → Outside) → Message json → Option (Bytes × Message json)
  unfolding fill
  produce_payload r env m = fill r.tokens r.arguments env 0 m

  unfoldable pub produce_header :
      Template → (ℕ → Outside) → Message json → Option ((Bytes × Bytes) × Message json)
  unfolding fill split_header
  produce_header r env m = fill r.tokens r.arguments env 0 m >>= λ p. some (split_header p.0, p.1)

  -- The loop of produce_headers: insertion into the map keeps a header that is there already.
  unfoldable pub produce_headers :
      List Template
      → (ℕ → ℕ → Outside)
      → ℕ
      → Message json
      → List (Bytes × Bytes)
      → Option (List (Bytes × Bytes) × Message json)
  unfolding produce_header has_key
  produce_headers [] env k m headers = some (headers, m)
  produce_headers (h ∷ hs) env k m headers =
      let later = produce_headers hs env (k + 1) in
      (produce_header h (env k) m >>= λ p.
      later p.1 (if has_key p.0.0 headers then headers else headers ++ p.0 ∷ []))
