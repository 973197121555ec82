-- ===== src/Match.antt =====
-- H2Server_Request.h: match rules, their order, and the requests that are sets of rules.
pub mod Verb
pub mod Order
pub mod Collision
pub mod Cached
use mathlib.Core.List.{reverse}
use maock.Prelude.{
  ℕ, ◌-◌, Bool, true, false, not, ◌&&◌, Option, none, some, List, [], ◌∷◌, ◌++◌, map, ltb, leb,
  ◌==◌, if◌then◌else◌, length,
}
use maock.Prelude.Partial.{◌>>=◌}
use maock.Bytes.{Bytes, codes, is_empty, eqb, starts_with, find?, lex_lt, substr}
use maock.Bytes.Decimal.{to_decimal}
use maock.OrderedSet.{insert}
use maock.Response.Pointer.{Json, get_value_from_json_ptr}
use maock.Message
use maock.Message.{Message, values, cached}

pub data MatchType : Type 0 where
  equals_to start_with end_with contains regex_match : MatchType

-- The values of the enum.
abbrev pub type_number : MatchType → ℕ
type_number equals_to = 0
type_number start_with = 1
type_number end_with = 2
type_number contains = 3
type_number regex_match = 4

-- `string_to_match_type[name]`: operator[] of a map gives EQUALS_TO, the value 0, to a new key.
unfoldable pub string_to_match_type : Bytes → MatchType
unfolding eqb
string_to_match_type name =
    if eqb name (codes "EqualsTo")
    then equals_to
    else if eqb name (codes "StartsWith")
    then start_with
    else if eqb name (codes "EndsWith")
    then end_with
    else if eqb name (codes "Contains")
    then contains
    else if eqb name (codes "RegexMatch")
    then regex_match
    else equals_to

-- `reg_exp` is compiled from `object`, so a rule carries no field for it.
pub record Rule : Type 0 where
  pub match_type : MatchType
  pub header_name : Bytes
  pub json_pointer : Bytes
  pub object : Bytes
  pub unique_id : ℕ

pub record SchemaHeaderMatch : Type 0 where
  pub match_type : Bytes
  pub header : Bytes
  pub input : Bytes

pub record SchemaPayloadMatch : Type 0 where
  pub match_type : Bytes
  pub json_pointer : Bytes
  pub input : Bytes

-- The two constructors. unique_id has no value before build_match_rule_unique_id: 0 stands here.
unfoldable pub header_rule : SchemaHeaderMatch → Rule
unfolding string_to_match_type
header_rule h = record {
  match_type = string_to_match_type h.match_type;
  header_name = h.header;
  json_pointer = [];
  object = h.input;
  unique_id = 0;
}

unfoldable pub payload_rule : SchemaPayloadMatch → Rule
unfolding string_to_match_type
payload_rule p = record {
  match_type = string_to_match_type p.match_type;
  header_name = [];
  json_pointer = p.json_pointer;
  object = p.input;
  unique_id = 0;
}

abbrev pub is_equals_to : MatchType → Bool
is_equals_to equals_to = true
is_equals_to _ = false

-- The text that decides between rules of one class.
abbrev pub rule_text : Rule → Bytes
rule_text r =
    to_decimal (type_number r.match_type) ++ (r.header_name ++ (r.json_pointer ++ r.object))

-- Match_Rule::operator<
unfoldable pub rule_less : Rule → Rule → Bool
rule_less mine rhs =
    if not (is_empty mine.header_name) && is_empty rhs.header_name
    then false
    else if is_empty mine.header_name && not (is_empty rhs.header_name)
    then true
    else if is_equals_to mine.match_type && not (is_equals_to rhs.match_type)
    then false
    else if is_equals_to rhs.match_type && not (is_equals_to mine.match_type)
    then true
    else lex_lt (rule_text mine) (rule_text rhs)

-- std::regex_match of the library: the expression, then the subject.
module _ (full_match : Bytes → Bytes → Bool) where
  -- match(subject, verb, object); `expression` is what reg_exp was compiled from.
  unfoldable pub match_verb : Bytes → Bytes → MatchType → Bytes → Bool
  unfolding eqb find? starts_with
  match_verb expression subject equals_to object = eqb subject object
  match_verb expression subject start_with object = elim (find? subject object) [
    | some i ↦ i == 0
    | none ↦ false
  ]
  match_verb expression subject end_with object =
      leb (length object) (length subject)
      && eqb (substr subject (length subject - length object) (length object)) object
  match_verb expression subject contains object = elim (find? subject object) [
    | some i ↦ true
    | none ↦ false
  ]
  match_verb expression subject regex_match object = full_match expression subject

  -- match(subject)
  abbrev pub match_text : Rule → Bytes → Bool
  match_text r subject = match_verb r.object subject r.match_type r.object

  -- The loop over the values of a header: it stops at the first that matches.
  unfoldable pub match_any : Rule → List Bytes → Bool
  unfolding match_verb
  match_any r [] = false
  match_any r (v ∷ vs) = let later = match_any r vs in if match_text r v then true else later

  module _ (json : Json) where
    abbrev Msg : Type 0
    Msg = Message json

    -- match(const rapidjson::Document&)
    unfoldable pub match_document : Rule → Msg → Option (Bool × Msg)
    unfolding match_verb get_value_from_json_ptr
    match_document r m =
        get_value_from_json_ptr json m.json_payload r.json_pointer >>= λ v. some (match_text r v, m)

    -- What a rule finds in a request when it has not been tried before.
    unfoldable pub match_fresh : Rule → Msg → Option (Bool × Msg)
    unfolding match_any values match_document Message.decode_json_if_not_yet
    match_fresh r m =
        if not (is_empty r.header_name)
        then some (match_any r (values r.header_name m.headers), m)
        else if not (is_empty r.json_pointer)
        then match_document r (Message.decode_json_if_not_yet json m)
        else some (match_text r m.raw_payload, m)

    abbrev pub remember : ℕ → Bool × Msg → Bool × Msg
    remember id (b, m) = (b, record m { match_result = (id, b) ∷ m.match_result })

    -- match(request): the stored result of the rule's number, or a fresh one, which is stored.
    unfoldable pub rule_match : Rule → Msg → Option (Bool × Msg)
    unfolding match_fresh cached
    rule_match r m = elim (cached r.unique_id m.match_result) [
      | some b ↦ some (b, m)
      | none ↦ match_fresh r m >>= λ p. some (remember r.unique_id p)
    ]

    -- H2Server_Request::match, over the rules in the order in which it tries them.
    unfoldable pub all_match : List Rule → Msg → Option (Bool × Msg)
    unfolding rule_match
    all_match [] m = some (true, m)
    all_match (r ∷ rs) m =
        let rest = all_match rs in
        (rule_match r m >>= λ p. if p.0 then rest p.1 else some (false, p.1))

pub record Request : Type 0 where
  pub match_rules : List Rule
  pub name : Bytes
  pub request_index : ℕ

pub record SchemaRequestMatch : Type 0 where
  pub header_match : List SchemaHeaderMatch
  pub payload_match : List SchemaPayloadMatch
  pub name : Bytes

abbrev pub emplace_headers : List SchemaHeaderMatch → List Rule → List Rule
emplace_headers [] s = s
emplace_headers (h ∷ hs) s = emplace_headers hs (insert rule_less (header_rule h) s)

abbrev pub emplace_payloads : List SchemaPayloadMatch → List Rule → List Rule
emplace_payloads [] s = s
emplace_payloads (p ∷ ps) s = emplace_payloads ps (insert rule_less (payload_rule p) s)

-- The constructor of H2Server_Request.
unfoldable pub new_request : SchemaRequestMatch → ℕ → Request
unfolding insert rule_less header_rule payload_rule to_decimal lex_lt
new_request schema index = record {
  match_rules = emplace_payloads schema.payload_match (emplace_headers schema.header_match []);
  name = schema.name;
  request_index = index;
}

-- The two reverse iterators of operator<, over rules in descending order.
unfoldable pub rules_less : List Rule → List Rule → Bool
unfolding rule_less
rules_less [] _ = false
rules_less (x ∷ xs) [] = false
rules_less (x ∷ xs) (y ∷ ys) =
    let later = rules_less xs ys in
    if rule_less x y then true else if rule_less y x then false else later

-- H2Server_Request::operator<
unfoldable pub request_less : Request → Request → Bool
unfolding rules_less
request_less a b =
    if ltb (length a.match_rules) (length b.match_rules)
    then true
    else if ltb (length b.match_rules) (length a.match_rules)
    then false
    else rules_less (reverse a.match_rules) (reverse b.match_rules)
