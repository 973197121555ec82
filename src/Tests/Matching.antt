-- ===== src/Tests/Matching.antt =====
-- H2Server.h on a server of two services: one for GET requests, one for those below /a.
use mathlib.Core.List.{reverse}
use maock.Prelude.{
  ℕ, zero, suc, ◌≡◌, refl, ◌↔◌, Bool, true, false, Option, none, some, List, [], ◌∷◌, arith, All,
}
use maock.Bytes.{Bytes, codes, eqb, starts_with, find?, lex_lt}
use maock.Bytes.Decimal.{to_decimal}
use maock.OrderedSet.{insert, insert_all, position}
use maock.OrderedSet.Laws.{IsAscending}
use maock.Response.Pointer.{Json, text}
use maock.Message
use maock.Message.{Message, HttpRequest, path_header, values, cached}
use maock.Match.{
  equals_to, start_with, contains, string_to_match_type, Rule, SchemaHeaderMatch, header_rule,
  rule_less, match_verb, match_any, match_fresh, rule_match, all_match, new_request, rules_less,
  request_less,
}
use maock.Match.Verb.{Selects, match_verb_iff}
use maock.Match.Collision.{on_header}
use maock.Match.Cached.{all_hold, Same, Agrees, Coherent, all_match-Agrees}
use maock.Server.{
  Service, SchemaService, service_less, new_service, insert_services, collect_rules, number_rule,
  number_service, build_match_rule_unique_id, new_server, match_services, get_matched_request,
}
use maock.Server.Group.{distribution_from, new_group, select_response}
use maock.Server.Group.Fair.{select_response-new_group}
use maock.Server.Best.{Holds, IsBest, Fails, first_holding}
use maock.Prelude.Partial.{◌>>=◌}
use maock.Server.Dispatch.{Separated, new_server-IsBest, new_server-Fails, new_server-first_holding}
use maock.Server.Sorted.{IsSorted}
use maock.OrderedSet.Position.{Has}
use maock.Server.Built.{IsMadeOf, indexed, EachPair, new_server-built}
use maock.Server.Built.Numbers.{NumbersTell}
use maock.Server.{new_service}

abbrev full_match : Bytes → Bytes → Bool
full_match e s = eqb e s

-- A library in which a document is its own text.
abbrev pub json : Json
json = record {
  Value = Bytes;
  null_document = [];
  parse = λ s. s;
  pointer_get = λ p v. some v;
  members = λ v. none;
  view = λ v. text v;
}

abbrev is_get : Rule
is_get = on_header equals_to (codes ":method") (codes "GET") 1

abbrev below_a : Rule
below_a = on_header start_with (codes ":path") (codes "/a") 0

abbrev rule_of : ℕ → Rule
rule_of zero = below_a
rule_of (suc n) = is_get

abbrev any_get : Service
any_get = record {
  request = record { match_rules = is_get ∷ []; name = codes "any"; request_index = 0 };
  response_group = record { distribution_map = (1, 0) ∷ []; total_weight = 1 };
}

abbrev get_below_a : Service
get_below_a = record {
  request = record { match_rules = below_a ∷ is_get ∷ []; name = codes "a"; request_index = 1 };
  response_group = record { distribution_map = (2, 0) ∷ (5, 2) ∷ []; total_weight = 5 };
}

abbrev services : List Service
services = any_get ∷ get_below_a ∷ []

abbrev method_is_get : SchemaHeaderMatch
method_is_get = record {
  match_type = codes "EqualsTo";
  header = codes ":method";
  input = codes "GET";
}

abbrev path_below_a : SchemaHeaderMatch
path_below_a = record {
  match_type = codes "StartsWith";
  header = codes ":path";
  input = codes "/a";
}

abbrev schema : List SchemaService
schema =
    record {
      request = record {
        header_match = method_is_get ∷ [];
        payload_match = [];
        name = codes "any";
      };
      weights = 1 ∷ [];
    }
    ∷ record {
      request = record {
        header_match = method_is_get ∷ path_below_a ∷ [];
        payload_match = [];
        name = codes "a";
      };
      weights = 2 ∷ 0 ∷ 3 ∷ [];
    }
    ∷ []

abbrev with_method : Bytes → HttpRequest
with_method method = record {
  method = method;
  scheme = codes "http";
  host = codes "h";
  raw_path = codes "/ab";
  raw_query = [];
  header = [];
  payload = codes "{}";
}

abbrev message : Bytes → List (ℕ × Bool) → Message json
message method stored = record {
  headers =
      (codes ":path", codes "/ab")
      ∷ (codes ":method", method)
      ∷ (codes ":scheme", codes "http")
      ∷ (codes ":authority", codes "h")
      ∷ [];
  json_payload = [];
  json_payload_string = some (codes "{}");
  raw_payload = codes "{}";
  match_result = stored;
}

abbrev pub get : Message json
get = message (codes "GET") []

abbrev post : Message json
post = message (codes "POST") []

new_server-schema : new_server schema ≡ services
unfolding new_server build_match_rule_unique_id insert_services new_service number_service
    number_rule collect_rules insert insert_all position rule_less rules_less request_less
    new_request header_rule string_to_match_type new_group distribution_from eqb lex_lt
new_server-schema = refl

from_request-get : Message.from_request json (with_method (codes "GET")) ≡ get
unfolding Message.from_request path_header
from_request-get = refl

found-get :
    get_matched_request full_match json services get
    ≡ some (some get_below_a, message (codes "GET") ((0, true) ∷ (1, true) ∷ []))
unfolding get_matched_request match_services all_match rule_match match_fresh match_any match_verb
    values cached eqb find? starts_with
found-get = refl

found-post :
    get_matched_request full_match json services post
    ≡ some (none, message (codes "POST") ((1, false) ∷ []))
unfolding get_matched_request match_services all_match rule_match match_fresh match_any match_verb
    values cached eqb find? starts_with
found-post = refl

fresh-Coherent : (method : Bytes) → Coherent full_match json rule_of (message method [])
unfolding cached
fresh-Coherent method id b e = absurd (ground arith)

schema-Separated : Separated schema
unfolding rule_less lex_lt to_decimal header_rule string_to_match_type eqb
schema-Separated = (
  ((λ e. refl), ((λ e. refl), ((λ e. absurd (ground arith)), tt))),
  (
    ((λ e. refl), ((λ e. refl), ((λ e. absurd (ground arith)), tt))),
    (((λ e. absurd (ground arith)), ((λ e. absurd (ground arith)), ((λ e. refl), tt))), tt),
  ),
)

found-new_server :
    (method : Bytes) (o : Option Service) (m : Message json)
    → get_matched_request full_match json services (message method []) ≡ some (o, m)
    → get_matched_request full_match json
        (new_server schema)
        (Message.from_request json (with_method method))
      ≡ some (o, m)
unfolding Message.from_request path_header
found-new_server method o m e = rw new_server-schema e

new_server-IsBest_example :
    Holds full_match json (Message.from_request json (with_method (codes "GET"))) get_below_a
    × IsBest full_match json
        (Message.from_request json (with_method (codes "GET")))
        get_below_a
        (new_server schema)
    × Same full_match json
        (Message.from_request json (with_method (codes "GET")))
        (message (codes "GET") ((0, true) ∷ (1, true) ∷ []))
new_server-IsBest_example =
    new_server-IsBest full_match json schema (with_method (codes "GET")) schema-Separated
      get_below_a (message (codes "GET") ((0, true) ∷ (1, true) ∷ []))
      (found-new_server (codes "GET") (some get_below_a)
        (message (codes "GET") ((0, true) ∷ (1, true) ∷ [])) found-get)

new_server-Fails_example :
    All
      (Fails full_match json (Message.from_request json (with_method (codes "POST"))))
      (new_server schema)
new_server-Fails_example =
    new_server-Fails full_match json schema (with_method (codes "POST")) schema-Separated
      (message (codes "POST") ((1, false) ∷ []))
      (found-new_server (codes "POST") none (message (codes "POST") ((1, false) ∷ [])) found-post)

new_server-first_holding_example :
    (get_matched_request full_match json
        (new_server schema)
        (Message.from_request json (with_method (codes "GET")))
      >>= λ p. some p.0)
    ≡ first_holding full_match json
        (reverse (new_server schema))
        (Message.from_request json (with_method (codes "GET")))
new_server-first_holding_example =
    new_server-first_holding full_match json schema (with_method (codes "GET")) schema-Separated

all_match-Agrees_example :
    Agrees full_match json
      (Coherent full_match json rule_of)
      get
      (all_hold full_match json (is_get ∷ below_a ∷ []) get)
      (all_match full_match json (is_get ∷ below_a ∷ []) get)
all_match-Agrees_example =
    all_match-Agrees full_match json rule_of (is_get ∷ below_a ∷ []) get (refl, (refl, tt))
      (fresh-Coherent (codes "GET"))

match_verb_iff_example :
    (match_verb full_match (codes "b") (codes "abc") contains (codes "b") ≡ true)
    ↔ Selects full_match (codes "b") (codes "abc") contains (codes "b")
match_verb_iff_example = match_verb_iff full_match (codes "b") (codes "abc") contains (codes "b")

any_before_below : request_less any_get.request get_below_a.request ≡ true
unfolding request_less
any_before_below = refl

select_response-new_group_example : select_response (new_group (2 ∷ 0 ∷ 3 ∷ [])) 4 ≡ 2
select_response-new_group_example =
    select_response-new_group (2 ∷ 0 ∷ 3 ∷ []) 2 4 (omega arith) (omega arith)

new_server-built_example :
    IsAscending service_less (new_server schema)
    × All IsSorted (new_server schema)
    × All (λ s. IsMadeOf s (indexed 0 schema)) (new_server schema)
    × All (λ p. Has service_less (new_server schema) (new_service p.1 p.0)) (indexed 0 schema)
    × EachPair NumbersTell (new_server schema)
new_server-built_example = new_server-built schema
