-- ===== src/Server/Sorted.antt =====
-- H2Server.h: the order of the services and rules that the constructor makes.
use maock.Prelude.{ℕ, ◌+◌, inl, inr, List, [], ◌∷◌, map, Bool-cases, All}
use maock.OrderedSet.{insert, insert_all}
use maock.OrderedSet.Laws.{
  StrictWeakOrder, AllAbove, IsAscending, insert-IsAscending, insert_all-IsAscending,
}
use maock.Match.{
  Rule, rule_less, SchemaHeaderMatch, SchemaPayloadMatch, emplace_headers, emplace_payloads,
  new_request, header_rule, payload_rule,
}
use maock.Match.Order.{rule_less-StrictWeakOrder, request_less-StrictWeakOrder}
use maock.Server.{
  Service, SchemaService, service_less, new_service, insert_services, collect_rules, number_rule,
  number_service, build_match_rule_unique_id, new_server,
}

pub service_less-StrictWeakOrder : StrictWeakOrder service_less
service_less-StrictWeakOrder = record {
  irreflexive = λ a. request_less-StrictWeakOrder.irreflexive a.request;
  transitive = λ a b c. request_less-StrictWeakOrder.transitive a.request b.request c.request;
  equivalent = λ a b c. request_less-StrictWeakOrder.equivalent a.request b.request c.request;
}

-- The rules of a service are a sorted set.
abbrev pub IsSorted : Service → Type 0
IsSorted s = IsAscending rule_less s.request.match_rules

emplace_headers-IsAscending :
    (hs : List SchemaHeaderMatch) (rs : List Rule)
    → IsAscending rule_less rs
    → IsAscending rule_less (emplace_headers hs rs)
emplace_headers-IsAscending [] rs h = h
emplace_headers-IsAscending (x ∷ hs) rs h =
    emplace_headers-IsAscending hs (insert rule_less (header_rule x) rs)
      (insert-IsAscending rule_less-StrictWeakOrder (header_rule x) rs h)

emplace_payloads-IsAscending :
    (ps : List SchemaPayloadMatch) (rs : List Rule)
    → IsAscending rule_less rs
    → IsAscending rule_less (emplace_payloads ps rs)
emplace_payloads-IsAscending [] rs h = h
emplace_payloads-IsAscending (x ∷ ps) rs h =
    emplace_payloads-IsAscending ps (insert rule_less (payload_rule x) rs)
      (insert-IsAscending rule_less-StrictWeakOrder (payload_rule x) rs h)

new_service-IsSorted : (x : SchemaService) (index : ℕ) → IsSorted (new_service x index)
unfolding new_service new_request
new_service-IsSorted x index =
    emplace_payloads-IsAscending x.request.payload_match (emplace_headers x.request.header_match [])
      (emplace_headers-IsAscending x.request.header_match [] tt)

All-insert :
    (P : Service → Type 0) (x : Service) (ss : List Service)
    → P x
    → All P ss
    → All P (insert service_less x ss)
unfolding insert
All-insert P x [] h a = (h, tt)
All-insert P x (s ∷ ss) h a = elim (Bool-cases (service_less x s)) [
  | inl low ↦ rw low (h, a)
  | inr no_low ↦ elim (Bool-cases (service_less s x)) [
    | inl high ↦ rw (no_low, high) (a.0, All-insert P x ss h a.1)
    | inr same ↦ rw (no_low, same) a
  ]
]

All-insert_all :
    (P : Service → Type 0) (xs ss : List Service)
    → All P xs
    → All P ss
    → All P (insert_all service_less xs ss)
unfolding insert_all
All-insert_all P [] ss h a = a
All-insert_all P (x ∷ xs) ss h a =
    All-insert_all P xs (insert service_less x ss) h.1 (All-insert P x ss h.0 a)

insert_services-IsSorted :
    (index : ℕ) (xs : List SchemaService) (ss : List Service)
    → All IsSorted ss
    → All IsSorted (insert_services index xs ss)
unfolding insert_services
insert_services-IsSorted index [] ss a = a
insert_services-IsSorted index (x ∷ xs) ss a =
    insert_services-IsSorted (index + 1) xs (insert service_less (new_service x index) ss)
      (All-insert IsSorted (new_service x index) ss (new_service-IsSorted x index) a)

-- Numbering does not touch what the comparison reads.
number_rule-AllAbove :
    (all : List Rule) (r : Rule) (rs : List Rule)
    → AllAbove rule_less r rs
    → AllAbove rule_less (number_rule all r) (map (number_rule all) rs)
unfolding number_rule rule_less
number_rule-AllAbove all r [] a = tt
number_rule-AllAbove all r (x ∷ rs) a = (a.0, number_rule-AllAbove all r rs a.1)

number_rule-IsAscending :
    (all rs : List Rule)
    → IsAscending rule_less rs
    → IsAscending rule_less (map (number_rule all) rs)
number_rule-IsAscending all [] h = tt
number_rule-IsAscending all (r ∷ rs) h =
    (number_rule-AllAbove all r rs h.0, number_rule-IsAscending all rs h.1)

number_service-IsSorted :
    (all : List Rule) (ss : List Service)
    → All IsSorted ss
    → All IsSorted (map (number_service all) ss)
unfolding number_service
number_service-IsSorted all [] a = tt
number_service-IsSorted all (s ∷ ss) a =
    (number_rule-IsAscending all s.request.match_rules a.0, number_service-IsSorted all ss a.1)

-- Whatever the configuration, the services of a new server are in ascending order without
-- equivalent ones, and so are the rules of each of them.
pub new_server-IsAscending :
    (schema : List SchemaService)
    → IsAscending service_less (new_server schema) × All IsSorted (new_server schema)
unfolding new_server build_match_rule_unique_id
new_server-IsAscending schema =
    let made = insert_services 0 schema [] in
    let all = collect_rules made [] in
    (
      insert_all-IsAscending service_less-StrictWeakOrder (map (number_service all) made) [] tt,
      All-insert_all IsSorted (map (number_service all) made) []
          (number_service-IsSorted all made (insert_services-IsSorted 0 schema [] tt)) tt,
    )
