-- ===== src/Server/Built.antt =====
-- H2Server.h: what the constructor makes of a configuration.
pub mod Rules
pub mod Numbers
use mathlib.Core.List.{reverse-cons}
use maock.Prelude.{
  ℕ, ◌+◌, ◌≡◌, refl, ◌⊎◌, inl, inr, not, none, List, [], ◌∷◌, map, arith, Bool-cases, All,
}
use maock.OrderedSet.{insert, insert_all, position}
use maock.OrderedSet.Laws.{StrictWeakOrder, IsAscending}
use maock.OrderedSet.Position.{
  Equivalent, Has, position-Equivalent, Has-insert_self, Has-insert, insert_all-Has,
}
use maock.Match.{
  Rule, string_to_match_type, SchemaHeaderMatch, SchemaPayloadMatch, SchemaRequestMatch, rule_less,
  header_rule, payload_rule, emplace_headers, emplace_payloads, new_request, request_less,
  rules_less,
}
use maock.Match.Order.{rule_less-StrictWeakOrder}
use maock.Server.Group.{new_group}
use maock.Server.{
  reverse, Service, SchemaService, service_less, new_service, insert_services, collect_rules,
  number_rule, number_service, build_match_rule_unique_id, new_server,
}
use maock.Server.Numbering.{collect_rules-Has, number_rule_iff}
use maock.Server.Dispatch.{All-insert, All-insert_all}
use maock.Server.Sorted.{IsSorted, service_less-StrictWeakOrder, new_server-IsAscending}
use maock.Server.Built.Rules.{
  of_header, of_payload, listed, IsIn, Lists, emplace_headers-All, emplace_payloads-All,
  Has-emplace_headers, Has-emplace_payloads, emplace_headers-Has, emplace_payloads-Has, All-weaken,
  All-IsIn, All-split, Listed, Listed-headers, Listed-payloads, Lists-emplace,
}
use maock.Server.Built.Numbers.{
  position-number_rule, length-number_rule, Listed-number_rule, Lists-number_rule,
  rules_less-number_rule, map-reverse_rules, number_service-Equivalent, Numbered,
  number_rule-Numbered, NumbersTell, NumbersTell-number_rule, Numbered-NumbersTell,
  AllRules-Numbered,
}

-- A service that is made of an entry of the configuration and its index.
abbrev pub IsMade : ℕ × SchemaService → Service → Type 0
IsMade (k, x) s =
    (s.request.request_index ≡ k)
    × (s.request.name ≡ x.request.name)
    × (s.response_group ≡ new_group x.weights)
    × Lists (listed x.request) s.request.match_rules

abbrev pub IsMadeOf : Service → List (ℕ × SchemaService) → Type 0
IsMadeOf s [] = ⊥
IsMadeOf s (p ∷ ps) = IsMade p s ⊎ IsMadeOf s ps

-- The entries of the configuration with their indices.
abbrev pub indexed : ℕ → List SchemaService → List (ℕ × SchemaService)
indexed k [] = []
indexed k (x ∷ xs) = (k, x) ∷ indexed (k + 1) xs

new_service-IsMade : (x : SchemaService) (k : ℕ) → IsMade (k, x) (new_service x k)
unfolding new_service new_request
new_service-IsMade x k = (refl, refl, refl, Lists-emplace x.request)

insert_services-All :
    (P : Service → Type 0) (k : ℕ) (xs : List SchemaService) (ss : List Service)
    → All (λ p. P (new_service p.1 p.0)) (indexed k xs)
    → All P ss
    → All P (insert_services k xs ss)
unfolding insert_services
insert_services-All P k [] ss h a = a
insert_services-All P k (x ∷ xs) ss h a =
    insert_services-All P (k + 1) xs (insert service_less (new_service x k) ss) h.1
      (All-insert service_less P (new_service x k) ss h.0 a)

Has-insert_services :
    (s : Service) (k : ℕ) (xs : List SchemaService) (ss : List Service)
    → Has service_less ss s
    → Has service_less (insert_services k xs ss) s
unfolding insert_services
Has-insert_services s k [] ss h = h
Has-insert_services s k (x ∷ xs) ss h =
    Has-insert_services s (k + 1) xs (insert service_less (new_service x k) ss)
      (Has-insert service_less-StrictWeakOrder s (new_service x k) ss h)

insert_services-Has :
    (k : ℕ) (xs : List SchemaService) (ss : List Service)
    → All (λ p. Has service_less (insert_services k xs ss) (new_service p.1 p.0)) (indexed k xs)
unfolding insert_services
insert_services-Has k [] ss = tt
insert_services-Has k (x ∷ xs) ss =
    let next = insert service_less (new_service x k) ss in
    (
      Has-insert_services (new_service x k) (k + 1) xs next
          (Has-insert_self service_less-StrictWeakOrder (new_service x k) ss),
      insert_services-Has (k + 1) xs next,
    )

IsMadeOf-number_service :
    (all : List Rule) (s : Service) (ps : List (ℕ × SchemaService))
    → IsMadeOf s ps
    → IsMadeOf (number_service all s) ps
unfolding number_service
IsMadeOf-number_service all s [] h = h
IsMadeOf-number_service all s (p ∷ ps) (inl m) =
    inl (m.0, m.1, m.2, Lists-number_rule all (listed p.1.request) s.request.match_rules m.3)
IsMadeOf-number_service all s (p ∷ ps) (inr m) = inr (IsMadeOf-number_service all s ps m)

made_self :
    (ps qs : List (ℕ × SchemaService))
    → ((s : Service) → IsMadeOf s ps → IsMadeOf s qs)
    → All (λ p. IsMadeOf (new_service p.1 p.0) qs) ps
made_self [] qs f = tt
made_self (p ∷ ps) qs f = (
  f (new_service p.1 p.0) (inl (new_service-IsMade p.1 p.0)),
  made_self ps qs (λ s m. f s (inr m)),
)

All-number_service :
    (P Q : Service → Type 0) (all : List Rule) (ss : List Service)
    → ((s : Service) → P s → Q (number_service all s))
    → All P ss
    → All Q (map (number_service all) ss)
All-number_service P Q all [] f a = tt
All-number_service P Q all (s ∷ ss) f a = (f s a.0, All-number_service P Q all ss f a.1)

-- What has an element equivalent to each of a list has one for each that the list has.
Has-All :
    (s : Service) (xs t : List Service)
    → All (Has service_less t) xs
    → Has service_less xs s
    → Has service_less t s
unfolding position
Has-All s [] t a h = absurd (omega arith)
Has-All s (x ∷ xs) t a h = elim (Bool-cases (service_less s x)) [
  | inl low ↦ Has-All s xs t a.1 (ground (arith, low, h))
  | inr no_low ↦ elim (Bool-cases (service_less x s)) [
    | inl high ↦ Has-All s xs t a.1 (ground (arith, no_low, high, h))
    | inr same ↦ rw (position-Equivalent service_less-StrictWeakOrder s x t (no_low, same)) a.0
  ]
]

Has-number_service :
    (all : List Rule) (s : Service) (ss t : List Service)
    → All (Has service_less t) (map (number_service all) ss)
    → Has service_less ss s
    → Has service_less t s
Has-number_service all s ss t a h = Has-All s ss t (each ss a) h
  where
    each :
        (ss : List Service)
        → All (Has service_less t) (map (number_service all) ss)
        → All (Has service_less t) ss
    each [] b = tt
    each (x ∷ xs) b = (
      (let moved =
            position-Equivalent service_less-StrictWeakOrder (number_service all x) x t
              (number_service-Equivalent all x) in
          rw moved at b.0),
      each xs b.1,
    )

-- Something that holds of any two rules of the services.
abbrev pub EachPair : (Rule → Rule → Type 0) → List Service → Type 0
EachPair P ss =
    All (λ s. All (λ r. All (λ s'. All (P r) s'.request.match_rules) ss) s.request.match_rules) ss

-- Whatever the configuration, of the services of a new server: they are in ascending order without
-- equivalent ones, and so are the rules of each; each is made of an entry of the configuration, with its
-- index, its name, the group of its weights, and a rule for each header and payload match that the
-- entry lists, up to equivalence, and none that it does not list; for each entry there is a service that
-- is equivalent to the one made of it; and two rules of the services have the same number exactly when
-- they are equivalent.
pub new_server-built :
    (schema : List SchemaService)
    → IsAscending service_less (new_server schema)
      × All IsSorted (new_server schema)
      × All (λ s. IsMadeOf s (indexed 0 schema)) (new_server schema)
      × All (λ p. Has service_less (new_server schema) (new_service p.1 p.0)) (indexed 0 schema)
      × EachPair NumbersTell (new_server schema)
unfolding new_server build_match_rule_unique_id
new_server-built schema =
    let made = insert_services 0 schema [] in
    let all = collect_rules made [] in
    let ps = indexed 0 schema in
    let placed = insert_all service_less (map (number_service all) made) [] in
    let (up, sorted) = new_server-IsAscending schema in
    let numbered =
      All-insert_all service_less _ (map (number_service all) made) []
        (AllRules-Numbered all made (collect_rules-Has made [])) tt in
    (
      up,
      sorted,
      All-insert_all service_less (λ s. IsMadeOf s ps) (map (number_service all) made) []
          (All-number_service (λ s. IsMadeOf s ps) (λ s. IsMadeOf s ps) all made
            (λ s m. IsMadeOf-number_service all s ps m)
            (insert_services-All (λ s. IsMadeOf s ps) 0 schema [] (made_self ps ps (λ s m. m)) tt))
          tt,
      All-weaken _ _ ps
          (λ p h.
            Has-number_service all (new_service p.1 p.0) made placed
              (insert_all-Has service_less-StrictWeakOrder (map (number_service all) made) []) h)
          (insert_services-Has 0 schema []),
      All-weaken _ _ placed
          (λ s a.
            All-weaken _ _ s.request.match_rules
              (λ r n.
                All-weaken _ _ placed
                  (λ s' a'.
                    All-weaken _ _ s'.request.match_rules
                      (λ r' n'. Numbered-NumbersTell all r r' n n') a')
                  numbered)
              a)
          numbered,
    )
