-- ===== src/Server/Dispatch.antt =====
-- H2Server.h: get_matched_request of a server that the constructor made of a configuration.
use mathlib.Core.List.{reverse}
use maock.Prelude.Partial.{◌>>=◌}
use maock.Prelude.{
  ℕ, ◌+◌, ◌≡◌, refl, sym, ap, inl, inr, Bool, Option, none, some, List, [], ◌∷◌, map, arith,
  Bool-cases, All, get_or,
}
use maock.Bytes.{Bytes}
use maock.OrderedSet.{insert, insert_all, position}
use maock.OrderedSet.Position.{Equivalent, Has}
use maock.Response.Pointer.{Json}
use maock.Message.{HttpRequest, Message, cached, from_request}
use maock.Match.{
  Rule, SchemaHeaderMatch, SchemaPayloadMatch, rule_less, header_rule, payload_rule,
  emplace_headers, emplace_payloads, new_request,
}
use maock.Match.Cached.{Same, Agrees, Coherent}
use maock.Server.{
  Service, SchemaService, service_less, new_service, insert_services, collect_rules, number_rule,
  number_service, build_match_rule_unique_id, new_server, get_matched_request,
}
use maock.Server.Best.{
  first_holding, AllNumbered, All-reverse, match_services-Agrees, Holds, IsBest, Fails,
  get_matched_request-IsBest, get_matched_request-none,
}
use maock.Server.Numbering.{collect_rules-Has}
use maock.Server.Sorted.{new_server-IsAscending}

-- The rules of a configuration.
abbrev pub header_rules : List SchemaHeaderMatch → List Rule → List Rule
header_rules [] rs = rs
header_rules (h ∷ hs) rs = header_rule h ∷ header_rules hs rs

abbrev pub payload_rules : List SchemaPayloadMatch → List Rule → List Rule
payload_rules [] rs = rs
payload_rules (p ∷ ps) rs = payload_rule p ∷ payload_rules ps rs

abbrev pub config_rules : List SchemaService → List Rule
config_rules [] = []
config_rules (x ∷ xs) =
    header_rules x.request.header_match (payload_rules x.request.payload_match (config_rules xs))

-- Equivalent rules of a configuration are the same rule.
abbrev pub Tells : Rule → Rule → Type 0
Tells a b = Equivalent rule_less a b → a ≡ b

abbrev pub Separated : List SchemaService → Type 0
Separated schema = All (λ a. All (Tells a) (config_rules schema)) (config_rules schema)

-- A property of all elements is one of all elements of the sets that are made of them.
pub All-insert {ℓ κ} :
    {A : Type ℓ} (less : A → A → Bool) (P : A → Type κ) (x : A) (s : List A)
    → P x
    → All P s
    → All P (insert less x s)
unfolding insert
All-insert less P x [] h a = (h, tt)
All-insert less P x (y ∷ s) h a = elim (Bool-cases (less x y)) [
  | inl low ↦ rw low (h, a)
  | inr no_low ↦ elim (Bool-cases (less y x)) [
    | inl high ↦ rw (no_low, high) (a.0, All-insert less P x s h a.1)
    | inr same ↦ rw (no_low, same) a
  ]
]

pub All-insert_all {ℓ κ} :
    {A : Type ℓ} (less : A → A → Bool) (P : A → Type κ) (xs s : List A)
    → All P xs
    → All P s
    → All P (insert_all less xs s)
unfolding insert_all
All-insert_all less P [] s h a = a
All-insert_all less P (x ∷ xs) s h a =
    All-insert_all less P xs (insert less x s) h.1 (All-insert less P x s h.0 a)

module _ (P : Rule → Type 0) where
  abbrev OfRules : Service → Type 0
  OfRules s = All P s.request.match_rules

  All-header_rules :
      (hs : List SchemaHeaderMatch) (rs s : List Rule)
      → All P (header_rules hs rs)
      → All P s
      → All P (emplace_headers hs s) × All P rs
  All-header_rules [] rs s h a = (a, h)
  All-header_rules (x ∷ hs) rs s h a =
      All-header_rules hs rs (insert rule_less (header_rule x) s) h.1
        (All-insert rule_less P (header_rule x) s h.0 a)

  All-payload_rules :
      (ps : List SchemaPayloadMatch) (rs s : List Rule)
      → All P (payload_rules ps rs)
      → All P s
      → All P (emplace_payloads ps s) × All P rs
  All-payload_rules [] rs s h a = (a, h)
  All-payload_rules (x ∷ ps) rs s h a =
      All-payload_rules ps rs (insert rule_less (payload_rule x) s) h.1
        (All-insert rule_less P (payload_rule x) s h.0 a)

  insert_services-OfRules :
      (index : ℕ) (xs : List SchemaService) (ss : List Service)
      → All P (config_rules xs)
      → All OfRules ss
      → All OfRules (insert_services index xs ss)
  unfolding insert_services new_service new_request
  insert_services-OfRules index [] ss h a = a
  insert_services-OfRules index (x ∷ xs) ss h a =
      let (one, rest) =
        All-header_rules x.request.header_match
          (payload_rules x.request.payload_match (config_rules xs)) [] h tt in
      let (both, others) =
        All-payload_rules x.request.payload_match (config_rules xs)
          (emplace_headers x.request.header_match []) rest one in
      insert_services-OfRules (index + 1) xs (insert service_less (new_service x index) ss) others
        (All-insert service_less OfRules (new_service x index) ss both a)

  collect_rules-All :
      (ss : List Service) (all : List Rule)
      → All OfRules ss
      → All P all
      → All P (collect_rules ss all)
  unfolding collect_rules
  collect_rules-All [] all h a = a
  collect_rules-All (s ∷ ss) all h a =
      collect_rules-All ss (insert_all rule_less s.request.match_rules all) h.1
        (All-insert_all rule_less P s.request.match_rules all h.0 a)

-- The first element of a set that is equivalent to the rule is that rule.
get_or-position :
    (r : Rule) (s : List Rule) (other : Rule)
    → All (Tells r) s
    → Has rule_less s r
    → get_or s (position rule_less r s) other ≡ r
unfolding position
get_or-position r [] other a h = absurd (omega arith)
get_or-position r (x ∷ s) other a h = elim (Bool-cases (rule_less r x)) [
  | inl low ↦ rw low (get_or-position r s other a.1 (ground (arith, low)))
  | inr no_low ↦ elim (Bool-cases (rule_less x r)) [
    | inl high ↦ rw (no_low, high) (get_or-position r s other a.1 (ground (arith, no_low, high)))
    | inr same ↦ rw (no_low, same) (sym (a.0 (no_low, same)))
  ]
]

All-map : (P Q : Rule → Type 0) (rs : List Rule) → ((r : Rule) → P r → Q r) → All P rs → All Q rs
All-map P Q [] f a = tt
All-map P Q (r ∷ rs) f a = (f r a.0, All-map P Q rs f a.1)

abbrev no_rule : Rule
no_rule = header_rule (record { match_type = []; header = []; input = [] })

-- The rule that has a number.
abbrev pub rule_at : List Rule → ℕ → Rule
rule_at all id = number_rule all (get_or all id no_rule)

number_rule-IsNumbered :
    (all rs : List Rule)
    → All (λ r. All (Tells r) all) rs
    → All (Has rule_less all) rs
    → All (λ r. rule_at all r.unique_id ≡ r) (map (number_rule all) rs)
unfolding number_rule
number_rule-IsNumbered all [] t h = tt
number_rule-IsNumbered all (r ∷ rs) t h = (
  ap (number_rule all) (get_or-position r all no_rule t.0 h.0),
  number_rule-IsNumbered all rs t.1 h.1,
)

module _ (full_match : Bytes → Bytes → Bool) (json : Json) where
  number_service-AllNumbered :
      (all : List Rule) (ss : List Service)
      → All (λ s. All (λ r. All (Tells r) all) s.request.match_rules) ss
      → All (λ s. All (Has rule_less all) s.request.match_rules) ss
      → AllNumbered full_match json (rule_at all) (map (number_service all) ss)
  unfolding number_service
  number_service-AllNumbered all [] t h = tt
  number_service-AllNumbered all (s ∷ ss) t h = (
    All-reverse _ (map (number_rule all) s.request.match_rules)
        (number_rule-IsNumbered all s.request.match_rules t.0 h.0),
    number_service-AllNumbered all ss t.1 h.1,
  )

  abbrev all_rules : List SchemaService → List Rule
  all_rules schema = collect_rules (insert_services 0 schema []) []

  new_server-AllNumbered :
      (schema : List SchemaService)
      → Separated schema
      → AllNumbered full_match json (rule_at (all_rules schema)) (new_server schema)
  unfolding new_server build_match_rule_unique_id
  new_server-AllNumbered schema apart =
      let made = insert_services 0 schema [] in
      let tells =
        All-map _ _ (config_rules schema)
          (λ r a.
            collect_rules-All (Tells r) made [] (insert_services-OfRules (Tells r) 0 schema [] a tt)
              tt)
          apart in
      All-insert_all service_less _ (map (number_service (all_rules schema)) made) []
        (number_service-AllNumbered (all_rules schema) made
          (insert_services-OfRules _ 0 schema [] tells tt) (collect_rules-Has made []))
        tt

  Agrees-first :
      (Fine : Message json → Type 0) (m : Message json) (o : Option (Option Service))
      (p : Option (Option Service × Message json))
      → Agrees full_match json Fine m o p
      → (p >>= λ q. some q.0) ≡ o
  Agrees-first Fine m none none a = refl
  Agrees-first Fine m (some x) none a = absurd a
  Agrees-first Fine m none (some q) a = absurd a
  Agrees-first Fine m (some x) (some q) a = ap some a.0

  module _ (schema : List SchemaService) (req : HttpRequest) (apart : Separated schema) where
    from_request-Coherent :
        Coherent full_match json (rule_at (all_rules schema)) (from_request json req)
    unfolding from_request cached
    from_request-Coherent id b e = absurd (ground arith)

    -- A server that is made of a configuration in which equivalent rules are the same rule finds,
    -- for every request, the service that plain matching without stored results finds first, from
    -- the last service to the first; it stops exactly where plain matching stops.
    pub new_server-first_holding :
        (get_matched_request full_match json (new_server schema) (from_request json req) >>= λ p.
        some p.0)
        ≡ first_holding full_match json (reverse (new_server schema)) (from_request json req)
    unfolding get_matched_request
    new_server-first_holding = Agrees-first _ _ _ _ (
        match_services-Agrees full_match json (rule_at (all_rules schema))
          (reverse (new_server schema)) (from_request json req)
          (All-reverse _ (new_server schema) (new_server-AllNumbered schema apart))
          from_request-Coherent)

    -- A server that is made of a configuration in which equivalent rules are the same rule finds,
    -- for a request, a service whose rules all hold, and no service of it whose rules all hold has
    -- more rules; the request is left with the same headers, payload and document.
    pub new_server-IsBest :
        (s : Service) (m : Message json)
        → get_matched_request full_match json (new_server schema) (from_request json req)
          ≡ some (some s, m)
        → Holds full_match json (from_request json req) s
          × IsBest full_match json (from_request json req) s (new_server schema)
          × Same full_match json (from_request json req) m
    new_server-IsBest s m =
        get_matched_request-IsBest full_match json (from_request json req)
          (rule_at (all_rules schema)) (new_server schema) m (new_server-AllNumbered schema apart)
          from_request-Coherent s (new_server-IsAscending schema).0

    -- Where such a server finds no service for a request, each of its services has a rule that does
    -- not hold.
    pub new_server-Fails :
        (m : Message json)
        → get_matched_request full_match json (new_server schema) (from_request json req)
          ≡ some (none, m)
        → All (Fails full_match json (from_request json req)) (new_server schema)
    new_server-Fails m =
        get_matched_request-none full_match json (from_request json req)
          (rule_at (all_rules schema)) (new_server schema) m (new_server-AllNumbered schema apart)
          from_request-Coherent
