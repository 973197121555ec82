-- ===== src/Server.antt =====
-- H2Server.h: the services in order of their requests, and the choice of a service.
pub mod Group
pub mod Best
pub mod Dispatch
pub mod Numbering
pub mod Sorted
pub mod Built
pub mod Answer
use mathlib.Core.List.{reverse}
use maock.Prelude.{ℕ, ◌+◌, Bool, Option, none, some, List, [], ◌∷◌, map, if◌then◌else◌}
use maock.Prelude.Partial.{◌>>=◌}
use maock.Bytes.{Bytes}
use maock.OrderedSet.{insert, insert_all, position}
use maock.Response.Pointer.{Json}
use maock.Message.{Message}
use maock.Match.{Rule, rule_less, all_match, Request, SchemaRequestMatch, new_request, request_less}
use maock.Server.Group.{ResponseGroup, new_group, select_response}

-- An entry of the map `services`.
pub record Service : Type 0 where
  pub request : Request
  pub response_group : ResponseGroup

-- Of a service of the configuration: its request, and the weights of its responses.
pub record SchemaService : Type 0 where
  pub request : SchemaRequestMatch
  pub weights : List ℕ

abbrev pub service_less : Service → Service → Bool
service_less a b = request_less a.request b.request

unfoldable pub new_service : SchemaService → ℕ → Service
unfolding new_request new_group
new_service schema index = record {
  request = new_request schema.request index;
  response_group = new_group schema.weights;
}

-- The loop of the constructor over the services of the configuration.
unfoldable pub insert_services : ℕ → List SchemaService → List Service → List Service
unfolding insert request_less new_service
insert_services index [] s = s
insert_services index (x ∷ xs) s =
    insert_services (index + 1) xs (insert service_less (new_service x index) s)

-- The first loop of build_match_rule_unique_id: the set of all match rules.
unfoldable pub collect_rules : List Service → List Rule → List Rule
unfolding insert_all
collect_rules [] all = all
collect_rules (s ∷ ss) all = collect_rules ss (insert_all rule_less s.request.match_rules all)

unfoldable pub number_rule : List Rule → Rule → Rule
unfolding position
number_rule all r = record r { unique_id = position rule_less r all }

unfoldable pub number_service : List Rule → Service → Service
unfolding number_rule
number_service all s = record s {
  request = record s.request { match_rules = map (number_rule all) s.request.match_rules };
}

-- build_match_rule_unique_id: the map is built anew from the numbered services.
unfoldable pub build_match_rule_unique_id : List Service → List Service
unfolding number_service collect_rules insert_all
build_match_rule_unique_id services =
    let all = collect_rules services [] in
    insert_all service_less (map (number_service all) services) []

-- The constructor of H2Server.
unfoldable pub new_server : List SchemaService → List Service
unfolding build_match_rule_unique_id insert_services
new_server schema = build_match_rule_unique_id (insert_services 0 schema [])

module _ (full_match : Bytes → Bytes → Bool) (json : Json) where
  -- The loop of get_matched_request, over the services from the last to the first.
  unfoldable pub match_services :
      List Service → Message json → Option (Option Service × Message json)
  match_services [] m = some (none, m)
  match_services (s ∷ ss) m =
      let later = match_services ss in
      (all_match full_match json (reverse s.request.match_rules) m >>= λ p.
      if p.0 then some (some s, p.1) else later p.1)

  -- get_matched_request: the service, or rend(), and the request as matching left it.
  unfoldable pub get_matched_request :
      List Service → Message json → Option (Option Service × Message json)
  unfolding match_services
  get_matched_request services m = match_services (reverse services) m

  -- The loop of get_response_to_return, over the services from the last to the first: the index
  -- of the request and that of the response. `draw` gives the number of a group's generator.
  unfoldable pub respond_from :
      (Service → ℕ) → List Service → Message json → Option (Option (ℕ × ℕ) × Message json)
  respond_from draw [] m = some (none, m)
  respond_from draw (s ∷ ss) m =
      let later = respond_from draw ss in
      (all_match full_match json (reverse s.request.match_rules) m >>= λ p.
      if p.0
      then some (some (s.request.request_index, select_response s.response_group (draw s)), p.1)
      else later p.1)

  -- get_response_to_return of a request; `none` is nullptr.
  unfoldable pub get_response_to_return :
      (Service → ℕ) → List Service → Message json → Option (Option (ℕ × ℕ) × Message json)
  unfolding respond_from
  get_response_to_return draw services m = respond_from draw (reverse services) m
