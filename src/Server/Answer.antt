-- ===== src/Server/Answer.antt =====
-- H2Server.h: get_response_to_return and get_matched_request.
use mathlib.Core.List.{reverse}
use maock.Prelude.{
  ℕ, ◌≡◌, refl, Bool, true, false, Option, none, some, List, [], ◌∷◌, if◌then◌else◌,
}
use maock.Prelude.Partial.{◌>>=◌}
use maock.Bytes.{Bytes}
use maock.Response.Pointer.{Json}
use maock.Message.{Message}
use maock.Match.{all_match}
use maock.Server.{
  Service, match_services, get_matched_request, respond_from, get_response_to_return,
}
use maock.Server.Group.{select_response}

-- What the caller that has the service makes of it.
abbrev pub chosen : (Service → ℕ) → Option Service → Option (ℕ × ℕ)
chosen draw none = none
chosen draw (some s) = some (s.request.request_index, select_response s.response_group (draw s))

module _ (full_match : Bytes → Bytes → Bool) (json : Json) (draw : Service → ℕ) where
  choose_step :
      (s : Service) (p : Option (Bool × Message json))
      (later : Message json → Option (Option Service × Message json))
      (rest : Message json → Option (Option (ℕ × ℕ) × Message json))
      → ((m : Message json) → rest m ≡ (later m >>= λ q. some (chosen draw q.0, q.1)))
      → (p >>= λ q. if q.0 then some (chosen draw (some s), q.1) else rest q.1) ≡ (
          (p >>= λ q. if q.0 then some (some s, q.1) else later q.1) >>= λ q.
          some (chosen draw q.0, q.1))
  choose_step s none later rest h = refl
  choose_step s (some (true, m)) later rest h = refl
  choose_step s (some (false, m)) later rest h = h m

  respond_from-match_services :
      (ss : List Service) (m : Message json)
      → respond_from full_match json draw ss m
        ≡ (match_services full_match json ss m >>= λ q. some (chosen draw q.0, q.1))
  unfolding respond_from match_services
  respond_from-match_services [] m = refl
  respond_from-match_services (s ∷ ss) m =
      choose_step s (all_match full_match json (reverse s.request.match_rules) m)
        (match_services full_match json ss) (respond_from full_match json draw ss)
        (respond_from-match_services ss)

  -- For every list of services and every message, get_response_to_return gives the request index
  -- and the response that select_response draws for the service of get_matched_request, or none
  -- where that finds none; it stops where that stops, and leaves the message as that does.
  pub get_response_to_return-get_matched_request :
      (services : List Service) (m : Message json)
      → get_response_to_return full_match json draw services m
        ≡ (get_matched_request full_match json services m >>= λ q. some (chosen draw q.0, q.1))
  unfolding get_response_to_return get_matched_request
  get_response_to_return-get_matched_request services m =
      respond_from-match_services (reverse services) m
