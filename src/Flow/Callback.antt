-- ===== src/Flow/Callback.antt =====
-- The callback of asio_svr_entry in asio_util.cc, which answers a request on a thread of the server,
-- with is_response_throttled of H2Server_Response.h.
use maock.Prelude.{
  ℕ, ◌+◌, Bool, false, ◌&&◌, Option, none, some, List, [], ◌∷◌, ◌++◌, map, ltb, ◌==◌, if◌then◌else◌,
}
use maock.Prelude.Partial.{◌>>=◌}
use maock.Bytes.{Bytes, codes, eqb}
use maock.Response.Pointer.{Json}
use maock.Response.Argument.{Outside}
use maock.Response.Produce.{Template, produce_headers, produce_payload}
use maock.Message.{HttpRequest, Message, from_request}
use maock.Server.{Service, get_matched_request}
use maock.Server.Group.{select_response}
use maock.Stream.Reply.{Action}
use maock.Stream.Request.{Request}
use maock.Stream.Connection.{Streams, find_stream, put_stream}
use maock.Flow.{to_header_map, respond, send_response, close_stream_of}

-- luaState and lua_offload
pub data Lua : Type 0 where
  no_lua runs_lua offloads_lua : Lua

-- The members of H2Server_Response that the callback uses. `throttle` is the ratio times 10000, where the
-- ratio is above 0.
pub record ServerResponse : Type 0 where
  pub status_code : ℕ
  pub headers : List Template
  pub payload : Template
  pub throttle : Option ℕ
  pub lua : Lua

-- What a thread keeps: its counters, of which each response has its own two, and the variables that
-- are static and thread_local.
pub record Thread : Type 0 where
  pub req_received : ℕ
  pub unmatched_responses : ℕ
  pub response_sent : ℕ → ℕ → ℕ
  pub response_throttled : ℕ → ℕ → ℕ
  pub scaled_throttle_ratio : Option ℕ
  pub trailer_headers : List (Bytes × Bytes)

abbrev pub set_at : (ℕ → ℕ → ℕ) → ℕ → ℕ → ℕ → ℕ → ℕ → ℕ
set_at f i j n a b = if a == i && b == j then n else f a b

-- is_response_throttled, with the number that the generator gives, and the static ratio.
unfoldable pub is_response_throttled : Option ℕ → ℕ → Option ℕ → Bool × Option ℕ
is_response_throttled none number ratio = (false, ratio)
is_response_throttled (some first) number none = (ltb number first, some first)
is_response_throttled (some first) number (some ratio) = (ltb number ratio, some ratio)

-- The request as H2Server_Request_Message reads it.
abbrev pub http_request : Request → HttpRequest
http_request req = record {
  method = req.method;
  scheme = req.uri.scheme;
  host = req.uri.host;
  raw_path = req.uri.raw_path;
  raw_query = req.uri.raw_query;
  header = map (λ h. (h.0, h.1.value)) req.header;
  payload = req.payload;
}

-- How the callback ends.
pub data Outcome : Type 0 where
  unmatched : Outcome
  processed throttled offloaded answered : ℕ → ℕ → Outcome

abbrev pub Result : Type 0
Result = Thread × Option Streams × List Action × Outcome

abbrev pub not_found : Bytes
not_found = codes "no matched entry found" ++ (13 ∷ 10 ∷ [])

-- The 404: the stream of `res` is there.
unfoldable pub answer_unmatched : Bool → ℕ → Option Streams → Thread → Option Result
unfolding find_stream respond to_header_map put_stream
answer_unmatched accepted id none t = none
answer_unmatched accepted id (some c) t =
    let h =
      to_header_map
        ((codes "content-length", codes "24") ∷ (codes "reason", codes "no match found") ∷ []) [] in
    find_stream id c >>= λ s.
    let (s', acts) = respond accepted 404 h not_found [] s in
    some (
      record t { unmatched_responses = t.unmatched_responses + 1 },
      some (put_stream id s' c),
      acts,
      unmatched,
    )

-- The entry of a map.
unfoldable pub lookup : Bytes → List (Bytes × Bytes) → Option Bytes
unfolding eqb
lookup name [] = none
lookup name ((k, v) ∷ h) = let later = lookup name h in if eqb k name then some v else later

unfoldable pub erase : Bytes → List (Bytes × Bytes) → List (Bytes × Bytes)
unfolding eqb
erase name [] = []
erase name ((k, v) ∷ h) = let later = erase name h in if eqb k name then later else (k, v) ∷ later

-- What the Lua function of a response makes of headers, trailers and payload.
abbrev pub Texts : Type 0
Texts = List (Bytes × Bytes) × List (Bytes × Bytes) × Bytes

abbrev pub status_name : Bytes
status_name = codes ":status"

abbrev pub status_of : (Bytes → ℕ) → Option Bytes → ℕ → ℕ
status_of atoi none d = d
status_of atoi (some s) d = atoi s

-- `run_lua` is update_response_with_lua for a response and a request.
module _ (full_match : Bytes → Bytes → Bool) (search : Bytes → Bytes → Option Bytes) (json : Json)
    (run_lua : ServerResponse → Message json → Texts → Texts) (atoi : Bytes → ℕ)
    (accepted : Bool) where
  -- The end of the callback for the response `j` of the request `i`, with the status code and texts.
  unfoldable pub answer_with : ℕ → ℕ → ℕ → Texts → ℕ → Option Streams → Thread → Option Result
  unfolding send_response
  answer_with i j status_code texts id c t =
      let (c', acts, sent) =
        send_response accepted status_code texts.0 texts.2 texts.1 id c (t.response_sent i j) in
      some (
        record t { response_sent = set_at t.response_sent i j sent; trailer_headers = texts.1 },
        c',
        acts,
        answered i j,
      )

  -- The response behind the check of the throttle. An offloaded response is answered by a job.
  unfoldable pub answer_lua :
      ℕ → ℕ → ServerResponse → Message json → Texts → ℕ → Option Streams → Thread → Option Result
  unfolding answer_with lookup erase
  answer_lua i j r m texts id c t =
      let (h, trailers, payload) = run_lua r m texts in
      elim r.lua [
        | no_lua ↦ answer_with i j r.status_code texts id c t
        | runs_lua ↦
            answer_with i j (status_of atoi (lookup status_name h) r.status_code)
              (erase status_name h, trailers, payload) id c t
        | offloads_lua ↦ some (t, c, [], offloaded i j)
      ]

  unfoldable pub answer_matched :
      ℕ
      → ℕ
      → ServerResponse
      → ℕ
      → (ℕ → ℕ → Outside)
      → (ℕ → Outside)
      → Message json
      → ℕ
      → Option Streams
      → Thread
      → Option Result
  unfolding is_response_throttled close_stream_of produce_headers produce_payload answer_lua
  answer_matched i j r number header_env payload_env m id c t =
      let (is_throttled, ratio) = is_response_throttled r.throttle number t.scaled_throttle_ratio in
      let t' = record t { scaled_throttle_ratio = ratio } in
      if is_throttled
      then some (
        record t' {
          response_throttled = set_at t.response_throttled i j (t.response_throttled i j + 1);
        },
        close_stream_of id c,
        [],
        throttled i j,
      )
      else (produce_headers search json r.headers header_env 0 m [] >>= λ p.
          produce_payload search json r.payload payload_env p.1 >>= λ q.
          answer_lua i j r q.1 (p.0, t.trailer_headers, q.0) id c t')

  -- The callback. `responses` finds a response by the indices of its request and of its own, and
  -- `has_processor` says that the group of a request has a request processor. `none` also is a
  -- response that is not there.
  unfoldable pub on_request :
      List Service
      → (ℕ → ℕ → Option ServerResponse)
      → (ℕ → Bool)
      → (Service → ℕ)
      → ℕ
      → (ℕ → ℕ → Outside)
      → (ℕ → Outside)
      → Request
      → ℕ
      → Option Streams
      → Thread
      → Option Result
  unfolding get_matched_request from_request select_response answer_unmatched answer_matched
  on_request services responses has_processor draw number header_env payload_env req id c t =
      let t' = record t { req_received = t.req_received + 1 } in
      get_matched_request full_match json services (from_request json (http_request req)) >>= λ p.
      elim p.0 [
        | none ↦ answer_unmatched accepted id c t'
        | some service ↦
            let i = service.request.request_index in
            let j = select_response service.response_group (draw service) in
            if has_processor i
            then some (t', c, [], processed i j)
            else (responses i j >>= λ r.
                answer_matched i j r number header_env payload_env p.1 id c t')
      ]
