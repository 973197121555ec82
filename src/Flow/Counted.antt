-- ===== src/Flow/Counted.antt =====
-- asio_util.cc: the counters of a thread over the requests that it gets.
use maock.Prelude.{
  ℕ, ◌+◌, ◌≤◌, ◌≡◌, refl, inl, inr, Bool, ◌&&◌, Option, none, some, List, [], arith, ◌==◌,
  if◌then◌else◌, Bool-cases, Option-cases,
}
use maock.Bytes.{Bytes}
use maock.Response.Pointer.{Json}
use maock.Response.Argument.{Outside}
use maock.Response.Produce.{produce_headers, produce_payload}
use maock.Message.{Message, from_request}
use maock.Server.{Service, get_matched_request}
use maock.Server.Group.{select_response}
use maock.Stream.Request.{Request}
use maock.Stream.Connection.{Streams, find_stream}
use maock.Flow.{send_response}
use maock.Flow.Callback.{
  Lua, no_lua, runs_lua, offloads_lua, ServerResponse, Thread, set_at, is_response_throttled,
  http_request, Outcome, unmatched, processed, throttled, offloaded, answered, Result,
  answer_unmatched, lookup, erase, Texts, status_name, status_of, answer_with, answer_lua,
  answer_matched, on_request,
}

abbrev pub one_unmatched : Outcome → ℕ
one_unmatched unmatched = 1
one_unmatched (processed i j) = 0
one_unmatched (throttled i j) = 0
one_unmatched (offloaded i j) = 0
one_unmatched (answered i j) = 0

abbrev pub one_throttled : ℕ → ℕ → Outcome → ℕ
one_throttled a b unmatched = 0
one_throttled a b (processed i j) = 0
one_throttled a b (throttled i j) = if a == i && b == j then 1 else 0
one_throttled a b (offloaded i j) = 0
one_throttled a b (answered i j) = 0

abbrev pub one_answered : ℕ → ℕ → Outcome → ℕ
one_answered a b unmatched = 0
one_answered a b (processed i j) = 0
one_answered a b (throttled i j) = 0
one_answered a b (offloaded i j) = 0
one_answered a b (answered i j) = if a == i && b == j then 1 else 0

abbrev pub one_offloaded : ℕ → ℕ → Outcome → ℕ
one_offloaded a b unmatched = 0
one_offloaded a b (processed i j) = 0
one_offloaded a b (throttled i j) = 0
one_offloaded a b (offloaded i j) = if a == i && b == j then 1 else 0
one_offloaded a b (answered i j) = 0

-- What an outcome changes of the counters but for req_received.
abbrev pub Counts : Thread → Thread → Outcome → Type 0
Counts t t' o =
    (t'.unmatched_responses ≡ t.unmatched_responses + one_unmatched o)
    × ((a b : ℕ) → t'.response_throttled a b ≡ t.response_throttled a b + one_throttled a b o)
    × ((a b : ℕ)
        → (t.response_sent a b ≤ t'.response_sent a b)
          × (t'.response_sent a b ≤ t.response_sent a b + one_answered a b o))

-- The same for a result.
abbrev CountsResult : Thread → Option Result → Type 0
CountsResult t none = Unit
CountsResult t (some (t', c, acts, o)) = Counts t t' o × (t'.req_received ≡ t.req_received)

pub send_response-count :
    (accepted : Bool) (code : ℕ) (h : List (Bytes × Bytes)) (payload : Bytes)
    (trailers : List (Bytes × Bytes)) (id : ℕ) (c : Option Streams) (sent : ℕ)
    → (sent ≤ (send_response accepted code h payload trailers id c sent).2)
      × ((send_response accepted code h payload trailers id c sent).2 ≤ sent + 1)
unfolding send_response
send_response-count accepted code h payload trailers id none sent = (omega arith, omega arith)
send_response-count accepted code h payload trailers id (some c) sent =
    elim (Bool-cases (code == 0)) [
      | inl zero_code ↦ rw zero_code (omega arith, omega arith)
      | inr other ↦ elim (Option-cases (find_stream id c)) [
        | inl missing ↦ rw (other, missing) (omega arith, omega arith)
        | inr (s, found) ↦ rw (other, found) (omega arith, omega arith)
      ]
    ]

pub set_at-count :
    (f : ℕ → ℕ → ℕ) (i j n a b : ℕ)
    → f i j ≤ n
    → n ≤ f i j + 1
    → (f a b ≤ set_at f i j n a b)
      × (set_at f i j n a b ≤ f a b + (if a == i && b == j then 1 else 0))
set_at-count f i j n a b l u = ground (arith, l, u)

set_at-next :
    (f : ℕ → ℕ → ℕ) (i j a b : ℕ)
    → set_at f i j (f i j + 1) a b ≡ f a b + (if a == i && b == j then 1 else 0)
set_at-next f i j a b = ground arith

answer_unmatched-Counts :
    (accepted : Bool) (id : ℕ) (c : Option Streams) (t : Thread)
    → CountsResult t (answer_unmatched accepted id c t)
unfolding answer_unmatched
answer_unmatched-Counts accepted id none t = tt
answer_unmatched-Counts accepted id (some c) t = elim (Option-cases (find_stream id c)) [
  | inl missing ↦ rw missing tt
  | inr (s, found) ↦ rw found ((refl, λ a b. omega arith, λ a b. (omega arith, omega arith)), refl)
]

module _ (full_match : Bytes → Bytes → Bool) (search : Bytes → Bytes → Option Bytes) (json : Json)
    (run_lua : ServerResponse → Message json → Texts → Texts) (atoi : Bytes → ℕ)
    (accepted : Bool) where
  answer_with-Counts :
      (i j code : ℕ) (texts : Texts) (id : ℕ) (c : Option Streams) (t : Thread)
      → CountsResult t
          (answer_with full_match search json run_lua atoi accepted i j code texts id c t)
  unfolding answer_with
  answer_with-Counts i j code texts id c t =
      let s =
        send_response-count accepted code texts.0 texts.2 texts.1 id c (t.response_sent i j) in
      let sent =
        (send_response accepted code texts.0 texts.2 texts.1 id c (t.response_sent i j)).2 in
      (
        (omega arith, λ a b. omega arith, λ a b. set_at-count t.response_sent i j sent a b s.0 s.1),
        refl,
      )

  answer_lua-Counts :
      (i j : ℕ) (r : ServerResponse) (m : Message json) (texts : Texts) (id : ℕ)
      (c : Option Streams) (t : Thread)
      → CountsResult t
          (answer_lua full_match search json run_lua atoi accepted i j r m texts id c t)
  unfolding answer_lua
  answer_lua-Counts i j r m texts id c t = by_lua r.lua
    where
      by_lua :
          (lua : Lua)
          → CountsResult t (
              answer_lua full_match search json run_lua atoi accepted i j
                (record r { lua = lua })
                m
                texts
                id
                c
                t)
      by_lua no_lua = answer_with-Counts i j r.status_code texts id c t
      by_lua runs_lua =
          let p = run_lua (record r { lua = runs_lua }) m texts in
          answer_with-Counts i j (status_of atoi (lookup status_name p.0) r.status_code)
            (erase status_name p.0, p.1, p.2) id c t
      by_lua offloads_lua =
          ((omega arith, λ a b. omega arith, λ a b. (omega arith, omega arith)), refl)

  answer_matched-Counts :
      (i j : ℕ) (r : ServerResponse) (number : ℕ) (header_env : ℕ → ℕ → Outside)
      (payload_env : ℕ → Outside) (m : Message json) (id : ℕ) (c : Option Streams) (t : Thread)
      → CountsResult t (
          answer_matched full_match search json run_lua atoi accepted i j r number header_env
            payload_env m id c t)
  unfolding answer_matched
  answer_matched-Counts i j r number header_env payload_env m id c t =
      let throttle = is_response_throttled r.throttle number t.scaled_throttle_ratio in
      let t' = record t { scaled_throttle_ratio = throttle.1 } in
      elim (Bool-cases throttle.0) [
        | inl stopped ↦ rw stopped (
          (
            omega arith,
            λ a b. set_at-next t.response_throttled i j a b,
            λ a b. (omega arith, omega arith),
          ),
          refl,
        )
        | inr goes ↦ elim (Option-cases (produce_headers search json r.headers header_env 0 m [])) [
          | inl stop ↦ rw (goes, stop) tt
          | inr (p, first) ↦
              elim (Option-cases (produce_payload search json r.payload payload_env p.1)) [
                | inl stop ↦ rw (goes, first, stop) tt
                | inr (q, second) ↦
                    rw (goes, first, second)
                      (answer_lua-Counts i j r q.1 (p.0, t.trailer_headers, q.0) id c t')
              ]
        ]
      ]

  -- What a request that ends must change.
  abbrev pub CountsRequest : Thread → Option Result → Type 0
  CountsRequest t none = Unit
  CountsRequest t (some (t', c, acts, o)) = Counts t t' o × (t'.req_received ≡ t.req_received + 1)

  counted :
      (t : Thread) (r : Option Result)
      → CountsResult (record t { req_received = t.req_received + 1 }) r
      → CountsRequest t r
  counted t none h = tt
  counted t (some (t', c, acts, o)) h = h

  pub on_request-CountsRequest :
      (services : List Service) (responses : ℕ → ℕ → Option ServerResponse)
      (has_processor : ℕ → Bool) (draw : Service → ℕ) (number : ℕ) (header_env : ℕ → ℕ → Outside)
      (payload_env : ℕ → Outside) (req : Request) (id : ℕ) (c : Option Streams) (t : Thread)
      → CountsRequest t (
          on_request full_match search json run_lua atoi accepted services responses has_processor
            draw number header_env payload_env req id c t)
  unfolding on_request
  on_request-CountsRequest services responses has_processor draw number header_env payload_env req
        id c t =
      let m = from_request json (http_request req) in
      let t' = record t { req_received = t.req_received + 1 } in
      elim (Option-cases (get_matched_request full_match json services m)) [
        | inl stop ↦ rw stop tt
        | inr ((o, m'), matched) ↦ elim (Option-cases o) [
          | inl no_service ↦
              rw (matched, no_service)
                (counted t (answer_unmatched accepted id c t')
                  (answer_unmatched-Counts accepted id c t'))
          | inr (service, found) ↦
              let i = service.request.request_index in
              let j = select_response service.response_group (draw service) in
              elim (Bool-cases (has_processor i)) [
                | inl processor ↦
                    rw (matched, found, processor)
                      ((omega arith, λ a b. omega arith, λ a b. (omega arith, omega arith)), refl)
                | inr answers ↦ elim (Option-cases (responses i j)) [
                  | inl missing ↦ rw (matched, found, answers, missing) tt
                  | inr (r, there) ↦
                      rw (matched, found, answers, there)
                        (counted t
                          (answer_matched full_match search json run_lua atoi accepted i j r number
                            header_env payload_env m' id c t')
                          (answer_matched-Counts i j r number header_env payload_env m' id c t'))
                ]
              ]
        ]
      ]
