-- ===== src/Flow/Totals.antt =====
-- asio_util.cc: a thread over all requests that it got.
use mathlib.Core.Path.{subst}
use maock.Prelude.{
  ℕ, ◌+◌, ◌≤◌, ◌≡◌, refl, ap, Bool, true, ◌&&◌, Option, none, some, List, [], ◌∷◌, ◌++◌, arith,
  ◌==◌, if◌then◌else◌, length,
}
use maock.Bytes.{Bytes}
use maock.Response.Pointer.{Json}
use maock.Response.Argument.{Outside}
use maock.Message.{Message}
use maock.Server.{Service}
use maock.Stream.Request.{Request}
use maock.Stream.Reply.{Action}
use maock.Stream.Connection.{Streams}
use maock.Flow.Posted.{Posted, run_posted, update_response_with_lua}
use maock.Flow.Callback.{
  unmatched, processed, throttled, offloaded, answered, set_at, ServerResponse, Thread, Outcome,
  Texts, on_request,
}
use maock.Flow.Counted.{
  one_offloaded, send_response-count, set_at-count, one_unmatched, one_throttled, one_answered,
  CountsRequest, on_request-CountsRequest,
}

abbrev pub new_thread : Thread
new_thread = record {
  req_received = 0;
  unmatched_responses = 0;
  response_sent = λ i j. 0;
  response_throttled = λ i j. 0;
  scaled_throttle_ratio = none;
  trailer_headers = [];
}

abbrev pub count_of : (Outcome → ℕ) → List Outcome → ℕ
count_of f [] = 0
count_of f (o ∷ os) = count_of f os + f o

-- The jobs of offloaded responses that have not answered yet, by the indices of the response.
abbrev pub Jobs : Type 0
Jobs = List (ℕ × ℕ)

abbrev pub with_job : Outcome → Jobs → Jobs
with_job (offloaded i j) ws = (i, j) ∷ ws
with_job unmatched ws = ws
with_job (processed i j) ws = ws
with_job (throttled i j) ws = ws
with_job (answered i j) ws = ws

abbrev pub jobs_for : ℕ → ℕ → Jobs → ℕ
jobs_for a b [] = 0
jobs_for a b ((i, j) ∷ ws) = jobs_for a b ws + (if a == i && b == j then 1 else 0)

jobs_for-with_job :
    (a b : ℕ) (o : Outcome) (ws : Jobs)
    → jobs_for a b (with_job o ws) ≡ jobs_for a b ws + one_offloaded a b o
jobs_for-with_job a b unmatched ws = omega arith
jobs_for-with_job a b (processed i j) ws = omega arith
jobs_for-with_job a b (throttled i j) ws = omega arith
jobs_for-with_job a b (answered i j) ws = omega arith
jobs_for-with_job a b (offloaded i j) ws = refl

jobs_for-append :
    (a b : ℕ) (ws vs : Jobs) → jobs_for a b (ws ++ vs) ≡ jobs_for a b ws + jobs_for a b vs
jobs_for-append a b [] vs = omega arith
jobs_for-append a b (w ∷ ws) vs = omega (arith, jobs_for-append a b ws vs)

-- An answer that is posted counts once at most.
run_posted-count :
    (accepted : Bool) (p : Posted) (c : Option Streams) (sent : ℕ)
    → (sent ≤ (run_posted accepted p c sent).2) × ((run_posted accepted p c sent).2 ≤ sent + 1)
unfolding run_posted
run_posted-count accepted p c sent =
    send_response-count accepted p.status_code p.resp_headers p.resp_payload p.trailer_headers
      p.stream_id c sent

module _ (full_match : Bytes → Bytes → Bool) (search : Bytes → Bytes → Option Bytes) (json : Json)
    (run_lua : ServerResponse → Message json → Texts → Texts) (atoi : Bytes → ℕ)
    (accepted : Bool) where
  -- A thread, the ends of its callbacks, the last one first, and the jobs that have not answered. A
  -- job of a response posts the answer that update_response_with_lua makes, and this runs on the
  -- streams of its time with the counter of the response; without an io_service it posts nothing.
  pub data Served : List Outcome → Jobs → Thread → Type 0 where
    fresh : Served [] [] new_thread
    serves :
        {os : List Outcome} {ws : Jobs} {t t' : Thread} {c' : Option Streams} {acts : List Action}
        {o : Outcome} (services : List Service) (responses : ℕ → ℕ → Option ServerResponse)
        (has_processor : ℕ → Bool) (draw : Service → ℕ) (number : ℕ) (header_env : ℕ → ℕ → Outside)
        (payload_env : ℕ → Outside) (req : Request) (id : ℕ) (c : Option Streams)
        → Served os ws t
        → on_request full_match search json run_lua atoi accepted services responses has_processor
            draw number header_env payload_env req id c t
          ≡ some (t', c', acts, o)
        → Served (o ∷ os) (with_job o ws) t'
    answers :
        {os : List Outcome} {t : Thread} {c' : Option Streams} {acts : List Action} {sent : ℕ}
        (ws vs : Jobs) (i j : ℕ) (r : ServerResponse) (m : Message json) (texts : Texts) (id : ℕ)
        (p : Posted) (c : Option Streams)
        → Served os (ws ++ (i, j) ∷ vs) t
        → update_response_with_lua json run_lua atoi r m texts true id ≡ some p
        → run_posted accepted p c (t.response_sent i j) ≡ (c', acts, sent)
        → Served os (ws ++ vs) (record t { response_sent = set_at t.response_sent i j sent })
    posts_nothing :
        {os : List Outcome} {t : Thread} (ws vs : Jobs) (i j : ℕ)
        → Served os (ws ++ (i, j) ∷ vs) t
        → Served os (ws ++ vs) t

  -- For every thread, whatever requests it got, and whatever jobs of offloaded responses have answered
  -- since, in whatever order: it counted each request as received; as unmatched exactly those that
  -- ended so; as throttled, under each pair of indices, exactly those that ended so for this response;
  -- and as sent, under each pair, no more than those that were answered with this response in the
  -- callback, and those that were offloaded for it less the jobs that have not answered yet.
  pub Served-counts :
      {os : List Outcome} {ws : Jobs} {t : Thread}
      → Served os ws t
      → (t.req_received ≡ length os)
        × (t.unmatched_responses ≡ count_of one_unmatched os)
        × ((a b : ℕ)
            → (t.response_throttled a b ≡ count_of (one_throttled a b) os)
              × (t.response_sent a b + jobs_for a b ws
                  ≤ count_of (one_answered a b) os + count_of (one_offloaded a b) os))
  Served-counts fresh = (refl, refl, λ a b. (refl, omega arith))
  Served-counts
        (serves {os} {ws} {t} {t'} {c'} {acts} {o} services responses has_processor draw number
          header_env payload_env req id c before e) =
      let (received, unmatched_all, each) = Served-counts before in
      let step = subst (CountsRequest full_match search json run_lua atoi accepted t) e (
        on_request-CountsRequest full_match search json run_lua atoi accepted services responses
          has_processor draw number header_env payload_env req id c t) in
      let ((u, th, s), r) = step in
      (
        omega (arith, received, r),
        omega (arith, unmatched_all, u),
        λ a b. (
          omega (arith, th a b, (each a b).0),
          omega (arith, (s a b).1, (each a b).1, jobs_for-with_job a b o ws),
        ),
      )
  Served-counts (answers {os} {t} {c'} {acts} {sent} ws vs i j r m texts id p c before posted e) =
      let (received, unmatched_all, each) = Served-counts before in
      let (up, down) = run_posted-count accepted p c (t.response_sent i j) in
      (
        received,
        unmatched_all,
        λ a b. (
          (each a b).0,
          (let grown =
                (set_at-count t.response_sent i j sent a b (rw (ap (λ x. x.2) e) at up)
                  (rw (ap (λ x. x.2) e) at down)).1 in
              omega (
                arith,
                grown,
                (each a b).1,
                jobs_for-append a b ws vs,
                jobs_for-append a b ws ((i, j) ∷ vs),
              )),
        ),
      )
  Served-counts (posts_nothing {os} {t} ws vs i j before) =
      let (received, unmatched_all, each) = Served-counts before in
      (
        received,
        unmatched_all,
        λ a b. (
          (each a b).0,
          omega (
            arith,
            (each a b).1,
            jobs_for-append a b ws vs,
            jobs_for-append a b ws ((i, j) ∷ vs),
          ),
        ),
      )
