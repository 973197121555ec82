-- ===== src/Tests/Serving.antt =====
-- asio_util.cc on a server with one response, and one request for it.
use maock.Prelude.{
  ℕ, ◌+◌, ◌≤◌, ◌≡◌, refl, Bool, true, false, Option, none, some, List, [], ◌∷◌, length,
}
use maock.Bytes.{Bytes, codes}
use maock.Response.Argument.{Outside}
use maock.Message.{Message}
use maock.Match.{all_match}
use maock.Server.{Service}
use maock.Stream.Reply.{Reply, new_reply}
use maock.Stream.Request.{new_request}
use maock.Stream.Connection.{Stream, Streams}
use maock.Flow.Callback.{
  ServerResponse, set_at, no_lua, offloads_lua, offloaded, Thread, Outcome, answered, unmatched,
  Texts, on_request,
}
use maock.Flow.Counted.{one_unmatched, one_throttled, one_answered, one_offloaded}
use maock.Flow.Totals.{
  new_thread, count_of, Served, fresh, serves, answers, jobs_for, Served-counts,
}
use maock.Flow.Posted.{Posted, run_posted, update_response_with_lua}
use maock.Tests.Matching.{json, get}

abbrev get_stream : Stream
unfolding new_request new_reply
get_stream = record {
  request = record new_request { method = codes "GET" };
  response = new_reply false;
}

abbrev streams : Streams
streams = (1, get_stream) ∷ []

-- Nothing is matched by regular expressions, and there is no Lua.
abbrev no_match : Bytes → Bytes → Bool
no_match s r = false

abbrev no_search : Bytes → Bytes → Option Bytes
no_search s r = none

abbrev same_texts : ServerResponse → Message json → Texts → Texts
same_texts r m texts = texts

abbrev zero_of : Bytes → ℕ
zero_of s = 0

-- No service: each request is answered with 404.
abbrev one_served : Thread
one_served = record new_thread { req_received = 1; unmatched_responses = 1 }

abbrev no_response : ℕ → ℕ → Option ServerResponse
no_response i j = none

abbrev outside : Outside
outside = record { timestamp = []; dis = λ k. 0; dis2 = 0 }

one_served-Served :
    Served no_match no_search json same_texts zero_of true (unmatched ∷ []) [] one_served
unfolding on_request
one_served-Served =
    serves [] no_response (λ i. false) (λ s. 0) 0 (λ i j. outside) (λ i. outside) new_request 1
      (some streams) fresh refl

-- A service without rules, and its response.
abbrev any_service : Service
any_service = record {
  request = record { match_rules = []; name = codes "any"; request_index = 0 };
  response_group = record { distribution_map = (1, 0) ∷ []; total_weight = 1 };
}

abbrev hello : ServerResponse
hello = record {
  status_code = 200;
  headers = [];
  payload = record { tokens = codes "hello" ∷ []; arguments = [] };
  throttle = none;
  lua = no_lua;
}

abbrev two_served : Thread
two_served = record one_served { req_received = 2; response_sent = set_at (λ i j. 0) 0 0 1 }

two_served-Served :
    Served no_match no_search json same_texts zero_of true
      (answered 0 0 ∷ unmatched ∷ [])
      []
      two_served
unfolding on_request get_stream all_match
two_served-Served =
    serves (any_service ∷ []) (λ i j. some hello) (λ i. false) (λ s. 0) 0 (λ i j. outside)
      (λ i. outside) new_request 1 (some streams) one_served-Served refl

abbrev three_served : Thread
three_served = record two_served { req_received = 3 }

-- A third request is answered by a job.
three_served-Served :
    Served no_match no_search json same_texts zero_of true
      (offloaded 0 0 ∷ answered 0 0 ∷ unmatched ∷ [])
      ((0, 0) ∷ [])
      three_served
unfolding on_request get_stream all_match
three_served-Served =
    serves (any_service ∷ []) (λ i j. some (record hello { lua = offloads_lua })) (λ i. false)
      (λ s. 0) 0 (λ i j. outside) (λ i. outside) new_request 1 (some streams) two_served-Served refl

abbrev posted : Posted
posted = record {
  status_code = 200;
  resp_headers = [];
  resp_payload = codes "hello";
  trailer_headers = [];
  stream_id = 1;
}

abbrev all_served : Thread
all_served = record three_served { response_sent = set_at three_served.response_sent 0 0 2 }

all_served-Served :
    Served no_match no_search json same_texts zero_of true
      (offloaded 0 0 ∷ answered 0 0 ∷ unmatched ∷ [])
      []
      all_served
unfolding update_response_with_lua run_posted get_stream
all_served-Served =
    answers [] [] 0 0 hello get ([], [], codes "hello") 1 posted (some streams) three_served-Served
      refl refl

abbrev ends : List Outcome
ends = offloaded 0 0 ∷ answered 0 0 ∷ unmatched ∷ []

Served-counts_example :
    (all_served.req_received ≡ length ends)
    × (all_served.unmatched_responses ≡ count_of one_unmatched ends)
    × ((a b : ℕ)
        → (all_served.response_throttled a b ≡ count_of (one_throttled a b) ends)
          × (all_served.response_sent a b + jobs_for a b []
              ≤ count_of (one_answered a b) ends + count_of (one_offloaded a b) ends))
Served-counts_example =
    Served-counts no_match no_search json same_texts zero_of true all_served-Served
