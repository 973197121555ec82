-- ===== src/Flow/Posted.antt =====
-- asio_util.cc: answers that are posted to the thread of a connection, by the job that runs the Lua
-- function of a response and by other threads.
pub mod Answers
use maock.Prelude.{ℕ, Bool, not, Option, none, some, List, [], if◌then◌else◌}
use maock.Bytes.{Bytes}
use maock.Prelude.Partial.{◌>>=◌}
use maock.Response.Pointer.{Json}
use maock.Message.{Message}
use maock.Stream.Reply.{Action}
use maock.Stream.Connection.{Streams}
use maock.Flow.{send_response}
use maock.Flow.Callback.{ServerResponse, Texts, lookup, erase, status_name, status_of}

-- A call of send_response that is posted, with the values that are bound.
pub record Posted : Type 0 where
  pub status_code : ℕ
  pub resp_headers : List (Bytes × Bytes)
  pub resp_payload : Bytes
  pub trailer_headers : List (Bytes × Bytes)
  pub stream_id : ℕ

-- The call itself, on the streams of the handler at that time.
unfoldable pub run_posted : Bool → Posted → Option Streams → ℕ → Option Streams × List Action × ℕ
unfolding send_response
run_posted accepted p c sent =
    send_response accepted p.status_code p.resp_headers p.resp_payload p.trailer_headers p.stream_id
      c sent

abbrev pub or_empty : Option Bytes → Bytes
or_empty none = []
or_empty (some s) = s

-- update_response_with_lua. `has_ios` says that `ios` is not null; `none` posts nothing.
unfoldable pub update_response_with_lua :
    (json : Json)
    → (ServerResponse → Message json → Texts → Texts)
    → (Bytes → ℕ)
    → ServerResponse
    → Message json
    → Texts
    → Bool
    → ℕ
    → Option Posted
unfolding lookup erase
update_response_with_lua json run_lua atoi r m texts has_ios id =
    let (h, trailers, payload) = run_lua r m texts in
    if has_ios
    then some (record {
      status_code = status_of atoi (lookup status_name h) r.status_code;
      resp_headers = erase status_name h;
      resp_payload = payload;
      trailer_headers = [];
      stream_id = id;
    })
    else none

-- send_response_from_another_thread; `resp_headers[status]` is empty where there is none.
unfoldable pub send_response_from_another_thread :
    (Bytes → ℕ) → Bool → ℕ → List (Bytes × Bytes) → Bytes → List (Bytes × Bytes) → Option Posted
unfolding lookup erase
send_response_from_another_thread atoi has_target id resp_headers resp_payload trailer_headers =
    if has_target
    then some (record {
      status_code = atoi (or_empty (lookup status_name resp_headers));
      resp_headers = erase status_name resp_headers;
      resp_payload = resp_payload;
      trailer_headers = trailer_headers;
      stream_id = id;
    })
    else none
