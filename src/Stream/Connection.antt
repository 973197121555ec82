-- ===== src/Stream/Connection.antt =====
-- The callbacks of asio_server_http2_handler.cc over the streams of asio_server_base_handler.cc, as steps
-- of a connection: what the session reports, and what is asked of it and of the application.
pub mod Isolated
pub mod Complete
use maock.Prelude.{
  ℕ, Bool, false, not, Option, none, some, List, [], ◌∷◌, ◌++◌, map, ltb, ◌==◌, if◌then◌else◌,
}
use maock.Prelude.Partial.{◌>>=◌}
use maock.Bytes.{Bytes}
use maock.Stream.Reply.{Reply, Action, new_reply, push_promise_sent}
use maock.Stream.Request.{Request, Refusal, rst_stream, new_request, on_header, on_data_chunk}
use maock.Stream.Reply.Started.{Call, act}

-- asio_server_stream
pub record Stream : Type 0 where
  pub request : Request
  pub response : Reply

unfoldable pub new_stream : Stream
unfolding new_request new_reply
new_stream = record { request = new_request; response = new_reply false }

-- streams_, in ascending order of the ids.
abbrev pub Streams : Type 0
Streams = List (ℕ × Stream)

unfoldable pub find_stream : ℕ → Streams → Option Stream
find_stream id [] = none
find_stream id ((k, s) ∷ c) = let later = find_stream id c in if k == id then some s else later

unfoldable pub emplace : ℕ → Stream → Streams → Streams
emplace id t [] = (id, t) ∷ []
emplace id t ((k, s) ∷ c) =
    let later = (k, s) ∷ emplace id t c in if ltb id k then (id, t) ∷ (k, s) ∷ c else later

-- create_stream; `none` is the assertion that the id is not there.
unfoldable pub create_stream : ℕ → Streams → Option Streams
unfolding find_stream emplace new_stream
create_stream id c = elim (find_stream id c) [
  | none ↦ some (emplace id new_stream c)
  | some s ↦ none
]

unfoldable pub close_stream : ℕ → Streams → Streams
close_stream id [] = []
close_stream id ((k, s) ∷ c) =
    let later = close_stream id c in if k == id then later else (k, s) ∷ later

-- A stream changes in its place.
unfoldable pub put_stream : ℕ → Stream → Streams → Streams
put_stream id t [] = []
put_stream id t ((k, s) ∷ c) =
    let later = (k, s) ∷ put_stream id t c in if k == id then (k, t) ∷ c else later

-- What the session reports of a stream: `is_request` is for the category NGHTTP2_HCAT_REQUEST of a
-- HEADERS frame, and `not_sent` is of such a frame too. `calls` is a call of the response by the
-- application; `accepted` is that of start_response.
pub data Event : Type 0 where
  begin_headers : Bool → Event
  header : Bool → Bytes → Bytes → Bool → Event
  headers_received : Bool → Bool → Event
  data_chunk : Bytes → Event
  data_received : Bool → Event
  stream_closed : Event
  promise_sent : Bool → Event
  not_sent : Event
  calls : Bool → Call → Event

pub data Output : Type 0 where
  resets : Output
  calls_on_request : Request → Output
  asks : Action → Output

abbrev pub refusals : List Refusal → List Output
refusals rs = map (λ r. resets) rs

abbrev pub asked : List Action → List Output
asked acts = map asks acts

-- `if (end_stream) handler->call_on_request(*strm)`
unfoldable pub call_on_request : Bool → Stream → List Output
call_on_request end_stream s = if end_stream then calls_on_request s.request ∷ [] else []

-- Each callback behind its find_stream: the stream, unless it is closed, and what is asked for.
unfoldable pub on_event : Event → Stream → Option Stream × List Output
unfolding on_header on_data_chunk call_on_request push_promise_sent act
on_event (begin_headers is_request) s = (some s, [])
on_event (header is_request name value no_index) s =
    let (req, rs) = on_header name value no_index s.request in
    if is_request then (some (record s { request = req }), refusals rs) else (some s, [])
on_event (headers_received is_request end_stream) s =
    (some s, if is_request then call_on_request end_stream s else [])
on_event (data_chunk bytes) s = (some (record s { request = on_data_chunk bytes s.request }), [])
on_event (data_received end_stream) s = (some s, call_on_request end_stream s)
on_event stream_closed s = (none, [])
on_event (promise_sent accepted) s =
    let (r, acts) = push_promise_sent s.request.method accepted s.response in
    (some (record s { response = r }), asked acts)
on_event not_sent s = (some s, resets ∷ [])
on_event (calls accepted c) s =
    let (r, acts) = act s.request.method accepted c s.response in
    (some (record s { response = r }), asked acts)

-- The stream of an id becomes `o`.
unfoldable pub set_stream : ℕ → Option Stream → Streams → Streams
unfolding put_stream close_stream
set_stream id none c = close_stream id c
set_stream id (some t) c = put_stream id t c

-- An event where no stream is open: a new stream for a request, the reset of a frame that was not
-- sent, and nothing else.
unfoldable pub on_missing : Event → List Output
on_missing not_sent = resets ∷ []
on_missing _ = []

abbrev pub opens : Event → Bool
opens (begin_headers is_request) = is_request
opens _ = false

-- One callback: `none` is the failing assertion of create_stream.
unfoldable pub step : ℕ → Event → Streams → Option (Streams × List Output)
unfolding create_stream find_stream on_event set_stream on_missing
step id e c =
    let touched : Option (Streams × List Output) = elim (find_stream id c) [
      | none ↦ some (c, on_missing e)
      | some s ↦ some (set_stream id (on_event e s).0 c, (on_event e s).1)
    ] in
    if opens e then elim (create_stream id c) [ none ↦ none | some c' ↦ some (c', []) ] else touched

-- The callbacks of a session, with the stream that each output is for.
unfoldable pub run : List (ℕ × Event) → Streams → Option (Streams × List (ℕ × Output))
unfolding step
run [] c = some (c, [])
run ((id, e) ∷ es) c =
    let later = run es in
    (step id e c >>= λ r. later r.0 >>= λ s. some (s.0, map (λ o. (id, o)) r.1 ++ s.1))
