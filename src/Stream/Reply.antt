-- ===== src/Stream/Reply.antt =====
-- asio_server_response.cc: the response of a stream, as a state machine. What it asks of the handler
-- of the connection is a list of actions.
pub mod Started
pub mod Body
use maock.Prelude.{
  ℕ, Bool, true, false, not, ◌&&◌, Option, none, some, List, [], ◌∷◌, if◌then◌else◌, length, take,
  drop,
}
use maock.Bytes.{Bytes, codes, is_empty, eqb}
use maock.Http2.Status.{expect_response_body}

-- header_value and header_map
pub record HeaderValue : Type 0 where
  pub value : Bytes
  pub sensitive : Bool

abbrev pub Headers : Type 0
Headers = List (Bytes × HeaderValue)

-- response_state
pub data State : Type 0 where
  initial header_done body_started : State

-- deferred_generator, or string_generator with the bytes that are left.
pub data Generator : Type 0 where
  deferred : Generator
  string : Bytes → Generator

-- asio_server_response. generator_cb_ is `none` once it is moved away.
pub record Reply : Type 0 where
  pub header : Headers
  pub trailers : Headers
  pub generator : Option Generator
  pub status_code : ℕ
  pub state : State
  pub payload_size : ℕ
  pub pushed : Bool
  pub push_promise_sent : Bool

-- The calls of the handler, with what they read of the response.
pub data Action : Type 0 where
  start : ℕ → Headers → Action
  stream_error : ℕ → Action
  submit_trailer : Headers → Action
  resume : Action

-- The constructor, and pushed(true) for a pushed stream.
unfoldable pub new_reply : Bool → Reply
new_reply pushed = record {
  header = [];
  trailers = [];
  generator = some deferred;
  status_code = 200;
  state = initial;
  payload_size = 0;
  pushed = pushed;
  push_promise_sent = false;
}

abbrev pub is_initial : State → Bool
is_initial initial = true
is_initial header_done = false
is_initial body_started = false

abbrev pub is_body_started : State → Bool
is_body_started initial = false
is_body_started header_done = false
is_body_started body_started = true

abbrev pub no_headers : Headers → Bool
no_headers [] = true
no_headers (h ∷ hs) = false

-- NGHTTP2_INTERNAL_ERROR
abbrev pub internal_error : ℕ
internal_error = 2

-- The trailers move to the handler.
unfoldable pub send_trailer : Reply → Reply × List Action
send_trailer r =
    if no_headers r.trailers
    then (r, [])
    else (record r { trailers = [] }, submit_trailer r.trailers ∷ [])

unfoldable pub write_trailer : Headers → Reply → Reply × List Action
unfolding send_trailer
write_trailer h r =
    let r' = record r { trailers = h } in
    let sent = send_trailer r' in elim r.generator [ none ↦ sent | some g ↦ (r', []) ]

-- What the handler does on its own: `method` is that of the request, and `accepted` says that
-- start_response of the handler returns 0.
module _ (method : Bytes) (accepted : Bool) where
  -- expect_response_body of a method and a status code
  abbrev pub expects_body : ℕ → Bool
  expects_body code = not (eqb method (codes "HEAD")) && expect_response_body code

  unfoldable pub start_response : Reply → Reply × List Action
  unfolding expect_response_body eqb
  start_response r = (
    record r { state = if expects_body r.status_code then r.state else body_started },
    start r.status_code r.header ∷ (if accepted then [] else stream_error internal_error ∷ []),
  )

  unfoldable pub write_head : ℕ → Headers → Reply → Reply × List Action
  unfolding start_response
  write_head code h r =
      let r' = record r { status_code = code; header = h; state = header_done } in
      if not (is_initial r.state)
      then (r, [])
      else if r.pushed && not r.push_promise_sent
      then (r', [])
      else start_response r'

  -- end(generator_cb)
  unfoldable pub end_with : Generator → Reply → Reply × List Action
  unfolding write_head
  end_with g r =
      let r' = record r { generator = some g } in
      let (r'', acts) = write_head r'.status_code [] r' in
      if is_body_started r.state
      then (r, [])
      else if is_initial r.state
      then (record r'' { state = body_started }, acts)
      else (record r' { state = body_started }, resume ∷ [])

  -- end(std::string), and send_data_no_eos, which is the same
  unfoldable pub end_text : Bytes → Reply → Reply × List Action
  unfolding end_with
  end_text s r = end_with (string s) (record r { payload_size = length s })

  unfoldable pub push_promise_sent : Reply → Reply × List Action
  unfolding start_response
  push_promise_sent r =
      let r' = record r { push_promise_sent = true } in
      if r.push_promise_sent
      then (r, [])
      else if is_initial r.state
      then (r', [])
      else start_response r'

-- What a read gives: the bytes, or `none` for NGHTTP2_ERR_DEFERRED, and two of the data flags.
pub record Read : Type 0 where
  pub bytes : Option Bytes
  pub eof : Bool
  pub no_end_stream : Bool

-- A call of the generator with a buffer of `len` bytes, and the generator behind it.
unfoldable pub call_generator : ℕ → Option Generator → Option Bytes × Bool × Option Generator
call_generator len none = (some [], true, none)
call_generator len (some deferred) = (none, false, some deferred)
call_generator len (some (string s)) =
    let left = drop len s in
    (some (take len s), is_empty left, if is_empty left then none else some (string left))

unfoldable pub call_read : ℕ → Reply → Read × Reply × List Action
unfolding call_generator send_trailer
call_read len r =
    let (bytes, eof, g) = call_generator len r.generator in
    let r' = record r { generator = g } in
    let (r'', acts) = send_trailer r' in
    if eof && not (no_headers r.trailers)
    then (record { bytes = bytes; eof = eof; no_end_stream = true }, r'', acts)
    else (record { bytes = bytes; eof = eof; no_end_stream = false }, r', [])
