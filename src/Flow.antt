-- ===== src/Flow.antt =====
-- asio_util.cc: what the server does with a request, from its message to the response of its stream.
pub mod Entries
pub mod Sent
pub mod Callback
pub mod Counted
pub mod Totals
pub mod Pool
pub mod Posted
use maock.Prelude.{
  ℕ, ◌+◌, Bool, true, false, not, ◌&&◌, ◌||◌, Option, none, some, List, [], ◌∷◌, ◌++◌, ◌==◌,
  if◌then◌else◌, length,
}
use maock.Prelude.Partial.{◌>>=◌}
use maock.Bytes.{Bytes, codes, is_empty, eqb}
use maock.Bytes.Decimal.{to_decimal}
use maock.Stream.Reply.{HeaderValue, Headers, Reply, Action, write_head, end_text, write_trailer}
use maock.Stream.Request.{emplace}
use maock.Stream.Connection.{Stream, Streams, find_stream, close_stream, put_stream}

-- map::empty
abbrev pub no_entries : List (Bytes × Bytes) → Bool
no_entries [] = true
no_entries (h ∷ hs) = false

-- A std::map of headers, in its order, as a header_map.
unfoldable pub to_header_map : List (Bytes × Bytes) → Headers → Headers
unfolding emplace
to_header_map [] h = h
to_header_map ((name, value) ∷ hs) h =
    to_header_map hs (emplace name (record { value = value; sensitive = false }) h)

-- headers.count
unfoldable pub has_header : Bytes → Headers → Bool
unfolding eqb
has_header name [] = false
has_header name ((k, v) ∷ h) = eqb k name || has_header name h

abbrev pub content_length : Bytes
content_length = codes "content-length"

-- The headers that send_response writes.
unfoldable pub response_headers : List (Bytes × Bytes) → Bytes → List (Bytes × Bytes) → Headers
unfolding to_header_map has_header emplace to_decimal
response_headers resp_headers payload trailers =
    let h = to_header_map resp_headers [] in
    let v : HeaderValue = record { value = to_decimal (length payload); sensitive = false } in
    if not (is_empty payload) && not (has_header content_length h) && no_entries trailers
    then emplace content_length v h
    else h

-- The calls of the response of a stream: `accepted` is that of start_response.
unfoldable pub respond :
    Bool → ℕ → Headers → Bytes → List (Bytes × Bytes) → Stream → Stream × List Action
unfolding write_head end_text write_trailer to_header_map
respond accepted status_code h payload trailers s =
    let (r1, a1) = write_head s.request.method accepted status_code h s.response in
    let (r2, a2) = end_text s.request.method accepted payload r1 in
    let (r3, a3) = write_trailer (to_header_map trailers []) r2 in
    if no_entries trailers
    then (record s { response = r2 }, a1 ++ a2)
    else (record s { response = r3 }, a1 ++ (a2 ++ a3))

-- send_response: `none` is a handler that is gone. The streams of the handler, what is asked of it,
-- and matchedResponsesSent.
unfoldable pub send_response :
    Bool
    → ℕ
    → List (Bytes × Bytes)
    → Bytes
    → List (Bytes × Bytes)
    → ℕ
    → Option Streams
    → ℕ
    → Option Streams × List Action × ℕ
unfolding close_stream find_stream put_stream respond response_headers
send_response accepted status_code resp_headers payload trailers id none sent = (none, [], sent)
send_response accepted status_code resp_headers payload trailers id (some c) sent =
    let h = response_headers resp_headers payload trailers in
    let answered : Option Streams × List Action × ℕ = elim (find_stream id c) [
      | none ↦ (some c, [], sent)
      | some s ↦
          let (s', acts) = respond accepted status_code h payload trailers s in
          (some (put_stream id s' c), acts, sent + 1)
    ] in
    if status_code == 0 then (some (close_stream id c), [], sent) else answered

-- close_stream of a handler that may be gone
unfoldable pub close_stream_of : ℕ → Option Streams → Option Streams
unfolding close_stream
close_stream_of id none = none
close_stream_of id (some c) = some (close_stream id c)
