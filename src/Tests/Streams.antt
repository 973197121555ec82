-- ===== src/Tests/Streams.antt =====
-- asio_server_http2_handler.cc on the frames of two requests that are mixed.
use maock.Prelude.{ℕ, ◌≡◌, refl, true, false, none, some, List, [], ◌∷◌, arith}
use maock.Bytes.{codes}
use maock.Stream.Request.{new_request}
use maock.Stream.Request.Fields.{Field, on_fields, IsBounded, new_request-IsBounded}
use maock.Stream.Connection.{
  Streams, Event, Output, begin_headers, headers_received, data_chunk, data_received, stream_closed,
  find_stream, run,
}
use maock.Stream.Connection.Isolated.{of_stream, stream_run, IsFresh, run-stream_run}
use maock.Stream.Connection.Complete.{field_event}

abbrev fields : List Field
fields =
    (codes ":method", codes "POST", false)
    ∷ (codes ":path", codes "/a%20b?c=d", false)
    ∷ (codes "host", codes "one", false)
    ∷ (codes ":authority", codes "two", false)
    ∷ (codes "x", codes "y", true)
    ∷ []

fields_path : (on_fields fields new_request).0.uri.path ≡ codes "/a b"
unfolding on_fields new_request
fields_path = refl

new_request-IsBounded_example : IsBounded (on_fields fields new_request).0
new_request-IsBounded_example = new_request-IsBounded fields

-- Stream 1 posts in two chunks; stream 3 is opened between them and closed.
abbrev events : List (ℕ × Event)
events =
    (1, begin_headers true)
    ∷ (1, field_event (codes ":method", codes "POST", false))
    ∷ (3, begin_headers true)
    ∷ (1, headers_received true false)
    ∷ (1, data_chunk (codes "ab"))
    ∷ (3, stream_closed)
    ∷ (1, data_chunk (codes "c"))
    ∷ (1, data_received true)
    ∷ []

events-IsFresh : IsFresh [] events
events-IsFresh = ground arith

run-stream_run_example :
    (c : Streams) × (outs : List (ℕ × Output)) × (run events [] ≡ some (c, outs))
    × ((id : ℕ) → (find_stream id c, of_stream id outs) ≡ stream_run (of_stream id events) none)
run-stream_run_example = run-stream_run events events-IsFresh

abbrev post : List Field
post = (codes ":method", codes "POST", false) ∷ []
