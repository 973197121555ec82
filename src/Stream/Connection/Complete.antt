-- ===== src/Stream/Connection/Complete.antt =====
-- asio_server_http2_handler.cc: requests from their first frame to the one that ends the stream.
use mathlib.Core.List.{flatten}
use maock.Prelude.{true, false, Option, none, some, List, [], ◌∷◌, ◌++◌, map}
use maock.Bytes.{Bytes}
use maock.Stream.Request.{Request}
use maock.Stream.Request.Fields.{Field}
use maock.Stream.Connection.{
  Stream, Event, begin_headers, header, headers_received, data_chunk, data_received,
}

abbrev pub field_event : Field → Event
field_event (name, value, no_index) = header true name value no_index

-- The frames behind the fields: the headers end the stream, or data does.
abbrev pub body_events : Option (List Bytes) → List Event
body_events none = headers_received true true ∷ []
body_events (some chunks) =
    headers_received true false ∷ (map data_chunk chunks ++ data_received true ∷ [])

abbrev pub request_events : List Field → Option (List Bytes) → List Event
request_events fields body = begin_headers true ∷ (map field_event fields ++ body_events body)

abbrev pub body_of : Option (List Bytes) → Bytes
body_of none = []
body_of (some chunks) = flatten chunks

-- A stream with another request.
abbrev with_request : Stream → Request → Stream
with_request s req = record s { request = req }
