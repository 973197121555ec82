-- ===== src/Tests/Received.antt =====
-- asio_server_http1_handler.cc: the callbacks of llhttp on small inputs, with an application that starts
-- the response of each request at once.
use maock.Prelude.{◌≡◌, refl, true, false, none, some, List, [], ◌∷◌}
use maock.Bytes.{Bytes, codes}
use maock.Stream.Request.{Request}
use maock.Stream.Connection.{new_stream, find_stream}
use maock.Stream.Http1.{start_response}
use maock.Stream.Http1.Receive.{Url, Receiver, header_field, header_value, receive_all}
use maock.Stream.Http1.Receive.Complete.{After, received, said}
use maock.Stream.Http1.Receive.Pieces.{each_value, receive_all-pieces}

-- A library for which every URL is a path.
abbrev only_path : Bytes → Url
only_path s = record { schema = none; host = none; port = none; path = some s; query = none }

abbrev idle : Receiver
idle = record {
  handler = record {
    streams = [];
    request_count = 0;
    stream_ids_to_respond = [];
    should_keep_alive = true;
  };
  curr_header_name = [];
  schema = [];
  host = [];
}

abbrev host_field : List (Bytes × Bytes)
host_field = (codes "Host", codes "h") ∷ []

abbrev post_request : Request
post_request =
    said false (codes "POST") (only_path (codes "/p")) host_field (codes "ab" ∷ codes "c" ∷ [])

abbrev reading : Receiver
reading = record idle {
  handler = record idle.handler { streams = (1, new_stream) ∷ []; request_count = 1 };
}

one_stream : find_stream 1 ((1, new_stream) ∷ []) ≡ some new_stream
unfolding find_stream
one_stream = refl

receive_all-pieces_example :
    (r : Receiver) × (receive_all only_path false start_response
        (header_field (codes "Ho")
          ∷ header_field (codes "St")
          ∷ header_value (codes "a")
          ∷ header_value (codes "b")
          ∷ [])
        reading
      ≡ some (r, []))
    × After reading r (record new_stream {
      request = record new_stream.request {
        header =
            received
              (each_value (codes "St") (codes "a" ∷ codes "b" ∷ []))
              new_stream.request.header;
      };
    })
receive_all-pieces_example =
    receive_all-pieces only_path false start_response (codes "Ho" ∷ []) (codes "St")
      (codes "a" ∷ codes "b" ∷ []) reading new_stream one_stream
