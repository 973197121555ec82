-- ===== src/Tests/Pipeline.antt =====
-- asio_server_http1_handler.cc on a connection with one request.
use mathlib.Core.List.{flatten}
use maock.Http2.Status.{expect_response_body}
use maock.Prelude.{ℕ, zero, suc, ◌≡◌, refl, true, false, none, some, [], ◌∷◌, ◌++◌, arith, length}
use maock.Bytes.{Bytes, codes}
use maock.Stream.Reply.{Reply, string, new_reply, body_started}
use maock.Stream.Request.{new_request}
use maock.Stream.Connection.{
  Stream, new_stream, find_stream, put_stream, emplace, create_stream, close_stream,
}
use maock.Stream.Http1.{
  Handler, has_header, zeros, inc_step, begin_message, start_response, insert_id, write_body,
  get_consecutive_stream_ids_to_respond, on_write,
}
use maock.Stream.Http1.Buffer.{filled}
use maock.Stream.Http1.Written.{texts, on_write-texts, write_body-stuck}
use maock.Stream.Http1.Answered.{
  new_handler, Reach, connects, begins, changes, starts, writes, Reach-IsOrdered,
}
use maock.Stream.Http1.Ordered.{IsOrdered}
use maock.Http2.Reason.{get_reason_phrase}
use maock.Bytes.Decimal.{to_decimal}

-- A response of two bytes to a GET.
abbrev ok_reply : Reply
unfolding new_reply
ok_reply = record (new_reply false) {
  generator = some (string (codes "hi"));
  payload_size = 2;
  state = body_started;
}

abbrev get_stream : Stream
unfolding new_request
get_stream = record { request = record new_request { method = codes "GET" }; response = ok_reply }

abbrev waiting : Handler
waiting = record {
  streams = (1, get_stream) ∷ [];
  request_count = 1;
  stream_ids_to_respond = 1 ∷ [];
  should_keep_alive = true;
}

abbrev ok_text : Bytes
ok_text =
    codes "HTTP/1.1 200 OK"
    ++ (13 ∷ 10 ∷ (codes "content-length:2" ++ (13 ∷ 10 ∷ 13 ∷ 10 ∷ codes "hi")))

waiting-texts :
    texts true (get_consecutive_stream_ids_to_respond waiting).0 waiting.streams ≡ some ok_text
unfolding texts get_consecutive_stream_ids_to_respond get_stream ok_reply flatten to_decimal
    get_reason_phrase has_header expect_response_body
waiting-texts = refl

on_write-texts_example :
    (t : Bytes) × (on_write 0 (zeros 100) waiting
      ≡ some
          (1 ∷ [], record waiting { streams = []; stream_ids_to_respond = [] }, (ok_text ++ t, 39)))
unfolding get_consecutive_stream_ids_to_respond close_stream
on_write-texts_example = on_write-texts 0 (zeros 100) waiting ok_text waiting-texts (omega arith)

length-zeros : (n : ℕ) → length (zeros n) ≡ n
length-zeros zero = refl
length-zeros (suc n) = omega (arith, length-zeros n)

write_body-stuck_example : write_body 5 (filled (zeros inc_step) []) ok_reply ≡ none
unfolding ok_reply
write_body-stuck_example =
    write_body-stuck 5 ok_reply (codes "hi") (zeros inc_step) [] refl (omega arith)
      (omega (arith, length-zeros inc_step))

abbrev one_open : Handler
one_open = record new_handler { streams = (1, new_stream) ∷ []; request_count = 1 }

one_open-Reach : Reach [] one_open
unfolding begin_message create_stream find_stream emplace
one_open-Reach = begins connects (omega arith) refl

-- The first response is ready, and starts.
waiting-Reach : Reach [] waiting
unfolding find_stream put_stream get_stream start_response insert_id
waiting-Reach = starts 1 get_stream (changes 1 get_stream one_open-Reach) refl

abbrev idle : Handler
idle = record waiting { streams = []; stream_ids_to_respond = [] }

-- It is written, and a second request comes.
written-Reach : Reach (1 ∷ []) idle
unfolding get_consecutive_stream_ids_to_respond close_stream
written-Reach =
    writes 0 (zeros 100) waiting-Reach
      (on_write-texts 0 (zeros 100) waiting ok_text waiting-texts (omega arith)).1

abbrev second_open : Handler
second_open = record idle { streams = (2, new_stream) ∷ []; request_count = 2 }

second_open-Reach : Reach (1 ∷ []) second_open
unfolding begin_message create_stream find_stream emplace
second_open-Reach = begins written-Reach (omega arith) refl

Reach-IsOrdered_example : IsOrdered (1 ∷ []) second_open
Reach-IsOrdered_example = Reach-IsOrdered second_open-Reach
