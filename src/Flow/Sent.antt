-- ===== src/Flow/Sent.antt =====
-- send_response of asio_util.cc, and what the session reads of the response.
use maock.Prelude.{ℕ, false, some, length}
use maock.Bytes.{Bytes}
use maock.Stream.Reply.{Headers, body_started, Reply, string}
use maock.Stream.Connection.{Stream}

-- The response behind the calls.
abbrev sent_reply : ℕ → Headers → Bytes → Headers → Reply
sent_reply status_code h payload t = record {
  header = h;
  trailers = t;
  generator = some (string payload);
  status_code = status_code;
  state = body_started;
  payload_size = length payload;
  pushed = false;
  push_promise_sent = false;
}
