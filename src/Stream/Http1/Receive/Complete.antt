-- ===== src/Stream/Http1/Receive/Complete.antt =====
-- asio_server_http1_handler.cc: a request of HTTP/1 from its first callback to its last.
use mathlib.Core.List.{flatten}
use maock.Prelude.{
  ℕ, ◌+◌, ◌%◌, ◌^◌, ◌≡◌, refl, sym, ◌∙◌, Bool, true, Option, none, some, List, [], ◌∷◌, ◌++◌, map,
  arith, ◌==◌, if◌then◌else◌,
}
use maock.Bytes.{Bytes, codes, is_empty}
use maock.Prelude.Partial.{◌>>=◌}
use maock.Stream.Reply.{HeaderValue, Headers}
use maock.Stream.Request.{Request, emplace}
use maock.Stream.Connection
use maock.Stream.Connection.{Stream, Streams, find_stream, put_stream}
use maock.Stream.Connection.Isolated.{find-put}
use maock.Stream.Http1.{Handler}
use maock.Stream.Http1.Receive.{
  Url, Receiver, Event, message_begin, on_url, header_field, header_value, headers_complete,
  on_body, message_complete, lower, change_request, url_host, url_path, or_else, find_header,
  receive, receive_all,
}

abbrev pub with_request : Stream → Request → Stream
with_request s req = record s { request = req }

-- From `r` to `r'` the stream of the current request has become `s`, and no other has changed.
pub record After (r r' : Receiver) (s : Stream) : Type 0 where
  pub count : r'.handler.request_count ≡ r.handler.request_count
  pub waiting : r'.handler.stream_ids_to_respond ≡ r.handler.stream_ids_to_respond
  pub streams :
      (k : ℕ)
      → find_stream k r'.handler.streams
        ≡ (if r.handler.request_count == k then some s else find_stream k r.handler.streams)

abbrev pub Current : Receiver → Stream → Type 0
Current r s = find_stream r.handler.request_count r.handler.streams ≡ some s

pub After-refl : (r : Receiver) (s : Stream) → Current r s → After r r s
After-refl r s h = record { count = refl; waiting = refl; streams = λ k. ground (arith, h) }

pub After-trans :
    {r r' r'' : Receiver} {s t : Stream} → After r r' s → After r' r'' t → After r r'' t
After-trans {r} {r'} a b = record {
  count = b.count ∙ a.count;
  waiting = b.waiting ∙ a.waiting;
  streams = λ k. b.streams k ∙ ground (arith, a.count, a.streams k);
}

pub After-Current : {r r' : Receiver} {s : Stream} → After r r' s → Current r' s
After-Current {r} {r'} a =
    rw (sym a.count) at (a.streams r'.handler.request_count) ∙ ground (arith, a.count)

pub change_request-After :
    (f : Request → Request) (r : Receiver) (s : Stream)
    → Current r s
    → After r (change_request f r) (with_request s (f s.request))
unfolding change_request
change_request-After f r s h =
    let n = r.handler.request_count in
    rw (h, change_request)
      (record {
        count = refl;
        waiting = refl;
        streams = λ k. find-put n k s (with_request s (f s.request)) r.handler.streams h;
      })

-- The fields of a request, and what they make of its headers.
abbrev pub field_events : List (Bytes × Bytes) → List Event
field_events [] = []
field_events ((name, value) ∷ fs) = header_field name ∷ header_value value ∷ field_events fs

abbrev pub sensitive : Bytes → HeaderValue
sensitive value = record { value = value; sensitive = true }

abbrev pub received : List (Bytes × Bytes) → Headers → Headers
received [] h = h
received ((name, value) ∷ fs) h = received fs (emplace (lower name) (sensitive value) h)

-- The callbacks of a whole request.
abbrev pub request_events : Bytes → Bytes → List (Bytes × Bytes) → List Bytes → Bool → List Event
request_events method url fields chunks keep_alive =
    message_begin
    ∷ on_url method url
    ∷ (field_events fields
        ++ headers_complete ∷ (map on_body chunks ++ message_complete keep_alive ∷ []))

-- The request that the URL, the fields and the body say.
abbrev pub host_of : Bytes → Option Bytes → Bytes
host_of host field = if is_empty host then or_else field host else host

abbrev pub scheme_of : Bool → Bytes → Bytes
scheme_of tls scheme =
    if is_empty scheme then if tls then codes "https" else codes "http" else scheme

abbrev pub said : Bool → Bytes → Url → List (Bytes × Bytes) → List Bytes → Request
said tls method u fields chunks = record {
  header = received fields [];
  method = method;
  uri = record {
    scheme = scheme_of tls (or_else u.schema []);
    host = host_of (url_host u []) (find_header (codes "host") (received fields []));
    path = url_path u;
    raw_path = url_path u;
    raw_query = [];
    fragment = [];
  };
  header_buffer_size = 0;
  payload = flatten chunks;
}

module _ (parse_url : Bytes → Url) (tls : Bool) (on_request : ℕ → Handler → Handler) where
  same : {A B : Type 0} (o : Option (A × B)) → (o >>= λ q. some (q.0, q.1)) ≡ o
  same none = refl
  same (some q) = refl

  pub receive_all-silent :
      (e : Event) (es : List Event) (r r' : Receiver)
      → receive parse_url tls on_request e r ≡ some (r', [])
      → receive_all parse_url tls on_request (e ∷ es) r ≡ receive_all parse_url tls on_request es r'
  unfolding receive_all
  receive_all-silent e es r r' h = rw h (same (receive_all parse_url tls on_request es r'))

  -- Events that come to `r'`, with the stream `s`, whatever follows them.
  abbrev pub Reaches : List Event → Receiver → Stream → Type 0
  Reaches before r s =
      (r' : Receiver) × After r r' s
      × ((es : List Event)
          → receive_all parse_url tls on_request (before ++ es) r
            ≡ receive_all parse_url tls on_request es r')

  abbrev pub with_fields : List (Bytes × Bytes) → Request → Request
  with_fields fs req = record req { header = received fs req.header }

  abbrev with_body : List Bytes → Request → Request
  with_body chunks req = record req { payload = req.payload ++ flatten chunks }

  abbrev keeping : Bool → Receiver → Receiver
  keeping keep_alive r = record r { handler = record r.handler { should_keep_alive = keep_alive } }

  -- A receiver behind call_on_request for the stream of an id.
  abbrev pub answering : ℕ → Receiver → Receiver
  answering id r = record r { handler = on_request id r.handler }

  -- The next id, which is a uint32_t.
  abbrev pub next_id : Receiver → ℕ
  next_id r = (r.handler.request_count + 1) % 2 ^ 32
