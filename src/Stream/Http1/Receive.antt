-- ===== src/Stream/Http1/Receive.antt =====
-- asio_server_http1_handler.cc: the callbacks of llhttp, and the request that they put together.
pub mod Complete
pub mod Pieces
use maock.Prelude.{
  ℕ, ◌+◌, ◌/◌, Bool, true, not, Option, none, some, List, [], ◌∷◌, ◌++◌, map, if◌then◌else◌,
}
use maock.Bytes.{Bytes, codes, is_empty, eqb}
use maock.Prelude.Partial.{◌>>=◌}
use maock.Bytes.Decimal.{to_decimal}
use maock.Util.Hex.{between}
use maock.Stream.Reply.{HeaderValue, Headers}
use maock.Stream.Request.{UriRef, Request, emplace}
use maock.Stream.Connection.{Stream, Streams, find_stream, put_stream}
use maock.Stream.Http1.{Handler, begin_message, colon}

-- What http_parser_parse_url finds in a URL: the fields of `field_set`.
pub record Url : Type 0 where
  pub schema : Option Bytes
  pub host : Option Bytes
  pub port : Option ℕ
  pub path : Option Bytes
  pub query : Option Bytes

-- The members of http1_handler that the callbacks of llhttp use.
pub record Receiver : Type 0 where
  pub handler : Handler
  pub curr_header_name : Bytes
  pub schema : Bytes
  pub host : Bytes

-- The callbacks: on_url with llhttp_method_name, and message_complete with llhttp_should_keep_alive.
pub data Event : Type 0 where
  message_begin : Event
  on_url : Bytes → Bytes → Event
  header_field : Bytes → Event
  header_value : Bytes → Event
  headers_complete : Event
  on_body : Bytes → Event
  message_complete : Bool → Event

-- std::tolower of a byte in the C locale, and std::transform with it.
abbrev pub tolower : ℕ → ℕ
tolower c = if between b'A' b'Z' c then c + 32 else c

abbrev pub lower : Bytes → Bytes
lower s = map tolower s

abbrev pub with_streams : Streams → Receiver → Receiver
with_streams c r = record r { handler = record r.handler { streams = c } }

-- A callback that changes the request of the stream of request_count, if it is there.
unfoldable pub change_request : (Request → Request) → Receiver → Receiver
unfolding find_stream put_stream
change_request f r = elim (find_stream r.handler.request_count r.handler.streams) [
  | none ↦ r
  | some s ↦
      with_streams
        (put_stream r.handler.request_count (record s { request = f s.request }) r.handler.streams)
        r
]

-- uri.host, behind http1_on_url_cb
unfoldable pub url_host : Url → Bytes → Bytes
unfolding to_decimal
url_host u old = elim u.host [
  | none ↦ old
  | some h ↦ h ++ elim u.port [ none ↦ [] | some port ↦ colon ++ to_decimal port ]
]

abbrev pub or_else : Option Bytes → Bytes → Bytes
or_else none s = s
or_else (some t) s = t

unfoldable pub url_path : Url → Bytes
url_path u = or_else u.path (codes "/") ++ elim u.query [ none ↦ [] | some query ↦ b'?' ∷ query ]

unfoldable pub set_url : Bytes → Url → Request → Request
unfolding url_host url_path
set_url method u req = record req {
  method = method;
  uri = record req.uri {
    scheme = or_else u.schema req.uri.scheme;
    host = url_host u req.uri.host;
    raw_path = url_path u;
    path = url_path u;
  };
}

-- `handler->schema` and `handler->host`, which keep the first that is not empty.
abbrev pub first_kept : Option Bytes → Bytes → Bytes → Bytes
first_kept none now old = old
first_kept (some t) now old = if is_empty old then now else old

-- http1_on_url_cb of a stream that is there
unfoldable pub url_callback : Bytes → Url → Request → Receiver → Receiver
unfolding url_host
url_callback method u req r = record r {
  schema = first_kept u.schema (or_else u.schema req.uri.scheme) r.schema;
  host = first_kept u.host (url_host u req.uri.host) r.host;
}

-- headers.find: the first of the entries of a name
unfoldable pub find_header : Bytes → Headers → Option Bytes
unfolding eqb
find_header name [] = none
find_header name ((k, v) ∷ h) =
    let later = find_header name h in if eqb k name then some v.value else later

-- http1_msg_completecb, before on_request. `tls` says that the configuration has a certificate and a key.
unfoldable pub complete_request : Bool → Request → Request
unfolding find_header
complete_request tls req = record req {
  uri = record req.uri {
    host =
        if is_empty req.uri.host
        then or_else (find_header (codes "host") req.header) req.uri.host
        else req.uri.host;
    scheme =
        if is_empty req.uri.scheme
        then if tls then codes "https" else codes "http"
        else req.uri.scheme;
  };
}

unfoldable pub add_field : Bytes → Bytes → Request → Request
unfolding emplace
add_field name value req = record req {
  header = emplace name (record { value = value; sensitive = true }) req.header;
}

unfoldable pub append_body : Bytes → Request → Request
append_body bytes req = record req { payload = req.payload ++ bytes }

-- `on_request` is call_on_request for the stream of an id: what the application does on the handler
-- before it returns.
module _ (parse_url : Bytes → Url) (tls : Bool) (on_request : ℕ → Handler → Handler) where
  -- One callback, with the requests that call_on_request is called for. `none` is the failing
  -- assertion of create_stream.
  unfoldable pub receive : Event → Receiver → Option (Receiver × List Request)
  unfolding begin_message change_request set_url url_callback complete_request add_field append_body
      find_stream
  receive message_begin r = begin_message r.handler >>= λ h. some (record r { handler = h }, [])
  receive (on_url method url) r = elim (find_stream r.handler.request_count r.handler.streams) [
    | none ↦ some (r, [])
    | some s ↦ some (
      change_request (set_url method (parse_url url))
          (url_callback method (parse_url url) s.request r),
      [],
    )
  ]
  receive (header_field name) r = some (record r { curr_header_name = lower name }, [])
  receive (header_value value) r = some (change_request (add_field r.curr_header_name value) r, [])
  receive headers_complete r = some (r, [])
  receive (on_body bytes) r = some (change_request (append_body bytes) r, [])
  receive (message_complete keep_alive) r =
      let kept = record r { handler = record r.handler { should_keep_alive = keep_alive } } in
      elim (find_stream r.handler.request_count r.handler.streams) [
        | none ↦ some (kept, [])
        | some s ↦
            let ready = change_request (complete_request tls) kept in
            some (
              record ready { handler = on_request r.handler.request_count ready.handler },
              complete_request tls s.request ∷ [],
            )
      ]

  unfoldable pub receive_all : List Event → Receiver → Option (Receiver × List Request)
  unfolding receive
  receive_all [] r = some (r, [])
  receive_all (e ∷ es) r =
      let later = receive_all es in (receive e r >>= λ p. later p.0 >>= λ q. some (q.0, p.1 ++ q.1))
