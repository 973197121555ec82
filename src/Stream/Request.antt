-- ===== src/Stream/Request.antt =====
-- asio_server_request.h, split_path of asio_common.h, and on_header_callback and
-- on_data_chunk_recv_callback of asio_server_http2_handler.cc: how a request is put together.
pub mod Named
pub mod Fields
use maock.Prelude.{
  ℕ, ◌+◌, Bool, not, Option, none, some, List, [], ◌∷◌, ◌++◌, ltb, if◌then◌else◌, length,
}
use maock.Bytes.{Bytes, is_empty, lex_lt}
use maock.Util.Host.{before, behind}
use maock.Util.Percent.{percent_decode}
use maock.Http2.Tokens.{
  Token, hd_pseudo_authority, hd_pseudo_method, hd_pseudo_path, hd_pseudo_scheme, hd_host,
  lookup_token,
}
use maock.Stream.Reply.{HeaderValue, Headers}

-- uri_ref
pub record UriRef : Type 0 where
  pub scheme : Bytes
  pub host : Bytes
  pub path : Bytes
  pub raw_path : Bytes
  pub raw_query : Bytes
  pub fragment : Bytes

-- asio_server_request, without the endpoint of the peer and the on_data callback, which nothing sets.
pub record Request : Type 0 where
  pub header : Headers
  pub method : Bytes
  pub uri : UriRef
  pub header_buffer_size : ℕ
  pub payload : Bytes

unfoldable pub new_request : Request
new_request = record {
  header = [];
  method = [];
  uri = record { scheme = []; host = []; path = []; raw_path = []; raw_query = []; fragment = [] };
  header_buffer_size = 0;
  payload = [];
}

-- `first` up to the end where there is no question mark
unfoldable pub split_path : UriRef → Bytes → UriRef
unfolding before behind percent_decode
split_path dst s = record dst {
  path = percent_decode (before b'?' s);
  raw_path = before b'?' s;
  raw_query = elim (behind b'?' s) [ none ↦ [] | some query ↦ query ];
}

-- multimap::emplace: behind the entries whose names are not greater.
unfoldable pub emplace : Bytes → HeaderValue → Headers → Headers
unfolding lex_lt
emplace name v [] = (name, v) ∷ []
emplace name v ((k, w) ∷ h) =
    let later = (k, w) ∷ emplace name v h in if lex_lt name k then (name, v) ∷ (k, w) ∷ h else later

-- 64_k
abbrev pub header_limit : ℕ
header_limit = 65536

-- What the session is asked for: `rst_stream` is nghttp2_submit_rst_stream with
-- NGHTTP2_INTERNAL_ERROR.
pub data Refusal : Type 0 where
  rst_stream : Refusal

-- The default case of the switch. `no_index` is NGHTTP2_NV_FLAG_NO_INDEX of the flags.
unfoldable pub add_header : Bytes → Bytes → Bool → Request → Request × List Refusal
unfolding emplace
add_header name value no_index req =
    let v : HeaderValue = record { value = value; sensitive = no_index } in
    let size = req.header_buffer_size + length name + length value in
    if ltb header_limit size
    then (req, rst_stream ∷ [])
    else (record req { header_buffer_size = size; header = emplace name v req.header }, [])

-- The switch of on_header_callback over a token, with the fall-through of HD_HOST.
unfoldable pub on_token : Option Token → Bytes → Bytes → Bool → Request → Request × List Refusal
unfolding split_path add_header
on_token (some hd_pseudo_method) name value no_index req = (record req { method = value }, [])
on_token (some hd_pseudo_scheme) name value no_index req =
    (record req { uri = record req.uri { scheme = value } }, [])
on_token (some hd_pseudo_authority) name value no_index req =
    (record req { uri = record req.uri { host = value } }, [])
on_token (some hd_pseudo_path) name value no_index req =
    (record req { uri = split_path req.uri value }, [])
on_token (some hd_host) name value no_index req =
    let host = if is_empty req.uri.host then value else req.uri.host in
    add_header name value no_index (record req { uri = record req.uri { host = host } })
on_token _ name value no_index req = add_header name value no_index req

-- The switch of on_header_callback, for the request of a stream.
unfoldable pub on_header : Bytes → Bytes → Bool → Request → Request × List Refusal
unfolding lookup_token on_token
on_header name value no_index req = on_token (lookup_token name) name value no_index req

-- on_data_chunk_recv_callback, for the request of a stream.
unfoldable pub on_data_chunk : Bytes → Request → Request
on_data_chunk bytes req = record req { payload = req.payload ++ bytes }
