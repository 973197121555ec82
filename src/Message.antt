-- ===== src/Message.antt =====
-- H2Server_Request_Message.h: a request as the match rules and the arguments see it.
use maock.Prelude.{ℕ, Bool, Option, none, some, List, [], ◌∷◌, ◌++◌, ◌==◌, if◌then◌else◌}
use maock.Bytes.{Bytes, codes, is_empty, eqb}
use maock.Response.Pointer.{Json, c_str}

-- What the constructor reads of `asio_server_request`. `header` is the order of its map.
pub record HttpRequest : Type 0 where
  pub method : Bytes
  pub scheme : Bytes
  pub host : Bytes
  pub raw_path : Bytes
  pub raw_query : Bytes
  pub header : List (Bytes × Bytes)
  pub payload : Bytes

-- `raw_path` with the query behind it, if there is one.
unfoldable pub path_header : HttpRequest → Bytes
path_header req =
    if is_empty req.raw_query then req.raw_path else req.raw_path ++ (b'?' ∷ req.raw_query)

-- The values of the headers of one name, as `equal_range` gives them: in the order of insertion.
unfoldable pub values : Bytes → List (Bytes × Bytes) → List Bytes
unfolding eqb
values name [] = []
values name ((n, v) ∷ hs) = let later = values name hs in if eqb n name then v ∷ later else later

-- A map from numbers: the newest entry of a key is the one in force.
unfoldable pub cached : ℕ → List (ℕ × Bool) → Option Bool
cached id [] = none
cached id ((i, b) ∷ m) = let later = cached id m in if i == id then some b else later

module _ (json : Json) where
  open json use {Value, parse, null_document}

  pub record Message : Type 0 where
    pub headers : List (Bytes × Bytes)
    pub json_payload : Value
    pub json_payload_string : Option Bytes
    pub raw_payload : Bytes
    pub match_result : List (ℕ × Bool)

  abbrev pub pseudo_headers : HttpRequest → List (Bytes × Bytes)
  pseudo_headers req =
      (codes ":path", path_header req)
      ∷ (codes ":method", req.method)
      ∷ (codes ":scheme", req.scheme)
      ∷ (codes ":authority", req.host)
      ∷ []

  -- The constructor.
  unfoldable pub from_request : HttpRequest → Message
  unfolding path_header
  from_request req = record {
    headers = pseudo_headers req ++ req.header;
    json_payload = null_document;
    json_payload_string = some req.payload;
    raw_payload = req.payload;
    match_result = [];
  }

  -- What the document is, or will be once it is decoded.
  abbrev pub document_of : Option Bytes → Value → Value
  document_of none d = d
  document_of (some s) d = parse (c_str s)

  unfoldable pub decode_json_if_not_yet : Message → Message
  decode_json_if_not_yet m = record m {
    json_payload = document_of m.json_payload_string m.json_payload;
    json_payload_string = none;
  }
