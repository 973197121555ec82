-- ===== src/Http2/Fields.antt =====
-- http2.cc: header lists, and copy_headers_to_nva.
pub mod Copied
use maock.Prelude.{
  ℕ, Bool, true, not, ◌&&◌, ◌||◌, Option, none, some, List, [], ◌∷◌, ◌++◌, map, ◌==◌, if◌then◌else◌,
}
use maock.Bytes.{Bytes, eqb}
use maock.Http2.Tokens.{
  Token, hd_cookie, hd_connection, hd_host, hd_http2_settings, hd_keep_alive, hd_proxy_connection,
  hd_server, hd_te, hd_transfer_encoding, hd_upgrade, hd_early_data, hd_sec_websocket_accept,
  hd_sec_websocket_key, hd_forwarded, hd_x_forwarded_for, hd_x_forwarded_proto, hd_via,
}

-- Header, and HeaderRef; `none` is the token -1.
pub record Header : Type 0 where
  pub name : Bytes
  pub value : Bytes
  pub no_index : Bool
  pub token : Option Token

-- nghttp2_nv, with the flags that the code sets.
pub record NameValue : Type 0 where
  pub name : Bytes
  pub value : Bytes
  pub no_index : Bool
  pub no_copy_name : Bool
  pub no_copy_value : Bool

-- make_nv_internal; `no_copy` is for NGHTTP2_NV_FLAG_NO_COPY_NAME and NGHTTP2_NV_FLAG_NO_COPY_VALUE.
unfoldable pub make_nv : Bool → Header → NameValue
make_nv no_copy h = record {
  name = h.name;
  value = h.value;
  no_index = h.no_index;
  no_copy_name = no_copy;
  no_copy_value = no_copy;
}

-- The bits of `flags`; copy_headers_to_nva_internal does not test that of Transfer-Encoding.
pub record Strip : Type 0 where
  pub forwarded : Bool
  pub x_forwarded_for : Bool
  pub x_forwarded_proto : Bool
  pub via : Bool
  pub early_data : Bool
  pub sec_websocket_accept : Bool
  pub sec_websocket_key : Bool
  pub transfer_encoding : Bool

-- The iterators it_forwarded, it_xff, it_xfp and it_via; `none` is the end.
pub record Pending : Type 0 where
  pub forwarded : Option Header
  pub xff : Option Header
  pub xfp : Option Header
  pub via : Option Header

abbrev pub nothing_pending : Pending
nothing_pending = record { forwarded = none; xff = none; xfp = none; via = none }

abbrev pub pushed : Option Header → List Header
pushed none = []
pushed (some h) = h ∷ []

-- The switch over the token, with the header that is pushed.
unfoldable pub copy_token : Option Token → Strip → Header → Pending → Pending × List Header
copy_token (some hd_cookie) f h p = (p, [])
copy_token (some hd_connection) f h p = (p, [])
copy_token (some hd_host) f h p = (p, [])
copy_token (some hd_http2_settings) f h p = (p, [])
copy_token (some hd_keep_alive) f h p = (p, [])
copy_token (some hd_proxy_connection) f h p = (p, [])
copy_token (some hd_server) f h p = (p, [])
copy_token (some hd_te) f h p = (p, [])
copy_token (some hd_transfer_encoding) f h p = (p, [])
copy_token (some hd_upgrade) f h p = (p, [])
copy_token (some hd_early_data) f h p = if f.early_data then (p, []) else (p, h ∷ [])
copy_token (some hd_sec_websocket_accept) f h p =
    if f.sec_websocket_accept then (p, []) else (p, h ∷ [])
copy_token (some hd_sec_websocket_key) f h p = if f.sec_websocket_key then (p, []) else (p, h ∷ [])
copy_token (some hd_forwarded) f h p =
    if f.forwarded then (p, []) else (record p { forwarded = some h }, pushed p.forwarded)
copy_token (some hd_x_forwarded_for) f h p =
    if f.x_forwarded_for then (p, []) else (record p { xff = some h }, pushed p.xff)
copy_token (some hd_x_forwarded_proto) f h p =
    if f.x_forwarded_proto then (p, []) else (record p { xfp = some h }, pushed p.xfp)
copy_token (some hd_via) f h p =
    if f.via then (p, []) else (record p { via = some h }, pushed p.via)
copy_token _ f h p = (p, h ∷ [])

-- `kv->name.empty() || kv->name[0] == ':'`
abbrev pub is_unnamed : Bytes → Bool
is_unnamed [] = true
is_unnamed (c ∷ s) = c == b':'

-- The loop: the headers that are pushed.
unfoldable pub copy_from : Strip → List Header → Pending → List Header
unfolding copy_token
copy_from f [] p = []
copy_from f (h ∷ hs) p =
    let (p', out) = if is_unnamed h.name then (p, []) else copy_token h.token f h p in
    out ++ copy_from f hs p'

-- copy_headers_to_nva, and copy_headers_to_nva_nocopy with `no_copy`.
unfoldable pub copy_headers_to_nva : Bool → List NameValue → List Header → Strip → List NameValue
unfolding copy_from make_nv
copy_headers_to_nva no_copy nva headers f =
    nva ++ map (make_nv no_copy) (copy_from f headers nothing_pending)

-- get_header by a name: the last of the name.
unfoldable pub get_header : List Header → Bytes → Option Header
unfolding eqb
get_header [] name = none
get_header (h ∷ hs) name =
    let later = get_header hs name in
    elim later [ some k ↦ some k | none ↦ if eqb h.name name then some h else none ]

abbrev pub is_lws : ℕ → Bool
is_lws c = c == 9 || c == b' '

-- lws
unfoldable pub lws : Bytes → Bool
lws [] = true
lws (c ∷ s) = is_lws c && lws s

-- The loops of add_header: without the white space in front, and without that at the end but for
-- the first character.
unfoldable pub trim_front : Bytes → Bytes
trim_front [] = []
trim_front (c ∷ s) = let later = trim_front s in if is_lws c then later else c ∷ s

unfoldable pub trim_back : Bytes → Bytes
unfolding lws
trim_back [] = []
trim_back (c ∷ s) = let later = c ∷ trim_back s in if lws s then c ∷ [] else later

-- add_header
unfoldable pub add_header : List Header → Bytes → Bytes → Bool → Option Token → List Header
unfolding trim_front trim_back
add_header nva name value no_index token =
    nva
    ++ record {
      name = name;
      value = trim_back (trim_front value);
      no_index = no_index;
      token = token;
    }
      ∷ []
