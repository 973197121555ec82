-- ===== src/Stream/Request/Fields.antt =====
-- on_header_callback of asio_server_http2_handler.cc, over all fields of a request.
use maock.Prelude.{
  ℕ, ◌+◌, ◌≤◌, ◌≡◌, refl, inl, inr, Bool, not, ◌&&◌, ◌||◌, Option, none, some, List, [], ◌∷◌, ◌++◌,
  arith, if◌then◌else◌, Bool-cases, length,
}
use maock.Bytes.{Bytes, codes, is_empty, eqb}
use maock.Bytes.Find.{eqb_iff}
use maock.Util.Host.{before, behind}
use maock.Util.Percent.{percent_decode}
use maock.Http2.Tokens.{
  Token, hd_pseudo_authority, hd_pseudo_method, hd_pseudo_path, hd_pseudo_scheme, hd_host,
  lookup_token,
}
use maock.Stream.Request.Named.{on_header-on_named}
use maock.Stream.Reply.{HeaderValue, Headers}
use maock.Stream.Request.{
  Request, Refusal, new_request, split_path, emplace, header_limit, add_header, on_token, on_header,
}

-- A field: name, value, and whether it is not to be indexed.
abbrev pub Field : Type 0
Field = Bytes × Bytes × Bool

-- The callbacks for the fields, one after the other.
unfoldable pub on_fields : List Field → Request → Request × List Refusal
unfolding on_header
on_fields [] req = (req, [])
on_fields ((name, value, no_index) ∷ fs) req =
    let (req', rs) = on_header name value no_index req in
    let (req'', more) = on_fields fs req' in (req'', rs ++ more)

-- The value of the last field of a name.
unfoldable pub last_value : Bytes → Bytes → List Field → Bytes
unfolding eqb
last_value name v [] = v
last_value name v ((n, w, i) ∷ fs) = last_value name (if eqb n name then w else v) fs

abbrev pub header_size : Headers → ℕ
header_size [] = 0
header_size ((name, v) ∷ h) = length name + length v.value + header_size h

header_size-emplace :
    (name : Bytes) (v : HeaderValue) (h : Headers)
    → header_size (emplace name v h) ≡ length name + length v.value + header_size h
unfolding emplace
header_size-emplace name v [] = refl
header_size-emplace name v ((k, w) ∷ h) = ground (arith, header_size-emplace name v h)

-- header_buffer_size counts the stored headers, and is in its bound.
abbrev pub IsBounded : Request → Type 0
IsBounded req =
    (req.header_buffer_size ≡ header_size req.header) × (req.header_buffer_size ≤ header_limit)

add_header-IsBounded :
    (name value : Bytes) (no_index : Bool) (req : Request)
    → IsBounded req
    → IsBounded (add_header name value no_index req).0
unfolding add_header
add_header-IsBounded name value no_index req h =
    let s = header_size-emplace name (record { value = value; sensitive = no_index }) req.header in
    ground (arith, h, s)

on_token-IsBounded :
    (t : Option Token) (name value : Bytes) (no_index : Bool) (req : Request)
    → IsBounded req
    → IsBounded (on_token t name value no_index req).0
unfolding on_token
on_token-IsBounded (some hd_pseudo_method) name value no_index req h = h
on_token-IsBounded (some hd_pseudo_scheme) name value no_index req h = h
on_token-IsBounded (some hd_pseudo_authority) name value no_index req h = h
on_token-IsBounded (some hd_pseudo_path) name value no_index req h = h
on_token-IsBounded (some hd_host) name value no_index req h =
    let host = if is_empty req.uri.host then value else req.uri.host in
    add_header-IsBounded name value no_index (record req { uri = record req.uri { host = host } }) h
on_token-IsBounded _ name value no_index req h = add_header-IsBounded name value no_index req h

on_fields-IsBounded :
    (fs : List Field) (req : Request) → IsBounded req → IsBounded (on_fields fs req).0
unfolding on_fields on_header
on_fields-IsBounded [] req h = h
on_fields-IsBounded ((name, value, no_index) ∷ fs) req h =
    on_fields-IsBounded fs (on_header name value no_index req).0
      (on_token-IsBounded (lookup_token name) name value no_index req h)

-- The fields that are stored: all but four pseudo-header fields.
abbrev pub is_stored : Bytes → Bool
is_stored name = not (
    eqb name (codes ":method")
    || eqb name (codes ":scheme")
    || eqb name (codes ":authority")
    || eqb name (codes ":path"))

abbrev pub stored_size : List Field → ℕ
stored_size [] = 0
stored_size ((name, value, i) ∷ fs) =
    (if is_stored name then length name + length value else 0) + stored_size fs

abbrev pub stored : List Field → Headers → Headers
stored [] h = h
stored ((name, value, i) ∷ fs) h =
    stored fs
      (if is_stored name then emplace name (record { value = value; sensitive = i }) h else h)

-- The last :authority, and before the first one the first host that is not empty.
abbrev pub host_of : Bytes → List Field → Bytes
host_of host [] = host
host_of host ((name, value, i) ∷ fs) =
    host_of
      (if eqb name (codes ":authority") || (eqb name (codes "host") && is_empty host)
        then value
        else host)
      fs

-- A request of its parts, without a payload; `target` is what :path says.
abbrev pub made : Headers → Bytes → Bytes → Bytes → Bytes → ℕ → Request
made h method scheme host target size = record {
  header = h;
  method = method;
  uri = record {
    scheme = scheme;
    host = host;
    path = percent_decode (before b'?' target);
    raw_path = before b'?' target;
    raw_query = elim (behind b'?' target) [ none ↦ [] | some query ↦ query ];
    fragment = [];
  };
  header_buffer_size = size;
  payload = [];
}

abbrev value_if : Bool → Bytes → Bytes → Bytes
value_if b v w = if b then v else w

on_header-made :
    (name value : Bytes) (i : Bool) (h : Headers) (method scheme host target : Bytes) (size : ℕ)
    → size + (if is_stored name then length name + length value else 0) ≤ header_limit
    → on_header name value i (made h method scheme host target size) ≡ (
      made
          (if is_stored name then emplace name (record { value = value; sensitive = i }) h else h)
          (value_if (eqb name (codes ":method")) value method)
          (value_if (eqb name (codes ":scheme")) value scheme)
          (value_if
            (eqb name (codes ":authority") || (eqb name (codes "host") && is_empty host))
            value
            host)
          (value_if (eqb name (codes ":path")) value target)
          (size + (if is_stored name then length name + length value else 0)),
      [],
    )
unfolding add_header split_path eqb
on_header-made name value i h method scheme host target size fits =
    rw (on_header-on_named name value i (made h method scheme host target size))
      (elim (Bool-cases (eqb name (codes ":method"))) [
        | inl e ↦ rw ((eqb_iff name (codes ":method")).0 e) (ground arith)
        | inr m ↦ elim (Bool-cases (eqb name (codes ":scheme"))) [
          | inl e ↦ rw ((eqb_iff name (codes ":scheme")).0 e) (ground arith)
          | inr s ↦ elim (Bool-cases (eqb name (codes ":authority"))) [
            | inl e ↦ rw ((eqb_iff name (codes ":authority")).0 e) (ground arith)
            | inr a ↦ elim (Bool-cases (eqb name (codes ":path"))) [
              | inl e ↦ rw ((eqb_iff name (codes ":path")).0 e) (ground arith)
              | inr p ↦ ground (arith, fits, m, s, a, p)
            ]
          ]
        ]
      ])

on_fields-made :
    (fs : List Field) (h : Headers) (method scheme host target : Bytes) (size : ℕ)
    → size + stored_size fs ≤ header_limit
    → on_fields fs (made h method scheme host target size) ≡ (
      made
          (stored fs h)
          (last_value (codes ":method") method fs)
          (last_value (codes ":scheme") scheme fs)
          (host_of host fs)
          (last_value (codes ":path") target fs)
          (size + stored_size fs),
      [],
    )
unfolding on_fields last_value
on_fields-made [] h method scheme host target size fits =
    let none_left : size + 0 ≡ size = omega arith in rw none_left refl
on_fields-made ((name, value, i) ∷ fs) h method scheme host target size fits =
    let now = if is_stored name then length name + length value else 0 in
    let first =
      on_header-made name value i h method scheme host target size (omega (arith, fits)) in
    let sum : size + now + stored_size fs ≡ size + (now + stored_size fs) = omega arith in
    let rest =
      on_fields-made fs
        (if is_stored name then emplace name (record { value = value; sensitive = i }) h else h)
        (value_if (eqb name (codes ":method")) value method)
        (value_if (eqb name (codes ":scheme")) value scheme)
        (value_if (eqb name (codes ":authority") || (eqb name (codes "host") && is_empty host))
          value host)
        (value_if (eqb name (codes ":path")) value target) (size + now) (omega (arith, fits)) in
    rw (first, rest, sum) refl

-- For every list of fields of which those that are stored fit in 64 KiB together: none is refused,
-- and the request is the one that their names say, with the last :method, :scheme and :path, the
-- last :authority or a host before it, and every other field in the headers.
pub on_fields-new_request :
    (fs : List Field)
    → stored_size fs ≤ header_limit
    → on_fields fs new_request ≡ (
      made
          (stored fs [])
          (last_value (codes ":method") [] fs)
          (last_value (codes ":scheme") [] fs)
          (host_of [] fs)
          (last_value (codes ":path") [] fs)
          (stored_size fs),
      [],
    )
unfolding new_request before behind percent_decode
on_fields-new_request fs fits =
    let all : 0 + stored_size fs ≡ stored_size fs = omega arith in
    rw all at (on_fields-made fs [] [] [] [] [] 0 (omega (arith, fits)))

-- Whatever fields come, whether they fit or not, header_buffer_size is the size of the names and
-- values of the headers that are stored, and at most 64 KiB.
pub new_request-IsBounded : (fs : List Field) → IsBounded (on_fields fs new_request).0
unfolding new_request
new_request-IsBounded fs = on_fields-IsBounded fs new_request (refl, omega arith)
