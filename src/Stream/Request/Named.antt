-- ===== src/Stream/Request/Named.antt =====
-- on_header_callback of asio_server_http2_handler.cc: the fields that its switch tells apart.
use maock.Prelude.{
  ◌≡◌, refl, ap, ◌∙◌, Bool, true, false, Option, some, List, [], arith, if◌then◌else◌, Bool-ext,
}
use maock.Bytes.{Bytes, codes, is_empty, eqb}
use maock.Bytes.Find.{eqb_iff}
use maock.Http2.Tokens.{
  Token, hd_pseudo_authority, hd_pseudo_method, hd_pseudo_path, hd_pseudo_scheme, hd_host,
  lookup_token,
}
use maock.Http2.Tokens.Named.{token_name, lookup_token_iff}
use maock.Stream.Request.{Request, Refusal, split_path, add_header, on_token, on_header}

abbrev is_method : Option Token → Bool
is_method (some hd_pseudo_method) = true
is_method _ = false

abbrev is_scheme : Option Token → Bool
is_scheme (some hd_pseudo_scheme) = true
is_scheme _ = false

abbrev is_authority : Option Token → Bool
is_authority (some hd_pseudo_authority) = true
is_authority _ = false

abbrev is_path : Option Token → Bool
is_path (some hd_pseudo_path) = true
is_path _ = false

abbrev is_host : Option Token → Bool
is_host (some hd_host) = true
is_host _ = false

method_only : (o : Option Token) → is_method o ≡ true → o ≡ some hd_pseudo_method
method_only (some hd_pseudo_method) e = refl
method_only _ e = absurd (ground arith)

scheme_only : (o : Option Token) → is_scheme o ≡ true → o ≡ some hd_pseudo_scheme
scheme_only (some hd_pseudo_scheme) e = refl
scheme_only _ e = absurd (ground arith)

authority_only : (o : Option Token) → is_authority o ≡ true → o ≡ some hd_pseudo_authority
authority_only (some hd_pseudo_authority) e = refl
authority_only _ e = absurd (ground arith)

path_only : (o : Option Token) → is_path o ≡ true → o ≡ some hd_pseudo_path
path_only (some hd_pseudo_path) e = refl
path_only _ e = absurd (ground arith)

host_only : (o : Option Token) → is_host o ≡ true → o ≡ some hd_host
host_only (some hd_host) e = refl
host_only _ e = absurd (ground arith)

-- A test of the token is a test of the name.
test-eqb :
    (test : Option Token → Bool) (t : Token) (name : Bytes)
    → test (some t) ≡ true
    → ((o : Option Token) → test o ≡ true → o ≡ some t)
    → test (lookup_token name) ≡ eqb name (token_name t)
test-eqb test t name taken only =
    Bool-ext (test (lookup_token name)) (eqb name (token_name t))
      (λ e.
        (eqb_iff name (token_name t)).1 ((lookup_token_iff name t).0 (only (lookup_token name) e)))
      (λ e.
        let found = (lookup_token_iff name t).1 ((eqb_iff name (token_name t)).0 e) in
        ap test found ∙ taken)

-- The fields by their names.
abbrev pub on_named : Bytes → Bytes → Bool → Request → Request × List Refusal
on_named name value no_index req =
    let host = if is_empty req.uri.host then value else req.uri.host in
    if eqb name (codes ":method")
    then (record req { method = value }, [])
    else if eqb name (codes ":scheme")
    then (record req { uri = record req.uri { scheme = value } }, [])
    else if eqb name (codes ":authority")
    then (record req { uri = record req.uri { host = value } }, [])
    else if eqb name (codes ":path")
    then (record req { uri = split_path req.uri value }, [])
    else if eqb name (codes "host")
    then add_header name value no_index (record req { uri = record req.uri { host = host } })
    else add_header name value no_index req

on_token-tests :
    (t : Option Token) (name value : Bytes) (no_index : Bool) (req : Request)
    → let host = if is_empty req.uri.host then value else req.uri.host in
      on_token t name value no_index req ≡ (
        if is_method t
        then (record req { method = value }, [])
        else if is_scheme t
        then (record req { uri = record req.uri { scheme = value } }, [])
        else if is_authority t
        then (record req { uri = record req.uri { host = value } }, [])
        else if is_path t
        then (record req { uri = split_path req.uri value }, [])
        else if is_host t
        then add_header name value no_index (record req { uri = record req.uri { host = host } })
        else add_header name value no_index req)
unfolding on_token
on_token-tests (some hd_pseudo_method) name value no_index req = refl
on_token-tests (some hd_pseudo_scheme) name value no_index req = refl
on_token-tests (some hd_pseudo_authority) name value no_index req = refl
on_token-tests (some hd_pseudo_path) name value no_index req = refl
on_token-tests (some hd_host) name value no_index req = refl
on_token-tests _ name value no_index req = refl

pub on_header-on_named :
    (name value : Bytes) (no_index : Bool) (req : Request)
    → on_header name value no_index req ≡ on_named name value no_index req
unfolding on_header
on_header-on_named name value no_index req =
    let m = test-eqb is_method hd_pseudo_method name refl method_only in
    let s = test-eqb is_scheme hd_pseudo_scheme name refl scheme_only in
    let a = test-eqb is_authority hd_pseudo_authority name refl authority_only in
    let p = test-eqb is_path hd_pseudo_path name refl path_only in
    let h = test-eqb is_host hd_host name refl host_only in
    rw (m, s, a, p, h) at (on_token-tests (lookup_token name) name value no_index req)
