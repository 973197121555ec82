-- ===== src/Http2/Tokens/Named.antt =====
-- http2.cc: the names of the tokens and methods.
use maock.Prelude.{
  ℕ, suc, ◌-◌, ◌<◌, ◌≡◌, refl, sym, ap, ◌∙◌, ◌≢◌, ◌↔◌, inl, inr, Bool, true, ◌&&◌, some, List, [],
  ◌∷◌, ◌++◌, arith, ltb, ◌==◌, Bool-cases, &&_true, length, take, last_or,
}
use maock.Prelude.Partial.{>>=-eq-some}
use maock.Bytes.{Bytes, codes, eqb}
use maock.Bytes.Find.{eqb_iff}
use maock.Http2.Tokens.{
  case, first_equal, Switch, switch, Token, short_tokens, long_tokens, lookup_token, Method,
  short_methods, long_methods, lookup_method_token, hd_pseudo_authority, hd_pseudo_host,
  hd_pseudo_method, hd_pseudo_path, hd_pseudo_protocol, hd_pseudo_scheme, hd_pseudo_status,
  hd_accept_encoding, hd_accept_language, hd_alt_svc, hd_cache_control, hd_connection,
  hd_content_length, hd_content_type, hd_cookie, hd_date, hd_early_data, hd_expect, hd_forwarded,
  hd_host, hd_http2_settings, hd_if_modified_since, hd_keep_alive, hd_link, hd_location,
  hd_proxy_connection, hd_sec_websocket_accept, hd_sec_websocket_key, hd_server, hd_te, hd_trailer,
  hd_transfer_encoding, hd_upgrade, hd_user_agent, hd_via, hd_x_forwarded_for, hd_x_forwarded_proto,
  http_acl, http_bind, http_checkout, http_connect, http_copy, http_delete, http_get, http_head,
  http_link, http_lock, http_merge, http_mkactivity, http_mkcalendar, http_mkcol, http_move,
  http_msearch, http_notify, http_options, http_patch, http_post, http_propfind, http_proppatch,
  http_purge, http_put, http_rebind, http_report, http_search, http_source, http_subscribe,
  http_trace, http_unbind, http_unlink, http_unlock, http_unsubscribe,
}

append-last : (s : Bytes) → s ≢ [] → take (length s - 1) s ++ (last_or 0 s ∷ []) ≡ s
append-last [] n = absurd (n refl)
append-last (c ∷ []) n = refl
append-last (c ∷ d ∷ s) n =
    let e : suc (suc (length s)) - 1 ≡ suc (suc (length s) - 1) = omega arith in
    rw e (ap (λ (u : Bytes). c ∷ u) (append-last (d ∷ s) (λ q. ground arith)))

module _ {ℓ} {A : Type ℓ} (name_of : A → Bytes) where
  -- Each test of a switch is the name of what it returns.
  abbrev test_named : ℕ → List (Bytes × A) → Bool
  test_named c [] = true
  test_named c ((t, a) ∷ tests) = eqb (t ++ (c ∷ [])) (name_of a) && test_named c tests

  abbrev lasts_named : List (ℕ × List (Bytes × A)) → Bool
  lasts_named [] = true
  lasts_named ((c, tests) ∷ lasts) = test_named c tests && lasts_named lasts

  abbrev named : Switch A → Bool
  named [] = true
  named ((n, lasts) ∷ cases) = ltb 0 n && (lasts_named lasts && named cases)

  first_equal-named :
      (c : ℕ) (s : Bytes) (tests : List (Bytes × A)) (a : A)
      → test_named c tests ≡ true
      → first_equal s tests ≡ some a
      → s ++ (c ∷ []) ≡ name_of a
  unfolding first_equal
  first_equal-named c s [] a h e = absurd (ground arith)
  first_equal-named c s ((t, b) ∷ tests) a h e = elim (Bool-cases (eqb t s)) [
    | inl same ↦
        let q = (eqb_iff t s).0 same in
        let ok = (eqb_iff (t ++ (c ∷ [])) (name_of b)).0 (&&_true _ _ h).0 in
        let back : b ≡ a = ground (arith, rw same at e) in rw (← q, ← back) ok
    | inr differs ↦ first_equal-named c s tests a (&&_true _ _ h).1 (rw differs at e)
  ]

  case-lasts_named :
      (k : ℕ) (lasts : List (ℕ × List (Bytes × A))) (tests : List (Bytes × A))
      → lasts_named lasts ≡ true
      → case k lasts ≡ some tests
      → test_named k tests ≡ true
  unfolding case
  case-lasts_named k [] tests h e = absurd (ground arith)
  case-lasts_named k ((c, ts) ∷ lasts) tests h e = elim (Bool-cases (c == k)) [
    | inl same ↦
        let ok = (&&_true _ _ h).0 in
        let q : c ≡ k = ground arith in
        let back : ts ≡ tests = ground (arith, rw same at e) in rw (← back, ← q) ok
    | inr differs ↦ case-lasts_named k lasts tests (&&_true _ _ h).1 (rw differs at e)
  ]

  case-named :
      (k : ℕ) (cases : Switch A) (lasts : List (ℕ × List (Bytes × A)))
      → named cases ≡ true
      → case k cases ≡ some lasts
      → (0 < k) × (lasts_named lasts ≡ true)
  unfolding case
  case-named k [] lasts h e = absurd (ground arith)
  case-named k ((n, ls) ∷ cases) lasts h e = elim (Bool-cases (n == k)) [
    | inl same ↦
        let ok = &&_true (ltb 0 n) (lasts_named ls && named cases) h in
        let back : ls ≡ lasts = ground (arith, rw same at e) in
        (ground (arith, ok), rw (← back) (&&_true (lasts_named ls) (named cases) ok.1).0)
    | inr differs ↦
        case-named k cases lasts
          (&&_true (lasts_named ls) (named cases)
            (&&_true (ltb 0 n) (lasts_named ls && named cases) h).1).1
          (rw differs at e)
  ]

  switch-named :
      (cases : Switch A) (s : Bytes) (a : A)
      → named cases ≡ true
      → switch cases s ≡ some a
      → s ≡ name_of a
  unfolding switch
  switch-named cases s a h e =
      let (lasts, e1, r) = >>=-eq-some (case (length s) cases) _ e in
      let (tests, e2, last) = >>=-eq-some (case (last_or 0 s) lasts) _ r in
      let (pos, ok) = case-named (length s) cases lasts h e1 in
      let ne : s ≢ [] = λ q. omega (arith, ap (λ (u : Bytes). length u) q) in
      sym (append-last s ne)
      ∙ first_equal-named (last_or 0 s) (take (length s - 1) s) tests a
          (case-lasts_named (last_or 0 s) lasts tests ok e2) last

-- The name of a header field.
abbrev pub token_name : Token → Bytes
token_name hd_pseudo_authority = codes ":authority"
token_name hd_pseudo_host = codes ":host"
token_name hd_pseudo_method = codes ":method"
token_name hd_pseudo_path = codes ":path"
token_name hd_pseudo_protocol = codes ":protocol"
token_name hd_pseudo_scheme = codes ":scheme"
token_name hd_pseudo_status = codes ":status"
token_name hd_accept_encoding = codes "accept-encoding"
token_name hd_accept_language = codes "accept-language"
token_name hd_alt_svc = codes "alt-svc"
token_name hd_cache_control = codes "cache-control"
token_name hd_connection = codes "connection"
token_name hd_content_length = codes "content-length"
token_name hd_content_type = codes "content-type"
token_name hd_cookie = codes "cookie"
token_name hd_date = codes "date"
token_name hd_early_data = codes "early-data"
token_name hd_expect = codes "expect"
token_name hd_forwarded = codes "forwarded"
token_name hd_host = codes "host"
token_name hd_http2_settings = codes "http2-settings"
token_name hd_if_modified_since = codes "if-modified-since"
token_name hd_keep_alive = codes "keep-alive"
token_name hd_link = codes "link"
token_name hd_location = codes "location"
token_name hd_proxy_connection = codes "proxy-connection"
token_name hd_sec_websocket_accept = codes "sec-websocket-accept"
token_name hd_sec_websocket_key = codes "sec-websocket-key"
token_name hd_server = codes "server"
token_name hd_te = codes "te"
token_name hd_trailer = codes "trailer"
token_name hd_transfer_encoding = codes "transfer-encoding"
token_name hd_upgrade = codes "upgrade"
token_name hd_user_agent = codes "user-agent"
token_name hd_via = codes "via"
token_name hd_x_forwarded_for = codes "x-forwarded-for"
token_name hd_x_forwarded_proto = codes "x-forwarded-proto"

abbrev pub method_name : Method → Bytes
method_name http_acl = codes "ACL"
method_name http_bind = codes "BIND"
method_name http_checkout = codes "CHECKOUT"
method_name http_connect = codes "CONNECT"
method_name http_copy = codes "COPY"
method_name http_delete = codes "DELETE"
method_name http_get = codes "GET"
method_name http_head = codes "HEAD"
method_name http_link = codes "LINK"
method_name http_lock = codes "LOCK"
method_name http_merge = codes "MERGE"
method_name http_mkactivity = codes "MKACTIVITY"
method_name http_mkcalendar = codes "MKCALENDAR"
method_name http_mkcol = codes "MKCOL"
method_name http_move = codes "MOVE"
method_name http_msearch = codes "MSEARCH"
method_name http_notify = codes "NOTIFY"
method_name http_options = codes "OPTIONS"
method_name http_patch = codes "PATCH"
method_name http_post = codes "POST"
method_name http_propfind = codes "PROPFIND"
method_name http_proppatch = codes "PROPPATCH"
method_name http_purge = codes "PURGE"
method_name http_put = codes "PUT"
method_name http_rebind = codes "REBIND"
method_name http_report = codes "REPORT"
method_name http_search = codes "SEARCH"
method_name http_source = codes "SOURCE"
method_name http_subscribe = codes "SUBSCRIBE"
method_name http_trace = codes "TRACE"
method_name http_unbind = codes "UNBIND"
method_name http_unlink = codes "UNLINK"
method_name http_unlock = codes "UNLOCK"
method_name http_unsubscribe = codes "UNSUBSCRIBE"

tokens-named : named token_name (short_tokens ++ long_tokens) ≡ true
unfolding short_tokens long_tokens eqb
tokens-named = refl

methods-named : named method_name (short_methods ++ long_methods) ≡ true
unfolding short_methods long_methods eqb
methods-named = refl

lookup_token-token_name : (t : Token) → lookup_token (token_name t) ≡ some t
unfolding lookup_token
lookup_token-token_name hd_pseudo_authority = refl
lookup_token-token_name hd_pseudo_host = refl
lookup_token-token_name hd_pseudo_method = refl
lookup_token-token_name hd_pseudo_path = refl
lookup_token-token_name hd_pseudo_protocol = refl
lookup_token-token_name hd_pseudo_scheme = refl
lookup_token-token_name hd_pseudo_status = refl
lookup_token-token_name hd_accept_encoding = refl
lookup_token-token_name hd_accept_language = refl
lookup_token-token_name hd_alt_svc = refl
lookup_token-token_name hd_cache_control = refl
lookup_token-token_name hd_connection = refl
lookup_token-token_name hd_content_length = refl
lookup_token-token_name hd_content_type = refl
lookup_token-token_name hd_cookie = refl
lookup_token-token_name hd_date = refl
lookup_token-token_name hd_early_data = refl
lookup_token-token_name hd_expect = refl
lookup_token-token_name hd_forwarded = refl
lookup_token-token_name hd_host = refl
lookup_token-token_name hd_http2_settings = refl
lookup_token-token_name hd_if_modified_since = refl
lookup_token-token_name hd_keep_alive = refl
lookup_token-token_name hd_link = refl
lookup_token-token_name hd_location = refl
lookup_token-token_name hd_proxy_connection = refl
lookup_token-token_name hd_sec_websocket_accept = refl
lookup_token-token_name hd_sec_websocket_key = refl
lookup_token-token_name hd_server = refl
lookup_token-token_name hd_te = refl
lookup_token-token_name hd_trailer = refl
lookup_token-token_name hd_transfer_encoding = refl
lookup_token-token_name hd_upgrade = refl
lookup_token-token_name hd_user_agent = refl
lookup_token-token_name hd_via = refl
lookup_token-token_name hd_x_forwarded_for = refl
lookup_token-token_name hd_x_forwarded_proto = refl

lookup_method_token-method_name : (t : Method) → lookup_method_token (method_name t) ≡ some t
unfolding lookup_method_token
lookup_method_token-method_name http_acl = refl
lookup_method_token-method_name http_bind = refl
lookup_method_token-method_name http_checkout = refl
lookup_method_token-method_name http_connect = refl
lookup_method_token-method_name http_copy = refl
lookup_method_token-method_name http_delete = refl
lookup_method_token-method_name http_get = refl
lookup_method_token-method_name http_head = refl
lookup_method_token-method_name http_link = refl
lookup_method_token-method_name http_lock = refl
lookup_method_token-method_name http_merge = refl
lookup_method_token-method_name http_mkactivity = refl
lookup_method_token-method_name http_mkcalendar = refl
lookup_method_token-method_name http_mkcol = refl
lookup_method_token-method_name http_move = refl
lookup_method_token-method_name http_msearch = refl
lookup_method_token-method_name http_notify = refl
lookup_method_token-method_name http_options = refl
lookup_method_token-method_name http_patch = refl
lookup_method_token-method_name http_post = refl
lookup_method_token-method_name http_propfind = refl
lookup_method_token-method_name http_proppatch = refl
lookup_method_token-method_name http_purge = refl
lookup_method_token-method_name http_put = refl
lookup_method_token-method_name http_rebind = refl
lookup_method_token-method_name http_report = refl
lookup_method_token-method_name http_search = refl
lookup_method_token-method_name http_source = refl
lookup_method_token-method_name http_subscribe = refl
lookup_method_token-method_name http_trace = refl
lookup_method_token-method_name http_unbind = refl
lookup_method_token-method_name http_unlink = refl
lookup_method_token-method_name http_unlock = refl
lookup_method_token-method_name http_unsubscribe = refl

-- For every name and token, lookup_token gives the token exactly when the name is that of the
-- token: lower case, with dashes, and a colon before a pseudo-header.
pub lookup_token_iff : (s : Bytes) (t : Token) → (lookup_token s ≡ some t) ↔ (s ≡ token_name t)
unfolding lookup_token
lookup_token_iff s t = (
  switch-named token_name (short_tokens ++ long_tokens) s t tokens-named,
  λ e. rw e (lookup_token-token_name t),
)

-- For every name and method, lookup_method_token gives the method exactly when the name is that of
-- its enumerator.
pub lookup_method_token_iff :
    (s : Bytes) (t : Method) → (lookup_method_token s ≡ some t) ↔ (s ≡ method_name t)
unfolding lookup_method_token
lookup_method_token_iff s t = (
  switch-named method_name (short_methods ++ long_methods) s t methods-named,
  λ e. rw e (lookup_method_token-method_name t),
)
