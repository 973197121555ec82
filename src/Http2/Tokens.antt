-- ===== src/Http2/Tokens.antt =====
-- http2.cc: lookup_token and lookup_method_token, switches over the length of a name, its last byte
-- and what stands before that byte.
pub mod Named
use maock.Prelude.{
  ℕ, ◌-◌, Option, none, some, List, [], ◌∷◌, ◌++◌, ◌==◌, if◌then◌else◌, length, take, last_or,
}
use maock.Prelude.Partial.{◌>>=◌}
use maock.Bytes.{Bytes, codes, eqb}

-- The entry of the case `k` of a switch.
unfoldable pub case {ℓ} : {A : Type ℓ} → ℕ → List (ℕ × A) → Option A
case k [] = none
case k ((i, a) ∷ cases) = let later = case k cases in if i == k then some a else later

-- The tests by streq_l, one after the other.
unfoldable pub first_equal {ℓ} : {A : Type ℓ} → Bytes → List (Bytes × A) → Option A
unfolding eqb
first_equal s [] = none
first_equal s ((t, a) ∷ tests) =
    let later = first_equal s tests in if eqb t s then some a else later

-- Lengths, last bytes and the bytes before them.
abbrev pub Switch {ℓ} : Type ℓ → Type ℓ
Switch A = List (ℕ × List (ℕ × List (Bytes × A)))

-- `none` is -1.
unfoldable pub switch {ℓ} : {A : Type ℓ} → Switch A → Bytes → Option A
unfolding case first_equal
switch cases name = case (length name) cases >>= λ lasts.
    case (last_or 0 name) lasts >>= λ tests. first_equal (take (length name - 1) name) tests

-- The enumeration of the indexed header fields; a pseudo-header has `pseudo` for its colon.
pub data Token : Type 0 where
  hd_pseudo_authority hd_pseudo_host hd_pseudo_method hd_pseudo_path hd_pseudo_protocol
        hd_pseudo_scheme hd_pseudo_status hd_accept_encoding hd_accept_language hd_alt_svc
        hd_cache_control hd_connection hd_content_length hd_content_type hd_cookie hd_date
        hd_early_data hd_expect hd_forwarded hd_host hd_http2_settings hd_if_modified_since
        hd_keep_alive hd_link hd_location hd_proxy_connection hd_sec_websocket_accept
        hd_sec_websocket_key hd_server hd_te hd_trailer hd_transfer_encoding hd_upgrade
        hd_user_agent hd_via hd_x_forwarded_for hd_x_forwarded_proto :
      Token

unfoldable pub short_tokens : Switch Token
short_tokens =
    (2, (b'e', (codes "t", hd_te) ∷ []) ∷ [])
    ∷ (3, (b'a', (codes "vi", hd_via) ∷ []) ∷ [])
    ∷ (
      4,
      (b'e', (codes "dat", hd_date) ∷ [])
          ∷ (b'k', (codes "lin", hd_link) ∷ [])
          ∷ (b't', (codes "hos", hd_host) ∷ [])
          ∷ [],
    )
    ∷ (
      5,
      (b'h', (codes ":pat", hd_pseudo_path) ∷ [])
          ∷ (b't', (codes ":hos", hd_pseudo_host) ∷ [])
          ∷ [],
    )
    ∷ (
      6,
      (b'e', (codes "cooki", hd_cookie) ∷ [])
          ∷ (b'r', (codes "serve", hd_server) ∷ [])
          ∷ (b't', (codes "expec", hd_expect) ∷ [])
          ∷ [],
    )
    ∷ (
      7,
      (b'c', (codes "alt-sv", hd_alt_svc) ∷ [])
          ∷ (b'd', (codes ":metho", hd_pseudo_method) ∷ [])
          ∷ (b'e', (codes ":schem", hd_pseudo_scheme) ∷ (codes "upgrad", hd_upgrade) ∷ [])
          ∷ (b'r', (codes "traile", hd_trailer) ∷ [])
          ∷ (b's', (codes ":statu", hd_pseudo_status) ∷ [])
          ∷ [],
    )
    ∷ []

unfoldable pub long_tokens : Switch Token
long_tokens =
    (8, (b'n', (codes "locatio", hd_location) ∷ []) ∷ [])
    ∷ (
      9,
      (b'd', (codes "forwarde", hd_forwarded) ∷ [])
          ∷ (b'l', (codes ":protoco", hd_pseudo_protocol) ∷ [])
          ∷ [],
    )
    ∷ (
      10,
      (b'a', (codes "early-dat", hd_early_data) ∷ [])
          ∷ (b'e', (codes "keep-aliv", hd_keep_alive) ∷ [])
          ∷ (b'n', (codes "connectio", hd_connection) ∷ [])
          ∷ (b't', (codes "user-agen", hd_user_agent) ∷ [])
          ∷ (b'y', (codes ":authorit", hd_pseudo_authority) ∷ [])
          ∷ [],
    )
    ∷ (12, (b'e', (codes "content-typ", hd_content_type) ∷ []) ∷ [])
    ∷ (13, (b'l', (codes "cache-contro", hd_cache_control) ∷ []) ∷ [])
    ∷ (
      14,
      (b'h', (codes "content-lengt", hd_content_length) ∷ [])
          ∷ (b's', (codes "http2-setting", hd_http2_settings) ∷ [])
          ∷ [],
    )
    ∷ (
      15,
      (b'e', (codes "accept-languag", hd_accept_language) ∷ [])
          ∷ (b'g', (codes "accept-encodin", hd_accept_encoding) ∷ [])
          ∷ (b'r', (codes "x-forwarded-fo", hd_x_forwarded_for) ∷ [])
          ∷ [],
    )
    ∷ (16, (b'n', (codes "proxy-connectio", hd_proxy_connection) ∷ []) ∷ [])
    ∷ (
      17,
      (b'e', (codes "if-modified-sinc", hd_if_modified_since) ∷ [])
          ∷ (b'g', (codes "transfer-encodin", hd_transfer_encoding) ∷ [])
          ∷ (b'o', (codes "x-forwarded-prot", hd_x_forwarded_proto) ∷ [])
          ∷ (b'y', (codes "sec-websocket-ke", hd_sec_websocket_key) ∷ [])
          ∷ [],
    )
    ∷ (20, (b't', (codes "sec-websocket-accep", hd_sec_websocket_accept) ∷ []) ∷ [])
    ∷ []

-- lookup_token
unfoldable pub lookup_token : Bytes → Option Token
unfolding switch short_tokens long_tokens
lookup_token name = switch (short_tokens ++ long_tokens) name

-- The methods of llhttp that lookup_method_token names.
pub data Method : Type 0 where
  http_acl http_bind http_checkout http_connect http_copy http_delete http_get http_head http_link
        http_lock http_merge http_mkactivity http_mkcalendar http_mkcol http_move http_msearch
        http_notify http_options http_patch http_post http_propfind http_proppatch http_purge
        http_put http_rebind http_report http_search http_source http_subscribe http_trace
        http_unbind http_unlink http_unlock http_unsubscribe :
      Method

unfoldable pub short_methods : Switch Method
short_methods =
    (
      3,
      (b'L', (codes "AC", http_acl) ∷ [])
          ∷ (b'T', (codes "GE", http_get) ∷ (codes "PU", http_put) ∷ [])
          ∷ [],
    )
    ∷ (
      4,
      (b'D', (codes "BIN", http_bind) ∷ (codes "HEA", http_head) ∷ [])
          ∷ (b'E', (codes "MOV", http_move) ∷ [])
          ∷ (b'K', (codes "LIN", http_link) ∷ (codes "LOC", http_lock) ∷ [])
          ∷ (b'T', (codes "POS", http_post) ∷ [])
          ∷ (b'Y', (codes "COP", http_copy) ∷ [])
          ∷ [],
    )
    ∷ (
      5,
      (
        b'E',
        (codes "MERG", http_merge) ∷ (codes "PURG", http_purge) ∷ (codes "TRAC", http_trace) ∷ [],
      )
          ∷ (b'H', (codes "PATC", http_patch) ∷ [])
          ∷ (b'L', (codes "MKCO", http_mkcol) ∷ [])
          ∷ [],
    )
    ∷ []

unfoldable pub long_methods : Switch Method
long_methods =
    (
      6,
      (b'D', (codes "REBIN", http_rebind) ∷ (codes "UNBIN", http_unbind) ∷ [])
          ∷ (b'E', (codes "DELET", http_delete) ∷ (codes "SOURC", http_source) ∷ [])
          ∷ (b'H', (codes "SEARC", http_search) ∷ [])
          ∷ (b'K', (codes "UNLIN", http_unlink) ∷ (codes "UNLOC", http_unlock) ∷ [])
          ∷ (b'T', (codes "REPOR", http_report) ∷ [])
          ∷ (b'Y', (codes "NOTIF", http_notify) ∷ [])
          ∷ [],
    )
    ∷ (
      7,
      (b'H', (codes "MSEARC", http_msearch) ∷ [])
          ∷ (b'S', (codes "OPTION", http_options) ∷ [])
          ∷ (b'T', (codes "CONNEC", http_connect) ∷ [])
          ∷ [],
    )
    ∷ (
      8,
      (b'D', (codes "PROPFIN", http_propfind) ∷ [])
          ∷ (b'T', (codes "CHECKOU", http_checkout) ∷ [])
          ∷ [],
    )
    ∷ (
      9,
      (b'E', (codes "SUBSCRIB", http_subscribe) ∷ [])
          ∷ (b'H', (codes "PROPPATC", http_proppatch) ∷ [])
          ∷ [],
    )
    ∷ (
      10,
      (b'R', (codes "MKCALENDA", http_mkcalendar) ∷ [])
          ∷ (b'Y', (codes "MKACTIVIT", http_mkactivity) ∷ [])
          ∷ [],
    )
    ∷ (11, (b'E', (codes "UNSUBSCRIB", http_unsubscribe) ∷ []) ∷ [])
    ∷ []

-- lookup_method_token
unfoldable pub lookup_method_token : Bytes → Option Method
unfolding switch short_methods long_methods
lookup_method_token name = switch (short_methods ++ long_methods) name
