-- ===== src/Http2/Reason.antt =====
-- http2.cc: get_reason_phrase and stringify_status.
use maock.Prelude.{
  ℕ, ◌≡◌, refl, sym, ap, ◌∙◌, inl, inr, Bool, true, ◌&&◌, none, some, List, [], ◌∷◌, arith, ◌==◌,
  Bool-cases, Option-cases, &&_true,
}
use maock.Bytes.{Bytes, codes, eqb}
use maock.Bytes.Find.{eqb_iff}
use maock.Bytes.Decimal.{to_decimal}
use maock.Http2.Tokens.{case}

abbrev phrases : List (ℕ × Bytes)
phrases =
    (100, codes "Continue")
    ∷ (101, codes "Switching Protocols")
    ∷ (103, codes "Early Hints")
    ∷ (200, codes "OK")
    ∷ (201, codes "Created")
    ∷ (202, codes "Accepted")
    ∷ (203, codes "Non-Authoritative Information")
    ∷ (204, codes "No Content")
    ∷ (205, codes "Reset Content")
    ∷ (206, codes "Partial Content")
    ∷ (300, codes "Multiple Choices")
    ∷ (301, codes "Moved Permanently")
    ∷ (302, codes "Found")
    ∷ (303, codes "See Other")
    ∷ (304, codes "Not Modified")
    ∷ (305, codes "Use Proxy")
    ∷ (306, codes "(Unused)")
    ∷ (307, codes "Temporary Redirect")
    ∷ (308, codes "Permanent Redirect")
    ∷ (400, codes "Bad Request")
    ∷ (401, codes "Unauthorized")
    ∷ (402, codes "Payment Required")
    ∷ (403, codes "Forbidden")
    ∷ (404, codes "Not Found")
    ∷ (405, codes "Method Not Allowed")
    ∷ (406, codes "Not Acceptable")
    ∷ (407, codes "Proxy Authentication Required")
    ∷ (408, codes "Request Timeout")
    ∷ (409, codes "Conflict")
    ∷ (410, codes "Gone")
    ∷ (411, codes "Length Required")
    ∷ (412, codes "Precondition Failed")
    ∷ (413, codes "Payload Too Large")
    ∷ (414, codes "URI Too Long")
    ∷ (415, codes "Unsupported Media Type")
    ∷ (416, codes "Requested Range Not Satisfiable")
    ∷ (417, codes "Expectation Failed")
    ∷ (421, codes "Misdirected Request")
    ∷ (426, codes "Upgrade Required")
    ∷ (428, codes "Precondition Required")
    ∷ (429, codes "Too Many Requests")
    ∷ (431, codes "Request Header Fields Too Large")
    ∷ (451, codes "Unavailable For Legal Reasons")
    ∷ (500, codes "Internal Server Error")
    ∷ (501, codes "Not Implemented")
    ∷ (502, codes "Bad Gateway")
    ∷ (503, codes "Service Unavailable")
    ∷ (504, codes "Gateway Timeout")
    ∷ (505, codes "HTTP Version Not Supported")
    ∷ (511, codes "Network Authentication Required")
    ∷ []

unfoldable pub get_reason_phrase : ℕ → Bytes
unfolding case
get_reason_phrase status_code = elim (case status_code phrases) [ none ↦ [] | some s ↦ s ]

abbrev status_texts : List (ℕ × Bytes)
status_texts =
    (100, codes "100")
    ∷ (101, codes "101")
    ∷ (103, codes "103")
    ∷ (200, codes "200")
    ∷ (201, codes "201")
    ∷ (202, codes "202")
    ∷ (203, codes "203")
    ∷ (204, codes "204")
    ∷ (205, codes "205")
    ∷ (206, codes "206")
    ∷ (300, codes "300")
    ∷ (301, codes "301")
    ∷ (302, codes "302")
    ∷ (303, codes "303")
    ∷ (304, codes "304")
    ∷ (305, codes "305")
    ∷ (306, codes "306")
    ∷ (307, codes "307")
    ∷ (308, codes "308")
    ∷ (400, codes "400")
    ∷ (401, codes "401")
    ∷ (402, codes "402")
    ∷ (403, codes "403")
    ∷ (404, codes "404")
    ∷ (405, codes "405")
    ∷ (406, codes "406")
    ∷ (407, codes "407")
    ∷ (408, codes "408")
    ∷ (409, codes "409")
    ∷ (410, codes "410")
    ∷ (411, codes "411")
    ∷ (412, codes "412")
    ∷ (413, codes "413")
    ∷ (414, codes "414")
    ∷ (415, codes "415")
    ∷ (416, codes "416")
    ∷ (417, codes "417")
    ∷ (421, codes "421")
    ∷ (426, codes "426")
    ∷ (428, codes "428")
    ∷ (429, codes "429")
    ∷ (431, codes "431")
    ∷ (451, codes "451")
    ∷ (500, codes "500")
    ∷ (501, codes "501")
    ∷ (502, codes "502")
    ∷ (503, codes "503")
    ∷ (504, codes "504")
    ∷ (505, codes "505")
    ∷ (511, codes "511")
    ∷ []

-- The default is make_string_ref_uint, the decimal digits of the number.
unfoldable pub stringify_status : ℕ → Bytes
unfolding case
stringify_status status_code = elim (case status_code status_texts) [
  | none ↦ to_decimal status_code
  | some s ↦ s
]

-- Whether each text of a table is the decimal form of its number.
abbrev all_decimal : List (ℕ × Bytes) → Bool
all_decimal [] = true
all_decimal ((k, s) ∷ t) = eqb s (to_decimal k) && all_decimal t

case-all_decimal :
    (code : ℕ) (t : List (ℕ × Bytes)) (s : Bytes)
    → all_decimal t ≡ true
    → case code t ≡ some s
    → s ≡ to_decimal code
unfolding case
case-all_decimal code [] s h e = absurd (ground arith)
case-all_decimal code ((k, u) ∷ t) s h e =
    let (same, rest) = &&_true (eqb u (to_decimal k)) (all_decimal t) h in
    let here = (eqb_iff u (to_decimal k)).0 same in
    elim (Bool-cases (k == code)) [
      | inl hit ↦
          let at_code : k ≡ code = ground (arith, hit) in
          let taken : u ≡ s = ground (arith, e, hit) in sym taken ∙ here ∙ ap to_decimal at_code
      | inr miss ↦ case-all_decimal code t s rest (ground (arith, e, miss))
    ]

status_texts-decimal : all_decimal status_texts ≡ true
unfolding eqb to_decimal
status_texts-decimal = refl

-- For every status code, in the table or not, stringify_status gives its decimal form.
pub stringify_status-to_decimal : (code : ℕ) → stringify_status code ≡ to_decimal code
unfolding stringify_status
stringify_status-to_decimal code = elim (Option-cases (case code status_texts)) [
  | inl other ↦ rw (stringify_status, other) refl
  | inr (s, found) ↦
      rw (stringify_status, found) (case-all_decimal code status_texts s status_texts-decimal found)
]
