-- ===== src/Stream/Submit.antt =====
-- asio_server_http2_handler.cc and asio_server_base_handler.cc: what is submitted to nghttp2, and the
-- date of a handler.
pub mod Fresh
use maock.Prelude.{Bool, true, false, not, ◌&&◌, Option, none, List, ◌∷◌, map, ◌==◌, if◌then◌else◌}
use maock.Prelude.Int.{ℤ, pos, negsuc}
use maock.Bytes.{Bytes, codes, eqb}
use maock.Bytes.Decimal.{to_decimal}
use maock.Http2.Status.{expect_response_body}
use maock.Http2.Fields.{NameValue, Header, make_nv}
use maock.Stream.Reply.{HeaderValue, Headers, Reply}
use maock.Util.Date

-- tstamp_cached_ and formatted_date_
pub record DateCache : Type 0 where
  pub tstamp_cached : ℤ
  pub formatted_date : Bytes

-- The constructor of base_handler, at the time `t`.
unfoldable pub new_cache : (ℤ → Option Date.Tm) → ℤ → DateCache
new_cache gmtime t = record { tstamp_cached = t; formatted_date = Date.http_date gmtime t }

abbrev pub same_time : ℤ → ℤ → Bool
same_time (pos m) (pos n) = m == n
same_time (negsuc m) (negsuc n) = m == n
same_time _ _ = false

-- base_handler::http_date, at the time `t`
unfoldable pub http_date : (ℤ → Option Date.Tm) → ℤ → DateCache → Bytes × DateCache
unfolding new_cache
http_date gmtime t cache =
    let cache' = if same_time t cache.tstamp_cached then cache else new_cache gmtime t in
    (cache'.formatted_date, cache')

-- make_nv_ls
abbrev pub make_nv_ls : Bytes → Bytes → NameValue
make_nv_ls name value = record {
  name = name;
  value = value;
  no_index = false;
  no_copy_name = true;
  no_copy_value = false;
}

-- make_nv of a header of a header_map
abbrev pub header_nv : Bytes × HeaderValue → NameValue
header_nv (name, v) =
    make_nv false (record { name = name; value = v.value; no_index = v.sensitive; token = none })

-- What nghttp2_submit_response gets.
pub record Submission : Type 0 where
  pub nva : List NameValue
  pub has_provider : Bool

-- start_response: the submission, whether it gives 0 where `accepted` says that nghttp2 does, and the
-- cache of the date.
unfoldable pub start_response :
    (ℤ → Option Date.Tm)
    → (Submission → Bool)
    → ℤ
    → Bytes
    → Reply
    → DateCache
    → Submission × Bool × DateCache
unfolding http_date make_nv expect_response_body eqb
start_response gmtime accepted t method res cache =
    let (date, cache') = http_date gmtime t cache in
    let s : Submission = record {
      nva =
          make_nv_ls (codes ":status") (to_decimal res.status_code)
          ∷ make_nv_ls (codes "date") date
          ∷ map header_nv res.header;
      has_provider = not (eqb method (codes "HEAD")) && expect_response_body res.status_code;
    } in
    (s, accepted s, cache')

-- submit_trailer: what is submitted.
unfoldable pub submit_trailer : Headers → List NameValue
unfolding make_nv
submit_trailer h = map header_nv h
