-- ===== src/Tests/Posted.antt =====
-- asio_util.cc and http2.cc: posted answers, copied headers and normalized paths on small inputs.
use maock.Prelude.{ℕ, ◌≡◌, refl, Bool, true, false, Option, none, some, List, [], ◌∷◌, length}
use maock.Bytes.{Bytes, codes}
use maock.Util.Percent.{percent_decode}
use maock.Util.Percent
use maock.Message.{Message}
use maock.Flow.Callback.{
  ServerResponse, Texts, answer_lua, no_lua, runs_lua, offloads_lua, offloaded,
}
use maock.Flow.Totals.{new_thread}
use maock.Flow.Posted.{update_response_with_lua}
use maock.Flow.Posted.Answers.{answer_offloaded, visible, answer_offloaded-answer_lua}
use maock.Http2.Tokens.{hd_via, hd_date}
use maock.Http2.Fields.{Header, Strip, nothing_pending, copy_from}
use maock.Http2.Fields.Copied.{Chain, strips, only, named, chain_kept, kept, copy_from-kept}
use maock.Http2.Path.{path_join}
use maock.Http2.Path.Normal.{keeps_colon, normalize_path, normalize_path_colon}
use maock.Http2.Path.Normal.Decoded.{IsEncoded, IsNormal, done, plain, coded, normalize_path-Normal}
use maock.Tests.Matching.{json, get}

abbrev no_match : Bytes → Bytes → Bool
no_match s r = false

abbrev no_search : Bytes → Bytes → Option Bytes
no_search s r = none

-- A Lua function that sets the status to 201.
abbrev creates : ServerResponse → Message json → Texts → Texts
creates r m texts = ((codes ":status", codes "201") ∷ [], [], texts.2)

abbrev length_of : Bytes → ℕ
length_of s = length s

abbrev response : ServerResponse
response = record {
  status_code = 200;
  headers = [];
  payload = record { tokens = [] ∷ []; arguments = [] };
  throttle = none;
  lua = no_lua;
}

answer_offloaded-answer_lua_example :
    (answer_lua no_match no_search json creates length_of true 0 0
        (record response { lua = offloads_lua })
        get
        ([], [], codes "x")
        1
        none
        new_thread
      ≡ some (new_thread, none, [], offloaded 0 0))
    × (visible no_match no_search json creates length_of true (
          answer_offloaded no_match no_search json creates length_of true 0 0
            (record response { lua = offloads_lua })
            get
            ([], [], codes "x")
            1
            none
            new_thread)
        ≡ visible no_match no_search json creates length_of true (
            answer_lua no_match no_search json creates length_of true 0 0
              (record response { lua = runs_lua })
              get
              ([], [], codes "x")
              1
              none
              new_thread))
    × (update_response_with_lua json creates length_of response get ([], [], codes "x") false 1
        ≡ none)
answer_offloaded-answer_lua_example =
    answer_offloaded-answer_lua no_match no_search json creates length_of true 0 0 response get
      ([], [], codes "x") 1 none new_thread refl refl

abbrev no_strip : Strip
no_strip = record {
  transfer_encoding = false;
  forwarded = false;
  x_forwarded_for = false;
  x_forwarded_proto = false;
  via = false;
  early_data = false;
  sec_websocket_accept = false;
  sec_websocket_key = false;
}

abbrev via_header : Bytes → Header
via_header value = record {
  name = codes "via";
  value = value;
  no_index = false;
  token = some hd_via;
}

abbrev date_header : Header
date_header = record {
  name = codes "date";
  value = codes "d";
  no_index = false;
  token = some hd_date;
}

abbrev fields : List Header
fields = via_header (codes "a") ∷ date_header ∷ via_header (codes "b") ∷ []

copied : copy_from no_strip fields nothing_pending ≡ date_header ∷ via_header (codes "a") ∷ []
unfolding copy_from
copied = refl

copy_from-kept_example :
    ((c : Chain)
      → only (some c) (copy_from no_strip fields nothing_pending)
        ≡ chain_kept (strips c no_strip) (only (some c) (named fields)))
    × (only none (copy_from no_strip fields nothing_pending)
        ≡ kept no_strip (only none (named fields)))
copy_from-kept_example = copy_from-kept no_strip fields

tilde-IsEncoded : IsEncoded (codes "%7ea")
tilde-IsEncoded = coded b'%' b'7' b'e' (codes "a") refl refl (plain b'a' [] refl done)

normalize_path-Normal_example :
    ((t : Bytes) × (normalize_path (codes "%7ea") [] ≡ path_join [] [] t [])
      × (percent_decode t ≡ percent_decode (codes "%7ea"))
      × IsNormal Percent.in_rfc3986_unreserved_chars t)
    × ((t : Bytes) × (normalize_path_colon (codes "%7ea") [] ≡ path_join [] [] t [])
        × (percent_decode t ≡ percent_decode (codes "%7ea"))
        × IsNormal keeps_colon t)
normalize_path-Normal_example = normalize_path-Normal (codes "%7ea") [] tilde-IsEncoded
