-- ===== src/Http2/Path/Normal.antt =====
-- http2.cc: normalize_path, normalize_path_colon and rewrite_clean_path.
pub mod Decoded
use maock.Prelude.{
  ℕ, ◌+◌, ◌*◌, Bool, false, not, ◌&&◌, ◌||◌, Option, none, some, [], ◌∷◌, ltb, ◌==◌, if◌then◌else◌,
  length,
}
use maock.Bytes.{Bytes, codes}
use maock.Util.Host.{before, behind}
use maock.Util.Hex.{is_hex_digit, hex_to_uint, upcase}
use maock.Util.Percent.{in_rfc3986_unreserved_chars}
use maock.Util.Case.{strieq}
use maock.Http2.Path.{slash, path_join}

-- The loop over the path, where `keep` says which characters are decoded. The other percent codes get
-- upper case digits.
unfoldable pub decode_kept : (ℕ → Bool) → Bytes → Bytes
unfolding hex_to_uint upcase
decode_kept keep [] = []
decode_kept keep (c ∷ []) = c ∷ []
decode_kept keep (c ∷ d ∷ []) = c ∷ d ∷ []
decode_kept keep (c ∷ d ∷ e ∷ s) =
    let v = hex_to_uint d * 16 + hex_to_uint e in
    let rest = decode_kept keep s in
    let plain = c ∷ decode_kept keep (d ∷ e ∷ s) in
    if c == b'%' && (is_hex_digit d && is_hex_digit e)
    then if keep v then v ∷ rest else b'%' ∷ upcase d ∷ upcase e ∷ rest
    else plain

abbrev pub has_percent : Bytes → Bool
has_percent [] = false
has_percent (c ∷ s) = c == b'%' || has_percent s

unfoldable pub normalize_with : (ℕ → Bool) → Bytes → Bytes → Bytes
unfolding decode_kept path_join
normalize_with keep path query =
    if ltb (length path) 3 || not (has_percent path)
    then path_join [] [] path query
    else path_join [] [] (decode_kept keep path) query

unfoldable pub normalize_path : Bytes → Bytes → Bytes
unfolding normalize_with in_rfc3986_unreserved_chars
normalize_path = normalize_with in_rfc3986_unreserved_chars

abbrev pub keeps_colon : ℕ → Bool
keeps_colon c = in_rfc3986_unreserved_chars c || c == b':'

unfoldable pub normalize_path_colon : Bytes → Bytes → Bytes
unfolding normalize_with in_rfc3986_unreserved_chars
normalize_path_colon = normalize_with keeps_colon

abbrev pub or_nothing : Option Bytes → Bytes
or_nothing none = []
or_nothing (some s) = s

-- rewrite_clean_path: the fragment is cut off.
unfoldable pub rewrite_clean_path : Bytes → Bytes
unfolding normalize_path before behind
rewrite_clean_path [] = []
rewrite_clean_path (c ∷ s) =
    let whole = before b'#' (c ∷ s) in
    if c == slash
    then normalize_path (before b'?' whole) (or_nothing (behind b'?' whole))
    else c ∷ s
