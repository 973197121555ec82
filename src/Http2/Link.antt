-- ===== src/Http2/Link.antt =====
-- http2.cc: parse_link_header. An iterator is the text from it to the end.
pub mod Found
pub mod Words
pub mod Forms
pub mod Printed
use maock.Prelude.{
  ℕ, zero, suc, ◌+◌, Bool, true, false, not, ◌&&◌, ◌||◌, Option, none, some, List, [], ◌∷◌, ◌++◌,
  ltb, leb, ◌==◌, if◌then◌else◌, length, take, drop,
}
use maock.Prelude.Partial.{◌>>=◌}
use maock.Bytes.{Bytes, codes, is_empty, eqb, starts_with}
use maock.Util.Host.{before, behind}
use maock.Util.Percent.{in_attr_char}
use maock.Util.Case.{istarts_with, strieq}

abbrev pub is_lws : ℕ → Bool
is_lws c = c == b' ' || c == 9

unfoldable pub skip_lws : Bytes → Bytes
skip_lws [] = []
skip_lws (c ∷ s) = let later = skip_lws s in if is_lws c then later else c ∷ s

unfoldable pub skip_to_next_field : Bytes → Bytes
skip_to_next_field [] = []
skip_to_next_field (c ∷ s) =
    let later = skip_to_next_field s in if is_lws c || c == b',' then later else c ∷ s

-- 34 is the double quote, and 92 the backslash.
unfoldable pub skip_to_right_dquote : Bytes → Bytes
skip_to_right_dquote [] = []
skip_to_right_dquote (c ∷ []) = if c == 34 then c ∷ [] else []
skip_to_right_dquote (c ∷ d ∷ s) =
    let escaped = skip_to_right_dquote s in
    let later = skip_to_right_dquote (d ∷ s) in
    if c == 34 then c ∷ d ∷ s else if c == 92 then escaped else later

abbrev pub two_dquotes : Bytes → Bool
two_dquotes (c ∷ d ∷ s) = c == 34 && d == 34
two_dquotes _ = false

unfoldable pub check_link_param_empty : Bytes → Bytes → Bool
unfolding istarts_with
check_link_param_empty s pat =
    if leb (length pat) (length s) && istarts_with s pat
    then two_dquotes (drop (length pat) s)
    else true

abbrev pub is_separator : ℕ → Bool
is_separator c = c == b';' || c == b','

abbrev pub at_separator : Bytes → Bool
at_separator [] = true
at_separator (c ∷ s) = is_separator c

unfoldable pub check_link_param_without_value : Bytes → Bytes → Bool
unfolding istarts_with
check_link_param_without_value s pat =
    if ltb (length s) (length pat)
    then false
    else at_separator (drop (length pat) s) && istarts_with s pat

-- What a link-param leads to: the end of the link, with its URL or without, and the text from which
-- the next one is parsed; or the next link-param, with `ok` and `ign`.
pub data Step : Type 0 where
  ends : Bool → Bytes → Step
  next : Bool → Bool → Bytes → Step

-- `return {{StringRef{}}, last}`
abbrev pub rejected : Step
rejected = ends false []

-- almost_done, at the end or at a comma
abbrev pub almost_done : Bool → Bool → Bytes → Step
almost_done ok ign s = ends (ok && not ign) (drop 1 s)

-- What stands behind a link-param: the end, a comma or a semicolon.
unfoldable pub behind_param : Bool → Bool → Bytes → Step
behind_param ok ign [] = almost_done ok ign []
behind_param ok ign (c ∷ s) =
    if c == b',' then almost_done ok ign (c ∷ s) else if c == b';' then next ok ign s else rejected

abbrev pub preload : Bytes
preload = codes "preload"

-- The loop over the words of a quoted rel. `word` is the text from `start` on, and `skipping` says that
-- skip_lws is at work. It gives `ok` and the text behind the closing quote; `none` is a rejection.
unfoldable pub rel_words : Bool → Bytes → Bool → Bytes → Option (Bool × Bytes)
unfolding strieq
rel_words ok word skipping [] = none
rel_words ok word skipping (c ∷ s) =
    let more = rel_words ok (word ++ c ∷ []) false s in
    let skipped = rel_words ok [] true s in
    let ok' = ok || strieq word preload in
    let behind_word = rel_words ok' [] true s in
    if skipping && is_lws c
    then skipped
    else if not (c == b' ') && not (c == 34)
    then more
    else if is_empty word
    then none
    else if c == 34
    then some (ok', s)
    else behind_word

abbrev pub rel_quote : Bytes
rel_quote = codes "rel=" ++ 34 ∷ []

abbrev pub rel_preload : Bytes
rel_preload = codes "rel=preload"

-- The name of a link-param: whether it has a character, and the text behind it. `none` is a rejection.
unfoldable pub param_name : Bool → Bytes → Option (Bool × Bytes)
unfolding in_attr_char
param_name moved [] = some (moved, [])
param_name moved (c ∷ s) =
    let more = param_name true s in
    if in_attr_char c
    then more
    else if moved && (c == b'*' && eqb (take 1 s) (codes "="))
    then some (true, s)
    else if c == b'=' || is_separator c
    then some (moved, c ∷ s)
    else none

unfoldable pub skip_to_separator : Bytes → Bytes
skip_to_separator [] = []
skip_to_separator (c ∷ s) =
    let later = skip_to_separator s in if is_separator c then c ∷ s else later

-- The value behind the equals sign.
unfoldable pub param_value : Bool → Bool → Bytes → Step
unfolding skip_to_right_dquote behind_param skip_to_separator
param_value ok ign [] = rejected
param_value ok ign (c ∷ s) =
    if c == 34
    then elim (skip_to_right_dquote s) [ [] ↦ rejected | q ∷ r ↦ behind_param ok ign r ]
    else if is_separator c
    then rejected
    else behind_param ok ign (skip_to_separator (c ∷ s))

-- A link-param that is skipped, from its name on.
unfoldable pub skip_param : Bool → Bool → Bytes → Step
unfolding param_name param_value behind_param
skip_param ok ign s = elim (param_name false s) [
  | none ↦ rejected
  | some (moved, r) ↦
      if not moved
      then rejected
      else if starts_with r (codes "=")
      then param_value ok ign (drop 1 r)
      else behind_param ok ign r
]

-- `ign` behind the three tests.
unfoldable pub is_ignored : Bytes → Bool
unfolding check_link_param_empty check_link_param_without_value
is_ignored s =
    not (check_link_param_empty s (codes "anchor="))
    || (not (check_link_param_empty s (codes "loadpolicy="))
        || check_link_param_without_value s (codes "nopush"))

-- A link-param behind the test for a quoted rel, where `ign` is false.
unfoldable pub unquoted_param : Bool → Bytes → Step
unfolding istarts_with is_ignored skip_param
unquoted_param ok s =
    let other = skip_param ok (is_ignored s) s in
    let matches = istarts_with s rel_preload in
    let after = drop (length rel_preload) s in
    if is_empty after
    then if length s == length rel_preload && matches then ends true [] else other
    else if starts_with after (codes ",") && matches
    then ends true (drop 1 after)
    else if starts_with after (codes ";") && matches
    then next true false (drop 1 after)
    else other

-- A link-param, at its first character.
unfoldable pub link_param : Bool → Bool → Bytes → Step
unfolding skip_param unquoted_param istarts_with rel_words behind_param
link_param ok ign s =
    if ign
    then skip_param ok ign s
    else if not ok && (ltb (length rel_quote) (length s) && istarts_with s rel_quote)
    then elim (rel_words ok [] false (drop (length rel_quote) s)) [
      | none ↦ rejected
      | some (ok', r) ↦ behind_param ok' ign r
    ]
    else unquoted_param ok s

-- The loop over the link-params: whether the link has a URL, and the text behind it. `none` is for
-- fuel that has run out.
unfoldable pub link_params : ℕ → Bool → Bool → Bytes → Option (Bool × Bytes)
unfolding skip_lws link_param
link_params zero ok ign s = none
link_params (suc fuel) ok ign s =
    let rest = link_params fuel in
    if is_empty (skip_lws s) then some (false, []) else elim (link_param ok ign (skip_lws s)) [
      | ends found r ↦ some (found, r)
      | next ok' ign' r ↦ rest ok' ign' r
    ]

-- The URL, or an empty text, and the text behind the link.
abbrev pub link_of : Bytes → Bool → Bytes
link_of url found = if found then url else []

-- What stands behind the closing angle bracket.
unfoldable pub behind_url : ℕ → Bytes → Bytes → Option (Bytes × Bytes)
unfolding link_params
behind_url fuel url [] = some ([], [])
behind_url fuel url (c ∷ s) =
    if c == b','
    then some ([], s)
    else if c == b';'
    then (link_params fuel false false s >>= λ p. some (link_of url p.0, p.1))
    else some ([], [])

unfoldable pub parse_next_link_header_once : ℕ → Bytes → Option (Bytes × Bytes)
unfolding skip_to_next_field before behind behind_url
parse_next_link_header_once fuel src = elim (skip_to_next_field src) [
  | [] ↦ some ([], [])
  | c ∷ s ↦
      if c == b'<'
      then elim (behind b'>' s) [
        | none ↦ some ([], [])
        | some r ↦ behind_url fuel (before b'>' s) r
      ]
      else some ([], [])
]

-- The loop of parse_link_header.
unfoldable pub parse_links : ℕ → Bytes → Option (List Bytes)
unfolding parse_next_link_header_once
parse_links zero src = none
parse_links (suc fuel) src =
    let rest = parse_links fuel in
    if is_empty src
    then some []
    else (parse_next_link_header_once fuel src >>= λ p.
        rest p.1 >>= λ links. some (if is_empty p.0 then links else p.0 ∷ links))

unfoldable pub parse_link_header : Bytes → Option (List Bytes)
unfolding parse_links
parse_link_header src = parse_links (length src + 1) src
