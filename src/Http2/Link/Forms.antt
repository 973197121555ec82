-- ===== src/Http2/Link/Forms.antt =====
-- http2.cc: the parameters of a link that the grammar writes, and what link_params makes of them.
use maock.Prelude.{
  ℕ, suc, ◌≡◌, refl, ap, Bool, true, false, not, ◌&&◌, some, List, [], ◌∷◌, ◌++◌, append_assoc,
  arith, All, drop,
}
use maock.Bytes.{Bytes, codes, eqb, starts_with}
use maock.Util.Percent.{in_attr_char}
use maock.Util.Case.{istarts_with, strieq}
use maock.Http2.Link.Words.{
  quoted, has_preload, anchor, IsWord, IsText, quoted-append, link_param-relation,
  link_param-anchor,
}
use maock.Http2.Link.{
  rel_quote, next, ends, skip_lws, skip_to_right_dquote, behind_param, rel_words, param_name,
  skip_to_separator, param_value, skip_param, is_ignored, unquoted_param, link_param, link_params,
}

-- The parameters of a link: a preload, bare, quoted among words, or in capitals; a preload with a
-- parameter that forbids the push, nopush or an anchor; and another relation.
pub data Form : Type 0 where
  bare capital nopush other : Form
  relation : Bytes → List Bytes → Form
  anchored : Bytes → Form

abbrev pub quote : Bytes
quote = 34 ∷ []

abbrev pub params : Form → Bytes
params bare = codes "rel=preload"
params capital = codes "REL=" ++ (quote ++ (codes "next PreLoad" ++ quote))
params nopush = codes "rel=preload; nopush"
params other = codes "rel=next; as=image"
params (relation w ws) = rel_quote ++ quoted w ws []
params (anchored t) = codes "rel=preload; " ++ anchor t []

abbrev pub is_push : Form → Bool
is_push bare = true
is_push capital = true
is_push (relation w ws) = has_preload (w ∷ ws)
is_push _ = false

-- The words have a character or more, and no space, tab or double quote; the anchor has a character
-- or more, and no double quote or backslash.
abbrev pub IsForm : Form → Type 0
IsForm (relation w ws) = All IsWord (w ∷ ws)
IsForm (anchored t) = IsText t
IsForm _ = Unit

-- A text that ends a parameter.
abbrev pub Ends : Bytes → Type 0
Ends [] = Unit
Ends (c ∷ s) = c ≡ b','

link_param-nopush :
    (rest : Bytes) → link_param true false (codes "nopush" ++ b',' ∷ rest) ≡ ends false rest
unfolding link_param unquoted_param is_ignored skip_param param_name behind_param istarts_with
    in_attr_char starts_with
link_param-nopush rest = ground arith

link_param-preload :
    (rest : Bytes)
    → link_param false false (codes "rel=preload" ++ b';' ∷ rest) ≡ next true false rest
unfolding link_param unquoted_param istarts_with starts_with
link_param-preload rest = ground arith

link_params-nopush :
    (fuel : ℕ) (rest : Bytes)
    → link_params
        (suc (suc fuel))
        false
        false
        (b' ' ∷ (codes "rel=preload" ++ b';' ∷ b' ' ∷ (codes "nopush" ++ b',' ∷ rest)))
      ≡ some (false, rest)
unfolding link_params skip_lws
link_params-nopush fuel rest =
    rw (link_param-preload (b' ' ∷ (codes "nopush" ++ b',' ∷ rest)), link_param-nopush rest) refl

-- At the end of a link.
behind_param-Ends :
    (ok ign : Bool) (rest : Bytes)
    → Ends rest
    → behind_param ok ign rest ≡ ends (ok && not ign) (drop 1 rest)
unfolding behind_param
behind_param-Ends ok ign [] h = refl
behind_param-Ends ok ign (c ∷ rest) h = rw h refl

and_true : (b : Bool) → (b && true) ≡ b
and_true b = ground arith

link_params-relation :
    (fuel : ℕ) (w : Bytes) (ws : List Bytes) (rest : Bytes)
    → All IsWord (w ∷ ws)
    → Ends rest
    → link_params (suc fuel) false false (b' ' ∷ (rel_quote ++ quoted w ws rest))
      ≡ some (has_preload (w ∷ ws), drop 1 rest)
unfolding link_params skip_lws
link_params-relation fuel w ws rest a h =
    rw (link_param-relation w ws rest a, behind_param-Ends (has_preload (w ∷ ws)) false rest h)
      (ap (λ b. some (b, drop 1 rest)) (and_true (has_preload (w ∷ ws))))

link_params-anchor :
    (fuel : ℕ) (t rest : Bytes)
    → IsText t
    → Ends rest
    → link_params
        (suc (suc fuel))
        false
        false
        (b' ' ∷ (codes "rel=preload" ++ b';' ∷ b' ' ∷ anchor t rest))
      ≡ some (false, drop 1 rest)
unfolding link_params skip_lws
link_params-anchor fuel t rest a h =
    rw
      (
        link_param-preload (b' ' ∷ anchor t rest),
        link_param-anchor t rest a,
        behind_param-Ends true true rest h,
      )
      refl

link_params-bare :
    (fuel : ℕ) (rest : Bytes)
    → Ends rest
    → link_params (suc (suc (suc fuel))) false false (b' ' ∷ (params bare ++ rest))
      ≡ some (is_push bare, drop 1 rest)
unfolding link_params link_param unquoted_param is_ignored skip_param param_value param_name
    behind_param rel_words skip_lws istarts_with strieq in_attr_char skip_to_separator
    skip_to_right_dquote eqb starts_with
link_params-bare fuel [] h = ground arith
link_params-bare fuel (c ∷ rest) h = rw h (ground arith)

link_params-capital :
    (fuel : ℕ) (rest : Bytes)
    → Ends rest
    → link_params (suc (suc (suc fuel))) false false (b' ' ∷ (params capital ++ rest))
      ≡ some (is_push capital, drop 1 rest)
unfolding link_params link_param unquoted_param is_ignored skip_param param_value param_name
    behind_param rel_words skip_lws istarts_with strieq in_attr_char skip_to_separator
    skip_to_right_dquote eqb starts_with
link_params-capital fuel [] h = ground arith
link_params-capital fuel (c ∷ rest) h = rw h (ground arith)

link_params-nopush_end :
    (fuel : ℕ) (rest : Bytes)
    → Ends rest
    → link_params (suc (suc (suc fuel))) false false (b' ' ∷ (params nopush ++ rest))
      ≡ some (is_push nopush, drop 1 rest)
unfolding link_params link_param unquoted_param is_ignored skip_param param_value param_name
    behind_param rel_words skip_lws istarts_with strieq in_attr_char skip_to_separator
    skip_to_right_dquote eqb starts_with
link_params-nopush_end fuel [] h = ground arith
link_params-nopush_end fuel (c ∷ rest) h = rw h (link_params-nopush (suc fuel) rest)

link_params-other :
    (fuel : ℕ) (rest : Bytes)
    → Ends rest
    → link_params (suc (suc (suc fuel))) false false (b' ' ∷ (params other ++ rest))
      ≡ some (is_push other, drop 1 rest)
unfolding link_params link_param unquoted_param is_ignored skip_param param_value param_name
    behind_param rel_words skip_lws istarts_with strieq in_attr_char skip_to_separator
    skip_to_right_dquote eqb starts_with
link_params-other fuel [] h = ground arith
link_params-other fuel (c ∷ rest) h = rw h (ground arith)

pub link_params-form :
    (fuel : ℕ) (f : Form) (rest : Bytes)
    → IsForm f
    → Ends rest
    → link_params (suc (suc (suc fuel))) false false (b' ' ∷ (params f ++ rest))
      ≡ some (is_push f, drop 1 rest)
link_params-form fuel (relation w ws) rest a h =
    rw (quoted-append w ws rest) (link_params-relation (suc (suc fuel)) w ws rest a h)
link_params-form fuel (anchored t) rest a h =
    rw (append_assoc t (34 ∷ []) rest) (link_params-anchor (suc fuel) t rest a h)
link_params-form fuel bare rest a h = link_params-bare fuel rest h
link_params-form fuel capital rest a h = link_params-capital fuel rest h
link_params-form fuel nopush rest a h = link_params-nopush_end fuel rest h
link_params-form fuel other rest a h = link_params-other fuel rest h
