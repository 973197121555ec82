-- ===== src/Http2/Link/Words.antt =====
-- http2.cc: the parameters of a link that parse_next_link_header_once reads, for any words of a quoted
-- relation and any text of an anchor.
use maock.Prelude.{
  ℕ, suc, ◌<◌, ◌≡◌, refl, ap, ◌∙◌, ◌≢◌, Bool, true, false, not, ◌&&◌, ◌||◌, some, List, [], ◌∷◌,
  ◌++◌, append_assoc, append-nil, arith, ltb, ◌==◌, All, length, length-append,
}
use maock.Util.Percent.{in_attr_char}
use maock.Bytes.{Bytes, codes, is_empty, starts_with}
use maock.Util.Case.{istarts_with, strieq}
use maock.Http2.Link.{
  link_param, rel_quote, rel_preload, behind_param, unquoted_param, skip_param, is_ignored,
  check_link_param_empty, param_name, param_value, is_lws, rel_words, skip_to_right_dquote,
}

-- A character of a word: no space, no tab and no double quote.
abbrev pub is_word_char : ℕ → Bool
is_word_char c = not (c == b' ') && not (c == 9) && not (c == 34)

abbrev pub IsWord : Bytes → Type 0
IsWord w = (w ≢ []) × All (λ c. is_word_char c ≡ true) w

-- The words with spaces between them, and the closing quote.
abbrev pub quoted : Bytes → List Bytes → Bytes → Bytes
quoted w [] rest = w ++ 34 ∷ rest
quoted w (v ∷ vs) rest = w ++ b' ' ∷ quoted v vs rest

abbrev pub has_preload : List Bytes → Bool
has_preload [] = false
has_preload (w ∷ ws) = strieq w (codes "preload") || has_preload ws

rel_words-word :
    (ok : Bool) (w u s : Bytes)
    → All (λ c. is_word_char c ≡ true) w
    → rel_words ok u false (w ++ s) ≡ rel_words ok (u ++ w) false s
unfolding rel_words
rel_words-word ok [] u s a = rw (append-nil u) refl
rel_words-word ok (c ∷ w) u s a =
    let (p, q) : ((c == b' ') ≡ false) × ((c == 34) ≡ false) = ground (arith, a.0) in
    rw (p, q)
      (rel_words-word ok w (u ++ c ∷ []) s a.1
        ∙ ap (λ x. rel_words ok x false s) (append_assoc u (c ∷ []) w))

rel_words-skipped :
    (ok : Bool) (c : ℕ) (s : Bytes)
    → is_word_char c ≡ true
    → rel_words ok [] true (c ∷ s) ≡ rel_words ok [] false (c ∷ s)
unfolding rel_words
rel_words-skipped ok c s a = let plain : is_lws c ≡ false = ground (arith, a) in rw plain refl

quoted-skipped :
    (ok : Bool) (w : Bytes) (vs : List Bytes) (rest : Bytes)
    → IsWord w
    → rel_words ok [] true (quoted w vs rest) ≡ rel_words ok [] false (quoted w vs rest)
quoted-skipped ok [] vs rest a = absurd (a.0 refl)
quoted-skipped ok (c ∷ w) [] rest a = rel_words-skipped ok c (w ++ 34 ∷ rest) a.1.0
quoted-skipped ok (c ∷ w) (v ∷ vs) rest a =
    rel_words-skipped ok c (w ++ b' ' ∷ quoted v vs rest) a.1.0

not_empty : (w : Bytes) → w ≢ [] → is_empty w ≡ false
not_empty [] n = absurd (n refl)
not_empty (c ∷ w) n = refl

or_assoc : (a b c : Bool) → ((a || b) || c) ≡ (a || (b || c))
or_assoc a b c = ground arith

or_false : (a b : Bool) → (a || b) ≡ (a || (b || false))
or_false a b = ground arith

-- A quoted relation is read to its closing quote, and found to have preload or not.
rel_words-quoted :
    (ok : Bool) (w : Bytes) (vs : List Bytes) (rest : Bytes)
    → All IsWord (w ∷ vs)
    → rel_words ok [] false (quoted w vs rest) ≡ some (ok || has_preload (w ∷ vs), rest)
unfolding rel_words
rel_words-quoted ok w [] rest a =
    rw (rel_words-word ok w [] (34 ∷ rest) a.0.1)
      (rw (not_empty w a.0.0) (ap (λ b. some (b, rest)) (or_false ok (strieq w (codes "preload")))))
rel_words-quoted ok w (v ∷ vs) rest a =
    let found = ok || strieq w (codes "preload") in
    rw (rel_words-word ok w [] (b' ' ∷ quoted v vs rest) a.0.1) (
      rw (not_empty w a.0.0) (
        quoted-skipped found v vs rest a.1.0
        ∙ rel_words-quoted found v vs rest a.1
        ∙ ap (λ b. some (b, rest))
            (or_assoc ok (strieq w (codes "preload")) (has_preload (v ∷ vs)))))

-- A text without double quotes and backslashes is skipped to the quote behind it.
skip_to_right_dquote-text :
    (t rest : Bytes)
    → All (λ c. (not (c == 34) && not (c == 92)) ≡ true) t
    → skip_to_right_dquote (t ++ 34 ∷ rest) ≡ 34 ∷ rest
unfolding skip_to_right_dquote
skip_to_right_dquote-text [] [] a = refl
skip_to_right_dquote-text [] (c ∷ rest) a = refl
skip_to_right_dquote-text (c ∷ []) rest a =
    ground (arith, a.0, skip_to_right_dquote-text [] rest tt)
skip_to_right_dquote-text (c ∷ d ∷ t) rest a =
    ground (arith, a.0, skip_to_right_dquote-text (d ∷ t) rest a.1)

pub quoted-append :
    (w : Bytes) (vs : List Bytes) (rest : Bytes) → quoted w vs [] ++ rest ≡ quoted w vs rest
quoted-append w [] rest = append_assoc w (34 ∷ []) rest
quoted-append w (v ∷ vs) rest =
    append_assoc w (b' ' ∷ quoted v vs []) rest ∙ ap (λ s. w ++ b' ' ∷ s) (quoted-append v vs rest)

length-quoted : (w : Bytes) (vs : List Bytes) (rest : Bytes) → 0 < length (quoted w vs rest)
length-quoted w [] rest = omega (arith, length-append w (34 ∷ rest))
length-quoted w (v ∷ vs) rest = omega (arith, length-append w (b' ' ∷ quoted v vs rest))

pub link_param-relation :
    (w : Bytes) (vs : List Bytes) (rest : Bytes)
    → All IsWord (w ∷ vs)
    → link_param false false (rel_quote ++ quoted w vs rest)
      ≡ behind_param (has_preload (w ∷ vs)) false rest
unfolding link_param istarts_with
link_param-relation w vs rest a =
    let size : ltb 5 (suc (suc (suc (suc (suc (length (quoted w vs rest))))))) ≡ true =
      ground (arith, length-quoted w vs rest) in
    rw (size, rel_words-quoted false w vs rest a) refl

-- Behind a text that cannot be rel=preload, the other tests decide.
unquoted_param-skip :
    (ok : Bool) (s : Bytes)
    → istarts_with s rel_preload ≡ false
    → unquoted_param ok s ≡ skip_param ok (is_ignored s) s
unfolding unquoted_param
unquoted_param-skip ok s h = rw h (ground arith)

abbrev pub anchor : Bytes → Bytes → Bytes
anchor t rest = codes "anchor=" ++ (34 ∷ (t ++ 34 ∷ rest))

abbrev pub IsText : Bytes → Type 0
IsText t = (t ≢ []) × All (λ c. (not (c == 34) && not (c == 92)) ≡ true) t

is_ignored-anchor : (t rest : Bytes) → IsText t → is_ignored (anchor t rest) ≡ true
unfolding is_ignored check_link_param_empty istarts_with
is_ignored-anchor [] rest a = absurd (a.0 refl)
is_ignored-anchor (c ∷ t) rest a =
    let other : (c == 34) ≡ false = ground (arith, a.1.0) in rw other (ground arith)

pub link_param-anchor :
    (t rest : Bytes)
    → IsText t
    → link_param true false (anchor t rest) ≡ behind_param true true rest
unfolding link_param istarts_with skip_param param_name param_value in_attr_char starts_with
link_param-anchor t rest a =
    let ignored = is_ignored-anchor t rest a in
    rw (unquoted_param-skip true (anchor t rest) refl, skip_to_right_dquote-text t rest a.1)
      (ap (λ b. behind_param true b rest) ignored)
