-- ===== src/Http2/Link/Found.antt =====
-- http2.cc: parse_link_header comes to its end, and what it gives stands in its source.
use maock.Prelude.{
  ℕ, zero, suc, ◌+◌, ◌≤◌, ◌<◌, ◌≡◌, refl, sym, ap, ◌∙◌, ◌≢◌, ◌⊎◌, inl, inr, Bool, true, false, not,
  ◌&&◌, ◌||◌, Option, none, some, List, [], ◌∷◌, ◌++◌, append_assoc, append-nil, arith, ltb, ◌==◌,
  if◌then◌else◌, Bool-cases, All, length, take, drop, length-append, take-append-drop,
}
use maock.Bytes.{Bytes, codes, is_empty, eqb, starts_with}
use maock.Util.Host.{before, behind}
use maock.Util.Percent.{in_attr_char}
use maock.Util.Case.{strieq}
use maock.Http2.Link.{
  istarts_with, is_lws, skip_lws, skip_to_next_field, skip_to_right_dquote, Step, ends, next,
  behind_param, rel_words, param_name, skip_to_separator, param_value, skip_param, unquoted_param,
  link_param, link_params, link_of, behind_url, parse_next_link_header_once, parse_links,
  parse_link_header, rel_quote, rel_preload, is_ignored, preload, is_separator,
}

-- `r` stands at the end of `s`, or behind a byte of it.
abbrev Suffix : Bytes → Bytes → Type 0
Suffix r s = (p : Bytes) × (s ≡ p ++ r)

abbrev Inside : Bytes → Bytes → Type 0
Inside r s = (p : Bytes) × (c : ℕ) × (s ≡ p ++ c ∷ r)

Suffix-refl : (s : Bytes) → Suffix s s
Suffix-refl s = ([], refl)

Suffix-nil : (s : Bytes) → Suffix [] s
Suffix-nil s = (s, sym (append-nil s))

Suffix-cons : (c : ℕ) {r s : Bytes} → Suffix r s → Suffix r (c ∷ s)
Suffix-cons c (p, e) = (c ∷ p, ap (λ t. c ∷ t) e)

Suffix-trans : {q r s : Bytes} → Suffix q r → Suffix r s → Suffix q s
Suffix-trans {q} (p, e) (o, f) = (o ++ p, f ∙ ap (λ t. o ++ t) e ∙ sym (append_assoc o p q))

Suffix-drop : (n : ℕ) (s : Bytes) → Suffix (drop n s) s
Suffix-drop n s = (take n s, sym (take-append-drop n s))

Inside-Suffix : {q r s : Bytes} → Inside q r → Suffix r s → Inside q s
Inside-Suffix {q} (p, c, e) (o, f) =
    (o ++ p, c, f ∙ ap (λ t. o ++ t) e ∙ sym (append_assoc o p (c ∷ q)))

Inside-weak : {r s : Bytes} → Inside r s → Suffix r s
Inside-weak {r} (p, c, e) = (p ++ c ∷ [], e ∙ sym (append_assoc p (c ∷ []) r))

either {ℓ κ} :
    {A : Type ℓ} (P : A → Type κ) (b : Bool) (x y : A) → P x → P y → P (if b then x else y)
either P true x y h k = h
either P false x y h k = k

Suffix-skip_lws : (s : Bytes) → Suffix (skip_lws s) s
unfolding skip_lws
Suffix-skip_lws [] = Suffix-refl []
Suffix-skip_lws (c ∷ s) =
    either (λ r. Suffix r (c ∷ s)) (is_lws c) _ _ (Suffix-cons c (Suffix-skip_lws s))
      (Suffix-refl (c ∷ s))

Suffix-skip_to_next_field : (s : Bytes) → Suffix (skip_to_next_field s) s
unfolding skip_to_next_field
Suffix-skip_to_next_field [] = Suffix-refl []
Suffix-skip_to_next_field (c ∷ s) =
    either (λ r. Suffix r (c ∷ s)) (is_lws c || c == b',') _ _
      (Suffix-cons c (Suffix-skip_to_next_field s)) (Suffix-refl (c ∷ s))

Suffix-skip_to_right_dquote : (s : Bytes) → Suffix (skip_to_right_dquote s) s
unfolding skip_to_right_dquote
Suffix-skip_to_right_dquote [] = Suffix-refl []
Suffix-skip_to_right_dquote (c ∷ []) =
    either (λ r. Suffix r (c ∷ [])) (c == 34) _ _ (Suffix-refl (c ∷ [])) (Suffix-nil (c ∷ []))
Suffix-skip_to_right_dquote (c ∷ d ∷ s) =
    either (λ r. Suffix r (c ∷ d ∷ s)) (c == 34) _ _ (Suffix-refl (c ∷ d ∷ s))
      (either (λ r. Suffix r (c ∷ d ∷ s)) (c == 92) _ _
        (Suffix-cons c (Suffix-cons d (Suffix-skip_to_right_dquote s)))
        (Suffix-cons c (Suffix-skip_to_right_dquote (d ∷ s))))

Suffix-skip_to_separator : (s : Bytes) → Suffix (skip_to_separator s) s
unfolding skip_to_separator
Suffix-skip_to_separator [] = Suffix-refl []
Suffix-skip_to_separator (c ∷ s) =
    either (λ r. Suffix r (c ∷ s)) (is_separator c) _ _ (Suffix-refl (c ∷ s))
      (Suffix-cons c (Suffix-skip_to_separator s))

-- Where a step goes on.
abbrev Within : Bytes → Step → Type 0
Within s (ends b r) = Suffix r s
Within s (next o i r) = Inside r s

Within-Suffix : {r s : Bytes} (t : Step) → Within r t → Suffix r s → Within s t
Within-Suffix (ends b q) w h = Suffix-trans w h
Within-Suffix (next o i q) w h = Inside-Suffix w h

Within-behind_param : (ok ign : Bool) (s : Bytes) → Within s (behind_param ok ign s)
unfolding behind_param
Within-behind_param ok ign [] = Suffix-refl []
Within-behind_param ok ign (c ∷ s) =
    either (Within (c ∷ s)) (c == b',') _ _ (Suffix-drop 1 (c ∷ s))
      (either (Within (c ∷ s)) (c == b';') _ _ ([], c, refl) (Suffix-nil (c ∷ s)))

abbrev EndsIn : {A : Type 0} → Bytes → Option (A × Bytes) → Type 0
EndsIn s none = Unit
EndsIn s (some (a, r)) = Suffix r s

EndsIn-cons :
    {A : Type 0} (c : ℕ) (s : Bytes) (o : Option (A × Bytes)) → EndsIn s o → EndsIn (c ∷ s) o
EndsIn-cons c s none h = tt
EndsIn-cons c s (some (a, r)) h = Suffix-cons c h

EndsIn-rel_words :
    (ok : Bool) (word : Bytes) (skipping : Bool) (s : Bytes)
    → EndsIn s (rel_words ok word skipping s)
unfolding rel_words
EndsIn-rel_words ok word skipping [] = tt
EndsIn-rel_words ok word skipping (c ∷ s) =
    either (EndsIn (c ∷ s)) (skipping && is_lws c) _ _
      (EndsIn-cons c s _ (EndsIn-rel_words ok [] true s))
      (either (EndsIn (c ∷ s)) (not (c == b' ') && not (c == 34)) _ _
        (EndsIn-cons c s _ (EndsIn-rel_words ok (word ++ c ∷ []) false s))
        (either (EndsIn (c ∷ s)) (is_empty word) _ _ tt (
          either (EndsIn (c ∷ s)) (c == 34) _ _ (Suffix-cons c (Suffix-refl s))
            (EndsIn-cons c s _ (EndsIn-rel_words (ok || strieq word preload) [] true s)))))

EndsIn-param_name : (moved : Bool) (s : Bytes) → EndsIn s (param_name moved s)
unfolding param_name
EndsIn-param_name moved [] = Suffix-refl []
EndsIn-param_name moved (c ∷ s) =
    either (EndsIn (c ∷ s)) (in_attr_char c) _ _ (EndsIn-cons c s _ (EndsIn-param_name true s)) (
      either (EndsIn (c ∷ s)) (moved && (c == b'*' && eqb (take 1 s) (codes "="))) _ _
        (Suffix-cons c (Suffix-refl s))
        (either (EndsIn (c ∷ s)) (c == b'=' || is_separator c) _ _ (Suffix-refl (c ∷ s)) tt))

Within-behind_quote :
    (ok ign : Bool) (q s : Bytes)
    → Suffix q s
    → Within s (elim q as (λ b. Step) [ [] ↦ ends false [] | d ∷ r ↦ behind_param ok ign r ])
Within-behind_quote ok ign [] s h = Suffix-nil s
Within-behind_quote ok ign (d ∷ r) s h =
    Within-Suffix (behind_param ok ign r) (Within-behind_param ok ign r)
      (Suffix-trans (Suffix-cons d (Suffix-refl r)) h)

Within-param_value : (ok ign : Bool) (s : Bytes) → Within s (param_value ok ign s)
unfolding param_value
Within-param_value ok ign [] = Suffix-refl []
Within-param_value ok ign (c ∷ s) =
    either (Within (c ∷ s)) (c == 34) _ _
      (Within-behind_quote ok ign (skip_to_right_dquote s) (c ∷ s)
        (Suffix-cons c (Suffix-skip_to_right_dquote s)))
      (either (Within (c ∷ s)) (is_separator c) _ _ (Suffix-nil (c ∷ s)) (
        Within-Suffix (behind_param ok ign (skip_to_separator (c ∷ s)))
          (Within-behind_param ok ign (skip_to_separator (c ∷ s)))
          (Suffix-skip_to_separator (c ∷ s))))

Within-skip_param : (ok ign : Bool) (s : Bytes) → Within s (skip_param ok ign s)
unfolding skip_param
Within-skip_param ok ign s = named (param_name false s) (EndsIn-param_name false s)
  where
    named :
        (o : Option (Bool × Bytes))
        → EndsIn s o
        → Within s (elim o as (λ b. Step) [
          | none ↦ ends false []
          | some (moved, r) ↦
              if not moved
              then ends false []
              else if starts_with r (codes "=")
              then param_value ok ign (drop 1 r)
              else behind_param ok ign r
        ])
    named none h = Suffix-nil s
    named (some (moved, r)) h = either (Within s) (not moved) _ _ (Suffix-nil s) (
        either (Within s) (starts_with r (codes "=")) _ _
          (Within-Suffix (param_value ok ign (drop 1 r)) (Within-param_value ok ign (drop 1 r))
            (Suffix-trans (Suffix-drop 1 r) h))
          (Within-Suffix (behind_param ok ign r) (Within-behind_param ok ign r) h))

either_when {ℓ κ} :
    {A : Type ℓ} (P : A → Type κ) (b : Bool) (x y : A)
    → (b ≡ true → P x)
    → P y
    → P (if b then x else y)
either_when P true x y h k = h refl
either_when P false x y h k = k

Inside-drop :
    (a s t : Bytes) (c : ℕ) (m : Bool)
    → (starts_with a (c ∷ t) && m) ≡ true
    → Suffix a s
    → Inside (drop 1 a) s
unfolding starts_with
Inside-drop [] s t c m h (p, e) = cc
Inside-drop (d ∷ a) s t c m h (p, e) = (p, d, e)

Within-unquoted_param : (ok : Bool) (s : Bytes) → Within s (unquoted_param ok s)
unfolding unquoted_param
Within-unquoted_param ok s =
    let fine = Within-skip_param ok (is_ignored s) s in
    let other = skip_param ok (is_ignored s) s in
    let after = drop (length rel_preload) s in
    let matches = istarts_with s rel_preload in
    let there = Suffix-drop (length rel_preload) s in
    let goes_on = starts_with after (codes ";") && matches in
    either (Within s) (is_empty after)
      (if length s == length rel_preload && matches then ends true [] else other)
      (if starts_with after (codes ",") && matches
        then ends true (drop 1 after)
        else if goes_on
        then next true false (drop 1 after)
        else other)
      (either (Within s) (length s == length rel_preload && matches) (ends true []) other
        (Suffix-nil s) fine)
      (either (Within s) (starts_with after (codes ",") && matches) (ends true (drop 1 after))
        (if goes_on then next true false (drop 1 after) else other)
        (Suffix-trans (Suffix-drop 1 after) there)
        (either_when (Within s) goes_on (next true false (drop 1 after)) other
          (λ h. Inside-drop after s [] b';' matches h there) fine))

Within-quoted :
    (ign : Bool) (q s : Bytes) (o : Option (Bool × Bytes))
    → EndsIn q o
    → Suffix q s
    → Within s
        (elim o as (λ b. Step) [ none ↦ ends false [] | some (ok, r) ↦ behind_param ok ign r ])
Within-quoted ign q s none h k = Suffix-nil s
Within-quoted ign q s (some (ok, r)) h k =
    Within-Suffix (behind_param ok ign r) (Within-behind_param ok ign r) (Suffix-trans h k)

Within-link_param : (ok ign : Bool) (s : Bytes) → Within s (link_param ok ign s)
unfolding link_param
Within-link_param ok ign s =
    let q = drop (length rel_quote) s in
    let quoted : Step = elim (rel_words ok [] false q) [
      | none ↦ ends false []
      | some (ok', r) ↦ behind_param ok' ign r
    ] in
    let is_quoted = not ok && (ltb (length rel_quote) (length s) && istarts_with s rel_quote) in
    either (Within s) ign (skip_param ok ign s) (if is_quoted then quoted else unquoted_param ok s)
      (Within-skip_param ok ign s)
      (either (Within s) is_quoted quoted (unquoted_param ok s)
        (Within-quoted ign q s (rel_words ok [] false q) (EndsIn-rel_words ok [] false q)
          (Suffix-drop (length rel_quote) s))
        (Within-unquoted_param ok s))

length-Suffix : {r s : Bytes} → Suffix r s → length r ≤ length s
length-Suffix {r} (p, e) = omega (arith, ap length e, length-append p r)

length-Inside : {r s : Bytes} → Inside r s → length r < length s
length-Inside {r} (p, c, e) = omega (arith, ap length e, length-append p (c ∷ r))

-- A result, and where the text behind it stands.
abbrev Gives : {A : Type 0} → Bytes → Option (A × Bytes) → Type 0
Gives {A} s o = (a : A) × (r : Bytes) × (o ≡ some (a, r)) × Suffix r s

link_params-Gives :
    (fuel : ℕ) (ok ign : Bool) (s : Bytes) → length s < fuel → Gives s (link_params fuel ok ign s)
unfolding link_params
link_params-Gives zero ok ign s h = elim h [ ]
link_params-Gives (suc fuel) ok ign s h =
    let s' = skip_lws s in
    let there = Suffix-skip_lws s in
    elim (Bool-cases (is_empty s')) [
      | inl t ↦ (false, [], rw t refl, Suffix-nil s)
      | inr f ↦ rw f (
          step (link_param ok ign s') (Within-link_param ok ign s') there (λ o i r w.
            link_params-Gives fuel o i r (omega (arith, h, length-Inside w, length-Suffix there))))
    ]
  where
    step :
        {q : Bytes} (t : Step)
        → Within q t
        → Suffix q s
        → ((o i : Bool) (r : Bytes) → Inside r q → Gives r (link_params fuel o i r))
        → Gives s (elim t as (λ b. Option (Bool × Bytes)) [
          | ends found r ↦ some (found, r)
          | next o i r ↦ link_params fuel o i r
        ])
    step (ends found r) w k f = (found, r, refl, Suffix-trans w k)
    step (next o i r) w k f =
        let (b, r', e, there) = f o i r w in
        (b, r', e, Suffix-trans there (Suffix-trans (Inside-weak w) k))

-- What stands between angle brackets in a text: a URL, which is not empty and has no closing one.
abbrev pub IsUrlOf : Bytes → Bytes → Type 0
IsUrlOf src u =
    (u ≢ [])
    × All (λ c. c ≢ b'>') u
    × ((p : Bytes) × (q : Bytes) × (src ≡ p ++ b'<' ∷ (u ++ b'>' ∷ q)))

IsUrlOf-Suffix : (u : Bytes) {r s : Bytes} → IsUrlOf r u → Suffix r s → IsUrlOf s u
IsUrlOf-Suffix u (n, a, (p, q, e)) (o, f) =
    (n, a, (o ++ p, q, f ∙ ap (λ t. o ++ t) e ∙ sym (append_assoc o p (b'<' ∷ (u ++ b'>' ∷ q)))))

before-behind :
    (c : ℕ) (s r : Bytes)
    → behind c s ≡ some r
    → (s ≡ before c s ++ c ∷ r) × All (λ d. d ≢ c) (before c s)
unfolding before behind
before-behind c [] r h = absurd (ground arith)
before-behind c (d ∷ s) r h = elim (Bool-cases (d == c)) [
  | inl t ↦ rw t (ground (arith, t), tt)
  | inr f ↦
      let (e, a) = before-behind c s r (ground (arith, f)) in
      rw f (ap (λ t. d ∷ t) e, (ground (arith, f), a))
]

-- What one link gives: an empty text or a URL of the source, and a shorter rest.
abbrev Once : ℕ → Bytes → Option (Bytes × Bytes) → Type 0
Once n src o =
    (u : Bytes) × (r : Bytes) × (o ≡ some (u, r))
    × Suffix r src
    × (length r < n)
    × ((u ≡ []) ⊎ IsUrlOf src u)

no_url : (src : Bytes) (n : ℕ) (r : Bytes) → Suffix r src → length r < n → Once n src (some ([], r))
no_url src n r h l = ([], r, refl, h, l, inl refl)

IsUrlOf-link_of :
    (src url : Bytes) (found : Bool)
    → All (λ c. c ≢ b'>') url
    → (p : Bytes) × (q : Bytes) × (src ≡ p ++ b'<' ∷ (url ++ b'>' ∷ q))
    → (link_of url found ≡ []) ⊎ IsUrlOf src (link_of url found)
IsUrlOf-link_of src url false a e = inl refl
IsUrlOf-link_of src [] true a e = inl refl
IsUrlOf-link_of src (c ∷ url) true a e = inr ((λ h. cc), a, e)

Once-behind_url :
    (fuel : ℕ) (url r src : Bytes)
    → length src ≤ fuel
    → All (λ c. c ≢ b'>') url
    → (p : Bytes) × (src ≡ p ++ b'<' ∷ (url ++ b'>' ∷ r))
    → Once (length src) src (behind_url fuel url r)
unfolding behind_url
Once-behind_url fuel url [] src h a (p, e) =
    no_url src (length src) [] (Suffix-nil src)
      (omega (arith, ap length e, length-append p (b'<' ∷ (url ++ b'>' ∷ []))))
Once-behind_url fuel url (c ∷ r) src h a (p, e) =
    let size = ap length e in
    let l1 = length-append p (b'<' ∷ (url ++ b'>' ∷ (c ∷ r))) in
    let l2 = length-append url (b'>' ∷ (c ∷ r)) in
    let there : Suffix r src = (p ++ b'<' ∷ (url ++ b'>' ∷ c ∷ []), e ∙ simp append_assoc) in
    either (Once (length src) src) (c == b',') _ _
      (no_url src (length src) r there (omega (arith, size, l1, l2)))
      (either (Once (length src) src) (c == b';') _ _
        (let (found, r', done, inside) =
            link_params-Gives fuel false false r (omega (arith, h, size, l1, l2)) in
          (
            link_of url found,
            r',
            rw done refl,
            Suffix-trans inside there,
            omega (arith, size, l1, l2, length-Suffix inside),
            IsUrlOf-link_of src url found a (p, c ∷ r, e),
          ))
        (no_url src (length src) [] (Suffix-nil src) (omega (arith, size, l1))))

Once-parse_next_link_header_once :
    (fuel : ℕ) (src : Bytes)
    → is_empty src ≡ false
    → length src ≤ fuel
    → Once (length src) src (parse_next_link_header_once fuel src)
unfolding parse_next_link_header_once
Once-parse_next_link_header_once fuel src n h =
    start (skip_to_next_field src) (Suffix-skip_to_next_field src)
  where
    some_bytes : 0 < length src
    some_bytes = ground arith

    none_left : Once (length src) src (some ([], []))
    none_left = no_url src (length src) [] (Suffix-nil src) some_bytes

    url :
        (s : Bytes)
        → (p : Bytes) × (src ≡ p ++ b'<' ∷ s)
        → (o : Option Bytes) → behind b'>' s ≡ o
        → Once (length src) src (elim o as (λ b. Option (Bytes × Bytes)) [
          | none ↦ some ([], [])
          | some r ↦ behind_url fuel (before b'>' s) r
        ])
    url s (p, e) none k = none_left
    url s (p, e) (some r) k =
        let (split, free) = before-behind b'>' s r k in
        Once-behind_url fuel (before b'>' s) r src h free (p, e ∙ ap (λ t. p ++ b'<' ∷ t) split)

    start :
        (t : Bytes)
        → Suffix t src
        → Once (length src) src (elim t as (λ b. Option (Bytes × Bytes)) [
          | [] ↦ some ([], [])
          | c ∷ s ↦
              if c == b'<'
              then elim (behind b'>' s) [
                | none ↦ some ([], [])
                | some r ↦ behind_url fuel (before b'>' s) r
              ]
              else some ([], [])
        ])
    start [] k = none_left
    start (c ∷ s) (p, e) = elim (Bool-cases (c == b'<')) [
      | inl t ↦
          let same : c ≡ b'<' = ground arith in rw t (url s (p, rw same at e) (behind b'>' s) refl)
      | inr f ↦ rw f none_left
    ]

add_url :
    (src u : Bytes) (links : List Bytes)
    → (u ≡ []) ⊎ IsUrlOf src u
    → All (IsUrlOf src) links
    → All (IsUrlOf src) (if is_empty u then links else u ∷ links)
add_url src [] links h a = a
add_url src (c ∷ u) links (inl e) a = cc
add_url src (c ∷ u) links (inr h) a = (h, a)

All-IsUrlOf :
    (links : List Bytes) {r s : Bytes} → All (IsUrlOf r) links → Suffix r s → All (IsUrlOf s) links
All-IsUrlOf [] a h = tt
All-IsUrlOf (u ∷ links) a h = (IsUrlOf-Suffix u a.0 h, All-IsUrlOf links a.1 h)

parse_links-IsUrlOf :
    (fuel : ℕ) (src : Bytes)
    → length src < fuel
    → (links : List Bytes) × (parse_links fuel src ≡ some links) × All (IsUrlOf src) links
unfolding parse_links
parse_links-IsUrlOf zero src h = elim h [ ]
parse_links-IsUrlOf (suc fuel) src h = elim (Bool-cases (is_empty src)) [
  | inl t ↦ ([], rw t refl, tt)
  | inr f ↦
      let (u, r, done, there, shorter, fine) =
        Once-parse_next_link_header_once fuel src f (omega arith) in
      let (links, rest, all) = parse_links-IsUrlOf fuel r (omega (arith, h, shorter)) in
      (
        if is_empty u then links else u ∷ links,
        rw (f, done, rest) refl,
        add_url src u links fine (All-IsUrlOf links all there),
      )
]

-- For every text, parse_link_header comes to its end, and each of the URLs that it gives is not
-- empty, and stands in the text between an opening angle bracket and the first closing one behind it.
pub parse_link_header-IsUrlOf :
    (src : Bytes)
    → (links : List Bytes) × (parse_link_header src ≡ some links) × All (IsUrlOf src) links
unfolding parse_link_header
parse_link_header-IsUrlOf src = parse_links-IsUrlOf (length src + 1) src (omega arith)
