-- ===== src/Response/Tokens/Join.antt =====
-- H2Server_Response.h: tokenize_string and its text.
use maock.Bytes.Find.{find?_pieces, find?-take}
use maock.Prelude.{
  ℕ, zero, suc, ◌+◌, ◌<◌, ◌≡◌, refl, ap, ◌∙◌, ◌≢◌, inl, inr, none, List, [], ◌∷◌, ◌++◌, arith,
  Option-cases, All, length, take, drop, length-append,
}
use maock.Bytes.{Bytes, find?}
use maock.Response.Tokens.{token_at, tokenize_from, tokenize_string}

abbrev pub join : Bytes → List Bytes → Bytes
join d [] = []
join d (t ∷ []) = t
join d (t ∷ u ∷ ts) = t ++ (d ++ join d (u ∷ ts))

join-cons : (d t : Bytes) (ts : List Bytes) → ts ≢ [] → join d (t ∷ ts) ≡ t ++ (d ++ join d ts)
join-cons d t [] h = absurd (h refl)
join-cons d t (u ∷ ts) h = refl

tokenize_from-ne-nil : (f : ℕ) (d s : Bytes) → 0 < f → tokenize_from f d s ≢ []
unfolding tokenize_from token_at
tokenize_from-ne-nil zero d s h = absurd (omega arith)
tokenize_from-ne-nil (suc f) d s h = elim (Option-cases (find? s d)) [
  | inl lost ↦ rw lost (λ e. cc)
  | inr (i, found) ↦ rw found (λ e. cc)
]

join-tokenize_from :
    (f : ℕ) (d s : Bytes) → 0 < length d → length s < f → join d (tokenize_from f d s) ≡ s
unfolding tokenize_from token_at
join-tokenize_from zero d s h k = absurd (omega arith)
join-tokenize_from (suc f) d s h k = elim (Option-cases (find? s d)) [
  | inl lost ↦ rw lost
  | inr (i, found) ↦
      let rest = drop (i + length d) s in
      let pieces = find?_pieces s d i found in
      let shorter : length rest < f = omega (
        arith,
        ap (λ (u : Bytes). length u) pieces,
        length-append (take i s) (d ++ rest),
        length-append d rest,
      ) in
      rw found (
        join-cons d (take i s) (tokenize_from f d rest)
          (tokenize_from-ne-nil f d rest (omega arith))
        ∙ ap (λ (u : Bytes). take i s ++ (d ++ u)) (join-tokenize_from f d rest h shorter)
        ∙ pieces)
]

tokenize_from_free :
    (f : ℕ) (d s : Bytes) → 0 < length d → All (λ t. find? t d ≡ none) (tokenize_from f d s)
unfolding tokenize_from token_at
tokenize_from_free zero d s h = tt
tokenize_from_free (suc f) d s h = elim (Option-cases (find? s d)) [
  | inl lost ↦ rw lost (lost, tt)
  | inr (i, found) ↦
      let rest = tokenize_from_free f d (drop (i + length d) s) h in
      rw found (find?-take s d i h found, rest)
]

-- Whatever the text and the placeholder, the tokens joined by the placeholder are the text.
pub join-tokenize_string : (source d : Bytes) → join d (tokenize_string source d) ≡ source
unfolding tokenize_string
join-tokenize_string source [] = refl
join-tokenize_string source (c ∷ d) =
    join-tokenize_from (suc (length source)) (c ∷ d) source (omega arith) (omega arith)

-- No token holds the placeholder, if there is one, and there is at least one token.
pub tokenize_string_free :
    (source d : Bytes)
    → d ≢ []
    → All (λ t. find? t d ≡ none) (tokenize_string source d) × (tokenize_string source d ≢ [])
unfolding tokenize_string
tokenize_string_free source [] h = absurd (h refl)
tokenize_string_free source (c ∷ d) h = (
  tokenize_from_free (suc (length source)) (c ∷ d) source (omega arith),
  tokenize_from-ne-nil (suc (length source)) (c ∷ d) source (omega arith),
)
