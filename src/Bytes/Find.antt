-- ===== src/Bytes/Find.antt =====
-- What equality, prefix tests and searches of byte strings find.
use maock.Prelude.{
  ℕ, suc, ◌+◌, ◌≤◌, ◌<◌, ◌≡◌, refl, sym, ap, ◌∙◌, ◌≢◌, ◌↔◌, inl, inr, true, none, some, [], ◌∷◌,
  ◌++◌, append_assoc, arith, Bool-cases, Option-cases, length, take, drop, length-append,
  length-take_le, take-append-drop, take-length_append, drop-length_append,
}
use maock.Bytes.{Bytes, eqb, starts_with, find?}

pub eqb_iff : (a b : Bytes) → (eqb a b ≡ true) ↔ (a ≡ b)
unfolding eqb
eqb_iff (x ∷ a) (y ∷ b) = ground (arith, eqb_iff a b)
eqb_iff _ _ = ground arith

pub starts_with-append : (t r : Bytes) → starts_with (t ++ r) t ≡ true
unfolding starts_with
starts_with-append [] r = refl
starts_with-append (y ∷ t) r = ground (arith, starts_with-append t r)

pub starts_with_split : (s t : Bytes) → starts_with s t ≡ true → (r : Bytes) × (s ≡ t ++ r)
unfolding starts_with
starts_with_split s [] h = (s, refl)
starts_with_split [] (y ∷ t) h = cc
starts_with_split (x ∷ s) (y ∷ t) h =
    let (r, e) = starts_with_split s t (ground arith) in (r, ground arith)

-- A found position splits the text there.
pub find?_split :
    (s t : Bytes) (i : ℕ)
    → find? s t ≡ some i
    → (pre : Bytes) × (post : Bytes) × (s ≡ pre ++ (t ++ post)) × (length pre ≡ i)
unfolding find?
find?_split [] [] i h = ([], [], refl, ground arith)
find?_split [] (y ∷ t) i h = cc
find?_split (c ∷ s) t i h = elim (Bool-cases (starts_with (c ∷ s) t)) [
  | inl here ↦ let (r, e) = starts_with_split (c ∷ s) t here in ([], r, e, ground arith)
  | inr away ↦ elim (Option-cases (find? s t)) [
    | inl lost ↦ absurd (ground arith)
    | inr (j, found) ↦
        let (pre, post, e, l) = find?_split s t j found in
        (c ∷ pre, post, ap (◌∷◌ c) e, ground arith)
  ]
]

-- An occurrence is found, or one before it is.
pub find?-append :
    (pre t post : Bytes) → (i : ℕ) × (find? (pre ++ (t ++ post)) t ≡ some i) × (i ≤ length pre)
unfolding find?
find?-append [] [] [] = (0, refl, omega arith)
find?-append [] [] (c ∷ post) = (0, refl, omega arith)
find?-append [] (y ∷ t) post = (0, ground (arith, starts_with-append (y ∷ t) post), omega arith)
find?-append (c ∷ pre) t post =
    let (i, found, le) = find?-append pre t post in
    elim (Bool-cases (starts_with (c ∷ (pre ++ (t ++ post))) t)) [
      | inl here ↦ (0, ground arith, omega arith)
      | inr away ↦ (suc i, ground arith, omega arith)
    ]

-- Where no occurrence is found, there is none.
pub find?-none : (s t pre post : Bytes) → find? s t ≡ none → s ≢ pre ++ (t ++ post)
find?-none s t pre post h e =
    let (i, found, le) = find?-append pre t post in cc (ap (λ (u : Bytes). find? u t) e)

-- A text is what stands before a found occurrence, the occurrence, and what stands behind it.
pub find?_pieces :
    (s t : Bytes) (i : ℕ) → find? s t ≡ some i → take i s ++ (t ++ drop (i + length t) s) ≡ s
find?_pieces s t i found =
    let (pre, post, e, l) = find?_split s t i found in
    let n : i + length t ≡ length (pre ++ t) = omega (arith, length-append pre t) in
    let front : take i s ≡ pre = rw (e, ← l) (take-length_append pre (t ++ post)) in
    let back : drop (i + length t) s ≡ post =
      rw (n, e, ← append_assoc) (drop-length_append (pre ++ t) post) in
    rw (front, back) (sym e)

regroup : (a b c d : Bytes) → a ++ (b ++ (c ++ d)) ≡ (a ++ (b ++ c)) ++ d
regroup a b c d = simp append_assoc

-- Before the first occurrence there is none.
pub find?-take :
    (s t : Bytes) (i : ℕ) → 0 < length t → find? s t ≡ some i → find? (take i s) t ≡ none
find?-take s t i h found = elim (Option-cases (find? (take i s) t)) [
  | inl lost ↦ lost
  | inr (j, early) ↦
      let (pre, post, e, l) = find?_split (take i s) t j early in
      let (k, first, le) = find?-append pre t (post ++ drop i s) in
      let whole : pre ++ (t ++ (post ++ drop i s)) ≡ s =
        regroup pre t post (drop i s)
        ∙ ap (λ (u : Bytes). u ++ drop i s) (sym e)
        ∙ take-append-drop i s in
      let same : i ≡ k = ground (arith, rw whole at first) in
      absurd (
        omega (
          arith,
          ap (λ (u : Bytes). length u) e,
          length-take_le i s,
          length-append pre (t ++ post),
          length-append t post,
        ))
]
