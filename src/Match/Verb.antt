-- ===== src/Match/Verb.antt =====
-- H2Server_Request.h: what each match type selects.
use maock.Prelude.{
  ℕ, ◌+◌, ◌-◌, ◌≤◌, ◌≡◌, refl, sym, ap, ◌∙◌, ◌↔◌, inl, inr, Bool, true, [], ◌∷◌, ◌++◌, arith, leb,
  ◌==◌, Option-cases, &&_true, length, take, drop, length-append, take_all, take-append-drop,
  length-drop, drop-length_append,
}
use maock.Bytes.{Bytes, find?}
use maock.Bytes.Find.{eqb_iff, find?_split, find?-append}
use maock.Match.{MatchType, equals_to, start_with, end_with, contains, regex_match, match_verb}

-- A subject that a match type selects for an object, in terms of how the subject splits.
abbrev pub Selects : (Bytes → Bytes → Bool) → Bytes → Bytes → MatchType → Bytes → Type 0
Selects full_match e s equals_to o = s ≡ o
Selects full_match e s start_with o = (post : Bytes) × (s ≡ o ++ post)
Selects full_match e s end_with o = (pre : Bytes) × (s ≡ pre ++ o)
Selects full_match e s contains o = (pre : Bytes) × (post : Bytes) × (s ≡ pre ++ (o ++ post))
Selects full_match e s regex_match o = full_match e s ≡ true

first_position :
    (s o pre post : Bytes) (i : ℕ)
    → s ≡ pre ++ (o ++ post)
    → length pre ≡ i
    → (i == 0) ≡ true
    → s ≡ o ++ post
first_position s o [] post i e l z = e
first_position s o (c ∷ pre) post i e l z = absurd (ground arith)

module _ (full_match : Bytes → Bytes → Bool) (expression s o : Bytes) where
  start_with_iff :
      (match_verb full_match expression s start_with o ≡ true)
      ↔ Selects full_match expression s start_with o
  unfolding match_verb
  start_with_iff = (
    (λ h. elim (Option-cases (find? s o)) [
      | inl lost ↦ absurd (ground arith)
      | inr (i, found) ↦
          let (pre, post, e, l) = find?_split s o i found in
          (post, first_position s o pre post i e l (ground arith))
    ]),
    λ (post, e).
        let (i, found, le) = find?-append [] o post in
        ground (arith, ap (λ (u : Bytes). find? u o) e),
  )

  contains_iff :
      (match_verb full_match expression s contains o ≡ true)
      ↔ Selects full_match expression s contains o
  unfolding match_verb
  contains_iff = (
    (λ h. elim (Option-cases (find? s o)) [
      | inl lost ↦ absurd (ground arith)
      | inr (i, found) ↦ let (pre, post, e, l) = find?_split s o i found in (pre, post, e)
    ]),
    λ (pre, post, e).
        let (i, found, le) = find?-append pre o post in
        ground (arith, ap (λ (u : Bytes). find? u o) e),
  )

  end_with_iff :
      (match_verb full_match expression s end_with o ≡ true)
      ↔ Selects full_match expression s end_with o
  unfolding match_verb
  end_with_iff = (
    (λ h.
        let parts = &&_true (leb (length o) (length s)) _ h in
        let fits : length o ≤ length s = ground (arith, parts.0) in
        let rest = drop (length s - length o) s in
        let whole = take_all (length o) rest (omega (arith, length-drop (length s - length o) s)) in
        (
          take (length s - length o) s,
          sym (take-append-drop (length s - length o) s)
              ∙ ap (λ (u : Bytes). take (length s - length o) s ++ u)
                  (sym whole ∙ (eqb_iff (take (length o) rest) o).0 parts.1),
        )),
    λ (pre, e).
        let n : length s ≡ length pre + length o =
          ap (λ (u : Bytes). length u) e ∙ length-append pre o in
        let at : length s - length o ≡ length pre = omega arith in
        let fits : leb (length o) (length s) ≡ true = ground arith in
        let tail : drop (length s - length o) s ≡ o = rw (at, e) (drop-length_append pre o) in
        rw (fits, tail, take_all (length o) o (omega arith)) ((eqb_iff o o).1 refl),
  )

-- For every match type, a rule accepts a subject exactly when the subject is the object, begins
-- with it, ends with it, contains it, or is accepted whole by the compiled expression.
pub match_verb_iff :
    (full_match : Bytes → Bytes → Bool) (expression s : Bytes) (verb : MatchType) (o : Bytes)
    → (match_verb full_match expression s verb o ≡ true) ↔ Selects full_match expression s verb o
unfolding match_verb
match_verb_iff full_match e s equals_to o = eqb_iff s o
match_verb_iff full_match e s start_with o = start_with_iff full_match e s o
match_verb_iff full_match e s end_with o = end_with_iff full_match e s o
match_verb_iff full_match e s contains o = contains_iff full_match e s o
match_verb_iff full_match e s regex_match o = (λ h. h, λ h. h)
