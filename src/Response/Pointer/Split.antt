-- ===== src/Response/Pointer/Split.antt =====
-- H2Server_Response.h: splitComplexJsonPointer and its parts.
use mathlib.Core.List.{flatten}
use maock.Bytes.Find.{find?_split}
use maock.Prelude.{
  ℕ, zero, suc, ◌<◌, ◌≡◌, refl, ap, ◌∙◌, Option, none, some, List, [], ◌∷◌, ◌++◌, append_assoc,
  append-nil, arith, length, drop, length-append, take-append-drop, length-drop,
}
use maock.Bytes.{Bytes, codes, find?}
use maock.Response.Pointer.{
  indicator, resume, cut_special, split_round, split_from, split_complex_json_pointer,
}

abbrev left_over : Option Bytes → Bytes
left_over none = []
left_over (some r) = r

abbrev Shorter : Option Bytes → Bytes → Type 0
Shorter none s = Unit
Shorter (some r) s = length r < length s

abbrev joined : List Bytes × Option Bytes → Bytes
joined p = flatten p.0 ++ left_over p.1

flatten-append : (a b : List Bytes) → flatten (a ++ b) ≡ flatten a ++ flatten b
unfolding flatten
flatten-append [] b = refl
flatten-append (x ∷ a) b = simp (flatten-append a b, append_assoc)

joined-cut_special : (s : Bytes) (o : Option ℕ) → joined (cut_special s o) ≡ s
unfolding cut_special flatten
joined-cut_special s none = simp append-nil
joined-cut_special s (some j) = simp (append-nil, take-append-drop (suc j) s)

joined-split_round : (s : Bytes) (o : Option ℕ) → joined (split_round s o) ≡ s
unfolding split_round
joined-split_round s none = unfold flatten in simp append-nil
joined-split_round s (some zero) = joined-cut_special s _
joined-split_round s (some (suc i)) =
    unfold flatten in
    simp append_assoc (
      rw (joined-cut_special (drop (suc i) s) (find? (drop 1 (drop (suc i) s)) (codes "/")))
        (take-append-drop (suc i) s))

-- What a round leaves is shorter than what it began with.
Shorter-cut_special : (s : Bytes) (o : Option ℕ) → 0 < length s → Shorter (cut_special s o).1 s
unfolding cut_special
Shorter-cut_special s none h = tt
Shorter-cut_special s (some j) h = omega (arith, length-drop (suc j) s)

Shorter-drop : (r : Option Bytes) (i : ℕ) (s : Bytes) → Shorter r (drop i s) → Shorter r s
Shorter-drop none i s h = tt
Shorter-drop (some r) i s h = omega (arith, length-drop i s)

-- The indicator is found before the end.
room : (s : Bytes) (i : ℕ) → find? s indicator ≡ some i → 0 < length (drop i s)
room s i found =
    let (pre, post, e, l) = find?_split s indicator i found in
    omega (
      arith,
      length-drop i s,
      ap (λ (u : Bytes). length u) e,
      length-append pre (indicator ++ post),
      length-append indicator post,
    )

Shorter-split_round :
    (s : Bytes) (o : Option ℕ) → find? s indicator ≡ o → Shorter (split_round s o).1 s
unfolding split_round
Shorter-split_round s none found = tt
Shorter-split_round s (some i) found =
    Shorter-drop _ i s (Shorter-cut_special (drop i s) _ (room s i found))

flatten-resume :
    (fuel : ℕ) (s : Bytes) (o : Option Bytes) (again : Bytes → List Bytes)
    → ((r : Bytes) → length r < fuel → flatten (again r) ≡ r)
    → length s < suc fuel
    → Shorter o s
    → flatten (resume again o) ≡ left_over o
flatten-resume fuel s none again ih h l = unfold flatten in refl
flatten-resume fuel s (some r) again ih h l = ih r (omega arith)

flatten-split_from : (fuel : ℕ) (s : Bytes) → length s < fuel → flatten (split_from fuel s) ≡ s
unfolding split_from
flatten-split_from zero s h = absurd (omega arith)
flatten-split_from (suc fuel) s h =
    let round = split_round s (find? s indicator) in
    let rest =
      flatten-resume fuel s round.1 (split_from fuel) (flatten-split_from fuel) h
        (Shorter-split_round s (find? s indicator) refl) in
    flatten-append round.0 (resume (split_from fuel) round.1)
    ∙ ap (λ (u : Bytes). flatten round.0 ++ u) rest
    ∙ joined-split_round s (find? s indicator)

-- Joined in order, the parts of an extended pointer are the pointer: the loop ends, and it
-- neither drops nor repeats a byte.
pub flatten-split_complex_json_pointer : (s : Bytes) → flatten (split_complex_json_pointer s) ≡ s
unfolding split_complex_json_pointer
flatten-split_complex_json_pointer s = flatten-split_from (suc (length s)) s (omega arith)
