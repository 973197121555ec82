-- ===== src/Util/Check/Segments.antt =====
-- util.cc: check_path, segment by segment.
use mathlib.Core.Path.{subst}
use maock.Prelude.{
  ℕ, suc, ◌-◌, ◌≡◌, refl, sym, ap, ◌∙◌, ◌≢◌, ◌↔◌, inl, inr, Bool, true, false, not, ◌&&◌, ◌||◌,
  List, [], ◌∷◌, ◌++◌, append_assoc, append-nil, arith, ltb, ◌==◌, Bool-cases, All, length,
  All-append,
}
use maock.Bytes.{Bytes, codes, eqb, starts_with, find?}
use maock.Bytes.Find.{eqb_iff}
use maock.Util.Host.{split_str, split_str_from}
use maock.Util.Check.{ends_with, not_found, check_path}

abbrev NoSlash : Bytes → Type 0
NoSlash = All (λ c. (c == b'/') ≡ false)

-- A text is one of a list.
abbrev pub has : Bytes → List Bytes → Bool
has x [] = false
has x (s ∷ ss) = eqb s x || has x ss

ends_with-cons : (c : ℕ) (s t : Bytes) → ends_with (c ∷ s) t ≡ (eqb (c ∷ s) t || ends_with s t)
unfolding ends_with
ends_with-cons c s t = elim (Bool-cases (ltb (length s) (length t))) [
  | inl short ↦ elim (Bool-cases (ltb (suc (length s)) (length t))) [
    | inl l ↦
        rw (short, l)
          (sym (or_false _) ∙ ap (λ b. b || false) (sym (no_eqb (c ∷ s) t (ground (arith, l)))))
    | inr l ↦
        let e : suc (length s) - length t ≡ 0 = ground (arith, short, l) in
        rw (short, l, e) (sym (or_false _))
  ]
  | inr long ↦
      let l : ltb (suc (length s)) (length t) ≡ false = ground (arith, long) in
      let e : suc (length s) - length t ≡ suc (length s - length t) = ground (arith, long) in
      let d : eqb (c ∷ s) t ≡ false = no_eqb (c ∷ s) t (ground (arith, long)) in
      rw (long, l, e, d) refl
]
  where
    or_false : (b : Bool) → (b || false) ≡ b
    or_false true = refl
    or_false false = refl

    no_eqb : (s t : Bytes) → length s ≢ length t → eqb s t ≡ false
    no_eqb s t d = elim (Bool-cases (eqb s t)) [
      | inl e ↦ absurd (d (ap length ((eqb_iff s t).0 e)))
      | inr f ↦ f
    ]

-- "/x/" occurs, or the text ends with "/x".
abbrev has_piece : Bytes → Bytes → Bool
has_piece x p = not (not_found p (b'/' ∷ (x ++ b'/' ∷ []))) || ends_with p (b'/' ∷ x)

not_found-cons :
    (c : ℕ) (s t : Bytes) → not_found (c ∷ s) t ≡ (not (starts_with (c ∷ s) t) && not_found s t)
unfolding not_found find?
not_found-cons c s t = ground arith

has_piece-skip :
    (x : Bytes) (c : ℕ) (p : Bytes) → (c == b'/') ≡ false → has_piece x (c ∷ p) ≡ has_piece x p
unfolding starts_with eqb
has_piece-skip x c p h =
    rw (not_found-cons c p (b'/' ∷ (x ++ b'/' ∷ [])), ends_with-cons c p (b'/' ∷ x), h) refl

has_piece-skip_all : (x item p : Bytes) → NoSlash item → has_piece x (item ++ p) ≡ has_piece x p
has_piece-skip_all x [] p h = refl
has_piece-skip_all x (c ∷ item) p h =
    has_piece-skip x c (item ++ p) h.0 ∙ has_piece-skip_all x item p h.1

shuffle : (a b c d : Bool) → (not (not a && b) || (c || d)) ≡ ((a || c) || (not b || d))
shuffle true true true true = refl
shuffle true true true false = refl
shuffle true true false true = refl
shuffle true true false false = refl
shuffle true false true true = refl
shuffle true false true false = refl
shuffle true false false true = refl
shuffle true false false false = refl
shuffle false true true true = refl
shuffle false true true false = refl
shuffle false true false true = refl
shuffle false true false false = refl
shuffle false false true true = refl
shuffle false false true false = refl
shuffle false false false true = refl
shuffle false false false false = refl

has_piece-slash :
    (x p : Bytes)
    → has_piece x (b'/' ∷ p) ≡ ((starts_with p (x ++ b'/' ∷ []) || eqb p x) || has_piece x p)
unfolding starts_with eqb
has_piece-slash x p =
    rw (not_found-cons b'/' p (b'/' ∷ (x ++ b'/' ∷ [])), ends_with-cons b'/' p (b'/' ∷ x))
      (shuffle (starts_with p (x ++ b'/' ∷ [])) (not_found p (b'/' ∷ (x ++ b'/' ∷ []))) (eqb p x)
        (ends_with p (b'/' ∷ x)))

-- At the start of a segment.
here_last :
    (x item : Bytes) → NoSlash item → (starts_with item (x ++ b'/' ∷ []) || eqb item x) ≡ eqb item x
unfolding starts_with eqb
here_last [] [] h = refl
here_last [] (c ∷ item) h = ground (arith, h.0)
here_last (y ∷ x) [] h = refl
here_last (y ∷ x) (c ∷ item) h = ground (arith, here_last x item h.1)

here_more :
    (x item s : Bytes)
    → NoSlash item
    → NoSlash x
    → (starts_with (item ++ b'/' ∷ s) (x ++ b'/' ∷ []) || eqb (item ++ b'/' ∷ s) x) ≡ eqb item x
unfolding starts_with eqb
here_more [] [] s h k = refl
here_more [] (c ∷ item) s h k = ground (arith, h.0)
here_more (y ∷ x) [] s h k = ground (arith, k.0)
here_more (y ∷ x) (c ∷ item) s h k = ground (arith, here_more x item s h.1 k.1)

has_piece-nil : (x : Bytes) → has_piece x [] ≡ false
unfolding not_found find? starts_with ends_with
has_piece-nil x = ground arith

has_piece-split :
    (x item s : Bytes)
    → NoSlash item
    → NoSlash x
    → has_piece x (b'/' ∷ (item ++ s)) ≡ has x (split_str_from b'/' item s)
unfolding split_str_from not_found find? ends_with
has_piece-split x item [] h k = rw (append-nil item) (
    has_piece-slash x item
    ∙ rw (here_last x item h) (
        ap (λ b. eqb item x || b)
          (rw (append-nil item) at (has_piece-skip_all x item [] h) ∙ has_piece-nil x)))
has_piece-split x item (c ∷ s) h k = elim (Bool-cases (c == b'/')) [
  | inl t ↦
      let e : c ≡ b'/' = ground arith in
      rw (t, e)
        (has_piece-slash x (item ++ b'/' ∷ s)
          ∙ rw (here_more x item s h k) (
              ap (λ b. eqb item x || b)
                (has_piece-skip_all x item (b'/' ∷ s) h ∙ has_piece-split x [] s tt k)))
  | inr f ↦
      let e : item ++ c ∷ s ≡ (item ++ c ∷ []) ++ s = sym (append_assoc item (c ∷ []) s) in
      rw (f, e) (has_piece-split x (item ++ c ∷ []) s (All-append _ item (c ∷ []) h (f, tt)) k)
]

has_iff : (x : Bytes) (ss : List Bytes) → (has x ss ≡ false) ↔ All (λ s. s ≢ x) ss
has_iff x [] = ((λ h. tt), λ h. refl)
has_iff x (s ∷ ss) = (
  λ h. ((λ e. absurd (ground (arith, h, (eqb_iff s x).1 e))), (has_iff x ss).0 (ground (arith, h))),
  λ (d, a). elim (Bool-cases (eqb s x)) [
    | inl t ↦ absurd (d ((eqb_iff s x).0 t))
    | inr f ↦ rw f ((has_iff x ss).1 a)
  ],
)

not_found-byte : (s : Bytes) (c : ℕ) → (not_found s (c ∷ []) ≡ true) ↔ All (λ d. d ≢ c) s
unfolding not_found find? starts_with
not_found-byte [] c = ((λ h. tt), λ h. refl)
not_found-byte (d ∷ s) c = (
  λ h. (ground (arith, h), (not_found-byte s c).0 (ground (arith, h))),
  λ (n, a). ground (arith, n, (not_found-byte s c).1 a),
)

-- A segment that may stand in a path.
abbrev pub IsPlain : Bytes → Type 0
IsPlain s = (s ≢ codes ".") × (s ≢ codes "..")

both-IsPlain :
    (ss : List Bytes)
    → ((has (codes "..") ss ≡ false) × (has (codes ".") ss ≡ false)) ↔ All IsPlain ss
both-IsPlain ss = (
  λ (f, g). join ss ((has_iff (codes ".") ss).0 g) ((has_iff (codes "..") ss).0 f),
  λ h. let (a, b) = part ss h in ((has_iff (codes "..") ss).1 b, (has_iff (codes ".") ss).1 a),
)
  where
    join :
        (ss : List Bytes)
        → All (λ s. s ≢ codes ".") ss
        → All (λ s. s ≢ codes "..") ss
        → All IsPlain ss
    join [] a b = tt
    join (s ∷ ss) a b = ((a.0, b.0), join ss a.1 b.1)

    part :
        (ss : List Bytes)
        → All IsPlain ss
        → All (λ s. s ≢ codes ".") ss × All (λ s. s ≢ codes "..") ss
    part [] h = (tt, tt)
    part (s ∷ ss) h = let (a, b) = part ss h.1 in ((h.0.0, a), (h.0.1, b))

all_tests :
    (not_back p q d e : Bool)
    → (not_back && p && q && not d && not e) ≡ (not_back && not (not p || d) && not (not q || e))
all_tests true true true true true = refl
all_tests true true true true false = refl
all_tests true true true false true = refl
all_tests true true true false false = refl
all_tests true true false true true = refl
all_tests true true false true false = refl
all_tests true true false false true = refl
all_tests true true false false false = refl
all_tests true false true true e = refl
all_tests true false true false e = refl
all_tests true false false d e = refl
all_tests false p q d e = refl

check_path-slash :
    (s : Bytes)
    → check_path (b'/' ∷ s) ≡ (
        not_found (b'/' ∷ s) (92 ∷ [])
        && not (has (codes "..") (split_str s b'/'))
        && not (has (codes ".") (split_str s b'/')))
unfolding check_path split_str
check_path-slash s =
    let dots = has_piece-split (codes "..") [] s tt (refl, (refl, tt)) in
    let dot = has_piece-split (codes ".") [] s tt (refl, tt) in
    all_tests (not_found (b'/' ∷ s) (92 ∷ [])) (not_found (b'/' ∷ s) (codes "/../"))
      (not_found (b'/' ∷ s) (codes "/./")) (ends_with (b'/' ∷ s) (codes "/.."))
      (ends_with (b'/' ∷ s) (codes "/."))
    ∙ rw (dots, dot) refl

check_path-nil : check_path [] ≡ true → ⊥
unfolding check_path
check_path-nil h = ground arith

check_path-first : (c : ℕ) (s : Bytes) → check_path (c ∷ s) ≡ true → c ≡ b'/'
unfolding check_path
check_path-first c s h = ground arith

-- check_path accepts exactly the paths that begin with a slash, have no backslash, and of which no
-- segment, cut at the slashes behind the first, is a dot or two dots.
pub check_path_iff :
    (path : Bytes)
    → (check_path path ≡ true)
      ↔ ((s : Bytes) × (path ≡ b'/' ∷ s) × All (λ c. c ≢ 92) path × All IsPlain (split_str s b'/'))
check_path_iff [] = ((λ h. absurd (check_path-nil h)), λ (s, e, a, p). absurd (ground (arith, e)))
check_path_iff (c ∷ s) = (
  λ h.
      let e : c ≡ b'/' = check_path-first c s h in
      let t = rw (e, check_path-slash s) at h in
      (
        s,
        ap (λ (d : ℕ). d ∷ s) e,
        rw (sym e) at ((not_found-byte (b'/' ∷ s) 92).0 (ground (arith, t))),
        (both-IsPlain (split_str s b'/')).0 (ground (arith, t), ground (arith, t)),
      ),
  λ (s', e, a, p).
      let (f, g) = (both-IsPlain (split_str s' b'/')).1 p in
      let back =
        (not_found-byte (b'/' ∷ s') 92).1 (subst (λ (q : Bytes). All (λ d. d ≢ 92) q) e a) in
      rw e (check_path-slash s' ∙ rw (f, g, back) refl),
)
