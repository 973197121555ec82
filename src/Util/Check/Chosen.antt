-- ===== src/Util/Check/Chosen.antt =====
-- util.cc: what the choice of a protocol of ALPN finds.
use maock.Prelude.{
  ℕ, zero, suc, ◌+◌, ◌≤◌, ◌<◌, ◌≡◌, refl, sym, ap, ◌∙◌, inl, inr, Bool, true, false, ◌||◌, Option,
  none, some, List, [], ◌∷◌, ◌++◌, map, append_assoc, arith, leb, ◌==◌, if◌then◌else◌, Bool-cases,
  length, get_or, take, drop, length-append, take-length_append,
}
use maock.Bytes.{Bytes, codes, eqb, starts_with, substr}
use maock.Bytes.Find.{eqb_iff, starts_with_split}
use maock.Util.Check.{
  Selection, select_from, select_proto, or_else, h2_alpn, h2_16_alpn, select_h2, select_protocol,
}

-- A list of protocols, each behind a byte with its length.
abbrev pub encoded : List Bytes → Bytes
encoded [] = []
encoded (name ∷ names) = length name ∷ (name ++ encoded names)

abbrev pub entry : Bytes → Bytes
entry name = length name ∷ name

-- The place of the first entry of a name, behind `p` bytes.
abbrev pub find_entry : ℕ → Bytes → List Bytes → Option Selection
find_entry p name [] = none
find_entry p name (n ∷ names) =
    let later = find_entry (p + (length n + 1)) name names in
    if eqb n name then some (p + 1, length n) else later

starts_with_entry :
    (name n rest : Bytes) → (length n ≡ length name → (starts_with (n ++ rest) name ≡ eqb n name))
unfolding starts_with eqb
starts_with_entry [] [] rest h = refl
starts_with_entry [] (x ∷ n) rest h = absurd (omega arith)
starts_with_entry (y ∷ name) [] rest h = absurd (omega arith)
starts_with_entry (y ∷ name) (x ∷ n) rest h = rw (starts_with_entry name n rest (omega arith)) refl

starts_with-entry : (name n rest : Bytes) → starts_with (entry n ++ rest) (entry name) ≡ eqb n name
unfolding starts_with
starts_with-entry name n rest = elim (Bool-cases (length n == length name)) [
  | inl t ↦ rw t (starts_with_entry name n rest (ground arith))
  | inr f ↦ rw f (elim (Bool-cases (eqb n name)) [
    | inl e ↦ absurd (ground (arith, f, ap length ((eqb_iff n name).0 e)))
    | inr g ↦ sym g
  ])
]

drop-length {ℓ} : {A : Type ℓ} (xs ys : List A) → drop (length xs) (xs ++ ys) ≡ ys
drop-length [] ys = refl
drop-length (x ∷ xs) ys = drop-length xs ys

get_or-length : (xs : Bytes) (y : ℕ) (ys : Bytes) → get_or (xs ++ y ∷ ys) (length xs) 0 ≡ y
get_or-length [] y ys = refl
get_or-length (x ∷ xs) y ys = get_or-length xs y ys

starts_with-length : (s t : Bytes) → starts_with s t ≡ true → length t ≤ length s
starts_with-length s t h =
    let (r, e) = starts_with_split s t h in omega (arith, ap length e, length-append t r)

-- The loop, behind the entries `before`.
select_from_lem :
    (fuel : ℕ) (before : Bytes) (names : List Bytes) (name : Bytes)
    → length (encoded names) < fuel
    → select_from fuel (length before) (before ++ encoded names) (entry name)
      ≡ find_entry (length before) name names
unfolding select_from
select_from_lem zero before names name h = elim h [ ]
select_from_lem (suc fuel) before [] name h =
    let short : leb (length before + suc (length name)) (length (before ++ [])) ≡ false =
      ground (arith, length-append before []) in
    rw short refl
select_from_lem (suc fuel) before (n ∷ names) name h =
    let all = before ++ encoded (n ∷ names) in
    let size = length-append before (encoded (n ∷ names)) in
    let inner = length-append n (encoded names) in
    let first : get_or all (length before) 0 ≡ length n =
      get_or-length before (length n) (n ++ encoded names) in
    let rest : drop (length before) all ≡ encoded (n ∷ names) =
      drop-length before (encoded (n ∷ names)) in
    let hit = starts_with-entry name n (encoded names) in
    let again : before ++ encoded (n ∷ names) ≡ (before ++ entry n) ++ encoded names =
      sym (append_assoc before (entry n) (encoded names)) in
    let place : length before + (length n + 1) ≡ length (before ++ entry n) =
      omega (arith, length-append before (entry n)) in
    let later = select_from_lem fuel (before ++ entry n) names name (omega (arith, inner)) in
    elim (Bool-cases (eqb n name)) [
      | inl t ↦
          let long : leb (length before + suc (length name)) (length all) ≡ true =
            ground (arith, size, inner, ap length ((eqb_iff n name).0 t)) in
          rw (long, rest, hit, first, t) refl
      | inr f ↦ elim (Bool-cases (leb (length before + suc (length name)) (length all))) [
        | inl long ↦ rw (long, rest, hit, first, f) (rw (place, again) later)
        | inr short ↦
            rw (short, f)
              (sym (
                no_room (length before + (length n + 1)) names
                  (omega (arith, inner, size, leb_false _ _ short))))
      ]
    ]
  where
    leb_false : (a b : ℕ) → leb a b ≡ false → b < a
    leb_false a b e = ground arith

    no_room :
        (p : ℕ) (names : List Bytes)
        → length (encoded names) < suc (length name)
        → find_entry p name names ≡ none
    no_room p [] h = refl
    no_room p (n ∷ names) h = elim (Bool-cases (eqb n name)) [
      | inl t ↦
          absurd
            (omega (arith, h, length-append n (encoded names), ap length ((eqb_iff n name).0 t)))
      | inr f ↦
          rw f
            (no_room (p + (length n + 1)) names (omega (arith, h, length-append n (encoded names))))
    ]

-- Whether a name is one of a list, and the first of a list that is one of another.
abbrev pub among : Bytes → List Bytes → Bool
among name [] = false
among name (n ∷ names) = eqb n name || among name names

abbrev pub first_common : List Bytes → List Bytes → Option Bytes
first_common [] names = none
first_common (p ∷ protos) names =
    let later = first_common protos names in if among p names then some p else later

abbrev pub selected : Bytes → Option Selection → Option Bytes
selected list none = none
selected list (some (at, n)) = some (substr list at n)

selected-find_entry :
    (before : Bytes) (name : Bytes) (names : List Bytes)
    → selected (before ++ encoded names) (find_entry (length before) name names)
      ≡ (if among name names then some name else none)
selected-find_entry before name [] = refl
selected-find_entry before name (n ∷ names) = elim (Bool-cases (eqb n name)) [
  | inl t ↦
      let e : before ++ encoded (n ∷ names) ≡ (before ++ length n ∷ []) ++ (n ++ encoded names) =
        sym (append_assoc before (length n ∷ []) (n ++ encoded names)) in
      let l : length before + 1 ≡ length (before ++ length n ∷ []) =
        sym (length-append before (length n ∷ [])) in
      rw t (
        rw (e, l)
          (ap some (
            ap (take (length n)) (drop-length (before ++ length n ∷ []) (n ++ encoded names))
            ∙ take-length_append n (encoded names)
            ∙ (eqb_iff n name).0 t)))
  | inr f ↦
      let again : before ++ encoded (n ∷ names) ≡ (before ++ entry n) ++ encoded names =
        sym (append_assoc before (entry n) (encoded names)) in
      let place : length before + (length n + 1) ≡ length (before ++ entry n) =
        omega (arith, length-append before (entry n)) in
      rw f (rw (again, place) (selected-find_entry (before ++ entry n) name names))
]

select_proto_lem :
    (names : List Bytes) (name : Bytes)
    → selected (encoded names) (select_proto (encoded names) (entry name))
      ≡ (if among name names then some name else none)
unfolding select_proto
select_proto_lem names name =
    let found = select_from_lem (length (encoded names) + 1) [] names name (omega arith) in
    rw found (selected-find_entry [] name names)

selected-or_else :
    (list : Bytes) (o p : Option Selection) (name : Bytes) (b : Bool) (q : Option Bytes)
    → selected list o ≡ (if b then some name else none)
    → selected list p ≡ q
    → selected list (or_else o p) ≡ (if b then some name else q)
selected-or_else list none p name true q h k = cc
selected-or_else list none p name false q h k = k
selected-or_else list (some x) p name true q h k = h
selected-or_else list (some x) p name false q h k = cc

-- Of the list of protocols that a client sends, each behind its length, select_protocol selects the
-- bytes of the first of our protocols that is in it, and nothing where none is; select_h2 does so for
-- h2 and the drafts 16 and 14.
pub select_protocol-first_common :
    (names protos : List Bytes)
    → (selected (encoded names) (select_protocol (encoded names) (map entry protos))
        ≡ first_common protos names)
      × (selected (encoded names) (select_h2 (encoded names))
          ≡ first_common (codes "h2" ∷ codes "h2-16" ∷ codes "h2-14" ∷ []) names)
unfolding select_h2 select_protocol
select_protocol-first_common names protos = (
  of_list protos,
  selected-or_else (encoded names) (select_proto (encoded names) h2_alpn) _ (codes "h2") _ _
      (select_proto_lem names (codes "h2"))
      (selected-or_else (encoded names) (select_proto (encoded names) h2_16_alpn) _ (codes "h2-16")
        _ _ (select_proto_lem names (codes "h2-16")) (select_proto_lem names (codes "h2-14"))),
)
  where
    of_list :
        (protos : List Bytes)
        → selected (encoded names) (select_protocol (encoded names) (map entry protos))
          ≡ first_common protos names
    of_list [] = refl
    of_list (p ∷ protos) =
        selected-or_else (encoded names) (select_proto (encoded names) (entry p)) _ p _ _
          (select_proto_lem names p) (of_list protos)
