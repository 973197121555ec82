-- ===== src/Util/Edit/Distance.antt =====
-- util.cc: levenshtein against two recursive distances of texts.
use mathlib.Core.List.{reverse, reverse-append}
use maock.Prelude.{
  ℕ, zero, suc, ◌+◌, ◌-◌, ◌*◌, ◌≤◌, ◌<◌, ◌≡◌, refl, sym, ap, ◌∙◌, inl, inr, Bool, true, false, not,
  ◌&&◌, Option, none, some, List, [], ◌∷◌, ◌++◌, arith, ltb, leb, ◌==◌, if◌then◌else◌, Bool-cases,
  length, take, take_all,
}
use maock.Bytes.{Bytes}
use maock.Util.Edit.{Costs, min, set, at, zeros, fill_first, cell, fill_row, fill_rows, levenshtein}

module _ (costs : Costs) where
  -- The ways to end an edit whose last characters are `x` and `y`; `other` is the cost with a swap.
  abbrev pub best : Bool → ℕ → Option ℕ → ℕ → ℕ → ℕ
  best same both other shorter longer =
      let first : ℕ = both + (if same then 0 else costs.subcost) in
      let second : ℕ = elim other [
        | none ↦ first
        | some c ↦ if same then first else min first (c + costs.swapcost)
      ] in
      min second (min (shorter + costs.delcost) (longer + costs.addcost))

  -- The least cost of an edit from the last characters on, for texts in reverse. Against an empty text
  -- it is the length of the other, whatever the costs.
  abbrev pub edit_distance : Bytes → Bytes → ℕ
  edit_distance [] ys = length ys
  edit_distance (x ∷ xs) [] = suc (length xs)
  edit_distance (x ∷ []) (y ∷ ys) =
      best (x == y) (edit_distance [] ys) none (edit_distance [] (y ∷ ys))
        (edit_distance (x ∷ []) ys)
  edit_distance (x ∷ x' ∷ xs) (y ∷ []) =
      best (x == y) (edit_distance (x' ∷ xs) []) none (edit_distance (x' ∷ xs) (y ∷ []))
        (edit_distance (x ∷ x' ∷ xs) [])
  edit_distance (x ∷ x' ∷ xs) (y ∷ y' ∷ ys) =
      best (x == y) (edit_distance (x' ∷ xs) (y' ∷ ys))
        (if x' == y && x == y' then some (edit_distance xs ys) else none)
        (edit_distance (x' ∷ xs) (y ∷ y' ∷ ys)) (edit_distance (x ∷ x' ∷ xs) (y' ∷ ys))

-- The Damerau-Levenshtein distance with the given costs throughout: against an empty text, each
-- character is added or deleted at its cost.
module _ (costs : Costs) where
  abbrev pub weighted : Bytes → Bytes → ℕ
  weighted [] ys = length ys * costs.addcost
  weighted (x ∷ xs) [] = suc (length xs) * costs.delcost
  weighted (x ∷ []) (y ∷ ys) =
      best costs (x == y) (weighted [] ys) none (weighted [] (y ∷ ys)) (weighted (x ∷ []) ys)
  weighted (x ∷ x' ∷ xs) (y ∷ []) =
      best costs (x == y) (weighted (x' ∷ xs) []) none (weighted (x' ∷ xs) (y ∷ []))
        (weighted (x ∷ x' ∷ xs) [])
  weighted (x ∷ x' ∷ xs) (y ∷ y' ∷ ys) =
      best costs (x == y) (weighted (x' ∷ xs) (y' ∷ ys))
        (if x' == y && x == y' then some (weighted xs ys) else none)
        (weighted (x' ∷ xs) (y ∷ y' ∷ ys)) (weighted (x ∷ x' ∷ xs) (y' ∷ ys))

-- The costs where adding and deleting cost 1.
abbrev pub unit : Costs → Costs
unit costs = record costs { addcost = 1; delcost = 1 }

best_cong :
    (costs : Costs) (same : Bool) {a a' b b' c c' : ℕ} {o o' : Option ℕ}
    → a ≡ a'
    → o ≡ o'
    → b ≡ b'
    → c ≡ c'
    → best costs same a o b c ≡ best costs same a' o' b' c'
best_cong costs same ea eo eb ec = cc

edit_distance-weighted :
    (costs : Costs) (a b : Bytes) → edit_distance (unit costs) a b ≡ weighted (unit costs) a b
edit_distance-weighted costs [] ys = omega arith
edit_distance-weighted costs (x ∷ xs) [] = omega arith
edit_distance-weighted costs (x ∷ []) (y ∷ ys) =
    best_cong (unit costs) (x == y) {o = none} (edit_distance-weighted costs [] ys) refl
      (edit_distance-weighted costs [] (y ∷ ys)) (edit_distance-weighted costs (x ∷ []) ys)
edit_distance-weighted costs (x ∷ x' ∷ xs) (y ∷ []) =
    best_cong (unit costs) (x == y) {o = none} (edit_distance-weighted costs (x' ∷ xs) []) refl
      (edit_distance-weighted costs (x' ∷ xs) (y ∷ []))
      (edit_distance-weighted costs (x ∷ x' ∷ xs) [])
edit_distance-weighted costs (x ∷ x' ∷ xs) (y ∷ y' ∷ ys) =
    best_cong (unit costs) (x == y) (edit_distance-weighted costs (x' ∷ xs) (y' ∷ ys))
      (ap (λ (n : ℕ). if x' == y && x == y' then some n else none)
        (edit_distance-weighted costs xs ys))
      (edit_distance-weighted costs (x' ∷ xs) (y ∷ y' ∷ ys))
      (edit_distance-weighted costs (x ∷ x' ∷ xs) (y' ∷ ys))

get-set :
    (xs : List ℕ) (i v k : ℕ) → i < length xs → at (set xs i v) k ≡ (if i == k then v else at xs k)
unfolding set
get-set [] i v k h = absurd (omega arith)
get-set (x ∷ xs) zero v zero h = ground arith
get-set (x ∷ xs) zero v (suc k) h = ground arith
get-set (x ∷ xs) (suc i) v zero h = ground arith
get-set (x ∷ xs) (suc i) v (suc k) h = ground (arith, get-set xs i v k)

length-set : (xs : List ℕ) (i v : ℕ) → length (set xs i v) ≡ length xs
unfolding set
length-set [] i v = refl
length-set (x ∷ xs) zero v = refl
length-set (x ∷ xs) (suc i) v = ap suc (length-set xs i v)

length-zeros : (n : ℕ) → length (zeros n) ≡ n
unfolding zeros
length-zeros zero = refl
length-zeros (suc n) = ap suc (length-zeros n)

-- The first `n` characters, in reverse.
abbrev front : ℕ → Bytes → Bytes
front n s = reverse (take n s)

take-suc : (n : ℕ) (s : Bytes) → n < length s → take (suc n) s ≡ take n s ++ at s n ∷ []
take-suc n [] h = absurd (omega arith)
take-suc zero (x ∷ s) h = refl
take-suc (suc n) (x ∷ s) h = ap (λ t. x ∷ t) (take-suc n s (omega arith))

front-suc : (n : ℕ) (s : Bytes) → n < length s → front (suc n) s ≡ at s n ∷ front n s
front-suc n s h = rw (take-suc n s h, reverse-append (take n s) (at s n ∷ [])) refl

length-front : (n : ℕ) (s : Bytes) → n ≤ length s → length (front n s) ≡ n
length-front zero s h = refl
length-front (suc n) s h = rw (front-suc n s h) (ap suc (length-front n s (omega arith)))

fill_first_lem :
    (n i k : ℕ) (row : List ℕ)
    → i + n ≡ length row
    → (at (fill_first n i row) k ≡ (if leb i k && ltb k (i + n) then k else at row k))
      × (length (fill_first n i row) ≡ length row)
unfolding fill_first
fill_first_lem zero i k row h = (ground arith, refl)
fill_first_lem (suc n) i k row h =
    let s = get-set row i i k (omega arith) in
    let l = length-set row i i in
    let (later, size) = fill_first_lem n (i + 1) k (set row i i) (omega (arith, l)) in
    (later ∙ ground (arith, s), size ∙ l)

module _ (costs : Costs) (a b : Bytes) where
  abbrev known : ℕ → ℕ → ℕ
  known i j = edit_distance costs (front i a) (front j b)

  cell_first :
      (j : ℕ) (dp0 dp1 dp2 : List ℕ)
      → 0 < length a
      → j < length b
      → at dp1 j ≡ known 0 j
      → at dp1 (suc j) ≡ known 0 (suc j)
      → at dp0 j ≡ known 1 j
      → cell costs a b 1 (suc j) dp0 dp1 dp2 ≡ known 1 (suc j)
  unfolding cell
  cell_first j dp0 dp1 dp2 ha hb h1 h2 h3 =
      let e : suc j - 1 ≡ j = omega arith in
      let fa = front-suc 0 a ha in let fb = front-suc j b hb in rw (e, h1, h2, h3, fa, fb) refl

  cell_left :
      (i : ℕ) (dp0 dp1 dp2 : List ℕ)
      → suc i < length a
      → 0 < length b
      → at dp1 0 ≡ known (suc i) 0
      → at dp1 1 ≡ known (suc i) 1
      → at dp0 0 ≡ known (suc (suc i)) 0
      → cell costs a b (suc (suc i)) 1 dp0 dp1 dp2 ≡ known (suc (suc i)) 1
  unfolding cell
  cell_left i dp0 dp1 dp2 ha hb h1 h2 h3 =
      let e : suc (suc i) - 1 ≡ suc i = omega arith in
      let t : leb 2 (suc (suc i)) ≡ true = ground arith in
      let fa = front-suc (suc i) a ha in
      let fa' = front-suc i a (omega arith) in
      let fb = front-suc 0 b hb in rw (e, t, h1, h2, h3, fa, fa', fb) refl

  cell_inner :
      (i j : ℕ) (dp0 dp1 dp2 : List ℕ)
      → suc i < length a
      → suc j < length b
      → at dp1 (suc j) ≡ known (suc i) (suc j)
      → at dp1 (suc (suc j)) ≡ known (suc i) (suc (suc j))
      → at dp0 (suc j) ≡ known (suc (suc i)) (suc j)
      → at dp2 j ≡ known i j
      → cell costs a b (suc (suc i)) (suc (suc j)) dp0 dp1 dp2 ≡ known (suc (suc i)) (suc (suc j))
  unfolding cell
  cell_inner i j dp0 dp1 dp2 ha hb h1 h2 h3 h4 =
      let e : suc (suc i) - 1 ≡ suc i = omega arith in
      let f : suc (suc j) - 1 ≡ suc j = omega arith in
      let e' : suc (suc i) - 2 ≡ i = omega arith in
      let f' : suc (suc j) - 2 ≡ j = omega arith in
      let t : leb 2 (suc (suc i)) ≡ true = ground arith in
      let u : leb 2 (suc (suc j)) ≡ true = ground arith in
      let fa = front-suc (suc i) a ha in
      let fa' = front-suc i a (omega arith) in
      let fb = front-suc (suc j) b hb in
      let fb' = front-suc j b (omega arith) in
      rw (e, f, e', f', t, u, h1, h2, h3, h4, fa, fa', fb, fb')
        (swap_case (at a (suc i) == at b (suc j)) (at a i == at b (suc j)) (at a (suc i) == at b j)
          _ _ _ _)
    where
      swap_case :
          (same crossed crossed' : Bool) (both other shorter longer : ℕ)
          → min
              (if true && true && not same && crossed && crossed'
                then min (both + (if same then 0 else costs.subcost)) (other + costs.swapcost)
                else both + (if same then 0 else costs.subcost))
              (min (shorter + costs.delcost) (longer + costs.addcost))
            ≡ best costs same both (if crossed && crossed' then some other else none) shorter longer
      swap_case true true true both other shorter longer = refl
      swap_case true true false both other shorter longer = refl
      swap_case true false c both other shorter longer = refl
      swap_case false true true both other shorter longer = refl
      swap_case false true false both other shorter longer = refl
      swap_case false false c both other shorter longer = refl

  -- A row for the first `i` characters of `a`, and the row before it.
  abbrev IsRow : ℕ → List ℕ → Type 0
  IsRow i row = (length row ≡ length b + 1) × ((k : ℕ) → k ≤ length b → at row k ≡ known i k)

  abbrev IsBefore : ℕ → List ℕ → Type 0
  IsBefore zero row = length row ≡ length b + 1
  IsBefore (suc i) row = IsRow i row

  length-IsBefore : (i : ℕ) (row : List ℕ) → IsBefore i row → length row ≡ length b + 1
  length-IsBefore zero row h = h
  length-IsBefore (suc i) row h = h.0

  cell_row :
      (i j : ℕ) (dp0 dp1 dp2 : List ℕ)
      → i < length a
      → j < length b
      → IsRow i dp1
      → IsBefore i dp2
      → at dp0 j ≡ known (suc i) j
      → cell costs a b (suc i) (suc j) dp0 dp1 dp2 ≡ known (suc i) (suc j)
  cell_row zero j dp0 dp1 dp2 ha hb h1 h2 h3 =
      cell_first j dp0 dp1 dp2 ha hb (h1.1 j (omega arith)) (h1.1 (suc j) (omega arith)) h3
  cell_row (suc i) zero dp0 dp1 dp2 ha hb h1 h2 h3 =
      cell_left i dp0 dp1 dp2 ha hb (h1.1 0 (omega arith)) (h1.1 1 (omega arith)) h3
  cell_row (suc i) (suc j) dp0 dp1 dp2 ha hb h1 h2 h3 =
      cell_inner i j dp0 dp1 dp2 ha hb (h1.1 (suc j) (omega arith))
        (h1.1 (suc (suc j)) (omega arith)) h3 (h2.1 j (omega arith))

  fill_row_lem :
      (n i j : ℕ) (dp0 dp1 dp2 : List ℕ)
      → i < length a
      → j + n ≡ length b
      → IsRow i dp1
      → IsBefore i dp2
      → length dp0 ≡ length b + 1
      → ((k : ℕ) → k ≤ j → at dp0 k ≡ known (suc i) k)
      → IsRow (suc i) (fill_row costs a b n (suc i) (suc j) dp0 dp1 dp2)
  unfolding fill_row
  fill_row_lem zero i j dp0 dp1 dp2 ha e h1 h2 l h = (l, λ k b. h k (omega arith))
  fill_row_lem (suc n) i j dp0 dp1 dp2 ha e h1 h2 l h =
      let v = cell costs a b (suc i) (suc j) dp0 dp1 dp2 in
      let c = cell_row i j dp0 dp1 dp2 ha (omega arith) h1 h2 (h j (omega arith)) in
      let next : suc j + 1 ≡ suc (suc j) = omega arith in
      rw next (
        fill_row_lem n i (suc j) (set dp0 (suc j) v) dp1 dp2 ha (omega arith) h1 h2
          (length-set dp0 (suc j) v ∙ l)
          (λ k below. elim (Bool-cases (suc j == k)) [
            | inl t ↦
                let s : suc j ≡ k = ground arith in
                get-set dp0 (suc j) v k (omega (arith, l)) ∙ rw t (c ∙ ap (known (suc i)) s)
            | inr f ↦ get-set dp0 (suc j) v k (omega (arith, l)) ∙ rw f (h k (ground arith))
          ]))

  known_empty : (i : ℕ) → i ≤ length a → known i 0 ≡ i
  known_empty zero h = refl
  known_empty (suc i) h = rw (front-suc i a (omega arith)) (ap suc (length-front i a (omega arith)))

  fill_rows_lem :
      (n i : ℕ) (dp0 dp1 dp2 : List ℕ)
      → i + n ≡ length a
      → length dp0 ≡ length b + 1
      → IsRow i dp1
      → IsBefore i dp2
      → IsRow (length a) (fill_rows costs a b n (suc i) dp0 dp1 dp2)
  unfolding fill_rows
  fill_rows_lem zero i dp0 dp1 dp2 e l h1 h2 = let s : i ≡ length a = omega arith in rw s at h1
  fill_rows_lem (suc n) i dp0 dp1 dp2 e l h1 h2 =
      let next : suc i + 1 ≡ suc (suc i) = omega arith in
      let start = set dp0 0 (suc i) in
      let border : (k : ℕ) → k ≤ 0 → at start k ≡ known (suc i) k = λ k z.
        let s : 0 ≡ k = omega arith in
        rw (← s)
          (get-set dp0 0 (suc i) 0 (omega (arith, l)) ∙ sym (known_empty (suc i) (omega arith))) in
      let made =
        fill_row_lem (length b) i 0 start dp1 dp2 (omega arith) (omega arith) h1 h2
          (length-set dp0 0 (suc i) ∙ l) border in
      rw next (
        fill_rows_lem n (suc i) dp2 (fill_row costs a b (length b) (suc i) 1 start dp1 dp2) dp1
          (omega arith) (length-IsBefore i dp2 h2) made h1)

  rows-edit_distance : levenshtein costs a b ≡ edit_distance costs (reverse a) (reverse b)
  unfolding levenshtein
  rows-edit_distance =
      let row = zeros (length b + 1) in
      let l = length-zeros (length b + 1) in
      let size = (fill_first_lem (length b + 1) 0 0 row (omega (arith, l))).1 in
      let first : IsRow 0 (fill_first (length b + 1) 0 row) = (
        size ∙ l,
        λ k h.
            (fill_first_lem (length b + 1) 0 k row (omega (arith, l))).0
            ∙ ground (arith, length-front k b),
      ) in
      let done =
        fill_rows_lem (length a) 0 row (fill_first (length b + 1) 0 row) row (omega arith) l first
          l in
      done.1 (length b) (omega arith)
      ∙ rw (take_all (length a) a (omega arith), take_all (length b) b (omega arith)) refl

-- For all texts and all costs that are not negative, and as long as no sum leaves the range of int:
-- what the three rotating rows of levenshtein compute is edit_distance, the recursion over the last
-- characters that takes the least of a substitution, a swap of two adjacent characters that differ,
-- a deletion and an addition, and in which a text is at the distance of its length from the empty text,
-- whatever the costs. Where adding and deleting cost 1, it is the distance that has the given costs
-- against the empty text too.
pub levenshtein-edit_distance :
    (costs : Costs) (a b : Bytes)
    → (levenshtein costs a b ≡ edit_distance costs (reverse a) (reverse b))
      × (levenshtein (unit costs) a b ≡ weighted (unit costs) (reverse a) (reverse b))
levenshtein-edit_distance costs a b = (
  rows-edit_distance costs a b,
  rows-edit_distance (unit costs) a b ∙ edit_distance-weighted costs (reverse a) (reverse b),
)
