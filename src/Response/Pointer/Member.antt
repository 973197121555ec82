-- ===== src/Response/Pointer/Member.antt =====
-- H2Server_Response.h: getNthValue and getNthName, from either end.
use mathlib.Core.List.{reverse, reverse-append}
use maock.Prelude.Int.{ℤ, pos, negsuc}
use maock.Prelude.{
  ℕ, zero, suc, ◌+◌, ◌≤◌, ◌<◌, ◌≡◌, refl, inl, inr, Option, none, some, List, [], ◌∷◌, ◌++◌, arith,
  ltb, ◌==◌, Bool-cases, length, get_elem?, length-append,
}
use maock.Response.Pointer.{nth_forward, nth_backward, get_nth}

abbrev pub picked {ℓ κ} : {A : Type ℓ} {B : Type κ} → (A → B) → Option A → Option B
picked pick none = none
picked pick (some a) = some (pick a)

module _ {ℓ κ} {A : Type ℓ} {B : Type κ} (pick : A → B) where
  nth_forward-get_elem? :
      (i k : ℕ) (xs : List A) → nth_forward pick i (i + k) xs ≡ picked pick (get_elem? xs k)
  unfolding nth_forward
  nth_forward-get_elem? i k [] = refl
  nth_forward-get_elem? i zero (x ∷ xs) = ground arith
  nth_forward-get_elem? i (suc k) (x ∷ xs) =
      let e : i + 1 + k ≡ i + suc k = omega arith in
      ground (arith, rw e at (nth_forward-get_elem? (i + 1) k xs))

  nth_backward-get_elem? :
      (i k : ℕ) (xs : List A)
      → suc k < length xs
      → nth_backward pick i (i + k) xs ≡ picked pick (get_elem? xs k)
  unfolding nth_backward
  nth_backward-get_elem? i k [] h = absurd (omega arith)
  nth_backward-get_elem? i k (x ∷ []) h = absurd (omega arith)
  nth_backward-get_elem? i zero (x ∷ y ∷ xs) h = ground arith
  nth_backward-get_elem? i (suc k) (x ∷ y ∷ xs) h =
      let e : i + 1 + k ≡ i + suc k = omega arith in
      ground (arith, rw e at (nth_backward-get_elem? (i + 1) k (y ∷ xs) (omega arith)))

  nth_backward_beyond :
      (i k : ℕ) (xs : List A) → length xs ≤ suc k → nth_backward pick i (i + k) xs ≡ none
  unfolding nth_backward
  nth_backward_beyond i k [] h = refl
  nth_backward_beyond i k (x ∷ []) h = refl
  nth_backward_beyond i zero (x ∷ y ∷ xs) h = absurd (omega arith)
  nth_backward_beyond i (suc k) (x ∷ y ∷ xs) h =
      let e : i + 1 + k ≡ i + suc k = omega arith in
      ground (arith, rw e at (nth_backward_beyond (i + 1) k (y ∷ xs) (omega arith)))

module _ {ℓ} {A : Type ℓ} where
  get_elem?_beyond : (xs : List A) (k : ℕ) → length xs ≤ k → get_elem? xs k ≡ none
  get_elem?_beyond [] k h = refl
  get_elem?_beyond (x ∷ xs) zero h = absurd (omega arith)
  get_elem?_beyond (x ∷ xs) (suc k) h = get_elem?_beyond xs k (omega arith)

  get_elem?-append_length : (xs : List A) (y : A) → get_elem? (xs ++ y ∷ []) (length xs) ≡ some y
  get_elem?-append_length [] y = refl
  get_elem?-append_length (x ∷ xs) y = get_elem?-append_length xs y

  length-reverse : (xs : List A) → length (reverse xs) ≡ length xs
  length-reverse [] = refl
  length-reverse (x ∷ xs) =
      rw (reverse-append (x ∷ []) xs)
        (omega (arith, length-append (reverse xs) (x ∷ []), length-reverse xs))

  get_elem?-reverse_first :
      (x : A) (xs : List A) → get_elem? (reverse (x ∷ xs)) (length xs) ≡ some x
  get_elem?-reverse_first x xs =
      rw (reverse-append (x ∷ []) xs, ← length-reverse xs) (get_elem?-append_length (reverse xs) x)

  -- The member that a number selects: the N-th from the front, the -N-th from the back.
  abbrev pub selected : List A → ℤ → Option A
  selected ms (pos zero) = none
  selected ms (pos (suc n)) = get_elem? ms n
  selected ms (negsuc m) = get_elem? (reverse ms) m

module _ {ℓ κ} {A : Type ℓ} {B : Type κ} (pick : A → B) where
  get_nth_back :
      (x : A) (xs : List A) (m : ℕ)
      → get_nth pick (x ∷ xs) (negsuc m) ≡ picked pick (get_elem? (reverse (x ∷ xs)) m)
  unfolding get_nth
  get_nth_back x xs m = elim (Bool-cases (m + 1 == suc (length xs))) [
    | inl all ↦
        let e : m ≡ length xs = ground arith in rw e (ground (arith, get_elem?-reverse_first x xs))
    | inr short ↦ elim (Bool-cases (ltb m (length xs))) [
      | inl inside ↦
          let z : 0 + m ≡ m = omega arith in
          let walk = rw z at (
            nth_backward-get_elem? pick 0 m (reverse (x ∷ xs))
              (ground (arith, length-reverse (x ∷ xs)))) in
          ground (arith, walk)
      | inr beyond ↦
          let z : 0 + m ≡ m = omega arith in
          let walk = rw z at (
            nth_backward_beyond pick 0 m (reverse (x ∷ xs))
              (ground (arith, length-reverse (x ∷ xs)))) in
          ground (
            arith,
            walk,
            get_elem?_beyond (reverse (x ∷ xs)) m (ground (arith, length-reverse (x ∷ xs))),
          )
    ]
  ]

  -- For every number, zero and numbers out of range included, getNthValue and getNthName return
  -- what the list of the members, or its reverse, holds at that place.
  pub get_nth-selected : (ms : List A) (n : ℤ) → get_nth pick ms n ≡ picked pick (selected ms n)
  unfolding get_nth
  get_nth-selected [] (pos zero) = refl
  get_nth-selected [] (pos (suc n)) = refl
  get_nth-selected [] (negsuc m) = refl
  get_nth-selected (x ∷ xs) (pos zero) = refl
  get_nth-selected (x ∷ xs) (pos (suc n)) =
      let e : 1 + n ≡ suc n = omega arith in
      ground (arith, rw e at (nth_forward-get_elem? pick 1 n (x ∷ xs)))
  get_nth-selected (x ∷ xs) (negsuc m) = get_nth_back x xs m
