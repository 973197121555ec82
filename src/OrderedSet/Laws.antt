-- ===== src/OrderedSet/Laws.antt =====
-- What a comparison must satisfy for a set to make sense, and insertion under it.
use maock.Prelude.{◌≡◌, inl, inr, Bool, true, false, List, [], ◌∷◌, arith, Bool-cases}
use maock.OrderedSet.{insert, insert_all}

-- The requirements of the C++ standard on the comparison of an ordered container.
pub record StrictWeakOrder {ℓ} {A : Type ℓ} (less : A → A → Bool) : Type ℓ where
  pub irreflexive : (a : A) → less a a ≡ false
  pub transitive : (a b c : A) → less a b ≡ true → less b c ≡ true → less a c ≡ true
  pub equivalent :
      (a b c : A)
      → less a b ≡ false
      → less b a ≡ false
      → less b c ≡ false
      → less c b ≡ false
      → (less a c ≡ false) × (less c a ≡ false)

module _ {ℓ} {A : Type ℓ} (less : A → A → Bool) where
  abbrev pub AllAbove : A → List A → Type 0
  AllAbove x [] = Unit
  AllAbove x (y ∷ ys) = (less x y ≡ true) × AllAbove x ys

  abbrev pub IsAscending : List A → Type 0
  IsAscending [] = Unit
  IsAscending (x ∷ xs) = AllAbove x xs × IsAscending xs

module _ {ℓ} {A : Type ℓ} {less : A → A → Bool} (order : StrictWeakOrder less) where
  AllAbove-trans :
      (x y : A) (ys : List A) → less x y ≡ true → AllAbove less y ys → AllAbove less x ys
  AllAbove-trans x y [] h a = tt
  AllAbove-trans x y (z ∷ ys) h a = (order.transitive x y z h a.0, AllAbove-trans x y ys h a.1)

  AllAbove-insert :
      (x y : A) (ys : List A)
      → less y x ≡ true
      → AllAbove less y ys
      → AllAbove less y (insert less x ys)
  unfolding insert
  AllAbove-insert x y [] h a = (h, tt)
  AllAbove-insert x y (z ∷ ys) h a = elim (Bool-cases (less x z)) [
    | inl low ↦ rw low (h, (a.0, a.1))
    | inr no_low ↦ elim (Bool-cases (less z x)) [
      | inl high ↦ rw (no_low, high) (a.0, AllAbove-insert x y ys h a.1)
      | inr same ↦ rw (no_low, same) a
    ]
  ]

  pub insert-IsAscending :
      (x : A) (s : List A) → IsAscending less s → IsAscending less (insert less x s)
  unfolding insert
  insert-IsAscending x [] h = (tt, tt)
  insert-IsAscending x (y ∷ ys) h = elim (Bool-cases (less x y)) [
    | inl low ↦ rw low ((low, AllAbove-trans x y ys low h.0), (h.0, h.1))
    | inr no_low ↦ elim (Bool-cases (less y x)) [
      | inl high ↦ rw (no_low, high) (AllAbove-insert x y ys high h.0, insert-IsAscending x ys h.1)
      | inr same ↦ rw (no_low, same) h
    ]
  ]

  pub insert_all-IsAscending :
      (xs s : List A) → IsAscending less s → IsAscending less (insert_all less xs s)
  unfolding insert_all
  insert_all-IsAscending [] s h = h
  insert_all-IsAscending (x ∷ xs) s h =
      insert_all-IsAscending xs (insert less x s) (insert-IsAscending x s h)

  -- Equivalent elements are on the same side of every other.
  pub less-equivalent :
      (a b c : A) → less a b ≡ true → less b c ≡ false → less c b ≡ false → less a c ≡ true
  less-equivalent a b c h k l = elim (Bool-cases (less a c)) [
    | inl yes_less ↦ yes_less
    | inr not_less ↦ elim (Bool-cases (less c a)) [
      | inl back ↦ ground (arith, order.transitive c a b back h)
      | inr even ↦ ground (arith, order.equivalent a c b not_less even l k)
    ]
  ]

  pub equivalent-less :
      (a b c : A) → less a b ≡ false → less b a ≡ false → less b c ≡ true → less a c ≡ true
  equivalent-less a b c h k l = elim (Bool-cases (less a c)) [
    | inl yes_less ↦ yes_less
    | inr not_less ↦ elim (Bool-cases (less c a)) [
      | inl back ↦ ground (arith, order.transitive b c a l back)
      | inr even ↦ ground (arith, order.equivalent b a c k h not_less even)
    ]
  ]
