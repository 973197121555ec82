-- ===== src/OrderedSet/Position.antt =====
-- The place of an element in a set.
use maock.Prelude.{◌<◌, ◌≡◌, refl, Bool, false, List, [], ◌∷◌, arith, Bool-ext, All, length}
use maock.OrderedSet.{insert, insert_all, position}
use maock.OrderedSet.Laws.{StrictWeakOrder, less-equivalent, equivalent-less}

module _ {ℓ} {A : Type ℓ} (less : A → A → Bool) where
  -- Neither is before the other.
  abbrev pub Equivalent : A → A → Type 0
  Equivalent a b = (less a b ≡ false) × (less b a ≡ false)

  -- The set has an element that is equivalent to `x`.
  abbrev pub Has : List A → A → Type 0
  Has s x = position less x s < length s

module _ {ℓ} {A : Type ℓ} {less : A → A → Bool} (order : StrictWeakOrder less) where
  less-Equivalent :
      (a b y : A) → Equivalent less a b → (less a y ≡ less b y) × (less y a ≡ less y b)
  less-Equivalent a b y (f, g) = (
    Bool-ext (less a y) (less b y) (λ h. equivalent-less order b a y g f h)
        (λ h. equivalent-less order a b y f g h),
    Bool-ext (less y a) (less y b) (λ h. less-equivalent order y a b h f g)
        (λ h. less-equivalent order y b a h g f),
  )

  pub position-Equivalent :
      (a b : A) (s : List A) → Equivalent less a b → position less a s ≡ position less b s
  unfolding position
  position-Equivalent a b [] e = refl
  position-Equivalent a b (y ∷ s) e =
      let (p, q) = less-Equivalent a b y e in rw (p, q, position-Equivalent a b s e)

  pub Equivalent-position :
      (a b : A) (s : List A)
      → Has less s a
      → position less a s ≡ position less b s
      → Equivalent less a b
  unfolding position
  Equivalent-position a b [] h e = absurd (omega arith)
  Equivalent-position a b (y ∷ s) h e =
      ground (arith, Equivalent-position a b s, order.equivalent a y b)

  pub Has-insert_self : (x : A) (s : List A) → Has less (insert less x s) x
  unfolding insert position
  Has-insert_self x [] = ground (arith, order.irreflexive x)
  Has-insert_self x (y ∷ s) = ground (arith, order.irreflexive x, Has-insert_self x s)

  pub Has-insert : (x z : A) (s : List A) → Has less s x → Has less (insert less z s) x
  unfolding insert position
  Has-insert x z [] h = absurd (omega arith)
  Has-insert x z (y ∷ s) h = ground (arith, Has-insert x z s)

  pub Has-insert_all : (x : A) (xs s : List A) → Has less s x → Has less (insert_all less xs s) x
  unfolding insert_all
  Has-insert_all x [] s h = h
  Has-insert_all x (y ∷ xs) s h = Has-insert_all x xs (insert less y s) (Has-insert x y s h)

  pub insert_all-Has : (xs s : List A) → All (Has less (insert_all less xs s)) xs
  unfolding insert_all
  insert_all-Has [] s = tt
  insert_all-Has (x ∷ xs) s = (
    Has-insert_all x xs (insert less x s) (Has-insert_self x s),
    insert_all-Has xs (insert less x s),
  )
