-- ===== src/OrderedSet.antt =====
-- std::set and std::map as the program uses them: a list in ascending order of a comparison,
-- where insertion keeps an equivalent element that is there already.
pub mod Laws
pub mod Position
use maock.Prelude.{ℕ, suc, Bool, List, [], ◌∷◌, if◌then◌else◌}

module _ {ℓ} {A : Type ℓ} (less : A → A → Bool) where
  -- set::insert, set::emplace and map::insert
  unfoldable pub insert : A → List A → List A
  insert x [] = x ∷ []
  insert x (y ∷ ys) =
      let later = insert x ys in
      if less x y then x ∷ y ∷ ys else if less y x then y ∷ later else y ∷ ys

  unfoldable pub insert_all : List A → List A → List A
  unfolding insert
  insert_all [] s = s
  insert_all (x ∷ xs) s = insert_all xs (insert x s)

  -- std::distance(begin, find(x)): the place of the equivalent element, or the size
  unfoldable pub position : A → List A → ℕ
  position x [] = 0
  position x (y ∷ ys) =
      let later = suc (position x ys) in if less x y then later else if less y x then later else 0
