-- ===== src/Util/Edit.antt =====
-- util.cc: levenshtein.
pub mod Distance
use maock.Prelude.{
  ℕ, zero, suc, ◌+◌, ◌-◌, not, ◌&&◌, List, [], ◌∷◌, ltb, leb, ◌==◌, if◌then◌else◌, length, get_or,
}
use maock.Bytes.{Bytes}

-- The costs: of swapping two adjacent characters, and of substituting, adding and deleting one.
-- They are int in the code, and not negative where it is called; no sum here leaves the range of int.
pub record Costs : Type 0 where
  pub swapcost : ℕ
  pub subcost : ℕ
  pub addcost : ℕ
  pub delcost : ℕ

abbrev pub min : ℕ → ℕ → ℕ
min a b = if ltb b a then b else a

-- An assignment to an element.
unfoldable pub set : List ℕ → ℕ → ℕ → List ℕ
set [] i v = []
set (x ∷ xs) zero v = v ∷ xs
set (x ∷ xs) (suc i) v = x ∷ set xs i v

abbrev pub at : List ℕ → ℕ → ℕ
at xs i = get_or xs i 0

-- A vector of zeros.
unfoldable pub zeros : ℕ → List ℕ
zeros zero = []
zeros (suc n) = 0 ∷ zeros n

-- The first loop: `n` rounds from `i` on.
unfoldable pub fill_first : ℕ → ℕ → List ℕ → List ℕ
unfolding set
fill_first zero i row = row
fill_first (suc n) i row = fill_first n (i + 1) (set row i i)

module _ (costs : Costs) (a b : Bytes) where
  -- The value of dp[0][j] behind the three assignments of a round of the inner loop.
  unfoldable pub cell : ℕ → ℕ → List ℕ → List ℕ → List ℕ → ℕ
  cell i j dp0 dp1 dp2 =
      let same = at a (i - 1) == at b (j - 1) in
      let first = at dp1 (j - 1) + (if same then 0 else costs.subcost) in
      let second =
        if leb 2 i
          && leb 2 j
          && not same
          && at a (i - 2) == at b (j - 1)
          && at a (i - 1) == at b (j - 2)
        then min first (at dp2 (j - 2) + costs.swapcost)
        else first in
      min second (min (at dp1 j + costs.delcost) (at dp0 (j - 1) + costs.addcost))

  -- The inner loop: `n` rounds from `j` on.
  unfoldable pub fill_row : ℕ → ℕ → ℕ → List ℕ → List ℕ → List ℕ → List ℕ
  unfolding cell set
  fill_row zero i j dp0 dp1 dp2 = dp0
  fill_row (suc n) i j dp0 dp1 dp2 = fill_row n i (j + 1) (set dp0 j (cell i j dp0 dp1 dp2)) dp1 dp2

  -- The outer loop: `n` rounds from `i` on, with the rotation at the end of each. It gives dp[1].
  unfoldable pub fill_rows : ℕ → ℕ → List ℕ → List ℕ → List ℕ → List ℕ
  unfolding fill_row set
  fill_rows zero i dp0 dp1 dp2 = dp1
  fill_rows (suc n) i dp0 dp1 dp2 =
      fill_rows n (i + 1) dp2 (fill_row (length b) i 1 (set dp0 0 i) dp1 dp2) dp1

  unfoldable pub levenshtein : ℕ
  unfolding fill_rows fill_first zeros
  levenshtein =
      let row = zeros (length b + 1) in
      at (fill_rows (length a) 1 row (fill_first (length b + 1) 0 row) row) (length b)
