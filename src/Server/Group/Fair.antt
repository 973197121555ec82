-- ===== src/Server/Group/Fair.antt =====
-- H2Server.h: the share of each response in select_response.
use maock.Prelude.{
  ℕ, zero, suc, ◌+◌, ◌-◌, ◌≤◌, ◌<◌, ◌≡◌, inl, inr, some, List, [], ◌∷◌, arith, ltb, ◌==◌,
  if◌then◌else◌, Bool-cases, length, get_or, take,
}
use maock.Server.Group.{
  distribution_from, last_key, new_group, upper_bound, first_index, select_response,
}

abbrev pub sum : List ℕ → ℕ
sum [] = 0
sum (w ∷ ws) = w + sum ws

-- Behind `total`, the numbers of the i-th weight lead to the i-th response.
upper_bound-distribution_from :
    (total index i random : ℕ) (ws : List ℕ)
    → total + sum (take i ws) ≤ random
    → random < total + sum (take (suc i) ws)
    → upper_bound random (distribution_from total index ws) ≡ some (index + i)
unfolding upper_bound distribution_from
upper_bound-distribution_from total index zero random [] lo hi = absurd (omega arith)
upper_bound-distribution_from total index (suc i) random [] lo hi = absurd (omega arith)
upper_bound-distribution_from total index zero random (w ∷ ws) lo hi = ground arith
upper_bound-distribution_from total index (suc i) random (w ∷ ws) lo hi = ground (
  arith,
  upper_bound-distribution_from (total + w) (index + 1) i random ws (omega arith) (omega arith),
)

only_entry :
    (r j : ℕ) (m : List (ℕ × ℕ)) → length m ≤ 1 → upper_bound r m ≡ some j → first_index m ≡ j
unfolding upper_bound
only_entry r j [] h e = cc
only_entry r j ((k, i) ∷ []) h e = ground arith
only_entry r j ((k, i) ∷ y ∷ m) h e = absurd (omega arith)

-- The numbers from the sum of the weights before the i-th response up to that sum with its own
-- weight, as many as that weight, choose the i-th response.
pub select_response-new_group :
    (weights : List ℕ) (i random : ℕ)
    → sum (take i weights) ≤ random
    → random < sum (take (suc i) weights)
    → select_response (new_group weights) random ≡ i
unfolding select_response new_group
select_response-new_group weights i random lo hi =
    let found = upper_bound-distribution_from 0 0 i random weights (omega arith) (omega arith) in
    ground (arith, found, only_entry random (0 + i) (distribution_from 0 0 weights))

last_key-distribution_from :
    (d total index : ℕ) (ws : List ℕ)
    → last_key d (distribution_from total index ws) ≡ (if sum ws == 0 then d else total + sum ws)
unfolding distribution_from
last_key-distribution_from d total index [] = ground arith
last_key-distribution_from d total index (w ∷ ws) = ground (
  arith,
  last_key-distribution_from d (total + w) (index + 1) ws,
  last_key-distribution_from (total + w) (total + w) (index + 1) ws,
)

-- The generator ranges over exactly the sum of the weights, or over one number if that is 0.
pub total_weight-new_group :
    (weights : List ℕ)
    → (new_group weights).total_weight ≡ (if sum weights == 0 then 1 else sum weights)
unfolding new_group
total_weight-new_group weights = ground (arith, last_key-distribution_from 1 0 0 weights)

-- A number below the sum of the weights lies in the share of one of them, which is not 0.
share :
    (ws : List ℕ) (r : ℕ)
    → r < sum ws
    → (i : ℕ) × (sum (take i ws) ≤ r) × (r < sum (take (suc i) ws)) × (0 < get_or ws i 0)
share [] r h = absurd (omega arith)
share (w ∷ ws) r h = elim (Bool-cases (ltb r w)) [
  | inl here ↦ (0, omega arith, ground arith, ground arith)
  | inr later ↦
      let (i, lo, hi, weight) = share ws (r - w) (ground arith) in
      (suc i, ground arith, ground arith, weight)
]

-- A response of weight 0 is never chosen while another has a weight.
pub select_response-weight :
    (weights : List ℕ) (random : ℕ)
    → random < sum weights
    → 0 < get_or weights (select_response (new_group weights) random) 0
select_response-weight weights random h =
    let (i, lo, hi, weight) = share weights random h in
    rw (select_response-new_group weights i random lo hi) weight
