-- ===== src/Server/Group.antt =====
-- H2Server_Response_Group of H2Server.h: the weighted choice of one of the responses.
pub mod Fair
use maock.Prelude.{
  ℕ, ◌+◌, ◌-◌, Option, none, some, List, [], ◌∷◌, map, ltb, ◌==◌, if◌then◌else◌, length,
}

-- The loop of init_distribution_map_and_total_weight. A key is the weight of all responses up to
-- and with this one, and a weight of 0 adds no entry; so the keys ascend, and a map of them is the
-- list of the entries in the order in which they are made.
unfoldable pub distribution_from : ℕ → ℕ → List ℕ → List (ℕ × ℕ)
distribution_from total index [] = []
distribution_from total index (w ∷ ws) =
    let later = distribution_from (total + w) (index + 1) ws in
    if w == 0 then later else (total + w, index) ∷ later

abbrev pub last_key : ℕ → List (ℕ × ℕ) → ℕ
last_key d [] = d
last_key d ((k, i) ∷ m) = last_key k m

pub record ResponseGroup : Type 0 where
  pub distribution_map : List (ℕ × ℕ)
  pub total_weight : ℕ

-- The constructor, over the weights of the responses.
unfoldable pub new_group : List ℕ → ResponseGroup
unfolding distribution_from
new_group weights =
    let m = distribution_from 0 0 weights in
    record { distribution_map = m; total_weight = last_key 1 m }

-- map::upper_bound: the entry of the first key above `r`
unfoldable pub upper_bound : ℕ → List (ℕ × ℕ) → Option ℕ
upper_bound r [] = none
upper_bound r ((k, i) ∷ m) = let later = upper_bound r m in if ltb r k then some i else later

abbrev pub first_index : List (ℕ × ℕ) → ℕ
first_index [] = 0
first_index ((k, i) ∷ m) = i

abbrev pub or_else : Option ℕ → ℕ → ℕ
or_else none d = d
or_else (some i) d = i

-- select_response, with the number that the generator gives, from 0 to total_weight - 1.
unfoldable pub select_response : ResponseGroup → ℕ → ℕ
unfolding upper_bound
select_response g random =
    let first = first_index g.distribution_map in
    if ltb 1 (length g.distribution_map)
    then or_else (upper_bound random g.distribution_map) first
    else first
