-- ===== src/Server/Numbering.antt =====
-- H2Server.h: the numbers of build_match_rule_unique_id.
use maock.Prelude.{◌≡◌, ◌↔◌, List, [], ◌∷◌, All}
use maock.OrderedSet.{insert_all}
use maock.OrderedSet.Position.{
  Equivalent, Has, position-Equivalent, Equivalent-position, Has-insert_all, insert_all-Has,
}
use maock.Match.{Rule, rule_less}
use maock.Match.Order.{rule_less-StrictWeakOrder}
use maock.Server.{Service, collect_rules, number_rule}

Has-collect_rules :
    (x : Rule) (ss : List Service) (all : List Rule)
    → Has rule_less all x
    → Has rule_less (collect_rules ss all) x
unfolding collect_rules
Has-collect_rules x [] all h = h
Has-collect_rules x (s ∷ ss) all h =
    Has-collect_rules x ss (insert_all rule_less s.request.match_rules all)
      (Has-insert_all rule_less-StrictWeakOrder x s.request.match_rules all h)

All-Has :
    (rs : List Rule) (ss : List Service) (all : List Rule)
    → All (Has rule_less all) rs
    → All (Has rule_less (collect_rules ss all)) rs
All-Has [] ss all h = tt
All-Has (r ∷ rs) ss all h = (Has-collect_rules r ss all h.0, All-Has rs ss all h.1)

-- Whatever set it starts from, the set of all match rules has, for each rule of each service, that
-- rule or one that is equivalent to it.
pub collect_rules-Has :
    (ss : List Service) (all : List Rule)
    → All (λ s. All (Has rule_less (collect_rules ss all)) s.request.match_rules) ss
unfolding collect_rules
collect_rules-Has [] all = tt
collect_rules-Has (s ∷ ss) all =
    let next = insert_all rule_less s.request.match_rules all in
    (
      All-Has s.request.match_rules ss next
          (insert_all-Has rule_less-StrictWeakOrder s.request.match_rules all),
      collect_rules-Has ss next,
    )

-- For two rules, where the set of all rules has the first or one equivalent to it: their numbers
-- are equal exactly when neither rule is before the other.
pub number_rule_iff :
    (all : List Rule) (a b : Rule)
    → Has rule_less all a
    → ((number_rule all a).unique_id ≡ (number_rule all b).unique_id) ↔ Equivalent rule_less a b
unfolding number_rule
number_rule_iff all a b h = (
  Equivalent-position rule_less-StrictWeakOrder a b all h,
  position-Equivalent rule_less-StrictWeakOrder a b all,
)
