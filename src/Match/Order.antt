-- ===== src/Match/Order.antt =====
-- H2Server_Request.h: operator< of Match_Rule and of H2Server_Request.
use mathlib.Core.List.{reverse, reverse-append}
use maock.Prelude.{◌≤◌, ◌≡◌, refl, true, false, List, [], ◌∷◌, arith, length, length-append}
use maock.Bytes.Order.{lex_lt_irrefl, lex_lt_trans, lex_lt_total}
use maock.OrderedSet.Laws.{StrictWeakOrder, less-equivalent, equivalent-less}
use maock.Match.{Rule, rule_text, rule_less, rules_less, Request, request_less}

rule_less_irrefl : (a : Rule) → rule_less a a ≡ false
unfolding rule_less
rule_less_irrefl a = ground (arith, lex_lt_irrefl (rule_text a))

rule_less_trans :
    (a b c : Rule) → rule_less a b ≡ true → rule_less b c ≡ true → rule_less a c ≡ true
unfolding rule_less
rule_less_trans a b c h k = ground (arith, lex_lt_trans (rule_text a) (rule_text b) (rule_text c))

rule_less_equivalent :
    (a b c : Rule)
    → rule_less a b ≡ false
    → rule_less b a ≡ false
    → rule_less b c ≡ false
    → rule_less c b ≡ false
    → (rule_less a c ≡ false) × (rule_less c a ≡ false)
unfolding rule_less
rule_less_equivalent a b c h k l m = ground (
  arith,
  lex_lt_total (rule_text a) (rule_text b),
  lex_lt_total (rule_text b) (rule_text c),
  lex_lt_irrefl (rule_text a),
  lex_lt_irrefl (rule_text b),
  lex_lt_irrefl (rule_text c),
)

-- The comparison of match rules is a strict weak order: no rule is before itself, the order is
-- transitive, and so is being equivalent.
pub rule_less-StrictWeakOrder : StrictWeakOrder rule_less
rule_less-StrictWeakOrder = record {
  irreflexive = rule_less_irrefl;
  transitive = rule_less_trans;
  equivalent = rule_less_equivalent;
}

rules_less_irrefl : (a : List Rule) → rules_less a a ≡ false
unfolding rules_less
rules_less_irrefl [] = refl
rules_less_irrefl (x ∷ a) = rw (rule_less_irrefl x) (rules_less_irrefl a)

rules_less_trans :
    (a b c : List Rule)
    → length a ≡ length b
    → length b ≡ length c
    → rules_less a b ≡ true
    → rules_less b c ≡ true
    → rules_less a c ≡ true
unfolding rules_less
rules_less_trans [] b c e f h k = cc
rules_less_trans (x ∷ a) [] c e f h k = cc
rules_less_trans (x ∷ a) (y ∷ b) [] e f h k = cc
rules_less_trans (x ∷ a) (y ∷ b) (z ∷ c) e f h k = ground (
  arith,
  rule_less_trans x y z,
  less-equivalent rule_less-StrictWeakOrder x y z,
  equivalent-less rule_less-StrictWeakOrder x y z,
  rule_less_equivalent x y z,
  rules_less_trans a b c,
)

rules_less_equivalent :
    (a b c : List Rule)
    → length a ≡ length b
    → length b ≡ length c
    → rules_less a b ≡ false
    → rules_less b a ≡ false
    → rules_less b c ≡ false
    → rules_less c b ≡ false
    → (rules_less a c ≡ false) × (rules_less c a ≡ false)
unfolding rules_less
rules_less_equivalent [] [] [] e f h k l m = (refl, refl)
rules_less_equivalent [] [] (z ∷ c) e f h k l m = absurd (omega arith)
rules_less_equivalent [] (y ∷ b) c e f h k l m = absurd (omega arith)
rules_less_equivalent (x ∷ a) [] c e f h k l m = absurd (omega arith)
rules_less_equivalent (x ∷ a) (y ∷ b) [] e f h k l m = absurd (omega arith)
rules_less_equivalent (x ∷ a) (y ∷ b) (z ∷ c) e f h k l m =
    ground (arith, rule_less_equivalent x y z, rules_less_equivalent a b c)

length-reverse : (xs : List Rule) → length (reverse xs) ≡ length xs
length-reverse [] = refl
length-reverse (x ∷ xs) =
    rw (reverse-append (x ∷ []) xs)
      (omega (arith, length-append (reverse xs) (x ∷ []), length-reverse xs))

abbrev descending : Request → List Rule
descending a = reverse a.match_rules

request_less_irrefl : (a : Request) → request_less a a ≡ false
unfolding request_less
request_less_irrefl a = ground (arith, rules_less_irrefl (descending a))

request_less_trans :
    (a b c : Request) → request_less a b ≡ true → request_less b c ≡ true → request_less a c ≡ true
unfolding request_less
request_less_trans a b c h k = ground (
  arith,
  length-reverse a.match_rules,
  length-reverse b.match_rules,
  length-reverse c.match_rules,
  rules_less_trans (descending a) (descending b) (descending c),
)

request_less_equivalent :
    (a b c : Request)
    → request_less a b ≡ false
    → request_less b a ≡ false
    → request_less b c ≡ false
    → request_less c b ≡ false
    → (request_less a c ≡ false) × (request_less c a ≡ false)
unfolding request_less
request_less_equivalent a b c h k l m = ground (
  arith,
  length-reverse a.match_rules,
  length-reverse b.match_rules,
  length-reverse c.match_rules,
  rules_less_equivalent (descending a) (descending b) (descending c),
)

-- The comparison of requests is a strict weak order too, so the services are a sorted map.
pub request_less-StrictWeakOrder : StrictWeakOrder request_less
request_less-StrictWeakOrder = record {
  irreflexive = request_less_irrefl;
  transitive = request_less_trans;
  equivalent = request_less_equivalent;
}

-- A request that is before another has at most as many rules.
pub length-request_less :
    (a b : Request) → request_less a b ≡ true → length a.match_rules ≤ length b.match_rules
unfolding request_less
length-request_less a b h = ground arith
