-- ===== src/Server/Built/Numbers.antt =====
-- H2Server.h: what numbering the rules leaves, and what the numbers tell.
use mathlib.Core.List.{reverse-cons}
use maock.Prelude.{suc, ◌≡◌, refl, sym, ap, ◌∙◌, ◌↔◌, List, [], ◌∷◌, ◌++◌, map, arith, All, length}
use maock.OrderedSet.{position}
use maock.OrderedSet.Position.{Equivalent, Has}
use maock.Match.{Rule, rule_less, request_less, rules_less}
use maock.Server.{reverse, Service, service_less, number_rule, number_service}
use maock.Server.Numbering.{number_rule_iff}
use maock.Server.Sorted.{service_less-StrictWeakOrder}
use maock.Server.Built.Rules.{Lists, All-weaken, Listed}

pub position-number_rule :
    (all : List Rule) (x : Rule) (rs : List Rule)
    → position rule_less x (map (number_rule all) rs) ≡ position rule_less x rs
unfolding position number_rule rule_less
position-number_rule all x [] = refl
position-number_rule all x (r ∷ rs) = rw (position-number_rule all x rs) refl

pub length-number_rule :
    (all : List Rule) (rs : List Rule) → length (map (number_rule all) rs) ≡ length rs
length-number_rule all [] = refl
length-number_rule all (r ∷ rs) = ap suc (length-number_rule all rs)

pub Listed-number_rule :
    (all xs rs : List Rule) → All (Listed xs) rs → All (Listed xs) (map (number_rule all) rs)
unfolding number_rule
Listed-number_rule all xs [] a = tt
Listed-number_rule all xs (r ∷ rs) a = (a.0, Listed-number_rule all xs rs a.1)

pub Lists-number_rule : (all xs rs : List Rule) → Lists xs rs → Lists xs (map (number_rule all) rs)
Lists-number_rule all xs rs (a, b) = (
  All-weaken _ _ xs
      (λ x h. omega (arith, h, position-number_rule all x rs, length-number_rule all rs)) a,
  Listed-number_rule all xs rs b,
)

pub rules_less-number_rule :
    (all xs ys : List Rule)
    → (rules_less (map (number_rule all) xs) ys ≡ rules_less xs ys)
      × (rules_less ys (map (number_rule all) xs) ≡ rules_less ys xs)
unfolding rules_less rule_less number_rule
rules_less-number_rule all [] [] = (refl, refl)
rules_less-number_rule all [] (y ∷ ys) = (refl, refl)
rules_less-number_rule all (x ∷ xs) [] = (refl, refl)
rules_less-number_rule all (x ∷ xs) (y ∷ ys) =
    let (a, b) = rules_less-number_rule all xs ys in (rw a refl, rw b refl)

pub map-reverse_rules :
    (all rs : List Rule) → map (number_rule all) (reverse rs) ≡ reverse (map (number_rule all) rs)
map-reverse_rules all [] = refl
map-reverse_rules all (r ∷ rs) =
    rw (reverse-cons r rs, reverse-cons (number_rule all r) (map (number_rule all) rs))
      (map-append_rules (reverse rs)
        ∙ ap (λ s. s ++ number_rule all r ∷ []) (map-reverse_rules all rs))
  where
    map-append_rules :
        (xs : List Rule)
        → map (number_rule all) (xs ++ r ∷ []) ≡ map (number_rule all) xs ++ number_rule all r ∷ []
    map-append_rules [] = refl
    map-append_rules (x ∷ xs) = ap (λ s. number_rule all x ∷ s) (map-append_rules xs)

-- Numbering its rules does not move a service.
pub number_service-Equivalent :
    (all : List Rule) (s : Service) → Equivalent service_less (number_service all s) s
unfolding number_service request_less
number_service-Equivalent all s =
    let rs = s.request.match_rules in
    let (a, b) = rules_less-number_rule all (reverse rs) (reverse rs) in
    let same = service_less-StrictWeakOrder.irreflexive s in
    let turned : reverse (map (number_rule all) rs) ≡ map (number_rule all) (reverse rs) =
      sym (map-reverse_rules all rs) in
    (rw (length-number_rule all rs, turned, a) same, rw (length-number_rule all rs, turned, b) same)

-- A rule with its number in the set of all rules.
abbrev pub Numbered : List Rule → Rule → Type 0
Numbered all r = (s : Rule) × (r ≡ number_rule all s) × Has rule_less all s

pub number_rule-Numbered :
    (all rs : List Rule)
    → All (Has rule_less all) rs
    → All (Numbered all) (map (number_rule all) rs)
number_rule-Numbered all [] a = tt
number_rule-Numbered all (r ∷ rs) a = ((r, refl, a.0), number_rule-Numbered all rs a.1)

-- The numbers of two rules tell whether these are equivalent.
abbrev pub NumbersTell : Rule → Rule → Type 0
NumbersTell a b = (a.unique_id ≡ b.unique_id) ↔ Equivalent rule_less a b

pub NumbersTell-number_rule :
    (all : List Rule) (s t : Rule)
    → ((number_rule all s).unique_id ≡ (number_rule all t).unique_id) ↔ Equivalent rule_less s t
    → NumbersTell (number_rule all s) (number_rule all t)
unfolding number_rule rule_less
NumbersTell-number_rule all s t h = h

pub Numbered-NumbersTell :
    (all : List Rule) (a b : Rule) → Numbered all a → Numbered all b → NumbersTell a b
Numbered-NumbersTell all a b (s, e, h) (t, f, k) = rw (e, f) (told s t h)
  where
    told : (s t : Rule) → Has rule_less all s → NumbersTell (number_rule all s) (number_rule all t)
    told s t h = NumbersTell-number_rule all s t (number_rule_iff all s t h)

pub AllRules-Numbered :
    (all : List Rule) (ss : List Service)
    → All (λ s. All (Has rule_less all) s.request.match_rules) ss
    → All (λ s. All (Numbered all) s.request.match_rules) (map (number_service all) ss)
unfolding number_service
AllRules-Numbered all [] a = tt
AllRules-Numbered all (s ∷ ss) a =
    (number_rule-Numbered all s.request.match_rules a.0, AllRules-Numbered all ss a.1)
