-- ===== src/Server/Built/Rules.antt =====
-- H2Server_Request.h: the rules that the constructor of a request makes of its entry.
use maock.Prelude.{◌≡◌, refl, ◌⊎◌, inl, inr, List, [], ◌∷◌, ◌++◌, map, All, All-append}
use maock.OrderedSet.{insert}
use maock.OrderedSet.Position.{Has, Has-insert_self, Has-insert}
use maock.Match.{
  Rule, string_to_match_type, SchemaHeaderMatch, SchemaPayloadMatch, SchemaRequestMatch, rule_less,
  header_rule, payload_rule, emplace_headers, emplace_payloads,
}
use maock.Match.Order.{rule_less-StrictWeakOrder}
use maock.Server.Dispatch.{All-insert}

-- The rules that a request of the configuration lists, headers first, without numbers.
abbrev pub of_header : SchemaHeaderMatch → Rule
of_header h = record {
  match_type = string_to_match_type h.match_type;
  header_name = h.header;
  json_pointer = [];
  object = h.input;
  unique_id = 0;
}

abbrev pub of_payload : SchemaPayloadMatch → Rule
of_payload p = record {
  match_type = string_to_match_type p.match_type;
  header_name = [];
  json_pointer = p.json_pointer;
  object = p.input;
  unique_id = 0;
}

abbrev pub listed : SchemaRequestMatch → List Rule
listed x = map of_header x.header_match ++ map of_payload x.payload_match

abbrev pub IsIn : Rule → List Rule → Type 0
IsIn r [] = ⊥
IsIn r (x ∷ xs) = (r ≡ x) ⊎ IsIn r xs

-- The set of rules has a rule for every listed one, and none but listed ones.
abbrev pub Lists : List Rule → List Rule → Type 0
Lists xs rs = All (Has rule_less rs) xs × All (λ r. IsIn (record r { unique_id = 0 }) xs) rs

module _ (P : Rule → Type 0) where
  pub emplace_headers-All :
      (hs : List SchemaHeaderMatch) (s : List Rule)
      → All P (map of_header hs)
      → All P s
      → All P (emplace_headers hs s)
  unfolding header_rule
  emplace_headers-All [] s h a = a
  emplace_headers-All (x ∷ hs) s h a =
      emplace_headers-All hs (insert rule_less (of_header x) s) h.1
        (All-insert rule_less P (of_header x) s h.0 a)

  pub emplace_payloads-All :
      (ps : List SchemaPayloadMatch) (s : List Rule)
      → All P (map of_payload ps)
      → All P s
      → All P (emplace_payloads ps s)
  unfolding payload_rule
  emplace_payloads-All [] s h a = a
  emplace_payloads-All (x ∷ ps) s h a =
      emplace_payloads-All ps (insert rule_less (of_payload x) s) h.1
        (All-insert rule_less P (of_payload x) s h.0 a)

pub Has-emplace_headers :
    (x : Rule) (hs : List SchemaHeaderMatch) (s : List Rule)
    → Has rule_less s x
    → Has rule_less (emplace_headers hs s) x
Has-emplace_headers x [] s h = h
Has-emplace_headers x (y ∷ hs) s h =
    Has-emplace_headers x hs (insert rule_less (header_rule y) s)
      (Has-insert rule_less-StrictWeakOrder x (header_rule y) s h)

pub Has-emplace_payloads :
    (x : Rule) (ps : List SchemaPayloadMatch) (s : List Rule)
    → Has rule_less s x
    → Has rule_less (emplace_payloads ps s) x
Has-emplace_payloads x [] s h = h
Has-emplace_payloads x (y ∷ ps) s h =
    Has-emplace_payloads x ps (insert rule_less (payload_rule y) s)
      (Has-insert rule_less-StrictWeakOrder x (payload_rule y) s h)

pub emplace_headers-Has :
    (hs : List SchemaHeaderMatch) (s : List Rule)
    → All (Has rule_less (emplace_headers hs s)) (map of_header hs)
unfolding header_rule
emplace_headers-Has [] s = tt
emplace_headers-Has (x ∷ hs) s = (
  Has-emplace_headers (of_header x) hs (insert rule_less (of_header x) s)
      (Has-insert_self rule_less-StrictWeakOrder (of_header x) s),
  emplace_headers-Has hs (insert rule_less (of_header x) s),
)

pub emplace_payloads-Has :
    (ps : List SchemaPayloadMatch) (s : List Rule)
    → All (Has rule_less (emplace_payloads ps s)) (map of_payload ps)
unfolding payload_rule
emplace_payloads-Has [] s = tt
emplace_payloads-Has (x ∷ ps) s = (
  Has-emplace_payloads (of_payload x) ps (insert rule_less (of_payload x) s)
      (Has-insert_self rule_less-StrictWeakOrder (of_payload x) s),
  emplace_payloads-Has ps (insert rule_less (of_payload x) s),
)

pub All-weaken {ℓ κ λ'} :
    {A : Type ℓ} (P : A → Type κ) (Q : A → Type λ') (xs : List A)
    → ((x : A) → P x → Q x)
    → All P xs
    → All Q xs
All-weaken P Q [] f a = tt
All-weaken P Q (x ∷ xs) f a = (f x a.0, All-weaken P Q xs f a.1)

pub All-IsIn : (xs : List Rule) → All (λ r. IsIn r xs) xs
All-IsIn [] = tt
All-IsIn (x ∷ xs) =
    (inl refl, All-weaken (λ r. IsIn r xs) (λ r. IsIn r (x ∷ xs)) xs (λ r i. inr i) (All-IsIn xs))

module _ (P : Rule → Type 0) where
  pub All-split : (xs ys : List Rule) → All P (xs ++ ys) → All P xs × All P ys
  All-split [] ys a = (tt, a)
  All-split (x ∷ xs) ys a = let (b, c) = All-split xs ys a.1 in ((a.0, b), c)

-- A rule is listed, whatever its number.
abbrev pub Listed : List Rule → Rule → Type 0
Listed xs r = IsIn (record r { unique_id = 0 }) xs

pub Listed-headers :
    (xs : List Rule) (hs : List SchemaHeaderMatch)
    → All (λ r. IsIn r xs) (map of_header hs)
    → All (Listed xs) (map of_header hs)
Listed-headers xs [] a = tt
Listed-headers xs (h ∷ hs) a = (a.0, Listed-headers xs hs a.1)

pub Listed-payloads :
    (xs : List Rule) (ps : List SchemaPayloadMatch)
    → All (λ r. IsIn r xs) (map of_payload ps)
    → All (Listed xs) (map of_payload ps)
Listed-payloads xs [] a = tt
Listed-payloads xs (p ∷ ps) a = (a.0, Listed-payloads xs ps a.1)

pub Lists-emplace :
    (x : SchemaRequestMatch)
    → Lists (listed x) (emplace_payloads x.payload_match (emplace_headers x.header_match []))
Lists-emplace x =
    let hs = emplace_headers x.header_match [] in
    let (a, b) =
      All-split (λ r. IsIn r (listed x)) (map of_header x.header_match)
        (map of_payload x.payload_match) (All-IsIn (listed x)) in
    (
      All-append _ (map of_header x.header_match) (map of_payload x.payload_match)
          (All-weaken _ _ (map of_header x.header_match)
            (λ r h. Has-emplace_payloads r x.payload_match hs h)
            (emplace_headers-Has x.header_match []))
          (emplace_payloads-Has x.payload_match hs),
      emplace_payloads-All (Listed (listed x)) x.payload_match hs
          (Listed-payloads (listed x) x.payload_match b)
          (emplace_headers-All (Listed (listed x)) x.header_match []
            (Listed-headers (listed x) x.header_match a) tt),
    )
