-- ===== src/Match/Collision.antt =====
-- H2Server_Request.h: operator< of Match_Rule on rules of different headers.
use maock.Prelude.{ℕ, ◌≡◌, refl, ◌≢◌, false, List, [], ◌∷◌, ◌++◌, append_assoc, arith}
use maock.Bytes.{Bytes, is_empty}
use maock.Bytes.Order.{lex_lt_irrefl}
use maock.OrderedSet.{insert}
use maock.Match.{MatchType, Rule, rule_text, rule_less}

-- A header rule, with whatever number.
abbrev pub on_header : MatchType → Bytes → Bytes → ℕ → Rule
on_header t header object id = record {
  match_type = t;
  header_name = header;
  json_pointer = [];
  object = object;
  unique_id = id;
}

nonempty-append : (h x : Bytes) → h ≢ [] → is_empty (h ++ x) ≡ false
nonempty-append [] x n = absurd (n refl)
nonempty-append (c ∷ h) x n = refl

nonempty : (h : Bytes) → h ≢ [] → is_empty h ≡ false
nonempty [] n = absurd (n refl)
nonempty (c ∷ h) n = refl

-- A rule on one header is taken for a rule on a longer header name, with the same match type,
-- wherever header and object are the same text when joined: a set that begins with the one drops
-- the other.
pub insert-on_header :
    (t : MatchType) (h x y : Bytes) (i j : ℕ) (s : List Rule)
    → h ≢ []
    → insert rule_less (on_header t (h ++ x) y i) (on_header t h (x ++ y) j ∷ s)
      ≡ on_header t h (x ++ y) j ∷ s
unfolding insert rule_less
insert-on_header t h x y i j s n =
    let long = on_header t (h ++ x) y i in
    let short = on_header t h (x ++ y) j in
    let same : rule_text long ≡ rule_text short = simp append_assoc in
    ground (arith, same, nonempty-append h x n, nonempty h n, lex_lt_irrefl (rule_text short))
