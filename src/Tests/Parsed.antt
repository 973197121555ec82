-- ===== src/Tests/Parsed.antt =====
-- The checks and parsers of util.cc and http2.cc on small inputs.
use mathlib.Core.List.{reverse}
use maock.Prelude.{◌≡◌, refl, ◌≢◌, ◌↔◌, true, some, List, [], ◌∷◌, ◌++◌, arith, All}
use maock.Bytes.{Bytes, codes, starts_with}
use maock.Util.Host.{split_str}
use maock.Util.Edit.{Costs, levenshtein}
use maock.Util.Edit.Distance.{edit_distance, unit, weighted, levenshtein-edit_distance}
use maock.Util.Check.{check_path, select_proto, select_h2}
use maock.Util.Check.Segments.{IsPlain, check_path_iff}
use maock.Http2.Link.{parse_link_header}
use maock.Util.Case.{strieq}
use maock.Http2.Link.Found.{IsUrlOf, parse_link_header-IsUrlOf}
use maock.Http2.Link.Forms.{bare, anchored, relation}
use maock.Http2.Link.Printed.{Target, render_all, parse_link_header-render_all}

-- The costs that show_candidates uses.
abbrev git_costs : Costs
git_costs = record { swapcost = 0; subcost = 2; addcost = 1; delcost = 3 }

swapped : edit_distance git_costs (codes "ab") (codes "ba") ≡ 0
swapped = refl

levenshtein-edit_distance_example :
    (levenshtein git_costs (codes "prot") (codes "port")
      ≡ edit_distance git_costs (reverse (codes "prot")) (reverse (codes "port")))
    × (levenshtein (unit git_costs) (codes "prot") (codes "port")
        ≡ weighted (unit git_costs) (reverse (codes "prot")) (reverse (codes "port")))
levenshtein-edit_distance_example =
    levenshtein-edit_distance git_costs (codes "prot") (codes "port")

check_path_iff_example : (check_path (codes "/a/b") ≡ true) ↔ (
    (s : Bytes) × (codes "/a/b" ≡ b'/' ∷ s)
    × All (λ c. c ≢ 92) (codes "/a/b")
    × All IsPlain (split_str s b'/'))
check_path_iff_example = check_path_iff (codes "/a/b")

-- A client that has HTTP/1.1 and h2.
chosen_h2 : select_h2 (8 ∷ (codes "http/1.1" ++ 2 ∷ codes "h2")) ≡ some (10, 2)
unfolding select_h2 select_proto starts_with
chosen_h2 = refl

abbrev header_text : Bytes
header_text = codes "<a>; rel=preload, <b>; rel=next"

two_links : parse_link_header header_text ≡ some (codes "a" ∷ [])
unfolding parse_link_header starts_with
two_links = refl

parse_link_header-IsUrlOf_example :
    (links : List Bytes) × (parse_link_header header_text ≡ some links)
    × All (IsUrlOf header_text) links
parse_link_header-IsUrlOf_example = parse_link_header-IsUrlOf header_text

abbrev targets : List Target
targets =
    (codes "/a.css", bare)
    ∷ (codes "/b.js", anchored (codes "#x"))
    ∷ (codes "/c.js", relation (codes "next") (codes "Preload" ∷ []))
    ∷ []

parse_link_header-render_all_example :
    parse_link_header (render_all targets) ≡ some (codes "/a.css" ∷ codes "/c.js" ∷ [])
unfolding strieq
parse_link_header-render_all_example = parse_link_header-render_all targets (
  ((λ e. ground arith), ground arith, tt),
  (
    ((λ e. ground arith), ground arith, ((λ e. ground arith), ground arith)),
    (
      (
        (λ e. ground arith),
        ground arith,
        (((λ e. ground arith), ground arith), (((λ e. ground arith), ground arith), tt)),
      ),
      tt,
    ),
  ),
)
