-- ===== src/Http2/Link/Printed.antt =====
-- http2.cc: parse_link_header of headers that are written by a grammar.
use maock.Prelude.{
  ℕ, zero, suc, ◌+◌, ◌<◌, ◌≡◌, refl, ap, ◌≢◌, inl, inr, Bool, true, false, some, List, [], ◌∷◌,
  ◌++◌, arith, if◌then◌else◌, Bool-cases, All, length, drop, length-append,
}
use maock.Bytes.{Bytes, is_empty}
use maock.Util.Host.Split.{IsFreeOf, before-IsFreeOf}
use maock.Http2.Link.{
  skip_to_next_field, behind_url, parse_next_link_header_once, parse_links, parse_link_header,
}
use maock.Http2.Link.Forms.{Form, params, is_push, IsForm, Ends, link_params-form}

abbrev pub Target : Type 0
Target = Bytes × Form

abbrev pub render : Target → Bytes → Bytes
render (u, f) rest = b'<' ∷ (u ++ b'>' ∷ b';' ∷ b' ' ∷ (params f ++ rest))

-- The links behind the first, each behind a comma and a space.
abbrev pub render_tail : List Target → Bytes
render_tail [] = []
render_tail (l ∷ ls) = b',' ∷ b' ' ∷ render l (render_tail ls)

abbrev pub render_all : List Target → Bytes
render_all [] = []
render_all (l ∷ ls) = render l (render_tail ls)

abbrev pub pushed : List Target → List Bytes
pushed [] = []
pushed ((u, f) ∷ ls) = if is_push f then u ∷ pushed ls else pushed ls

once-render :
    (fuel : ℕ) (u : Bytes) (f : Form) (rest : Bytes)
    → IsFreeOf b'>' u
    → IsForm f
    → Ends rest
    → parse_next_link_header_once (suc (suc (suc fuel))) (render (u, f) rest)
      ≡ some (if is_push f then u else [], drop 1 rest)
unfolding parse_next_link_header_once skip_to_next_field behind_url
once-render fuel u f rest free form h =
    let (b, r) = before-IsFreeOf b'>' u (b';' ∷ b' ' ∷ (params f ++ rest)) free in
    rw (r, b, link_params-form fuel f rest form h) refl

-- A space before a link changes nothing.
once-space :
    (fuel : ℕ) (l : Target) (rest : Bytes)
    → parse_next_link_header_once fuel (b' ' ∷ render l rest)
      ≡ parse_next_link_header_once fuel (render l rest)
unfolding parse_next_link_header_once skip_to_next_field
once-space fuel l rest = refl

abbrev Fine : Target → Type 0
Fine (u, f) = (u ≢ []) × IsFreeOf b'>' u × IsForm f

Ends-render_tail : (ls : List Target) → Ends (render_tail ls)
Ends-render_tail [] = tt
Ends-render_tail (l ∷ ls) = refl

add_pushed :
    (u : Bytes) (f : Form) (ls : List Target)
    → u ≢ []
    → (if is_empty (if is_push f then u else [])
        then pushed ls
        else (if is_push f then u else []) ∷ pushed ls)
      ≡ pushed ((u, f) ∷ ls)
add_pushed [] f ls n = absurd (n refl)
add_pushed (c ∷ u) f ls n = elim (Bool-cases (is_push f)) [
  | inl pushes ↦ rw pushes refl
  | inr stays ↦ rw stays refl
]

abbrev spaced : Bool → Bytes → Bytes
spaced true s = b' ' ∷ s
spaced false s = s

length-render :
    (u : Bytes) (f : Form) (ls : List Target) → 3 < length (render (u, f) (render_tail ls))
length-render u f ls =
    omega (arith, length-append u (b'>' ∷ b';' ∷ b' ' ∷ (params f ++ render_tail ls)))

parse_links-render :
    (fuel : ℕ) (space : Bool) (l : Target) (ls : List Target)
    → All Fine (l ∷ ls)
    → length (render l (render_tail ls)) < fuel
    → parse_links fuel (spaced space (render l (render_tail ls))) ≡ some (pushed (l ∷ ls))
unfolding parse_links
parse_links-render zero space l ls a h = elim h [ ]
parse_links-render (suc zero) space (u, f) ls a h = absurd (omega (arith, h, length-render u f ls))
parse_links-render (suc (suc zero)) space (u, f) ls a h =
    absurd (omega (arith, h, length-render u f ls))
parse_links-render (suc (suc (suc zero))) space (u, f) ls a h =
    absurd (omega (arith, h, length-render u f ls))
parse_links-render (suc (suc (suc (suc fuel)))) space (u, f) [] (fine, a) h =
    elim (Bool-cases space) [
      | inl t ↦
          rw
            (
              t,
              once-space (suc (suc (suc fuel))) (u, f) [],
              once-render fuel u f [] fine.1 fine.2 tt,
            )
            (ap some (add_pushed u f [] fine.0))
      | inr t ↦
          rw (t, once-render fuel u f [] fine.1 fine.2 tt) (ap some (add_pushed u f [] fine.0))
    ]
parse_links-render (suc (suc (suc (suc fuel)))) space (u, f) (l ∷ ls) (fine, a) h =
    let s1 = length-append u (b'>' ∷ b';' ∷ b' ' ∷ (params f ++ render_tail (l ∷ ls))) in
    let s2 = length-append (params f) (render_tail (l ∷ ls)) in
    let later = parse_links-render (suc (suc (suc fuel))) true l ls a (omega (arith, h, s1, s2)) in
    let first = once-render fuel u f (render_tail (l ∷ ls)) fine.1 fine.2 refl in
    elim (Bool-cases space) [
      | inl t ↦
          rw (t, once-space (suc (suc (suc fuel))) (u, f) (render_tail (l ∷ ls)), first, later)
            (ap some (add_pushed u f (l ∷ ls) fine.0))
      | inr t ↦ rw (t, first, later) (ap some (add_pushed u f (l ∷ ls) fine.0))
    ]

-- For links written one behind another with commas, whose URLs are not empty and have no closing angle
-- bracket, each with one of these parameters: parse_link_header gives, in order, the URLs of those with
-- rel=preload, with REL="next PreLoad", and with a quoted rel of any words, one of which is preload in
-- any case; and not of those with a quoted rel of other words, with rel=preload; nopush, with
-- rel=preload; anchor="t" for any t, and with rel=next; as=image. The words are not empty and have no
-- space, tab or double quote, and t is not empty and has no double quote or backslash.
pub parse_link_header-render_all :
    (ls : List Target) → All Fine ls → parse_link_header (render_all ls) ≡ some (pushed ls)
unfolding parse_link_header parse_links
parse_link_header-render_all [] a = refl
parse_link_header-render_all (l ∷ ls) a =
    parse_links-render (length (render l (render_tail ls)) + 1) false l ls a (omega arith)
