-- ===== src/Util/Check.antt =====
-- util.cc: check_path, and the choice of a protocol of ALPN.
pub mod Segments
pub mod Chosen
use maock.Prelude.{
  ℕ, zero, suc, ◌+◌, ◌-◌, ◌/◌, Bool, true, false, not, ◌&&◌, ◌||◌, Option, none, some, List, [],
  ◌∷◌, ◌++◌, ltb, leb, ◌==◌, if◌then◌else◌, length, get_or, drop,
}
use maock.Bytes.{Bytes, codes, eqb, starts_with, find?}

-- ends_with_l
unfoldable pub ends_with : Bytes → Bytes → Bool
unfolding eqb
ends_with s t = if ltb (length s) (length t) then false else eqb (drop (length s - length t) s) t

-- find(t) == npos
unfoldable pub not_found : Bytes → Bytes → Bool
unfolding find?
not_found s t = elim (find? s t) [ none ↦ true | some i ↦ false ]

abbrev pub starts_with_slash : Bytes → Bool
starts_with_slash [] = false
starts_with_slash (c ∷ s) = c == b'/'

unfoldable pub check_path : Bytes → Bool
unfolding not_found ends_with
check_path path =
    starts_with_slash path
    && not_found path (92 ∷ [])
    && not_found path (codes "/../")
    && not_found path (codes "/./")
    && not (ends_with path (codes "/.."))
    && not (ends_with path (codes "/."))

-- What the code of ALPN gives: the bytes of a protocol, at `out` and `outlen`.
abbrev pub Selection : Type 0
Selection = ℕ × ℕ

-- select_proto: the loop from `p` on, over a list of protocols each behind a byte with its length.
-- std::equal compares the bytes of the key with those of the list. `fuel` bounds the rounds.
unfoldable pub select_from : ℕ → ℕ → Bytes → Bytes → Option Selection
unfolding starts_with
select_from zero p list key = none
select_from (suc fuel) p list key =
    let later = select_from fuel (p + (get_or list p 0 + 1)) list key in
    if leb (p + length key) (length list)
    then if starts_with (drop p list) key then some (p + 1, get_or list p 0) else later
    else none

unfoldable pub select_proto : Bytes → Bytes → Option Selection
unfolding select_from
select_proto list key = select_from (length list + 1) 0 list key

abbrev pub or_else : Option Selection → Option Selection → Option Selection
or_else none o = o
or_else (some x) o = some x

-- NGHTTP2_H2_ALPN and those of the drafts 16 and 14
abbrev pub h2_alpn : Bytes
h2_alpn = 2 ∷ codes "h2"

abbrev pub h2_16_alpn : Bytes
h2_16_alpn = 5 ∷ codes "h2-16"

abbrev pub h2_14_alpn : Bytes
h2_14_alpn = 5 ∷ codes "h2-14"

unfoldable pub select_h2 : Bytes → Option Selection
unfolding select_proto
select_h2 list =
    or_else (select_proto list h2_alpn)
      (or_else (select_proto list h2_16_alpn) (select_proto list h2_14_alpn))

unfoldable pub select_protocol : Bytes → List Bytes → Option Selection
unfolding select_proto
select_protocol list [] = none
select_protocol list (proto ∷ proto_list) =
    let later = select_protocol list proto_list in or_else (select_proto list proto) later

unfoldable pub get_default_alpn : Bytes
get_default_alpn = h2_alpn ++ (h2_16_alpn ++ h2_14_alpn)

-- NGHTTP2_H2, and check_h2_is_selected
unfoldable pub check_h2_is_selected : Bytes → Bool
unfolding eqb
check_h2_is_selected proto =
    eqb (codes "h2") proto || (eqb (codes "h2-16") proto || eqb (codes "h2-14") proto)
