-- ===== src/Http2/Path/Clean.antt =====
-- http2.cc: path_join on a path from the root.
use mathlib.Core.List.{reverse, reverse-append, reverse-reverse}
use maock.Prelude.{
  ℕ, zero, suc, ◌<◌, ◌≡◌, refl, sym, ap, ◌∙◌, ◌≢◌, none, List, [], ◌∷◌, ◌++◌, append_assoc,
  append-nil, arith, All, length, length-append,
}
use maock.Bytes.{Bytes}
use maock.Util.Host.{behind}
use maock.Util.Host.Split.{IsFreeOf, before-IsFreeOf, join_by}
use maock.Http2.Path.{
  slash, classify, skip_slashes, copy_segment, join_step, join_loop, path_join, clean_path,
}
use maock.Http2.Path.Segments.{
  Kind, empty, dot, dots, name, kind, parent, last_step, dir_step, walk, encd, out_of, IsSolid,
  head_of_last, classify-last, head_of_dir, classify-dir, at_dir-encd, eat_dir-encd,
  skip_slashes-join,
}

abbrev Free : List Bytes → Type 0
Free = All (IsFreeOf slash)

parent-Free : (ds : List Bytes) → Free ds → Free (parent ds)
parent-Free [] h = tt
parent-Free (d ∷ ds) h = h.1

dir_step-Free :
    (k : Kind) (ds : List Bytes) (s : Bytes) → Free ds → IsFreeOf slash s → Free (dir_step k ds s)
dir_step-Free empty ds s h f = h
dir_step-Free dot ds s h f = h
dir_step-Free dots ds s h f = parent-Free ds h
dir_step-Free name ds s h f = (f, h)

pub behind-none : (s : Bytes) → IsFreeOf slash s → behind slash s ≡ none
unfolding behind
behind-none [] h = refl
behind-none (c ∷ s) h = rw (h.0) (behind-none s h.1)

-- The last round.
join_step-last :
    (again : Bytes → Bytes → Bytes) (k : Kind) (ds : List Bytes) (s : Bytes)
    → Free ds
    → IsFreeOf slash s
    → join_step again (head_of_last k) (encd ds) s ≡ out_of (last_step k ds s)
unfolding join_step copy_segment head_of_last
join_step-last again empty ds s h f = refl
join_step-last again dot ds s h f = refl
join_step-last again dots ds s h f = eat_dir-encd ds h
join_step-last again name ds s h f = rw (behind-none s f, at_dir-encd ds)

-- A round with more behind it goes on with the next segment.
join_step-dir :
    (again : Bytes → Bytes → Bytes) (k : Kind) (ds : List Bytes) (s r : Bytes)
    → Free ds
    → IsFreeOf slash s
    → k ≢ empty
    → skip_slashes r ≡ r
    → join_step again (head_of_dir k r) (encd ds) (s ++ (slash ∷ r))
      ≡ again (encd (dir_step k ds s)) r
unfolding join_step copy_segment head_of_dir
join_step-dir again empty ds s r h f n e = absurd (n refl)
join_step-dir again dot ds s r h f n e = refl
join_step-dir again dots ds s r h f n e = rw (eat_dir-encd ds h)
join_step-dir again name ds s r h f n e =
    let found = before-IsFreeOf slash s r f in rw (found.1, found.0, at_dir-encd ds, e)

kind-ne-empty : (s : Bytes) → s ≢ [] → kind s ≢ empty
kind-ne-empty [] n = absurd (n refl)
kind-ne-empty (c ∷ []) n = λ e. ground arith
kind-ne-empty (c ∷ d ∷ []) n = λ e. ground arith
kind-ne-empty (c ∷ d ∷ x ∷ s) n = λ e. ground arith

join_loop-walk :
    (f : ℕ) (ds segs : List Bytes)
    → length (join_by slash segs) < f
    → Free ds
    → Free segs
    → IsSolid segs
    → join_loop f (encd ds) (join_by slash segs) ≡ out_of (walk ds segs)
unfolding join_loop
join_loop-walk zero ds segs l h g n = absurd (omega arith)
join_loop-walk (suc f) ds [] l h g n = unfold classify join_step in refl
join_loop-walk (suc f) ds (s ∷ []) l h g n =
    rw (classify-last s g.0) (join_step-last (join_loop f) (kind s) ds s h g.0)
join_loop-walk (suc f) ds (s ∷ t ∷ ts) l h g n =
    let r = join_by slash (t ∷ ts) in
    rw (classify-dir s r g.0) (
      join_step-dir (join_loop f) (kind s) ds s r h g.0 (kind-ne-empty s n.0)
        (skip_slashes-join t ts g.1.0 n.1)
      ∙ join_loop-walk f (dir_step (kind s) ds s) (t ∷ ts)
          (omega (arith, length-append s (slash ∷ r))) (dir_step-Free (kind s) ds s h g.0) g.1 n.1)

nil-ne : {x : Bytes} {xs : List Bytes} → x ∷ xs ≢ []
nil-ne e = ground arith

-- The text of a walk: each directory with a slash behind it, then the file.
reverse-encd :
    (ds ss : List Bytes)
    → ss ≢ []
    → slash ∷ join_by slash (reverse ds ++ ss) ≡ reverse (encd ds) ++ join_by slash ss
reverse-encd [] ss n = refl
reverse-encd (d ∷ ds) [] n = absurd (n refl)
reverse-encd (d ∷ ds) (s ∷ ss) n =
    let e : reverse (d ∷ ds) ++ (s ∷ ss) ≡ reverse ds ++ (d ∷ s ∷ ss) =
      rw (reverse-append (d ∷ []) ds) (append_assoc (reverse ds) (d ∷ []) (s ∷ ss)) in
    let text : reverse (encd (d ∷ ds)) ≡ reverse (encd ds) ++ (d ++ slash ∷ []) =
      reverse-append (slash ∷ reverse d) (encd ds)
      ∙ ap (λ x. reverse (encd ds) ++ x)
          (reverse-append (slash ∷ []) (reverse d) ∙ rw (reverse-reverse d)) in
    rw (e, text) (reverse-encd ds (d ∷ s ∷ ss) nil-ne ∙ simp append_assoc)

reverse-out_of :
    (p : List Bytes × Bytes)
    → reverse (out_of p) ≡ slash ∷ join_by slash (reverse p.0 ++ (p.1 ∷ []))
reverse-out_of p =
    reverse-append (reverse p.1) (encd p.0)
    ∙ rw (reverse-reverse p.1) (sym (reverse-encd p.0 (p.1 ∷ []) nil-ne))

-- A path from the root, with no empty segment but perhaps the last, becomes the text of the walk
-- over its segments: the directories that are left in their order, and then the file.
pub clean_path-walk :
    (t : Bytes) (ts : List Bytes)
    → All (IsFreeOf slash) (t ∷ ts)
    → IsSolid (t ∷ ts)
    → clean_path (slash ∷ join_by slash (t ∷ ts))
      ≡ slash ∷ join_by slash (reverse (walk [] (t ∷ ts)).0 ++ ((walk [] (t ∷ ts)).1 ∷ []))
unfolding path_join
clean_path-walk t ts h n =
    rw
      (
        skip_slashes-join t ts h.0 n,
        join_loop-walk (suc (suc (length (join_by slash (t ∷ ts))))) [] (t ∷ ts) (omega arith) tt h
            n,
        append-nil (reverse (out_of (walk [] (t ∷ ts)))),
      )
      (reverse-out_of (walk [] (t ∷ ts)))
