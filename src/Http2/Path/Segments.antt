-- ===== src/Http2/Path/Segments.antt =====
-- http2.cc: the rounds of path_join, segment by segment, and a walk over the segments.
use mathlib.Core.List.{reverse, reverse-append}
use maock.Prelude.{
  ℕ, ◌≡◌, refl, ◌≢◌, List, [], ◌∷◌, ◌++◌, arith, ◌==◌, if◌then◌else◌, All, All-append,
}
use maock.Bytes.{Bytes}
use maock.Util.Host.Split.{IsFreeOf, join_by}
use maock.Http2.Path.{
  slash, strip_file, eat_file, eat_dir, Head, finished, dot_end, dots_end, plain, dot_slash,
  dots_slash, classify, skip_slashes, at_dir,
}

pub data Kind : Type 0 where
  empty dot dots name : Kind

abbrev kind_dots : Bytes → Kind
kind_dots [] = dots
kind_dots (c ∷ s) = name

abbrev kind_dot : Bytes → Kind
kind_dot [] = dot
kind_dot (c ∷ s) = if c == b'.' then kind_dots s else name

abbrev pub kind : Bytes → Kind
kind [] = empty
kind (c ∷ s) = if c == b'.' then kind_dot s else name

abbrev pub parent : List Bytes → List Bytes
parent [] = []
parent (d ∷ ds) = ds

-- The last segment: a file, or nothing for an empty one and for dots.
abbrev pub last_step : Kind → List Bytes → Bytes → List Bytes × Bytes
last_step empty ds s = (ds, [])
last_step dot ds s = (ds, [])
last_step dots ds s = (parent ds, [])
last_step name ds s = (ds, s)

-- A segment with more behind it: the directories after it, the newest first.
abbrev pub dir_step : Kind → List Bytes → Bytes → List Bytes
dir_step empty ds s = ds
dir_step dot ds s = ds
dir_step dots ds s = parent ds
dir_step name ds s = s ∷ ds

-- The directories and the file that the segments lead to: `.` stays, `..` goes to the parent.
abbrev pub walk : List Bytes → List Bytes → List Bytes × Bytes
walk ds [] = (ds, [])
walk ds (s ∷ []) = last_step (kind s) ds s
walk ds (s ∷ t ∷ ts) = walk (dir_step (kind s) ds s) (t ∷ ts)

-- The buffer that holds these directories.
abbrev pub encd : List Bytes → Bytes
encd [] = slash ∷ []
encd (d ∷ ds) = slash ∷ (reverse d ++ encd ds)

abbrev pub out_of : List Bytes × Bytes → Bytes
out_of p = reverse p.1 ++ encd p.0

-- No segment but the last is empty: the path has no two slashes in a row.
abbrev pub IsSolid : List Bytes → Type 0
IsSolid [] = Unit
IsSolid (s ∷ []) = Unit
IsSolid (s ∷ t ∷ ts) = (s ≢ []) × IsSolid (t ∷ ts)

unfoldable pub head_of_last : Kind → Head
head_of_last empty = finished
head_of_last dot = dot_end
head_of_last dots = dots_end
head_of_last name = plain

pub classify-last : (s : Bytes) → IsFreeOf slash s → classify s ≡ head_of_last (kind s)
unfolding classify head_of_last
classify-last [] h = refl
classify-last (c ∷ []) h = ground arith
classify-last (c ∷ d ∷ []) h = ground (arith, h.1.0)
classify-last (c ∷ d ∷ e ∷ s) h = ground (arith, h.1.0, h.1.1.0)

unfoldable pub head_of_dir : Kind → Bytes → Head
head_of_dir empty r = plain
head_of_dir dot r = dot_slash r
head_of_dir dots r = dots_slash r
head_of_dir name r = plain

pub classify-dir :
    (s r : Bytes) → IsFreeOf slash s → classify (s ++ (slash ∷ r)) ≡ head_of_dir (kind s) r
unfolding classify head_of_dir
classify-dir [] r h = refl
classify-dir (c ∷ []) r h = ground arith
classify-dir (c ∷ d ∷ []) r h = ground (arith, h.1.0)
classify-dir (c ∷ d ∷ e ∷ s) r h = ground (arith, h.1.0, h.1.1.0)

strip_file-encd :
    (x : Bytes) (ds : List Bytes) → IsFreeOf slash x → strip_file (x ++ encd ds) ≡ encd ds
unfolding strip_file
strip_file-encd [] [] h = refl
strip_file-encd [] (d ∷ ds) h = refl
strip_file-encd (c ∷ x) ds h = rw (h.0) (strip_file-encd x ds h.1)

eat_file-encd : (x : Bytes) (ds : List Bytes) → IsFreeOf slash x → eat_file (x ++ encd ds) ≡ encd ds
unfolding eat_file
eat_file-encd [] [] h = refl
eat_file-encd [] (d ∷ ds) h = refl
eat_file-encd (c ∷ x) ds h = rw (h.0) (strip_file-encd x ds h.1)

pub at_dir-encd : (ds : List Bytes) → at_dir (encd ds) ≡ encd ds
unfolding at_dir
at_dir-encd [] = refl
at_dir-encd (d ∷ ds) = refl

pub reverse-IsFreeOf : (c : ℕ) (s : Bytes) → IsFreeOf c s → IsFreeOf c (reverse s)
reverse-IsFreeOf c [] h = tt
reverse-IsFreeOf c (x ∷ s) h =
    rw (reverse-append (x ∷ []) s)
      (All-append _ (reverse s) (x ∷ []) (reverse-IsFreeOf c s h.1) (h.0, tt))

pub eat_dir-encd :
    (ds : List Bytes) → All (IsFreeOf slash) ds → eat_dir (encd ds) ≡ encd (parent ds)
unfolding eat_dir
eat_dir-encd [] h = unfold eat_file in refl
eat_dir-encd (d ∷ ds) h =
    rw (eat_file-encd [] (d ∷ ds) tt) (eat_file-encd (reverse d) ds (reverse-IsFreeOf slash d h.0))

pub skip_slashes-join :
    (t : Bytes) (ts : List Bytes)
    → IsFreeOf slash t
    → IsSolid (t ∷ ts)
    → skip_slashes (join_by slash (t ∷ ts)) ≡ join_by slash (t ∷ ts)
unfolding skip_slashes
skip_slashes-join [] [] h n = refl
skip_slashes-join (c ∷ t) [] h n = rw (h.0)
skip_slashes-join [] (u ∷ ts) h n = absurd (n.0 refl)
skip_slashes-join (c ∷ t) (u ∷ ts) h n = rw (h.0)
