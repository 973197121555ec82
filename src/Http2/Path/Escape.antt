-- ===== src/Http2/Path/Escape.antt =====
-- http2.cc: path_join on a dot segment with two slashes behind it.
use mathlib.Core.List.{reverse, reverse-append, reverse-reverse}
use maock.Prelude.{ℕ, suc, ◌≡◌, refl, [], ◌∷◌, ◌++◌, append-nil, length}
use maock.Bytes.{Bytes}
use maock.Util.Host.{before, behind}
use maock.Util.Host.Split.{IsFreeOf}
use maock.Http2.Path.{
  slash, classify, skip_slashes, at_dir, copy_segment, join_step, join_loop, path_join, clean_path,
}
use maock.Http2.Path.Clean.{behind-none}
use maock.Http2.Path.Segments.{kind, name, head_of_last, classify-last}

skip_slashes-name : (s : Bytes) → IsFreeOf slash s → skip_slashes s ≡ s
unfolding skip_slashes
skip_slashes-name [] h = refl
skip_slashes-name (c ∷ s) h = rw (h.0)

join_loop-dot :
    (f : ℕ) (s : Bytes)
    → join_loop (suc f) (slash ∷ []) (b'.' ∷ slash ∷ slash ∷ s)
      ≡ join_loop f (slash ∷ []) (slash ∷ s)
unfolding join_loop classify join_step
join_loop-dot f s = refl

join_loop-slash :
    (f : ℕ) (s : Bytes)
    → join_loop (suc f) (slash ∷ []) (slash ∷ s) ≡ join_loop f (slash ∷ slash ∷ []) (skip_slashes s)
unfolding join_loop classify join_step copy_segment at_dir before behind
join_loop-slash f s = refl

join_loop-name :
    (f : ℕ) (s : Bytes)
    → IsFreeOf slash s
    → kind s ≡ name
    → join_loop (suc f) (slash ∷ slash ∷ []) s ≡ reverse s ++ (slash ∷ slash ∷ [])
unfolding join_loop join_step copy_segment head_of_last at_dir
join_loop-name f s h k = rw (classify-last s h, k, behind-none s h)

-- For every text without a slash that is neither empty nor one or two dots, the path `/.//segment` becomes `//segment`.
pub clean_path_escape :
    (s : Bytes)
    → IsFreeOf slash s
    → kind s ≡ name
    → clean_path (slash ∷ b'.' ∷ slash ∷ slash ∷ s) ≡ slash ∷ slash ∷ s
unfolding path_join skip_slashes
clean_path_escape s h k = rw (
  join_loop-dot (suc (suc (suc (suc (length s))))) s,
  join_loop-slash (suc (suc (suc (length s)))) s,
  skip_slashes-name s h,
  join_loop-name (suc (suc (length s))) s h k,
  append-nil (reverse (reverse s ++ (slash ∷ slash ∷ []))),
  reverse-append (reverse s) (slash ∷ slash ∷ []),
  reverse-reverse s,
)
