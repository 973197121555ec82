-- ===== src/Http2/Path.antt =====
-- http2.cc: path_join, which also cleans a path. The buffer from res.base to `p` is a list with
-- the newest byte first.
pub mod Segments
pub mod Clean
pub mod Escape
pub mod Normal
use mathlib.Core.List.{reverse}
use maock.Prelude.{
  ℕ, zero, suc, ◌-◌, ◌*◌, not, Option, none, some, [], ◌∷◌, ◌++◌, ◌==◌, if◌then◌else◌, length,
}
use maock.Util.Host.{before, behind}
use maock.Bytes.{Bytes}

abbrev pub slash : ℕ
slash = b'/'

-- The loop of eat_file: back to behind the last slash; without one, the buffer is a slash.
unfoldable pub strip_file : Bytes → Bytes
strip_file [] = slash ∷ []
strip_file (c ∷ out) = let later = strip_file out in if c == slash then c ∷ out else later

unfoldable pub eat_file : Bytes → Bytes
eat_file [] = slash ∷ []
eat_file (c ∷ out) = if c == slash then c ∷ out else strip_file out

-- Without the newest byte, which is the slash that the assertion asks for.
abbrev pub pop : Bytes → Bytes
pop [] = []
pop (c ∷ out) = out

unfoldable pub eat_dir : Bytes → Bytes
eat_dir out = eat_file (pop (eat_file out))

-- The tests at the head of the loop.
pub data Head : Type 0 where
  finished dot_end dots_end plain : Head
  dot_slash dots_slash : Bytes → Head

abbrev pub after_dots : Bytes → Head
after_dots [] = dots_end
after_dots (c ∷ s) = if c == slash then dots_slash s else plain

abbrev pub after_dot : Bytes → Head
after_dot [] = dot_end
after_dot (c ∷ s) = if c == slash then dot_slash s else if c == b'.' then after_dots s else plain

unfoldable pub classify : Bytes → Head
classify [] = finished
classify (c ∷ s) = if c == b'.' then after_dot s else plain

unfoldable pub skip_slashes : Bytes → Bytes
skip_slashes [] = []
skip_slashes (c ∷ s) = let later = skip_slashes s in if c == slash then later else c ∷ s

-- `if (*(p - 1) != '/') p = eat_file(…)`; the buffer is not empty there.
unfoldable pub at_dir : Bytes → Bytes
at_dir [] = []
at_dir (c ∷ out) = if c == slash then c ∷ out else eat_file (c ∷ out)

-- The copy of a segment with its slash, or of the last one.
unfoldable pub copy_segment : (Bytes → Bytes → Bytes) → Bytes → Bytes → Option Bytes → Bytes
copy_segment again out rest none = reverse rest ++ out
copy_segment again out rest (some s) =
    again (slash ∷ (reverse (before slash rest) ++ out)) (skip_slashes s)

unfoldable pub join_step : (Bytes → Bytes → Bytes) → Head → Bytes → Bytes → Bytes
join_step again finished out rest = out
join_step again dot_end out rest = out
join_step again dots_end out rest = eat_dir out
join_step again plain out rest = copy_segment again (at_dir out) rest (behind slash rest)
join_step again (dot_slash s) out rest = again out s
join_step again (dots_slash s) out rest = again (eat_dir out) s

-- The loop. Each round but the last takes at least one byte of the rest.
unfoldable pub join_loop : ℕ → Bytes → Bytes → Bytes
join_loop zero out rest = out
join_loop (suc fuel) out rest = join_step (join_loop fuel) (classify rest) out rest

abbrev pub query_part : Bytes → Bytes
query_part [] = []
query_part (c ∷ q) = b'?' ∷ c ∷ q

-- With an empty rel_path the query is that of rel, or else that of base.
abbrev pub first_query : Bytes → Bytes → Bytes
first_query [] base_query = query_part base_query
first_query (c ∷ q) base_query = query_part (c ∷ q)

abbrev pub base_or_root : Bytes → Bytes
base_or_root [] = slash ∷ []
base_or_root (c ∷ s) = c ∷ s

-- The buffer and the rest at the head of the loop.
abbrev pub start_out : Bytes → Bytes → Bytes
start_out base_path [] = reverse (base_or_root base_path)
start_out base_path (c ∷ s) = if c == slash then slash ∷ [] else reverse (base_or_root base_path)

abbrev pub start_rest : Bytes → Bytes
start_rest [] = []
start_rest (c ∷ s) = if c == slash then skip_slashes s else c ∷ s

unfoldable pub path_join : Bytes → Bytes → Bytes → Bytes → Bytes
path_join base_path base_query [] rel_query =
    base_or_root base_path ++ first_query rel_query base_query
path_join base_path base_query (c ∷ rel_path) rel_query =
    reverse (
      join_loop (suc (suc (length rel_path))) (start_out base_path (c ∷ rel_path))
        (start_rest (c ∷ rel_path)))
    ++ query_part rel_query

-- What the request router asks for: a path with no base and no queries.
abbrev pub clean_path : Bytes → Bytes
clean_path path = path_join [] [] path []
