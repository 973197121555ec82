-- ===== src/Response/Argument/Substring.antt =====
-- H2Server_Response.h: the sub-string of the value of an argument.
use maock.Prelude.{
  ℕ, ◌≡◌, ap, ◌∙◌, inl, inr, not, ◌&&◌, ◌||◌, [], ◌++◌, append-nil, arith, ltb, if◌then◌else◌,
  Bool-cases, length, take, drop, take-append-drop,
}
use maock.Prelude.Int.{ℤ, pos, negsuc}
use maock.Bytes.{Bytes, substr}
use maock.Response.Argument.{count_of, is_minus_one, apply_substring}

-- A piece of a text, with what stands before and behind it.
abbrev pub IsPiece : Bytes → Bytes → Type 0
IsPiece r s = (pre : Bytes) × (post : Bytes) × (pre ++ (r ++ post) ≡ s)

substr-IsPiece : (s : Bytes) (from n : ℕ) → IsPiece (substr s from n) s
substr-IsPiece s from n = (
  take from s,
  drop n (drop from s),
  ap (λ (u : Bytes). take from s ++ u) (take-append-drop n (drop from s)) ∙ take-append-drop from s,
)

-- For every start and length, out of range and negative ones included, the sub-string is a piece
-- of the value.
pub apply_substring-IsPiece :
    (start count : ℤ) (s : Bytes) → IsPiece (apply_substring start count s) s
unfolding apply_substring
apply_substring-IsPiece (negsuc n) count s = ([], [], append-nil s)
apply_substring-IsPiece (pos start) count s =
    elim (Bool-cases ((ltb 0 start || not (is_minus_one count)) && ltb start (length s))) [
      | inl cut ↦ rw cut (substr-IsPiece s start (count_of count s))
      | inr whole ↦ rw whole ([], [], append-nil s)
    ]

-- Inside the value, a start and a length that are not negative give at most that many bytes from
-- there; from the end of the value on, the whole value comes back.
pub apply_substring_range :
    (start count : ℕ) (s : Bytes)
    → apply_substring (pos start) (pos count) s
      ≡ (if ltb start (length s) then take count (drop start s) else s)
unfolding apply_substring
apply_substring_range start count s = ground arith
