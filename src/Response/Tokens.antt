-- ===== src/Response/Tokens.antt =====
-- tokenize_string of H2Server_Response.h: a text is cut at each occurrence of its placeholder.
pub mod Join
use maock.Prelude.{ℕ, zero, suc, ◌+◌, Option, none, some, List, [], ◌∷◌, length, take, drop}
use maock.Bytes.{Bytes, find?}

-- One round of the loop: the token up to the position that was found, and the rest behind the
-- delimiter.
unfoldable pub token_at : (Bytes → List Bytes) → Bytes → Bytes → Option ℕ → List Bytes
token_at again delimiter rest none = rest ∷ []
token_at again delimiter rest (some i) = take i rest ∷ again (drop (i + length delimiter) rest)

unfoldable pub tokenize_from : ℕ → Bytes → Bytes → List Bytes
unfolding token_at find?
tokenize_from zero delimiter rest = []
tokenize_from (suc fuel) delimiter rest =
    token_at (tokenize_from fuel delimiter) delimiter rest (find? rest delimiter)

unfoldable pub tokenize_string : Bytes → Bytes → List Bytes
unfolding tokenize_from
tokenize_string source [] = source ∷ []
tokenize_string source (d ∷ ds) = tokenize_from (suc (length source)) (d ∷ ds) source
