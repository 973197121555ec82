-- ===== src/Util/Host.antt =====
-- util.cc: hosts, ports and lists in one text.
pub mod Split
use maock.Prelude.{ℕ, Bool, not, ◌&&◌, Option, none, some, List, [], ◌∷◌, ◌++◌, ◌==◌, if◌then◌else◌}
use maock.Bytes.{Bytes}
use maock.Bytes.Decimal.{to_decimal}

-- Up to the first `c`, and what stands behind it: std::find, with the end where there is none.
unfoldable pub before : ℕ → Bytes → Bytes
before c [] = []
before c (x ∷ s) = let later = x ∷ before c s in if x == c then [] else later

unfoldable pub behind : ℕ → Bytes → Option Bytes
behind c [] = none
behind c (x ∷ s) = let later = behind c s in if x == c then some s else later

-- split_str: the second loop, over the rest behind each delimiter
unfoldable pub split_str_from : ℕ → Bytes → Bytes → List Bytes
split_str_from delim item [] = item ∷ []
split_str_from delim item (c ∷ s) =
    if c == delim then item ∷ split_str_from delim [] s else split_str_from delim (item ++ c ∷ []) s

unfoldable pub split_str : Bytes → ℕ → List Bytes
unfolding split_str_from
split_str s delim = split_str_from delim [] s

-- A pair of empty texts.
abbrev pub nothing : Bytes × Bytes
nothing = ([], [])

-- split_hostport behind the closing bracket
unfoldable pub split_bracketed : Bytes → Option Bytes → Bytes × Bytes
split_bracketed host none = nothing
split_bracketed host (some []) = (host, [])
split_bracketed host (some (c ∷ [])) = nothing
split_bracketed host (some (c ∷ d ∷ port)) = if c == b':' then (host, d ∷ port) else nothing

-- split_hostport behind the host
unfoldable pub split_plain : Bytes → Option Bytes → Bytes × Bytes
split_plain [] rest = nothing
split_plain (h ∷ host) none = (h ∷ host, [])
split_plain (h ∷ host) (some []) = nothing
split_plain (h ∷ host) (some (p ∷ port)) = (h ∷ host, p ∷ port)

unfoldable pub split_hostport : Bytes → Bytes × Bytes
split_hostport [] = nothing
split_hostport (c ∷ s) =
    if c == b'['
    then split_bracketed (before b']' s) (behind b']' s)
    else split_plain (before b':' (c ∷ s)) (behind b':' (c ∷ s))

-- extract_host behind the closing bracket
unfoldable pub extract_bracketed : Bytes → Option Bytes → Bytes
extract_bracketed host none = []
extract_bracketed host (some []) = b'[' ∷ (host ++ b']' ∷ [])
extract_bracketed host (some (c ∷ rest)) = if c == b':' then b'[' ∷ (host ++ b']' ∷ []) else []

-- extract_host, of a text that is not empty: the source reads its first byte
unfoldable pub extract_host : Bytes → Bytes
extract_host [] = []
extract_host (c ∷ s) =
    if c == b'[' then extract_bracketed (before b']' s) (behind b']' s) else before b':' (c ∷ s)

-- inet_pton(AF_INET6, …) of the system tells whether a host is an IPv6 address.
module _ (ipv6_numeric_addr : Bytes → Bool) where
  abbrev pub bracketed : Bytes → Bytes
  bracketed host = if ipv6_numeric_addr host then b'[' ∷ (host ++ b']' ∷ []) else host

  unfoldable pub make_hostport : Bytes → ℕ → Bytes
  make_hostport host port = bracketed host ++ (b':' ∷ to_decimal port)

  -- Without the port where it is 80 or 443.
  unfoldable pub make_http_hostport : Bytes → ℕ → Bytes
  unfolding make_hostport
  make_http_hostport host port =
      if not (port == 80) && not (port == 443) then make_hostport host port else bracketed host
