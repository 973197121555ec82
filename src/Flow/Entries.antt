-- ===== src/Flow/Entries.antt =====
-- send_response of asio_util.cc: the headers that it writes, entry by entry.
use maock.Prelude.{
  ℕ, ◌+◌, ◌≡◌, refl, inl, inr, Bool, true, false, not, ◌&&◌, ◌||◌, List, [], ◌∷◌, ◌++◌, arith,
  if◌then◌else◌, Bool-cases, length,
}
use maock.Bytes.{Bytes, is_empty, eqb}
use maock.Bytes.Decimal.{to_decimal}
use maock.Stream.Reply.{HeaderValue, Headers}
use maock.Stream.Request.{emplace}
use maock.Flow.{to_header_map, has_header, content_length, no_entries, response_headers}

-- How many entries pass a test. Lists with the same count for every test have the same entries.
abbrev pub count_in : (Bytes × HeaderValue → Bool) → Headers → ℕ
count_in test [] = 0
count_in test (e ∷ h) = count_in test h + (if test e then 1 else 0)

abbrev pub entries : List (Bytes × Bytes) → Headers
entries [] = []
entries ((name, value) ∷ hs) = (name, record { value = value; sensitive = false }) ∷ entries hs

abbrev has_name : Bytes → List (Bytes × Bytes) → Bool
has_name name [] = false
has_name name ((k, v) ∷ hs) = eqb k name || has_name name hs

-- The content-length that is added: the number of bytes of a payload that is not empty, where the
-- headers have none and there are no trailers.
abbrev pub added_length : List (Bytes × Bytes) → Bytes → List (Bytes × Bytes) → List (Bytes × Bytes)
added_length hs payload [] =
    if is_empty payload || has_name content_length hs
    then []
    else (content_length, to_decimal (length payload)) ∷ []
added_length hs payload (t ∷ trailers) = []

count_in-emplace :
    (test : Bytes × HeaderValue → Bool) (name : Bytes) (v : HeaderValue) (h : Headers)
    → count_in test (emplace name v h) ≡ count_in test h + (if test (name, v) then 1 else 0)
unfolding emplace
count_in-emplace test name v [] = refl
count_in-emplace test name v ((k, w) ∷ h) = ground (arith, count_in-emplace test name v h)

count_in-to_header_map :
    (test : Bytes × HeaderValue → Bool) (hs : List (Bytes × Bytes)) (h : Headers)
    → count_in test (to_header_map hs h) ≡ count_in test h + count_in test (entries hs)
unfolding to_header_map
count_in-to_header_map test [] h = omega arith
count_in-to_header_map test ((name, value) ∷ hs) h =
    let v : HeaderValue = record { value = value; sensitive = false } in
    omega (arith, count_in-to_header_map test hs (emplace name v h), count_in-emplace test name v h)

has_header-emplace :
    (name k : Bytes) (v : HeaderValue) (h : Headers)
    → has_header name (emplace k v h) ≡ (eqb k name || has_header name h)
unfolding has_header emplace
has_header-emplace name k v [] = refl
has_header-emplace name k v ((l, w) ∷ h) = ground (arith, has_header-emplace name k v h)

has_header-to_header_map :
    (name : Bytes) (hs : List (Bytes × Bytes)) (h : Headers)
    → has_header name (to_header_map hs h) ≡ (has_header name h || has_name name hs)
unfolding to_header_map
has_header-to_header_map name [] h = ground arith
has_header-to_header_map name ((k, value) ∷ hs) h =
    let v : HeaderValue = record { value = value; sensitive = false } in
    ground (arith, has_header-to_header_map name hs (emplace k v h), has_header-emplace name k v h)

count_in-append :
    (test : Bytes × HeaderValue → Bool) (hs ks : List (Bytes × Bytes))
    → count_in test (entries (hs ++ ks)) ≡ count_in test (entries hs) + count_in test (entries ks)
count_in-append test [] ks = omega arith
count_in-append test ((k, v) ∷ hs) ks = omega (arith, count_in-append test hs ks)

pub trailers-entries :
    (test : Bytes × HeaderValue → Bool) (hs : List (Bytes × Bytes))
    → count_in test (to_header_map hs []) ≡ count_in test (entries hs)
trailers-entries test hs = omega (arith, count_in-to_header_map test hs [])

abbrev as_value : Bytes → HeaderValue
as_value value = record { value = value; sensitive = false }

-- What adding an entry under a condition changes.
count_in-added :
    (test : Bytes × HeaderValue → Bool) (b : Bool) (v : HeaderValue) (h : Headers)
    → count_in test (if b then emplace content_length v h else h)
      ≡ count_in test h + (if b then if test (content_length, v) then 1 else 0 else 0)
count_in-added test true v h = count_in-emplace test content_length v h
count_in-added test false v h = omega arith

-- The condition of the code, from the entries that were given.
is_added : (hs : List (Bytes × Bytes)) (payload : Bytes) (trailers : List (Bytes × Bytes)) → Bool
is_added hs payload trailers =
    not (is_empty payload)
    && not (has_header content_length (to_header_map hs []))
    && no_entries trailers

count_in-added_length :
    (test : Bytes × HeaderValue → Bool) (hs : List (Bytes × Bytes)) (payload : Bytes)
    (trailers : List (Bytes × Bytes))
    → count_in test (entries (added_length hs payload trailers)) ≡ (
        if is_added hs payload trailers
        then if test (content_length, as_value (to_decimal (length payload))) then 1 else 0
        else 0)
unfolding is_added
count_in-added_length test hs payload (t ∷ trailers) =
    elim (Bool-cases (
      not (is_empty payload)
      && not (has_header content_length (to_header_map hs []))
      && no_entries (t ∷ trailers))) [ inl b ↦ absurd (ground arith) | inr b ↦ rw b refl ]
count_in-added_length test hs payload [] =
    let same : has_header content_length (to_header_map hs []) ≡ has_name content_length hs =
      unfold has_header in has_header-to_header_map content_length hs [] in
    elim (Bool-cases (is_empty payload)) [
      | inl e ↦ rw e refl
      | inr e ↦ elim (Bool-cases (has_name content_length hs)) [
        | inl n ↦ rw (e, same, n) refl
        | inr n ↦ rw (e, same, n) (omega arith)
      ]
    ]

-- The headers have exactly the entries that were given and the content-length where one is added.
pub response_headers-entries :
    (test : Bytes × HeaderValue → Bool) (hs : List (Bytes × Bytes)) (payload : Bytes)
    (trailers : List (Bytes × Bytes))
    → count_in test (response_headers hs payload trailers)
      ≡ count_in test (entries (hs ++ added_length hs payload trailers))
response_headers-entries test hs payload trailers =
    let v = as_value (to_decimal (length payload)) in
    let made : count_in test (response_headers hs payload trailers)
        ≡ count_in test (to_header_map hs [])
          + (if is_added hs payload trailers
              then if test (content_length, v) then 1 else 0
              else 0) =
      unfold response_headers is_added in
      count_in-added test (is_added hs payload trailers) v (to_header_map hs []) in
    omega (
      arith,
      made,
      trailers-entries test hs,
      count_in-append test hs (added_length hs payload trailers),
      count_in-added_length test hs payload trailers,
    )
