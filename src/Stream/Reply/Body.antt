-- ===== src/Stream/Reply/Body.antt =====
-- asio_server_response.cc and string_generator of asio_common.cc: reading a body to its end.
use maock.Prelude.{
  ℕ, ◌≤◌, ◌<◌, ◌≡◌, refl, inl, inr, Bool, true, false, not, Option, none, some, List, [], ◌∷◌, ◌++◌,
  arith, leb, if◌then◌else◌, Bool-cases, All, length, take, drop, drop_past, take_all,
  take-append-drop, length-drop,
}
use maock.Bytes.{Bytes, is_empty}
use maock.Stream.Reply.{
  Headers, string, Reply, Action, submit_trailer, no_headers, send_trailer, call_generator,
  call_read,
}

abbrev pub bytes_of : Option Bytes → Bytes
bytes_of none = []
bytes_of (some s) = s

-- The session reads with one buffer after the other until it is told the end: the bytes that it
-- gets, whether it was told, the response, and the actions on the way.
unfoldable pub read_until : List ℕ → Reply → Bytes × Bool × Reply × List Action
unfolding call_read
read_until [] r = ([], false, r, [])
read_until (len ∷ lens) r =
    let (d, r', acts) = call_read len r in
    let rest = read_until lens r' in
    if d.eof
    then (bytes_of d.bytes, true, r', acts)
    else (bytes_of d.bytes ++ rest.0, rest.1, rest.2, acts ++ rest.3)

-- What is asked of the handler for trailers at the end of a body.
abbrev pub trailer_actions : Headers → List Action
trailer_actions [] = []
trailer_actions (h ∷ hs) = submit_trailer (h ∷ hs) ∷ []

no_headers_nil : (t : Headers) → no_headers t ≡ true → t ≡ []
no_headers_nil [] e = refl
no_headers_nil (h ∷ t) e = absurd (ground arith)

trailer_actions_cons :
    (t : Headers) → no_headers t ≡ false → trailer_actions t ≡ submit_trailer t ∷ []
trailer_actions_cons [] e = absurd (ground arith)
trailer_actions_cons (h ∷ t) e = refl

pub read_last :
    (len : ℕ) (s : Bytes) (r : Reply)
    → r.generator ≡ some (string s)
    → length s ≤ len
    → call_read len r ≡ (
      record { bytes = some s; eof = true; no_end_stream = not (no_headers r.trailers) },
      record r { generator = none; trailers = [] },
      trailer_actions r.trailers,
    )
unfolding call_read call_generator send_trailer
read_last len s r g h =
    let gone : drop len s ≡ [] = drop_past len s h in
    let all : take len s ≡ s = take_all len s h in
    elim (Bool-cases (no_headers r.trailers)) [
      | inl empty ↦ let e = no_headers_nil r.trailers empty in ground (arith, gone, all, e)
      | inr more ↦ let e = trailer_actions_cons r.trailers more in ground (arith, gone, all, e)
    ]

pub read_more :
    (len : ℕ) (s : Bytes) (r : Reply)
    → r.generator ≡ some (string s)
    → len < length s
    → call_read len r ≡ (
      record { bytes = some (take len s); eof = false; no_end_stream = false },
      record r { generator = some (string (drop len s)) },
      [],
    )
unfolding call_read call_generator send_trailer
read_more len s r g h =
    let left : is_empty (drop len s) ≡ false =
      not_empty (drop len s) (omega (arith, length-drop len s)) in
    ground (arith, left)
  where
    not_empty : (u : Bytes) → 0 < length u → is_empty u ≡ false
    not_empty [] k = absurd (omega arith)
    not_empty (c ∷ u) k = refl

-- A body is read to its end: with buffers that are not empty, at least one and as many as the bytes
-- of the body, the session gets exactly the body and is told the end; the trailers, if there are
-- any, are submitted once, at the end; and neither body nor trailers are left.
pub read_until-body :
    (lens : List ℕ) (s : Bytes) (r : Reply)
    → r.generator ≡ some (string s)
    → All (λ n. 0 < n) lens
    → 0 < length lens
    → length s ≤ length lens
    → read_until lens r
      ≡ (s, true, record r { generator = none; trailers = [] }, trailer_actions r.trailers)
unfolding read_until
read_until-body [] s r g p n h = absurd (omega arith)
read_until-body (len ∷ lens) s r g p n h = elim (Bool-cases (leb (length s) len)) [
  | inl last ↦ rw (read_last len s r g (ground arith))
  | inr more ↦
      let r' = record r { generator = some (string (drop len s)) } in
      let d = length-drop len s in
      let rest =
        read_until-body lens (drop len s) r' refl p.1 (ground (arith, p.0))
          (ground (arith, d, p.0)) in
      rw (read_more len s r g (ground arith), rest) (rw (take-append-drop len s))
]
