-- ===== src/Stream/Http1/Rendered.antt =====
-- asio_server_http1_handler.cc: the bytes of a response.
use mathlib.Core.List.{flatten}
use maock.Prelude.{
  ℕ, zero, suc, ◌+◌, ◌-◌, ◌≤◌, ◌<◌, ◌≡◌, refl, sym, inl, inr, Bool, true, false, not, ◌&&◌, Option,
  none, some, List, [], ◌∷◌, ◌++◌, arith, ltb, if◌then◌else◌, Bool-cases, length, drop,
  length-append, length-drop,
}
use maock.Prelude.Partial.{◌>>=◌}
use maock.Bytes.{Bytes}
use maock.Stream.Reply.{Headers, string, Reply, expects_body}
use maock.Stream.Reply.Body.{read_last, read_more}
use maock.Stream.Connection.{Stream}
use maock.Stream.Http1.{
  Output, copy_to, inc_step, inc_buffer_size, emit_sized, crlf, content_length, has_header,
  status_line, length_line, header_line, write_headers, write_head, read_to, read_rest, write_body,
  write_response,
}
use maock.Stream.Http1.Buffer.{
  filled, Fills, copy_to-filled, Fills-then, Fills-nothing, emit_sized-Fills, length-flatten,
}

-- The bytes of a head: the status line, a content-length if it is needed, the headers, an empty line.
abbrev pub headers_text : Headers → Bytes
headers_text [] = []
headers_text ((name, v) ∷ h) = flatten (header_line name v.value) ++ headers_text h

abbrev pub needs_length : Reply → Bool
needs_length res = not (has_header content_length res.header) && ltb 0 res.payload_size

abbrev pub head_text : Bool → Reply → Bytes
head_text keep_alive res =
    flatten (status_line keep_alive res.status_code)
    ++ ((if needs_length res then flatten (length_line res.payload_size) else [])
        ++ (headers_text res.header ++ flatten (crlf ∷ [])))

-- The bytes of a response whose generator holds `body`.
abbrev pub response_text : Bool → Stream → Bytes → Bytes
response_text keep_alive strm body =
    head_text keep_alive strm.response
    ++ (if expects_body strm.request.method true strm.response.status_code then body else [])

emit_flat-Fills :
    (ss : List Bytes) (w t : Bytes)
    → length (flatten ss) ≤ length t
    → Fills w (flatten ss) t (emit_sized ss (filled w t))
emit_flat-Fills ss w t h = emit_sized-Fills ss w t (omega (arith, h, length-flatten ss))

write_headers-Fills :
    (h : Headers) (w t : Bytes)
    → length (headers_text h) ≤ length t
    → Fills w (headers_text h) t (write_headers h (filled w t))
unfolding write_headers
write_headers-Fills [] w t l = Fills-nothing w t
write_headers-Fills ((name, v) ∷ h) w t l =
    let line = flatten (header_line name v.value) in
    let sum = length-append line (headers_text h) in
    Fills-then w line (headers_text h) t (emit_sized (header_line name v.value) (filled w t))
      (write_headers h) (emit_flat-Fills (header_line name v.value) w t (omega (arith, l, sum)))
      (λ t' k. write_headers-Fills h (w ++ line) t' (omega (arith, l, sum, k)))

-- The optional length line.
abbrev write_length : Reply → Output → Option Output
write_length res o =
    if needs_length res then emit_sized (length_line res.payload_size) o else some o

abbrev length_text : Reply → Bytes
length_text res = if needs_length res then flatten (length_line res.payload_size) else []

write_length-Fills :
    (res : Reply) (w t : Bytes)
    → length (length_text res) ≤ length t
    → Fills w (length_text res) t (write_length res (filled w t))
write_length-Fills res w t l = elim (Bool-cases (needs_length res)) [
  | inl needed ↦ rw needed (emit_flat-Fills (length_line res.payload_size) w t (rw needed at l))
  | inr not_needed ↦ rw not_needed (Fills-nothing w t)
]

write_head-Fills :
    (keep_alive : Bool) (res : Reply) (w t : Bytes)
    → length (head_text keep_alive res) ≤ length t
    → Fills w (head_text keep_alive res) t (write_head keep_alive res (filled w t))
unfolding write_head
write_head-Fills keep_alive res w t l =
    let first = status_line keep_alive res.status_code in
    let s = flatten first in
    let n = length_text res in
    let h = headers_text res.header in
    let e = flatten (crlf ∷ []) in
    let outer = length-append s (n ++ (h ++ e)) in
    let middle = length-append n (h ++ e) in
    let inner = length-append h e in
    Fills-then w s (n ++ (h ++ e)) t (emit_sized first (filled w t))
      (λ o1. write_length res o1 >>= λ o2.
        write_headers res.header o2 >>= λ o3. emit_sized (crlf ∷ []) o3)
      (emit_flat-Fills first w t (omega (arith, l, outer)))
      (λ t1 l1.
        Fills-then (w ++ s) n (h ++ e) t1 (write_length res (filled (w ++ s) t1))
          (λ o2. write_headers res.header o2 >>= λ o3. emit_sized (crlf ∷ []) o3)
          (write_length-Fills res (w ++ s) t1 (omega (arith, l, outer, middle, l1)))
          (λ t2 l2.
            Fills-then ((w ++ s) ++ n) h e t2 (write_headers res.header (filled ((w ++ s) ++ n) t2))
              (emit_sized (crlf ∷ []))
              (write_headers-Fills res.header ((w ++ s) ++ n) t2
                (omega (arith, l, outer, middle, inner, l1, l2)))
              (λ t3 l3.
                emit_flat-Fills (crlf ∷ []) (((w ++ s) ++ n) ++ h) t3
                  (omega (arith, l, outer, middle, inner, l1, l2, l3)))))

write_body-Fills :
    (fuel : ℕ) (res : Reply) (body w t : Bytes)
    → res.generator ≡ some (string body)
    → length body ≤ length t
    → Fills w body t (write_body fuel (filled w t) res >>= λ r. some r.0)
unfolding write_body read_to
write_body-Fills fuel res body w t g l =
    let room : length (w ++ t) - length w ≡ length t = omega (arith, length-append w t) in
    let got = read_last (length t) body res g l in
    let sum : length w + length body ≡ length (w ++ body) = sym (length-append w body) in
    (
      drop (length body) t,
      rw (write_body, room, got, copy_to-filled w body t l, sum) refl,
      omega (arith, l, length-drop (length body) t),
    )

-- A body that does not fit in a buffer of at least 16 KiB: the later reads get no byte.
pub read_rest-stuck :
    (fuel : ℕ) (res : Reply) (left buffer : Bytes)
    → res.generator ≡ some (string left)
    → 0 < length left
    → inc_step ≤ length buffer
    → read_rest fuel (buffer, length buffer) res ≡ none
unfolding read_rest read_to inc_buffer_size copy_to
read_rest-stuck zero res left buffer g l m = refl
read_rest-stuck (suc fuel) res left buffer g l m =
    let kept : ltb (length buffer) inc_step ≡ false = ground (arith, m) in
    let full : length buffer - length buffer ≡ 0 = omega arith in
    let got = read_more 0 left res g l in
    let same : length buffer + 0 ≡ length buffer = omega arith in
    let later =
      read_rest-stuck fuel (record res { generator = some (string left) }) left buffer refl l m in
    rw (kept, full, got, same) later

-- One response of which head and body fit in the room of the buffer: whatever the fuel, its bytes are
-- written behind those that are there, and nothing else is changed.
pub write_response-Fills :
    (fuel : ℕ) (keep_alive : Bool) (strm : Stream) (body w t : Bytes)
    → strm.response.generator ≡ some (string body)
    → length (response_text keep_alive strm body) ≤ length t
    → Fills w
        (response_text keep_alive strm body)
        t
        (write_response fuel keep_alive strm (filled w t))
unfolding write_response
write_response-Fills fuel keep_alive strm body w t g l =
    let head = head_text keep_alive strm.response in
    let expected = expects_body strm.request.method true strm.response.status_code in
    let rest = if expected then body else [] in
    let sum = length-append head rest in
    let room : (t' : Bytes) → length t ≡ length head + length t' → length rest ≤ length t' =
      λ t' k. omega (arith, l, sum, k) in
    Fills-then w head rest t (write_head keep_alive strm.response (filled w t))
      (λ o. if expected then (write_body fuel o strm.response >>= λ r. some r.0) else some o)
      (write_head-Fills keep_alive strm.response w t (omega (arith, l, sum)))
      (λ t' k. elim (Bool-cases expected) [
        | inl with_body ↦ rw with_body (
            write_body-Fills fuel strm.response body (w ++ head) t' g (rw with_body at (room t' k)))
        | inr without ↦ rw without (Fills-nothing (w ++ head) t')
      ])
