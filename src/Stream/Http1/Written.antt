-- ===== src/Stream/Http1/Written.antt =====
-- on_write of asio_server_http1_handler.cc: the bytes of the responses that it takes.
use maock.Prelude.{
  ℕ, ◌+◌, ◌-◌, ◌≤◌, ◌<◌, ◌≡◌, refl, sym, Bool, Option, none, some, List, [], ◌∷◌, ◌++◌,
  append_assoc, append-nil, arith, length, take, drop, length-append, length-take, drop_past,
  length-drop,
}
use mathlib.Core.Path.{subst}
use maock.Prelude.Partial.{◌>>=◌, >>=-eq-some}
use maock.Bytes.{Bytes}
use maock.Stream.Reply.{Generator, deferred, string, Reply}
use maock.Stream.Reply.Body.{read_more}
use maock.Stream.Connection.{Stream, Streams, find_stream, close_stream}
use maock.Stream.Http1.{
  inc_step, read_to, write_body, write_responses, Handler, get_consecutive_stream_ids_to_respond,
  on_write,
}
use maock.Stream.Http1.Buffer.{filled, copy_to-filled}
use maock.Stream.Http1.Rendered.{response_text, write_response-Fills, read_rest-stuck}

-- The body that a generator holds.
abbrev pub held_body : Option Generator → Option Bytes
held_body none = none
held_body (some deferred) = none
held_body (some (string s)) = some s

abbrev pub close_all : List ℕ → Streams → Streams
close_all [] c = c
close_all (id ∷ ids) c = close_all ids (close_stream id c)

-- The bytes of the responses of a list of streams, one behind the other, where all of them are open
-- and hold their bodies.
unfoldable pub texts : Bool → List ℕ → Streams → Option Bytes
unfolding find_stream close_stream
texts keep_alive [] c = some []
texts keep_alive (id ∷ ids) c =
    let rest = texts keep_alive ids (close_stream id c) in
    (find_stream id c >>= λ strm. held_body strm.response.generator >>= λ body.
    rest >>= λ s. some (response_text keep_alive strm body ++ s))

held_body-string : (g : Option Generator) (s : Bytes) → held_body g ≡ some s → g ≡ some (string s)
held_body-string none s e = absurd (ground arith)
held_body-string (some deferred) s e = absurd (ground arith)
held_body-string (some (string b)) s e = ground (arith, e)

-- The responses behind the first one.
abbrev Follows : ℕ → Bool → List ℕ → Streams → Bytes → Bytes → Bytes → Type 0
Follows fuel keep_alive ids c s w t =
    (t' : Bytes) × (write_responses fuel keep_alive ids c (filled w t)
      ≡ some (close_all ids c, filled (w ++ s) t'))

write_responses-next :
    (fuel : ℕ) (keep_alive : Bool) (id : ℕ) (ids : List ℕ) (c : Streams) (strm : Stream)
    (body more w t : Bytes)
    → find_stream id c ≡ some strm
    → held_body strm.response.generator ≡ some body
    → length (response_text keep_alive strm body ++ more) ≤ length t
    → ((w' t' : Bytes)
        → length more ≤ length t'
        → Follows fuel keep_alive ids (close_stream id c) more w' t')
    → Follows fuel keep_alive (id ∷ ids) c (response_text keep_alive strm body ++ more) w t
unfolding write_responses
write_responses-next fuel keep_alive id ids c strm body more w t found holds fits next =
    let text = response_text keep_alive strm body in
    let sum = length-append text more in
    let (t1, wrote, l1) =
      write_response-Fills fuel keep_alive strm body w t
        (held_body-string strm.response.generator body holds) (omega (arith, fits, sum)) in
    let (t2, rest) = next (w ++ text) t1 (omega (arith, fits, sum, l1)) in
    (t2, rw (found, wrote, rest, sym (append_assoc w text more)) refl)

write_responses-texts :
    (fuel : ℕ) (keep_alive : Bool) (ids : List ℕ) (c : Streams) (s w t : Bytes)
    → texts keep_alive ids c ≡ some s
    → length s ≤ length t
    → Follows fuel keep_alive ids c s w t
unfolding write_responses texts
write_responses-texts fuel keep_alive [] c s w t e l =
    let none_left : s ≡ [] = ground (arith, e) in (t, rw (none_left, append-nil w) refl)
write_responses-texts fuel keep_alive (id ∷ ids) c s w t e l =
    let (strm, found, e1) = >>=-eq-some (find_stream id c) _ e in
    let (body, holds, e2) = >>=-eq-some (held_body strm.response.generator) _ e1 in
    let (more, others, e3) = >>=-eq-some (texts keep_alive ids (close_stream id c)) _ e2 in
    let all : response_text keep_alive strm body ++ more ≡ s = ground (arith, e3) in
    subst (λ u. Follows fuel keep_alive (id ∷ ids) c u w t) all
      (write_responses-next fuel keep_alive id ids c strm body more w t found holds
        (subst (λ u. length u ≤ length t) (sym all) l)
        (λ w' t' k.
          write_responses-texts fuel keep_alive ids (close_stream id c) more w' t' others k))

-- If a body is longer than the room behind the head, in a buffer of at least 16 KiB, then no fuel is
-- enough for write_body to return.
pub write_body-stuck :
    (fuel : ℕ) (res : Reply) (body w t : Bytes)
    → res.generator ≡ some (string body)
    → length t < length body
    → inc_step ≤ length w + length t
    → write_body fuel (filled w t) res ≡ none
unfolding write_body read_to
write_body-stuck fuel res body w t g l m =
    let room : length (w ++ t) - length w ≡ length t = omega (arith, length-append w t) in
    let got = read_more (length t) body res g l in
    let part = take (length t) body in
    let taken : length part ≡ length t = length-take (length t) body (omega (arith, l)) in
    let copied = copy_to-filled w part t (omega (arith, taken)) in
    let gone : drop (length part) t ≡ [] = drop_past (length part) t (omega (arith, taken)) in
    let b = w ++ part in
    let size : length w + length part ≡ length b = sym (length-append w part) in
    let left = drop (length t) body in
    let later =
      read_rest-stuck fuel (record res { generator = some (string left) }) left b refl
        (omega (arith, l, length-drop (length t) body)) (omega (arith, m, size, taken)) in
    rw (write_body, room, got, copied, gone, append-nil b, size) later

-- If on_write takes streams that are all open and hold their bodies, and the bytes of their responses
-- fit in the buffer: it returns, closes exactly these streams, and the first data_len bytes of the
-- buffer are the bytes of the responses, one behind the other in the order of the ids.
pub on_write-texts :
    (fuel : ℕ) (buffer : Bytes) (h : Handler) (s : Bytes)
    → texts h.should_keep_alive (get_consecutive_stream_ids_to_respond h).0 h.streams ≡ some s
    → length s ≤ length buffer
    → (t : Bytes) × (on_write fuel buffer h
        ≡ some (
          (get_consecutive_stream_ids_to_respond h).0,
          record h {
            streams = close_all (get_consecutive_stream_ids_to_respond h).0 h.streams;
            stream_ids_to_respond = (get_consecutive_stream_ids_to_respond h).1;
          },
          (s ++ t, length s),
        ))
unfolding on_write
on_write-texts fuel buffer h s e l =
    let ids = (get_consecutive_stream_ids_to_respond h).0 in
    let (t, done) = write_responses-texts fuel h.should_keep_alive ids h.streams s [] buffer e l in
    (t, rw (on_write, done) refl)
