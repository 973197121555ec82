-- ===== src/Stream/Http1/Answered.antt =====
-- asio_server_http1_handler.cc: a connection, and the streams that it answered so far.
use maock.Prelude.{
  ℕ, ◌+◌, ◌^◌, ◌≤◌, ◌<◌, ◌≡◌, sym, Bool, true, false, some, List, [], ◌++◌, arith, All, last_or,
}
use mathlib.Core.Path.{subst}
use maock.Stream.Connection.{Stream, find_stream, close_stream, put_stream}
use maock.Stream.Http1.{Handler, Output, begin_message, start_response, on_write}
use maock.Stream.Http1.Order.{Ascends, has, keys-put}
use maock.Stream.Http1.Ordered.{
  IsOrdered, begin_message-IsOrdered, start_response-IsOrdered, closes-IsOrdered,
  on_write-IsOrdered,
}

-- A handler of a new connection.
abbrev pub new_handler : Handler
new_handler = record {
  streams = [];
  request_count = 0;
  stream_ids_to_respond = [];
  should_keep_alive = true;
}

-- The handlers that callbacks, responses and writes lead to, with the ids that were answered, while
-- the ids are below 2^31. A stream
-- that waits to be written is not closed by others.
pub data Reach : List ℕ → Handler → Type 0 where
  connects : Reach [] new_handler
  begins :
      {done : List ℕ} {h h' : Handler}
      → Reach done h
      → h.request_count + 1 < 2 ^ 31
      → begin_message h ≡ some h'
      → Reach done h'
  keeps :
      {done : List ℕ} {h : Handler} (b : Bool)
      → Reach done h
      → Reach done (record h { should_keep_alive = b })
  changes :
      {done : List ℕ} {h : Handler} (id : ℕ) (s : Stream)
      → Reach done h
      → Reach done (record h { streams = put_stream id s h.streams })
  closes :
      {done : List ℕ} {h : Handler} (id : ℕ)
      → Reach done h
      → has id h.stream_ids_to_respond ≡ false
      → Reach done (record h { streams = close_stream id h.streams })
  starts :
      {done : List ℕ} {h : Handler} (id : ℕ) (s : Stream)
      → Reach done h
      → find_stream id h.streams ≡ some s
      → Reach done (start_response id h)
  writes :
      {done ids : List ℕ} {h h' : Handler} {o : Output} (fuel : ℕ) (buffer : List ℕ)
      → Reach done h
      → on_write fuel buffer h ≡ some (ids, h', o)
      → Reach (done ++ ids) h'

-- On a connection of fewer than 2^31 requests, whatever requests come, whichever responses start, in whatever order, and whichever other streams
-- are closed: the responses that a connection has written are those of different requests, in the
-- order in which the requests came; every stream that is still open came after all of them; and
-- each stream whose response waits to be written is open.
pub Reach-IsOrdered : {done : List ℕ} {h : Handler} → Reach done h → IsOrdered done h
Reach-IsOrdered connects = (tt, tt, tt, λ j e. absurd (ground arith), tt, tt)
Reach-IsOrdered (begins {done} {h} {h'} r small e) =
    begin_message-IsOrdered done h h' (Reach-IsOrdered r) small e
Reach-IsOrdered (keeps b r) = Reach-IsOrdered r
Reach-IsOrdered (changes {done} {h} id s r) =
    subst
      (λ ks.
        Ascends 0 done
        × Ascends (last_or 0 done) ks
        × Ascends 0 h.stream_ids_to_respond
        × ((j : ℕ) → has j h.stream_ids_to_respond ≡ true → has j ks ≡ true)
        × All (λ k. k ≤ h.request_count) done
        × All (λ k. k ≤ h.request_count) ks)
      (sym (keys-put id s h.streams)) (Reach-IsOrdered r)
Reach-IsOrdered (closes {done} {h} id r idle) = closes-IsOrdered done h id (Reach-IsOrdered r) idle
Reach-IsOrdered (starts {done} {h} id s r found) =
    start_response-IsOrdered done h id s (Reach-IsOrdered r) found
Reach-IsOrdered (writes {done} {ids} {h} {h'} {o} fuel buffer r e) =
    on_write-IsOrdered fuel buffer done ids h h' o (Reach-IsOrdered r) e
