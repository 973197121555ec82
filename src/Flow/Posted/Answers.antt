-- ===== src/Flow/Posted/Answers.antt =====
-- asio_util.cc: the answers that are posted against those of the callback itself.
use maock.Prelude.{ℕ, ◌≡◌, refl, Bool, true, false, Option, none, some, List, []}
use maock.Bytes.{Bytes}
use maock.Prelude.Partial.{◌>>=◌}
use maock.Response.Pointer.{Json}
use maock.Message.{Message}
use maock.Stream.Reply.{Action}
use maock.Stream.Connection.{Streams}
use maock.Flow.{send_response, close_stream_of}
use maock.Flow.Callback.{
  ServerResponse, Texts, Thread, Result, offloaded, answered, runs_lua, offloads_lua, lookup,
  status_name, set_at, answer_with, answer_lua,
}
use maock.Flow.Posted.{run_posted, update_response_with_lua, send_response_from_another_thread}

module _ (full_match : Bytes → Bytes → Bool) (search : Bytes → Bytes → Option Bytes) (json : Json)
    (run_lua : ServerResponse → Message json → Texts → Texts) (atoi : Bytes → ℕ)
    (accepted : Bool) where
  -- The answer of a response whose Lua function runs in a job, posted and run on the streams `c`
  -- where the counter of the response stands at its old value.
  abbrev pub answer_offloaded :
      ℕ → ℕ → ServerResponse → Message json → Texts → ℕ → Option Streams → Thread → Option Result
  answer_offloaded i j r m texts id c t =
      update_response_with_lua json run_lua atoi r m texts true id >>= λ p.
      let (c', acts, sent) = run_posted accepted p c (t.response_sent i j) in
      some (record t { response_sent = set_at t.response_sent i j sent }, c', acts, answered i j)

  -- The variable of the thread that keeps the trailers is left out of the comparison.
  abbrev pub visible : Option Result → Option (ℕ → ℕ → ℕ) × Option (Option Streams × List Action)
  visible none = (none, none)
  visible (some (t, c, acts, o)) = (some t.response_sent, some (c, acts))

  -- Where a response runs its Lua function, which gives no trailers and does not depend on the mode:
  -- with offloading, the callback itself changes nothing and asks for nothing, and the job posts an
  -- answer that, on the streams and the counter of that time, leaves the same streams, asks for the
  -- same and counts the same as the callback does without offloading. A job without a server thread
  -- posts nothing.
  pub answer_offloaded-answer_lua :
      (i j : ℕ) (r : ServerResponse) (m : Message json) (texts : Texts) (id : ℕ)
      (c : Option Streams) (t : Thread)
      → run_lua (record r { lua = offloads_lua }) m texts
        ≡ run_lua (record r { lua = runs_lua }) m texts
      → (run_lua (record r { lua = runs_lua }) m texts).1 ≡ []
      → (answer_lua full_match search json run_lua atoi accepted i j
            (record r { lua = offloads_lua })
            m
            texts
            id
            c
            t
          ≡ some (t, c, [], offloaded i j))
        × (visible (answer_offloaded i j (record r { lua = offloads_lua }) m texts id c t)
            ≡ visible (
                answer_lua full_match search json run_lua atoi accepted i j
                  (record r { lua = runs_lua })
                  m
                  texts
                  id
                  c
                  t))
        × (update_response_with_lua json run_lua atoi r m texts false id ≡ none)
  unfolding answer_lua answer_with update_response_with_lua run_posted
  answer_offloaded-answer_lua i j r m texts id c t same none_left =
      (refl, rw (same, none_left) refl, refl)

-- An answer that another thread posts without a status header, where atoi reads an empty text as 0:
-- it closes its stream, asks the connection for nothing, and is not counted.
send_response_from_another_thread-close :
    (atoi : Bytes → ℕ) (accepted : Bool) (id : ℕ) (resp_headers : List (Bytes × Bytes))
    (resp_payload : Bytes) (trailer_headers : List (Bytes × Bytes)) (c : Option Streams) (sent : ℕ)
    → atoi [] ≡ 0
    → lookup status_name resp_headers ≡ none
    → (send_response_from_another_thread atoi true id resp_headers resp_payload trailer_headers
        >>= λ p. some (run_posted accepted p c sent))
      ≡ some (close_stream_of id c, [], sent)
unfolding send_response_from_another_thread run_posted send_response close_stream_of
send_response_from_another_thread-close atoi accepted id resp_headers resp_payload trailer_headers
      none sent zero_status missing =
    refl
send_response_from_another_thread-close atoi accepted id resp_headers resp_payload trailer_headers
      (some c) sent zero_status missing =
    rw (missing, zero_status) refl
