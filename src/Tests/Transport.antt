-- ===== src/Tests/Transport.antt =====
-- memchunk.h with chunks of four bytes, the header tables, and a response of a pushed stream.
use maock.Prelude.{ℕ, ◌≡◌, refl, true, false, none, some, List, [], ◌∷◌, arith}
use maock.Bytes.{Bytes, codes}
use maock.Memchunk.{Memchunks, Pool, new_pool, new_memchunks, append}
use maock.Memchunk.Contents.{contents, IsValid}
use maock.Memchunk.Queue.{
  Call, Reply, puts, puts_byte, removes, drains, queue_run, run, run_refines,
}
use maock.Memchunk.Owned.{held, made, run_owned}
use maock.Stream.Reply as R
use maock.Stream.Reply.{
  Headers, State, Action, Generator, deferred, string, new_reply, write_head, start, submit_trailer,
}
use maock.Stream.Reply.Started.{
  Reach, here, next, starts, is_started, one_if, Carries, writes_head, sends_promise, act,
  Reach-starts,
}
use maock.Stream.Reply.Body.{read_until, read_until-body}

abbrev calls : List Call
calls = puts (codes "hello") ∷ removes 3 ∷ puts_byte b'!' ∷ drains 2 ∷ removes 9 ∷ []

-- Five bytes take two chunks of four.
append-hello : contents (append 4 (codes "hello") new_memchunks new_pool).0.chunks ≡ codes "hello"
unfolding append new_memchunks new_pool
append-hello = refl

run_refines_example :
    (b' : Memchunks) × (p' : Pool) × (run 4 calls new_memchunks new_pool
      ≡ some ((queue_run calls []).0, b', p'))
    × (contents b'.chunks ≡ (queue_run calls []).1)
    × IsValid 4 b'
unfolding new_memchunks
run_refines_example = run_refines 4 calls new_memchunks new_pool (omega arith) (tt, refl)

run_owned_example :
    (rs : List Reply) × (b : Memchunks) × (p : Pool) × (run 4 calls new_memchunks new_pool
      ≡ some (rs, b, p))
    × ((i : ℕ) → held i b.chunks p ≡ made i p)
run_owned_example = run_owned 4 calls (omega arith)

abbrev put : Bytes
put = codes "PUT"

-- The head of a pushed stream is written before the promise is sent.
abbrev pushed_end : R.Reply
unfolding act
pushed_end = (act put true sends_promise (act put true (writes_head 201 []) (new_reply true)).0).0

abbrev pushed_acts : List Action
pushed_acts = start 201 [] ∷ []

pushed_end-Reach : Reach put true (new_reply true) pushed_acts pushed_end
unfolding act write_head new_reply R.push_promise_sent
pushed_end-Reach = next sends_promise (next (writes_head 201 []) here tt) refl

Reach-starts_example :
    (starts pushed_acts ≡ one_if (is_started pushed_end))
    × (pushed_end.pushed ≡ true)
    × Carries put true pushed_end pushed_acts
Reach-starts_example = Reach-starts put true pushed_end-Reach

abbrev body_reply : R.Reply
body_reply = record (new_reply false) { generator = some (string (codes "body")); trailers = [] }

read_until-body_example :
    read_until (3 ∷ 3 ∷ 3 ∷ 3 ∷ []) body_reply
    ≡ (codes "body", true, record body_reply { generator = none; trailers = [] }, [])
read_until-body_example =
    read_until-body (3 ∷ 3 ∷ 3 ∷ 3 ∷ []) (codes "body") body_reply refl
      (omega arith, (omega arith, (omega arith, (omega arith, tt)))) (omega arith) (omega arith)
