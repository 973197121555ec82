-- ===== src/Memchunk/Queue.antt =====
-- memchunk.h: a chain against the queue of bytes that it stands for.
use maock.Prelude.{ℕ, ◌<◌, ◌≡◌, refl, Option, some, List, [], ◌∷◌, ◌++◌, length, take, drop}
use maock.Prelude.Partial.{◌>>=◌}
use maock.Bytes.{Bytes}
use maock.Memchunk.{
  Pool, Memchunks, least, new_memchunks, append_byte, append, drain, remove, reset,
}
use maock.Memchunk.Contents.{contents, IsValid, append-contents, append_byte-contents}
use maock.Memchunk.Removed.{drain-contents, remove-contents}

-- A call of a member function.
pub data Call : Type 0 where
  puts : Bytes → Call
  puts_byte : ℕ → Call
  removes : ℕ → Call
  drains : ℕ → Call
  resets : Call

pub data Reply : Type 0 where
  counted : ℕ → Reply
  removed : Bytes → Reply

-- The queue: the oldest byte first.
abbrev pub queue_call : Call → Bytes → Reply × Bytes
queue_call (puts s) q = (counted (length s), q ++ s)
queue_call (puts_byte c) q = (counted 1, q ++ (c ∷ []))
queue_call (removes n) q = (removed (take n q), drop n q)
queue_call (drains n) q = (counted (least n (length q)), drop n q)
queue_call resets q = (counted 0, [])

abbrev pub queue_run : List Call → Bytes → List Reply × Bytes
queue_run [] q = ([], q)
queue_run (c ∷ cs) q =
    let (r, q') = queue_call c q in let (rs, q'') = queue_run cs q' in (r ∷ rs, q'')

module _ (size : ℕ) where
  -- The same calls of a chain; `none` is a failing assertion.
  unfoldable pub call : Call → Memchunks → Pool → Option (Reply × Memchunks × Pool)
  call (puts s) b p = let (b', p') = append size s b p in some (counted (length s), b', p')
  call (puts_byte c) b p = let (b', p') = append_byte size c b p in some (counted 1, b', p')
  call (removes n) b p = remove n b p >>= λ r. some (removed r.0, r.1, r.2)
  call (drains n) b p = let (k, b', p') = drain n b p in some (counted k, b', p')
  call resets b p = let (b', p') = reset b p in some (counted 0, b', p')

  unfoldable pub run : List Call → Memchunks → Pool → Option (List Reply × Memchunks × Pool)
  unfolding call
  run [] b p = some ([], b, p)
  run (c ∷ cs) b p =
      let later = run cs in (call c b p >>= λ r. later r.1 r.2 >>= λ s. some (r.0 ∷ s.0, s.1, s.2))

  -- The chain gives a reply, and is left with bytes.
  abbrev Gives {ℓ} : {R : Type ℓ} → R × Bytes → Option (R × Memchunks × Pool) → Type ℓ
  Gives s o =
      (b : Memchunks) × (p : Pool) × (o ≡ some (s.0, b, p))
      × (contents b.chunks ≡ s.1)
      × IsValid size b

  call-Gives :
      (c : Call) (b : Memchunks) (p : Pool)
      → 0 < size
      → IsValid size b
      → Gives (queue_call c (contents b.chunks)) (call c b p)
  unfolding call
  call-Gives (puts s) b p pos h =
      let (e, v) = append-contents size s b p pos h in
      ((append size s b p).0, (append size s b p).1, refl, e, v)
  call-Gives (puts_byte c) b p pos h =
      let (e, v) = append_byte-contents size c b p pos h in
      ((append_byte size c b p).0, (append_byte size c b p).1, refl, e, v)
  call-Gives (removes n) b p pos h =
      let (b', p', r, e, v) = remove-contents size n b p h in (b', p', rw r, e, v)
  call-Gives (drains n) b p pos h =
      let (k, e, v) = drain-contents size n b p h in
      ((drain n b p).1, (drain n b p).2, rw (k, h.1), e, v)
  call-Gives resets b p pos h =
      unfold reset new_memchunks in ((reset b p).0, (reset b p).1, refl, refl, (tt, refl))

  -- From a valid chain of chunks that are not of size 0, no sequence of calls tells the chain from
  -- the queue of its bytes: every call returns, with the same reply, no assertion fails, and at the
  -- end the chain is valid and holds the bytes of the queue.
  pub run_refines :
      (cs : List Call) (b : Memchunks) (p : Pool)
      → 0 < size
      → IsValid size b
      → (b' : Memchunks) × (p' : Pool) × (run cs b p
          ≡ some ((queue_run cs (contents b.chunks)).0, b', p'))
        × (contents b'.chunks ≡ (queue_run cs (contents b.chunks)).1)
        × IsValid size b'
  unfolding run
  run_refines [] b p pos h = (b, p, refl, refl, h)
  run_refines (c ∷ cs) b p pos h =
      let (b1, p1, first, e1, v1) = call-Gives c b p pos h in
      let (b2, p2, rest, e2, v2) = run_refines cs b1 p1 pos v1 in
      (b2, p2, rw (first, rest, e1), rw e1 at e2, v2)
