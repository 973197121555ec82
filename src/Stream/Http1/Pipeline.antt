-- ===== src/Stream/Http1/Pipeline.antt =====
-- asio_server_http1_handler.cc: the states that a connection can reach, and which streams it answered.
use maock.Prelude.{
  ℕ, ◌+◌, ◌≤◌, ◌≡◌, refl, inl, inr, Bool, true, some, List, [], ◌∷◌, ◌++◌, arith, ◌==◌, Bool-cases,
  All, last_or,
}
use maock.Prelude.Partial.{>>=-eq-some}
use maock.Stream.Connection.{Streams, find_stream, close_stream}
use maock.Stream.Http1.{Output, take_consecutive, write_response, write_responses}
use maock.Stream.Http1.Written.{close_all}
use maock.Stream.Http1.Order.{
  keys, Ascends, has, Ascends-lower, Ascends-above, Ascends-close, has-close,
}

Ascends-close_next :
    (k : ℕ) (c : Streams) → Ascends k (keys c) → Ascends (k + 1) (keys (close_stream (k + 1) c))
unfolding close_stream
Ascends-close_next k [] h = tt
Ascends-close_next k ((j, r) ∷ c) h = elim (Bool-cases (j == k + 1)) [
  | inl same ↦
      let e : j ≡ k + 1 = ground (arith, same) in
      rw same (
        Ascends-lower (k + 1) j (keys (close_stream (k + 1) c)) (omega (arith, e))
          (Ascends-close j (k + 1) c h.1))
  | inr other ↦ rw other (ground (arith, h.0, other), Ascends-close j (k + 1) c h.1)
]

pub Ascends-append :
    (n : ℕ) (a b : List ℕ) → Ascends n a → Ascends (last_or n a) b → Ascends n (a ++ b)
Ascends-append n [] b h k = k
Ascends-append n (x ∷ a) b h k = (h.0, Ascends-append x a b h.1 k)

pub last_or-append : (n : ℕ) (a b : List ℕ) → last_or n (a ++ b) ≡ last_or (last_or n a) b
last_or-append n [] b = refl
last_or-append n (x ∷ a) b = last_or-append x a b

pub last_or_le : (n m : ℕ) (a : List ℕ) → n ≤ m → All (λ k. k ≤ m) a → last_or n a ≤ m
last_or_le n m [] l h = l
last_or_le n m (x ∷ a) l h = last_or_le x m a h.0 h.1

pub take_consecutive-All {ℓ} :
    (P : ℕ → Type ℓ) (k : ℕ) (ids : List ℕ)
    → All P ids
    → All P (take_consecutive k ids).0 × All P (take_consecutive k ids).1
unfolding take_consecutive
take_consecutive-All P k [] h = (tt, tt)
take_consecutive-All P k (id ∷ ids) h =
    let later = take_consecutive-All P id ids h.1 in
    elim (Bool-cases (id == k + 1)) [
      | inl next ↦ rw next ((h.0, later.0), later.1)
      | inr gap ↦ rw gap (tt, h)
    ]

-- Each of `ids` is open.
abbrev pub Open : List ℕ → Streams → Type 0
Open ids c = (j : ℕ) → has j ids ≡ true → has j (keys c) ≡ true

-- What closing the taken ids leaves.
abbrev pub Closed : ℕ → List ℕ × List ℕ → Streams → Type 0
Closed k p c =
    Ascends k p.0
    × Ascends (last_or k p.0) (keys (close_all p.0 c))
    × Ascends (last_or k p.0) p.1
    × Open p.1 (close_all p.0 c)

pub Open-close :
    (id : ℕ) (ids : List ℕ) (c : Streams)
    → Ascends id ids
    → Open (id ∷ ids) c
    → Open ids (close_stream id c)
Open-close id ids c h o j e =
    let above = Ascends-above id j ids h e in
    has-close id j c (o j (ground (arith, e))) (ground (arith, above))

pub take_consecutive-Closed :
    (k : ℕ) (ids : List ℕ) (c : Streams)
    → Ascends k (keys c)
    → Ascends k ids
    → Open ids c
    → Closed k (take_consecutive k ids) c
unfolding take_consecutive
take_consecutive-Closed k [] c h g o = (tt, h, tt, o)
take_consecutive-Closed k (id ∷ ids) c h g o = elim (Bool-cases (id == k + 1)) [
  | inl next ↦
      let e : k + 1 ≡ id = ground (arith, next) in
      let later =
        take_consecutive-Closed id ids (close_stream id c) (rw e at (Ascends-close_next k c h)) g.1
          (Open-close id ids c g.1 o) in
      rw next ((g.0, later.0), later.1, later.2, later.3)
  | inr gap ↦ rw gap (tt, h, g, o)
]

pub write_responses-close_all :
    (fuel : ℕ) (keep_alive : Bool) (ids : List ℕ) (c c' : Streams) (o o' : Output)
    → write_responses fuel keep_alive ids c o ≡ some (c', o')
    → c' ≡ close_all ids c
unfolding write_responses
write_responses-close_all fuel keep_alive [] c c' o o' e = ground (arith, e)
write_responses-close_all fuel keep_alive (id ∷ ids) c c' o o' e =
    let (strm, found, e1) = >>=-eq-some (find_stream id c) _ e in
    let (o1, wrote, e2) = >>=-eq-some (write_response fuel keep_alive strm o) _ e1 in
    write_responses-close_all fuel keep_alive ids (close_stream id c) c' o1 o' e2
