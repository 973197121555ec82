-- ===== src/Stream/Http1/Ordered.antt =====
-- asio_server_http1_handler.cc: the invariant of a connection, and the steps that keep it.
use maock.Prelude.{
  ℕ, ◌+◌, ◌%◌, ◌^◌, ◌≤◌, ◌<◌, ◌≡◌, sym, inl, inr, true, false, none, some, List, [], ◌∷◌, ◌++◌,
  arith, ltb, ◌==◌, Bool-cases, Option-cases, All, last_or, All-append,
}
use mathlib.Core.Path.{subst}
use maock.Prelude.Partial.{>>=-eq-some}
use maock.Stream.Connection.{
  Stream, Streams, find_stream, emplace, create_stream, close_stream, new_stream,
}
use maock.Stream.Http1.{
  Handler, Output, begin_message, start_response, take_consecutive,
  get_consecutive_stream_ids_to_respond, on_write, write_responses,
}
use maock.Stream.Http1.Written.{close_all}
use maock.Stream.Http1.Order.{
  keys, Ascends, has, Ascends-lower, Ascends-above, Ascends-emplace, Ascends-close, Ascends-insert,
  has-insert, has-find, has-close, has-emplace,
}
use maock.Stream.Http1.Pipeline.{
  Open, Ascends-append, last_or-append, last_or_le, take_consecutive-All, Open-close,
  take_consecutive-Closed, write_responses-close_all,
}

-- Ascending ids: those that were answered, and above all of them those that are open; each id that
-- waits is open; and no id is above the count of requests.
abbrev pub IsOrdered : List ℕ → Handler → Type 0
IsOrdered done h =
    Ascends 0 done
    × Ascends (last_or 0 done) (keys h.streams)
    × Ascends 0 h.stream_ids_to_respond
    × Open h.stream_ids_to_respond h.streams
    × All (λ k. k ≤ h.request_count) done
    × All (λ k. k ≤ h.request_count) (keys h.streams)

All-emplace :
    (n id : ℕ) (s : Stream) (c : Streams)
    → id ≤ n
    → All (λ k. k ≤ n) (keys c)
    → All (λ k. k ≤ n) (keys (emplace id s c))
unfolding emplace
All-emplace n id s [] l h = (l, tt)
All-emplace n id s ((k, r) ∷ c) l h = elim (Bool-cases (ltb id k)) [
  | inl before ↦ rw before (l, h)
  | inr behind ↦ rw behind (h.0, All-emplace n id s c l h.1)
]

All-close :
    (n id : ℕ) (c : Streams)
    → All (λ k. k ≤ n) (keys c)
    → All (λ k. k ≤ n) (keys (close_stream id c))
unfolding close_stream
All-close n id [] h = tt
All-close n id ((k, r) ∷ c) h = elim (Bool-cases (k == id)) [
  | inl same ↦ rw same (All-close n id c h.1)
  | inr other ↦ rw other (h.0, All-close n id c h.1)
]

All-close_all :
    (n : ℕ) (ids : List ℕ) (c : Streams)
    → All (λ k. k ≤ n) (keys c)
    → All (λ k. k ≤ n) (keys (close_all ids c))
All-close_all n [] c h = h
All-close_all n (id ∷ ids) c h = All-close_all n ids (close_stream id c) (All-close n id c h)

All-raise : (n : ℕ) (ks : List ℕ) → All (λ k. k ≤ n) ks → All (λ k. k ≤ n + 1) ks
All-raise n [] h = tt
All-raise n (k ∷ ks) h = (omega (arith, h.0), All-raise n ks h.1)

All-Open :
    (n : ℕ) (ids : List ℕ) (c : Streams)
    → All (λ k. k ≤ n) (keys c)
    → Open ids c
    → All (λ k. k ≤ n) ids
All-Open n [] c h o = tt
All-Open n (id ∷ ids) c h o = (
  in_keys id (keys c) h (o id (ground arith)),
  All-Open n ids c h (λ j e. o j (ground (arith, e))),
)
  where
    in_keys : (id : ℕ) (ks : List ℕ) → All (λ k. k ≤ n) ks → has id ks ≡ true → id ≤ n
    in_keys id [] h e = absurd (ground arith)
    in_keys id (k ∷ ks) h e = ground (arith, h.0, in_keys id ks h.1)

create_stream-some :
    (id : ℕ) (c c' : Streams)
    → create_stream id c ≡ some c'
    → (find_stream id c ≡ none) × (emplace id new_stream c ≡ c')
unfolding create_stream
create_stream-some id c c' e = elim (Option-cases (find_stream id c)) [
  | inl free ↦ (free, ground (arith, rw (create_stream, free) at e))
  | inr (s, there) ↦ absurd (ground (arith, rw (create_stream, there) at e))
]

pub begin_message-IsOrdered :
    (done : List ℕ) (h h' : Handler)
    → IsOrdered done h
    → h.request_count + 1 < 2 ^ 31
    → begin_message h ≡ some h'
    → IsOrdered done h'
unfolding begin_message
begin_message-IsOrdered done h h' v small e0 =
    let id = h.request_count + 1 in
    let no_wrap : id % 2 ^ 32 ≡ id = omega (arith, small) in
    let e = rw no_wrap at e0 in
    let (c, created, e1) = >>=-eq-some (create_stream id h.streams) _ e in
    let (free, same) = create_stream-some id h.streams c created in
    let made : record h { streams = emplace id new_stream h.streams; request_count = id } ≡ h' =
      ground (arith, same, e1) in
    let below = last_or_le 0 h.request_count done (omega arith) v.4 in
    let opened : IsOrdered done
        (record h { streams = emplace id new_stream h.streams; request_count = id }) =
      (
        v.0,
        Ascends-emplace (last_or 0 done) id new_stream h.streams v.1 (omega (arith, below)) free,
        v.2,
        λ j k. has-emplace id j new_stream h.streams (v.3 j k),
        All-raise h.request_count done v.4,
        All-emplace id id new_stream h.streams (omega arith)
            (All-raise h.request_count (keys h.streams) v.5),
      ) in
    subst (IsOrdered done) made opened

pub start_response-IsOrdered :
    (done : List ℕ) (h : Handler) (id : ℕ) (s : Stream)
    → IsOrdered done h
    → find_stream id h.streams ≡ some s
    → IsOrdered done (start_response id h)
unfolding start_response
start_response-IsOrdered done h id s v found =
    let there = has-find id s h.streams found in
    let above = Ascends-above (last_or 0 done) id (keys h.streams) v.1 there in
    (
      v.0,
      v.1,
      Ascends-insert 0 id h.stream_ids_to_respond v.2 (omega (arith, above)),
      λ j k. elim (has-insert id j h.stream_ids_to_respond k) [
        | inl same ↦ rw same there
        | inr waits ↦ v.3 j waits
      ],
      v.4,
      v.5,
    )

pub closes-IsOrdered :
    (done : List ℕ) (h : Handler) (id : ℕ)
    → IsOrdered done h
    → has id h.stream_ids_to_respond ≡ false
    → IsOrdered done (record h { streams = close_stream id h.streams })
closes-IsOrdered done h id v idle = (
  v.0,
  Ascends-close (last_or 0 done) id h.streams v.1,
  v.2,
  λ j k. has-close id j h.streams (v.3 j k) (has_differ j id h.stream_ids_to_respond k idle),
  v.4,
  All-close h.request_count id h.streams v.5,
)
  where
    has_differ : (j id : ℕ) (ks : List ℕ) → has j ks ≡ true → has id ks ≡ false → (j == id) ≡ false
    has_differ j id [] e f = absurd (ground arith)
    has_differ j id (k ∷ ks) e f = ground (arith, has_differ j id ks)

-- What a write must take, where the answered ids end with `d`: ids above it, and the rest below none.
abbrev Takes : ℕ → ℕ → List ℕ × List ℕ → Streams → Type 0
Takes n d p c =
    Ascends d p.0
    × Ascends (last_or d p.0) (keys (close_all p.0 c))
    × Ascends 0 p.1
    × Open p.1 (close_all p.0 c)
    × All (λ k. k ≤ n) p.0

get_consecutive-Takes :
    (h : Handler) (n d : ℕ) (ids : List ℕ) (c : Streams)
    → Ascends d (keys c)
    → Ascends 0 ids
    → Open ids c
    → All (λ k. k ≤ n) ids
    → Takes n d
        (get_consecutive_stream_ids_to_respond
          (record h { streams = c; stream_ids_to_respond = ids }))
        c
unfolding get_consecutive_stream_ids_to_respond close_stream
get_consecutive-Takes h n d [] c a g o b = (tt, a, tt, o, tt)
get_consecutive-Takes h n d (id ∷ ids) [] a g o b = (tt, a, g, o, tt)
get_consecutive-Takes h n d (id ∷ ids) ((k, s) ∷ c) a g o b = elim (Bool-cases (id == k)) [
  | inl first ↦
      let e : k ≡ id = ground (arith, first) in
      let hit : k == id ≡ true = ground (arith, first) in
      let left = Ascends-close id id c (rw e at a.1) in
      let closed : Ascends id (keys (close_stream id ((k, s) ∷ c))) = rw hit left in
      let (up, open_up, rest, still) =
        take_consecutive-Closed id ids (close_stream id ((k, s) ∷ c)) closed g.1
          (Open-close id ids ((k, s) ∷ c) g.1 o) in
      let (bound, bound_rest) = take_consecutive-All (λ j. j ≤ n) id ids b.1 in
      rw first (
        (omega (arith, a.0, e), up),
        open_up,
        Ascends-lower 0 (last_or id (take_consecutive id ids).0) (take_consecutive id ids).1
            (omega arith) rest,
        still,
        (b.0, bound),
      )
  | inr other ↦ rw other (tt, a, g, o, tt)
]

pub on_write-IsOrdered :
    (fuel : ℕ) (buffer : List ℕ) (done ids : List ℕ) (h h' : Handler) (o : Output)
    → IsOrdered done h
    → on_write fuel buffer h ≡ some (ids, h', o)
    → IsOrdered (done ++ ids) h'
unfolding on_write
on_write-IsOrdered fuel buffer done ids h h' o v e =
    let n = h.request_count in
    let p = get_consecutive_stream_ids_to_respond h in
    let (up, open_up, rest, still, bound) =
      get_consecutive-Takes h n (last_or 0 done) h.stream_ids_to_respond h.streams v.1 v.2 v.3
        (All-Open n h.stream_ids_to_respond h.streams v.5 v.3) in
    let ((c, o1), written, e1) =
      >>=-eq-some (write_responses fuel h.should_keep_alive p.0 h.streams (buffer, 0)) _ e in
    let closed =
      write_responses-close_all fuel h.should_keep_alive p.0 h.streams c (buffer, 0) o1 written in
    let same : p.0 ≡ ids = ground (arith, e1) in
    let made : record h { streams = close_all p.0 h.streams; stream_ids_to_respond = p.1 } ≡ h' =
      ground (arith, e1, closed) in
    let taken : IsOrdered (done ++ p.0)
        (record h { streams = close_all p.0 h.streams; stream_ids_to_respond = p.1 }) =
      (
        Ascends-append 0 done p.0 v.0 up,
        subst (λ d. Ascends d (keys (close_all p.0 h.streams))) (sym (last_or-append 0 done p.0))
            open_up,
        rest,
        still,
        All-append (λ k. k ≤ n) done p.0 v.4 bound,
        All-close_all n p.0 h.streams v.5,
      ) in
    subst (λ ks. IsOrdered (done ++ ks) h') same (subst (IsOrdered (done ++ p.0)) made taken)
