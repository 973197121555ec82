-- ===== src/Stream/Connection/Isolated.antt =====
-- The callbacks of a session, stream by stream.
use maock.Prelude.{
  ℕ, ◌≡◌, refl, ap, inl, inr, Bool, true, false, ◌||◌, Option, none, some, List, [], ◌∷◌, ◌++◌, map,
  arith, ◌==◌, if◌then◌else◌, Bool-cases, Option-cases,
}
use maock.Stream.Connection.{
  Stream, Streams, Event, Output, new_stream, find_stream, emplace, create_stream, close_stream,
  put_stream, on_event, set_stream, on_missing, opens, step, run,
}

-- The entries for one stream.
unfoldable pub of_stream {ℓ} : {A : Type ℓ} → ℕ → List (ℕ × A) → List A
of_stream id [] = []
of_stream id ((k, a) ∷ l) = let later = of_stream id l in if k == id then a ∷ later else later

-- A stream for itself: `none` while it is not open.
unfoldable pub stream_step : Event → Option Stream → Option Stream × List Output
unfolding on_event on_missing new_stream
stream_step e o =
    let touched : Option Stream × List Output = elim o [
      | none ↦ (none, on_missing e)
      | some s ↦ on_event e s
    ] in
    if opens e then (some new_stream, []) else touched

unfoldable pub stream_run : List Event → Option Stream → Option Stream × List Output
unfolding stream_step
stream_run [] o = (o, [])
stream_run (e ∷ es) o =
    let (o', outs) = stream_step e o in let (o'', more) = stream_run es o' in (o'', outs ++ more)

abbrev pub member : ℕ → List ℕ → Bool
member id [] = false
member id (k ∷ l) = k == id || member id l

-- No id opens a stream twice, and none opens one of `used`.
abbrev pub IsFresh : List ℕ → List (ℕ × Event) → Type 0
IsFresh used [] = Unit
IsFresh used ((id, e) ∷ es) =
    (opens e ≡ true → member id used ≡ false) × IsFresh (if opens e then id ∷ used else used) es

pub find-emplace :
    (id k : ℕ) (t : Stream) (c : Streams)
    → find_stream id c ≡ none
    → find_stream k (emplace id t c) ≡ (if id == k then some t else find_stream k c)
unfolding find_stream emplace
find-emplace id k t [] h = refl
find-emplace id k t ((j, s) ∷ c) h = ground (arith, find-emplace id k t c)

pub find-put :
    (id k : ℕ) (s t : Stream) (c : Streams)
    → find_stream id c ≡ some s
    → find_stream k (put_stream id t c) ≡ (if id == k then some t else find_stream k c)
unfolding find_stream put_stream
find-put id k s t [] h = absurd (ground arith)
find-put id k s t ((j, r) ∷ c) h = ground (arith, find-put id k s t c)

find-close :
    (id k : ℕ) (c : Streams)
    → find_stream k (close_stream id c) ≡ (if id == k then none else find_stream k c)
unfolding find_stream close_stream
find-close id k [] = ground arith
find-close id k ((j, r) ∷ c) = ground (arith, find-close id k c)

find-set :
    (id k : ℕ) (s : Stream) (o : Option Stream) (c : Streams)
    → find_stream id c ≡ some s
    → find_stream k (set_stream id o c) ≡ (if id == k then o else find_stream k c)
unfolding set_stream
find-set id k s none c h = find-close id k c
find-set id k s (some t) c h = find-put id k s t c h

-- What one callback must do: the stream of its id makes its step, and every other is kept.
abbrev Steps : ℕ → Event → Streams → Option (Streams × List Output) → Type 0
Steps id e c o =
    (r : Streams × List Output) × (o ≡ some r)
    × ((k : ℕ)
        → find_stream k r.0
          ≡ (if id == k then (stream_step e (find_stream id c)).0 else find_stream k c))
    × (r.1 ≡ (stream_step e (find_stream id c)).1)

same_stream :
    (id k : ℕ) (c : Streams)
    → find_stream k c ≡ (if id == k then find_stream id c else find_stream k c)
same_stream id k c = ground arith

step-Steps :
    (id : ℕ) (e : Event) (c : Streams)
    → (opens e ≡ true → find_stream id c ≡ none)
    → Steps id e c (step id e c)
unfolding step create_stream stream_step
step-Steps id e c h = elim (Bool-cases (opens e)) [
  | inl opening ↦
      let free = h opening in
      (
        (emplace id new_stream c, []),
        rw (opening, free) refl,
        λ k. rw opening (find-emplace id k new_stream c free),
        rw opening refl,
      )
  | inr other ↦ elim (Option-cases (find_stream id c)) [
    | inl missing ↦ (
      (c, on_missing e),
      rw (other, missing) refl,
      λ k. rw (other, missing) (rw missing at (same_stream id k c)),
      rw (other, missing) refl,
    )
    | inr (s, found) ↦ (
      (set_stream id (on_event e s).0 c, (on_event e s).1),
      rw (other, found) refl,
      λ k. rw (other, found) (find-set id k s (on_event e s).0 c found),
      rw (other, found) refl,
    )
  ]
]

of_stream-append {ℓ} :
    {A : Type ℓ} (k : ℕ) (a b : List (ℕ × A))
    → of_stream k (a ++ b) ≡ of_stream k a ++ of_stream k b
unfolding of_stream
of_stream-append k [] b = refl
of_stream-append k ((j, x) ∷ a) b = ground (arith, of_stream-append k a b)

of_stream-same {ℓ} :
    {A : Type ℓ} (id k : ℕ) (outs : List A)
    → of_stream k (map (λ o. (id, o)) outs) ≡ (if id == k then outs else [])
unfolding of_stream
of_stream-same id k [] = ground arith
of_stream-same id k (x ∷ outs) = ground (arith, of_stream-same id k outs)

-- Streams are open under used ids only.
abbrev Within : List ℕ → Streams → Type 0
Within used c = (k : ℕ) → member k used ≡ false → find_stream k c ≡ none

-- What a run must do.
abbrev Runs : List (ℕ × Event) → Streams → Option (Streams × List (ℕ × Output)) → Type 0
Runs es c o =
    (c' : Streams) × (outs : List (ℕ × Output)) × (o ≡ some (c', outs))
    × ((k : ℕ)
        → (find_stream k c', of_stream k outs) ≡ stream_run (of_stream k es) (find_stream k c))

stream_step-missing : (e : Event) → opens e ≡ false → stream_step e none ≡ (none, on_missing e)
unfolding stream_step
stream_step-missing e h = rw h refl

Within-step :
    (used : List ℕ) (id : ℕ) (e : Event) (c c' : Streams)
    → Within used c
    → ((k : ℕ)
        → find_stream k c'
          ≡ (if id == k then (stream_step e (find_stream id c)).0 else find_stream k c))
    → Within (if opens e then id ∷ used else used) c'
Within-step used id e c c' w f k m = elim (Bool-cases (opens e)) [
  | inl opening ↦ let m' = rw opening at m in ground (arith, m', f k, w k)
  | inr other ↦
      let m' = rw other at m in
      let free = w k m' in
      let same = same_stream id k c in
      let still = stream_step-missing e other in
      elim (Option-cases (find_stream id c)) [
        | inl missing ↦ ground (arith, free, rw missing at (f k), still)
        | inr (s, found) ↦ ground (arith, free, found, same, f k)
      ]
]

run-next :
    (id k : ℕ) (e : Event) (es : List (ℕ × Event)) (c c1 c2 : Streams) (outs : List Output)
    (more : List (ℕ × Output))
    → find_stream k c1 ≡ (if id == k then (stream_step e (find_stream id c)).0 else find_stream k c)
    → outs ≡ (stream_step e (find_stream id c)).1
    → (find_stream k c2, of_stream k more) ≡ stream_run (of_stream k es) (find_stream k c1)
    → (find_stream k c2, of_stream k (map (λ o. (id, o)) outs ++ more))
      ≡ stream_run (of_stream k ((id, e) ∷ es)) (find_stream k c)
unfolding of_stream stream_run
run-next id k e es c c1 c2 outs more f g h =
    let split = of_stream-append k (map (λ o. (id, o)) outs) more in
    let own = of_stream-same id k outs in
    elim (Bool-cases (id == k)) [
      | inl same ↦
          let e1 = rw same at (same_stream id k c) in
          let e2 = rw same at f in
          let e3 = rw same at own in
          let h' = rw e2 at h in
          rw (same, split, e3, e1, g, ap (λ r. r.0) h', ap (λ r. r.1) h') refl
      | inr other ↦
          let e2 = rw other at f in
          let e3 = rw other at own in let h' = rw e2 at h in rw (other, split, e3) h'
    ]

run-Runs :
    (used : List ℕ) (es : List (ℕ × Event)) (c : Streams)
    → IsFresh used es
    → Within used c
    → Runs es c (run es c)
unfolding run stream_run of_stream
run-Runs used [] c h w = (c, [], refl, λ k. refl)
run-Runs used ((id, e) ∷ es) c h w =
    let ((c1, outs), first, finds, asked) = step-Steps id e c (λ o. w id (h.0 o)) in
    let w1 = Within-step used id e c c1 w finds in
    let (c2, more, rest, each) = run-Runs (if opens e then id ∷ used else used) es c1 h.1 w1 in
    (
      c2,
      map (λ o. (id, o)) outs ++ more,
      rw (first, rest) refl,
      λ k. run-next id k e es c c1 c2 outs more (finds k) asked (each k),
    )

-- If no id opens a stream twice, no assertion fails in a new connection, and the callbacks of the
-- session leave each id with the stream, and with the outputs for it in their order, that its own
-- events give when no other stream is there.
pub run-stream_run :
    (es : List (ℕ × Event))
    → IsFresh [] es
    → (c : Streams) × (outs : List (ℕ × Output)) × (run es [] ≡ some (c, outs))
      × ((id : ℕ) → (find_stream id c, of_stream id outs) ≡ stream_run (of_stream id es) none)
unfolding find_stream
run-stream_run es h = run-Runs [] es [] h (λ k m. refl)
