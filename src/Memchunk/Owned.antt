-- ===== src/Memchunk/Owned.antt =====
-- memchunk.h: where the chunks of a pool are.
use maock.Prelude.{
  ℕ, zero, suc, ◌+◌, ◌-◌, ◌<◌, ◌≡◌, refl, inl, inr, Option, none, some, List, [], ◌∷◌, ◌++◌, arith,
  ltb, ◌==◌, if◌then◌else◌, Bool-cases, Option-cases, length, take, drop,
}
use maock.Bytes.{Bytes}
use maock.Memchunk.{
  Chunk, Pool, new_pool, get, recycle, Memchunks, new_memchunks, advance, least, at_tail, left,
  put_byte, append_byte, fill_from, append, drain_from, drain, remove_from, remove, recycle_all,
  reset,
}
use maock.Memchunk.Queue.{
  Reply, queue_run, run_refines, Call, puts, puts_byte, removes, drains, resets, call, run,
}

abbrev pub count : ℕ → List ℕ → ℕ
count i [] = 0
count i (x ∷ xs) = (if x == i then 1 else 0) + count i xs

abbrev pub ids : List Chunk → List ℕ
ids [] = []
ids (m ∷ ms) = m.id ∷ ids ms

-- How often chunk `i` is in a chain or on the freelist, and whether it was made.
abbrev pub held : ℕ → List Chunk → Pool → ℕ
held i cs p = count i (ids cs) + count i p.freelist

abbrev pub made : ℕ → Pool → ℕ
made i p = if ltb i p.made then 1 else 0

-- A step only takes hold of chunks that it makes, and lets none go.
abbrev pub Conserves : ℕ → List Chunk × Pool → List Chunk × Pool → Type 0
Conserves i s t = held i t.0 t.1 + made i s.1 ≡ held i s.0 s.1 + made i t.1

get-Conserves : (i : ℕ) (p : Pool) → Conserves i ([], p) ((get p).0 ∷ [], (get p).1)
unfolding get
get-Conserves i p = taken p.freelist refl
  where
    taken : (l : List ℕ) → p.freelist ≡ l → Conserves i ([], p) ((get p).0 ∷ [], (get p).1)
    taken [] e = rw e (ground arith)
    taken (m ∷ rest) e = rw e (ground arith)

module _ (size : ℕ) where
  fill_from-Conserves :
      (i fuel : ℕ) (s : Bytes) (m : Chunk) (p : Pool)
      → Conserves i (m ∷ [], p) (fill_from size fuel s m p)
  unfolding fill_from
  fill_from-Conserves i zero s m p = refl
  fill_from-Conserves i (suc fuel) s m p =
      let n = least (length s) (left size m) in
      elim (Bool-cases (n == length s)) [
        | inl all ↦ rw all refl
        | inr more ↦ rw more (
            omega
              (arith, get-Conserves i p, fill_from-Conserves i fuel (drop n s) (get p).0 (get p).1))
      ]

  put_byte-Conserves :
      (i c : ℕ) (m : Chunk) (p : Pool) → Conserves i (m ∷ [], p) (put_byte size c m p)
  unfolding put_byte
  put_byte-Conserves i c m p = elim (Bool-cases (left size m == 0)) [
    | inl full ↦ rw full (omega (arith, get-Conserves i p))
    | inr room ↦ rw room refl
  ]

at_tail-Conserves :
    (i : ℕ) (f : Chunk → Pool → List Chunk × Pool) (cs : List Chunk) (p : Pool)
    → ((m : Chunk) (q : Pool) → Conserves i (m ∷ [], q) (f m q))
    → Conserves i (cs, p) (at_tail f cs p)
unfolding at_tail
at_tail-Conserves i f [] p each = omega (arith, get-Conserves i p, each (get p).0 (get p).1)
at_tail-Conserves i f (m ∷ []) p each = each m p
at_tail-Conserves i f (m ∷ n ∷ ms) p each = omega (arith, at_tail-Conserves i f (n ∷ ms) p each)

drain_from-Conserves :
    (i count : ℕ) (cs : List Chunk) (p : Pool)
    → Conserves i (cs, p) ((drain_from count cs p).0, (drain_from count cs p).2)
unfolding drain_from recycle
drain_from-Conserves i count [] p = refl
drain_from-Conserves i count (m ∷ ms) p =
    let n = least count (length m.bytes) in
    elim (Bool-cases (ltb 0 (length (advance m n).bytes))) [
      | inl stays ↦ rw stays refl
      | inr goes ↦ rw goes (omega (arith, drain_from-Conserves i (count - n) ms (recycle m p)))
    ]

recycle_all-Conserves :
    (i : ℕ) (cs : List Chunk) (p : Pool) → Conserves i (cs, p) ([], recycle_all cs p)
unfolding recycle_all recycle
recycle_all-Conserves i [] p = refl
recycle_all-Conserves i (m ∷ ms) p = omega (arith, recycle_all-Conserves i ms (recycle m p))

-- What the steps that may stop conserve where they do not.
abbrev Keeps {ℓ} : {R : Type ℓ} → ℕ → List Chunk × Pool → Option (R × List Chunk × Pool) → Type 0
Keeps i s none = Unit
Keeps i s (some (r, cs, p)) = Conserves i s (cs, p)

Keeps-remove_from :
    (i count : ℕ) (cs : List Chunk) (p : Pool) → Keeps i (cs, p) (remove_from count cs p)
unfolding remove_from recycle
Keeps-remove_from i count [] p = refl
Keeps-remove_from i count (m ∷ ms) p =
    let n = least count (length m.bytes) in
    elim (Bool-cases (length m.bytes == 0)) [
      | inl nothing ↦ rw nothing tt
      | inr full ↦ elim (Bool-cases (ltb 0 (length (advance m n).bytes))) [
        | inl stays ↦ rw (full, stays) refl
        | inr goes ↦
            let later = remove_from (count - n) ms (recycle m p) in
            rw (full, goes) (behind later (Keeps-remove_from i (count - n) ms (recycle m p)))
      ]
    ]
  where
    behind :
        (o : Option (Bytes × List Chunk × Pool))
        → Keeps i (ms, recycle m p) o
        → Keeps i
            (m ∷ ms, p)
            (elim o [
              | none ↦ none
              | some (out, rest, p') ↦
                  some (take (least count (length m.bytes)) m.bytes ++ out, rest, p')
            ])
    behind none k = tt
    behind (some (out, rest, p')) k = omega (arith, k)

abbrev Held {ℓ} : {R : Type ℓ} → ℕ → Memchunks × Pool → Option (R × Memchunks × Pool) → Type 0
Held i s none = Unit
Held i s (some (r, b, p)) = Conserves i (s.0.chunks, s.1) (b.chunks, p)

module _ (size : ℕ) where
  Held-remove : (i count : ℕ) (b : Memchunks) (p : Pool) → Held i (b, p) (remove count b p)
  unfolding remove
  Held-remove i count b p = elim (Bool-cases (count == 0)) [
    | inl nothing ↦ rw nothing refl
    | inr some_bytes ↦ rw some_bytes (elim (Option-cases (remove_from count b.chunks p)) [
      | inl stop ↦ rw stop tt
      | inr ((out, cs, q), done) ↦ rw done (rw done at (Keeps-remove_from i count b.chunks p))
    ])
  ]

  call-Held : (i : ℕ) (c : Call) (b : Memchunks) (p : Pool) → Held i (b, p) (call size c b p)
  unfolding call
  call-Held i (puts []) b p = unfold append in refl
  call-Held i (puts (c ∷ s)) b p =
      unfold append in
      at_tail-Conserves i (fill_from size (suc (suc (length s))) (c ∷ s)) b.chunks p
        (λ m q. fill_from-Conserves size i (suc (suc (length s))) (c ∷ s) m q)
  call-Held i (puts_byte c) b p =
      unfold append_byte in
      at_tail-Conserves i (put_byte size c) b.chunks p (λ m q. put_byte-Conserves size i c m q)
  call-Held i (removes n) b p = elim (Option-cases (remove n b p)) [
    | inl stop ↦ rw stop tt
    | inr ((out, b', p'), done) ↦ rw done (rw done at (Held-remove i n b p))
  ]
  call-Held i (drains n) b p = unfold drain in drain_from-Conserves i n b.chunks p
  call-Held i resets b p = unfold reset new_memchunks in recycle_all-Conserves i b.chunks p

  run-Held : (i : ℕ) (cs : List Call) (b : Memchunks) (p : Pool) → Held i (b, p) (run size cs b p)
  unfolding run
  run-Held i [] b p = refl
  run-Held i (c ∷ cs) b p = elim (Option-cases (call size c b p)) [
    | inl stop ↦ rw stop tt
    | inr ((r, b1, p1), one) ↦ elim (Option-cases (run size cs b1 p1)) [
      | inl stop ↦ rw (one, stop) tt
      | inr ((rs, b2, p2), more) ↦
          let first = rw one at (call-Held i c b p) in
          let rest = rw more at (run-Held i cs b1 p1) in rw (one, more) (omega (arith, first, rest))
    ]
  ]

  -- For a chain that is the only user of a new pool, and chunks that are not of size 0: after any
  -- calls, which all return, each chunk that was ever made is in exactly one place, once in the
  -- chain or once on the freelist, and no other chunk is in either.
  pub run_owned :
      (cs : List Call)
      → 0 < size
      → (rs : List Reply) × (b : Memchunks) × (p : Pool) × (run size cs new_memchunks new_pool
          ≡ some (rs, b, p))
        × ((i : ℕ) → held i b.chunks p ≡ made i p)
  unfolding new_memchunks new_pool
  run_owned cs pos =
      let (b, p, done, e, v) = run_refines size cs new_memchunks new_pool pos (tt, refl) in
      (
        (queue_run cs []).0,
        b,
        p,
        done,
        λ i. (let kept = rw done at (run-Held i cs new_memchunks new_pool) in ground (arith, kept)),
      )
