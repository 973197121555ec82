-- ===== src/Memchunk/Contents.antt =====
-- memchunk.h: the bytes that a chain holds, and the shape of its chunks.
use maock.Prelude.{
  ℕ, zero, suc, ◌+◌, ◌≤◌, ◌<◌, ◌≡◌, refl, sym, ap, ◌∙◌, inl, inr, List, [], ◌∷◌, ◌++◌, append_assoc,
  append-nil, arith, ◌==◌, if◌then◌else◌, Bool-cases, All, length, take, drop, length-append,
  length-take, take_all, take-append-drop, length-drop,
}
use maock.Bytes.{Bytes}
use maock.Memchunk.{
  Chunk, Pool, get, Memchunks, extend, least, at_tail, left, put_byte, append_byte, fill_from,
  append,
}

abbrev pub contents : List Chunk → Bytes
contents [] = []
contents (m ∷ ms) = m.bytes ++ contents ms

pub contents-append : (a b : List Chunk) → contents (a ++ b) ≡ contents a ++ contents b
contents-append [] b = refl
contents-append (m ∷ a) b =
    rw (contents-append a b) (sym (append_assoc m.bytes (contents a) (contents b)))

pub get-fresh : (p : Pool) → ((get p).0.pos ≡ 0) × ((get p).0.bytes ≡ [])
unfolding get
get-fresh p = fresh p.freelist
  where
    fresh :
        (l : List ℕ)
        → let m : Chunk × Pool = elim l [
          | [] ↦ (record { id = p.made; pos = 0; bytes = [] }, record p { made = p.made + 1 })
          | m ∷ rest ↦ (record { id = m; pos = 0; bytes = [] }, record p { freelist = rest })
        ] in
          (m.0.pos ≡ 0) × (m.0.bytes ≡ [])
    fresh [] = (refl, refl)
    fresh (m ∷ rest) = (refl, refl)

module _ (size : ℕ) where
  -- A chunk that is not empty and ends inside of its buffer.
  abbrev pub IsSound : Chunk → Type 0
  IsSound m = (0 < length m.bytes) × (m.pos + length m.bytes ≤ size)

  -- The chunks of the chain are sound, and `len` counts the bytes of the chain.
  abbrev pub IsValid : Memchunks → Type 0
  IsValid b = All IsSound b.chunks × (b.len ≡ length (contents b.chunks))

  -- What one append must do to a chain that ends in `m`.
  abbrev Extends : Bytes → Chunk → List Chunk × Pool → Type 0
  Extends s m r = (contents r.0 ≡ m.bytes ++ s) × All IsSound r.0

  fill_from-Extends :
      (fuel : ℕ) (s : Bytes) (m : Chunk) (p : Pool)
      → 0 < size
      → 0 < length s
      → length s + (if left size m == 0 then 1 else 0) ≤ fuel
      → m.pos + length m.bytes ≤ size
      → 0 < length m.bytes + least (length s) (left size m)
      → Extends s m (fill_from size fuel s m p)
  unfolding fill_from
  fill_from-Extends zero s m p pos ne f h k = absurd (omega arith)
  fill_from-Extends (suc fuel) s m p pos ne f h k =
      let n = least (length s) (left size m) in
      let fits : n ≤ length s = ground arith in
      let l = length-append m.bytes (take n s) in
      let k' = length-take n s fits in
      let room : n ≤ left size m = ground arith in
      let sound : IsSound (extend m (take n s)) = (omega (arith, l, k'), omega (arith, l, k')) in
      elim (Bool-cases (n == length s)) [
        | inl all ↦
            let e : take n s ≡ s = take_all (n) s (ground arith) in
            rw all (append-nil (m.bytes ++ take n s) ∙ rw e, (sound, tt))
        | inr more ↦
            let fresh = get-fresh p in
            let next = (get p).0 in
            let d = length-drop n s in
            let room' : left size next ≡ size =
              ground (arith, fresh, ap (λ (u : Bytes). length u) fresh.1) in
            let rest =
              fill_from-Extends fuel (drop n s) next (get p).1 pos (ground arith) (ground arith)
                (omega (arith, fresh.0, ap (λ (u : Bytes). length u) fresh.1)) (ground arith) in
            rw more (
              ap (λ (u : Bytes). (m.bytes ++ take n s) ++ u) (rest.0 ∙ rw fresh.1)
                  ∙ append_assoc m.bytes (take n s) (drop n s)
                  ∙ rw (take-append-drop n s),
              (sound, rest.1),
            )
      ]

  -- A chunk that an append may go on with: a sound one, or an empty one with room.
  abbrev IsOpen : Chunk → Type 0
  IsOpen m = (m.pos + length m.bytes ≤ size) × (0 < length m.bytes + left size m)

  at_tail-Extends :
      (f : Chunk → Pool → List Chunk × Pool) (s : Bytes) (cs : List Chunk) (p : Pool)
      → 0 < size
      → ((m : Chunk) (q : Pool) → IsOpen m → Extends s m (f m q))
      → All IsSound cs
      → (contents (at_tail f cs p).0 ≡ contents cs ++ s) × All IsSound (at_tail f cs p).0
  unfolding at_tail
  at_tail-Extends f s [] p pos each h =
      let fresh = get-fresh p in
      let l = ap (λ (u : Bytes). length u) fresh.1 in
      let (e, sound) =
        each (get p).0 (get p).1 (omega (arith, l, fresh.0), ground (arith, l, fresh.0)) in
      (e ∙ rw fresh.1, sound)
  at_tail-Extends f s (m ∷ []) p pos each h =
      let (e, sound) = each m p (h.0.1, omega (arith, h.0.0)) in
      (e ∙ rw (append-nil m.bytes), sound)
  at_tail-Extends f s (m ∷ n ∷ ms) p pos each h =
      let (e, sound) = at_tail-Extends f s (n ∷ ms) p pos each h.1 in
      (
        ap (λ (u : Bytes). m.bytes ++ u) e ∙ sym (append_assoc m.bytes (n.bytes ++ contents ms) s),
        (h.0, sound),
      )

  put_byte-Extends :
      (c : ℕ) (m : Chunk) (p : Pool)
      → 0 < size
      → IsOpen m
      → Extends (c ∷ []) m (put_byte size c m p)
  unfolding put_byte
  put_byte-Extends c m p pos h = elim (Bool-cases (left size m == 0)) [
    | inl full ↦
        let fresh = get-fresh p in
        rw (full, fresh.1) (rw fresh.0 (refl, (ground arith, ((omega arith, omega arith), tt))))
    | inr room ↦ rw room (
      append-nil (m.bytes ++ c ∷ []),
      (
        (
          omega (arith, length-append m.bytes (c ∷ [])),
          ground (arith, length-append m.bytes (c ∷ [])),
        ),
        tt,
      ),
    )
  ]

  -- An append keeps a chain valid, and puts its bytes behind those that are there.
  pub append-contents :
      (s : Bytes) (b : Memchunks) (p : Pool)
      → 0 < size
      → IsValid b
      → (contents (append size s b p).0.chunks ≡ contents b.chunks ++ s)
        × IsValid (append size s b p).0
  unfolding append
  append-contents [] b p pos h = (sym (append-nil (contents b.chunks)), h)
  append-contents (c ∷ s) b p pos h =
      let (e, sound) =
        at_tail-Extends (fill_from size (suc (suc (length s))) (c ∷ s)) (c ∷ s) b.chunks p pos
          (λ m q o.
            fill_from-Extends (suc (suc (length s))) (c ∷ s) m q pos (omega arith) (ground arith)
              o.0 (ground (arith, o.1)))
          h.0 in
      (
        e,
        (
          sound,
          omega (
            arith,
            ap (λ (u : Bytes). length u) e,
            length-append (contents b.chunks) (c ∷ s),
            h.1,
          ),
        ),
      )

  pub append_byte-contents :
      (c : ℕ) (b : Memchunks) (p : Pool)
      → 0 < size
      → IsValid b
      → (contents (append_byte size c b p).0.chunks ≡ contents b.chunks ++ (c ∷ []))
        × IsValid (append_byte size c b p).0
  unfolding append_byte
  append_byte-contents c b p pos h =
      let (e, sound) =
        at_tail-Extends (put_byte size c) (c ∷ []) b.chunks p pos
          (λ m q o. put_byte-Extends c m q pos o) h.0 in
      (
        e,
        (
          sound,
          omega (
            arith,
            ap (λ (u : Bytes). length u) e,
            length-append (contents b.chunks) (c ∷ []),
            h.1,
          ),
        ),
      )
