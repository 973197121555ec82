-- ===== src/Memchunk/Removed.antt =====
-- memchunk.h: what drain and remove take off a chain.
use maock.Prelude.{
  ℕ, zero, suc, ◌-◌, ◌≤◌, ◌<◌, ◌≡◌, refl, sym, ap, ◌∙◌, inl, inr, false, some, List, [], ◌∷◌, arith,
  ltb, ◌==◌, Bool-cases, All, length, take, drop, length-append, drop-append_le, drop-append_ge,
  take-append_le, take-append_ge, take_all, take-append-drop, length-drop,
}
use maock.Bytes.{Bytes}
use maock.Memchunk.{
  Chunk, Pool, recycle, Memchunks, advance, least, drain_from, drain, remove_from, remove,
}
use maock.Memchunk.Contents.{contents, IsSound, IsValid}

module _ (size : ℕ) where
  advance-IsSound :
      (m : Chunk) (n : ℕ) → IsSound size m → n < length m.bytes → IsSound size (advance m n)
  advance-IsSound m n h l =
      (omega (arith, length-drop n m.bytes), omega (arith, length-drop n m.bytes, h.1))

  -- The loop of drain: the chain that is left, and how many of the bytes to drop it could not.
  drain_from-contents :
      (count : ℕ) (cs : List Chunk) (p : Pool)
      → All (IsSound size) cs
      → (contents (drain_from count cs p).0 ≡ drop count (contents cs))
        × All (IsSound size) (drain_from count cs p).0
        × ((drain_from count cs p).1 ≡ count - length (contents cs))
  unfolding drain_from
  drain_from-contents zero [] p h = (refl, tt, refl)
  drain_from-contents (suc count) [] p h = (refl, tt, omega arith)
  drain_from-contents count (m ∷ ms) p h =
      let n = least count (length m.bytes) in
      let l = length-append m.bytes (contents ms) in
      let d = length-drop n m.bytes in
      elim (Bool-cases (ltb 0 (length (advance m n).bytes))) [
        | inl stays ↦
            let e : n ≡ count = ground (arith, d) in
            rw stays (
              rw e (sym (drop-append_le count m.bytes (contents ms) (ground (arith, d)))),
              (advance-IsSound m n h.0 (ground (arith, d)), h.1),
              ground (arith, d, l),
            )
        | inr goes ↦
            let e : n ≡ length m.bytes = ground (arith, d) in
            let past : length m.bytes ≤ count = ground (arith, d) in
            let (f, sound, rest) = drain_from-contents (count - n) ms (recycle m p) h.1 in
            rw goes (
              f ∙ rw e (sym (drop-append_ge count m.bytes (contents ms) past)),
              sound,
              omega (arith, rest, l, e),
            )
      ]

  remove_from-drain_from :
      (count : ℕ) (cs : List Chunk) (p : Pool)
      → All (IsSound size) cs
      → remove_from count cs p
        ≡ some (take count (contents cs), (drain_from count cs p).0, (drain_from count cs p).2)
  unfolding remove_from drain_from
  remove_from-drain_from zero [] p h = refl
  remove_from-drain_from (suc count) [] p h = refl
  remove_from-drain_from count (m ∷ ms) p h =
      let n = least count (length m.bytes) in
      let d = length-drop n m.bytes in
      let full : (length m.bytes == 0) ≡ false = ground (arith, h.0.0) in
      elim (Bool-cases (ltb 0 (length (advance m n).bytes))) [
        | inl stays ↦
            let e : n ≡ count = ground (arith, d) in
            rw (full, stays)
              (rw e (rw (take-append_le count m.bytes (contents ms) (ground (arith, d)))))
        | inr goes ↦
            let e : n ≡ length m.bytes = ground (arith, d) in
            let past : length m.bytes ≤ count = ground (arith, d) in
            let all : take n m.bytes ≡ m.bytes = take_all n m.bytes (omega arith) in
            rw (full, goes, remove_from-drain_from (count - n) ms (recycle m p) h.1, all)
              (rw (e, take-append_ge count m.bytes (contents ms) past))
      ]

  -- drain takes off the first bytes, and says how many.
  pub drain-contents :
      (count : ℕ) (b : Memchunks) (p : Pool)
      → IsValid size b
      → ((drain count b p).0 ≡ least count b.len)
        × (contents (drain count b p).1.chunks ≡ drop count (contents b.chunks))
        × IsValid size (drain count b p).1
  unfolding drain
  drain-contents count b p h =
      let (e, sound, rest) = drain_from-contents count b.chunks p h.0 in
      let d = length-drop count (contents b.chunks) in
      (
        ground (arith, rest, h.1),
        e,
        (sound, omega (arith, rest, h.1, d, ap (λ (u : Bytes). length u) e)),
      )

  -- remove does not meet an empty chunk: it gives the first bytes, and takes them off.
  pub remove-contents :
      (count : ℕ) (b : Memchunks) (p : Pool)
      → IsValid size b
      → (b' : Memchunks) × (p' : Pool) × (remove count b p
          ≡ some (take count (contents b.chunks), b', p'))
        × (contents b'.chunks ≡ drop count (contents b.chunks))
        × IsValid size b'
  unfolding remove
  remove-contents zero b p h = (b, p, refl, refl, h)
  remove-contents (suc count) b p h =
      let (e, sound, rest) = drain_from-contents (suc count) b.chunks p h.0 in
      let taken = take (suc count) (contents b.chunks) in
      let d = length-drop (suc count) (contents b.chunks) in
      let l = length-append taken (drop (suc count) (contents b.chunks)) in
      let w = ap (λ (u : Bytes). length u) (take-append-drop (suc count) (contents b.chunks)) in
      let ms = (drain_from (suc count) b.chunks p).0 in
      (
        record { chunks = ms; len = b.len - length taken },
        (drain_from (suc count) b.chunks p).2,
        (let pos : (suc count == 0) ≡ false = ground arith in
            rw (pos, remove_from-drain_from (suc count) b.chunks p h.0)),
        e,
        (sound, omega (arith, h.1, l, w, ap (λ (u : Bytes). length u) e)),
      )
