-- ===== src/Allocator/Grown.antt =====
-- allocator.h: realloc and realloc_concat_string_ref, by which a text grows.
use mathlib.Core.List.{flatten}
use maock.Bytes.{Bytes}
use maock.Prelude.{
  ℕ, zero, suc, ◌+◌, ◌-◌, ◌*◌, ◌≤◌, ◌≡◌, refl, sym, ap, ◌∙◌, ◌≢◌, ◌⊎◌, inl, inr, true, false, ◌&&◌,
  Option, some, List, [], ◌∷◌, ◌++◌, arith, leb, ◌==◌, Bool-cases, length, take, length-append,
}
use maock.Allocator.{
  write, realloc_concat_string_ref, concat_string_ref_count, StringRef, text_of, Place, Word,
  BlockAllocator, word_size, max, find_word, get_alloc_length, read, store, StringRef, realloc,
}
use maock.Allocator.Disjoint.{Apart, AllApart, IsValid, alloc-Gives}
use maock.Allocator.Kept.{
  Lies, read-write_prefix, write-append, concat_string_ref_copy_lem, concat_string_ref_count_lem,
  read-take, read-write-Clear, read-write_self, Among, All-Among, Keeps,
}

find_word_lem :
    (w : Word) (ws : List Word) → AllApart ws → Among w ws → find_word w.0 w.1 ws ≡ some w.2
unfolding find_word
find_word_lem w [] v m = absurd m
find_word_lem w (x ∷ ws) v (inl e) = rw e (ground arith)
find_word_lem w (x ∷ ws) v (inr m) =
    let apart = All-Among _ w ws v.0 m in
    elim (Bool-cases (x.0 == w.0 && x.1 == w.1)) [
      | inl t ↦
          let e : x.0 ≡ w.0 = ground arith in
          let f : x.1 ≡ w.1 = ground arith in
          absurd (elim (apart e) [ inl low ↦ omega arith | inr high ↦ omega arith ])
      | inr f ↦ rw f (find_word_lem w ws v.1 m)
    ]

get_alloc_length_lem :
    (id start len : ℕ) (a : BlockAllocator)
    → IsValid a
    → Among (id, start, len) a.words
    → get_alloc_length (id, start + word_size) a ≡ some len
unfolding get_alloc_length
get_alloc_length_lem id start len a v m =
    let e : start + word_size - word_size ≡ start = omega arith in
    let t : leb word_size (start + word_size) ≡ true = ground arith in
    rw (t, e) (find_word_lem (id, start, len) a.words v.apart m)

length-read : (id at n : ℕ) (m : ℕ → ℕ → ℕ) → length (read id at n m) ≡ n
unfolding read
length-read id at zero m = refl
length-read id at (suc n) m = ap suc (length-read id (at + 1) n m)

-- Two regions of a valid allocator are the same or apart.
Apart-sym : (w x : Word) → Apart w x → Apart x w
Apart-sym w x h e = elim (h (sym e)) [ inl low ↦ inr low | inr high ↦ inl high ]

Among-Apart :
    (w x : Word) (ws : List Word) → AllApart ws → Among w ws → Among x ws → (w ≡ x) ⊎ Apart w x
Among-Apart w x [] v m n = absurd m
Among-Apart w x (y ∷ ws) v (inl e) (inl f) = inl (sym e ∙ f)
Among-Apart w x (y ∷ ws) v (inl e) (inr n) = inr (rw e at (All-Among _ x ws v.0 n))
Among-Apart w x (y ∷ ws) v (inr m) (inl f) = inr (Apart-sym x w (rw f at (All-Among _ w ws v.0 m)))
Among-Apart w x (y ∷ ws) v (inr m) (inr n) = Among-Apart w x ws v.1 m n

-- A text that lies in a region other than `w`.
abbrev pub LiesBut : Word → List Word → StringRef → Type 0
LiesBut w ws ((id, at), n) =
    (start : ℕ) × (len : ℕ) × Among (id, start, len) ws
    × (at ≡ start + word_size)
    × (n ≤ len)
    × ((id, start, len) ≢ w)

module _ (base : ℕ → ℕ) where
  -- What realloc gives for the region of `len` bytes at `p`.
  abbrev Regions : Place → ℕ → ℕ → BlockAllocator → Option (BlockAllocator × Place) → Type 0
  Regions p len size a o =
      (a' : BlockAllocator) × (id : ℕ) × (start : ℕ) × (room : ℕ) × (o
        ≡ some (a', (id, start + word_size)))
      × IsValid a'
      × Among (id, start, room) a'.words
      × (size ≤ room)
      × (len ≤ room)
      × (read id (start + word_size) len a'.bytes ≡ read p.0 p.1 len a.bytes)
      × Keeps a a'
      × ((w : Word) → Among w a.words → w ≢ (p.0, p.1 - word_size, len) → Apart (id, start, room) w)

  realloc-Regions :
      (id start len size : ℕ) (a : BlockAllocator)
      → IsValid a
      → Among (id, start, len) a.words
      → Regions
          (id, start + word_size)
          len
          size
          a
          (realloc base (some (id, start + word_size)) size a)
  unfolding realloc
  realloc-Regions id start len size a v m = elim (Bool-cases (leb size len)) [
    | inl fits ↦
        let e : start + word_size - word_size ≡ start = omega arith in
        (
          a,
          id,
          start,
          len,
          rw (get_alloc_length_lem id start len a v m, fits) refl,
          v,
          m,
          ground arith,
          omega arith,
          refl,
          λ r h. (h, refl),
          λ w n d. elim (Among-Apart (id, start, len) w a.words v.apart m n) [
            | inl s ↦ absurd (d (rw e (sym s)))
            | inr apart ↦ apart
          ],
        )
    | inr grows ↦
        let more = max (size + 1) (len * 2) in
        let ((a', (k, place)), done, (begin, room, v', words, here, wide, bytes)) =
          alloc-Gives base more a v in
        let old = read id (start + word_size) len a'.bytes in
        let roomy : len ≤ room = ground arith in
        let n = length-read id (start + word_size) len a'.bytes in
        (
          store (k, begin + word_size) old a',
          k,
          begin,
          room,
          rw (get_alloc_length_lem id start len a v m, grows)
              (rw done (ap (λ (q : ℕ). some (store (k, q) old a', (k, q))) here)),
          record {
            placed = v'.placed;
            apart = v'.apart;
            headed = v'.headed;
            threshold = v'.threshold;
          },
          rw words (inl refl),
          ground arith,
          ground arith,
          rw n at (read-write_self k (begin + word_size) old a'.bytes) ∙ rw bytes refl,
          λ ((j, p), q) (first, size', i, at, inside). (
            (first, size', rw words (inr i), at, inside),
            read-write-Clear k (begin + word_size) old a'.bytes j p q (λ e.
                  let apart = All-Among _ (j, first, size') a.words (rw words at v'.apart).0 i e in
                  elim apart [
                    | inl low ↦ inr (omega (arith, n, roomy))
                    | inr high ↦ inl (omega arith)
                  ])
                ∙ rw bytes refl,
          ),
          λ w i d. All-Among _ w a.words (rw words at v'.apart).0 i,
        )
  ]

take-read : (id at n k : ℕ) (m : ℕ → ℕ → ℕ) → n ≤ k → take n (read id at k m) ≡ read id at n m
unfolding read
take-read id at zero k m h = refl
take-read id at (suc n) zero m h = absurd (omega arith)
take-read id at (suc n) (suc k) m h =
    ap (λ s. m id at ∷ s) (take-read id (at + 1) n k m (omega arith))

module _ (base : ℕ → ℕ) where
  -- In a valid allocator, realloc_concat_string_ref of a text that is not empty and lies in a region
  -- succeeds, whether the region has room or the text moves to another; it leaves the allocator
  -- valid, gives the text followed by all the arguments, and keeps the bytes of every text that lies
  -- in another region.
  pub realloc_concat_string_ref_text :
      (id start len n : ℕ) (args : List Bytes) (a : BlockAllocator)
      → IsValid a
      → Among (id, start, len) a.words
      → n ≤ len
      → n ≢ 0
      → (a' : BlockAllocator) × (r : StringRef) × (realloc_concat_string_ref base
            ((id, start + word_size), n)
            args
            a
          ≡ some (a', r))
        × IsValid a'
        × Lies a'.words r
        × (text_of r a' ≡ text_of ((id, start + word_size), n) a ++ flatten args)
        × ((q : StringRef)
            → LiesBut (id, start, len) a.words q
            → Lies a'.words q × (text_of q a' ≡ text_of q a))
  unfolding realloc_concat_string_ref
  realloc_concat_string_ref_text id start len n args a v m inside some_bytes =
      let size = n + concat_string_ref_count 0 args + 1 in
      let (a1, k, begin, room, done, v1, m1, fits, wide, same, keeps, apart) =
        realloc-Regions base id start len size a v m in
      let t = flatten args in
      let at = begin + word_size in
      let added = write k (at + n) (t ++ 0 ∷ []) a1.bytes in
      let more = length-append t (0 ∷ []) in
      let count = concat_string_ref_count_lem 0 args in
      let total : n + concat_string_ref_count 0 args ≡ n + length t = omega (arith, count) in
      let not_empty : (n == 0) ≡ false = ground arith in
      let back : start + word_size - word_size ≡ start = omega arith in
      let before : read k at n a1.bytes ≡ read id (start + word_size) n a.bytes =
        sym (take-read k at n len a1.bytes inside)
        ∙ ap (take n) same
        ∙ take-read id (start + word_size) n len a.bytes inside in
      (
        record a1 { bytes = added },
        ((k, at), n + length t),
        rw not_empty (
            rw done (
              rw
                (
                  concat_string_ref_copy_lem (k, at + n) args a1,
                  write-append k (at + n) t (0 ∷ []) a1.bytes,
                  total,
                )
                refl)),
        record {
          placed = v1.placed;
          apart = v1.apart;
          headed = v1.headed;
          threshold = v1.threshold;
        },
        (begin, room, m1, refl, omega (arith, fits, count)),
        read-take k at n (length t) added
            ∙ rw
                (
                  read-write-Clear k (at + n) (t ++ 0 ∷ []) a1.bytes k at n
                      (λ e. inl (omega arith)),
                  read-write_prefix k (at + n) t (0 ∷ []) a1.bytes,
                  before,
                )
                refl,
        λ ((j, p), q) (first, size', i, here, within, other).
            let (lies, kept) = keeps ((j, p), q) (first, size', i, here, within) in
            (
              lies,
              read-write-Clear k (at + n) (t ++ 0 ∷ []) a1.bytes j p q (λ e.
                    elim (apart (j, first, size') i (rw back other) e) [
                      | inl low ↦ inr (omega (arith, fits, count, more))
                      | inr high ↦ inl (omega arith)
                    ])
                  ∙ kept,
            ),
      )
