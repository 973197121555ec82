-- ===== src/Allocator/Kept.antt =====
-- allocator.h: the texts of an allocator keep their bytes while it hands out more memory.
use mathlib.Core.List.{flatten}
use maock.Prelude.{
  ℕ, zero, suc, ◌+◌, ◌≤◌, ◌<◌, ◌≡◌, refl, sym, ap, ◌∙◌, ◌⊎◌, inl, inr, ◌&&◌, Option, some, List, [],
  ◌∷◌, ◌++◌, map, append-nil, arith, ◌==◌, if◌then◌else◌, Bool-cases, Option-cases, All, length,
  length-append,
}
use maock.Bytes.{Bytes}
use maock.Prelude.Partial.{◌>>=◌}
use maock.Allocator.{
  Place, Word, BlockAllocator, word_size, alloc, read, write, store, StringRef, text_of,
  make_string_ref, concat_string_ref_count, concat_string_ref_copy, concat_string_ref,
  make_byte_ref,
}
use maock.Allocator.Disjoint.{IsValid, alloc-Gives}

-- Writes and reads.
abbrev Memory : Type 0
Memory = ℕ → ℕ → ℕ

abbrev Outside : ℕ → ℕ → ℕ → ℕ → ℕ → Type 0
Outside id at size k p = id ≡ k → (p < at) ⊎ (at + size ≤ p)

write-outside :
    (id at : ℕ) (s : Bytes) (m : Memory) (k p : ℕ)
    → Outside id at (length s) k p
    → write id at s m k p ≡ m k p
unfolding write
write-outside id at [] m k p h = refl
write-outside id at (c ∷ s) m k p h =
    write-outside id (at + 1) s (λ j q. if j == id && q == at then c else m j q) k p
      (λ e. elim (h e) [ inl low ↦ inl (omega arith) | inr high ↦ inr (omega arith) ])
    ∙ elim (Bool-cases (k == id)) [
      | inl t ↦
          let e : id ≡ k = ground arith in
          elim (h e) [ inl low ↦ ground arith | inr high ↦ ground arith ]
      | inr f ↦ rw f refl
    ]

abbrev pub Clear : ℕ → ℕ → ℕ → ℕ → ℕ → ℕ → Type 0
Clear id at size k p n = id ≡ k → (p + n ≤ at) ⊎ (at + size ≤ p)

pub read-write-Clear :
    (id at : ℕ) (s : Bytes) (m : Memory) (k p n : ℕ)
    → Clear id at (length s) k p n
    → read k p n (write id at s m) ≡ read k p n m
unfolding read
read-write-Clear id at s m k p zero h = refl
read-write-Clear id at s m k p (suc n) h =
    rw
      (
        write-outside id at s m k p
            (λ e. elim (h e) [ inl low ↦ inl (omega arith) | inr high ↦ inr high ]),
        read-write-Clear id at s m k (p + 1) n
            (λ e. elim (h e) [ inl low ↦ inl (omega arith) | inr high ↦ inr (omega arith) ]),
      )
      refl

pub read-write_self :
    (id at : ℕ) (s : Bytes) (m : Memory) → read id at (length s) (write id at s m) ≡ s
unfolding read write
read-write_self id at [] m = refl
read-write_self id at (c ∷ s) m =
    let m' = λ (k p : ℕ). if k == id && p == at then c else m k p in
    let first : write id (at + 1) s m' id at ≡ c =
      write-outside id (at + 1) s m' id at (λ e. inl (omega arith)) ∙ ground arith in
    rw (first, read-write_self id (at + 1) s m') refl

pub write-append :
    (id at : ℕ) (s t : Bytes) (m : Memory)
    → write id (at + length s) t (write id at s m) ≡ write id at (s ++ t) m
unfolding write
write-append id at [] t m = let e : at + 0 ≡ at = omega arith in rw e refl
write-append id at (c ∷ s) t m =
    let e : at + suc (length s) ≡ (at + 1) + length s = omega arith in
    rw e (write-append id (at + 1) s t (λ k p. if k == id && p == at then c else m k p))

pub read-take :
    (id at : ℕ) (n k : ℕ) (m : Memory)
    → read id at (n + k) m ≡ read id at n m ++ read id (at + n) k m
unfolding read
read-take id at zero k m =
    let e : at + 0 ≡ at = omega arith in let f : 0 + k ≡ k = omega arith in rw (e, f) refl
read-take id at (suc n) k m =
    let e : suc n + k ≡ suc (n + k) = omega arith in
    let f : at + suc n ≡ (at + 1) + n = omega arith in
    rw (e, f) (ap (λ s. m id at ∷ s) (read-take id (at + 1) n k m))

pub read-write_prefix :
    (id at : ℕ) (s t : Bytes) (m : Memory) → read id at (length s) (write id at (s ++ t) m) ≡ s
read-write_prefix id at s t m = rw (sym (write-append id at s t m)) (
    read-write-Clear id (at + length s) t (write id at s m) id at (length s)
      (λ e. inl (omega arith))
    ∙ read-write_self id at s m)

-- Where a region is.
abbrev pub Among : Word → List Word → Type 0
Among w [] = ⊥
Among w (x ∷ ws) = (x ≡ w) ⊎ Among w ws

-- A text that lies in a region.
abbrev pub Lies : List Word → StringRef → Type 0
Lies ws ((id, at), n) =
    (start : ℕ) × (len : ℕ) × Among (id, start, len) ws × (at ≡ start + word_size) × (n ≤ len)

pub All-Among : (P : Word → Type 0) (w : Word) (ws : List Word) → All P ws → Among w ws → P w
All-Among P w [] a m = absurd m
All-Among P w (x ∷ ws) a (inl e) = rw e at a.0
All-Among P w (x ∷ ws) a (inr m) = All-Among P w ws a.1 m

pub concat_string_ref_count_lem :
    (acc : ℕ) (ss : List Bytes) → concat_string_ref_count acc ss ≡ acc + length (flatten ss)
unfolding concat_string_ref_count flatten
concat_string_ref_count_lem acc [] = omega arith
concat_string_ref_count_lem acc (s ∷ ss) =
    omega (arith, concat_string_ref_count_lem (acc + length s) ss, length-append s (flatten ss))

pub concat_string_ref_copy_lem :
    (p : Place) (ss : List Bytes) (a : BlockAllocator)
    → concat_string_ref_copy p ss a ≡ (store p (flatten ss) a, (p.0, p.1 + length (flatten ss)))
unfolding concat_string_ref_copy flatten write
concat_string_ref_copy_lem p [] a = let e : p.1 + 0 ≡ p.1 = omega arith in rw e refl
concat_string_ref_copy_lem p (s ∷ ss) a =
    let e : p.1 + length s + length (flatten ss) ≡ p.1 + length (s ++ flatten ss) =
      omega (arith, length-append s (flatten ss)) in
    rw
      (
        concat_string_ref_copy_lem (p.0, p.1 + length s) ss (store p s a),
        e,
        write-append p.0 p.1 s (flatten ss) a.bytes,
      )
      refl

-- The calls that make texts: `fill` writes the bytes that make_byte_ref gives.
pub data Call : Type 0 where
  make : Bytes → Call
  concat : List Bytes → Call
  fill : Bytes → Call

abbrev pub asked_text : Call → Bytes
asked_text (make s) = s
asked_text (concat ss) = flatten ss
asked_text (fill s) = s

abbrev pub texts : List StringRef → BlockAllocator → List Bytes
texts refs a = map (λ r. text_of r a) refs

-- Texts that lie in regions stay and keep their bytes.
abbrev pub Keeps : BlockAllocator → BlockAllocator → Type 0
Keeps a a' = (r : StringRef) → Lies a.words r → Lies a'.words r × (text_of r a' ≡ text_of r a)

module _ (base : ℕ → ℕ) where
  concat_string_ref_lem :
      (ss : List Bytes) (a : BlockAllocator)
      → concat_string_ref base ss a ≡ make_string_ref base (flatten ss) a
  unfolding concat_string_ref make_string_ref
  concat_string_ref_lem ss a =
      let count = concat_string_ref_count_lem 0 ss in
      let same : concat_string_ref_count 0 ss ≡ length (flatten ss) = omega (arith, count) in
      rw same (elim (Option-cases (alloc base (length (flatten ss) + 1) a)) [
        | inl e ↦ rw e refl
        | inr (r, e) ↦
            rw
              (
                e,
                concat_string_ref_copy_lem r.1 ss r.0,
                write-append r.1.0 r.1.1 (flatten ss) (0 ∷ []) r.0.bytes,
              )
              refl
      ])

  unfoldable pub perform : Call → BlockAllocator → Option (BlockAllocator × StringRef)
  unfolding make_string_ref concat_string_ref make_byte_ref write
  perform (make s) a = make_string_ref base s a
  perform (concat ss) a = concat_string_ref base ss a
  perform (fill s) a =
      make_byte_ref base (length s) a >>= λ r. some (store r.1 s r.0, (r.1, length s))

  unfoldable pub perform_all : List Call → BlockAllocator → Option (BlockAllocator × List StringRef)
  unfolding perform
  perform_all [] a = some (a, [])
  perform_all (c ∷ cs) a =
      let later = perform_all cs in (perform c a >>= λ r. later r.0 >>= λ q. some (q.0, r.1 ∷ q.1))

  abbrev Makes : Bytes → BlockAllocator → Option (BlockAllocator × StringRef) → Type 0
  Makes s a o =
      (a' : BlockAllocator) × (r : StringRef) × (o ≡ some (a', r))
      × IsValid a'
      × Lies a'.words r
      × (text_of r a' ≡ s)
      × Keeps a a'

  -- Bytes that are stored in a new region, of which the text is a part.
  stored :
      (s t : Bytes) (a : BlockAllocator)
      → IsValid a
      → Makes s a
          (alloc base (length (s ++ t)) a >>= λ r. some (store r.1 (s ++ t) r.0, (r.1, length s)))
  stored s t a v =
      let ((a', (id, at)), done, (start, len, v', words, place, fits, bytes)) =
        alloc-Gives base (length (s ++ t)) a v in
      let kept = write id at (s ++ t) a'.bytes in
      (
        record a' { bytes = kept },
        ((id, at), length s),
        rw done refl,
        record {
          placed = v'.placed;
          apart = v'.apart;
          headed = v'.headed;
          threshold = v'.threshold;
        },
        (start, len, rw words (inl refl), place, omega (arith, length-append s t)),
        read-write_prefix id at s t a'.bytes,
        λ ((k, p), n) (begin, size, m, here, inside). (
          (begin, size, rw words (inr m), here, inside),
          read-write-Clear id at (s ++ t) a'.bytes k p n (λ e.
                let apart = All-Among _ (k, begin, size) a.words (rw words at v'.apart).0 m e in
                elim apart [ inl low ↦ inr (omega arith) | inr high ↦ inl (omega arith) ])
              ∙ rw bytes refl,
        ),
      )

  perform-Makes : (c : Call) (a : BlockAllocator) → IsValid a → Makes (asked_text c) a (perform c a)
  unfolding perform make_string_ref make_byte_ref
  perform-Makes (make s) a v =
      let e : length (s ++ 0 ∷ []) ≡ length s + 1 = length-append s (0 ∷ []) in
      rw e at (stored s (0 ∷ []) a v)
  perform-Makes (concat ss) a v =
      let e : length (flatten ss ++ 0 ∷ []) ≡ length (flatten ss) + 1 =
        length-append (flatten ss) (0 ∷ []) in
      rw (concat_string_ref_lem ss a, make_string_ref) (rw e at (stored (flatten ss) (0 ∷ []) a v))
  perform-Makes (fill s) a v = elim (Option-cases (alloc base (length s) a)) [
    | inl e ↦ rw e (rw (append-nil s, e) at (stored s [] a v))
    | inr (r, e) ↦ rw e (rw (append-nil s, e) at (stored s [] a v))
  ]

  -- In a valid allocator, any sequence of make_string_ref, concat_string_ref and make_byte_ref whose
  -- bytes are then written runs to its end and leaves the allocator valid; at the end every text that
  -- it made has the bytes that were asked for, also those that were made first, and every text that
  -- was there before has its bytes.
  pub perform_all-texts :
      (cs : List Call) (a : BlockAllocator)
      → IsValid a
      → (a' : BlockAllocator) × (refs : List StringRef) × (perform_all cs a ≡ some (a', refs))
        × IsValid a'
        × (texts refs a' ≡ map asked_text cs)
        × Keeps a a'
  unfolding perform_all
  perform_all-texts [] a v = (a, [], refl, v, refl, λ r h. (h, refl))
  perform_all-texts (c ∷ cs) a v =
      let (a1, r, done, v1, lies, text, kept) = perform-Makes c a v in
      let (a2, refs, rest, v2, all, later) = perform_all-texts cs a1 v1 in
      (
        a2,
        r ∷ refs,
        rw (done, rest) refl,
        v2,
        rw ((later r lies).1, text, all) refl,
        λ q h. let (h1, e1) = kept q h in let (h2, e2) = later q h1 in (h2, e2 ∙ e1),
      )
