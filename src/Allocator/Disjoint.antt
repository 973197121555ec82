-- ===== src/Allocator/Disjoint.antt =====
-- allocator.h: the regions that alloc hands out lie in their blocks and share no byte.
use maock.Prelude.{
  ℕ, ◌+◌, ◌≤◌, ◌<◌, ◌≡◌, refl, ap, ◌∙◌, ◌⊎◌, inl, inr, true, Option, none, some, List, [], ◌∷◌,
  arith, leb, ◌==◌, if◌then◌else◌, Bool-cases, Option-cases, All, length,
}
use maock.Allocator.{
  min, new_allocator, MemBlock, Place, Word, BlockAllocator, max, find_block, put_block,
  alloc_mem_block, word_size, alloc_isolated, has_room, with_room, align, cut, alloc,
}

-- The size_t and the region behind it lie in a block, before its `last`.
abbrev pub InBlock : List MemBlock → Word → Type 0
InBlock bs (id, at, len) =
    (b : MemBlock) × (find_block id bs ≡ some b)
    × (at + word_size + len ≤ b.last)
    × (at + word_size + len ≤ b.end)

-- Two regions, with the size_t of each, share no byte.
abbrev pub Apart : Word → Word → Type 0
Apart (id, at, len) (k, place, size) =
    id ≡ k → (at + word_size + len ≤ place) ⊎ (place + word_size + size ≤ at)

abbrev pub AllApart : List Word → Type 0
AllApart [] = Unit
AllApart (w ∷ ws) = All (Apart w) ws × AllApart ws

abbrev pub HasHead : Option ℕ → List MemBlock → Type 0
HasHead none bs = Unit
HasHead (some id) bs = (b : MemBlock) × (find_block id bs ≡ some b)

pub record IsValid (a : BlockAllocator) : Type 0 where
  pub placed : All (InBlock a.retain) a.words
  pub apart : AllApart a.words
  pub headed : HasHead a.head a.retain
  pub threshold : a.isolation_threshold ≤ a.block_size

find_block-lt :
    (id : ℕ) (bs : List MemBlock) (b : MemBlock) → find_block id bs ≡ some b → id < length bs
unfolding find_block
find_block-lt id [] b h = absurd (ground arith)
find_block-lt id (c ∷ bs) b h = ground (arith, find_block-lt id bs b)

find_block-new : (b : MemBlock) (bs : List MemBlock) → find_block (length bs) (b ∷ bs) ≡ some b
unfolding find_block
find_block-new b bs = ground arith

find_block-old :
    (id : ℕ) (b c : MemBlock) (bs : List MemBlock)
    → find_block id bs ≡ some b
    → find_block id (c ∷ bs) ≡ some b
unfolding find_block
find_block-old id b c bs h = let lt = find_block-lt id bs b h in ground (arith, lt)

length-put_block :
    (id : ℕ) (c : MemBlock) (bs : List MemBlock) → length (put_block id c bs) ≡ length bs
unfolding put_block
length-put_block id c [] = refl
length-put_block id c (b ∷ bs) = ground (arith, length-put_block id c bs)

find-put_block :
    (id k : ℕ) (b c : MemBlock) (bs : List MemBlock)
    → find_block id bs ≡ some b
    → find_block k (put_block id c bs) ≡ (if id == k then some c else find_block k bs)
unfolding find_block put_block
find-put_block id k b c [] h = absurd (ground arith)
find-put_block id k b c (d ∷ bs) h =
    ground (arith, find-put_block id k b c bs, length-put_block id c bs)

InBlock-cons : (c : MemBlock) (bs : List MemBlock) (w : Word) → InBlock bs w → InBlock (c ∷ bs) w
InBlock-cons c bs (id, at, len) (b, found, l, e) = (b, find_block-old id b c bs found, l, e)

All-InBlock-cons :
    (c : MemBlock) (bs : List MemBlock) (ws : List Word)
    → All (InBlock bs) ws
    → All (InBlock (c ∷ bs)) ws
All-InBlock-cons c bs [] a = tt
All-InBlock-cons c bs (w ∷ ws) a = (InBlock-cons c bs w a.0, All-InBlock-cons c bs ws a.1)

-- The word of a new block is apart from all others.
Apart-new :
    (bs : List MemBlock) (at len : ℕ) (ws : List Word)
    → All (InBlock bs) ws
    → All (Apart (length bs, at, len)) ws
Apart-new bs at len [] a = tt
Apart-new bs at len ((k, place, size) ∷ ws) a = (
  λ e. (let lt = find_block-lt k bs a.0.0 a.0.1 in absurd (omega arith)),
  Apart-new bs at len ws a.1,
)

-- What alloc gives: a valid allocator with one more word, of the size or more, in front of the place.
abbrev pub Gives : ℕ → BlockAllocator → BlockAllocator × Place → Type 0
Gives size a (a', (id, at)) =
    (start : ℕ) × (len : ℕ) × IsValid a'
    × (a'.words ≡ (id, start, len) ∷ a.words)
    × (at ≡ start + word_size)
    × (size ≤ len)
    × (a'.bytes ≡ a.bytes)

alloc_isolated-Gives :
    (size : ℕ) (a : BlockAllocator) → IsValid a → Gives size a (alloc_isolated size a)
unfolding alloc_isolated alloc_mem_block
alloc_isolated-Gives size a v =
    let len = max 16 size in
    let b : MemBlock = record { last = len + word_size; end = len + word_size } in
    (
      0,
      len,
      record {
        placed = (
          (b, find_block-new b a.retain, omega arith, omega arith),
          All-InBlock-cons b a.retain a.words v.placed,
        );
        apart = (Apart-new a.retain 0 len a.words v.placed, v.apart);
        headed = HasHead-cons b a.head a.retain v.headed;
        threshold = v.threshold;
      },
      refl,
      refl,
      ground arith,
      refl,
    )
  where
    HasHead-cons :
        (c : MemBlock) (o : Option ℕ) (bs : List MemBlock) → HasHead o bs → HasHead o (c ∷ bs)
    HasHead-cons c none bs h = tt
    HasHead-cons c (some id) bs (b, found) = (b, find_block-old id b c bs found)

-- With the room that is asked for.
record HasRoom (size : ℕ) (a : BlockAllocator) (id : ℕ) (b : MemBlock) : Type 0 where
  head_is : a.head ≡ some id
  found : find_block id a.retain ≡ some b
  room : b.last + size + word_size ≤ b.end

has_room-HasRoom :
    (size : ℕ) (a : BlockAllocator)
    → has_room size a ≡ true
    → (id : ℕ) × (b : MemBlock) × HasRoom size a id b
unfolding has_room
has_room-HasRoom size a h = elim (Option-cases a.head) [
  | inl e ↦ absurd (ground (arith, e))
  | inr (id, e) ↦ elim (Option-cases (find_block id a.retain)) [
    | inl f ↦ absurd (ground (arith, e, f))
    | inr (b, f) ↦ (id, b, record { head_is = e; found = f; room = ground (arith, e, f) })
  ]
]

with_room-HasRoom :
    (size : ℕ) (a : BlockAllocator)
    → IsValid a
    → size + word_size ≤ a.block_size
    → IsValid (with_room size a)
      × ((with_room size a).words ≡ a.words)
      × ((with_room size a).bytes ≡ a.bytes)
      × ((id : ℕ) × (b : MemBlock) × HasRoom size (with_room size a) id b)
unfolding with_room alloc_mem_block
with_room-HasRoom size a v fits = elim (Bool-cases (has_room size a)) [
  | inl h ↦ rw h (v, refl, refl, has_room-HasRoom size a h)
  | inr h ↦
      let b : MemBlock = record { last = 0; end = a.block_size } in
      rw h (
        record {
          placed = All-InBlock-cons b a.retain a.words v.placed;
          apart = v.apart;
          headed = (b, find_block-new b a.retain);
          threshold = v.threshold;
        },
        refl,
        refl,
        (
          length a.retain,
          b,
          record { head_is = refl; found = find_block-new b a.retain; room = omega arith },
        ),
      )
]

le-align : (base at : ℕ) → at ≤ align base at
unfolding align
le-align base at = omega arith

module _ (base : ℕ → ℕ) where
  abbrev cut_block : ℕ → ℕ → MemBlock → MemBlock
  cut_block size id b = record b { last = align (base id) (b.last + word_size + size) }

  InBlock-cut :
      (size id : ℕ) (b : MemBlock) (bs : List MemBlock) (ws : List Word)
      → find_block id bs ≡ some b
      → All (InBlock bs) ws
      → All (InBlock (put_block id (cut_block size id b) bs)) ws × All (Apart (id, b.last, size)) ws
  InBlock-cut size id b bs [] found a = (tt, tt)
  InBlock-cut size id b bs ((k, place, len) ∷ ws) found ((c, there, l, e), a) =
      let (later, apart) = InBlock-cut size id b bs ws found a in
      let put = find-put_block id k b (cut_block size id b) bs found in
      let up = le-align (base id) (b.last + word_size + size) in
      let same : id ≡ k → c ≡ b = λ h. ground (arith, there, found, h) in
      (
        (
          elim (Bool-cases (id == k)) [
            | inl t ↦
                let h : id ≡ k = ground arith in
                let s = same h in
                (
                  cut_block size id b,
                  put ∙ rw t refl,
                  omega (arith, ap (λ (x : MemBlock). x.last) s, up),
                  omega (arith, ap (λ (x : MemBlock). x.end) s),
                )
            | inr f ↦ (c, put ∙ rw f there, l, e)
          ],
          later,
        ),
        ((λ h. inr (omega (arith, ap (λ (x : MemBlock). x.last) (same h)))), apart),
      )

  cut-Gives :
      (size : ℕ) (a : BlockAllocator) (id : ℕ) (b : MemBlock)
      → IsValid a
      → HasRoom size a id b
      → (r : BlockAllocator × Place) × (cut base size a ≡ some r) × Gives size a r
  unfolding cut
  cut-Gives size a id b v h =
      let (placed, apart) = InBlock-cut size id b a.retain a.words h.found v.placed in
      let put = find-put_block id id b (cut_block size id b) a.retain h.found in
      let now : find_block id (put_block id (cut_block size id b) a.retain)
          ≡ some (cut_block size id b) =
        ground (arith, put) in
      let up = le-align (base id) (b.last + word_size + size) in
      (
        (
          record a {
            retain = put_block id (cut_block size id b) a.retain;
            words = (id, b.last, size) ∷ a.words;
          },
          (id, b.last + word_size),
        ),
        rw (h.head_is, h.found) refl,
        (
          b.last,
          size,
          record {
            placed = ((cut_block size id b, now, up, omega (arith, h.room)), placed);
            apart = (apart, v.apart);
            headed = rw h.head_is (cut_block size id b, now);
            threshold = v.threshold;
          },
          refl,
          refl,
          omega arith,
          refl,
        ),
      )

  -- In a valid allocator, alloc of any size succeeds; it leaves the allocator valid, so that all
  -- regions lie in their blocks and share no byte, with one region more, which has the size or more,
  -- and changes no byte of the others.
  pub alloc-Gives :
      (size : ℕ) (a : BlockAllocator)
      → IsValid a
      → (r : BlockAllocator × Place) × (alloc base size a ≡ some r) × Gives size a r
  unfolding alloc
  alloc-Gives size a v = elim (Bool-cases (leb a.isolation_threshold (size + word_size))) [
    | inl h ↦ (alloc_isolated size a, rw h refl, alloc_isolated-Gives size a v)
    | inr h ↦
        let (v', words, bytes, (id, b, room)) =
          with_room-HasRoom size a v (ground (arith, v.threshold, h)) in
        let (r, done, (start, len, fine, new, at, fits, kept)) =
          cut-Gives size (with_room size a) id b v' room in
        (
          r,
          rw h done,
          (
            start,
            len,
            fine,
            new ∙ ap (λ ws. (r.1.0, start, len) ∷ ws) words,
            at,
            fits,
            kept ∙ bytes,
          ),
        )
  ]

pub new_allocator-IsValid :
    (block_size isolation_threshold : ℕ) (bytes : ℕ → ℕ → ℕ) (a : BlockAllocator)
    → new_allocator block_size isolation_threshold bytes ≡ some a
    → IsValid a
unfolding new_allocator
new_allocator-IsValid block_size isolation_threshold bytes a h =
    elim (Bool-cases (leb isolation_threshold block_size)) [
      | inl fits ↦
          let made : BlockAllocator = record {
            retain = [];
            head = none;
            block_size = block_size;
            isolation_threshold = min block_size isolation_threshold;
            words = [];
            bytes = bytes;
          } in
          let fine : IsValid made = record {
            placed = tt;
            apart = tt;
            headed = tt;
            threshold = ground arith;
          } in
          let e : made ≡ a = ground (arith, fits, h) in rw e at fine
      | inr no_fit ↦ absurd (ground (arith, no_fit))
    ]
