-- ===== src/Allocator.antt =====
-- allocator.h: BlockAllocator, which cuts regions out of blocks, and the texts that it keeps.
pub mod Disjoint
pub mod Kept
pub mod Grown
use mathlib.Core.List.{flatten}
use maock.Prelude.{
  ℕ, zero, suc, ◌+◌, ◌-◌, ◌*◌, ◌/◌, Bool, false, ◌&&◌, Option, none, some, List, [], ◌∷◌, ◌++◌, ltb,
  leb, ◌==◌, if◌then◌else◌, length,
}
use maock.Bytes.{Bytes}
use maock.Prelude.Partial.{◌>>=◌}

-- MemBlock: its `last` and `end` as distances from `begin`.
pub record MemBlock : Type 0 where
  pub last : ℕ
  pub end : ℕ

-- A place in a block: the number of the block, counted from the first that was allocated, and the
-- distance from its `begin`. Different blocks share no byte, as `new` promises.
abbrev pub Place : Type 0
Place = ℕ × ℕ

-- A size_t that was stored in front of a region: its place and its value.
abbrev pub Word : Type 0
Word = ℕ × ℕ × ℕ

-- BlockAllocator with the memory that it manages: `retain` from the last block to the first,
-- the size_t objects from the last that was stored, and the bytes of the regions.
pub record BlockAllocator : Type 0 where
  pub retain : List MemBlock
  pub head : Option ℕ
  pub block_size : ℕ
  pub isolation_threshold : ℕ
  pub words : List Word
  pub bytes : ℕ → ℕ → ℕ

abbrev pub min : ℕ → ℕ → ℕ
min a b = if ltb b a then b else a

abbrev pub max : ℕ → ℕ → ℕ
max a b = if ltb a b then b else a

-- The constructor; `none` is the failing assertion.
unfoldable pub new_allocator : ℕ → ℕ → (ℕ → ℕ → ℕ) → Option BlockAllocator
new_allocator block_size isolation_threshold bytes =
    if leb isolation_threshold block_size
    then some (record {
      retain = [];
      head = none;
      block_size = block_size;
      isolation_threshold = min block_size isolation_threshold;
      words = [];
      bytes = bytes;
    })
    else none

-- reset: all blocks are freed, and with them what stands in them.
unfoldable pub reset : BlockAllocator → BlockAllocator
reset a = record a { retain = []; head = none; words = [] }

-- The block of a number.
unfoldable pub find_block : ℕ → List MemBlock → Option MemBlock
find_block id [] = none
find_block id (b ∷ bs) = let later = find_block id bs in if length bs == id then some b else later

unfoldable pub put_block : ℕ → MemBlock → List MemBlock → List MemBlock
put_block id c [] = []
put_block id c (b ∷ bs) =
    let later = b ∷ put_block id c bs in if length bs == id then c ∷ bs else later

-- alloc_mem_block; the number of the new block is that of the blocks before it.
unfoldable pub alloc_mem_block : ℕ → BlockAllocator → BlockAllocator
alloc_mem_block size a = record a { retain = record { last = 0; end = size } ∷ a.retain }

-- sizeof(size_t)
abbrev pub word_size : ℕ
word_size = 8

-- The first branch of alloc: a block of its own.
unfoldable pub alloc_isolated : ℕ → BlockAllocator → BlockAllocator × Place
unfolding alloc_mem_block
alloc_isolated size a =
    let len = max 16 size in
    let id = length a.retain in
    let made = alloc_mem_block (len + word_size) a in
    (
      record made {
        retain = record { last = len + word_size; end = len + word_size } ∷ a.retain;
        words = (id, 0, len) ∷ a.words;
      },
      (id, word_size),
    )

-- Whether the current block has room: `end - last` is signed, since `last` may be behind `end`.
unfoldable pub has_room : ℕ → BlockAllocator → Bool
unfolding find_block
has_room size a = elim a.head [
  | none ↦ false
  | some id ↦ elim (find_block id a.retain) [
    | none ↦ false
    | some b ↦ leb (b.last + size + word_size) b.end
  ]
]

-- What `head` is behind the test: the current block, or a new one.
unfoldable pub with_room : ℕ → BlockAllocator → BlockAllocator
unfolding has_room alloc_mem_block
with_room size a =
    if has_room size a
    then a
    else record (alloc_mem_block a.block_size a) { head = some (length a.retain) }

-- Of an address, the next multiple of 16, as a distance from the start of the block at `base`.
unfoldable pub align : ℕ → ℕ → ℕ
align base at = (base + at + 15) / 16 * 16 - base

-- The size_t at a place.
unfoldable pub find_word : ℕ → ℕ → List Word → Option ℕ
find_word id at [] = none
find_word id at ((k, place, len) ∷ ws) =
    let later = find_word id at ws in if k == id && place == at then some len else later

-- get_alloc_length; `none` where no size_t was stored in front of the place.
unfoldable pub get_alloc_length : Place → BlockAllocator → Option ℕ
unfolding find_word
get_alloc_length (id, at) a =
    if leb word_size at then find_word id (at - word_size) a.words else none

-- The bytes from a place on, and a copy to it.
unfoldable pub read : ℕ → ℕ → ℕ → (ℕ → ℕ → ℕ) → Bytes
read id at zero m = []
read id at (suc n) m = m id at ∷ read id (at + 1) n m

unfoldable pub write : ℕ → ℕ → Bytes → (ℕ → ℕ → ℕ) → ℕ → ℕ → ℕ
write id at [] m = m
write id at (c ∷ s) m = write id (at + 1) s (λ k p. if k == id && p == at then c else m k p)

abbrev pub store : Place → Bytes → BlockAllocator → BlockAllocator
store p s a = record a { bytes = write p.0 p.1 s a.bytes }

-- StringRef: the place of its first byte, and its size.
abbrev pub StringRef : Type 0
StringRef = Place × ℕ

abbrev pub text_of : StringRef → BlockAllocator → Bytes
text_of (p, n) a = read p.0 p.1 n a.bytes

-- concat_string_ref_count
unfoldable pub concat_string_ref_count : ℕ → List Bytes → ℕ
concat_string_ref_count acc [] = acc
concat_string_ref_count acc (s ∷ ss) = concat_string_ref_count (acc + length s) ss

-- concat_string_ref_copy, with the place behind the last byte.
unfoldable pub concat_string_ref_copy : Place → List Bytes → BlockAllocator → BlockAllocator × Place
unfolding write
concat_string_ref_copy p [] a = (a, p)
concat_string_ref_copy p (s ∷ ss) a = concat_string_ref_copy (p.0, p.1 + length s) ss (store p s a)

-- `base` gives the address of the `begin` of each block.
module _ (base : ℕ → ℕ) where
  -- The end of alloc: a region of the block `head`. `none` is a head that is no block.
  unfoldable pub cut : ℕ → BlockAllocator → Option (BlockAllocator × Place)
  unfolding find_block put_block align
  cut size a = a.head >>= λ id. find_block id a.retain >>= λ b. some (
    record a {
      retain =
          put_block id (record b { last = align (base id) (b.last + word_size + size) }) a.retain;
      words = (id, b.last, size) ∷ a.words;
    },
    (id, b.last + word_size),
  )

  unfoldable pub alloc : ℕ → BlockAllocator → Option (BlockAllocator × Place)
  unfolding alloc_isolated with_room cut
  alloc size a =
      if leb a.isolation_threshold (size + word_size)
      then some (alloc_isolated size a)
      else cut size (with_room size a)

  -- realloc; `none` in place of a pointer is nullptr.
  unfoldable pub realloc : Option Place → ℕ → BlockAllocator → Option (BlockAllocator × Place)
  unfolding alloc get_alloc_length read write
  realloc none size a = alloc size a
  realloc (some p) size a = get_alloc_length p a >>= λ alloclen.
      if leb size alloclen
      then some (a, p)
      else (alloc (max (size + 1) (alloclen * 2)) a >>= λ r.
          some (store r.1 (read p.0 p.1 alloclen r.0.bytes) r.0, r.1))

  -- make_string_ref
  unfoldable pub make_string_ref : Bytes → BlockAllocator → Option (BlockAllocator × StringRef)
  unfolding alloc write
  make_string_ref src a =
      alloc (length src + 1) a >>= λ r. some (store r.1 (src ++ 0 ∷ []) r.0, (r.1, length src))

  -- concat_string_ref
  unfoldable pub concat_string_ref :
      List Bytes → BlockAllocator → Option (BlockAllocator × StringRef)
  unfolding alloc concat_string_ref_count concat_string_ref_copy write
  concat_string_ref args a =
      let len = concat_string_ref_count 0 args in
      (alloc (len + 1) a >>= λ r.
      let (copied, end) = concat_string_ref_copy r.1 args r.0 in
      some (store end (0 ∷ []) copied, (r.1, len)))

  -- realloc_concat_string_ref
  unfoldable pub realloc_concat_string_ref :
      StringRef → List Bytes → BlockAllocator → Option (BlockAllocator × StringRef)
  unfolding concat_string_ref realloc concat_string_ref_count concat_string_ref_copy write
  realloc_concat_string_ref (p, n) args a =
      let len = n + concat_string_ref_count 0 args in
      if n == 0
      then concat_string_ref args a
      else (realloc (some p) (len + 1) a >>= λ r.
          let (copied, end) = concat_string_ref_copy (r.1.0, r.1.1 + n) args r.0 in
          some (store end (0 ∷ []) copied, (r.1, len)))

  -- make_byte_ref
  unfoldable pub make_byte_ref : ℕ → BlockAllocator → Option (BlockAllocator × Place × ℕ)
  unfolding alloc
  make_byte_ref size a = alloc size a >>= λ r. some (r.0, r.1, size)
