-- ===== src/Memchunk.antt =====
-- memchunk.h: byte buffers as chains of pooled chunks.
pub mod Contents
pub mod Removed
pub mod Owned
pub mod Queue
use mathlib.Core.List.{flatten}
use maock.Prelude.{
  ℕ, zero, suc, ◌+◌, ◌-◌, not, Option, none, some, List, [], ◌∷◌, ◌++◌, map, ltb, leb, ◌==◌,
  if◌then◌else◌, length, take, drop,
}
use maock.Bytes.{Bytes}

-- Memchunk: `pos` is an offset in `buf`, `bytes` what stands from pos to last. Nothing reads `buf`
-- outside of that range. `id` tells the chunks that `new` made apart.
pub record Chunk : Type 0 where
  pub id : ℕ
  pub pos : ℕ
  pub bytes : Bytes

-- Pool: the chunks that `new` made have the numbers below `made`; `freelist` is the chain from
-- freelist on. poolsize and freelistsize are their lengths in bytes.
pub record Pool : Type 0 where
  pub made : ℕ
  pub freelist : List ℕ

unfoldable pub new_pool : Pool
new_pool = record { made = 0; freelist = [] }

-- Pool::get: a chunk with nothing in it.
unfoldable pub get : Pool → Chunk × Pool
get p = elim p.freelist [
  | [] ↦ (record { id = p.made; pos = 0; bytes = [] }, record p { made = p.made + 1 })
  | m ∷ rest ↦ (record { id = m; pos = 0; bytes = [] }, record p { freelist = rest })
]

-- Pool::recycle
unfoldable pub recycle : Chunk → Pool → Pool
recycle m p = record p { freelist = m.id ∷ p.freelist }

-- Memchunks: the chain from head to tail, and `len`. The pool is passed along.
pub record Memchunks : Type 0 where
  pub chunks : List Chunk
  pub len : ℕ

unfoldable pub new_memchunks : Memchunks
new_memchunks = record { chunks = []; len = 0 }

-- `m` with `s` copied to its last.
abbrev pub extend : Chunk → Bytes → Chunk
extend m s = record m { bytes = m.bytes ++ s }

-- `m` with its pos moved on by n.
abbrev pub advance : Chunk → ℕ → Chunk
advance m n = record m { pos = m.pos + n; bytes = drop n m.bytes }

-- std::min
abbrev pub least : ℕ → ℕ → ℕ
least a b = if leb a b then a else b

-- What the chain from a tail on becomes, of a chain that may be empty: `if (!tail) head = tail = get()`.
unfoldable pub at_tail : (Chunk → Pool → List Chunk × Pool) → List Chunk → Pool → List Chunk × Pool
unfolding get
at_tail f [] p = let (m, p') = get p in f m p'
at_tail f (m ∷ []) p = f m p
at_tail f (m ∷ n ∷ ms) p = let (r, p') = at_tail f (n ∷ ms) p in (m ∷ r, p')

-- `size` is N, the bytes of a chunk.
module _ (size : ℕ) where
  -- Memchunk::left
  abbrev pub left : Chunk → ℕ
  left m = size - (m.pos + length m.bytes)

  -- append of one byte, at the tail
  unfoldable pub put_byte : ℕ → Chunk → Pool → List Chunk × Pool
  unfolding get
  put_byte c m p =
      let (n, p') = get p in
      if left m == 0 then (m ∷ extend n (c ∷ []) ∷ [], p') else (extend m (c ∷ []) ∷ [], p)

  unfoldable pub append_byte : ℕ → Memchunks → Pool → Memchunks × Pool
  unfolding at_tail put_byte
  append_byte c b p =
      let (ms, p') = at_tail (put_byte c) b.chunks p in
      (record { chunks = ms; len = b.len + 1 }, p')

  -- The loop of append: what fits goes to the tail, and the rest to chunks behind it.
  unfoldable pub fill_from : ℕ → Bytes → Chunk → Pool → List Chunk × Pool
  unfolding get
  fill_from zero s m p = (m ∷ [], p)
  fill_from (suc fuel) s m p =
      let n = least (length s) (left m) in
      let next = get p in
      let more = fill_from fuel (drop n s) next.0 next.1 in
      if n == length s
      then (extend m (take n s) ∷ [], p)
      else (extend m (take n s) ∷ more.0, more.1)

  -- append: each round but the first takes at least one byte.
  unfoldable pub append : Bytes → Memchunks → Pool → Memchunks × Pool
  unfolding at_tail fill_from
  append [] b p = (b, p)
  append (c ∷ s) b p =
      let (ms, p') = at_tail (fill_from (suc (suc (length s))) (c ∷ s)) b.chunks p in
      (record { chunks = ms; len = b.len + length (c ∷ s) }, p')

  -- copy: each chunk is appended to `dest`; the return value is the length.
  unfoldable pub copy_from : List Chunk → Memchunks → Pool → Memchunks × Pool
  unfolding append
  copy_from [] dest p = (dest, p)
  copy_from (m ∷ ms) dest p = let (d, p') = append m.bytes dest p in copy_from ms d p'

-- The loop of drain: the chain that is left, and the count that is left.
unfoldable pub drain_from : ℕ → List Chunk → Pool → List Chunk × ℕ × Pool
unfolding recycle
drain_from count [] p = ([], count, p)
drain_from count (m ∷ ms) p =
    let n = least count (length m.bytes) in
    let later = drain_from (count - n) ms (recycle m p) in
    if ltb 0 (length (advance m n).bytes) then (advance m n ∷ ms, count - n, p) else later

-- drain: the bytes that it dropped are ndata - count.
unfoldable pub drain : ℕ → Memchunks → Pool → ℕ × Memchunks × Pool
unfolding drain_from
drain count b p =
    let (ms, rest, p') = drain_from count b.chunks p in
    (count - rest, record { chunks = ms; len = b.len - (count - rest) }, p')

-- The loop of remove; `none` is the assertion that a chunk of the chain is not empty.
unfoldable pub remove_from : ℕ → List Chunk → Pool → Option (Bytes × List Chunk × Pool)
unfolding recycle
remove_from count [] p = some ([], [], p)
remove_from count (m ∷ ms) p =
    let n = least count (length m.bytes) in
    let later = remove_from (count - n) ms (recycle m p) in
    if length m.bytes == 0
    then none
    else if ltb 0 (length (advance m n).bytes)
    then some (take n m.bytes, advance m n ∷ ms, p)
    else elim later [ none ↦ none | some (out, rest, p') ↦ some (take n m.bytes ++ out, rest, p') ]

-- remove(void*, size_t): what it copies to the destination.
unfoldable pub remove : ℕ → Memchunks → Pool → Option (Bytes × Memchunks × Pool)
unfolding remove_from
remove count b p = if count == 0 then some ([], b, p) else elim (remove_from count b.chunks p) [
  | none ↦ none
  | some (out, ms, p') ↦ some (out, record { chunks = ms; len = b.len - length out }, p')
]

-- remove(Memchunks&): the whole chain goes behind that of `dest`.
unfoldable pub move_all : Memchunks → Memchunks → Memchunks × Memchunks
unfolding new_memchunks
move_all b dest =
    (new_memchunks, record { chunks = dest.chunks ++ b.chunks; len = dest.len + b.len })

-- riovec: the ranges of the first chunks.
unfoldable pub riovec : ℕ → Memchunks → List Bytes
riovec iovcnt b = take iovcnt (map (λ (m : Chunk). m.bytes) b.chunks)

unfoldable pub recycle_all : List Chunk → Pool → Pool
unfolding recycle
recycle_all [] p = p
recycle_all (m ∷ ms) p = recycle_all ms (recycle m p)

-- reset
unfoldable pub reset : Memchunks → Pool → Memchunks × Pool
unfolding recycle_all new_memchunks
reset b p = (new_memchunks, recycle_all b.chunks p)
