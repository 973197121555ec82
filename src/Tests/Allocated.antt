-- ===== src/Tests/Allocated.antt =====
-- allocator.h: an allocator of blocks of 64 bytes on small inputs.
use mathlib.Core.List.{flatten}
use maock.Prelude.{
  ℕ, ◌+◌, ◌*◌, ◌≡◌, refl, inl, ◌&&◌, none, some, List, [], ◌∷◌, ◌++◌, arith, ◌==◌, if◌then◌else◌,
}
use maock.Bytes.{codes}
use maock.Allocator.{
  Place, BlockAllocator, StringRef, text_of, new_allocator, alloc, find_block,
  realloc_concat_string_ref,
}
use maock.Allocator.Disjoint.{IsValid, Gives, new_allocator-IsValid, alloc-Gives}
use maock.Allocator.Kept.{
  Call, make, concat, fill, perform_all, texts, Keeps, Lies, perform_all-texts,
}
use maock.Allocator.Grown.{LiesBut, realloc_concat_string_ref_text}

abbrev clear : ℕ → ℕ → ℕ
clear id at = 0

-- Blocks that begin 1000 bytes apart.
abbrev base : ℕ → ℕ
base id = 32 + 1000 * id

abbrev empty : BlockAllocator
empty = record {
  retain = [];
  head = none;
  block_size = 64;
  isolation_threshold = 32;
  words = [];
  bytes = clear;
}

empty-IsValid : IsValid empty
unfolding new_allocator
empty-IsValid = new_allocator-IsValid 64 32 clear empty refl

alloc-Gives_example : (r : BlockAllocator × Place) × (alloc base 5 empty ≡ some r) × Gives 5 empty r
alloc-Gives_example = alloc-Gives base 5 empty empty-IsValid

abbrev calls : List Call
calls = make (codes "ab") ∷ concat (codes "c" ∷ codes "de" ∷ []) ∷ fill (1 ∷ 2 ∷ []) ∷ []

perform_all-texts_example :
    (a : BlockAllocator) × (refs : List StringRef) × (perform_all base calls empty ≡ some (a, refs))
    × IsValid a
    × (texts refs a ≡ codes "ab" ∷ codes "cde" ∷ (1 ∷ 2 ∷ []) ∷ [])
    × Keeps empty a
unfolding flatten
perform_all-texts_example = perform_all-texts base calls empty empty-IsValid

-- With the text "ab" in its first block.
abbrev with_ab : BlockAllocator
with_ab = record {
  retain = record { last = 16; end = 64 } ∷ [];
  head = some 0;
  block_size = 64;
  isolation_threshold = 32;
  words = (0, 0, 3) ∷ [];
  bytes = λ id at. if id == 0 && at == 8 then b'a' else if id == 0 && at == 9 then b'b' else 0;
}

with_ab-IsValid : IsValid with_ab
unfolding find_block
with_ab-IsValid = record {
  placed = ((record { last = 16; end = 64 }, refl, omega arith, omega arith), tt);
  apart = (tt, tt);
  headed = (record { last = 16; end = 64 }, refl);
  threshold = omega arith;
}

realloc_concat_string_ref_text_example :
    (a : BlockAllocator) × (r : StringRef) × (realloc_concat_string_ref base
        ((0, 8), 2)
        (codes "cd" ∷ [])
        with_ab
      ≡ some (a, r))
    × IsValid a
    × Lies a.words r
    × (text_of r a ≡ text_of ((0, 8), 2) with_ab ++ codes "cd")
    × ((q : StringRef)
        → LiesBut (0, 0, 3) with_ab.words q
        → Lies a.words q × (text_of q a ≡ text_of q with_ab))
unfolding flatten
realloc_concat_string_ref_text_example =
    realloc_concat_string_ref_text base 0 0 3 2 (codes "cd" ∷ []) with_ab with_ab-IsValid (inl refl)
      (omega arith) (omega arith)
