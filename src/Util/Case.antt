-- ===== src/Util/Case.antt =====
-- util.h: comparisons of texts without regard to case.
use maock.Prelude.{
  ℕ, ◌+◌, ◌-◌, Bool, true, false, ◌&&◌, ◌||◌, [], ◌∷◌, ltb, ◌==◌, if◌then◌else◌, length, drop,
}
use maock.Bytes.{Bytes}
use maock.Util.Hex.{between}

-- lowcase, by its table
unfoldable pub lowcase : ℕ → ℕ
lowcase c = if between b'A' b'Z' c then c + 32 else c

-- istarts_with
unfoldable pub istarts_with : Bytes → Bytes → Bool
unfolding lowcase
istarts_with s [] = true
istarts_with [] (y ∷ t) = false
istarts_with (x ∷ s) (y ∷ t) = lowcase x == lowcase y && istarts_with s t

-- strieq
unfoldable pub strieq : Bytes → Bytes → Bool
unfolding lowcase
strieq [] [] = true
strieq (x ∷ s) (y ∷ t) = lowcase x == lowcase y && strieq s t
strieq _ _ = false

-- iends_with
unfoldable pub iends_with : Bytes → Bytes → Bool
unfolding strieq
iends_with s t =
    if ltb (length s) (length t) then false else strieq (drop (length s - length t) s) t

-- strifind
unfoldable pub strifind : Bytes → Bytes → Bool
unfolding istarts_with
strifind [] t = false
strifind (c ∷ s) t = istarts_with (c ∷ s) t || strifind s t

-- inp_strlower
unfoldable pub inp_strlower : Bytes → Bytes
unfolding lowcase
inp_strlower [] = []
inp_strlower (c ∷ s) = lowcase c ∷ inp_strlower s
