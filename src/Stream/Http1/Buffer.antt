-- ===== src/Stream/Http1/Buffer.antt =====
-- asio_server_http1_handler.cc: the copies of on_write into its buffer.
use mathlib.Core.List.{flatten}
use maock.Prelude.{
  ◌+◌, ◌-◌, ◌≤◌, ◌≡◌, refl, sym, true, false, Option, some, List, [], ◌∷◌, ◌++◌, append_assoc,
  append-nil, arith, ltb, leb, length, drop, length-append, drop-append_ge, length-drop,
  take-length_append,
}
use maock.Prelude.Partial.{◌>>=◌}
use maock.Bytes.{Bytes}
use maock.Stream.Http1.{Output, copy_to, emit, inc_buffer_size, emit_all, total, emit_sized}

-- `w` is written, and `t` is the room behind it.
abbrev pub filled : Bytes → Bytes → Output
filled w t = (w ++ t, length w)

-- A step writes exactly `s` behind `w`.
abbrev pub Fills : Bytes → Bytes → Bytes → Option Output → Type 0
Fills w s t o = (t' : Bytes) × (o ≡ some (filled (w ++ s) t')) × (length t ≡ length s + length t')

pub copy_to-filled :
    (w s t : Bytes)
    → length s ≤ length t
    → copy_to (length w) s (w ++ t) ≡ some ((w ++ s) ++ drop (length s) t)
unfolding copy_to
copy_to-filled w [] t h = rw (append-nil w) refl
copy_to-filled w (c ∷ s) t h =
    let front = take-length_append w t in
    let past : length w + length (c ∷ s) - length w ≡ length (c ∷ s) = omega arith in
    let back = rw past at (drop-append_ge (length w + length (c ∷ s)) w t (omega arith)) in
    let fits : leb (length w + length (c ∷ s)) (length (w ++ t)) ≡ true =
      ground (arith, h, length-append w t) in
    rw (fits, front, back, append_assoc w (c ∷ s) (drop (length (c ∷ s)) t)) refl

pub emit-Fills : (w s t : Bytes) → length s ≤ length t → Fills w s t (emit s (filled w t))
unfolding emit
emit-Fills w s t h =
    let l : length w + length s ≡ length (w ++ s) = sym (length-append w s) in
    (
      drop (length s) t,
      rw (copy_to-filled w s t h, l) refl,
      omega (arith, h, length-drop (length s) t),
    )

-- Two steps, one after the other.
pub Fills-then :
    (w s u t : Bytes) (o : Option Output) (f : Output → Option Output)
    → Fills w s t o
    → ((t' : Bytes)
        → length t ≡ length s + length t'
        → Fills (w ++ s) u t' (f (filled (w ++ s) t')))
    → Fills w (s ++ u) t (o >>= f)
Fills-then w s u t o f (t1, e, l) g =
    let (t2, e2, l2) = g t1 l in
    (t2, rw (e, sym (append_assoc w s u)) e2, omega (arith, l, l2, length-append s u))

pub Fills-nothing : (w t : Bytes) → Fills w [] t (some (filled w t))
Fills-nothing w t = (t, rw (append-nil w) refl, omega arith)

emit_all-Fills :
    (ss : List Bytes) (w t : Bytes)
    → total ss ≤ length t
    → Fills w (flatten ss) t (emit_all ss (filled w t))
unfolding emit_all flatten
emit_all-Fills [] w t h = Fills-nothing w t
emit_all-Fills (s ∷ ss) w t h =
    Fills-then w s (flatten ss) t (emit s (filled w t)) (emit_all ss)
      (emit-Fills w s t (omega (arith, h)))
      (λ t' l. emit_all-Fills ss (w ++ s) t' (omega (arith, h, l)))

-- With room for the texts the buffer does not grow.
pub emit_sized-Fills :
    (ss : List Bytes) (w t : Bytes)
    → total ss ≤ length t
    → Fills w (flatten ss) t (emit_sized ss (filled w t))
unfolding emit_sized inc_buffer_size
emit_sized-Fills ss w t h =
    let enough : ltb (length (w ++ t)) (total ss) ≡ false = ground (arith, h, length-append w t) in
    rw enough (emit_all-Fills ss w t h)

pub length-flatten : (ss : List Bytes) → length (flatten ss) ≡ total ss
unfolding flatten
length-flatten [] = refl
length-flatten (s ∷ ss) = omega (arith, length-append s (flatten ss), length-flatten ss)
