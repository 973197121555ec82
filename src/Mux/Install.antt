-- ===== src/Mux/Install.antt =====
-- asio_server_serve_mux.cc: the entry that handle leaves under its pattern.
use maock.Prelude.{
  ℕ, ◌-◌, ◌<◌, ◌≡◌, refl, ap, ◌∙◌, inl, inr, true, false, not, ◌&&◌, Option, none, some, [], ◌∷◌,
  arith, leb, ◌==◌, Bool-cases, &&_true, length, take, last_or, length-take_le,
}
use maock.Bytes.{Bytes, eqb}
use maock.Bytes.Find.{eqb_iff}
use maock.Http2.Path.{slash}
use maock.Mux.{
  Entry, Mux, find_entry, emplace, assign, redirect_entry, user_entry, put_redirect, add_redirect,
  is_taken, handle,
}

eqb_trans : (q r k : Bytes) → eqb q r ≡ true → eqb q k ≡ true → eqb r k ≡ true
eqb_trans q r k h l = let same = (eqb_iff q r).0 h in rw same at l

shorter : (k : Bytes) (n : ℕ) → n < length k → eqb (take n k) k ≡ false
shorter k n h = elim (Bool-cases (eqb (take n k) k)) [
  | inl same ↦
      let e = (eqb_iff (take n k) k).0 same in
      absurd (omega (arith, length-take_le n k, ap (λ (u : Bytes). length u) e))
  | inr differs ↦ differs
]

module _ {A : Type 0} where
  abbrev pub or_entry : Option (Entry A) → Entry A → Entry A
  or_entry none d = d
  or_entry (some e) d = e

  taken-kept : (o : Option (Entry A)) (d : Entry A) → is_taken o ≡ true → o ≡ some (or_entry o d)
  taken-kept none d h = absurd (ground arith)
  taken-kept (some e) d h = refl

  find_entry-emplace :
      (k : Bytes) (e : Entry A) (m : Mux A)
      → find_entry k (emplace k e m) ≡ some (or_entry (find_entry k m) e)
  unfolding find_entry emplace
  find_entry-emplace k e [] = rw ((eqb_iff k k).1 refl)
  find_entry-emplace k e ((q, d) ∷ m) = elim (Bool-cases (eqb q k)) [
    | inl same ↦ ground (arith, same)
    | inr other ↦ ground (arith, other, find_entry-emplace k e m)
  ]

  find_entry-emplace_other :
      (k r : Bytes) (e : Entry A) (m : Mux A)
      → eqb r k ≡ false
      → find_entry k (emplace r e m) ≡ find_entry k m
  unfolding find_entry emplace
  find_entry-emplace_other k r e [] n = rw n
  find_entry-emplace_other k r e ((q, d) ∷ m) n = elim (Bool-cases (eqb q r)) [
    | inl same ↦ rw same
    | inr other ↦ rw other (rw (find_entry-emplace_other k r e m n))
  ]

  find_entry-assign_other :
      (k r : Bytes) (e : Entry A) (m : Mux A)
      → eqb r k ≡ false
      → find_entry k (assign r e m) ≡ find_entry k m
  unfolding find_entry assign
  find_entry-assign_other k r e [] n = refl
  find_entry-assign_other k r e ((q, d) ∷ m) n = elim (Bool-cases (eqb q r)) [
    | inl same ↦ rw same (ground (arith, eqb_trans q r k same))
    | inr other ↦ rw other (rw (find_entry-assign_other k r e m n))
  ]

  find_entry-put_redirect :
      (k r : Bytes) (o : Option (Entry A)) (m : Mux A)
      → eqb r k ≡ false
      → find_entry k (put_redirect r k o m) ≡ find_entry k m
  find_entry-put_redirect k r none m n = find_entry-emplace_other k r (redirect_entry k) m n
  find_entry-put_redirect k r (some e) m n = elim (Bool-cases e.user_defined) [
    | inl taken ↦ rw taken
    | inr free ↦ rw free (find_entry-assign_other k r (redirect_entry k) m n)
  ]

  find_entry-add_redirect :
      (k : Bytes) (m : Mux A) → find_entry k (add_redirect k m) ≡ find_entry k m
  unfolding add_redirect
  find_entry-add_redirect k m = elim (Bool-cases (leb 2 (length k) && last_or 0 k == slash)) [
    | inl adds ↦
        let r = take (length k - 1) k in
        rw adds (
          find_entry-put_redirect k r (find_entry r m) m (
            shorter k (length k - 1)
              (ground (arith, &&_true (leb 2 (length k)) (last_or 0 k == slash) adds))))
    | inr none_added ↦ rw none_added
  ]

  -- For a callback and a pattern that is not empty, handle says whether a callback of the user was
  -- missing, and leaves under the pattern the entry that was there, if any was, an implicit
  -- redirect included, and the entry of the callback only where there was none.
  pub find_entry-handle :
      (c : ℕ) (p : Bytes) (f : A) (m : Mux A)
      → ((handle (c ∷ p) (some f) m).0 ≡ not (is_taken (find_entry (c ∷ p) m)))
        × (find_entry (c ∷ p) (handle (c ∷ p) (some f) m).1
            ≡ some (or_entry (find_entry (c ∷ p) m) (user_entry f (c ∷ p))))
  unfolding handle
  find_entry-handle c p f m = elim (Bool-cases (is_taken (find_entry (c ∷ p) m))) [
    | inl taken ↦ rw taken (refl, taken-kept (find_entry (c ∷ p) m) (user_entry f (c ∷ p)) taken)
    | inr free ↦ rw free (
      refl,
      find_entry-emplace (c ∷ p) (user_entry f (c ∷ p)) (add_redirect (c ∷ p) m)
          ∙ rw (find_entry-add_redirect (c ∷ p) m),
    )
  ]
