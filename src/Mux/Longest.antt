-- ===== src/Mux/Longest.antt =====
-- asio_server_serve_mux.cc: the search of match.
use mathlib.Core.List.{foldl}
use mathlib.Core.List.{Mem, mem-cons_self, mem-cons_of_mem}
use maock.Prelude.{
  ℕ, ◌≤◌, ◌<◌, ◌≡◌, refl, ◌⊎◌, inl, inr, true, false, ◌&&◌, Option, none, some, [], ◌∷◌, arith, ltb,
  Bool-cases, &&_true, All, length,
}
use maock.Bytes.{Bytes}
use maock.Mux.{Entry, Mux, path_match, better, match_entry}

module _ {A : Type 0} (path : Bytes) where
  -- No pattern of the map that matches is longer than `n`.
  abbrev pub NoneAbove : ℕ → Mux A → Type 0
  NoneAbove n = All (λ q. path_match q.0 path ≡ true → length q.0 ≤ n)

  -- What a search over the map may give: an entry of a matching pattern that none is longer than,
  -- or nothing where no pattern matches.
  abbrev pub Searched : Option (Entry A) → Mux A → Type 0
  Searched none m = All (λ q. path_match q.0 path ≡ false) m
  Searched (some e) m =
      (k : Bytes) × Mem (k, e) m × (path_match k path ≡ true) × NoneAbove (length k) m

  -- A search that goes on from an entry `d` of a pattern of `n` bytes: it keeps that entry, or
  -- finds one of a longer pattern.
  abbrev Continued : Entry A → ℕ → Option (Entry A) → Mux A → Type 0
  Continued d n r m =
      ((r ≡ some d) × NoneAbove n m)
      ⊎ ((k : Bytes) × (e : Entry A) × (r ≡ some e)
          × Mem (k, e) m
          × (path_match k path ≡ true)
          × NoneAbove (length k) m
          × (n < length k))

  foldl-Continued :
      (d : Entry A) (n : ℕ) (m : Mux A) → Continued d n (foldl (better path) (some d, n) m).0 m
  unfolding foldl better
  foldl-Continued d n [] = inl (refl, tt)
  foldl-Continued d n ((k, e) ∷ m) = elim (Bool-cases (path_match k path && ltb n (length k))) [
    | inl takes ↦
        let (matches, longer) = &&_true (path_match k path) (ltb n (length k)) takes in
        rw (foldl, takes)
          (elim (foldl-Continued e (length k) m) [
            | inl (kept, below) ↦
                inr (k, e, kept, mem-cons_self, matches, ((λ h. omega arith), below), ground arith)
            | inr (k', e', found, at, matches', below, above) ↦ inr (
              k',
              e',
              found,
              mem-cons_of_mem (k, e) at,
              matches',
              ((λ h. omega arith), below),
              ground arith,
            )
          ])
    | inr leaves ↦
        rw (foldl, leaves)
          (elim (foldl-Continued d n m) [
            | inl (kept, below) ↦ inl (kept, ((λ h. ground arith), below))
            | inr (k', e', found, at, matches', below, above) ↦ inr (
              k',
              e',
              found,
              mem-cons_of_mem (k, e) at,
              matches',
              ((λ h. ground arith), below),
              above,
            )
          ])
  ]

  Continued-Searched :
      (k : Bytes) (e : Entry A) (m : Mux A) (r : Option (Entry A))
      → path_match k path ≡ true
      → Continued e (length k) r m
      → Searched r ((k, e) ∷ m)
  Continued-Searched k e m r h (inl (kept, below)) =
      rw kept (k, mem-cons_self, h, ((λ g. omega arith), below))
  Continued-Searched k e m r h (inr (k', e', found, at, matches', below, above)) =
      rw found (k', mem-cons_of_mem (k, e) at, matches', ((λ g. omega arith), below))

  Searched-skip :
      (k : Bytes) (e : Entry A) (m : Mux A) (r : Option (Entry A))
      → path_match k path ≡ false
      → Searched r m
      → Searched r ((k, e) ∷ m)
  Searched-skip k e m none h s = (h, s)
  Searched-skip k e m (some d) h (k', at, matches', below) =
      (k', mem-cons_of_mem (k, e) at, matches', ((λ g. absurd (ground arith)), below))

  foldl-Searched : (m : Mux A) → Searched (foldl (better path) (none, 0) m).0 m
  unfolding foldl better
  foldl-Searched [] = tt
  foldl-Searched ((k, e) ∷ m) = elim (Bool-cases (path_match k path)) [
    | inl matches ↦
        rw (foldl, matches) (Continued-Searched k e m _ matches (foldl-Continued e (length k) m))
    | inr other ↦ rw (foldl, other) (Searched-skip k e m _ other (foldl-Searched m))
  ]

  -- For every map and path, match gives the entry of a pattern of the map that matches the path
  -- and that no matching pattern of the map is longer than; it gives nothing only where no pattern
  -- of the map matches.
  pub match_entry-Searched : (m : Mux A) → Searched (match_entry path m) m
  unfolding match_entry
  match_entry-Searched m = foldl-Searched m
