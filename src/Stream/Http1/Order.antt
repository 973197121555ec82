-- ===== src/Stream/Http1/Order.antt =====
-- asio_server_http1_handler.cc: the order of the responses of a connection.
use maock.Prelude.{
  ℕ, ◌≤◌, ◌<◌, ◌≡◌, refl, ◌⊎◌, inl, inr, Bool, true, false, ◌||◌, none, some, List, [], ◌∷◌, arith,
  ltb, ◌==◌, Bool-cases,
}
use maock.Stream.Connection.{Stream, Streams, find_stream, emplace, close_stream, put_stream}
use maock.Stream.Http1.{insert_id}

abbrev pub keys : Streams → List ℕ
keys [] = []
keys ((k, s) ∷ c) = k ∷ keys c

-- Numbers in ascending order, all above `n`.
abbrev pub Ascends : ℕ → List ℕ → Type 0
Ascends n [] = Unit
Ascends n (k ∷ ks) = (n < k) × Ascends k ks

abbrev pub has : ℕ → List ℕ → Bool
has id [] = false
has id (k ∷ ks) = k == id || has id ks

pub Ascends-lower : (m n : ℕ) (ks : List ℕ) → m ≤ n → Ascends n ks → Ascends m ks
Ascends-lower m n [] l h = tt
Ascends-lower m n (k ∷ ks) l h = (omega (arith, l, h.0), h.1)

pub Ascends-above : (n id : ℕ) (ks : List ℕ) → Ascends n ks → has id ks ≡ true → n < id
Ascends-above n id [] h e = absurd (ground arith)
Ascends-above n id (k ∷ ks) h e = elim (Bool-cases (k == id)) [
  | inl same ↦ ground (arith, h.0, same)
  | inr other ↦
      let later = Ascends-above k id ks h.1 (ground (arith, e, other)) in omega (arith, h.0, later)
]

pub Ascends-emplace :
    (n id : ℕ) (s : Stream) (c : Streams)
    → Ascends n (keys c)
    → n < id
    → find_stream id c ≡ none
    → Ascends n (keys (emplace id s c))
unfolding emplace find_stream
Ascends-emplace n id s [] h l e = (l, tt)
Ascends-emplace n id s ((k, r) ∷ c) h l e = elim (Bool-cases (k == id)) [
  | inl same ↦ absurd (ground (arith, e, same))
  | inr other ↦ elim (Bool-cases (ltb id k)) [
    | inl before ↦ rw before (l, (ground (arith, before), h.1))
    | inr behind ↦
        let later =
          Ascends-emplace k id s c h.1 (ground (arith, behind, other)) (ground (arith, e, other)) in
        rw behind (h.0, later)
  ]
]

pub Ascends-close :
    (n id : ℕ) (c : Streams) → Ascends n (keys c) → Ascends n (keys (close_stream id c))
unfolding close_stream
Ascends-close n id [] h = tt
Ascends-close n id ((k, r) ∷ c) h = elim (Bool-cases (k == id)) [
  | inl same ↦
      rw same (
        Ascends-lower n k (keys (close_stream id c)) (omega (arith, h.0))
          (Ascends-close k id c h.1))
  | inr other ↦ rw other (h.0, Ascends-close k id c h.1)
]

pub keys-put : (id : ℕ) (s : Stream) (c : Streams) → keys (put_stream id s c) ≡ keys c
unfolding put_stream
keys-put id s [] = refl
keys-put id s ((k, r) ∷ c) = ground (arith, keys-put id s c)

pub Ascends-insert : (n id : ℕ) (ks : List ℕ) → Ascends n ks → n < id → Ascends n (insert_id id ks)
unfolding insert_id
Ascends-insert n id [] h l = (l, tt)
Ascends-insert n id (k ∷ ks) h l = elim (Bool-cases (ltb id k)) [
  | inl before ↦ rw before (l, (ground (arith, before), h.1))
  | inr behind ↦ elim (Bool-cases (k == id)) [
    | inl same ↦ rw (behind, same) h
    | inr other ↦
        rw (behind, other) (h.0, Ascends-insert k id ks h.1 (ground (arith, behind, other)))
  ]
]

pub has-insert :
    (id j : ℕ) (ks : List ℕ) → has j (insert_id id ks) ≡ true → (j ≡ id) ⊎ (has j ks ≡ true)
unfolding insert_id
has-insert id j [] e = ground arith
has-insert id j (k ∷ ks) e = ground (arith, has-insert id j ks)

pub has-find :
    (id : ℕ) (s : Stream) (c : Streams) → find_stream id c ≡ some s → has id (keys c) ≡ true
unfolding find_stream
has-find id s [] e = absurd (ground arith)
has-find id s ((k, r) ∷ c) e = ground (arith, has-find id s c)

pub has-close :
    (id j : ℕ) (c : Streams)
    → has j (keys c) ≡ true
    → (j == id) ≡ false
    → has j (keys (close_stream id c)) ≡ true
unfolding close_stream
has-close id j [] h e = h
has-close id j ((k, r) ∷ c) h e = ground (arith, has-close id j c)

pub has-emplace :
    (id j : ℕ) (s : Stream) (c : Streams)
    → has j (keys c) ≡ true
    → has j (keys (emplace id s c)) ≡ true
unfolding emplace
has-emplace id j s [] h = absurd (ground arith)
has-emplace id j s ((k, r) ∷ c) h = ground (arith, has-emplace id j s c)
