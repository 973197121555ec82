-- ===== src/Util/Host/Split.antt =====
-- util.cc: hosts with ports, and lists, put together and taken apart.
use maock.Prelude.{
  ℕ, ◌≡◌, refl, sym, ap, ◌∙◌, ◌≢◌, inl, inr, Bool, true, false, some, List, [], ◌∷◌, ◌++◌,
  append_assoc, append-nil, arith, ◌==◌, Bool-cases, All, All-append,
}
use maock.Bytes.{Bytes}
use maock.Bytes.Decimal.{to_decimal, to_decimal-ne-nil}
use maock.Util.Host.{
  before, behind, split_str_from, split_str, split_bracketed, split_plain, split_hostport,
  make_hostport,
}

-- No byte of the text is `c`.
abbrev pub IsFreeOf : ℕ → Bytes → Type 0
IsFreeOf c = All (λ x. (x == c) ≡ false)

pub before-IsFreeOf :
    (c : ℕ) (s t : Bytes)
    → IsFreeOf c s
    → (before c (s ++ (c ∷ t)) ≡ s) × (behind c (s ++ (c ∷ t)) ≡ some t)
unfolding before behind
before-IsFreeOf c [] t h = ground arith
before-IsFreeOf c (x ∷ s) t h = ground (arith, h.0, before-IsFreeOf c s t h.1)

split_plain_ports :
    (host : Bytes) (port : Bytes)
    → host ≢ []
    → port ≢ []
    → split_plain host (some port) ≡ (host, port)
unfolding split_plain
split_plain_ports [] port h p = absurd (h refl)
split_plain_ports (c ∷ host) [] h p = absurd (p refl)
split_plain_ports (c ∷ host) (d ∷ port) h p = refl

split_bracketed_ports :
    (host : Bytes) (port : Bytes)
    → port ≢ []
    → split_bracketed host (some (b':' ∷ port)) ≡ (host, port)
unfolding split_bracketed
split_bracketed_ports host [] p = absurd (p refl)
split_bracketed_ports host (d ∷ port) p = refl

abbrev head_is : ℕ → Bytes → Bool
head_is c [] = false
head_is c (x ∷ s) = x == c

split_hostport_plain :
    (host port : Bytes)
    → host ≢ []
    → port ≢ []
    → IsFreeOf b':' host
    → head_is b'[' host ≡ false
    → split_hostport (host ++ (b':' ∷ port)) ≡ (host, port)
unfolding split_hostport
split_hostport_plain [] port h p f n = absurd (h refl)
split_hostport_plain (c ∷ host) port h p f n =
    let found = before-IsFreeOf b':' (c ∷ host) port f in
    rw (n, found.0, found.1) (split_plain_ports (c ∷ host) port h p)

-- What a host must be for make_hostport to be undone: an IPv6 address without `]`, or a name
-- that is not empty, has no `:` and does not begin with `[`.
abbrev pub IsHost : Bool → Bytes → Type 0
IsHost true host = IsFreeOf b']' host
IsHost false host = (host ≢ []) × IsFreeOf b':' host × (head_is b'[' host ≡ false)

split_hostport_bracketed :
    (host port : Bytes)
    → port ≢ []
    → IsFreeOf b']' host
    → split_hostport (b'[' ∷ (host ++ (b']' ∷ b':' ∷ port))) ≡ (host, port)
unfolding split_hostport
split_hostport_bracketed host port p f =
    let found = before-IsFreeOf b']' host (b':' ∷ port) f in
    rw (found.0, found.1) (split_bracketed_ports host port p)

-- For any judgement of what an IPv6 address is, and a host that is an address without `]`, or that is
-- none, is not empty, has no `:` and does not begin with `[`: from the text of the host and a port
-- the host and the decimal text of the port are found again.
pub split_hostport-make_hostport :
    (ipv6_numeric_addr : Bytes → Bool) (host : Bytes) (port : ℕ)
    → IsHost (ipv6_numeric_addr host) host
    → split_hostport (make_hostport ipv6_numeric_addr host port) ≡ (host, to_decimal port)
unfolding make_hostport
split_hostport-make_hostport ipv6 host port h = elim (Bool-cases (ipv6 host)) [
  | inl address ↦
      rw (address, append_assoc)
        (split_hostport_bracketed host (to_decimal port) (to_decimal-ne-nil port) (rw address at h))
  | inr name ↦
      let k = rw name at h in
      rw name (split_hostport_plain host (to_decimal port) k.0 (to_decimal-ne-nil port) k.1 k.2)
]

-- join with one byte between
abbrev pub join_by : ℕ → List Bytes → Bytes
join_by c [] = []
join_by c (t ∷ []) = t
join_by c (t ∷ u ∷ ts) = t ++ (c ∷ join_by c (u ∷ ts))

split_str_from-ne-nil : (c : ℕ) (item s : Bytes) → split_str_from c item s ≢ []
unfolding split_str_from
split_str_from-ne-nil c item [] = λ e. cc
split_str_from-ne-nil c item (x ∷ s) = elim (Bool-cases (x == c)) [
  | inl cut ↦ rw cut (λ e. cc)
  | inr more ↦ rw more (split_str_from-ne-nil c (item ++ x ∷ []) s)
]

join_by-cons :
    (c : ℕ) (t : Bytes) (ts : List Bytes) → ts ≢ [] → join_by c (t ∷ ts) ≡ t ++ (c ∷ join_by c ts)
join_by-cons c t [] h = absurd (h refl)
join_by-cons c t (u ∷ ts) h = refl

join_by-split_str_from : (c : ℕ) (item s : Bytes) → join_by c (split_str_from c item s) ≡ item ++ s
unfolding split_str_from
join_by-split_str_from c item [] = sym (append-nil item)
join_by-split_str_from c item (x ∷ s) = elim (Bool-cases (x == c)) [
  | inl cut ↦
      let e : x ≡ c = ground arith in
      rw cut (
        join_by-cons c item (split_str_from c [] s) (split_str_from-ne-nil c [] s)
        ∙ ap (λ (u : Bytes). item ++ (c ∷ u)) (join_by-split_str_from c [] s)
        ∙ rw e)
  | inr more ↦ rw more (join_by-split_str_from c (item ++ x ∷ []) s ∙ append_assoc item (x ∷ []) s)
]

split_str_from-IsFreeOf :
    (c : ℕ) (item s : Bytes) → IsFreeOf c item → All (IsFreeOf c) (split_str_from c item s)
unfolding split_str_from
split_str_from-IsFreeOf c item [] h = (h, tt)
split_str_from-IsFreeOf c item (x ∷ s) h = elim (Bool-cases (x == c)) [
  | inl cut ↦ rw cut (h, split_str_from-IsFreeOf c [] s tt)
  | inr more ↦
      rw more
        (split_str_from-IsFreeOf c (item ++ x ∷ []) s (All-append _ item (x ∷ []) h (more, tt)))
]

-- The items of a list in one text, joined by the delimiter, are the text, and no item holds the
-- delimiter.
pub join_by-split_str :
    (s : Bytes) (c : ℕ) → (join_by c (split_str s c) ≡ s) × All (IsFreeOf c) (split_str s c)
unfolding split_str
join_by-split_str s c = (join_by-split_str_from c [] s, split_str_from-IsFreeOf c [] s tt)
