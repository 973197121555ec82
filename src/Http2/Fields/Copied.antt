-- ===== src/Http2/Fields/Copied.antt =====
-- http2.cc: which headers copy_headers_to_nva copies, and in which order.
use maock.Prelude.{
  ◌≡◌, refl, ap, ◌∙◌, inl, inr, Bool, true, false, not, Option, none, some, List, [], ◌∷◌, ◌++◌,
  arith, if◌then◌else◌, Bool-cases,
}
use maock.Http2.Tokens.{
  Token, hd_cookie, hd_connection, hd_host, hd_http2_settings, hd_keep_alive, hd_proxy_connection,
  hd_server, hd_te, hd_transfer_encoding, hd_upgrade, hd_early_data, hd_sec_websocket_accept,
  hd_sec_websocket_key, hd_forwarded, hd_x_forwarded_for, hd_x_forwarded_proto, hd_via,
}
use maock.Http2.Fields.{
  Header, Strip, Pending, nothing_pending, pushed, copy_token, is_unnamed, copy_from,
}

-- The fields that each proxy adds to.
pub data Chain : Type 0 where
  forwarded xff xfp via : Chain

-- What becomes of the headers of a token.
pub data Fate : Type 0 where
  dropped plain : Fate
  optional : (Strip → Bool) → Fate
  chained : Chain → Fate

abbrev pub fate : Option Token → Fate
fate (some hd_cookie) = dropped
fate (some hd_connection) = dropped
fate (some hd_host) = dropped
fate (some hd_http2_settings) = dropped
fate (some hd_keep_alive) = dropped
fate (some hd_proxy_connection) = dropped
fate (some hd_server) = dropped
fate (some hd_te) = dropped
fate (some hd_transfer_encoding) = dropped
fate (some hd_upgrade) = dropped
fate (some hd_early_data) = optional (λ f. f.early_data)
fate (some hd_sec_websocket_accept) = optional (λ f. f.sec_websocket_accept)
fate (some hd_sec_websocket_key) = optional (λ f. f.sec_websocket_key)
fate (some hd_forwarded) = chained forwarded
fate (some hd_x_forwarded_for) = chained xff
fate (some hd_x_forwarded_proto) = chained xfp
fate (some hd_via) = chained via
fate _ = plain

abbrev pub strips : Chain → Strip → Bool
strips forwarded f = f.forwarded
strips xff f = f.x_forwarded_for
strips xfp f = f.x_forwarded_proto
strips via f = f.via

abbrev pub pending_of : Chain → Pending → Option Header
pending_of forwarded p = p.forwarded
pending_of xff p = p.xff
pending_of xfp p = p.xfp
pending_of via p = p.via

abbrev pub with_pending : Chain → Header → Pending → Pending
with_pending forwarded h p = record p { forwarded = some h }
with_pending xff h p = record p { xff = some h }
with_pending xfp h p = record p { xfp = some h }
with_pending via h p = record p { via = some h }

abbrev by_fate : Fate → Strip → Header → Pending → Pending × List Header
by_fate dropped f h p = (p, [])
by_fate plain f h p = (p, h ∷ [])
by_fate (optional b) f h p = if b f then (p, []) else (p, h ∷ [])
by_fate (chained c) f h p =
    if strips c f then (p, []) else (with_pending c h p, pushed (pending_of c p))

copy_token-by_fate :
    (t : Option Token) (f : Strip) (h : Header) (p : Pending)
    → copy_token t f h p ≡ by_fate (fate t) f h p
unfolding copy_token
copy_token-by_fate none f h p = refl
copy_token-by_fate (some hd_via) f h p = refl
copy_token-by_fate _ f h p = refl

-- The chain of a header.
abbrev chain_in : Fate → Option Chain
chain_in (chained c) = some c
chain_in _ = none

abbrev pub chain_of : Header → Option Chain
chain_of h = chain_in (fate h.token)

abbrev pub same : Option Chain → Option Chain → Bool
same none none = true
same (some forwarded) (some forwarded) = true
same (some xff) (some xff) = true
same (some xfp) (some xfp) = true
same (some via) (some via) = true
same _ _ = false

-- The headers of a chain, or those of none.
abbrev pub only : Option Chain → List Header → List Header
only c [] = []
only c (h ∷ hs) = if same c (chain_of h) then h ∷ only c hs else only c hs

abbrev pub named : List Header → List Header
named [] = []
named (h ∷ hs) = if is_unnamed h.name then named hs else h ∷ named hs

abbrev pub without_last : List Header → List Header
without_last [] = []
without_last (h ∷ []) = []
without_last (h ∷ k ∷ hs) = h ∷ without_last (k ∷ hs)

abbrev is_kept : Fate → Strip → Bool
is_kept dropped f = false
is_kept (optional b) f = not (b f)
is_kept _ f = true

-- The headers that are neither dropped nor stripped.
abbrev pub kept : Strip → List Header → List Header
kept f [] = []
kept f (h ∷ hs) = if is_kept (fate h.token) f then h ∷ kept f hs else kept f hs

-- What a chain keeps: nothing, or all but the last.
abbrev pub chain_kept : Bool → List Header → List Header
chain_kept stripped hs = if stripped then [] else without_last hs

only-append : (c : Option Chain) (a b : List Header) → only c (a ++ b) ≡ only c a ++ only c b
only-append c [] b = refl
only-append c (h ∷ a) b = elim (Bool-cases (same c (chain_of h))) [
  | inl t ↦ rw t (ap (λ s. h ∷ s) (only-append c a b))
  | inr t ↦ rw t (only-append c a b)
]

-- What is pending belongs to its chain.
abbrev Belongs : Chain → Option Header → Type 0
Belongs c none = Unit
Belongs c (some h) = chain_of h ≡ some c

abbrev AllBelong : Pending → Type 0
AllBelong p = (c : Chain) → Belongs c (pending_of c p)

Belongs-with_pending :
    (c d : Chain) (h : Header) (p : Pending)
    → chain_of h ≡ some c
    → Belongs d (pending_of d p)
    → Belongs d (pending_of d (with_pending c h p))
Belongs-with_pending forwarded forwarded h p e b = e
Belongs-with_pending xff xff h p e b = e
Belongs-with_pending xfp xfp h p e b = e
Belongs-with_pending via via h p e b = e
Belongs-with_pending forwarded _ h p e b = b
Belongs-with_pending xff _ h p e b = b
Belongs-with_pending xfp _ h p e b = b
Belongs-with_pending via _ h p e b = b

only_pushed :
    (c d : Chain) (o : Option Header)
    → Belongs d o
    → only (some c) (pushed o) ≡ (if same (some c) (some d) then pushed o else [])
only_pushed c d none b = ground arith
only_pushed c d (some h) b = rw b refl

without_last_pushed :
    (o : Option Header) (h : Header) (hs : List Header)
    → pushed o ++ without_last (h ∷ hs) ≡ without_last (pushed o ++ h ∷ hs)
without_last_pushed none h hs = refl
without_last_pushed (some k) h hs = refl

only-none_pushed : (d : Chain) (o : Option Header) → Belongs d o → only none (pushed o) ≡ []
only-none_pushed d none b = refl
only-none_pushed d (some h) b = rw b refl

pending_with :
    (c d : Chain) (h : Header) (p : Pending)
    → pending_of c (with_pending d h p)
      ≡ (if same (some c) (some d) then some h else pending_of c p)
pending_with forwarded forwarded h p = refl
pending_with xff xff h p = refl
pending_with xfp xfp h p = refl
pending_with via via h p = refl
pending_with forwarded _ h p = refl
pending_with xff _ h p = refl
pending_with xfp _ h p = refl
pending_with via _ h p = refl

same_chain : (c d : Chain) → same (some c) (some d) ≡ true → c ≡ d
same_chain forwarded forwarded e = refl
same_chain xff xff e = refl
same_chain xfp xfp e = refl
same_chain via via e = refl
same_chain forwarded _ e = cc
same_chain xff _ e = cc
same_chain xfp _ e = cc
same_chain via _ e = cc

AllBelong-with_pending :
    (d : Chain) (h : Header) (p : Pending)
    → chain_of h ≡ some d
    → AllBelong p
    → AllBelong (with_pending d h p)
AllBelong-with_pending d h p e a c = Belongs-with_pending d c h p e (a c)

same-none : (c : Chain) → same (some c) none ≡ false
same-none forwarded = refl
same-none xff = refl
same-none xfp = refl
same-none via = refl

module _ (f : Strip) where
  -- What the rest of the loop must give for a chain, and for the others.
  abbrev GivesChain : Chain → List Header → List Header → Pending → Type 0
  GivesChain c out hs p =
      only (some c) out
      ≡ chain_kept (strips c f) (pushed (pending_of c p) ++ only (some c) (named hs))

  chain_stripped :
      (c d : Chain) (before : List Header) (h : Header) (hs : List Header)
      → strips d f ≡ true
      → chain_kept (strips c f) (before ++ hs)
        ≡ chain_kept (strips c f) (before ++ (if same (some c) (some d) then h ∷ hs else hs))
  chain_stripped c d before h hs s = elim (Bool-cases (same (some c) (some d))) [
    | inl t ↦ rw (same_chain c d t, s) refl
    | inr t ↦ rw t refl
  ]

  chain_pushed :
      (c d : Chain) (h : Header) (hs rest : List Header) (p : Pending)
      → strips d f ≡ false
      → Belongs d (pending_of d p)
      → only (some c) rest
        ≡ chain_kept (strips c f) (pushed (pending_of c (with_pending d h p)) ++ hs)
      → only (some c) (pushed (pending_of d p) ++ rest)
        ≡ chain_kept
            (strips c f)
            (pushed (pending_of c p) ++ (if same (some c) (some d) then h ∷ hs else hs))
  chain_pushed c d h hs rest p s b e =
      only-append (some c) (pushed (pending_of d p)) rest
      ∙ elim (Bool-cases (same (some c) (some d))) [
        | inl t ↦
            let k : strips c f ≡ false = rw (same_chain c d t) s in
            let new = rw t at (pending_with c d h p) in
            let got = rw (new, k) at e in
            let old = rw t at (only_pushed c d (pending_of d p) b) in
            let whose = ap (λ (x : Chain). pending_of x p) (same_chain c d t) in
            rw (old, got, t, k, whose) (without_last_pushed (pending_of d p) h hs)
        | inr t ↦
            let new = rw t at (pending_with c d h p) in
            let old = rw t at (only_pushed c d (pending_of d p) b) in rw (old, t) (rw new at e)
      ]

  only-chained :
      (c : Chain) (h : Header) (hs : List Header) (w : Fate)
      → fate h.token ≡ w
      → only (some c) (h ∷ hs)
        ≡ (if same (some c) (chain_in w) then h ∷ only (some c) hs else only (some c) hs)
  only-chained c h hs w e = rw e refl

  copy_from-chain :
      (c : Chain) (hs : List Header) (p : Pending)
      → AllBelong p
      → GivesChain c (copy_from f hs p) hs p
  unfolding copy_from
  copy_from-chain c [] p a = last_step (strips c f) (pending_of c p)
    where
      last_step : (b : Bool) (o : Option Header) → [] ≡ chain_kept b (pushed o ++ [])
      last_step true o = refl
      last_step false none = refl
      last_step false (some h) = refl
  copy_from-chain c (h ∷ hs) p a = elim (Bool-cases (is_unnamed h.name)) [
    | inl u ↦ rw u (copy_from-chain c hs p a)
    | inr u ↦
        rw (u, copy_token-by_fate h.token f h p, only-chained c h (named hs) (fate h.token) refl)
          (each (λ q b. copy_from-chain c hs q b) (fate h.token) refl)
  ]
    where
      each :
          ((q : Pending) → AllBelong q → GivesChain c (copy_from f hs q) hs q)
          → (w : Fate) → fate h.token ≡ w
          → only (some c) ((by_fate w f h p).1 ++ copy_from f hs (by_fate w f h p).0)
            ≡ chain_kept (strips c f) (
                pushed (pending_of c p)
                ++ (if same (some c) (chain_in w)
                    then h ∷ only (some c) (named hs)
                    else only (some c) (named hs)))
      each ih dropped e = rw (same-none c) (ih p a)
      each ih plain e = rw e (rw (same-none c) (ih p a))
      each ih (optional b) e = elim (Bool-cases (b f)) [
        | inl t ↦ rw (t, same-none c) (ih p a)
        | inr t ↦ rw (t, e) (rw (same-none c) (ih p a))
      ]
      each ih (chained d) e = elim (Bool-cases (strips d f)) [
        | inl t ↦
            rw t
              (ih p a ∙ chain_stripped c d (pushed (pending_of c p)) h (only (some c) (named hs)) t)
        | inr t ↦ rw t (
            chain_pushed c d h (only (some c) (named hs)) (copy_from f hs (with_pending d h p)) p t
              (a d) (ih (with_pending d h p) (AllBelong-with_pending d h p (ap chain_in e) a)))
      ]

  copy_from-plain :
      (hs : List Header) (p : Pending)
      → AllBelong p
      → only none (copy_from f hs p) ≡ kept f (only none (named hs))
  unfolding copy_from
  copy_from-plain [] p a = refl
  copy_from-plain (h ∷ hs) p a = elim (Bool-cases (is_unnamed h.name)) [
    | inl u ↦ rw u (copy_from-plain hs p a)
    | inr u ↦
        rw (u, copy_token-by_fate h.token f h p)
          (each (λ q b. copy_from-plain hs q b) (fate h.token) refl)
  ]
    where
      each :
          ((q : Pending)
            → AllBelong q
            → only none (copy_from f hs q) ≡ kept f (only none (named hs)))
          → (w : Fate) → fate h.token ≡ w
          → only none ((by_fate w f h p).1 ++ copy_from f hs (by_fate w f h p).0)
            ≡ kept f (only none (h ∷ named hs))
      each ih dropped e = rw e (rw e (ih p a))
      each ih plain e = rw e (rw e (ap (λ s. h ∷ s) (ih p a)))
      each ih (optional b) e = elim (Bool-cases (b f)) [
        | inl t ↦ rw (t, e) (rw (e, t) (ih p a))
        | inr t ↦ rw (t, e) (rw (e, t) (ap (λ s. h ∷ s) (ih p a)))
      ]
      each ih (chained d) e = elim (Bool-cases (strips d f)) [
        | inl t ↦ rw (t, e) (ih p a)
        | inr t ↦
            let fine = AllBelong-with_pending d h p (ap chain_in e) a in
            rw (t, e)
              (only-append none (pushed (pending_of d p)) (copy_from f hs (with_pending d h p))
                ∙ rw (only-none_pushed d (pending_of d p) (a d)) (ih (with_pending d h p) fine))
      ]

-- For every list of headers and all flags, copy_headers_to_nva copies of each chain (Forwarded,
-- X-Forwarded-For, X-Forwarded-Proto, Via) nothing if its flag is set, and else all but the last, in
-- order; of the other headers it copies, in order, those that are not always dropped and whose flag
-- is not set; and it copies none without a name or with a pseudo-header name. Transfer-Encoding is one
-- of those that are always dropped, also where HDOP_STRIP_TRANSFER_ENCODING is not set, against the
-- comment of that flag.
pub copy_from-kept :
    (f : Strip) (hs : List Header)
    → ((c : Chain)
        → only (some c) (copy_from f hs nothing_pending)
          ≡ chain_kept (strips c f) (only (some c) (named hs)))
      × (only none (copy_from f hs nothing_pending) ≡ kept f (only none (named hs)))
copy_from-kept f hs = (
  λ c. nothing_first c (copy_from-chain f c hs nothing_pending none_belongs),
  copy_from-plain f hs nothing_pending none_belongs,
)
  where
    none_belongs : AllBelong nothing_pending
    none_belongs forwarded = tt
    none_belongs xff = tt
    none_belongs xfp = tt
    none_belongs via = tt

    nothing_first :
        (c : Chain)
        → GivesChain f c (copy_from f hs nothing_pending) hs nothing_pending
        → only (some c) (copy_from f hs nothing_pending)
          ≡ chain_kept (strips c f) (only (some c) (named hs))
    nothing_first forwarded e = e
    nothing_first xff e = e
    nothing_first xfp e = e
    nothing_first via e = e
