-- ===== src/Match/Cached.antt =====
-- H2Server_Request.h: matching with the stored results of a request, and without them.
use maock.Prelude.{
  ℕ, ◌≡◌, refl, sym, ap, ◌∙◌, inl, inr, Bool, true, false, not, Option, none, some, List, [], ◌∷◌,
  arith, ◌==◌, if◌then◌else◌, Bool-cases, All,
}
use maock.Prelude.Partial.{◌>>=◌}
use maock.Bytes.{Bytes, is_empty}
use maock.Response.Pointer.{Json, get_value_from_json_ptr}
use maock.Message
use maock.Message.{Message, values, cached}
use maock.Match.{Rule, match_text, match_any, match_fresh, remember, rule_match, all_match}

module _ (full_match : Bytes → Bytes → Bool) (json : Json) where
  abbrev pub Msg : Type 0
  Msg = Message json

  abbrev pub document : Msg → json.Value
  document m = Message.document_of json m.json_payload_string m.json_payload

  -- What a rule says of a request, with no store and no change of state.
  abbrev pub holds : Rule → Msg → Option Bool
  holds r m =
      if not (is_empty r.header_name)
      then some (match_any full_match r (values r.header_name m.headers))
      else if not (is_empty r.json_pointer)
      then (get_value_from_json_ptr json (document m) r.json_pointer >>= λ v.
          some (match_text full_match r v))
      else some (match_text full_match r m.raw_payload)

  -- All rules hold; the first that does not decides.
  abbrev pub all_hold : List Rule → Msg → Option Bool
  all_hold [] m = some true
  all_hold (r ∷ rs) m =
      let rest = all_hold rs m in (holds r m >>= λ b. if b then rest else some false)

  -- Two states of one request: decoded or not, with whatever is stored.
  pub record Same (m m' : Msg) : Type 0 where
    pub headers : m'.headers ≡ m.headers
    pub raw_payload : m'.raw_payload ≡ m.raw_payload
    pub document_is : document m' ≡ document m

  pub holds-Same : (r : Rule) {m m' : Msg} → Same m m' → holds r m' ≡ holds r m
  holds-Same r s = rw (s.headers, s.raw_payload, s.document_is)

  Same-decode : (m : Msg) → Same m (Message.decode_json_if_not_yet json m)
  unfolding Message.decode_json_if_not_yet
  Same-decode m = record { headers = refl; raw_payload = refl; document_is = refl }

  -- A result of matching, beside what the rules say with no store: both stop the program, or the
  -- results are the same and the new state is a `Fine` state of the same request.
  abbrev pub Agrees : {A : Type 0} → (Msg → Type 0) → Msg → Option A → Option (A × Msg) → Type 0
  Agrees Fine m none none = Unit
  Agrees Fine m none (some _) = ⊥
  Agrees Fine m (some b) none = ⊥
  Agrees Fine m (some b) (some p) = (p.0 ≡ b) × Same m p.1 × Fine p.1

  abbrev KeepsStore : Msg → Msg → Type 0
  KeepsStore m m' = m'.match_result ≡ m.match_result

  Agrees-look :
      (Fine : Msg → Type 0) (m d : Msg) (o : Option Bytes) (k : Bytes → Bool)
      → Same m d
      → Fine d
      → Agrees Fine m (o >>= λ v. some (k v)) (o >>= λ v. some (k v, d))
  Agrees-look Fine m d none k s f = tt
  Agrees-look Fine m d (some v) k s f = (refl, s, f)

  pub Same-refl : (m : Msg) → Same m m
  Same-refl m = record { headers = refl; raw_payload = refl; document_is = refl }

  Agrees-branch :
      (Fine : Msg → Type 0) (m : Msg) (by_header by_pointer x y : Bool) (o : Option Bool)
      (p : Option (Bool × Msg))
      → Fine m
      → Agrees Fine m o p
      → Agrees Fine m
          (if by_header then some x else if by_pointer then o else some y)
          (if by_header then some (x, m) else if by_pointer then p else some (y, m))
  Agrees-branch Fine m true by_pointer x y o p f h = (refl, Same-refl m, f)
  Agrees-branch Fine m false true x y o p f h = h
  Agrees-branch Fine m false false x y o p f h = (refl, Same-refl m, f)

  match_fresh-Agrees :
      (r : Rule) (m : Msg) → Agrees (KeepsStore m) m (holds r m) (match_fresh full_match json r m)
  unfolding match_fresh
  match_fresh-Agrees r m =
      let decoded = Message.decode_json_if_not_yet json m in
      let value = get_value_from_json_ptr json (document m) r.json_pointer in
      Agrees-branch (KeepsStore m) m (not (is_empty r.header_name)) (not (is_empty r.json_pointer))
        (match_any full_match r (values r.header_name m.headers))
        (match_text full_match r m.raw_payload) (value >>= λ v. some (match_text full_match r v))
        (value >>= λ v. some (match_text full_match r v, decoded)) refl
        (Agrees-look (KeepsStore m) m decoded value (λ v. match_text full_match r v) (Same-decode m)
          refl)

  -- `rule_of` is the numbering of the rules; what is stored under a number is what its rule says.
  module _ (rule_of : ℕ → Rule) where
    abbrev pub Coherent : Msg → Type 0
    Coherent m =
        (id : ℕ) (b : Bool) → cached id m.match_result ≡ some b → holds (rule_of id) m ≡ some b

    Coherent-remember :
        (r : Rule) (m m' : Msg) (b : Bool)
        → rule_of r.unique_id ≡ r
        → Coherent m
        → Same m m'
        → KeepsStore m m'
        → holds r m ≡ some b
        → Coherent (record m' { match_result = (r.unique_id, b) ∷ m'.match_result })
    unfolding cached
    Coherent-remember r m m' b number c s k h id b' e = elim (Bool-cases (r.unique_id == id)) [
      | inl new ↦
          let n : r.unique_id ≡ id = ground arith in
          holds-Same (rule_of id) s
          ∙ rw (← n, number) (h ∙ (let t : b ≡ b' = ground arith in ap some t))
      | inr old ↦ holds-Same (rule_of id) s ∙ c id b' (ground (arith, k))
    ]

    Agrees-remember :
        (r : Rule) (m : Msg) (o : Option Bool) (p : Option (Bool × Msg))
        → rule_of r.unique_id ≡ r
        → Coherent m
        → holds r m ≡ o
        → Agrees (KeepsStore m) m o p
        → Agrees Coherent m o (p >>= λ q. some (remember full_match json r.unique_id q))
    Agrees-remember r m none none number c e a = tt
    Agrees-remember r m none (some p) number c e a = a
    Agrees-remember r m (some b) none number c e a = a
    Agrees-remember r m (some b) (some (b', m')) number c e (same, s, k) = (
      same,
      record { headers = s.headers; raw_payload = s.raw_payload; document_is = s.document_is },
      Coherent-remember r m m' b' number c s k (e ∙ ap some (sym same)),
    )

    Agrees-stored :
        (r : Rule) (m : Msg) (c : Option Bool)
        → rule_of r.unique_id ≡ r
        → Coherent m
        → cached r.unique_id m.match_result ≡ c
        → Agrees Coherent m (holds r m) (elim c [
          | some b ↦ some (b, m)
          | none ↦
              match_fresh full_match json r m >>= λ p. some (remember full_match json r.unique_id p)
        ])
    Agrees-stored r m none number k e =
        Agrees-remember r m (holds r m) (match_fresh full_match json r m) number k refl
          (match_fresh-Agrees r m)
    Agrees-stored r m (some b) number k e =
        let h : holds r m ≡ some b = rw number at (k r.unique_id b e) in rw h (refl, Same-refl m, k)

    rule_match-Agrees :
        (r : Rule) (m : Msg)
        → rule_of r.unique_id ≡ r
        → Coherent m
        → Agrees Coherent m (holds r m) (rule_match full_match json r m)
    unfolding rule_match
    rule_match-Agrees r m number k =
        Agrees-stored r m (cached r.unique_id m.match_result) number k refl

    abbrev pub IsNumbered : List Rule → Type 0
    IsNumbered = All (λ r. rule_of r.unique_id ≡ r)

    pub all_hold-Same : (rs : List Rule) {m m' : Msg} → Same m m' → all_hold rs m' ≡ all_hold rs m
    all_hold-Same [] s = refl
    all_hold-Same (r ∷ rs) s = rw (holds-Same r s, all_hold-Same rs s)

    Same-trans : {a b c : Msg} → Same a b → Same b c → Same a c
    Same-trans s t = record {
      headers = t.headers ∙ s.headers;
      raw_payload = t.raw_payload ∙ s.raw_payload;
      document_is = t.document_is ∙ s.document_is;
    }

    pub Agrees-trans :
        {A : Type 0} {m m' : Msg} (o : Option A) (p : Option (A × Msg))
        → Same m m'
        → Agrees Coherent m' o p
        → Agrees Coherent m o p
    Agrees-trans none none s a = tt
    Agrees-trans none (some p) s a = a
    Agrees-trans (some b) none s a = a
    Agrees-trans (some b) (some p) s (e, t, k) = (e, Same-trans s t, k)

    Agrees-and :
        (m : Msg) (o : Option Bool) (p : Option (Bool × Msg)) (rest_holds : Option Bool)
        (rest : Msg → Option (Bool × Msg))
        → Agrees Coherent m o p
        → ((m' : Msg) → Same m m' → Coherent m' → Agrees Coherent m rest_holds (rest m'))
        → Agrees Coherent m
            (o >>= λ b. if b then rest_holds else some false)
            (p >>= λ q. if q.0 then rest q.1 else some (false, q.1))
    Agrees-and m none none rest_holds rest a f = tt
    Agrees-and m none (some p) rest_holds rest a f = absurd a
    Agrees-and m (some b) none rest_holds rest a f = absurd a
    Agrees-and m (some true) (some (true, m')) rest_holds rest (e, s, k) f = f m' s k
    Agrees-and m (some true) (some (false, m')) rest_holds rest (e, s, k) f = cc
    Agrees-and m (some false) (some (true, m')) rest_holds rest (e, s, k) f = cc
    Agrees-and m (some false) (some (false, m')) rest_holds rest (e, s, k) f = (refl, s, k)

    -- Matching a request against numbered rules, from any store that is coherent, gives what the
    -- rules say with no store, or stops the program exactly where they do; the store stays
    -- coherent, and headers, payload and document stay what they were.
    pub all_match-Agrees :
        (rs : List Rule) (m : Msg)
        → IsNumbered rs
        → Coherent m
        → Agrees Coherent m (all_hold rs m) (all_match full_match json rs m)
    unfolding all_match
    all_match-Agrees [] m number k = (refl, Same-refl m, k)
    all_match-Agrees (r ∷ rs) m number k =
        Agrees-and m (holds r m) (rule_match full_match json r m) (all_hold rs m)
          (all_match full_match json rs) (rule_match-Agrees r m number.0 k)
          (λ m' s k'.
            Agrees-trans (all_hold rs m) (all_match full_match json rs m') s
              (rw (all_hold-Same rs s) at (all_match-Agrees rs m' number.1 k')))
