-- ===== src/Server/Best.antt =====
-- H2Server.h: get_matched_request over the map of services.
use mathlib.Core.List.{reverse, reverse-append, reverse-reverse}
use mathlib.Core.Path.{subst}
use maock.Prelude.{
  ℕ, ◌≤◌, ◌≡◌, refl, sym, ap, ◌∙◌, inl, inr, Bool, true, false, Option, none, some, List, [], ◌∷◌,
  ◌++◌, arith, if◌then◌else◌, Bool-cases, Option-cases, All, length, All-append,
}
use maock.Prelude.Partial.{◌>>=◌}
use maock.Bytes.{Bytes}
use maock.OrderedSet.Laws.{IsAscending, AllAbove}
use maock.Response.Pointer.{Json}
use maock.Message.{Message}
use maock.Match.{Rule, all_match}
use maock.Match.Order.{length-request_less}
use maock.Match.Cached.{
  Same, Same-refl, all_hold, all_hold-Same, Agrees, Agrees-trans, Coherent, IsNumbered,
  all_match-Agrees,
}
use maock.Server.{Service, service_less, match_services, get_matched_request}

abbrev pub rules : Service → List Rule
rules s = reverse s.request.match_rules

module _ (full_match : Bytes → Bytes → Bool) (json : Json) where
  abbrev Msg : Type 0
  Msg = Message json

  -- The first service whose rules all hold, with no store.
  abbrev pub first_holding : List Service → Msg → Option (Option Service)
  first_holding [] m = some none
  first_holding (s ∷ ss) m =
      let later = first_holding ss m in
      (all_hold full_match json (rules s) m >>= λ b. if b then some (some s) else later)

  module _ (rule_of : ℕ → Rule) where
    abbrev Ok : Msg → Type 0
    Ok = Coherent full_match json rule_of

    Agrees-or :
        (m : Msg) (s : Service) (o : Option Bool) (p : Option (Bool × Msg))
        (rest_holds : Option (Option Service)) (rest : Msg → Option (Option Service × Msg))
        → Agrees full_match json Ok m o p
        → ((m' : Msg)
            → Same full_match json m m'
            → Ok m'
            → Agrees full_match json Ok m rest_holds (rest m'))
        → Agrees full_match json Ok m
            (o >>= λ b. if b then some (some s) else rest_holds)
            (p >>= λ q. if q.0 then some (some s, q.1) else rest q.1)
    Agrees-or m s none none rest_holds rest a f = tt
    Agrees-or m s none (some p) rest_holds rest a f = absurd a
    Agrees-or m s (some b) none rest_holds rest a f = absurd a
    Agrees-or m s (some true) (some (true, m')) rest_holds rest (e, t, k) f = (refl, t, k)
    Agrees-or m s (some true) (some (false, m')) rest_holds rest (e, t, k) f = cc
    Agrees-or m s (some false) (some (true, m')) rest_holds rest (e, t, k) f = cc
    Agrees-or m s (some false) (some (false, m')) rest_holds rest (e, t, k) f = f m' t k

    first_holding-Same :
        (ss : List Service) {m m' : Msg}
        → Same full_match json m m'
        → first_holding ss m' ≡ first_holding ss m
    first_holding-Same [] t = refl
    first_holding-Same (s ∷ ss) t =
        rw (all_hold-Same full_match json rule_of (rules s) t, first_holding-Same ss t)

    abbrev pub AllNumbered : List Service → Type 0
    AllNumbered = All (λ s. IsNumbered full_match json rule_of (rules s))

    pub match_services-Agrees :
        (ss : List Service) (m : Msg)
        → AllNumbered ss
        → Ok m
        → Agrees full_match json Ok m (first_holding ss m) (match_services full_match json ss m)
    unfolding match_services
    match_services-Agrees [] m n k = (refl, Same-refl full_match json m, k)
    match_services-Agrees (s ∷ ss) m n k =
        Agrees-or m s (all_hold full_match json (rules s) m) (all_match full_match json (rules s) m)
          (first_holding ss m) (match_services full_match json ss)
          (all_match-Agrees full_match json rule_of (rules s) m n.0 k)
          (λ m' t k'.
            Agrees-trans full_match json rule_of (first_holding ss m)
              (match_services full_match json ss m') t
              (rw (first_holding-Same ss t) at (match_services-Agrees ss m' n.1 k')))

-- The order of the map, seen from its end.
module _ where
  abbrev AllBelow : Service → List Service → Type 0
  AllBelow s = All (λ q. service_less q s ≡ true)

  abbrev IsDescending : List Service → Type 0
  IsDescending [] = Unit
  IsDescending (s ∷ ss) = AllBelow s ss × IsDescending ss

  IsDescending-append :
      (ss : List Service) (s : Service)
      → IsDescending ss
      → All (λ q. service_less s q ≡ true) ss
      → IsDescending (ss ++ s ∷ [])
  IsDescending-append [] s d a = (tt, tt)
  IsDescending-append (q ∷ ss) s d a =
      (All-append _ ss (s ∷ []) d.0 (a.0, tt), IsDescending-append ss s d.1 a.1)

  pub All-reverse {ℓ κ} :
      {A : Type ℓ} (P : A → Type κ) (ss : List A) → All P ss → All P (reverse ss)
  All-reverse P [] a = tt
  All-reverse P (s ∷ ss) a =
      rw (reverse-append (s ∷ []) ss)
        (All-append P (reverse ss) (s ∷ []) (All-reverse P ss a.1) (a.0, tt))

  AllAbove-All :
      (s : Service) (ss : List Service)
      → AllAbove service_less s ss
      → All (λ q. service_less s q ≡ true) ss
  AllAbove-All s [] a = tt
  AllAbove-All s (q ∷ ss) a = (a.0, AllAbove-All s ss a.1)

  reverse-IsDescending :
      (ss : List Service) → IsAscending service_less ss → IsDescending (reverse ss)
  reverse-IsDescending [] a = tt
  reverse-IsDescending (s ∷ ss) a = rw (reverse-append (s ∷ []) ss) (
      IsDescending-append (reverse ss) s (reverse-IsDescending ss a.1)
        (All-reverse _ ss (AllAbove-All s ss a.0)))

module _ (full_match : Bytes → Bytes → Bool) (json : Json) (m : Message json) where
  abbrev pub Holds : Service → Type 0
  Holds s = all_hold full_match json (rules s) m ≡ some true

  -- No service that holds has more rules than this one.
  abbrev pub IsBest : Service → List Service → Type 0
  IsBest s = All (λ q. Holds q → length q.request.match_rules ≤ length s.request.match_rules)

  IsBest-below : (s : Service) (ss : List Service) → AllBelow s ss → IsBest s ss
  IsBest-below s [] a = tt
  IsBest-below s (q ∷ ss) a =
      ((λ h. length-request_less q.request s.request a.0), IsBest-below s ss a.1)

  first_holding-IsBest :
      (ss : List Service) (s : Service)
      → IsDescending ss
      → first_holding full_match json ss m ≡ some (some s)
      → Holds s × IsBest s ss
  first_holding-IsBest [] s d e = cc
  first_holding-IsBest (q ∷ ss) s d e = elim (Option-cases (all_hold full_match json (rules q) m)) [
    | inl stop ↦ absurd (ground (arith, stop))
    | inr (b, found) ↦ elim (Bool-cases b) [
      | inl held ↦
          let same : q ≡ s = ground (arith, found) in
          let ok : Holds q = found ∙ ap some held in
          subst (λ (t : Service). Holds t × IsBest t (q ∷ ss)) same
            (ok, ((λ h. omega arith), IsBest-below q ss d.0))
      | inr not_held ↦
          let next : first_holding full_match json ss m ≡ some (some s) = ground (arith, found) in
          let (ok, best) = first_holding-IsBest ss s d.1 next in
          (ok, ((λ h. absurd (ground (arith, found))), best))
    ]
  ]

  abbrev pub Fails : Service → Type 0
  Fails s = all_hold full_match json (rules s) m ≡ some false

  first_holding-Fails :
      (ss : List Service) → first_holding full_match json ss m ≡ some none → All Fails ss
  first_holding-Fails [] e = tt
  first_holding-Fails (q ∷ ss) e = elim (Option-cases (all_hold full_match json (rules q) m)) [
    | inl stop ↦ absurd (ground (arith, stop))
    | inr (b, found) ↦ elim (Bool-cases b) [
      | inl held ↦ absurd (ground (arith, found))
      | inr not_held ↦
          let next : first_holding full_match json ss m ≡ some none = ground (arith, found) in
          (found ∙ ap some not_held, first_holding-Fails ss next)
    ]
  ]

  Agrees-some :
      {A : Type 0} (Fine : Message json → Type 0) (o : Option A) (a : A) (m' : Message json)
      → Agrees full_match json Fine m o (some (a, m'))
      → (o ≡ some a) × Same full_match json m m' × Fine m'
  Agrees-some Fine none a m' h = absurd h
  Agrees-some Fine (some b) a m' (e, s, k) = (ap some (sym e), s, k)

  module _ (rule_of : ℕ → Rule) (services : List Service) (m' : Message json)
      (numbered : AllNumbered full_match json rule_of services)
      (coherent : Coherent full_match json rule_of m) where
    spec-get_matched_request :
        (o : Option Service)
        → get_matched_request full_match json services m ≡ some (o, m')
        → (first_holding full_match json (reverse services) m ≡ some o)
          × Same full_match json m m'
          × Coherent full_match json rule_of m'
    unfolding get_matched_request
    spec-get_matched_request o e = Agrees-some (Coherent full_match json rule_of) _ o m' (
        rw e at (
          match_services-Agrees full_match json rule_of (reverse services) m
            (All-reverse _ services numbered) coherent))

    -- In a sorted map of numbered services, from a coherent store, the service that is found has
    -- rules that all hold; no service whose rules all hold has more rules than it; and the request
    -- is left with the same headers, payload and document.
    pub get_matched_request-IsBest :
        (s : Service)
        → IsAscending service_less services
        → get_matched_request full_match json services m ≡ some (some s, m')
        → Holds s × IsBest s services × Same full_match json m m'
    get_matched_request-IsBest s sorted e =
        let (found, same, k) = spec-get_matched_request (some s) e in
        let (ok, best) =
          first_holding-IsBest (reverse services) s (reverse-IsDescending services sorted) found in
        (ok, rw (reverse-reverse services) at (All-reverse _ (reverse services) best), same)

    -- Where no service is found, each has a rule that does not hold.
    pub get_matched_request-none :
        get_matched_request full_match json services m ≡ some (none, m') → All Fails services
    get_matched_request-none e =
        let (found, same, k) = spec-get_matched_request none e in
        rw (reverse-reverse services) at
          (All-reverse _ (reverse services) (first_holding-Fails (reverse services) found))
