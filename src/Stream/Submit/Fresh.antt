-- ===== src/Stream/Submit/Fresh.antt =====
-- asio_server_base_handler.cc: the cached date.
use maock.Prelude.{
  ◌≡◌, refl, sym, ap, ◌∙◌, inl, inr, true, Option, List, [], ◌∷◌, map, arith, Bool-cases,
}
use maock.Prelude.Int.{ℤ, pos, negsuc}
use maock.Bytes.{Bytes}
use maock.Util.Date
use maock.Stream.Submit.{DateCache, new_cache, same_time, http_date}

same_time_iff : (s t : ℤ) → same_time s t ≡ true → s ≡ t
same_time_iff (pos m) (pos n) h = ap pos (ground (arith, h))
same_time_iff (negsuc m) (negsuc n) h = ap negsuc (ground (arith, h))
same_time_iff (pos m) (negsuc n) h = cc
same_time_iff (negsuc m) (pos n) h = cc

-- The calls of http_date at the times `ts`, one after the other.
abbrev pub dates : (ℤ → Option Date.Tm) → List ℤ → DateCache → List Bytes
dates gmtime [] cache = []
dates gmtime (t ∷ ts) cache =
    let (date, cache') = http_date gmtime t cache in date ∷ dates gmtime ts cache'

dates-fresh :
    (gmtime : ℤ → Option Date.Tm) (ts : List ℤ) (cache : DateCache)
    → cache.formatted_date ≡ Date.http_date gmtime cache.tstamp_cached
    → dates gmtime ts cache ≡ map (Date.http_date gmtime) ts
unfolding http_date new_cache
dates-fresh gmtime [] cache h = refl
dates-fresh gmtime (t ∷ ts) cache h = elim (Bool-cases (same_time t cache.tstamp_cached)) [
  | inl same ↦
      let here = h ∙ ap (Date.http_date gmtime) (sym (same_time_iff t cache.tstamp_cached same)) in
      rw (same, dates-fresh gmtime ts cache h) (ap (λ s. s ∷ map (Date.http_date gmtime) ts) here)
  | inr other ↦
      rw other
        (ap (λ s. Date.http_date gmtime t ∷ s) (dates-fresh gmtime ts (new_cache gmtime t) refl))
]

-- Whatever the times at which a handler is made and asked for its date, in any order, the cache is
-- not seen: each call gives the date of its own time.
pub dates-http_date :
    (gmtime : ℤ → Option Date.Tm) (start : ℤ) (ts : List ℤ)
    → dates gmtime ts (new_cache gmtime start) ≡ map (Date.http_date gmtime) ts
unfolding new_cache
dates-http_date gmtime start ts = dates-fresh gmtime ts (new_cache gmtime start) refl
