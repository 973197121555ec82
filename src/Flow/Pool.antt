-- ===== src/Flow/Pool.antt =====
-- asio_io_service_pool.cc: the io_service, and with it the thread, that a connection gets.
use native.Mathlib.Nat.{add-mod_left, mod-eq_of_lt}
use maock.Prelude.{
  ℕ, zero, suc, ◌+◌, ◌%◌, ◌<◌, ◌≡◌, refl, ◌⊎◌, inl, inr, false, Option, none, some, arith, ◌==◌,
  if◌then◌else◌, Bool-cases,
}

-- io_service_pool: how many io_services_ there are, and next_io_service_.
pub record IoServicePool : Type 0 where
  pub io_services : ℕ
  pub next_io_service : ℕ

-- The constructor; `none` is the exception. The first io_service is that of the listener.
unfoldable pub new_io_service_pool : ℕ → Option IoServicePool
new_io_service_pool pool_size =
    if pool_size == 0
    then none
    else some (record { io_services = pool_size + 1; next_io_service = 1 })

-- get_io_service: the index of the io_service
unfoldable pub get_io_service : IoServicePool → ℕ × IoServicePool
get_io_service p =
    let next = p.next_io_service + 1 in
    (p.next_io_service, record p { next_io_service = if next == p.io_services then 1 else next })

-- The index that the k-th call gives, counted from 0.
unfoldable pub nth_service : ℕ → IoServicePool → ℕ
unfolding get_io_service
nth_service zero p = (get_io_service p).0
nth_service (suc k) p = nth_service k (get_io_service p).1

nth_service-from :
    (n k j : ℕ)
    → j < n
    → nth_service k (record { io_services = n + 1; next_io_service = j + 1 }) ≡ (j + k) % n + 1
unfolding nth_service get_io_service
nth_service-from n zero j h = let same : j + 0 ≡ j = omega arith in rw (same, mod-eq_of_lt h) refl
nth_service-from n (suc k) j h = elim (Bool-cases (j + 1 + 1 == n + 1)) [
  | inl last ↦
      let full : j + suc k ≡ n + k = ground (arith, last) in
      let later = nth_service-from n k 0 (omega (arith, h)) in
      let none_left : 0 + k ≡ k = omega arith in
      let one : 0 + 1 ≡ 1 = omega arith in
      rw (last, full, add-mod_left n k) (rw (none_left, one) at later)
  | inr more ↦
      let sum : j + suc k ≡ j + 1 + k = omega arith in
      rw (more, sum) (nth_service-from n k (j + 1) (ground (arith, h, more)))
]

-- In a new pool for n workers the k-th call, counted from 0, gives the io_service k % n + 1, so the
-- workers take their turns and the io_service of the listener is never chosen; and a pool for no
-- worker is refused.
pub nth_service-new_io_service_pool :
    (n k : ℕ)
    → (n ≡ 0) × (new_io_service_pool n ≡ none)
      ⊎ (p : IoServicePool) × (new_io_service_pool n ≡ some p) × (nth_service k p ≡ k % n + 1)
unfolding new_io_service_pool
nth_service-new_io_service_pool zero k = inl (refl, refl)
nth_service-new_io_service_pool (suc n) k =
    let later = nth_service-from (suc n) k 0 (omega arith) in
    let none_left : 0 + k ≡ k = omega arith in
    let one : 0 + 1 ≡ 1 = omega arith in
    let some_worker : suc n == 0 ≡ false = ground arith in
    inr (
      record { io_services = suc n + 1; next_io_service = 1 },
      rw some_worker refl,
      rw (none_left, one) at later,
    )
