-- ===== src/ServicePool/RoundRobin.antt =====
-- The contexts of the pool are handed out in turn.
use native.Mathlib.Nat.{mod-lt, mod-add-mod}
use cppmulti_thread_server_b.Prelude.{
  ℕ, zero, suc, ◌+◌, ◌%◌, ◌<◌, ◌≡◌, refl, List, [], ◌∷◌, ◌==◌, if◌then◌else◌, arith, ap, ◌∙◌,
}
use cppmulti_thread_server_b.Memory.{done}
use cppmulti_thread_server_b.ServicePool.{AsioIoServicePool, new_pool, get_io_service, get_services}

-- The contexts of calls number k, k + 1, …, counted without end.
abbrev pub in_turn : ℕ → ℕ → ℕ → List ℕ
in_turn size k zero = []
in_turn size k (suc n) = (k % size) ∷ in_turn size (k + 1) n

-- A pool after `k` calls.
pub record Called (size k : ℕ) (s : AsioIoServicePool) : Type 0 where
  pub sized : s.io_service ≡ size
  pub turn : s.next_io_service ≡ k % size

wrapped : (r n : ℕ) → r < n → (if r + 1 == n then 0 else r + 1) ≡ (r + 1) % n
wrapped r n h = grind arith

abbrev after : AsioIoServicePool → ℕ → ℕ → AsioIoServicePool
after s size r = record s {
  io_service = size;
  next_io_service = if r + 1 == size then 0 else r + 1;
}

get_io_service-after :
    (s : AsioIoServicePool) (size r : ℕ)
    → s.io_service ≡ size
    → s.next_io_service ≡ r
    → r < size
    → get_io_service s ≡ done (r, after s size r)
unfolding get_io_service
get_io_service-after s size r e f h = ground arith

pub get_io_service-Called :
    (size k : ℕ) (s : AsioIoServicePool)
    → 0 < size
    → Called size k s
    → (s' : AsioIoServicePool) × (get_io_service s ≡ done (k % size, s')) × Called size (k + 1) s'
get_io_service-Called size k s h c =
    let below : k % size < size = mod-lt k h in
    (
      after s size (k % size),
      get_io_service-after s size (k % size) c.sized c.turn below,
      record { sized = refl; turn = wrapped (k % size) size below ∙ mod-add-mod k size 1 },
    )

pub get_services-in_turn :
    (size n : ℕ) (s : AsioIoServicePool) (k : ℕ)
    → 0 < size
    → Called size k s
    → (s' : AsioIoServicePool) × (get_services n s ≡ done (in_turn size k n, s'))
      × Called size (k + n) s'
unfolding get_services
get_services-in_turn size zero s k h c =
    let same : k ≡ k + 0 = omega arith in
    (s, refl, record { sized = c.sized; turn = c.turn ∙ ap (λ t. t % size) same })
get_services-in_turn size (suc n) s k h c =
    let (s₁, one, c₁) = get_io_service-Called size k s h c in
    let (s₂, rest, c₂) = get_services-in_turn size n s₁ (k + 1) h c₁ in
    let more : k + 1 + n ≡ k + suc n = omega arith in
    (
      s₂,
      rw one (rw rest refl),
      record { sized = c₂.sized; turn = c₂.turn ∙ ap (λ t. t % size) more },
    )

pub new_pool-Called : (size : ℕ) → 0 < size → Called size 0 (new_pool size)
unfolding new_pool
new_pool-Called size h = record { sized = refl; turn = grind arith }

-- The contexts of a new pool that has some are handed out in turn, from the first on, and round again
-- after the last: call number i gets context i modulo the size of the pool, for any number of calls,
-- and none of them runs past the array of contexts.
pub new_pool-in_turn :
    (size n : ℕ)
    → 0 < size
    → (s : AsioIoServicePool) × (get_services n (new_pool size) ≡ done (in_turn size 0 n, s))
new_pool-in_turn size n h =
    let (s, run, c) = get_services-in_turn size n (new_pool size) 0 h (new_pool-Called size h) in
    (s, run)
