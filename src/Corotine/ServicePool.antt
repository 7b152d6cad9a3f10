-- ===== src/Corotine/ServicePool.antt =====
-- CorotineServer/AsioIOServicePool.{h,cpp}: the coroutine server's pool of I/O contexts.
use cppmulti_thread_server_b.Prelude.{
  ℕ, zero, suc, ◌<◌, ◌≡◌, refl, List, [], ◌∷◌, Bool, true, false, map, replicate, ltb, ◌==◌,
  if◌then◌else◌, arith,
}
use cppmulti_thread_server_b.Memory.{Outcome, done, fault, ◌>>=◌}

pub record AsioIoServicePool : Type 0 where
  pub io_service : ℕ
  pub works : List Bool
  pub threads : ℕ
  pub next_io_service : ℕ

-- The constructor. `GetInstance` calls it with one thread.
unfoldable pub new_pool : ℕ → AsioIoServicePool
new_pool thread_num = record {
  io_service = thread_num;
  works = replicate thread_num true;
  threads = thread_num;
  next_io_service = 0;
}

-- `GetIOService`: the index is reset at the end of the vector, and never moved on.
unfoldable pub get_io_service : AsioIoServicePool → Outcome (ℕ × AsioIoServicePool)
get_io_service s =
    if ltb s.next_io_service s.io_service
    then done (
      s.next_io_service,
      record s {
        next_io_service = if s.next_io_service == s.io_service then 0 else s.next_io_service;
      },
    )
    else fault

unfoldable pub stop : AsioIoServicePool → AsioIoServicePool
stop s = record s { works = map (λ _. false) s.works; threads = 0 }

unfoldable pub get_services : ℕ → AsioIoServicePool → Outcome (List ℕ × AsioIoServicePool)
get_services zero s = done ([], s)
get_services (suc n) s = get_io_service s >>= λ t. get_services n t.1 >>= λ u. done (t.0 ∷ u.0, u.1)

pub get_io_service-same :
    (s : AsioIoServicePool)
    → s.next_io_service < s.io_service
    → get_io_service s ≡ done (s.next_io_service, s)
unfolding get_io_service
get_io_service-same s h = ground arith

-- Every call on one pool gives the same context, however many contexts the pool has: those behind
-- it are never used. The pool's index is within its contexts, as it is in a new pool that has
-- some.
pub get_services-same :
    (n : ℕ) (s : AsioIoServicePool)
    → s.next_io_service < s.io_service
    → get_services n s ≡ done (replicate n s.next_io_service, s)
unfolding get_services
get_services-same zero s h = refl
get_services-same (suc n) s h = rw (get_io_service-same s h) (rw (get_services-same n s h) refl)
