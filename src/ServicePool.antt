-- ===== src/ServicePool.antt =====
-- SingleThreadAsyncServer/AsioIOServicePool.{h,cpp}, the same files in AsioThreadPool: the pool of
-- I/O contexts, one to a thread, which are handed out in turn.
pub mod RoundRobin
use cppmulti_thread_server_b.Prelude.{
  ℕ, zero, suc, ◌+◌, List, [], ◌∷◌, Bool, true, false, map, replicate, ltb, ◌==◌, if◌then◌else◌,
}
use cppmulti_thread_server_b.Memory.{Outcome, done, fault, ◌>>=◌}

-- The contexts are named by their index; `works` says which still have their work object, and
-- `threads` how many threads are not joined.
pub record AsioIoServicePool : Type 0 where
  pub io_service : ℕ
  pub works : List Bool
  pub threads : ℕ
  pub next_io_service : ℕ

-- The constructor.
unfoldable pub new_pool : ℕ → AsioIoServicePool
new_pool size = record {
  io_service = size;
  works = replicate size true;
  threads = size;
  next_io_service = 0;
}

-- `GetIOService`. An index outside the vector is undefined behaviour.
unfoldable pub get_io_service : AsioIoServicePool → Outcome (ℕ × AsioIoServicePool)
get_io_service s =
    let next = s.next_io_service + 1 in
    if ltb s.next_io_service s.io_service
    then done
        (s.next_io_service, record s { next_io_service = if next == s.io_service then 0 else next })
    else fault

-- `Stop`, once each `run` has returned: the work objects go, and the threads are joined. When that is, is
-- in Shutdown/Services.
unfoldable pub stop : AsioIoServicePool → AsioIoServicePool
stop s = record s { works = map (λ _. false) s.works; threads = 0 }

-- `n` calls of `GetIOService`.
unfoldable pub get_services : ℕ → AsioIoServicePool → Outcome (List ℕ × AsioIoServicePool)
get_services zero s = done ([], s)
get_services (suc n) s = get_io_service s >>= λ t. get_services n t.1 >>= λ u. done (t.0 ∷ u.0, u.1)
