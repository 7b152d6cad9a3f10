-- ===== src/Shutdown/Shared.antt =====
-- AsioThreadPool/AsioThreadPool.{h,cpp}: the threads of the pool run its one context, and `Stop` joins them.
use cppmulti_thread_server_b.Prelude.{
  ℕ, zero, suc, ◌≡◌, refl, Bool, true, false, Option, none, some, ◌==◌, if◌then◌else◌,
}

-- The pool: whether its `_service` is stopped, whether `_work` is there, and how many threads are not
-- joined.
pub record AsioThreadPool : Type 0 where
  pub stopped : Bool
  pub work : Bool
  pub threads : ℕ

-- The constructor.
unfoldable pub new_pool : ℕ → AsioThreadPool
new_pool thread_num = record { stopped = false; work = true; threads = thread_num }

-- Whether `_service.run()` returns while `operations` are under way: the context is stopped, or it has no
-- work object and no operation.
unfoldable pub run_returns : AsioThreadPool → ℕ → Bool
run_returns s operations = if s.stopped then true else if s.work then false else operations == 0

-- `t.join()` for each of the threads; `none` is a join that waits.
unfoldable pub join : Bool → ℕ → Option ℕ
join returns zero = some 0
join returns (suc threads) = if returns then join returns threads else none

-- `Stop`
unfoldable pub stop : AsioThreadPool → ℕ → Option AsioThreadPool
stop s operations =
    let s' = record s { stopped = true; work = false } in
    elim (join (run_returns s' operations) s.threads) [
      | none ↦ none
      | some threads ↦ some (record s' { threads = threads })
    ]

join-all : (n : ℕ) → join true n ≡ some 0
unfolding join
join-all zero = refl
join-all (suc n) = join-all n

-- `Stop` joins every thread, whatever operations are under way.
stop-joins :
    (s : AsioThreadPool) (operations : ℕ)
    → stop s operations ≡ some (record { stopped = true; work = false; threads = 0 })
unfolding stop run_returns
stop-joins s operations = rw (join-all s.threads, stop) refl
