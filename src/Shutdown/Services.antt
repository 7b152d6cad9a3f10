-- ===== src/Shutdown/Services.antt =====
-- SingleThreadAsyncServer/main.cpp and CorotineServer/main.cpp with the constructor and the `Stop` of their
-- AsioIOServicePool: the main thread runs an `io_context` of its own, and the pool's threads run one each.
use cppmulti_thread_server_b.Prelude.{
  ℕ, ◌+◌, ◌-◌, ◌<◌, ◌≡◌, List, [], ◌∷◌, ◌++◌, Bool, true, false, replicate,
}

-- A context of the pool: whether its work object is there, and how many operations of sessions are not
-- over. `run` returns when there is neither.
pub record Context : Type 0 where
  pub work : Bool
  pub operations : ℕ

-- Where `main` is: in `io_context.run()`, in the signal's handler, or at its `return`.
pub data Phase : Type 0 where
  running stopping returned : Phase

pub record Process : Type 0 where
  pub phase : Phase
  pub contexts : List Context

-- The constructor of the pool.
unfoldable pub new_contexts : ℕ → List Context
new_contexts size = replicate size (record { work = true; operations = 0 })

-- `main` up to `io_context.run()`.
unfoldable pub main : ℕ → Process
main size = record { phase = running; contexts = new_contexts size }

-- The same of CorotineServer, whose `GetInstance` makes a pool of one context.
unfoldable pub corotine_main : Process
corotine_main = record { phase = running; contexts = new_contexts 1 }

-- `work.reset()` for each work object.
unfoldable pub reset_works : List Context → List Context
reset_works [] = []
reset_works (c ∷ cs) = record c { work = false } ∷ reset_works cs

-- No thread of the pool is left in `run`, so that each `join` returns.
abbrev pub AreOver : List Context → Type 0
AreOver [] = Unit {0}
AreOver (c ∷ cs) = (c.work ≡ false) × (c.operations ≡ 0) × AreOver cs

-- No operation is under way.
abbrev pub AreIdle : List Context → Type 0
AreIdle [] = Unit {0}
AreIdle (c ∷ cs) = (c.operations ≡ 0) × AreIdle cs

pub data Step : Process → Process → Type 0 where
  -- A session is accepted on a context and starts its first read.
  accepts :
      (t : Process) (before later : List Context) (c : Context)
      → t.phase ≡ running
      → t.contexts ≡ before ++ c ∷ later
      → Step t
          (record t { contexts = before ++ record c { operations = c.operations + 1 } ∷ later })
  -- The handler of an operation, or the logic system's thread in `Send`, starts one more.
  starts :
      (t : Process) (before later : List Context) (c : Context)
      → t.contexts ≡ before ++ c ∷ later
      → Step t
          (record t { contexts = before ++ record c { operations = c.operations + 1 } ∷ later })
  -- An operation and its handler are over.
  ends :
      (t : Process) (before later : List Context) (c : Context)
      → 0 < c.operations
      → t.contexts ≡ before ++ c ∷ later
      → Step t
          (record t { contexts = before ++ record c { operations = c.operations - 1 } ∷ later })
  -- The signal's handler: `io_context.stop()`, and `Stop` up to its joins.
  signals :
      (t : Process)
      → t.phase ≡ running
      → Step t (record { phase = stopping; contexts = reset_works t.contexts })
  -- The joins return, `run` sees that the context is stopped, and `main` returns.
  joins :
      (t : Process)
      → t.phase ≡ stopping
      → AreOver t.contexts
      → Step t (record t { phase = returned })

pub data Reach (s : Process) : Process → Type 0 where
  begins : Reach s s
  goes_on : (t t' : Process) → Reach s t → Step t t' → Reach s t'
