-- ===== src/ThreadPool/Threads.antt =====
-- A session of AsioThreadPool/CSession.cpp while several threads run its context: `run` of each thread
-- takes a completion handler that is ready, and one that is bound to the strand only while no other such
-- handler of the session runs.
pub mod Counts
pub mod Handled
pub mod Single
pub mod Overlap
pub mod Alone
pub mod Posts
use cppmulti_thread_server_b.Prelude.{
  ℕ, zero, ◌+◌, ◌-◌, ◌^◌, ◌≤◌, ◌<◌, ◌≡◌, List, [], ◌∷◌, ◌++◌, Bool, true, false, ℤ, length,
}
use cppmulti_thread_server_b.Memory.{Outcome, done, ◌>>=◌}
use cppmulti_thread_server_b.Platform.{Platform}
use cppmulti_thread_server_b.MsgNode.{max_lenght}
use cppmulti_thread_server_b.Effect.{Effect, start_read, start_write}
use cppmulti_thread_server_b.Effect.Counts.{reads, writes}
use cppmulti_thread_server_b.Session.{CSession}
use cppmulti_thread_server_b.Session.Life.{Life, Event, sends, read_done, read_failed, write_done}
use cppmulti_thread_server_b.ThreadPool.Session.{
  Call, bound, plain, effects, start, send, handle_write, handle_read, on_bytes,
}

-- A completion handler with the values it gets, and whether it is bound to the strand.
pub record Job : Type 0 where
  pub on_strand : Bool
  pub event : Event

-- The calls that the session has made, less the operations that have completed, the handlers that wait
-- for a thread, those that a thread runs, and what came to those that are over, in the order of their
-- ends.
pub record Threads : Type 0 where
  pub session : CSession
  pub calls : List Call
  pub ready : List Job
  pub running : List Job
  pub over : List Event

abbrev pub is_reading : Event → ℕ
is_reading (sends msg_id msg) = 0
is_reading (read_done bs) = 1
is_reading read_failed = 1
is_reading (write_done ec) = 0

abbrev pub is_writing : Event → ℕ
is_writing (sends msg_id msg) = 0
is_writing (read_done bs) = 0
is_writing read_failed = 0
is_writing (write_done ec) = 1

-- The handlers of reads and those of writes.
abbrev pub readers : List Job → ℕ
readers [] = 0
readers (j ∷ js) = is_reading j.event + readers js

abbrev pub writers : List Job → ℕ
writers [] = 0
writers (j ∷ js) = is_writing j.event + writers js

-- How many handlers are bound to the strand.
abbrev pub stranded : List Job → ℕ
stranded [] = 0
stranded (j ∷ js) = (elim j.on_strand [ true ↦ 1 | false ↦ 0 ]) + stranded js

-- The reads and writes that are not over: under way, or with a handler that waits or runs.
abbrev pub life : Threads → Life
life t = record {
  session = t.session;
  reading = reads (effects t.calls) + (readers t.ready + readers t.running);
  writing = length (writes (effects t.calls)) + (writers t.ready + writers t.running);
}

-- How an operation can complete.
abbrev pub IsEnd : Effect → Event → Type 0
IsEnd start_read (read_done bs) = length bs ≤ max_lenght
IsEnd start_read read_failed = Unit {0}
IsEnd (start_write b) (write_done ec) = Unit {0}
IsEnd _ _ = ⊥

abbrev pub Completes : Call → Job → Type 0
Completes (bound e) j = (j.on_strand ≡ true) × IsEnd e j.event
Completes (plain e) j = (j.on_strand ≡ false) × IsEnd e j.event

-- The body of a handler. `Send` is called from the thread of the logic system.
unfoldable pub handle : Platform → CSession → Event → Outcome (CSession × List Call)
handle p s (sends msg_id msg) = send p s msg msg_id
handle p s (read_done bs) = on_bytes p s bs
handle p s read_failed = handle_read p 0 s true 0
handle p s (write_done ec) = handle_write s ec

-- A session that `HandleAccept` has started.
unfoldable pub opened : CSession → Outcome Threads
opened s = start s >>= λ t.
    done (record { session = t.0; calls = t.1; ready = []; running = []; over = [] })

-- What `n` threads can do next. A handler that throws or faults ends the process, and makes no step.
-- The effect of a handler's body counts when it is over: `HandleWrite` and `Send` hold `_send_lock`,
-- and `HandleRead` shares no field with them that one of them reads.
pub data Step (p : Platform) (n : ℕ) : Threads → Threads → Type 0 where
  calls_send :
      (t : Threads) (msg_id : ℤ) (msg : List ℕ) (s : CSession) (cs : List Call)
      → length msg ≤ 2 ^ 31 - 6
      → handle p t.session (sends msg_id msg) ≡ done (s, cs)
      → Step p n t (record t { session = s; calls = t.calls ++ cs })
  completes :
      (t : Threads) (before later : List Call) (c : Call) (j : Job)
      → t.calls ≡ before ++ c ∷ later
      → Completes c j
      → Step p n t (record t { calls = before ++ later; ready = t.ready ++ j ∷ [] })
  takes :
      (t : Threads) (before later : List Job) (j : Job)
      → t.ready ≡ before ++ j ∷ later
      → length t.running < n
      → stranded (j ∷ t.running) ≤ 1
      → Step p n t (record t { ready = before ++ later; running = j ∷ t.running })
  finishes :
      (t : Threads) (before later : List Job) (j : Job) (s : CSession) (cs : List Call)
      → t.running ≡ before ++ j ∷ later
      → handle p t.session j.event ≡ done (s, cs)
      → Step p n t (record t {
        session = s;
        calls = t.calls ++ cs;
        running = before ++ later;
        over = t.over ++ j.event ∷ [];
      })

-- What a session comes to on `n` threads.
pub data Reach (p : Platform) (n : ℕ) (s : CSession) : Threads → Type 0 where
  begins : (t : Threads) → opened s ≡ done t → Reach p n s t
  goes_on : (t t' : Threads) → Reach p n s t → Step p n t t' → Reach p n s t'
