-- ===== src/Corotine/Life.antt =====
-- A session of the coroutine server over its life: its coroutine, its writes that are under way and the
-- callers of `Send`, in any order.
pub mod Sound
pub mod Spawned
pub mod Requeue
pub mod Alone
pub mod Sequential
use cppmulti_thread_server_b.Prelude.{
  ℕ, zero, suc, ◌+◌, List, [], ◌∷◌, ◌++◌, Bool, true, false, ℤ, length, if◌then◌else◌,
}
use cppmulti_thread_server_b.Memory.{Outcome, done, ◌>>=◌}
use cppmulti_thread_server_b.Platform.{Platform}
use cppmulti_thread_server_b.Effect.{Effect}
use cppmulti_thread_server_b.Effect.Counts.{writes}
use cppmulti_thread_server_b.Corotine.{CSession}
use cppmulti_thread_server_b.Corotine.Start.{ends, again, round}
use cppmulti_thread_server_b.Corotine.Write.{send, handle_write}

-- `over` is whether the coroutine has returned, `stream` is what the peer sends from here on before it
-- closes, `writing` counts the writes that are started and not completed, and `log` is what has been
-- asked for, in order.
pub record Life : Type 0 where
  pub session : CSession
  pub over : Bool
  pub stream : List ℕ
  pub writing : ℕ
  pub log : List Effect

-- A call of `Send`, a turn of the coroutine's `for`, which counts when it ends, or Asio with the
-- completion of a write, an error or not.
pub data Event : Type 0 where
  sends : (msg_id : ℤ) (msg : List ℕ) → Event
  turns : Event
  write_done : (ec : Bool) → Event

-- What `Send` and `HandleWrite` leave.
unfoldable pub wrote : Life → ℕ → CSession × List Effect → Outcome Life
wrote l writing (s, es) =
    done (record l { session = s; writing = writing + length (writes es); log = l.log ++ es })

-- A turn, and the test of the `for` behind it. A socket that is closed fails its reads: nothing more
-- comes from it.
unfoldable pub turn : Platform → Life → Outcome Life
turn p l = round p l.session (if l.session.b_close then [] else l.stream) >>= λ r. elim r [
  | ends (s, es) ↦ done (record l { session = s; over = true; log = l.log ++ es })
  | again s rest es ↦
      done (record l { session = s; over = s.b_close; stream = rest; log = l.log ++ es })
]

-- A coroutine that has returned takes no turn, and a write that is not under way does not complete.
unfoldable pub step : Platform → Life → Event → Outcome Life
step p l (sends msg_id msg) = send p l.session msg msg_id >>= wrote l l.writing
step p l turns = elim l.over [ true ↦ done l | false ↦ turn p l ]
step p l (write_done ec) = elim l.writing [
  | zero ↦ done l
  | suc n ↦ handle_write l.session ec >>= wrote l n
]

unfoldable pub run : Platform → Life → List Event → Outcome Life
run p l [] = done l
run p l (e ∷ es) = step p l e >>= λ l'. run p l' es

-- A session whose coroutine `Start` has spawned.
unfoldable pub spawned : CSession → List ℕ → Life
spawned s stream = record { session = s; over = s.b_close; stream = stream; writing = 0; log = [] }
