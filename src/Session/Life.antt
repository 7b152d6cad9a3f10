-- ===== src/Session/Life.antt =====
-- A callback session over its life: its reads and writes that are under way, as their handlers and the
-- callers of `Send` come in any order.
pub mod Single
pub mod Ends
use cppmulti_thread_server_b.Prelude.{
  ℕ, zero, suc, ◌+◌, List, [], ◌∷◌, Bool, true, false, ℤ, length,
}
use cppmulti_thread_server_b.Memory.{Outcome, done, ◌>>=◌}
use cppmulti_thread_server_b.Platform.{Platform}
use cppmulti_thread_server_b.Effect.{Effect}
use cppmulti_thread_server_b.Effect.Counts.{reads, writes}
use cppmulti_thread_server_b.Session.{CSession}
use cppmulti_thread_server_b.Session.Read.{start, handle_read, on_bytes}
use cppmulti_thread_server_b.Session.Write.{send, handle_write}

-- `reading` and `writing` count the operations that are started and not completed.
pub record Life : Type 0 where
  pub session : CSession
  pub reading : ℕ
  pub writing : ℕ

-- A call of `Send`, or Asio with the completion of a read or of a write, an error or not.
pub data Event : Type 0 where
  sends : (msg_id : ℤ) (msg : List ℕ) → Event
  read_done : (bs : List ℕ) → Event
  read_failed : Event
  write_done : (ec : Bool) → Event

-- What a handler leaves, with what it starts.
unfoldable pub after : ℕ → ℕ → CSession × List Effect → Outcome Life
after reading writing (s, es) =
    done
      (record { session = s; reading = reading + reads es; writing = writing + length (writes es) })

-- An operation that is not under way does not complete.
unfoldable pub step : Platform → Life → Event → Outcome Life
step p l (sends msg_id msg) = send p l.session msg msg_id >>= after l.reading l.writing
step p l (read_done bs) = elim l.reading [
  | zero ↦ done l
  | suc n ↦ on_bytes p (length bs + 2) l.session bs >>= after n l.writing
]
step p l read_failed = elim l.reading [
  | zero ↦ done l
  | suc n ↦ handle_read p 0 l.session true 0 >>= after n l.writing
]
step p l (write_done ec) = elim l.writing [
  | zero ↦ done l
  | suc n ↦ handle_write l.session ec >>= after l.reading n
]

unfoldable pub run : Platform → Life → List Event → Outcome Life
run p l [] = done l
run p l (e ∷ es) = step p l e >>= λ l'. run p l' es

-- A session that `HandleAccept` has started.
unfoldable pub started : CSession → Outcome Life
started s = after 0 0 (start s)
