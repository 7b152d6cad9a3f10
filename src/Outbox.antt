-- ===== src/Outbox.antt =====
-- What `Send` and `HandleWrite` of a session promise, as an interface: the two servers have one
-- implementation each. `Outbox/Order` proves what follows for the bytes on the wire.
pub mod Line
pub mod Order
pub mod Stalled
use cppmulti_thread_server_b.Prelude.{
  ℕ, ◌+◌, ◌≤◌, ◌<◌, ◌≡◌, List, [], ◌∷◌, ◌++◌, Bool, true, false, ℤ, length,
}
use cppmulti_thread_server_b.Memory.{Outcome, done}
use cppmulti_thread_server_b.MsgNode.{SendNode}
use cppmulti_thread_server_b.MsgNode.Frame.{frame, sent}
use cppmulti_thread_server_b.Effect.{Effect, start_write}
use cppmulti_thread_server_b.Effect.Counts.{writes}

pub record Outbox : Type 1 where
  pub Session : Type 0
  pub send_queue : Session → List SendNode
  -- The limit that the code compares the queue with, and the longest text that it can send.
  pub max_sendque : ℕ
  pub max_text : ℕ
  pub send : Session → List ℕ → ℤ → Outcome (Session × List Effect)
  pub handle_write : Session → Bool → Outcome (Session × List Effect)

-- What the operations promise.
pub record Promise (o : Outbox) : Type 0 where
  pub send_full :
      (s : o.Session) (msg : List ℕ) (msg_id : ℤ)
      → length msg ≤ o.max_text
      → o.max_sendque < length (o.send_queue s)
      → o.send s msg msg_id ≡ done (s, [])
  pub send_first :
      (s : o.Session) (msg : List ℕ) (msg_id : ℤ)
      → length msg ≤ o.max_text
      → o.send_queue s ≡ []
      → (s' : o.Session) × (o.send s msg msg_id ≡ done (s', start_write (frame msg_id msg) ∷ []))
        × (o.send_queue s' ≡ sent msg_id msg ∷ [])
  pub send_later :
      (s : o.Session) (msg : List ℕ) (msg_id : ℤ) (n : SendNode) (ns : List SendNode)
      → length msg ≤ o.max_text
      → o.send_queue s ≡ n ∷ ns
      → length (n ∷ ns) ≤ o.max_sendque
      → (s' : o.Session) × (o.send s msg msg_id ≡ done (s', []))
        × (o.send_queue s' ≡ n ∷ (ns ++ sent msg_id msg ∷ []))
  pub write_last :
      (s : o.Session) (n : SendNode)
      → o.send_queue s ≡ n ∷ []
      → (s' : o.Session) × (o.handle_write s false ≡ done (s', [])) × (o.send_queue s' ≡ [])
  pub write_next :
      (s : o.Session) (n : SendNode) (msg_id : ℤ) (msg : List ℕ) (ns : List SendNode)
      → o.send_queue s ≡ n ∷ sent msg_id msg ∷ ns
      → (s' : o.Session) × (o.handle_write s false ≡ done (s', start_write (frame msg_id msg) ∷ []))
        × (o.send_queue s' ≡ sent msg_id msg ∷ ns)
  pub write_failed :
      (s : o.Session)
      → (s' : o.Session) × (es : List Effect) × (o.handle_write s true ≡ done (s', es))
        × (writes es ≡ [])
        × (o.send_queue s' ≡ o.send_queue s)
