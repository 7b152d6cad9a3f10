-- ===== src/Session/Write.antt =====
-- `CSession::Send` and `CSession::HandleWrite`: packets wait in a queue, and the first of them is
-- being written. Each body runs under `_send_lock`.
pub mod Promise
pub mod Order
use cppmulti_thread_server_b.Prelude.{
  ℕ, List, [], ◌∷◌, ◌++◌, Bool, true, false, ℤ, pos, length, ltb, if◌then◌else◌,
}
use cppmulti_thread_server_b.Memory.{Outcome, done, fault, ◌>>=◌}
use cppmulti_thread_server_b.Platform.{Platform}
use cppmulti_thread_server_b.MsgNode.{SendNode, send_node, send_buffer, max_sendque}
use cppmulti_thread_server_b.Effect.{Effect, start_write}
use cppmulti_thread_server_b.Session.{CSession, close}

-- `async_write` of `_send_queue.front()`, which an empty queue does not have.
unfoldable pub write_front : CSession → Outcome (CSession × List Effect)
write_front s = elim s.send_queue [
  | [] ↦ fault
  | node ∷ rest ↦ send_buffer node >>= λ b. done (s, start_write b ∷ [])
]

-- From the `push` on; `send_que_size` is the size before it.
unfoldable pub enqueue : CSession → SendNode → ℕ → Outcome (CSession × List Effect)
enqueue s node send_que_size =
    let s' = record s { send_queue = s.send_queue ++ node ∷ [] } in
    if ltb 0 send_que_size then done (s', []) else write_front s'

-- `Send(char* msg, int max_len, short msg_id)`
unfoldable pub send_chars : Platform → CSession → List ℕ → ℤ → ℤ → Outcome (CSession × List Effect)
send_chars p s msg max_len msg_id =
    if ltb max_sendque (length s.send_queue)
    then done (s, [])
    else send_node p msg max_len msg_id >>= λ node. enqueue s node (length s.send_queue)

-- `Send(std::string msg, short msg_id)`. Behind the bytes of `c_str()` stands a zero.
unfoldable pub send : Platform → CSession → List ℕ → ℤ → Outcome (CSession × List Effect)
send p s msg msg_id =
    if ltb max_sendque (length s.send_queue)
    then done (s, [])
    else send_node p (msg ++ 0 ∷ []) (pos (length msg)) msg_id >>= λ node.
        enqueue s node (length s.send_queue)

-- `HandleWrite`, with `ec` true for an error.
unfoldable pub handle_write : CSession → Bool → Outcome (CSession × List Effect)
handle_write s true = done (close s)
handle_write s false = elim s.send_queue [
  | [] ↦ fault
  | node ∷ [] ↦ done (record s { send_queue = [] }, [])
  | node ∷ next ∷ rest ↦ write_front (record s { send_queue = next ∷ rest })
]
