-- ===== src/Corotine/Write.antt =====
-- CorotineServer/CSession.cpp and MsgNode.{h,cpp}: `Send` and `HandleWrite`. Lengths are `short`.
pub mod Promise
pub mod Order
use cppmulti_thread_server_b.Prelude.{
  ℕ, List, [], ◌∷◌, ◌++◌, Bool, true, false, ℤ, pos, to_short, to_u16, length, ltb, if◌then◌else◌,
}
use cppmulti_thread_server_b.Memory.{Outcome, done, fault, ◌>>=◌}
use cppmulti_thread_server_b.Platform.{Platform}
use cppmulti_thread_server_b.MsgNode.{
  SendNode, send_buffer, msg_node, plus_head, store_short, payload, copy_to, head_id_len,
  head_total_len,
}
use cppmulti_thread_server_b.Effect.{Effect, start_write}
use cppmulti_thread_server_b.Corotine.{CSession, max_sendque, close}

-- The conversion of a length to `short`.
abbrev pub short_of : ℤ → ℤ
short_of z = to_short (to_u16 z)

-- `SendNode::SendNode(const char* msg, short max_len, short msg_id)`
unfoldable pub send_node : Platform → List ℕ → ℤ → ℤ → Outcome SendNode
send_node p msg max_len msg_id = do
  m ← msg_node p (short_of (plus_head max_len))
  m₁ ← store_short p m 0 msg_id
  m₂ ← store_short p m₁ head_id_len max_len
  src ← payload p msg max_len
  m₃ ← copy_to m₂ head_total_len src
  done (record { node = m₃; msg_id = msg_id })

unfoldable pub write_front : CSession → Outcome (CSession × List Effect)
write_front s = elim s.send_que [
  | [] ↦ fault
  | node ∷ rest ↦ send_buffer node >>= λ b. done (s, start_write b ∷ [])
]

-- `Send(const char* msg, short max_length, short msg_id)`
unfoldable pub send_chars : Platform → CSession → List ℕ → ℤ → ℤ → Outcome (CSession × List Effect)
send_chars p s msg max_length msg_id =
    if ltb max_sendque (length s.send_que)
    then done (s, [])
    else send_node p msg max_length msg_id >>= λ node.
        let s' = record s { send_que = s.send_que ++ node ∷ [] } in
        if ltb 0 (length s.send_que) then done (s', []) else write_front s'

-- `Send(std::string msg, short msg_id)`. Behind the bytes of `c_str()` stands a zero.
unfoldable pub send : Platform → CSession → List ℕ → ℤ → Outcome (CSession × List Effect)
send p s msg msg_id = send_chars p s (msg ++ 0 ∷ []) (short_of (pos (length msg))) msg_id

-- `HandleWrite`, with `ec` true for an error.
unfoldable pub handle_write : CSession → Bool → Outcome (CSession × List Effect)
handle_write s true = done (close s)
handle_write s false = elim s.send_que [
  | [] ↦ fault
  | node ∷ [] ↦ done (record s { send_que = [] }, [])
  | node ∷ next ∷ rest ↦ write_front (record s { send_que = next ∷ rest })
]
