-- ===== src/Corotine/Start.antt =====
-- `CSession::Start` of CorotineServer: the coroutine that reads packets until the peer closes. The
-- bytes that the peer sends before it closes are the argument `stream`.
pub mod Frames
pub mod Good
pub mod Ends
pub mod Negative
use cppmulti_thread_server_b.Prelude.{
  ℕ, zero, suc, List, [], ◌∷◌, ◌++◌, Bool, true, false, Option, none, some, ℤ, exceeds, length,
  ◌==◌, if◌then◌else◌,
}
use cppmulti_thread_server_b.Memory.{Outcome, done, fault, out_of_fuel, ◌>>=◌}
use cppmulti_thread_server_b.Platform.{Platform}
use cppmulti_thread_server_b.MsgNode.{
  MsgNode, RecvNode, clear, copy_to, terminate, recv_node, load_short, head_total_len, head_id_len,
}
use cppmulti_thread_server_b.Effect.{Effect, post}
use cppmulti_thread_server_b.Corotine.{CSession, max_lenght, catching, close}

-- How one round of the `for` ends: it returns from the coroutine, or the loop goes on.
pub data Round : Type 0 where
  ends : CSession × List Effect → Round
  again : CSession → List ℕ → List Effect → Round

module _ (p : Platform) where
  open p use {async_read}

  -- From the second `async_read` on; `n` is the count of the first.
  unfoldable pub read_body : CSession → ℕ → RecvNode → List ℕ → Outcome Round
  read_body s n r stream = elim (async_read r.node.total_len stream) [
    | none ↦ done (ends (close s))
    | some (body, rest) ↦ do
      m ← copy_to r.node 0 body
      if n == 0
          then done (ends (close (record s { recv_msg_node = some (record r { node = m }) })))
          else do
            m' ← terminate m
            let r' = record r { node = m' }
            done (again (record s { recv_msg_node = some r' }) rest (post r' ∷ []))
  ]

  -- From `short msg_id = 0;` on.
  unfoldable pub read_lengths : CSession → ℕ → List ℕ → Outcome Round
  read_lengths s n stream = do
    msg_id ← load_short p s.recv_head_node 0
    if exceeds msg_id max_lenght then done (ends (close s)) else do
      msg_length ← load_short p s.recv_head_node head_id_len
      if exceeds msg_length max_lenght
          then done (ends (close s))
          else catching (recv_node p msg_length msg_id) (done (ends (close s)))
              λ r. read_body (record s { recv_msg_node = some r }) n r stream

  unfoldable pub round : CSession → List ℕ → Outcome Round
  round s stream = do
    h ← clear s.recv_head_node
    let s₁ = record s { recv_head_node = h }
    elim (async_read head_total_len stream) [
      | none ↦ done (ends (close s₁))
      | some (bs, rest) ↦ do
        h' ← copy_to h 0 bs
        let s₂ = record s₁ { recv_head_node = h' }
        if length bs == 0 then done (ends (close s₂)) else read_lengths s₂ (length bs) rest
    ]

  -- The `for`, with what it asked for in order.
  unfoldable pub start : ℕ → CSession → List ℕ → Outcome (CSession × List Effect)
  start zero s stream = out_of_fuel
  start (suc fuel) s stream = elim s.b_close [
    | true ↦ done (s, [])
    | false ↦ round s stream >>= λ r. elim r [
      | ends (s', es) ↦ done (s', es)
      | again s' rest es ↦ start fuel s' rest >>= λ t. done (t.0, es ++ t.1)
    ]
  ]
