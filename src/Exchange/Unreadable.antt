-- ===== src/Exchange/Unreadable.antt =====
-- A packet whose text is not what the servers ask JsonCpp for.
use Prim.Native.Nat.{suc}
use Prim.Native.String.{String}
use cppmulti_thread_server_b.Prelude.{
  ℕ, ◌+◌, ◌≤◌, ◌<◌, ◌≡◌, ◌⊎◌, refl, ap, sym, ◌∙◌, List, [], ◌∷◌, ◌++◌, false, none, ℤ, pos, IsShort,
  exceeds, length, drop, append_assoc, append-nil, lt→ltb, arith,
}
use cppmulti_thread_server_b.Memory.{done, throws}
use cppmulti_thread_server_b.Platform.{Platform}
use cppmulti_thread_server_b.MsgNode.{RecvNode, max_lenght}
use cppmulti_thread_server_b.MsgNode.Frame.{head, frame}
use cppmulti_thread_server_b.MsgNode.Head.{IsHead}
use cppmulti_thread_server_b.Effect.{post}
use cppmulti_thread_server_b.Logic.{LogicNode, LogicSystem, register_callback, find}
use cppmulti_thread_server_b.Corotine
use cppmulti_thread_server_b.Corotine.Start
use cppmulti_thread_server_b.Corotine.Start.{again}
use cppmulti_thread_server_b.Corotine.Start.Frames.{after_packet, received, round-packet}
use cppmulti_thread_server_b.Corotine.Logic.{deal_front, deal, hello_world, text-text_node}
use cppmulti_thread_server_b.Session.{CSession}
use cppmulti_thread_server_b.Session.Read.{print_json, round, loop, handle_read, on_bytes}
use cppmulti_thread_server_b.Session.Read.Waiting.{HasHead, arrived, arrived-HasHead}
use cppmulti_thread_server_b.Session.Read.Packet.{round-printed}

-- JsonCpp does not convert its "id" to an integer, or its "data" to a string.
abbrev pub IsUnreadable : Platform → List ℕ → Type 0
IsUnreadable p msg = (p.id_as_int msg ≡ none) ⊎ (p.data_as_string msg ≡ none)

module _ (p : Platform) where
  print_json-throws : (msg : List ℕ) → IsUnreadable p msg → print_json p msg ≡ throws
  unfolding print_json
  print_json-throws msg u = ground arith

  hello_world-throws :
      (session : String) (msg_id : ℤ) (msg : List ℕ)
      → IsUnreadable p msg
      → hello_world p session msg_id msg ≡ throws
  unfolding hello_world
  hello_world-throws session msg_id msg u = ground arith

  loop-throws :
      (fuel : ℕ) (s : CSession) (bytes copy_len : ℕ)
      → 0 < bytes
      → round p s bytes copy_len ≡ throws
      → loop p (suc fuel) s bytes copy_len ≡ throws
  unfolding loop
  loop-throws fuel s bytes copy_len b e = rw (lt→ltb 0 bytes b, loop) (rw e refl)

  -- A packet whose text has an "id" that is no integer for JsonCpp, or a "data" that is no string, ends
  -- `HandleRead` in an exception that leaves it. The session waits for a head
  -- with an empty buffer; the id is a short that the limit lets through, and the packet comes in with one
  -- read of at most 1024 bytes.
  pub on_bytes-throws :
      (fuel : ℕ) (s : CSession) (msg : List ℕ) (msg_id : ℤ)
      → HasHead [] s
      → IsShort msg_id
      → exceeds msg_id max_lenght ≡ false
      → length msg + 4 ≤ max_lenght
      → IsUnreadable p msg
      → on_bytes p (suc fuel) s (frame msg_id msg) ≡ throws
  unfolding on_bytes handle_read
  on_bytes-throws fuel s msg msg_id h z g l u =
      let at = head msg_id (pos (length msg)) in
      let s₀ = arrived s (at ++ msg) in
      let rest = drop (length (at ++ msg)) s.recv_data in
      let h₀ = arrived-HasHead s (at ++ msg) h (omega arith) in
      let (s₁, i, d, ran) =
        round-printed p s₀ [] at at msg (msg ++ rest) rest msg_id 0 0 h₀ z g (omega arith) refl
          (append_assoc at msg rest) (append_assoc at msg rest) (omega arith) (omega arith) in
      let size : length (at ++ msg) ≡ length at + (length msg + 0) = omega arith in
      loop-throws fuel s₀ (length (at ++ msg)) 0 (omega arith)
        (ap (λ k. round p s₀ k 0) size ∙ ran ∙ rw (print_json-throws msg u) refl)

  -- In the coroutine server such a packet with the id 1001 is read and posted like any other, and when
  -- it is at the front of the queue the logic system's turn ends in an exception that leaves the callback.
  -- The session's head buffer is as its constructor makes it, the callbacks are the registered ones, and
  -- the text has at most 2048 bytes.
  pub deal_front-throws :
      (s : Corotine.CSession) (msg : List ℕ) (l : LogicSystem) (later : List LogicNode)
      → IsHead s.recv_head_node
      → length msg ≤ Corotine.max_lenght
      → l.func_callbacks ≡ register_callback
      → IsUnreadable p msg
      → (s' : Corotine.CSession) × (node : RecvNode) × (Start.round p s (frame (pos 1001) msg)
          ≡ done (again s' [] (post node ∷ [])))
        × (deal_front p
              (record l { msg_que = record { session = s.uuid; recv_node = node } ∷ later })
            ≡ throws)
  unfolding deal_front deal find register_callback
  deal_front-throws s msg l later i m c u = (
    after_packet s (pos 1001) msg,
    received (pos 1001) msg,
    ap (Start.round p s) (sym (append-nil (frame (pos 1001) msg)))
        ∙ round-packet p s (pos 1001) msg [] i
            (record { is_short = omega arith; id_fits = refl; len_fits = m }),
    rw c (rw (text-text_node 0 msg) (rw (hello_world-throws s.uuid (pos 1001) msg u) refl)),
  )
