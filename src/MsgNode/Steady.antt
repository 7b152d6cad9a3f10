-- ===== src/MsgNode/Steady.antt =====
-- The operations on nodes make no loop.
use cppmulti_thread_server_b.Prelude.{ℕ, zero, suc, ◌+◌, List, [], ◌∷◌, ℤ, pos, negsuc}
use cppmulti_thread_server_b.Memory.{zeros}
use cppmulti_thread_server_b.Memory.Steady.{
  IsSteady, IsSteady-bind, read_bytes-IsSteady, write_bytes-IsSteady,
}
use cppmulti_thread_server_b.Platform.{Platform}
use cppmulti_thread_server_b.MsgNode.{
  MsgNode, clear, copy_to, terminate, text, msg_node, recv_node, load_short, short_at,
}

pub clear-IsSteady : (m : MsgNode) → IsSteady (clear m)
unfolding clear
clear-IsSteady m =
    IsSteady-bind _ _ (write_bytes-IsSteady m.offset (zeros m.total_len) m.bytes) (λ b. tt)

pub copy_to-IsSteady : (m : MsgNode) (at : ℕ) (src : List ℕ) → IsSteady (copy_to m at src)
unfolding copy_to
copy_to-IsSteady m at src =
    IsSteady-bind _ _ (write_bytes-IsSteady (m.offset + at) src m.bytes) (λ b. tt)

pub terminate-IsSteady : (m : MsgNode) → IsSteady (terminate m)
unfolding terminate
terminate-IsSteady m =
    IsSteady-bind _ _ (write_bytes-IsSteady (m.offset + m.total_len) (0 ∷ []) m.bytes) (λ b. tt)

pub text-IsSteady : (m : MsgNode) → IsSteady (text m)
unfolding text
text-IsSteady m = read_bytes-IsSteady m.offset m.cur_len m.bytes

short_at-IsSteady : (b : List ℕ) → IsSteady (short_at b)
unfolding short_at
short_at-IsSteady [] = tt
short_at-IsSteady (x ∷ []) = tt
short_at-IsSteady (x ∷ y ∷ []) = tt
short_at-IsSteady (x ∷ y ∷ z ∷ r) = tt

pub load_short-IsSteady : (p : Platform) (m : MsgNode) (at : ℕ) → IsSteady (load_short p m at)
unfolding load_short
load_short-IsSteady p m at =
    IsSteady-bind _ _ (read_bytes-IsSteady (m.offset + at) 2 m.bytes)
      (λ b. IsSteady-bind _ _ (short_at-IsSteady b) (λ w. tt))

pub recv_node-IsSteady : (p : Platform) (max_len msg_id : ℤ) → IsSteady (recv_node p max_len msg_id)
unfolding recv_node msg_node
recv_node-IsSteady p (pos n) msg_id = tt
recv_node-IsSteady p (negsuc zero) msg_id = tt
recv_node-IsSteady p (negsuc (suc n)) msg_id = tt
