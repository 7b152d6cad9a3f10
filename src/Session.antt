-- ===== src/Session.antt =====
-- SingleThreadAsyncServer/CSession.{h,cpp}: the session of the callback servers, its state and what
-- its handlers share. AsioThreadPool has the same class; there the handlers of a session also pass
-- through a strand.
pub mod Read
pub mod Write
pub mod Life
pub mod Locked
pub mod Fresh
pub mod ReadHead
use Prim.Native.String.{String}
use cppmulti_thread_server_b.Prelude.{ℕ, List, [], ◌∷◌, Bool, true, false, Option, none, pos}
use cppmulti_thread_server_b.Memory.{Outcome, ◌>>=◌, done, zeros}
use cppmulti_thread_server_b.Platform.{Platform}
use cppmulti_thread_server_b.MsgNode.{
  MsgNode, RecvNode, SendNode, msg_node, max_lenght, head_total_len,
}
use cppmulti_thread_server_b.Effect.{Effect, close_socket, clear_session}

-- `recv_data` is the array `_data`.
pub record CSession : Type 0 where
  pub uuid : String
  pub recv_data : List ℕ
  pub send_queue : List SendNode
  pub recv_head_node : MsgNode
  pub recv_msg_node : Option RecvNode
  pub b_head_parse : Bool
  pub b_close : Bool

-- The constructor. The uuid comes from Boost's generator.
unfoldable pub new_session : Platform → String → Outcome CSession
new_session p uuid = do
  h ← msg_node p (pos head_total_len)
  done (record {
    uuid = uuid;
    recv_data = p.fresh_bytes max_lenght;
    send_queue = [];
    recv_head_node = h;
    recv_msg_node = none;
    b_head_parse = false;
    b_close = false;
  })

-- `Close(); _server->ClearSession(_uuid);`
unfoldable pub close : CSession → CSession × List Effect
close s = (record s { b_close = true }, close_socket ∷ clear_session s.uuid ∷ [])

-- `memset(_data, 0, MAX_LENGHT);` before the next `async_read_some`.
unfoldable pub wipe : CSession → CSession
wipe s = record s { recv_data = zeros max_lenght }
