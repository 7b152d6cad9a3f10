-- ===== src/Corotine.antt =====
-- CorotineServer/CSession.{h,cpp}, MsgNode.{h,cpp} and const.h: the session of the coroutine server.
pub mod Start
pub mod ServicePool
pub mod Write
pub mod Logic
pub mod Server
pub mod Life
use Prim.Native.String.{String}
use cppmulti_thread_server_b.Prelude.{
  ℕ, ◌+◌, ◌*◌, List, [], ◌∷◌, Bool, true, false, Option, ℤ, pos, to_short, to_u16, length,
}
use cppmulti_thread_server_b.Memory.{Outcome, done, throws, fault, out_of_fuel, ◌>>=◌}
use cppmulti_thread_server_b.Platform.{Platform}
use cppmulti_thread_server_b.MsgNode.{MsgNode, RecvNode, SendNode}
use cppmulti_thread_server_b.MsgNode
use cppmulti_thread_server_b.Effect.{Effect, close_socket, clear_session}

abbrev pub max_lenght : ℕ
max_lenght = 1024 * 2

abbrev pub max_sendque : ℕ
max_sendque = 1000

pub record CSession : Type 0 where
  pub uuid : String
  pub b_close : Bool
  pub send_que : List SendNode
  pub recv_msg_node : Option RecvNode
  pub recv_head_node : MsgNode

-- `catch (const std::exception& e)` round the rest of a block.
abbrev pub catching {ℓ κ} :
    {A : Type ℓ} {B : Type κ} → Outcome A → Outcome B → (A → Outcome B) → Outcome B
catching (done a) handler f = f a
catching throws handler f = handler
catching fault handler f = fault
catching out_of_fuel handler f = out_of_fuel

-- `Close(); _server->ClearSesseion(_uuid);`
unfoldable pub close : CSession → CSession × List Effect
close s = (record s { b_close = true }, close_socket ∷ clear_session s.uuid ∷ [])
