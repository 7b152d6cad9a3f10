-- ===== src/Effect.antt =====
-- What a session asks of the rest of the program: Boost.Asio, the logic system and the server.
pub mod Counts
use Prim.Native.String.{String}
use cppmulti_thread_server_b.Prelude.{ℕ, List}
use cppmulti_thread_server_b.MsgNode.{RecvNode}

-- Each constructor is one call in CSession.cpp, with the values that it passes.
pub data Effect : Type 0 where
  -- `_socket.async_read_some(buffer(_data, MAX_LENGHT), … HandleRead …)`
  start_read : Effect
  -- `async_read(_socket, buffer(_recv_head_node->_data, n), … HandleReadHead …)`
  start_read_head : ℕ → Effect
  -- `async_read(_socket, buffer(_recv_msg_node->_data, n), … HeadleReadMsg …)`
  start_read_msg : ℕ → Effect
  -- `async_write(_socket, buffer(…), … HandleWrite …)`
  start_write : List ℕ → Effect
  -- `LogicSystem::GetInstance()->PostMsgToQue(make_shared<LogicNode>(session, node))`
  post : RecvNode → Effect
  -- `_socket.close()`
  close_socket : Effect
  -- `_server->ClearSession(_uuid)`
  clear_session : String → Effect
