-- ===== src/ThreadPool/Logic.antt =====
-- AsioThreadPool/LogicSystem.{h,cpp}, byte for byte the files of SingleThreadAsyncServer: the operations
-- are those of `Logic`, for the sessions of this folder.
use cppmulti_thread_server_b.Prelude.{List, Bool, ℤ}
use cppmulti_thread_server_b.Memory.{Outcome}
use cppmulti_thread_server_b.Platform.{Platform}
use cppmulti_thread_server_b.Logic.{LogicNode, LogicSystem, Reply, FuncCallBack}
use cppmulti_thread_server_b.Logic

-- `RegisterCallback`, and the constructor.
unfoldable pub register_callback : List (ℤ × FuncCallBack)
register_callback = Logic.register_callback

unfoldable pub new_system : LogicSystem
new_system = record Logic.new_system { func_callbacks = register_callback }

-- `PostMsgToQue`
unfoldable pub post_msg_to_que : LogicSystem → LogicNode → LogicSystem × Bool
post_msg_to_que l msg = Logic.post_msg_to_que l msg

-- The message at the front, in `DealMsg`, with `HelloWorldCallback`.
unfoldable pub deal_front : Platform → LogicSystem → Outcome (LogicSystem × List Reply)
deal_front p l = Logic.deal_front p l

-- The messages that are left at the stop.
unfoldable pub drain : Platform → List (ℤ × FuncCallBack) → List LogicNode → Outcome (List Reply)
drain p callbacks l = Logic.drain p callbacks l
