-- ===== src/Logic.antt =====
-- SingleThreadAsyncServer/LogicSystem.{h,cpp}, the same files in AsioThreadPool: the queue of messages
-- between the sessions and the one thread that answers them.
pub mod Threads
use Prim.Native.String.{String}
use cppmulti_thread_server_b.Prelude.{
  ℕ, ◌+◌, List, [], ◌∷◌, ◌++◌, Bool, true, false, Option, none, some, ℤ, pos, negsuc, to_short,
  to_u16, length, ◌==◌, ◌&&◌, if◌then◌else◌,
}
use cppmulti_thread_server_b.Memory.{Outcome, done, throws, fault, ◌>>=◌}
use cppmulti_thread_server_b.Platform.{Platform}
use cppmulti_thread_server_b.MsgNode.{RecvNode, text}

-- `MSG_HELLO_WORLD`
abbrev pub msg_hello_world : ℤ
msg_hello_world = pos 1001

-- The session is named by its uuid.
pub record LogicNode : Type 0 where
  pub session : String
  pub recv_node : RecvNode

-- A callback that is registered; there is one.
pub data FuncCallBack : Type 0 where
  hello_world_callback : FuncCallBack

-- `session->Send(return_str, id)`
pub record Reply : Type 0 where
  pub session : String
  pub return_str : List ℕ
  pub msg_id : ℤ

pub record LogicSystem : Type 0 where
  pub msg_que : List LogicNode
  pub b_stop : Bool
  pub func_callbacks : List (ℤ × FuncCallBack)

abbrev pub eq_ℤ : ℤ → ℤ → Bool
eq_ℤ (pos m) (pos n) = m == n
eq_ℤ (negsuc m) (negsuc n) = m == n
eq_ℤ _ _ = false

-- `_func_callbacks.find(msg_id)`
unfoldable pub find : ℤ → List (ℤ × FuncCallBack) → Option FuncCallBack
find msg_id [] = none
find msg_id ((i, f) ∷ m) = if eq_ℤ i msg_id then some f else find msg_id m

-- `RegisterCallback` on the empty map of a new system, and the constructor.
unfoldable pub register_callback : List (ℤ × FuncCallBack)
register_callback = (msg_hello_world, hello_world_callback) ∷ []

unfoldable pub new_system : LogicSystem
new_system = record { msg_que = []; b_stop = false; func_callbacks = register_callback }

-- `PostMsgToQue`: the new system, and whether `_cv.notify_one()` follows.
unfoldable pub post_msg_to_que : LogicSystem → LogicNode → LogicSystem × Bool
post_msg_to_que l msg = (record l { msg_que = que }, length que == 1)
  where
    que : List LogicNode
    que = l.msg_que ++ msg ∷ []

-- "server has received msg, msg data is "
abbrev pub answer_prefix : List ℕ
answer_prefix =
    115 ∷ 101 ∷ 114 ∷ 118 ∷ 101 ∷ 114 ∷ 32 ∷ 104 ∷ 97 ∷ 115 ∷ 32 ∷ 114 ∷ 101 ∷ 99 ∷ 101 ∷ 105 ∷ 118
    ∷ 101 ∷ 100 ∷ 32 ∷ 109 ∷ 115 ∷ 103 ∷ 44 ∷ 32 ∷ 109 ∷ 115 ∷ 103 ∷ 32 ∷ 100 ∷ 97 ∷ 116 ∷ 97 ∷ 32
    ∷ 105 ∷ 115 ∷ 32 ∷ []

-- `HelloWorldCallback`. The id of the answer is the one in the text, as a short.
unfoldable pub hello_world : Platform → String → List ℕ → Outcome Reply
hello_world p session msg = elim (p.id_as_int msg) [
  | none ↦ throws
  | some i ↦ elim (p.data_as_string msg) [
    | none ↦ throws
    | some d ↦ done (record {
      session = session;
      return_str = p.styled_with_data msg (answer_prefix ++ d);
      msg_id = to_short (to_u16 i);
    })
  ]
]

-- One message: the callback of its id, if there is one, on its text.
unfoldable pub deal : Platform → List (ℤ × FuncCallBack) → LogicNode → Outcome (List Reply)
deal p callbacks n = elim (find n.recv_node.msg_id callbacks) [
  | none ↦ done []
  | some hello_world_callback ↦ do
    msg ← text n.recv_node.node
    r ← hello_world p n.session msg
    done (r ∷ [])
]

-- Lines 55 to 64 of `DealMsg`: the message at the front.
unfoldable pub deal_front : Platform → LogicSystem → Outcome (LogicSystem × List Reply)
deal_front p l = elim l.msg_que [
  | [] ↦ fault
  | n ∷ rest ↦ deal p l.func_callbacks n >>= λ rs. done (record l { msg_que = rest }, rs)
]

-- `while (!_msg_que.empty())` of the stop.
unfoldable pub drain : Platform → List (ℤ × FuncCallBack) → List LogicNode → Outcome (List Reply)
drain p callbacks [] = done []
drain p callbacks (n ∷ rest) =
    deal p callbacks n >>= λ rs. drain p callbacks rest >>= λ rs'. done (rs ++ rs')
