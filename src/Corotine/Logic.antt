-- ===== src/Corotine/Logic.antt =====
-- CorotineServer/LogicSystem.{h,cpp}: the answers of the coroutine server. The queue and its types are
-- those of `Logic`; a text is read to the length of its node, and an answer has its message's id.
pub mod Threads
use Prim.Native.String.{String}
use cppmulti_thread_server_b.Prelude.{
  ℕ, ◌≡◌, refl, List, [], ◌∷◌, ◌++◌, Bool, none, some, ℤ, length, ◌==◌,
}
use cppmulti_thread_server_b.Memory.{Outcome, done, throws, fault, ◌>>=◌, read_bytes}
use cppmulti_thread_server_b.Memory.Laws.{read_bytes-append}
use cppmulti_thread_server_b.Platform.{Platform}
use cppmulti_thread_server_b.MsgNode.{MsgNode}
use cppmulti_thread_server_b.MsgNode.Text.{text_node}
use cppmulti_thread_server_b.Logic.{
  LogicNode, LogicSystem, Reply, FuncCallBack, hello_world_callback, find, msg_hello_world,
  register_callback,
}

-- `std::string(_data, _total_len)`
unfoldable pub text : MsgNode → Outcome (List ℕ)
text m = read_bytes m.offset m.total_len m.bytes

-- `PostMsgToQue`: the new system, and whether `_cv.notify_one()` is called, still under the lock.
unfoldable pub post_msg_to_que : LogicSystem → LogicNode → LogicSystem × Bool
post_msg_to_que l msg = (record l { msg_que = que }, length que == 1)
  where
    que : List LogicNode
    que = l.msg_que ++ msg ∷ []

-- "server has receive msg, msg data is "
abbrev pub answer_prefix : List ℕ
answer_prefix =
    115 ∷ 101 ∷ 114 ∷ 118 ∷ 101 ∷ 114 ∷ 32 ∷ 104 ∷ 97 ∷ 115 ∷ 32 ∷ 114 ∷ 101 ∷ 99 ∷ 101 ∷ 105 ∷ 118
    ∷ 101 ∷ 32 ∷ 109 ∷ 115 ∷ 103 ∷ 44 ∷ 32 ∷ 109 ∷ 115 ∷ 103 ∷ 32 ∷ 100 ∷ 97 ∷ 116 ∷ 97 ∷ 32 ∷ 105
    ∷ 115 ∷ 32 ∷ []

-- `HelloWorldCallBack`
unfoldable pub hello_world : Platform → String → ℤ → List ℕ → Outcome Reply
hello_world p session msg_id msg = elim (p.id_as_int msg) [
  | none ↦ throws
  | some i ↦ elim (p.data_as_string msg) [
    | none ↦ throws
    | some d ↦ done (record {
      session = session;
      return_str = p.styled_with_data msg (answer_prefix ++ d);
      msg_id = msg_id;
    })
  ]
]

-- One message: the callback of its id, if there is one, on its text.
unfoldable pub deal : Platform → List (ℤ × FuncCallBack) → LogicNode → Outcome (List Reply)
deal p callbacks n = elim (find n.recv_node.msg_id callbacks) [
  | none ↦ done []
  | some hello_world_callback ↦ do
    msg ← text n.recv_node.node
    r ← hello_world p n.session n.recv_node.msg_id msg
    done (r ∷ [])
]

-- The message at the front, in `DealMsg`.
unfoldable pub deal_front : Platform → LogicSystem → Outcome (LogicSystem × List Reply)
deal_front p l = elim l.msg_que [
  | [] ↦ fault
  | n ∷ rest ↦ deal p l.func_callbacks n >>= λ rs. done (record l { msg_que = rest }, rs)
]

-- `while (!_msg_que.empty())` of the stop.
unfoldable pub drain : Platform → List (ℤ × FuncCallBack) → List LogicNode → Outcome (List Reply)
drain p callbacks [] = done []
drain p callbacks (n ∷ rest) =
    deal p callbacks n >>= λ rs. drain p callbacks rest >>= λ rs'. done (rs ++ rs')

pub text-text_node : (n : ℕ) (msg : List ℕ) → text (text_node n msg) ≡ done msg
unfolding text
text-text_node n msg = read_bytes-append [] msg (0 ∷ []) refl refl

-- A hello-world message with a readable text is answered with its own id.
pub deal-hello_world :
    (p : Platform) (session : String) (n : ℕ) (msg d : List ℕ) (i : ℤ)
    → p.id_as_int msg ≡ some i
    → p.data_as_string msg ≡ some d
    → deal p register_callback (record {
      session = session;
      recv_node = record { node = text_node n msg; msg_id = msg_hello_world };
    })
      ≡ done (
          record {
            session = session;
            return_str = p.styled_with_data msg (answer_prefix ++ d);
            msg_id = msg_hello_world;
          }
          ∷ [])
unfolding deal hello_world find register_callback
deal-hello_world p session n msg d i e f =
    rw (text-text_node n msg) (rw (e, hello_world) (rw (f, hello_world) refl))
