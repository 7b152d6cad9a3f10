-- ===== src/Tests/Servers.antt =====
-- The pools, the servers and the logic system's threads on concrete values.
use cppmulti_thread_server_b.Prelude.{◌≡◌, refl, [], ◌∷◌, true, false, some, none, pos, arith}
use cppmulti_thread_server_b.Memory.{done}
use cppmulti_thread_server_b.MsgNode.Text.{fresh_node, text_node}
use cppmulti_thread_server_b.Effect.{start_read}
use cppmulti_thread_server_b.Logic.{LogicNode, post_msg_to_que, new_system}
use cppmulti_thread_server_b.Logic.Threads.{System, init, here, next, posts, decided}
use cppmulti_thread_server_b.Logic.Threads.Safety.{Inv, Reach-Inv}
use cppmulti_thread_server_b.ServicePool.{AsioIoServicePool, new_pool, get_services}
use cppmulti_thread_server_b.ServicePool.RoundRobin.{new_pool-in_turn}
use cppmulti_thread_server_b.Server.{CServer, new_server}
use cppmulti_thread_server_b.Server.Run.{run, spec_run, empty, new_server-run}
use cppmulti_thread_server_b.Corotine.Logic
use cppmulti_thread_server_b.Corotine.Logic.Threads
use cppmulti_thread_server_b.Corotine.Logic.Threads.Safety.{IsWoken, Reach-IsWoken}
use cppmulti_thread_server_b.Server.Registry.{Refines, accepts, clears}
use cppmulti_thread_server_b.Corotine
use cppmulti_thread_server_b.Corotine.ServicePool
use cppmulti_thread_server_b.Corotine.ServicePool.{get_services-same}
use cppmulti_thread_server_b.Corotine.Server
use cppmulti_thread_server_b.Corotine.Server.{handle_acceptor, contains, handle_acceptor_registers}
use cppmulti_thread_server_b.Tests.{platform, hello}

abbrev message : LogicNode
message = record {
  session = "s";
  recv_node = record { node = text_node 3 hello; msg_id = pos 1001 };
}

abbrev posted_once : System
posted_once = record init {
  logic = (post_msg_to_que init.logic message).0;
  notices = 1;
  posted = message ∷ [];
}

Reach-Inv_example : Inv posted_once
unfolding post_msg_to_que new_system
Reach-Inv_example = Reach-Inv platform (next here (posts message (λ e. cc)))

abbrev waits : System
waits = record init { worker = decided }

new_server-run_example :
    (s s' : CServer) × (new_server platform (new_pool 2) "a" ≡ done s)
    × (run platform s (accepts false "b" ∷ accepts true "c" ∷ clears "a" ∷ [])
        ≡ done (s', start_read ∷ []))
    × Refines 2 s' (spec_run (empty "a") (accepts false "b" ∷ accepts true "c" ∷ clears "a" ∷ []))
new_server-run_example =
    new_server-run platform 2 "a" (accepts false "b" ∷ accepts true "c" ∷ clears "a" ∷ [])
      (omega arith)

abbrev corotine_posted : Threads.System
corotine_posted = record Threads.init {
  logic = (Logic.post_msg_to_que Threads.init.logic message).0;
  posted = message ∷ [];
}

Reach-IsWoken_example : IsWoken corotine_posted
unfolding Logic.post_msg_to_que new_system
Reach-IsWoken_example =
    Reach-IsWoken platform (Threads.next Threads.here (Threads.posts message (λ e. cc)))

new_pool-in_turn_example :
    (s : AsioIoServicePool) × (get_services 5 (new_pool 2) ≡ done (0 ∷ 1 ∷ 0 ∷ 1 ∷ 0 ∷ [], s))
new_pool-in_turn_example = new_pool-in_turn 2 5 (omega arith)

abbrev corotine_session : Corotine.CSession
corotine_session = record {
  uuid = "a";
  b_close = false;
  send_que = [];
  recv_msg_node = none;
  recv_head_node = fresh_node platform 4;
}

abbrev corotine_server : Corotine.Server.CServer
corotine_server = record {
  sessions = [];
  pool = Corotine.ServicePool.new_pool 4;
  pending = some (0, corotine_session);
  started = [];
}

handle_acceptor_registers_example :
    (s' : Corotine.Server.CServer) × (handle_acceptor platform corotine_server true "b" ≡ done s')
    × (contains "a" s'.sessions ≡ true)
    × (s'.started ≡ "a" ∷ [])
unfolding Corotine.ServicePool.new_pool
handle_acceptor_registers_example =
    handle_acceptor_registers platform corotine_server true "b" 0 corotine_session refl
      (omega arith)
