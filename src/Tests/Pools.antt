-- ===== src/Tests/Pools.antt =====
-- Locks, pools, the ends of the servers and the echo coroutine on concrete values.
use cppmulti_thread_server_b.Prelude.{◌≡◌, refl, [], ◌∷◌, ◌++◌, false, true, pos, replicate, arith}
use cppmulti_thread_server_b.Memory.{done}
use cppmulti_thread_server_b.MsgNode.Frame.{sent, head}
use cppmulti_thread_server_b.Effect.{start_read, post}
use cppmulti_thread_server_b.Session.{CSession}
use cppmulti_thread_server_b.Session.Locked.{locked, wrote, on_bytes-locked}
use cppmulti_thread_server_b.Session.Read.{on_bytes, print_json}
use cppmulti_thread_server_b.Session.Read.Waiting.{HasHead}
use cppmulti_thread_server_b.Session.Read.Packet.{delivered}
use cppmulti_thread_server_b.Session.Read.Packets.{on_bytes-packet}
use cppmulti_thread_server_b.Server.Registry.{accepts, clears}
use cppmulti_thread_server_b.Server.Run.{spec_run, empty}
use cppmulti_thread_server_b.ThreadPool.Server.{
  CServer, new_server, run, Refines, new_server-calls_run,
}
use cppmulti_thread_server_b.Session.Write.Promise.{handle_write-last}
use cppmulti_thread_server_b.ThreadPool.Session.{bound}
use cppmulti_thread_server_b.Shutdown.Services as Services
use cppmulti_thread_server_b.Echo.{request, reply, echo}
use cppmulti_thread_server_b.Echo.Line.{echo-line}
use cppmulti_thread_server_b.Tests.{platform, hello, session, session-HasHead}

abbrev writing : CSession
writing = record session { send_queue = sent (pos 1001) hello ∷ [] }

writing-HasHead : HasHead [] writing
writing-HasHead = record {
  is_head = session-HasHead.is_head;
  held = session-HasHead.held;
  filled = session-HasHead.filled;
  waits = session-HasHead.waits;
  data_room = session-HasHead.data_room;
}

came :
    (s : CSession) × (on_bytes platform 1 writing (head (pos 1001) (pos 3) ++ hello)
      ≡ done (s, post (delivered (pos 1001) hello) ∷ start_read ∷ []))
    × HasHead [] s
unfolding print_json
came =
    on_bytes-packet platform 0 writing [] (head (pos 1001) (pos 3)) hello (pos 1001) writing-HasHead
      (record {
        is_short = omega arith;
        id_fits = refl;
        len_fits = omega arith;
        readable = (_, refl);
      })
      refl (omega arith) (omega arith)

was_written : locked platform wrote writing ≡ done (session, [])
unfolding locked
was_written = handle_write-last platform writing (sent (pos 1001) hello) refl

on_bytes-locked_example :
    (s₃ : CSession) × (locked platform wrote came.0 ≡ done (s₃, []))
    × (on_bytes platform 1 session (head (pos 1001) (pos 3) ++ hello)
        ≡ done (s₃, post (delivered (pos 1001) hello) ∷ start_read ∷ []))
on_bytes-locked_example =
    on_bytes-locked platform 1 wrote writing came.0 session (head (pos 1001) (pos 3) ++ hello)
      (post (delivered (pos 1001) hello) ∷ start_read ∷ []) [] came.1 was_written

new_server-calls_run_example :
    (s s' : CServer) × (new_server platform "a" ≡ done s)
    × (run platform s (accepts false "b" ∷ accepts true "c" ∷ clears "a" ∷ [])
        ≡ done (s', bound start_read ∷ []))
    × Refines s' (spec_run (empty "a") (accepts false "b" ∷ accepts true "c" ∷ clears "a" ∷ []))
new_server-calls_run_example =
    new_server-calls_run platform "a" (accepts false "b" ∷ accepts true "c" ∷ clears "a" ∷ [])

-- A server whose second context has two operations under way.
abbrev two_under_way : Services.Process
two_under_way = record {
  phase = Services.running;
  contexts = record { work = true; operations = 0 } ∷ record { work = true; operations = 2 } ∷ [];
}

echo-line_example :
    (request platform (104 ∷ 105 ∷ []) ≡ done (104 ∷ 105 ∷ []))
    × (echo (replicate 1024 7) ((104 ∷ []) ∷ (105 ∷ []) ∷ []) ≡ done ((104 ∷ []) ∷ (105 ∷ []) ∷ []))
    × (reply platform 2 (104 ∷ 105 ∷ []) ≡ done (104 ∷ 105 ∷ []))
echo-line_example =
    echo-line platform (104 ∷ 105 ∷ []) (replicate 1024 7) ((104 ∷ []) ∷ (105 ∷ []) ∷ [])
      (omega arith, (omega arith, tt)) refl refl
