-- ===== src/Tests/Threads.antt =====
-- A session of AsioThreadPool on two threads.
use cppmulti_thread_server_b.Prelude.{
  ◌≡◌, ◌≤◌, refl, [], ◌∷◌, ◌++◌, List, ℕ, ap, false, true, pos, arith,
}
use cppmulti_thread_server_b.Memory.{done, length-zeros}
use cppmulti_thread_server_b.MsgNode.Frame.{head}
use cppmulti_thread_server_b.Effect.{start_read, post}
use cppmulti_thread_server_b.Session.{CSession, wipe}
use cppmulti_thread_server_b.Session.Life.{read_failed, write_done, read_done}
use cppmulti_thread_server_b.Session.Read.{on_bytes, print_json}
use cppmulti_thread_server_b.Session.Read.Waiting.{HasHead}
use cppmulti_thread_server_b.Session.Read.Packet.{delivered}
use cppmulti_thread_server_b.Session.Read.Packets.{on_bytes-packet}
use cppmulti_thread_server_b.Session.Read
use cppmulti_thread_server_b.ThreadPool.Session as ThreadSession
use cppmulti_thread_server_b.ThreadPool.Session.{bound, plain, on_strand, bind_executor}
use cppmulti_thread_server_b.ThreadPool.Threads.Posts.{Sequential, Reach-Sequential}
use cppmulti_thread_server_b.ThreadPool.Threads.{
  Job, Threads, readers, Reach, begins, goes_on, completes, takes, finishes, handle,
}
use cppmulti_thread_server_b.ThreadPool.Threads.Single.{AtMostTwo, Reach-AtMostTwo}
use cppmulti_thread_server_b.ThreadPool.Threads.Overlap.{Reach-overlap, opened-reads}
use cppmulti_thread_server_b.Tests.{platform, hello, bye, session, session-HasHead}

abbrev failed_read : Job
failed_read = record { on_strand = true; event = read_failed }

-- The session's first read has failed, and one of two threads runs its handler.
abbrev one_runs : Threads
one_runs = record {
  session = wipe session;
  calls = [];
  ready = [];
  running = failed_read ∷ [];
  over = [];
}

one_runs-Reach : Reach platform 2 session one_runs
one_runs-Reach =
    goes_on _ _
      (goes_on _ _ (begins _ (opened-reads platform 2 session))
        (completes _ [] [] (bound start_read) failed_read refl (refl, tt)))
      (takes _ [] [] failed_read refl (omega arith) (omega arith))

Reach-AtMostTwo_example : AtMostTwo 2 one_runs
Reach-AtMostTwo_example = Reach-AtMostTwo platform 2 session one_runs refl one_runs-Reach

Reach-overlap_example :
    (t : Threads) × Reach platform 2 session t
    × (t.running
        ≡ record { on_strand = false; event = write_done false }
          ∷ record { on_strand = true; event = read_done hello }
          ∷ [])
Reach-overlap_example =
    Reach-overlap platform 2 session (pos 1001) (pos 1001) hello bye hello (omega arith) refl
      (omega arith) (omega arith) (omega arith)

abbrev packet : List ℕ
packet = head (pos 1001) (pos 3) ++ hello

wiped-HasHead : HasHead [] (wipe session)
unfolding wipe
wiped-HasHead = record {
  is_head = session-HasHead.is_head;
  held = session-HasHead.held;
  filled = session-HasHead.filled;
  waits = session-HasHead.waits;
  data_room = length-zeros 1024;
}

came_in :
    (s : CSession) × (on_bytes platform 9 (wipe session) packet
      ≡ done (s, post (delivered (pos 1001) hello) ∷ start_read ∷ []))
    × HasHead [] s
unfolding print_json
came_in =
    on_bytes-packet platform 8 (wipe session) [] (head (pos 1001) (pos 3)) hello (pos 1001)
      wiped-HasHead
      (record {
        is_short = omega arith;
        id_fits = refl;
        len_fits = omega arith;
        readable = (_, refl);
      })
      refl (omega arith) (omega arith)

handle-packet :
    handle platform (wipe session) (read_done packet)
    ≡ done (came_in.0, plain (post (delivered (pos 1001) hello)) ∷ bound start_read ∷ [])
unfolding handle ThreadSession.on_bytes ThreadSession.handle_read on_strand bind_executor
    Read.on_bytes
handle-packet = ap on_strand came_in.1

abbrev packet_read : Job
packet_read = record { on_strand = true; event = read_done packet }

-- The handler of the first read is over, with a packet that came in.
abbrev one_read : Threads
one_read = record {
  session = came_in.0;
  calls = plain (post (delivered (pos 1001) hello)) ∷ bound start_read ∷ [];
  ready = [];
  running = [];
  over = read_done packet ∷ [];
}

one_read-Reach : Reach platform 2 session one_read
one_read-Reach =
    goes_on _ _
      (goes_on _ _
        (goes_on _ _ (begins _ (opened-reads platform 2 session))
          (completes _ [] [] (bound start_read) packet_read refl (refl, omega arith)))
        (takes _ [] [] packet_read refl (omega arith) (omega arith)))
      (finishes _ [] [] packet_read came_in.0 _ refl handle-packet)

Reach-Sequential_example : Sequential platform session one_read × (readers one_read.running ≤ 1)
Reach-Sequential_example = Reach-Sequential platform session 2 one_read refl one_read-Reach
