-- ===== src/Tests/Exchanges.antt =====
-- The life of a session, failed writes, and the client's loop on concrete packets.
use cppmulti_thread_server_b.Prelude.{◌≡◌, refl, [], ◌∷◌, false, pos, arith}
use cppmulti_thread_server_b.Memory.{done, ◌>>=◌}
use cppmulti_thread_server_b.MsgNode.Frame.{frame, sent}
use cppmulti_thread_server_b.Session.Life.{sends, read_done, write_done, run, started}
use cppmulti_thread_server_b.Session.Life.Ends.{EndsSingle, started-EndsSingle}
use cppmulti_thread_server_b.Session.Write.Promise.{session_outbox}
use cppmulti_thread_server_b.Session.Write.Order.{send-Stalled}
use cppmulti_thread_server_b.Outbox.Line as Lines
use cppmulti_thread_server_b.Outbox.Line.{Line, written, failed, InOrder, Stalled}
use cppmulti_thread_server_b.Tests.{platform, hello, bye, session}

started-EndsSingle_example :
    EndsSingle (sends (pos 1001) hello ∷ read_done (frame (pos 1001) bye) ∷ write_done false ∷ []) (
      started session >>= λ l.
      run platform l
        (sends (pos 1001) hello ∷ read_done (frame (pos 1001) bye) ∷ write_done false ∷ []))
started-EndsSingle_example =
    started-EndsSingle platform session
      (sends (pos 1001) hello ∷ read_done (frame (pos 1001) bye) ∷ write_done false ∷ []) refl
      (omega arith, (tt, (tt, tt)))

abbrev session_line : Line (session_outbox platform)
session_line = record {
  session = record session { send_queue = sent (pos 1001) hello ∷ [] };
  under_way = frame (pos 1001) hello ∷ [];
  wire = [];
  taken = (pos 1001, hello) ∷ [];
}

session_line-InOrder : InOrder (session_outbox platform) session_line
session_line-InOrder = record {
  gone = [];
  waiting = (pos 1001, hello) ∷ [];
  queue = refl;
  one = refl;
  on_wire = refl;
  all = refl;
  bounded = omega arith;
}

send-Stalled_example :
    (l' : Line (session_outbox platform)) × (Lines.run
        (session_outbox platform)
        session_line
        (failed ∷ Lines.sends (pos 1001) bye ∷ written ∷ [])
      ≡ done l')
    × Stalled (session_outbox platform) l'
    × (l'.wire ≡ [])
send-Stalled_example =
    send-Stalled platform session_line (Lines.sends (pos 1001) bye ∷ written ∷ [])
      (omega arith, (tt, tt)) (omega arith) session_line-InOrder
