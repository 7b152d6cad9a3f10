-- ===== src/Session/Write/Order.antt =====
-- The order of packets on the wire of the callback servers.
use cppmulti_thread_server_b.Prelude.{◌<◌, ◌≡◌, refl, List, [], ◌∷◌, length, arith}
use cppmulti_thread_server_b.Memory.{done}
use cppmulti_thread_server_b.Platform.{Platform}
use cppmulti_thread_server_b.Outbox.Line.{
  Line, Event, failed, run, InOrder, Stalled, AreSendable, AreAny,
}
use cppmulti_thread_server_b.Outbox.Order.{run-InOrder}
use cppmulti_thread_server_b.Outbox.Stalled.{run-failed}
use cppmulti_thread_server_b.Session.{CSession}
use cppmulti_thread_server_b.Session.Write.Promise.{session_outbox, session_outbox-Promise}

-- From a session of the callback servers whose queue is empty, any calls of `Send`, with texts of
-- less than 2^31 - 5 bytes, and completed writes in any order finish without a fault. The packets on
-- the wire are the packets that `Send` has taken (those that came while the queue was within its
-- limit), in the order in which it took them, each written whole, one after the other; what is taken
-- and not yet written waits in the queue, of at most one packet more than the limit, and exactly the
-- first of those is under way.
pub send-InOrder :
    (p : Platform) (s : CSession) (es : List Event)
    → s.send_queue ≡ []
    → AreSendable (session_outbox p) es
    → (l : Line (session_outbox p)) × (run
          (session_outbox p)
          (record { session = s; under_way = []; wire = []; taken = [] })
          es
        ≡ done l)
      × InOrder (session_outbox p) l
send-InOrder p s es q a = run-InOrder (session_outbox p) (session_outbox-Promise p) _ es a (record {
  gone = [];
  waiting = [];
  queue = q;
  one = refl;
  on_wire = refl;
  all = refl;
  bounded = omega arith;
})

-- The first failed write of a session of a callback server is its last: from a session that is in
-- order and has a write under way, a write that fails, and after it any calls of `Send`, with texts
-- of less than 2^31 - 5 bytes, and any completions, finish without a fault. Nothing more comes on the
-- wire and no write is under way again, while `Send` still takes packets within its limit: they wait
-- in the queue behind the packet whose write failed, which is never taken out.
pub send-Stalled :
    (p : Platform) (l : Line (session_outbox p)) (es : List Event)
    → AreAny (session_outbox p) es
    → 0 < length l.under_way
    → InOrder (session_outbox p) l
    → (l' : Line (session_outbox p)) × (run (session_outbox p) l (failed ∷ es) ≡ done l')
      × Stalled (session_outbox p) l'
      × (l'.wire ≡ l.wire)
send-Stalled p = run-failed (session_outbox p) (session_outbox-Promise p)
