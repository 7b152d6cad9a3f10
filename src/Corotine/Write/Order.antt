-- ===== src/Corotine/Write/Order.antt =====
-- The order of packets on the wire of the coroutine server.
use cppmulti_thread_server_b.Prelude.{◌<◌, ◌≡◌, refl, List, [], ◌∷◌, length, arith}
use cppmulti_thread_server_b.Memory.{done}
use cppmulti_thread_server_b.Platform.{Platform}
use cppmulti_thread_server_b.Outbox.Line.{
  Line, Event, failed, run, InOrder, Stalled, AreSendable, AreAny,
}
use cppmulti_thread_server_b.Outbox.Order.{run-InOrder}
use cppmulti_thread_server_b.Outbox.Stalled.{run-failed}
use cppmulti_thread_server_b.Corotine.{CSession}
use cppmulti_thread_server_b.Corotine.Write.Promise.{corotine_outbox, corotine_outbox-Promise}

-- From a session of the coroutine server whose queue is empty, any calls of `Send`, with texts of
-- at most 2^15 - 5 bytes, and completed writes in any order finish without a fault. The packets on
-- the wire are the packets that `Send` has taken (those that came while the queue was within its
-- limit), in the order in which it took them, each written whole, one after the other; what is taken
-- and not yet written waits in the queue, of at most one packet more than the limit, and exactly the
-- first of those is under way.
pub send_chars-InOrder :
    (p : Platform) (s : CSession) (es : List Event)
    → s.send_que ≡ []
    → AreSendable (corotine_outbox p) es
    → (l : Line (corotine_outbox p)) × (run
          (corotine_outbox p)
          (record { session = s; under_way = []; wire = []; taken = [] })
          es
        ≡ done l)
      × InOrder (corotine_outbox p) l
send_chars-InOrder p s es q a =
    run-InOrder (corotine_outbox p) (corotine_outbox-Promise p) _ es a (record {
      gone = [];
      waiting = [];
      queue = q;
      one = refl;
      on_wire = refl;
      all = refl;
      bounded = omega arith;
    })

-- The first failed write of a session of the coroutine server is its last: from a session that is in
-- order and has a write under way, a write that fails, and after it any calls of `Send`, with texts
-- of at most 2^15 - 5 bytes, and any completions, finish without a fault. Nothing more comes on the
-- wire and no write is under way again, while `Send` still takes packets within its limit: they wait
-- in the queue behind the packet whose write failed, which is never taken out.
pub send_chars-Stalled :
    (p : Platform) (l : Line (corotine_outbox p)) (es : List Event)
    → AreAny (corotine_outbox p) es
    → 0 < length l.under_way
    → InOrder (corotine_outbox p) l
    → (l' : Line (corotine_outbox p)) × (run (corotine_outbox p) l (failed ∷ es) ≡ done l')
      × Stalled (corotine_outbox p) l'
      × (l'.wire ≡ l.wire)
send_chars-Stalled p = run-failed (corotine_outbox p) (corotine_outbox-Promise p)
