-- ===== src/System/Corotine.antt =====
-- CorotineServer as a whole: its sessions and its logic system.
use Prim.Native.String.{String}
use cppmulti_thread_server_b.Prelude.{
  ℕ, ◌-◌, ◌≤◌, ◌≡◌, refl, ap, sym, ◌∙◌, List, [], ◌∷◌, ◌++◌, true, false, some, ℤ, pos, length,
  length-append, append-nil, arith,
}
use cppmulti_thread_server_b.Memory.{Outcome, done, ◌>>=◌}
use cppmulti_thread_server_b.Platform.{Platform}
use cppmulti_thread_server_b.Effect.{Effect, post}
use cppmulti_thread_server_b.MsgNode.Frame.{frame}
use cppmulti_thread_server_b.MsgNode.Frame as Frame
use cppmulti_thread_server_b.MsgNode.Head.{IsHead}
use cppmulti_thread_server_b.MsgNode.{SendNode}
use cppmulti_thread_server_b.Logic.{LogicNode, LogicSystem, new_system, register_callback}
use cppmulti_thread_server_b.Corotine.{CSession}
use cppmulti_thread_server_b.Corotine.Server.{fresh_session}
use cppmulti_thread_server_b.Corotine.Start.{ends, again, round}
use cppmulti_thread_server_b.Corotine.Start.Frames.{
  after_packet, after_packet-IsHead, received, round-packet,
}
use cppmulti_thread_server_b.Corotine.Logic.{
  answer_prefix, deal, deal_front, deal-hello_world, post_msg_to_que,
}
use cppmulti_thread_server_b.Corotine.Write.Promise.{
  corotine_outbox, send-empty, send-busy, handle_write-last, handle_write-next,
}
use cppmulti_thread_server_b.Corotine.Write.{send, handle_write}
use cppmulti_thread_server_b.Effect.Counts.{writes}
use cppmulti_thread_server_b.Client.{read_reply, max_lenght}
use cppmulti_thread_server_b.Client.RoundTrip.{request-frame, read_reply-frame}
use cppmulti_thread_server_b.System.{Host, idle, System}
use cppmulti_thread_server_b.System.Service.{
  Service, Held, none_held, one_held, two_held, has_room, more, fewer, under_way, first, next,
  queued,
}

-- What the coroutine does with the bytes of one packet, up to where it waits for the next.
unfoldable pub receive : Platform → CSession → List ℕ → Outcome (CSession × List Effect)
receive p s stream = elim s.b_close [
  | true ↦ done (s, [])
  | false ↦ round p s stream >>= λ r. elim r [ ends t ↦ done t | again s' rest es ↦ done (s', es) ]
]

abbrev pub host : Platform → Host
host p = record {
  outbox = corotine_outbox p;
  receive = receive p;
  post_msg_to_que = post_msg_to_que;
  deal_front = deal_front p;
}

-- Every client has its session, and `rounds` rounds to go.
unfoldable pub corotine_start : (p : Platform) → ℕ → (String → CSession) → System (host p)
corotine_start p rounds sessions = record {
  clients = λ u. record {
    session = sessions u;
    phase = idle;
    left = rounds;
    got = [];
    coming = [];
    writing = 0;
  };
  logic = new_system;
  asleep = false;
}

-- Between two requests, and with so many answers in the queue.
pub record IsWaiting (s : CSession) : Type 0 where
  pub is_open : s.b_close ≡ false
  pub is_head : IsHead s.recv_head_node
  pub queue : s.send_que ≡ []

record IsHolding (msg_id : ℤ) (reply : List ℕ) (q : Held) (s : CSession) : Type 0 where
  pub is_open : s.b_close ≡ false
  pub is_head : IsHead s.recv_head_node
  pub queue : s.send_que ≡ queued (Frame.sent msg_id reply) q

receive-again :
    (p : Platform) (s s' : CSession) (wire rest : List ℕ) (es : List Effect)
    → s.b_close ≡ false
    → round p s wire ≡ done (again s' rest es)
    → receive p s wire ≡ done (s', es)
unfolding receive
receive-again p s s' wire rest es o e = rw (o, receive) (rw e refl)

pub fresh_session-IsWaiting : (p : Platform) (uuid : String) → IsWaiting (fresh_session p uuid)
fresh_session-IsWaiting p uuid = record {
  is_open = refl;
  is_head = record {
    at_start = refl;
    four = refl;
    room = omega (arith, length-append (p.fresh_bytes 4) (0 ∷ []), p.length-fresh_bytes 4);
  };
  queue = refl;
}

module _ (p : Platform) (text d : List ℕ) (i : ℤ) (e : p.id_as_int text ≡ some i)
    (f : p.data_as_string text ≡ some d) (l : length text ≤ max_lenght - 4) where
  reply : List ℕ
  reply = p.styled_with_data text (answer_prefix ++ d)

  pub receives :
      (s : CSession)
      → s.b_close ≡ false
      → IsHead s.recv_head_node
      → receive p s (frame (pos 1001) text)
        ≡ done (after_packet s (pos 1001) text, post (received (pos 1001) text) ∷ [])
  receives s o h = receive-again p s _ _ _ _ o (
      ap (round p s) (sym (append-nil (frame (pos 1001) text)))
      ∙ round-packet p s (pos 1001) text [] h
          (record { is_short = omega arith; id_fits = refl; len_fits = omega arith }))

  deals :
      (t : LogicSystem) (u : String) (rest : List LogicNode)
      → t.func_callbacks ≡ register_callback
      → t.msg_que ≡ record { session = u; recv_node = received (pos 1001) text } ∷ rest
      → deal_front p t
        ≡ done (
          record t { msg_que = rest },
          record { session = u; return_str = reply; msg_id = pos 1001 } ∷ [],
        )
  unfolding deal_front reply
  deals t u rest c q =
      rw (q, deal_front)
        (rw
          (ap (λ m. deal p m (record { session = u; recv_node = received (pos 1001) text })) c
            ∙ deal-hello_world p u 0 text d i e f)
          refl)

  Holds : Held → CSession → Type 0
  Holds q s = IsHolding (pos 1001) reply q s

  holds-queue :
      (q r : Held) (s : CSession) (ns : List SendNode)
      → Holds q s
      → ns ≡ queued (Frame.sent (pos 1001) reply) r
      → Holds r (record s { send_que = ns })
  unfolding Holds
  holds-queue q r s ns v e = record { is_open = v.is_open; is_head = v.is_head; queue = e }

  sends :
      (q : Held) (s : CSession)
      → length reply ≤ max_lenght
      → has_room q ≡ true
      → Holds q s
      → (s' : CSession) × (es : List Effect) × (send p s reply (pos 1001) ≡ done (s', es))
        × (writes es ≡ first (frame (pos 1001) reply) q)
        × Holds (more q) s'
  unfolding Holds
  sends none_held s m r v = (
    _,
    _,
    send-empty p s reply (pos 1001) (omega arith) v.queue,
    refl,
    holds-queue none_held one_held s _ v refl,
  )
  sends one_held s m r v = (
    _,
    _,
    send-busy p s reply (pos 1001) (Frame.sent (pos 1001) reply) [] (omega arith) v.queue
        (omega arith),
    refl,
    holds-queue one_held two_held s _ v refl,
  )
  sends two_held s m r v = absurd cc

  writes_it :
      (q : Held) (s : CSession)
      → under_way q ≡ 1
      → Holds q s
      → (s' : CSession) × (es : List Effect) × (handle_write s false ≡ done (s', es))
        × (writes es ≡ next (frame (pos 1001) reply) q)
        × Holds (fewer q) s'
  unfolding Holds
  writes_it none_held s r v = absurd (omega arith)
  writes_it one_held s r v = (
    _,
    _,
    handle_write-last p s (Frame.sent (pos 1001) reply) v.queue,
    refl,
    holds-queue one_held none_held s _ v refl,
  )
  writes_it two_held s r v = (
    _,
    _,
    handle_write-next p s (Frame.sent (pos 1001) reply) (pos 1001) reply [] v.queue,
    refl,
    holds-queue two_held one_held s _ v refl,
  )

  service : length reply ≤ max_lenght → Service (host p) p text
  unfolding reply post_msg_to_que deal_front Holds
  service m = record {
    wire = frame (pos 1001) text;
    answer = frame (pos 1001) reply;
    node = received (pos 1001) text;
    return_str = reply;
    msg_id = pos 1001;
    reply = (1001, reply);
    Holds = Holds;
    asked_as = request-frame p text l;
    posts = λ t n. refl;
    notifies = λ t n e. rw e refl;
    receives = λ q s v. (
      _,
      _,
      receives s v.is_open v.is_head,
      λ u. refl,
      record {
        is_open = v.is_open;
        is_head = after_packet-IsHead p s (pos 1001) text v.is_head;
        queue = v.queue;
      },
    );
    has_front = λ t q. rw (q, deal_front) refl;
    deals = deals;
    sends = λ q s r v. sends q s m r v;
    writes_it = writes_it;
    read_as =
        ap (read_reply p) (sym (append-nil (frame (pos 1001) reply)))
        ∙ read_reply-frame p (pos 1001) reply [] m;
  }
