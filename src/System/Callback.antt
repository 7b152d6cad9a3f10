-- ===== src/System/Callback.antt =====
-- SingleThreadAsyncServer as a whole: its sessions and its logic system.
use Prim.Native.String.{String}
use mathlib.Core.Path.{subst}
use cppmulti_thread_server_b.Prelude.{
  ℕ, ◌+◌, ◌≤◌, ◌≡◌, refl, ap, sym, ◌∙◌, List, [], ◌∷◌, ◌++◌, true, false, some, ℤ, pos, to_short,
  to_u16, to_u16-lt, length, append-nil, arith,
}
use cppmulti_thread_server_b.Memory.{Outcome, done}
use cppmulti_thread_server_b.Platform.{Platform}
use cppmulti_thread_server_b.Effect.{Effect}
use cppmulti_thread_server_b.MsgNode.{RecvNode, SendNode}
use cppmulti_thread_server_b.MsgNode
use cppmulti_thread_server_b.MsgNode.Frame.{head, frame}
use cppmulti_thread_server_b.MsgNode.Frame as Frame
use cppmulti_thread_server_b.Logic.{
  LogicNode, LogicSystem, new_system, register_callback, deal, deal_front, answer_prefix,
  post_msg_to_que,
}
use cppmulti_thread_server_b.Session.{CSession, new_session}
use cppmulti_thread_server_b.Session.Fresh.{fresh_session, fresh_session-HasHead, new_session-fresh}
use cppmulti_thread_server_b.Session.Read.{on_bytes}
use cppmulti_thread_server_b.Session.Read.Waiting.{HasHead}
use cppmulti_thread_server_b.Session.Read.Packet.{delivered}
use cppmulti_thread_server_b.Session.Write.Promise.{
  session_outbox, send-empty, send-busy, handle_write-last, handle_write-next,
}
use cppmulti_thread_server_b.Session.Write.{send, handle_write}
use cppmulti_thread_server_b.Effect.Counts.{writes}
use cppmulti_thread_server_b.Client.{read_reply, max_lenght}
use cppmulti_thread_server_b.Client.RoundTrip.{request-frame, read_reply-frame}
use cppmulti_thread_server_b.Exchange.Callback.{
  IsReady, deal-delivered, to_u16-to_short, packet_in, waiting-queue,
}
use cppmulti_thread_server_b.System.{Host, idle, System}
use cppmulti_thread_server_b.System.Service.{
  Service, Held, none_held, one_held, two_held, has_room, more, fewer, under_way, first, next,
  queued,
}

-- A read whose bytes are those of one request. Two rounds more than bytes are enough.
unfoldable pub receive : Platform → CSession → List ℕ → Outcome (CSession × List Effect)
receive p s bs = on_bytes p (length bs + 2) s bs

abbrev pub host : Platform → Host
host p = record {
  outbox = session_outbox p;
  receive = receive p;
  post_msg_to_que = post_msg_to_que;
  deal_front = deal_front p;
}

-- Every client has its session, and `rounds` rounds to go.
unfoldable pub callback_start : (p : Platform) → ℕ → (String → CSession) → System (host p)
callback_start p rounds sessions = record {
  clients = λ u. record {
    session = sessions u;
    phase = idle;
    left = rounds;
    got = [];
    coming = [];
    writing = 0;
  };
  logic = new_system;
  asleep = false;
}

-- Between two reads, with so many answers in the queue.
pub record IsHolding (msg_id : ℤ) (reply : List ℕ) (q : Held) (s : CSession) : Type 0 where
  pub waiting : HasHead [] s
  pub queue : s.send_queue ≡ queued (Frame.sent msg_id reply) q

pub new_session-IsReady :
    (p : Platform) (uuid : String) (s : CSession) → new_session p uuid ≡ done s → IsReady s
new_session-IsReady p uuid s e =
    let same : done (fresh_session p uuid) ≡ done s = sym (new_session-fresh p uuid) ∙ e in
    let one : fresh_session p uuid ≡ s = cc in
    subst IsReady one (record { waiting = fresh_session-HasHead p uuid; queue = refl })

module _ (p : Platform) (text d : List ℕ) (i : ℤ) (e : p.id_as_int text ≡ some i)
    (f : p.data_as_string text ≡ some d) (l : length text + 4 ≤ MsgNode.max_lenght) where
  unfoldable pub reply : List ℕ
  reply = p.styled_with_data text (answer_prefix ++ d)

  unfoldable pub id : ℤ
  id = to_short (to_u16 i)

  pub deals :
      (t : LogicSystem) (u : String) (rest : List LogicNode)
      → t.func_callbacks ≡ register_callback
      → t.msg_que ≡ record { session = u; recv_node = delivered (pos 1001) text } ∷ rest
      → deal_front p t
        ≡ done (
          record t { msg_que = rest },
          record { session = u; return_str = reply; msg_id = id } ∷ [],
        )
  unfolding deal_front reply id
  deals t u rest c q =
      rw (q, deal_front)
        (rw
          (ap (λ m. deal p m (record { session = u; recv_node = delivered (pos 1001) text })) c
            ∙ deal-delivered p u text d i e f)
          refl)

  unfoldable pub Holds : Held → CSession → Type 0
  Holds q s = IsHolding id reply q s

  holds-queue :
      (q : Held) (s : CSession) (ns : List SendNode)
      → HasHead [] s
      → ns ≡ queued (Frame.sent id reply) q
      → Holds q (record s { send_queue = ns })
  unfolding Holds
  holds-queue q s ns w e = record { waiting = waiting-queue p s ns w; queue = e }

  pub sends :
      (q : Held) (s : CSession)
      → has_room q ≡ true
      → Holds q s
      → (s' : CSession) × (es : List Effect) × (send p s reply id ≡ done (s', es))
        × (writes es ≡ first (frame id reply) q)
        × Holds (more q) s'
  unfolding Holds
  sends none_held s r v =
      (_, _, send-empty p s reply id v.queue, refl, holds-queue one_held s _ v.waiting refl)
  sends one_held s r v = (
    _,
    _,
    send-busy p s reply id (Frame.sent id reply) [] v.queue (omega arith),
    refl,
    holds-queue two_held s _ v.waiting refl,
  )
  sends two_held s r v = absurd cc

  pub writes_it :
      (q : Held) (s : CSession)
      → under_way q ≡ 1
      → Holds q s
      → (s' : CSession) × (es : List Effect) × (handle_write s false ≡ done (s', es))
        × (writes es ≡ next (frame id reply) q)
        × Holds (fewer q) s'
  unfolding Holds
  writes_it none_held s r v = absurd (omega arith)
  writes_it one_held s r v = (
    _,
    _,
    handle_write-last p s (Frame.sent id reply) v.queue,
    refl,
    holds-queue none_held s _ v.waiting refl,
  )
  writes_it two_held s r v = (
    _,
    _,
    handle_write-next p s (Frame.sent id reply) id reply [] v.queue,
    refl,
    holds-queue one_held s _ v.waiting refl,
  )

  unfoldable pub service : length reply ≤ max_lenght → Service (host p) p text
  unfolding reply id post_msg_to_que deal_front receive Holds
  service m = record {
    wire = frame (pos 1001) text;
    answer = frame id reply;
    node = delivered (pos 1001) text;
    return_str = reply;
    msg_id = id;
    reply = (to_u16 i, reply);
    Holds = Holds;
    asked_as = request-frame p text (omega arith);
    posts = λ t n. refl;
    notifies = λ t n e. rw e refl;
    receives = λ q s v.
        let (s', came, w, same) = packet_in p s text d i v.waiting e f l in
        (s', _, came, λ u. refl, record { waiting = w; queue = same ∙ v.queue });
    has_front = λ t q. rw (q, deal_front) refl;
    deals = deals;
    sends = sends;
    writes_it = writes_it;
    read_as =
        ap (read_reply p) (sym (append-nil (frame id reply)))
        ∙ read_reply-frame p id reply [] m
        ∙ ap (λ (w : ℕ). done (w, reply, [])) (to_u16-to_short (to_u16 i) (to_u16-lt i));
  }
