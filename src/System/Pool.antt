-- ===== src/System/Pool.antt =====
-- AsioThreadPool as a whole: its sessions, whose handlers pass through the strand, and its logic system.
-- A client may ask again before the `HandleWrite` of its last answer has run. The write that `HandleWrite`
-- then starts is not bound to the strand; a handler's body counts as one step here.
use Prim.Native.String.{String}
use cppmulti_thread_server_b.Prelude.{
  ℕ, ◌+◌, ◌≤◌, ◌≡◌, ◌∙◌, List, [], ◌++◌, false, some, Bool, ℤ, length,
}
use cppmulti_thread_server_b.Memory.{◌>>=◌}
use cppmulti_thread_server_b.Platform.{Platform}
use cppmulti_thread_server_b.MsgNode
use cppmulti_thread_server_b.Logic.{answer_prefix}
use cppmulti_thread_server_b.Logic
use cppmulti_thread_server_b.Session.{CSession}
use cppmulti_thread_server_b.Session.Read
use cppmulti_thread_server_b.Outbox.{Outbox}
use cppmulti_thread_server_b.Session.Write.Promise.{session_outbox}
use cppmulti_thread_server_b.ThreadPool.Session.{
  on_bytes, send, handle_write, handle_read, forget, forget-on_strand, forget-off_strand,
}
use cppmulti_thread_server_b.ThreadPool.Logic.{new_system, post_msg_to_que, deal_front}
use cppmulti_thread_server_b.Client.{max_lenght}
use cppmulti_thread_server_b.System.{Host, idle, System}
use cppmulti_thread_server_b.System.Service.{Service}
use cppmulti_thread_server_b.System.Callback

abbrev pub pool_outbox : Platform → Outbox
pool_outbox p = record (session_outbox p) {
  send = λ s msg msg_id. send p s msg msg_id >>= forget;
  handle_write = λ s ec. handle_write s ec >>= forget;
}

abbrev pub host : Platform → Host
host p = record {
  outbox = pool_outbox p;
  receive = λ s bs. on_bytes p s bs >>= forget;
  post_msg_to_que = post_msg_to_que;
  deal_front = deal_front p;
}

-- Every client has its session, and `rounds` rounds to go.
unfoldable pub pool_start : (p : Platform) → ℕ → (String → CSession) → System (host p)
pool_start p rounds sessions = record {
  clients = λ u. record {
    session = sessions u;
    phase = idle;
    left = rounds;
    got = [];
    coming = [];
    writing = 0;
  };
  logic = new_system;
  asleep = false;
}

module _ (p : Platform) where
  pub receive-plain :
      (s : CSession) (bs : List ℕ) → (on_bytes p s bs >>= forget) ≡ Callback.receive p s bs
  unfolding on_bytes handle_read Callback.receive Read.on_bytes
  receive-plain s bs = forget-on_strand _

  send-plain :
      (s : CSession) (msg : List ℕ) (msg_id : ℤ)
      → (send p s msg msg_id >>= forget) ≡ (session_outbox p).send s msg msg_id
  unfolding send
  send-plain s msg msg_id = forget-on_strand _

  handle_write-plain :
      (s : CSession) (ec : Bool)
      → (handle_write s ec >>= forget) ≡ (session_outbox p).handle_write s ec
  unfolding handle_write
  handle_write-plain s ec = forget-off_strand _

module _ (p : Platform) (text d : List ℕ) (i : ℤ) (e : p.id_as_int text ≡ some i)
    (f : p.data_as_string text ≡ some d) (l : length text + 4 ≤ MsgNode.max_lenght) where
  service :
      length (p.styled_with_data text (answer_prefix ++ d)) ≤ max_lenght → Service (host p) p text
  unfolding post_msg_to_que deal_front Callback.service
  service m =
      let a = Callback.service p text d i e f l m in
      record {
        wire = a.wire;
        answer = a.answer;
        node = a.node;
        return_str = a.return_str;
        msg_id = a.msg_id;
        reply = a.reply;
        Holds = a.Holds;
        asked_as = a.asked_as;
        posts = a.posts;
        notifies = a.notifies;
        receives = λ q s v.
            let (s', es, came, posted, w) = a.receives q s v in
            (s', es, receive-plain p s a.wire ∙ came, posted, w);
        has_front = a.has_front;
        deals = a.deals;
        sends = λ q s r v.
            let (s', es, took, one, w) = a.sends q s r v in
            (s', es, send-plain p s a.return_str a.msg_id ∙ took, one, w);
        writes_it = λ q s r v.
            let (s', es, wrote, none, w) = a.writes_it q s r v in
            (s', es, handle_write-plain p s false ∙ wrote, none, w);
        read_as = a.read_as;
      }
