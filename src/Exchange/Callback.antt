-- ===== src/Exchange/Callback.antt =====
-- The client's loop against a callback server.
use Prim.Native.Nat.{suc}
use Prim.Native.String.{String}
use cppmulti_thread_server_b.Prelude.{
  ℕ, ◌+◌, ◌^◌, ◌≤◌, ◌<◌, ◌≡◌, refl, ap, sym, ◌∙◌, List, [], ◌∷◌, ◌++◌, some, ℤ, pos, to_short,
  to_u16, to_u16-lt, length, append-nil, arith, replicate,
}
use cppmulti_thread_server_b.Memory.{Outcome, done, ◌>>=◌}
use cppmulti_thread_server_b.Effect.{post, start_read}
use cppmulti_thread_server_b.Platform.{Platform}
use cppmulti_thread_server_b.MsgNode.Frame.{head, frame, sent}
use cppmulti_thread_server_b.MsgNode.Text.{text-text_node}
use cppmulti_thread_server_b.MsgNode.{SendNode}
use cppmulti_thread_server_b.MsgNode
use cppmulti_thread_server_b.Logic.{
  register_callback, deal, drain, find, hello_world, answer_prefix,
}
use cppmulti_thread_server_b.Session.{CSession}
use cppmulti_thread_server_b.Session.Read.{on_bytes, print_json}
use cppmulti_thread_server_b.Session.Read.Waiting.{HasHead}
use cppmulti_thread_server_b.Session.Read.Packet.{delivered}
use cppmulti_thread_server_b.Session.Read.Packets.{on_bytes-packet}
use cppmulti_thread_server_b.Session.Read.Starts.{on_bytes-queue}
use cppmulti_thread_server_b.Session.Write.Promise.{session_outbox, send-empty, handle_write-last}
use cppmulti_thread_server_b.Client.{read_reply, max_lenght}
use cppmulti_thread_server_b.Client.RoundTrip.{request-frame, read_reply-frame}
use cppmulti_thread_server_b.Client.Rounds.{Peer, rounds, rounds-replicate}
use cppmulti_thread_server_b.Exchange.Answers.{messages, answer, answer-one}

-- A read of the bytes that came in, the messages that it posts dealt with, and their answers written.
-- Two rounds more than bytes are enough.
pub serve : Platform → CSession → List ℕ → Outcome (CSession × List ℕ)
serve p s wire = on_bytes p (length wire + 2) s wire >>= λ t.
    drain p register_callback (messages s.uuid t.1) >>= λ rs. answer (session_outbox p) t.0 rs

abbrev pub peer : Platform → Peer
peer p = record { Session = CSession; serve = serve p }

-- Between two requests.
pub record IsReady (s : CSession) : Type 0 where
  pub waiting : HasHead [] s
  pub queue : s.send_queue ≡ []

pub to_u16-to_short : (w : ℕ) → w < 2 ^ 16 → to_u16 (to_short w) ≡ w
to_u16-to_short w h = ground arith

module _ (p : Platform) where
  print_json-some :
      (text d : List ℕ) (i : ℤ)
      → p.id_as_int text ≡ some i
      → p.data_as_string text ≡ some d
      → print_json p text ≡ done (i, d)
  unfolding print_json
  print_json-some text d i e f = rw (e, print_json) (rw (f, print_json) refl)

  pub deal-delivered :
      (session : String) (text d : List ℕ) (i : ℤ)
      → p.id_as_int text ≡ some i
      → p.data_as_string text ≡ some d
      → deal p register_callback
          (record { session = session; recv_node = delivered (pos 1001) text })
        ≡ done (
            record {
              session = session;
              return_str = p.styled_with_data text (answer_prefix ++ d);
              msg_id = to_short (to_u16 i);
            }
            ∷ [])
  unfolding deal find register_callback hello_world
  deal-delivered session text d i e f =
      rw (text-text_node text) (rw (e, hello_world) (rw (f, hello_world) refl))

  -- A request comes in; the queue of packets stays as it is.
  pub packet_in :
      (s : CSession) (text d : List ℕ) (i : ℤ)
      → HasHead [] s
      → p.id_as_int text ≡ some i
      → p.data_as_string text ≡ some d
      → length text + 4 ≤ MsgNode.max_lenght
      → (s' : CSession) × (on_bytes p (length (frame (pos 1001) text) + 2) s (frame (pos 1001) text)
          ≡ done (s', post (delivered (pos 1001) text) ∷ start_read ∷ []))
        × HasHead [] s'
        × (s'.send_queue ≡ s.send_queue)
  packet_in s text d i w e f l =
      let at = head (pos 1001) (pos (length text)) in
      let (s₁, came_in, waiting) =
        on_bytes-packet p (length (at ++ text) + 1) s [] at text (pos 1001) w
          (record {
            is_short = omega arith;
            id_fits = refl;
            len_fits = omega arith;
            readable = ((i, d), print_json-some text d i e f);
          })
          refl (omega arith) (omega arith) in
      let enough : suc (length (at ++ text) + 1) ≡ length (at ++ text) + 2 = omega arith in
      let posted = post (delivered (pos 1001) text) ∷ start_read ∷ [] in
      let came : on_bytes p (length (at ++ text) + 2) s (at ++ text) ≡ done (s₁, posted) =
        ap (λ (k : ℕ). on_bytes p k s (at ++ text)) (sym enough) ∙ came_in in
      let (queue, named) =
        on_bytes-queue p (length (at ++ text) + 2) s s₁ (at ++ text) posted came in
      (s₁, came, waiting, queue)

  pub packet_came :
      (s : CSession) (text d : List ℕ) (i : ℤ)
      → IsReady s
      → p.id_as_int text ≡ some i
      → p.data_as_string text ≡ some d
      → length text + 4 ≤ MsgNode.max_lenght
      → (s' : CSession) × (on_bytes p (length (frame (pos 1001) text) + 2) s (frame (pos 1001) text)
          ≡ done (s', post (delivered (pos 1001) text) ∷ start_read ∷ []))
        × IsReady s'
  packet_came s text d i v e f l =
      let (s', came, waiting, queue) = packet_in s text d i v.waiting e f l in
      (s', came, record { waiting = waiting; queue = queue ∙ v.queue })

  -- What the writes change does not matter for the reads.
  pub waiting-queue :
      (s : CSession) (q : List SendNode) → HasHead [] s → HasHead [] (record s { send_queue = q })
  waiting-queue s q w = record {
    is_head = w.is_head;
    held = w.held;
    filled = w.filled;
    waits = w.waits;
    data_room = w.data_room;
  }

  serve-IsReady :
      (s : CSession) (text d : List ℕ) (i : ℤ)
      → IsReady s
      → p.id_as_int text ≡ some i
      → p.data_as_string text ≡ some d
      → length text + 4 ≤ MsgNode.max_lenght
      → (s' : CSession) × (serve p s (frame (pos 1001) text)
          ≡ done (s', frame (to_short (to_u16 i)) (p.styled_with_data text (answer_prefix ++ d))))
        × IsReady s'
  unfolding serve drain
  serve-IsReady s text d i v e f l =
      let reply = p.styled_with_data text (answer_prefix ++ d) in
      let (s₁, came, ready) = packet_came s text d i v e f l in
      let s₂ = record s₁ { send_queue = sent (to_short (to_u16 i)) reply ∷ [] } in
      let dealt = deal-delivered s.uuid text d i e f in
      let written =
        answer-one (session_outbox p) s₁ s₂ (record s₂ { send_queue = [] }) _
          (frame (to_short (to_u16 i)) reply)
          (send-empty p s₁ reply (to_short (to_u16 i)) ready.queue)
          (handle_write-last p s₂ (sent (to_short (to_u16 i)) reply) refl) in
      (
        record s₂ { send_queue = [] },
        rw came (rw dealt written),
        record { waiting = waiting-queue s₁ [] ready.waiting; queue = refl },
      )

  -- The loop of the client against a callback server: each of its n rounds reads back the id in the text
  -- of the request, as an unsigned short, and the styled text whose "data" is the server's phrase and
  -- the data of the request, and the session is ready for the next request. The session waits for a
  -- head with an empty buffer and has nothing to send; the request is JSON with an "id" and a "data" and
  -- comes in with one read, of at most 1024 bytes with its head, and the answer has at most 2048 bytes.
  pub rounds_callback :
      (n : ℕ) (s : CSession) (text d : List ℕ) (i : ℤ)
      → IsReady s
      → p.id_as_int text ≡ some i
      → p.data_as_string text ≡ some d
      → length text + 4 ≤ MsgNode.max_lenght
      → length (p.styled_with_data text (answer_prefix ++ d)) ≤ max_lenght
      → (s' : CSession) × (rounds p (peer p) text n s []
          ≡ done (s', replicate n (to_u16 i, p.styled_with_data text (answer_prefix ++ d))))
        × IsReady s'
  rounds_callback n s text d i v e f l m =
      let reply = p.styled_with_data text (answer_prefix ++ d) in
      let id = to_short (to_u16 i) in
      rounds-replicate p (peer p) IsReady text (frame (pos 1001) text) (frame id reply) reply
        (to_u16 i) n s (request-frame p text (omega arith))
        (ap (read_reply p) (sym (append-nil (frame id reply)))
          ∙ read_reply-frame p id reply [] m
          ∙ ap (λ (w : ℕ). done (w, reply, [])) (to_u16-to_short (to_u16 i) (to_u16-lt i)))
        (λ t w. serve-IsReady t text d i w e f l) v
