-- ===== src/Exchange/Corotine.antt =====
-- The client's loop against the coroutine server.
use cppmulti_thread_server_b.Prelude.{
  ℕ, ◌-◌, ◌≤◌, ◌≡◌, refl, ap, sym, ◌∙◌, List, [], ◌∷◌, ◌++◌, some, ℤ, pos, length, append-nil,
  arith, replicate,
}
use cppmulti_thread_server_b.Memory.{Outcome, done, ◌>>=◌}
use cppmulti_thread_server_b.Platform.{Platform}
use cppmulti_thread_server_b.MsgNode.Frame.{frame, sent}
use cppmulti_thread_server_b.MsgNode.Head.{IsHead}
use cppmulti_thread_server_b.Logic.{register_callback}
use cppmulti_thread_server_b.Corotine.{CSession}
use cppmulti_thread_server_b.Corotine.Start.{ends, again, round}
use cppmulti_thread_server_b.Corotine.Start.Frames.{after_packet, after_packet-IsHead, round-packet}
use cppmulti_thread_server_b.Corotine.Logic.{drain, answer_prefix, deal-hello_world}
use cppmulti_thread_server_b.Corotine.Write.Promise.{corotine_outbox, send-empty, handle_write-last}
use cppmulti_thread_server_b.Client.{read_reply, max_lenght}
use cppmulti_thread_server_b.Client.RoundTrip.{request-frame, read_reply-frame}
use cppmulti_thread_server_b.Client.Rounds.{Peer, rounds, rounds-replicate}
use cppmulti_thread_server_b.Exchange.Answers.{messages, answer, answer-one}

-- One round of the coroutine on the bytes that came in, the messages that it posts dealt with, and
-- their answers written.
pub serve : Platform → CSession → List ℕ → Outcome (CSession × List ℕ)
serve p s wire = round p s wire >>= λ r. elim r [
  | ends t ↦ done (t.0, [])
  | again s' rest es ↦
      drain p register_callback (messages s.uuid es) >>= λ rs. answer (corotine_outbox p) s' rs
]

abbrev pub peer : Platform → Peer
peer p = record { Session = CSession; serve = serve p }

-- Between two requests.
pub record IsReady (s : CSession) : Type 0 where
  pub is_head : IsHead s.recv_head_node
  pub queue : s.send_que ≡ []

module _ (p : Platform) where
  serve-IsReady :
      (s : CSession) (text d : List ℕ) (i : ℤ)
      → IsReady s
      → p.id_as_int text ≡ some i
      → p.data_as_string text ≡ some d
      → length text ≤ max_lenght - 4
      → length (p.styled_with_data text (answer_prefix ++ d)) ≤ max_lenght
      → (s' : CSession) × (serve p s (frame (pos 1001) text)
          ≡ done (s', frame (pos 1001) (p.styled_with_data text (answer_prefix ++ d))))
        × IsReady s'
  unfolding serve drain
  serve-IsReady s text d i v e f l m =
      let reply = p.styled_with_data text (answer_prefix ++ d) in
      let s₁ = after_packet s (pos 1001) text in
      let s₂ = record s₁ { send_que = sent (pos 1001) reply ∷ [] } in
      let came_in =
        ap (round p s) (sym (append-nil (frame (pos 1001) text)))
        ∙ round-packet p s (pos 1001) text [] v.is_head
            (record { is_short = omega arith; id_fits = refl; len_fits = omega arith }) in
      let dealt = deal-hello_world p s.uuid 0 text d i e f in
      let written =
        answer-one (corotine_outbox p) s₁ s₂ (record s₂ { send_que = [] }) _
          (frame (pos 1001) reply) (send-empty p s₁ reply (pos 1001) (omega arith) v.queue)
          (handle_write-last p s₂ (sent (pos 1001) reply) refl) in
      (
        record s₂ { send_que = [] },
        rw came_in (rw dealt written),
        record { is_head = after_packet-IsHead p s (pos 1001) text v.is_head; queue = refl },
      )

  -- The loop of the client against the coroutine server: each of its n rounds reads back the id 1001 and
  -- the styled text whose "data" is the server's phrase and the data of the request, and the session is
  -- ready for the next request. The session's head buffer is as its constructor makes it and it has
  -- nothing to send; the request is JSON with an "id" and a "data", of at most 2044 bytes, and the answer
  -- has at most 2048.
  pub rounds_corotine :
      (n : ℕ) (s : CSession) (text d : List ℕ) (i : ℤ)
      → IsReady s
      → p.id_as_int text ≡ some i
      → p.data_as_string text ≡ some d
      → length text ≤ max_lenght - 4
      → length (p.styled_with_data text (answer_prefix ++ d)) ≤ max_lenght
      → (s' : CSession) × (rounds p (peer p) text n s []
          ≡ done (s', replicate n (1001, p.styled_with_data text (answer_prefix ++ d))))
        × IsReady s'
  rounds_corotine n s text d i v e f l m =
      let reply = p.styled_with_data text (answer_prefix ++ d) in
      rounds-replicate p (peer p) IsReady text (frame (pos 1001) text) (frame (pos 1001) reply)
        reply 1001 n s (request-frame p text l)
        (ap (read_reply p) (sym (append-nil (frame (pos 1001) reply)))
          ∙ read_reply-frame p (pos 1001) reply [] m)
        (λ t w. serve-IsReady t text d i w e f l m) v
