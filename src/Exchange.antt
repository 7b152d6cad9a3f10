-- ===== src/Exchange.antt =====
-- The client and the coroutine server together: one request and its answer.
pub mod Answers
pub mod Corotine
pub mod Callback
pub mod Unreadable
use cppmulti_thread_server_b.Prelude.{
  ℕ, ◌-◌, ◌≤◌, ◌≡◌, refl, ap, sym, ◌∙◌, List, [], ◌∷◌, ◌++◌, some, ℤ, pos, length, append-nil,
  arith,
}
use cppmulti_thread_server_b.Memory.{done}
use cppmulti_thread_server_b.Platform.{Platform}
use cppmulti_thread_server_b.MsgNode.{RecvNode}
use cppmulti_thread_server_b.MsgNode.Frame.{frame}
use cppmulti_thread_server_b.MsgNode.Head.{IsHead}
use cppmulti_thread_server_b.Effect.{post, start_write}
use cppmulti_thread_server_b.Logic.{Reply, register_callback}
use cppmulti_thread_server_b.Corotine.{CSession}
use cppmulti_thread_server_b.Corotine.Start.{again, round}
use cppmulti_thread_server_b.Corotine.Start.Frames.{after_packet, received, round-packet}
use cppmulti_thread_server_b.Corotine.Logic.{answer_prefix, deal, deal-hello_world}
use cppmulti_thread_server_b.Corotine.Write.{send}
use cppmulti_thread_server_b.Corotine.Write.Promise.{send_first}
use cppmulti_thread_server_b.Client.{request, read_reply, max_lenght}
use cppmulti_thread_server_b.Client.RoundTrip.{request-frame, read_reply-frame}

-- A client's request, read in one round of the session's coroutine, is posted; the logic system
-- answers it with the styled text whose "data" is the server's phrase and the request's data; the
-- session, with nothing to send before, writes the answer; and the client reads back the id 1001
-- and that text. The request is JSON with an "id" and a "data", of at most 2044 bytes, and the
-- answer has at most 2048. The session's head buffer is as its constructor makes it.
pub exchange :
    (p : Platform) (s : CSession) (text d : List ℕ) (i : ℤ)
    → IsHead s.recv_head_node
    → s.send_que ≡ []
    → p.id_as_int text ≡ some i
    → p.data_as_string text ≡ some d
    → length text ≤ max_lenght - 4
    → length (p.styled_with_data text (answer_prefix ++ d)) ≤ max_lenght
    → (wire answer : List ℕ) × (s₁ s₂ : CSession) × (node : RecvNode) × (r : Reply) × (request p
          text
        ≡ done wire)
      × (round p s wire ≡ done (again s₁ [] (post node ∷ [])))
      × (deal p register_callback (record { session = s.uuid; recv_node = node }) ≡ done (r ∷ []))
      × (r.session ≡ s.uuid)
      × (send p s₁ r.return_str r.msg_id ≡ done (s₂, start_write answer ∷ []))
      × (read_reply p answer ≡ done (1001, p.styled_with_data text (answer_prefix ++ d), []))
exchange p s text d i h q e f l m =
    let answer = p.styled_with_data text (answer_prefix ++ d) in
    let s₁ = after_packet s (pos 1001) text in
    let (s₂, sent_it, queue) = send_first p s₁ answer (pos 1001) (omega arith) q in
    (
      frame (pos 1001) text,
      frame (pos 1001) answer,
      s₁,
      s₂,
      received (pos 1001) text,
      record { session = s.uuid; return_str = answer; msg_id = pos 1001 },
      request-frame p text l,
      ap (round p s) (sym (append-nil (frame (pos 1001) text)))
          ∙ round-packet p s (pos 1001) text [] h
              (record { is_short = omega arith; id_fits = refl; len_fits = omega arith }),
      deal-hello_world p s.uuid 0 text d i e f,
      refl,
      sent_it,
      ap (read_reply p) (sym (append-nil (frame (pos 1001) answer)))
          ∙ read_reply-frame p (pos 1001) answer [] m,
    )
