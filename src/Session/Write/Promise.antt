-- ===== src/Session/Write/Promise.antt =====
-- `Send` and `HandleWrite` of the callback servers keep the promise of `Outbox`.
use cppmulti_thread_server_b.Prelude.{
  ℕ, ◌-◌, ◌^◌, ◌≤◌, ◌<◌, ◌≡◌, refl, List, [], ◌∷◌, ◌++◌, true, false, ℤ, length, arith, lt→ltb,
  ge→ltb,
}
use cppmulti_thread_server_b.Memory.{done}
use cppmulti_thread_server_b.Platform.{Platform}
use cppmulti_thread_server_b.MsgNode.{SendNode, max_sendque}
use cppmulti_thread_server_b.MsgNode.Frame.{frame, sent, send_node-frame, send_buffer-sent}
use cppmulti_thread_server_b.Effect.{Effect, start_write, close_socket, clear_session}
use cppmulti_thread_server_b.Effect.Counts.{writes}
use cppmulti_thread_server_b.Outbox.{Outbox, Promise}
use cppmulti_thread_server_b.Session.{CSession, close}
use cppmulti_thread_server_b.Session.Write.{write_front, enqueue, send, handle_write}

module _ (p : Platform) where
  pub send_full :
      (s : CSession) (msg : List ℕ) (msg_id : ℤ)
      → max_sendque < length s.send_queue
      → send p s msg msg_id ≡ done (s, [])
  unfolding send
  send_full s msg msg_id m = rw (lt→ltb _ _ m) refl

  pub send-empty :
      (s : CSession) (msg : List ℕ) (msg_id : ℤ)
      → s.send_queue ≡ []
      → send p s msg msg_id
        ≡ done (record s { send_queue = sent msg_id msg ∷ [] }, start_write (frame msg_id msg) ∷ [])
  unfolding send enqueue write_front
  send-empty s msg msg_id q =
      rw q (rw (send_node-frame p msg_id msg (0 ∷ [])) (rw (send_buffer-sent msg_id msg) refl))

  pub send_first :
      (s : CSession) (msg : List ℕ) (msg_id : ℤ)
      → s.send_queue ≡ []
      → (s' : CSession) × (send p s msg msg_id ≡ done (s', start_write (frame msg_id msg) ∷ []))
        × (s'.send_queue ≡ sent msg_id msg ∷ [])
  send_first s msg msg_id q =
      (record s { send_queue = sent msg_id msg ∷ [] }, send-empty s msg msg_id q, refl)

  pub send-busy :
      (s : CSession) (msg : List ℕ) (msg_id : ℤ) (n : SendNode) (ns : List SendNode)
      → s.send_queue ≡ n ∷ ns
      → length (n ∷ ns) ≤ max_sendque
      → send p s msg msg_id ≡ done (record s { send_queue = n ∷ (ns ++ sent msg_id msg ∷ []) }, [])
  unfolding send enqueue
  send-busy s msg msg_id n ns q m = rw q (
      rw (ge→ltb max_sendque (length (n ∷ ns)) m, send_node-frame p msg_id msg (0 ∷ []))
        (rw (lt→ltb 0 (length (n ∷ ns)) (omega arith)) refl))

  pub send_later :
      (s : CSession) (msg : List ℕ) (msg_id : ℤ) (n : SendNode) (ns : List SendNode)
      → s.send_queue ≡ n ∷ ns
      → length (n ∷ ns) ≤ max_sendque
      → (s' : CSession) × (send p s msg msg_id ≡ done (s', []))
        × (s'.send_queue ≡ n ∷ (ns ++ sent msg_id msg ∷ []))
  send_later s msg msg_id n ns q m = (
    record s { send_queue = n ∷ (ns ++ sent msg_id msg ∷ []) },
    send-busy s msg msg_id n ns q m,
    refl,
  )

  pub handle_write-last :
      (s : CSession) (n : SendNode)
      → s.send_queue ≡ n ∷ []
      → handle_write s false ≡ done (record s { send_queue = [] }, [])
  unfolding handle_write
  handle_write-last s n q = rw (q, handle_write) refl

  pub write_last :
      (s : CSession) (n : SendNode)
      → s.send_queue ≡ n ∷ []
      → (s' : CSession) × (handle_write s false ≡ done (s', [])) × (s'.send_queue ≡ [])
  write_last s n q = (record s { send_queue = [] }, handle_write-last s n q, refl)

  pub handle_write-next :
      (s : CSession) (n : SendNode) (msg_id : ℤ) (msg : List ℕ) (ns : List SendNode)
      → s.send_queue ≡ n ∷ sent msg_id msg ∷ ns
      → handle_write s false
        ≡ done (record s { send_queue = sent msg_id msg ∷ ns }, start_write (frame msg_id msg) ∷ [])
  unfolding handle_write write_front
  handle_write-next s n msg_id msg ns q =
      rw (q, handle_write) (rw (send_buffer-sent msg_id msg) refl)

  pub write_next :
      (s : CSession) (n : SendNode) (msg_id : ℤ) (msg : List ℕ) (ns : List SendNode)
      → s.send_queue ≡ n ∷ sent msg_id msg ∷ ns
      → (s' : CSession) × (handle_write s false ≡ done (s', start_write (frame msg_id msg) ∷ []))
        × (s'.send_queue ≡ sent msg_id msg ∷ ns)
  write_next s n msg_id msg ns q =
      (record s { send_queue = sent msg_id msg ∷ ns }, handle_write-next s n msg_id msg ns q, refl)

  pub write_failed :
      (s : CSession)
      → (s' : CSession) × (es : List Effect) × (handle_write s true ≡ done (s', es))
        × (writes es ≡ [])
        × (s'.send_queue ≡ s.send_queue)
  unfolding handle_write close
  write_failed s =
      (record s { b_close = true }, close_socket ∷ clear_session s.uuid ∷ [], refl, refl, refl)

  -- The longest text is that of an `int` length with the head and the zero behind it.
  abbrev pub session_outbox : Outbox
  session_outbox = record {
    Session = CSession;
    send_queue = λ s. s.send_queue;
    max_sendque = max_sendque;
    max_text = 2 ^ 31 - 6;
    send = send p;
    handle_write = handle_write;
  }

  pub session_outbox-Promise : Promise session_outbox
  session_outbox-Promise = record {
    send_full = λ s msg msg_id f m. send_full s msg msg_id m;
    send_first = λ s msg msg_id f q. send_first s msg msg_id q;
    send_later = λ s msg msg_id n ns f q m. send_later s msg msg_id n ns q m;
    write_last = write_last;
    write_next = write_next;
    write_failed = write_failed;
  }
