-- ===== src/Corotine/Write/Promise.antt =====
-- `Send` and `HandleWrite` of the coroutine server keep the promise of `Outbox`.
use cppmulti_thread_server_b.Prelude.{
  ℕ, ◌+◌, ◌-◌, ◌^◌, ◌≤◌, ◌<◌, ◌≡◌, refl, List, [], ◌∷◌, ◌++◌, true, false, ℤ, pos, length, arith,
  lt→ltb, ge→ltb, to_short-to_u16,
}
use cppmulti_thread_server_b.Memory.{done}
use cppmulti_thread_server_b.Platform.{Platform}
use cppmulti_thread_server_b.MsgNode.{SendNode, plus_head}
use cppmulti_thread_server_b.MsgNode
use cppmulti_thread_server_b.MsgNode.Frame.{frame, sent, send_node-frame, send_buffer-sent}
use cppmulti_thread_server_b.Effect.{Effect, start_write, close_socket, clear_session}
use cppmulti_thread_server_b.Effect.Counts.{writes}
use cppmulti_thread_server_b.Outbox.{Outbox, Promise}
use cppmulti_thread_server_b.Corotine.{CSession, max_sendque, close}
use cppmulti_thread_server_b.Corotine.Write.{
  short_of, write_front, send_node, send_chars, send, handle_write,
}

module _ (p : Platform) where
  -- A length that is a `short` with the head is not changed by the conversions.
  short_length : (n : ℕ) → n ≤ 2 ^ 15 - 5 → short_of (pos n) ≡ pos n
  short_length n h = to_short-to_u16 (pos n) (omega arith)

  short_send_node :
      (msg : List ℕ) (msg_id : ℤ)
      → length msg ≤ 2 ^ 15 - 5
      → send_node p (msg ++ 0 ∷ []) (short_of (pos (length msg))) msg_id ≡ done (sent msg_id msg)
  unfolding send_node plus_head MsgNode.send_node
  short_send_node msg msg_id h = rw (short_length (length msg) h) (
      rw (to_short-to_u16 (pos (length msg + 4)) (omega arith))
        (send_node-frame p msg_id msg (0 ∷ [])))

  pub send_full :
      (s : CSession) (msg : List ℕ) (msg_id : ℤ)
      → max_sendque < length s.send_que
      → send p s msg msg_id ≡ done (s, [])
  unfolding send send_chars
  send_full s msg msg_id m = rw (lt→ltb _ _ m) refl

  pub send-empty :
      (s : CSession) (msg : List ℕ) (msg_id : ℤ)
      → length msg ≤ 2 ^ 15 - 5
      → s.send_que ≡ []
      → send p s msg msg_id
        ≡ done (record s { send_que = sent msg_id msg ∷ [] }, start_write (frame msg_id msg) ∷ [])
  unfolding send send_chars write_front
  send-empty s msg msg_id f q =
      rw q (rw (short_send_node msg msg_id f) (rw (send_buffer-sent msg_id msg) refl))

  pub send_first :
      (s : CSession) (msg : List ℕ) (msg_id : ℤ)
      → length msg ≤ 2 ^ 15 - 5
      → s.send_que ≡ []
      → (s' : CSession) × (send p s msg msg_id ≡ done (s', start_write (frame msg_id msg) ∷ []))
        × (s'.send_que ≡ sent msg_id msg ∷ [])
  send_first s msg msg_id f q =
      (record s { send_que = sent msg_id msg ∷ [] }, send-empty s msg msg_id f q, refl)

  pub send-busy :
      (s : CSession) (msg : List ℕ) (msg_id : ℤ) (n : SendNode) (ns : List SendNode)
      → length msg ≤ 2 ^ 15 - 5
      → s.send_que ≡ n ∷ ns
      → length (n ∷ ns) ≤ max_sendque
      → send p s msg msg_id ≡ done (record s { send_que = n ∷ (ns ++ sent msg_id msg ∷ []) }, [])
  unfolding send send_chars
  send-busy s msg msg_id n ns f q m = rw q (
      rw (ge→ltb max_sendque (length (n ∷ ns)) m, short_send_node msg msg_id f)
        (rw (lt→ltb 0 (length (n ∷ ns)) (omega arith)) refl))

  pub send_later :
      (s : CSession) (msg : List ℕ) (msg_id : ℤ) (n : SendNode) (ns : List SendNode)
      → length msg ≤ 2 ^ 15 - 5
      → s.send_que ≡ n ∷ ns
      → length (n ∷ ns) ≤ max_sendque
      → (s' : CSession) × (send p s msg msg_id ≡ done (s', []))
        × (s'.send_que ≡ n ∷ (ns ++ sent msg_id msg ∷ []))
  send_later s msg msg_id n ns f q m = (
    record s { send_que = n ∷ (ns ++ sent msg_id msg ∷ []) },
    send-busy s msg msg_id n ns f q m,
    refl,
  )

  pub handle_write-last :
      (s : CSession) (n : SendNode)
      → s.send_que ≡ n ∷ []
      → handle_write s false ≡ done (record s { send_que = [] }, [])
  unfolding handle_write
  handle_write-last s n q = rw (q, handle_write) refl

  pub write_last :
      (s : CSession) (n : SendNode)
      → s.send_que ≡ n ∷ []
      → (s' : CSession) × (handle_write s false ≡ done (s', [])) × (s'.send_que ≡ [])
  write_last s n q = (record s { send_que = [] }, handle_write-last s n q, refl)

  pub handle_write-next :
      (s : CSession) (n : SendNode) (msg_id : ℤ) (msg : List ℕ) (ns : List SendNode)
      → s.send_que ≡ n ∷ sent msg_id msg ∷ ns
      → handle_write s false
        ≡ done (record s { send_que = sent msg_id msg ∷ ns }, start_write (frame msg_id msg) ∷ [])
  unfolding handle_write write_front
  handle_write-next s n msg_id msg ns q =
      rw (q, handle_write) (rw (send_buffer-sent msg_id msg) refl)

  pub write_next :
      (s : CSession) (n : SendNode) (msg_id : ℤ) (msg : List ℕ) (ns : List SendNode)
      → s.send_que ≡ n ∷ sent msg_id msg ∷ ns
      → (s' : CSession) × (handle_write s false ≡ done (s', start_write (frame msg_id msg) ∷ []))
        × (s'.send_que ≡ sent msg_id msg ∷ ns)
  write_next s n msg_id msg ns q =
      (record s { send_que = sent msg_id msg ∷ ns }, handle_write-next s n msg_id msg ns q, refl)

  pub write_failed :
      (s : CSession)
      → (s' : CSession) × (es : List Effect) × (handle_write s true ≡ done (s', es))
        × (writes es ≡ [])
        × (s'.send_que ≡ s.send_que)
  unfolding handle_write close
  write_failed s =
      (record s { b_close = true }, close_socket ∷ clear_session s.uuid ∷ [], refl, refl, refl)

  -- The longest text is that of a `short` length with the head.
  abbrev pub corotine_outbox : Outbox
  corotine_outbox = record {
    Session = CSession;
    send_queue = λ s. s.send_que;
    max_sendque = max_sendque;
    max_text = 2 ^ 15 - 5;
    send = send p;
    handle_write = handle_write;
  }

  pub corotine_outbox-Promise : Promise corotine_outbox
  corotine_outbox-Promise = record {
    send_full = λ s msg msg_id f m. send_full s msg msg_id m;
    send_first = send_first;
    send_later = send_later;
    write_last = write_last;
    write_next = write_next;
    write_failed = write_failed;
  }
