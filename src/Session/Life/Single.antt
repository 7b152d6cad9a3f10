-- ===== src/Session/Life/Single.antt =====
-- One call of a callback session's life keeps at most one read and one write under way.
use cppmulti_thread_server_b.Prelude.{
  ℕ, suc, ◌+◌, ◌≤◌, ◌<◌, ◌≡◌, refl, ap, sym, ◌∙◌, List, [], ◌∷◌, ◌++◌, true, false, ℤ, length,
  arith, length-append,
}
use cppmulti_thread_server_b.Memory.{done}
use cppmulti_thread_server_b.Platform.{Platform}
use cppmulti_thread_server_b.MsgNode.{max_sendque}
use cppmulti_thread_server_b.MsgNode.Frame.{sent}
use cppmulti_thread_server_b.Effect.{Effect}
use cppmulti_thread_server_b.Effect.Counts.{reads, writes}
use cppmulti_thread_server_b.Outbox.Line.{nodes}
use cppmulti_thread_server_b.Outbox.Order.{length-nodes, nodes-append}
use cppmulti_thread_server_b.Session.{CSession, close}
use cppmulti_thread_server_b.Session.Write.Promise.{
  send_full, send_first, send_later, write_last, write_next,
}
use cppmulti_thread_server_b.Session.Life.{Life, sends, write_done, after, step, run}

-- At most one read and one write are under way, and the queue is not empty while a write is.
pub record IsSingle (l : Life) : Type 0 where
  pub one_read : l.reading ≤ 1
  pub one_write : l.writing ≤ 1
  pub waiting : List (ℤ × List ℕ)
  pub queue : l.session.send_queue ≡ nodes waiting
  pub busy : l.writing ≤ length waiting
  pub bounded : length waiting ≤ max_sendque + 1

-- A call that leaves the queue alone and writes nothing.
quiet :
    (l : Life) (n : ℕ) (s : CSession) (es : List Effect)
    → IsSingle l
    → s.send_queue ≡ l.session.send_queue
    → n + reads es ≤ 1
    → writes es ≡ []
    → (l' : Life) × (after n l.writing (s, es) ≡ done l') × IsSingle l'
unfolding after
quiet l n s es v q r w = (
  _,
  refl,
  record {
    one_read = r;
    one_write = omega (arith, ap length w, v.one_write);
    waiting = v.waiting;
    queue = q ∙ v.queue;
    busy = omega (arith, ap length w, v.busy);
    bounded = v.bounded;
  },
)

module _ (p : Platform) where
  pub full-IsSingle :
      (l : Life) (msg_id : ℤ) (msg : List ℕ)
      → max_sendque < length l.session.send_queue
      → IsSingle l
      → (l' : Life) × (step p l (sends msg_id msg) ≡ done l') × IsSingle l'
  unfolding step
  full-IsSingle l msg_id msg m v =
      let (l', run, v') = quiet l l.reading l.session [] v refl (omega (arith, v.one_read)) refl in
      (l', rw (send_full p l.session msg msg_id m) run, v')

  pub taken-IsSingle :
      (l : Life) (msg_id : ℤ) (msg : List ℕ) (waiting : List (ℤ × List ℕ))
      → l.reading ≤ 1
      → l.writing ≤ 1
      → l.session.send_queue ≡ nodes waiting
      → l.writing ≤ length waiting
      → length l.session.send_queue ≤ max_sendque
      → (l' : Life) × (step p l (sends msg_id msg) ≡ done l') × IsSingle l'
  unfolding step after
  taken-IsSingle l msg_id msg [] r w q b m =
      let (s', sent_it, q') = send_first p l.session msg msg_id q in
      (
        record { session = s'; reading = l.reading + 0; writing = l.writing + 1 },
        rw sent_it refl,
        record {
          one_read = omega arith;
          one_write = omega arith;
          waiting = (msg_id, msg) ∷ [];
          queue = q';
          busy = omega arith;
          bounded = omega arith;
        },
      )
  taken-IsSingle l msg_id msg ((j, n) ∷ ws) r w q b m =
      let small : length (sent j n ∷ nodes ws) ≤ max_sendque = omega (arith, ap length q) in
      let (s', sent_it, q') = send_later p l.session msg msg_id (sent j n) (nodes ws) q small in
      (
        record { session = s'; reading = l.reading + 0; writing = l.writing + 0 },
        rw sent_it refl,
        record {
          one_read = omega arith;
          one_write = omega arith;
          waiting = (j, n) ∷ (ws ++ (msg_id, msg) ∷ []);
          queue = q' ∙ ap (λ x. sent j n ∷ x) (sym (nodes-append ws msg_id msg));
          busy = omega (arith, length-append ws ((msg_id, msg) ∷ []));
          bounded = omega (arith, length-nodes ws, length-append ws ((msg_id, msg) ∷ []));
        },
      )

  pub written-IsSingle :
      (l : Life) (n : ℕ) (waiting : List (ℤ × List ℕ))
      → l.reading ≤ 1
      → l.writing ≡ suc n
      → n ≡ 0
      → l.session.send_queue ≡ nodes waiting
      → suc n ≤ length waiting
      → length waiting ≤ max_sendque + 1
      → (l' : Life) × (step p l (write_done false) ≡ done l') × IsSingle l'
  unfolding step after
  written-IsSingle l n [] r w z q b m = absurd (omega arith)
  written-IsSingle l n ((i, t) ∷ []) r w z q b m =
      let (s', ran, q') = write_last p l.session (sent i t) q in
      (
        record { session = s'; reading = l.reading + 0; writing = n + 0 },
        rw (w, step) (rw ran refl),
        record {
          one_read = omega arith;
          one_write = omega arith;
          waiting = [];
          queue = q';
          busy = omega arith;
          bounded = omega arith;
        },
      )
  written-IsSingle l n ((i, t) ∷ (j, u) ∷ ws) r w z q b m =
      let (s', ran, q') = write_next p l.session (sent i t) j u (nodes ws) q in
      (
        record { session = s'; reading = l.reading + 0; writing = n + 1 },
        rw (w, step) (rw ran refl),
        record {
          one_read = omega arith;
          one_write = omega arith;
          waiting = (j, u) ∷ ws;
          queue = q';
          busy = omega arith;
          bounded = omega arith;
        },
      )

  pub closed-IsSingle :
      (l : Life) (n m : ℕ)
      → n ≤ l.reading
      → m ≤ l.writing
      → IsSingle l
      → (l' : Life) × (after n m (close l.session) ≡ done l') × IsSingle l'
  unfolding after close
  closed-IsSingle l n m h k v = (
    record { session = record l.session { b_close = true }; reading = n + 0; writing = m + 0 },
    refl,
    record {
      one_read = omega (arith, v.one_read);
      one_write = omega (arith, v.one_write);
      waiting = v.waiting;
      queue = v.queue;
      busy = omega (arith, v.busy);
      bounded = v.bounded;
    },
  )
