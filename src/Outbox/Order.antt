-- ===== src/Outbox/Order.antt =====
-- The order of packets on the wire, for every implementation of `Outbox`.
use cppmulti_thread_server_b.Prelude.{
  ℕ, suc, ◌+◌, ◌≤◌, ◌<◌, ◌≡◌, refl, ap, sym, ◌∙◌, inl, inr, List, [], ◌∷◌, ◌++◌, ℤ, length,
  append-nil, append_assoc, arith, ltb, Bool-cases, ltb→lt, ltb→ge, length-append, lt→ltb, ge→ltb,
}
use cppmulti_thread_server_b.Memory.{done}
use cppmulti_thread_server_b.MsgNode.Frame.{frame, sent}
use cppmulti_thread_server_b.Outbox.{Outbox, Promise}
use cppmulti_thread_server_b.Outbox.Line.{
  Event, sends, written, failed, nodes, packets, first, Line, step, run, InOrder, IsSendable,
  AreSendable,
}

pub length-nodes : (ms : List (ℤ × List ℕ)) → length (nodes ms) ≡ length ms
length-nodes [] = refl
length-nodes ((i, m) ∷ ms) = ap suc (length-nodes ms)

pub nodes-append :
    (ms : List (ℤ × List ℕ)) (i : ℤ) (m : List ℕ)
    → nodes (ms ++ (i, m) ∷ []) ≡ nodes ms ++ sent i m ∷ []
nodes-append [] i m = refl
nodes-append ((j, n) ∷ ms) i m = ap (λ t. sent j n ∷ t) (nodes-append ms i m)

packets-append :
    (ms : List (ℤ × List ℕ)) (i : ℤ) (m : List ℕ)
    → packets (ms ++ (i, m) ∷ []) ≡ packets ms ++ frame i m ∷ []
packets-append [] i m = refl
packets-append ((j, n) ∷ ms) i m = ap (λ t. frame j n ∷ t) (packets-append ms i m)

module _ (o : Outbox) (k : Promise o) where
  open o use {Session, send_queue, max_sendque, max_text, send, handle_write}

  size : (l : Line o) (v : InOrder o l) → length (send_queue l.session) ≡ length v.waiting
  size l v = ap length v.queue ∙ length-nodes v.waiting

  full-InOrder :
      (l : Line o) (msg_id : ℤ) (msg : List ℕ)
      → length msg ≤ max_text
      → max_sendque < length (send_queue l.session)
      → InOrder o l
      → (l' : Line o) × (step o l (sends msg_id msg) ≡ done l') × InOrder o l'
  unfolding step
  full-InOrder l msg_id msg f m v = (
    record l { under_way = l.under_way ++ [] },
    rw (k.send_full l.session msg msg_id f m) (rw (lt→ltb _ _ m) refl),
    record {
      gone = v.gone;
      waiting = v.waiting;
      queue = v.queue;
      one = append-nil l.under_way ∙ v.one;
      on_wire = v.on_wire;
      all = v.all;
      bounded = v.bounded;
    },
  )

  taken-InOrder :
      (l : Line o) (msg_id : ℤ) (msg : List ℕ) (gone waiting : List (ℤ × List ℕ))
      → length msg ≤ max_text
      → length (send_queue l.session) ≤ max_sendque
      → send_queue l.session ≡ nodes waiting
      → l.under_way ≡ first waiting
      → l.wire ≡ packets gone
      → l.taken ≡ gone ++ waiting
      → (l' : Line o) × (step o l (sends msg_id msg) ≡ done l') × InOrder o l'
  unfolding step
  taken-InOrder l msg_id msg gone [] f m q u w t =
      let (s', run, q') = k.send_first l.session msg msg_id f q in
      (
        record {
          session = s';
          under_way = l.under_way ++ frame msg_id msg ∷ [];
          wire = l.wire;
          taken = l.taken ++ (msg_id, msg) ∷ [];
        },
        rw run (rw (ge→ltb max_sendque (length (send_queue l.session)) m) refl),
        record {
          gone = gone;
          waiting = (msg_id, msg) ∷ [];
          queue = q';
          one = ap (λ b. b ++ frame msg_id msg ∷ []) u;
          on_wire = w;
          all = ap (λ b. b ++ (msg_id, msg) ∷ []) (t ∙ append-nil gone);
          bounded = omega arith;
        },
      )
  taken-InOrder l msg_id msg gone ((j, n) ∷ ws) f m q u w t =
      let (s', run, q') =
        k.send_later l.session msg msg_id (sent j n) (nodes ws) f q (omega (arith, ap length q)) in
      (
        record {
          session = s';
          under_way = l.under_way ++ [];
          wire = l.wire;
          taken = l.taken ++ (msg_id, msg) ∷ [];
        },
        rw run (rw (ge→ltb max_sendque (length (send_queue l.session)) m) refl),
        record {
          gone = gone;
          waiting = (j, n) ∷ (ws ++ (msg_id, msg) ∷ []);
          queue = q' ∙ ap (λ b. sent j n ∷ b) (sym (nodes-append ws msg_id msg));
          one = append-nil l.under_way ∙ u;
          on_wire = w;
          all =
              ap (λ b. b ++ (msg_id, msg) ∷ []) t
              ∙ append_assoc gone ((j, n) ∷ ws) ((msg_id, msg) ∷ []);
          bounded =
              omega (arith, ap length q, length-nodes ws, length-append ws ((msg_id, msg) ∷ []));
        },
      )

  step-idle : (l : Line o) → l.under_way ≡ [] → step o l written ≡ done l
  unfolding step
  step-idle l u = ground arith

  written-InOrder :
      (l : Line o) (gone waiting : List (ℤ × List ℕ))
      → send_queue l.session ≡ nodes waiting
      → l.under_way ≡ first waiting
      → l.wire ≡ packets gone
      → l.taken ≡ gone ++ waiting
      → length waiting ≤ max_sendque + 1
      → (l' : Line o) × (step o l written ≡ done l') × InOrder o l'
  unfolding step
  written-InOrder l gone [] q u w t b = (
    l,
    step-idle l u,
    record { gone = gone; waiting = []; queue = q; one = u; on_wire = w; all = t; bounded = b },
  )
  written-InOrder l gone ((i, m) ∷ []) q u w t b =
      let (s', run, q') = k.write_last l.session (sent i m) q in
      (
        record { session = s'; under_way = []; wire = l.wire ++ frame i m ∷ []; taken = l.taken },
        rw (u, step) (rw run refl),
        record {
          gone = gone ++ (i, m) ∷ [];
          waiting = [];
          queue = q';
          one = refl;
          on_wire = ap (λ x. x ++ frame i m ∷ []) w ∙ sym (packets-append gone i m);
          all = t ∙ sym (append-nil (gone ++ (i, m) ∷ []));
          bounded = omega arith;
        },
      )
  written-InOrder l gone ((i, m) ∷ (j, n) ∷ ws) q u w t b =
      let (s', run, q') = k.write_next l.session (sent i m) j n (nodes ws) q in
      (
        record {
          session = s';
          under_way = frame j n ∷ [];
          wire = l.wire ++ frame i m ∷ [];
          taken = l.taken;
        },
        rw (u, step) (rw run refl),
        record {
          gone = gone ++ (i, m) ∷ [];
          waiting = (j, n) ∷ ws;
          queue = q';
          one = refl;
          on_wire = ap (λ x. x ++ frame i m ∷ []) w ∙ sym (packets-append gone i m);
          all = t ∙ sym (append_assoc gone ((i, m) ∷ []) ((j, n) ∷ ws));
          bounded = omega arith;
        },
      )

  pub step-InOrder :
      (l : Line o) (e : Event)
      → IsSendable o e
      → InOrder o l
      → (l' : Line o) × (step o l e ≡ done l') × InOrder o l'
  step-InOrder l (sends msg_id msg) f v =
      elim (Bool-cases (ltb max_sendque (length (send_queue l.session)))) [
        | inl full ↦ full-InOrder l msg_id msg f (ltb→lt _ _ full) v
        | inr room ↦
            taken-InOrder l msg_id msg v.gone v.waiting f (ltb→ge _ _ room) v.queue v.one v.on_wire
              v.all
      ]
  step-InOrder l failed f v = absurd f
  step-InOrder l written f v =
      written-InOrder l v.gone v.waiting v.queue v.one v.on_wire v.all v.bounded

  -- Whatever callers and completions come, no step faults, and the packets on the wire are the
  -- packets that `Send` has taken, in the order in which it took them, each written whole, one after
  -- the other; what is taken and not yet written waits in the queue, of at most one packet more than
  -- the limit, and exactly the first of those is under way.
  pub run-InOrder :
      (l : Line o) (es : List Event)
      → AreSendable o es
      → InOrder o l
      → (l' : Line o) × (run o l es ≡ done l') × InOrder o l'
  unfolding run
  run-InOrder l [] f v = (l, refl, v)
  run-InOrder l (e ∷ es) f v =
      let (l₁, one, v₁) = step-InOrder l e f.0 v in
      let (l₂, rest, v₂) = run-InOrder l₁ es f.1 v₁ in (l₂, rw one rest, v₂)
