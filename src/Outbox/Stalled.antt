-- ===== src/Outbox/Stalled.antt =====
-- A session whose write has failed, for every implementation of `Outbox`.
use cppmulti_thread_server_b.Prelude.{
  ℕ, ◌+◌, ◌≤◌, ◌<◌, ◌≡◌, refl, ap, sym, ◌∙◌, inl, inr, List, [], ◌∷◌, ◌++◌, ℤ, length, append_assoc,
  arith, ltb, Bool-cases, ltb→lt, ltb→ge, length-append, lt→ltb, ge→ltb,
}
use cppmulti_thread_server_b.Memory.{done}
use cppmulti_thread_server_b.MsgNode.Frame.{sent}
use cppmulti_thread_server_b.Outbox.{Outbox, Promise}
use cppmulti_thread_server_b.Outbox.Line.{
  Event, sends, written, failed, nodes, packets, Line, step, run, InOrder, Stalled, IsAny, AreAny,
  first,
}
use cppmulti_thread_server_b.Outbox.Order.{length-nodes, nodes-append}

module _ (o : Outbox) (k : Promise o) where
  open o use {send_queue, max_sendque, max_text}

  full-Stalled :
      (l : Line o) (msg_id : ℤ) (msg : List ℕ)
      → length msg ≤ max_text
      → max_sendque < length (send_queue l.session)
      → Stalled o l
      → (l' : Line o) × (step o l (sends msg_id msg) ≡ done l') × Stalled o l' × (l'.wire ≡ l.wire)
  unfolding step
  full-Stalled l msg_id msg f m v = (
    record l { under_way = l.under_way ++ [] },
    rw (k.send_full l.session msg msg_id f m) (rw (lt→ltb _ _ m) refl),
    record {
      gone = v.gone;
      waiting = v.waiting;
      queue = v.queue;
      none_under_way = ap (λ u. u ++ []) v.none_under_way;
      some_wait = v.some_wait;
      on_wire = v.on_wire;
      all = v.all;
      bounded = v.bounded;
    },
    refl,
  )

  taken-Stalled :
      (l : Line o) (msg_id : ℤ) (msg : List ℕ) (gone waiting : List (ℤ × List ℕ))
      → length msg ≤ max_text
      → length (send_queue l.session) ≤ max_sendque
      → 0 < length waiting
      → send_queue l.session ≡ nodes waiting
      → l.under_way ≡ []
      → l.wire ≡ packets gone
      → l.taken ≡ gone ++ waiting
      → (l' : Line o) × (step o l (sends msg_id msg) ≡ done l') × Stalled o l' × (l'.wire ≡ l.wire)
  unfolding step
  taken-Stalled l msg_id msg gone [] f m n q u w t = absurd (omega arith)
  taken-Stalled l msg_id msg gone ((j, i) ∷ ws) f m n q u w t =
      let (s', run, q') =
        k.send_later l.session msg msg_id (sent j i) (nodes ws) f q (omega (arith, ap length q)) in
      (
        record {
          session = s';
          under_way = l.under_way ++ [];
          wire = l.wire;
          taken = l.taken ++ (msg_id, msg) ∷ [];
        },
        rw run (rw (ge→ltb max_sendque (length (send_queue l.session)) m) refl),
        record {
          gone = gone;
          waiting = (j, i) ∷ (ws ++ (msg_id, msg) ∷ []);
          queue = q' ∙ ap (λ b. sent j i ∷ b) (sym (nodes-append ws msg_id msg));
          none_under_way = ap (λ x. x ++ []) u;
          some_wait = omega arith;
          on_wire = w;
          all =
              ap (λ b. b ++ (msg_id, msg) ∷ []) t
              ∙ append_assoc gone ((j, i) ∷ ws) ((msg_id, msg) ∷ []);
          bounded =
              omega (arith, ap length q, length-nodes ws, length-append ws ((msg_id, msg) ∷ []));
        },
        refl,
      )

  idle-Stalled :
      (l : Line o) (e : Event)
      → (step o l e ≡ done l)
      → Stalled o l
      → (l' : Line o) × (step o l e ≡ done l') × Stalled o l' × (l'.wire ≡ l.wire)
  idle-Stalled l e run v = (l, run, v, refl)

  nothing_written : (l : Line o) → l.under_way ≡ [] → step o l written ≡ done l
  unfolding step
  nothing_written l u = ground arith

  nothing_failed : (l : Line o) → l.under_way ≡ [] → step o l failed ≡ done l
  unfolding step
  nothing_failed l u = ground arith

  pub step-Stalled :
      (l : Line o) (e : Event)
      → IsAny o e
      → Stalled o l
      → (l' : Line o) × (step o l e ≡ done l') × Stalled o l' × (l'.wire ≡ l.wire)
  step-Stalled l (sends msg_id msg) f v =
      elim (Bool-cases (ltb max_sendque (length (send_queue l.session)))) [
        | inl full ↦ full-Stalled l msg_id msg f (ltb→lt _ _ full) v
        | inr room ↦
            taken-Stalled l msg_id msg v.gone v.waiting f (ltb→ge _ _ room) v.some_wait v.queue
              v.none_under_way v.on_wire v.all
      ]
  step-Stalled l written f v = idle-Stalled l written (nothing_written l v.none_under_way) v
  step-Stalled l failed f v = idle-Stalled l failed (nothing_failed l v.none_under_way) v

  run-Stalled :
      (l : Line o) (es : List Event)
      → AreAny o es
      → Stalled o l
      → (l' : Line o) × (run o l es ≡ done l') × Stalled o l' × (l'.wire ≡ l.wire)
  unfolding run
  run-Stalled l [] f v = (l, refl, v, refl)
  run-Stalled l (e ∷ es) f v =
      let (l₁, one, v₁, w₁) = step-Stalled l e f.0 v in
      let (l₂, rest, v₂, w₂) = run-Stalled l₁ es f.1 v₁ in (l₂, rw one rest, v₂, w₂ ∙ w₁)

  fails-Stalled :
      (l : Line o) (gone waiting : List (ℤ × List ℕ))
      → send_queue l.session ≡ nodes waiting
      → l.under_way ≡ first waiting
      → 0 < length waiting
      → l.wire ≡ packets gone
      → l.taken ≡ gone ++ waiting
      → length waiting ≤ max_sendque + 1
      → (l' : Line o) × (step o l failed ≡ done l') × Stalled o l' × (l'.wire ≡ l.wire)
  unfolding step
  fails-Stalled l gone [] q u n w t b = absurd (omega arith)
  fails-Stalled l gone ((i, m) ∷ ws) q u n w t b =
      let (s', es, run, none, same) = k.write_failed l.session in
      (
        record l { session = s'; under_way = [] },
        rw (u, step) (rw run (rw none refl)),
        record {
          gone = gone;
          waiting = (i, m) ∷ ws;
          queue = same ∙ q;
          none_under_way = refl;
          some_wait = omega arith;
          on_wire = w;
          all = t;
          bounded = b;
        },
        refl,
      )

  -- A write that fails is the last: whatever callers and completions come later, no step faults,
  -- nothing more is written, and `Send` goes on to take packets up to its limit.
  pub run-failed :
      (l : Line o) (es : List Event)
      → AreAny o es
      → 0 < length l.under_way
      → InOrder o l
      → (l' : Line o) × (run o l (failed ∷ es) ≡ done l') × Stalled o l' × (l'.wire ≡ l.wire)
  unfolding run
  run-failed l es f n v =
      let some_wait : 0 < length v.waiting =
        omega (arith, ap length v.one, length-first v.waiting) in
      let (l₁, one, v₁, w₁) =
        fails-Stalled l v.gone v.waiting v.queue v.one some_wait v.on_wire v.all v.bounded in
      let (l₂, rest, v₂, w₂) = run-Stalled l₁ es f v₁ in (l₂, rw one rest, v₂, w₂ ∙ w₁)
    where
      length-first : (ms : List (ℤ × List ℕ)) → length (first ms) ≤ length ms
      length-first [] = omega arith
      length-first ((i, m) ∷ ms) = omega arith
