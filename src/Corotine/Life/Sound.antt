-- ===== src/Corotine/Life/Sound.antt =====
-- A call of `Send` in the life of a session of the coroutine server.
use cppmulti_thread_server_b.Prelude.{
  ℕ, ◌+◌, ◌-◌, ◌^◌, ◌≤◌, ◌≡◌, refl, ap, sym, ◌∙◌, append-nil, inl, inr, List, [], ◌∷◌, ◌++◌, Bool,
  true, false, ℤ, length, length-append, arith, ltb, Bool-cases, ltb→lt, ltb→ge,
}
use cppmulti_thread_server_b.Memory.{done}
use cppmulti_thread_server_b.Platform.{Platform}
use cppmulti_thread_server_b.MsgNode.Head.{IsHead}
use cppmulti_thread_server_b.MsgNode.Frame.{frame, sent}
use cppmulti_thread_server_b.Effect.{Effect, start_write}
use cppmulti_thread_server_b.Effect.Counts.{writes, writes-append, clears, clears-append}
use cppmulti_thread_server_b.Outbox.Line.{nodes}
use cppmulti_thread_server_b.Outbox.Order.{length-nodes, nodes-append}
use cppmulti_thread_server_b.Corotine.{max_sendque}
use cppmulti_thread_server_b.Corotine.Start.Good.{IsClean}
use cppmulti_thread_server_b.Corotine.Write.Promise.{send_full, send-empty, send-busy}
use cppmulti_thread_server_b.Corotine.Life.{Life, Event, sends, turns, write_done, wrote, step}

-- A text that can be sent.
abbrev pub IsFine : Event → Type 0
IsFine (sends msg_id msg) = length msg ≤ 2 ^ 15 - 5
IsFine turns = Unit {0}
IsFine (write_done ec) = Unit {0}

abbrev pub AreFine : List Event → Type 0
AreFine [] = Unit {0}
AreFine (e ∷ es) = IsFine e × AreFine es

abbrev pub one_if : Bool → ℕ
one_if true = 1
one_if false = 0

-- The last write that was asked for is of the first packet of the queue.
pub record IsOfFirst (log : List Effect) (waiting : List (ℤ × List ℕ)) : Type 0 where
  pub before : List (List ℕ)
  pub msg_id : ℤ
  pub msg : List ℕ
  pub rest : List (ℤ × List ℕ)
  pub last : writes log ≡ before ++ frame msg_id msg ∷ []
  pub at_front : waiting ≡ (msg_id, msg) ∷ rest

pub fresh-IsOfFirst :
    (log : List Effect) (i : ℤ) (t : List ℕ) (ws : List (ℤ × List ℕ))
    → IsOfFirst (log ++ start_write (frame i t) ∷ []) ((i, t) ∷ ws)
fresh-IsOfFirst log i t ws = record {
  before = writes log;
  msg_id = i;
  msg = t;
  rest = ws;
  last = writes-append log (start_write (frame i t) ∷ []);
  at_front = refl;
}

pub quiet-IsOfFirst :
    (log es : List Effect) (ws : List (ℤ × List ℕ))
    → writes es ≡ []
    → IsOfFirst log ws
    → IsOfFirst (log ++ es) ws
quiet-IsOfFirst log es ws e v = record {
  before = v.before;
  msg_id = v.msg_id;
  msg = v.msg;
  rest = v.rest;
  last = writes-append log es ∙ ap (λ x. writes log ++ x) e ∙ append-nil (writes log) ∙ v.last;
  at_front = v.at_front;
}

grown-IsOfFirst :
    (log : List Effect) (ws vs : List (ℤ × List ℕ)) → IsOfFirst log ws → IsOfFirst log (ws ++ vs)
grown-IsOfFirst log ws vs v = record {
  before = v.before;
  msg_id = v.msg_id;
  msg = v.msg;
  rest = v.rest ++ vs;
  last = v.last;
  at_front = ap (λ x. x ++ vs) v.at_front;
}

-- At most one write is under way, of the first packet of the queue; a coroutine that runs can go on, and
-- one that has returned has left a closed session; and a closed session has been taken off the server.
-- `failed` is whether a write has failed: then none is under way and none will be started.
pub record IsSound (l : Life) : Type 0 where
  pub one_write : l.writing ≤ 1
  pub waiting : List (ℤ × List ℕ)
  pub queue : l.session.send_que ≡ nodes waiting
  pub busy : l.writing ≤ length waiting
  pub front : l.writing ≡ 1 → IsOfFirst l.log waiting
  pub bounded : length waiting ≤ max_sendque + 1
  pub head : l.over ≡ false → IsHead l.session.recv_head_node
  pub clean : IsClean l.stream
  pub closed : l.over ≡ true → l.session.b_close ≡ true
  pub cleared : l.session.b_close ≡ true → 1 ≤ clears l.log
  pub failed : Bool
  pub stalled : failed ≡ true → (l.writing ≡ 0) × (1 ≤ length waiting)
  pub at_most : clears l.log ≤ one_if l.over + one_if failed

module _ (p : Platform) where
  -- The writes have changed and nothing else; `ws` are the packets of the queue now.
  pub wrote-IsSound :
      (l : Life) (n : ℕ) (ws : List (ℤ × List ℕ)) (es : List Effect)
      → n + length (writes es) ≤ 1
      → n + length (writes es) ≤ length ws
      → (n + length (writes es) ≡ 1 → IsOfFirst (l.log ++ es) ws)
      → length ws ≤ max_sendque + 1
      → clears es ≡ 0
      → (failed : Bool) → (failed ≡ true → (n + length (writes es) ≡ 0) × (1 ≤ length ws))
      → clears l.log ≤ one_if l.over + one_if failed
      → IsSound l
      → (l' : Life) × (wrote l n (record l.session { send_que = nodes ws }, es) ≡ done l')
        × IsSound l'
  unfolding wrote
  wrote-IsSound l n ws es one b o m c failed k a v = (
    _,
    refl,
    record {
      one_write = one;
      waiting = ws;
      queue = refl;
      busy = b;
      front = o;
      bounded = m;
      head = λ x. v.head x;
      clean = v.clean;
      closed = v.closed;
      cleared = λ x. omega (arith, v.cleared x, clears-append l.log es);
      failed = failed;
      stalled = k;
      at_most = omega (arith, a, clears-append l.log es, c);
    },
  )

  taken-IsSound :
      (l : Life) (msg_id : ℤ) (msg : List ℕ) (ws : List (ℤ × List ℕ))
      → length msg ≤ 2 ^ 15 - 5
      → l.session.send_que ≡ nodes ws
      → length l.session.send_que ≤ max_sendque
      → l.writing ≤ length ws
      → (l.writing ≡ 1 → IsOfFirst l.log ws)
      → (v : IsSound l) → (v.failed ≡ true → (l.writing ≡ 0) × (1 ≤ length ws))
      → (l' : Life) × (step p l (sends msg_id msg) ≡ done l') × IsSound l'
  unfolding step
  taken-IsSound l msg_id msg [] f q m b o v k =
      let (l', ran, v') =
        wrote-IsSound l l.writing ((msg_id, msg) ∷ []) (start_write (frame msg_id msg) ∷ [])
          (omega arith) (omega arith) (λ x. fresh-IsOfFirst l.log msg_id msg []) (omega arith) refl
          v.failed (λ e. absurd (omega (arith, (k e).1))) v.at_most v in
      (l', rw (send-empty p l.session msg msg_id f q) ran, v')
  taken-IsSound l msg_id msg ((j, n) ∷ ws) f q m b o v k =
      let small : length (sent j n ∷ nodes ws) ≤ max_sendque = omega (arith, ap length q) in
      let all = (j, n) ∷ (ws ++ (msg_id, msg) ∷ []) in
      let size : length all ≡ 2 + length ws =
        omega (arith, length-append ws ((msg_id, msg) ∷ [])) in
      let (l', ran, v') =
        wrote-IsSound l l.writing all [] (omega (arith, v.one_write)) (omega (arith, size))
          (λ x.
            quiet-IsOfFirst l.log [] all refl
              (grown-IsOfFirst l.log ((j, n) ∷ ws) ((msg_id, msg) ∷ []) (o (omega (arith, x)))))
          (omega (arith, size, length-nodes ws)) refl v.failed
          (λ e. (omega (arith, (k e).0), omega (arith, size))) v.at_most v in
      (
        l',
        rw (send-busy p l.session msg msg_id (sent j n) (nodes ws) f q small)
            (rw (sym (nodes-append ws msg_id msg)) ran),
        v',
      )

  pub sends-IsSound :
      (l : Life) (msg_id : ℤ) (msg : List ℕ)
      → length msg ≤ 2 ^ 15 - 5
      → IsSound l
      → (l' : Life) × (step p l (sends msg_id msg) ≡ done l') × IsSound l'
  unfolding step wrote
  sends-IsSound l msg_id msg f v = elim (Bool-cases (ltb max_sendque (length l.session.send_que))) [
    | inl full ↦ (
      record l { writing = l.writing + 0; log = l.log ++ [] },
      rw (send_full p l.session msg msg_id (ltb→lt _ _ full)) refl,
      record {
        one_write = omega (arith, v.one_write);
        waiting = v.waiting;
        queue = v.queue;
        busy = omega (arith, v.busy);
        front = λ x. quiet-IsOfFirst l.log [] v.waiting refl (v.front (omega (arith, x)));
        bounded = v.bounded;
        head = v.head;
        clean = v.clean;
        closed = v.closed;
        cleared = λ o. omega (arith, v.cleared o, clears-append l.log []);
        failed = v.failed;
        stalled = λ e. (omega (arith, (v.stalled e).0), (v.stalled e).1);
        at_most = omega (arith, v.at_most, clears-append l.log []);
      },
    )
    | inr room ↦
        taken-IsSound l msg_id msg v.waiting f v.queue (ltb→ge _ _ room) v.busy v.front v v.stalled
  ]
