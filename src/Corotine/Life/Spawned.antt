-- ===== src/Corotine/Life/Spawned.antt =====
-- What holds over the whole life of a session of the coroutine server.
use cppmulti_thread_server_b.Prelude.{
  ℕ, zero, suc, ◌+◌, ◌≤◌, ◌≡◌, refl, ap, sym, ◌∙◌, List, [], ◌∷◌, ◌++◌, Bool, true, false, ℤ,
  length, arith, if◌then◌else◌,
}
use cppmulti_thread_server_b.Memory.{Outcome, done, throws, fault, out_of_fuel, ◌>>=◌}
use cppmulti_thread_server_b.Platform.{Platform}
use cppmulti_thread_server_b.MsgNode.Head.{IsHead}
use cppmulti_thread_server_b.MsgNode.Frame.{frame, sent}
use cppmulti_thread_server_b.Effect.{start_write, close_socket, clear_session}
use cppmulti_thread_server_b.Effect.Counts.{writes, clears, clears-append}
use cppmulti_thread_server_b.Outbox.Line.{nodes}
use cppmulti_thread_server_b.Corotine.{CSession, max_sendque, close}
use cppmulti_thread_server_b.Corotine.Start.{Round, ends, again, round}
use cppmulti_thread_server_b.Corotine.Start.Good.{IsClean, IsGood, round-IsGood}
use cppmulti_thread_server_b.Corotine.Write.{handle_write}
use cppmulti_thread_server_b.Corotine.Write.Promise.{handle_write-last, handle_write-next}
use cppmulti_thread_server_b.Corotine.Life.{
  Life, Event, sends, turns, write_done, wrote, turn, step, run, spawned,
}
use cppmulti_thread_server_b.Corotine.Life.Sound.{
  IsFine, AreFine, IsSound, one_if, fresh-IsOfFirst, quiet-IsOfFirst, wrote-IsSound, sends-IsSound,
}

module _ (p : Platform) where
  turned-IsSound :
      (l : Life) (stream : List ℕ) (o : Outcome Round)
      → l.over ≡ false
      → IsGood l.session stream o
      → round p l.session (if l.session.b_close then [] else l.stream) ≡ o
      → IsSound l
      → (l' : Life) × (turn p l ≡ done l') × IsSound l'
  unfolding turn
  turned-IsSound l stream (done (ends (s, es))) o g e v = (
    record l { session = s; over = true; log = l.log ++ es },
    rw e refl,
    record {
      one_write = v.one_write;
      waiting = v.waiting;
      queue = g.2 ∙ v.queue;
      busy = v.busy;
      front = λ x. quiet-IsOfFirst l.log es v.waiting (ap writes g.1) (v.front x);
      bounded = v.bounded;
      head = λ x. absurd cc;
      clean = v.clean;
      closed = λ x. g.0;
      cleared = λ x. omega (arith, clears-append l.log es, ap clears g.1);
      failed = v.failed;
      stalled = v.stalled;
      at_most = omega (arith, clears-append l.log es, ap clears g.1, v.at_most, ap one_if o);
    },
  )
  turned-IsSound l stream (done (again s rest es)) o g e v =
      let (r, is_post, taken, same, named, head, fewer, clean, queue) = g in
      (
        record l { session = s; over = s.b_close; stream = rest; log = l.log ++ es },
        rw e refl,
        record {
          one_write = v.one_write;
          waiting = v.waiting;
          queue = queue ∙ v.queue;
          busy = v.busy;
          front = λ x. quiet-IsOfFirst l.log es v.waiting (ap writes is_post) (v.front x);
          bounded = v.bounded;
          head = λ x. head;
          clean = clean;
          closed = λ x. x;
          cleared = λ x. omega (arith, clears-append l.log es, v.cleared (sym same ∙ x));
          failed = v.failed;
          stalled = v.stalled;
          at_most =
              omega (arith, clears-append l.log es, ap clears is_post, v.at_most, ap one_if o);
        },
      )
  turned-IsSound l stream throws o g e v = absurd g
  turned-IsSound l stream fault o g e v = absurd g
  turned-IsSound l stream out_of_fuel o g e v = absurd g

  pub step-turn : (l : Life) → l.over ≡ false → step p l turns ≡ turn p l
  unfolding step
  step-turn l o = rw o refl

  pub step-written :
      (l : Life) (ec : Bool)
      → l.writing ≡ 1
      → step p l (write_done ec) ≡ (handle_write l.session ec >>= wrote l 0)
  unfolding step
  step-written l ec e = rw e refl

  turns-IsSound : (l : Life) → IsSound l → (l' : Life) × (step p l turns ≡ done l') × IsSound l'
  turns-IsSound l v = turns_at l.over refl
    where
      left : (b : Bool) → IsClean (if b then [] else l.stream)
      left true = tt
      left false = v.clean

      turns_at : (o : Bool) → l.over ≡ o → (l' : Life) × (step p l turns ≡ done l') × IsSound l'
      turns_at true o = (l, (unfold step in rw o refl), v)
      turns_at false o =
          let stream = if l.session.b_close then [] else l.stream in
          let (l', ran, v') =
            turned-IsSound l stream (round p l.session stream) o
              (round-IsGood p l.session stream (v.head o) (left l.session.b_close)) refl v in
          (l', step-turn l o ∙ ran, v')

  -- The write of the first of `ws` is over.
  written-IsSound :
      (l : Life) (ws : List (ℤ × List ℕ))
      → l.writing ≡ 1
      → l.session.send_que ≡ nodes ws
      → 1 ≤ length ws
      → length ws ≤ max_sendque + 1
      → (v : IsSound l)
      → (l' : Life) × ((handle_write l.session false >>= wrote l 0) ≡ done l') × IsSound l'
  written-IsSound l [] w q b m v = absurd (omega arith)
  written-IsSound l ((i, t) ∷ []) w q b m v =
      let (l', ran, v') =
        wrote-IsSound p l 0 [] [] (omega arith) (omega arith) (λ x. absurd (omega (arith, x)))
          (omega arith) refl v.failed (λ e. absurd (omega (arith, (v.stalled e).0, w))) v.at_most
          v in
      (l', rw (handle_write-last p l.session (sent i t) q) ran, v')
  written-IsSound l ((i, t) ∷ (j, u) ∷ ws) w q b m v =
      let (l', ran, v') =
        wrote-IsSound p l 0 ((j, u) ∷ ws) (start_write (frame j u) ∷ []) (omega arith) (omega arith)
          (λ x. fresh-IsOfFirst l.log j u ws) (omega arith) refl v.failed
          (λ e. absurd (omega (arith, (v.stalled e).0, w))) v.at_most v in
      (l', rw (handle_write-next p l.session (sent i t) j u (nodes ws) q) ran, v')

  -- The write of the first packet has failed.
  failed-IsSound :
      (l : Life)
      → l.writing ≡ 1
      → (v : IsSound l)
      → (l' : Life) × ((handle_write l.session true >>= wrote l 0) ≡ done l') × IsSound l'
  unfolding handle_write close wrote
  failed-IsSound l w v = (
    _,
    refl,
    record {
      one_write = omega arith;
      waiting = v.waiting;
      queue = v.queue;
      busy = omega arith;
      front = λ x. absurd (omega (arith, x));
      bounded = v.bounded;
      head = v.head;
      clean = v.clean;
      closed = λ o. refl;
      cleared = λ o.
          omega (arith, clears-append l.log (close_socket ∷ clear_session l.session.uuid ∷ []));
      failed = true;
      stalled = λ e. (omega arith, omega (arith, v.busy, w));
      at_most = at_most v.failed refl;
    },
  )
    where
      at_most :
          (b : Bool)
          → v.failed ≡ b
          → clears (l.log ++ (close_socket ∷ clear_session l.session.uuid ∷ [])) ≤ one_if l.over + 1
      at_most true e = absurd (omega (arith, (v.stalled e).0, w))
      at_most false e = omega (
        arith,
        v.at_most,
        ap one_if e,
        clears-append l.log (close_socket ∷ clear_session l.session.uuid ∷ []),
      )

  write_done-IsSound :
      (l : Life) (ec : Bool)
      → IsSound l
      → (l' : Life) × (step p l (write_done ec) ≡ done l') × IsSound l'
  write_done-IsSound l ec v = done_at ec l.writing refl
    where
      done_at :
          (c : Bool) (n : ℕ)
          → l.writing ≡ n
          → (l' : Life) × (step p l (write_done c) ≡ done l') × IsSound l'
      done_at c zero e = (l, (unfold step in rw e refl), v)
      done_at true (suc n) e =
          let one : l.writing ≡ 1 = omega (arith, v.one_write, e) in
          let (l', ran, v') = failed-IsSound l one v in (l', step-written l true one ∙ ran, v')
      done_at false (suc n) e =
          let one : l.writing ≡ 1 = omega (arith, v.one_write, e) in
          let (l', ran, v') =
            written-IsSound l v.waiting one v.queue (omega (arith, v.busy, e)) v.bounded v in
          (l', step-written l false one ∙ ran, v')

  pub step-IsSound :
      (l : Life) (e : Event)
      → IsFine e
      → IsSound l
      → (l' : Life) × (step p l e ≡ done l') × IsSound l'
  step-IsSound l (sends msg_id msg) f v = sends-IsSound p l msg_id msg f v
  step-IsSound l turns f v = turns-IsSound l v
  step-IsSound l (write_done ec) f v = write_done-IsSound l ec v

  run-IsSound :
      (l : Life) (es : List Event)
      → AreFine es
      → IsSound l
      → (l' : Life) × (run p l es ≡ done l') × IsSound l'
  unfolding run
  run-IsSound l [] f v = (l, refl, v)
  run-IsSound l (e ∷ es) f v =
      let (l₁, one, v₁) = step-IsSound l e f.0 v in
      let (l₂, rest, v₂) = run-IsSound l₁ es f.1 v₁ in (l₂, rw one rest, v₂)

  pub new-IsSound :
      (s : CSession) (stream : List ℕ)
      → IsHead s.recv_head_node
      → s.b_close ≡ false
      → s.send_que ≡ []
      → IsClean stream
      → IsSound (spawned s stream)
  unfolding spawned
  new-IsSound s stream h b q c = record {
    one_write = omega arith;
    waiting = [];
    queue = q;
    busy = omega arith;
    front = λ x. absurd (omega (arith, x));
    bounded = omega arith;
    head = λ o. h;
    clean = c;
    closed = λ o. o;
    cleared = λ o. absurd cc;
    failed = false;
    stalled = λ x. absurd cc;
    at_most = omega arith;
  }

  -- The whole life of a session of the coroutine server, from the start of its coroutine on, through
  -- calls of `Send`, turns of the coroutine and completions of writes, errors among them, in any order:
  -- nothing faults or throws; at most one write is under way, and while one is, the last write that was
  -- asked for is that of the first packet of the queue, which holds at most one packet more than its
  -- limit; a coroutine that has returned leaves a closed session, a closed session has been taken off
  -- the server, and it is taken off at most once by the coroutine's end and once by a failed write,
  -- after which no write is ever started. The session is open, has nothing to send, and its head buffer
  -- is as its constructor makes it; no two neighbours of the bytes that the peer sends are both 0xff,
  -- and the texts that are sent are of less than 2^15 - 4 bytes.
  pub spawned-IsSound :
      (s : CSession) (stream : List ℕ) (es : List Event)
      → IsHead s.recv_head_node
      → s.b_close ≡ false
      → s.send_que ≡ []
      → IsClean stream
      → AreFine es
      → (l : Life) × (run p (spawned s stream) es ≡ done l) × IsSound l
  spawned-IsSound s stream es h b q c f =
      run-IsSound (spawned s stream) es f (new-IsSound s stream h b q c)
