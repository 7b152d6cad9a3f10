-- ===== src/Corotine/Life/Sequential.antt =====
-- What the coroutine asks for beside `Send` and `HandleWrite`, against what it asks for alone.
use mathlib.Core.Path.{subst}
use cppmulti_thread_server_b.Prelude.{
  ℕ, zero, suc, ◌-◌, ◌^◌, ◌≤◌, ◌<◌, ◌≡◌, refl, ap, sym, ◌∙◌, inl, inr, List, [], ◌∷◌, ◌++◌, Bool,
  true, false, ℤ, length, arith, append-nil, ltb, Bool-cases, ltb→lt, ltb→ge,
}
use cppmulti_thread_server_b.Memory.{Outcome, done, ◌>>=◌}
use cppmulti_thread_server_b.Platform.{Platform}
use cppmulti_thread_server_b.MsgNode.Head.{IsHead}
use cppmulti_thread_server_b.MsgNode.Frame.{frame, sent}
use cppmulti_thread_server_b.Effect.{Effect, start_write}
use cppmulti_thread_server_b.Outbox.Line.{nodes}
use cppmulti_thread_server_b.Corotine.{CSession, max_sendque}
use cppmulti_thread_server_b.Corotine.Start.{round, start}
use cppmulti_thread_server_b.Corotine.Start.Good.{IsClean, round-IsGood}
use cppmulti_thread_server_b.Corotine.Start.Ends.{start-Ends}
use cppmulti_thread_server_b.Corotine.Write.{send, handle_write}
use cppmulti_thread_server_b.Corotine.Write.Promise.{
  send_full, send-empty, send-busy, handle_write-last, handle_write-next,
}
use cppmulti_thread_server_b.Corotine.Life.{
  Life, Event, sends, turns, write_done, wrote, step, run, spawned,
}
use cppmulti_thread_server_b.Corotine.Life.Sound.{IsFine, AreFine, IsSound}
use cppmulti_thread_server_b.Corotine.Life.Spawned.{
  step-IsSound, new-IsSound, step-turn, step-written,
}
use cppmulti_thread_server_b.Corotine.Life.Requeue.{requeue}
use cppmulti_thread_server_b.Corotine.Life.Alone.{
  asked, behind, behind-nil, IsSequential, wrote-IsSequential, turned-IsSequential,
}

-- No write fails.
abbrev pub AreWritten : List Event → Type 0
AreWritten [] = Unit {0}
AreWritten (write_done true ∷ es) = ⊥
AreWritten (e ∷ es) = AreWritten es

module _ (p : Platform) where
  turns-IsSequential :
      (alone : Outcome (CSession × List Effect)) (l : Life)
      → IsSound l
      → IsSequential p alone l
      → (l' : Life) × (step p l turns ≡ done l') × IsSequential p alone l'
  turns-IsSequential alone l v w = turns_at l.over refl
    where
      turns_at :
          (o : Bool)
          → l.over ≡ o
          → (l' : Life) × (step p l turns ≡ done l') × IsSequential p alone l'
      turns_at true o = (l, (unfold step in rw o refl), w)
      turns_at false o =
          let (b, n, f, a) = w.running o in
          let (l', ran, w') =
            turned-IsSequential p alone l n (round p l.session l.stream)
              (round-IsGood p l.session l.stream (v.head o) v.clean) refl b f a in
          (l', step-turn p l o ∙ ran, w')

  sends-IsSequential :
      (alone : Outcome (CSession × List Effect)) (l : Life) (msg_id : ℤ) (msg : List ℕ)
      → length msg ≤ 2 ^ 15 - 5
      → IsSound l
      → IsSequential p alone l
      → (l' : Life) × (step p l (sends msg_id msg) ≡ done l') × IsSequential p alone l'
  unfolding step
  sends-IsSequential alone l msg_id msg f v w =
      elim (Bool-cases (ltb max_sendque (length l.session.send_que))) [
        | inl full ↦
            let (l', ran, w') = wrote-IsSequential p alone l l.writing l.session [] refl refl w in
            (l', rw (send_full p l.session msg msg_id (ltb→lt _ _ full)) ran, w')
        | inr room ↦ taken v.waiting v.queue (ltb→ge _ _ room)
      ]
    where
      taken :
          (ws : List (ℤ × List ℕ))
          → l.session.send_que ≡ nodes ws
          → length l.session.send_que ≤ max_sendque
          → (l' : Life) × ((send p l.session msg msg_id >>= wrote l l.writing) ≡ done l')
            × IsSequential p alone l'
      taken [] q m =
          let (l', ran, w') =
            wrote-IsSequential p alone l l.writing
              (record l.session { send_que = sent msg_id msg ∷ [] })
              (start_write (frame msg_id msg) ∷ []) refl refl w in
          (l', rw (send-empty p l.session msg msg_id f q) ran, w')
      taken ((j, n) ∷ ws) q m =
          let (l', ran, w') =
            wrote-IsSequential p alone l l.writing
              (record l.session { send_que = sent j n ∷ (nodes ws ++ sent msg_id msg ∷ []) }) []
              refl refl w in
          (
            l',
            rw
                (send-busy p l.session msg msg_id (sent j n) (nodes ws) f q
                  (omega (arith, ap length q)))
                ran,
            w',
          )

  written-IsSequential :
      (alone : Outcome (CSession × List Effect)) (l : Life) (ws : List (ℤ × List ℕ))
      → l.session.send_que ≡ nodes ws
      → 1 ≤ length ws
      → IsSequential p alone l
      → (l' : Life) × ((handle_write l.session false >>= wrote l 0) ≡ done l')
        × IsSequential p alone l'
  written-IsSequential alone l [] q b w = absurd (omega arith)
  written-IsSequential alone l ((i, t) ∷ []) q b w =
      let (l', ran, w') =
        wrote-IsSequential p alone l 0 (record l.session { send_que = [] }) [] refl refl w in
      (l', rw (handle_write-last p l.session (sent i t) q) ran, w')
  written-IsSequential alone l ((i, t) ∷ (j, u) ∷ ws) q b w =
      let (l', ran, w') =
        wrote-IsSequential p alone l 0 (record l.session { send_que = sent j u ∷ nodes ws })
          (start_write (frame j u) ∷ []) refl refl w in
      (l', rw (handle_write-next p l.session (sent i t) j u (nodes ws) q) ran, w')

  step-IsSequential :
      (alone : Outcome (CSession × List Effect)) (l : Life) (e : Event)
      → IsFine e
      → AreWritten (e ∷ [])
      → IsSound l
      → IsSequential p alone l
      → (l' : Life) × (step p l e ≡ done l') × IsSequential p alone l'
  step-IsSequential alone l (sends msg_id msg) f k v w = sends-IsSequential alone l msg_id msg f v w
  step-IsSequential alone l turns f k v w = turns-IsSequential alone l v w
  step-IsSequential alone l (write_done true) f k v w = absurd k
  step-IsSequential alone l (write_done false) f k v w = done_at l.writing refl
    where
      done_at :
          (n : ℕ)
          → l.writing ≡ n
          → (l' : Life) × (step p l (write_done false) ≡ done l') × IsSequential p alone l'
      done_at zero e = (l, (unfold step in rw e refl), w)
      done_at (suc n) e =
          let one : l.writing ≡ 1 = omega (arith, v.one_write, e) in
          let (l', ran, w') =
            written-IsSequential alone l v.waiting v.queue (omega (arith, v.busy, e)) w in
          (l', step-written p l false one ∙ ran, w')

  first_written : (e : Event) (es : List Event) → AreWritten (e ∷ es) → AreWritten (e ∷ [])
  first_written (sends msg_id msg) es k = tt
  first_written turns es k = tt
  first_written (write_done true) es k = k
  first_written (write_done false) es k = tt

  later_written : (e : Event) (es : List Event) → AreWritten (e ∷ es) → AreWritten es
  later_written (sends msg_id msg) es k = k
  later_written turns es k = k
  later_written (write_done true) es k = absurd k
  later_written (write_done false) es k = k

  run-IsSequential :
      (alone : Outcome (CSession × List Effect)) (l : Life) (es : List Event)
      → AreFine es
      → AreWritten es
      → IsSound l
      → IsSequential p alone l
      → (l' : Life) × (run p l es ≡ done l') × IsSound l' × IsSequential p alone l'
  unfolding run
  run-IsSequential alone l [] f k v w = (l, refl, v, w)
  run-IsSequential alone l (e ∷ es) f k v w =
      let (l₁, one, v₁) = step-IsSound p l e f.0 v in
      let (l₂, one', w₂) = step-IsSequential alone l e f.0 (first_written e es k) v w in
      let same : l₂ ≡ l₁ = cc in
      let (l', rest, v', w') =
        run-IsSequential alone l₁ es f.1 (later_written e es k) v₁
          (subst (IsSequential p alone) same w₂) in
      (l', rw one rest, v', w')

  -- The coroutine asks for the same beside `Send` and `HandleWrite` as alone. For any calls of `Send`, any
  -- completed writes, none of which fails, and any turns, in any order: what the coroutine has posted and
  -- asked for is a beginning of what `start` asks for, run alone on all the bytes that the peer sends, and
  -- it is all of that when the coroutine has returned. The session is open, has nothing to send, and its
  -- head buffer is as its constructor makes it; no two neighbours of the bytes are both 0xff, and the
  -- texts that are sent are of less than 2^15 - 4 bytes. One turn more than bytes is enough for `start`.
  pub spawned-IsSequential :
      (fuel : ℕ) (s : CSession) (stream : List ℕ) (es : List Event)
      → length stream < fuel
      → IsHead s.recv_head_node
      → s.b_close ≡ false
      → s.send_que ≡ []
      → IsClean stream
      → AreFine es
      → AreWritten es
      → (l : Life) × (s' : CSession) × (later : List Effect) × (run p (spawned s stream) es
          ≡ done l)
        × (start p fuel s stream ≡ done (s', asked l.log ++ later))
        × (l.over ≡ true → later ≡ [])
  unfolding spawned
  spawned-IsSequential fuel s stream es m h b q c f k =
      let alone = start p fuel s stream in
      let empty : start p fuel s stream ≡ start p fuel (requeue [] s) stream =
        ap (λ x. start p fuel (record s { send_que = x }) stream) q in
      let new : IsSequential p alone (spawned s stream) = record {
        running = λ o. (b, fuel, m, empty ∙ sym (behind-nil _));
        ended = λ o. absurd cc;
      } in
      let (l, ran, v, w) =
        run-IsSequential alone (spawned s stream) es f k (new-IsSound p s stream h b q c) new in
      let (s', later, whole, over) = rest_of alone l v w in (l, s', later, ran, whole, over)
    where
      rest_of :
          (alone : Outcome (CSession × List Effect)) (l : Life)
          → IsSound l
          → IsSequential p alone l
          → (s' : CSession) × (later : List Effect) × (alone ≡ done (s', asked l.log ++ later))
            × (l.over ≡ true → later ≡ [])
      rest_of alone l v w = elim (Bool-cases l.over) [
        | inl o ↦
            let (t, e) = w.ended o in
            (t, [], e ∙ ap (λ x. done (t, x)) (sym (append-nil (asked l.log))), λ x. refl)
        | inr o ↦
            let (closed, n, few, e) = w.running o in
            let (t, rs, ran, is_closed, taken) =
              start-Ends p n (requeue [] l.session) l.stream few (v.head o) closed v.clean in
            (t, _, e ∙ ap (behind (asked l.log)) ran, λ x. absurd cc)
      ]
