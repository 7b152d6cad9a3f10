-- ===== src/Session/Life/Ends.antt =====
-- A callback session never has two reads or two writes under way.
use cppmulti_thread_server_b.Prelude.{
  ℕ, zero, suc, ◌+◌, ◌-◌, ◌^◌, ◌≤◌, ◌≡◌, ◌≢◌, refl, ap, ◌∙◌, inl, inr, List, [], ◌∷◌, Bool, true,
  false, length, arith, ltb, Bool-cases, ltb→lt, ltb→ge,
}
use cppmulti_thread_server_b.Memory.{Outcome, done, throws, fault, out_of_fuel, ◌>>=◌}
use cppmulti_thread_server_b.Platform.{Platform}
use cppmulti_thread_server_b.MsgNode.{max_sendque}
use cppmulti_thread_server_b.Effect.{Effect}
use cppmulti_thread_server_b.Session.{CSession, wipe}
use cppmulti_thread_server_b.Session.Read.{start, handle_read, on_bytes}
use cppmulti_thread_server_b.Session.Read.Starts.{Started, on_bytes-Started}
use cppmulti_thread_server_b.Session.Read.Fuel.{handle_read_ends}
use cppmulti_thread_server_b.Session.Write.{handle_write}
use cppmulti_thread_server_b.Session.Life.{
  Life, Event, sends, read_done, read_failed, write_done, after, step, run, started,
}
use cppmulti_thread_server_b.Session.Life.Single.{
  IsSingle, full-IsSingle, taken-IsSingle, written-IsSingle, closed-IsSingle,
}

-- A text that can be sent.
abbrev pub IsFine : Event → Type 0
IsFine (sends msg_id msg) = length msg ≤ 2 ^ 31 - 6
IsFine (read_done bs) = Unit {0}
IsFine read_failed = Unit {0}
IsFine (write_done ec) = Unit {0}

abbrev pub AreFine : List Event → Type 0
AreFine [] = Unit {0}
AreFine (e ∷ es) = IsFine e × AreFine es

-- Some bytes came in.
abbrev pub HasBytes : List Event → Type 0
HasBytes [] = ⊥
HasBytes (read_done bs ∷ es) = Unit {0}
HasBytes (sends msg_id msg ∷ es) = HasBytes es
HasBytes (read_failed ∷ es) = HasBytes es
HasBytes (write_done ec ∷ es) = HasBytes es

-- How a run ends: well, or in a fault or an exception, to which only bytes that came in can lead.
abbrev pub EndsSingle : List Event → Outcome Life → Type 0
EndsSingle es (done l) = IsSingle l
EndsSingle es throws = HasBytes es
EndsSingle es fault = HasBytes es
EndsSingle es out_of_fuel = ⊥

some_bytes : (e : Event) (es : List Event) → HasBytes (e ∷ []) → HasBytes (e ∷ es)
some_bytes (read_done bs) es h = tt
some_bytes (sends msg_id msg) es h = absurd h
some_bytes read_failed es h = absurd h
some_bytes (write_done ec) es h = absurd h

module _ (p : Platform) where
  -- What a completed read leaves.
  read-IsSingle :
      (l : Life) (n : ℕ) (bs : List ℕ) (o : Outcome (CSession × List Effect))
      → IsSingle l
      → n ≡ 0
      → Started l.session.send_queue l.session.uuid o
      → o ≢ out_of_fuel
      → EndsSingle (read_done bs ∷ []) (o >>= after n l.writing)
  unfolding after
  read-IsSingle l n bs (done (s, es)) v z h f = record {
    one_read = omega (arith, h.one_read);
    one_write = omega (arith, ap length h.no_write, v.one_write);
    waiting = v.waiting;
    queue = h.queue ∙ v.queue;
    busy = omega (arith, ap length h.no_write, v.busy);
    bounded = v.bounded;
  }
  read-IsSingle l n bs throws v z h f = tt
  read-IsSingle l n bs fault v z h f = tt
  read-IsSingle l n bs out_of_fuel v z h f = f refl

  on_bytes_ends : (s : CSession) (bs : List ℕ) → on_bytes p (length bs + 2) s bs ≢ out_of_fuel
  unfolding on_bytes
  on_bytes_ends s bs = handle_read_ends p (length bs + 2) _ false (length bs) (omega arith)

  read_done-step :
      (l : Life) (n : ℕ) (bs : List ℕ)
      → l.reading ≡ suc n
      → step p l (read_done bs) ≡ (on_bytes p (length bs + 2) l.session bs >>= after n l.writing)
  unfolding step
  read_done-step l n bs e = rw e refl

  ended :
      (e : Event) (es : List Event) (o : Outcome Life)
      → (l' : Life) × (o ≡ done l') × IsSingle l'
      → EndsSingle (e ∷ es) o
  ended e es o (l', ran, v) = rw (ran, EndsSingle) v

  pub step-EndsSingle :
      (l : Life) (e : Event) → IsFine e → IsSingle l → EndsSingle (e ∷ []) (step p l e)
  step-EndsSingle l (sends msg_id msg) f v =
      ended (sends msg_id msg) [] _
        (elim (Bool-cases (ltb max_sendque (length l.session.send_queue))) [
          | inl full ↦ full-IsSingle p l msg_id msg (ltb→lt _ _ full) v
          | inr room ↦
              taken-IsSingle p l msg_id msg v.waiting v.one_read v.one_write v.queue v.busy
                (ltb→ge _ _ room)
        ])
  step-EndsSingle l (read_done bs) f v = read_done-ends l.reading refl
    where
      read_done-ends :
          (n : ℕ) → l.reading ≡ n → EndsSingle (read_done bs ∷ []) (step p l (read_done bs))
      read_done-ends zero e = ended (read_done bs) [] _ (l, (unfold step in rw e refl), v)
      read_done-ends (suc n) e = rw (read_done-step l n bs e) (
          read-IsSingle l n bs _ v (omega (arith, v.one_read))
            (on_bytes-Started p (length bs + 2) l.session bs) (on_bytes_ends l.session bs))
  step-EndsSingle l read_failed f v = ended read_failed [] _ (failed-ends l.reading refl)
    where
      failed-ends :
          (n : ℕ) → l.reading ≡ n → (l' : Life) × (step p l read_failed ≡ done l') × IsSingle l'
      failed-ends zero e = (l, (unfold step in rw e refl), v)
      failed-ends (suc n) e =
          let (l', ran, v') = closed-IsSingle p l n l.writing (omega arith) (omega arith) v in
          (l', (unfold step handle_read in rw e ran), v')
  step-EndsSingle l (write_done ec) f v = ended (write_done ec) [] _ (done-ends ec l.writing refl)
    where
      done-ends :
          (c : Bool) (n : ℕ)
          → l.writing ≡ n
          → (l' : Life) × (step p l (write_done c) ≡ done l') × IsSingle l'
      done-ends c zero e = (l, (unfold step in rw e refl), v)
      done-ends true (suc n) e =
          let (l', ran, v') = closed-IsSingle p l l.reading n (omega arith) (omega arith) v in
          (l', (unfold step handle_write in rw e ran), v')
      done-ends false (suc n) e =
          written-IsSingle p l n v.waiting v.one_read e (omega (arith, v.one_write)) v.queue
            (omega (arith, v.busy)) v.bounded

  later :
      (e : Event) (es : List Event) (o : Outcome Life)
      → EndsSingle (e ∷ []) o
      → ((l : Life) → IsSingle l → EndsSingle es (run p l es))
      → EndsSingle (e ∷ es) (o >>= λ l. run p l es)
  later e es (done l) v k = weaken e (run p l es) (k l v)
    where
      has : (e : Event) → HasBytes es → HasBytes (e ∷ es)
      has (sends msg_id msg) h = h
      has (read_done bs) h = tt
      has read_failed h = h
      has (write_done ec) h = h

      weaken : (e : Event) (o : Outcome Life) → EndsSingle es o → EndsSingle (e ∷ es) o
      weaken e (done l) v = v
      weaken e throws v = has e v
      weaken e fault v = has e v
      weaken e out_of_fuel v = v
  later e es throws v k = some_bytes e es v
  later e es fault v k = some_bytes e es v
  later e es out_of_fuel v k = v

  run-EndsSingle :
      (l : Life) (es : List Event) → AreFine es → IsSingle l → EndsSingle es (run p l es)
  unfolding run
  run-EndsSingle l [] f v = v
  run-EndsSingle l (e ∷ es) f v =
      later e es (step p l e) (step-EndsSingle l e f.0 v) λ l' v'. run-EndsSingle l' es f.1 v'

  -- From the start of a session with an empty queue on, through calls of `Send` and completions of
  -- reads and writes, errors among them, in any order: at most one read and one write are under way,
  -- while a write is under way the queue is not empty, and the queue holds at most one packet more
  -- than its limit. No loop runs on for ever, and only bytes that came in can lead to a fault or
  -- to an exception. The texts that are sent are of less than 2^31 - 5 bytes.
  pub started-EndsSingle :
      (s : CSession) (es : List Event)
      → s.send_queue ≡ []
      → AreFine es
      → EndsSingle es (started s >>= λ l. run p l es)
  unfolding started after start wipe
  started-EndsSingle s es q f = run-EndsSingle _ es f (record {
    one_read = omega arith;
    one_write = omega arith;
    waiting = [];
    queue = q;
    busy = omega arith;
    bounded = omega arith;
  })
