-- ===== src/Corotine/Life/Alone.antt =====
-- What the coroutine does alone, against what it does beside `Send` and `HandleWrite`: one step.
use cppmulti_thread_server_b.Prelude.{
  ℕ, zero, suc, ◌<◌, ◌≡◌, refl, ap, sym, ◌∙◌, List, [], ◌∷◌, ◌++◌, Bool, true, false, length, arith,
  append_assoc, append-nil, if◌then◌else◌,
}
use cppmulti_thread_server_b.Memory.{Outcome, done, throws, fault, out_of_fuel, ◌>>=◌}
use cppmulti_thread_server_b.Platform.{Platform}
use cppmulti_thread_server_b.Effect.{
  Effect, start_read, start_read_head, start_read_msg, start_write, post, close_socket,
  clear_session,
}
use cppmulti_thread_server_b.Corotine.{CSession}
use cppmulti_thread_server_b.Corotine.Start.{Round, ends, again, round, start}
use cppmulti_thread_server_b.Corotine.Start.Good.{IsGood}
use cppmulti_thread_server_b.Corotine.Life.{Life, wrote, turn}
use cppmulti_thread_server_b.Corotine.Life.Requeue.{requeue, other, round-Other}

-- What the coroutine asks for among the calls of all.
abbrev pub asked : List Effect → List Effect
asked [] = []
asked (start_write b ∷ es) = asked es
asked (start_read ∷ es) = start_read ∷ asked es
asked (start_read_head n ∷ es) = start_read_head n ∷ asked es
asked (start_read_msg n ∷ es) = start_read_msg n ∷ asked es
asked (post r ∷ es) = post r ∷ asked es
asked (close_socket ∷ es) = close_socket ∷ asked es
asked (clear_session u ∷ es) = clear_session u ∷ asked es

asked-append : (xs ys : List Effect) → asked (xs ++ ys) ≡ asked xs ++ asked ys
asked-append [] ys = refl
asked-append (start_write b ∷ xs) ys = asked-append xs ys
asked-append (start_read ∷ xs) ys = ap (λ t. start_read ∷ t) (asked-append xs ys)
asked-append (start_read_head n ∷ xs) ys = ap (λ t. start_read_head n ∷ t) (asked-append xs ys)
asked-append (start_read_msg n ∷ xs) ys = ap (λ t. start_read_msg n ∷ t) (asked-append xs ys)
asked-append (post r ∷ xs) ys = ap (λ t. post r ∷ t) (asked-append xs ys)
asked-append (close_socket ∷ xs) ys = ap (λ t. close_socket ∷ t) (asked-append xs ys)
asked-append (clear_session u ∷ xs) ys = ap (λ t. clear_session u ∷ t) (asked-append xs ys)

-- With `xs` asked for before.
abbrev pub behind :
    List Effect → Outcome (CSession × List Effect) → Outcome (CSession × List Effect)
behind xs o = o >>= λ t. done (t.0, xs ++ t.1)

pub behind-nil : (o : Outcome (CSession × List Effect)) → behind [] o ≡ o
behind-nil (done (s, es)) = refl
behind-nil throws = refl
behind-nil fault = refl
behind-nil out_of_fuel = refl

behind-append :
    (xs ys : List Effect) (o : Outcome (CSession × List Effect))
    → behind xs (behind ys o) ≡ behind (xs ++ ys) o
behind-append xs ys (done (s, es)) = ap (λ t. done (s, t)) (sym (append_assoc xs ys es))
behind-append xs ys throws = refl
behind-append xs ys fault = refl
behind-append xs ys out_of_fuel = refl

module _ (p : Platform) where
  pub start-ends :
      (fuel : ℕ) (s t : CSession) (stream : List ℕ) (es : List Effect)
      → s.b_close ≡ false
      → round p s stream ≡ done (ends (t, es))
      → start p (suc fuel) s stream ≡ done (t, es)
  unfolding start
  start-ends fuel s t stream es b e = rw (b, start) (rw e refl)

  start-goes_on :
      (fuel : ℕ) (s s' : CSession) (stream rest : List ℕ) (es : List Effect)
      → s.b_close ≡ false
      → round p s stream ≡ done (again s' rest es)
      → start p (suc fuel) s stream ≡ behind es (start p fuel s' rest)
  unfolding start
  start-goes_on fuel s s' stream rest es b e = rw (b, start) (rw e refl)

  -- `alone` is what the coroutine does alone: it begins with what has been asked for so far, goes on
  -- like the coroutine of the session with an empty queue, and is over with it.
  pub record IsSequential (alone : Outcome (CSession × List Effect)) (l : Life) : Type 0 where
    pub running :
        l.over ≡ false
        → (l.session.b_close ≡ false)
          × (n : ℕ) × (length l.stream < n)
          × (alone ≡ behind (asked l.log) (start p n (requeue [] l.session) l.stream))
    pub ended : l.over ≡ true → (s : CSession) × (alone ≡ done (s, asked l.log))

  -- Nothing but the queue has changed, and nothing but writes has been asked for.
  pub wrote-IsSequential :
      (alone : Outcome (CSession × List Effect)) (l : Life) (n : ℕ) (s : CSession)
      (es : List Effect)
      → requeue [] s ≡ requeue [] l.session
      → asked es ≡ []
      → IsSequential alone l
      → (l' : Life) × (wrote l n (s, es) ≡ done l') × IsSequential alone l'
  unfolding wrote
  wrote-IsSequential alone l n s es q a v =
      let same : asked (l.log ++ es) ≡ asked l.log =
        asked-append l.log es ∙ ap (λ t. asked l.log ++ t) a ∙ append-nil (asked l.log) in
      (
        _,
        refl,
        record {
          running = λ o.
              let (b, m, f, e) = v.running o in
              (
                ap (λ (t : CSession). t.b_close) q ∙ b,
                m,
                f,
                e
                    ∙ ap (λ t. behind t (start p m (requeue [] l.session) l.stream)) (sym same)
                    ∙ ap (λ t. behind (asked (l.log ++ es)) (start p m t l.stream)) (sym q),
              );
          ended = λ o. let (t, e) = v.ended o in (t, e ∙ ap (λ x. done (t, x)) (sym same));
        },
      )

  opened :
      (l : Life)
      → l.session.b_close ≡ false
      → round p l.session (if l.session.b_close then [] else l.stream) ≡ round p l.session l.stream
  opened l b = ap (λ (c : Bool). round p l.session (if c then [] else l.stream)) b

  pub turned-IsSequential :
      (alone : Outcome (CSession × List Effect)) (l : Life) (n : ℕ) (o : Outcome Round)
      → IsGood l.session l.stream o
      → round p l.session l.stream ≡ o
      → l.session.b_close ≡ false
      → length l.stream < n
      → alone ≡ behind (asked l.log) (start p n (requeue [] l.session) l.stream)
      → (l' : Life) × (turn p l ≡ done l') × IsSequential alone l'
  unfolding turn
  turned-IsSequential alone l zero o g e b f a = absurd (omega arith)
  turned-IsSequential alone l (suc n) (done (ends (s, es))) g e b f a =
      let all : asked (l.log ++ es) ≡ asked l.log ++ es =
        asked-append l.log es ∙ ap (λ t. asked l.log ++ t) (ap asked g.1 ∙ sym g.1) in
      (
        record l { session = s; over = true; log = l.log ++ es },
        rw (opened l b ∙ e) refl,
        record {
          running = λ o. absurd cc;
          ended = λ o. (
            requeue [] s,
            a
                ∙ ap (behind (asked l.log)) (
                    start-ends n (requeue [] l.session) (requeue [] s) l.stream es b
                      (round-Other p [] l.session l.stream ∙ ap (λ t. t >>= other []) e))
                ∙ ap (λ t. done (requeue [] s, t)) (sym all),
          );
        },
      )
  turned-IsSequential alone l (suc n) (done (again s rest es)) g e b f a =
      let (r, is_post, taken, same, named, head, fewer, clean, queue) = g in
      let all : asked (l.log ++ es) ≡ asked l.log ++ es =
        asked-append l.log es ∙ ap (λ t. asked l.log ++ t) (ap asked is_post ∙ sym is_post) in
      (
        record l { session = s; over = s.b_close; stream = rest; log = l.log ++ es },
        rw (opened l b ∙ e) refl,
        record {
          running = λ o. (
            o,
            n,
            omega arith,
            a
                ∙ ap (behind (asked l.log)) (
                    start-goes_on n (requeue [] l.session) (requeue [] s) l.stream rest es b
                      (round-Other p [] l.session l.stream ∙ ap (λ t. t >>= other []) e))
                ∙ behind-append (asked l.log) es (start p n (requeue [] s) rest)
                ∙ ap (λ t. behind t (start p n (requeue [] s) rest)) (sym all),
          );
          ended = λ o. absurd cc;
        },
      )
  turned-IsSequential alone l (suc n) throws g e b f a = absurd g
  turned-IsSequential alone l (suc n) fault g e b f a = absurd g
  turned-IsSequential alone l (suc n) out_of_fuel g e b f a = absurd g
