-- ===== src/ThreadPool/Threads/Single.antt =====
-- On any number of threads, a session has at most one handler of a read and one of a write that run.
use mathlib.Core.Path.{subst}
use cppmulti_thread_server_b.Prelude.{
  ℕ, ◌+◌, ◌≤◌, ◌≡◌, ap, List, [], ◌∷◌, ◌++◌, length, arith, length-append,
}
use cppmulti_thread_server_b.Memory.{Outcome, done}
use cppmulti_thread_server_b.Platform.{Platform}
use cppmulti_thread_server_b.MsgNode.{max_sendque}
use cppmulti_thread_server_b.Effect.Counts.{reads, writes}
use cppmulti_thread_server_b.Outbox.Order.{length-nodes}
use cppmulti_thread_server_b.Session.{CSession, wipe}
use cppmulti_thread_server_b.Session.Read
use cppmulti_thread_server_b.Session.Life.{Event, sends, read_done, read_failed, write_done}
use cppmulti_thread_server_b.Session.Life.Single.{IsSingle}
use cppmulti_thread_server_b.Session.Life.Ends.{IsFine}
use cppmulti_thread_server_b.ThreadPool.Session.{Call, effects, on_strand, start, bind_executor}
use cppmulti_thread_server_b.ThreadPool.Threads.{
  Job, Threads, is_reading, is_writing, readers, writers, stranded, handle, life, opened, Step,
  calls_send, completes, takes, finishes, Reach, begins, goes_on,
}
use cppmulti_thread_server_b.ThreadPool.Threads.Handled.{recount, handle-IsSingle}
use cppmulti_thread_server_b.ThreadPool.Threads.Counts.{
  call_reads-append, call_writes-append, readers-append, writers-append, stranded-append,
  Completes-Counted, is_one, readers-writers,
}

-- What holds of a session on `n` threads.
record IsSerial (n : ℕ) (t : Threads) : Type 0 where
  pub single : IsSingle (life t)
  pub strand : stranded t.running ≤ 1
  pub few : length t.running ≤ n
  pub ready_ends : length t.ready ≡ readers t.ready + writers t.ready
  pub running_ends : length t.running ≡ readers t.running + writers t.running

-- What a session of `AsioThreadPool` keeps to, on `n` threads.
pub record AtMostTwo (n : ℕ) (t : Threads) : Type 0 where
  pub one_reader : readers t.running ≤ 1
  pub one_writer : writers t.running ≤ 1
  pub two : length t.running ≤ 2
  pub few : length t.running ≤ n
  pub strand : stranded t.running ≤ 1
  pub bounded : length t.session.send_queue ≤ max_sendque + 1

module _ (p : Platform) (n : ℕ) where
  -- A handler that waited, or `Send`, is over.
  handled-IsSingle :
      (t : Threads) (ready running : List Job) (over : List Event) (s : CSession) (cs : List Call)
      (e : Event)
      → readers t.ready + readers t.running ≡ is_reading e + (readers ready + readers running)
      → writers t.ready + writers t.running ≡ is_writing e + (writers ready + writers running)
      → IsFine e
      → handle p t.session e ≡ done (s, cs)
      → IsSingle (life t)
      → IsSingle (
          life (record {
            session = s;
            calls = t.calls ++ cs;
            ready = ready;
            running = running;
            over = over;
          }))
  handled-IsSingle t ready running over s cs e x y f h v =
      recount s _ _ _ _ (omega (arith, call_reads-append t.calls cs))
        (omega (arith, call_writes-append t.calls cs))
        (handle-IsSingle p t.session s cs e _ _
          (reads (effects t.calls) + (readers ready + readers running))
          (length (writes (effects t.calls)) + (writers ready + writers running)) (omega (arith, x))
          (omega (arith, y)) f h v)

  ended-IsFine : (e : Event) → is_reading e + is_writing e ≡ 1 → IsFine e
  ended-IsFine (sends msg_id msg) h = absurd (omega (arith, h))
  ended-IsFine (read_done bs) h = tt
  ended-IsFine read_failed h = tt
  ended-IsFine (write_done ec) h = tt

  -- The handler that leaves the list is of one read or of one write.
  removed :
      (js before later : List Job) (j : Job)
      → js ≡ before ++ j ∷ later
      → length js ≡ readers js + writers js
      → (is_reading j.event + is_writing j.event ≡ 1)
        × (length (before ++ later) ≡ readers (before ++ later) + writers (before ++ later))
        × (readers js ≡ is_reading j.event + readers (before ++ later))
        × (writers js ≡ is_writing j.event + writers (before ++ later))
        × (length js ≡ length (before ++ later) + 1)
        × (stranded (before ++ later) ≤ stranded js)
  removed js before later j e h =
      let r : readers js ≡ is_reading j.event + readers (before ++ later) =
        omega
          (arith, ap readers e, readers-append before (j ∷ later), readers-append before later) in
      let w : writers js ≡ is_writing j.event + writers (before ++ later) =
        omega
          (arith, ap writers e, writers-append before (j ∷ later), writers-append before later) in
      let l : length js ≡ length (before ++ later) + 1 =
        omega (arith, ap length e, length-append before (j ∷ later), length-append before later) in
      (
        omega (arith, r, w, l, h, is_one j.event, readers-writers (before ++ later)),
        omega (arith, r, w, l, h, is_one j.event, readers-writers (before ++ later)),
        r,
        w,
        l,
        omega (
          arith,
          ap stranded e,
          stranded-append before (j ∷ later),
          stranded-append before later,
        ),
      )

  step-IsSerial : (t t' : Threads) → Step p n t t' → IsSerial n t → IsSerial n t'
  step-IsSerial _ _ (calls_send t msg_id msg s cs m h) v = record {
    single =
        handled-IsSingle t t.ready t.running t.over s cs (sends msg_id msg) (omega arith)
          (omega arith) m h v.single;
    strand = v.strand;
    few = v.few;
    ready_ends = v.ready_ends;
    running_ends = v.running_ends;
  }
  step-IsSerial _ _ (completes t before later c j e k) v =
      let q = Completes-Counted c j k in
      record {
        single =
            recount t.session _ _ _ _
              (omega (
                arith,
                ap (λ x. reads (effects x)) e,
                call_reads-append before (c ∷ later),
                call_reads-append before later,
                q.read later,
                readers-append t.ready (j ∷ []),
              ))
              (omega (
                arith,
                ap (λ x. length (writes (effects x))) e,
                call_writes-append before (c ∷ later),
                call_writes-append before later,
                q.written later,
                writers-append t.ready (j ∷ []),
              ))
              v.single;
        strand = v.strand;
        few = v.few;
        ready_ends = omega (
          arith,
          length-append t.ready (j ∷ []),
          readers-append t.ready (j ∷ []),
          writers-append t.ready (j ∷ []),
          q.one,
          v.ready_ends,
        );
        running_ends = v.running_ends;
      }
  step-IsSerial _ _ (takes t before later j e room alone) v =
      let (one, ends, r, w, l, k) = removed t.ready before later j e v.ready_ends in
      record {
        single = recount t.session _ _ _ _ (omega (arith, r)) (omega (arith, w)) v.single;
        strand = alone;
        few = omega (arith, room);
        ready_ends = ends;
        running_ends = omega (arith, one, v.running_ends);
      }
  step-IsSerial _ _ (finishes t before later j s cs e h) v =
      let (one, ends, r, w, l, k) = removed t.running before later j e v.running_ends in
      record {
        single =
            handled-IsSingle t t.ready (before ++ later) (t.over ++ j.event ∷ []) s cs j.event
              (omega (arith, r)) (omega (arith, w)) (ended-IsFine j.event one) h v.single;
        strand = omega (arith, k, v.strand);
        few = omega (arith, l, v.few);
        ready_ends = v.ready_ends;
        running_ends = ends;
      }

  Holds : Outcome Threads → Type 0
  Holds (done t) = IsSerial n t
  Holds _ = Unit {0}

  opened-IsSerial : (s : CSession) → s.send_queue ≡ [] → Holds (opened s)
  unfolding opened start on_strand Read.start wipe bind_executor Holds
  opened-IsSerial s q = record {
    single = record {
      one_read = omega arith;
      one_write = omega arith;
      waiting = [];
      queue = q;
      busy = omega arith;
      bounded = omega arith;
    };
    strand = omega arith;
    few = omega arith;
    ready_ends = omega arith;
    running_ends = omega arith;
  }

  Reach-IsSerial : (s : CSession) (t : Threads) → s.send_queue ≡ [] → Reach p n s t → IsSerial n t
  unfolding Holds
  Reach-IsSerial s t q (begins _ e) = subst Holds e (opened-IsSerial s q)
  Reach-IsSerial s t q (goes_on t₁ _ r k) = step-IsSerial t₁ t k (Reach-IsSerial s t₁ q r)

  -- However many threads run the context, and in whatever order they take the handlers of a session that
  -- started with an empty queue: at most one handler of a read and one handler of a write run at a time,
  -- so that a session keeps at most two of the threads busy and never more than there are; at most one of the
  -- running handlers is bound to the strand, and the queue has at most one packet more than its limit.
  -- Calls of `Send` come in between, with texts of less than 2^31 - 5 bytes, and a handler's body takes
  -- effect when it is over.
  pub Reach-AtMostTwo :
      (s : CSession) (t : Threads) → s.send_queue ≡ [] → Reach p n s t → AtMostTwo n t
  Reach-AtMostTwo s t q r =
      let v = Reach-IsSerial s t q r in
      record {
        one_reader = omega (arith, v.single.one_read);
        one_writer = omega (arith, v.single.one_write);
        two = omega (arith, v.running_ends, v.single.one_read, v.single.one_write);
        few = v.few;
        strand = v.strand;
        bounded =
            omega
              (arith, ap length v.single.queue, length-nodes v.single.waiting, v.single.bounded);
      }
