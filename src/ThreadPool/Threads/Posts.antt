-- ===== src/ThreadPool/Threads/Posts.antt =====
-- What a session of AsioThreadPool posts to the logic system, on any number of threads.
use mathlib.Core.Path.{subst}
use cppmulti_thread_server_b.Prelude.{
  ℕ, ◌+◌, ◌≤◌, ℤ, ◌≡◌, refl, ap, sym, ◌∙◌, List, [], ◌∷◌, ◌++◌, true, false, length, append-nil,
}
use cppmulti_thread_server_b.Memory.{Outcome, done, throws, fault, out_of_fuel, ◌>>=◌}
use cppmulti_thread_server_b.Platform.{Platform}
use cppmulti_thread_server_b.MsgNode.{RecvNode}
use cppmulti_thread_server_b.Effect.{
  Effect, start_read, start_read_head, start_read_msg, start_write, post, close_socket,
  clear_session,
}
use cppmulti_thread_server_b.Effect.Counts.{posts}
use cppmulti_thread_server_b.Session.{CSession, wipe, close}
use cppmulti_thread_server_b.Session.Read
use cppmulti_thread_server_b.Session.Write
use cppmulti_thread_server_b.Session.Locked as Locking
use cppmulti_thread_server_b.Session.Locked.{wrote, Locked, locked, locked-same, on_bytes-same}
use cppmulti_thread_server_b.Session.Locked.Posts.{locked-posts}
use cppmulti_thread_server_b.Session.Locked.Requeue.{requeue, other_done, on_bytes-requeue}
use cppmulti_thread_server_b.Session.Life.{Event, sends, read_done, read_failed, write_done}
use cppmulti_thread_server_b.ThreadPool.Session.{
  Call, bound, plain, effects, on_strand, forget-on_strand, forget-off_strand, start, bind_executor,
  send, handle_read, handle_write, on_bytes,
}
use cppmulti_thread_server_b.ThreadPool.Threads.{
  Job, Threads, readers, IsEnd, Completes, handle, opened, Step, calls_send, completes, takes,
  finishes, Reach, begins, goes_on,
}
use cppmulti_thread_server_b.ThreadPool.Threads.Alone.{
  posted, posted-append, bytes_in, bytes_in-append, reads_alone, then_read, reads_alone-snoc,
}
use cppmulti_thread_server_b.ThreadPool.Threads.Handled.{plainly}
use cppmulti_thread_server_b.ThreadPool.Threads.Single.{Reach-AtMostTwo}

-- The session `alone` has read as `session`; they may differ in the queue and in `_b_close`.
abbrev pub Alike : CSession → CSession → Type 0
Alike alone session = alone ≡ requeue alone.send_queue alone.b_close session

-- The posts are those of one thread that reads what came in, and the session has read as that one.
pub record Sequential (p : Platform) (s : CSession) (t : Threads) : Type 0 where
  pub alone : CSession
  pub ran : reads_alone p (wipe s) (bytes_in t.over) ≡ done (alone, posted t.calls)
  pub alike : Alike alone t.session

module _ (p : Platform) (s : CSession) where
  -- Calls that post nothing, after an event that brings no bytes.
  quiet-Sequential :
      (t t' : Threads) (cs : List Call)
      → bytes_in t'.over ≡ bytes_in t.over
      → t'.calls ≡ t.calls ++ cs
      → posted cs ≡ []
      → ((alone : CSession) → Alike alone t.session → Alike alone t'.session)
      → Sequential p s t
      → Sequential p s t'
  quiet-Sequential t t' cs o c n a v = record {
    alone = v.alone;
    ran =
        ap (reads_alone p (wipe s)) o
        ∙ v.ran
        ∙ ap (λ x. done (v.alone, x))
            (sym (
              ap posted c
              ∙ posted-append t.calls cs
              ∙ ap (λ x. posted t.calls ++ x) n
              ∙ append-nil (posted t.calls)));
    alike = a v.alone v.alike;
  }

  -- A body under the lock.
  locked-Alike :
      (c : Locked) (session s₂ alone : CSession) (fs : List Effect)
      → locked p c session ≡ done (s₂, fs)
      → Alike alone session
      → Alike alone s₂
  unfolding requeue
  locked-Alike c session s₂ alone fs e a =
      a ∙ ap (λ x. requeue alone.send_queue alone.b_close x) (sym (locked-same p c session s₂ fs e))

  -- `Close` after an error.
  closed-posts :
      (session s₂ : CSession) (fs : List Effect)
      → done (close session) ≡ done (s₂, fs)
      → posts fs ≡ []
  unfolding close
  closed-posts session s₂ fs e = sym (ap posts_of e)
    where
      posts_of : Outcome (CSession × List Effect) → List RecvNode
      posts_of (done t) = posts t.1
      posts_of throws = []
      posts_of fault = []
      posts_of out_of_fuel = []

  closed-Alike :
      (session s₂ alone : CSession) (fs : List Effect)
      → done (close session) ≡ done (s₂, fs)
      → Alike alone session
      → Alike alone s₂
  unfolding close requeue
  closed-Alike session s₂ alone fs e a =
      a ∙ ap (λ o. requeue alone.send_queue alone.b_close (left o)) e
    where
      left : Outcome (CSession × List Effect) → CSession
      left (done t) = t.0
      left throws = session
      left fault = session
      left out_of_fuel = session

  -- A handler that is over.
  handled-Sequential :
      (t : Threads) (ready running : List Job) (e : Event) (s₂ : CSession) (cs : List Call)
      → handle p t.session e ≡ done (s₂, cs)
      → Sequential p s t
      → Sequential p s (record {
        session = s₂;
        calls = t.calls ++ cs;
        ready = ready;
        running = running;
        over = t.over ++ e ∷ [];
      })
  unfolding handle send on_bytes handle_read handle_write locked Read.on_bytes Read.handle_read
      requeue close then_read other_done Write.handle_write
  handled-Sequential t ready running (sends msg_id msg) s₂ cs h v =
      let plain_one =
        plainly _ (locked p (Locking.sends msg msg_id) t.session) s₂ cs (forget-on_strand _) h in
      quiet-Sequential t _ cs (bytes_in-append t.over _ ∙ append-nil (bytes_in t.over)) refl
        (locked-posts p (Locking.sends msg msg_id) t.session s₂ (effects cs) plain_one)
        (λ alone a.
          locked-Alike (Locking.sends msg msg_id) t.session s₂ alone (effects cs) plain_one a)
        v
  handled-Sequential t ready running (read_done bs) s₂ cs h v =
      let plain_one : Read.on_bytes p (length bs + 2) t.session bs ≡ done (s₂, effects cs) =
        plainly _ (Read.on_bytes p (length bs + 2) t.session bs) s₂ cs (forget-on_strand _) h in
      let q = v.alone.send_queue in
      let c = v.alone.b_close in
      let alone_one =
        ap (λ x. Read.on_bytes p (length bs + 2) x bs) v.alike
        ∙ on_bytes-requeue p q c (length bs + 2) t.session bs
        ∙ ap (λ o. o >>= other_done q c) plain_one in
      record {
        alone = requeue q c s₂;
        ran =
            ap (reads_alone p (wipe s)) (bytes_in-append t.over _)
            ∙ reads_alone-snoc p (wipe s) (bytes_in t.over) bs
            ∙ ap (λ o. o >>= then_read p bs) v.ran
            ∙ ap (λ o. o >>= λ u. done (u.0, posted t.calls ++ posts u.1)) alone_one
            ∙ ap (λ x. done (requeue q c s₂, x)) (sym (posted-append t.calls cs));
        alike = refl;
      }
  handled-Sequential t ready running read_failed s₂ cs h v =
      let plain_one = plainly _ (done (close t.session)) s₂ cs (forget-on_strand _) h in
      quiet-Sequential t _ cs (bytes_in-append t.over _ ∙ append-nil (bytes_in t.over)) refl
        (closed-posts t.session s₂ (effects cs) plain_one)
        (λ alone a. closed-Alike t.session s₂ alone (effects cs) plain_one a) v
  handled-Sequential t ready running (write_done true) s₂ cs h v =
      let plain_one = plainly _ (Write.handle_write t.session true) s₂ cs (forget-off_strand _) h in
      quiet-Sequential t _ cs (bytes_in-append t.over _ ∙ append-nil (bytes_in t.over)) refl
        (closed-posts t.session s₂ (effects cs) plain_one)
        (λ alone a. closed-Alike t.session s₂ alone (effects cs) plain_one a) v
  handled-Sequential t ready running (write_done false) s₂ cs h v =
      let plain_one = plainly _ (locked p wrote t.session) s₂ cs (forget-off_strand _) h in
      quiet-Sequential t _ cs (bytes_in-append t.over _ ∙ append-nil (bytes_in t.over)) refl
        (locked-posts p wrote t.session s₂ (effects cs) plain_one)
        (λ alone a. locked-Alike wrote t.session s₂ alone (effects cs) plain_one a) v

  sent-Sequential :
      (t : Threads) (msg_id : ℤ) (msg : List ℕ) (s₂ : CSession) (cs : List Call)
      → handle p t.session (sends msg_id msg) ≡ done (s₂, cs)
      → Sequential p s t
      → Sequential p s (record t { session = s₂; calls = t.calls ++ cs })
  unfolding handle send locked
  sent-Sequential t msg_id msg s₂ cs h v =
      let plain_one =
        plainly _ (locked p (Locking.sends msg msg_id) t.session) s₂ cs (forget-on_strand _) h in
      quiet-Sequential t _ cs refl refl
        (locked-posts p (Locking.sends msg msg_id) t.session s₂ (effects cs) plain_one)
        (λ alone a.
          locked-Alike (Locking.sends msg msg_id) t.session s₂ alone (effects cs) plain_one a)
        v

  -- An operation that completes is no post.
  completed-posted :
      (before later : List Call) (c : Call) (j : Job)
      → Completes c j
      → posted (before ++ c ∷ later) ≡ posted (before ++ later)
  completed-posted before later c j k =
      posted-append before (c ∷ later)
      ∙ ap (λ x. posted before ++ x) (ends_posted c k)
      ∙ sym (posted-append before later)
    where
      effect_posted :
          (e : Effect) → IsEnd e j.event → posts (e ∷ effects later) ≡ posts (effects later)
      effect_posted start_read k = refl
      effect_posted (start_read_head n) k = refl
      effect_posted (start_read_msg n) k = refl
      effect_posted (start_write b) k = refl
      effect_posted (post r) k = absurd k
      effect_posted close_socket k = refl
      effect_posted (clear_session u) k = refl

      ends_posted : (c : Call) → Completes c j → posted (c ∷ later) ≡ posted later
      ends_posted (bound e) (b, k) = effect_posted e k
      ends_posted (plain e) (b, k) = effect_posted e k

  step-Sequential : (n : ℕ) (t t' : Threads) → Step p n t t' → Sequential p s t → Sequential p s t'
  step-Sequential n _ _ (calls_send t msg_id msg s₂ cs m h) v =
      sent-Sequential t msg_id msg s₂ cs h v
  step-Sequential n _ _ (completes t before later c j e k) v = record {
    alone = v.alone;
    ran = v.ran ∙ ap (λ x. done (v.alone, x)) (ap posted e ∙ completed-posted before later c j k);
    alike = v.alike;
  }
  step-Sequential n _ _ (takes t before later j e room alone) v = record {
    alone = v.alone;
    ran = v.ran;
    alike = v.alike;
  }
  step-Sequential n _ _ (finishes t before later j s₂ cs e h) v =
      handled-Sequential t t.ready (before ++ later) j.event s₂ cs h v

  Holds : Outcome Threads → Type 0
  Holds (done t) = Sequential p s t
  Holds _ = Unit {0}

  opened-Sequential : Holds (opened s)
  unfolding opened start on_strand Read.start bind_executor Holds reads_alone requeue
  opened-Sequential = record { alone = wipe s; ran = refl; alike = refl }

  Reach-alike : (n : ℕ) (t : Threads) → Reach p n s t → Sequential p s t
  unfolding Holds
  Reach-alike n t (begins _ e) = subst Holds e opened-Sequential
  Reach-alike n t (goes_on t₁ _ r k) = step-Sequential n t₁ t k (Reach-alike n t₁ r)

  -- However many threads run the context: what a session has posted to the logic system, in order, is
  -- what one thread posts that does nothing but hand the bytes of the reads that are over to `HandleRead`,
  -- one read after the other, and that thread comes to the end of them without a fault. The two sessions
  -- are then the same but for the queue of packets and `_b_close`. And no two handlers of reads run at a
  -- time. The session starts with an empty queue, and a handler's body takes effect when it is over.
  pub Reach-Sequential :
      (n : ℕ) (t : Threads)
      → s.send_queue ≡ []
      → Reach p n s t
      → Sequential p s t × (readers t.running ≤ 1)
  Reach-Sequential n t q r = (Reach-alike n t r, (Reach-AtMostTwo p n s t q r).one_reader)
