-- ===== src/ThreadPool/Threads/Handled.antt =====
-- A handler that is over keeps a session to one read and one write.
use mathlib.Core.Path.{subst}
use cppmulti_thread_server_b.Prelude.{
  ℕ, suc, ◌+◌, ◌≡◌, refl, ap, sym, ◌∙◌, List, [], ◌∷◌, true, length, arith,
}
use cppmulti_thread_server_b.Memory.{Outcome, done, ◌>>=◌}
use cppmulti_thread_server_b.Platform.{Platform}
use cppmulti_thread_server_b.Effect.{Effect}
use cppmulti_thread_server_b.Effect.Counts.{reads, writes}
use cppmulti_thread_server_b.Session.{CSession}
use cppmulti_thread_server_b.Session.Read
use cppmulti_thread_server_b.Session.Write
use cppmulti_thread_server_b.Session.Life.{
  Life, Event, sends, read_done, read_failed, write_done, after, step,
}
use cppmulti_thread_server_b.Session.Life.Single.{IsSingle}
use cppmulti_thread_server_b.Session.Life.Ends.{IsFine, EndsSingle, step-EndsSingle}
use cppmulti_thread_server_b.ThreadPool.Session.{
  Call, effects, forget, forget-on_strand, forget-off_strand, send, handle_read, handle_write,
  on_bytes,
}
use cppmulti_thread_server_b.ThreadPool.Threads.{is_reading, is_writing, handle}

-- The same session with its counts written otherwise.
pub recount :
    (s : CSession) (r w r' w' : ℕ)
    → r ≡ r'
    → w ≡ w'
    → IsSingle (record { session = s; reading = r; writing = w })
    → IsSingle (record { session = s; reading = r'; writing = w' })
recount s r w r' w' e f v = record {
  one_read = omega (arith, v.one_read);
  one_write = omega (arith, v.one_write);
  waiting = v.waiting;
  queue = v.queue;
  busy = omega (arith, v.busy);
  bounded = v.bounded;
}

-- The body without the strand.
pub plainly :
    (m : Outcome (CSession × List Call)) (o : Outcome (CSession × List Effect)) (s : CSession)
    (cs : List Call)
    → (m >>= forget) ≡ o
    → m ≡ done (s, cs)
    → o ≡ done (s, effects cs)
plainly m o s cs f e = sym f ∙ ap (λ m. m >>= forget) e

module _ (p : Platform) where
  -- A handler that returns leaves what a step of the session's life leaves.
  stepped : (l l' : Life) (e : Event) → IsFine e → step p l e ≡ done l' → IsSingle l → IsSingle l'
  stepped l l' e f ran v = subst (λ o. EndsSingle (e ∷ []) o) ran (step-EndsSingle p l e f v)

  pub handle-IsSingle :
      (s s' : CSession) (cs : List Call) (e : Event) (r w a b : ℕ)
      → r ≡ is_reading e + a
      → w ≡ is_writing e + b
      → IsFine e
      → handle p s e ≡ done (s', cs)
      → IsSingle (record { session = s; reading = r; writing = w })
      → IsSingle (record {
        session = s';
        reading = a + reads (effects cs);
        writing = b + length (writes (effects cs));
      })
  unfolding handle send on_bytes handle_read handle_write step after Read.on_bytes
  handle-IsSingle s s' cs (sends msg_id msg) r w a b x y f e v =
      stepped (record { session = s; reading = a; writing = b }) _ (sends msg_id msg) f
        (rw (plainly _ (Write.send p s msg msg_id) s' cs (forget-on_strand _) e) refl)
        (recount s r w a b (omega arith) (omega arith) v)
  handle-IsSingle s s' cs (read_done bs) r w a b x y f e v =
      stepped (record { session = s; reading = suc a; writing = b }) _ (read_done bs) f
        (rw (plainly _ (Read.on_bytes p (length bs + 2) s bs) s' cs (forget-on_strand _) e) refl)
        (recount s r w (suc a) b (omega arith) (omega arith) v)
  handle-IsSingle s s' cs read_failed r w a b x y f e v =
      stepped (record { session = s; reading = suc a; writing = b }) _ read_failed f
        (rw (plainly _ (Read.handle_read p 0 s true 0) s' cs (forget-on_strand _) e) refl)
        (recount s r w (suc a) b (omega arith) (omega arith) v)
  handle-IsSingle s s' cs (write_done ec) r w a b x y f e v =
      stepped (record { session = s; reading = a; writing = suc b }) _ (write_done ec) f
        (rw (plainly _ (Write.handle_write s ec) s' cs (forget-off_strand _) e) refl)
        (recount s r w a (suc b) (omega arith) (omega arith) v)
