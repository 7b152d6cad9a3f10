-- ===== src/ThreadPool/Threads/Overlap.antt =====
-- The strand does not keep the handlers of one session apart: `HandleWrite` starts the next write without
-- it.
use cppmulti_thread_server_b.Prelude.{
  ℕ, ◌-◌, ◌^◌, ◌≤◌, ◌<◌, ◌≡◌, refl, List, [], ◌∷◌, true, false, ℤ, length, arith,
}
use cppmulti_thread_server_b.Memory.{done}
use cppmulti_thread_server_b.Platform.{Platform}
use cppmulti_thread_server_b.MsgNode.{max_lenght}
use cppmulti_thread_server_b.MsgNode.Frame.{frame, sent}
use cppmulti_thread_server_b.Effect.{start_read, start_write}
use cppmulti_thread_server_b.Session.{CSession, wipe}
use cppmulti_thread_server_b.Session.Read
use cppmulti_thread_server_b.Session.Write.Promise.{send_first, send_later, write_next}
use cppmulti_thread_server_b.Session.Life.{sends, read_done, write_done}
use cppmulti_thread_server_b.ThreadPool.Session.{
  bound, plain, bind_executor, on_strand, off_strand, start, send, handle_write,
}
use cppmulti_thread_server_b.ThreadPool.Threads.{
  Job, Threads, stranded, handle, opened, calls_send, completes, takes, finishes, Reach, begins,
  goes_on,
}

module _ (p : Platform) (n : ℕ) where
  first_sent :
      (s : CSession) (msg_id : ℤ) (msg : List ℕ)
      → s.send_queue ≡ []
      → (s' : CSession) × (handle p s (sends msg_id msg)
          ≡ done (s', bound (start_write (frame msg_id msg)) ∷ []))
        × (s'.send_queue ≡ sent msg_id msg ∷ [])
  unfolding handle send on_strand bind_executor
  first_sent s msg_id msg q =
      let (s', ran, q') = send_first p s msg msg_id q in (s', rw ran refl, q')

  then_sent :
      (s : CSession) (i msg_id : ℤ) (m msg : List ℕ)
      → s.send_queue ≡ sent i m ∷ []
      → (s' : CSession) × (handle p s (sends msg_id msg) ≡ done (s', []))
        × (s'.send_queue ≡ sent i m ∷ sent msg_id msg ∷ [])
  unfolding handle send on_strand
  then_sent s i msg_id m msg q =
      let (s', ran, q') = send_later p s msg msg_id (sent i m) [] q (omega arith) in
      (s', rw ran refl, q')

  -- The next write, off the strand.
  next_written :
      (s : CSession) (i msg_id : ℤ) (m msg : List ℕ)
      → s.send_queue ≡ sent i m ∷ sent msg_id msg ∷ []
      → (s' : CSession) × (handle p s (write_done false)
          ≡ done (s', plain (start_write (frame msg_id msg)) ∷ []))
  unfolding handle handle_write off_strand
  next_written s i msg_id m msg q =
      let (s', ran, q') = write_next p s (sent i m) msg_id msg [] q in (s', rw ran refl)

  pub opened-reads :
      (s : CSession)
      → opened s
        ≡ done (record {
          session = wipe s;
          calls = bound start_read ∷ [];
          ready = [];
          running = [];
          over = [];
        })
  unfolding opened start on_strand bind_executor Read.start
  opened-reads s = refl

  wipe-queue : (s : CSession) → (wipe s).send_queue ≡ s.send_queue
  unfolding wipe
  wipe-queue s = refl

  -- On two threads or more, a handler of a read and one of a write of the same session can run at the
  -- same time, although the session has a strand: after two calls of `Send` and one completed write, the
  -- handler of the second write is not bound to it. The session started with an empty queue, the
  -- texts are of less than 2^31 - 5 bytes, and the bytes that come in fit into one read.
  pub Reach-overlap :
      (s : CSession) (i j : ℤ) (m₁ m₂ bs : List ℕ)
      → 2 ≤ n
      → s.send_queue ≡ []
      → length m₁ ≤ 2 ^ 31 - 6
      → length m₂ ≤ 2 ^ 31 - 6
      → length bs ≤ max_lenght
      → (t : Threads) × Reach p n s t
        × (t.running
            ≡ record { on_strand = false; event = write_done false }
              ∷ record { on_strand = true; event = read_done bs }
              ∷ [])
  Reach-overlap s i j m₁ m₂ bs two q l₁ l₂ l =
      let (s₁, sent₁, q₁) = first_sent (wipe s) i m₁ (rw (wipe-queue s) q) in
      let (s₂, sent₂, q₂) = then_sent s₁ i j m₁ m₂ q₁ in
      let (s₃, written) = next_written s₂ i j m₁ m₂ q₂ in
      let job : Job = record { on_strand = true; event = write_done false } in
      let read : Job = record { on_strand = true; event = read_done bs } in
      let write : Job = record { on_strand = false; event = write_done false } in
      let none_runs : length {A = Job} [] < n = omega (arith, two) in
      let one_runs : length (read ∷ []) < n = omega (arith, two) in
      let alone : stranded (job ∷ []) ≤ 1 = omega arith in
      let r₀ = begins _ (opened-reads s) in
      let r₁ = goes_on _ _ r₀ (calls_send _ i m₁ s₁ _ l₁ sent₁) in
      let r₂ = goes_on _ _ r₁ (calls_send _ j m₂ s₂ _ l₂ sent₂) in
      let r₃ = goes_on _ _ r₂ (
        completes _ (bound start_read ∷ []) [] (bound (start_write (frame i m₁))) job refl
          (refl, tt)) in
      let r₄ = goes_on _ _ r₃ (takes _ [] [] job refl none_runs alone) in
      let r₅ = goes_on _ _ r₄ (finishes _ [] [] job s₃ _ refl written) in
      let r₆ = goes_on _ _ r₅ (
        completes _ [] (plain (start_write (frame j m₂)) ∷ []) (bound start_read) read refl
          (refl, l)) in
      let r₇ = goes_on _ _ r₆ (takes _ [] [] read refl none_runs alone) in
      let r₈ =
        goes_on _ _ r₇
          (completes _ [] [] (plain (start_write (frame j m₂))) write refl (refl, tt)) in
      let r₉ = goes_on _ _ r₈ (takes _ [] [] write refl one_runs alone) in (_, r₉, refl)
