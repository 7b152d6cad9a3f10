-- ===== src/ThreadPool/Threads/Counts.antt =====
-- How the steps of the threads move the counts of reads, writes and handlers.
use cppmulti_thread_server_b.Prelude.{
  ◌+◌, ◌≤◌, ◌≡◌, refl, ap, ◌∙◌, List, [], ◌∷◌, ◌++◌, length, arith, length-append,
}
use cppmulti_thread_server_b.Effect.{
  Effect, start_read, start_read_head, start_read_msg, start_write, post, close_socket,
  clear_session,
}
use cppmulti_thread_server_b.Effect.Counts.{reads, writes, reads-append, writes-append}
use cppmulti_thread_server_b.Session.Life.{Event, sends, read_done, read_failed, write_done}
use cppmulti_thread_server_b.ThreadPool.Session.{Call, bound, plain, effects}
use cppmulti_thread_server_b.ThreadPool.Threads.{
  Job, is_reading, is_writing, readers, writers, stranded, IsEnd, Completes,
}

pub effects-append : (xs ys : List Call) → effects (xs ++ ys) ≡ effects xs ++ effects ys
effects-append [] ys = refl
effects-append (bound e ∷ xs) ys = ap (λ t. e ∷ t) (effects-append xs ys)
effects-append (plain e ∷ xs) ys = ap (λ t. e ∷ t) (effects-append xs ys)

pub call_reads-append :
    (xs ys : List Call) → reads (effects (xs ++ ys)) ≡ reads (effects xs) + reads (effects ys)
call_reads-append xs ys = ap reads (effects-append xs ys) ∙ reads-append (effects xs) (effects ys)

pub call_writes-append :
    (xs ys : List Call)
    → length (writes (effects (xs ++ ys)))
      ≡ length (writes (effects xs)) + length (writes (effects ys))
call_writes-append xs ys =
    ap (λ t. length (writes t)) (effects-append xs ys)
    ∙ ap length (writes-append (effects xs) (effects ys))
    ∙ length-append (writes (effects xs)) (writes (effects ys))

pub readers-append : (xs ys : List Job) → readers (xs ++ ys) ≡ readers xs + readers ys
readers-append [] ys = omega arith
readers-append (j ∷ xs) ys = omega (arith, readers-append xs ys)

pub writers-append : (xs ys : List Job) → writers (xs ++ ys) ≡ writers xs + writers ys
writers-append [] ys = omega arith
writers-append (j ∷ xs) ys = omega (arith, writers-append xs ys)

pub stranded-append : (xs ys : List Job) → stranded (xs ++ ys) ≡ stranded xs + stranded ys
stranded-append [] ys = omega arith
stranded-append (j ∷ xs) ys = omega (arith, stranded-append xs ys)

-- A handler is of at most one read or write.
pub is_one : (e : Event) → is_reading e + is_writing e ≤ 1
is_one (sends msg_id msg) = omega arith
is_one (read_done bs) = omega arith
is_one read_failed = omega arith
is_one (write_done ec) = omega arith

pub readers-writers : (js : List Job) → readers js + writers js ≤ length js
readers-writers [] = omega arith
readers-writers (j ∷ js) = omega (arith, is_one j.event, readers-writers js)

-- The end of an operation is the end of one read or of one write.
pub record Counted (c : Call) (e : Event) : Type 0 where
  pub read : (cs : List Call) → reads (effects (c ∷ cs)) ≡ is_reading e + reads (effects cs)
  pub written :
      (cs : List Call)
      → length (writes (effects (c ∷ cs))) ≡ is_writing e + length (writes (effects cs))
  pub one : is_reading e + is_writing e ≡ 1

-- A call is its effect, on the strand or not.
IsEnd-Counted : (e : Effect) (v : Event) → IsEnd e v → Counted (bound e) v
IsEnd-Counted start_read (sends msg_id msg) h = absurd h
IsEnd-Counted start_read (read_done bs) h = record {
  read = λ cs. omega arith;
  written = λ cs. omega arith;
  one = omega arith;
}
IsEnd-Counted start_read read_failed h = record {
  read = λ cs. omega arith;
  written = λ cs. omega arith;
  one = omega arith;
}
IsEnd-Counted start_read (write_done ec) h = absurd h
IsEnd-Counted (start_read_head n) v h = absurd h
IsEnd-Counted (start_read_msg n) v h = absurd h
IsEnd-Counted (start_write b) (sends msg_id msg) h = absurd h
IsEnd-Counted (start_write b) (read_done bs) h = absurd h
IsEnd-Counted (start_write b) read_failed h = absurd h
IsEnd-Counted (start_write b) (write_done ec) h = record {
  read = λ cs. omega arith;
  written = λ cs. omega arith;
  one = omega arith;
}
IsEnd-Counted (post r) v h = absurd h
IsEnd-Counted close_socket v h = absurd h
IsEnd-Counted (clear_session u) v h = absurd h

pub Completes-Counted : (c : Call) (j : Job) → Completes c j → Counted c j.event
Completes-Counted (bound e) j (s, h) = IsEnd-Counted e j.event h
Completes-Counted (plain e) j (s, h) =
    let k = IsEnd-Counted e j.event h in record { read = k.read; written = k.written; one = k.one }
