-- ===== src/Corotine/Logic/Threads/Safety.antt =====
-- What holds in every reachable state of the coroutine server's logic threads.
use cppmulti_thread_server_b.Prelude.{
  ◌≡◌, ◌≢◌, refl, ap, sym, ◌∙◌, List, [], ◌∷◌, ◌++◌, Bool, true, false, length, ◌==◌, if◌then◌else◌,
  append_assoc, append-nil, arith,
}
use cppmulti_thread_server_b.Memory.{done}
use cppmulti_thread_server_b.Platform.{Platform}
use cppmulti_thread_server_b.Logic.{LogicNode, LogicSystem, Reply, new_system}
use cppmulti_thread_server_b.Logic.Threads.{Worker, ready, decided, asleep, finished, notified}
use cppmulti_thread_server_b.Corotine.Logic.{post_msg_to_que, deal_front}
use cppmulti_thread_server_b.Corotine.Logic.Threads.{
  System, Step, posts, decides, sleeps, wakes, handles, finishes, sets_stop, notifies_stop, init,
  Reach, here, next,
}

pub record IsWoken (s : System) : Type 0 where
  -- The worker never sleeps over a message.
  pub sleeps_empty : s.worker ≡ asleep → s.logic.msg_que ≡ []
  pub tested : s.worker ≡ decided → s.logic.msg_que ≡ []
  -- Messages are handled in the order of their posts, each once.
  pub in_order : s.posted ≡ s.handled ++ s.logic.msg_que

notified-asleep : (w : Worker) → notified w ≢ asleep
notified-asleep ready e = cc
notified-asleep decided e = cc
notified-asleep asleep e = cc
notified-asleep finished e = cc

notified-decided : (w : Worker) → notified w ≡ decided → w ≡ decided
notified-decided ready e = e
notified-decided decided e = e
notified-decided asleep e = cc
notified-decided finished e = e

stays_asleep :
    (b : Bool) (w : Worker) → (if b then notified w else w) ≡ asleep → (b ≡ false) × (w ≡ asleep)
stays_asleep true w e = absurd (notified-asleep w e)
stays_asleep false w e = (refl, e)

was_decided : (b : Bool) (w : Worker) → (if b then notified w else w) ≡ decided → w ≡ decided
was_decided true w e = notified-decided w e
was_decided false w e = e

-- A sleeper is woken by a push to its empty queue.
woken :
    (q : List LogicNode) (msg : LogicNode) (w : Worker)
    → (w ≡ asleep → q ≡ [])
    → (if length (q ++ msg ∷ []) == 1 then notified w else w) ≢ asleep
woken [] msg w h e = notified-asleep w e
woken (n ∷ q) msg w h e =
    let (kept, slept) = stays_asleep (length ((n ∷ q) ++ msg ∷ []) == 1) w e in
    let none_left : n ∷ q ≡ [] = h slept in cc

posts-IsWoken :
    (s : System) (msg : LogicNode)
    → s.worker ≢ decided
    → IsWoken s
    → IsWoken (record s {
      logic = (post_msg_to_que s.logic msg).0;
      worker = if (post_msg_to_que s.logic msg).1 then notified s.worker else s.worker;
      posted = s.posted ++ msg ∷ [];
    })
unfolding post_msg_to_que
posts-IsWoken s msg free v = record {
  sleeps_empty = λ a. absurd (woken s.logic.msg_que msg s.worker v.sleeps_empty a);
  tested = λ d. absurd (free (was_decided _ s.worker d));
  in_order = ap (λ l. l ++ msg ∷ []) v.in_order ∙ append_assoc s.handled s.logic.msg_que (msg ∷ []);
}

deal_front-rest :
    (p : Platform) (l l' : LogicSystem) (n : LogicNode) (rest : List LogicNode) (rs : List Reply)
    → l.msg_que ≡ n ∷ rest
    → deal_front p l ≡ done (l', rs)
    → l'.msg_que ≡ rest
unfolding deal_front
deal_front-rest p l l' n rest rs q e = ground arith

module _ (p : Platform) where
  Step-IsWoken : {s t : System} → Step p s t → IsWoken s → IsWoken t
  Step-IsWoken {s} (posts msg free) v = posts-IsWoken s msg free v
  Step-IsWoken {s} (decides w q b) v = record {
    sleeps_empty = λ a. q;
    tested = λ d. q;
    in_order = v.in_order;
  }
  Step-IsWoken {s} (sleeps w) v = record {
    sleeps_empty = λ a. v.tested w;
    tested = λ d. cc;
    in_order = v.in_order;
  }
  Step-IsWoken {s} (wakes w) v = record {
    sleeps_empty = λ a. cc;
    tested = λ d. cc;
    in_order = v.in_order;
  }
  Step-IsWoken {s} (handles {l} {rs} n rest w b q e) v =
      let q' = deal_front-rest p s.logic l n rest rs q e in
      record {
        sleeps_empty = λ a. cc;
        tested = λ d. cc;
        in_order =
            v.in_order
            ∙ ap (λ x. s.handled ++ x) q
            ∙ sym (append_assoc s.handled (n ∷ []) rest)
            ∙ ap (λ x. (s.handled ++ n ∷ []) ++ x) (sym q');
      }
  Step-IsWoken {s} (finishes w b e) v = record {
    sleeps_empty = λ a. refl;
    tested = λ d. refl;
    in_order = v.in_order ∙ sym (append-nil (s.handled ++ s.logic.msg_que));
  }
  Step-IsWoken {s} (sets_stop h) v = record {
    sleeps_empty = v.sleeps_empty;
    tested = v.tested;
    in_order = v.in_order;
  }
  Step-IsWoken {s} (notifies_stop h) v = record {
    sleeps_empty = λ a. absurd (notified-asleep s.worker a);
    tested = λ d. v.tested (notified-decided s.worker d);
    in_order = v.in_order;
  }

  init-IsWoken : IsWoken init
  unfolding new_system
  init-IsWoken = record { sleeps_empty = λ a. cc; tested = λ d. refl; in_order = refl }

  -- In every reachable state of the coroutine server's logic threads, where a poster makes its
  -- `notify_one` under the lock: a worker that is asleep has an empty queue, and so has one that stands
  -- between its test and `wait`; and the messages that were posted are those that are handled and then
  -- those in the queue, in the order of the posts, each once.
  pub Reach-IsWoken : {s : System} → Reach p init s → IsWoken s
  Reach-IsWoken here = init-IsWoken
  Reach-IsWoken (next r st) = Step-IsWoken st (Reach-IsWoken r)
