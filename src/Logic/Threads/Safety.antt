-- ===== src/Logic/Threads/Safety.antt =====
-- What holds in every reachable state of the logic system's threads.
use cppmulti_thread_server_b.Prelude.{
  ℕ, ◌+◌, ◌-◌, ◌<◌, ◌≡◌, ◌≢◌, ◌⊎◌, refl, ap, sym, ◌∙◌, List, [], ◌∷◌, ◌++◌, true, length, ◌==◌,
  if◌then◌else◌, append_assoc, append-nil, arith,
}
use cppmulti_thread_server_b.Memory.{done}
use cppmulti_thread_server_b.Platform.{Platform}
use cppmulti_thread_server_b.Logic.{
  LogicNode, LogicSystem, Reply, post_msg_to_que, deal_front, new_system,
}
use cppmulti_thread_server_b.Logic.Threads.{
  Step, Worker, ready, decided, asleep, finished, Phase, running, joining, System, notified, Step,
  posts, notifies, decides, sleeps, wakes, handles, finishes, sets_stop, notifies_stop, init, Reach,
  here, next,
}

pub record Inv (s : System) : Type 0 where
  -- The worker sleeps over a message only while a poster still owes its `notify_one`.
  pub woken : s.worker ≡ asleep → s.logic.msg_que ≢ [] → 0 < s.notices
  pub tested : s.worker ≡ decided → s.logic.msg_que ≡ []
  -- Messages are handled in the order of their posts, each once.
  pub in_order : s.posted ≡ s.handled ++ s.logic.msg_que
  pub stopped : s.logic.b_stop ≡ true → s.phase ≢ running

owed :
    (q : List LogicNode) (msg : LogicNode) (k : ℕ)
    → (q ≢ [] → 0 < k)
    → 0 < k + (if length (q ++ msg ∷ []) == 1 then 1 else 0)
owed [] msg k h = omega arith
owed (n ∷ q) msg k h = let some_owed : 0 < k = h (λ e. cc) in omega arith

posts-Inv :
    (s : System) (msg : LogicNode)
    → s.worker ≢ decided
    → Inv s
    → Inv (record s {
      logic = (post_msg_to_que s.logic msg).0;
      notices = s.notices + (if (post_msg_to_que s.logic msg).1 then 1 else 0);
      posted = s.posted ++ msg ∷ [];
    })
unfolding post_msg_to_que
posts-Inv s msg free v = record {
  woken = λ a ne. owed s.logic.msg_que msg s.notices (v.woken a);
  tested = λ d. absurd (free d);
  in_order = ap (λ l. l ++ msg ∷ []) v.in_order ∙ append_assoc s.handled s.logic.msg_que (msg ∷ []);
  stopped = v.stopped;
}

-- A wake-up leaves nobody asleep, and nobody between the test and `wait` that was not there.
notified-Inv :
    (s : System) (n : ℕ) (f : Phase)
    → (s.logic.b_stop ≡ true → f ≢ running)
    → Inv s
    → Inv (record s { worker = notified s.worker; notices = n; phase = f })
notified-Inv s n f h v = record {
  woken = λ a ne. absurd (awake s.worker a);
  tested = λ d. v.tested (same s.worker d);
  in_order = v.in_order;
  stopped = h;
}
  where
    awake : (w : Worker) → notified w ≢ asleep
    awake ready e = cc
    awake decided e = cc
    awake asleep e = cc
    awake finished e = cc

    same : (w : Worker) → notified w ≡ decided → w ≡ decided
    same ready e = e
    same decided e = e
    same asleep e = cc
    same finished e = e

-- A step is a post that leaves the worker asleep, or wakes it with no notice.
abbrev pub IsForgotten : System → System → Type 0
IsForgotten t u =
    ((msg : LogicNode) × (u.logic ≡ (post_msg_to_que t.logic msg).0) × (u.worker ≡ asleep))
    ⊎ (u ≡ record t { worker = ready })

deal_front-rest :
    (p : Platform) (l l' : LogicSystem) (n : LogicNode) (rest : List LogicNode) (rs : List Reply)
    → l.msg_que ≡ n ∷ rest
    → deal_front p l ≡ done (l', rs)
    → (l'.msg_que ≡ rest) × (l'.b_stop ≡ l.b_stop)
unfolding deal_front
deal_front-rest p l l' n rest rs q e = ground arith

module _ (p : Platform) where
  Step-Inv : {s t : System} → Step p s t → Inv s → Inv t
  Step-Inv {s} (posts msg free) v = posts-Inv s msg free v
  Step-Inv {s} (notifies h) v = notified-Inv s (s.notices - 1) s.phase v.stopped v
  Step-Inv {s} (decides w q b) v = record {
    woken = λ a ne. cc;
    tested = λ d. q;
    in_order = v.in_order;
    stopped = v.stopped;
  }
  Step-Inv {s} (sleeps w) v = record {
    woken = λ a ne. absurd (ne (v.tested w));
    tested = λ d. cc;
    in_order = v.in_order;
    stopped = v.stopped;
  }
  Step-Inv {s} (wakes w) v = record {
    woken = λ a ne. cc;
    tested = λ d. cc;
    in_order = v.in_order;
    stopped = v.stopped;
  }
  Step-Inv {s} (handles {l} {rs} n rest w b q e) v =
      let (q', b') = deal_front-rest p s.logic l n rest rs q e in
      record {
        woken = λ a ne. cc;
        tested = λ d. cc;
        in_order =
            v.in_order
            ∙ ap (λ x. s.handled ++ x) q
            ∙ sym (append_assoc s.handled (n ∷ []) rest)
            ∙ ap (λ x. (s.handled ++ n ∷ []) ++ x) (sym q');
        stopped = λ d. v.stopped (sym b' ∙ d);
      }
  Step-Inv {s} (finishes w b e) v = record {
    woken = λ a ne. cc;
    tested = λ d. cc;
    in_order = v.in_order ∙ sym (append-nil (s.handled ++ s.logic.msg_que));
    stopped = v.stopped;
  }
  Step-Inv {s} (sets_stop h) v = record {
    woken = v.woken;
    tested = v.tested;
    in_order = v.in_order;
    stopped = λ b e. cc;
  }
  Step-Inv {s} (notifies_stop h) v = notified-Inv s s.notices joining (λ b e. cc) v

  init-Inv : Inv init
  unfolding new_system
  init-Inv = record { woken = λ a ne. cc; tested = λ d. refl; in_order = refl; stopped = λ b e. cc }

  -- In every reachable state: if the worker is asleep and a message is in the queue, then a poster
  -- still owes its `notify_one`, so that no message is slept over for good; while the worker is
  -- between its test and `wait` the queue is empty; and the messages that were posted are those that
  -- are handled and then those in the queue, in the order of the posts, each once.
  pub Reach-Inv : {s : System} → Reach p init s → Inv s
  Reach-Inv here = init-Inv
  Reach-Inv (next r st) = Step-Inv st (Reach-Inv r)
