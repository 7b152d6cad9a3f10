-- ===== src/Corotine/Logic/Threads.antt =====
-- `PostMsgToQue`, `DealMsg` and the destructor of CorotineServer/LogicSystem.cpp as threads. A poster
-- makes its `notify_one` before it leaves the lock, so that push and notice are one step.
pub mod Safety
use cppmulti_thread_server_b.Prelude.{
  ℕ, ◌+◌, ◌≡◌, ◌≢◌, refl, ap, sym, ◌∙◌, List, [], ◌∷◌, ◌++◌, Bool, true, false, length, ◌==◌,
  if◌then◌else◌, append_assoc, append-nil, arith,
}
use cppmulti_thread_server_b.Memory.{done, ◌>>=◌}
use cppmulti_thread_server_b.Platform.{Platform}
use cppmulti_thread_server_b.Logic.{LogicNode, LogicSystem, Reply, new_system}
use cppmulti_thread_server_b.Logic.Threads.{
  Worker, ready, decided, asleep, finished, Phase, running, stop_set, joining, notified,
}
use cppmulti_thread_server_b.Corotine.Logic.{post_msg_to_que, deal_front, drain}

pub record System : Type 0 where
  pub logic : LogicSystem
  pub worker : Worker
  pub phase : Phase
  pub posted : List LogicNode
  pub handled : List LogicNode
  pub replies : List Reply

pub data Step (p : Platform) (s : System) : System → Type 0 where
  posts :
      (msg : LogicNode)
      → s.worker ≢ decided
      → Step p s (record s {
        logic = (post_msg_to_que s.logic msg).0;
        worker = if (post_msg_to_que s.logic msg).1 then notified s.worker else s.worker;
        posted = s.posted ++ msg ∷ [];
      })
  decides :
      s.worker ≡ ready
      → s.logic.msg_que ≡ []
      → s.logic.b_stop ≡ false
      → Step p s (record s { worker = decided })
  sleeps : s.worker ≡ decided → Step p s (record s { worker = asleep })
  -- A spurious wake-up.
  wakes : s.worker ≡ asleep → Step p s (record s { worker = ready })
  handles :
      {l : LogicSystem} {rs : List Reply} (n : LogicNode) (rest : List LogicNode)
      → s.worker ≡ ready
      → s.logic.b_stop ≡ false
      → s.logic.msg_que ≡ n ∷ rest
      → deal_front p s.logic ≡ done (l, rs)
      → Step p s (record s { logic = l; handled = s.handled ++ n ∷ []; replies = s.replies ++ rs })
  finishes :
      {rs : List Reply}
      → s.worker ≡ ready
      → s.logic.b_stop ≡ true
      → drain p s.logic.func_callbacks s.logic.msg_que ≡ done rs
      → Step p s (record s {
        logic = record s.logic { msg_que = [] };
        worker = finished;
        handled = s.handled ++ s.logic.msg_que;
        replies = s.replies ++ rs;
      })
  -- The destructor takes no lock.
  sets_stop :
      s.phase ≡ running
      → Step p s (record s { logic = record s.logic { b_stop = true }; phase = stop_set })
  notifies_stop :
      s.phase ≡ stop_set → Step p s (record s { worker = notified s.worker; phase = joining })

abbrev pub init : System
init = record {
  logic = new_system;
  worker = ready;
  phase = running;
  posted = [];
  handled = [];
  replies = [];
}

pub data Reach (p : Platform) (s : System) : System → Type 0 where
  here : Reach p s s
  next : {t u : System} → Reach p s t → Step p t u → Reach p s u
