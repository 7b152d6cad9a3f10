-- ===== src/Logic/Threads.antt =====
-- `PostMsgToQue`, `DealMsg` and the destructor of LogicSystem.cpp as threads: which of them runs next
-- is open, and `_mutex` and `_cv` order them.
pub mod Safety
pub mod Progress
use cppmulti_thread_server_b.Prelude.{
  ℕ, ◌+◌, ◌-◌, ◌<◌, ◌≡◌, ◌≢◌, List, [], ◌∷◌, ◌++◌, Bool, true, false, if◌then◌else◌,
}
use cppmulti_thread_server_b.Memory.{done}
use cppmulti_thread_server_b.Platform.{Platform}
use cppmulti_thread_server_b.Logic.{
  LogicNode, LogicSystem, Reply, new_system, post_msg_to_que, deal_front, drain,
}

-- Where the worker thread stands: at the head of the loop; inside `_cv.wait`'s caller, with the lock
-- and the test of the inner `while` passed; asleep in `wait`; returned.
pub data Worker : Type 0 where
  ready decided asleep finished : Worker

-- How far the destructor is: not called, `_b_stop` set, `notify_one` made and waiting in `join`.
pub data Phase : Type 0 where
  running stop_set joining : Phase

-- `notices` counts the posters that have left the lock and owe their `notify_one`; `posted`,
-- `handled` and `replies` are the history.
pub record System : Type 0 where
  pub logic : LogicSystem
  pub worker : Worker
  pub phase : Phase
  pub notices : ℕ
  pub posted : List LogicNode
  pub handled : List LogicNode
  pub replies : List Reply

-- `notify_one` wakes the worker if it is asleep, and is lost otherwise.
abbrev pub notified : Worker → Worker
notified asleep = ready
notified w = w

pub data Step (p : Platform) (s : System) : System → Type 0 where
  -- A push under the lock, which the worker holds between its test and its `wait`.
  posts :
      (msg : LogicNode)
      → s.worker ≢ decided
      → Step p s (record s {
        logic = (post_msg_to_que s.logic msg).0;
        notices = s.notices + (if (post_msg_to_que s.logic msg).1 then 1 else 0);
        posted = s.posted ++ msg ∷ [];
      })
  notifies :
      0 < s.notices → Step p s (record s { worker = notified s.worker; notices = s.notices - 1 })
  decides :
      s.worker ≡ ready
      → s.logic.msg_que ≡ []
      → s.logic.b_stop ≡ false
      → Step p s (record s { worker = decided })
  sleeps : s.worker ≡ decided → Step p s (record s { worker = asleep })
  -- A spurious wake-up.
  wakes : s.worker ≡ asleep → Step p s (record s { worker = ready })
  handles :
      {l : LogicSystem} {rs : List Reply} (n : LogicNode) (rest : List LogicNode)
      → s.worker ≡ ready
      → s.logic.b_stop ≡ false
      → s.logic.msg_que ≡ n ∷ rest
      → deal_front p s.logic ≡ done (l, rs)
      → Step p s (record s { logic = l; handled = s.handled ++ n ∷ []; replies = s.replies ++ rs })
  finishes :
      {rs : List Reply}
      → s.worker ≡ ready
      → s.logic.b_stop ≡ true
      → drain p s.logic.func_callbacks s.logic.msg_que ≡ done rs
      → Step p s (record s {
        logic = record s.logic { msg_que = [] };
        worker = finished;
        handled = s.handled ++ s.logic.msg_que;
        replies = s.replies ++ rs;
      })
  -- The destructor takes no lock.
  sets_stop :
      s.phase ≡ running
      → Step p s (record s { logic = record s.logic { b_stop = true }; phase = stop_set })
  notifies_stop :
      s.phase ≡ stop_set → Step p s (record s { worker = notified s.worker; phase = joining })

abbrev pub init : System
init = record {
  logic = new_system;
  worker = ready;
  phase = running;
  notices = 0;
  posted = [];
  handled = [];
  replies = [];
}

pub data Reach (p : Platform) (s : System) : System → Type 0 where
  here : Reach p s s
  next : {t u : System} → Reach p s t → Step p t u → Reach p s u
