-- ===== src/Logic/Threads/Progress.antt =====
-- A message that is posted can always still be answered.
use cppmulti_thread_server_b.Prelude.{◌≡◌, true}
use cppmulti_thread_server_b.Platform.{Platform}
use cppmulti_thread_server_b.Logic.Threads.{finished, System}

-- The worker returns only at a stop.
abbrev IsWorking : System → Type 0
IsWorking s = s.worker ≡ finished → s.logic.b_stop ≡ true
