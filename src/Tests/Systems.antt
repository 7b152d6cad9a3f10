-- ===== src/Tests/Systems.antt =====
-- Whole servers, and the life of a session beside its acceptor, on concrete values.
use Prim.Native.String.{String}
use cppmulti_thread_server_b.Prelude.{
  ◌≡◌, refl, ◌∙◌, inl, List, [], ◌∷◌, ◌++◌, false, true, ◌||◌, none, some, pos, arith,
}
use cppmulti_thread_server_b.Memory.{done, throws}
use cppmulti_thread_server_b.Effect.{Effect, post}
use cppmulti_thread_server_b.MsgNode.Frame.{frame}
use cppmulti_thread_server_b.Logic.{new_system}
use cppmulti_thread_server_b.Corotine.Logic as CorotineLogic
use cppmulti_thread_server_b.Client.RoundTrip.{request-frame}
use cppmulti_thread_server_b.System.{System, asked, Reach, begins, goes_on, asks, arrives}
use cppmulti_thread_server_b.System.Corotine as CorotineSystem
use cppmulti_thread_server_b.System.Corotine.{corotine_start}
use cppmulti_thread_server_b.Corotine.Server as CorotineServer
use cppmulti_thread_server_b.MsgNode
use cppmulti_thread_server_b.Session.Fresh.{fresh_session, fresh_session-HasHead}
use cppmulti_thread_server_b.Exchange.Callback.{packet_came}
use cppmulti_thread_server_b.System.Callback as CallbackSystem
use cppmulti_thread_server_b.System.Callback.{callback_start}
use cppmulti_thread_server_b.System.Pool as PoolSystem
use cppmulti_thread_server_b.System.Pool.{pool_start}
use cppmulti_thread_server_b.Corotine.ServicePool.{AsioIoServicePool}
use cppmulti_thread_server_b.Corotine.Server.Lifetime as Lifetimes
use cppmulti_thread_server_b.Corotine.Server.Lifetime.{Lifetime, constructed, listed}
use cppmulti_thread_server_b.Corotine.Server.Lifetime.Listed.{IsListed, Reach-IsListed}
use cppmulti_thread_server_b.Corotine.Server.Lifetime.Left.{ended_stays}
use cppmulti_thread_server_b.Session.Read.{on_bytes}
use cppmulti_thread_server_b.MsgNode.{RecvNode}
use cppmulti_thread_server_b.Corotine
use cppmulti_thread_server_b.Corotine.Start.{round, again, start}
use cppmulti_thread_server_b.Corotine.Life as Corotines
use cppmulti_thread_server_b.Corotine.Life.Sound.{IsSound}
use cppmulti_thread_server_b.Corotine.Life.Spawned.{spawned-IsSound}
use cppmulti_thread_server_b.Corotine.Life.Alone
use cppmulti_thread_server_b.Corotine.Life.Sequential.{spawned-IsSequential}
use cppmulti_thread_server_b.Exchange.Unreadable.{on_bytes-throws, deal_front-throws}
use cppmulti_thread_server_b.Tests.{platform, hello, bye, corotine, corotine-IsHead}

abbrev names : List String
names = "a" ∷ "b" ∷ []

abbrev corotine_began : System (CorotineSystem.host platform)
corotine_began = corotine_start platform 2 (CorotineServer.fresh_session platform)

-- Both clients have written their request, and the second one's has come in.
unfoldable corotine_second_asked :
    (t : System (CorotineSystem.host platform)) × Reach
      (CorotineSystem.host platform)
      platform
      hello
      names
      corotine_began
      3
      t
    × ((t.clients "b").phase ≡ asked)
unfolding corotine_start
corotine_second_asked = (
  _,
  goes_on _ _ _
      (goes_on _ _ _
        (goes_on _ _ _ begins (
          asks _ "a" 1 (frame (pos 1001) hello) refl refl refl
            (request-frame platform hello (omega arith))))
        (asks _ "b" 1 (frame (pos 1001) hello) refl refl refl
          (request-frame platform hello (omega arith))))
      (arrives _ "b" _ _ _ refl (
        CorotineSystem.receives platform hello (104 ∷ 105 ∷ []) (pos 1001) refl refl (omega arith)
          (CorotineServer.fresh_session platform "b") refl
          (CorotineSystem.fresh_session-IsWaiting platform "b").is_head)),
  refl,
)

abbrev callback_began : System (CallbackSystem.host platform)
callback_began = callback_start platform 2 (fresh_session platform)

-- The first client's request has come in, and the second one's is on the wire.
unfoldable callback_first_asked :
    (t : System (CallbackSystem.host platform)) × Reach
      (CallbackSystem.host platform)
      platform
      hello
      names
      callback_began
      3
      t
    × ((t.clients "a").phase ≡ asked)
unfolding callback_start CallbackSystem.receive
callback_first_asked = (
  _,
  goes_on _ _ _
      (goes_on _ _ _
        (goes_on _ _ _ begins (
          asks _ "a" 1 (frame (pos 1001) hello) refl refl refl
            (request-frame platform hello (omega arith))))
        (arrives _ "a" _ _ _ refl
          (packet_came platform (fresh_session platform "a") hello (104 ∷ 105 ∷ []) (pos 1001)
            (record { waiting = fresh_session-HasHead platform "a"; queue = refl }) refl refl
            (omega arith)).1))
      (asks _ "b" 1 (frame (pos 1001) hello) refl refl refl
        (request-frame platform hello (omega arith))),
  refl,
)

abbrev pool : AsioIoServicePool
pool = record { io_service = 2; works = true ∷ true ∷ []; threads = 2; next_io_service = 0 }

ended_stays_example :
    (s : CorotineServer.CServer) × (t : Lifetime) × (CorotineServer.new_server platform pool "a"
      ≡ done s)
    × Lifetimes.Reach platform (constructed platform s) t
    × (t.opening ≡ none)
    × (listed "a" t.ended ≡ true)
    × (CorotineServer.contains "a" t.server.sessions ≡ true)
    × (t.failed ≡ [])
    × ((t' : Lifetime)
        → Lifetimes.Reach platform t t'
        → CorotineServer.contains "a" t'.server.sessions || listed "a" t'.failed ≡ true)
ended_stays_example = ended_stays platform pool "a" "b" (omega arith) refl

-- The first session has been started.
abbrev new_one : CorotineServer.CServer
new_one = record {
  sessions = [];
  pool = pool;
  pending = some (0, CorotineServer.fresh_session platform "a");
  started = [];
}

abbrev opening_one : Lifetime
opening_one = record {
  server = record new_one { pending = none; started = "a" ∷ [] };
  opening = some (CorotineServer.fresh_session platform "a");
  ended = [];
  failed = [];
}

Reach-IsListed_example : IsListed platform opening_one
unfolding constructed CorotineServer.new_server
Reach-IsListed_example =
    Reach-IsListed platform pool "a" new_one opening_one
      (CorotineServer.start_acceptor-fresh platform
        (record { sessions = []; pool = pool; pending = none; started = [] }) "a" (omega arith))
      (Lifetimes.goes_on _ _ Lifetimes.begins
        (Lifetimes.starts _ 0 (CorotineServer.fresh_session platform "a") refl refl))

abbrev pool_began : System (PoolSystem.host platform)
pool_began = pool_start platform 2 (fresh_session platform)

-- The second client's request has come in, and the first one's is on the wire.
unfoldable pool_second_asked :
    (t : System (PoolSystem.host platform)) × Reach
      (PoolSystem.host platform)
      platform
      hello
      names
      pool_began
      3
      t
    × ((t.clients "b").phase ≡ asked)
unfolding pool_start CallbackSystem.receive
pool_second_asked = (
  _,
  goes_on _ _ _
      (goes_on _ _ _
        (goes_on _ _ _ begins (
          asks _ "a" 1 (frame (pos 1001) hello) refl refl refl
            (request-frame platform hello (omega arith))))
        (asks _ "b" 1 (frame (pos 1001) hello) refl refl refl
          (request-frame platform hello (omega arith))))
      (arrives _ "b" _ _ _ refl (
        PoolSystem.receive-plain platform (fresh_session platform "b") (frame (pos 1001) hello)
        ∙ (packet_came platform (fresh_session platform "b") hello (104 ∷ 105 ∷ []) (pos 1001)
            (record { waiting = fresh_session-HasHead platform "b"; queue = refl }) refl refl
            (omega arith)).1)),
  refl,
)

spawned-IsSound_example :
    (l : Corotines.Life) × (Corotines.run platform
        (Corotines.spawned corotine (frame (pos 1001) hello))
        (Corotines.turns
          ∷ Corotines.sends (pos 1001) bye
          ∷ Corotines.write_done true
          ∷ Corotines.turns
          ∷ [])
      ≡ done l)
    × IsSound l
spawned-IsSound_example =
    spawned-IsSound platform corotine (frame (pos 1001) hello)
      (Corotines.turns
        ∷ Corotines.sends (pos 1001) bye
        ∷ Corotines.write_done true
        ∷ Corotines.turns
        ∷ [])
      corotine-IsHead refl refl (ground arith) (tt, (omega arith, (tt, (tt, tt))))

spawned-IsSequential_example :
    (l : Corotines.Life) × (s' : Corotine.CSession) × (later : List Effect) × (Corotines.run
        platform
        (Corotines.spawned corotine (frame (pos 1001) hello))
        (Corotines.sends (pos 1001) bye ∷ Corotines.turns ∷ Corotines.write_done false ∷ [])
      ≡ done l)
    × (start platform 8 corotine (frame (pos 1001) hello) ≡ done (s', Alone.asked l.log ++ later))
    × (l.over ≡ true → later ≡ [])
spawned-IsSequential_example =
    spawned-IsSequential platform 8 corotine (frame (pos 1001) hello)
      (Corotines.sends (pos 1001) bye ∷ Corotines.turns ∷ Corotines.write_done false ∷ [])
      (omega arith) corotine-IsHead refl refl (ground arith) (omega arith, (tt, (tt, tt))) tt

on_bytes-throws_example :
    on_bytes platform 6 (fresh_session platform "a") (frame (pos 1001) []) ≡ throws
on_bytes-throws_example =
    on_bytes-throws platform 5 (fresh_session platform "a") [] (pos 1001)
      (fresh_session-HasHead platform "a") (omega arith) refl (omega arith) (inl refl)

deal_front-throws_example :
    (s' : Corotine.CSession) × (node : RecvNode) × (round platform corotine (frame (pos 1001) [])
      ≡ done (again s' [] (post node ∷ [])))
    × (CorotineLogic.deal_front platform
          (record new_system { msg_que = record { session = "c"; recv_node = node } ∷ [] })
        ≡ throws)
unfolding new_system
deal_front-throws_example =
    deal_front-throws platform corotine [] new_system [] corotine-IsHead (omega arith) refl
      (inl refl)
