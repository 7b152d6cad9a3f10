-- ===== src/Corotine/Server/Lifetime/Listed.antt =====
-- Which sessions are in the coroutine server's map.
use Prim.Native.String.{String}
use text.Mathlib.TextEquality.{eq_iff}
use cppmulti_thread_server_b.Prelude.{◌≡◌, true, false, ◌||◌, arith}
use cppmulti_thread_server_b.Memory.{done}
use cppmulti_thread_server_b.Platform.{Platform}
use cppmulti_thread_server_b.Corotine.ServicePool.{AsioIoServicePool}
use cppmulti_thread_server_b.Corotine.Server.{CServer, contains, clear_session, new_server}
use cppmulti_thread_server_b.Corotine.Server.Lifetime.{
  Lifetime, listed, Step, starts, inserts, ends, write_fails, Reach, begins, goes_on, constructed,
  opens, comes, start_acceptor-keeps, contains-insert, contains-erase,
}

module _ (p : Platform) where
  -- Only started sessions are in the map or have ended, and a started one that runs and whose writes
  -- have not failed is in the map or about to be put into it.
  pub record IsListed (t : Lifetime) : Type 0 where
    pub waiting : (u : String) → comes t.server.pending u ≡ true → listed u t.server.started ≡ false
    pub opened : (u : String) → opens t.opening u ≡ true → listed u t.server.started ≡ true
    pub over : (u : String) → listed u t.ended ≡ true → listed u t.server.started ≡ true
    pub only : (u : String) → contains u t.server.sessions ≡ true → listed u t.server.started ≡ true
    pub kept :
        (u : String)
        → listed u t.server.started ≡ true
        → listed u t.ended ≡ false
        → listed u t.failed ≡ false
        → contains u t.server.sessions || opens t.opening u ≡ true

  Step-IsListed : (t t' : Lifetime) → Step p t t' → IsListed t → IsListed t'
  unfolding listed clear_session
  Step-IsListed _ _ (starts t context session o w) v = record {
    waiting = λ u e. absurd cc;
    opened = λ u e. ground arith;
    over = λ u e. ground (arith, v.over u);
    only = λ u e. ground (arith, v.only u);
    kept = λ u e f g. ground (arith, v.kept u, eq_iff session.uuid u);
  }
  Step-IsListed _ _ (inserts t session next server o fresh e) v =
      let (same, known, coming) = start_acceptor-keeps p _ server next e in
      record {
        waiting = λ u f. ground (arith, coming u, known, eq_iff next u, fresh);
        opened = λ u f. absurd cc;
        over = λ u f. ground (arith, v.over u, known);
        only = λ u f. ground (
          arith,
          same,
          known,
          contains-insert u session.uuid session t.server.sessions,
          v.only u,
          v.opened u,
        );
        kept = λ u f g x. ground (
          arith,
          same,
          known,
          contains-insert u session.uuid session t.server.sessions,
          v.kept u,
        );
      }
  Step-IsListed _ _ (ends t uuid r e) v = record {
    waiting = v.waiting;
    opened = v.opened;
    over = λ u f. ground (arith, v.over u, eq_iff uuid u);
    only = λ u f. ground (arith, v.only u, contains-erase u uuid t.server.sessions);
    kept = λ u f g x. ground (arith, v.kept u, contains-erase u uuid t.server.sessions);
  }
  Step-IsListed _ _ (write_fails t uuid r e) v = record {
    waiting = v.waiting;
    opened = v.opened;
    over = λ u f. ground (arith, v.over u);
    only = λ u f. ground (arith, v.only u, contains-erase u uuid t.server.sessions);
    kept = λ u f g x. ground (arith, v.kept u, contains-erase u uuid t.server.sessions);
  }

  new_server-IsListed :
      (pool : AsioIoServicePool) (uuid : String) (s : CServer)
      → new_server p pool uuid ≡ done s
      → IsListed (constructed p s)
  unfolding new_server constructed listed contains
  new_server-IsListed pool uuid s e =
      let (same, known, coming) = start_acceptor-keeps p _ s uuid e in
      record {
        waiting = λ u f. ground (arith, known);
        opened = λ u f. absurd cc;
        over = λ u f. absurd cc;
        only = λ u f. absurd (ground (arith, same));
        kept = λ u f g x. absurd (ground (arith, known));
      }

  -- In every state of a coroutine server, however the ends of its sessions and the failures of their writes
  -- fall between the steps of `HandleAcceptor`: a session that has been started, whose coroutine has not
  -- ended and none of whose writes has failed, is in the map, or is the one that
  -- `HandleAcceptor` has started and not inserted yet; only sessions that were started are in the map
  -- or have ended; and the session that waits to be accepted has not been started. The uuid of a next
  -- session is one that no started session has.
  pub Reach-IsListed :
      (pool : AsioIoServicePool) (uuid : String) (s : CServer) (t : Lifetime)
      → new_server p pool uuid ≡ done s
      → Reach p (constructed p s) t
      → IsListed t
  Reach-IsListed pool uuid s _ e begins = new_server-IsListed pool uuid s e
  Reach-IsListed pool uuid s _ e (goes_on t t' r k) =
      Step-IsListed t t' k (Reach-IsListed pool uuid s t e r)
