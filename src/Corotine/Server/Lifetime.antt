-- ===== src/Corotine/Server/Lifetime.antt =====
-- `HandleAcceptor` and the end of a session on the thread of its context: the session is started before
-- it is put into the map.
pub mod Listed
pub mod Left
use Prim.Native.String.{String}
use text.Mathlib.Text.{◌==◌ as str_eq}
use text.Mathlib.TextEquality.{eq_iff}
use cppmulti_thread_server_b.Prelude.{
  ℕ, ◌<◌, ◌≡◌, refl, List, [], ◌∷◌, Bool, true, false, ◌||◌, Option, none, some, if◌then◌else◌,
  arith,
}
use cppmulti_thread_server_b.Memory.{done}
use cppmulti_thread_server_b.Platform.{Platform}
use cppmulti_thread_server_b.Corotine.{CSession}
use cppmulti_thread_server_b.MsgNode.{msg_node}
use cppmulti_thread_server_b.Corotine.ServicePool.{AsioIoServicePool, get_io_service}
use cppmulti_thread_server_b.Corotine.Server.{
  CServer, contains, insert, erase, clear_session, new_server, new_session, fresh_session,
  start_acceptor, start_acceptor-fresh,
}

-- A uuid in a list.
unfoldable pub listed : String → List String → Bool
listed u [] = false
listed u (v ∷ vs) = str_eq v u || listed u vs

-- `opening` is the session between `session->Start()` and the insertion, and `ended` are the sessions
-- whose coroutine has called `ClearSesseion`, and `failed` those whose `HandleWrite` has, on an error.
pub record Lifetime : Type 0 where
  pub server : CServer
  pub opening : Option CSession
  pub ended : List String
  pub failed : List String

module _ (p : Platform) where
  pub data Step : Lifetime → Lifetime → Type 0 where
    -- `session->Start()` in `HandleAcceptor`: from here on the coroutine runs on its own thread.
    starts :
        (t : Lifetime) (context : ℕ) (session : CSession)
        → t.opening ≡ none
        → t.server.pending ≡ some (context, session)
        → Step t (record t {
          server = record t.server { pending = none; started = session.uuid ∷ t.server.started };
          opening = some session;
        })
    -- The rest of `HandleAcceptor`, with the uuid of the next session, which no session has had.
    inserts :
        (t : Lifetime) (session : CSession) (next : String) (server : CServer)
        → t.opening ≡ some session
        → listed next t.server.started ≡ false
        → start_acceptor p
            (record t.server { sessions = insert session.uuid session t.server.sessions })
            next
          ≡ done server
        → Step t (record t { server = server; opening = none })
    -- A coroutine that runs ends, with `ClearSesseion`.
    ends :
        (t : Lifetime) (uuid : String)
        → listed uuid t.server.started ≡ true
        → listed uuid t.ended ≡ false
        → Step t (record t { server = clear_session t.server uuid; ended = uuid ∷ t.ended })
    -- A write of a session fails, and `HandleWrite` calls `ClearSesseion`. No write of it is started from
    -- then on.
    write_fails :
        (t : Lifetime) (uuid : String)
        → listed uuid t.server.started ≡ true
        → listed uuid t.failed ≡ false
        → Step t (record t { server = clear_session t.server uuid; failed = uuid ∷ t.failed })

  pub data Reach (start : Lifetime) : Lifetime → Type 0 where
    begins : Reach start start
    goes_on : (t t' : Lifetime) → Reach start t → Step t t' → Reach start t'

  -- A server that has been constructed, with its first session waiting to be accepted.
  unfoldable pub constructed : CServer → Lifetime
  constructed s = record { server = s; opening = none; ended = []; failed = [] }

abbrev pub opens : Option CSession → String → Bool
opens none u = false
opens (some session) u = str_eq session.uuid u

abbrev pub comes : Option (ℕ × CSession) → String → Bool
comes none u = false
comes (some (context, session)) u = str_eq session.uuid u

-- What `StartAcceptor` leaves when it returns.
pub start_acceptor-keeps :
    (p : Platform) (s s' : CServer) (uuid : String)
    → start_acceptor p s uuid ≡ done s'
    → (s'.sessions ≡ s.sessions)
      × (s'.started ≡ s.started)
      × ((u : String) → comes s'.pending u ≡ str_eq uuid u)
unfolding start_acceptor get_io_service new_session msg_node
start_acceptor-keeps p s s' uuid e = (ground arith, ground arith, λ u. ground arith)

pub contains-insert :
    (u k : String) (s : CSession) (m : List (String × CSession))
    → contains u (insert k s m) ≡ (if str_eq k u then true else contains u m)
unfolding contains insert
contains-insert u k s m = ground (arith, eq_iff k u)

pub contains-erase :
    (u k : String) (m : List (String × CSession))
    → contains u (erase k m) ≡ (if str_eq k u then false else contains u m)
unfolding contains erase
contains-erase u k [] = ground arith
contains-erase u k ((j, s) ∷ m) =
    ground (arith, eq_iff k u, eq_iff j k, eq_iff j u, contains-erase u k m)
