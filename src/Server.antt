-- ===== src/Server.antt =====
-- SingleThreadAsyncServer/CServer.{h,cpp}: the acceptor, and the map of the sessions that are
-- connected. The server of AsioThreadPool differs in taking every context from one shared pool.
pub mod Registry
pub mod Run
use Prim.Native.String.{String}
use text.Mathlib.Text.{◌==◌ as str_eq}
use cppmulti_thread_server_b.Prelude.{
  ℕ, List, [], ◌∷◌, Bool, true, false, Option, none, some, ◌||◌, if◌then◌else◌,
}
use cppmulti_thread_server_b.Memory.{Outcome, done, fault, ◌>>=◌}
use cppmulti_thread_server_b.Platform.{Platform}
use cppmulti_thread_server_b.Effect.{Effect}
use cppmulti_thread_server_b.Session.{CSession, new_session}
use cppmulti_thread_server_b.Session.Read.{start}
use cppmulti_thread_server_b.ServicePool.{AsioIoServicePool, get_io_service}

-- `std::map<std::string, std::shared_ptr<CSession>>`: `insert` leaves a key that is there.
unfoldable pub contains : String → List (String × CSession) → Bool
contains k [] = false
contains k ((j, s) ∷ m) = str_eq j k || contains k m

unfoldable pub insert : String → CSession → List (String × CSession) → List (String × CSession)
insert k s m = if contains k m then m else (k, s) ∷ m

unfoldable pub erase : String → List (String × CSession) → List (String × CSession)
erase k [] = []
erase k ((j, s) ∷ m) = let rest = erase k m in if str_eq j k then rest else (j, s) ∷ rest

-- `pending` is the session that the acceptor waits to connect, with its context.
pub record CServer : Type 0 where
  pub sessions : List (String × CSession)
  pub pool : AsioIoServicePool
  pub pending : Option (ℕ × CSession)

-- `ClearSession`
unfoldable pub clear_session : CServer → String → CServer
clear_session s uuid = record s { sessions = erase uuid s.sessions }

-- `StartAccept`; `uuid` is what the generator gives the new session.
unfoldable pub start_accept : Platform → CServer → String → Outcome CServer
start_accept p s uuid = do
  t ← get_io_service s.pool
  new_session ← new_session p uuid
  done (record s { pool = t.1; pending = some (t.0, new_session) })

-- The constructor.
unfoldable pub new_server : Platform → AsioIoServicePool → String → Outcome CServer
new_server p pool uuid = start_accept p (record { sessions = []; pool = pool; pending = none }) uuid

-- What `HandleAccept` does with the session, before the next accept; `ec` is true for an error.
unfoldable pub register : CServer → Bool → CSession → CServer × List Effect
register s true new_session = (s, [])
register s false new_session = (
  record s { sessions = insert new_session.uuid (start new_session).0 s.sessions },
  (start new_session).1,
)

-- `HandleAccept`
unfoldable pub handle_accept : Platform → CServer → Bool → String → Outcome (CServer × List Effect)
handle_accept p s ec uuid = elim s.pending [
  | none ↦ fault
  | some (context, new_session) ↦ start_accept p (register s ec new_session).0 uuid >>= λ t.
      done (t, (register s ec new_session).1)
]
