-- ===== src/Corotine/Server.antt =====
-- CorotineServer/CServer.{h,cpp}: the acceptor of the coroutine server. Each access of the map is under
-- `_mutex`.
pub mod Lifetime
use Prim.Native.String.{String}
use text.Mathlib.Text.{◌==◌ as str_eq}
use text.Mathlib.TextPositions.{eq_refl}
use cppmulti_thread_server_b.Prelude.{
  ℕ, ◌<◌, ◌≡◌, refl, ◌∙◌, List, [], ◌∷◌, Bool, true, false, Option, none, some, ◌||◌, if◌then◌else◌,
  pos, arith,
}
use cppmulti_thread_server_b.Memory.{Outcome, done, fault, ◌>>=◌}
use cppmulti_thread_server_b.Platform.{Platform}
use cppmulti_thread_server_b.MsgNode.{msg_node, head_total_len}
use cppmulti_thread_server_b.MsgNode.Text.{fresh_node}
use cppmulti_thread_server_b.Corotine.{CSession}
use cppmulti_thread_server_b.Corotine.ServicePool.{
  AsioIoServicePool, get_io_service, get_io_service-same,
}

unfoldable pub contains : String → List (String × CSession) → Bool
contains k [] = false
contains k ((j, s) ∷ m) = str_eq j k || contains k m

unfoldable pub insert : String → CSession → List (String × CSession) → List (String × CSession)
insert k s m = if contains k m then m else (k, s) ∷ m

unfoldable pub erase : String → List (String × CSession) → List (String × CSession)
erase k [] = []
erase k ((j, s) ∷ m) = let rest = erase k m in if str_eq j k then rest else (j, s) ∷ rest

-- `pending` is the session that the acceptor waits to connect, with its context; `started` are the
-- sessions whose coroutine `Start` has spawned.
pub record CServer : Type 0 where
  pub sessions : List (String × CSession)
  pub pool : AsioIoServicePool
  pub pending : Option (ℕ × CSession)
  pub started : List String

-- The constructor of a session. The uuid comes from Boost's generator.
unfoldable pub new_session : Platform → String → Outcome CSession
new_session p uuid = do
  h ← msg_node p (pos head_total_len)
  done (record {
    uuid = uuid;
    b_close = false;
    send_que = [];
    recv_msg_node = none;
    recv_head_node = h;
  })

-- `ClearSesseion`
unfoldable pub clear_session : CServer → String → CServer
clear_session s uuid = record s { sessions = erase uuid s.sessions }

-- `StartAcceptor`; `uuid` is what the generator gives the new session.
unfoldable pub start_acceptor : Platform → CServer → String → Outcome CServer
start_acceptor p s uuid = do
  t ← get_io_service s.pool
  session ← new_session p uuid
  done (record s { pool = t.1; pending = some (t.0, session) })

-- The constructor.
unfoldable pub new_server : Platform → AsioIoServicePool → String → Outcome CServer
new_server p pool uuid =
    start_acceptor p (record { sessions = []; pool = pool; pending = none; started = [] }) uuid

-- The `try` block of `HandleAcceptor`.
unfoldable pub register : CServer → CSession → CServer
register s session = record s {
  sessions = insert session.uuid session s.sessions;
  started = session.uuid ∷ s.started;
}

-- `HandleAcceptor`. The error code is not looked at.
unfoldable pub handle_acceptor : Platform → CServer → Bool → String → Outcome CServer
handle_acceptor p s ec uuid = elim s.pending [
  | none ↦ fault
  | some (context, session) ↦ start_acceptor p (register s session) uuid
]

contains-insert :
    (k : String) (s : CSession) (m : List (String × CSession)) → contains k (insert k s m) ≡ true
unfolding contains insert
contains-insert k s m = ground (arith, eq_refl k)

-- The session that the constructor makes.
abbrev pub fresh_session : Platform → String → CSession
fresh_session p uuid = record {
  uuid = uuid;
  b_close = false;
  send_que = [];
  recv_msg_node = none;
  recv_head_node = fresh_node p 4;
}

pub start_acceptor-fresh :
    (p : Platform) (s : CServer) (uuid : String)
    → s.pool.next_io_service < s.pool.io_service
    → start_acceptor p s uuid
      ≡ done (record s { pending = some (s.pool.next_io_service, fresh_session p uuid) })
unfolding start_acceptor new_session msg_node
start_acceptor-fresh p s uuid h = rw (get_io_service-same s.pool h) refl

start_acceptor-waits :
    (p : Platform) (s : CServer) (uuid : String)
    → s.pool.next_io_service < s.pool.io_service
    → (s' : CServer) × (start_acceptor p s uuid ≡ done s')
      × (s'.sessions ≡ s.sessions)
      × (s'.started ≡ s.started)
start_acceptor-waits p s uuid h = (
  record s { pending = some (s.pool.next_io_service, fresh_session p uuid) },
  start_acceptor-fresh p s uuid h,
  refl,
  refl,
)

handle_acceptor-pending :
    (p : Platform) (s : CServer) (ec : Bool) (next : String) (context : ℕ) (session : CSession)
    → s.pending ≡ some (context, session)
    → handle_acceptor p s ec next ≡ start_acceptor p (register s session) next
unfolding handle_acceptor
handle_acceptor-pending p s ec next context session e = ground arith

-- An accept that failed is treated like one that succeeded: while the pool has a context to give, the
-- handler returns for every error code, and then the session that was waiting is in the server's map
-- and its coroutine is started.
pub handle_acceptor_registers :
    (p : Platform) (s : CServer) (ec : Bool) (next : String) (context : ℕ) (session : CSession)
    → s.pending ≡ some (context, session)
    → s.pool.next_io_service < s.pool.io_service
    → (s' : CServer) × (handle_acceptor p s ec next ≡ done s')
      × (contains session.uuid s'.sessions ≡ true)
      × (s'.started ≡ session.uuid ∷ s.started)
unfolding register
handle_acceptor_registers p s ec next context session e h =
    let s₁ = register s session in
    let (s', run, kept, known) = start_acceptor-waits p s₁ next h in
    (
      s',
      handle_acceptor-pending p s ec next context session e ∙ run,
      rw kept (contains-insert session.uuid session s.sessions),
      known,
    )
