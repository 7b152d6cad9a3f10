-- ===== src/ThreadPool/Server.antt =====
-- AsioThreadPool/CServer.{h,cpp}: the acceptor, which puts every session on the pool's one context.
use Prim.Native.String.{String}
use text.Mathlib.Text.{◌==◌ as str_eq}
use cppmulti_thread_server_b.Prelude.{
  ◌≡◌, refl, ap, ◌∙◌, List, [], ◌∷◌, ◌++◌, Bool, true, false, Option, none, some, if◌then◌else◌,
}
use cppmulti_thread_server_b.Memory.{Outcome, done, fault, ◌>>=◌}
use cppmulti_thread_server_b.Platform.{Platform}
use cppmulti_thread_server_b.Effect.{start_read}
use cppmulti_thread_server_b.Session.{CSession, new_session}
use cppmulti_thread_server_b.Session.Fresh.{fresh_session, new_session-fresh}
use cppmulti_thread_server_b.Session.Read
use cppmulti_thread_server_b.Server.{contains, insert, erase}
use cppmulti_thread_server_b.Server.Registry.{
  Registry, Event, accepts, clears, spec, contains-insert, contains-erase,
}
use cppmulti_thread_server_b.Server.Run.{spec_run, empty}
use cppmulti_thread_server_b.ThreadPool.Session.{Call, bound, bind_executor, on_strand, start}

-- `pending` is the session that the acceptor waits to connect.
pub record CServer : Type 0 where
  pub sessions : List (String × CSession)
  pub pending : Option CSession

-- `ClearSession`
unfoldable pub clear_session : CServer → String → CServer
clear_session s uuid = record s { sessions = erase uuid s.sessions }

-- `StartAccept`, on `_io_context`; `uuid` is what the generator gives the new session.
unfoldable pub start_accept : Platform → CServer → String → Outcome CServer
start_accept p s uuid =
    new_session p uuid >>= λ new_session. done (record s { pending = some new_session })

-- The constructor.
unfoldable pub new_server : Platform → String → Outcome CServer
new_server p uuid = start_accept p (record { sessions = []; pending = none }) uuid

-- What `HandleAccept` does with the session, before the next accept; `ec` is true for an error.
unfoldable pub register : CServer → Bool → CSession → Outcome (CServer × List Call)
register s true new_session = done (s, [])
register s false new_session = start new_session >>= λ t.
    done (record s { sessions = insert new_session.uuid t.0 s.sessions }, t.1)

-- `HandleAccept`
unfoldable pub handle_accept : Platform → CServer → Bool → String → Outcome (CServer × List Call)
handle_accept p s ec uuid = elim s.pending [
  | none ↦ fault
  | some new_session ↦ do
    t ← register s ec new_session
    s' ← start_accept p t.0 uuid
    done (s', t.1)
]

unfoldable pub step : Platform → CServer → Event → Outcome (CServer × List Call)
step p s (accepts ec next) = handle_accept p s ec next
step p s (clears uuid) = done (clear_session s uuid, [])

-- The events one after another, with the calls in order.
unfoldable pub run : Platform → CServer → List Event → Outcome (CServer × List Call)
run p s [] = done (s, [])
run p s (e ∷ es) = step p s e >>= λ t. run p t.0 es >>= λ u. done (u.0, t.1 ++ u.1)

-- A completed accept starts a read, bound to the strand of the session that it registers.
abbrev pub calls : Event → List Call
calls (accepts false next) = bound start_read ∷ []
calls (accepts true next) = []
calls (clears uuid) = []

abbrev pub calls_run : List Event → List Call
calls_run [] = []
calls_run (e ∷ es) = calls e ++ calls_run es

pub record Refines (s : CServer) (r : Registry) : Type 0 where
  pub same : (u : String) → contains u s.sessions ≡ r.registered u
  pub waiting : CSession
  pub is_waiting : s.pending ≡ some waiting
  pub is_coming : waiting.uuid ≡ r.coming

module _ (p : Platform) where
  step-Refines :
      (s : CServer) (r : Registry) (e : Event)
      → Refines s r
      → (s' : CServer) × (step p s e ≡ done (s', calls e)) × Refines s' (spec r e)
  unfolding step handle_accept register start_accept start on_strand bind_executor clear_session
      spec Read.start
  step-Refines s r (accepts true next) v = (
    record s { pending = some (fresh_session p next) },
    rw (v.is_waiting) (rw (new_session-fresh p next) refl),
    record { same = v.same; waiting = fresh_session p next; is_waiting = refl; is_coming = refl },
  )
  step-Refines s r (accepts false next) v =
      let kept = insert v.waiting.uuid (Read.start v.waiting).0 s.sessions in
      (
        record s { sessions = kept; pending = some (fresh_session p next) },
        rw (v.is_waiting) (rw (new_session-fresh p next) refl),
        record {
          same = λ u.
              contains-insert u v.waiting.uuid (Read.start v.waiting).0 s.sessions
              ∙ ap (λ t. if str_eq t u then true else contains u s.sessions) v.is_coming
              ∙ ap (λ b. if str_eq r.coming u then true else b) (v.same u);
          waiting = fresh_session p next;
          is_waiting = refl;
          is_coming = refl;
        },
      )
  step-Refines s r (clears uuid) v = (
    clear_session s uuid,
    refl,
    record {
      same = λ u.
          contains-erase u uuid s.sessions
          ∙ ap (λ b. if str_eq uuid u then false else b) (v.same u);
      waiting = v.waiting;
      is_waiting = v.is_waiting;
      is_coming = v.is_coming;
    },
  )

  run-Refines :
      (s : CServer) (r : Registry) (es : List Event)
      → Refines s r
      → (s' : CServer) × (run p s es ≡ done (s', calls_run es)) × Refines s' (spec_run r es)
  unfolding run
  run-Refines s r [] v = (s, refl, v)
  run-Refines s r (e ∷ es) v =
      let (s₁, one, v₁) = step-Refines s r e v in
      let (s₂, rest, v₂) = run-Refines s₁ (spec r e) es v₁ in (s₂, rw one (rw rest refl), v₂)

  -- The server of AsioThreadPool refines a plain set of uuids, empty at first, over any completed accepts,
  -- failed or not, and any calls of `ClearSession`: nothing faults, a successful accept registers the
  -- session that was waiting and starts its read, bound to the session's strand, a failed one registers
  -- nothing, a clear takes out that uuid alone, and after each of them the next session waits to be
  -- accepted, under the uuid drawn for it.
  pub new_server-calls_run :
      (uuid : String) (es : List Event)
      → (s s' : CServer) × (new_server p uuid ≡ done s)
        × (run p s es ≡ done (s', calls_run es))
        × Refines s' (spec_run (empty uuid) es)
  unfolding new_server start_accept contains
  new_server-calls_run uuid es =
      let s : CServer = record { sessions = []; pending = some (fresh_session p uuid) } in
      let (s', ran, v) = run-Refines s (empty uuid) es (record {
        same = λ u. refl;
        waiting = fresh_session p uuid;
        is_waiting = refl;
        is_coming = refl;
      }) in
      (s, s', rw (new_session-fresh p uuid) refl, ran, v)
