-- ===== src/Server/Registry.antt =====
-- The server's map against a plain set of uuids.
use Prim.Native.String.{String}
use text.Mathlib.Text.{◌==◌ as str_eq}
use text.Mathlib.TextEquality.{eq_iff}
use cppmulti_thread_server_b.Prelude.{
  ℕ, ◌+◌, ◌%◌, ◌<◌, ◌≡◌, refl, sym, ap, ◌∙◌, List, [], ◌∷◌, Bool, true, false, some, if◌then◌else◌,
  arith,
}
use cppmulti_thread_server_b.Memory.{Outcome, done}
use cppmulti_thread_server_b.Platform.{Platform}
use cppmulti_thread_server_b.Effect.{Effect, start_read}
use cppmulti_thread_server_b.Session.{CSession}
use cppmulti_thread_server_b.Session.Fresh.{fresh_session, new_session-fresh}
use cppmulti_thread_server_b.Session.Read.{start}
use cppmulti_thread_server_b.ServicePool.RoundRobin.{Called, get_io_service-Called}
use cppmulti_thread_server_b.Server.{
  CServer, contains, insert, erase, clear_session, start_accept, register, handle_accept,
}

pub contains-insert :
    (u k : String) (s : CSession) (m : List (String × CSession))
    → contains u (insert k s m) ≡ (if str_eq k u then true else contains u m)
unfolding contains insert
contains-insert u k s m = ground (arith, eq_iff k u)

pub contains-erase :
    (u k : String) (m : List (String × CSession))
    → contains u (erase k m) ≡ (if str_eq k u then false else contains u m)
unfolding contains erase
contains-erase u k [] = ground arith
contains-erase u k ((j, s) ∷ m) =
    ground (arith, eq_iff k u, eq_iff j k, eq_iff j u, contains-erase u k m)

-- What the server promises: which uuids are registered, and the uuid of the session that waits to be
-- connected, which is registered when its accept succeeds.
pub record Registry : Type 0 where
  pub registered : String → Bool
  pub coming : String

-- A completion of the accept, with the next uuid, or a call of `ClearSession`.
pub data Event : Type 0 where
  accepts : (ec : Bool) (next : String) → Event
  clears : (uuid : String) → Event

unfoldable pub spec : Registry → Event → Registry
spec r (accepts true next) = record r { coming = next }
spec r (accepts false next) = record {
  registered = λ u. if str_eq r.coming u then true else r.registered u;
  coming = next;
}
spec r (clears uuid) = record r {
  registered = λ u. if str_eq uuid u then false else r.registered u;
}

pub step : Platform → CServer → Event → Outcome (CServer × List Effect)
step p s (accepts ec next) = handle_accept p s ec next
step p s (clears uuid) = done (clear_session s uuid, [])

-- A completed accept starts a read for the session that it registers, and nothing else does.
abbrev pub effects : Event → List Effect
effects (accepts false next) = start_read ∷ []
effects (accepts true next) = []
effects (clears uuid) = []

pub record Refines (size : ℕ) (s : CServer) (r : Registry) : Type 0 where
  pub same : (u : String) → contains u s.sessions ≡ r.registered u
  pub waiting : ℕ × CSession
  pub is_waiting : s.pending ≡ some waiting
  pub is_coming : waiting.1.uuid ≡ r.coming
  pub turn : ℕ
  pub in_turn : Called size turn s.pool

pub start_accept-waits :
    (p : Platform) (size k : ℕ) (s : CServer) (uuid : String)
    → 0 < size
    → Called size k s.pool
    → (s' : CServer) × (w : ℕ × CSession) × (start_accept p s uuid ≡ done s')
      × (s'.pending ≡ some w)
      × (w.1.uuid ≡ uuid)
      × (s'.sessions ≡ s.sessions)
      × Called size (k + 1) s'.pool
unfolding start_accept
start_accept-waits p size k s uuid h c =
    let (pool', got, c') = get_io_service-Called size k s.pool h c in
    let w = fresh_session p uuid in
    (
      record s { pool = pool'; pending = some (k % size, w) },
      (k % size, w),
      rw got (rw (new_session-fresh p uuid) refl),
      refl,
      refl,
      refl,
      c',
    )

registered-same :
    (s : CServer) (r : Registry) (ec : Bool) (next : String) (w : CSession)
    → ((u : String) → contains u s.sessions ≡ r.registered u)
    → w.uuid ≡ r.coming
    → (u : String)
    → contains u (register s ec w).0.sessions ≡ (spec r (accepts ec next)).registered u
unfolding register spec
registered-same s r true next w h e u = h u
registered-same s r false next w h e u = rw (contains-insert u w.uuid (start w).0 s.sessions) (
    ap (λ t. if str_eq t u then true else contains u s.sessions) e
    ∙ ap (λ b. if str_eq r.coming u then true else b) (h u))

register-pool : (s : CServer) (ec : Bool) (w : CSession) → (register s ec w).0.pool ≡ s.pool
unfolding register
register-pool s true w = refl
register-pool s false w = refl

register-effects :
    (s : CServer) (ec : Bool) (next : String) (w : CSession)
    → (register s ec w).1 ≡ effects (accepts ec next)
unfolding register start
register-effects s true next w = refl
register-effects s false next w = refl

spec-coming : (r : Registry) (ec : Bool) (next : String) → (spec r (accepts ec next)).coming ≡ next
unfolding spec
spec-coming r true next = refl
spec-coming r false next = refl

-- Each completed accept, failed or not, and each `ClearSession` finishes without a fault and changes
-- the server's map as the plain set of uuids: a successful accept registers the session that was
-- waiting and starts its read, a failed one registers nothing, a clear takes out that uuid alone; and
-- after each of them the next session waits to be accepted, under the uuid drawn for it, on a
-- context of the pool.
pub step-Refines :
    (p : Platform) (size : ℕ) (s : CServer) (r : Registry) (e : Event)
    → 0 < size
    → Refines size s r
    → (s' : CServer) × (step p s e ≡ done (s', effects e)) × Refines size s' (spec r e)
unfolding step
step-Refines p size s r (accepts ec next) h v =
    let s₁ = (register s ec v.waiting.1).0 in
    let c : Called size v.turn s₁.pool = rw (register-pool s ec v.waiting.1) v.in_turn in
    let (s', w, run, is_w, named, kept, c') = start_accept-waits p size v.turn s₁ next h c in
    (
      s',
      accepted s' run,
      record {
        same = λ u. rw kept (registered-same s r ec next v.waiting.1 v.same v.is_coming u);
        waiting = w;
        is_waiting = is_w;
        is_coming = named ∙ sym (spec-coming r ec next);
        turn = v.turn + 1;
        in_turn = c';
      },
    )
  where
    accepted :
        (s' : CServer)
        → start_accept p (register s ec v.waiting.1).0 next ≡ done s'
        → handle_accept p s ec next ≡ done (s', effects (accepts ec next))
    accepted s' run =
        unfold handle_accept in
        rw (v.is_waiting, handle_accept)
          (rw run (ap (λ t. done (s', t)) (register-effects s ec next v.waiting.1)))
step-Refines p size s r (clears uuid) h v = (
  clear_session s uuid,
  refl,
  record {
    same = λ u.
        unfold clear_session spec in
        contains-erase u uuid s.sessions ∙ ap (λ b. if str_eq uuid u then false else b) (v.same u);
    waiting = v.waiting;
    is_waiting = unfold clear_session in v.is_waiting;
    is_coming = unfold spec in v.is_coming;
    turn = v.turn;
    in_turn = unfold clear_session in v.in_turn;
  },
)
