-- ===== src/Server/Run.antt =====
-- A whole run of the server, from its constructor on.
use Prim.Native.String.{String}
use cppmulti_thread_server_b.Prelude.{ℕ, ◌<◌, ◌≡◌, refl, ap, List, [], ◌∷◌, ◌++◌, false, none}
use cppmulti_thread_server_b.Memory.{Outcome, done, ◌>>=◌}
use cppmulti_thread_server_b.Platform.{Platform}
use cppmulti_thread_server_b.Effect.{Effect}
use cppmulti_thread_server_b.ServicePool.{new_pool}
use cppmulti_thread_server_b.ServicePool.RoundRobin.{new_pool-Called}
use cppmulti_thread_server_b.Server.{CServer, contains, new_server}
use cppmulti_thread_server_b.Server.Registry.{
  Registry, Event, spec, step, effects, Refines, start_accept-waits, step-Refines,
}

-- The events one after another, with what they ask for in order.
pub run : Platform → CServer → List Event → Outcome (CServer × List Effect)
run p s [] = done (s, [])
run p s (e ∷ es) = step p s e >>= λ t. run p t.0 es >>= λ u. done (u.0, t.1 ++ u.1)

abbrev pub spec_run : Registry → List Event → Registry
spec_run r [] = r
spec_run r (e ∷ es) = spec_run (spec r e) es

abbrev pub effects_run : List Event → List Effect
effects_run [] = []
effects_run (e ∷ es) = effects e ++ effects_run es

-- No session is registered, and the first one waits.
abbrev pub empty : String → Registry
empty uuid = record { registered = λ u. false; coming = uuid }

new_server-Refines :
    (p : Platform) (size : ℕ) (uuid : String)
    → 0 < size
    → (s : CServer) × (new_server p (new_pool size) uuid ≡ done s) × Refines size s (empty uuid)
unfolding new_server contains
new_server-Refines p size uuid h =
    let (s, w, made, is_w, named, kept, c) =
      start_accept-waits p size 0 (record { sessions = []; pool = new_pool size; pending = none })
        uuid h (new_pool-Called size h) in
    (
      s,
      made,
      record {
        same = λ u. ap (contains u) kept;
        waiting = w;
        is_waiting = is_w;
        is_coming = named;
        turn = 1;
        in_turn = c;
      },
    )

run-Refines :
    (p : Platform) (size : ℕ) (s : CServer) (r : Registry) (es : List Event)
    → 0 < size
    → Refines size s r
    → (s' : CServer) × (run p s es ≡ done (s', effects_run es)) × Refines size s' (spec_run r es)
unfolding run
run-Refines p size s r [] h v = (s, refl, v)
run-Refines p size s r (e ∷ es) h v =
    let (s₁, one, v₁) = step-Refines p size s r e h v in
    let (s₂, rest, v₂) = run-Refines p size s₁ (spec r e) es h v₁ in (s₂, rw one (rw rest refl), v₂)

-- A server on a pool of one context or more refines a plain set of uuids, empty at first, over any
-- completed accepts, failed or not, and any calls of `ClearSession`: nothing faults, a successful
-- accept registers the session that was waiting and starts its read, a failed one registers nothing, a
-- clear takes out that uuid alone, and after each of them the next session waits to be accepted, under
-- the uuid drawn for it.
pub new_server-run :
    (p : Platform) (size : ℕ) (uuid : String) (es : List Event)
    → 0 < size
    → (s s' : CServer) × (new_server p (new_pool size) uuid ≡ done s)
      × (run p s es ≡ done (s', effects_run es))
      × Refines size s' (spec_run (empty uuid) es)
new_server-run p size uuid es h =
    let (s, made, v) = new_server-Refines p size uuid h in
    let (s', ran, v') = run-Refines p size s (empty uuid) es h v in (s, s', made, ran, v')
