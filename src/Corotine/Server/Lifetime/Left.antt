-- ===== src/Corotine/Server/Lifetime/Left.antt =====
-- A session that has ended and is in the coroutine server's map.
use Prim.Native.String.{String}
use text.Mathlib.Text.{◌==◌ as str_eq}
use text.Mathlib.TextEquality.{eq_iff}
use cppmulti_thread_server_b.Prelude.{◌<◌, ◌≡◌, refl, [], ◌∷◌, true, false, ◌||◌, none, some, arith}
use cppmulti_thread_server_b.Memory.{done}
use cppmulti_thread_server_b.Platform.{Platform}
use cppmulti_thread_server_b.Corotine.ServicePool.{AsioIoServicePool}
use cppmulti_thread_server_b.Corotine.Server.{
  CServer, contains, insert, clear_session, new_server, fresh_session, start_acceptor-fresh,
}
use cppmulti_thread_server_b.Corotine.Server.Lifetime.{
  Lifetime, listed, Step, starts, inserts, ends, write_fails, Reach, begins, goes_on, constructed,
  start_acceptor-keeps, contains-insert, contains-erase,
}

module _ (p : Platform) where
  -- It has ended and is in the map, unless a write of it has failed.
  IsLeft : String → Lifetime → Type 0
  IsLeft u t =
      (listed u t.ended ≡ true) × (contains u t.server.sessions || listed u t.failed ≡ true)

  Step-IsLeft : (u : String) (t t' : Lifetime) → Step p t t' → IsLeft u t → IsLeft u t'
  unfolding IsLeft listed clear_session
  Step-IsLeft u _ _ (starts t context session o w) v = v
  Step-IsLeft u _ _ (inserts t session next server o fresh e) v =
      let (same, known, coming) = start_acceptor-keeps p _ server next e in
      (v.0, ground (arith, same, v.1, contains-insert u session.uuid session t.server.sessions))
  Step-IsLeft u _ _ (ends t uuid r e) v = (
    ground (arith, v.0),
    ground (arith, v.0, v.1, e, eq_iff uuid u, contains-erase u uuid t.server.sessions),
  )
  Step-IsLeft u _ _ (write_fails t uuid r e) v =
      (v.0, ground (arith, v.1, eq_iff uuid u, contains-erase u uuid t.server.sessions))

  Reach-IsLeft : (u : String) (t t' : Lifetime) → IsLeft u t → Reach p t t' → IsLeft u t'
  Reach-IsLeft u t _ v begins = v
  Reach-IsLeft u t _ v (goes_on t₁ t₂ r k) = Step-IsLeft u t₁ t₂ k (Reach-IsLeft u t t₁ v r)

  -- The first session can end between `session->Start()` and its insertion. It has then ended, the
  -- acceptor goes on with the next session, and the ended one is in the map with no write of it failed: in
  -- every state that the server comes to from there it is in the map still, unless a write of it has
  -- failed since. The pool has a context to give, and the next session has
  -- another uuid.
  pub ended_stays :
      (pool : AsioIoServicePool) (uuid next : String)
      → pool.next_io_service < pool.io_service
      → str_eq uuid next ≡ false
      → (s : CServer) × (t : Lifetime) × (new_server p pool uuid ≡ done s)
        × Reach p (constructed p s) t
        × (t.opening ≡ none)
        × (listed uuid t.ended ≡ true)
        × (contains uuid t.server.sessions ≡ true)
        × (t.failed ≡ [])
        × ((t' : Lifetime)
            → Reach p t t'
            → contains uuid t'.server.sessions || listed uuid t'.failed ≡ true)
  unfolding new_server constructed listed clear_session IsLeft
  ended_stays pool uuid next h d =
      let session = fresh_session p uuid in
      let context = pool.next_io_service in
      let s : CServer = record {
        sessions = [];
        pool = pool;
        pending = some (context, session);
        started = [];
      } in
      let t₁ : Lifetime = record {
        server = record s { pending = none; started = uuid ∷ [] };
        opening = some session;
        ended = [];
        failed = [];
      } in
      let t₂ : Lifetime = record t₁ { server = clear_session t₁.server uuid; ended = uuid ∷ [] } in
      let into = record t₂.server { sessions = insert uuid session t₂.server.sessions } in
      let t₃ : Lifetime = record {
        server = record into { pending = some (context, fresh_session p next) };
        opening = none;
        ended = uuid ∷ [];
        failed = [];
      } in
      let run : Reach p (constructed p s) t₃ =
        goes_on t₂ t₃
          (goes_on t₁ t₂ (goes_on _ t₁ begins (starts _ context session refl refl))
            (ends t₁ uuid (ground (arith, eq_iff uuid uuid)) refl))
          (inserts t₂ session next _ refl (ground (arith, d))
            (start_acceptor-fresh p into next h)) in
      (
        s,
        t₃,
        start_acceptor-fresh p _ uuid h,
        run,
        refl,
        ground (arith, eq_iff uuid uuid),
        ground (arith, eq_iff uuid uuid, contains-insert uuid uuid session t₂.server.sessions),
        refl,
        λ t' r.
            (Reach-IsLeft uuid t₃ t'
              (
                ground (arith, eq_iff uuid uuid),
                ground
                    (arith, eq_iff uuid uuid, contains-insert uuid uuid session t₂.server.sessions),
              )
              r).1,
      )
