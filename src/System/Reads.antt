-- ===== src/System/Reads.antt =====
-- The steps of a session's writes and of a client that reads its answer keep the invariant.
use Prim.Native.String.{String}
use mathlib.Core.Path.{subst}
use cppmulti_thread_server_b.Prelude.{
  ℕ, suc, ◌+◌, ◌≡◌, refl, sym, ap, ◌∙◌, List, [], ◌∷◌, ◌++◌, false, length, arith, length-append,
}
use cppmulti_thread_server_b.Memory.{done}
use cppmulti_thread_server_b.Platform.{Platform}
use cppmulti_thread_server_b.Effect.{Effect}
use cppmulti_thread_server_b.Effect.Counts.{writes}
use cppmulti_thread_server_b.Client.{read_reply}
use cppmulti_thread_server_b.System.{Host, idle, answered, System, set}
use cppmulti_thread_server_b.System.Counts.{AreDistinct}
use cppmulti_thread_server_b.System.Service.{
  Service, Held, none_held, one_held, two_held, Inv, Stands, under_way, fewer, next, weight, busy,
  is_asked,
}
use cppmulti_thread_server_b.System.Queues.{written-Goes, read-all}
use cppmulti_thread_server_b.System.Moves.{moved, stands, named, writer-named, same-snoc}

-- A write is under way of a queue that is not empty.
pub under_one : (q : Held) (n : ℕ) → suc n ≡ under_way q → under_way q ≡ 1
under_one none_held n e = absurd (omega arith)
under_one one_held n e = refl
under_one two_held n e = refl

module _ {h : Host} {p : Platform} {text : List ℕ} (a : Service h p text) (names : List String)
    (rounds : ℕ) (distinct : AreDistinct names) where
  open h use {outbox}
  open a use {wire, answer, node, reply, Holds}

  wrote-Inv :
      (k : ℕ) (t : System h) (u : String) (n : ℕ) (s : outbox.Session) (ws : List (List ℕ))
      → (i : Inv a names rounds k t) → (t.clients u).writing ≡ suc n
      → Holds (fewer (i.served u).held) s
      → ws ≡ next answer (i.served u).held
      → Inv a names rounds (suc k) (record t {
        clients =
            set h u
              (record (t.clients u) {
                session = s;
                coming = (t.clients u).coming ++ ws;
                writing = n + length ws;
              })
              t.clients;
      })
  wrote-Inv k t u n s ws i e v same_ws =
      let served = i.served u in
      let g =
        written-Goes a served.held (t.clients u).phase (t.clients u).coming n served.stands
          (sym e ∙ served.pending) in
      rw same_ws (
        moved a names rounds distinct k t u
          (record (t.clients u) {
            session = s;
            coming = (t.clients u).coming ++ next answer served.held;
            writing = n + length (next answer served.held);
          })
          t.logic t.asleep i (writer-named a names rounds distinct k t u n i e) i.callbacks i.nodes
          (λ v d. refl) (i.waits u) i.sleeping
          (record {
            held = fewer served.held;
            holds = v;
            stands = g.stands;
            pending = g.pending;
            same = served.same;
            all = served.all;
          })
          (omega (arith, g.less, e)))

  pub completes-Inv :
      (k : ℕ) (t : System h) (u : String) (n : ℕ) (s : outbox.Session) (es : List Effect)
      → Inv a names rounds k t
      → (t.clients u).writing ≡ suc n
      → outbox.handle_write (t.clients u).session false ≡ done (s, es)
      → Inv a names rounds (suc k) (record t {
        clients =
            set h u
              (record (t.clients u) {
                session = s;
                coming = (t.clients u).coming ++ writes es;
                writing = n + length (writes es);
              })
              t.clients;
      })
  completes-Inv k t u n s es i e f =
      let served = i.served u in
      let (s₁, es₁, wrote, next_one, v) =
        a.writes_it served.held (t.clients u).session
          (under_one served.held n (sym e ∙ served.pending)) served.holds in
      let one : s ≡ s₁ = cc in
      let two : es ≡ es₁ = cc in
      wrote-Inv k t u n s (writes es) i e (subst (λ x. Holds (fewer served.held) x) (sym one) v)
        (ap writes two ∙ next_one)

  pub reads-Inv :
      (k : ℕ) (t : System h) (u : String) (b : List ℕ) (rest : List (List ℕ)) (msgid : ℕ)
      (msg : List ℕ)
      → Inv a names rounds k t
      → (t.clients u).phase ≡ answered
      → (t.clients u).coming ≡ b ∷ rest
      → read_reply p b ≡ done (msgid, msg, [])
      → Inv a names rounds (suc k) (record t {
        clients =
            set h u
              (record (t.clients u) {
                phase = idle;
                got = (t.clients u).got ++ (msgid, msg) ∷ [];
                coming = rest;
              })
              t.clients;
      })
  reads-Inv k t u b rest msgid msg i e f g =
      let served = i.served u in
      let all_of_it =
        subst (λ x. Stands a answered served.held x) f
          (stands a names rounds distinct k t u answered i e) in
      let (is_answer, no_more, room) = read-all a served.held b rest all_of_it in
      let its_id : msgid ≡ reply.0 = cc in
      let its_text : msg ≡ reply.1 = cc in
      let read : (msgid, msg) ≡ reply = rw (its_id, its_text) refl in
      let c = record (t.clients u) {
        phase = idle;
        got = (t.clients u).got ++ (msgid, msg) ∷ [];
        coming = rest;
      } in
      moved a names rounds distinct k t u c t.logic t.asleep i
        (named a names rounds distinct k t u i (ap busy e)) i.callbacks i.nodes (λ v d. refl)
        (i.waits u ∙ ap is_asked e) i.sleeping
        (record {
          held = served.held;
          holds = served.holds;
          stands = (room, no_more);
          pending = served.pending;
          same = same-snoc (t.clients u).got (msgid, msg) reply served.same read;
          all =
              omega
                (arith, served.all, ap busy e, length-append (t.clients u).got ((msgid, msg) ∷ []));
        })
        (omega (arith, ap (λ x. weight x (t.clients u).coming) e, ap (weight answered) f))
