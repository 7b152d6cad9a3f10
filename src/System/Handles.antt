-- ===== src/System/Handles.antt =====
-- The step of the logic system keeps the invariant.
use Prim.Native.String.{String}
use mathlib.Core.Path.{subst}
use text.Mathlib.Text.{◌==◌ as str_eq}
use text.Mathlib.TextEquality.{eq_iff}
use cppmulti_thread_server_b.Prelude.{
  ℕ, suc, ◌+◌, ◌≡◌, refl, sym, ap, ◌∙◌, List, [], ◌∷◌, ◌++◌, false, length, arith,
}
use cppmulti_thread_server_b.Memory.{done}
use cppmulti_thread_server_b.Platform.{Platform}
use cppmulti_thread_server_b.Effect.{Effect}
use cppmulti_thread_server_b.Effect.Counts.{writes}
use cppmulti_thread_server_b.Logic.{LogicNode, LogicSystem, Reply}
use cppmulti_thread_server_b.System.{Host, Phase, idle, sent, asked, answered, System, set}
use cppmulti_thread_server_b.System.Counts.{AreDistinct, count}
use cppmulti_thread_server_b.System.Service.{Service, Inv, All, more, first, weight, busy, is_asked}
use cppmulti_thread_server_b.System.Queues.{sent-Goes}
use cppmulti_thread_server_b.System.Moves.{moved, stands, named}

asked-of : (q : Phase) (n : ℕ) → suc n ≡ is_asked q → (q ≡ asked) × (n ≡ 0)
asked-of idle n e = absurd (omega arith)
asked-of (sent wire) n e = absurd (omega arith)
asked-of asked n e = (refl, omega arith)
asked-of answered n e = absurd (omega arith)

module _ {h : Host} {p : Platform} {text : List ℕ} (a : Service h p text) (names : List String)
    (rounds : ℕ) (distinct : AreDistinct names) where
  open h use {outbox}
  open a use {answer, node, Holds}

  pub waiting :
      (k : ℕ) (t : System h) (n : LogicNode) (rest : List LogicNode)
      → Inv a names rounds k t
      → t.logic.msg_que ≡ n ∷ rest
      → (n ≡ record { session = n.session; recv_node = node })
        × All a rest
        × ((t.clients n.session).phase ≡ asked)
        × (count n.session rest ≡ 0)
        × ((v : String) → str_eq n.session v ≡ false → count v rest ≡ count v t.logic.msg_que)
  waiting k t n rest i e =
      let heads = subst (λ q. All a q) e i.nodes in
      let (is_asked, none) =
        asked-of (t.clients n.session).phase (count n.session rest)
          (ground (arith, i.waits n.session, eq_iff n.session n.session, ap (count n.session) e)) in
      (
        ap (λ m. record { session = n.session; recv_node = m }) heads.0,
        heads.1,
        is_asked,
        none,
        λ v d. ground (arith, ap (count v) e, d),
      )

  -- The session of the message at the front has been sent the answer.
  answered-Inv :
      (k : ℕ) (t : System h) (u : String) (rest : List LogicNode) (s : outbox.Session)
      (ws : List (List ℕ))
      → (i : Inv a names rounds k t) → (t.clients u).phase ≡ asked
      → t.asleep ≡ false
      → All a rest
      → count u rest ≡ 0
      → ((v : String) → str_eq u v ≡ false → count v rest ≡ count v t.logic.msg_que)
      → Holds (more (i.served u).held) s
      → ws ≡ first answer (i.served u).held
      → Inv a names rounds (suc k) (record t {
        clients =
            set h u
              (record (t.clients u) {
                session = s;
                phase = answered;
                coming = (t.clients u).coming ++ ws;
                writing = (t.clients u).writing + length ws;
              })
              t.clients;
        logic = record t.logic { msg_que = rest };
      })
  answered-Inv k t u rest s ws i at z nodes none same v same_ws =
      let served = i.served u in
      let (room, empty) = stands a names rounds distinct k t u asked i at in
      let g =
        sent-Goes a served.held (t.clients u).coming (t.clients u).writing room empty
          served.pending in
      rw same_ws (
        moved a names rounds distinct k t u
          (record (t.clients u) {
            session = s;
            phase = answered;
            coming = (t.clients u).coming ++ first answer served.held;
            writing = (t.clients u).writing + length (first answer served.held);
          })
          (record t.logic { msg_que = rest }) t.asleep i
          (named a names rounds distinct k t u i (ap busy at)) i.callbacks nodes same none
          (λ y. absurd cc)
          (record {
            held = more served.held;
            holds = v;
            stands = g.stands;
            pending = g.pending;
            same = served.same;
            all = omega (arith, served.all, ap busy at);
          })
          (omega (arith, g.less, ap (λ x. weight x (t.clients u).coming) at)))

  handles_front-Inv :
      (k : ℕ) (t : System h) (n : LogicNode) (rest : List LogicNode) (l : LogicSystem) (r : Reply)
      (s : outbox.Session) (es : List Effect)
      → Inv a names rounds k t
      → t.asleep ≡ false
      → t.logic.msg_que ≡ n ∷ rest
      → h.deal_front t.logic ≡ done (l, r ∷ [])
      → outbox.send (t.clients r.session).session r.return_str r.msg_id ≡ done (s, es)
      → Inv a names rounds (suc k) (record t {
        clients =
            set h r.session
              (record (t.clients r.session) {
                session = s;
                phase = answered;
                coming = (t.clients r.session).coming ++ writes es;
                writing = (t.clients r.session).writing + length (writes es);
              })
              t.clients;
        logic = l;
      })
  handles_front-Inv k t n rest l r s es i z e d f =
      let u = n.session in
      let (is_n, nodes, at, none, same) = waiting k t n rest i e in
      let (room, empty) = stands a names rounds distinct k t u asked i at in
      let served = i.served u in
      let (s₁, es₁, sent_it, to_write, v) =
        a.sends served.held (t.clients u).session room served.holds in
      let l₁ : LogicSystem = record t.logic { msg_que = rest } in
      let r₁ : Reply = record { session = u; return_str = a.return_str; msg_id = a.msg_id } in
      let dealt = a.deals t.logic u rest i.callbacks (e ∙ ap (λ m. m ∷ rest) is_n) in
      let one : l ≡ l₁ = cc in
      let two : r ≡ r₁ = cc in
      let to_it : outbox.send (t.clients u).session a.return_str a.msg_id ≡ done (s, es) =
        subst
          (λ (q : Reply).
            outbox.send (t.clients q.session).session q.return_str q.msg_id ≡ done (s, es))
          two f in
      let three : s ≡ s₁ = cc in
      let four : es ≡ es₁ = cc in
      rw (one, two)
        (answered-Inv k t u rest s (writes es) i at z nodes none same
          (subst (λ x. Holds (more served.held) x) (sym three) v) (ap writes four ∙ to_write))

  pub handles-Inv :
      (k : ℕ) (t : System h) (ns : List LogicNode) (l : LogicSystem) (r : Reply)
      (s : outbox.Session) (es : List Effect)
      → Inv a names rounds k t
      → t.asleep ≡ false
      → t.logic.msg_que ≡ ns
      → h.deal_front t.logic ≡ done (l, r ∷ [])
      → outbox.send (t.clients r.session).session r.return_str r.msg_id ≡ done (s, es)
      → Inv a names rounds (suc k) (record t {
        clients =
            set h r.session
              (record (t.clients r.session) {
                session = s;
                phase = answered;
                coming = (t.clients r.session).coming ++ writes es;
                writing = (t.clients r.session).writing + length (writes es);
              })
              t.clients;
        logic = l;
      })
  handles-Inv k t [] l r s es i z e d f = let none = a.has_front t.logic e in absurd cc
  handles-Inv k t (n ∷ rest) l r s es i z e d f = handles_front-Inv k t n rest l r s es i z e d f
