-- ===== src/System/Serving.antt =====
-- Every state that a server comes to keeps the invariant.
use Prim.Native.String.{String}
use native.Mathlib.Decide.{ℕ_discrete}
use cppmulti_thread_server_b.Prelude.{
  ℕ, zero, suc, ◌*◌, ◌≡◌, ◌≢◌, inl, inr, refl, sym, ap, ◌∙◌, List, [], ◌∷◌, Bool, true, false,
  length, arith, replicate,
}
use cppmulti_thread_server_b.Platform.{Platform}
use cppmulti_thread_server_b.Client.{read_reply}
use cppmulti_thread_server_b.Logic.{LogicNode, register_callback}
use cppmulti_thread_server_b.System.{
  Host, Phase, idle, sent, asked, answered, System, contains, Step, asks, arrives, sleeps, handles,
  completes, reads, Reach, begins, goes_on,
}
use cppmulti_thread_server_b.System.Counts.{
  AreDistinct, sum, count, sum-same_value, sum-some, sum-none,
}
use cppmulti_thread_server_b.System.Service.{
  IsOnTheWay, Service, Held, none_held, one_held, two_held, under_way, Stands, Inv, measure, weight,
  busy, is_asked, awake,
}
use cppmulti_thread_server_b.System.Queues.{read-all}
use cppmulti_thread_server_b.System.Moves.{stands, asks-Inv, arrives-Inv, sleeps-Inv}
use cppmulti_thread_server_b.System.Reads.{completes-Inv, reads-Inv, under_one}
use cppmulti_thread_server_b.System.Handles.{handles-Inv, waiting}

pred_of : (n : ℕ) → n ≢ 0 → (m : ℕ) × (n ≡ suc m)
pred_of zero h = absurd (h refl)
pred_of (suc n) h = (n, refl)

weightless : (q : Phase) (ws : List (List ℕ)) → weight q ws ≡ 0 → q ≡ idle
weightless idle ws e = refl
weightless (sent wire) ws e = absurd (omega arith)
weightless asked ws e = absurd (omega arith)
weightless answered [] e = absurd (omega arith)
weightless answered (b ∷ bs) e = absurd (omega arith)

module _ {h : Host} {p : Platform} {text : List ℕ} (a : Service h p text) (names : List String)
    (rounds : ℕ) (distinct : AreDistinct names) where
  open h use {outbox}
  open a use {wire, answer, node, reply}

  pub Step-Inv :
      (k : ℕ) (t t' : System h)
      → Inv a names rounds k t
      → Step h p text names t t'
      → Inv a names rounds (suc k) t'
  Step-Inv k t t' i (asks _ u left w n e l f) =
      asks-Inv a names rounds distinct k t u left w i n e l f
  Step-Inv k t t' i (arrives _ u w s es e f) =
      arrives-Inv a names rounds distinct k t u w s es i e f
  Step-Inv k t t' i (sleeps _ z q) = sleeps-Inv a names rounds distinct k t i z q
  Step-Inv k t t' i (handles _ l r s es z d f) =
      handles-Inv a names rounds distinct k t t.logic.msg_que l r s es i z refl d f
  Step-Inv k t t' i (completes _ u n s es e f) =
      completes-Inv a names rounds distinct k t u n s es i e f
  Step-Inv k t t' i (reads _ u b rest msgid msg e f g) =
      reads-Inv a names rounds distinct k t u b rest msgid msg i e f g

  -- Nothing has been asked yet.
  pub record IsNew (t : System h) : Type 0 where
    pub callbacks : t.logic.func_callbacks ≡ register_callback
    pub queue : t.logic.msg_que ≡ []
    pub works : t.asleep ≡ false
    pub ready : (u : String) → a.Holds none_held (t.clients u).session
    pub idles : (u : String) → (t.clients u).phase ≡ idle
    pub all_left : (u : String) → (t.clients u).left ≡ rounds
    pub none_got : (u : String) → (t.clients u).got ≡ []
    pub none_comes : (u : String) → (t.clients u).coming ≡ []
    pub none_written : (u : String) → (t.clients u).writing ≡ 0

  IsNew-Inv : (t : System h) → IsNew t → Inv a names rounds 0 t
  IsNew-Inv t n = record {
    callbacks = n.callbacks;
    nodes = rw (n.queue) tt;
    waits = λ u. rw (n.queue, n.idles u) refl;
    sleeping = λ e. n.queue;
    served = λ u. record {
      held = none_held;
      holds = n.ready u;
      stands = rw (n.idles u) (refl, n.none_comes u);
      pending = n.none_written u;
      same = rw (n.none_got u) refl;
      all = rw (n.idles u, n.all_left u, n.none_got u) (omega arith);
    };
    others = λ u e. n.idles u;
    quiet = λ u e. n.none_written u;
    steps = omega (
      arith,
      ap awake n.works,
      sum-same_value names (λ u. measure a (t.clients u)) (6 * rounds)
          (λ u. omega (
            arith,
            n.all_left u,
            ap (λ x. weight x (t.clients u).coming) (n.idles u),
            n.none_written u,
          )),
    );
  }

  pub Reach-Inv :
      (t₀ : System h) (k : ℕ) (t : System h)
      → IsNew t₀
      → Reach h p text names t₀ k t
      → Inv a names rounds k t
  Reach-Inv t₀ k t n begins = IsNew-Inv t₀ n
  Reach-Inv t₀ k t n (goes_on j t₁ _ r s) = Step-Inv j t₁ t (Reach-Inv t₀ j t₁ n r) s

  -- The steps that can be taken for a client's message, for its writes and for its answer.
  deals_with :
      (k : ℕ) (t : System h) (u : String) (ns : List LogicNode)
      → Inv a names rounds k t
      → t.asleep ≡ false
      → t.logic.msg_que ≡ ns
      → (t.clients u).phase ≡ asked
      → (t' : System h) × Step h p text names t t'
  deals_with k t u [] i z e q =
      let one = i.waits u ∙ ap is_asked q in absurd (omega (arith, one, ap (count u) e))
  deals_with k t u (n ∷ rest) i z e q =
      let (is_n, nodes, at, none, same) = waiting a names rounds distinct k t n rest i e in
      let (room, empty) = stands a names rounds distinct k t n.session asked i at in
      let served = i.served n.session in
      let (s, es, sent_it, w, v) =
        a.sends served.held (t.clients n.session).session room served.holds in
      let dealt = a.deals t.logic n.session rest i.callbacks (e ∙ ap (λ m. m ∷ rest) is_n) in
      (_, handles t _ _ s es z dealt sent_it)

  -- The worker is awake, since it would not sleep over the message.
  wakes_for :
      (k : ℕ) (t : System h) (u : String) (z : Bool)
      → Inv a names rounds k t
      → t.asleep ≡ z
      → (t.clients u).phase ≡ asked
      → (t' : System h) × Step h p text names t t'
  wakes_for k t u false i z q = deals_with k t u t.logic.msg_que i z refl q
  wakes_for k t u true i z q =
      let one = i.waits u ∙ ap is_asked q in
      absurd (omega (arith, one, ap (count u) (i.sleeping z)))

  writes_on :
      (k : ℕ) (t : System h) (u : String) (n : ℕ)
      → Inv a names rounds k t
      → (t.clients u).writing ≡ suc n
      → (t' : System h) × Step h p text names t t'
  writes_on k t u n i e =
      let served = i.served u in
      let (s, es, wrote, w, v) =
        a.writes_it served.held (t.clients u).session
          (under_one served.held n (sym e ∙ served.pending)) served.holds in
      (_, completes t u n s es e wrote)

  -- While nothing is on the way to a client that waits for its answer, a write is under way.
  reads_on :
      (k : ℕ) (t : System h) (u : String) (ws : List (List ℕ)) (q : Held)
      → Inv a names rounds k t
      → (t.clients u).phase ≡ answered
      → (t.clients u).coming ≡ ws
      → Stands a answered q ws
      → (t.clients u).writing ≡ under_way q
      → (t' : System h) × Step h p text names t t'
  reads_on k t u [] none_held i e f v w = absurd cc
  reads_on k t u [] one_held i e f v w = absurd cc
  reads_on k t u [] two_held i e f v w = writes_on k t u 0 i w
  reads_on k t u (b ∷ rest) q i e f v w =
      let (is_answer, no_more, room) = read-all a q b rest v in
      (_, reads t u b rest reply.0 reply.1 e f (ap (read_reply p) is_answer ∙ a.read_as))

  begins_or_writes :
      (k : ℕ) (t : System h) (u : String) (n : ℕ)
      → Inv a names rounds k t
      → (t.clients u).phase ≡ idle
      → contains names u ≡ true
      → measure a (t.clients u) ≢ 0
      → (t.clients u).left ≡ n
      → (t' : System h) × Step h p text names t t'
  begins_or_writes k t u zero i e n m l =
      let (j, w) =
        pred_of (t.clients u).writing
          λ z. m (omega (arith, z, l, ap (λ x. weight x (t.clients u).coming) e)) in
      writes_on k t u j i w
  begins_or_writes k t u (suc left) i e n m l = (_, asks t u left wire n e l a.asked_as)

  goes_on_at :
      (k : ℕ) (t : System h) (u : String) (q : Phase)
      → Inv a names rounds k t
      → (t.clients u).phase ≡ q
      → contains names u ≡ true
      → measure a (t.clients u) ≢ 0
      → (t' : System h) × Step h p text names t t'
  goes_on_at k t u idle i e n m = begins_or_writes k t u (t.clients u).left i e n m refl
  goes_on_at k t u (sent w) i e n m =
      let (room, none, is_wire) = stands a names rounds distinct k t u (sent w) i e in
      let (s, es, came, posted, v) =
        a.receives (i.served u).held (t.clients u).session (i.served u).holds in
      (_, arrives t u w s es e (ap (h.receive (t.clients u).session) is_wire ∙ came))
  goes_on_at k t u asked i e n m = wakes_for k t u t.asleep i refl e
  goes_on_at k t u answered i e n m =
      reads_on k t u (t.clients u).coming (i.served u).held i e refl
        (stands a names rounds distinct k t u answered i e) (i.served u).pending

  Inv-IsOnTheWay :
      (k : ℕ) (t : System h) → Inv a names rounds k t → IsOnTheWay h p text names rounds reply k t
  Inv-IsOnTheWay k t i = record {
    only_replies =
        λ u. (length (t.clients u).got, (i.served u).same, omega (arith, (i.served u).all));
    bounded = omega (arith, i.steps);
    ends_or_goes_on = elim (ℕ_discrete (sum names (λ u. measure a (t.clients u))) 0) [
      | yes e ↦ inl (λ u n. finished u (sum-none names _ u e n))
      | no e ↦
          let (u, n, m) = sum-some names (λ v. measure a (t.clients v)) e in
          inr (goes_on_at k t u (t.clients u).phase i refl n m)
    ];
  }
    where
      finished :
          (u : String)
          → measure a (t.clients u) ≡ 0
          → ((t.clients u).got ≡ replicate rounds reply)
            × ((t.clients u).phase ≡ idle)
            × ((t.clients u).writing ≡ 0)
      finished u m =
          let over : (t.clients u).phase ≡ idle =
            weightless (t.clients u).phase (t.clients u).coming (omega (arith, m)) in
          (
            (i.served u).same
                ∙ ap (λ (j : ℕ). replicate j reply)
                    (omega (arith, (i.served u).all, m, ap busy over)),
            over,
            omega (arith, m),
          )

  pub Reach-IsOnTheWay :
      (k : ℕ) (t₀ t : System h)
      → IsNew t₀
      → Reach h p text names t₀ k t
      → IsOnTheWay h p text names rounds reply k t
  Reach-IsOnTheWay k t₀ t n r = Inv-IsOnTheWay k t (Reach-Inv t₀ k t n r)
