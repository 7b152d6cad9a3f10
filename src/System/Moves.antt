-- ===== src/System/Moves.antt =====
-- The steps of a client keep the invariant.
use Prim.Native.String.{String}
use mathlib.Core.Path.{subst}
use text.Mathlib.Text.{◌==◌ as str_eq}
use text.Mathlib.TextEquality.{eq_iff}
use cppmulti_thread_server_b.Prelude.{
  ℕ, suc, ◌≡◌, refl, sym, ap, ◌∙◌, List, [], ◌∷◌, ◌++◌, Bool, true, false, length, arith, replicate,
  if◌then◌else◌, ◌+◌, ◌≤◌, ◌||◌,
}
use cppmulti_thread_server_b.Memory.{done}
use cppmulti_thread_server_b.Platform.{Platform}
use cppmulti_thread_server_b.Effect.{Effect}
use cppmulti_thread_server_b.Logic.{LogicNode, LogicSystem, register_callback}
use cppmulti_thread_server_b.Client.{request}
use cppmulti_thread_server_b.Exchange.Answers.{messages}
use cppmulti_thread_server_b.System.{
  Host, Phase, idle, sent, asked, Client, System, set, contains, post_all,
}
use cppmulti_thread_server_b.System.Counts.{AreDistinct, count, count-append, sum-change}
use cppmulti_thread_server_b.System.Service.{
  Service, Inv, IsServed, All, All-append, Stands, measure, weight, busy, is_asked, awake,
}

set_other :
    (h : Host) (u : String) (c : Client h) (f : String → Client h) (v : String)
    → str_eq u v ≡ false
    → set h u c f v ≡ f v
set_other h u c f v e = rw e refl

set_self : (h : Host) (u : String) (c : Client h) (f : String → Client h) → set h u c f u ≡ c
set_self h u c f = ground (arith, eq_iff u u)

if-either : {A : Type 0} (P : A → Type 0) (b : Bool) (x y : A) → P x → P y → P (if b then x else y)
if-either P true x y v w = v
if-either P false x y v w = w

pub same-snoc :
    (xs : List (ℕ × List ℕ)) (x y : ℕ × List ℕ)
    → xs ≡ replicate (length xs) y
    → x ≡ y
    → xs ++ x ∷ [] ≡ replicate (length (xs ++ x ∷ [])) y
same-snoc [] x y e f = ap (λ z. z ∷ []) f
same-snoc (z ∷ xs) x y e f =
    let one : z ≡ y = cc in
    let rest : xs ≡ replicate (length xs) y = cc in
    rw one (ap (λ w. y ∷ w) (same-snoc xs x y rest f))

module _ {h : Host} {p : Platform} {text : List ℕ} (a : Service h p text) (names : List String)
    (rounds : ℕ) (distinct : AreDistinct names) where
  open h use {outbox}
  open a use {wire, answer, node, reply, Holds}

  -- One client takes a step.
  pub moved :
      (k : ℕ) (t : System h) (u : String) (c : Client h) (l : LogicSystem) (z : Bool)
      → Inv a names rounds k t
      → contains names u ≡ true
      → l.func_callbacks ≡ register_callback
      → All a l.msg_que
      → ((v : String) → str_eq u v ≡ false → count v l.msg_que ≡ count v t.logic.msg_que)
      → count u l.msg_que ≡ is_asked c.phase
      → (z ≡ true → l.msg_que ≡ [])
      → IsServed a rounds c
      → suc (awake z + measure a c) ≤ awake t.asleep + measure a (t.clients u)
      → Inv a names rounds (suc k) (record { clients = set h u c t.clients; logic = l; asleep = z })
  moved k t u c l z i n f w q q' o s m = record {
    callbacks = f;
    nodes = w;
    waits = λ v. grind (arith, eq_iff u v, q v, i.waits v);
    sleeping = o;
    served = λ v. if-either (IsServed a rounds) (str_eq u v) c (t.clients v) s (i.served v);
    others = λ v e. grind (arith, eq_iff u v, i.others v);
    quiet = λ v e. grind (arith, eq_iff u v, i.quiet v);
    steps = omega (
      arith,
      i.steps,
      m,
      set_it,
      sum-change names (λ v. measure a (t.clients v)) (λ v. measure a (set h u c t.clients v)) u
          (λ v e. ap (λ d. measure a d) (set_other h u c t.clients v e)) distinct n,
    );
  }
    where
      set_it : measure a (set h u c t.clients u) ≡ measure a c
      set_it = ap (λ d. measure a d) (set_self h u c t.clients)

  pub stands :
      (k : ℕ) (t : System h) (u : String) (q : Phase)
      → (i : Inv a names rounds k t) → (t.clients u).phase ≡ q
      → Stands a q (i.served u).held (t.clients u).coming
  stands k t u q i e =
      subst (λ x. Stands a x (i.served u).held (t.clients u).coming) e (i.served u).stands

  weighs :
      (t : System h) (u : String) (q : Phase)
      → (t.clients u).phase ≡ q
      → weight (t.clients u).phase (t.clients u).coming ≡ weight q (t.clients u).coming
  weighs t u q e = ap (λ x. weight x (t.clients u).coming) e

  pub named :
      (k : ℕ) (t : System h) (u : String)
      → Inv a names rounds k t
      → busy (t.clients u).phase ≡ 1
      → contains names u ≡ true
  named k t u i e = grind (arith, i.others u)

  pub writer-named :
      (k : ℕ) (t : System h) (u : String) (n : ℕ)
      → Inv a names rounds k t
      → (t.clients u).writing ≡ suc n
      → contains names u ≡ true
  writer-named k t u n i e = grind (arith, i.quiet u)

  pub asks-Inv :
      (k : ℕ) (t : System h) (u : String) (left : ℕ) (w : List ℕ)
      → Inv a names rounds k t
      → contains names u ≡ true
      → (t.clients u).phase ≡ idle
      → (t.clients u).left ≡ suc left
      → request p text ≡ done w
      → Inv a names rounds (suc k) (record t {
        clients = set h u (record (t.clients u) { phase = sent w; left = left }) t.clients;
      })
  asks-Inv k t u left w i n e l f =
      let (room, none) = stands k t u idle i e in
      moved k t u (record (t.clients u) { phase = sent w; left = left }) t.logic t.asleep i n
        i.callbacks i.nodes (λ v e. refl) (i.waits u ∙ ap is_asked e) i.sleeping
        (record {
          held = (i.served u).held;
          holds = (i.served u).holds;
          stands = (room, none, cc);
          pending = (i.served u).pending;
          same = (i.served u).same;
          all = omega (arith, (i.served u).all, l, ap busy e);
        })
        (omega (arith, l, weighs t u idle e))

  -- A worker is awake once a message is in the queue.
  woken :
      (posted asleep : Bool)
      → (asleep ≡ true → posted ≡ true)
      → (if posted then false else asleep) ≡ false
  woken true asleep k = refl
  woken false true k = sym (k refl)
  woken false false k = refl

  posted-Inv :
      (k : ℕ) (t : System h) (u : String) (w : List ℕ) (s : outbox.Session) (z : Bool)
      → (i : Inv a names rounds k t) → (t.clients u).phase ≡ sent w
      → Holds (i.served u).held s
      → z ≡ false
      → Inv a names rounds (suc k) (record {
        clients = set h u (record (t.clients u) { session = s; phase = asked }) t.clients;
        logic = record t.logic {
          msg_que = t.logic.msg_que ++ record { session = u; recv_node = node } ∷ [];
        };
        asleep = z;
      })
  posted-Inv k t u w s z i e v z' =
      let n : LogicNode = record { session = u; recv_node = node } in
      let (room, none, is_wire) = stands k t u (sent w) i e in
      moved k t u (record (t.clients u) { session = s; phase = asked })
        (record t.logic { msg_que = t.logic.msg_que ++ n ∷ [] }) z i (named k t u i (ap busy e))
        i.callbacks (All-append a t.logic.msg_que n i.nodes refl)
        (λ x d. ground (arith, count-append x t.logic.msg_que (n ∷ []), d))
        (ground
          (arith, count-append u t.logic.msg_que (n ∷ []), eq_iff u u, i.waits u, ap is_asked e))
        (λ y. absurd cc)
        (record {
          held = (i.served u).held;
          holds = v;
          stands = (room, none);
          pending = (i.served u).pending;
          same = (i.served u).same;
          all = omega (arith, (i.served u).all, ap busy e);
        })
        (omega (arith, weighs t u (sent w) e, ap awake z'))

  pub arrives-Inv :
      (k : ℕ) (t : System h) (u : String) (w : List ℕ) (s : outbox.Session) (es : List Effect)
      → Inv a names rounds k t
      → (t.clients u).phase ≡ sent w
      → h.receive (t.clients u).session w ≡ done (s, es)
      → Inv a names rounds (suc k) (record {
        clients = set h u (record (t.clients u) { session = s; phase = asked }) t.clients;
        logic = (post_all h t.logic (messages u es)).0;
        asleep = if (post_all h t.logic (messages u es)).1 then false else t.asleep;
      })
  unfolding post_all
  arrives-Inv k t u w s es i e f =
      let (room, none, is_wire) = stands k t u (sent w) i e in
      let (s₁, es₁, came, posted, v) =
        a.receives (i.served u).held (t.clients u).session (i.served u).holds in
      let one : s ≡ s₁ = cc in
      let two : es ≡ es₁ = cc in
      let n : LogicNode = record { session = u; recv_node = node } in
      let flag = (h.post_msg_to_que t.logic n).1 || false in
      let l₁ : LogicSystem = record t.logic { msg_que = t.logic.msg_que ++ n ∷ [] } in
      let made : post_all h t.logic (messages u es) ≡ (l₁, flag) =
        ap (λ x. post_all h t.logic (messages u x)) two
        ∙ ap (post_all h t.logic) (posted u)
        ∙ ap (λ x. (x, flag)) (a.posts t.logic n) in
      let told : t.asleep ≡ true → flag ≡ true =
        λ z. ap (λ x. x || false) (a.notifies t.logic n (i.sleeping z)) in
      subst
        (λ x. Inv a names rounds (suc k) (record {
          clients = set h u (record (t.clients u) { session = s; phase = asked }) t.clients;
          logic = x.0;
          asleep = if x.1 then false else t.asleep;
        }))
        (sym made)
        (posted-Inv k t u w s (if flag then false else t.asleep) i e
          (subst (λ x. Holds (i.served u).held x) (sym one) v) (woken flag t.asleep told))

  pub sleeps-Inv :
      (k : ℕ) (t : System h)
      → Inv a names rounds k t
      → t.asleep ≡ false
      → t.logic.msg_que ≡ []
      → Inv a names rounds (suc k) (record t { asleep = true })
  sleeps-Inv k t i z q = record {
    callbacks = i.callbacks;
    nodes = i.nodes;
    waits = i.waits;
    sleeping = λ e. q;
    served = i.served;
    others = i.others;
    quiet = i.quiet;
    steps = omega (arith, i.steps, ap awake z);
  }
