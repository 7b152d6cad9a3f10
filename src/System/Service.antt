-- ===== src/System/Service.antt =====
-- What the two servers do for a request, as an interface, and the invariant of a server that does it.
use Prim.Native.String.{String}
use cppmulti_thread_server_b.Prelude.{
  ℕ, ◌+◌, ◌*◌, ◌≤◌, ◌≡◌, ◌⊎◌, List, [], ◌∷◌, ◌++◌, Bool, true, false, ℤ, length, replicate,
}
use cppmulti_thread_server_b.Memory.{done, fault}
use cppmulti_thread_server_b.Platform.{Platform}
use cppmulti_thread_server_b.MsgNode.{RecvNode, SendNode}
use cppmulti_thread_server_b.Effect.{Effect}
use cppmulti_thread_server_b.Effect.Counts.{writes}
use cppmulti_thread_server_b.Logic.{LogicNode, LogicSystem, register_callback}
use cppmulti_thread_server_b.Client.{request, read_reply}
use cppmulti_thread_server_b.Exchange.Answers.{messages}
use cppmulti_thread_server_b.System.{
  Host, Phase, idle, sent, asked, answered, Client, System, contains, Step,
}
use cppmulti_thread_server_b.System.Counts.{sum, count}

module _ (h : Host) (p : Platform) (text : List ℕ) (names : List String) (rounds : ℕ)
    (reply : ℕ × List ℕ) where
  -- Every client has read nothing but the reply, at most once in each of its rounds. The steps are
  -- bounded, and either the clients have finished and no write is under way, or there is a next step.
  pub record IsOnTheWay (k : ℕ) (t : System h) : Type 0 where
    pub only_replies :
        (u : String) → (i : ℕ) × ((t.clients u).got ≡ replicate i reply) × (i ≤ rounds)
    pub bounded : k ≤ length names * (6 * rounds) + 1
    pub ends_or_goes_on :
        ((u : String)
          → contains names u ≡ true
          → ((t.clients u).got ≡ replicate rounds reply)
            × ((t.clients u).phase ≡ idle)
            × ((t.clients u).writing ≡ 0))
        ⊎ ((t' : System h) × Step h p text names t t')

-- How many packets are in a session's queue. A client that asks again before `HandleWrite` has run makes
-- it two.
pub data Held : Type 0 where
  none_held one_held two_held : Held

abbrev pub has_room : Held → Bool
has_room two_held = false
has_room _ = true

abbrev pub more : Held → Held
more none_held = one_held
more _ = two_held

abbrev pub fewer : Held → Held
fewer two_held = one_held
fewer _ = none_held

abbrev pub under_way : Held → ℕ
under_way none_held = 0
under_way _ = 1

-- The queue itself, if it holds `n` so many times.
abbrev pub queued : SendNode → Held → List SendNode
queued n none_held = []
queued n one_held = n ∷ []
queued n two_held = n ∷ n ∷ []

-- What `Send` and `HandleWrite` start to write, if the answer is `b`.
abbrev pub first : List ℕ → Held → List (List ℕ)
first b none_held = b ∷ []
first b _ = []

abbrev pub next : List ℕ → Held → List (List ℕ)
next b two_held = b ∷ []
next b _ = []

-- What a server does with a client's request, and what its answer is: `wire` and `answer` are the bytes
-- of the two, `node` is what the session posts, and `reply` is what the client reads.
pub record Service (h : Host) (p : Platform) (text : List ℕ) : Type 1 where
  pub wire : List ℕ
  pub answer : List ℕ
  pub node : RecvNode
  pub return_str : List ℕ
  pub msg_id : ℤ
  pub reply : ℕ × List ℕ
  -- The session is ready for a request, with so many answers in its queue.
  pub Holds : Held → h.outbox.Session → Type 0
  pub asked_as : request p text ≡ done wire
  pub posts :
      (l : LogicSystem) (n : LogicNode)
      → (h.post_msg_to_que l n).0 ≡ record l { msg_que = l.msg_que ++ n ∷ [] }
  pub notifies :
      (l : LogicSystem) (n : LogicNode) → l.msg_que ≡ [] → (h.post_msg_to_que l n).1 ≡ true
  pub receives :
      (q : Held) (s : h.outbox.Session)
      → Holds q s
      → (s' : h.outbox.Session) × (es : List Effect) × (h.receive s wire ≡ done (s', es))
        × ((u : String) → messages u es ≡ record { session = u; recv_node = node } ∷ [])
        × Holds q s'
  pub has_front : (l : LogicSystem) → l.msg_que ≡ [] → h.deal_front l ≡ fault
  pub deals :
      (l : LogicSystem) (u : String) (rest : List LogicNode)
      → l.func_callbacks ≡ register_callback
      → l.msg_que ≡ record { session = u; recv_node = node } ∷ rest
      → h.deal_front l
        ≡ done (
          record l { msg_que = rest },
          record { session = u; return_str = return_str; msg_id = msg_id } ∷ [],
        )
  pub sends :
      (q : Held) (s : h.outbox.Session)
      → has_room q ≡ true
      → Holds q s
      → (s' : h.outbox.Session) × (es : List Effect) × (h.outbox.send s return_str msg_id
          ≡ done (s', es))
        × (writes es ≡ first answer q)
        × Holds (more q) s'
  pub writes_it :
      (q : Held) (s : h.outbox.Session)
      → under_way q ≡ 1
      → Holds q s
      → (s' : h.outbox.Session) × (es : List Effect) × (h.outbox.handle_write s false
          ≡ done (s', es))
        × (writes es ≡ next answer q)
        × Holds (fewer q) s'
  pub read_as : read_reply p answer ≡ done (reply.0, reply.1, [])

-- The steps of a round that are still to come, with one for the worker's sleep; those that a write takes
-- are counted with it.
abbrev pub weight : Phase → List (List ℕ) → ℕ
weight idle ws = 0
weight (sent wire) ws = 5
weight asked ws = 3
weight answered [] = 2
weight answered (b ∷ bs) = 1

abbrev pub busy : Phase → ℕ
busy idle = 0
busy _ = 1

abbrev pub is_asked : Phase → ℕ
is_asked asked = 1
is_asked _ = 0

abbrev pub awake : Bool → ℕ
awake true = 0
awake false = 1

module _ {h : Host} {p : Platform} {text : List ℕ} (a : Service h p text) where
  open h use {outbox}
  open a use {wire, answer, node, reply, Holds}

  -- What is on the way to a client whose session holds so much.
  abbrev pub Stands : Phase → Held → List (List ℕ) → Type 0
  Stands idle q ws = (has_room q ≡ true) × (ws ≡ [])
  Stands (sent w) q ws = (has_room q ≡ true) × (ws ≡ []) × (w ≡ wire)
  Stands asked q ws = (has_room q ≡ true) × (ws ≡ [])
  Stands answered two_held ws = ws ≡ []
  Stands answered none_held ws = ws ≡ answer ∷ []
  Stands answered one_held ws = ws ≡ answer ∷ []

  abbrev pub measure : Client h → ℕ
  measure c = 6 * c.left + weight c.phase c.coming + c.writing

  pub record IsServed (rounds : ℕ) (c : Client h) : Type 0 where
    pub held : Held
    pub holds : Holds held c.session
    pub stands : Stands c.phase held c.coming
    pub pending : c.writing ≡ under_way held
    pub same : c.got ≡ replicate (length c.got) reply
    pub all : length c.got + c.left + busy c.phase ≡ rounds

  abbrev pub All : List LogicNode → Type 0
  All [] = Unit {0}
  All (n ∷ ns) = (n.recv_node ≡ node) × All ns

  pub All-append :
      (xs : List LogicNode) (n : LogicNode) → All xs → n.recv_node ≡ node → All (xs ++ n ∷ [])
  All-append [] n v e = (e, tt)
  All-append (x ∷ xs) n v e = (v.0, All-append xs n v.1 e)

  -- The worker sleeps only over an empty queue.
  pub record Inv (names : List String) (rounds k : ℕ) (t : System h) : Type 0 where
    pub callbacks : t.logic.func_callbacks ≡ register_callback
    pub nodes : All t.logic.msg_que
    pub waits : (u : String) → count u t.logic.msg_que ≡ is_asked (t.clients u).phase
    pub sleeping : t.asleep ≡ true → t.logic.msg_que ≡ []
    pub served : (u : String) → IsServed rounds (t.clients u)
    pub others : (u : String) → contains names u ≡ false → (t.clients u).phase ≡ idle
    pub quiet : (u : String) → contains names u ≡ false → (t.clients u).writing ≡ 0
    pub steps :
        k + awake t.asleep + sum names (λ u. measure (t.clients u))
        ≤ length names * (6 * rounds) + 1
