-- ===== src/Outbox/Line.antt =====
-- A session with its writes under way, as a sequence of calls of `Send` and completed writes.
use cppmulti_thread_server_b.Prelude.{
  ℕ, ◌+◌, ◌≤◌, ◌<◌, ◌≡◌, List, [], ◌∷◌, ◌++◌, true, false, ℤ, length, ltb, if◌then◌else◌,
}
use cppmulti_thread_server_b.Memory.{Outcome, done, ◌>>=◌}
use cppmulti_thread_server_b.MsgNode.{SendNode}
use cppmulti_thread_server_b.MsgNode.Frame.{frame, sent}
use cppmulti_thread_server_b.Effect.Counts.{writes}
use cppmulti_thread_server_b.Outbox.{Outbox}

-- A caller of `Send`, or Asio with the completion of the write that was started first, without an
-- error or with one.
pub data Event : Type 0 where
  sends : (msg_id : ℤ) (msg : List ℕ) → Event
  written failed : Event

-- The queue's nodes, their packets, and the packet of the first.
abbrev pub nodes : List (ℤ × List ℕ) → List SendNode
nodes [] = []
nodes ((i, m) ∷ ms) = sent i m ∷ nodes ms

abbrev pub packets : List (ℤ × List ℕ) → List (List ℕ)
packets [] = []
packets ((i, m) ∷ ms) = frame i m ∷ packets ms

abbrev pub first : List (ℤ × List ℕ) → List (List ℕ)
first [] = []
first ((i, m) ∷ ms) = frame i m ∷ []

module _ (o : Outbox) where
  open o use {Session, send_queue, max_sendque, max_text, send, handle_write}

  -- A session with the writes that are under way, the bytes that are written, in order, and the
  -- packets that `Send` has taken.
  pub record Line : Type 0 where
    pub session : Session
    pub under_way : List (List ℕ)
    pub wire : List (List ℕ)
    pub taken : List (ℤ × List ℕ)

  -- `Send` drops a packet when the queue is above its limit. A completion with no write under way
  -- does not happen, and changes nothing.
  unfoldable pub step : Line → Event → Outcome Line
  step l (sends msg_id msg) = send l.session msg msg_id >>= λ t. done (record {
    session = t.0;
    under_way = l.under_way ++ writes t.1;
    wire = l.wire;
    taken =
        if ltb max_sendque (length (send_queue l.session))
        then l.taken
        else l.taken ++ (msg_id, msg) ∷ [];
  })
  step l written = elim l.under_way [
    | [] ↦ done l
    | b ∷ bs ↦ handle_write l.session false >>= λ t. done (record {
      session = t.0;
      under_way = bs ++ writes t.1;
      wire = l.wire ++ b ∷ [];
      taken = l.taken;
    })
  ]
  step l failed = elim l.under_way [
    | [] ↦ done l
    | b ∷ bs ↦ handle_write l.session true >>= λ t.
        done (record l { session = t.0; under_way = bs ++ writes t.1 })
  ]

  unfoldable pub run : Line → List Event → Outcome Line
  run l [] = done l
  run l (e ∷ es) = step l e >>= λ l'. run l' es

  -- `gone` is on the wire, `waiting` is in the queue, and its first packet alone is under way.
  pub record InOrder (l : Line) : Type 0 where
    pub gone : List (ℤ × List ℕ)
    pub waiting : List (ℤ × List ℕ)
    pub queue : send_queue l.session ≡ nodes waiting
    pub one : l.under_way ≡ first waiting
    pub on_wire : l.wire ≡ packets gone
    pub all : l.taken ≡ gone ++ waiting
    pub bounded : length waiting ≤ max_sendque + 1

  -- After a write that failed: nothing is under way, although packets wait.
  pub record Stalled (l : Line) : Type 0 where
    pub gone : List (ℤ × List ℕ)
    pub waiting : List (ℤ × List ℕ)
    pub queue : send_queue l.session ≡ nodes waiting
    pub none_under_way : l.under_way ≡ []
    pub some_wait : 0 < length waiting
    pub on_wire : l.wire ≡ packets gone
    pub all : l.taken ≡ gone ++ waiting
    pub bounded : length waiting ≤ max_sendque + 1

  -- An event of texts that can be sent, and of no write that fails.
  abbrev pub IsSendable : Event → Type 0
  IsSendable (sends msg_id msg) = length msg ≤ max_text
  IsSendable written = Unit {0}
  IsSendable failed = ⊥

  abbrev pub AreSendable : List Event → Type 0
  AreSendable [] = Unit {0}
  AreSendable (e ∷ es) = IsSendable e × AreSendable es

  -- The same, with writes that fail.
  abbrev pub IsAny : Event → Type 0
  IsAny (sends msg_id msg) = length msg ≤ max_text
  IsAny written = Unit {0}
  IsAny failed = Unit {0}

  abbrev pub AreAny : List Event → Type 0
  AreAny [] = Unit {0}
  AreAny (e ∷ es) = IsAny e × AreAny es
