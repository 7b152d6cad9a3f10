-- ===== src/System.antt =====
-- A whole server: clients of Client/main.cpp in threads of their own, each with a session, and the one
-- thread of the logic system, in any order.
pub mod Counts
pub mod Service
pub mod Queues
pub mod Moves
pub mod Reads
pub mod Handles
pub mod Serving
pub mod Corotine
pub mod Callback
pub mod Pool
use Prim.Native.String.{String}
use text.Mathlib.Text.{◌==◌ as str_eq}
use cppmulti_thread_server_b.Prelude.{
  ℕ, zero, suc, ◌+◌, length, ◌≡◌, List, [], ◌∷◌, ◌++◌, Bool, true, false, ◌||◌, if◌then◌else◌, ℤ,
}
use cppmulti_thread_server_b.Memory.{Outcome, done, ◌>>=◌}
use cppmulti_thread_server_b.Platform.{Platform}
use cppmulti_thread_server_b.Effect.{Effect}
use cppmulti_thread_server_b.Effect.Counts.{writes}
use cppmulti_thread_server_b.Outbox.{Outbox}
use cppmulti_thread_server_b.Logic.{LogicNode, LogicSystem, Reply}
use cppmulti_thread_server_b.Client.{request, read_reply}
use cppmulti_thread_server_b.Exchange.Answers.{messages}

-- What a server consists of: its sessions with their writes, what a session does with the bytes of a
-- request, and the logic system.
pub record Host : Type 1 where
  pub outbox : Outbox
  pub receive : outbox.Session → List ℕ → Outcome (outbox.Session × List Effect)
  pub post_msg_to_que : LogicSystem → LogicNode → LogicSystem × Bool
  pub deal_front : LogicSystem → Outcome (LogicSystem × List Reply)

-- Where a client is in its loop: before the request, or waiting for the answer with the request on the
-- wire, with the message in the queue of the logic system, and with the message dealt with.
pub data Phase : Type 0 where
  idle : Phase
  sent : (wire : List ℕ) → Phase
  asked : Phase
  answered : Phase

-- The posts, and whether one of them notifies the worker.
unfoldable pub post_all : Host → LogicSystem → List LogicNode → LogicSystem × Bool
post_all h l [] = (l, false)
post_all h l (n ∷ ns) =
    let later = post_all h (h.post_msg_to_que l n).0 ns in
    (later.0, (h.post_msg_to_que l n).1 || later.1)

module _ (h : Host) where
  open h use {outbox}

  -- A client with its session; `left` are the rounds that are still to begin, `got` what it has read,
  -- `coming` the bytes of the writes that it has not read yet, one entry for each, and `writing` counts the
  -- writes whose `HandleWrite` has not come yet.
  pub record Client : Type 0 where
    pub session : outbox.Session
    pub phase : Phase
    pub left : ℕ
    pub got : List (ℕ × List ℕ)
    pub coming : List (List ℕ)
    pub writing : ℕ

  -- The clients by the uuids of their sessions; `asleep` is whether the logic system's thread waits on
  -- its condition variable.
  pub record System : Type 0 where
    pub clients : String → Client
    pub logic : LogicSystem
    pub asleep : Bool

  abbrev pub set : String → Client → (String → Client) → String → Client
  set u c f v = if str_eq u v then c else f v

abbrev pub contains : List String → String → Bool
contains [] u = false
contains (v ∷ vs) u = str_eq v u || contains vs u

module _ (h : Host) (p : Platform) (text : List ℕ) (names : List String) where
  open h use {outbox, receive, deal_front}

  pub data Step : System h → System h → Type 0 where
    -- A client writes its request.
    asks :
        (t : System h) (u : String) (left : ℕ) (wire : List ℕ)
        → contains names u ≡ true
        → (t.clients u).phase ≡ idle
        → (t.clients u).left ≡ suc left
        → request p text ≡ done wire
        → Step t (record t {
          clients = set h u (record (t.clients u) { phase = sent wire; left = left }) t.clients;
        })
    -- The request comes in, and the session posts what it reads; a notice wakes the worker.
    arrives :
        (t : System h) (u : String) (wire : List ℕ) (s : outbox.Session) (es : List Effect)
        → (t.clients u).phase ≡ sent wire
        → receive (t.clients u).session wire ≡ done (s, es)
        → Step t (record {
          clients = set h u (record (t.clients u) { session = s; phase = asked }) t.clients;
          logic = (post_all h t.logic (messages u es)).0;
          asleep = if (post_all h t.logic (messages u es)).1 then false else t.asleep;
        })
    -- The worker finds the queue empty and waits.
    sleeps :
        (t : System h)
        → t.asleep ≡ false
        → t.logic.msg_que ≡ []
        → Step t (record t { asleep = true })
    -- The worker deals with the message at the front and sends the answer.
    handles :
        (t : System h) (l : LogicSystem) (r : Reply) (s : outbox.Session) (es : List Effect)
        → t.asleep ≡ false
        → deal_front t.logic ≡ done (l, r ∷ [])
        → outbox.send (t.clients r.session).session r.return_str r.msg_id ≡ done (s, es)
        → Step t (record t {
          clients =
              set h r.session
                (record (t.clients r.session) {
                  session = s;
                  phase = answered;
                  coming = (t.clients r.session).coming ++ writes es;
                  writing = (t.clients r.session).writing + length (writes es);
                })
                t.clients;
          logic = l;
        })
    -- A write is over, and its `HandleWrite` runs.
    completes :
        (t : System h) (u : String) (n : ℕ) (s : outbox.Session) (es : List Effect)
        → (t.clients u).writing ≡ suc n
        → outbox.handle_write (t.clients u).session false ≡ done (s, es)
        → Step t (record t {
          clients =
              set h u
                (record (t.clients u) {
                  session = s;
                  coming = (t.clients u).coming ++ writes es;
                  writing = n + length (writes es);
                })
                t.clients;
        })
    -- The client reads an answer, whether its `HandleWrite` has run or not.
    reads :
        (t : System h) (u : String) (b : List ℕ) (rest : List (List ℕ)) (msgid : ℕ) (msg : List ℕ)
        → (t.clients u).phase ≡ answered
        → (t.clients u).coming ≡ b ∷ rest
        → read_reply p b ≡ done (msgid, msg, [])
        → Step t (record t {
          clients =
              set h u
                (record (t.clients u) {
                  phase = idle;
                  got = (t.clients u).got ++ (msgid, msg) ∷ [];
                  coming = rest;
                })
                t.clients;
        })

  -- What the system comes to in a number of steps.
  pub data Reach (start : System h) : ℕ → System h → Type 0 where
    begins : Reach start zero start
    goes_on : (k : ℕ) (t t' : System h) → Reach start k t → Step t t' → Reach start (suc k) t'
