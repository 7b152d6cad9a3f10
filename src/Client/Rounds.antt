-- ===== src/Client/Rounds.antt =====
-- The loop of Client/main.cpp against any server.
use cppmulti_thread_server_b.Prelude.{ℕ, zero, suc, ◌≡◌, refl, List, [], ◌∷◌, ◌++◌, replicate}
use cppmulti_thread_server_b.Memory.{Outcome, done, ◌>>=◌}
use cppmulti_thread_server_b.Platform.{Platform}
use cppmulti_thread_server_b.Client.{request, read_reply}

-- The server's side of one connection: what it writes when some bytes have come in.
pub record Peer : Type 1 where
  pub Session : Type 0
  pub serve : Session → List ℕ → Outcome (Session × List ℕ)

-- `n` rounds, with the same text each time; `stream` is what the client has not read yet.
unfoldable pub rounds :
    Platform
    → (o : Peer) → List ℕ
    → ℕ
    → o.Session
    → List ℕ
    → Outcome (o.Session × List (ℕ × List ℕ))
rounds p o text zero s stream = done (s, [])
rounds p o text (suc n) s stream = do
  wire ← request p text
  t ← o.serve s wire
  r ← read_reply p (stream ++ t.1)
  u ← rounds p o text n t.0 r.2
  done (u.0, (r.0, r.1) ∷ u.1)

-- A server that answers the request from every state of a kind, and stays in that kind.
pub rounds-replicate :
    (p : Platform) (o : Peer) (IsReady : o.Session → Type 0) (text wire answer msg : List ℕ)
    (msgid n : ℕ) (s : o.Session)
    → request p text ≡ done wire
    → read_reply p answer ≡ done (msgid, msg, [])
    → ((s : o.Session)
        → IsReady s
        → (s' : o.Session) × (o.serve s wire ≡ done (s', answer)) × IsReady s')
    → IsReady s
    → (s' : o.Session) × (rounds p o text n s [] ≡ done (s', replicate n (msgid, msg))) × IsReady s'
unfolding rounds
rounds-replicate p o IsReady text wire answer msg msgid zero s q r k v = (s, refl, v)
rounds-replicate p o IsReady text wire answer msg msgid (suc n) s q r k v =
    let (s₁, one, v₁) = k s v in
    let (s₂, rest, v₂) = rounds-replicate p o IsReady text wire answer msg msgid n s₁ q r k v₁ in
    (s₂, rw q (rw one (rw r (rw rest refl))), v₂)
