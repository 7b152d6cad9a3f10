-- ===== src/Exchange/Answers.antt =====
-- From the posts of a session to the bytes of its answers.
use Prim.Native.String.{String}
use cppmulti_thread_server_b.Prelude.{
  ℕ, zero, suc, ◌≡◌, refl, List, [], ◌∷◌, ◌++◌, false, length, append-nil,
}
use cppmulti_thread_server_b.Memory.{Outcome, done, out_of_fuel, ◌>>=◌}
use cppmulti_thread_server_b.Effect.{Effect, start_write, post}
use cppmulti_thread_server_b.Effect.Counts.{writes}
use cppmulti_thread_server_b.Logic.{LogicNode, Reply}
use cppmulti_thread_server_b.Outbox.{Outbox}

-- The messages that a session puts into the queue of the logic system.
abbrev pub messages : String → List Effect → List LogicNode
messages u [] = []
messages u (post n ∷ es) = record { session = u; recv_node = n } ∷ messages u es
messages u (_ ∷ es) = messages u es

module _ (o : Outbox) where
  -- The answers are sent one after the other.
  pub sent_all : o.Session → List Reply → Outcome (o.Session × List (List ℕ))
  sent_all s [] = done (s, [])
  sent_all s (r ∷ rs) = do
    t ← o.send s r.return_str r.msg_id
    u ← sent_all t.0 rs
    done (u.0, writes t.1 ++ u.1)

  -- The writes complete in order, and may start further ones.
  pub flushed : ℕ → o.Session → List (List ℕ) → Outcome (o.Session × List ℕ)
  flushed n s [] = done (s, [])
  flushed zero s (b ∷ bs) = out_of_fuel
  flushed (suc n) s (b ∷ bs) = do
    t ← o.handle_write s false
    u ← flushed n t.0 (bs ++ writes t.1)
    done (u.0, b ++ u.1)

  -- Every answer is one write.
  pub answer : o.Session → List Reply → Outcome (o.Session × List ℕ)
  answer s rs = sent_all s rs >>= λ t. flushed (length rs) t.0 t.1

  pub answer-one :
      (s s₁ s₂ : o.Session) (r : Reply) (b : List ℕ)
      → o.send s r.return_str r.msg_id ≡ done (s₁, start_write b ∷ [])
      → o.handle_write s₁ false ≡ done (s₂, [])
      → answer s (r ∷ []) ≡ done (s₂, b)
  unfolding answer sent_all flushed
  answer-one s s₁ s₂ r b e f = rw e (rw f (rw (append-nil b) refl))
