-- ===== src/Session/Read/Reads.antt =====
-- `HandleRead` over one read after the other, each of one packet.
use cppmulti_thread_server_b.Prelude.{
  ℕ, suc, ◌+◌, ◌≤◌, ◌≡◌, refl, List, [], ◌∷◌, ◌++◌, ℤ, pos, length, arith,
}
use cppmulti_thread_server_b.Memory.{Outcome, done, ◌>>=◌}
use cppmulti_thread_server_b.Platform.{Platform}
use cppmulti_thread_server_b.MsgNode.{max_lenght}
use cppmulti_thread_server_b.MsgNode.Frame.{head, frame}
use cppmulti_thread_server_b.Effect.{Effect, post, start_read}
use cppmulti_thread_server_b.Session.{CSession}
use cppmulti_thread_server_b.Session.Read.{on_bytes}
use cppmulti_thread_server_b.Session.Read.Waiting.{HasHead}
use cppmulti_thread_server_b.Session.Read.Packet.{delivered, IsPacket}
use cppmulti_thread_server_b.Session.Read.Packets.{on_bytes-packet}

-- The completed reads of a session, in order.
unfoldable pub on_reads : Platform → ℕ → CSession → List (List ℕ) → Outcome (CSession × List Effect)
on_reads p fuel s [] = done (s, [])
on_reads p fuel s (bs ∷ more) =
    on_bytes p fuel s bs >>= λ t. on_reads p fuel t.0 more >>= λ u. done (u.0, t.1 ++ u.1)

abbrev pub apart : List (ℤ × List ℕ) → List (List ℕ)
apart [] = []
apart ((msg_id, msg) ∷ ms) = frame msg_id msg ∷ apart ms

abbrev pub AreReadApart : Platform → List (ℤ × List ℕ) → Type 0
AreReadApart p [] = Unit {0}
AreReadApart p ((msg_id, msg) ∷ ms) =
    IsPacket p msg_id msg × (length msg + 4 ≤ max_lenght) × AreReadApart p ms

abbrev pub posts_apart : List (ℤ × List ℕ) → List Effect
posts_apart [] = []
posts_apart ((msg_id, msg) ∷ ms) = post (delivered msg_id msg) ∷ start_read ∷ posts_apart ms

module _ (p : Platform) where
  -- Packets that come in with a read each are all posted, in order, each with its own id and
  -- text, and after each the next read is started. A packet with its head is at most 1024 bytes
  -- long, and its text is readable; one round for a read is enough. Every id is a short that
  -- does not exceed 1024, and the session waits for a head with an empty buffer.
  pub on_reads-apart :
      (ms : List (ℤ × List ℕ)) (fuel : ℕ) (s : CSession)
      → HasHead [] s
      → AreReadApart p ms
      → (s' : CSession) × (on_reads p (suc fuel) s (apart ms) ≡ done (s', posts_apart ms))
        × HasHead [] s'
  unfolding on_reads
  on_reads-apart [] fuel s h a = (s, refl, h)
  on_reads-apart ((msg_id, msg) ∷ ms) fuel s h (k, l, a) =
      let (s₁, one, h₁) =
        on_bytes-packet p fuel s [] (head msg_id (pos (length msg))) msg msg_id h k refl
          (omega arith) (omega arith) in
      let (s₂, rest, h₂) = on_reads-apart ms fuel s₁ h₁ a in (s₂, rw one (rw rest refl), h₂)
