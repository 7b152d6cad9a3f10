-- ===== src/Session/Read/Packets.antt =====
-- `HandleRead` on packets: what one completed read does, packet by packet.
use cppmulti_thread_server_b.Prelude.{
  ℕ, zero, suc, ◌+◌, ◌≤◌, ◌<◌, ◌≡◌, refl, ap, sym, ◌∙◌, List, [], ◌∷◌, ◌++◌, ℤ, pos, length, drop,
  arith, append_assoc, lt→ltb, length-append,
}
use cppmulti_thread_server_b.Memory.{done}
use cppmulti_thread_server_b.Platform.{Platform}
use cppmulti_thread_server_b.MsgNode.{max_lenght}
use cppmulti_thread_server_b.MsgNode.Frame.{head, frame, frames}
use cppmulti_thread_server_b.MsgNode.Head.{IsHead}
use cppmulti_thread_server_b.Effect.{Effect, post, start_read}
use cppmulti_thread_server_b.Session.{CSession}
use cppmulti_thread_server_b.Session.Read.{
  returns, goes_on, next_packet, round, loop, handle_read, on_bytes,
}
use cppmulti_thread_server_b.Session.Read.Waiting.{arrived, arrived-HasHead, HasHead}
use cppmulti_thread_server_b.Session.Read.Packet.{
  delivered, IsPacket, next_packet-last, next_packet-more, round-whole,
}

-- Packets that `HandleRead` takes for packets `msg_id` of `n` bytes.
abbrev pub AreAlike : Platform → ℤ → ℕ → List (ℤ × List ℕ) → Type 0
AreAlike p msg_id n [] = Unit {0}
AreAlike p msg_id n ((i, msg) ∷ ms) =
    (length msg ≡ n) × IsPacket p msg_id msg × AreAlike p msg_id n ms

-- The posts of the texts of `ms`, all under one id.
abbrev pub posts_as : ℤ → List (ℤ × List ℕ) → List Effect
posts_as msg_id [] = []
posts_as msg_id ((i, msg) ∷ ms) = post (delivered msg_id msg) ∷ posts_as msg_id ms

module _ (p : Platform) where
  pub loop-returns :
      (fuel : ℕ) (s s' : CSession) (bytes copy_len : ℕ) (es : List Effect)
      → 0 < bytes
      → round p s bytes copy_len ≡ done (returns s' es)
      → loop p (suc fuel) s bytes copy_len ≡ done (s', es)
  unfolding loop
  loop-returns fuel s s' bytes copy_len es b e = rw (lt→ltb 0 bytes b, loop) (rw e refl)

  loop-goes_on :
      (fuel : ℕ) (s s₁ : CSession) (bytes copy_len n c : ℕ) (es : List Effect)
      {t : CSession × List Effect}
      → 0 < bytes
      → round p s bytes copy_len ≡ done (goes_on s₁ n c es)
      → loop p fuel s₁ n c ≡ done t
      → loop p (suc fuel) s bytes copy_len ≡ done (t.0, es ++ t.1)
  unfolding loop
  loop-goes_on fuel s s₁ bytes copy_len n c es b e run =
      rw (lt→ltb 0 bytes b, loop) (rw e (rw run refl))

  -- The read that completes a packet: `had` of its head is in the buffer already, and `new` comes with the
  -- text in this read, of four bytes or more.
  pub on_bytes-packet :
      (fuel : ℕ) (s : CSession) (had new msg : List ℕ) (msg_id : ℤ)
      → HasHead had s
      → IsPacket p msg_id msg
      → had ++ new ≡ head msg_id (pos (length msg))
      → 4 ≤ length (new ++ msg)
      → length (new ++ msg) ≤ max_lenght
      → (s' : CSession) × (on_bytes p (suc fuel) s (new ++ msg)
          ≡ done (s', post (delivered msg_id msg) ∷ start_read ∷ []))
        × HasHead [] s'
  unfolding on_bytes handle_read
  on_bytes-packet fuel s had new msg msg_id h k e n m =
      let rest = drop (length (new ++ msg)) s.recv_data in
      let s₀ = arrived s (new ++ msg) in
      let h₀ = arrived-HasHead s (new ++ msg) h m in
      let size : length (new ++ msg) ≡ length new + (length msg + 0) =
        omega (arith, length-append new msg) in
      let (s₁, i, d, run) =
        round-whole p s₀ had new new msg (msg ++ rest) rest msg_id 0 0 h₀ k e
          (append_assoc new msg rest) (append_assoc new msg rest) (omega arith)
          (omega (arith, size)) in
      let (s', last, h') =
        next_packet-last p s₁ (delivered msg_id msg) (0 + length new + length msg) i in
      (
        s',
        loop-returns fuel s₀ s' _ 0 _ (omega arith) (ap (λ b. round p s₀ b 0) size ∙ run ∙ last),
        h',
      )

  -- The head at the start of `_data` is read for the packet that stands at `copy_len`.
  round-alike :
      (s : CSession) (before after msg more tail : List ℕ) (msg_id i : ℤ) (n copy_len : ℕ)
      → HasHead [] s
      → length msg ≡ n
      → IsPacket p msg_id msg
      → s.recv_data ≡ head msg_id (pos n) ++ after
      → s.recv_data ≡ before ++ ((frame i msg ++ more) ++ tail)
      → copy_len ≡ length before
      → (s₁ : CSession) × IsHead s₁.recv_head_node
        × (s₁.recv_data ≡ s.recv_data)
        × (round p s (length (frame i msg ++ more)) copy_len
            ≡ next_packet s₁ (delivered msg_id msg) (length more) (copy_len + 4 + length msg))
  round-alike s before after msg more tail msg_id i n copy_len h l k d d' c =
      let at = head i (pos (length msg)) in
      let regroup : before ++ ((frame i msg ++ more) ++ tail)
          ≡ (before ++ at) ++ (msg ++ (more ++ tail)) =
        ap (λ t. before ++ (at ++ t)) (append_assoc msg more tail)
        ∙ sym (append_assoc before at (msg ++ (more ++ tail))) in
      let (s₁, i', e, run) =
        round-whole p s [] (head msg_id (pos n)) (before ++ at) msg after (more ++ tail) msg_id
          (length more) copy_len h k (ap (λ m. head msg_id (pos m)) (sym l)) d (d' ∙ regroup)
          (omega (arith, length-append before at)) (omega arith) in
      let size : length (frame i msg ++ more) ≡ 4 + (length msg + length more) =
        omega (arith, length-append msg more) in
      (s₁, i', e, ap (λ b. round p s b copy_len) size ∙ run)

  loop-alike :
      (ms : List (ℤ × List ℕ)) (fuel : ℕ) (s : CSession) (before after tail msg : List ℕ)
      (msg_id i : ℤ) (n copy_len : ℕ)
      → HasHead [] s
      → AreAlike p msg_id n ((i, msg) ∷ ms)
      → s.recv_data ≡ head msg_id (pos n) ++ after
      → s.recv_data ≡ before ++ (frames ((i, msg) ∷ ms) ++ tail)
      → copy_len ≡ length before
      → length ms < fuel
      → (s' : CSession) × (loop p fuel s (length (frames ((i, msg) ∷ ms))) copy_len
          ≡ done (s', posts_as msg_id ((i, msg) ∷ ms) ++ start_read ∷ []))
        × HasHead [] s'
  loop-alike ms zero s before after tail msg msg_id i n copy_len h a d d' c f = absurd (omega arith)
  loop-alike [] (suc fuel) s before after tail msg msg_id i n copy_len h a d d' c f =
      let (s₁, i', e, run) =
        round-alike s before after msg [] tail msg_id i n copy_len h a.0 a.1 d d' c in
      let (s', last, h') =
        next_packet-last p s₁ (delivered msg_id msg) (copy_len + 4 + length msg) i' in
      (s', loop-returns fuel s s' _ copy_len _ (omega arith) (run ∙ last), h')
  loop-alike ((j, msg₂) ∷ ms) (suc fuel) s before after tail msg msg_id i n copy_len h a d d' c f =
      let rest = frames ((j, msg₂) ∷ ms) in
      let done_part = before ++ frame i msg in
      let (s₁, i', e, run) =
        round-alike s before after msg rest tail msg_id i n copy_len h a.0 a.1 d d' c in
      let (s₂, more, h₂, e₂) =
        next_packet-more p s₁ (delivered msg_id msg) (length rest) (copy_len + 4 + length msg) i'
          (ap length e ∙ h.data_room) (omega arith) in
      let same : s₂.recv_data ≡ s.recv_data = e₂ ∙ e in
      let regroup : s.recv_data ≡ done_part ++ (rest ++ tail) =
        d'
        ∙ ap (λ t. before ++ t) (append_assoc (frame i msg) rest tail)
        ∙ sym (append_assoc before (frame i msg) (rest ++ tail)) in
      let (s', later, h') =
        loop-alike ms fuel s₂ done_part after tail msg₂ msg_id j n (copy_len + 4 + length msg) h₂
          a.2 (same ∙ d) (same ∙ regroup) (omega (arith, c, length-append before (frame i msg)))
          (omega arith) in
      (s', loop-goes_on fuel s s₂ _ copy_len _ _ _ (omega arith) (run ∙ more) later, h')

  -- Packets of one length that come in with one read, the first of them `(i, msg)`: every text
  -- is posted, in order, but all of them under the id of the first packet, since the head at
  -- the start of `_data` is read again for each. Then the next read is started, and the session
  -- waits for a head. As many rounds as packets are enough. The session waits for a head with
  -- an empty buffer, the id of the first packet is a short, no number of its head exceeds 1024,
  -- the read is of at most 1024 bytes, and the texts are readable.
  pub on_bytes-alike :
      (ms : List (ℤ × List ℕ)) (fuel : ℕ) (s : CSession) (i : ℤ) (msg : List ℕ)
      → HasHead [] s
      → AreAlike p i (length msg) ((i, msg) ∷ ms)
      → length (frames ((i, msg) ∷ ms)) ≤ max_lenght
      → length ms < fuel
      → (s' : CSession) × (on_bytes p fuel s (frames ((i, msg) ∷ ms))
          ≡ done (s', posts_as i ((i, msg) ∷ ms) ++ start_read ∷ []))
        × HasHead [] s'
  unfolding on_bytes handle_read
  on_bytes-alike ms fuel s i msg h a m f =
      let bs = frames ((i, msg) ∷ ms) in
      let rest = drop (length bs) s.recv_data in
      let s₀ = arrived s bs in
      let h₀ = arrived-HasHead s bs h m in
      loop-alike ms fuel s₀ [] _ rest msg i i (length msg) 0 h₀ a refl refl refl f
