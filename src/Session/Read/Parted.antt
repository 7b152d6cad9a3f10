-- ===== src/Session/Read/Parted.antt =====
-- `HandleRead` on a packet whose head comes in with several reads.
use cppmulti_thread_server_b.Prelude.{
  ℕ, suc, ◌+◌, ◌≤◌, ◌<◌, ◌≡◌, refl, ap, sym, ◌∙◌, List, [], ◌∷◌, ◌++◌, ℤ, pos, length, drop, arith,
  append_assoc, length-append, lt→ltb, ltb, true,
}
use cppmulti_thread_server_b.Memory.{done, write_bytes, read_bytes, length-zeros}
use cppmulti_thread_server_b.Memory.Laws.{write_bytes-append, read_bytes-append}
use cppmulti_thread_server_b.Platform.{Platform}
use cppmulti_thread_server_b.MsgNode.{copy_to, max_lenght}
use cppmulti_thread_server_b.MsgNode.Frame.{head}
use cppmulti_thread_server_b.Effect.{Effect, post, start_read}
use cppmulti_thread_server_b.Session.{CSession, wipe}
use cppmulti_thread_server_b.Session.Read.{returns, read_head, handle_read, on_bytes}
use cppmulti_thread_server_b.Session.Read.Waiting.{
  HasHead, arrived, arrived-HasHead, joined, joined-room,
}
use cppmulti_thread_server_b.Session.Read.Packet.{delivered, IsPacket, round-unparsed}
use cppmulti_thread_server_b.Session.Read.Packets.{loop-returns, on_bytes-packet}
use cppmulti_thread_server_b.Session.Read.Reads.{on_reads}

-- Pieces of a head, each of one to three bytes.
abbrev pub ArePieces : List (List ℕ) → Type 0
ArePieces [] = Unit {0}
ArePieces (b ∷ bs) = (0 < length b) × (length b < 4) × ArePieces bs

abbrev pub whole : List (List ℕ) → List ℕ
whole [] = []
whole (b ∷ bs) = b ++ whole bs

-- The next read is started for each of the pieces.
abbrev pub started_for : List (List ℕ) → List Effect
started_for [] = []
started_for (b ∷ bs) = start_read ∷ started_for bs

module _ (p : Platform) where
  read_head-piece :
      (s : CSession) (had new after junk : List ℕ)
      → HasHead had s
      → s.recv_head_node.bytes ≡ had ++ junk
      → s.recv_data ≡ new ++ after
      → length new < 4
      → length had + length new ≤ 5
      → read_head p s (length new) 0
        ≡ done (returns (wipe (joined s had new junk)) (start_read ∷ []))
  unfolding read_head copy_to
  read_head-piece s had new after junk h b d n m = rw few (rw (found, copied) refl)
    where
      few : ltb (length new) 4 ≡ true
      few = lt→ltb _ _ n

      found : read_bytes 0 (length new) s.recv_data ≡ done new
      found = rw d (read_bytes-append [] new after refl refl)

      copied :
          write_bytes
            (s.recv_head_node.offset + s.recv_head_node.cur_len)
            new
            s.recv_head_node.bytes
          ≡ done (had ++ (new ++ drop (length new) junk))
      copied =
          ap (write_bytes (s.recv_head_node.offset + s.recv_head_node.cur_len) new) b
          ∙ write_bytes-append had new junk (omega (arith, h.is_head.at_start, h.filled))
              (omega (arith, h.is_head.room, ap length b, length-append had junk))

  joined-HasHead :
      (s : CSession) (had new junk : List ℕ)
      → HasHead had s
      → s.recv_head_node.bytes ≡ had ++ junk
      → length had + length new ≤ 5
      → HasHead (had ++ new) (wipe (joined s had new junk))
  unfolding wipe
  joined-HasHead s had new junk h b m = record {
    is_head = joined-room s had new junk h b m;
    held = (drop (length new) junk, sym (append_assoc had new (drop (length new) junk)));
    filled = omega (arith, h.filled, length-append had new);
    waits = h.waits;
    data_room = length-zeros max_lenght;
  }

  -- A read of fewer bytes than a head has.
  on_bytes-piece :
      (fuel : ℕ) (s : CSession) (had new : List ℕ)
      → HasHead had s
      → 0 < length new
      → length new < 4
      → length had + length new ≤ 5
      → (s' : CSession) × (on_bytes p (suc fuel) s new ≡ done (s', start_read ∷ []))
        × HasHead (had ++ new) s'
  unfolding on_bytes handle_read
  on_bytes-piece fuel s had new h some_bytes n m =
      let s₀ = arrived s new in
      let h₀ = arrived-HasHead s new h (omega arith) in
      let (junk, b) = h₀.held in
      (
        wipe (joined s₀ had new junk),
        loop-returns p fuel s₀ _ (length new) 0 _ some_bytes (
            round-unparsed p s₀ (length new) 0 h₀.waits
            ∙ read_head-piece s₀ had new (drop (length new) s.recv_data) junk h₀ b refl n m),
        joined-HasHead s₀ had new junk h₀ b m,
      )

  on_reads-pieces :
      (pieces : List (List ℕ)) (fuel : ℕ) (s : CSession) (had new msg : List ℕ) (msg_id : ℤ)
      → HasHead had s
      → IsPacket p msg_id msg
      → ArePieces pieces
      → had ++ (whole pieces ++ new) ≡ head msg_id (pos (length msg))
      → 4 ≤ length (new ++ msg)
      → length (new ++ msg) ≤ max_lenght
      → (s' : CSession) × (on_reads p (suc fuel) s (pieces ++ (new ++ msg) ∷ [])
          ≡ done (s', started_for pieces ++ post (delivered msg_id msg) ∷ start_read ∷ []))
        × HasHead [] s'
  unfolding on_reads
  on_reads-pieces [] fuel s had new msg msg_id h k a e n m =
      let (s', ran, h') = on_bytes-packet p fuel s had new msg msg_id h k e n m in
      (s', rw ran refl, h')
  on_reads-pieces (b ∷ bs) fuel s had new msg msg_id h k (one, few, a) e n m =
      let size : length had + (length b + length (whole bs ++ new)) ≡ 4 = omega (
        arith,
        ap length e,
        length-append had ((b ++ whole bs) ++ new),
        ap length (append_assoc b (whole bs) new),
        length-append b (whole bs ++ new),
      ) in
      let (s₁, ran, h₁) = on_bytes-piece fuel s had b h one few (omega (arith, size)) in
      let regroup : (had ++ b) ++ (whole bs ++ new) ≡ head msg_id (pos (length msg)) =
        append_assoc had b (whole bs ++ new)
        ∙ ap (λ x. had ++ x) (sym (append_assoc b (whole bs) new))
        ∙ e in
      let (s₂, rest, h₂) =
        on_reads-pieces bs fuel s₁ (had ++ b) new msg msg_id h₁ k a regroup n m in
      (s₂, rw ran (rw rest refl), h₂)

  -- A packet whose head comes in parted: over any number of reads of one to three bytes each, and a
  -- last one of at least four and at most 1024 that brings the rest of the head, if any, with the whole
  -- text. After each of the short reads only the next read is started; with the last one the packet is
  -- posted with its own id and text, the next read is started, and the session waits for the next head
  -- with an empty buffer, as it did before. The id is a short, no number of the head exceeds 1024, and
  -- the text is readable.
  pub on_reads-parted :
      (pieces : List (List ℕ)) (fuel : ℕ) (s : CSession) (new msg : List ℕ) (msg_id : ℤ)
      → HasHead [] s
      → IsPacket p msg_id msg
      → ArePieces pieces
      → whole pieces ++ new ≡ head msg_id (pos (length msg))
      → 4 ≤ length (new ++ msg)
      → length (new ++ msg) ≤ max_lenght
      → (s' : CSession) × (on_reads p (suc fuel) s (pieces ++ (new ++ msg) ∷ [])
          ≡ done (s', started_for pieces ++ post (delivered msg_id msg) ∷ start_read ∷ []))
        × HasHead [] s'
  on_reads-parted pieces fuel s new msg msg_id h k a e n m =
      on_reads-pieces pieces fuel s [] new msg msg_id h k a e n m
