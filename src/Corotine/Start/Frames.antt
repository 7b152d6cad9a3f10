-- ===== src/Corotine/Start/Frames.antt =====
-- `CSession::Start` on packets: every packet that is sent is posted, in order.
use cppmulti_thread_server_b.Prelude.{
  ℕ, zero, suc, ◌≤◌, ◌<◌, ◌≡◌, refl, List, [], ◌∷◌, ◌++◌, true, false, some, ℤ, pos, IsShort,
  to_u16, exceeds, length, arith, append_assoc, ge→ltb,
}
use cppmulti_thread_server_b.Memory.{done}
use cppmulti_thread_server_b.Platform.{Platform}
use cppmulti_thread_server_b.MsgNode.{MsgNode, RecvNode, recv_node, msg_node, load_short}
use cppmulti_thread_server_b.MsgNode.Frame.{wire_short, head, frame, frames, load_short-wire}
use cppmulti_thread_server_b.MsgNode.Head.{
  IsHead, cleared, clear-cleared, cleared-IsHead, filled, copy_to-filled, filled-IsHead,
}
use cppmulti_thread_server_b.MsgNode.Text.{
  text_node, fresh_node, copy_to-fresh_node, terminate-text_node,
}
use cppmulti_thread_server_b.Effect.{Effect, post, close_socket, clear_session}
use cppmulti_thread_server_b.Corotine.{CSession, max_lenght, close}
use cppmulti_thread_server_b.Corotine.Start.{ends, again, read_body, read_lengths, round, start}

-- The node of a packet that has come in whole.
abbrev pub received : ℤ → List ℕ → RecvNode
received msg_id msg = record { node = text_node 0 msg; msg_id = msg_id }

-- A packet that the server takes: its id is a short, and neither number exceeds the limit.
pub record IsPacket (msg_id : ℤ) (msg : List ℕ) : Type 0 where
  pub is_short : IsShort msg_id
  pub id_fits : exceeds msg_id max_lenght ≡ false
  pub len_fits : length msg ≤ max_lenght

abbrev pub ArePackets : List (ℤ × List ℕ) → Type 0
ArePackets [] = Unit {0}
ArePackets ((msg_id, msg) ∷ ms) = IsPacket msg_id msg × ArePackets ms

abbrev pub posts : List (ℤ × List ℕ) → List Effect
posts [] = []
posts ((msg_id, msg) ∷ ms) = post (received msg_id msg) ∷ posts ms

-- The session after one packet.
abbrev pub after_packet : CSession → ℤ → List ℕ → CSession
after_packet s msg_id msg = record s {
  recv_head_node = filled (cleared s.recv_head_node) (head msg_id (pos (length msg)));
  recv_msg_node = some (received msg_id msg);
}

module _ (p : Platform) where
  open p use {async_read, fresh_bytes}

  pub read_body-packet :
      (s : CSession) (msg_id : ℤ) (msg rest : List ℕ)
      → read_body p s 4 (record { node = fresh_node p (length msg); msg_id = msg_id }) (msg ++ rest)
        ≡ done (
            again
              (record s { recv_msg_node = some (received msg_id msg) })
              rest
              (post (received msg_id msg) ∷ []))
  unfolding read_body
  read_body-packet s msg_id msg rest =
      rw (p.async_read_full msg rest, read_body)
        (rw (copy_to-fresh_node p msg, terminate-text_node 0 msg) refl)

  pub round-packet :
      (s : CSession) (msg_id : ℤ) (msg rest : List ℕ)
      → IsHead s.recv_head_node
      → IsPacket msg_id msg
      → round p s (frame msg_id msg ++ rest)
        ≡ done (again (after_packet s msg_id msg) rest (post (received msg_id msg) ∷ []))
  unfolding round read_lengths recv_node msg_node
  round-packet s msg_id msg rest i k =
      rw (clear-cleared i, round)
        (rw (p.async_read_full h (msg ++ rest), round)
          (rw (copy_to-filled h (cleared-IsHead i) refl) (
            rw (id_read, read_lengths)
              (rw (k.id_fits, len_read, read_lengths)
                (rw (ge→ltb max_lenght (length msg) k.len_fits)
                  (read_body-packet _ msg_id msg rest))))))
    where
      h : List ℕ
      h = head msg_id (pos (length msg))

      full : MsgNode
      full = filled (cleared s.recv_head_node) h

      id_read : load_short p full 0 ≡ done msg_id
      id_read = load_short-wire p full [] _ msg_id k.is_short refl refl refl

      len_read : load_short p full 2 ≡ done (pos (length msg))
      len_read =
          load_short-wire p full (wire_short (to_u16 msg_id)) _ (pos (length msg))
            (omega (arith, k.len_fits)) refl refl refl

  pub after_packet-IsHead :
      (s : CSession) (msg_id : ℤ) (msg : List ℕ)
      → IsHead s.recv_head_node
      → IsHead (after_packet s msg_id msg).recv_head_node
  after_packet-IsHead s msg_id msg i =
      filled-IsHead (head msg_id (pos (length msg))) (cleared-IsHead i) refl

  -- At the end of the stream inside a head, the session is closed and taken off the server.
  pub round-end :
      (s : CSession) (tail : List ℕ)
      → IsHead s.recv_head_node
      → length tail < 4
      → round p s tail
        ≡ done (ends (close (record s { recv_head_node = cleared s.recv_head_node })))
  unfolding round
  round-end s tail i short =
      rw (clear-cleared i, round) (rw (p.async_read_short 4 tail short, round) refl)

  pub start-again :
      (s s' : CSession) {t : CSession × List Effect} (fuel : ℕ) (stream rest : List ℕ)
      {es : List Effect}
      → s.b_close ≡ false
      → round p s stream ≡ done (again s' rest es)
      → start p fuel s' rest ≡ done t
      → start p (suc fuel) s stream ≡ done (t.0, es ++ t.1)
  unfolding start
  start-again s s' fuel stream rest b e run = rw (b, start) (rw e (rw run refl))

  -- A peer that sends packets and closes, at once or inside a head: every packet is posted, in
  -- the order of sending and with its own id and text, and then the session is closed and taken
  -- off the server. One round for each packet and one for the end are enough. Every id is a
  -- short, no id and no length exceeds 2048, the session is open, and its head buffer is as its
  -- constructor makes it.
  pub start-frames :
      (ms : List (ℤ × List ℕ)) (tail : List ℕ) (fuel : ℕ) (s : CSession)
      → ArePackets ms
      → length tail < 4
      → length ms < fuel
      → IsHead s.recv_head_node
      → s.b_close ≡ false
      → (s' : CSession) × (start p fuel s (frames ms ++ tail)
          ≡ done (s', posts ms ++ (close_socket ∷ clear_session s.uuid ∷ [])))
        × (s'.b_close ≡ true)
  unfolding start close
  start-frames ms tail zero s a t f i b = absurd (omega arith)
  start-frames [] tail (suc fuel) s a t f i b =
      let last = record s { recv_head_node = cleared s.recv_head_node } in
      ((close last).0, rw (b, start) (rw (round-end s tail i t) refl), refl)
  start-frames ((msg_id, msg) ∷ ms) tail (suc fuel) s a t f i b =
      let next = after_packet s msg_id msg in
      let (s', run, closed) =
        start-frames ms tail fuel next a.1 t (omega arith) (after_packet-IsHead s msg_id msg i) b in
      (
        s',
        rw (append_assoc (frame msg_id msg) (frames ms) tail) (
            start-again s next fuel _ _ b (round-packet s msg_id msg (frames ms ++ tail) i a.0)
              run),
        closed,
      )
