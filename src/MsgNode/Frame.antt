-- ===== src/MsgNode/Frame.antt =====
-- The packets of MsgNode.cpp: what is on the wire, and what a receiver reads out of the head.
use cppmulti_thread_server_b.Prelude.{
  ℕ, ◌+◌, ◌*◌, ◌/◌, ◌%◌, ◌^◌, ◌<◌, ◌≡◌, refl, ap, ◌∙◌, List, [], ◌∷◌, ◌++◌, arith, length, drop,
  length-append, length-drop, drop_all, ℤ, pos, to_short, to_u16, IsShort, to_short-to_u16,
  to_u16-lt,
}
use mathlib.Core.Path.{ap₂}
use cppmulti_thread_server_b.Memory.{done, ◌>>=◌, read_bytes, write_bytes}
use cppmulti_thread_server_b.Memory.Laws.{read_bytes-append, write_bytes-append, drop-drop}
use cppmulti_thread_server_b.Platform.{Platform}
use cppmulti_thread_server_b.MsgNode.{
  MsgNode, SendNode, copy_to, short_bytes, short_at, plus_head, msg_node, load_short, store_short,
  payload, send_node, send_buffer, head_total_len,
}

-- A 16-bit number as the wire has it, the high byte first.
abbrev pub wire_short : ℕ → List ℕ
wire_short w = (w / 256) ∷ (w % 256) ∷ []

abbrev pub head : ℤ → ℤ → List ℕ
head msg_id msg_len = wire_short (to_u16 msg_id) ++ wire_short (to_u16 msg_len)

-- A packet: the id, the length and the text.
abbrev pub frame : ℤ → List ℕ → List ℕ
frame msg_id msg = head msg_id (pos (length msg)) ++ msg

-- Packets one behind another.
abbrev pub frames : List (ℤ × List ℕ) → List ℕ
frames [] = []
frames ((msg_id, msg) ∷ ms) = frame msg_id msg ++ frames ms

-- The array of the packet: the frame and the zero that the constructor puts behind it.
abbrev pub sent : ℤ → List ℕ → SendNode
sent msg_id msg = record {
  node = record {
    cur_len = 0;
    total_len = length msg + head_total_len;
    offset = 0;
    bytes = frame msg_id msg ++ 0 ∷ [];
  };
  msg_id = msg_id;
}

pub send_buffer-sent :
    (msg_id : ℤ) (msg : List ℕ) → send_buffer (sent msg_id msg) ≡ done (frame msg_id msg)
unfolding send_buffer
send_buffer-sent msg_id msg = read_bytes-append [] (frame msg_id msg) (0 ∷ []) refl (omega arith)

module _ (p : Platform) where
  open p use {
    host_to_network_short, network_to_host_short, fresh_bytes, host_to_network_swaps,
    network_to_host_swaps,
  }

  pub short_bytes-wire :
      (z : ℤ) → short_bytes (host_to_network_short (to_u16 z)) ≡ wire_short (to_u16 z)
  unfolding short_bytes
  short_bytes-wire z =
      let lt : to_u16 z < 2 ^ 16 = to_u16-lt z in
      rw (host_to_network_swaps (to_u16 z) lt) (ap₂ (λ a b. a ∷ b ∷ []) (omega arith) (omega arith))

  pub swap_back : (w : ℕ) → w < 2 ^ 16 → network_to_host_short (w / 256 + 256 * (w % 256)) ≡ w
  swap_back w h = network_to_host_swaps _ (omega arith) ∙ omega arith

  -- The number that two bytes of a buffer stand for.
  pub load_short-bytes :
      (m : MsgNode) (pre rest : List ℕ) (a b : ℕ) {at : ℕ}
      → m.offset ≡ 0
      → at ≡ length pre
      → m.bytes ≡ pre ++ (a ∷ b ∷ rest)
      → load_short p m at ≡ done (to_short (network_to_host_short (a + 256 * b)))
  unfolding load_short short_at
  load_short-bytes m pre rest a b {at} o e h = rw found refl
    where
      found : read_bytes (m.offset + at) 2 m.bytes ≡ done (a ∷ b ∷ [])
      found = rw h (read_bytes-append pre (a ∷ b ∷ []) rest (omega arith) refl)

  -- Reading back what was sent gives the number that was sent.
  pub load_short-wire :
      (m : MsgNode) (pre rest : List ℕ) (z : ℤ) {at : ℕ}
      → IsShort z
      → m.offset ≡ 0
      → at ≡ length pre
      → m.bytes ≡ pre ++ (wire_short (to_u16 z) ++ rest)
      → load_short p m at ≡ done z
  unfolding load_short short_at
  load_short-wire m pre rest z {at} h o e b =
      rw found (ap done (ap to_short (swap_back (to_u16 z) (to_u16-lt z)) ∙ to_short-to_u16 z h))
    where
      found : read_bytes (m.offset + at) 2 m.bytes ≡ done (wire_short (to_u16 z))
      found = rw b (read_bytes-append pre (wire_short (to_u16 z)) rest (omega arith) refl)

  pub send_node-frame :
      (msg_id : ℤ) (msg rest : List ℕ)
      → send_node p (msg ++ rest) (pos (length msg)) msg_id ≡ done (sent msg_id msg)
  unfolding send_node plus_head msg_node store_short copy_to payload
  send_node-frame msg_id msg rest = rw (
    short_bytes-wire msg_id,
    short_bytes-wire (pos (length msg)),
    first,
    second,
    text,
    third,
    last,
  )
    where
      fresh : List ℕ
      fresh = fresh_bytes (length msg + 4) ++ 0 ∷ []

      h : List ℕ
      h = wire_short (to_u16 msg_id)

      l : List ℕ
      l = wire_short (to_u16 (pos (length msg)))

      size : length fresh ≡ length msg + 5
      size = omega (
        arith,
        length-append (fresh_bytes (length msg + 4)) (0 ∷ []),
        p.length-fresh_bytes (length msg + 4),
      )

      first : write_bytes (0 + 0) h fresh ≡ done (h ++ drop 2 fresh)
      first = write_bytes-append [] h fresh refl (omega (arith, size))

      second : write_bytes (0 + 2) l (h ++ drop 2 fresh) ≡ done (h ++ (l ++ drop 4 fresh))
      second =
          write_bytes-append h l (drop 2 fresh) refl (omega (arith, size, length-drop 2 fresh))
          ∙ ap (λ t. done (h ++ (l ++ t))) (drop-drop 2 2 fresh)

      text : read_bytes 0 (length msg) (msg ++ rest) ≡ done msg
      text = read_bytes-append [] msg rest refl refl

      third :
          write_bytes (0 + 4) msg ((h ++ l) ++ drop 4 fresh)
          ≡ done ((h ++ l) ++ (msg ++ drop (4 + length msg) fresh))
      third =
          write_bytes-append (h ++ l) msg (drop 4 fresh) refl
            (omega (arith, size, length-drop 4 fresh))
          ∙ ap (λ t. done ((h ++ l) ++ (msg ++ t))) (drop-drop (length msg) 4 fresh)

      last : drop (4 + length msg) fresh ≡ 0 ∷ []
      last =
          drop_all (fresh_bytes (length msg + 4)) (0 ∷ [])
            (omega (arith, p.length-fresh_bytes (length msg + 4)))

  -- What `async_write` of a packet puts on the wire is its id, its length and its text, the numbers
  -- with the high byte first, for any text and id, whatever memory the text is cut from.
  pub send_buffer-send_node :
      (msg_id : ℤ) (msg rest : List ℕ)
      → (send_node p (msg ++ rest) (pos (length msg)) msg_id >>= send_buffer)
        ≡ done (frame msg_id msg)
  send_buffer-send_node msg_id msg rest =
      rw (send_node-frame msg_id msg rest) (send_buffer-sent msg_id msg)
