-- ===== src/Client/RoundTrip.antt =====
-- The client's packets and the server's, both ways.
use cppmulti_thread_server_b.Prelude.{
  ℕ, ◌+◌, ◌-◌, ◌%◌, ◌^◌, ◌≤◌, ◌≡◌, refl, ap, ◌∙◌, List, [], ◌++◌, ℤ, pos, to_short, to_u16, to_size,
  to_u16-lt, to_short-to_u16, length, drop, arith, le→leb, length-drop,
}
use cppmulti_thread_server_b.Memory.{done, write_bytes, zeros, length-zeros}
use cppmulti_thread_server_b.Memory.Laws.{read_bytes-append, write_bytes-append}
use cppmulti_thread_server_b.Platform.{Platform}
use cppmulti_thread_server_b.MsgNode.{short_at}
use cppmulti_thread_server_b.MsgNode.Frame.{wire_short, head, frame, short_bytes-wire, swap_back}
use cppmulti_thread_server_b.Client.{
  max_lenght, buffer_size, net_short, request, reply_short, read_reply,
}

module _ (p : Platform) where
  net_short-wire : (z : ℤ) → net_short p (to_u16 z) ≡ wire_short (to_u16 z)
  unfolding net_short
  net_short-wire z = short_bytes-wire p z

  -- A request of at most 2044 bytes of text is the packet that the servers read, with id 1001.
  pub request-frame :
      (text : List ℕ) → length text ≤ max_lenght - 4 → request p text ≡ done (frame (pos 1001) text)
  unfolding request
  request-frame text h =
      rw (net_short-wire (pos 1001), net_short-wire (pos (length text)), one, two, three)
        (rw (le→leb (length text + 4) max_lenght (omega arith))
          (read_bytes-append [] (frame (pos 1001) text) _ refl (omega arith)))
    where
      room : length (zeros max_lenght) ≡ max_lenght
      room = length-zeros max_lenght

      i : List ℕ
      i = wire_short (to_u16 (pos 1001))

      l : List ℕ
      l = wire_short (to_u16 (pos (length text)))

      one : write_bytes 0 i (zeros max_lenght) ≡ done (i ++ drop 2 (zeros max_lenght))
      one = write_bytes-append [] i (zeros max_lenght) refl (omega (arith, room))

      two :
          write_bytes 2 l (i ++ drop 2 (zeros max_lenght))
          ≡ done (i ++ (l ++ drop 2 (drop 2 (zeros max_lenght))))
      two =
          write_bytes-append i l (drop 2 (zeros max_lenght)) refl
            (omega (arith, room, length-drop 2 (zeros max_lenght)))

      three :
          write_bytes 4 text ((i ++ l) ++ drop 2 (drop 2 (zeros max_lenght)))
          ≡ done ((i ++ l) ++ (text ++ drop (length text) (drop 2 (drop 2 (zeros max_lenght)))))
      three = write_bytes-append (i ++ l) text (drop 2 (drop 2 (zeros max_lenght))) refl (
          omega (
            arith,
            room,
            length-drop 2 (zeros max_lenght),
            length-drop 2 (drop 2 (zeros max_lenght)),
          ))

  reply_short-wire :
      (pre rest : List ℕ) (z : ℤ) (at : ℕ)
      → at ≡ length pre
      → reply_short p at (pre ++ (wire_short (to_u16 z) ++ rest)) ≡ done (to_u16 z)
  unfolding reply_short short_at
  reply_short-wire pre rest z at e =
      rw (read_bytes-append pre (wire_short (to_u16 z)) rest e refl)
        (ap done (swap_back p (to_u16 z) (to_u16-lt z)))

  -- The client reads a packet of at most 2048 bytes of text back to its id, as an unsigned short, and
  -- its text, and leaves what comes behind it.
  pub read_reply-frame :
      (msg_id : ℤ) (msg rest : List ℕ)
      → length msg ≤ max_lenght
      → read_reply p (frame msg_id msg ++ rest) ≡ done (to_u16 msg_id, msg, rest)
  unfolding read_reply
  read_reply-frame msg_id msg rest h =
      rw (p.async_read_full (head msg_id (pos (length msg))) (msg ++ rest), read_reply)
        (rw (reply_short-wire [] (wire_short (to_u16 (pos (length msg)))) msg_id 0 refl) (
          rw (reply_short-wire (wire_short (to_u16 msg_id)) [] (pos (length msg)) 2 refl)
            (rw (size, p.async_read_full msg rest) refl)))
    where
      whole : (n : ℕ) → n ≤ max_lenght → buffer_size (n % 2 ^ 64) ≡ n
      whole n m = ground arith

      size : buffer_size (to_size (to_short (to_u16 (pos (length msg))))) ≡ length msg
      size =
          ap (λ z. buffer_size (to_size z)) (to_short-to_u16 (pos (length msg)) (omega (arith, h)))
          ∙ whole (length msg) h
