-- ===== src/Session/Read/Packet.antt =====
-- One round of `HandleRead` that completes a packet.
use cppmulti_thread_server_b.Prelude.{
  ℕ, ◌+◌, ◌-◌, ◌≤◌, ◌<◌, ◌≡◌, refl, ap, sym, ◌∙◌, List, [], ◌∷◌, ◌++◌, false, some, ℤ, pos, IsShort,
  to_u16, exceeds, length, drop, arith, append_assoc, ge→ltb, gt→leb, ltb, ◌%◌, ◌^◌, length-append,
}
use cppmulti_thread_server_b.Memory.{done, ◌>>=◌, write_bytes, read_bytes, length-zeros}
use cppmulti_thread_server_b.Memory.Laws.{write_bytes-append, read_bytes-append}
use cppmulti_thread_server_b.Platform.{Platform}
use cppmulti_thread_server_b.MsgNode.{
  RecvNode, copy_to, recv_node, msg_node, load_short, max_lenght,
}
use cppmulti_thread_server_b.MsgNode.Frame.{wire_short, head, load_short-wire}
use cppmulti_thread_server_b.MsgNode.Head.{IsHead, cleared, clear-cleared, cleared-IsHead}
use cppmulti_thread_server_b.MsgNode.Text.{
  text_node, fresh_node, copy_to-fresh_node, terminate-text_node, text-text_node,
}
use cppmulti_thread_server_b.Effect.{post, start_read}
use cppmulti_thread_server_b.Session.{CSession, wipe}
use cppmulti_thread_server_b.Session.Read.{
  returns, goes_on, next_packet, print_json, read_text, read_lengths, read_head, round,
}
use cppmulti_thread_server_b.Session.Read.Waiting.{HasHead, joined, joined-IsHead}

-- The node of a packet that has come in whole.
abbrev pub delivered : ℤ → List ℕ → RecvNode
delivered msg_id msg = record { node = text_node (length msg) msg; msg_id = msg_id }

-- The handler can print the text: it is JSON with an "id" and a "data" of the types that it asks for.
abbrev pub IsReadable : Platform → List ℕ → Type 0
IsReadable p msg = (t : ℤ × List ℕ) × (print_json p msg ≡ done t)

-- A packet that the server takes.
pub record IsPacket (p : Platform) (msg_id : ℤ) (msg : List ℕ) : Type 0 where
  pub is_short : IsShort msg_id
  pub id_fits : exceeds msg_id max_lenght ≡ false
  pub len_fits : length msg ≤ max_lenght
  pub readable : IsReadable p msg

module _ (p : Platform) where
  pub next_packet-last :
      (s : CSession) (r : RecvNode) (copy_len : ℕ)
      → IsHead s.recv_head_node
      → (s' : CSession) × (next_packet s r 0 copy_len
          ≡ done (returns s' (post r ∷ start_read ∷ [])))
        × HasHead [] s'
  unfolding next_packet wipe
  next_packet-last s r copy_len i = (
    wipe (record s {
      b_head_parse = false;
      recv_head_node = cleared s.recv_head_node;
      recv_msg_node = some r;
    }),
    rw (clear-cleared i) refl,
    record {
      is_head = cleared-IsHead i;
      held = (_, refl);
      filled = refl;
      waits = refl;
      data_room = length-zeros max_lenght;
    },
  )

  pub next_packet-more :
      (s : CSession) (r : RecvNode) (bytes copy_len : ℕ)
      → IsHead s.recv_head_node
      → length s.recv_data ≡ max_lenght
      → 0 < bytes
      → (s' : CSession) × (next_packet s r bytes copy_len
          ≡ done (goes_on s' bytes copy_len (post r ∷ [])))
        × HasHead [] s'
        × (s'.recv_data ≡ s.recv_data)
  unfolding next_packet wipe
  next_packet-more s r bytes copy_len i l b = (
    record s {
      b_head_parse = false;
      recv_head_node = cleared s.recv_head_node;
      recv_msg_node = some r;
    },
    rw (clear-cleared i) (rw (gt→leb bytes 0 b) refl),
    record {
      is_head = cleared-IsHead i;
      held = (_, refl);
      filled = refl;
      waits = refl;
      data_room = l;
    },
    refl,
  )

  -- The text follows its head in the same read: it is printed, and then posted.
  read_text-printed :
      (s : CSession) (before msg after : List ℕ) (msg_id : ℤ) (more copy_len : ℕ)
      → copy_len ≡ length before
      → s.recv_data ≡ before ++ (msg ++ after)
      → read_text p s
          (record { node = fresh_node p (length msg); msg_id = msg_id })
          (length msg)
          (length msg + more)
          copy_len
        ≡ (print_json p msg >>= λ t.
            next_packet s (delivered msg_id msg) more (copy_len + length msg))
  unfolding read_text
  read_text-printed s before msg after msg_id more copy_len c d =
      rw (ge→ltb (length msg + more) (length msg) (omega arith), found)
        (rw (copy_to-fresh_node p msg) (
          rw (terminate-text_node (0 + length msg) msg) (
            rw (counted, text-text_node msg)
              (ap
                (λ n. print_json p msg >>= λ t.
                  next_packet s (delivered msg_id msg) n (copy_len + length msg))
                rest))))
    where
      found : read_bytes copy_len (length msg) s.recv_data ≡ done msg
      found = rw d (read_bytes-append before msg after c refl)

      counted : 0 + length msg ≡ length msg
      counted = omega arith

      rest : length msg + more - length msg ≡ more
      rest = omega arith

  pub read_head-joined :
      (s : CSession) (had new after junk : List ℕ) (bytes copy_len : ℕ)
      → HasHead had s
      → s.recv_head_node.bytes ≡ had ++ junk
      → length had + length new ≡ 4
      → s.recv_data ≡ new ++ after
      → 4 ≤ length new + bytes
      → read_head p s (length new + bytes) copy_len
        ≡ read_lengths p (joined s had new junk) bytes (copy_len + length new)
  unfolding read_head copy_to
  read_head-joined s had new after junk bytes copy_len h b four d n =
      rw (enough, fits, remain) (rw (found, copied, rest) refl)
    where
      enough : ltb (length new + bytes) 4 ≡ false
      enough = ge→ltb _ _ n

      fits : ltb 4 s.recv_head_node.cur_len ≡ false
      fits = ge→ltb _ _ (omega (arith, h.filled))

      remain : 4 - s.recv_head_node.cur_len ≡ length new
      remain = omega (arith, h.filled)

      found : read_bytes 0 (length new) s.recv_data ≡ done new
      found = rw d (read_bytes-append [] new after refl refl)

      copied :
          write_bytes
            (s.recv_head_node.offset + s.recv_head_node.cur_len)
            new
            s.recv_head_node.bytes
          ≡ done (had ++ (new ++ drop (length new) junk))
      copied =
          ap (write_bytes _ new) b
          ∙ write_bytes-append had new junk (omega (arith, h.filled, h.is_head.at_start))
              (omega (arith, h.is_head.room, ap length b, length-append had junk))

      rest : length new + bytes - length new ≡ bytes
      rest = omega arith

  read_lengths-printed :
      (s : CSession) (before msg after junk : List ℕ) (msg_id : ℤ) (more copy_len : ℕ)
      → IsHead s.recv_head_node
      → s.recv_head_node.bytes ≡ head msg_id (pos (length msg)) ++ junk
      → IsShort msg_id
      → exceeds msg_id max_lenght ≡ false
      → length msg ≤ max_lenght
      → copy_len ≡ length before
      → s.recv_data ≡ before ++ (msg ++ after)
      → read_lengths p s (length msg + more) copy_len ≡ (
          print_json p msg >>= λ t.
          next_packet
            (record s {
              recv_msg_node = some (record { node = fresh_node p (length msg); msg_id = msg_id });
            })
            (delivered msg_id msg)
            more
            (copy_len + length msg))
  unfolding read_lengths recv_node msg_node
  read_lengths-printed s before msg after junk msg_id more copy_len i b z g l c d =
      rw (id_read, g)
        (rw (len_read, ge→ltb max_lenght (length msg) l)
          (rw size (read_text-printed _ before msg after msg_id more copy_len c d)))
    where
      id_read : load_short p s.recv_head_node 0 ≡ done msg_id
      id_read = load_short-wire p s.recv_head_node [] _ msg_id z i.at_start refl b

      len_read : load_short p s.recv_head_node 2 ≡ done (pos (length msg))
      len_read =
          load_short-wire p s.recv_head_node (wire_short (to_u16 msg_id)) _ (pos (length msg))
            (omega (arith, l)) i.at_start refl b

      size : length msg % 2 ^ 64 ≡ length msg
      size = omega (arith, l)

  pub round-unparsed :
      (s : CSession) (bytes copy_len : ℕ)
      → s.b_head_parse ≡ false
      → round p s bytes copy_len ≡ read_head p s bytes copy_len
  unfolding round
  round-unparsed s bytes copy_len e = ground arith

  -- A round in which a head and its text are complete. `had` is the part of the head that is held
  -- already, and `new` the part that stands at the start of `_data`, wherever the text stands.
  pub round-printed :
      (s : CSession) (had new before msg after after' : List ℕ) (msg_id : ℤ) (more copy_len : ℕ)
      → HasHead had s
      → IsShort msg_id
      → exceeds msg_id max_lenght ≡ false
      → length msg ≤ max_lenght
      → had ++ new ≡ head msg_id (pos (length msg))
      → s.recv_data ≡ new ++ after
      → s.recv_data ≡ before ++ (msg ++ after')
      → copy_len + length new ≡ length before
      → 4 ≤ length new + (length msg + more)
      → (s₁ : CSession) × IsHead s₁.recv_head_node
        × (s₁.recv_data ≡ s.recv_data)
        × (round p s (length new + (length msg + more)) copy_len ≡ (
            print_json p msg >>= λ t.
            next_packet s₁ (delivered msg_id msg) more (copy_len + length new + length msg)))
  round-printed s had new before msg after after' msg_id more copy_len h z g l e d d' c n =
      let (junk, b) = h.held in
      let four : length had + length new ≡ 4 = omega (arith, ap length e, length-append had new) in
      let s₁ = joined s had new junk in
      let regroup : s₁.recv_head_node.bytes
          ≡ head msg_id (pos (length msg)) ++ drop (length new) junk =
        sym (append_assoc had new (drop (length new) junk))
        ∙ ap (λ t. t ++ drop (length new) junk) e in
      let i = joined-IsHead s had new junk h b four in
      (
        record s₁ {
          recv_msg_node = some (record { node = fresh_node p (length msg); msg_id = msg_id });
        },
        i,
        refl,
        round-unparsed s _ copy_len h.waits
            ∙ read_head-joined s had new after junk (length msg + more) copy_len h b four d n
            ∙ read_lengths-printed s₁ before msg after' _ msg_id more _ i regroup z g l c d',
      )

  -- The text can be printed.
  pub round-whole :
      (s : CSession) (had new before msg after after' : List ℕ) (msg_id : ℤ) (more copy_len : ℕ)
      → HasHead had s
      → IsPacket p msg_id msg
      → had ++ new ≡ head msg_id (pos (length msg))
      → s.recv_data ≡ new ++ after
      → s.recv_data ≡ before ++ (msg ++ after')
      → copy_len + length new ≡ length before
      → 4 ≤ length new + (length msg + more)
      → (s₁ : CSession) × IsHead s₁.recv_head_node
        × (s₁.recv_data ≡ s.recv_data)
        × (round p s (length new + (length msg + more)) copy_len
            ≡ next_packet s₁ (delivered msg_id msg) more (copy_len + length new + length msg))
  round-whole s had new before msg after after' msg_id more copy_len h k e d d' c n =
      let (t, j) = k.readable in
      let (s₁, i, same, ran) =
        round-printed s had new before msg after after' msg_id more copy_len h k.is_short k.id_fits
          k.len_fits e d d' c n in
      (s₁, i, same, ran ∙ rw j refl)
