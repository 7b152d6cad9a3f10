-- ===== src/Session/Read/Split.antt =====
-- `HandleRead` on a text that comes in over two reads.
use cppmulti_thread_server_b.Prelude.{
  ℕ, suc, ◌+◌, ◌≤◌, ◌<◌, ◌≡◌, refl, ap, ◌∙◌, List, [], ◌∷◌, ◌++◌, true, false, some, ℤ, pos,
  IsShort, to_u16, exceeds, length, drop, arith, append_assoc, lt→ltb, ge→ltb, length-append, ◌%◌,
  ◌^◌,
}
use cppmulti_thread_server_b.Memory.{done, fault, read_bytes, length-zeros}
use cppmulti_thread_server_b.Memory.Laws.{read_bytes-append, write_bytes-fits}
use cppmulti_thread_server_b.Platform.{Platform}
use cppmulti_thread_server_b.MsgNode.{
  RecvNode, max_lenght, copy_to, recv_node, msg_node, load_short,
}
use cppmulti_thread_server_b.MsgNode.Frame.{head, wire_short, load_short-wire}
use cppmulti_thread_server_b.MsgNode.Head.{IsHead}
use cppmulti_thread_server_b.MsgNode.Text.{fresh_node}
use cppmulti_thread_server_b.Effect.{start_read}
use cppmulti_thread_server_b.Session.{CSession, wipe}
use cppmulti_thread_server_b.Session.Read.{
  returns, read_text, read_lengths, round, handle_read, on_bytes,
}
use cppmulti_thread_server_b.Session.Read.Waiting.{
  arrived, arrived-HasHead, HasHead, joined, joined-IsHead,
}
use cppmulti_thread_server_b.Session.Read.Packet.{read_head-joined, round-unparsed}
use cppmulti_thread_server_b.Session.Read.Packets.{loop-returns}
use cppmulti_thread_server_b.Session.Read.Rest.{HasText, on_bytes-second, on_bytes-third}

module _ (p : Platform) where
  read_text-begun :
      (s : CSession) (before a after : List ℕ) (msg_id : ℤ) (total copy_len : ℕ)
      → copy_len ≡ length before
      → s.recv_data ≡ before ++ (a ++ after)
      → length a < total
      → (s' : CSession) × (read_text p s
            (record { node = fresh_node p total; msg_id = msg_id })
            total
            (length a)
            copy_len
          ≡ done (returns s' (start_read ∷ [])))
        × HasText (length a) total 0 s'
  unfolding read_text copy_to wipe
  read_text-begun s before a after msg_id total copy_len c d l =
      let new = fresh_node p total in
      let room : length new.bytes ≡ total + 1 =
        omega (arith, length-append (p.fresh_bytes total) (0 ∷ []), p.length-fresh_bytes total) in
      let (out, copied, size) = write_bytes-fits (0 + 0) a new.bytes (omega (arith, room)) in
      let found : read_bytes copy_len (length a) s.recv_data ≡ done a =
        ap (read_bytes copy_len (length a)) d ∙ read_bytes-append before a after c refl in
      let r' : RecvNode = record {
        node = record new { bytes = out; offset = 0 + length a };
        msg_id = msg_id;
      } in
      (
        wipe (record s { recv_msg_node = some r'; b_head_parse = true }),
        rw (lt→ltb _ _ l, found) (rw copied refl),
        record {
          r = r';
          begun = refl;
          parsed = refl;
          shifted = omega arith;
          whole = refl;
          count = refl;
          array = size ∙ room;
          data_room = length-zeros max_lenght;
        },
      )

  read_lengths-begun :
      (s : CSession) (before a after junk : List ℕ) (msg_id : ℤ) (total copy_len : ℕ)
      → IsHead s.recv_head_node
      → s.recv_head_node.bytes ≡ head msg_id (pos total) ++ junk
      → IsShort msg_id
      → exceeds msg_id max_lenght ≡ false
      → total ≤ max_lenght
      → copy_len ≡ length before
      → s.recv_data ≡ before ++ (a ++ after)
      → length a < total
      → (s' : CSession) × (read_lengths p s (length a) copy_len
          ≡ done (returns s' (start_read ∷ [])))
        × HasText (length a) total 0 s'
  unfolding read_lengths recv_node msg_node
  read_lengths-begun s before a after junk msg_id total copy_len i b z g t c d l =
      let s₁ = record s {
        recv_msg_node = some (record { node = fresh_node p total; msg_id = msg_id });
      } in
      let (s', run, h) = read_text-begun s₁ before a after msg_id total copy_len c d l in
      (s', rw (id_read, g) (rw (len_read, ge→ltb max_lenght total t) (rw size run)), h)
    where
      id_read : load_short p s.recv_head_node 0 ≡ done msg_id
      id_read = load_short-wire p s.recv_head_node [] _ msg_id z i.at_start refl b

      len_read : load_short p s.recv_head_node 2 ≡ done (pos total)
      len_read =
          load_short-wire p s.recv_head_node (wire_short (to_u16 msg_id)) _ (pos total)
            (omega (arith, t)) i.at_start refl b

      size : total % 2 ^ 64 ≡ total
      size = omega (arith, t)

  on_bytes-first :
      (fuel : ℕ) (s : CSession) (a : List ℕ) (msg_id : ℤ) (total : ℕ)
      → HasHead [] s
      → IsShort msg_id
      → exceeds msg_id max_lenght ≡ false
      → total ≤ max_lenght
      → length a < total
      → length (head msg_id (pos total) ++ a) ≤ max_lenght
      → (s' : CSession) × (on_bytes p (suc fuel) s (head msg_id (pos total) ++ a)
          ≡ done (s', start_read ∷ []))
        × HasText (length a) total 0 s'
  unfolding on_bytes handle_read
  on_bytes-first fuel s a msg_id total h z g t l m =
      let at = head msg_id (pos total) in
      let s₀ = arrived s (at ++ a) in
      let rest = drop (length (at ++ a)) s.recv_data in
      let (junk, b) = h.held in
      let h₀ = arrived-HasHead s (at ++ a) h m in
      let s₁ = joined s₀ [] at junk in
      let size : length (at ++ a) ≡ 4 + length a = omega arith in
      let (s', run, t') =
        read_lengths-begun s₁ at a rest (drop 4 junk) msg_id total 4
          (joined-IsHead s₀ [] at junk h₀ b refl) refl z g t refl (append_assoc at a rest) l in
      (
        s',
        loop-returns p fuel s₀ s' _ 0 _ (omega arith) (
            ap (λ n. round p s₀ n 0) size
            ∙ round-unparsed p s₀ _ 0 h₀.waits
            ∙ read_head-joined p s₀ [] at (a ++ rest) junk (length a) 0 h₀ b refl
                (append_assoc at a rest) (omega arith)
            ∙ run),
        t',
      )

  -- A text that comes in over two reads, of which the first brings the head and two bytes or
  -- more: both reads return with the next read started and nothing posted, although the packet
  -- is whole. A third read that brings as many bytes as the first piece of the text had then
  -- writes past the end of the node's array. The session waits for a head with an empty buffer,
  -- the id is a short that does not exceed 1024, and the packet is of at most 1024 bytes.
  pub on_bytes-split :
      (fuel : ℕ) (s : CSession) (a b more : List ℕ) (msg_id : ℤ)
      → HasHead [] s
      → IsShort msg_id
      → exceeds msg_id max_lenght ≡ false
      → length (a ++ b) + 4 ≤ max_lenght
      → 2 ≤ length a
      → 0 < length b
      → length a ≤ length more
      → (s₁ s₂ : CSession) × (on_bytes p (suc fuel) s (head msg_id (pos (length (a ++ b))) ++ a)
          ≡ done (s₁, start_read ∷ []))
        × (on_bytes p (suc fuel) s₁ b ≡ done (s₂, start_read ∷ []))
        × (on_bytes p (suc fuel) s₂ more ≡ fault)
  on_bytes-split fuel s a b more msg_id h z g t la lb lm =
      let size : length (a ++ b) ≡ length a + length b = length-append a b in
      let total = length (a ++ b) in
      let (s₁, first, h₁) =
        on_bytes-first fuel s a msg_id total h z g (omega arith) (omega (arith, size))
          (omega (arith, size)) in
      let (s₂, second, h₂) =
        on_bytes-second p fuel s₁ b (length a) total h₁ lb (omega (arith, size))
          (omega (arith, size)) in
      (
        s₁,
        s₂,
        first,
        second,
        on_bytes-third p fuel s₂ more (length a) total (length b) h₂ la (omega (arith, size))
            (omega arith) (omega (arith, size)),
      )
