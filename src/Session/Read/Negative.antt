-- ===== src/Session/Read/Negative.antt =====
-- `HandleRead` on a head whose length is negative as a `short`.
use cppmulti_thread_server_b.Prelude.{
  ℕ, zero, suc, ◌+◌, ◌^◌, ◌≤◌, ◌<◌, ◌≡◌, refl, ap, ◌∙◌, List, [], ◌++◌, false, ℤ, negsuc, IsShort,
  to_u16, exceeds, length, drop, arith, append_assoc, lt→ltb,
}
use cppmulti_thread_server_b.Memory.{Outcome, done, throws, fault, ◌>>=◌}
use cppmulti_thread_server_b.Platform.{Platform}
use cppmulti_thread_server_b.MsgNode.{load_short, recv_node, msg_node, max_lenght}
use cppmulti_thread_server_b.MsgNode.Frame.{wire_short, head, load_short-wire}
use cppmulti_thread_server_b.MsgNode.Head.{IsHead}
use cppmulti_thread_server_b.Session.{CSession}
use cppmulti_thread_server_b.Session.Read.{read_lengths, round, loop, handle_read, on_bytes}
use cppmulti_thread_server_b.Session.Read.Waiting.{
  HasHead, arrived, arrived-HasHead, joined, joined-IsHead,
}
use cppmulti_thread_server_b.Session.Read.Packet.{read_head-joined, round-unparsed}

-- How a node of -(n + 1) bytes fails: for -1 its array has no element at -1, and the size of any other
-- is refused with an exception.
abbrev pub refused {ℓ} : {A : Type ℓ} → ℕ → Outcome A
refused zero = fault
refused (suc n) = throws

module _ (p : Platform) where
  recv_node-refused : (n : ℕ) (msg_id : ℤ) → recv_node p (negsuc n) msg_id ≡ refused n
  unfolding recv_node msg_node
  recv_node-refused zero msg_id = refl
  recv_node-refused (suc n) msg_id = refl

  loop-refused :
      (fuel : ℕ) (s : CSession) (b n : ℕ)
      → 0 < b
      → round p s b 0 ≡ refused n
      → loop p (suc fuel) s b 0 ≡ refused n
  unfolding loop
  loop-refused fuel s b zero l e = rw (lt→ltb 0 b l, loop) (rw e refl)
  loop-refused fuel s b (suc n) l e = rw (lt→ltb 0 b l, loop) (rw e refl)

  read_lengths-refused :
      (s : CSession) (junk : List ℕ) (msg_id : ℤ) (n bytes copy_len : ℕ)
      → IsHead s.recv_head_node
      → s.recv_head_node.bytes ≡ head msg_id (negsuc n) ++ junk
      → IsShort msg_id
      → exceeds msg_id max_lenght ≡ false
      → n < 2 ^ 15
      → read_lengths p s bytes copy_len ≡ refused n
  unfolding read_lengths
  read_lengths-refused s junk msg_id n bytes copy_len i b z g l =
      rw (id_read, g) (rw len_read (rw (recv_node-refused n msg_id) (failed n _)))
    where
      id_read : load_short p s.recv_head_node 0 ≡ done msg_id
      id_read = load_short-wire p s.recv_head_node [] _ msg_id z i.at_start refl b

      len_read : load_short p s.recv_head_node 2 ≡ done (negsuc n)
      len_read =
          load_short-wire p s.recv_head_node (wire_short (to_u16 msg_id)) _ (negsuc n) l i.at_start
            refl b

      failed : {A B : Type 0} (m : ℕ) (f : A → Outcome B) → (refused m >>= f) ≡ refused m
      failed zero f = refl
      failed (suc m) f = refl

  -- Four bytes bring `HandleRead` down: a read that begins with a head of an id that the limit
  -- lets through and of a negative length, from -1 to -2^15, ends in an access outside an array
  -- for -1 and in an exception that leaves the handler for every other, whatever follows the
  -- head. The session waits for a head with an empty buffer, and the read is of at most 1024
  -- bytes.
  pub on_bytes-refused :
      (fuel : ℕ) (s : CSession) (more : List ℕ) (msg_id : ℤ) (n : ℕ)
      → HasHead [] s
      → IsShort msg_id
      → exceeds msg_id max_lenght ≡ false
      → n < 2 ^ 15
      → length more + 4 ≤ max_lenght
      → on_bytes p (suc fuel) s (head msg_id (negsuc n) ++ more) ≡ refused n
  unfolding on_bytes handle_read
  on_bytes-refused fuel s more msg_id n h z g l m =
      let at = head msg_id (negsuc n) in
      let s₀ = arrived s (at ++ more) in
      let rest = drop (length (at ++ more)) s.recv_data in
      let (junk, b) = h.held in
      let h₀ = arrived-HasHead s (at ++ more) h (omega arith) in
      let s₁ = joined s₀ [] at junk in
      let size : length (at ++ more) ≡ 4 + length more = omega arith in
      loop-refused fuel s₀ (length (at ++ more)) n (omega arith) (
        ap (λ k. round p s₀ k 0) size
        ∙ round-unparsed p s₀ _ 0 h₀.waits
        ∙ read_head-joined p s₀ [] at (more ++ rest) junk (length more) 0 h₀ b refl
            (append_assoc at more rest) (omega arith)
        ∙ read_lengths-refused s₁ (drop 4 junk) msg_id n (length more) (0 + 4)
            (joined-IsHead s₀ [] at junk h₀ b refl) refl z g l)
