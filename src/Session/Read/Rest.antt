-- ===== src/Session/Read/Rest.antt =====
-- The rest of a text of which the first piece moved `_data`.
use cppmulti_thread_server_b.Prelude.{
  ℕ, suc, ◌+◌, ◌-◌, ◌≤◌, ◌<◌, ◌≡◌, refl, ap, ◌∙◌, List, [], ◌∷◌, ◌++◌, true, some, length, drop,
  arith, lt→ltb, ge→ltb, length-append,
}
use cppmulti_thread_server_b.Memory.{done, fault, read_bytes, write_bytes, length-zeros}
use cppmulti_thread_server_b.Memory.Laws.{
  read_bytes-append, read_bytes-fits, write_bytes-fault, write_bytes-fits,
}
use cppmulti_thread_server_b.Platform.{Platform}
use cppmulti_thread_server_b.MsgNode.{RecvNode, max_lenght, copy_to}
use cppmulti_thread_server_b.Effect.{start_read}
use cppmulti_thread_server_b.Session.{CSession, wipe}
use cppmulti_thread_server_b.Session.Read.{returns, read_rest, round, loop, handle_read, on_bytes}
use cppmulti_thread_server_b.Session.Read.Waiting.{arrived}
use cppmulti_thread_server_b.Session.Read.Packets.{loop-returns}

-- A text of `total` bytes has begun: the node's pointer stands `shift` bytes into its array, and
-- `counted` bytes are counted.
pub record HasText (shift total counted : ℕ) (s : CSession) : Type 0 where
  pub r : RecvNode
  pub begun : s.recv_msg_node ≡ some r
  pub parsed : s.b_head_parse ≡ true
  pub shifted : r.node.offset ≡ shift
  pub whole : r.node.total_len ≡ total
  pub count : r.node.cur_len ≡ counted
  pub array : length r.node.bytes ≡ total + 1
  pub data_room : length s.recv_data ≡ max_lenght

module _ (p : Platform) where
  round-parsed :
      (s : CSession) (r : RecvNode) (b c : ℕ)
      → s.b_head_parse ≡ true
      → s.recv_msg_node ≡ some r
      → round p s b c ≡ read_rest s r b c
  unfolding round
  round-parsed s r b c e f = ground arith

  read_rest-short :
      (s : CSession) (r : RecvNode) (bs after : List ℕ)
      → s.recv_data ≡ bs ++ after
      → length bs < r.node.total_len - r.node.cur_len
      → r.node.offset + r.node.cur_len + length bs ≤ length r.node.bytes
      → (out : List ℕ) × (length out ≡ length r.node.bytes)
        × (read_rest s r (length bs) 0
            ≡ done (
                returns
                  (wipe (record s {
                    recv_msg_node = some (record r {
                      node = record r.node { bytes = out; cur_len = r.node.cur_len + length bs };
                    });
                  }))
                  (start_read ∷ [])))
  unfolding read_rest copy_to
  read_rest-short s r bs after d l f =
      let (out, copied, size) =
        write_bytes-fits (r.node.offset + r.node.cur_len) bs r.node.bytes f in
      let found : read_bytes 0 (length bs) s.recv_data ≡ done bs =
        ap (read_bytes 0 (length bs)) d ∙ read_bytes-append [] bs after refl refl in
      (out, size, rw (lt→ltb _ _ l, found) (rw copied refl))

  -- The second piece of a text is copied to its place, and counted as if it were the first.
  pub on_bytes-second :
      (fuel : ℕ) (s : CSession) (bs : List ℕ) (shift total : ℕ)
      → HasText shift total 0 s
      → 0 < length bs
      → length bs < total
      → shift + length bs ≤ total
      → (s' : CSession) × (on_bytes p (suc fuel) s bs ≡ done (s', start_read ∷ []))
        × HasText shift total (length bs) s'
  unfolding on_bytes handle_read wipe
  on_bytes-second fuel s bs shift total h n l f =
      let s₀ = arrived s bs in
      let (out, size, run) =
        read_rest-short s₀ h.r bs (drop (length bs) s.recv_data) refl
          (omega (arith, h.whole, h.count)) (omega (arith, h.shifted, h.count, h.array)) in
      let r' : RecvNode = record {
        node = record h.r.node { bytes = out; cur_len = h.r.node.cur_len + length bs };
        msg_id = h.r.msg_id;
      } in
      (
        wipe (record s₀ { recv_msg_node = some r' }),
        loop-returns p fuel s₀ _ (length bs) 0 _ n (round-parsed s₀ h.r _ 0 h.parsed h.begun ∙ run),
        record {
          r = r';
          begun = refl;
          parsed = h.parsed;
          shifted = h.shifted;
          whole = h.whole;
          count = omega (arith, h.count);
          array = size ∙ h.array;
          data_room = length-zeros max_lenght;
        },
      )

  read_rest-overrun :
      (s : CSession) (r : RecvNode) (b : ℕ)
      → r.node.cur_len ≤ r.node.total_len
      → r.node.total_len - r.node.cur_len ≤ b
      → b ≤ length s.recv_data
      → length r.node.bytes < r.node.offset + r.node.cur_len + (r.node.total_len - r.node.cur_len)
      → read_rest s r b 0 ≡ fault
  unfolding read_rest copy_to
  read_rest-overrun s r b w l m o =
      let remain = r.node.total_len - r.node.cur_len in
      let (out, found, size) = read_bytes-fits 0 remain s.recv_data (omega arith) in
      let over : write_bytes (r.node.offset + r.node.cur_len) out r.node.bytes ≡ fault =
        write_bytes-fault _ out r.node.bytes (omega (arith, size)) in
      rw (ge→ltb _ _ l, found) (rw (ge→ltb _ _ w) (rw over refl))

  loop-faults :
      (fuel : ℕ) (s : CSession) (b : ℕ)
      → 0 < b
      → round p s b 0 ≡ fault
      → loop p (suc fuel) s b 0 ≡ fault
  unfolding loop
  loop-faults fuel s b n e = rw (lt→ltb 0 b n, loop) (rw e refl)

  -- Then the rest that is still missing by that count does not fit.
  pub on_bytes-third :
      (fuel : ℕ) (s : CSession) (bs : List ℕ) (shift total counted : ℕ)
      → HasText shift total counted s
      → 2 ≤ shift
      → counted ≤ total
      → 0 < length bs
      → total - counted ≤ length bs
      → on_bytes p (suc fuel) s bs ≡ fault
  unfolding on_bytes handle_read
  on_bytes-third fuel s bs shift total counted h two c n e =
      let s₀ = arrived s bs in
      loop-faults fuel s₀ (length bs) n (
        round-parsed s₀ h.r _ 0 h.parsed h.begun
        ∙ read_rest-overrun s₀ h.r (length bs) (omega (arith, h.whole, h.count))
            (omega (arith, h.whole, h.count))
            (omega (arith, length-append bs (drop (length bs) s.recv_data)))
            (omega (arith, h.whole, h.count, h.shifted, h.array)))
