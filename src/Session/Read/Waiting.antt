-- ===== src/Session/Read/Waiting.antt =====
-- The head buffer and the `_data` of a session that waits for a head.
use cppmulti_thread_server_b.Prelude.{
  ℕ, ◌+◌, ◌≤◌, ◌≡◌, ap, List, ◌++◌, false, length, drop, arith, length-append, length-drop,
}
use cppmulti_thread_server_b.MsgNode.{max_lenght}
use cppmulti_thread_server_b.MsgNode.Head.{IsHead}
use cppmulti_thread_server_b.Session.{CSession}

-- The first bytes `pre` of a head are in the head buffer.
pub record HasHead (pre : List ℕ) (s : CSession) : Type 0 where
  pub is_head : IsHead s.recv_head_node
  pub held : (junk : List ℕ) × (s.recv_head_node.bytes ≡ pre ++ junk)
  pub filled : s.recv_head_node.cur_len ≡ length pre
  pub waits : s.b_head_parse ≡ false
  pub data_room : length s.recv_data ≡ max_lenght

-- `_data` with the bytes of a read at its start.
abbrev pub arrived : CSession → List ℕ → CSession
arrived s bs = record s { recv_data = bs ++ drop (length bs) s.recv_data }

pub arrived-HasHead :
    {had : List ℕ} (s : CSession) (bs : List ℕ)
    → HasHead had s
    → length bs ≤ max_lenght
    → HasHead had (arrived s bs)
arrived-HasHead s bs h m = record {
  is_head = h.is_head;
  held = h.held;
  filled = h.filled;
  waits = h.waits;
  data_room = omega (
    arith,
    length-append bs (drop (length bs) s.recv_data),
    length-drop (length bs) s.recv_data,
    h.data_room,
  );
}

-- The head buffer once `new` has come behind `had`.
abbrev pub joined : CSession → List ℕ → List ℕ → List ℕ → CSession
joined s had new junk = record s {
  recv_head_node = record s.recv_head_node {
    bytes = had ++ (new ++ drop (length new) junk);
    cur_len = s.recv_head_node.cur_len + length new;
  };
}

pub joined-room :
    (s : CSession) (had new junk : List ℕ)
    → HasHead had s
    → s.recv_head_node.bytes ≡ had ++ junk
    → length had + length new ≤ 5
    → IsHead (joined s had new junk).recv_head_node
joined-room s had new junk h b five = record {
  at_start = h.is_head.at_start;
  four = h.is_head.four;
  room = omega (
    arith,
    h.is_head.room,
    ap length b,
    length-append had junk,
    length-append had (new ++ drop (length new) junk),
    length-append new (drop (length new) junk),
    length-drop (length new) junk,
  );
}

pub joined-IsHead :
    (s : CSession) (had new junk : List ℕ)
    → HasHead had s
    → s.recv_head_node.bytes ≡ had ++ junk
    → length had + length new ≡ 4
    → IsHead (joined s had new junk).recv_head_node
joined-IsHead s had new junk h b four = joined-room s had new junk h b (omega arith)
