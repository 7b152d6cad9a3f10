-- ===== src/Session/Read.antt =====
-- `CSession::Start` and `CSession::HandleRead`: bytes arrive in pieces of any size, and are put
-- together to packets.
pub mod Waiting
pub mod Packet
pub mod Packets
pub mod Fuel
pub mod Starts
pub mod Reads
pub mod Parted
pub mod Rest
pub mod Split
pub mod Negative
use cppmulti_thread_server_b.Prelude.{
  ℕ, zero, suc, ◌+◌, ◌-◌, List, [], ◌∷◌, ◌++◌, ◌||◌, Bool, true, false, Option, none, some, ℤ,
  to_size, exceeds, length, drop, ltb, leb, if◌then◌else◌,
}
use cppmulti_thread_server_b.Memory.{Outcome, done, throws, fault, out_of_fuel, ◌>>=◌, read_bytes}
use cppmulti_thread_server_b.Platform.{Platform}
use cppmulti_thread_server_b.MsgNode.{
  MsgNode, RecvNode, clear, copy_to, terminate, text, recv_node, load_short, head_total_len,
  head_id_len, max_lenght,
}
use cppmulti_thread_server_b.Effect.{Effect, start_read, post, clear_session}
use cppmulti_thread_server_b.Session.{CSession, close, wipe}

-- How a part of the loop's body ends: `return`, or on to what follows with `bytes_transferred` and
-- `copy_len`.
pub data Round : Type 0 where
  returns : CSession → List Effect → Round
  goes_on : CSession → ℕ → ℕ → List Effect → Round

-- `Start`
unfoldable pub start : CSession → CSession × List Effect
start s = (wipe s, start_read ∷ [])

-- From `_b_head_parse = false;` to the end of the loop's body, after the post of `r`.
unfoldable pub next_packet : CSession → RecvNode → ℕ → ℕ → Outcome Round
next_packet s r bytes copy_len = do
  h ← clear s.recv_head_node
  let s' = record s { b_head_parse = false; recv_head_node = h; recv_msg_node = some r }
  if leb bytes 0
      then done (returns (wipe s') (post r ∷ start_read ∷ []))
      else done (goes_on s' bytes copy_len (post r ∷ []))

-- The rest of a text after its first piece: lines 201 to 229. A negative `remain_msg` would be compared
-- as a `std::size_t`, above any count.
unfoldable pub read_rest : CSession → RecvNode → ℕ → ℕ → Outcome Round
read_rest s r bytes copy_len =
    if ltb bytes remain_msg || ltb r.node.total_len r.node.cur_len
    then (do
      src ← read_bytes copy_len bytes s.recv_data
      m ← copy_to r.node r.node.cur_len src
      let r' = record r { node = record m { cur_len = m.cur_len + bytes } }
      done (returns (wipe (record s { recv_msg_node = some r' })) (start_read ∷ [])))
    else do
      src ← read_bytes copy_len remain_msg s.recv_data
      m ← copy_to r.node r.node.cur_len src
      m' ← terminate (record m { cur_len = m.cur_len + remain_msg })
      next_packet s (record r { node = m' }) (bytes - remain_msg) (copy_len + remain_msg)
  where
    remain_msg : ℕ
    remain_msg = r.node.total_len - r.node.cur_len

-- `root["id"].asInt()` and `root["data"].asString()` of the text, for the output.
unfoldable pub print_json : Platform → List ℕ → Outcome (ℤ × List ℕ)
print_json p msg = elim (p.id_as_int msg) [
  | none ↦ throws
  | some i ↦ elim (p.data_as_string msg) [ none ↦ throws | some d ↦ done (i, d) ]
]

-- A new text, right behind its head: lines 162 to 198. After a first piece the code moves the
-- pointer `_data` of the node, and leaves `_cur_len`.
unfoldable pub read_text : Platform → CSession → RecvNode → ℕ → ℕ → ℕ → Outcome Round
read_text p s r msg_len bytes copy_len =
    if ltb bytes msg_len
    then (do
      src ← read_bytes copy_len bytes s.recv_data
      m ← copy_to r.node r.node.cur_len src
      let r' = record r { node = record m { offset = m.offset + bytes } }
      done (
          returns (wipe (record s { recv_msg_node = some r'; b_head_parse = true }))
            (start_read ∷ [])))
    else do
      src ← read_bytes copy_len msg_len s.recv_data
      m ← copy_to r.node r.node.cur_len src
      m' ← terminate (record m { cur_len = m.cur_len + msg_len })
      msg ← text m'
      printed ← print_json p msg
      next_packet s (record r { node = m' }) (bytes - msg_len) (copy_len + msg_len)

-- From the first `short msg_id` on, with a full head: lines 138 to 198.
unfoldable pub read_lengths : Platform → CSession → ℕ → ℕ → Outcome Round
read_lengths p s bytes copy_len = do
  msg_id ← load_short p s.recv_head_node 0
  if exceeds msg_id max_lenght then done (returns s (clear_session s.uuid ∷ [])) else do
    msg_len ← load_short p s.recv_head_node head_id_len
    if exceeds msg_len max_lenght then done (returns s (clear_session s.uuid ∷ [])) else do
      r ← recv_node p msg_len msg_id
      read_text p (record s { recv_msg_node = some r }) r (to_size msg_len) bytes copy_len

-- `if (!_b_head_parse)`: lines 121 to 198. The head is always copied from the start of `_data`. With
-- more than four bytes in the head already, the length of the second copy is negative.
unfoldable pub read_head : Platform → CSession → ℕ → ℕ → Outcome Round
read_head p s bytes copy_len =
    if ltb bytes head_total_len
    then (do
      src ← read_bytes 0 bytes s.recv_data
      h ← copy_to s.recv_head_node s.recv_head_node.cur_len src
      done (
          returns (wipe (record s { recv_head_node = record h { cur_len = h.cur_len + bytes } }))
            (start_read ∷ [])))
    else if ltb head_total_len s.recv_head_node.cur_len
    then fault
    else do
      src ← read_bytes 0 remain_head s.recv_data
      h ← copy_to s.recv_head_node s.recv_head_node.cur_len src
      read_lengths p (record s { recv_head_node = record h { cur_len = h.cur_len + remain_head } })
          (bytes - remain_head) (copy_len + remain_head)
  where
    remain_head : ℕ
    remain_head = head_total_len - s.recv_head_node.cur_len

-- The body of the `while`. A session that has parsed a head has a node.
unfoldable pub round : Platform → CSession → ℕ → ℕ → Outcome Round
round p s bytes copy_len = elim s.b_head_parse [
  | false ↦ read_head p s bytes copy_len
  | true ↦ elim s.recv_msg_node [ none ↦ fault | some r ↦ read_rest s r bytes copy_len ]
]

-- `while (bytes_transferred > 0)`
unfoldable pub loop : Platform → ℕ → CSession → ℕ → ℕ → Outcome (CSession × List Effect)
loop p zero s bytes copy_len = out_of_fuel
loop p (suc fuel) s bytes copy_len = elim (ltb 0 bytes) [
  | false ↦ done (s, [])
  | true ↦ round p s bytes copy_len >>= λ r. elim r [
    | returns s' es ↦ done (s', es)
    | goes_on s' n c es ↦ loop p fuel s' n c >>= λ t. done (t.0, es ++ t.1)
  ]
]

-- `HandleRead`, with `ec` true for an error.
unfoldable pub handle_read : Platform → ℕ → CSession → Bool → ℕ → Outcome (CSession × List Effect)
handle_read p fuel s true bytes_transferred = done (close s)
handle_read p fuel s false bytes_transferred = loop p fuel s bytes_transferred 0

-- A completed `async_read_some`: Asio has put the bytes that came in at the start of `_data`.
unfoldable pub on_bytes : Platform → ℕ → CSession → List ℕ → Outcome (CSession × List Effect)
on_bytes p fuel s bs =
    handle_read p fuel (record s { recv_data = bs ++ drop (length bs) s.recv_data }) false
      (length bs)
