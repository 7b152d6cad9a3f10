-- ===== src/MsgNode.antt =====
-- SingleThreadAsyncServer/MsgNode.{h,cpp} and const.h, the same files in AsioThreadPool: the byte
-- buffers of a session, and the packet that is sent.
pub mod Frame
pub mod Head
pub mod Text
pub mod Steady
use cppmulti_thread_server_b.Prelude.{
  ℕ, zero, suc, ◌+◌, ◌-◌, ◌*◌, ◌/◌, ◌%◌, List, [], ◌∷◌, ◌++◌, leb, if◌then◌else◌, ℤ, pos, negsuc,
  to_short, to_u16,
}
use cppmulti_thread_server_b.Memory.{
  Outcome, done, throws, fault, ◌>>=◌, read_bytes, write_bytes, zeros,
}
use cppmulti_thread_server_b.Platform.{Platform}

abbrev pub max_lenght : ℕ
max_lenght = 1024

abbrev pub head_total_len : ℕ
head_total_len = 4

abbrev pub head_id_len : ℕ
head_id_len = 2

abbrev pub max_sendque : ℕ
max_sendque = 1024 * 2

-- `bytes` is the whole array of `new char[_total_len + 1]`, and `offset` is where `_data` points in
-- it: at 0, until a statement moves the pointer.
pub record MsgNode : Type 0 where
  pub cur_len : ℕ
  pub total_len : ℕ
  pub offset : ℕ
  pub bytes : List ℕ

pub record RecvNode : Type 0 where
  pub node : MsgNode
  pub msg_id : ℤ

pub record SendNode : Type 0 where
  pub node : MsgNode
  pub msg_id : ℤ

-- `_data[_total_len] = '\0'`
unfoldable pub terminate : MsgNode → Outcome MsgNode
terminate m = do
  b ← write_bytes (m.offset + m.total_len) (0 ∷ []) m.bytes
  done (record m { bytes = b })

-- `memcpy(_data + at, src, …)`
unfoldable pub copy_to : MsgNode → ℕ → List ℕ → Outcome MsgNode
copy_to m at src = do b ← write_bytes (m.offset + at) src m.bytes; done (record m { bytes = b })

-- `memset(_data, 0, _total_len); _cur_len = 0;`
unfoldable pub clear : MsgNode → Outcome MsgNode
clear m = do
  b ← write_bytes m.offset (zeros m.total_len) m.bytes
  done (record m { bytes = b; cur_len = 0 })

-- `std::string(_data, _cur_len)`
unfoldable pub text : MsgNode → Outcome (List ℕ)
text m = read_bytes m.offset m.cur_len m.bytes

-- The two bytes of a `short` in memory, on a little-endian host.
unfoldable pub short_bytes : ℕ → List ℕ
short_bytes w = (w % 256) ∷ (w / 256) ∷ []

unfoldable pub short_at : List ℕ → Outcome ℕ
short_at (a ∷ b ∷ []) = done (a + 256 * b)
short_at _ = fault

-- `max_len + HEAD_TOTAL_LEN`
unfoldable pub plus_head : ℤ → ℤ
plus_head (pos n) = pos (n + head_total_len)
plus_head (negsuc n) = if leb n 3 then pos (3 - n) else negsuc (n - head_total_len)

module _ (p : Platform) where
  open p use {host_to_network_short, network_to_host_short, fresh_bytes}

  -- The constructor. `new char[0]` has no index -1, and a negative size throws.
  unfoldable pub msg_node : ℤ → Outcome MsgNode
  msg_node (pos n) =
      done (record { cur_len = 0; total_len = n; offset = 0; bytes = fresh_bytes n ++ 0 ∷ [] })
  msg_node (negsuc zero) = fault
  msg_node (negsuc (suc n)) = throws

  unfoldable pub recv_node : ℤ → ℤ → Outcome RecvNode
  recv_node max_len msg_id = do m ← msg_node max_len; done (record { node = m; msg_id = msg_id })

  -- `memcpy(&x, _data + at, 2)` and the conversion to host order.
  unfoldable pub load_short : MsgNode → ℕ → Outcome ℤ
  load_short m at = do
    b ← read_bytes (m.offset + at) head_id_len m.bytes
    w ← short_at b
    done (to_short (network_to_host_short w))

  -- The conversion to network order and `memcpy(_data + at, &x, 2)`.
  unfoldable pub store_short : MsgNode → ℕ → ℤ → Outcome MsgNode
  store_short m at x = copy_to m at (short_bytes (host_to_network_short (to_u16 x)))

  -- A `memcpy` of a negative length reads `size_t` bytes, past any array.
  unfoldable pub payload : List ℕ → ℤ → Outcome (List ℕ)
  payload msg (pos n) = read_bytes 0 n msg
  payload msg (negsuc n) = fault

  unfoldable pub send_node : List ℕ → ℤ → ℤ → Outcome SendNode
  send_node msg max_len msg_id = do
    m ← msg_node (plus_head max_len)
    m₁ ← store_short m 0 msg_id
    m₂ ← store_short m₁ head_id_len max_len
    src ← payload msg max_len
    m₃ ← copy_to m₂ head_total_len src
    done (record { node = m₃; msg_id = msg_id })

-- `boost::asio::buffer(_data, _total_len)`
unfoldable pub send_buffer : SendNode → Outcome (List ℕ)
send_buffer n = read_bytes n.node.offset n.node.total_len n.node.bytes
