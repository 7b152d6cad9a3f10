-- ===== src/Client.antt =====
-- Client/main.cpp: one round of the client's loop, which sends a request and reads the reply.
pub mod RoundTrip
pub mod Rounds
use cppmulti_thread_server_b.Prelude.{
  ℕ, ◌+◌, ◌*◌, List, [], ◌∷◌, Option, none, some, ℤ, pos, to_short, to_u16, to_size, length, leb,
  if◌then◌else◌,
}
use cppmulti_thread_server_b.Memory.{
  Outcome, done, throws, fault, ◌>>=◌, read_bytes, write_bytes, zeros,
}
use cppmulti_thread_server_b.Platform.{Platform}
use cppmulti_thread_server_b.MsgNode.{short_bytes, short_at}

abbrev pub max_lenght : ℕ
max_lenght = 1024 * 2

abbrev pub head_total : ℕ
head_total = 4

abbrev pub head_lenght : ℕ
head_lenght = 2

-- `boost::asio::buffer` of an array is never longer than the array.
abbrev pub buffer_size : ℕ → ℕ
buffer_size n = if leb n max_lenght then n else max_lenght

module _ (p : Platform) where
  -- `memcpy(…, &msgid_host, 2)` of an `int` that holds a `short` in network order.
  unfoldable pub net_short : ℕ → List ℕ
  net_short n = short_bytes (p.host_to_network_short n)

  -- What `write` sends for the text of a request: `send_data` holds the id, the length and the text.
  unfoldable pub request : List ℕ → Outcome (List ℕ)
  request text = do
    a ← write_bytes 0 (net_short 1001) (zeros max_lenght)
    b ← write_bytes 2 (net_short (to_u16 (pos (length text)))) a
    send_data ← write_bytes 4 text b
    read_bytes 0 (buffer_size (length text + 4)) send_data

  -- The number in two bytes of `reply_head`.
  unfoldable pub reply_short : ℕ → List ℕ → Outcome ℕ
  reply_short at reply_head = do
    b ← read_bytes at head_lenght reply_head
    w ← short_at b
    done (p.network_to_host_short w)

  -- The two reads of the reply: its id, its text, and what is left of the stream. The end of the
  -- stream throws.
  unfoldable pub read_reply : List ℕ → Outcome (ℕ × List ℕ × List ℕ)
  read_reply stream = elim (p.async_read head_total stream) [
    | none ↦ throws
    | some (reply_head, rest) ↦ do
      msgid ← reply_short 0 reply_head
      msglen ← reply_short 2 reply_head
      elim (p.async_read (buffer_size (to_size (to_short msglen))) rest) [
        | none ↦ throws
        | some (msg, rest') ↦ done (msgid, msg, rest')
      ]
  ]
