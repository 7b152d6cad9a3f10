-- ===== src/Session/ReadHead.antt =====
-- `CSession::HandleReadHead` and `CSession::HeadleReadMsg`: the other way to read, by counted reads of
-- a head and of a text. `Start` holds it in a comment only.
use cppmulti_thread_server_b.Prelude.{
  ℕ, ◌≤◌, ◌≡◌, refl, List, [], ◌∷◌, ◌++◌, Bool, true, false, none, some, ℤ, pos, IsShort, to_u16,
  exceeds, ltb, if◌then◌else◌, ge→ltb, arith,
}
use cppmulti_thread_server_b.Memory.{Outcome, done, fault, ◌>>=◌}
use cppmulti_thread_server_b.Platform.{Platform}
use cppmulti_thread_server_b.MsgNode.{
  clear, terminate, msg_node, recv_node, load_short, max_lenght, head_total_len, head_id_len,
}
use cppmulti_thread_server_b.MsgNode.Frame.{wire_short, head, load_short-wire}
use cppmulti_thread_server_b.MsgNode.Head.{IsHead}
use cppmulti_thread_server_b.MsgNode.Text.{fresh_node}
use cppmulti_thread_server_b.Effect.{Effect, start_read_head, start_read_msg}
use cppmulti_thread_server_b.Session.{CSession, close}

-- From `short msg_id = 0;` of `HandleReadHead` on. The read of the text is started for `_cur_len`
-- bytes of the new node.
unfoldable pub read_msg_head : Platform → CSession → Outcome (CSession × List Effect)
read_msg_head p s = do
  msg_id ← load_short p s.recv_head_node 0
  if exceeds msg_id max_lenght then done (close s) else do
    msg_len ← load_short p s.recv_head_node head_id_len
    if exceeds msg_len max_lenght then done (close s) else do
      r ← recv_node p msg_len msg_id
      done (record s { recv_msg_node = some r }, start_read_msg r.node.cur_len ∷ [])

-- `HandleReadHead`, with `ec` true for an error.
unfoldable pub handle_read_head : Platform → CSession → Bool → ℕ → Outcome (CSession × List Effect)
handle_read_head p s true bytes_transferred = done (close s)
handle_read_head p s false bytes_transferred =
    if ltb bytes_transferred head_total_len then done (close s) else read_msg_head p s

-- `HeadleReadMsg`, with `ec` true for an error.
unfoldable pub headle_read_msg : CSession → Bool → Outcome (CSession × List Effect)
headle_read_msg s true = done (close s)
headle_read_msg s false = elim s.recv_msg_node [
  | none ↦ fault
  | some r ↦ do
    m ← terminate r.node
    h ← clear s.recv_head_node
    done (
      record s { recv_msg_node = some (record r { node = m }); recv_head_node = h },
      start_read_head head_total_len ∷ [],
    )
]

-- After a whole head of any packet that the limits let through, the read of its text is started
-- for no byte at all, whatever length the head gives: `_cur_len` of a new node is 0. The id is a
-- short.
pub handle_read_head_starts_empty :
    (p : Platform) (s : CSession) (msg_id : ℤ) (n bytes : ℕ) (rest : List ℕ)
    → IsHead s.recv_head_node
    → s.recv_head_node.bytes ≡ head msg_id (pos n) ++ rest
    → IsShort msg_id
    → exceeds msg_id max_lenght ≡ false
    → n ≤ max_lenght
    → head_total_len ≤ bytes
    → (s' : CSession) × (handle_read_head p s false bytes ≡ done (s', start_read_msg 0 ∷ []))
unfolding handle_read_head read_msg_head recv_node msg_node
handle_read_head_starts_empty p s msg_id n bytes rest i b z g m e = (
  record s { recv_msg_node = some (record { node = fresh_node p n; msg_id = msg_id }) },
  rw (ge→ltb bytes 4 e, id_read) (rw (g, len_read) (rw (ge→ltb max_lenght n m) refl)),
)
  where
    id_read : load_short p s.recv_head_node 0 ≡ done msg_id
    id_read = load_short-wire p s.recv_head_node [] _ msg_id z i.at_start refl b

    len_read : load_short p s.recv_head_node 2 ≡ done (pos n)
    len_read =
        load_short-wire p s.recv_head_node (wire_short (to_u16 msg_id)) _ (pos n) (omega (arith, m))
          i.at_start refl b
