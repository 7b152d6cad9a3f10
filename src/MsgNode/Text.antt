-- ===== src/MsgNode/Text.antt =====
-- The node of a packet's text: new, filled by one copy, and read back.
use cppmulti_thread_server_b.Prelude.{
  ℕ, ◌+◌, ◌≡◌, refl, ap, ◌∙◌, List, [], ◌∷◌, ◌++◌, length, drop_all, length-append, arith,
}
use cppmulti_thread_server_b.Memory.{done, write_bytes}
use cppmulti_thread_server_b.Memory.Laws.{read_bytes-append, write_bytes-append}
use cppmulti_thread_server_b.Platform.{Platform}
use cppmulti_thread_server_b.MsgNode.{MsgNode, copy_to, terminate, text}

-- A node that holds `msg` and the zero behind it, with `n` bytes counted.
abbrev pub text_node : ℕ → List ℕ → MsgNode
text_node n msg = record { cur_len = n; total_len = length msg; offset = 0; bytes = msg ++ 0 ∷ [] }

-- A node of `n` bytes as its constructor leaves it.
abbrev pub fresh_node : Platform → ℕ → MsgNode
fresh_node p n = record {
  cur_len = 0;
  total_len = n;
  offset = 0;
  bytes = p.fresh_bytes n ++ 0 ∷ [];
}

-- A text fills its node to the last byte.
pub copy_to-fresh_node :
    (p : Platform) (msg : List ℕ)
    → copy_to (fresh_node p (length msg)) 0 msg ≡ done (text_node 0 msg)
unfolding copy_to
copy_to-fresh_node p msg = rw filled refl
  where
    new : List ℕ
    new = p.fresh_bytes (length msg)

    size : length new ≡ length msg
    size = p.length-fresh_bytes (length msg)

    filled : write_bytes (0 + 0) msg (new ++ 0 ∷ []) ≡ done (msg ++ 0 ∷ [])
    filled =
        write_bytes-append [] msg (new ++ 0 ∷ []) refl
          (omega (arith, length-append new (0 ∷ []), size))
        ∙ ap (λ t. done (msg ++ t)) (drop_all new (0 ∷ []) (omega (arith, size)))

pub terminate-text_node :
    (n : ℕ) (msg : List ℕ) → terminate (text_node n msg) ≡ done (text_node n msg)
unfolding terminate
terminate-text_node n msg =
    rw (write_bytes-append msg (0 ∷ []) (0 ∷ []) {at = 0 + length msg} (omega arith) (omega arith))
      refl

pub text-text_node : (msg : List ℕ) → text (text_node (length msg) msg) ≡ done msg
unfolding text
text-text_node msg = read_bytes-append [] msg (0 ∷ []) refl refl
