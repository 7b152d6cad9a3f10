-- ===== src/MsgNode/Head.antt =====
-- The head buffer of a session, five bytes of which four hold a packet's head.
use cppmulti_thread_server_b.Prelude.{
  ℕ, ◌≡◌, refl, ap, ◌∙◌, List, [], ◌++◌, length, drop, length-drop, arith, length-append,
}
use cppmulti_thread_server_b.Memory.{done, write_bytes, zeros, length-zeros}
use cppmulti_thread_server_b.Memory.Laws.{write_bytes-append}
use cppmulti_thread_server_b.MsgNode.{MsgNode, clear, copy_to}

-- The head buffer is as the session's constructor makes it, at whatever fill.
pub record IsHead (h : MsgNode) : Type 0 where
  pub at_start : h.offset ≡ 0
  pub four : h.total_len ≡ 4
  pub room : length h.bytes ≡ 5

-- After `Clear()`.
abbrev pub cleared : MsgNode → MsgNode
cleared h = record { cur_len = 0; total_len = 4; offset = 0; bytes = zeros 4 ++ drop 4 h.bytes }

pub clear-cleared : {h : MsgNode} → IsHead h → clear h ≡ done (cleared h)
unfolding clear
clear-cleared {h} i = rw (i.at_start, i.four, wiped) refl
  where
    size : length (zeros 4) ≡ 4
    size = length-zeros 4

    wiped : write_bytes 0 (zeros 4) h.bytes ≡ done (zeros 4 ++ drop 4 h.bytes)
    wiped =
        write_bytes-append [] (zeros 4) h.bytes refl (omega (arith, i.room, size))
        ∙ ap (λ n. done (zeros 4 ++ drop n h.bytes)) size

pub cleared-IsHead : {h : MsgNode} → IsHead h → IsHead (cleared h)
cleared-IsHead {h} i = record {
  at_start = refl;
  four = refl;
  room = omega (
    arith,
    i.room,
    length-zeros 4,
    length-append (zeros 4) (drop 4 h.bytes),
    length-drop 4 h.bytes,
  );
}

-- The head buffer with the four bytes of a head in it.
abbrev pub filled : MsgNode → List ℕ → MsgNode
filled h bs = record h { bytes = bs ++ drop 4 h.bytes }

pub copy_to-filled :
    {h : MsgNode} (bs : List ℕ) → IsHead h → length bs ≡ 4 → copy_to h 0 bs ≡ done (filled h bs)
unfolding copy_to
copy_to-filled {h} bs i l = rw (i.at_start, copied) refl
  where
    copied : write_bytes 0 bs h.bytes ≡ done (bs ++ drop 4 h.bytes)
    copied =
        write_bytes-append [] bs h.bytes refl (omega (arith, i.room))
        ∙ ap (λ n. done (bs ++ drop n h.bytes)) l

pub filled-IsHead : {h : MsgNode} (bs : List ℕ) → IsHead h → length bs ≡ 4 → IsHead (filled h bs)
filled-IsHead {h} bs i l = record {
  at_start = i.at_start;
  four = i.four;
  room = omega (arith, i.room, length-append bs (drop 4 h.bytes), length-drop 4 h.bytes);
}
