-- ===== src/Corotine/Start/Negative.antt =====
-- `CSession::Start` on a head whose length is negative as a `short`.
use cppmulti_thread_server_b.Prelude.{
  ℕ, zero, suc, ◌+◌, ◌^◌, ◌<◌, ◌≡◌, refl, ap, ◌∙◌, List, [], ◌∷◌, ◌++◌, true, false, ℤ, negsuc,
  IsShort, to_u16, exceeds, arith,
}
use cppmulti_thread_server_b.Memory.{Outcome, done, fault}
use cppmulti_thread_server_b.Platform.{Platform}
use cppmulti_thread_server_b.MsgNode.{MsgNode, RecvNode, load_short, recv_node, msg_node}
use cppmulti_thread_server_b.MsgNode.Frame.{wire_short, head, load_short-wire}
use cppmulti_thread_server_b.MsgNode.Head.{
  IsHead, cleared, clear-cleared, cleared-IsHead, filled, copy_to-filled,
}
use cppmulti_thread_server_b.Effect.{Effect, close_socket, clear_session}
use cppmulti_thread_server_b.Corotine.{CSession, max_lenght, catching, close}
use cppmulti_thread_server_b.Corotine.Start.{Round, ends, read_lengths, round, start}

-- What becomes of the round when the node of -(n + 1) bytes fails: for -1 its array has no element at
-- -1; the exception that refuses any other size is caught.
abbrev refused : CSession → ℕ → Outcome Round
refused s zero = fault
refused s (suc n) = done (ends (close s))

module _ (p : Platform) where
  round-refused :
      (s : CSession) (rest : List ℕ) (msg_id : ℤ) (n : ℕ)
      → IsHead s.recv_head_node
      → IsShort msg_id
      → exceeds msg_id max_lenght ≡ false
      → n < 2 ^ 15
      → (s' : CSession) × (round p s (head msg_id (negsuc n) ++ rest) ≡ refused s' n)
        × (s'.uuid ≡ s.uuid)
  unfolding round read_lengths
  round-refused s rest msg_id n i z g l = (
    record s { recv_head_node = full },
    rw (clear-cleared i, round)
        (rw (p.async_read_full h rest, round)
          (rw (copy_to-filled h (cleared-IsHead i) refl)
            (rw (id_read, read_lengths) (rw (g, len_read, read_lengths) (failed n _))))),
    refl,
  )
    where
      h : List ℕ
      h = head msg_id (negsuc n)

      full : MsgNode
      full = filled (cleared s.recv_head_node) h

      id_read : load_short p full 0 ≡ done msg_id
      id_read = load_short-wire p full [] _ msg_id z refl refl refl

      len_read : load_short p full 2 ≡ done (negsuc n)
      len_read = load_short-wire p full (wire_short (to_u16 msg_id)) _ (negsuc n) l refl refl refl

      failed :
          (m : ℕ) (f : RecvNode → Outcome Round)
          → catching
              (recv_node p (negsuc m) msg_id)
              (done (ends (close (record s { recv_head_node = full }))))
              f
            ≡ refused (record s { recv_head_node = full }) m
      failed zero f = unfold recv_node msg_node in refl
      failed (suc m) f = unfold recv_node msg_node in refl

  start-ended :
      (fuel : ℕ) (s s' : CSession) (es : List Effect) (stream : List ℕ)
      → s.b_close ≡ false
      → round p s stream ≡ done (ends (s', es))
      → start p (suc fuel) s stream ≡ done (s', es)
  unfolding start
  start-ended fuel s s' es stream b e = rw (b, start) (rw e refl)

  start-fault :
      (fuel : ℕ) (s : CSession) (stream : List ℕ)
      → s.b_close ≡ false
      → round p s stream ≡ fault
      → start p (suc fuel) s stream ≡ fault
  unfolding start
  start-fault fuel s stream b e = rw (b, start) (rw e refl)

  -- A head of an id that the limit lets through and of a negative length, whatever follows it:
  -- a length from -2 to -2^15 closes the session and takes it off the server, with nothing
  -- posted, but the length -1 ends in an access outside an array. The session is open, and its
  -- head buffer is as its constructor makes it.
  pub start-refused :
      (fuel : ℕ) (s : CSession) (rest : List ℕ) (msg_id : ℤ) (n : ℕ)
      → IsHead s.recv_head_node
      → s.b_close ≡ false
      → IsShort msg_id
      → exceeds msg_id max_lenght ≡ false
      → n + 1 < 2 ^ 15
      → (s' : CSession) × (start p (suc fuel) s (head msg_id (negsuc (suc n)) ++ rest)
          ≡ done (s', close_socket ∷ clear_session s.uuid ∷ []))
        × (s'.b_close ≡ true)
        × (start p (suc fuel) s (head msg_id (negsuc 0) ++ rest) ≡ fault)
  unfolding close
  start-refused fuel s rest msg_id n i b z g l =
      let (s₁, run, named) = round-refused s rest msg_id (suc n) i z g (omega arith) in
      let (s₂, run', named') = round-refused s rest msg_id 0 i z g (omega arith) in
      (
        record s₁ { b_close = true },
        start-ended fuel s _ _ _ b run
            ∙ ap (λ u. done (record s₁ { b_close = true }, close_socket ∷ clear_session u ∷ []))
                named,
        refl,
        start-fault fuel s _ b run',
      )
