-- ===== src/Corotine/Life/Requeue.antt =====
-- A turn of the coroutine does not depend on the queue of the packets to write.
use cppmulti_thread_server_b.Prelude.{
  ℕ, ◌≡◌, refl, inl, inr, List, Bool, true, false, some, exceeds, length, ◌==◌, if◌then◌else◌,
  Option-cases,
}
use cppmulti_thread_server_b.Memory.{Outcome, done, throws, fault, out_of_fuel, ◌>>=◌}
use cppmulti_thread_server_b.Platform.{Platform}
use cppmulti_thread_server_b.MsgNode.{
  RecvNode, SendNode, clear, copy_to, terminate, recv_node, load_short,
}
use cppmulti_thread_server_b.Corotine.{CSession, max_lenght, catching, close}
use cppmulti_thread_server_b.Corotine.Start.{Round, ends, again, read_body, read_lengths, round}

abbrev pub requeue : List SendNode → CSession → CSession
requeue q s = record s { send_que = q }

-- What is left of a turn, with another queue.
abbrev pub other : List SendNode → Round → Outcome Round
other q (ends (s, es)) = done (ends (requeue q s, es))
other q (again s rest es) = done (again (requeue q s) rest es)

-- `y` is `x` with another queue.
abbrev Other : List SendNode → Outcome Round → Outcome Round → Type 0
Other q x y = y ≡ (x >>= other q)

module _ (q : List SendNode) where
  Other-bind {ℓ} :
      {A : Type ℓ} (m : Outcome A) (f g : A → Outcome Round)
      → ((a : A) → Other q (f a) (g a))
      → Other q (m >>= f) (m >>= g)
  Other-bind (done a) f g k = k a
  Other-bind throws f g k = refl
  Other-bind fault f g k = refl
  Other-bind out_of_fuel f g k = refl

  Other-catching {ℓ} :
      {A : Type ℓ} (m : Outcome A) (h h' : Outcome Round) (f g : A → Outcome Round)
      → Other q h h'
      → ((a : A) → Other q (f a) (g a))
      → Other q (catching m h f) (catching m h' g)
  Other-catching (done a) h h' f g e k = k a
  Other-catching throws h h' f g e k = e
  Other-catching fault h h' f g e k = refl
  Other-catching out_of_fuel h h' f g e k = refl

  Other-if :
      (c : Bool) (x y x' y' : Outcome Round)
      → Other q x x'
      → Other q y y'
      → Other q (if c then x else y) (if c then x' else y')
  Other-if true x y x' y' k h = k
  Other-if false x y x' y' k h = h

module _ (p : Platform) (q : List SendNode) where
  read_body-Other :
      (s : CSession) (n : ℕ) (r : RecvNode) (stream : List ℕ)
      → Other q (read_body p s n r stream) (read_body p (requeue q s) n r stream)
  unfolding read_body close
  read_body-Other s n r stream = elim (Option-cases (p.async_read r.node.total_len stream)) [
    | inl none_left ↦ rw (none_left, read_body) refl
    | inr ((body, rest), found) ↦
        rw (found, read_body)
          (Other-bind q (copy_to r.node 0 body) _ _
            λ m. Other-if q (n == 0) _ _ _ _ refl (Other-bind q (terminate m) _ _ λ m'. refl))
  ]

  read_lengths-Other :
      (s : CSession) (n : ℕ) (stream : List ℕ)
      → Other q (read_lengths p s n stream) (read_lengths p (requeue q s) n stream)
  unfolding read_lengths close
  read_lengths-Other s n stream = Other-bind q (load_short p s.recv_head_node 0) _ _ λ msg_id.
      Other-if q (exceeds msg_id max_lenght) _ _ _ _ refl (
        Other-bind q (load_short p s.recv_head_node 2) _ _ λ msg_len.
          Other-if q (exceeds msg_len max_lenght) _ _ _ _ refl (
            Other-catching q (recv_node p msg_len msg_id) _ _ _ _ refl
              λ r. read_body-Other (record s { recv_msg_node = some r }) n r stream))

  pub round-Other :
      (s : CSession) (stream : List ℕ)
      → round p (requeue q s) stream ≡ (round p s stream >>= other q)
  unfolding round close
  round-Other s stream = Other-bind q (clear s.recv_head_node) _ _ λ h.
      elim (Option-cases (p.async_read 4 stream)) [
        | inl none_left ↦ rw (none_left, round) refl
        | inr ((bs, rest), found) ↦
            rw (found, round)
              (Other-bind q (copy_to h 0 bs) _ _ λ h'.
                Other-if q (length bs == 0) _ _ _ _ refl
                  (read_lengths-Other (record s { recv_head_node = h' }) (length bs) rest))
      ]
