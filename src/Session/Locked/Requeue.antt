-- ===== src/Session/Locked/Requeue.antt =====
-- `HandleRead` neither reads nor changes the queue of packets or `_b_close`, when no error comes in:
-- with others it does the same.
use cppmulti_thread_server_b.Prelude.{
  ℕ, zero, suc, ◌+◌, ◌-◌, ◌≡◌, refl, ap, sym, ◌∙◌, List, [], ◌++◌, Bool, true, false, ltb, leb,
  Bool-cases, ◌||◌, Option-cases, inl, inr, to_size, if◌then◌else◌, exceeds, some, length,
}
use cppmulti_thread_server_b.Memory.{Outcome, done, throws, fault, out_of_fuel, ◌>>=◌, read_bytes}
use cppmulti_thread_server_b.Platform.{Platform}
use cppmulti_thread_server_b.MsgNode.{
  RecvNode, SendNode, clear, copy_to, terminate, text, load_short, recv_node, max_lenght,
}
use cppmulti_thread_server_b.Effect.{Effect}
use cppmulti_thread_server_b.Session.{CSession, wipe}
use cppmulti_thread_server_b.Session.Read.{
  Round, returns, goes_on, next_packet, read_rest, read_text, read_lengths, read_head, round, loop,
  handle_read, on_bytes, print_json,
}

unfoldable pub requeue : List SendNode → Bool → CSession → CSession
requeue q closed s = record s { send_queue = q; b_close = closed }

-- What is left of a part of the loop's body, with another queue and `_b_close`.
other : List SendNode → Bool → Round → Outcome Round
other q closed (returns s es) = done (returns (requeue q closed s) es)
other q closed (goes_on s b c es) = done (goes_on (requeue q closed s) b c es)

unfoldable pub other_done :
    List SendNode → Bool → CSession × List Effect → Outcome (CSession × List Effect)
other_done q closed t = done (requeue q closed t.0, t.1)

-- `y` is `x` with another queue and `_b_close`.
Other : List SendNode → Bool → Outcome Round → Outcome Round → Type 0
Other q closed x y = y ≡ (x >>= other q closed)

module _ (q : List SendNode) (closed : Bool) where
  Other-bind {ℓ} :
      {A : Type ℓ} (m : Outcome A) (f g : A → Outcome Round)
      → ((a : A) → Other q closed (f a) (g a))
      → Other q closed (m >>= f) (m >>= g)
  unfolding Other
  Other-bind (done a) f g k = k a
  Other-bind throws f g k = refl
  Other-bind fault f g k = refl
  Other-bind out_of_fuel f g k = refl

  Other-if :
      (c : Bool) (x y x' y' : Outcome Round)
      → Other q closed x x'
      → Other q closed y y'
      → Other q closed (if c then x else y) (if c then x' else y')
  Other-if true x y x' y' k h = k
  Other-if false x y x' y' k h = h

module _ (p : Platform) (q : List SendNode) (closed : Bool) where
  next_packet-Other :
      (s : CSession) (r : RecvNode) (b c : ℕ)
      → Other q closed (next_packet s r b c) (next_packet (requeue q closed s) r b c)
  unfolding next_packet wipe Other other requeue
  next_packet-Other s r b c =
      Other-bind q closed (clear s.recv_head_node) _ _
        λ h. Other-if q closed (leb b 0) _ _ _ _ refl refl

  read_rest-Other :
      (s : CSession) (r : RecvNode) (b c : ℕ)
      → Other q closed (read_rest s r b c) (read_rest (requeue q closed s) r b c)
  unfolding read_rest wipe Other other requeue
  read_rest-Other s r b c =
      let n = r.node.total_len - r.node.cur_len in
      let copied = copy_to r.node r.node.cur_len in
      Other-if q closed (ltb b n || ltb r.node.total_len r.node.cur_len) _ _ _ _
        (Other-bind q closed (read_bytes c b s.recv_data) _ _
          λ src. Other-bind q closed (copied src) _ _ λ m. refl)
        (Other-bind q closed (read_bytes c n s.recv_data) _ _ λ src.
          Other-bind q closed (copied src) _ _ λ m.
            Other-bind q closed (terminate (record m { cur_len = m.cur_len + n })) _ _
              λ m'. next_packet-Other s (record r { node = m' }) (b - n) (c + n))

  read_text-Other :
      (s : CSession) (r : RecvNode) (l b c : ℕ)
      → Other q closed (read_text p s r l b c) (read_text p (requeue q closed s) r l b c)
  unfolding read_text wipe Other other requeue
  read_text-Other s r l b c =
      let copied = copy_to r.node r.node.cur_len in
      Other-if q closed (ltb b l) _ _ _ _
        (Other-bind q closed (read_bytes c b s.recv_data) _ _
          λ src. Other-bind q closed (copied src) _ _ λ m. refl)
        (Other-bind q closed (read_bytes c l s.recv_data) _ _ λ src.
          Other-bind q closed (copied src) _ _ λ m.
            Other-bind q closed (terminate (record m { cur_len = m.cur_len + l })) _ _ λ m'.
              Other-bind q closed (text m') _ _ λ msg.
                Other-bind q closed (print_json p msg) _ _
                  λ t. next_packet-Other s (record r { node = m' }) (b - l) (c + l))

  read_lengths-Other :
      (s : CSession) (b c : ℕ)
      → Other q closed (read_lengths p s b c) (read_lengths p (requeue q closed s) b c)
  unfolding read_lengths Other other requeue
  read_lengths-Other s b c = Other-bind q closed (load_short p s.recv_head_node 0) _ _ λ msg_id.
      Other-if q closed (exceeds msg_id max_lenght) _ _ _ _ refl (
        Other-bind q closed (load_short p s.recv_head_node 2) _ _ λ msg_len.
          Other-if q closed (exceeds msg_len max_lenght) _ _ _ _ refl (
            Other-bind q closed (recv_node p msg_len msg_id) _ _
              λ r. read_text-Other (record s { recv_msg_node = some r }) r (to_size msg_len) b c))

  read_head-Other :
      (s : CSession) (b c : ℕ)
      → Other q closed (read_head p s b c) (read_head p (requeue q closed s) b c)
  unfolding read_head wipe Other other requeue
  read_head-Other s b c =
      let h = s.recv_head_node in
      let n = 4 - h.cur_len in
      Other-if q closed (ltb b 4) _ _ _ _
        (Other-bind q closed (read_bytes 0 b s.recv_data) _ _
          λ src. Other-bind q closed (copy_to h h.cur_len src) _ _ λ h'. refl)
        (Other-if q closed (ltb 4 h.cur_len) _ _ _ _ refl (
          Other-bind q closed (read_bytes 0 n s.recv_data) _ _ λ src.
            Other-bind q closed (copy_to h h.cur_len src) _ _ λ h'.
              read_lengths-Other
                (record s { recv_head_node = record h' { cur_len = h'.cur_len + n } }) (b - n)
                (c + n)))

  round-Other :
      (s : CSession) (b c : ℕ) → Other q closed (round p s b c) (round p (requeue q closed s) b c)
  unfolding round Other requeue
  round-Other s b c = elim (Bool-cases s.b_head_parse) [
    | inl e ↦ elim (Option-cases s.recv_msg_node) [
      | inl none_yet ↦ rw (e, none_yet, round) refl
      | inr (r, found) ↦ rw (e, found, round) (read_rest-Other s r b c)
    ]
    | inr e ↦ rw (e, round) (read_head-Other s b c)
  ]

  -- The rest of the loop, once a round is over.
  after_round : ℕ → Round → Outcome (CSession × List Effect)
  after_round fuel (returns s es) = done (s, es)
  after_round fuel (goes_on s b c es) = loop p fuel s b c >>= λ t. done (t.0, es ++ t.1)

  loop-round :
      (fuel : ℕ) (s : CSession) (b c : ℕ)
      → ltb 0 b ≡ true
      → loop p (suc fuel) s b c ≡ (round p s b c >>= after_round fuel)
  unfolding loop after_round
  loop-round fuel s b c e = rw (e, loop) (by_round (round p s b c))
    where
      by_round :
          (o : Outcome Round)
          → (o >>= λ r. elim r [
            | returns s' es ↦ done (s', es)
            | goes_on s' n c es ↦ loop p fuel s' n c >>= λ t. done (t.0, es ++ t.1)
          ])
            ≡ (o >>= after_round fuel)
      by_round (done (returns s es)) = refl
      by_round (done (goes_on s n c es)) = refl
      by_round throws = refl
      by_round fault = refl
      by_round out_of_fuel = refl

  loop-over :
      (fuel : ℕ) (s : CSession) (b c : ℕ) → ltb 0 b ≡ false → loop p (suc fuel) s b c ≡ done (s, [])
  unfolding loop
  loop-over fuel s b c e = rw (e, loop) refl

  after_round-other :
      (fuel : ℕ) (o : Outcome Round)
      → ((s : CSession) (b c : ℕ)
          → loop p fuel (requeue q closed s) b c ≡ (loop p fuel s b c >>= other_done q closed))
      → ((o >>= other q closed) >>= after_round fuel)
        ≡ ((o >>= after_round fuel) >>= other_done q closed)
  unfolding other after_round other_done
  after_round-other fuel (done (returns s es)) k = refl
  after_round-other fuel (done (goes_on s b c es)) k = rw (k s b c) (joined (loop p fuel s b c))
    where
      joined :
          (o : Outcome (CSession × List Effect))
          → ((o >>= other_done q closed) >>= λ t. done (t.0, es ++ t.1))
            ≡ ((o >>= λ t. done (t.0, es ++ t.1)) >>= other_done q closed)
      joined (done (s', es')) = refl
      joined throws = refl
      joined fault = refl
      joined out_of_fuel = refl
  after_round-other fuel throws k = refl
  after_round-other fuel fault k = refl
  after_round-other fuel out_of_fuel k = refl

  loop-requeue :
      (fuel : ℕ) (s : CSession) (b c : ℕ)
      → loop p fuel (requeue q closed s) b c ≡ (loop p fuel s b c >>= other_done q closed)
  unfolding Other
  loop-requeue zero s b c = unfold loop in refl
  loop-requeue (suc fuel) s b c = elim (Bool-cases (ltb 0 b)) [
    | inl more ↦
        loop-round fuel (requeue q closed s) b c more
        ∙ ap (λ o. o >>= after_round fuel) (round-Other s b c)
        ∙ after_round-other fuel (round p s b c) (loop-requeue fuel)
        ∙ ap (λ o. o >>= other_done q closed) (sym (loop-round fuel s b c more))
    | inr over ↦
        rw (loop-over fuel (requeue q closed s) b c over)
          (rw (loop-over fuel s b c over) (unfold other_done in refl))
  ]

  pub on_bytes-requeue :
      (fuel : ℕ) (s : CSession) (bs : List ℕ)
      → on_bytes p fuel (requeue q closed s) bs ≡ (on_bytes p fuel s bs >>= other_done q closed)
  unfolding on_bytes handle_read requeue
  on_bytes-requeue fuel s bs = loop-requeue fuel _ (length bs) 0
