-- ===== src/Corotine/Start/Good.antt =====
-- One round of `CSession::Start` on bytes of which no two neighbours are both 0xff.
use cppmulti_thread_server_b.Prelude.{
  ℕ, zero, suc, ◌+◌, ◌*◌, ◌≤◌, ◌<◌, ◌≡◌, refl, ap, sym, ◌∙◌, inl, inr, List, [], ◌∷◌, Bool, true,
  false, some, ℤ, pos, negsuc, to_short, exceeds, length, take, drop, take-append-drop, length-take,
  length-drop, ltb, Bool-cases, ltb→lt, ltb→ge, if◌then◌else◌, arith,
}
use cppmulti_thread_server_b.Memory.{Outcome, done, throws, fault, out_of_fuel}
use cppmulti_thread_server_b.Platform.{Platform}
use cppmulti_thread_server_b.MsgNode.{RecvNode, recv_node, msg_node}
use cppmulti_thread_server_b.MsgNode.Frame.{load_short-bytes}
use cppmulti_thread_server_b.MsgNode.Head.{
  IsHead, cleared, clear-cleared, cleared-IsHead, filled, copy_to-filled, filled-IsHead,
}
use cppmulti_thread_server_b.MsgNode.Text.{fresh_node}
use cppmulti_thread_server_b.Effect.{post, close_socket, clear_session}
use cppmulti_thread_server_b.Corotine.{CSession, max_lenght, catching, close}
use cppmulti_thread_server_b.Corotine.Start.{Round, ends, again, read_body, read_lengths, round}
use cppmulti_thread_server_b.Corotine.Start.Frames.{received, read_body-packet, round-end}

-- Bytes of which no two neighbours are both 0xff. Text is such, and the head of every packet whose
-- numbers are not negative.
abbrev pub IsClean : List ℕ → Type 0
IsClean [] = Unit {0}
IsClean (x ∷ []) = x < 256
IsClean (x ∷ y ∷ r) = (x < 256) × (x + y < 510) × IsClean (y ∷ r)

IsClean-tail : (x : ℕ) (r : List ℕ) → IsClean (x ∷ r) → IsClean r
IsClean-tail x [] c = tt
IsClean-tail x (y ∷ r) c = c.2

IsClean-drop : (n : ℕ) (r : List ℕ) → IsClean r → IsClean (drop n r)
IsClean-drop zero r c = c
IsClean-drop (suc n) [] c = c
IsClean-drop (suc n) (x ∷ r) c = IsClean-drop n r (IsClean-tail x r c)

-- A node that may be posted: its id and its length are within the limit.
abbrev pub IsTaken : RecvNode → Type 0
IsTaken r = (exceeds r.msg_id max_lenght ≡ false) × (r.node.total_len ≤ max_lenght)

-- A round closes the session, or posts one node and leaves fewer bytes.
abbrev pub IsGood : CSession → List ℕ → Outcome Round → Type 0
IsGood s stream (done (ends (s', es))) =
    (s'.b_close ≡ true)
    × (es ≡ close_socket ∷ clear_session s.uuid ∷ [])
    × (s'.send_que ≡ s.send_que)
IsGood s stream (done (again s' rest es)) =
    (r : RecvNode) × (es ≡ post r ∷ [])
    × IsTaken r
    × (s'.b_close ≡ s.b_close)
    × (s'.uuid ≡ s.uuid)
    × IsHead s'.recv_head_node
    × (length rest < length stream)
    × IsClean rest
    × (s'.send_que ≡ s.send_que)
IsGood s stream throws = ⊥
IsGood s stream fault = ⊥
IsGood s stream out_of_fuel = ⊥

IsGood-if :
    (s : CSession) (stream : List ℕ) (c : Bool) (x y : Outcome Round)
    → IsGood s stream x
    → (c ≡ false → IsGood s stream y)
    → IsGood s stream (if c then x else y)
IsGood-if s stream true x y g k = g
IsGood-if s stream false x y g k = k refl

module _ (p : Platform) where
  -- `rest` is what is behind the head in `stream`.
  read_body-IsGood :
      (s : CSession) (stream rest : List ℕ) (msg_id : ℤ) (n : ℕ)
      → IsHead s.recv_head_node
      → IsClean rest
      → length rest < length stream
      → exceeds msg_id max_lenght ≡ false
      → n ≤ max_lenght
      → IsGood s stream (read_body p s 4 (record { node = fresh_node p n; msg_id = msg_id }) rest)
  unfolding read_body close
  read_body-IsGood s stream rest msg_id n h c l g m = elim (Bool-cases (ltb (length rest) n)) [
    | inl short ↦
        rw (p.async_read_short n rest (ltb→lt (length rest) n short), read_body) (refl, refl, refl)
    | inr enough ↦ whole (ltb→ge (length rest) n enough)
  ]
    where
      whole :
          n ≤ length rest
          → IsGood s stream
              (read_body p s 4 (record { node = fresh_node p n; msg_id = msg_id }) rest)
      whole e =
          let msg = take n rest in
          let size : length msg ≡ n = omega (arith, length-take n rest) in
          let run =
            ap (λ k. read_body p s 4 (record { node = fresh_node p k; msg_id = msg_id }) rest)
              (sym size)
            ∙ ap (read_body p s 4 (record { node = fresh_node p (length msg); msg_id = msg_id }))
                (sym (take-append-drop n rest))
            ∙ read_body-packet p s msg_id msg (drop n rest) in
          rw run (
            received msg_id msg,
            refl,
            (g, omega (arith, size)),
            refl,
            refl,
            h,
            omega (arith, length-drop n rest),
            IsClean-drop n rest c,
            refl,
          )

  -- With the id read, and the length that the two bytes x, y stand for.
  recv_node-IsGood :
      (s : CSession) (stream rest : List ℕ) (msg_id msg_len : ℤ)
      → IsHead s.recv_head_node
      → IsClean rest
      → length rest < length stream
      → exceeds msg_id max_lenght ≡ false
      → exceeds msg_len max_lenght ≡ false
      → (msg_len ≡ negsuc 0 → ⊥)
      → IsGood s stream (
          catching
            (recv_node p msg_len msg_id)
            (done (ends (close s)))
            λ r. read_body p (record s { recv_msg_node = some r }) 4 r rest)
  unfolding recv_node msg_node close
  recv_node-IsGood s stream rest msg_id (pos n) h c l g m z =
      read_body-IsGood
        (record s { recv_msg_node = some (record { node = fresh_node p n; msg_id = msg_id }) })
        stream rest msg_id n h c l g (ltb→ge max_lenght n m)
  recv_node-IsGood s stream rest msg_id (negsuc zero) h c l g m z = absurd (z refl)
  recv_node-IsGood s stream rest msg_id (negsuc (suc n)) h c l g m z = (refl, refl, refl)

  not_minus_one :
      (x y : ℕ)
      → x < 256
      → y < 256
      → x + y < 510
      → to_short (p.network_to_host_short (x + 256 * y)) ≡ negsuc 0
      → ⊥
  not_minus_one x y hx hy s e =
      let swapped : p.network_to_host_short (x + 256 * y) ≡ x * 256 + y =
        p.network_to_host_swaps (x + 256 * y) (omega arith) ∙ omega arith in
      let e' : to_short (x * 256 + y) ≡ negsuc 0 = ap to_short (sym swapped) ∙ e in ground arith

  read_lengths-IsGood :
      (s : CSession) (a b x y : ℕ) (stream rest junk : List ℕ)
      → IsHead s.recv_head_node
      → s.recv_head_node.bytes ≡ a ∷ b ∷ x ∷ y ∷ junk
      → IsClean (x ∷ y ∷ rest)
      → length rest < length stream
      → IsGood s stream (read_lengths p s 4 rest)
  unfolding read_lengths close
  read_lengths-IsGood s a b x y stream rest junk h e c l =
      let first =
        load_short-bytes p s.recv_head_node [] (x ∷ y ∷ junk) a b {at = 0} h.at_start refl e in
      let second =
        load_short-bytes p s.recv_head_node (a ∷ b ∷ []) junk x y {at = 2} h.at_start refl e in
      let msg_id = to_short (p.network_to_host_short (a + 256 * b)) in
      let msg_len = to_short (p.network_to_host_short (x + 256 * y)) in
      rw first (
        IsGood-if s stream (exceeds msg_id max_lenght) _ _ (refl, refl, refl)
          λ g. rw second (
            IsGood-if s stream (exceeds msg_len max_lenght) _ _ (refl, refl, refl)
              λ m.
                recv_node-IsGood s stream rest msg_id msg_len h (IsClean-tail y rest c.2) l g m
                  (not_minus_one x y c.0 (second_byte y rest c.2) c.1)))
    where
      second_byte : (y : ℕ) (r : List ℕ) → IsClean (y ∷ r) → y < 256
      second_byte y [] c = c
      second_byte y (z ∷ r) c = c.0

  short-IsGood :
      (s : CSession) (stream : List ℕ)
      → IsHead s.recv_head_node
      → length stream < 4
      → IsGood s stream (round p s stream)
  unfolding close
  short-IsGood s stream h l = rw (round-end p s stream h l) (refl, refl, refl)

  pub round-IsGood :
      (s : CSession) (stream : List ℕ)
      → IsHead s.recv_head_node
      → IsClean stream
      → IsGood s stream (round p s stream)
  unfolding round
  round-IsGood s [] h c = short-IsGood s [] h (omega arith)
  round-IsGood s (a ∷ []) h c = short-IsGood s (a ∷ []) h (omega arith)
  round-IsGood s (a ∷ b ∷ []) h c = short-IsGood s (a ∷ b ∷ []) h (omega arith)
  round-IsGood s (a ∷ b ∷ x ∷ []) h c = short-IsGood s (a ∷ b ∷ x ∷ []) h (omega arith)
  round-IsGood s (a ∷ b ∷ x ∷ y ∷ rest) h c =
      let bs = a ∷ b ∷ x ∷ y ∷ [] in
      let s₂ = record s { recv_head_node = filled (cleared s.recv_head_node) bs } in
      rw (clear-cleared h, round)
        (rw (p.async_read_full bs rest, round)
          (rw (copy_to-filled bs (cleared-IsHead h) refl) (
            read_lengths-IsGood s₂ a b x y (a ∷ b ∷ x ∷ y ∷ rest) rest _
              (filled-IsHead bs (cleared-IsHead h) refl) refl c.2.2 (omega arith))))
