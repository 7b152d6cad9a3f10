-- ===== src/Session/Read/Starts.antt =====
-- What `HandleRead` starts: at most one read and no write, and it leaves the queue of packets alone.
use Prim.Native.String.{String}
use cppmulti_thread_server_b.Prelude.{
  ℕ, zero, suc, ◌+◌, ◌-◌, ◌≤◌, ◌≡◌, refl, ◌∙◌, List, [], ◌∷◌, ◌++◌, Bool, true, false, arith, ltb,
  leb, Bool-cases, ◌||◌, Option-cases, inl, inr, to_size, if◌then◌else◌, exceeds, some, length,
}
use mathlib.Core.Path.{ap₂, subst}
use cppmulti_thread_server_b.Memory.{Outcome, done, throws, fault, out_of_fuel, ◌>>=◌, read_bytes}
use cppmulti_thread_server_b.Platform.{Platform}
use cppmulti_thread_server_b.MsgNode.{
  RecvNode, SendNode, clear, copy_to, terminate, text, load_short, recv_node, max_lenght,
}
use cppmulti_thread_server_b.Effect.{Effect, start_read, clear_session}
use cppmulti_thread_server_b.Effect.Counts.{reads, writes, reads-append, writes-append}
use cppmulti_thread_server_b.Session.{CSession, close, wipe}
use cppmulti_thread_server_b.Session.Read.{
  Round, returns, goes_on, next_packet, read_rest, read_text, read_lengths, read_head, round, loop,
  handle_read, on_bytes, print_json,
}

-- What a handler leaves of the queue `q` and the uuid `u`, and what it starts.
pub record Keeps (q : List SendNode) (u : String) (n : ℕ) (s : CSession) (es : List Effect)
    : Type 0 where
  pub queue : s.send_queue ≡ q
  pub named : s.uuid ≡ u
  pub one_read : reads es ≤ n
  pub no_write : writes es ≡ []

-- A part of the loop's body starts at most one read if it returns, and none if the loop goes on.
Starts : List SendNode → String → Outcome Round → Type 0
Starts q u (done (returns s es)) = Keeps q u 1 s es
Starts q u (done (goes_on s b c es)) = Keeps q u 0 s es
Starts q u throws = Unit {0}
Starts q u fault = Unit {0}
Starts q u out_of_fuel = Unit {0}

-- The same of the whole handler.
abbrev pub Started : List SendNode → String → Outcome (CSession × List Effect) → Type 0
Started q u (done (s, es)) = Keeps q u 1 s es
Started q u throws = Unit {0}
Started q u fault = Unit {0}
Started q u out_of_fuel = Unit {0}

module _ (q : List SendNode) (u : String) where
  Starts-bind {ℓ} :
      {A : Type ℓ} (m : Outcome A) (f : A → Outcome Round)
      → ((a : A) → Starts q u (f a))
      → Starts q u (m >>= f)
  unfolding Starts
  Starts-bind (done a) f k = k a
  Starts-bind throws f k = tt
  Starts-bind fault f k = tt
  Starts-bind out_of_fuel f k = tt

  Starts-if :
      (c : Bool) (x y : Outcome Round)
      → (Unit {0} → Starts q u x)
      → (Unit {0} → Starts q u y)
      → Starts q u (if c then x else y)
  unfolding Starts
  Starts-if true x y s t = s tt
  Starts-if false x y s t = t tt

  Starts-returns :
      (s : CSession) (es : List Effect)
      → s.send_queue ≡ q
      → s.uuid ≡ u
      → reads es ≤ 1
      → writes es ≡ []
      → Starts q u (done (returns s es))
  unfolding Starts
  Starts-returns s es e f r w = record { queue = e; named = f; one_read = r; no_write = w }

  Starts-fault : Starts q u fault
  unfolding Starts
  Starts-fault = tt

module _ (p : Platform) where
  next_packet-Starts :
      (s : CSession) (r : RecvNode) (b c : ℕ) → Starts s.send_queue s.uuid (next_packet s r b c)
  unfolding next_packet wipe Starts
  next_packet-Starts s r b c = Starts-bind s.send_queue s.uuid (clear s.recv_head_node) _ λ h.
      Starts-if s.send_queue s.uuid (leb b 0) _ _
        (λ _. record { queue = refl; named = refl; one_read = omega arith; no_write = refl })
        (λ _. record { queue = refl; named = refl; one_read = omega arith; no_write = refl })

  read_rest-Starts :
      (s : CSession) (r : RecvNode) (b c : ℕ) → Starts s.send_queue s.uuid (read_rest s r b c)
  unfolding read_rest wipe
  read_rest-Starts s r b c =
      let q = s.send_queue in
      let u = s.uuid in
      let n = r.node.total_len - r.node.cur_len in
      let copied = copy_to r.node r.node.cur_len in
      Starts-if q u (ltb b n || ltb r.node.total_len r.node.cur_len) _ _
        (λ _. Starts-bind q u (read_bytes c b s.recv_data) _ λ src.
          Starts-bind q u (copied src) _
            λ m. Starts-returns q u _ (start_read ∷ []) refl refl (omega arith) refl)
        (λ _. Starts-bind q u (read_bytes c n s.recv_data) _ λ src.
          Starts-bind q u (copied src) _ λ m.
            Starts-bind q u (terminate (record m { cur_len = m.cur_len + n })) _
              λ m'. next_packet-Starts s (record r { node = m' }) (b - n) (c + n))

  read_text-Starts :
      (s : CSession) (r : RecvNode) (l b c : ℕ) → Starts s.send_queue s.uuid (read_text p s r l b c)
  unfolding read_text wipe
  read_text-Starts s r l b c =
      let q = s.send_queue in
      let u = s.uuid in
      let copied = copy_to r.node r.node.cur_len in
      Starts-if q u (ltb b l) _ _
        (λ _. Starts-bind q u (read_bytes c b s.recv_data) _ λ src.
          Starts-bind q u (copied src) _
            λ m. Starts-returns q u _ (start_read ∷ []) refl refl (omega arith) refl)
        (λ _. Starts-bind q u (read_bytes c l s.recv_data) _ λ src.
          Starts-bind q u (copied src) _ λ m.
            Starts-bind q u (terminate (record m { cur_len = m.cur_len + l })) _ λ m'.
              Starts-bind q u (text m') _ λ msg.
                Starts-bind q u (print_json p msg) _
                  λ t. next_packet-Starts s (record r { node = m' }) (b - l) (c + l))

  read_lengths-Starts : (s : CSession) (b c : ℕ) → Starts s.send_queue s.uuid (read_lengths p s b c)
  unfolding read_lengths
  read_lengths-Starts s b c =
      let q = s.send_queue in
      let u = s.uuid in
      let refused = Starts-returns q u s (clear_session u ∷ []) refl refl (omega arith) refl in
      Starts-bind q u (load_short p s.recv_head_node 0) _ λ msg_id.
        Starts-if q u (exceeds msg_id max_lenght) _ _ (λ _. refused)
          λ _. Starts-bind q u (load_short p s.recv_head_node 2) _ λ msg_len.
            Starts-if q u (exceeds msg_len max_lenght) _ _ (λ _. refused)
              λ _.
                Starts-bind q u (recv_node p msg_len msg_id) _ λ r.
                  read_text-Starts (record s { recv_msg_node = some r }) r (to_size msg_len) b c

  read_head-Starts : (s : CSession) (b c : ℕ) → Starts s.send_queue s.uuid (read_head p s b c)
  unfolding read_head wipe
  read_head-Starts s b c =
      let q = s.send_queue in
      let u = s.uuid in
      let h = s.recv_head_node in
      let n = 4 - h.cur_len in
      Starts-if q u (ltb b 4) _ _
        (λ _. Starts-bind q u (read_bytes 0 b s.recv_data) _ λ src.
          Starts-bind q u (copy_to h h.cur_len src) _
            λ h'. Starts-returns q u _ (start_read ∷ []) refl refl (omega arith) refl)
        (λ _.
          Starts-if q u (ltb 4 h.cur_len) _ _ (λ _. Starts-fault q u)
            (λ _. Starts-bind q u (read_bytes 0 n s.recv_data) _ λ src.
              Starts-bind q u (copy_to h h.cur_len src) _ λ h'.
                read_lengths-Starts
                  (record s { recv_head_node = record h' { cur_len = h'.cur_len + n } }) (b - n)
                  (c + n)))

  round-Starts : (s : CSession) (b c : ℕ) → Starts s.send_queue s.uuid (round p s b c)
  unfolding round Starts
  round-Starts s b c = elim (Bool-cases s.b_head_parse) [
    | inl e ↦ elim (Option-cases s.recv_msg_node) [
      | inl none_yet ↦ rw (e, none_yet, round) tt
      | inr (r, found) ↦ rw (e, found, round) (read_rest-Starts s r b c)
    ]
    | inr e ↦ rw (e, round) (read_head-Starts s b c)
  ]

  -- The rest of the loop, once a round is over.
  loop-after :
      (fuel : ℕ) (q : List SendNode) (u : String) (o : Outcome Round)
      → Starts q u o
      → ((s : CSession) (b c : ℕ) → s.send_queue ≡ q → s.uuid ≡ u → Started q u (loop p fuel s b c))
      → Started q u (
          o >>= λ o. elim o [
            | returns s' es ↦ done (s', es)
            | goes_on s' b c es ↦ loop p fuel s' b c >>= λ t. done (t.0, es ++ t.1)
          ])
  unfolding Starts
  loop-after fuel q u (done (returns s es)) v k = v
  loop-after fuel q u (done (goes_on s b c es)) v k =
      joined (loop p fuel s b c) (k s b c v.queue v.named)
    where
      joined :
          (o : Outcome (CSession × List Effect))
          → Started q u o
          → Started q u (o >>= λ t. done (t.0, es ++ t.1))
      joined (done (t, es')) w = record {
        queue = w.queue;
        named = w.named;
        one_read = omega (arith, reads-append es es', v.one_read, w.one_read);
        no_write = writes-append es es' ∙ ap₂ (λ a b. a ++ b) v.no_write w.no_write;
      }
      joined throws w = tt
      joined fault w = tt
      joined out_of_fuel w = tt
  loop-after fuel q u throws v k = tt
  loop-after fuel q u fault v k = tt
  loop-after fuel q u out_of_fuel v k = tt

  loop-Started :
      (fuel : ℕ) (s : CSession) (b c : ℕ) → Started s.send_queue s.uuid (loop p fuel s b c)
  unfolding loop
  loop-Started zero s b c = tt
  loop-Started (suc fuel) s b c = elim (Bool-cases (ltb 0 b)) [
    | inl more ↦
        rw (more, loop)
          (loop-after fuel s.send_queue s.uuid _ (round-Starts s b c) λ s' b' c' e f.
            subst (λ (t : List SendNode × String). Started t.0 t.1 (loop p fuel s' b' c'))
              (ap₂ (λ a b. (a, b)) e f) (loop-Started fuel s' b' c'))
    | inr over ↦
        rw (over, loop)
          (record { queue = refl; named = refl; one_read = omega arith; no_write = refl })
  ]

  pub handle_read-Started :
      (fuel : ℕ) (s : CSession) (ec : Bool) (bytes : ℕ)
      → Started s.send_queue s.uuid (handle_read p fuel s ec bytes)
  unfolding handle_read close
  handle_read-Started fuel s true bytes = record {
    queue = refl;
    named = refl;
    one_read = omega arith;
    no_write = refl;
  }
  handle_read-Started fuel s false bytes = loop-Started fuel s bytes 0

  pub on_bytes-Started :
      (fuel : ℕ) (s : CSession) (bs : List ℕ) → Started s.send_queue s.uuid (on_bytes p fuel s bs)
  unfolding on_bytes
  on_bytes-Started fuel s bs = handle_read-Started fuel _ false (length bs)

  -- The queue after a completed read that returns.
  pub on_bytes-queue :
      (fuel : ℕ) (s s' : CSession) (bs : List ℕ) (es : List Effect)
      → on_bytes p fuel s bs ≡ done (s', es)
      → (s'.send_queue ≡ s.send_queue) × (s'.uuid ≡ s.uuid)
  on_bytes-queue fuel s s' bs es e =
      let v = subst (λ o. Started s.send_queue s.uuid o) e (on_bytes-Started fuel s bs) in
      (v.queue, v.named)
