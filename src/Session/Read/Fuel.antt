-- ===== src/Session/Read/Fuel.antt =====
-- The `while` of `HandleRead` ends: how many rounds it can make.
use cppmulti_thread_server_b.Prelude.{
  ℕ, zero, suc, ◌+◌, ◌-◌, ◌≤◌, ◌<◌, ◌≡◌, ◌≢◌, refl, List, ◌++◌, Bool, true, false, arith, ltb, leb,
  Bool-cases, ◌||◌, Option-cases, inl, inr, to_size, ltb→lt, if◌then◌else◌, exceeds,
}
use cppmulti_thread_server_b.Memory.{Outcome, done, throws, fault, out_of_fuel, ◌>>=◌}
use cppmulti_thread_server_b.Memory.Steady.{IsSteady, IsSteady-bind, read_bytes-IsSteady}
use cppmulti_thread_server_b.Platform.{Platform}
use cppmulti_thread_server_b.MsgNode.{MsgNode, RecvNode, clear, max_lenght}
use cppmulti_thread_server_b.MsgNode.Steady.{
  clear-IsSteady, copy_to-IsSteady, terminate-IsSteady, text-IsSteady, load_short-IsSteady,
  recv_node-IsSteady,
}
use cppmulti_thread_server_b.Effect.{Effect}
use cppmulti_thread_server_b.Session.{CSession}
use cppmulti_thread_server_b.Session.Read.{
  Round, returns, goes_on, next_packet, read_rest, read_text, read_lengths, read_head, round, loop,
  print_json, handle_read,
}

-- The session waits for a head with an empty head buffer.
abbrev IsBetween : CSession → Type 0
IsBetween s = (s.b_head_parse ≡ false) × (s.recv_head_node.cur_len ≡ 0)

-- A round does not lengthen what is left, and goes on only between packets.
abbrev Leaves : ℕ → Outcome Round → Type 0
Leaves n (done (goes_on s b c es)) = (b ≤ n) × IsBetween s
Leaves n (done (returns s es)) = Unit {0}
Leaves n throws = Unit {0}
Leaves n fault = Unit {0}
Leaves n out_of_fuel = ⊥

Leaves-bind {ℓ} :
    {A : Type ℓ} (n : ℕ) (m : Outcome A) (f : A → Outcome Round)
    → IsSteady m
    → ((a : A) → m ≡ done a → Leaves n (f a))
    → Leaves n (m >>= f)
Leaves-bind n (done a) f s k = k a refl
Leaves-bind n throws f s k = tt
Leaves-bind n fault f s k = tt
Leaves-bind n out_of_fuel f s k = s

Leaves-if :
    (n : ℕ) (c : Bool) (x y : Outcome Round)
    → (c ≡ true → Leaves n x)
    → (c ≡ false → Leaves n y)
    → Leaves n (if c then x else y)
Leaves-if n true x y s t = s refl
Leaves-if n false x y s t = t refl

clear-cur_len : (m : MsgNode) {m' : MsgNode} → clear m ≡ done m' → m'.cur_len ≡ 0
unfolding clear
clear-cur_len m e = ground arith

next_packet-Leaves :
    (s : CSession) (r : RecvNode) (b c n : ℕ) → b ≤ n → Leaves n (next_packet s r b c)
unfolding next_packet
next_packet-Leaves s r b c n h =
    Leaves-bind n _ _ (clear-IsSteady s.recv_head_node) λ m e.
      Leaves-if n (leb b 0) _ _ (λ _. tt) (λ _. (h, (refl, clear-cur_len s.recv_head_node e)))

read_rest-Leaves : (s : CSession) (r : RecvNode) (b c : ℕ) → Leaves b (read_rest s r b c)
unfolding read_rest
read_rest-Leaves s r b c =
    Leaves-if b (ltb b (r.node.total_len - r.node.cur_len) || ltb r.node.total_len r.node.cur_len) _
      _
      (λ _.
        Leaves-bind b _ _ (read_bytes-IsSteady c b s.recv_data)
          λ src _. Leaves-bind b _ _ (copy_to-IsSteady r.node r.node.cur_len src) λ m _. tt)
      (λ _.
        Leaves-bind b _ _ (read_bytes-IsSteady c (r.node.total_len - r.node.cur_len) s.recv_data)
          λ src _. Leaves-bind b _ _ (copy_to-IsSteady r.node r.node.cur_len src) λ m _.
            Leaves-bind b _ _ (terminate-IsSteady _)
              λ m' _. next_packet-Leaves s _ _ _ b (omega arith))

print_json-IsSteady : (p : Platform) (msg : List ℕ) → IsSteady (print_json p msg)
unfolding print_json
print_json-IsSteady p msg = ground arith

read_text-Leaves :
    (p : Platform) (s : CSession) (r : RecvNode) (l b c : ℕ) → Leaves b (read_text p s r l b c)
unfolding read_text
read_text-Leaves p s r l b c =
    Leaves-if b (ltb b l) _ _
      (λ _.
        Leaves-bind b _ _ (read_bytes-IsSteady c b s.recv_data)
          λ src _. Leaves-bind b _ _ (copy_to-IsSteady r.node r.node.cur_len src) λ m _. tt)
      (λ _. Leaves-bind b _ _ (read_bytes-IsSteady c l s.recv_data) λ src _.
        Leaves-bind b _ _ (copy_to-IsSteady r.node r.node.cur_len src) λ m _.
          Leaves-bind b _ _ (terminate-IsSteady _) λ m' _.
            Leaves-bind b _ _ (text-IsSteady m') λ msg _.
              Leaves-bind b _ _ (print_json-IsSteady p msg)
                λ t _. next_packet-Leaves s _ _ _ b (omega arith))

read_lengths-Leaves : (p : Platform) (s : CSession) (b c : ℕ) → Leaves b (read_lengths p s b c)
unfolding read_lengths
read_lengths-Leaves p s b c =
    Leaves-bind b _ _ (load_short-IsSteady p s.recv_head_node 0) λ msg_id _.
      Leaves-if b (exceeds msg_id max_lenght) _ _ (λ _. tt)
        λ _. Leaves-bind b _ _ (load_short-IsSteady p s.recv_head_node 2) λ msg_len _.
          Leaves-if b (exceeds msg_len max_lenght) _ _ (λ _. tt)
            λ _.
              Leaves-bind b _ _ (recv_node-IsSteady p msg_len msg_id)
                λ r _. read_text-Leaves p _ r (to_size msg_len) b c

read_head-Leaves :
    (p : Platform) (s : CSession) (b c : ℕ)
    → Leaves (b - (4 - s.recv_head_node.cur_len)) (read_head p s b c)
unfolding read_head
read_head-Leaves p s b c =
    let n = b - (4 - s.recv_head_node.cur_len) in
    Leaves-if n (ltb b 4) _ _
      (λ _. Leaves-bind n _ _ (read_bytes-IsSteady 0 b s.recv_data) λ src _.
        Leaves-bind n _ _ (copy_to-IsSteady s.recv_head_node s.recv_head_node.cur_len src)
          λ h _. tt)
      (λ _.
        Leaves-if n (ltb 4 s.recv_head_node.cur_len) _ _ (λ _. tt)
          λ _.
            Leaves-bind n _ _ (read_bytes-IsSteady 0 (4 - s.recv_head_node.cur_len) s.recv_data)
              λ src _.
                Leaves-bind n _ _ (copy_to-IsSteady s.recv_head_node s.recv_head_node.cur_len src)
                  λ h _. read_lengths-Leaves p _ n (c + (4 - s.recv_head_node.cur_len)))

Leaves-mono : (m n : ℕ) (r : Outcome Round) → m ≤ n → Leaves m r → Leaves n r
Leaves-mono m n (done (goes_on s b c es)) h l = (omega (arith, l.0), l.1)
Leaves-mono m n (done (returns s es)) h l = tt
Leaves-mono m n throws h l = tt
Leaves-mono m n fault h l = tt
Leaves-mono m n out_of_fuel h l = l

round-Leaves : (p : Platform) (s : CSession) (b c : ℕ) → Leaves b (round p s b c)
unfolding round
round-Leaves p s b c = elim (Bool-cases s.b_head_parse) [
  | inl e ↦ elim (Option-cases s.recv_msg_node) [
    | inl none_yet ↦ rw (e, none_yet, round) tt
    | inr (r, found) ↦ rw (e, found, round) (read_rest-Leaves s r b c)
  ]
  | inr e ↦
      rw (e, round)
        (Leaves-mono (b - (4 - s.recv_head_node.cur_len)) b _ (omega arith)
          (read_head-Leaves p s b c))
]

round-between-Leaves :
    (p : Platform) (s : CSession) (b c : ℕ) → IsBetween s → Leaves (b - 4) (round p s b c)
unfolding round
round-between-Leaves p s b c (e, z) =
    rw (e, round)
      (Leaves-mono (b - (4 - s.recv_head_node.cur_len)) (b - 4) _ (omega arith)
        (read_head-Leaves p s b c))

-- The rest of the loop, once a round is over.
loop-after :
    (p : Platform) (fuel n : ℕ) (r : Outcome Round)
    → Leaves n r
    → ((s : CSession) (b c : ℕ) → b ≤ n → IsBetween s → IsSteady (loop p fuel s b c))
    → IsSteady {A = CSession × List Effect} (
        r >>= λ o. elim o [
          | returns s' es ↦ done (s', es)
          | goes_on s' b c es ↦ loop p fuel s' b c >>= λ t. done (t.0, es ++ t.1)
        ])
loop-after p fuel n (done (goes_on s b c es)) l k = IsSteady-bind _ _ (k s b c l.0 l.1) (λ t. tt)
loop-after p fuel n (done (returns s es)) l k = tt
loop-after p fuel n throws l k = tt
loop-after p fuel n fault l k = tt
loop-after p fuel n out_of_fuel l k = l

loop-between-IsSteady :
    (p : Platform) (fuel : ℕ) (s : CSession) (b c : ℕ)
    → b < fuel
    → IsBetween s
    → IsSteady (loop p fuel s b c)
unfolding loop
loop-between-IsSteady p zero s b c f i = absurd (omega arith)
loop-between-IsSteady p (suc fuel) s b c f i = elim (Bool-cases (ltb 0 b)) [
  | inl more ↦
      rw (more, loop)
        (loop-after p fuel (b - 4) _ (round-between-Leaves p s b c i) λ s' b' c' le i'.
          let lt : b' < fuel = omega (arith, ltb→lt 0 b more) in
          loop-between-IsSteady p fuel s' b' c' lt i')
  | inr over ↦ rw (over, loop) tt
]

loop-IsSteady :
    (p : Platform) (fuel : ℕ) (s : CSession) (b c : ℕ) → b + 1 < fuel → IsSteady (loop p fuel s b c)
unfolding loop
loop-IsSteady p zero s b c f = absurd (omega arith)
loop-IsSteady p (suc fuel) s b c f = elim (Bool-cases (ltb 0 b)) [
  | inl more ↦
      rw (more, loop)
        (loop-after p fuel b _ (round-Leaves p s b c)
          λ s' b' c' le i'. loop-between-IsSteady p fuel s' b' c' (omega arith) i')
  | inr over ↦ rw (over, loop) tt
]

IsSteady-ne {ℓ} : {A : Type ℓ} (m : Outcome A) → IsSteady m → m ≢ out_of_fuel
IsSteady-ne (done a) s e = cc
IsSteady-ne throws s e = cc
IsSteady-ne fault s e = cc
IsSteady-ne out_of_fuel s e = s

-- The `while` of `HandleRead` ends from every state of the session, however many bytes came in: two
-- rounds more than bytes are enough.
pub handle_read_ends :
    (p : Platform) (fuel : ℕ) (s : CSession) (ec : Bool) (bytes : ℕ)
    → bytes + 1 < fuel
    → handle_read p fuel s ec bytes ≢ out_of_fuel
unfolding handle_read
handle_read_ends p fuel s true bytes f = IsSteady-ne _ tt
handle_read_ends p fuel s false bytes f = IsSteady-ne _ (loop-IsSteady p fuel s bytes 0 f)
