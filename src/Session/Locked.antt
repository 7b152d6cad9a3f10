-- ===== src/Session/Locked.antt =====
-- The bodies of a callback session that run under `_send_lock`, and what they have to do with
-- `HandleRead`, which does not take the lock.
pub mod Requeue
pub mod Posts
use mathlib.Core.Path.{subst}
use cppmulti_thread_server_b.Prelude.{
  ℕ, ◌≡◌, refl, ap, sym, ◌∙◌, inl, inr, List, [], ◌∷◌, ◌++◌, Bool, true, false, ℤ, pos, length, ltb,
  Bool-cases, if◌then◌else◌,
}
use cppmulti_thread_server_b.Memory.{Outcome, done, throws, fault, out_of_fuel, ◌>>=◌}
use cppmulti_thread_server_b.Platform.{Platform}
use cppmulti_thread_server_b.MsgNode.{SendNode, send_node, send_buffer, max_sendque}
use cppmulti_thread_server_b.Effect.{Effect}
use cppmulti_thread_server_b.Session.{CSession}
use cppmulti_thread_server_b.Session.Read.{on_bytes}
use cppmulti_thread_server_b.Session.Write.{write_front, enqueue, send_chars, send, handle_write}
use cppmulti_thread_server_b.Session.Locked.Requeue.{requeue, other_done, on_bytes-requeue}

-- The two `Send`, and `HandleWrite` without an error.
pub data Locked : Type 0 where
  sends : (msg : List ℕ) (msg_id : ℤ) → Locked
  sends_chars : (msg : List ℕ) (max_len msg_id : ℤ) → Locked
  wrote : Locked

unfoldable pub locked : Platform → Locked → CSession → Outcome (CSession × List Effect)
locked p (sends msg msg_id) s = send p s msg msg_id
locked p (sends_chars msg max_len msg_id) s = send_chars p s msg max_len msg_id
locked p wrote s = handle_write s false

-- A body that reads no more of a session than its queue, and changes no more.
onto : CSession → CSession × List Effect → Outcome (CSession × List Effect)
onto r t = done (requeue t.0.send_queue r.b_close r, t.1)

onto-bind {ℓ} :
    {A : Type ℓ} (r : CSession) (m : Outcome A) (f g : A → Outcome (CSession × List Effect))
    → ((a : A) → g a ≡ (f a >>= onto r))
    → (m >>= g) ≡ ((m >>= f) >>= onto r)
onto-bind r (done a) f g k = k a
onto-bind r throws f g k = refl
onto-bind r fault f g k = refl
onto-bind r out_of_fuel f g k = refl

write_front-onto :
    (s r : CSession) → write_front (requeue s.send_queue r.b_close r) ≡ (write_front s >>= onto r)
unfolding write_front onto requeue
write_front-onto s r = by_queue s.send_queue refl
  where
    by_queue :
        (q : List SendNode)
        → s.send_queue ≡ q
        → write_front (requeue s.send_queue r.b_close r) ≡ (write_front s >>= onto r)
    by_queue [] e = rw e refl
    by_queue (node ∷ rest) e = rw e (onto-bind r (send_buffer node) _ _ λ b. refl)

enqueue-onto :
    (s r : CSession) (node : SendNode) (n : ℕ)
    → enqueue (requeue s.send_queue r.b_close r) node n ≡ (enqueue s node n >>= onto r)
unfolding enqueue onto requeue
enqueue-onto s r node n = elim (Bool-cases (ltb 0 n)) [
  | inl e ↦ rw e refl
  | inr e ↦ rw e (write_front-onto (record s { send_queue = s.send_queue ++ node ∷ [] }) r)
]

if-onto :
    (c : Bool) (r : CSession) (x y x' y' : Outcome (CSession × List Effect))
    → x' ≡ (x >>= onto r)
    → y' ≡ (y >>= onto r)
    → (if c then x' else y') ≡ ((if c then x else y) >>= onto r)
if-onto true r x y x' y' k h = k
if-onto false r x y x' y' k h = h

handle_write-onto :
    (s r : CSession)
    → handle_write (requeue s.send_queue r.b_close r) false ≡ (handle_write s false >>= onto r)
unfolding handle_write onto requeue
handle_write-onto s r = by_queue s.send_queue refl
  where
    by_queue :
        (q : List SendNode)
        → s.send_queue ≡ q
        → handle_write (requeue s.send_queue r.b_close r) false ≡ (handle_write s false >>= onto r)
    by_queue [] e = rw e refl
    by_queue (node ∷ []) e = rw e refl
    by_queue (node ∷ next ∷ rest) e =
        rw e (write_front-onto (record s { send_queue = next ∷ rest }) r)

locked-onto :
    (p : Platform) (c : Locked) (s r : CSession)
    → locked p c (requeue s.send_queue r.b_close r) ≡ (locked p c s >>= onto r)
unfolding locked send send_chars onto requeue
locked-onto p (sends msg msg_id) s r =
    if-onto (ltb max_sendque (length s.send_queue)) r _ _ _ _ refl (
      onto-bind r (send_node p (msg ++ 0 ∷ []) (pos (length msg)) msg_id) _ _
        λ node. enqueue-onto s r node (length s.send_queue))
locked-onto p (sends_chars msg max_len msg_id) s r =
    if-onto (ltb max_sendque (length s.send_queue)) r _ _ _ _ refl (
      onto-bind r (send_node p msg max_len msg_id) _ _
        λ node. enqueue-onto s r node (length s.send_queue))
locked-onto p wrote s r = handle_write-onto s r

-- The session that a body leaves.
left : CSession → Outcome (CSession × List Effect) → CSession
left s (done t) = t.0
left s throws = s
left s fault = s
left s out_of_fuel = s

-- What a body under the lock leaves differs in the queue alone, and what a read leaves in neither the
-- queue nor `_b_close`.
pub locked-same :
    (p : Platform) (c : Locked) (s s₂ : CSession) (fs : List Effect)
    → locked p c s ≡ done (s₂, fs)
    → s₂ ≡ requeue s₂.send_queue s.b_close s
unfolding onto requeue left
locked-same p c s s₂ fs f = ap (left s) (sym f ∙ locked-onto p c s s ∙ ap (λ o. o >>= onto s) f)

pub on_bytes-same :
    (p : Platform) (fuel : ℕ) (s s₁ : CSession) (bs : List ℕ) (es : List Effect)
    → on_bytes p fuel s bs ≡ done (s₁, es)
    → s₁ ≡ requeue s.send_queue s.b_close s₁
unfolding requeue left other_done
on_bytes-same p fuel s s₁ bs es e = ap (left s) (
    sym e
    ∙ on_bytes-requeue p s.send_queue s.b_close fuel s bs
    ∙ ap (λ o. o >>= other_done s.send_queue s.b_close) e)

-- `HandleRead` on bytes that come in, and a body under the lock, can come in either order: when each
-- of them returns from the session as it is, each also returns after the other, with the same calls,
-- and both orders leave the same session. The body is a `Send`, or `HandleWrite` without an error.
pub on_bytes-locked :
    (p : Platform) (fuel : ℕ) (c : Locked) (s s₁ s₂ : CSession) (bs : List ℕ) (es fs : List Effect)
    → on_bytes p fuel s bs ≡ done (s₁, es)
    → locked p c s ≡ done (s₂, fs)
    → (s₃ : CSession) × (locked p c s₁ ≡ done (s₃, fs)) × (on_bytes p fuel s₂ bs ≡ done (s₃, es))
unfolding onto requeue left other_done
on_bytes-locked p fuel c s s₁ s₂ bs es fs e f =
    let same = on_bytes-same p fuel s s₁ bs es e in
    let only = locked-same p c s s₂ fs f in
    (
      requeue s₂.send_queue s.b_close s₁,
      ap (locked p c) same
          ∙ locked-onto p c s (requeue s.send_queue s.b_close s₁)
          ∙ ap (λ o. o >>= onto (requeue s.send_queue s.b_close s₁)) f,
      ap (λ t. on_bytes p fuel t bs) only
          ∙ on_bytes-requeue p s₂.send_queue s.b_close fuel s bs
          ∙ ap (λ o. o >>= other_done s₂.send_queue s.b_close) e,
    )
