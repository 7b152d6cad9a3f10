-- ===== src/Session/Locked/Posts.antt =====
-- The bodies under `_send_lock` post nothing to the logic system.
use mathlib.Core.Path.{subst}
use cppmulti_thread_server_b.Prelude.{
  ℕ, ◌≡◌, refl, List, [], ◌∷◌, ◌++◌, Bool, true, false, pos, length, ltb, if◌then◌else◌,
}
use cppmulti_thread_server_b.Memory.{Outcome, done, throws, fault, out_of_fuel, ◌>>=◌}
use cppmulti_thread_server_b.Platform.{Platform}
use cppmulti_thread_server_b.MsgNode.{SendNode, send_node, send_buffer, max_sendque}
use cppmulti_thread_server_b.Effect.{Effect}
use cppmulti_thread_server_b.Effect.Counts.{posts}
use cppmulti_thread_server_b.Session.{CSession}
use cppmulti_thread_server_b.Session.Write.{write_front, enqueue, send_chars, send, handle_write}
use cppmulti_thread_server_b.Session.Locked.{Locked, sends, sends_chars, wrote, locked}

NoPosts : Outcome (CSession × List Effect) → Type 0
NoPosts (done (s, es)) = posts es ≡ []
NoPosts _ = Unit {0}

NoPosts-bind {ℓ} :
    {A : Type ℓ} (m : Outcome A) (f : A → Outcome (CSession × List Effect))
    → ((a : A) → NoPosts (f a))
    → NoPosts (m >>= f)
unfolding NoPosts
NoPosts-bind (done a) f k = k a
NoPosts-bind throws f k = tt
NoPosts-bind fault f k = tt
NoPosts-bind out_of_fuel f k = tt

NoPosts-if :
    (c : Bool) (x y : Outcome (CSession × List Effect))
    → NoPosts x
    → NoPosts y
    → NoPosts (if c then x else y)
NoPosts-if true x y k h = k
NoPosts-if false x y k h = h

write_front-NoPosts : (s : CSession) → NoPosts (write_front s)
unfolding write_front NoPosts
write_front-NoPosts s = by_queue s.send_queue refl
  where
    by_queue : (q : List SendNode) → s.send_queue ≡ q → NoPosts (write_front s)
    by_queue [] e = rw (e, write_front) tt
    by_queue (node ∷ rest) e = rw (e, write_front) (NoPosts-bind (send_buffer node) _ λ b. refl)

enqueue-NoPosts : (s : CSession) (node : SendNode) (n : ℕ) → NoPosts (enqueue s node n)
unfolding enqueue NoPosts
enqueue-NoPosts s node n = NoPosts-if (ltb 0 n) _ _ refl (write_front-NoPosts _)

locked-NoPosts : (p : Platform) (c : Locked) (s : CSession) → NoPosts (locked p c s)
unfolding locked send send_chars handle_write NoPosts
locked-NoPosts p (sends msg msg_id) s =
    NoPosts-if (ltb max_sendque (length s.send_queue)) _ _ refl (
      NoPosts-bind (send_node p (msg ++ 0 ∷ []) (pos (length msg)) msg_id) _
        λ node. enqueue-NoPosts s node (length s.send_queue))
locked-NoPosts p (sends_chars msg max_len msg_id) s =
    NoPosts-if (ltb max_sendque (length s.send_queue)) _ _ refl (
      NoPosts-bind (send_node p msg max_len msg_id) _
        λ node. enqueue-NoPosts s node (length s.send_queue))
locked-NoPosts p wrote s = by_queue s.send_queue refl
  where
    by_queue : (q : List SendNode) → s.send_queue ≡ q → NoPosts (handle_write s false)
    by_queue [] e = rw (e, handle_write) tt
    by_queue (node ∷ []) e = rw (e, handle_write) refl
    by_queue (node ∷ next ∷ rest) e = rw (e, handle_write) (write_front-NoPosts _)

pub locked-posts :
    (p : Platform) (c : Locked) (s s₂ : CSession) (fs : List Effect)
    → locked p c s ≡ done (s₂, fs)
    → posts fs ≡ []
unfolding NoPosts
locked-posts p c s s₂ fs f = subst NoPosts f (locked-NoPosts p c s)
