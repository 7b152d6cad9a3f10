-- ===== src/Effect/Counts.antt =====
-- The reads, the writes and the posts among the calls of a handler.
use cppmulti_thread_server_b.Prelude.{ℕ, suc, ◌+◌, ◌≡◌, refl, ap, List, [], ◌∷◌, ◌++◌, arith}
use cppmulti_thread_server_b.MsgNode.{RecvNode}
use cppmulti_thread_server_b.Effect.{
  Effect, start_read, start_read_head, start_read_msg, start_write, post, close_socket,
  clear_session,
}

-- The packets that are given to `async_write`.
abbrev pub writes : List Effect → List (List ℕ)
writes [] = []
writes (start_write b ∷ es) = b ∷ writes es
writes (_ ∷ es) = writes es

abbrev pub reads : List Effect → ℕ
reads [] = 0
reads (start_read ∷ es) = suc (reads es)
reads (start_read_head n ∷ es) = suc (reads es)
reads (start_read_msg n ∷ es) = suc (reads es)
reads (_ ∷ es) = reads es

-- The calls of `ClearSession`.
abbrev pub clears : List Effect → ℕ
clears [] = 0
clears (clear_session u ∷ es) = suc (clears es)
clears (_ ∷ es) = clears es

pub clears-append : (xs ys : List Effect) → clears (xs ++ ys) ≡ clears xs + clears ys
clears-append [] ys = omega arith
clears-append (start_read ∷ xs) ys = clears-append xs ys
clears-append (start_read_head n ∷ xs) ys = clears-append xs ys
clears-append (start_read_msg n ∷ xs) ys = clears-append xs ys
clears-append (start_write b ∷ xs) ys = clears-append xs ys
clears-append (post r ∷ xs) ys = clears-append xs ys
clears-append (close_socket ∷ xs) ys = clears-append xs ys
clears-append (clear_session u ∷ xs) ys = omega (arith, clears-append xs ys)

pub reads-append : (xs ys : List Effect) → reads (xs ++ ys) ≡ reads xs + reads ys
reads-append [] ys = omega arith
reads-append (start_read ∷ xs) ys = omega (arith, reads-append xs ys)
reads-append (start_read_head n ∷ xs) ys = omega (arith, reads-append xs ys)
reads-append (start_read_msg n ∷ xs) ys = omega (arith, reads-append xs ys)
reads-append (start_write b ∷ xs) ys = reads-append xs ys
reads-append (post r ∷ xs) ys = reads-append xs ys
reads-append (close_socket ∷ xs) ys = reads-append xs ys
reads-append (clear_session u ∷ xs) ys = reads-append xs ys

pub writes-append : (xs ys : List Effect) → writes (xs ++ ys) ≡ writes xs ++ writes ys
writes-append [] ys = refl
writes-append (start_read ∷ xs) ys = writes-append xs ys
writes-append (start_read_head n ∷ xs) ys = writes-append xs ys
writes-append (start_read_msg n ∷ xs) ys = writes-append xs ys
writes-append (start_write b ∷ xs) ys = ap (λ t. b ∷ t) (writes-append xs ys)
writes-append (post r ∷ xs) ys = writes-append xs ys
writes-append (close_socket ∷ xs) ys = writes-append xs ys
writes-append (clear_session u ∷ xs) ys = writes-append xs ys

-- The nodes that are given to the logic system.
abbrev pub posts : List Effect → List RecvNode
posts [] = []
posts (post r ∷ es) = r ∷ posts es
posts (_ ∷ es) = posts es

pub posts-append : (xs ys : List Effect) → posts (xs ++ ys) ≡ posts xs ++ posts ys
posts-append [] ys = refl
posts-append (start_read ∷ xs) ys = posts-append xs ys
posts-append (start_read_head n ∷ xs) ys = posts-append xs ys
posts-append (start_read_msg n ∷ xs) ys = posts-append xs ys
posts-append (start_write b ∷ xs) ys = posts-append xs ys
posts-append (post r ∷ xs) ys = ap (λ t. r ∷ t) (posts-append xs ys)
posts-append (close_socket ∷ xs) ys = posts-append xs ys
posts-append (clear_session u ∷ xs) ys = posts-append xs ys
