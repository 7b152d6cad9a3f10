-- ===== src/ThreadPool/Threads/Alone.antt =====
-- A session of AsioThreadPool on one thread that does nothing but read.
use cppmulti_thread_server_b.Prelude.{
  ℕ, ◌+◌, ◌≡◌, refl, ap, sym, ◌∙◌, List, [], ◌∷◌, ◌++◌, length, append-nil, append_assoc,
}
use cppmulti_thread_server_b.Memory.{Outcome, done, throws, fault, out_of_fuel, ◌>>=◌}
use cppmulti_thread_server_b.Platform.{Platform}
use cppmulti_thread_server_b.MsgNode.{RecvNode}
use cppmulti_thread_server_b.Effect.{Effect}
use cppmulti_thread_server_b.Effect.Counts.{posts, posts-append}
use cppmulti_thread_server_b.Session.{CSession}
use cppmulti_thread_server_b.Session.Read
use cppmulti_thread_server_b.Session.Life.{Event, sends, read_done, read_failed, write_done}
use cppmulti_thread_server_b.ThreadPool.Session.{Call, effects}
use cppmulti_thread_server_b.ThreadPool.Threads.Counts.{effects-append}

-- The nodes that a session has posted.
abbrev pub posted : List Call → List RecvNode
posted cs = posts (effects cs)

pub posted-append : (xs ys : List Call) → posted (xs ++ ys) ≡ posted xs ++ posted ys
posted-append xs ys = ap posts (effects-append xs ys) ∙ posts-append (effects xs) (effects ys)

-- What came in with the reads that are over.
abbrev pub bytes_in : List Event → List (List ℕ)
bytes_in [] = []
bytes_in (sends msg_id msg ∷ es) = bytes_in es
bytes_in (read_done bs ∷ es) = bs ∷ bytes_in es
bytes_in (read_failed ∷ es) = bytes_in es
bytes_in (write_done ec ∷ es) = bytes_in es

pub bytes_in-append : (xs ys : List Event) → bytes_in (xs ++ ys) ≡ bytes_in xs ++ bytes_in ys
bytes_in-append [] ys = refl
bytes_in-append (sends msg_id msg ∷ xs) ys = bytes_in-append xs ys
bytes_in-append (read_done bs ∷ xs) ys = ap (λ t. bs ∷ t) (bytes_in-append xs ys)
bytes_in-append (read_failed ∷ xs) ys = bytes_in-append xs ys
bytes_in-append (write_done ec ∷ xs) ys = bytes_in-append xs ys

-- One thread that does nothing but read: one `HandleRead` after the other on the session of the callback
-- servers, with what they post.
unfoldable pub reads_alone :
    Platform → CSession → List (List ℕ) → Outcome (CSession × List RecvNode)
reads_alone p s [] = done (s, [])
reads_alone p s (bs ∷ reads) = Read.on_bytes p (length bs + 2) s bs >>= λ t.
    reads_alone p t.0 reads >>= λ u. done (u.0, posts t.1 ++ u.1)

-- One read more.
unfoldable pub then_read :
    Platform → List ℕ → CSession × List RecvNode → Outcome (CSession × List RecvNode)
then_read p bs t = Read.on_bytes p (length bs + 2) t.0 bs >>= λ u. done (u.0, t.1 ++ posts u.1)

-- What was posted before.
behind : List RecvNode → CSession × List RecvNode → Outcome (CSession × List RecvNode)
behind ns t = done (t.0, ns ++ t.1)

then_read-behind :
    (p : Platform) (bs : List ℕ) (ns : List RecvNode) (o : Outcome (CSession × List RecvNode))
    → ((o >>= then_read p bs) >>= behind ns) ≡ ((o >>= behind ns) >>= then_read p bs)
unfolding then_read behind
then_read-behind p bs ns (done (s, ms)) = last (Read.on_bytes p (length bs + 2) s bs)
  where
    last :
        (o : Outcome (CSession × List Effect))
        → ((o >>= λ u. done (u.0, ms ++ posts u.1)) >>= behind ns)
          ≡ (o >>= λ u. done (u.0, (ns ++ ms) ++ posts u.1))
    last (done (s', es)) = ap (λ t. done (s', t)) (sym (append_assoc ns ms (posts es)))
    last throws = refl
    last fault = refl
    last out_of_fuel = refl
then_read-behind p bs ns throws = refl
then_read-behind p bs ns fault = refl
then_read-behind p bs ns out_of_fuel = refl

pub reads_alone-snoc :
    (p : Platform) (s : CSession) (reads : List (List ℕ)) (bs : List ℕ)
    → reads_alone p s (reads ++ bs ∷ []) ≡ (reads_alone p s reads >>= then_read p bs)
unfolding reads_alone then_read behind
reads_alone-snoc p s [] bs = only (Read.on_bytes p (length bs + 2) s bs)
  where
    only :
        (o : Outcome (CSession × List Effect))
        → ◌>>=◌ {B = CSession × List RecvNode} o (λ t. done (t.0, posts t.1 ++ []))
          ≡ ◌>>=◌ {B = CSession × List RecvNode} o (λ t. done (t.0, posts t.1))
    only (done (s', es)) = ap (λ t. done (s', t)) (append-nil (posts es))
    only throws = refl
    only fault = refl
    only out_of_fuel = refl
reads_alone-snoc p s (cs ∷ reads) bs =
    later (λ s'. reads_alone-snoc p s' reads bs) (Read.on_bytes p (length cs + 2) s cs)
  where
    later :
        ((s' : CSession)
          → reads_alone p s' (reads ++ bs ∷ []) ≡ (reads_alone p s' reads >>= then_read p bs))
        → (o : Outcome (CSession × List Effect))
        → (o >>= λ t. reads_alone p t.0 (reads ++ bs ∷ []) >>= behind (posts t.1))
          ≡ ((o >>= λ t. reads_alone p t.0 reads >>= behind (posts t.1)) >>= then_read p bs)
    later more (done (s', es)) =
        ap (λ o. o >>= behind (posts es)) (more s')
        ∙ then_read-behind p bs (posts es) (reads_alone p s' reads)
    later more throws = refl
    later more fault = refl
    later more out_of_fuel = refl
