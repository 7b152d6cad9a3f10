-- ===== src/Corotine/Start/Ends.antt =====
-- `CSession::Start` on any bytes: how the coroutine ends.
use Prim.Native.String.{String}
use cppmulti_thread_server_b.Prelude.{
  ℕ, zero, suc, ◌<◌, ◌≡◌, refl, ap, ◌∙◌, List, [], ◌∷◌, ◌++◌, true, false, length, arith,
}
use cppmulti_thread_server_b.Memory.{Outcome, done, throws, fault, out_of_fuel}
use cppmulti_thread_server_b.Platform.{Platform}
use cppmulti_thread_server_b.MsgNode.{RecvNode}
use cppmulti_thread_server_b.MsgNode.Head.{IsHead}
use cppmulti_thread_server_b.Effect.{Effect, post, close_socket, clear_session}
use cppmulti_thread_server_b.Corotine.{CSession}
use cppmulti_thread_server_b.Corotine.Start.{Round, ends, again, round, start}
use cppmulti_thread_server_b.Corotine.Start.Frames.{start-again}
use cppmulti_thread_server_b.Corotine.Start.Good.{IsClean, IsTaken, IsGood, round-IsGood}

module _ (p : Platform) where
  abbrev pub posted : List RecvNode → List Effect
  posted [] = []
  posted (r ∷ rs) = post r ∷ posted rs

  abbrev pub AreTaken : List RecvNode → Type 0
  AreTaken [] = Unit {0}
  AreTaken (r ∷ rs) = IsTaken r × AreTaken rs

  -- The coroutine has posted some nodes, and then closed its session.
  abbrev pub Ends : String → Outcome (CSession × List Effect) → Type 0
  Ends uuid o =
      (s' : CSession) × (rs : List RecvNode) × (o
        ≡ done (s', posted rs ++ (close_socket ∷ clear_session uuid ∷ [])))
      × (s'.b_close ≡ true)
      × AreTaken rs

  after_round :
      (fuel : ℕ) (s : CSession) (stream : List ℕ) (o : Outcome Round)
      → s.b_close ≡ false
      → round p s stream ≡ o
      → IsGood s stream o
      → ((s' : CSession) (rest : List ℕ)
          → IsHead s'.recv_head_node
          → s'.b_close ≡ false
          → IsClean rest
          → length rest < length stream
          → Ends s'.uuid (start p fuel s' rest))
      → Ends s.uuid (start p (suc fuel) s stream)
  unfolding start
  after_round fuel s stream (done (ends (s', es))) b e g k =
      (s', [], rw (b, start) (rw e (ap (λ t. done (s', t)) g.1)), g.0, tt)
  after_round fuel s stream (done (again s' rest es)) b e g k =
      let (r, is_post, taken, same, named, h, l, c, queue) = g in
      let (t, rs, run, closed, all) = k s' rest h (same ∙ b) c l in
      (
        t,
        r ∷ rs,
        start-again p s s' fuel stream rest b e run
            ∙ ap (λ x. done (t, x ++ (posted rs ++ (close_socket ∷ clear_session s'.uuid ∷ []))))
                is_post
            ∙ ap (λ u. done (t, post r ∷ (posted rs ++ (close_socket ∷ clear_session u ∷ []))))
                named,
        closed,
        (taken, all),
      )
  after_round fuel s stream throws b e g k = absurd g
  after_round fuel s stream fault b e g k = absurd g
  after_round fuel s stream out_of_fuel b e g k = absurd g

  -- Whatever bytes the peer sends before it closes, as long as no two neighbours are both 0xff,
  -- the coroutine ends without a fault and without an exception that leaves it: it has posted
  -- some nodes, each with an id and a length within the limit, then closed the socket and taken
  -- the session off the server, once, and the session is marked closed. One round more than
  -- bytes is enough. The session is open, and its head buffer is as its constructor makes it.
  pub start-Ends :
      (fuel : ℕ) (s : CSession) (stream : List ℕ)
      → length stream < fuel
      → IsHead s.recv_head_node
      → s.b_close ≡ false
      → IsClean stream
      → Ends s.uuid (start p fuel s stream)
  start-Ends zero s stream f h b c = absurd (omega arith)
  start-Ends (suc fuel) s stream f h b c =
      after_round fuel s stream (round p s stream) b refl (round-IsGood p s stream h c)
        λ s' rest h' b' c' l. start-Ends fuel s' rest (omega arith) h' b' c'
