-- ===== src/System/Queues.antt =====
-- How a step changes what is in a session's queue and on the way to its client.
use cppmulti_thread_server_b.Prelude.{
  ℕ, suc, ◌+◌, ◌≤◌, ◌≡◌, refl, ap, ◌∙◌, List, [], ◌∷◌, ◌++◌, true, length, arith, append-nil,
}
use cppmulti_thread_server_b.Platform.{Platform}
use cppmulti_thread_server_b.System.{Host, Phase, idle, sent, asked, answered}
use cppmulti_thread_server_b.System.Service.{
  Service, Held, none_held, one_held, two_held, has_room, more, fewer, under_way, first, next,
  weight, Stands,
}

module _ {h : Host} {p : Platform} {text : List ℕ} (a : Service h p text) where
  open a use {answer}

  -- What a queue and its writes come to, with a packet less of the measure at least.
  pub record Goes (q : Held) (f g : Phase) (ws vs : List (List ℕ)) (m n : ℕ) : Type 0 where
    pub stands : Stands a f q vs
    pub pending : n ≡ under_way q
    pub less : suc (weight f vs + n) ≤ weight g ws + m

  pub sent-Goes :
      (q : Held) (ws : List (List ℕ)) (m : ℕ)
      → has_room q ≡ true
      → ws ≡ []
      → m ≡ under_way q
      → Goes (more q) answered asked ws (ws ++ first answer q) m (m + length (first answer q))
  sent-Goes none_held ws m r e f =
      rw e (record { stands = refl; pending = omega (arith, f); less = omega (arith, f) })
  sent-Goes one_held ws m r e f =
      rw e (record { stands = refl; pending = omega (arith, f); less = omega (arith, f) })
  sent-Goes two_held ws m r e f = absurd cc

  last-Goes :
      (f : Phase) (ws : List (List ℕ)) (n : ℕ)
      → Stands a f one_held ws
      → n ≡ 0
      → Goes none_held f f ws (ws ++ []) (suc n) (n + 0)
  last-Goes idle ws n v e = record {
    stands = (refl, append-nil ws ∙ v.1);
    pending = omega arith;
    less = omega arith;
  }
  last-Goes (sent w) ws n v e = record {
    stands = (refl, append-nil ws ∙ v.1, v.2);
    pending = omega arith;
    less = omega arith;
  }
  last-Goes asked ws n v e = record {
    stands = (refl, append-nil ws ∙ v.1);
    pending = omega arith;
    less = omega arith;
  }
  last-Goes answered ws n v e = record {
    stands = append-nil ws ∙ v;
    pending = omega arith;
    less = omega (arith, ap (weight answered) (append-nil ws));
  }

  next-Goes :
      (f : Phase) (ws : List (List ℕ)) (n : ℕ)
      → Stands a f two_held ws
      → n ≡ 0
      → Goes one_held f f ws (ws ++ answer ∷ []) (suc n) (n + 1)
  next-Goes idle ws n v e = absurd cc
  next-Goes (sent w) ws n v e = absurd cc
  next-Goes asked ws n v e = absurd cc
  next-Goes answered ws n v e =
      rw v (record { stands = refl; pending = omega arith; less = omega arith })

  pub written-Goes :
      (q : Held) (f : Phase) (ws : List (List ℕ)) (n : ℕ)
      → Stands a f q ws
      → suc n ≡ under_way q
      → Goes (fewer q) f f ws (ws ++ next answer q) (suc n) (n + length (next answer q))
  written-Goes none_held f ws n v e = absurd (omega arith)
  written-Goes one_held f ws n v e = last-Goes f ws n v (omega arith)
  written-Goes two_held f ws n v e = next-Goes f ws n v (omega arith)

  -- A client that finds an answer finds one and no more.
  pub read-all :
      (q : Held) (b : List ℕ) (rest : List (List ℕ))
      → Stands a answered q (b ∷ rest)
      → (b ≡ answer) × (rest ≡ []) × (has_room q ≡ true)
  read-all none_held b rest v = (cc, cc, refl)
  read-all one_held b rest v = (cc, cc, refl)
  read-all two_held b rest v = absurd cc
