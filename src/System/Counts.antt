-- ===== src/System/Counts.antt =====
-- How a change of one client moves sums over the clients.
use Prim.Native.String.{String}
use text.Mathlib.Text.{◌==◌ as str_eq}
use text.Mathlib.TextEquality.{eq_iff}
use native.Mathlib.Decide.{ℕ_discrete}
use cppmulti_thread_server_b.Prelude.{
  ℕ, ◌+◌, ◌*◌, ◌≡◌, ◌≢◌, refl, List, [], ◌∷◌, ◌++◌, true, false, if◌then◌else◌, length, arith,
}
use cppmulti_thread_server_b.Logic.{LogicNode}
use cppmulti_thread_server_b.System.{contains}

-- No uuid comes twice.
abbrev pub AreDistinct : List String → Type 0
AreDistinct [] = Unit {0}
AreDistinct (v ∷ vs) = (contains vs v ≡ false) × AreDistinct vs

abbrev pub sum : List String → (String → ℕ) → ℕ
sum [] m = 0
sum (v ∷ vs) m = m v + sum vs m

-- The messages of a session in the queue.
abbrev pub count : String → List LogicNode → ℕ
count u [] = 0
count u (n ∷ ns) = (if str_eq n.session u then 1 else 0) + count u ns

pub count-append :
    (u : String) (xs ys : List LogicNode) → count u (xs ++ ys) ≡ count u xs + count u ys
count-append u [] ys = omega arith
count-append u (n ∷ xs) ys = omega (arith, count-append u xs ys)

pub sum-same :
    (vs : List String) (m m' : String → ℕ) (u : String)
    → ((v : String) → str_eq u v ≡ false → m' v ≡ m v)
    → contains vs u ≡ false
    → sum vs m' ≡ sum vs m
sum-same [] m m' u k c = refl
sum-same (v ∷ vs) m m' u k c = grind (arith, eq_iff u v, eq_iff v u, k v, sum-same vs m m' u k)

pub sum-change :
    (vs : List String) (m m' : String → ℕ) (u : String)
    → ((v : String) → str_eq u v ≡ false → m' v ≡ m v)
    → AreDistinct vs
    → contains vs u ≡ true
    → sum vs m' + m u ≡ sum vs m + m' u
sum-change [] m m' u k d c = cc
sum-change (v ∷ vs) m m' u k d c =
    grind (arith, eq_iff u v, eq_iff v u, k v, sum-same vs m m' u k, sum-change vs m m' u k d.1)

pub sum-same_value :
    (vs : List String) (m : String → ℕ) (c : ℕ)
    → ((v : String) → m v ≡ c)
    → sum vs m ≡ length vs * c
sum-same_value [] m c k = omega arith
sum-same_value (v ∷ vs) m c k = grind (arith, k v, sum-same_value vs m c k)

pub sum-some :
    (vs : List String) (m : String → ℕ)
    → sum vs m ≢ 0
    → (u : String) × (contains vs u ≡ true) × (m u ≢ 0)
sum-some [] m k = absurd (k refl)
sum-some (v ∷ vs) m k = elim (ℕ_discrete (m v) 0) [
  | no h ↦ (v, ground (arith, eq_iff v v), h)
  | yes e ↦
      let (u, c, h) = sum-some vs m (λ z. k (omega (arith, z, e))) in (u, ground (arith, c), h)
]

pub sum-none :
    (vs : List String) (m : String → ℕ) (u : String) → sum vs m ≡ 0 → contains vs u ≡ true → m u ≡ 0
sum-none [] m u k c = cc
sum-none (v ∷ vs) m u k c = grind (arith, eq_iff v u, sum-none vs m u)
