-- ===== src/Memory/Steady.antt =====
-- Operations that make no loop of the model, and so never run out of fuel.
use cppmulti_thread_server_b.Prelude.{ℕ, ◌+◌, List, Bool, true, false, leb, length, if◌then◌else◌}
use cppmulti_thread_server_b.Memory.{
  Outcome, done, throws, fault, out_of_fuel, ◌>>=◌, read_bytes, write_bytes,
}

abbrev pub IsSteady {ℓ} : {A : Type ℓ} → Outcome A → Type 0
IsSteady (done a) = Unit {0}
IsSteady throws = Unit {0}
IsSteady fault = Unit {0}
IsSteady out_of_fuel = ⊥

module _ {ℓ κ} {A : Type ℓ} {B : Type κ} where
  pub IsSteady-bind :
      (m : Outcome A) (f : A → Outcome B)
      → IsSteady m
      → ((a : A) → IsSteady (f a))
      → IsSteady (m >>= f)
  IsSteady-bind (done a) f s k = k a
  IsSteady-bind throws f s k = tt
  IsSteady-bind fault f s k = tt
  IsSteady-bind out_of_fuel f s k = s

IsSteady-if {ℓ} :
    {A : Type ℓ} (c : Bool) (x y : Outcome A)
    → IsSteady x
    → IsSteady y
    → IsSteady (if c then x else y)
IsSteady-if true x y s t = s
IsSteady-if false x y s t = t

pub read_bytes-IsSteady : (at n : ℕ) (src : List ℕ) → IsSteady (read_bytes at n src)
unfolding read_bytes
read_bytes-IsSteady at n src = IsSteady-if (leb (at + n) (length src)) _ _ tt tt

pub write_bytes-IsSteady : (at : ℕ) (src dst : List ℕ) → IsSteady (write_bytes at src dst)
unfolding write_bytes
write_bytes-IsSteady at src dst = IsSteady-if (leb (at + length src) (length dst)) _ _ tt tt
