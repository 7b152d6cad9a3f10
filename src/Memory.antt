-- ===== src/Memory.antt =====
-- What a piece of C++ code does: it finishes, throws, or runs into undefined behaviour; and the
-- copies between byte arrays (`memcpy`, `memset`), which stay inside their arrays or fault.
pub mod Laws
pub mod Steady
use cppmulti_thread_server_b.Prelude.{
  ℕ, ◌+◌, ◌≤◌, ◌<◌, ◌≡◌, refl, List, ◌++◌, arith, leb, if◌then◌else◌, length, take, drop, replicate,
  length-append, length-take, length-drop, length-replicate, take-length, drop-length, le→leb,
  gt→leb, append-nil,
}

-- `throws` is a C++ exception, `fault` is undefined behaviour, such as an access outside an array.
-- `out_of_fuel` belongs to the model: its loops take the number of rounds that they may make.
pub data Outcome {ℓ} (A : Type ℓ) : Type ℓ where
  done : A → Outcome A
  throws fault out_of_fuel : Outcome A

infixl 5 ◌>>=◌
abbrev pub ◌>>=◌ {ℓ κ} : {A : Type ℓ} {B : Type κ} → Outcome A → (A → Outcome B) → Outcome B
done a >>= f = f a
throws >>= f = throws
fault >>= f = fault
out_of_fuel >>= f = out_of_fuel

-- The bytes [at, at + n) of an array.
pub read_bytes : ℕ → ℕ → List ℕ → Outcome (List ℕ)
read_bytes at n src = if leb (at + n) (length src) then done (take n (drop at src)) else fault

-- The array with `src` copied over it from index `at` on.
pub write_bytes : ℕ → List ℕ → List ℕ → Outcome (List ℕ)
write_bytes at src dst =
    if leb (at + length src) (length dst)
    then done (take at dst ++ (src ++ drop (at + length src) dst))
    else fault

pub zeros : ℕ → List ℕ
zeros n = replicate n 0

pub length-zeros : (n : ℕ) → length (zeros n) ≡ n
unfolding zeros
length-zeros n = length-replicate n 0
