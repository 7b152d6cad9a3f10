-- ===== src/Prelude/Int.antt =====
-- Signed integers, and the conversions between `short`, `unsigned short`, `int` and `size_t`.
use Prim.Native.Nat.{ℕ, ◌-◌, ◌%◌, ◌^◌, ◌<◌}
use mathlib.Core.Path.{◌≡◌}
use mathlib.Core.Bool.{Bool, false}
use native.Mathlib.Omega.{arith}
use cppmulti_thread_server_b.Prelude.Tests.{ltb, if◌then◌else◌}

-- `negsuc n` is -(n + 1).
pub data ℤ : Type 0 where
  pos : ℕ → ℤ
  negsuc : ℕ → ℤ

-- The `short` that a 16-bit pattern stands for.
abbrev pub to_short : ℕ → ℤ
to_short w =
    if ltb (w % 2 ^ 16) (2 ^ 15) then pos (w % 2 ^ 16) else negsuc (2 ^ 16 - w % 2 ^ 16 - 1)

-- The conversion to `unsigned short`.
abbrev pub to_u16 : ℤ → ℕ
to_u16 (pos n) = n % 2 ^ 16
to_u16 (negsuc n) = 2 ^ 16 - n % 2 ^ 16 - 1

-- The conversion of a short or an int to `size_t`, on a 64-bit target.
abbrev pub to_size : ℤ → ℕ
to_size (pos n) = n % 2 ^ 64
to_size (negsuc n) = 2 ^ 64 - n % 2 ^ 64 - 1

-- `a > k`, with `k` not negative.
abbrev pub exceeds : ℤ → ℕ → Bool
exceeds (pos n) k = ltb k n
exceeds (negsuc n) k = false

-- The values of a `short`.
abbrev pub IsShort : ℤ → Type 0
IsShort (pos n) = n < 2 ^ 15
IsShort (negsuc n) = n < 2 ^ 15

pub to_short-to_u16 : (z : ℤ) → IsShort z → to_short (to_u16 z) ≡ z
to_short-to_u16 (pos n) h = ground arith
to_short-to_u16 (negsuc n) h = ground arith

pub to_u16-lt : (z : ℤ) → to_u16 z < 2 ^ 16
to_u16-lt (pos n) = omega arith
to_u16-lt (negsuc n) = omega arith
