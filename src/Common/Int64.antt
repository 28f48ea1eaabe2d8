-- ===== src/Common/Int64.antt =====
-- Go's int and int64 (64 bits on the platform that is built for), as two's complement patterns.
use Prim.Native.Nat.{ℕ, ◌+◌, ◌%◌, ◌<◌}
use mathlib.Core.Path.{◌≡◌}
use mathlib.Core.Bool.{Bool}
use native.Mathlib.Omega.{arith}
use lightroom_sync.Common.Test.{ltb, leb}

abbrev pub two63 : ℕ
two63 = 9223372036854775808

abbrev pub two64 : ℕ
two64 = 18446744073709551616

-- `a + b`, wrapping.
abbrev pub add64 : ℕ → ℕ → ℕ
add64 a b = (a + b) % two64

-- The pattern of -1.
abbrev pub minus_one64 : ℕ
minus_one64 = 18446744073709551615

-- Signed `a < b` and `a <= b`: adding 2^63 takes the signed order to the unsigned one.
abbrev pub lt64 : ℕ → ℕ → Bool
lt64 a b = ltb ((a + two63) % two64) ((b + two63) % two64)

abbrev pub le64 : ℕ → ℕ → Bool
le64 a b = leb ((a + two63) % two64) ((b + two63) % two64)

-- On patterns of non-negative numbers both are the plain order.
pub le64_small : (a b : ℕ) → a < two63 → b < two63 → le64 a b ≡ leb a b
le64_small a b ha hb = ground arith

pub lt64_small : (a b : ℕ) → a < two63 → b < two63 → lt64 a b ≡ ltb a b
lt64_small a b ha hb = ground arith
