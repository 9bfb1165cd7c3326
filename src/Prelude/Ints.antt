-- ===== src/Prelude/Ints.antt =====
-- Go's `int64` and, on a 64-bit platform, `int`: a value is its two's complement bit pattern, a
-- number below 2 ^ 64. The patterns from 2 ^ 63 up stand for the negative numbers.
use Prim.Native.Nat.{ℕ, ◌+◌, ◌-◌, ◌%◌, ◌^◌, ◌≤◌, ◌<◌}
use mathlib.Core.Path.{◌≡◌}
use mathlib.Core.Bool.{Bool, not}
use native.Mathlib.Omega.{arith}
use estoria.Prelude.Tests.{ltb, leb, if◌then◌else◌}

abbrev pub Int64 : Type 0
Int64 = ℕ

-- The number of bit patterns, and the first one that is negative.
abbrev pub int64_mod : ℕ
int64_mod = 2 ^ 64

abbrev pub int64_neg : ℕ
int64_neg = 2 ^ 63

-- math.MaxInt64
abbrev pub max_int64 : Int64
max_int64 = 2 ^ 63 - 1

unfoldable pub add64 : Int64 → Int64 → Int64
add64 a b = (a + b) % int64_mod

unfoldable pub sub64 : Int64 → Int64 → Int64
sub64 a b = (a + int64_mod - b) % int64_mod

-- The order of the signed values.
unfoldable pub lt64 : Int64 → Int64 → Bool
lt64 a b = ltb ((a + int64_neg) % int64_mod) ((b + int64_neg) % int64_mod)

unfoldable pub le64 : Int64 → Int64 → Bool
unfolding lt64
le64 a b = not (lt64 b a)

unfoldable pub max64 : Int64 → Int64 → Int64
unfolding lt64
max64 a b = if lt64 a b then b else a

unfoldable pub min64 : Int64 → Int64 → Int64
unfolding lt64
min64 a b = if lt64 b a then b else a

pub add64_lem : (a b : Int64) → a + b < int64_mod → add64 a b ≡ a + b
unfolding add64
add64_lem a b h = omega arith

pub sub64_lem : (a b : Int64) → a < int64_mod → b ≤ a → sub64 a b ≡ a - b
unfolding sub64
sub64_lem a b h k = omega arith

-- On values that are not negative the order is that of the numbers.
pub lt64_lem : (a b : Int64) → a < int64_neg → b < int64_neg → lt64 a b ≡ ltb a b
unfolding lt64
lt64_lem a b h k = ground arith

pub le64_lem : (a b : Int64) → a < int64_neg → b < int64_neg → le64 a b ≡ leb a b
unfolding le64
le64_lem a b h k = ground arith

pub max64-eq :
    (a b : Int64) → a < int64_neg → b < int64_neg → max64 a b ≡ (if ltb a b then b else a)
unfolding max64
max64-eq a b h k = ground arith
