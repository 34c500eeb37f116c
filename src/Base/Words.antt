-- ===== src/Base/Words.antt =====
-- Fixed-width integers: an `int` is the number of its bit pattern, below 2 ^ 32.
use Prim.Native.Nat.{ℕ, ◌-◌, ◌/◌, ◌%◌}
use mathlib.Core.Bool.{Bool, ◌&&◌}
use cranesps.Base.Tests.{ltb, leb, if◌then◌else◌}

-- The difference a - b of two 64-bit numbers, divided by d towards zero, and narrowed to an `int`.
abbrev pub narrow_diff : ℕ → ℕ → ℕ → ℕ
narrow_diff a b d =
    if leb b a
    then (a - b) / d % 4294967296
    else (4294967296 - (b - a) / d % 4294967296) % 4294967296

-- x > c, for the `int` x and a literal c.
abbrev pub int_gt : ℕ → ℕ → Bool
int_gt x c = ltb c x && ltb x 2147483648
