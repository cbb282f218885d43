-- ===== src/Base/Word.antt =====
-- Machine words. An `int` is its bit pattern, a number below 2 ^ 32: -1 is 2 ^ 32 - 1.
use Prim.Native.Nat.{ℕ, ◌-◌, ◌%◌, ◌^◌}
use mathlib.Core.Bool.{Bool, ◌&&◌}
use empower_enb_agent.Base.Tests.{ltb}

abbrev pub u32 : ℕ → ℕ
u32 n = n % 2 ^ 32

-- The `int` -1.
abbrev pub minus_one : ℕ
minus_one = 2 ^ 32 - 1

-- `x > 0` for an `int`.
abbrev pub is_positive : ℕ → Bool
is_positive x = ltb 0 x && ltb x (2 ^ 31)

-- `x < 0` for an `int`.
abbrev pub is_negative : ℕ → Bool
is_negative x = ltb (2 ^ 31 - 1) x
