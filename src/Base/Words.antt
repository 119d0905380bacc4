-- ===== src/Base/Words.antt =====
-- Unsigned machine words as numbers with a bound.
use Prim.Native.Nat.{ℕ, ◌+◌, ◌-◌, ◌*◌, ◌%◌, ◌^◌, ◌≤◌, ◌<◌, min}
use native.Mathlib.Omega.{arith}

abbrev pub u8_max : ℕ
u8_max = 2 ^ 8 - 1

abbrev pub u16_max : ℕ
u16_max = 2 ^ 16 - 1

abbrev pub u64_max : ℕ
u64_max = 2 ^ 64 - 1

-- `u64::saturating_add`
abbrev pub sat_add : ℕ → ℕ → ℕ
sat_add a b = min (a + b) u64_max

-- `u64::saturating_mul`
abbrev pub sat_mul : ℕ → ℕ → ℕ
sat_mul a b = min (a * b) u64_max

-- `u64::wrapping_add(1)`
abbrev pub wrapping_succ : ℕ → ℕ
wrapping_succ n = (n + 1) % 2 ^ 64

pub sat_add_mono : (a b c d : ℕ) → a ≤ c → b ≤ d → sat_add a b ≤ sat_add c d
sat_add_mono a b c d h k = omega arith

pub wrapping_succ-lt : (n : ℕ) → n < u64_max → n < wrapping_succ n
wrapping_succ-lt n h = omega arith
