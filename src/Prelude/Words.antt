-- ===== src/Prelude/Words.antt =====
-- The u32 and u64 arithmetic that the code uses.
use Prim.Native.Nat.{ℕ, ◌+◌, ◌%◌, min}
use mathlib.Core.Option.{Option, none, some}
use neon_hearth.Prelude.Tests.{ltb, if◌then◌else◌}

abbrev pub u32_max : ℕ
u32_max = 4294967295

-- `as u32`.
abbrev pub as_u32 : ℕ → ℕ
as_u32 n = n % 4294967296

-- `u32::saturating_add`.
abbrev pub saturating_add : ℕ → ℕ → ℕ
saturating_add a b = min (a + b) u32_max

abbrev pub u64_max : ℕ
u64_max = 18446744073709551615

-- `u64::checked_add`.
abbrev pub checked_add_u64 : ℕ → ℕ → Option ℕ
checked_add_u64 a b = if ltb u64_max (a + b) then none else some (a + b)

-- `u64::saturating_add`.
abbrev pub saturating_add_u64 : ℕ → ℕ → ℕ
saturating_add_u64 a b = min (a + b) u64_max

-- `u32::checked_add`.
abbrev pub checked_add_u32 : ℕ → ℕ → Option ℕ
checked_add_u32 a b = if ltb u32_max (a + b) then none else some (a + b)
