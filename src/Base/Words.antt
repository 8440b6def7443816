-- ===== src/Base/Words.antt =====
-- The machine integers of the program: saturating steps on `u32`, and `Duration` in nanoseconds.
use Prim.Native.Nat.{ℕ, ◌+◌, ◌-◌, ◌*◌, ◌^◌, min}

abbrev pub u32_max : ℕ
u32_max = 2 ^ 32 - 1

-- `u32::saturating_add(1)`.
abbrev pub saturating_suc : ℕ → ℕ
saturating_suc n = min (n + 1) u32_max

-- `Duration::MAX`, that is `u64::MAX` seconds and 999_999_999 nanoseconds.
abbrev pub duration_max : ℕ
duration_max = 2 ^ 64 * 1_000_000_000 - 1

-- `Duration::saturating_mul(2)`.
abbrev pub saturating_double : ℕ → ℕ
saturating_double d = min (d * 2) duration_max

-- `Duration::from_secs`.
abbrev pub from_secs : ℕ → ℕ
from_secs s = s * 1_000_000_000
