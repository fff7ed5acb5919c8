-- ===== src/Common/Words.antt =====
-- Machine words as native numbers: `u16`, `u32`, `u64` and a 64-bit `usize`.
use Prim.Native.Nat.{ℕ, ◌+◌, ◌-◌, ◌*◌, ◌%◌, ◌^◌, ◌≤◌, ◌<◌, min, max}

abbrev pub u8_max : ℕ
u8_max = 255

abbrev pub u16_max : ℕ
u16_max = 65535

abbrev pub u32_mod : ℕ
u32_mod = 2 ^ 32

abbrev pub u64_mod : ℕ
u64_mod = 2 ^ 64

abbrev pub u64_max : ℕ
u64_max = 2 ^ 64 - 1

-- `u32::wrapping_add`, `u32::wrapping_sub`, `as u32`
abbrev pub wrapping_add : ℕ → ℕ → ℕ
wrapping_add a b = (a + b) % u32_mod

abbrev pub wrapping_sub : ℕ → ℕ → ℕ
wrapping_sub a b = (a + u32_mod - b) % u32_mod

abbrev pub as_u32 : ℕ → ℕ
as_u32 n = n % u32_mod

-- `saturating_add` and `saturating_mul` of `u64` and `usize`; `saturating_sub` is `-` on ℕ.
abbrev pub sat_add : ℕ → ℕ → ℕ
sat_add a b = min (a + b) u64_max

abbrev pub sat_mul : ℕ → ℕ → ℕ
sat_mul a b = min (a * b) u64_max

-- `u8::saturating_add(1)`
abbrev pub sat_suc8 : ℕ → ℕ
sat_suc8 n = min (n + 1) u8_max

-- `Ord::clamp`
abbrev pub clamp : ℕ → ℕ → ℕ → ℕ
clamp x lo hi = min (max x lo) hi

abbrev pub IsU16 : ℕ → Type 0
IsU16 n = n ≤ u16_max

abbrev pub IsU32 : ℕ → Type 0
IsU32 n = n < u32_mod

abbrev pub IsByte : ℕ → Type 0
IsByte n = n ≤ u8_max
