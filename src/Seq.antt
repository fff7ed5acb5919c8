-- ===== src/Seq.antt =====
-- rust/fips-tcp/src/seq.rs: TCP's wrapping 32-bit byte sequence arithmetic.
pub mod Order
use fips_tcp.Common.{Bool, leb, not, wrapping_sub, ℕ, ◌&&◌, ◌==◌, ◌^◌, ◌||◌}

-- `(left.wrapping_sub(right) as i32) < 0`: the difference has its top bit set.
unfoldable pub before : ℕ → ℕ → Bool
before left right = leb (2 ^ 31) (wrapping_sub left right)

unfoldable pub after : ℕ → ℕ → Bool
unfolding before
after left right = before right left

unfoldable pub before_or_equal : ℕ → ℕ → Bool
unfolding before
before_or_equal left right = left == right || before left right

unfoldable pub in_closed_interval : ℕ → ℕ → ℕ → Bool
unfolding after
in_closed_interval value start end = not (before value start) && not (after value end)

unfoldable pub distance : ℕ → ℕ → ℕ
distance start end = wrapping_sub end start
