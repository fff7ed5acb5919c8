-- ===== src/Seq/Order.antt =====
-- The circular order of seq.rs: what the tests mean for numbers less than half the circle apart.
use fips_tcp.Common.{IsU32, arith, true, wrapping_add, ℕ, ◌+◌, ◌<◌, ◌^◌, ◌↔◌, ◌≡◌, ◌≤◌, ◌⊎◌}
use fips_tcp.Seq.{before, in_closed_interval, distance}

-- From any base, for two offsets less than half the circle apart, `before` is the order of the
-- offsets, also where one of the sums wraps.
pub before-wrapping_add :
    (base i j : ℕ)
    → i < j + 2 ^ 31
    → j < i + 2 ^ 31
    → (before (wrapping_add base i) (wrapping_add base j) ≡ true) ↔ (i < j)
unfolding before
before-wrapping_add base i j h k = ground arith

-- For a start and an end less than half the circle apart, a value lies in the closed interval
-- exactly when it is at most as far from the start as the end is.
pub in_closed_interval_iff :
    (value start end : ℕ)
    → IsU32 value
    → IsU32 start
    → IsU32 end
    → distance start end < 2 ^ 31
    → (in_closed_interval value start end ≡ true) ↔ (distance start value ≤ distance start end)
unfolding in_closed_interval before distance
in_closed_interval_iff value start end u v w h = ground arith

pub distance-wrapping_add :
    (start n : ℕ) → IsU32 start → IsU32 n → distance start (wrapping_add start n) ≡ n
unfolding distance
distance-wrapping_add start n h k = omega arith

pub wrapping_add-distance :
    (start end : ℕ) → IsU32 start → IsU32 end → wrapping_add start (distance start end) ≡ end
unfolding distance
wrapping_add-distance start end h k = omega arith

-- Two distinct numbers not half the circle apart: exactly one is before the other.
pub before_total :
    (a b : ℕ) → IsU32 a → IsU32 b → before a b ≡ before b a → (a ≡ b) ⊎ (distance a b ≡ 2 ^ 31)
unfolding before distance
before_total a b h k e = ground arith
