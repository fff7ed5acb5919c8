-- ===== src/Rtt/Bounds.antt =====
-- The range of the timeout of rtt.rs, and its arithmetic.
use fips_tcp.Common.{arith, min, refl, suc, u64_max, zero, ℕ, ◌*◌, ◌+◌, ◌<◌, ◌^◌, ◌≡◌, ◌≤◌}
use native.Mathlib.Decide.{dec_le}
use native.Mathlib.Nat.{pow-suc}
use fips_tcp.Rtt.{RttEstimator, new, on_retransmit, sample, on_timeout, abs_diff}

-- The timeout is in the configured range; the averages are below a bound on the samples.
pub record InRange (bound : ℕ) (r : RttEstimator) : Type 0 where
  pub lower : r.min_rto_ms ≤ r.rto_ms
  pub upper : r.rto_ms ≤ r.max_rto_ms
  pub ceiling : r.max_rto_ms ≤ u64_max
  pub few : r.consecutive_rtos < 3
  pub srtt : r.srtt_ms ≤ bound
  pub rttvar : r.rttvar_ms ≤ bound

pub data Event : Type 0 where
  sampled : ℕ → Event
  retransmitted : ℕ → Event
  timed_out : Event

abbrev pub step : RttEstimator → Event → RttEstimator
step r (sampled ms) = sample r ms
step r (retransmitted end) = on_retransmit r end
step r timed_out = on_timeout r

abbrev pub sample_ms : Event → ℕ
sample_ms (sampled ms) = ms
sample_ms (retransmitted end) = 1
sample_ms timed_out = 1

pub new-InRange :
    (bound initial lo hi : ℕ) → lo ≤ hi → hi ≤ u64_max → InRange bound (new initial lo hi)
unfolding new
new-InRange bound initial lo hi h k = ground arith

-- Every sample of at most the bound, retransmission or timeout keeps the timeout between the
-- configured bounds, and the averages at or below any bound from 1 to 2 ^ 60.
pub step-InRange :
    (bound : ℕ) (r : RttEstimator) (e : Event)
    → 1 ≤ bound
    → bound ≤ 2 ^ 60
    → sample_ms e ≤ bound
    → InRange bound r
    → InRange bound (step r e)
unfolding sample on_retransmit on_timeout
step-InRange bound r (sampled ms) p q h v = ground arith
step-InRange bound r (retransmitted end) p q h v = ground arith
step-InRange bound r timed_out p q h v = ground arith

-- With averages and samples at most 2 ^ 60 ms, no sum of the smoothing wraps.
pub smoothing_no_wrap :
    (srtt rttvar ms : ℕ)
    → srtt ≤ 2 ^ 60
    → rttvar ≤ 2 ^ 60
    → ms ≤ 2 ^ 60
    → (rttvar * 3 + abs_diff srtt ms < 2 ^ 64) × (srtt * 7 + ms < 2 ^ 64)
smoothing_no_wrap srtt rttvar ms h k l = omega arith

abbrev pub timeouts : ℕ → RttEstimator → RttEstimator
timeouts zero r = r
timeouts (suc n) r = timeouts n (on_timeout r)

pow_two_pos : (n : ℕ) → 1 ≤ 2 ^ n
pow_two_pos zero = omega arith
pow_two_pos (suc n) = omega (arith, pow-suc 2 n, pow_two_pos n)

mul_le : (m a p : ℕ) → 1 ≤ p → m ≤ a → m ≤ a * p
mul_le m a p h k = grind arith

min_double : (a p m q : ℕ) → 1 ≤ p → m ≤ q → min (min (min (a * 2) q) m * p) m ≡ min (a * (p * 2)) m
min_double a p m q h k = elim (dec_le (a * 2) m) [
  | yes small ↦ let e : min (min (a * 2) q) m ≡ a * 2 = omega arith in rw e (omega arith)
  | no big ↦
      let e : min (min (a * 2) q) m ≡ m = omega arith in
      rw e (omega (arith, mul_le m m p h (omega arith), mul_le m (a * 2) p h (omega arith)))
]

max_rto_ms-on_timeout : (r : RttEstimator) → (on_timeout r).max_rto_ms ≡ r.max_rto_ms
unfolding on_timeout
max_rto_ms-on_timeout r = refl

rto_ms-on_timeout :
    (r : RttEstimator) → (on_timeout r).rto_ms ≡ min (min (r.rto_ms * 2) u64_max) r.max_rto_ms
unfolding on_timeout
rto_ms-on_timeout r = refl

-- After n timeouts in a row the timeout is 2 ^ n times what it was, or the maximum if that is
-- less, when it was at most the maximum, a `u64`.
pub rto_ms-timeouts :
    (n : ℕ) (r : RttEstimator)
    → r.rto_ms ≤ r.max_rto_ms
    → r.max_rto_ms ≤ u64_max
    → (timeouts n r).rto_ms ≡ min (r.rto_ms * 2 ^ n) r.max_rto_ms
rto_ms-timeouts zero r h k = omega arith
rto_ms-timeouts (suc n) r h k =
    rw
      (
        rto_ms-timeouts n (on_timeout r)
            (omega (arith, rto_ms-on_timeout r, max_rto_ms-on_timeout r))
            (omega (arith, max_rto_ms-on_timeout r)),
        rto_ms-on_timeout,
        max_rto_ms-on_timeout,
        pow-suc,
      )
      (min_double r.rto_ms (2 ^ n) r.max_rto_ms u64_max (pow_two_pos n) k)
