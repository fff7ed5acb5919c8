-- ===== src/Rtt.antt =====
-- rust/fips-tcp/src/rtt.rs: the retransmission timeout from round-trip samples.
pub mod Bounds
use fips_tcp.Common.{
  Bool, Option, clamp, false, if◌then◌else◌, leb, max, min, none, sat_add, sat_mul, sat_suc8, some,
  true, u64_mod, ℕ, ◌%◌, ◌*◌, ◌+◌, ◌-◌, ◌/◌,
}
use fips_tcp.Seq.{after}

pub record RttEstimator : Type 0 where
  pub have_measurement : Bool
  pub srtt_ms : ℕ
  pub rttvar_ms : ℕ
  pub rto_ms : ℕ
  pub min_rto_ms : ℕ
  pub max_rto_ms : ℕ
  pub consecutive_rtos : ℕ
  pub sample_after : Option ℕ

unfoldable pub new : ℕ → ℕ → ℕ → RttEstimator
new initial_rto_ms min_rto_ms max_rto_ms = record {
  have_measurement = false;
  srtt_ms = 0;
  rttvar_ms = 0;
  rto_ms = clamp initial_rto_ms min_rto_ms max_rto_ms;
  min_rto_ms = min_rto_ms;
  max_rto_ms = max_rto_ms;
  consecutive_rtos = 0;
  sample_after = none;
}

abbrev pub timeout_ms : RttEstimator → ℕ
timeout_ms r = r.rto_ms

unfoldable pub can_sample : RttEstimator → ℕ → Bool
can_sample r end_seq = elim r.sample_after [ none ↦ true | some end ↦ after end_seq end ]

unfoldable pub on_retransmit : RttEstimator → ℕ → RttEstimator
on_retransmit r end_seq = record r { sample_after = some end_seq }

-- `u64::abs_diff`; `div_ceil(n)` is `(x + (n - 1)) / n`.
abbrev pub abs_diff : ℕ → ℕ → ℕ
abs_diff a b = (a - b) + (b - a)

-- The unchecked `u64` sums and products of the smoothing wrap.
abbrev smooth_var : ℕ → ℕ → ℕ → ℕ
smooth_var rttvar srtt sample = ((rttvar * 3 + abs_diff srtt sample) % u64_mod + 3) / 4

abbrev smooth_rtt : ℕ → ℕ → ℕ
smooth_rtt srtt sample = ((srtt * 7 + sample) % u64_mod + 7) / 8

unfoldable pub sample : RttEstimator → ℕ → RttEstimator
sample r raw =
    let sample_ms = max raw 1 in
    let rttvar =
      if r.have_measurement then smooth_var r.rttvar_ms r.srtt_ms sample_ms else sample_ms / 2 in
    let srtt = if r.have_measurement then smooth_rtt r.srtt_ms sample_ms else sample_ms in
    record r {
      have_measurement = true;
      srtt_ms = srtt;
      rttvar_ms = rttvar;
      rto_ms = clamp (sat_add srtt (max 5 (sat_mul rttvar 4))) r.min_rto_ms r.max_rto_ms;
      consecutive_rtos = 0;
      sample_after = none;
    }

unfoldable pub on_timeout : RttEstimator → RttEstimator
on_timeout r =
    let timeouts = sat_suc8 r.consecutive_rtos in
    let third = leb 3 timeouts in
    record r {
      rto_ms = min (sat_mul r.rto_ms 2) r.max_rto_ms;
      have_measurement = if third then false else r.have_measurement;
      consecutive_rtos = if third then 0 else timeouts;
    }
