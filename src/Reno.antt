-- ===== src/Reno.antt =====
-- rust/fips-tcp/src/reno.rs: Reno congestion control.
pub mod Window
use fips_tcp.Common.{
  Bool, false, if◌then◌else◌, ltb, max, min, sat_add, sat_mul, true, u64_max, ℕ, ◌/◌, ◌==◌,
}

pub record Reno : Type 0 where
  pub cwnd : ℕ
  pub mss : ℕ
  pub ssthresh : ℕ
  pub in_fast_recovery : Bool
  pub in_rto_recovery : Bool

unfoldable pub new : ℕ → Reno
new mss = record {
  cwnd = sat_mul mss 2;
  mss = mss;
  ssthresh = u64_max;
  in_fast_recovery = false;
  in_rto_recovery = false;
}

unfoldable pub window : Reno → ℕ
window r = max r.cwnd r.mss

unfoldable pub set_mss : Reno → ℕ → Reno
set_mss r mss = let m = max mss 1 in record r { mss = m; cwnd = max r.cwnd m }

-- `checked_div(cwnd).unwrap_or(0)` is the division of ℕ, which is 0 at the divisor 0.
increment : Reno → ℕ → ℕ
increment r acked =
    if ltb r.cwnd r.ssthresh then min acked r.mss else max (sat_mul r.mss r.mss / r.cwnd) 1

unfoldable pub on_ack : Reno → ℕ → Reno
unfolding increment
on_ack r acked =
    if acked == 0
    then r
    else (if r.in_fast_recovery
        then record r { in_rto_recovery = false; in_fast_recovery = false; cwnd = r.ssthresh }
        else record r {
          in_rto_recovery = false;
          cwnd = max (sat_add r.cwnd (increment r acked)) r.mss;
        })

unfoldable pub on_duplicate_ack : Reno → Reno
on_duplicate_ack r = if r.in_fast_recovery then record r { cwnd = sat_add r.cwnd r.mss } else r

unfoldable pub on_fast_loss : Reno → ℕ → Reno
on_fast_loss r in_flight =
    if r.in_fast_recovery
    then r
    else (let threshold = max (in_flight / 2) (sat_mul r.mss 2) in
        record r {
          ssthresh = threshold;
          cwnd = sat_add threshold (sat_mul r.mss 3);
          in_fast_recovery = true;
        })

unfoldable pub on_timeout : Reno → ℕ → Reno
on_timeout r in_flight = record r {
  ssthresh = if r.in_rto_recovery then r.ssthresh else max (in_flight / 2) (sat_mul r.mss 2);
  in_rto_recovery = true;
  cwnd = r.mss;
  in_fast_recovery = false;
}
