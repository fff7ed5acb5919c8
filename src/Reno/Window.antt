-- ===== src/Reno/Window.antt =====
-- The window of reno.rs: its floor, its ceiling and its growth.
use fips_tcp.Common.{arith, false, sat_mul, u64_max, ℕ, ◌+◌, ◌/◌, ◌≡◌, ◌≤◌}
use fips_tcp.Reno.{Reno, new, window, on_ack, on_duplicate_ack, on_fast_loss, on_timeout}

-- The window holds one segment at least, the slow-start threshold two (up to the ceiling of
-- `usize`), and no counter exceeds `usize`.
pub record IsValid (r : Reno) : Type 0 where
  pub mss_pos : 1 ≤ r.mss
  pub cwnd_floor : r.mss ≤ r.cwnd
  pub cwnd_ceiling : r.cwnd ≤ u64_max
  pub ssthresh_floor : sat_mul r.mss 2 ≤ r.ssthresh
  pub ssthresh_ceiling : r.ssthresh ≤ u64_max

-- What the stack does to the estimator once a connection is open.
pub data Event : Type 0 where
  acked : ℕ → Event
  duplicate : Event
  fast_loss : ℕ → Event
  timed_out : ℕ → Event

abbrev pub step : Reno → Event → Reno
step r (acked n) = on_ack r n
step r duplicate = on_duplicate_ack r
step r (fast_loss n) = on_fast_loss r n
step r (timed_out n) = on_timeout r n

abbrev pub in_flight : Event → ℕ
in_flight (acked n) = 0
in_flight duplicate = 0
in_flight (fast_loss n) = n
in_flight (timed_out n) = n

pub new-IsValid : (mss : ℕ) → 1 ≤ mss → mss ≤ u64_max → IsValid (new mss)
unfolding new
new-IsValid mss h k = ground arith

-- Every event of an open connection keeps the bounds of the congestion window and of the
-- slow-start threshold, when the flight is at most the largest `usize`.
pub step-IsValid : (r : Reno) (e : Event) → in_flight e ≤ u64_max → IsValid r → IsValid (step r e)
unfolding on_ack on_duplicate_ack on_fast_loss on_timeout
step-IsValid r (acked n) h v = ground arith
step-IsValid r duplicate h v = ground arith
step-IsValid r (fast_loss n) h v = ground arith
step-IsValid r (timed_out n) h v = ground arith

pub window-eq-cwnd : (r : Reno) → IsValid r → window r ≡ r.cwnd
unfolding window
window-eq-cwnd r v = ground arith

share-le-mss : (mss cwnd : ℕ) → 1 ≤ mss → mss ≤ cwnd → sat_mul mss mss / cwnd ≤ mss
share-le-mss mss cwnd h k = grind arith

-- Outside fast recovery an ACK never shrinks the congestion window, and grows it by one segment
-- at most.
pub on_ack-growth :
    (r : Reno) (n : ℕ)
    → IsValid r
    → r.in_fast_recovery ≡ false
    → (r.cwnd ≤ (on_ack r n).cwnd) × ((on_ack r n).cwnd ≤ r.cwnd + r.mss)
unfolding on_ack
on_ack-growth r n v e = ground (arith, share-le-mss r.mss r.cwnd)
