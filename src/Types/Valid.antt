-- ===== src/Types/Valid.antt =====
-- What `Config::validate` accepts.
use fips_tcp.Common.{arith, ok, u16_max, ◌↔◌, ◌≡◌, ◌≤◌}
use fips_tcp.Types.{Config, validate}

-- The bounds of a configuration.
pub record InBounds (c : Config) : Type 0 where
  pub mss : 1 ≤ c.mss
  pub receive_buffer : (1 ≤ c.receive_buffer) × (c.receive_buffer ≤ u16_max)
  pub send_buffer : 1 ≤ c.send_buffer
  pub max_connections : 1 ≤ c.max_connections
  pub max_connections_per_peer : 1 ≤ c.max_connections_per_peer
  pub max_reassembly_segments : 1 ≤ c.max_reassembly_segments
  pub min_rto_ms : 1 ≤ c.min_rto_ms
  pub initial_rto_ms : (c.min_rto_ms ≤ c.initial_rto_ms) × (c.initial_rto_ms ≤ c.max_rto_ms)
  pub fin_wait_2_ms : 1 ≤ c.fin_wait_2_ms

pub validate-InBounds : (c : Config) → validate c ≡ ok tt → InBounds c
unfolding validate
validate-InBounds c h = record {
  mss = ground (arith, h);
  receive_buffer = ground (arith, h);
  send_buffer = ground (arith, h);
  max_connections = ground (arith, h);
  max_connections_per_peer = ground (arith, h);
  max_reassembly_segments = ground (arith, h);
  min_rto_ms = ground (arith, h);
  initial_rto_ms = ground (arith, h);
  fin_wait_2_ms = ground (arith, h);
}

InBounds-validate : (c : Config) → InBounds c → validate c ≡ ok tt
unfolding validate
InBounds-validate c b = ground (
  arith, b.mss, b.receive_buffer, b.send_buffer, b.max_connections, b.max_connections_per_peer,
  b.max_reassembly_segments, b.min_rto_ms, b.initial_rto_ms, b.fin_wait_2_ms,
)

-- `validate` accepts a configuration exactly when each size and limit is at least 1, the receive
-- buffer is at most the largest `u16`, and the timeouts are in order from 1 on.
pub validate_iff : (c : Config) → (validate c ≡ ok tt) ↔ InBounds c
validate_iff c = (validate-InBounds c, InBounds-validate c)
