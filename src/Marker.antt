-- ===== src/Marker.antt =====
-- rust/fips-tcp/src/marker.rs: the send progress of a connection and the markers into it.
use fips_tcp.Common.{if◌then◌else◌, leb, not, ℕ, ◌+◌, ◌==◌}

pub record SendMarker : Type 0 where
  pub connection_id : ℕ
  pub connection_token : ℕ
  pub accepted_payload_bytes : ℕ

pub data MarkerStatus : Type 0 where
  pending acked connection_gone : MarkerStatus

pub record SendProgress : Type 0 where
  pub connection_token : ℕ
  pub accepted_payload_bytes : ℕ
  pub acked_payload_bytes : ℕ

-- The progress of a new connection at a token, which the caller draws from a process-wide counter
-- that never gives a value twice; the counter has no end here.
unfoldable pub new : ℕ → SendProgress
new token = record { connection_token = token; accepted_payload_bytes = 0; acked_payload_bytes = 0 }

-- The sums have no upper end here: the 128-bit counters, whose overflow panics, are unbounded.
unfoldable pub accept : SendProgress → ℕ → SendProgress
accept p bytes = record p { accepted_payload_bytes = p.accepted_payload_bytes + bytes }

unfoldable pub acknowledge : SendProgress → ℕ → SendProgress
acknowledge p bytes = record p { acked_payload_bytes = p.acked_payload_bytes + bytes }

unfoldable pub marker : SendProgress → ℕ → SendMarker
marker p connection_id = record {
  connection_id = connection_id;
  connection_token = p.connection_token;
  accepted_payload_bytes = p.accepted_payload_bytes;
}

unfoldable pub status : SendProgress → SendMarker → MarkerStatus
status p m =
    if not (m.connection_token == p.connection_token)
    then connection_gone
    else (if leb m.accepted_payload_bytes p.acked_payload_bytes then acked else pending)
