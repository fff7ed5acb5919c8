-- ===== src/Examples/Tables.antt =====
-- Runs at concrete inputs of the theorems about the stack and its configuration.
use fips_tcp.Common.{List, [], arith, none, ok, refl, ℕ, ◌↔◌, ◌≡◌}
use fips_tcp.Types.{default_config, validate}
use fips_tcp.Types.Valid.{validate_iff, InBounds}
use fips_tcp.Wire.{encode}
use fips_tcp.Segments.{SegmentHeader, build_segment}
use fips_tcp.Stack.{Stack}
use fips_tcp.Stack.Table.{nat_eq}
use fips_tcp.Stack.Open
use fips_tcp.Stack.Opening.{Opens, connect-Opens}
use fips_tcp.Stack.Encodes.{encode-build_segment}
use fips_tcp.Stack.History
use fips_tcp.Stack.Limits.{InLimit}
use fips_tcp.Stack.Limits.Calls.{step-InLimit}
use fips_tcp.Stack.Core
use fips_tcp.Stack.Ports.{Finds, IsEphemeral, allocate_ephemeral_port-Finds}
use fips_tcp.Stack.Calls as StackCalls
use fips_tcp.Stack.Aborts.{Clears, abort_peer-Clears}

validate_iff_example : (validate default_config ≡ ok tt) ↔ InBounds default_config
validate_iff_example = validate_iff default_config

abbrev syn_header : SegmentHeader
syn_header = record {
  local_port = 49152;
  remote_port = 9;
  seq = 100;
  ack = 0;
  window = 65535;
  mss = 1024;
  flags = 2;
}

encode-build_segment_example : (bytes : List ℕ) × (encode (build_segment syn_header []) ≡ ok bytes)
encode-build_segment_example = encode-build_segment syn_header [] (omega arith) (omega arith)

abbrev idle : Stack ℕ
idle = record {
  config = default_config;
  reservation = none;
  listeners = [];
  accepts = [];
  connections = [];
  lookup = [];
  outbound = [];
  next_connection_id = 1;
  next_ephemeral_port = 65535;
  isn_state = 7;
  next_token = 1;
}

connect-Opens_example : Opens idle (Open.connect 8 9 0 idle)
connect-Opens_example = connect-Opens 8 9 0 idle

-- A stack that allows one connection, and has none.
abbrev single : Stack ℕ
single = record idle { config = record default_config { max_connections = 1 } }

step-InLimit_example : InLimit 1 (History.step (History.connects 8 9 0) single).0
step-InLimit_example = step-InLimit 1 (History.connects 8 9 0) single (refl, omega arith)

allocate_ephemeral_port-Finds_example :
    Finds IsEphemeral idle 8 9 (Core.allocate_ephemeral_port idle 8 9)
allocate_ephemeral_port-Finds_example =
    allocate_ephemeral_port-Finds idle 8 9 (omega arith, omega arith)

-- A stack with one connection.
abbrev busy : Stack ℕ
busy = (Open.connect 8 9 0 idle).0

abort_peer-Clears_example : Clears 8 (StackCalls.abort_peer 8 busy)
abort_peer-Clears_example = abort_peer-Clears 8 busy
