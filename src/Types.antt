-- ===== src/Types.antt =====
-- rust/fips-tcp/src/types.rs: the configuration, the connection states and the errors.
pub mod Valid
use fips_tcp.Common.{
  Bool, Result, ltb, ok, refuse_if, u16_max, u64_max, ℕ, ◌*◌, ◌==◌, ◌>>=◌, ◌>>◌, ◌||◌,
}
use fips_tcp.Wire.{WireError}

pub record Config : Type 0 where
  pub mss : ℕ
  pub receive_buffer : ℕ
  pub send_buffer : ℕ
  pub max_connections : ℕ
  pub max_connections_per_peer : ℕ
  pub max_reassembly_segments : ℕ
  pub initial_rto_ms : ℕ
  pub min_rto_ms : ℕ
  pub max_rto_ms : ℕ
  pub max_retransmissions : ℕ
  pub fin_wait_2_ms : ℕ
  pub time_wait_ms : ℕ

-- `Config::default`
abbrev pub default_config : Config
default_config = record {
  mss = 1024;
  receive_buffer = 65535;
  send_buffer = 1024 * 1024;
  max_connections = 1024;
  max_connections_per_peer = u64_max;
  max_reassembly_segments = 128;
  initial_rto_ms = 1000;
  min_rto_ms = 200;
  max_rto_ms = 60000;
  max_retransmissions = 8;
  fin_wait_2_ms = 60000;
  time_wait_ms = 30000;
}

abbrev pub ConnectionId : Type 0
ConnectionId = ℕ

pub data State : Type 0 where
  syn_sent syn_received established fin_wait_1 fin_wait_2 close_wait closing last_ack time_wait :
      State

-- The text of `InvalidConfig` is a constructor for each message.
pub data ConfigFault : Type 0 where
  zero_mss bad_receive_buffer zero_send_buffer zero_limit bad_timeouts zero_fin_wait_2 : ConfigFault
  no_ordinary_capacity : ConfigFault

pub data StackError : Type 0 where
  wire : WireError → StackError
  invalid_config : ConfigFault → StackError
  zero_port : StackError
  already_listening : ℕ → StackError
  connection_exists : StackError
  connection_limit : StackError
  no_ephemeral_port : StackError
  unknown_connection : StackError
  invalid_state : State → StackError

unfoldable pub validate : Config → Result StackError (Unit {0})
validate c = do
  refuse_if (c.mss == 0) (invalid_config zero_mss)
  refuse_if (c.receive_buffer == 0 || ltb u16_max c.receive_buffer)
      (invalid_config bad_receive_buffer)
  refuse_if (c.send_buffer == 0) (invalid_config zero_send_buffer)
  refuse_if
      (c.max_connections == 0
        || (c.max_connections_per_peer == 0 || c.max_reassembly_segments == 0))
      (invalid_config zero_limit)
  refuse_if
      (c.min_rto_ms == 0
        || (ltb c.initial_rto_ms c.min_rto_ms || ltb c.max_rto_ms c.initial_rto_ms))
      (invalid_config bad_timeouts)
  refuse_if (c.fin_wait_2_ms == 0) (invalid_config zero_fin_wait_2)
  ok tt

abbrev pub state_index : State → ℕ
state_index syn_sent = 0
state_index syn_received = 1
state_index established = 2
state_index fin_wait_1 = 3
state_index fin_wait_2 = 4
state_index close_wait = 5
state_index closing = 6
state_index last_ack = 7
state_index time_wait = 8

-- The derived `PartialEq` of the states.
abbrev pub state_eq : State → State → Bool
state_eq a b = state_index a == state_index b
