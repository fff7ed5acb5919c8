-- ===== src/Driver/Execute.antt =====
-- rust/interop-driver/src/main.rs: `execute`, the effect and the answer of each command.
use fips_tcp.Common.{
  Eq, List, Option, Result, [], err, if◌then◌else◌, none, ok, some, u64_max, ℕ, ◌+◌, ◌==◌,
}
use fips_tcp.Driver.{
  connect, input, poll, accept, write, read, close, state, Command, Driver, Fault, Settings, Value,
  codes, auto_connect, error, listen, marker_status, null, number, of_stack, panics, reserve,
  string, unknown_marker, write_with_marker, written, configure,
}
use fips_tcp.Driver.Hex.{decode_hex, encode_hex}
use fips_tcp.Stack.{Call, panic, stack}
use fips_tcp.Stack.Table.{nat_eq, get, insert}
use fips_tcp.Stack.Core.{mem, set_connection_reservation}
use fips_tcp.Stack.Open
use fips_tcp.Stack.Calls
use fips_tcp.Stack.Input
use fips_tcp.Marker.{MarkerStatus, SendMarker, acked, pending, connection_gone}
use fips_tcp.Wire.{value_or}
use fips_tcp.Types.{
  Config, State, default_config, syn_sent, syn_received, established, fin_wait_1, fin_wait_2,
  close_wait, closing, last_ack, time_wait,
}

unfoldable pub state_name : State → List ℕ
state_name syn_sent = codes "syn-sent"
state_name syn_received = codes "syn-received"
state_name established = codes "established"
state_name fin_wait_1 = codes "fin-wait-1"
state_name fin_wait_2 = codes "fin-wait-2"
state_name close_wait = codes "close-wait"
state_name closing = codes "closing"
state_name last_ack = codes "last-ack"
state_name time_wait = codes "time-wait"

unfoldable pub status_name : MarkerStatus → List ℕ
status_name pending = codes "pending"
status_name acked = codes "acked"
status_name connection_gone = codes "connection-gone"

abbrev pub default_seed : ℕ
default_seed = 6172766256388142950

-- The configuration that `Configure` asks for.
unfoldable pub configuration : Settings → Config
configuration x = record default_config {
  max_connections = x.max_connections;
  max_connections_per_peer = x.max_connections_per_peer;
  max_retransmissions = value_or x.max_retransmissions default_config.max_retransmissions;
  initial_rto_ms = value_or x.initial_rto_ms default_config.initial_rto_ms;
  min_rto_ms = value_or x.min_rto_ms default_config.min_rto_ms;
  max_rto_ms = value_or x.max_rto_ms default_config.max_rto_ms;
}

abbrev pub number_or_null : Option ℕ → Value
number_or_null none = null
number_or_null (some n) = number n

abbrev pub name_or_null : Option State → Value
name_or_null none = null
name_or_null (some st) = string (state_name st)

module _ {P : Type 0} where
  -- The result of a call of the stack, with its value as JSON.
  abbrev pub answer :
      {A : Type 0} → Driver P → Call P A → (A → Value) → Driver P × Result Fault Value
  answer d (s, ok a) f = (record d { stack = s }, ok (f a))
  answer d (s, err (stack e)) f = (record d { stack = s }, err (error (of_stack e)))
  answer d (s, err panic) f = (record d { stack = s }, err panics)

  -- `&decode_hex(&bytes)?` as an argument of a call.
  abbrev pub with_bytes :
      Driver P
      → Result Fault (List ℕ)
      → (List ℕ → Driver P × Result Fault Value)
      → Driver P × Result Fault Value
  with_bytes d (ok bytes) f = f bytes
  with_bytes d (err e) f = (d, err e)

  unfoldable pub reconfigure : Settings → Driver P → Driver P × Result Fault Value
  reconfigure settings d =
      elim (Open.new (configuration settings) (value_or settings.isn_seed default_seed)
        d.stack.next_token) [
          | none ↦ (d, err panics)
          | some s ↦ (record { stack = s; markers = []; next_marker = 1 }, ok null)
        ]

  -- The marker of a write enters the table under the next handle; running out of handles panics.
  unfoldable pub keep_marker : Driver P → Call P (ℕ × SendMarker) → Driver P × Result Fault Value
  keep_marker d (s, err (stack e)) = (record d { stack = s }, err (error (of_stack e)))
  keep_marker d (s, err panic) = (record d { stack = s }, err panics)
  keep_marker d (s, ok (accepted, marker)) =
      if d.next_marker == u64_max then (record d { stack = s }, err panics) else (
        record {
          stack = s;
          markers = insert d.next_marker marker d.markers;
          next_marker = d.next_marker + 1;
        },
        ok (written accepted d.next_marker),
      )

  unfoldable pub ask_marker : ℕ → Driver P → Result Fault Value
  ask_marker handle d = elim (get handle d.markers) [
    | none ↦ err (error unknown_marker)
    | some m ↦ ok (string (status_name (Calls.marker_status m d.stack)))
  ]

module _ {P : Type 0} ⦃e : Eq P⦄ where
  unfoldable pub execute : Command P → Driver P → Driver P × Result Fault Value
  execute (configure settings) d = reconfigure settings d
  execute (reserve slots eligible) d =
      answer d (set_connection_reservation d.stack slots (λ peer. mem peer eligible)) (λ u. null)
  execute (listen port) d = answer d (Open.listen port d.stack) (λ u. null)
  execute (connect peer local_port remote_port isn now_ms) d =
      answer d (Open.connect_from_with_isn peer local_port remote_port isn now_ms d.stack) number
  execute (auto_connect peer remote_port now_ms) d =
      answer d (Open.connect peer remote_port now_ms d.stack) number
  execute (input peer bytes now_ms) d =
      with_bytes d (decode_hex bytes)
        (λ bs. answer d (Input.input peer bs now_ms d.stack) (λ u. null))
  execute (poll now_ms) d = (record d { stack = Calls.poll now_ms d.stack }, ok null)
  execute (accept port) d =
      let (s, id) = Open.accept port d.stack in (record d { stack = s }, ok (number_or_null id))
  execute (write id bytes now_ms) d =
      with_bytes d (decode_hex bytes) (λ bs. answer d (Calls.write id bs now_ms d.stack) number)
  execute (write_with_marker id bytes now_ms) d =
      with_bytes d (decode_hex bytes)
        (λ bs. keep_marker d (Calls.write_with_marker id bs now_ms d.stack))
  execute (marker_status handle) d = (d, ask_marker handle d)
  execute (read id n now_ms) d =
      answer d (Calls.read id n d.stack) (λ bytes. string (encode_hex bytes))
  execute (close id now_ms) d = answer d (Calls.close id now_ms d.stack) (λ u. null)
  execute (state id) d = (d, ok (name_or_null (Calls.state id d.stack)))
