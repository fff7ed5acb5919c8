-- ===== src/Connection/Buffer/History.antt =====
-- Histories of a connection and the bounds of its receive buffer.
use fips_tcp.Common.{
  List, Result, Yields, [], arith, err, false, length, length-drop, min, ok, refl, u16_max,
  wrapping_add, ℕ, ◌++◌, ◌∷◌, ◌≡◌, ◌≤◌,
}
use fips_tcp.Connection.{Connection}
use fips_tcp.Wire.{Segment}
use fips_tcp.Connection.Send.{negotiate_mss, update_remote_window, client, send_tracked, server}
use fips_tcp.Connection.Receive.{enter_time_wait}
use fips_tcp.Connection.Input.{on_segment}
use fips_tcp.Connection.Buffer.{Bounds, Fits}
use fips_tcp.Connection.Buffer.Data.{receive_stream_data-Fits}
use fips_tcp.Connection.Frame.Data.{receive_stream_data-Keeps}
use fips_tcp.Connection.Frame.Input.{on_segment-Holds}
use fips_tcp.Connection.Frame.{
  Receives, update_remote_window-Holds, close-Holds, poll-Holds, write-Holds,
}
use fips_tcp.Connection.Send
use fips_tcp.Connection.Receive
use fips_tcp.Connection.{new}
use fips_tcp.Connection.History.{Event, segment, write, read, close, poll, step, run, wrote}
use fips_tcp.Types.{StackError, Config, syn_received}

-- The bounds as a predicate on the receiving side.
abbrev Bounded : {P : Type 0} → Config → Receives P
Bounded config waiting peer local_port remote_port capacity recv_nxt queue reassembly closed =
    Bounds config capacity queue reassembly

module _ {P : Type 0} (config : Config) where
  on_segment-Fits :
      (c : Connection P) (s : Segment) (now_ms : ℕ)
      → Fits config c
      → Fits config (on_segment c s now_ms config).0
  on_segment-Fits c s now_ms v =
      on_segment-Holds (Bounded config) (Bounded config) config s (λ d w. w)
        (λ d t w data_in. (
          (receive_stream_data-Fits config d s t w.0).0,
          receive_stream_data-Keeps (λ waiting peer local_port remote_port. waiting ≡ false) config
              d s t w.1,
        ))
        (λ d syn w. w.0) c now_ms v

  read-Fits : (c : Connection P) (n : ℕ) → Fits config c → Fits config (Receive.read c n).0
  unfolding Receive.read
  read-Fits c n v = record {
    capacity = v.capacity;
    bytes_fit = omega (arith, v.bytes_fit, length-drop (min n (length c.recv_queue)) c.recv_queue);
    segments_fit = v.segments_fit;
  }

  wrote-Fits :
      (c : Connection P) (bytes : List ℕ) (r : Result StackError (Connection P × ℕ × List Segment))
      → Fits config c
      → Yields (λ q. Fits config q.0) r
      → Fits config (wrote config c bytes r).0
  wrote-Fits c bytes (ok (c', n, out)) v h = h
  wrote-Fits c bytes (err e) v h = v

  step-Fits : (c : Connection P) (e : Event) → Fits config c → Fits config (step config c e).0
  unfolding step
  step-Fits c (segment s now_ms) v = on_segment-Fits c s now_ms v
  step-Fits c (write bytes now_ms) v =
      wrote-Fits c bytes (Send.write c bytes now_ms config) v
        (write-Holds (Bounded config) c bytes now_ms config v)
  step-Fits c (read n) v = read-Fits c n v
  step-Fits c (close now_ms) v = close-Holds (Bounded config) c now_ms v
  step-Fits c (poll now_ms) v = poll-Holds (Bounded config) c now_ms config v

  -- From any connection whose buffered and waiting bytes fit the receive buffer of the
  -- configuration, at most 65535 bytes, and whose waiting segments are at most as many as the
  -- configuration allows, every history of segments, writes, reads, closes and polls leaves such
  -- a connection.
  pub run-Fits :
      (sent : List ℕ) (c : Connection P) (es : List Event)
      → Fits config c
      → Fits config (run config c sent es).0
  unfolding run
  run-Fits sent c [] v = v
  run-Fits sent c (e ∷ es) v =
      run-Fits (sent ++ (step config c e).1) (step config c e).0 es (step-Fits c e v)

-- A connection begins with an empty buffer.
pub client-Fits :
    {P : Type 0} (peer : P) (local_port remote_port isn now_ms : ℕ) (config : Config) (token : ℕ)
    → config.receive_buffer ≤ u16_max
    → Fits config (client peer local_port remote_port isn now_ms config token).0
unfolding client new send_tracked
client-Fits peer local_port remote_port isn now_ms config token h = record {
  capacity = (refl, h);
  bytes_fit = omega arith;
  segments_fit = omega arith;
}

pub server-Fits :
    {P : Type 0} (peer : P) (syn : Segment) (isn now_ms : ℕ) (config : Config) (token : ℕ)
    → config.receive_buffer ≤ u16_max
    → Fits config (server peer syn isn now_ms config token).0
unfolding server new send_tracked negotiate_mss
server-Fits peer syn isn now_ms config token h =
    let start =
      new peer syn.dst_port syn.src_port syn_received isn (wrapping_add syn.seq 1) config token in
    update_remote_window-Holds (Bounded config) start syn.window now_ms
      (record { capacity = (refl, h); bytes_fit = omega arith; segments_fit = omega arith })
