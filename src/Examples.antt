-- ===== src/Examples.antt =====
-- Runs at concrete inputs of the theorems about rust/fips-tcp/src.
pub mod Adapter
pub mod Tables
pub mod Receiving
pub mod Driving
pub mod Talking
use fips_tcp.Common.{
  All, IsByte, List, Yields, [], arith, false, length, min, none, ok, refl, some, take, true, ℕ,
  ◌*◌, ◌++◌, ◌+◌, ◌<◌, ◌^◌, ◌↔◌, ◌∷◌, ◌≡◌, ◌≤◌, ◌⊎◌,
}
use fips_tcp.Types.{default_config}
use fips_tcp.Wire
use fips_tcp.Wire.{Segment, encode, decode, fips_version_option, max_segment_size_option}
use fips_tcp.Wire.RoundTrip.{IsCanonical, decode-encode}
use fips_tcp.Wire.Canonical.{decode-IsCanonical, decode-encode-decode}
use fips_tcp.Seq.{before, in_closed_interval, distance}
use fips_tcp.Seq.Order.{before-wrapping_add, in_closed_interval_iff}
use fips_tcp.Reno
use fips_tcp.Reno.{Reno}
use fips_tcp.Reno.Window
use fips_tcp.Reno.Window.{step-IsValid, new-IsValid, on_ack-growth}
use fips_tcp.Rtt
use fips_tcp.Rtt.{RttEstimator, abs_diff}
use fips_tcp.Rtt.Bounds
use fips_tcp.Rtt.Bounds.{
  InRange, step-InRange, new-InRange, smoothing_no_wrap, rto_ms-timeouts, timeouts,
}
use fips_tcp.Marker
use fips_tcp.Connection.{Connection}
use fips_tcp.Connection.Send
use fips_tcp.Connection.Send.{client, server}
use fips_tcp.Connection.Ack.{apply_ack}
use fips_tcp.Connection.Input.{on_segment}
use fips_tcp.Connection.Timer
use fips_tcp.Connection.Flight.{bytes_of}
use fips_tcp.Connection.Sender.{Sends}
use fips_tcp.Connection.Sender.Flush.{write-Sends}
use fips_tcp.Connection.Sender.Acks.{apply_ack-Sends}
use fips_tcp.Connection.Sender.Inputs.{on_segment-Sends}
use fips_tcp.Connection.Sender.Timers.{client-Sends, server-Sends, poll-Sends}
use fips_tcp.Connection.States.{Reaches, rank}
use fips_tcp.Connection.States.History.{run-Reaches}
use fips_tcp.Connection.History
use fips_tcp.Connection.History.{run, run-Sends, marker-acked}
use fips_tcp.Types.{established}
use fips_tcp.Connection.{new, available_to_send}
use fips_tcp.Connection.Send.{flush_data}
use fips_tcp.Connection.Receive.{receive_stream_data, remove_first, is_ready}
use fips_tcp.Connection.Buffer.{Fits, Bounds}
use fips_tcp.Connection.Buffer.Data.{receive_stream_data-Fits}
use fips_tcp.Connection.Buffer.History.{run-Fits, client-Fits}
use fips_tcp.Connection.Loops.{flush_data-done}
use fips_tcp.Stack.{Stack}
use fips_tcp.Stack.Table.{nat_eq}
use fips_tcp.Stack.History as StackHistory
use fips_tcp.Stack.History.{step-Succeeds}
use fips_tcp.Stack.Safety.{Succeeds, empty-IsConsistent}
use fips_tcp.Connection.{open_update}
use fips_tcp.Connection.Send.{send_tracked}
use fips_tcp.Connection.Wakeup.{poll-before_next_poll_at}

-- The SYN of a client and the SYN-ACK of its peer.
abbrev syn : Segment
syn = record {
  src_port = 1000;
  dst_port = 2000;
  seq = 100;
  ack = none;
  flags = 2;
  window = 65535;
  options = max_segment_size_option 1024 ∷ fips_version_option 1 0 ∷ [];
  payload = [];
}

abbrev syn_reply : Segment
syn_reply = record {
  src_port = 2000;
  dst_port = 1000;
  seq = 500;
  ack = some 101;
  flags = 18;
  window = 65535;
  options = max_segment_size_option 1024 ∷ fips_version_option 1 0 ∷ [];
  payload = [];
}

abbrev reply : ℕ → List ℕ → Segment
reply n payload = record {
  src_port = 2000;
  dst_port = 1000;
  seq = 501;
  ack = some n;
  flags = 16;
  window = 65535;
  options = [];
  payload = payload;
}

abbrev reply_bytes : List ℕ
reply_bytes =
    7 ∷ 208 ∷ 3 ∷ 232 ∷ 0 ∷ 0 ∷ 1 ∷ 245 ∷ 0 ∷ 0 ∷ 0 ∷ 102 ∷ 80 ∷ 16 ∷ 255 ∷ 255 ∷ 0 ∷ 0 ∷ 0 ∷ 0 ∷ 9
    ∷ []

abbrev opened : Connection ℕ
opened = (client 7 1000 2000 100 0 default_config 5).0

opened-Sends : Sends [] opened
opened-Sends = client-Sends 7 1000 2000 100 0 default_config 5 (omega arith) (omega arith)

abbrev history : List History.Event
history =
    History.segment syn_reply 10
    ∷ History.write (1 ∷ 2 ∷ 3 ∷ []) 20
    ∷ History.poll 2000
    ∷ History.segment (reply 102 (9 ∷ [])) 2010
    ∷ History.read 10
    ∷ History.close 2020
    ∷ []

reply-IsCanonical : IsCanonical (reply 102 (9 ∷ []))
unfolding Wire.contains
reply-IsCanonical = record {
  src_port = (omega arith, omega arith);
  dst_port = (omega arith, omega arith);
  seq = omega arith;
  ack_range = omega arith;
  ack_flag_set = refl;
  flags = omega arith;
  supported = refl;
  window = omega arith;
  options = tt;
  options_fit = omega arith;
}

decode-encode_example :
    (bytes : List ℕ) × (encode (reply 102 (9 ∷ [])) ≡ ok bytes)
    × (length bytes ≡ Wire.encoded_header_len (reply 102 (9 ∷ [])) + 1)
    × (Wire.encoded_header_len (reply 102 (9 ∷ [])) ≤ 60)
    × (decode bytes ≡ ok (reply 102 (9 ∷ [])))
decode-encode_example = decode-encode (reply 102 (9 ∷ [])) reply-IsCanonical

reply_bytes-IsByte : All IsByte reply_bytes
reply_bytes-IsByte = ground arith

decode-reply_bytes : decode reply_bytes ≡ ok (reply 102 (9 ∷ []))
unfolding decode Wire.u16_at Wire.from_wire Wire.decode_options Wire.read_segment Wire.u32_at
    Wire.contains
decode-reply_bytes = refl

decode-IsCanonical_example : Yields IsCanonical (decode reply_bytes)
decode-IsCanonical_example = decode-IsCanonical reply_bytes reply_bytes-IsByte

-- The first number is 5 before the wrap, the second 5 past it.
before-wrapping_add_example : (before 4294967291 5 ≡ true) ↔ (0 < 10)
before-wrapping_add_example = before-wrapping_add 4294967291 0 10 (omega arith) (omega arith)

in_closed_interval_iff_example :
    (in_closed_interval 2 4294967291 5 ≡ true) ↔ (distance 4294967291 2 ≤ distance 4294967291 5)
unfolding distance
in_closed_interval_iff_example =
    in_closed_interval_iff 2 4294967291 5 (omega arith) (omega arith) (omega arith) (omega arith)

abbrev reno : Reno
reno = Reno.new 1024

reno-IsValid : Window.IsValid reno
reno-IsValid = new-IsValid 1024 (omega arith) (omega arith)

step-IsValid_example : Window.IsValid (Reno.on_fast_loss reno 4096)
step-IsValid_example = step-IsValid reno (Window.fast_loss 4096) (omega arith) reno-IsValid

abbrev rtt : RttEstimator
rtt = Rtt.new 1000 200 60000

step-InRange_example : InRange 5000 (Rtt.sample rtt 300)
step-InRange_example =
    step-InRange 5000 rtt (Bounds.sampled 300) (omega arith) (omega arith) (omega arith)
      (new-InRange 5000 1000 200 60000 (omega arith) (omega arith))

smoothing_no_wrap_example : (100 * 3 + abs_diff 250 900 < 2 ^ 64) × (250 * 7 + 900 < 2 ^ 64)
smoothing_no_wrap_example = smoothing_no_wrap 250 100 900 (omega arith) (omega arith) (omega arith)

on_ack-growth_example :
    (reno.cwnd ≤ (Reno.on_ack reno 512).cwnd) × ((Reno.on_ack reno 512).cwnd ≤ reno.cwnd + reno.mss)
unfolding Reno.new
on_ack-growth_example = on_ack-growth reno 512 reno-IsValid refl

rto_ms-timeouts_example : (timeouts 3 rtt).rto_ms ≡ min (1000 * 2 ^ 3) 60000
unfolding Rtt.new
rto_ms-timeouts_example = rto_ms-timeouts 3 rtt (omega arith) (omega arith)

run-Sends_example :
    Sends (run default_config opened [] history).1 (run default_config opened [] history).0
run-Sends_example = run-Sends default_config [] opened history opened-Sends (ground arith)

apply_ack-Sends_example : Sends [] (apply_ack opened 101 10 false).0
apply_ack-Sends_example = apply_ack-Sends [] opened 101 10 false opened-Sends (omega arith)

abbrev connected : Connection ℕ
connected = (on_segment opened syn_reply 10 default_config).0

connected-Sends : Sends [] connected
connected-Sends =
    on_segment-Sends [] opened syn_reply 10 default_config opened-Sends (omega arith) (omega arith)

write-Sends_example :
    Yields
      (λ r. Sends ([] ++ take r.1 (1 ∷ 2 ∷ [])) r.0 × (r.1 ≤ 2))
      (Send.write connected (1 ∷ 2 ∷ []) 20 default_config)
write-Sends_example = write-Sends [] connected (1 ∷ 2 ∷ []) 20 default_config connected-Sends

marker-acked_example :
    (Marker.status opened.send_progress (Marker.marker opened.send_progress 1) ≡ Marker.acked)
    ↔ (0 + length (bytes_of opened.unacked ++ opened.send_queue) ≤ 0)
marker-acked_example = marker-acked [] [] opened opened 1 opened-Sends opened-Sends refl

run-Fits_example : Fits default_config (run default_config opened [] history).0
run-Fits_example =
    run-Fits default_config [] opened history
      (client-Fits 7 1000 2000 100 0 default_config 5 (omega arith))

receive_stream_data-Fits_example :
    let d = (receive_stream_data opened (reply 101 (9 ∷ [])) 10 default_config).0 in
    Fits default_config d × (remove_first (is_ready d.recv_nxt) d.reassembly ≡ none)
receive_stream_data-Fits_example =
    receive_stream_data-Fits default_config opened (reply 101 (9 ∷ [])) 10
      (client-Fits 7 1000 2000 100 0 default_config 5 (omega arith))

-- A connection with three bytes to send.
abbrev queued : Connection ℕ
queued = record (new 7 1000 2000 established 101 501 default_config 5) {
  send_queue = 1 ∷ 2 ∷ 3 ∷ [];
}

flush_data-done_example :
    ((flush_data queued 20).0.send_queue ≡ []) ⊎ (available_to_send (flush_data queued 20).0 ≡ 0)
unfolding new
flush_data-done_example = flush_data-done queued 20 (omega arith) refl

-- A stack that listens, and the bytes of a SYN for it.
abbrev listener : Stack ℕ
listener = record {
  config = default_config;
  reservation = none;
  listeners = 2000 ∷ [];
  accepts = (2000, []) ∷ [];
  connections = [];
  lookup = [];
  outbound = [];
  next_connection_id = 1;
  next_ephemeral_port = 49152;
  isn_state = 7;
  next_token = 1;
}

abbrev syn_bytes : List ℕ
syn_bytes =
    3 ∷ 232 ∷ 7 ∷ 208 ∷ 0 ∷ 0 ∷ 0 ∷ 100 ∷ 0 ∷ 0 ∷ 0 ∷ 0 ∷ 112 ∷ 2 ∷ 255 ∷ 255 ∷ 0 ∷ 0 ∷ 0 ∷ 0 ∷ 2
    ∷ 4 ∷ 4 ∷ 0 ∷ 254 ∷ 4 ∷ 1 ∷ 0 ∷ []

decode-syn_bytes : decode syn_bytes ≡ ok syn
unfolding decode Wire.u16_at Wire.from_wire Wire.decode_options Wire.read_segment Wire.u32_at
    Wire.contains
decode-syn_bytes = refl

step-Succeeds_example : Succeeds (StackHistory.step (StackHistory.arrives 8 syn_bytes 0) listener)
step-Succeeds_example =
    step-Succeeds (StackHistory.arrives 8 syn_bytes 0) listener
      (empty-IsConsistent listener refl refl) (omega arith)

poll-before_next_poll_at_example : (Timer.poll opened 500 default_config).1 ≡ open_update []
unfolding client new send_tracked Timer.next_poll_at Timer.close_deadline Timer.retransmit_at
    Reno.window distance fips_tcp.Segments.tracked_end
poll-before_next_poll_at_example = poll-before_next_poll_at opened 500 default_config refl refl refl

run-Reaches_example :
    let d = (run default_config opened [] history).0 in
    Reaches opened.state d.state × ((opened.state ≡ d.state) ⊎ (rank opened.state < rank d.state))
run-Reaches_example = run-Reaches default_config [] opened history
