-- ===== src/Examples/Talking.antt =====
-- A run of two connections that talk to each other, at concrete inputs.
use fips_tcp.Common.{All, List, [], arith, inl, inr, ok, refl, some, ℕ, ◌∷◌, ◌≡◌}
use fips_tcp.Types.{default_config, validate}
use fips_tcp.Wire.{Segment}
use fips_tcp.Wire
use fips_tcp.Segments
use fips_tcp.Seq
use fips_tcp.Rtt
use fips_tcp.Reno
use fips_tcp.Marker
use fips_tcp.Connection
use fips_tcp.Connection.{Connection}
use fips_tcp.Connection.Ack
use fips_tcp.Connection.Input
use fips_tcp.Connection.Send
use fips_tcp.Connection.Send.{client, server}
use fips_tcp.Connection.History
use fips_tcp.Connection.History.{Event, IsWireEvent}
use fips_tcp.Connection.Speech.History as SpeechHistory
use fips_tcp.Connection.Speech.History.{Spoken, run-Spoken, client-Spoken}
use fips_tcp.Connection.Sender.Timers.{client-Sends}
use fips_tcp.Connection.Delivery.{Arrives, Hears, said, written, talk-Hears}
use fips_tcp.Examples.{syn, syn_reply}

abbrev caller : Connection ℕ × List Segment
caller = client 7 1000 2000 100 0 default_config 5

abbrev callee : Connection ℕ × List Segment
callee = server 8 syn 500 0 default_config 6

-- The first bytes of the client.
abbrev first : Segment
first = record {
  src_port = 1000;
  dst_port = 2000;
  seq = 101;
  ack = some 501;
  flags = 24;
  window = 65535;
  options = [];
  payload = 1 ∷ 2 ∷ 3 ∷ [];
}

abbrev calls : List Event
calls = History.segment syn_reply 10 ∷ History.write (1 ∷ 2 ∷ 3 ∷ []) 20 ∷ []

abbrev answers : List Event
answers = History.segment first 30 ∷ History.read 10 ∷ []

caller-syn : caller.1 ≡ syn ∷ []
unfolding client Send.send_tracked Connection.segment_for Segments.build_segment Connection.new
    Wire.contains Connection.available_window_u16 Connection.available_window
caller-syn = refl

caller_stream : written default_config caller calls ≡ 1 ∷ 2 ∷ 3 ∷ []
unfolding client History.run History.step Send.write Input.on_segment Wire.contains
    Send.send_tracked Connection.new Input.on_syn_sent Segments.tracked_end
    Wire.supports_fips_version Ack.apply_ack Wire.flag_len Wire.max_segment_size Send.negotiate_mss
    Send.update_remote_window Reno.set_mss Seq.after Seq.before Seq.distance Ack.advance_ack
    Ack.pop_acked Ack.pop_one Rtt.can_sample Rtt.sample Ack.trim_front Ack.trimmed Ack.splits
    Reno.on_ack Marker.acknowledge Marker.accept Send.flush_data Send.send_rounds Send.send_round
    Send.send_fin Reno.window Seq.before_or_equal
caller_stream = refl

callee_stream : written default_config callee answers ≡ []
unfolding server History.run History.step
callee_stream = refl

calls-Arrive : All (Arrives (said default_config callee answers)) calls
unfolding server Send.send_tracked Connection.segment_for Segments.build_segment Send.negotiate_mss
    Wire.contains Connection.available_window_u16 Send.update_remote_window
    Connection.available_window Wire.max_segment_size Connection.new
calls-Arrive = (inl refl, (tt, tt))

answers-Arrive : All (Arrives (said default_config caller calls)) answers
unfolding client SpeechHistory.transcript History.step Connection.segment_for Segments.build_segment
    Connection.ack_segment Connection.available_window_u16 Connection.available_window Send.write
    Input.on_segment Wire.contains Send.send_tracked Connection.new Input.on_syn_sent
    Segments.tracked_end Wire.supports_fips_version Ack.apply_ack Wire.flag_len
    Wire.max_segment_size Send.negotiate_mss Send.update_remote_window Reno.set_mss Seq.after
    Seq.before Seq.distance Ack.advance_ack Ack.pop_acked Ack.pop_one Rtt.can_sample Rtt.sample
    Ack.trim_front Ack.trimmed Ack.splits Reno.on_ack Marker.acknowledge Marker.accept
    Send.flush_data Send.send_rounds Send.send_round Send.send_fin Reno.window Seq.before_or_equal
answers-Arrive = (inr (inr (inl refl)), (tt, tt))

valid : validate default_config ≡ ok tt
unfolding validate
valid = refl

talk-Hears_example :
    Hears (written default_config caller calls) default_config callee answers
    × Hears (written default_config callee answers) default_config caller calls
talk-Hears_example =
    talk-Hears 7 1000 2000 100 0 default_config 5 8 syn 500 0 default_config 6 calls answers
      caller-syn valid valid (omega arith) (omega arith) (ground arith) (ground arith)
      (rw caller_stream (omega arith)) (rw callee_stream (omega arith)) calls-Arrive answers-Arrive

run-Spoken_example :
    Spoken default_config 101
      (History.run default_config caller.0 [] calls)
      (said default_config caller calls)
run-Spoken_example =
    run-Spoken default_config 101 [] caller.0 caller.1 calls
      (client-Sends 7 1000 2000 100 0 default_config 5 (omega arith) (omega arith))
      (client-Spoken 7 1000 2000 100 0 default_config 5) (ground arith)
