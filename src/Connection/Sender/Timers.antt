-- ===== src/Connection/Sender/Timers.antt =====
-- The stream of the sending side: `poll`, `read` and the creation of a connection.
use fips_tcp.Common.{
  IsU32, List, List-cases, Option-cases, [], ap, arith, false, inl, inr, length, none, refl,
  sat_add, some, true, u16_max, wrapping_add, ℕ, ◌∙◌, ◌∷◌, ◌≡◌, ◌≤◌, ◌⊎◌,
}
use fips_tcp.Types.{Config, State, syn_received, syn_sent}
use fips_tcp.Wire.{Segment, flag_len, value_or, contains, syn_flag}
use fips_tcp.Connection.Sender.Inputs.{update_remote_window-Sends, negotiate_mss-Sends}
use fips_tcp.Connection.Receive.{read}
use fips_tcp.Connection.Ack.{retransmit_oldest}
use fips_tcp.Segments.{TrackedSegment, syn_ack}
use fips_tcp.Connection.{Connection, new}
use fips_tcp.Connection.Send.{
  sends_data, client, server, first_payload, probe_from_queue, zero_window_probe, negotiate_mss,
  send_tracked, update_remote_window,
}
use fips_tcp.Connection.Timer.{
  poll, count_probe, poll_open_window, poll_timed_out, poll_zero_window, send_probe, time_out,
}
use fips_tcp.Connection.Flight.{bytes_of, control_len, controls}
use fips_tcp.Connection.Sender.{Sends, push-Inv}
use fips_tcp.Connection.Sender.Flush.{flush_data-Sends, send_data-Sends}
use fips_tcp.Connection.Sender.Acks.{retransmit_oldest-Sends}

-- With no payload in flight there are no bytes in flight.
no_bytes : (ts : List TrackedSegment) → first_payload ts ≡ none → bytes_of ts ≡ []
unfolding first_payload
no_bytes [] e = refl
no_bytes (t ∷ ts) e = elim (List-cases t.payload) [
  | inl n ↦ rw n (no_bytes ts (ground (arith, e, n)))
  | inr (x, rest, n) ↦ absurd (ground (arith, e, n))
]

module _ {P : Type 0} (sent : List ℕ) where
  probe_from_queue-Sends :
      (c : Connection P) (queue : List ℕ) (now_ms : ℕ)
      → Sends sent c
      → queue ≡ c.send_queue
      → first_payload c.unacked ≡ none
      → Sends sent (probe_from_queue c queue now_ms).0
  unfolding probe_from_queue
  probe_from_queue-Sends c [] now_ms v q e = v
  probe_from_queue-Sends c (byte ∷ rest) now_ms v q e =
      let none_flying = ap length (no_bytes c.unacked e) in
      send_data-Sends sent c (byte ∷ []) rest now_ms v q (omega arith) (omega (arith, none_flying))

  zero_window_probe-Sends :
      (c : Connection P) (now_ms : ℕ) → Sends sent c → Sends sent (zero_window_probe c now_ms).0
  unfolding zero_window_probe
  zero_window_probe-Sends c now_ms v = elim (Option-cases (first_payload c.unacked)) [
    | inr (t, e) ↦ rw (e, zero_window_probe) v
    | inl e ↦ rw (e, zero_window_probe) (probe_from_queue-Sends c c.send_queue now_ms v refl e)
  ]

  send_probe-Sends :
      (c : Connection P) (now_ms : ℕ) (config : Config)
      → Sends sent c
      → Sends sent (send_probe c now_ms config).0
  unfolding send_probe count_probe
  send_probe-Sends c now_ms config v =
      let w = zero_window_probe-Sends c now_ms v in ground (arith, w)

  poll_timed_out-Sends :
      (c : Connection P) (oldest : TrackedSegment) (now_ms : ℕ) (config : Config)
      → Sends sent c
      → Sends sent (poll_timed_out c oldest now_ms config).0
  unfolding poll_timed_out time_out
  poll_timed_out-Sends c oldest now_ms config v =
      let c1 = (retransmit_oldest (time_out c) now_ms true).0 in
      let w = retransmit_oldest-Sends sent (time_out c) now_ms true v in
      let u = flush_data-Sends sent c1 now_ms w in ground (arith, u)

  poll_zero_window-Sends :
      (c : Connection P) (now_ms : ℕ) (config : Config)
      → Sends sent c
      → Sends sent (poll_zero_window c now_ms config).0
  unfolding poll_zero_window
  poll_zero_window-Sends c now_ms config v =
      let w =
        send_probe-Sends
          (record c {
            next_zero_window_probe_ms =
                some (value_or c.next_zero_window_probe_ms (sat_add now_ms config.initial_rto_ms));
          })
          now_ms config v in
      ground (arith, w)

  poll_open_window-Sends :
      (c : Connection P) (now_ms : ℕ) (config : Config)
      → Sends sent c
      → Sends sent (poll_open_window c now_ms config).0
  unfolding poll_open_window
  poll_open_window-Sends c now_ms config v =
      let flushed = flush_data-Sends sent c now_ms v in
      elim (List-cases c.unacked) [
        | inl e ↦ rw (e, poll_open_window) flushed
        | inr (oldest, rest, e) ↦
            let late = poll_timed_out-Sends c oldest now_ms config v in
            rw (e, poll_open_window) (ground (arith, flushed, late))
      ]

  -- `poll` at any time, with its retransmissions, zero-window probes and deadlines, keeps the
  -- sender's invariant.
  pub poll-Sends :
      (c : Connection P) (now_ms : ℕ) (config : Config)
      → Sends sent c
      → Sends sent (poll c now_ms config).0
  unfolding poll
  poll-Sends c now_ms config v =
      let a = poll_zero_window-Sends c now_ms config v in
      let b = poll_open_window-Sends c now_ms config v in ground (arith, a, b)

  pub read-Sends : (c : Connection P) (n : ℕ) → Sends sent c → Sends sent (read c n).0
  unfolding read
  read-Sends c n v = v

-- A new connection has sent nothing of the stream: its SYN alone is in flight.
new-Inv :
    {P : Type 0} (peer : P) (local_port remote_port : ℕ) (st : State) (isn recv_nxt : ℕ)
    (config : Config) (token : ℕ)
    → IsU32 isn
    → 1 ≤ config.mss
    → Sends [] (new peer local_port remote_port st isn recv_nxt config token)
unfolding new
new-Inv peer local_port remote_port st isn recv_nxt config token h k = record {
  una_range = h;
  chain = refl;
  window_range = omega arith;
  mss_pos = k;
  flight = omega arith;
  one_control = omega arith;
  no_control = inr refl;
  content = refl;
  accepted = refl;
  acked_le = omega arith;
}

syn_control :
    (s n f : ℕ)
    → (f ≡ syn_flag) ⊎ (f ≡ syn_ack)
    → control_len (record { seq = s; flags = f; payload = []; sent_at_ms = n; transmissions = 1 })
      ≡ 1
unfolding control_len flag_len contains
syn_control s n f (inl e) = rw e
syn_control s n f (inr e) = rw e

-- The SYN, or its answer, is tracked by a connection that has sent nothing.
send_syn-Sends :
    {P : Type 0} (c : Connection P) (f now_ms : ℕ)
    → Sends [] c
    → c.unacked ≡ []
    → sends_data c.state ≡ false
    → (f ≡ syn_flag) ⊎ (f ≡ syn_ack)
    → Sends [] (send_tracked c f [] now_ms).0
unfolding send_tracked
send_syn-Sends c f now_ms v e st k =
    let z = syn_control c.send_nxt now_ms f k in
    push-Inv [] c.send_una c.send_nxt c.remote_window c.mss c.unacked c.send_queue c.send_progress
      c.state c.state _ v refl (omega (arith, z)) (inr refl) (omega (arith, v.flight))
      (omega (arith, z, ap controls e)) (inl st)

-- A connection opened by `client` with a segment size of at least 1 has the sender's invariant
-- for the empty stream.
pub client-Sends :
    {P : Type 0} (peer : P) (local_port remote_port isn now_ms : ℕ) (config : Config) (token : ℕ)
    → IsU32 isn
    → 1 ≤ config.mss
    → Sends [] (client peer local_port remote_port isn now_ms config token).0
unfolding client
client-Sends peer local_port remote_port isn now_ms config token h k =
    send_syn-Sends (new peer local_port remote_port syn_sent isn 0 config token) syn_flag now_ms
      (new-Inv peer local_port remote_port syn_sent isn 0 config token h k) (unfold new in refl)
      (unfold new in refl) (inl refl)

keeps_flight :
    {P : Type 0} (c : Connection P) (s : Segment) (config : Config) (now_ms : ℕ)
    → let c' = negotiate_mss (update_remote_window c s.window now_ms) s config in
      (c'.unacked ≡ c.unacked) × (c'.state ≡ c.state)
unfolding negotiate_mss update_remote_window
keeps_flight c s config now_ms = ground arith

-- A connection made by `server` from a SYN with a window of its width, with a segment size of at
-- least 1, has the sender's invariant for the empty stream.
pub server-Sends :
    {P : Type 0} (peer : P) (syn : Segment) (isn now_ms : ℕ) (config : Config) (token : ℕ)
    → IsU32 isn
    → 1 ≤ config.mss
    → syn.window ≤ u16_max
    → Sends [] (server peer syn isn now_ms config token).0
unfolding server
server-Sends peer syn isn now_ms config token h k w =
    let c0 =
      new peer syn.dst_port syn.src_port syn_received isn (wrapping_add syn.seq 1) config token in
    let v0 =
      new-Inv peer syn.dst_port syn.src_port syn_received isn (wrapping_add syn.seq 1) config token
        h k in
    let v1 = update_remote_window-Sends [] c0 syn.window now_ms v0 w in
    let v2 = negotiate_mss-Sends [] (update_remote_window c0 syn.window now_ms) syn config v1 in
    send_syn-Sends (negotiate_mss (update_remote_window c0 syn.window now_ms) syn config) syn_ack
      now_ms v2 ((keeps_flight c0 syn config now_ms).0 ∙ unfold new in refl)
      (ap sends_data (keeps_flight c0 syn config now_ms).1 ∙ unfold new in refl) (inr refl)
