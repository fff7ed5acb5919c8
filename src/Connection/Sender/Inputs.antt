-- ===== src/Connection/Sender/Inputs.antt =====
-- The stream of the sending side: the segments that arrive.
use fips_tcp.Common.{
  Bool, Bool-cases, IsU32, List, Option-cases, [], ap, arith, false, if◌then◌else◌, inl, inr, refl,
  retain, suc, true, u16_max, wrapping_add, zero, ℕ, ◌&&◌, ◌∙◌, ◌≡◌, ◌≤◌, ◌⊎◌,
}
use fips_tcp.Types.{
  Config, State, close_wait, closing, established, fin_wait_1, fin_wait_2, last_ack, syn_received,
  syn_sent, time_wait, state_eq,
}
use fips_tcp.Wire.{Segment, contains, fin_flag, value_or}
use fips_tcp.Seq.{after, in_closed_interval}
use fips_tcp.Connection.Flight.{controls}
use fips_tcp.Marker.{SendProgress}
use fips_tcp.Segments.{TrackedSegment, ReassemblySegment, is_duplicate_ack_candidate}
use fips_tcp.Connection.{Connection, option_list}
use fips_tcp.Connection.Send.{sends_data, negotiate_mss, update_remote_window}
use fips_tcp.Connection.Ack.{apply_ack}
use fips_tcp.Connection.Receive.{
  receive_stream_data, accept_segment, drain_rounds, enter_time_wait, is_pending, is_ready,
  on_remote_fin, remove_first, take_bytes, trim_received, drain_reassembly, insert_chunk,
  insert_received, received_chunk,
}
use fips_tcp.Connection.Input.{
  on_ack, on_segment, after_ack, finish, on_fin_acked, on_syn_received, on_syn_sent, receive_if,
  repair_if, on_synchronized,
}
use fips_tcp.Connection.Sender.{Inv, Sends, nxt_range}
use fips_tcp.Connection.Sender.Flush.{flush_data-Sends}
use fips_tcp.Connection.Sender.Acks.{
  apply_ack-Sends, repair_timed_out_flight-Sends, retransmit_oldest-Sends, unacked-apply_ack_all,
}

-- The state may change if the new one sends no data, or the old one does.
state-Inv :
    {sent : List ℕ} {una nxt window mss : ℕ} {unacked : List TrackedSegment} {queue : List ℕ}
    {progress : SendProgress} {st : State} (st' : State)
    → Inv sent una nxt window mss unacked queue progress st
    → (sends_data st' ≡ false) ⊎ ((sends_data st ≡ true) ⊎ (controls unacked ≡ 0))
    → Inv sent una nxt window mss unacked queue progress st'
state-Inv st' v h = record {
  una_range = v.una_range;
  chain = v.chain;
  window_range = v.window_range;
  mss_pos = v.mss_pos;
  flight = v.flight;
  one_control = v.one_control;
  no_control = ground (arith, v.no_control, h);
  content = v.content;
  accepted = v.accepted;
  acked_le = v.acked_le;
}

window-Inv :
    {sent : List ℕ} {una nxt window mss : ℕ} {unacked : List TrackedSegment} {queue : List ℕ}
    {progress : SendProgress} {st : State} (window' mss' : ℕ)
    → Inv sent una nxt window mss unacked queue progress st
    → window' ≤ u16_max
    → 1 ≤ mss'
    → Inv sent una nxt window' mss' unacked queue progress st
window-Inv window' mss' v h k = record {
  una_range = v.una_range;
  chain = v.chain;
  window_range = h;
  mss_pos = k;
  flight = v.flight;
  one_control = v.one_control;
  no_control = v.no_control;
  content = v.content;
  accepted = v.accepted;
  acked_le = v.acked_le;
}

unacked-update_remote_window :
    {P : Type 0} (c : Connection P) (window now_ms : ℕ)
    → (update_remote_window c window now_ms).unacked ≡ c.unacked
unfolding update_remote_window
unacked-update_remote_window c window now_ms = ground arith

module _ {P : Type 0} (sent : List ℕ) where
  on_remote_fin_at :
      (st : State) (c : Connection P) (now_ms : ℕ) (config : Config)
      → Sends sent c
      → c.state ≡ st
      → Sends sent (on_remote_fin c now_ms config)
  unfolding on_remote_fin enter_time_wait
  on_remote_fin_at established c now_ms config v e =
      rw (e, on_remote_fin) (state-Inv close_wait v (inr (inl (rw e refl))))
  on_remote_fin_at fin_wait_1 c now_ms config v e =
      rw (e, on_remote_fin) (state-Inv closing v (inl refl))
  on_remote_fin_at fin_wait_2 c now_ms config v e =
      rw (e, on_remote_fin) (state-Inv time_wait v (inl refl))
  on_remote_fin_at syn_sent c now_ms config v e = rw (e, on_remote_fin) v
  on_remote_fin_at syn_received c now_ms config v e = rw (e, on_remote_fin) v
  on_remote_fin_at close_wait c now_ms config v e = rw (e, on_remote_fin) v
  on_remote_fin_at closing c now_ms config v e = rw (e, on_remote_fin) v
  on_remote_fin_at last_ack c now_ms config v e = rw (e, on_remote_fin) v
  on_remote_fin_at time_wait c now_ms config v e = rw (e, on_remote_fin) v

  on_remote_fin-Sends :
      (c : Connection P) (now_ms : ℕ) (config : Config)
      → Sends sent c
      → Sends sent (on_remote_fin c now_ms config)
  on_remote_fin-Sends c now_ms config v = on_remote_fin_at c.state c now_ms config v refl

  accept_segment-Sends :
      (c : Connection P) (r : ReassemblySegment) (now_ms : ℕ) (config : Config)
      → Sends sent c
      → Sends sent (accept_segment c r now_ms config).0
  unfolding accept_segment take_bytes
  accept_segment-Sends c r now_ms config v =
      let fin =
        on_remote_fin-Sends
          (record (take_bytes c r config) {
            recv_nxt = wrapping_add (take_bytes c r config).recv_nxt 1;
          })
          now_ms config v in
      ground (arith, fin)

  drain_rounds-Sends :
      (fuel : ℕ) (c : Connection P) (now_ms : ℕ) (config : Config)
      → Sends sent c
      → Sends sent (drain_rounds fuel c now_ms config)
  unfolding drain_rounds
  drain_rounds-Sends zero c now_ms config v = v
  drain_rounds-Sends (suc fuel) c now_ms config v =
      elim (Option-cases
        (remove_first (is_ready c.recv_nxt) (retain (is_pending c.recv_nxt) c.reassembly))) [
          | inl e ↦ rw (e, drain_rounds) v
          | inr ((r, rest), e) ↦
              let c' = record c { reassembly = rest } in
              let r' = trim_received c.recv_nxt r in
              let w = accept_segment-Sends c' r' now_ms config v in
              elim (Bool-cases (accept_segment c' r' now_ms config).1) [
                | inl more ↦ rw (e, more, drain_rounds) (drain_rounds-Sends fuel _ now_ms config w)
                | inr done ↦ rw (e, done, drain_rounds) w
              ]
        ]

  insert_received-Sends :
      (c : Connection P) (seq : ℕ) (payload : List ℕ) (fin : Bool) (config : Config)
      → Sends sent c
      → Sends sent (insert_received c seq payload fin config)
  unfolding insert_received insert_chunk
  insert_received-Sends c seq payload fin config v =
      elim (Option-cases (received_chunk c seq payload fin)) [
        | inl e ↦ rw (e, insert_received) v
        | inr (chunk, e) ↦ rw (e, insert_received) (ground (arith, v))
      ]

  receive_stream_data-Sends :
      (c : Connection P) (s : Segment) (now_ms : ℕ) (config : Config)
      → Sends sent c
      → Sends sent (receive_stream_data c s now_ms config).0
  unfolding receive_stream_data drain_reassembly
  receive_stream_data-Sends c s now_ms config v =
      drain_rounds-Sends _ _ now_ms config
        (insert_received-Sends c s.seq s.payload (contains s.flags fin_flag) config v)

  pub update_remote_window-Sends :
      (c : Connection P) (window now_ms : ℕ)
      → Sends sent c
      → window ≤ u16_max
      → Sends sent (update_remote_window c window now_ms)
  unfolding update_remote_window
  update_remote_window-Sends c window now_ms v h =
      let w = window-Inv window c.mss v h v.mss_pos in ground (arith, w)

  pub negotiate_mss-Sends :
      (c : Connection P) (s : Segment) (config : Config)
      → Sends sent c
      → Sends sent (negotiate_mss c s config)
  unfolding negotiate_mss
  negotiate_mss-Sends c s config v = window-Inv c.remote_window _ v v.window_range (omega arith)

  on_syn_sent-Sends :
      (c : Connection P) (s : Segment) (now_ms : ℕ) (config : Config)
      → Sends sent c
      → s.window ≤ u16_max
      → Sends sent (on_syn_sent c s now_ms config).0
  unfolding on_syn_sent
  on_syn_sent-Sends c s now_ms config v h =
      let c1 = negotiate_mss (update_remote_window c s.window now_ms) s config in
      let v1 = negotiate_mss-Sends _ s config (update_remote_window-Sends c s.window now_ms v h) in
      let v2 = apply_ack-Sends sent c1 c1.send_nxt now_ms false v1 (nxt_range v1) in
      let e = unacked-apply_ack_all sent c1 now_ms v1 in
      let w = state-Inv established v2 (inr (inr (ap controls e))) in ground (arith, w)

  receive_if-Sends :
      (c : Connection P) (s : Segment) (output : List Segment) (now_ms : ℕ) (config : Config)
      → Sends sent c
      → Sends sent (receive_if c s output now_ms config).0
  unfolding receive_if
  receive_if-Sends c s output now_ms config v =
      let w = receive_stream_data-Sends c s now_ms config v in ground (arith, w)

  finish-Sends :
      (c : Connection P) (s : Segment) (output : List Segment) (now_ms : ℕ) (config : Config)
      → Sends sent c
      → Sends sent (finish c s output now_ms config).0
  unfolding finish
  finish-Sends c s output now_ms config v =
      flush_data-Sends sent _ now_ms (receive_if-Sends c s output now_ms config v)

  on_syn_received-Sends :
      (c : Connection P) (s : Segment) (now_ms : ℕ) (config : Config)
      → Sends sent c
      → s.window ≤ u16_max
      → Sends sent (on_syn_received c s now_ms config).0
  unfolding on_syn_received
  on_syn_received-Sends c s now_ms config v h =
      let again = retransmit_oldest-Sends sent c now_ms false v in
      let c1 = (apply_ack c c.send_nxt now_ms false).0 in
      let v1 = apply_ack-Sends sent c c.send_nxt now_ms false v (nxt_range v) in
      let v2 = update_remote_window-Sends c1 s.window now_ms v1 h in
      let e =
        ap controls (
          unacked-update_remote_window c1 s.window now_ms
          ∙ unacked-apply_ack_all sent c now_ms v) in
      let v3 = state-Inv established v2 (inr (inr e)) in
      let w =
        finish-Sends (record (update_remote_window c1 s.window now_ms) { state = established }) s []
          now_ms config v3 in
      ground (arith, w, again)

  on_fin_acked_at :
      (st : State) (c : Connection P) (now_ms : ℕ) (config : Config)
      → Sends sent c
      → c.state ≡ st
      → Sends sent (on_fin_acked c now_ms config)
  unfolding on_fin_acked enter_time_wait
  on_fin_acked_at fin_wait_1 c now_ms config v e =
      rw (e, on_fin_acked) (state-Inv fin_wait_2 v (inl refl))
  on_fin_acked_at closing c now_ms config v e =
      rw (e, on_fin_acked) (state-Inv time_wait v (inl refl))
  on_fin_acked_at _ c now_ms config v e = rw (e, on_fin_acked) v

  fin_acked_if :
      (b : Bool) (c : Connection P) (now_ms : ℕ) (config : Config)
      → Sends sent c
      → Sends sent (if b then on_fin_acked c now_ms config else c)
  fin_acked_if true c now_ms config v = on_fin_acked_at c.state c now_ms config v refl
  fin_acked_if false c now_ms config v = v

  window_if :
      (b : Bool) (c : Connection P) (window now_ms : ℕ)
      → Sends sent c
      → window ≤ u16_max
      → Sends sent (if b then update_remote_window c window now_ms else c)
  window_if true c window now_ms v h = update_remote_window-Sends c window now_ms v h
  window_if false c window now_ms v h = v

  after_ack-Sends :
      (c : Connection P) (ack : ℕ) (s : Segment) (una : ℕ) (fin_acked : Bool)
      (output : List Segment) (now_ms : ℕ) (config : Config)
      → Sends sent c
      → s.window ≤ u16_max
      → Sends sent (after_ack c ack s una fin_acked output now_ms config).0
  unfolding after_ack repair_if
  after_ack-Sends c ack s una fin_acked output now_ms config v h =
      let c2 = if fin_acked then on_fin_acked c now_ms config else c in
      let v2 : Sends sent c2 = fin_acked_if fin_acked c now_ms config v in
      let c3 =
        if in_closed_interval ack c2.send_una c2.send_nxt
        then update_remote_window c2 s.window now_ms
        else c2 in
      let v3 : Sends sent c3 =
        window_if (in_closed_interval ack c2.send_una c2.send_nxt) c2 s.window now_ms v2 h in
      let v4 = repair_timed_out_flight-Sends sent c3 now_ms config v3 in
      elim (Bool-cases (after c3.send_una una)) [
        | inl e ↦ rw (e, after_ack) v4
        | inr e ↦ rw (e, after_ack) v3
      ]

  on_ack-Sends :
      (c : Connection P) (ack : ℕ) (s : Segment) (now_ms : ℕ) (config : Config)
      → Sends sent c
      → IsU32 ack
      → s.window ≤ u16_max
      → Sends sent (on_ack c ack s now_ms config).0
  unfolding on_ack
  on_ack-Sends c ack s now_ms config v k h =
      let applied =
        apply_ack c ack now_ms (is_duplicate_ack_candidate s c.send_una c.remote_window) in
      let v1 =
        apply_ack-Sends sent c ack now_ms (is_duplicate_ack_candidate s c.send_una c.remote_window)
          v k in
      let fin = applied.1.fin_acked in
      let output = option_list applied.1.retransmit in
      elim (Bool-cases (fin && state_eq applied.0.state last_ack)) [
        | inl e ↦ rw (e, on_ack) v1
        | inr e ↦
            rw (e, on_ack)
              (finish-Sends _ s _ now_ms config
                (after_ack-Sends applied.0 ack s c.send_una fin output now_ms config v1 h))
      ]

  on_synchronized-Sends :
      (c : Connection P) (s : Segment) (now_ms : ℕ) (config : Config)
      → Sends sent c
      → IsU32 (value_or s.ack 0)
      → s.window ≤ u16_max
      → Sends sent (on_synchronized c s now_ms config).0
  unfolding on_synchronized
  on_synchronized-Sends c s now_ms config v k h = elim (Option-cases s.ack) [
    | inl e ↦ rw (e, on_synchronized) (finish-Sends c s [] now_ms config v)
    | inr (ack, e) ↦ rw (e, on_synchronized) (on_ack-Sends c ack s now_ms config v (rw e at k) h)
  ]

  -- Whatever segment arrives in whatever state, with an ACK number and a window of their width,
  -- `on_segment` keeps the sender's invariant.
  pub on_segment-Sends :
      (c : Connection P) (s : Segment) (now_ms : ℕ) (config : Config)
      → Sends sent c
      → IsU32 (value_or s.ack 0)
      → s.window ≤ u16_max
      → Sends sent (on_segment c s now_ms config).0
  unfolding on_segment
  on_segment-Sends c s now_ms config v k h =
      let a = on_syn_sent-Sends c s now_ms config v h in
      let b = on_syn_received-Sends c s now_ms config v h in
      let d = on_synchronized-Sends c s now_ms config v k h in ground (arith, a, b, d)
