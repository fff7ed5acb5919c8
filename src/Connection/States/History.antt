-- ===== src/Connection/States/History.antt =====
-- The states of a connection in a history.
use fips_tcp.Common.{
  Bool, Bool-cases, List, List-cases, Option-cases, Result, Yields, [], arith, err, false,
  if◌then◌else◌, inl, inr, leb, not, ok, refl, sat_add, some, subst, sym, true, wrapping_add, ℕ,
  ◌&&◌, ◌++◌, ◌<◌, ◌==◌, ◌||◌, ◌∙◌, ◌∷◌, ◌≡◌, ◌⊎◌,
}
use fips_tcp.Types.{
  Config, State, StackError, closing, fin_wait_1, last_ack, syn_received, syn_sent, state_eq,
}
use fips_tcp.Wire.{
  Segment, contains, syn_flag, rst_flag, ack_flag, fips_version_number, supports_fips_version,
  value_or,
}
use fips_tcp.Seq.{after, in_closed_interval}
use fips_tcp.Segments.{TrackedSegment, is_duplicate_ack_candidate, option_eq}
use fips_tcp.Rtt.{timeout_ms}
use fips_tcp.Connection.{Connection, option_list}
use fips_tcp.Connection.Send
use fips_tcp.Connection.Receive
use fips_tcp.Connection.Timer
use fips_tcp.Connection.Send.{
  sends_data, first_payload, flush_data, negotiate_mss, probe_from_queue, send_tracked,
  update_remote_window, zero_window_probe,
}
use fips_tcp.Connection.Ack.{apply_ack, retransmit_oldest}
use fips_tcp.Connection.Receive.{enter_time_wait, receive_stream_data}
use fips_tcp.Connection.Timer.{
  count_probe, poll_open_window, poll_timed_out, poll_zero_window, send_probe, time_out,
}
use fips_tcp.Connection.Input.{
  on_ack, on_segment, after_ack, finish, on_fin_acked, on_syn_received, on_syn_sent, receive_if,
  repair_if, on_synchronized, has_stream_data,
}
use fips_tcp.Connection.History
use fips_tcp.Connection.History.{Event, step, run, wrote}
use fips_tcp.Connection.States.{
  Reaches, stays, moves, Reaches-then, syn_answered, syn_acked, fin_is_acked, crossed_fin_is_acked,
  flush_data-Reaches, receive_stream_data-Reaches, state-apply_ack, state-repair_timed_out_flight,
  state-retransmit_oldest, state-update_remote_window, rank, rank-Reaches,
}

module _ {P : Type 0} where
  receive_if-Reaches :
      (c : Connection P) (s : Segment) (output : List Segment) (now_ms : ℕ) (config : Config)
      → Reaches c.state (receive_if c s output now_ms config).0.state
  unfolding receive_if
  receive_if-Reaches c s output now_ms config = elim (Bool-cases (has_stream_data s)) [
    | inl e ↦ rw (e, receive_if) (receive_stream_data-Reaches c s now_ms config)
    | inr e ↦ rw (e, receive_if) (stays refl)
  ]

  finish-Reaches :
      (c : Connection P) (s : Segment) (output : List Segment) (now_ms : ℕ) (config : Config)
      → Reaches c.state (finish c s output now_ms config).0.state
  unfolding finish
  finish-Reaches c s output now_ms config =
      Reaches-then (receive_if-Reaches c s output now_ms config)
        (flush_data-Reaches (receive_if c s output now_ms config).0 now_ms)

  on_fin_acked_at :
      (st : State) (c : Connection P) (now_ms : ℕ) (config : Config)
      → c.state ≡ st
      → Reaches st (on_fin_acked c now_ms config).state
  unfolding on_fin_acked enter_time_wait
  on_fin_acked_at fin_wait_1 c now_ms config e =
      rw (e, on_fin_acked) (moves fin_is_acked (stays refl))
  on_fin_acked_at closing c now_ms config e =
      rw (e, on_fin_acked) (moves crossed_fin_is_acked (stays refl))
  on_fin_acked_at _ c now_ms config e = rw (e, on_fin_acked) (stays (sym e))

  fin_acked_if :
      (b : Bool) (c : Connection P) (now_ms : ℕ) (config : Config)
      → let d : Connection P = if b then on_fin_acked c now_ms config else c in
        Reaches c.state d.state
  fin_acked_if true c now_ms config = on_fin_acked_at c.state c now_ms config refl
  fin_acked_if false c now_ms config = stays refl

  window_if :
      (b : Bool) (c : Connection P) (window now_ms : ℕ)
      → let d : Connection P = if b then update_remote_window c window now_ms else c in
        d.state ≡ c.state
  window_if true c window now_ms = state-update_remote_window c window now_ms
  window_if false c window now_ms = refl

  after_ack-Reaches :
      (c : Connection P) (ack : ℕ) (s : Segment) (una : ℕ) (fin_acked : Bool)
      (output : List Segment) (now_ms : ℕ) (config : Config)
      → Reaches c.state (after_ack c ack s una fin_acked output now_ms config).0.state
  unfolding after_ack repair_if
  after_ack-Reaches c ack s una fin_acked output now_ms config =
      let c2 : Connection P = if fin_acked then on_fin_acked c now_ms config else c in
      let r2 = fin_acked_if fin_acked c now_ms config in
      let inside = in_closed_interval ack c2.send_una c2.send_nxt in
      let c3 : Connection P = if inside then update_remote_window c2 s.window now_ms else c2 in
      let r3 : Reaches c.state c3.state =
        Reaches-then r2 (stays (sym (window_if inside c2 s.window now_ms))) in
      elim (Bool-cases (after c3.send_una una)) [
        | inr same ↦ rw (same, after_ack) r3
        | inl advanced ↦
            rw (advanced, after_ack)
              (Reaches-then r3 (stays (sym (state-repair_timed_out_flight c3 now_ms config))))
      ]

  on_ack-Reaches :
      (c : Connection P) (ack : ℕ) (s : Segment) (now_ms : ℕ) (config : Config)
      → Reaches c.state (on_ack c ack s now_ms config).0.state
  unfolding on_ack
  on_ack-Reaches c ack s now_ms config =
      let duplicate = is_duplicate_ack_candidate s c.send_una c.remote_window in
      let r = apply_ack c ack now_ms duplicate in
      let r1 : Reaches c.state r.0.state = stays (sym (state-apply_ack c ack now_ms duplicate)) in
      let fin = r.1.fin_acked in
      let output = option_list r.1.retransmit in
      elim (Bool-cases (fin && state_eq r.0.state last_ack)) [
        | inl last ↦ rw (last, on_ack) r1
        | inr more ↦
            rw (more, on_ack)
              (Reaches-then r1 (
                Reaches-then (after_ack-Reaches r.0 ack s c.send_una fin output now_ms config)
                  (finish-Reaches _ s _ now_ms config)))
      ]

  on_synchronized-Reaches :
      (c : Connection P) (s : Segment) (now_ms : ℕ) (config : Config)
      → Reaches c.state (on_synchronized c s now_ms config).0.state
  unfolding on_synchronized
  on_synchronized-Reaches c s now_ms config = elim (Option-cases s.ack) [
    | inl e ↦ rw (e, on_synchronized) (finish-Reaches c s [] now_ms config)
    | inr (ack, e) ↦ rw (e, on_synchronized) (on_ack-Reaches c ack s now_ms config)
  ]

  on_syn_sent-Reaches :
      (c : Connection P) (s : Segment) (now_ms : ℕ) (config : Config)
      → c.state ≡ syn_sent
      → Reaches syn_sent (on_syn_sent c s now_ms config).0.state
  unfolding on_syn_sent
  on_syn_sent-Reaches c s now_ms config e =
      elim (Bool-cases (
        contains s.flags syn_flag
        && (contains s.flags ack_flag
            && (option_eq s.ack c.send_nxt && supports_fips_version s fips_version_number)))) [
              | inl answer ↦ rw (answer, on_syn_sent) (moves syn_answered (stays refl))
              | inr other ↦ rw (other, on_syn_sent) (stays (sym e))
            ]

  on_syn_received-Reaches :
      (c : Connection P) (s : Segment) (now_ms : ℕ) (config : Config)
      → c.state ≡ syn_received
      → Reaches syn_received (on_syn_received c s now_ms config).0.state
  unfolding on_syn_received
  on_syn_received-Reaches c s now_ms config e =
      elim (Bool-cases (
        contains s.flags syn_flag
        && (not (contains s.flags ack_flag) && wrapping_add s.seq 1 == c.recv_nxt))) [
          | inl again ↦
              rw (again, on_syn_received) (stays (sym (state-retransmit_oldest c now_ms false ∙ e)))
          | inr other ↦ elim (Bool-cases (not (option_eq s.ack c.send_nxt))) [
            | inl stay ↦ rw (other, stay, on_syn_received) (stays (sym e))
            | inr go ↦
                rw (other, go, on_syn_received)
                  (moves syn_acked (finish-Reaches _ s [] now_ms config))
          ]
        ]

  on_segment_at :
      (st : State) (c : Connection P) (s : Segment) (now_ms : ℕ) (config : Config)
      → c.state ≡ st
      → contains s.flags rst_flag ≡ false
      → Reaches st (on_segment c s now_ms config).0.state
  unfolding on_segment
  on_segment_at syn_sent c s now_ms config e n =
      rw (n, e, on_segment) (on_syn_sent-Reaches c s now_ms config e)
  on_segment_at syn_received c s now_ms config e n =
      rw (n, e, on_segment) (on_syn_received-Reaches c s now_ms config e)
  on_segment_at _ c s now_ms config e n =
      rw (n, e, on_segment)
        (subst (λ x. Reaches x (on_synchronized c s now_ms config).0.state) e
          (on_synchronized-Reaches c s now_ms config))

  on_segment-Reaches :
      (c : Connection P) (s : Segment) (now_ms : ℕ) (config : Config)
      → Reaches c.state (on_segment c s now_ms config).0.state
  unfolding on_segment
  on_segment-Reaches c s now_ms config = elim (Bool-cases (contains s.flags rst_flag)) [
    | inl reset ↦ rw (reset, on_segment) (stays refl)
    | inr other ↦ on_segment_at c.state c s now_ms config refl other
  ]

  probe_from_queue-state :
      (c : Connection P) (queue : List ℕ) (now_ms : ℕ)
      → (probe_from_queue c queue now_ms).0.state ≡ c.state
  unfolding probe_from_queue send_tracked
  probe_from_queue-state c [] now_ms = refl
  probe_from_queue-state c (byte ∷ rest) now_ms = refl

  zero_window_probe-state :
      (c : Connection P) (now_ms : ℕ) → (zero_window_probe c now_ms).0.state ≡ c.state
  unfolding zero_window_probe
  zero_window_probe-state c now_ms = elim (Option-cases (first_payload c.unacked)) [
    | inl e ↦ rw (e, zero_window_probe) (probe_from_queue-state c c.send_queue now_ms)
    | inr (t, e) ↦ rw (e, zero_window_probe) refl
  ]

  poll_timed_out-Reaches :
      (c : Connection P) (oldest : TrackedSegment) (now_ms : ℕ) (config : Config)
      → Reaches c.state (poll_timed_out c oldest now_ms config).0.state
  unfolding poll_timed_out time_out
  poll_timed_out-Reaches c oldest now_ms config =
      let again =
        Reaches-then (stays (sym (state-retransmit_oldest (time_out c) now_ms true)))
          (flush_data-Reaches (retransmit_oldest (time_out c) now_ms true).0 now_ms) in
      elim (Bool-cases (leb config.max_retransmissions oldest.transmissions)) [
        | inl spent ↦ rw (spent, poll_timed_out) (stays refl)
        | inr more ↦ rw (more, poll_timed_out) again
      ]

  poll_open_window-Reaches :
      (c : Connection P) (now_ms : ℕ) (config : Config)
      → Reaches c.state (poll_open_window c now_ms config).0.state
  unfolding poll_open_window
  poll_open_window-Reaches c now_ms config =
      let flushed = flush_data-Reaches c now_ms in
      elim (List-cases c.unacked) [
        | inl e ↦ rw (e, poll_open_window) flushed
        | inr (oldest, rest, e) ↦
            elim (Bool-cases (leb (sat_add oldest.sent_at_ms (timeout_ms c.rtt)) now_ms)) [
              | inl late ↦
                  rw (e, late, poll_open_window) (poll_timed_out-Reaches c oldest now_ms config)
              | inr early ↦ rw (e, early, poll_open_window) flushed
            ]
      ]

  poll-Reaches :
      (c : Connection P) (now_ms : ℕ) (config : Config)
      → Reaches c.state (Timer.poll c now_ms config).0.state
  unfolding Timer.poll poll_zero_window send_probe count_probe
  poll-Reaches c now_ms config =
      let deadline = value_or c.next_zero_window_probe_ms (sat_add now_ms config.initial_rto_ms) in
      let probed =
        zero_window_probe-state (record c { next_zero_window_probe_ms = some deadline }) now_ms in
      let p : Reaches c.state (poll_zero_window c now_ms config).0.state =
        stays (ground (arith, probed)) in
      let o = poll_open_window-Reaches c now_ms config in
      let same : Reaches c.state c.state = stays refl in ground (arith, p, o, same)

  close-Reaches : (c : Connection P) (now_ms : ℕ) → Reaches c.state (Send.close c now_ms).0.state
  unfolding Send.close
  close-Reaches c now_ms =
      let flushed = flush_data-Reaches (record c { close_requested = true }) now_ms in
      let same : Reaches c.state c.state = stays refl in ground (arith, flushed, same)

module _ {P : Type 0} (config : Config) where
  wrote-Reaches :
      (c : Connection P) (bytes : List ℕ) (r : Result StackError (Connection P × ℕ × List Segment))
      → Yields (λ q. Reaches c.state q.0.state) r
      → Reaches c.state (wrote config c bytes r).0.state
  wrote-Reaches c bytes (ok (c', n, out)) h = h
  wrote-Reaches c bytes (err e) h = stays refl

  write-Reaches :
      (c : Connection P) (bytes : List ℕ) (now_ms : ℕ)
      → Yields (λ q. Reaches c.state q.0.state) (Send.write c bytes now_ms config)
  unfolding Send.write
  write-Reaches c bytes now_ms = elim (Bool-cases (not (sends_data c.state) || c.close_requested)) [
    | inl refused ↦ rw (refused, Send.write) tt
    | inr going ↦ rw (going, Send.write) (flush_data-Reaches _ now_ms)
  ]

  step-Reaches : (c : Connection P) (e : Event) → Reaches c.state (step config c e).0.state
  unfolding step Receive.read
  step-Reaches c (History.segment s now_ms) = on_segment-Reaches c s now_ms config
  step-Reaches c (History.write bytes now_ms) =
      wrote-Reaches c bytes (Send.write c bytes now_ms config) (write-Reaches c bytes now_ms)
  step-Reaches c (History.read n) = stays refl
  step-Reaches c (History.close now_ms) = close-Reaches c now_ms
  step-Reaches c (History.poll now_ms) = poll-Reaches c now_ms config

  -- In every history of arriving segments, writes, reads, closes and polls the state of a
  -- connection moves along the arrows of the TCP state diagram only, and is at the end the one
  -- that it was or one further on, so that a state that was left is never entered again.
  pub run-Reaches :
      (sent : List ℕ) (c : Connection P) (es : List Event)
      → let d = (run config c sent es).0 in
        Reaches c.state d.state × ((c.state ≡ d.state) ⊎ (rank c.state < rank d.state))
  unfolding run
  run-Reaches sent c [] = (stays refl, inl refl)
  run-Reaches sent c (e ∷ es) =
      let rest = run-Reaches (sent ++ (step config c e).1) (step config c e).0 es in
      let r = Reaches-then (step-Reaches c e) rest.0 in (r, rank-Reaches r)
