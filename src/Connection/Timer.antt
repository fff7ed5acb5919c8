-- ===== src/Connection/Timer.antt =====
-- stack_poll.rs: the timers of a connection.
use fips_tcp.Common.{
  Bool, Option, [], any, false, if◌then◌else◌, is_empty, is_some, leb, min, none, not, sat_add,
  sat_mul, sat_suc8, some, true, ℕ, ◌&&◌, ◌++◌, ◌==◌, ◌^◌, ◌||◌, ◌∷◌,
}
use fips_tcp.Wire.{value_or}
use fips_tcp.Types.{Config, fin_wait_2, time_wait}
use fips_tcp.Rtt
use fips_tcp.Rtt.{timeout_ms}
use fips_tcp.Reno
use fips_tcp.Segments.{TrackedSegment}
use fips_tcp.Connection.{
  Connection, Update, closed_update, get_or_insert, in_flight, open_update, option_list,
}
use fips_tcp.Connection.Send.{flush_data, zero_window_probe}
use fips_tcp.Connection.Ack.{retransmit_oldest}

-- The smaller of the times that there are.
abbrev pub min_time : Option ℕ → Option ℕ → Option ℕ
min_time none b = b
min_time (some a) none = some a
min_time (some a) (some b) = some (min a b)

-- `is_some_and(|deadline| now_ms >= deadline)`
abbrev pub is_due : Option ℕ → ℕ → Bool
is_due none now_ms = false
is_due (some deadline) now_ms = leb deadline now_ms

-- The delay after the probe that makes `probes` in all.
abbrev pub probe_delay : Config → ℕ → ℕ
probe_delay config probes =
    min (sat_mul config.initial_rto_ms (2 ^ min probes 16)) config.max_rto_ms

module _ {P : Type 0} where
  unfoldable pub close_deadline : Connection P → Option ℕ
  close_deadline c = elim c.state [
    | fin_wait_2 ↦ c.fin_wait_2_until_ms
    | time_wait ↦ c.time_wait_until_ms
    | _ ↦ none
  ]

  unfoldable pub has_probe_payload : Connection P → Bool
  has_probe_payload c = not (is_empty c.send_queue) || any (λ t. not (is_empty t.payload)) c.unacked

  -- The time at which the oldest tracked segment times out.
  unfoldable pub retransmit_at : Connection P → Option ℕ
  retransmit_at c = elim c.unacked [
    | [] ↦ none
    | oldest ∷ rest ↦ some (sat_add oldest.sent_at_ms (timeout_ms c.rtt))
  ]

  unfoldable pub next_poll_at : Connection P → ℕ → Config → Option ℕ
  next_poll_at c now_ms config =
      let has_payload = has_probe_payload c in
      let transport =
        if c.remote_window == 0 && (c.close_requested || has_payload)
        then (if has_payload || leb config.max_retransmissions c.zero_window_probes
            then some (value_or c.next_zero_window_probe_ms now_ms)
            else none)
        else retransmit_at c in
      min_time (close_deadline c) transport

  -- What is recorded of a probe that was sent.
  unfoldable pub count_probe : Connection P → ℕ → Config → Connection P
  count_probe c now_ms config =
      let probes = sat_suc8 c.zero_window_probes in
      record c {
        zero_window_probes = probes;
        next_zero_window_probe_ms = some (sat_add now_ms (probe_delay config probes));
      }

  -- A probe that is due.
  unfoldable pub send_probe : Connection P → ℕ → Config → Connection P × Update
  send_probe c now_ms config =
      if leb config.max_retransmissions c.zero_window_probes
      then (c, closed_update [])
      else (let (c1, probe) = zero_window_probe c now_ms in
          if is_some probe
          then (count_probe c1 now_ms config, open_update (option_list probe))
          else (c1, open_update []))

  -- `poll` while the peer's window is closed and there is something for it.
  unfoldable pub poll_zero_window : Connection P → ℕ → Config → Connection P × Update
  poll_zero_window c now_ms config =
      let deadline = value_or c.next_zero_window_probe_ms (sat_add now_ms config.initial_rto_ms) in
      let c' : Connection P = record c { next_zero_window_probe_ms = some deadline } in
      if leb deadline now_ms then send_probe c' now_ms config else (c', open_update [])

  -- The state after a timeout, before the oldest segment is sent again.
  unfoldable pub time_out : Connection P → Connection P
  time_out c = record c {
    rto_recovery_until = get_or_insert c.rto_recovery_until c.send_nxt;
    reno = Reno.on_timeout c.reno (in_flight c);
    rtt = Rtt.on_timeout c.rtt;
  }

  -- `poll` once the oldest segment has timed out.
  unfoldable pub poll_timed_out : Connection P → TrackedSegment → ℕ → Config → Connection P × Update
  poll_timed_out c oldest now_ms config =
      if leb config.max_retransmissions oldest.transmissions
      then (c, closed_update [])
      else (let (c1, segment) = retransmit_oldest (time_out c) now_ms true in
          let (c2, sent) = flush_data c1 now_ms in (c2, open_update (option_list segment ++ sent)))

  -- `poll` with an open window, or with nothing to send.
  unfoldable pub poll_open_window : Connection P → ℕ → Config → Connection P × Update
  poll_open_window c now_ms config =
      let flushed = flush_data c now_ms in
      elim c.unacked [
        | [] ↦ (flushed.0, open_update flushed.1)
        | oldest ∷ rest ↦
            if leb (sat_add oldest.sent_at_ms (timeout_ms c.rtt)) now_ms
            then poll_timed_out c oldest now_ms config
            else (flushed.0, open_update flushed.1)
      ]

  unfoldable pub poll : Connection P → ℕ → Config → Connection P × Update
  poll c now_ms config =
      if is_due (close_deadline c) now_ms
      then (c, closed_update [])
      else (if c.remote_window == 0 && (c.close_requested || has_probe_payload c)
          then poll_zero_window c now_ms config
          else poll_open_window c now_ms config)
