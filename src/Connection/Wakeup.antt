-- ===== src/Connection/Wakeup.antt =====
-- stack_poll.rs: `next_poll_at` and `poll`.
use fips_tcp.Common.{
  Bool-cases, List, List-cases, [], any, arith, false, inl, inr, is_empty, leb, none, not, refl,
  sat_add, some, true, ℕ, ◌&&◌, ◌==◌, ◌||◌, ◌∷◌, ◌≡◌,
}
use fips_tcp.Connection.{Connection, open_update}
use fips_tcp.Connection.Send.{
  can_send, can_finish, flush_data, send_rounds, send_fin, first_payload, zero_window_probe,
  probe_from_queue, sends_data,
}
use fips_tcp.Connection.Timer.{
  next_poll_at, poll, is_due, has_probe_payload, send_probe, poll_open_window, poll_zero_window,
  retransmit_at, close_deadline,
}
use fips_tcp.Segments.{TrackedSegment}
use fips_tcp.Types.{Config}
use fips_tcp.Wire.{value_or}
use fips_tcp.Rtt.{timeout_ms}

first_payload-none :
    (ts : List TrackedSegment)
    → any (λ t. not (is_empty t.payload)) ts ≡ false
    → first_payload ts ≡ none
unfolding first_payload
first_payload-none [] h = refl
first_payload-none (t ∷ ts) h = ground (arith, h, first_payload-none ts)

module _ {P : Type 0} where
  flush_data-idle :
      (c : Connection P) (now_ms : ℕ)
      → can_send c ≡ false
      → can_finish c ≡ false
      → (flush_data c now_ms).1 ≡ []
  unfolding flush_data send_rounds send_fin
  flush_data-idle c now_ms h k = elim (Bool-cases (sends_data c.state)) [
    | inr e ↦ rw (e, flush_data) refl
    | inl e ↦ elim (List-cases c.send_queue) [
      | inl n ↦ rw (e, n, flush_data) (ground (arith, h, k, n))
      | inr (x, xs, n) ↦ rw (e, n, flush_data) (ground (arith, h, k, n))
    ]
  ]

  send_probe-idle :
      (c : Connection P) (now_ms : ℕ) (config : Config)
      → has_probe_payload c ≡ false
      → leb config.max_retransmissions c.zero_window_probes ≡ false
      → (send_probe c now_ms config).1 ≡ open_update []
  unfolding send_probe zero_window_probe has_probe_payload probe_from_queue
  send_probe-idle c now_ms config h k =
      let nothing = first_payload-none c.unacked (ground (arith, h)) in
      elim (List-cases c.send_queue) [
        | inl n ↦ rw (k, nothing, n, send_probe, zero_window_probe) refl
        | inr (x, xs, n) ↦ absurd (ground (arith, h, n))
      ]

  poll_zero_window-idle :
      (c : Connection P) (now_ms : ℕ) (config : Config)
      → (c.remote_window == 0 && (c.close_requested || has_probe_payload c)) ≡ true
      → is_due (next_poll_at c now_ms config) now_ms ≡ false
      → (poll_zero_window c now_ms config).1 ≡ open_update []
  unfolding poll_zero_window next_poll_at has_probe_payload
  poll_zero_window-idle c now_ms config z h =
      let deadline = value_or c.next_zero_window_probe_ms (sat_add now_ms config.initial_rto_ms) in
      let c' : Connection P = record c { next_zero_window_probe_ms = some deadline } in
      let probe = send_probe-idle c' now_ms config in
      elim (Bool-cases (leb deadline now_ms)) [
        | inr early ↦ rw (early, poll_zero_window) refl
        | inl late ↦ elim (Bool-cases (has_probe_payload c)) [
          | inl some_payload ↦ ground (arith, z, h, late, some_payload)
          | inr no_payload ↦
              rw (late, poll_zero_window)
                (probe no_payload (ground (arith, z, h, late, no_payload)))
        ]
      ]

  poll_open_window-idle :
      (c : Connection P) (now_ms : ℕ) (config : Config)
      → (c.remote_window == 0 && (c.close_requested || has_probe_payload c)) ≡ false
      → is_due (next_poll_at c now_ms config) now_ms ≡ false
      → (flush_data c now_ms).1 ≡ []
      → (poll_open_window c now_ms config).1 ≡ open_update []
  unfolding poll_open_window next_poll_at retransmit_at
  poll_open_window-idle c now_ms config z h f = elim (List-cases c.unacked) [
    | inl e ↦ rw (e, f, poll_open_window) refl
    | inr (t, ts, e) ↦
        let early : leb (sat_add t.sent_at_ms (timeout_ms c.rtt)) now_ms ≡ false =
          ground (arith, z, h, e) in
        rw (e, early, f, poll_open_window) refl
  ]

  -- When `next_poll_at` gives no time or a later one, and neither data nor a FIN can go out,
  -- `poll` sends no segment and does not close the connection: a program may sleep until that
  -- time.
  pub poll-before_next_poll_at :
      (c : Connection P) (now_ms : ℕ) (config : Config)
      → is_due (next_poll_at c now_ms config) now_ms ≡ false
      → can_send c ≡ false
      → can_finish c ≡ false
      → (poll c now_ms config).1 ≡ open_update []
  unfolding poll next_poll_at
  poll-before_next_poll_at c now_ms config h k l =
      let f = flush_data-idle c now_ms k l in
      let early : is_due (close_deadline c) now_ms ≡ false = ground (arith, h) in
      elim (Bool-cases (c.remote_window == 0 && (c.close_requested || has_probe_payload c))) [
        | inl z ↦ rw (early, z, poll) (poll_zero_window-idle c now_ms config z h)
        | inr z ↦ rw (early, z, poll) (poll_open_window-idle c now_ms config z h f)
      ]
