-- ===== src/Connection/Loops.antt =====
-- The ends of the loops of `flush_data` and `drain_reassembly` in stack.rs.
use fips_tcp.Common.{
  Bool-cases, List-cases, [], arith, false, inl, inr, length, length-drop, min, suc, true, zero, ℕ,
  ◌<◌, ◌≡◌, ◌≤◌, ◌⊎◌,
}
use fips_tcp.Connection.{Connection, available_to_send}
use fips_tcp.Connection.Send.{
  can_send, send_round, send_rounds, send_tracked, flush_data, send_fin, sends_data,
}

module _ {P : Type 0} where
  -- A round takes a byte off the queue at least and leaves the segment size.
  send_round_lem :
      (c : Connection P) (now_ms : ℕ)
      → 1 ≤ c.mss
      → can_send c ≡ true
      → (length (send_round c now_ms).0.send_queue < length c.send_queue)
        × ((send_round c now_ms).0.mss ≡ c.mss)
  unfolding send_round send_tracked
  send_round_lem c now_ms h e = elim (List-cases c.send_queue) [
    | inl n ↦ ground (arith, n)
    | inr (x, xs, n) ↦ ground (
      arith,
      n,
      length-drop (min (min (available_to_send c) c.mss) (length c.send_queue)) c.send_queue,
    )
  ]

  pub send_rounds-can_send :
      (fuel : ℕ) (c : Connection P) (now_ms : ℕ)
      → 1 ≤ c.mss
      → length c.send_queue ≤ fuel
      → can_send (send_rounds fuel c now_ms).0 ≡ false
  unfolding send_rounds
  send_rounds-can_send zero c now_ms h k = elim (List-cases c.send_queue) [
    | inl n ↦ ground (arith, n)
    | inr (x, xs, n) ↦ ground (arith, n)
  ]
  send_rounds-can_send (suc fuel) c now_ms h k = elim (Bool-cases (can_send c)) [
    | inl e ↦
        let r = send_round_lem c now_ms h e in
        rw (e, send_rounds)
          (send_rounds-can_send fuel (send_round c now_ms).0 now_ms (omega (arith, r.1))
            (omega (arith, r.0)))
    | inr e ↦ rw (e, send_rounds) e
  ]

  -- In a state that sends data and with a segment size of at least 1, `flush_data` ends by its
  -- own test: the queue is empty afterwards, or the windows leave no room.
  pub flush_data-done :
      (c : Connection P) (now_ms : ℕ)
      → 1 ≤ c.mss
      → sends_data c.state ≡ true
      → ((flush_data c now_ms).0.send_queue ≡ []) ⊎ (available_to_send (flush_data c now_ms).0 ≡ 0)
  unfolding flush_data send_fin send_tracked
  flush_data-done c now_ms h e =
      let stops = send_rounds-can_send (length c.send_queue) c now_ms h (omega arith) in
      elim (List-cases (send_rounds (length c.send_queue) c now_ms).0.send_queue) [
        | inl n ↦ inl (ground (arith, e, n))
        | inr (x, xs, n) ↦ inr (ground (arith, e, n, stops))
      ]
