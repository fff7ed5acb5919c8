-- ===== src/Connection/Sender/Flush.antt =====
-- The stream of the sending side: `flush_data`, `write` and `close`.
use fips_tcp.Common.{
  Bool-cases, List, Yields, [], ap, append_assoc, arith, drop, drop_le-append, false, inl, inr,
  length, length-append, length-take, min, not, refl, subst, suc, take, take-append-drop, true,
  u16_max, zero, ℕ, ◌++◌, ◌+◌, ◌-◌, ◌<◌, ◌||◌, ◌∙◌, ◌≡◌, ◌≤◌, ◌⊎◌,
}
use fips_tcp.Types.{Config, State, established}
use fips_tcp.Wire.{flag_len, contains}
use fips_tcp.Marker
use fips_tcp.Segments.{ack_psh, fin_ack}
use fips_tcp.Connection.{Connection, available_to_send}
use fips_tcp.Connection.Send.{
  sends_data, write, close, can_send, send_fin, send_round, send_rounds, send_tracked, can_finish,
  fin_state, flush_data, unacked_bytes,
}
use fips_tcp.Connection.States.{state-send_rounds}
use fips_tcp.Connection.Flight.{total-eq, bytes_of, control_len, controls}
use fips_tcp.Connection.Sender.{Sends, in_flight-eq, push-Inv}

psh_control :
    (s : ℕ) (p : List ℕ) (n : ℕ)
    → control_len
        (record { seq = s; flags = ack_psh; payload = p; sent_at_ms = n; transmissions = 1 })
      ≡ 0
unfolding control_len flag_len contains
psh_control s p n = refl

fin_control :
    (s : ℕ) (n : ℕ)
    → control_len
        (record { seq = s; flags = fin_ack; payload = []; sent_at_ms = n; transmissions = 1 })
      ≡ 1
unfolding control_len flag_len contains
fin_control s n = refl

fin_state-quiet : (st : State) → sends_data (fin_state st) ≡ false
fin_state-quiet established = refl
fin_state-quiet _ = refl

no_control-sends :
    (st : State) (n : ℕ) → sends_data st ≡ true → (sends_data st ≡ false) ⊎ (n ≡ 0) → n ≡ 0
no_control-sends st n h (inl f) = cc
no_control-sends st n h (inr z) = z

module _ {P : Type 0} (sent : List ℕ) where
  -- The front of the queue goes out as one data segment.
  pub send_data-Sends :
      (c : Connection P) (bytes rest : List ℕ) (now_ms : ℕ)
      → Sends sent c
      → bytes ++ rest ≡ c.send_queue
      → 1 ≤ length bytes
      → length (bytes_of c.unacked) + length bytes ≤ u16_max
      → Sends sent (send_tracked (record c { send_queue = rest }) ack_psh bytes now_ms).0
  unfolding send_tracked
  send_data-Sends c bytes rest now_ms v e l f =
      let z = psh_control c.send_nxt bytes now_ms in
      push-Inv sent c.send_una c.send_nxt c.remote_window c.mss c.unacked rest c.send_progress
        c.state c.state _ (rw e v) refl (omega (arith, z)) (inl z) f
        (omega (arith, z, v.one_control)) (ground (arith, z, v.no_control))

  send_round-Sends :
      (c : Connection P) (now_ms : ℕ)
      → Sends sent c
      → can_send c ≡ true
      → Sends sent (send_round c now_ms).0
  unfolding send_round
  send_round-Sends c now_ms v h =
      let n = min (min (available_to_send c) c.mss) (length c.send_queue) in
      let room : (0 < available_to_send c) × (0 < length c.send_queue) = can_send-lem c h in
      send_data-Sends c (take n c.send_queue) (drop n c.send_queue) now_ms v
        (take-append-drop n c.send_queue)
        (omega (arith, room, v.mss_pos, length-take n c.send_queue))
        (omega (
          arith,
          room,
          v.window_range,
          in_flight-eq v,
          total-eq c.unacked,
          length-take n c.send_queue,
        ))
    where
      can_send-lem :
          (c : Connection P)
          → can_send c ≡ true
          → (0 < available_to_send c) × (0 < length c.send_queue)
      can_send-lem c h = ground arith

  send_rounds-Sends :
      (fuel : ℕ) (c : Connection P) (now_ms : ℕ)
      → Sends sent c
      → Sends sent (send_rounds fuel c now_ms).0
  unfolding send_rounds
  send_rounds-Sends zero c now_ms v = v
  send_rounds-Sends (suc fuel) c now_ms v = elim (Bool-cases (can_send c)) [
    | inl more ↦
        rw (more, send_rounds)
          (send_rounds-Sends fuel (send_round c now_ms).0 now_ms (send_round-Sends c now_ms v more))
    | inr done ↦ rw (done, send_rounds) v
  ]

  send_fin-Sends :
      (c : Connection P) (now_ms : ℕ)
      → Sends sent c
      → sends_data c.state ≡ true
      → Sends sent (send_fin c now_ms).0
  unfolding send_fin send_tracked
  send_fin-Sends c now_ms v h =
      let z = fin_control c.send_nxt now_ms in
      let quiet = no_control-sends c.state (controls c.unacked) h v.no_control in
      elim (Bool-cases (can_finish c)) [
        | inl go ↦
            rw (go, send_fin)
              (push-Inv sent c.send_una c.send_nxt c.remote_window c.mss c.unacked c.send_queue
                c.send_progress c.state (fin_state c.state) _ v refl (omega (arith, z)) (inr refl)
                (omega (arith, v.flight)) (omega (arith, z, quiet)) (inl (fin_state-quiet c.state)))
        | inr stay ↦ rw (stay, send_fin) v
      ]

  -- Sending what the windows allow loses and reorders nothing.
  pub flush_data-Sends :
      (c : Connection P) (now_ms : ℕ) → Sends sent c → Sends sent (flush_data c now_ms).0
  unfolding flush_data
  flush_data-Sends c now_ms v = elim (Bool-cases (sends_data c.state)) [
    | inl open_state ↦
        rw (open_state, flush_data)
          (send_fin-Sends (send_rounds (length c.send_queue) c now_ms).0 now_ms
            (send_rounds-Sends (length c.send_queue) c now_ms v)
            (rw (state-send_rounds (length c.send_queue) c now_ms) open_state))
    | inr quiet ↦ rw (quiet, flush_data) v
  ]

  accept-Inv :
      (c : Connection P) (bytes : List ℕ)
      → Sends sent c
      → Sends (sent ++ bytes) (record c {
        send_queue = c.send_queue ++ bytes;
        send_progress = Marker.accept c.send_progress (length bytes);
      })
  unfolding Marker.accept
  accept-Inv c bytes v = record {
    una_range = v.una_range;
    chain = v.chain;
    window_range = v.window_range;
    mss_pos = v.mss_pos;
    flight = v.flight;
    one_control = v.one_control;
    no_control = v.no_control;
    content =
        drop_le-append c.send_progress.acked_payload_bytes sent bytes v.acked_le
        ∙ ap (λ x. x ++ bytes) v.content
        ∙ append_assoc (bytes_of c.unacked) c.send_queue bytes;
    accepted = omega (arith, v.accepted, length-append sent bytes);
    acked_le = omega (arith, v.acked_le, length-append sent bytes);
  }

  accepts-Inv :
      (c : Connection P) (bytes : List ℕ) (n : ℕ)
      → Sends sent c
      → n ≤ length bytes
      → Sends (sent ++ take n bytes) (record c {
        send_queue = c.send_queue ++ take n bytes;
        send_progress = Marker.accept c.send_progress n;
      })
  accepts-Inv c bytes n v h =
      let e : length (take n bytes) ≡ n = omega (arith, length-take n bytes) in
      subst
        (λ k. Sends (sent ++ take n bytes) (record c {
          send_queue = c.send_queue ++ take n bytes;
          send_progress = Marker.accept c.send_progress k;
        }))
        e (accept-Inv c (take n bytes) v)

  pub close-Sends : (c : Connection P) (now_ms : ℕ) → Sends sent c → Sends sent (close c now_ms).0
  unfolding close
  close-Sends c now_ms v =
      let flushed = flush_data-Sends (record c { close_requested = true }) now_ms v in
      ground (arith, flushed)

-- When `write` succeeds, the bytes that it says it accepted, a prefix of the argument, are the
-- ones that join the stream, and the sender's invariant holds for the longer stream.
pub write-Sends :
    {P : Type 0} (sent : List ℕ) (c : Connection P) (bytes : List ℕ) (now_ms : ℕ) (config : Config)
    → Sends sent c
    → Yields
        (λ r. Sends (sent ++ take r.1 bytes) r.0 × (r.1 ≤ length bytes))
        (write c bytes now_ms config)
unfolding write
write-Sends sent c bytes now_ms config v =
    let n =
      min (length bytes) (config.send_buffer - (length c.send_queue + unacked_bytes c.unacked)) in
    elim (Bool-cases (not (sends_data c.state) || c.close_requested)) [
      | inl refused ↦ rw (refused, write) tt
      | inr open_state ↦
          rw (open_state, write)
            (
              flush_data-Sends (sent ++ take n bytes) _ now_ms
                  (accepts-Inv sent c bytes n v (omega arith)),
              omega arith,
            )
    ]
