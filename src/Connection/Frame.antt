-- ===== src/Connection/Frame.antt =====
-- What the operations of the sending side leave alone: the peer, the ports and what the receiving
-- side keeps.
pub mod Data
pub mod Input
use fips_tcp.Common.{
  Bool, Bool-cases, List, List-cases, Option-cases, Yields, [], arith, false, inl, inr, leb, length,
  not, sat_add, sat_suc8, some, subst, suc, sym, true, zero, ℕ, ◌==◌, ◌||◌, ◌∙◌, ◌∷◌, ◌≡◌,
}
use fips_tcp.Reno
use fips_tcp.Wire.{value_or}
use fips_tcp.Seq.{after, before}
use fips_tcp.Segments.{ReassemblySegment, TrackedSegment}
use fips_tcp.Connection.{Connection, in_flight}
use fips_tcp.Connection.Ack.{
  apply_ack, advance_ack, repair_timed_out_flight, repeat_ack, retransmit, retransmit_oldest,
}
use fips_tcp.Connection.Send.{
  fin_state, flush_data, can_finish, can_send, send_fin, send_round, send_rounds, send_tracked,
  sends_data, first_payload, probe_from_queue, update_remote_window, zero_window_probe,
}
use fips_tcp.Types.{Config, State, state_eq, syn_sent}
use fips_tcp.Connection.Send
use fips_tcp.Connection.Timer.{
  poll, send_probe, count_probe, poll_open_window, poll_timed_out, poll_zero_window, time_out,
}

-- A predicate on whether the connection still waits for the answer to its SYN, the peer and the
-- ports, and the receiving side.
abbrev pub Receives : Type 0 → Type 1
Receives P = Bool → P → ℕ → ℕ → ℕ → ℕ → List ℕ → List ReassemblySegment → Bool → Type 0

abbrev pub Holds : {P : Type 0} → Receives P → Connection P → Type 0
Holds Q c =
    Q (state_eq c.state syn_sent) c.peer c.local_port c.remote_port c.receive_capacity c.recv_nxt
      c.recv_queue c.reassembly c.read_closed

-- A predicate, and whether the connection waits.
abbrev pub With : {P : Type 0} → Bool → Receives P → Receives P
With b Q waiting peer local_port remote_port capacity nxt queue reassembly closed =
    Q waiting peer local_port remote_port capacity nxt queue reassembly closed × (waiting ≡ b)

-- The state may change, once the answer has come.
pub opened-Holds :
    {P : Type 0} (Q : Receives P) (c : Connection P) (st : State)
    → Holds Q c
    → state_eq c.state syn_sent ≡ false
    → state_eq st syn_sent ≡ false
    → Holds Q (record c { state = st })
opened-Holds Q c st v e f =
    let q : Bool → Type 0 = λ b.
      Q b c.peer c.local_port c.remote_port c.receive_capacity c.recv_nxt c.recv_queue c.reassembly
        c.read_closed in
    subst q (e ∙ sym f) v

fin_state-open : (st : State) → state_eq (fin_state st) syn_sent ≡ false
fin_state-open st = ground arith

sends_data-open : (st : State) → sends_data st ≡ true → state_eq st syn_sent ≡ false
sends_data-open st h = ground (arith, h)

module _ {P : Type 0} (Q : Receives P) where
  send_rounds-Holds :
      (fuel : ℕ) (c : Connection P) (now_ms : ℕ) → Holds Q c → Holds Q (send_rounds fuel c now_ms).0
  unfolding send_rounds send_round send_tracked
  send_rounds-Holds zero c now_ms v = v
  send_rounds-Holds (suc fuel) c now_ms v = elim (Bool-cases (can_send c)) [
    | inl e ↦ rw (e, send_rounds) (send_rounds-Holds fuel (send_round c now_ms).0 now_ms v)
    | inr e ↦ rw (e, send_rounds) v
  ]

  send_fin-Holds :
      (c : Connection P) (now_ms : ℕ)
      → Holds Q c
      → state_eq c.state syn_sent ≡ false
      → Holds Q (send_fin c now_ms).0
  unfolding send_fin send_tracked
  send_fin-Holds c now_ms v apart = elim (Bool-cases (can_finish c)) [
    | inl e ↦
        rw (e, send_fin) (opened-Holds Q c (fin_state c.state) v apart (fin_state-open c.state))
    | inr e ↦ rw (e, send_fin) v
  ]

  -- What the rounds keep, a state after the handshake included, lets the FIN out.
  flushed-Holds :
      (c : Connection P) (now_ms : ℕ) → Holds (With false Q) c → Holds Q (send_fin c now_ms).0
  flushed-Holds c now_ms v = send_fin-Holds c now_ms v.0 v.1

module _ {P : Type 0} (Q : Receives P) where
  pub flush_data-Holds :
      (c : Connection P) (now_ms : ℕ) → Holds Q c → Holds Q (flush_data c now_ms).0
  unfolding flush_data
  flush_data-Holds c now_ms v = elim (Bool-cases (sends_data c.state)) [
    | inl e ↦
        rw (e, flush_data)
          (flushed-Holds Q (send_rounds (length c.send_queue) c now_ms).0 now_ms (
            send_rounds-Holds (With false Q) (length c.send_queue) c now_ms
              (v, sends_data-open c.state e)))
    | inr e ↦ rw (e, flush_data) v
  ]

  pub retransmit_oldest-Holds :
      (c : Connection P) (now_ms : ℕ) (timeout : Bool)
      → Holds Q c
      → Holds Q (retransmit_oldest c now_ms timeout).0
  unfolding retransmit_oldest retransmit
  retransmit_oldest-Holds c now_ms timeout v = elim (List-cases c.unacked) [
    | inl e ↦ rw (e, retransmit_oldest) v
    | inr (t, ts, e) ↦ elim (Bool-cases (leb c.max_transmissions t.transmissions)) [
      | inl spent ↦ rw (e, spent, retransmit_oldest) v
      | inr left ↦ rw (e, left, retransmit_oldest) v
    ]
  ]

  pub repair_timed_out_flight-Holds :
      (c : Connection P) (now_ms : ℕ) (config : Config)
      → Holds Q c
      → Holds Q (repair_timed_out_flight c now_ms config).0
  unfolding repair_timed_out_flight
  repair_timed_out_flight-Holds c now_ms config v =
      let again = retransmit_oldest-Holds c now_ms false v in ground (arith, again)

  repeat_ack-Holds :
      (c : Connection P) (now_ms : ℕ) (duplicate : Bool)
      → Holds Q c
      → Holds Q (repeat_ack c now_ms duplicate).0
  unfolding repeat_ack
  repeat_ack-Holds c now_ms duplicate v =
      let c1 : Connection P = record c {
        duplicate_acks = sat_suc8 c.duplicate_acks;
        reno = Reno.on_fast_loss (Reno.on_duplicate_ack c.reno) (in_flight c);
      } in
      let again = retransmit_oldest-Holds c1 now_ms false v in ground (arith, again)

  pub apply_ack-Holds :
      (c : Connection P) (ack now_ms : ℕ) (duplicate : Bool)
      → Holds Q c
      → Holds Q (apply_ack c ack now_ms duplicate).0
  unfolding apply_ack advance_ack
  apply_ack-Holds c ack now_ms duplicate v =
      let same = repeat_ack-Holds c now_ms duplicate v in
      elim (Bool-cases (after ack c.send_nxt || before ack c.send_una)) [
        | inl outside ↦ rw (outside, apply_ack) v
        | inr inside ↦ elim (Bool-cases (ack == c.send_una)) [
          | inl e ↦ rw (inside, e, apply_ack) same
          | inr e ↦ rw (inside, e, apply_ack) v
        ]
      ]

  pub update_remote_window-Holds :
      (c : Connection P) (window now_ms : ℕ)
      → Holds Q c
      → Holds Q (update_remote_window c window now_ms)
  unfolding update_remote_window
  update_remote_window-Holds c window now_ms v = elim (Bool-cases (window == 0)) [
    | inl e ↦ rw (e, update_remote_window) v
    | inr e ↦ rw (e, update_remote_window) v
  ]

  probe_from_queue-Holds :
      (c : Connection P) (queue : List ℕ) (now_ms : ℕ)
      → Holds Q c
      → Holds Q (probe_from_queue c queue now_ms).0
  unfolding probe_from_queue send_tracked
  probe_from_queue-Holds c [] now_ms v = v
  probe_from_queue-Holds c (byte ∷ rest) now_ms v = v

  zero_window_probe-Holds :
      (c : Connection P) (now_ms : ℕ) → Holds Q c → Holds Q (zero_window_probe c now_ms).0
  unfolding zero_window_probe
  zero_window_probe-Holds c now_ms v = elim (Option-cases (first_payload c.unacked)) [
    | inr (t, e) ↦ rw (e, zero_window_probe) v
    | inl e ↦ rw (e, zero_window_probe) (probe_from_queue-Holds c c.send_queue now_ms v)
  ]

  send_probe-Holds :
      (c : Connection P) (now_ms : ℕ) (config : Config)
      → Holds Q c
      → Holds Q (send_probe c now_ms config).0
  unfolding send_probe count_probe
  send_probe-Holds c now_ms config v =
      let w = zero_window_probe-Holds c now_ms v in ground (arith, w)

  poll_timed_out-Holds :
      (c : Connection P) (oldest : TrackedSegment) (now_ms : ℕ) (config : Config)
      → Holds Q c
      → Holds Q (poll_timed_out c oldest now_ms config).0
  unfolding poll_timed_out time_out
  poll_timed_out-Holds c oldest now_ms config v =
      let c1 = (retransmit_oldest (time_out c) now_ms true).0 in
      let w = retransmit_oldest-Holds (time_out c) now_ms true v in
      let u = flush_data-Holds c1 now_ms w in ground (arith, u)

  poll_zero_window-Holds :
      (c : Connection P) (now_ms : ℕ) (config : Config)
      → Holds Q c
      → Holds Q (poll_zero_window c now_ms config).0
  unfolding poll_zero_window
  poll_zero_window-Holds c now_ms config v =
      let w =
        send_probe-Holds
          (record c {
            next_zero_window_probe_ms =
                some (value_or c.next_zero_window_probe_ms (sat_add now_ms config.initial_rto_ms));
          })
          now_ms config v in
      ground (arith, w)

  poll_open_window-Holds :
      (c : Connection P) (now_ms : ℕ) (config : Config)
      → Holds Q c
      → Holds Q (poll_open_window c now_ms config).0
  unfolding poll_open_window
  poll_open_window-Holds c now_ms config v =
      let flushed = flush_data-Holds c now_ms v in
      elim (List-cases c.unacked) [
        | inl e ↦ rw (e, poll_open_window) flushed
        | inr (oldest, rest, e) ↦
            let late = poll_timed_out-Holds c oldest now_ms config v in
            rw (e, poll_open_window) (ground (arith, flushed, late))
      ]

  pub poll-Holds :
      (c : Connection P) (now_ms : ℕ) (config : Config)
      → Holds Q c
      → Holds Q (poll c now_ms config).0
  unfolding poll
  poll-Holds c now_ms config v =
      let a = poll_zero_window-Holds c now_ms config v in
      let b = poll_open_window-Holds c now_ms config v in ground (arith, a, b)

  pub write-Holds :
      (c : Connection P) (bytes : List ℕ) (now_ms : ℕ) (config : Config)
      → Holds Q c
      → Yields (λ r. Holds Q r.0) (Send.write c bytes now_ms config)
  unfolding Send.write
  write-Holds c bytes now_ms config v =
      elim (Bool-cases (not (sends_data c.state) || c.close_requested)) [
        | inl e ↦ rw (e, Send.write) tt
        | inr e ↦ rw (e, Send.write) (flush_data-Holds _ now_ms v)
      ]

  pub close-Holds : (c : Connection P) (now_ms : ℕ) → Holds Q c → Holds Q (Send.close c now_ms).0
  unfolding Send.close
  close-Holds c now_ms v =
      let w = flush_data-Holds (record c { close_requested = true }) now_ms v in ground (arith, w)
