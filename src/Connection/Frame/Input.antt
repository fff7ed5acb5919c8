-- ===== src/Connection/Frame/Input.antt =====
-- What holds of the peer, the ports and the receiving side before a segment and what holds after
-- it, if the data of the segment lead from the one to the other, and so does the handshake, which
-- sets the number that is waited for.
use fips_tcp.Common.{
  Bool, Bool-cases, List, Option-cases, [], arith, false, if◌then◌else◌, inl, inr, refl, true,
  wrapping_add, ℕ, ◌&&◌, ◌≡◌,
}
use fips_tcp.Connection.{Connection, option_list}
use fips_tcp.Wire.{
  contains, syn_flag, ack_flag, supports_fips_version, fips_version_number, Segment,
}
use fips_tcp.Seq.{after, in_closed_interval}
use fips_tcp.Connection.Send.{negotiate_mss, update_remote_window}
use fips_tcp.Connection.Receive.{enter_time_wait, receive_stream_data}
use fips_tcp.Connection.Ack.{apply_ack}
use fips_tcp.Connection.Input.{
  has_stream_data, on_ack, on_segment, after_ack, finish, on_fin_acked, on_syn_received,
  on_syn_sent, on_synchronized, receive_if, repair_if,
}
use fips_tcp.Connection.Frame.{
  With, opened-Holds, Receives, Holds, apply_ack-Holds, flush_data-Holds,
  repair_timed_out_flight-Holds, retransmit_oldest-Holds, update_remote_window-Holds,
}
use fips_tcp.Types.{Config, established, last_ack, syn_sent, state_eq}
use fips_tcp.Segments.{option_eq, is_duplicate_ack_candidate, is_duplicate_ack_candidate}

module _ {P : Type 0} (Q : Receives P) (config : Config) where
  on_fin_acked-Holds :
      (c : Connection P) (now_ms : ℕ) → Holds Q c → Holds Q (on_fin_acked c now_ms config)
  unfolding on_fin_acked enter_time_wait
  on_fin_acked-Holds c now_ms v = ground (arith, v)

  fin_acked_if :
      (b : Bool) (c : Connection P) (now_ms : ℕ)
      → Holds Q c
      → Holds Q (if b then on_fin_acked c now_ms config else c)
  fin_acked_if true c now_ms v = on_fin_acked-Holds c now_ms v
  fin_acked_if false c now_ms v = v

module _ {P : Type 0} (Q : Receives P) where
  window_if :
      (b : Bool) (c : Connection P) (window now_ms : ℕ)
      → Holds Q c
      → Holds Q (if b then update_remote_window c window now_ms else c)
  window_if true c window now_ms v = update_remote_window-Holds Q c window now_ms v
  window_if false c window now_ms v = v

module _ {P : Type 0} (Q : Receives P) (config : Config) where
  after_ack-Holds :
      (c : Connection P) (ack : ℕ) (s : Segment) (una : ℕ) (fin_acked : Bool)
      (output : List Segment) (now_ms : ℕ)
      → Holds Q c
      → Holds Q (after_ack c ack s una fin_acked output now_ms config).0
  unfolding after_ack repair_if
  after_ack-Holds c ack s una fin_acked output now_ms v =
      let c2 = if fin_acked then on_fin_acked c now_ms config else c in
      let v2 : Holds Q c2 = fin_acked_if Q config fin_acked c now_ms v in
      let inside = in_closed_interval ack c2.send_una c2.send_nxt in
      let c3 = if inside then update_remote_window c2 s.window now_ms else c2 in
      let v3 : Holds Q c3 = window_if Q inside c2 s.window now_ms v2 in
      let v4 = repair_timed_out_flight-Holds Q c3 now_ms config v3 in
      elim (Bool-cases (after c3.send_una una)) [
        | inl e ↦ rw (e, after_ack) v4
        | inr e ↦ rw (e, after_ack) v3
      ]

-- The states after SYN-SENT, at one segment.
module _ {P : Type 0} (Q R : Receives P) (config : Config) (s : Segment)
    (weakens : (c : Connection P) → Holds Q c → Holds R c)
    (receives : (c : Connection P) (now_ms : ℕ)
      → Holds Q c
      → has_stream_data s ≡ true
      → Holds R (receive_stream_data c s now_ms config).0) where
  receive_if-Holds :
      (c : Connection P) (output : List Segment) (now_ms : ℕ)
      → Holds Q c
      → Holds R (receive_if c s output now_ms config).0
  unfolding receive_if
  receive_if-Holds c output now_ms v = elim (Bool-cases (has_stream_data s)) [
    | inl e ↦ rw (e, receive_if) (receives c now_ms v e)
    | inr e ↦ rw (e, receive_if) (weakens c v)
  ]

  finish-Holds :
      (c : Connection P) (output : List Segment) (now_ms : ℕ)
      → Holds Q c
      → Holds R (finish c s output now_ms config).0
  unfolding finish
  finish-Holds c output now_ms v = flush_data-Holds R _ now_ms (receive_if-Holds c output now_ms v)

  on_ack-Holds :
      (c : Connection P) (ack now_ms : ℕ) → Holds Q c → Holds R (on_ack c ack s now_ms config).0
  unfolding on_ack
  on_ack-Holds c ack now_ms v =
      let duplicate = is_duplicate_ack_candidate s c.send_una c.remote_window in
      let applied = apply_ack c ack now_ms duplicate in
      let v1 = apply_ack-Holds Q c ack now_ms duplicate v in
      let fin = applied.1.fin_acked in
      let output = option_list applied.1.retransmit in
      elim (Bool-cases (fin && state_eq applied.0.state last_ack)) [
        | inl e ↦ rw (e, on_ack) (weakens applied.0 v1)
        | inr e ↦
            rw (e, on_ack)
              (finish-Holds _ _ now_ms
                (after_ack-Holds Q config applied.0 ack s c.send_una fin output now_ms v1))
      ]

  on_synchronized-Holds :
      (c : Connection P) (now_ms : ℕ) → Holds Q c → Holds R (on_synchronized c s now_ms config).0
  unfolding on_synchronized
  on_synchronized-Holds c now_ms v = elim (Option-cases s.ack) [
    | inl e ↦ rw (e, on_synchronized) (finish-Holds c [] now_ms v)
    | inr (ack, e) ↦ rw (e, on_synchronized) (on_ack-Holds c ack now_ms v)
  ]

module _ {P : Type 0} (Q R : Receives P) (config : Config) (s : Segment)
    (weakens : (c : Connection P) → Holds Q c → Holds R c)
    (receives : (c : Connection P) (now_ms : ℕ)
      → Holds (With false Q) c
      → has_stream_data s ≡ true
      → Holds (With false R) (receive_stream_data c s now_ms config).0)
    (opens : (c : Connection P)
      → contains s.flags syn_flag ≡ true
      → Holds (With true Q) c
      → Holds R (record c { recv_nxt = wrapping_add s.seq 1; state = established })) where
  on_syn_sent-Holds :
      (c : Connection P) (now_ms : ℕ)
      → Holds (With true Q) c
      → Holds R (on_syn_sent c s now_ms config).0
  unfolding on_syn_sent negotiate_mss
  on_syn_sent-Holds c now_ms v =
      let c1 = negotiate_mss (update_remote_window c s.window now_ms) s config in
      let v1 = update_remote_window-Holds (With true Q) c s.window now_ms v in
      let v2 = apply_ack-Holds (With true Q) c1 c1.send_nxt now_ms false v1 in
      let rest =
        contains s.flags ack_flag
        && (option_eq s.ack c.send_nxt && supports_fips_version s fips_version_number) in
      elim (Bool-cases (contains s.flags syn_flag)) [
        | inr e ↦ rw (e, on_syn_sent) (weakens c v.0)
        | inl e ↦ elim (Bool-cases rest) [
          | inl f ↦ rw (e, f, on_syn_sent) (opens (apply_ack c1 c1.send_nxt now_ms false).0 e v2)
          | inr f ↦ rw (e, f, on_syn_sent) (weakens c v.0)
        ]
      ]

  weakens_open : (c : Connection P) → Holds (With false Q) c → Holds (With false R) c
  weakens_open c v = (weakens c v.0, v.1)

  on_syn_received-Holds :
      (c : Connection P) (now_ms : ℕ)
      → Holds (With false Q) c
      → Holds (With false R) (on_syn_received c s now_ms config).0
  unfolding on_syn_received
  on_syn_received-Holds c now_ms v =
      let again = retransmit_oldest-Holds (With false R) c now_ms false (weakens_open c v) in
      let c1 = (apply_ack c c.send_nxt now_ms false).0 in
      let v1 = apply_ack-Holds (With false Q) c c.send_nxt now_ms false v in
      let v2 = update_remote_window-Holds (With false Q) c1 s.window now_ms v1 in
      let c2 = update_remote_window c1 s.window now_ms in
      let w =
        finish-Holds (With false Q) (With false R) config s weakens_open receives
          (record c2 { state = established }) [] now_ms
          (opened-Holds (With false Q) c2 established v2 v2.1 refl) in
      let same = weakens_open c v in ground (arith, w, again, same)

  pub on_segment-Holds :
      (c : Connection P) (now_ms : ℕ) → Holds Q c → Holds R (on_segment c s now_ms config).0
  unfolding on_segment
  on_segment-Holds c now_ms v =
      let same = weakens c v in
      elim (Bool-cases (state_eq c.state syn_sent)) [
        | inl e ↦ let a = on_syn_sent-Holds c now_ms (v, e) in ground (arith, a, same, e)
        | inr e ↦
            let a = (on_syn_received-Holds c now_ms (v, e)).0 in
            let b =
              (on_synchronized-Holds (With false Q) (With false R) config s weakens_open receives c
                now_ms (v, e)).0 in
            ground (arith, a, b, same, e)
      ]
