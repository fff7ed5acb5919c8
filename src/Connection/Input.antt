-- ===== src/Connection/Input.antt =====
-- connection_reset.rs and `on_segment` of stack.rs: what a connection does with a segment.
use fips_tcp.Common.{
  Bool, List, Option, [], false, if◌then◌else◌, is_empty, ltb, none, not, sat_add, some, true,
  wrapping_add, ℕ, ◌&&◌, ◌++◌, ◌==◌, ◌||◌, ◌∷◌,
}
use fips_tcp.Wire.{
  Segment, ack_flag, contains, fin_flag, fips_version_number, rst_flag, supports_fips_version,
  syn_flag,
}
use fips_tcp.Types.{
  Config, closing, established, fin_wait_1, fin_wait_2, last_ack, state_eq, syn_received, syn_sent,
}
use fips_tcp.Segments.{is_duplicate_ack_candidate, option_eq}
use fips_tcp.Seq.{distance, after, in_closed_interval}
use fips_tcp.Connection.{
  Connection, Update, ack_segment, available_window, closed_update, open_update, option_list,
}
use fips_tcp.Connection.Send.{flush_data, negotiate_mss, update_remote_window}
use fips_tcp.Connection.Ack.{apply_ack, repair_timed_out_flight, retransmit_oldest}
use fips_tcp.Connection.Receive.{enter_time_wait, receive_stream_data}

-- `segment.ack.is_some_and(…)` for the ACK of a reset in SYN-SENT.
abbrev pub acks_syn : Option ℕ → ℕ → ℕ → Bool
acks_syn none una nxt = false
acks_syn (some ack) una nxt = after ack una && not (after ack nxt)

-- A segment that `receive_stream_data` is for.
abbrev pub has_stream_data : Segment → Bool
has_stream_data s = not (is_empty s.payload) || contains s.flags fin_flag

module _ {P : Type 0} where
  unfoldable pub on_reset : Connection P → Segment → Update
  on_reset c s =
      if state_eq c.state syn_sent
      then record { segments = []; accepted = false; closed = acks_syn s.ack c.send_una c.send_nxt }
      else (if s.seq == c.recv_nxt
          then closed_update []
          else (let receive_window = available_window c in
              open_update (
                if ltb 0 receive_window && ltb (distance c.recv_nxt s.seq) receive_window
                then ack_segment c ∷ []
                else [])))

  -- `on_segment` in SYN-SENT.
  unfoldable pub on_syn_sent : Connection P → Segment → ℕ → Config → Connection P × Update
  on_syn_sent c s now_ms config =
      if contains s.flags syn_flag
        && (contains s.flags ack_flag
            && (option_eq s.ack c.send_nxt && supports_fips_version s fips_version_number))
      then (let c1 = negotiate_mss (update_remote_window c s.window now_ms) s config in
          let c2 = (apply_ack c1 c1.send_nxt now_ms false).0 in
          let c3 : Connection P = record c2 {
            recv_nxt = wrapping_add s.seq 1;
            state = established;
          } in
          (c3, open_update (ack_segment c3 ∷ [])))
      else (c, open_update [])

  -- The data of a segment, with the ACK that answers it behind the output so far.
  unfoldable pub receive_if :
      Connection P → Segment → List Segment → ℕ → Config → Connection P × List Segment
  receive_if c s output now_ms config =
      if has_stream_data s
      then (let (c', reply) = receive_stream_data c s now_ms config in (c', output ++ (reply ∷ [])))
      else (c, output)

  -- The data of a segment, and what can be sent after it.
  unfoldable pub finish :
      Connection P → Segment → List Segment → ℕ → Config → Connection P × List Segment
  finish c s output now_ms config =
      let (c1, output1) = receive_if c s output now_ms config in
      let (c2, sent) = flush_data c1 now_ms in (c2, output1 ++ sent)

  -- `on_segment` in SYN-RECEIVED.
  unfoldable pub on_syn_received : Connection P → Segment → ℕ → Config → Connection P × Update
  on_syn_received c s now_ms config =
      if contains s.flags syn_flag
        && (not (contains s.flags ack_flag) && wrapping_add s.seq 1 == c.recv_nxt)
      then (let (c', segment) = retransmit_oldest c now_ms false in
          (c', open_update (option_list segment)))
      else (if not (option_eq s.ack c.send_nxt)
          then (c, open_update [])
          else (let c1 = (apply_ack c c.send_nxt now_ms false).0 in
              let c2 : Connection P = record (update_remote_window c1 s.window now_ms) {
                state = established;
              } in
              let (c3, output) = finish c2 s [] now_ms config in
              (c3, record { segments = output; accepted = true; closed = false })))

  -- The state after our FIN was acknowledged, where the connection stays open.
  unfoldable pub on_fin_acked : Connection P → ℕ → Config → Connection P
  on_fin_acked c now_ms config = elim c.state [
    | fin_wait_1 ↦ record c {
      state = fin_wait_2;
      fin_wait_2_until_ms = some (sat_add now_ms config.fin_wait_2_ms);
    }
    | closing ↦ enter_time_wait c now_ms config
    | _ ↦ c
  ]

  unfoldable pub repair_if :
      Connection P → Bool → List Segment → ℕ → Config → Connection P × List Segment
  repair_if c advanced output now_ms config =
      if advanced
      then (let (c', repair) = repair_timed_out_flight c now_ms config in
          (c', output ++ option_list repair))
      else (c, output)

  -- The ACK of a segment from the moment it was applied: the state, the peer's window and the
  -- repair of a flight that timed out.
  unfoldable pub after_ack :
      Connection P
      → ℕ
      → Segment
      → ℕ
      → Bool
      → List Segment
      → ℕ
      → Config
      → Connection P × List Segment
  after_ack c1 ack s previous_una fin_acked output now_ms config =
      let c2 = if fin_acked then on_fin_acked c1 now_ms config else c1 in
      let c3 =
        if in_closed_interval ack c2.send_una c2.send_nxt
        then update_remote_window c2 s.window now_ms
        else c2 in
      repair_if c3 (after c3.send_una previous_una) output now_ms config

  -- `on_segment` at a segment with an ACK, in the states after the handshake.
  unfoldable pub on_ack : Connection P → ℕ → Segment → ℕ → Config → Connection P × Update
  on_ack c ack s now_ms config =
      let duplicate = is_duplicate_ack_candidate s c.send_una c.remote_window in
      let (c1, outcome) = apply_ack c ack now_ms duplicate in
      let output = option_list outcome.retransmit in
      if outcome.fin_acked && state_eq c1.state last_ack
      then (c1, closed_update output)
      else (let (c2, output2) =
            after_ack c1 ack s c.send_una outcome.fin_acked output now_ms config in
          let (c3, output3) = finish c2 s output2 now_ms config in (c3, open_update output3))

  -- `on_segment` in the states after the handshake.
  unfoldable pub on_synchronized : Connection P → Segment → ℕ → Config → Connection P × Update
  on_synchronized c s now_ms config = elim s.ack [
    | some ack ↦ on_ack c ack s now_ms config
    | none ↦ let (c', output) = finish c s [] now_ms config in (c', open_update output)
  ]

  unfoldable pub on_segment : Connection P → Segment → ℕ → Config → Connection P × Update
  on_segment c s now_ms config =
      if contains s.flags rst_flag then (c, on_reset c s) else (elim c.state [
        | syn_sent ↦ on_syn_sent c s now_ms config
        | syn_received ↦ on_syn_received c s now_ms config
        | _ ↦ on_synchronized c s now_ms config
      ])
