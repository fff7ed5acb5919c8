-- ===== src/Connection/Send.antt =====
-- stack.rs: the sending side of a connection.
use fips_tcp.Common.{
  Bool, List, Option, Result, [], drop, err, false, if◌then◌else◌, is_empty, length, max, min, none,
  not, ok, sat_add, some, suc, sum_by, take, true, wrapping_add, zero, ℕ, ◌&&◌, ◌++◌, ◌+◌, ◌-◌,
  ◌==◌, ◌||◌, ◌∷◌,
}
use fips_tcp.Segments.{build_segment, TrackedSegment, ack_psh, fin_ack, syn_ack, tracked_end}
use fips_tcp.Wire.{Segment, max_segment_size, syn_flag, value_or}
use fips_tcp.Types.{
  Config, StackError, State, close_wait, established, fin_wait_1, invalid_state, last_ack,
  syn_received, syn_sent,
}
use fips_tcp.Rtt
use fips_tcp.Rtt.{timeout_ms}
use fips_tcp.Reno
use fips_tcp.Marker
use fips_tcp.Connection.{
  new, Connection, Update, available_to_send, available_window_u16, closed_update, get_or_insert,
  header, open_update, segment_for,
}

abbrev pub sends_data : State → Bool
sends_data established = true
sends_data close_wait = true
sends_data _ = false

-- The state after our FIN.
abbrev pub fin_state : State → State
fin_state established = fin_wait_1
fin_state _ = last_ack

abbrev pub unacked_bytes : List TrackedSegment → ℕ
unacked_bytes = sum_by (λ t. length t.payload)

-- The oldest segment with a payload.
unfoldable pub first_payload : List TrackedSegment → Option TrackedSegment
first_payload [] = none
first_payload (t ∷ ts) = if is_empty t.payload then first_payload ts else some t

module _ {P : Type 0} where
  unfoldable pub send_tracked : Connection P → ℕ → List ℕ → ℕ → Connection P × Segment
  send_tracked c flags payload now_ms =
      let tracked : TrackedSegment = record {
        seq = c.send_nxt;
        flags = flags;
        payload = payload;
        sent_at_ms = now_ms;
        transmissions = 1;
      } in
      (
        record c { send_nxt = tracked_end tracked; unacked = c.unacked ++ (tracked ∷ []) },
        segment_for (record c { send_nxt = tracked_end tracked }) tracked,
      )

  -- The loop of `flush_data` goes on.
  abbrev pub can_send : Connection P → Bool
  can_send c = not (available_to_send c == 0 || is_empty c.send_queue)

  -- One round of that loop.
  unfoldable pub send_round : Connection P → ℕ → Connection P × Segment
  send_round c now_ms =
      let count = min (min (available_to_send c) c.mss) (length c.send_queue) in
      send_tracked (record c { send_queue = drop count c.send_queue }) ack_psh
        (take count c.send_queue) now_ms

  -- The loop; each round takes a byte from the queue at least, if the segment size is not 0.
  unfoldable pub send_rounds : ℕ → Connection P → ℕ → Connection P × List Segment
  send_rounds zero c now_ms = (c, [])
  send_rounds (suc fuel) c now_ms = elim (can_send c) [
    | false ↦ (c, [])
    | true ↦
        let (c', segment) = send_round c now_ms in
        let (c'', segments) = send_rounds fuel c' now_ms in (c'', segment ∷ segments)
  ]

  -- The FIN that a close asked for can go out: the queue is empty and the windows allow it.
  abbrev pub can_finish : Connection P → Bool
  can_finish c = c.close_requested && (is_empty c.send_queue && not (available_to_send c == 0))

  unfoldable pub send_fin : Connection P → ℕ → Connection P × List Segment
  send_fin c now_ms =
      if can_finish c
      then (let (c', segment) =
            send_tracked (record c { close_requested = false; state = fin_state c.state }) fin_ack
              [] now_ms in
          (c', segment ∷ []))
      else (c, [])

  unfoldable pub flush_data : Connection P → ℕ → Connection P × List Segment
  flush_data c now_ms =
      if sends_data c.state
      then (let (c', segments) = send_rounds (length c.send_queue) c now_ms in
          let (c'', fin) = send_fin c' now_ms in (c'', segments ++ fin))
      else (c, [])

  unfoldable pub write :
      Connection P → List ℕ → ℕ → Config → Result StackError (Connection P × ℕ × List Segment)
  write c bytes now_ms config =
      if not (sends_data c.state) || c.close_requested
      then err (invalid_state c.state)
      else (let buffered = length c.send_queue + unacked_bytes c.unacked in
          let accepted = min (length bytes) (config.send_buffer - buffered) in
          let c' : Connection P = record c {
            send_queue = c.send_queue ++ take accepted bytes;
            send_progress = Marker.accept c.send_progress accepted;
          } in
          let (c'', segments) = flush_data c' now_ms in ok (c'', accepted, segments))

  unfoldable pub close : Connection P → ℕ → Connection P × Update
  close c now_ms = elim c.state [
    | established ↦
        let (c', segments) = flush_data (record c { close_requested = true }) now_ms in
        (c', open_update segments)
    | close_wait ↦
        let (c', segments) = flush_data (record c { close_requested = true }) now_ms in
        (c', open_update segments)
    | syn_sent ↦ (c, closed_update [])
    | syn_received ↦ (c, closed_update [])
    | _ ↦ (c, open_update [])
  ]

  unfoldable pub update_remote_window : Connection P → ℕ → ℕ → Connection P
  update_remote_window c window now_ms =
      if window == 0
      then record c {
        remote_window = window;
        next_zero_window_probe_ms =
            get_or_insert c.next_zero_window_probe_ms (sat_add now_ms (timeout_ms c.rtt));
      }
      else record c {
        remote_window = window;
        next_zero_window_probe_ms = none;
        zero_window_probes = 0;
      }

  unfoldable pub negotiate_mss : Connection P → Segment → Config → Connection P
  negotiate_mss c segment config =
      let mss = max (min (value_or (max_segment_size segment) 1024) config.mss) 1 in
      record c { mss = mss; reno = Reno.set_mss c.reno mss }

  unfoldable pub client : P → ℕ → ℕ → ℕ → ℕ → Config → ℕ → Connection P × List Segment
  client peer local_port remote_port isn now_ms config token =
      let (c, syn) =
        send_tracked (new peer local_port remote_port syn_sent isn 0 config token) syn_flag []
          now_ms in
      (c, syn ∷ [])

  unfoldable pub server : P → Segment → ℕ → ℕ → Config → ℕ → Connection P × List Segment
  server peer syn isn now_ms config token =
      let c0 =
        new peer syn.dst_port syn.src_port syn_received isn (wrapping_add syn.seq 1) config token in
      let c1 = update_remote_window c0 syn.window now_ms in
      let (c, reply) = send_tracked (negotiate_mss c1 syn config) syn_ack [] now_ms in
      (c, reply ∷ [])

  unfoldable pub probe_from_queue : Connection P → List ℕ → ℕ → Connection P × Option Segment
  probe_from_queue c [] now_ms = (c, none)
  probe_from_queue c (byte ∷ rest) now_ms =
      let (c', segment) =
        send_tracked (record c { send_queue = rest }) ack_psh (byte ∷ []) now_ms in
      (c', some segment)

  unfoldable pub zero_window_probe : Connection P → ℕ → Connection P × Option Segment
  zero_window_probe c now_ms = elim (first_payload c.unacked) [
    | some t ↦ (
      record c { rtt = Rtt.on_retransmit c.rtt c.send_nxt },
      some (build_segment (header c t.seq (available_window_u16 c) ack_psh) (take 1 t.payload)),
    )
    | none ↦ probe_from_queue c c.send_queue now_ms
  ]
