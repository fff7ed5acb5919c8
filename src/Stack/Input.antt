-- ===== src/Stack/Input.antt =====
-- `Stack::input`: a datagram of a peer.
use fips_tcp.Common.{
  Bool, Eq, List, Option, [], err, false, if◌then◌else◌, none, not, ok, some, wrapping_add, ℕ, ◌&&◌,
  ◌++◌, ◌==◌, ◌||◌, ◌∷◌,
}
use fips_tcp.Wire.{
  Segment, decode, ack_flag, contains, fips_version_number, rst_flag, supports_fips_version,
  syn_flag,
}
use fips_tcp.Seq.{after}
use fips_tcp.Types.{state_eq, syn_received, syn_sent, wire}
use fips_tcp.Connection.{Connection, ack_segment}
use fips_tcp.Connection.Send.{server}
use fips_tcp.Connection.Input.{on_segment}
use fips_tcp.Stack.{Stack, Call, ConnectionKey, and_then, panic, stack}
use fips_tcp.Stack.Table.{nat_eq, get, insert}
use fips_tcp.Stack.Core.{
  key_eq, emit, allocate_connection_id, emit_reset, ensure_connection_capacity, mem, next_isn,
}
use fips_tcp.Stack.Open.{install, accept_queue}
use fips_tcp.Stack.Calls.{remove_if, put}

-- A stale ACK in SYN-SENT.
abbrev pub is_stale_ack : Option ℕ → ℕ → ℕ → Bool
is_stale_ack none una nxt = false
is_stale_ack (some ack) una nxt = not (after ack una) || after ack nxt

module _ {P : Type 0} where
  unfoldable pub resets_handshake : Connection P → Segment → Bool
  resets_handshake c s =
      state_eq c.state syn_sent
      && (not (contains s.flags rst_flag) && is_stale_ack s.ack c.send_una c.send_nxt)

  unfoldable pub challenges_syn : Connection P → Segment → Bool
  challenges_syn c s =
      not (state_eq c.state syn_sent)
      && (not (contains s.flags rst_flag)
          && (contains s.flags syn_flag
              && (not (state_eq c.state syn_received) || not (wrapping_add s.seq 1 == c.recv_nxt))))

  -- A connection that its peer has completed waits for `accept`.
  unfoldable pub accepted_if : Bool → ℕ → Connection P → Stack P → Stack P
  accepted_if done id c s =
      if done
      then record s {
        accepts = insert c.local_port (accept_queue c.local_port s ++ (id ∷ [])) s.accepts;
      }
      else s

module _ {P : Type 0} ⦃e : Eq P⦄ where
  -- A segment for the connection `c`.
  unfoldable pub input_connection : P → ℕ → Connection P → Segment → ℕ → Stack P → Call P (Unit {0})
  input_connection peer id c segment now_ms s =
      if resets_handshake c segment
      then emit_reset peer segment s
      else (if challenges_syn c segment
          then emit id (ack_segment c ∷ []) s
          else (let (c', update) = on_segment c segment now_ms s.config in
              let s1 = accepted_if update.accepted id c' (put id c' s) in
              and_then (emit id update.segments s1) λ s2 u. (remove_if update.closed id s2, ok tt)))

  -- A SYN for a listener.
  unfoldable pub input_syn : ConnectionKey P → Segment → ℕ → Stack P → Call P (Unit {0})
  input_syn key segment now_ms s =
      if not (supports_fips_version segment fips_version_number)
      then emit_reset key.peer segment s
      else (elim (ensure_connection_capacity s key.peer) [
        | err e ↦ (s, err e)
        | ok u ↦
            let (s1, id) = allocate_connection_id s in
            let (s2, isn) = next_isn s1 in
            let (c, segments) = server key.peer segment isn now_ms s.config s.next_token in
            install key id c segments s2
      ])

  -- A segment of no connection.
  unfoldable pub input_other : ConnectionKey P → Segment → ℕ → Stack P → Call P (Unit {0})
  input_other key segment now_ms s =
      if contains segment.flags syn_flag
        && (not (contains segment.flags ack_flag) && mem segment.dst_port s.listeners)
      then input_syn key segment now_ms s
      else (if contains segment.flags rst_flag then (s, ok tt) else emit_reset key.peer segment s)

  unfoldable pub input_segment : P → Segment → ℕ → Stack P → Call P (Unit {0})
  input_segment peer segment now_ms s =
      let key : ConnectionKey P = record {
        peer = peer;
        local_port = segment.dst_port;
        remote_port = segment.src_port;
      } in
      elim (get key s.lookup) [
        | none ↦ input_other key segment now_ms s
        | some id ↦ elim (get id s.connections) [
          | none ↦ (s, err panic)
          | some c ↦ input_connection peer id c segment now_ms s
        ]
      ]

  unfoldable pub input : P → List ℕ → ℕ → Stack P → Call P (Unit {0})
  input peer bytes now_ms s = elim (decode bytes) [
    | err w ↦ (s, err (stack (wire w)))
    | ok segment ↦ input_segment peer segment now_ms s
  ]
