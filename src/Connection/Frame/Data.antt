-- ===== src/Connection/Frame/Data.antt =====
-- What the data of a segment leave alone: the peer and the ports, and that the answer to the SYN
-- has come.
use fips_tcp.Common.{Bool, Bool-cases, Option-cases, arith, inl, inr, retain, suc, zero, ℕ}
use fips_tcp.Connection.{Connection}
use fips_tcp.Connection.Receive.{
  drain_rounds, accept_segment, drain_reassembly, enter_time_wait, insert_chunk, insert_received,
  is_pending, is_ready, on_remote_fin, receive_stream_data, received_chunk, remove_first,
  take_bytes, trim_received,
}
use fips_tcp.Wire.{Segment, contains, fin_flag}
use fips_tcp.Types.{Config, state_eq, syn_sent}
use fips_tcp.Segments.{ReassemblySegment}

-- A predicate on whether the connection waits for the answer to its SYN, the peer and the ports.
abbrev pub Identifies : Type 0 → Type 1
Identifies P = Bool → P → ℕ → ℕ → Type 0

abbrev pub Keeps : {P : Type 0} → Identifies P → Connection P → Type 0
Keeps Q c = Q (state_eq c.state syn_sent) c.peer c.local_port c.remote_port

module _ {P : Type 0} (Q : Identifies P) (config : Config) where
  accept_segment-Keeps :
      (c : Connection P) (r : ReassemblySegment) (now_ms : ℕ)
      → Keeps Q c
      → Keeps Q (accept_segment c r now_ms config).0
  unfolding accept_segment take_bytes on_remote_fin enter_time_wait
  accept_segment-Keeps c r now_ms v = ground (arith, v)

  drain_rounds-Keeps :
      (fuel : ℕ) (c : Connection P) (now_ms : ℕ)
      → Keeps Q c
      → Keeps Q (drain_rounds fuel c now_ms config)
  unfolding drain_rounds
  drain_rounds-Keeps zero c now_ms v = v
  drain_rounds-Keeps (suc fuel) c now_ms v =
      elim (Option-cases
        (remove_first (is_ready c.recv_nxt) (retain (is_pending c.recv_nxt) c.reassembly))) [
          | inl e ↦ rw (e, drain_rounds) v
          | inr ((r, rest), e) ↦
              let c' : Connection P = record c { reassembly = rest } in
              let r' = trim_received c.recv_nxt r in
              let w = accept_segment-Keeps c' r' now_ms v in
              elim (Bool-cases (accept_segment c' r' now_ms config).1) [
                | inl more ↦
                    rw (e, more, drain_rounds)
                      (drain_rounds-Keeps fuel (accept_segment c' r' now_ms config).0 now_ms w)
                | inr done ↦ rw (e, done, drain_rounds) w
              ]
        ]

  pub receive_stream_data-Keeps :
      (c : Connection P) (s : Segment) (now_ms : ℕ)
      → Keeps Q c
      → Keeps Q (receive_stream_data c s now_ms config).0
  unfolding receive_stream_data drain_reassembly insert_received insert_chunk
  receive_stream_data-Keeps c s now_ms v =
      drain_rounds-Keeps _ (insert_received c s.seq s.payload (contains s.flags fin_flag) config)
        now_ms
        (elim (Option-cases (received_chunk c s.seq s.payload (contains s.flags fin_flag))) [
          | inl e ↦ rw (e, insert_received) v
          | inr (chunk, e) ↦ rw (e, insert_received) (ground (arith, v))
        ])
