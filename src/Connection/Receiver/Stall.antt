-- ===== src/Connection/Receiver/Stall.antt =====
-- `insert_received` of stack.rs at a full reassembly queue.
use fips_tcp.Common.{
  Bool, List, Option-cases, any, ap, arith, false, if◌then◌else◌, inl, inr, is_empty, length, ltb,
  none, not, refl, retain, true, ℕ, ◌&&◌, ◌∙◌, ◌≡◌, ◌≤◌,
}
use fips_tcp.Types.{Config}
use fips_tcp.Wire.{Segment, contains, fin_flag}
use fips_tcp.Connection.{Connection}
use fips_tcp.Segments.{ReassemblySegment}
use fips_tcp.Connection.Receive.{
  drain_reassembly, drain_rounds, insert_chunk, insert_received, is_pending, is_ready,
  receive_stream_data, received_chunk, remove_first, same_range,
}

module _ {P : Type 0} (config : Config) where
  if-same : (b : Bool) (c d : Connection P) → d ≡ c → (if b then c else d) ≡ c
  if-same true c d h = refl
  if-same false c d h = h

  insert_chunk-full :
      (c : Connection P) (chunk : ReassemblySegment)
      → config.max_reassembly_segments ≤ length c.reassembly
      → insert_chunk c chunk config ≡ c
  unfolding insert_chunk
  insert_chunk-full c chunk h =
      let full : ltb (length c.reassembly) config.max_reassembly_segments ≡ false =
        ground (arith, h) in
      let known = any (λ existing. same_range existing chunk) c.reassembly in
      rw full (
        if-same (is_empty chunk.payload && not chunk.fin) c (if known then c else c)
          (if-same known c c refl))

  insert_received-full :
      (c : Connection P) (seq : ℕ) (payload : List ℕ) (fin : Bool)
      → config.max_reassembly_segments ≤ length c.reassembly
      → insert_received c seq payload fin config ≡ c
  unfolding insert_received
  insert_received-full c seq payload fin h =
      elim (Option-cases (received_chunk c seq payload fin)) [
        | inl e ↦ rw (e, insert_received) refl
        | inr (chunk, e) ↦ rw (e, insert_received) (insert_chunk-full c chunk h)
      ]

  drain_reassembly-rest :
      (c : Connection P) (now_ms : ℕ)
      → retain (is_pending c.recv_nxt) c.reassembly ≡ c.reassembly
      → remove_first (is_ready c.recv_nxt) c.reassembly ≡ none
      → drain_reassembly c now_ms config ≡ c
  unfolding drain_reassembly drain_rounds
  drain_reassembly-rest c now_ms k r =
      let none_ready : remove_first (is_ready c.recv_nxt)
            (retain (is_pending c.recv_nxt) c.reassembly)
          ≡ none =
        ap (remove_first (is_ready c.recv_nxt)) k ∙ r in
      rw (drain_reassembly, drain_rounds, none_ready) (ap (λ rs. record c { reassembly = rs }) k)

  -- While as many segments wait as the configuration allows and none of them can be read from or
  -- dropped, `receive_stream_data` changes nothing, whatever data arrive: also the segment that
  -- would fill the gap is refused.
  pub receive_stream_data-full :
      (c : Connection P) (s : Segment) (now_ms : ℕ)
      → config.max_reassembly_segments ≤ length c.reassembly
      → retain (is_pending c.recv_nxt) c.reassembly ≡ c.reassembly
      → remove_first (is_ready c.recv_nxt) c.reassembly ≡ none
      → (receive_stream_data c s now_ms config).0 ≡ c
  unfolding receive_stream_data
  receive_stream_data-full c s now_ms h k r =
      ap (λ d. drain_reassembly d now_ms config)
        (insert_received-full c s.seq s.payload (contains s.flags fin_flag) h)
      ∙ drain_reassembly-rest c now_ms k r
