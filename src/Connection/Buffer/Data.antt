-- ===== src/Connection/Buffer/Data.antt =====
-- `insert_received` and `receive_stream_data` of stack.rs, and the bounds of the receive buffer.
use fips_tcp.Common.{
  Bool, Bool-cases, List, Option, Option-cases, [], any, arith, false, if◌then◌else◌, inl, inr,
  is_empty, length, length-append, length-take, ltb, none, not, some, subst, sum_by-append, take,
  true, ℕ, ◌&&◌, ◌++◌, ◌∷◌, ◌≡◌, ◌≤◌,
}
use fips_tcp.Wire.{Segment, fin_flag, contains}
use fips_tcp.Connection.{Connection, available_window}
use fips_tcp.Connection.Receive.{
  remove_first, is_ready, received_chunk, drain_reassembly, insert_chunk, insert_received,
  receive_stream_data, same_range,
}
use fips_tcp.Segments.{ReassemblySegment}
use fips_tcp.Types.{Config}
use fips_tcp.Connection.Buffer.{Fits, drain_rounds-Fits}

-- A chunk has at most so many bytes.
abbrev Within : ℕ → Option ReassemblySegment → Type 0
Within n none = Unit
Within n (some chunk) = length chunk.payload ≤ n

take-Within :
    (far : Bool) (seq n window : ℕ) (bytes : List ℕ) (fin : Bool)
    → n ≤ window
    → Within window
        (if far then none else some (record { seq = seq; payload = take n bytes; fin = fin }))
take-Within true seq n window bytes fin h = tt
take-Within false seq n window bytes fin h = omega (arith, length-take n bytes)

received_chunk-Within :
    {P : Type 0} (c : Connection P) (seq : ℕ) (payload : List ℕ) (fin : Bool)
    → Within (available_window c) (received_chunk c seq payload fin)
unfolding received_chunk
received_chunk-Within c seq payload fin = take-Within _ _ _ (available_window c) _ _ (omega arith)

module _ {P : Type 0} (config : Config) where
  -- A chunk that the window allows is stored, where there is a place for one more.
  store-Fits :
      (c : Connection P) (chunk : ReassemblySegment)
      → Fits config c
      → length chunk.payload ≤ available_window c
      → ltb (length c.reassembly) config.max_reassembly_segments ≡ true
      → Fits config (record c { reassembly = c.reassembly ++ (chunk ∷ []) })
  unfolding available_window
  store-Fits c chunk v h e =
      let bytes = sum_by-append (λ r. length r.payload) c.reassembly (chunk ∷ []) in
      record {
        capacity = v.capacity;
        bytes_fit = ground (arith, h, v.bytes_fit, v.capacity, bytes);
        segments_fit = ground (arith, e, length-append c.reassembly (chunk ∷ []));
      }

  if-Fits :
      (b : Bool) (c d : Connection P)
      → Fits config c
      → Fits config d
      → Fits config (if b then c else d)
  if-Fits true c d v w = v
  if-Fits false c d v w = w

  insert_chunk-Fits :
      (c : Connection P) (chunk : ReassemblySegment)
      → Fits config c
      → length chunk.payload ≤ available_window c
      → Fits config (insert_chunk c chunk config)
  unfolding insert_chunk
  insert_chunk-Fits c chunk v h =
      let d : Connection P = record c { reassembly = c.reassembly ++ (chunk ∷ []) } in
      let empty = is_empty chunk.payload && not chunk.fin in
      let same = any (λ existing. same_range existing chunk) c.reassembly in
      elim (Bool-cases (ltb (length c.reassembly) config.max_reassembly_segments)) [
        | inl e ↦ rw e (
            if-Fits empty c (if same then c else d) v
              (if-Fits same c d v (store-Fits c chunk v h e)))
        | inr e ↦ rw e (if-Fits empty c (if same then c else c) v (if-Fits same c c v v))
      ]

  pub insert_received-Fits :
      (c : Connection P) (seq : ℕ) (payload : List ℕ) (fin : Bool)
      → Fits config c
      → Fits config (insert_received c seq payload fin config)
  unfolding insert_received
  insert_received-Fits c seq payload fin v =
      let within = received_chunk-Within c seq payload fin in
      elim (Option-cases (received_chunk c seq payload fin)) [
        | inl e ↦ rw (e, insert_received) v
        | inr (chunk, e) ↦
            rw (e, insert_received)
              (insert_chunk-Fits c chunk v (subst (Within (available_window c)) e within))
      ]

  -- Whatever data arrives at a connection within the bounds of its receive buffer, the bounds are
  -- kept, and the loop of `drain_reassembly` ends by itself: no segment that could be read from
  -- is left waiting.
  pub receive_stream_data-Fits :
      (c : Connection P) (s : Segment) (now_ms : ℕ)
      → Fits config c
      → let d = (receive_stream_data c s now_ms config).0 in
        Fits config d × (remove_first (is_ready d.recv_nxt) d.reassembly ≡ none)
  unfolding receive_stream_data drain_reassembly
  receive_stream_data-Fits c s now_ms v =
      drain_rounds-Fits config _
        (insert_received c s.seq s.payload (contains s.flags fin_flag) config) now_ms
        (insert_received-Fits c s.seq s.payload (contains s.flags fin_flag) v) (omega arith)
