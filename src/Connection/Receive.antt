-- ===== src/Connection/Receive.antt =====
-- stack.rs: the receiving side of a connection.
use fips_tcp.Common.{
  Bool, List, Option, [], any, as_u32, drop, false, if◌then◌else◌, is_empty, leb, length, ltb, min,
  none, not, retain, sat_add, some, suc, take, true, wrapping_add, zero, ℕ, ◌&&◌, ◌++◌, ◌-◌, ◌==◌,
  ◌||◌, ◌∷◌,
}
use fips_tcp.Wire.{Segment, contains, fin_flag}
use fips_tcp.Types.{
  Config, State, close_wait, closing, established, fin_wait_1, fin_wait_2, syn_received, syn_sent,
  time_wait,
}
use fips_tcp.Segments.{ReassemblySegment, reassembly_end}
use fips_tcp.Seq.{distance, after, before, before_or_equal}
use fips_tcp.Connection.{Connection, ack_segment, available_window}

-- The first element that passes the test, and the list without it.
unfoldable pub remove_first {ℓ} : {A : Type ℓ} → (A → Bool) → List A → Option (A × List A)
remove_first p [] = none
remove_first p (x ∷ xs) = elim (p x) [
  | true ↦ some (x, xs)
  | false ↦ elim (remove_first p xs) [ none ↦ none | some (y, ys) ↦ some (y, x ∷ ys) ]
]

-- What `retain` keeps in the reassembly queue.
unfoldable pub is_pending : ℕ → ReassemblySegment → Bool
is_pending recv_nxt r =
    not (before_or_equal (reassembly_end r) recv_nxt)
    || (r.fin && reassembly_end r == wrapping_add recv_nxt 1)

-- The segment can be read from.
unfoldable pub is_ready : ℕ → ReassemblySegment → Bool
is_ready recv_nxt r = r.seq == recv_nxt || before r.seq recv_nxt

-- Without the bytes that were received before.
unfoldable pub trim_received : ℕ → ReassemblySegment → ReassemblySegment
trim_received recv_nxt r =
    if before r.seq recv_nxt
    then record r {
      payload = drop (min (distance r.seq recv_nxt) (length r.payload)) r.payload;
      seq = recv_nxt;
    }
    else r

unfoldable pub same_range : ReassemblySegment → ReassemblySegment → Bool
same_range a b = a.seq == b.seq && reassembly_end a == reassembly_end b

abbrev pub updates_window : State → Bool
updates_window syn_sent = false
updates_window syn_received = false
updates_window time_wait = false
updates_window _ = true

module _ {P : Type 0} where
  unfoldable pub enter_time_wait : Connection P → ℕ → Config → Connection P
  enter_time_wait c now_ms config = record c {
    state = time_wait;
    fin_wait_2_until_ms = none;
    time_wait_until_ms = some (sat_add now_ms config.time_wait_ms);
  }

  unfoldable pub on_remote_fin : Connection P → ℕ → Config → Connection P
  on_remote_fin c now_ms config = elim c.state [
    | established ↦ record c { read_closed = true; state = close_wait }
    | fin_wait_1 ↦ record c { read_closed = true; state = closing }
    | fin_wait_2 ↦ enter_time_wait (record c { read_closed = true }) now_ms config
    | _ ↦ record c { read_closed = true }
  ]

  -- The chunk that `insert_received` makes of a segment; `none` for one beyond the window.
  unfoldable pub received_chunk : Connection P → ℕ → List ℕ → Bool → Option ReassemblySegment
  received_chunk c seq payload fin =
      let original_end = wrapping_add seq (as_u32 (length payload)) in
      let early = before seq c.recv_nxt in
      let start = if early then c.recv_nxt else seq in
      let body = if early then drop (distance seq c.recv_nxt) payload else payload in
      let window = available_window c in
      let offset = distance c.recv_nxt start in
      let allowed = min (length body) (window - offset) in
      let kept_fin =
        fin
        && (allowed == length body && original_end == wrapping_add start (as_u32 (length body))) in
      if after start c.recv_nxt && leb window offset
      then none
      else some (record { seq = start; payload = take allowed body; fin = kept_fin })

  unfoldable pub insert_chunk : Connection P → ReassemblySegment → Config → Connection P
  insert_chunk c chunk config =
      if is_empty chunk.payload && not chunk.fin
      then c
      else (if any (λ existing. same_range existing chunk) c.reassembly
          then c
          else (if ltb (length c.reassembly) config.max_reassembly_segments
              then record c { reassembly = c.reassembly ++ (chunk ∷ []) }
              else c))

  unfoldable pub insert_received : Connection P → ℕ → List ℕ → Bool → Config → Connection P
  insert_received c seq payload fin config = elim (received_chunk c seq payload fin) [
    | none ↦ c
    | some chunk ↦ insert_chunk c chunk config
  ]

  -- The bytes that the receive buffer has room for go there.
  unfoldable pub take_bytes : Connection P → ReassemblySegment → Config → Connection P
  take_bytes c r config =
      let accepted = min (config.receive_buffer - length c.recv_queue) (length r.payload) in
      record c {
        recv_queue = c.recv_queue ++ take accepted r.payload;
        recv_nxt = wrapping_add c.recv_nxt (as_u32 accepted);
      }

  abbrev pub bytes_left : Connection P → ReassemblySegment → Config → List ℕ
  bytes_left c r config =
      drop (min (config.receive_buffer - length c.recv_queue) (length r.payload)) r.payload

  -- The rest of a round of `drain_reassembly` at the segment that it took out and trimmed, and
  -- whether the loop goes on.
  unfoldable pub accept_segment :
      Connection P → ReassemblySegment → ℕ → Config → Connection P × Bool
  accept_segment c r now_ms config =
      let c' = take_bytes c r config in
      let left = bytes_left c r config in
      if not (is_empty left)
      then (
        record c' {
          reassembly = c'.reassembly ++ (record r { seq = c'.recv_nxt; payload = left } ∷ []);
        },
        false,
      )
      else (if r.fin
          then (
            on_remote_fin (record c' { recv_nxt = wrapping_add c'.recv_nxt 1 }) now_ms config,
            true,
          )
          else (c', true))

  -- The loop of `drain_reassembly`. A round that goes on has taken a segment out of the queue, so
  -- one more round than the queue has segments is enough.
  unfoldable pub drain_rounds : ℕ → Connection P → ℕ → Config → Connection P
  drain_rounds zero c now_ms config = c
  drain_rounds (suc fuel) c now_ms config =
      let kept = retain (is_pending c.recv_nxt) c.reassembly in
      elim (remove_first (is_ready c.recv_nxt) kept) [
        | none ↦ record c { reassembly = kept }
        | some (r, rest) ↦
            let (c', more) =
              accept_segment (record c { reassembly = rest }) (trim_received c.recv_nxt r) now_ms
                config in
            elim more [ true ↦ drain_rounds fuel c' now_ms config | false ↦ c' ]
      ]

  unfoldable pub drain_reassembly : Connection P → ℕ → Config → Connection P
  drain_reassembly c now_ms config = drain_rounds (suc (length c.reassembly)) c now_ms config

  -- The second component is what the method pushes on its output.
  unfoldable pub receive_stream_data : Connection P → Segment → ℕ → Config → Connection P × Segment
  receive_stream_data c segment now_ms config =
      let c' =
        drain_reassembly
          (insert_received c segment.seq segment.payload (contains segment.flags fin_flag) config)
          now_ms config in
      (c', ack_segment c')

  unfoldable pub read : Connection P → ℕ → Connection P × List ℕ × List Segment
  read c max_bytes =
      let count = min max_bytes (length c.recv_queue) in
      let c' : Connection P = record c { recv_queue = drop count c.recv_queue } in
      let should_update =
        ltb 0 count && (ltb (available_window c) (available_window c') && updates_window c.state) in
      (c', take count c.recv_queue, if should_update then ack_segment c' ∷ [] else [])
