-- ===== src/Connection/Buffer.antt =====
-- The receive buffer of stack.rs: the bytes that wait for the application and those that wait for
-- a gap to be filled share one capacity.
pub mod Data
pub mod History
use fips_tcp.Common.{
  Bool, Bool-cases, List, List-cases, Option, Option-cases, [], ap, arith, false, if◌then◌else◌,
  inl, inr, length, length-append, length-drop, length-take, min, none, refl, retain, some, subst,
  suc, sum_by, take, true, u16_max, wrapping_add, zero, ℕ, ◌+◌, ◌-◌, ◌<◌, ◌∷◌, ◌≡◌, ◌≤◌,
}
use fips_tcp.Wire.{Segment, fin_flag, contains}
use fips_tcp.Connection.{Connection, reassembly_bytes, available_window}
use fips_tcp.Connection.Receive.{
  drain_rounds, accept_segment, take_bytes, on_remote_fin, enter_time_wait, remove_first, is_ready,
  is_pending, trim_received, bytes_left, received_chunk, drain_reassembly, insert_chunk,
  insert_received, receive_stream_data, same_range,
}
use fips_tcp.Segments.{ReassemblySegment}
use fips_tcp.Types.{Config}
use fips_tcp.Seq.{distance}

-- The buffered bytes fit the capacity, and the waiting segments their limit.
pub record Bounds (config : Config) (receive_capacity : ℕ) (recv_queue : List ℕ)
    (reassembly : List ReassemblySegment) : Type 0 where
  pub capacity : (receive_capacity ≡ config.receive_buffer) × (receive_capacity ≤ u16_max)
  pub bytes_fit : length recv_queue + reassembly_bytes reassembly ≤ receive_capacity
  pub segments_fit : length reassembly ≤ config.max_reassembly_segments

abbrev pub Fits : {P : Type 0} → Config → Connection P → Type 0
Fits config c = Bounds config c.receive_capacity c.recv_queue c.reassembly

pub sum_by-retain :
    (w : ReassemblySegment → ℕ) (p : ReassemblySegment → Bool) (rs : List ReassemblySegment)
    → sum_by w (retain p rs) ≤ sum_by w rs
sum_by-retain w p [] = omega arith
sum_by-retain w p (r ∷ rs) = ground (arith, sum_by-retain w p rs)

pub length-retain :
    (p : ReassemblySegment → Bool) (rs : List ReassemblySegment) → length (retain p rs) ≤ length rs
length-retain p [] = omega arith
length-retain p (r ∷ rs) = ground (arith, length-retain p rs)

-- What is found and what is left make up the list.
abbrev pub Parted :
    List ReassemblySegment → Option (ReassemblySegment × List ReassemblySegment) → Type 0
Parted rs none = Unit
Parted rs (some (r, rest)) =
    (reassembly_bytes rs ≡ length r.payload + reassembly_bytes rest)
    × (length rs ≡ suc (length rest))

Parted-cons :
    (x : ReassemblySegment) (xs : List ReassemblySegment)
    (found : Option (ReassemblySegment × List ReassemblySegment))
    → Parted xs found
    → Parted (x ∷ xs) (elim found [ none ↦ none | some (y, ys) ↦ some (y, x ∷ ys) ])
Parted-cons x xs none v = tt
Parted-cons x xs (some (y, ys)) v = (omega (arith, v.0), omega (arith, v.1))

pub remove_first-Parted :
    (p : ReassemblySegment → Bool) (rs : List ReassemblySegment) → Parted rs (remove_first p rs)
unfolding remove_first
remove_first-Parted p [] = tt
remove_first-Parted p (r ∷ rs) = elim (Bool-cases (p r)) [
  | inl e ↦ rw (e, remove_first) (refl, refl)
  | inr e ↦ rw (e, remove_first) (Parted-cons r rs (remove_first p rs) (remove_first-Parted p rs))
]

pub trim_received-shorter :
    (n : ℕ) (r : ReassemblySegment) → length (trim_received n r).payload ≤ length r.payload
unfolding trim_received
trim_received-shorter n r =
    ground (arith, length-drop (min (distance r.seq n) (length r.payload)) r.payload)

module _ {P : Type 0} (config : Config) where
  enter_time_wait-Fits :
      (c : Connection P) (now_ms : ℕ)
      → Fits config c
      → Fits config (enter_time_wait c now_ms config)
  unfolding enter_time_wait
  enter_time_wait-Fits c now_ms v = record {
    capacity = v.capacity;
    bytes_fit = v.bytes_fit;
    segments_fit = v.segments_fit;
  }

  pub on_remote_fin-Fits :
      (c : Connection P) (now_ms : ℕ) → Fits config c → Fits config (on_remote_fin c now_ms config)
  unfolding on_remote_fin enter_time_wait
  on_remote_fin-Fits c now_ms v = ground (arith, v)

  -- The buffer has room for all of a segment that was taken out.
  pub bytes_left-nil :
      (c : Connection P) (r : ReassemblySegment)
      → c.receive_capacity ≡ config.receive_buffer
      → length c.recv_queue + length r.payload ≤ c.receive_capacity
      → bytes_left c r config ≡ []
  bytes_left-nil c r h k = elim (List-cases (bytes_left c r config)) [
    | inl e ↦ e
    | inr (x, xs, e) ↦ absurd (
        omega (
          arith,
          ap length e,
          length-drop (min (config.receive_buffer - length c.recv_queue) (length r.payload))
              r.payload,
        ))
  ]

  take_bytes-Fits :
      (c : Connection P) (r : ReassemblySegment)
      → (c.receive_capacity ≡ config.receive_buffer) × (c.receive_capacity ≤ u16_max)
      → length c.recv_queue + (length r.payload + reassembly_bytes c.reassembly)
        ≤ c.receive_capacity
      → length c.reassembly ≤ config.max_reassembly_segments
      → Fits config (take_bytes c r config)
  unfolding take_bytes
  take_bytes-Fits c r h k l =
      let n = min (config.receive_buffer - length c.recv_queue) (length r.payload) in
      record {
        capacity = h;
        bytes_fit =
            omega (arith, length-append c.recv_queue (take n r.payload), length-take n r.payload);
        segments_fit = l;
      }

  -- A round leaves `rs` waiting, goes on, and keeps the bounds.
  abbrev pub GoesOn : List ReassemblySegment → Connection P × Bool → Type 0
  GoesOn rs r = Fits config r.0 × (r.1 ≡ true) × (r.0.reassembly ≡ rs)

  reassembly-on_remote_fin :
      (c : Connection P) (now_ms : ℕ) → (on_remote_fin c now_ms config).reassembly ≡ c.reassembly
  unfolding on_remote_fin enter_time_wait
  reassembly-on_remote_fin c now_ms = ground arith

  -- The end of a round behind the bytes of a segment, with its FIN or without.
  fin-Fits :
      (fin : Bool) (c : Connection P) (now_ms : ℕ)
      → Fits config c
      → let r : Connection P × Bool =
          if fin
          then (
            on_remote_fin (record c { recv_nxt = wrapping_add c.recv_nxt 1 }) now_ms config,
            true,
          )
          else (c, true) in
        GoesOn c.reassembly r
  fin-Fits true c now_ms v =
      let c' = record c { recv_nxt = wrapping_add c.recv_nxt 1 } in
      (on_remote_fin-Fits c' now_ms v, refl, reassembly-on_remote_fin c' now_ms)
  fin-Fits false c now_ms v = (v, refl, refl)

  pub accept_segment-Fits :
      (c : Connection P) (r : ReassemblySegment) (now_ms : ℕ)
      → (c.receive_capacity ≡ config.receive_buffer) × (c.receive_capacity ≤ u16_max)
      → length c.recv_queue + (length r.payload + reassembly_bytes c.reassembly)
        ≤ c.receive_capacity
      → length c.reassembly ≤ config.max_reassembly_segments
      → GoesOn c.reassembly (accept_segment c r now_ms config)
  unfolding accept_segment take_bytes
  accept_segment-Fits c r now_ms h k l =
      rw (bytes_left-nil c r h.0 (omega arith))
        (fin-Fits r.fin (take_bytes c r config) now_ms (take_bytes-Fits c r h k l))

  -- With one more round than there are segments the loop ends when none is ready any more.
  pub drain_rounds-Fits :
      (fuel : ℕ) (c : Connection P) (now_ms : ℕ)
      → Fits config c
      → length c.reassembly < fuel
      → let d = drain_rounds fuel c now_ms config in
        Fits config d × (remove_first (is_ready d.recv_nxt) d.reassembly ≡ none)
  unfolding drain_rounds
  drain_rounds-Fits zero c now_ms v h = absurd (omega arith)
  drain_rounds-Fits (suc fuel) c now_ms v h =
      let kept = retain (is_pending c.recv_nxt) c.reassembly in
      let bytes = sum_by-retain (λ r. length r.payload) (is_pending c.recv_nxt) c.reassembly in
      let count = length-retain (is_pending c.recv_nxt) c.reassembly in
      elim (Option-cases (remove_first (is_ready c.recv_nxt) kept)) [
        | inl e ↦
            let v' : Fits config (record c { reassembly = kept }) = record {
              capacity = v.capacity;
              bytes_fit = omega (arith, v.bytes_fit, bytes);
              segments_fit = omega (arith, v.segments_fit, count);
            } in
            rw (e, drain_rounds) (v', e)
        | inr ((r, rest), e) ↦
            let parted : Parted kept (some (r, rest)) =
              subst (Parted kept) e (remove_first-Parted (is_ready c.recv_nxt) kept) in
            let c' : Connection P = record c { reassembly = rest } in
            let r' = trim_received c.recv_nxt r in
            let w =
              accept_segment-Fits c' r' now_ms v.capacity
                (omega (arith, v.bytes_fit, bytes, parted.0, trim_received-shorter c.recv_nxt r))
                (omega (arith, v.segments_fit, count, parted.1)) in
            rw (e, w.1, drain_rounds)
              (drain_rounds-Fits fuel (accept_segment c' r' now_ms config).0 now_ms w.0
                (omega (arith, h, count, parted.1, ap length w.2)))
      ]
