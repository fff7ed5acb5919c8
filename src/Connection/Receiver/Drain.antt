-- ===== src/Connection/Receiver/Drain.antt =====
-- `drain_reassembly` of stack.rs: one piece behind the bytes in order.
use fips_tcp.Common.{
  Bool, Bool-cases, List, ap, append_assoc, arith, as_u32, drop, false, if◌then◌else◌, inl, inr,
  length, length-append, length-drop, min, refl, sym, take, take_all, true, wrapping_add, ℕ, ◌++◌,
  ◌+◌, ◌-◌, ◌∙◌, ◌≡◌, ◌≤◌,
}
use fips_tcp.Types.{Config}
use fips_tcp.Seq.{before, distance}
use fips_tcp.Seq.Order.{before-wrapping_add}
use fips_tcp.Connection.{Connection}
use fips_tcp.Connection.Receive.{
  accept_segment, enter_time_wait, on_remote_fin, take_bytes, trim_received,
}
use fips_tcp.Segments.{ReassemblySegment, bool_len}
use fips_tcp.Connection.Buffer.{bytes_left-nil}
use fips_tcp.Connection.Receiver.{FinAt, InOrder, Near, Piece, count}
use fips_tcp.Connection.Receiver.Pieces.{drop-Piece, take-split}

module _ {P : Type 0} where
  abbrev pub count_of : List ℕ → Connection P → ℕ
  count_of delivered c = count delivered c.recv_queue c.read_closed

module _ (stream : List ℕ) where
  -- A piece that starts where the next byte is waited for.
  abbrev pub Next : ℕ → ℕ → ReassemblySegment → Type 0
  Next n hi r = Piece stream n r.payload r.fin × (n + length r.payload ≤ hi)

module _ (base : ℕ) (stream : List ℕ) where
  -- What was received before goes.
  pub trim_received-Next :
      (n o nxt hi : ℕ) (r : ReassemblySegment)
      → nxt ≡ wrapping_add base n
      → r.seq ≡ wrapping_add base o
      → Near o n
      → Piece stream o r.payload r.fin
      → o + length r.payload ≤ hi
      → o ≤ n
      → n ≤ o + length r.payload
      → let r' = trim_received nxt r in
        Next stream n hi r'
        × (n + length r'.payload + bool_len r'.fin ≡ o + length r.payload + bool_len r.fin)
  unfolding trim_received distance
  trim_received-Next n o nxt hi r e f near piece h lo up =
      let order = before-wrapping_add base o n (omega (arith, near)) (omega (arith, near)) in
      elim (Bool-cases (before r.seq nxt)) [
        | inr late ↦
            let same : o ≡ n = ground (arith, late, order, e, f, lo) in
            rw (late, trim_received) (rw⁻¹ same ((piece, h), refl))
        | inl early ↦
            let skipped : min (distance r.seq nxt) (length r.payload) ≡ n - o =
              omega (arith, lo, up, near, e, f) in
            let n' : o + min (distance r.seq nxt) (length r.payload) ≡ n =
              omega (arith, lo, skipped) in
            let shorter = length-drop (min (distance r.seq nxt) (length r.payload)) r.payload in
            let end : o + length r.payload
                ≡ n + length (drop (min (distance r.seq nxt) (length r.payload)) r.payload) =
              omega (arith, shorter, skipped, lo, up) in
            rw (early, trim_received)
              (
                (
                  (
                    rw⁻¹ n' (
                        drop-Piece stream o (min (distance r.seq nxt) (length r.payload)) r.payload
                          piece.0),
                    rw⁻¹ end piece.1,
                  ),
                  omega (arith, end, h),
                ),
                omega (arith, end),
              )
      ]

module _ (base : ℕ) (stream delivered : List ℕ) where
  -- The bytes of the next piece go behind those in order.
  appended :
      (nxt : ℕ) (queue payload : List ℕ)
      → InOrder base stream delivered nxt queue false
      → payload ≡ take (length payload) (drop (length delivered + length queue) stream)
      → InOrder base stream delivered
          (wrapping_add nxt (as_u32 (length payload)))
          (queue ++ payload)
          false
  appended nxt queue payload v h =
      let longer = length-append queue payload in
      let k = length delivered + length queue in
      let sum : k + length payload ≡ length delivered + length (queue ++ payload) =
        omega (arith, longer) in
      record {
        number = omega (arith, v.number, longer);
        bytes =
            sym (append_assoc delivered queue payload)
            ∙ ap (λ xs. xs ++ payload) v.bytes
            ∙ ap (λ xs. take k stream ++ xs) h
            ∙ sym (take-split k (length payload) stream)
            ∙ ap (λ j. take j stream) sum;
        fin = tt;
      }

module _ {P : Type 0} (base : ℕ) (stream delivered : List ℕ) where
  -- The bytes of a connection are in order.
  abbrev pub Ordered : Connection P → Type 0
  Ordered c = InOrder base stream delivered c.recv_nxt c.recv_queue c.read_closed

  -- The fields that `on_remote_fin` leaves alone.
  on_remote_fin-fields :
      (d : Connection P) (now_ms : ℕ) (config : Config)
      → let d' = on_remote_fin d now_ms config in
        (d'.recv_nxt ≡ d.recv_nxt) × (d'.recv_queue ≡ d.recv_queue) × (d'.read_closed ≡ true)
  unfolding on_remote_fin enter_time_wait
  on_remote_fin-fields d now_ms config = ground arith

  -- A FIN at the end of the stream closes it.
  closed-Ordered :
      (d : Connection P) (now_ms : ℕ) (config : Config)
      → Ordered d
      → d.read_closed ≡ false
      → length delivered + length d.recv_queue ≡ length stream
      → let d' = on_remote_fin (record d { recv_nxt = wrapping_add d.recv_nxt 1 }) now_ms config in
        Ordered d' × (count_of delivered d' ≡ count_of delivered d + 1)
  closed-Ordered d now_ms config v f l =
      let (a, b, e) =
        on_remote_fin-fields (record d { recv_nxt = wrapping_add d.recv_nxt 1 }) now_ms config in
      rw (a, b, e, f)
        (
          record { number = omega (arith, v.number, ap bool_len f); bytes = v.bytes; fin = l },
          omega arith,
        )

  -- The bytes are in order, and there are more of them than before, up to a bound.
  abbrev pub Grows : ℕ → ℕ → Connection P → Type 0
  Grows n hi c = Ordered c × (n ≤ count_of delivered c) × (count_of delivered c ≤ hi)

  fin-Grows :
      (fin : Bool) (d : Connection P) (now_ms : ℕ) (config : Config) (n hi : ℕ)
      → Ordered d
      → d.read_closed ≡ false
      → FinAt fin (count_of delivered d) (length stream)
      → n ≤ count_of delivered d
      → count_of delivered d ≤ hi
      → let r : Connection P × Bool =
          if fin
          then (
            on_remote_fin (record d { recv_nxt = wrapping_add d.recv_nxt 1 }) now_ms config,
            true,
          )
          else (d, true) in
        Grows (n + bool_len fin) (hi + 1) r.0
  fin-Grows false d now_ms config n hi v f e lo up = (v, omega (arith, lo), omega (arith, up))
  fin-Grows true d now_ms config n hi v f e lo up =
      let w = closed-Ordered d now_ms config v f (omega (arith, e, ap bool_len f)) in
      (w.0, omega (arith, w.1, lo), omega (arith, w.1, up))

  take_bytes-Ordered :
      (c : Connection P) (r : ReassemblySegment) (config : Config)
      → Ordered c
      → c.read_closed ≡ false
      → r.payload ≡ take (length r.payload) (drop (length delivered + length c.recv_queue) stream)
      → min (config.receive_buffer - length c.recv_queue) (length r.payload) ≡ length r.payload
      → Ordered (take_bytes c r config)
        × (count_of delivered (take_bytes c r config) ≡ count_of delivered c + length r.payload)
  unfolding take_bytes
  take_bytes-Ordered c r config v f h all =
      let v' : InOrder base stream delivered c.recv_nxt c.recv_queue false = rw⁻¹ f v in
      rw (all, take_all (length r.payload) r.payload (omega arith), f)
        (
          appended base stream delivered c.recv_nxt c.recv_queue r.payload v' h,
          omega (arith, length-append c.recv_queue r.payload),
        )

  pub accept_segment-Grows :
      (c : Connection P) (r : ReassemblySegment) (now_ms hi : ℕ) (config : Config)
      → Ordered c
      → c.read_closed ≡ false
      → Next stream (count_of delivered c) hi r
      → c.receive_capacity ≡ config.receive_buffer
      → length c.recv_queue + length r.payload ≤ c.receive_capacity
      → Grows
          (count_of delivered c + length r.payload + bool_len r.fin)
          (hi + 1)
          (accept_segment c r now_ms config).0
  unfolding accept_segment take_bytes
  accept_segment-Grows c r now_ms hi config v f next capacity room =
      let n : count_of delivered c ≡ length delivered + length c.recv_queue =
        omega (arith, ap bool_len f) in
      let h : r.payload
          ≡ take (length r.payload) (drop (length delivered + length c.recv_queue) stream) =
        rw⁻¹ n next.0.0 in
      let (w, more) = take_bytes-Ordered c r config v f h (omega (arith, capacity, room)) in
      rw (bytes_left-nil config c r capacity room) (
        fin-Grows r.fin (take_bytes c r config) now_ms config
          (count_of delivered c + length r.payload) hi w f (rw (more) next.0.1)
          (omega (arith, more)) (omega (arith, more, next.1)))
