-- ===== src/Connection/Receiver/Chunks.antt =====
-- `insert_received` of stack.rs: the chunk that it makes of a segment of the stream.
use fips_tcp.Common.{
  All, All-append, Bool, Bool-cases, List, Option, Option-cases, [], any, arith, as_u32, drop,
  false, if◌then◌else◌, inl, inr, is_empty, length, length-drop, length-take, ltb, min, none, not,
  refl, some, subst, take, true, wrapping_add, ℕ, ◌&&◌, ◌++◌, ◌+◌, ◌-◌, ◌<◌, ◌==◌, ◌^◌, ◌∷◌, ◌≡◌,
  ◌≤◌,
}
use fips_tcp.Types.{Config}
use fips_tcp.Seq.{before, after, distance}
use fips_tcp.Seq.Order.{before-wrapping_add}
use fips_tcp.Connection.{Connection, available_window}
use fips_tcp.Connection.Receive.{received_chunk, insert_chunk, insert_received, same_range}
use fips_tcp.Segments.{ReassemblySegment}
use fips_tcp.Connection.Receiver.{FinAt, Piece, Slice, Near}
use fips_tcp.Connection.Receiver.Pieces.{take-Piece, drop-Piece}

-- The FIN that a chunk keeps.
abbrev keeps_fin : Bool → ℕ → List ℕ → ℕ → ℕ → Bool
keeps_fin fin allowed body original_end start =
    fin && (allowed == length body && original_end == wrapping_add start (as_u32 (length body)))

-- Where the FIN is kept the chunk ends where the segment ended.
keeps_fin-FinAt :
    (base o end total allowed : ℕ) (fin : Bool) (body : List ℕ) (original_end start : ℕ)
    → start ≡ wrapping_add base o
    → original_end ≡ wrapping_add base end
    → Near (o + length body) end
    → FinAt fin end total
    → FinAt (keeps_fin fin allowed body original_end start) (o + allowed) total
keeps_fin-FinAt base o end total allowed false body original_end start e f h k = tt
keeps_fin-FinAt base o end total allowed true body original_end start e f h k =
    elim (Bool-cases (allowed == length body)) [
      | inr other ↦ rw (other) tt
      | inl same ↦ elim (Bool-cases (original_end == wrapping_add start (as_u32 (length body)))) [
        | inr other ↦ rw (same, other) tt
        | inl again ↦ rw (same, again) (ground (arith, same, again, e, f, h, k))
      ]
    ]

module _ (base : ℕ) (stream : List ℕ) where
  -- A chunk, where there is one, is a piece of the stream between two offsets.
  abbrev Chunk : ℕ → ℕ → Option ReassemblySegment → Type 0
  Chunk lo hi none = Unit
  Chunk lo hi (some r) = Slice base stream lo hi r

  cut-Slice :
      (o end allowed hi original_end start : ℕ) (fin : Bool) (body : List ℕ)
      → start ≡ wrapping_add base o
      → original_end ≡ wrapping_add base end
      → body ≡ take (length body) (drop o stream)
      → Near (o + length body) end
      → FinAt fin end (length stream)
      → allowed ≤ length body
      → o + allowed ≤ hi
      → Slice base stream o hi (record {
        seq = start;
        payload = take allowed body;
        fin = keeps_fin fin allowed body original_end start;
      })
  cut-Slice o end allowed hi original_end start fin body e f b h k l m =
      let n : length (take allowed body) ≡ allowed = omega (arith, l, length-take allowed body) in
      (
        o,
        e,
        (
          take-Piece stream o allowed body b l,
          rw (n) (
              keeps_fin-FinAt base o end (length stream) allowed fin body original_end start e f h
                k),
        ),
        omega arith,
        omega (arith, n, m),
      )

  -- Beyond the window there is no chunk.
  window_or_none :
      (far : Bool) (lo hi : ℕ) (r : ReassemblySegment)
      → (far ≡ false → Slice base stream lo hi r)
      → Chunk lo hi (if far then none else some r)
  window_or_none true lo hi r h = tt
  window_or_none false lo hi r h = h refl

  early-Chunk :
      {P : Type 0} (c : Connection P) (n o seq : ℕ) (payload : List ℕ) (fin : Bool)
      → c.recv_nxt ≡ wrapping_add base n
      → available_window c ≤ 65535
      → seq ≡ wrapping_add base o
      → Near o n
      → length payload < 2 ^ 30
      → Piece stream o payload fin
      → before seq c.recv_nxt ≡ true
      → Chunk n (n + 65535) (received_chunk c seq payload fin)
  unfolding received_chunk distance
  early-Chunk c n o seq payload fin e w f near len piece early =
      let less : o < n = ground (
        arith,
        near,
        early,
        e,
        f,
        before-wrapping_add base o n (omega (arith, near)) (omega (arith, near)),
      ) in
      let skipped : distance seq c.recv_nxt ≡ n - o = omega (arith, less, near, e, f) in
      let body = drop (distance seq c.recv_nxt) payload in
      let n' : o + distance seq c.recv_nxt ≡ n = omega (arith, less, skipped) in
      let shorter = length-drop (distance seq c.recv_nxt) payload in
      let b : body ≡ take (length body) (drop n stream) =
        rw⁻¹ n' (drop-Piece stream o (distance seq c.recv_nxt) payload piece.0) in
      rw (early, received_chunk)
        (window_or_none _ n (n + 65535) _ λ near_end.
          cut-Slice n (o + length payload) _ (n + 65535) _ c.recv_nxt fin body e
            (omega (arith, f, len)) b (omega (arith, near, less, len, shorter, skipped)) piece.1
            (omega arith) (omega (arith, w)))

  late-Chunk :
      {P : Type 0} (c : Connection P) (n o seq : ℕ) (payload : List ℕ) (fin : Bool)
      → c.recv_nxt ≡ wrapping_add base n
      → available_window c ≤ 65535
      → seq ≡ wrapping_add base o
      → Near o n
      → length payload < 2 ^ 30
      → Piece stream o payload fin
      → before seq c.recv_nxt ≡ false
      → Chunk n (n + 65535) (received_chunk c seq payload fin)
  unfolding received_chunk distance after
  late-Chunk c n o seq payload fin e w f near len piece late =
      let order = before-wrapping_add base o n (omega (arith, near)) (omega (arith, near)) in
      let back = before-wrapping_add base n o (omega (arith, near)) (omega (arith, near)) in
      let least : n ≤ o = ground (arith, near, late, e, f, order) in
      let offset : distance c.recv_nxt seq ≡ o - n = omega (arith, least, near, e, f) in
      rw (late, received_chunk)
        (window_or_none _ n (n + 65535) _ λ inside.
          let cut =
            cut-Slice o (o + length payload)
              (min (length payload) (available_window c - distance c.recv_nxt seq)) (n + 65535)
              (wrapping_add seq (as_u32 (length payload))) seq fin payload f (omega (arith, f, len))
              piece.0 (omega arith) piece.1 (omega arith)
              (ground (arith, inside, w, offset, least, e, f, back)) in
          (cut.0, cut.1, cut.2, omega (arith, cut.3, least), cut.4))

  received_chunk-Slice :
      {P : Type 0} (c : Connection P) (n o seq : ℕ) (payload : List ℕ) (fin : Bool)
      → c.recv_nxt ≡ wrapping_add base n
      → available_window c ≤ 65535
      → seq ≡ wrapping_add base o
      → Near o n
      → length payload < 2 ^ 30
      → Piece stream o payload fin
      → Chunk n (n + 65535) (received_chunk c seq payload fin)
  received_chunk-Slice c n o seq payload fin e w f near len piece =
      elim (Bool-cases (before seq c.recv_nxt)) [
        | inl early ↦ early-Chunk c n o seq payload fin e w f near len piece early
        | inr late ↦ late-Chunk c n o seq payload fin e w f near len piece late
      ]

  -- Only the waiting segments change, and they are pieces of the stream.
  abbrev pub Inserted : {P : Type 0} → ℕ → Connection P → Connection P → Type 0
  Inserted n c d =
      (d ≡ record c { reassembly = d.reassembly })
      × All (Slice base stream n (n + 65535)) d.reassembly

  if-Inserted :
      {P : Type 0} (b : Bool) (n : ℕ) (c d d' : Connection P)
      → Inserted n c d
      → Inserted n c d'
      → Inserted n c (if b then d else d')
  if-Inserted true n c d d' v w = v
  if-Inserted false n c d d' v w = w

  insert_chunk-Inserted :
      {P : Type 0} (n : ℕ) (c : Connection P) (chunk : ReassemblySegment) (config : Config)
      → All (Slice base stream n (n + 65535)) c.reassembly
      → Slice base stream n (n + 65535) chunk
      → Inserted n c (insert_chunk c chunk config)
  unfolding insert_chunk
  insert_chunk-Inserted {P} n c chunk config v h =
      let same : Inserted n c c = (refl, v) in
      let stored : Inserted n c (record c { reassembly = c.reassembly ++ (chunk ∷ []) }) =
        (refl, All-append (Slice base stream n (n + 65535)) c.reassembly (chunk ∷ []) v (h, tt)) in
      let d : Connection P = record c { reassembly = c.reassembly ++ (chunk ∷ []) } in
      let room = ltb (length c.reassembly) config.max_reassembly_segments in
      let known = any (λ existing. same_range existing chunk) c.reassembly in
      if-Inserted (is_empty chunk.payload && not chunk.fin) n c c
        (if known then c else (if room then d else c)) same
        (if-Inserted known n c c (if room then d else c) same
          (if-Inserted room n c d c stored same))

  pub insert_received-Inserted :
      {P : Type 0} (n o : ℕ) (c : Connection P) (seq : ℕ) (payload : List ℕ) (fin : Bool)
      (config : Config)
      → All (Slice base stream n (n + 65535)) c.reassembly
      → c.recv_nxt ≡ wrapping_add base n
      → available_window c ≤ 65535
      → seq ≡ wrapping_add base o
      → Near o n
      → length payload < 2 ^ 30
      → Piece stream o payload fin
      → Inserted n c (insert_received c seq payload fin config)
  unfolding insert_received
  insert_received-Inserted n o c seq payload fin config v e w f near len piece =
      let chunk = received_chunk-Slice c n o seq payload fin e w f near len piece in
      elim (Option-cases (received_chunk c seq payload fin)) [
        | inl a ↦ rw (a, insert_received) (refl, v)
        | inr (r, a) ↦
            rw (a, insert_received)
              (insert_chunk-Inserted n c r config v (subst (Chunk n (n + 65535)) a chunk))
      ]
