-- ===== src/Connection/Receiver/Progress.antt =====
-- The segment with the next byte.
use fips_tcp.Common.{
  All, Bool, Bool-cases, List, List-cases, Option, Option-cases, [], any, ap, arith, drop, false,
  if◌then◌else◌, inl, inr, is_empty, length, length-drop, length-take, ltb, none, refl, retain,
  some, subst, sym, take, true, wrapping_add, ℕ, ◌++◌, ◌+◌, ◌-◌, ◌<◌, ◌==◌, ◌^◌, ◌∙◌, ◌∷◌, ◌≡◌, ◌≤◌,
}
use fips_tcp.Types.{Config}
use fips_tcp.Wire.{Segment, contains, fin_flag}
use fips_tcp.Seq.{before, after, distance}
use fips_tcp.Seq.Order.{before-wrapping_add}
use fips_tcp.Connection.{Connection, available_window}
use fips_tcp.Segments.{ReassemblySegment, bool_len}
use fips_tcp.Connection.Receive.{
  drain_reassembly, insert_chunk, insert_received, is_pending, is_ready, receive_stream_data,
  received_chunk, remove_first, same_range,
}
use fips_tcp.Connection.Buffer.{Fits}
use fips_tcp.Connection.Buffer.Data.{insert_received-Fits}
use fips_tcp.Connection.Receiver.{Near, Piece, Slice, offset-pending}
use fips_tcp.Connection.Receiver.Chunks.{insert_received-Inserted}
use fips_tcp.Connection.Receiver.Data.{Follows, remove_first-none, window-small}
use fips_tcp.Connection.Receiver.Drain.{count_of}
use fips_tcp.Connection.Receiver.Rounds.{Draining, drain_rounds-advances}

-- A chunk that starts with the next byte.
abbrev Starts : ℕ → Option ReassemblySegment → Type 0
Starts nxt chunk =
    (r : ReassemblySegment) × (chunk ≡ some r) × (r.seq ≡ nxt) × (1 ≤ length r.payload)

Starts-if :
    (far : Bool) (nxt n : ℕ) (body : List ℕ) (fin : Bool)
    → far ≡ false
    → 1 ≤ n
    → n ≤ length body
    → Starts nxt
        (if far then none else some (record { seq = nxt; payload = take n body; fin = fin }))
Starts-if far nxt n body fin e h k = (
  record { seq = nxt; payload = take n body; fin = fin },
  rw (e) refl,
  refl,
  omega (arith, h, k, length-take n body),
)

module _ {P : Type 0} (base : ℕ) where
  received_chunk-Starts :
      (c : Connection P) (n o seq : ℕ) (payload : List ℕ) (fin : Bool)
      → c.recv_nxt ≡ wrapping_add base n
      → 1 ≤ available_window c
      → seq ≡ wrapping_add base o
      → Near o n
      → o ≤ n
      → n < o + length payload
      → Starts c.recv_nxt (received_chunk c seq payload fin)
  unfolding received_chunk distance after before
  received_chunk-Starts c n o seq payload fin e w f near least more =
      let order = before-wrapping_add base o n (omega (arith, near)) (omega (arith, near)) in
      let zero_offset : distance c.recv_nxt c.recv_nxt ≡ 0 = omega (arith, e) in
      let here : after c.recv_nxt c.recv_nxt ≡ false = ground (arith, e) in
      elim (Bool-cases (before seq c.recv_nxt)) [
        | inl early ↦
            let skipped : distance seq c.recv_nxt ≡ n - o = omega (arith, least, near, e, f) in
            let shorter = length-drop (distance seq c.recv_nxt) payload in
            rw (early, received_chunk, here, zero_offset)
              (Starts-if false c.recv_nxt _ (drop (distance seq c.recv_nxt) payload) _ refl
                (omega (arith, w, shorter, skipped, least, more)) (omega arith))
        | inr late ↦
            let same : seq ≡ c.recv_nxt = ground (arith, late, order, near, least, e, f) in
            rw (late, received_chunk, same, here, zero_offset)
              (Starts-if false c.recv_nxt _ payload _ refl (omega (arith, w, least, more))
                (omega arith))
      ]

-- No segment that waits has the range of one that can be read from.
no-same_range :
    (nxt : ℕ) (chunk : ReassemblySegment) (xs : List ReassemblySegment)
    → chunk.seq ≡ nxt
    → All (λ x. is_ready nxt x ≡ false) xs
    → any (λ existing. same_range existing chunk) xs ≡ false
unfolding is_ready same_range
no-same_range nxt chunk [] e v = refl
no-same_range nxt chunk (x ∷ xs) e v =
    let rest = no-same_range nxt chunk xs e v.1 in
    let other : (x.seq == chunk.seq) ≡ false = ground (arith, v.0, e) in rw (rest, other) refl

module _ {P : Type 0} (config : Config) where
  insert_received-stores :
      (c : Connection P) (seq : ℕ) (payload : List ℕ) (fin : Bool) (chunk : ReassemblySegment)
      → received_chunk c seq payload fin ≡ some chunk
      → chunk.seq ≡ c.recv_nxt
      → 1 ≤ length chunk.payload
      → All (λ x. is_ready c.recv_nxt x ≡ false) c.reassembly
      → length c.reassembly < config.max_reassembly_segments
      → insert_received c seq payload fin config
        ≡ record c { reassembly = c.reassembly ++ (chunk ∷ []) }
  unfolding insert_received insert_chunk
  insert_received-stores c seq payload fin chunk e start some_bytes waits room =
      let full : is_empty chunk.payload ≡ false = elim (List-cases chunk.payload) [
        | inl none_at_all ↦ absurd (omega (arith, ap length none_at_all, some_bytes))
        | inr (x, xs, cons) ↦ rw (cons) refl
      ] in
      let place : ltb (length c.reassembly) config.max_reassembly_segments ≡ true =
        ground (arith, room) in
      rw
        (
          e,
          insert_received,
          insert_chunk,
          full,
          no-same_range c.recv_nxt chunk c.reassembly start waits,
          place,
        )
        refl

-- A segment behind the others that passes both tests is not overlooked.
retain-last :
    (p : ReassemblySegment → Bool) (x : ReassemblySegment) (xs : List ReassemblySegment)
    → p x ≡ true
    → retain p (xs ++ (x ∷ [])) ≡ retain p xs ++ (x ∷ [])
retain-last p x [] h = rw (h) refl
retain-last p x (y ∷ ys) h = elim (Bool-cases (p y)) [
  | inl e ↦ rw (e, retain-last p x ys h) refl
  | inr e ↦ rw (e) (retain-last p x ys h)
]

All-last :
    (S : ReassemblySegment → Type 0) (x : ReassemblySegment) (xs : List ReassemblySegment)
    → All S (xs ++ (x ∷ []))
    → S x
All-last S x [] v = v.0
All-last S x (y ∷ ys) v = All-last S x ys v.1

finds :
    (p q : ReassemblySegment → Bool) (x : ReassemblySegment) (xs : List ReassemblySegment)
    → p x ≡ true
    → q x ≡ true
    → (r : ReassemblySegment) × (rest : List ReassemblySegment) × (remove_first q
          (retain p (xs ++ (x ∷ [])))
        ≡ some (r, rest))
finds p q x xs h k = elim (Option-cases (remove_first q (retain p (xs ++ (x ∷ []))))) [
  | inr ((r, rest), e) ↦ (r, rest, e)
  | inl e ↦
      let none_pass =
        remove_first-none q (retain p xs ++ (x ∷ []))
          (ap (remove_first q) (sym (retain-last p x xs h)) ∙ e) in
      let fails : q x ≡ false = All-last (λ y. q y ≡ false) x (retain p xs) none_pass in
      absurd (ground (arith, fails, k))
]

Starts-ready : (nxt : ℕ) (r : ReassemblySegment) → r.seq ≡ nxt → is_ready nxt r ≡ true
unfolding is_ready
Starts-ready nxt r h = ground (arith, h)

short :
    (base : ℕ) (stream : List ℕ) (n : ℕ) (r : ReassemblySegment)
    → Slice base stream n (n + 65535) r
    → length r.payload ≤ 65535
short base stream n r (o, e, piece, least, most) = omega (arith, least, most)

ahead-Near : (n : ℕ) (fin : Bool) (len : ℕ) → len ≤ 65535 → Near (n + len + bool_len fin) n
ahead-Near n true len h = omega arith
ahead-Near n false len h = omega arith

module _ {P : Type 0} (base : ℕ) (stream delivered : List ℕ) (config : Config) where
  -- When the receiver's invariant holds, the data of a segment are a piece of the stream that has
  -- the next byte, no waiting segment can be read from, fewer wait than the configuration allows
  -- and the window is open, `receive_stream_data` extends what is in order.
  pub receive_stream_data-advances :
      (c : Connection P) (s : Segment) (now_ms o : ℕ)
      → Follows base stream delivered config c
      → s.seq ≡ wrapping_add base o
      → Near o (count_of delivered c)
      → length s.payload < 2 ^ 30
      → Piece stream o s.payload (contains s.flags fin_flag)
      → o ≤ count_of delivered c
      → count_of delivered c < o + length s.payload
      → remove_first (is_ready c.recv_nxt) c.reassembly ≡ none
      → length c.reassembly < config.max_reassembly_segments
      → 1 ≤ available_window c
      → count_of delivered c < count_of delivered (receive_stream_data c s now_ms config).0
  unfolding receive_stream_data drain_reassembly
  receive_stream_data-advances c s now_ms o v e near len piece least more waits room w =
      let n = count_of delivered c in
      let fin = contains s.flags fin_flag in
      let d = insert_received c s.seq s.payload fin config in
      let (chunk, made, start, some_bytes) =
        received_chunk-Starts base c n o s.seq s.payload fin v.order.number w e near least more in
      let stored =
        insert_received-stores config c s.seq s.payload fin chunk made start some_bytes
          (remove_first-none (is_ready c.recv_nxt) c.reassembly waits) room in
      let (same, parts) =
        insert_received-Inserted base stream n o c s.seq s.payload fin config v.parts v.order.number
          (window-small base stream delivered config c v.bounds) e near len piece in
      let fits = insert_received-Fits config c s.seq s.payload fin v.bounds in
      let c' : Connection P = record c { reassembly = c.reassembly ++ (chunk ∷ []) } in
      let parts' : All (Slice base stream n (n + 65535)) c'.reassembly =
        subst (λ (x : Connection P). All (Slice base stream n (n + 65535)) x.reassembly) stored
          parts in
      let begin : Draining base stream delivered config n c' =
        (v.order, omega arith, omega arith, parts') in
      let fits' : Fits config c' = subst (Fits config) stored fits in
      let (r, rest, found) =
        finds (is_pending c.recv_nxt) (is_ready c.recv_nxt) chunk c.reassembly
          (offset-pending base n n c.recv_nxt chunk (start ∙ v.order.number) v.order.number
            (ahead-Near n chunk.fin (length chunk.payload) (
              short base stream n chunk
                (All-last (Slice base stream n (n + 65535)) chunk c.reassembly parts')))
            (omega (arith, some_bytes)))
          (Starts-ready c.recv_nxt chunk start) in
      rw (stored) (
        drain_rounds-advances base stream delivered config (length c'.reassembly) n c' now_ms r rest
          begin fits' found)
