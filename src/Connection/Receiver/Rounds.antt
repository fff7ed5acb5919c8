-- ===== src/Connection/Receiver/Rounds.antt =====
-- The rounds of `drain_reassembly`.
use fips_tcp.Common.{
  All, Bool, Bool-cases, List, Option, Option-cases, [], arith, false, inl, inr, length, none, refl,
  retain, some, subst, suc, true, zero, ℕ, ◌+◌, ◌<◌, ◌∷◌, ◌≡◌, ◌≤◌,
}
use fips_tcp.Types.{Config}
use fips_tcp.Connection.{Connection}
use fips_tcp.Connection.Receive.{
  accept_segment, drain_rounds, is_pending, is_ready, remove_first, trim_received,
}
use fips_tcp.Segments.{ReassemblySegment, bool_len}
use fips_tcp.Connection.Buffer.{
  Fits, Parted, remove_first-Parted, trim_received-shorter, sum_by-retain, length-retain,
  accept_segment-Fits,
}
use fips_tcp.Connection.Receiver.{FinAt, Near, Slice, ready-offset, pending-offset}
use fips_tcp.Connection.Receiver.Pieces.{Piece-end}
use fips_tcp.Connection.Receiver.Drain.{
  Ordered, count_of, Next, accept_segment-Grows, trim_received-Next,
}

module _ {ℓ} {A : Type ℓ} where
  retain-All :
      (S : A → Type 0) (p : A → Bool) (xs : List A)
      → All S xs
      → All (λ x. S x × (p x ≡ true)) (retain p xs)
  retain-All S p [] v = tt
  retain-All S p (x ∷ xs) v = elim (Bool-cases (p x)) [
    | inl e ↦ rw (e) ((v.0, e), retain-All S p xs v.1)
    | inr e ↦ rw (e) (retain-All S p xs v.1)
  ]

  pub All-map : (S T : A → Type 0) (xs : List A) → ((x : A) → S x → T x) → All S xs → All T xs
  All-map S T [] f v = tt
  All-map S T (x ∷ xs) f v = (f x v.0, All-map S T xs f v.1)

  -- What is found passes the test.
  abbrev Found : (A → Type 0) → (A → Bool) → Option (A × List A) → Type 0
  Found S p none = Unit
  Found S p (some (x, rest)) = S x × (p x ≡ true) × All S rest

  Found-cons :
      (S : A → Type 0) (p : A → Bool) (x : A) (found : Option (A × List A))
      → S x
      → Found S p found
      → Found S p (elim found [ none ↦ none | some (y, ys) ↦ some (y, x ∷ ys) ])
  Found-cons S p x none h v = tt
  Found-cons S p x (some (y, ys)) h v = (v.0, v.1, (h, v.2))

  remove_first-Found :
      (S : A → Type 0) (p : A → Bool) (xs : List A) → All S xs → Found S p (remove_first p xs)
  unfolding remove_first
  remove_first-Found S p [] v = tt
  remove_first-Found S p (x ∷ xs) v = elim (Bool-cases (p x)) [
    | inl e ↦ rw (e, remove_first) (v.0, e, v.1)
    | inr e ↦
        rw (e, remove_first)
          (Found-cons S p x (remove_first p xs) v.0 (remove_first-Found S p xs v.1))
  ]

-- A piece that has something new is read while the stream is open.
still_open :
    (closed fin : Bool) (n k total o len : ℕ)
    → FinAt closed k total
    → n ≡ k + bool_len closed
    → FinAt fin (o + len) total
    → n < o + len + bool_len fin
    → (1 ≤ len → o + len ≤ total)
    → o ≤ n
    → (closed ≡ false) × (n ≤ o + len)
still_open false true n k total o len a b c d e f = (refl, omega arith)
still_open false false n k total o len a b c d e f = (refl, omega arith)
still_open true true n k total o len a b c d e f = absurd (omega arith)
still_open true false n k total o len a b c d e f =
    let inside = e (omega arith) in absurd (omega (arith, inside))

fin-Near :
    (fin : Bool) (n o m len : ℕ)
    → n ≤ m
    → m ≤ n + 65536
    → n ≤ o
    → o + len ≤ n + 65535
    → Near (o + len + bool_len fin) m
fin-Near true n o m len a b c d = omega arith
fin-Near false n o m len a b c d = omega arith

module _ {P : Type 0} (base : ℕ) (stream delivered : List ℕ) (config : Config) where
  -- A connection in the middle of the loop that started at the count `n`.
  abbrev pub Draining : ℕ → Connection P → Type 0
  Draining n c =
      Ordered base stream delivered c
      × (n ≤ count_of delivered c)
      × (count_of delivered c ≤ n + 65536)
      × All (Slice base stream n (n + 65535)) c.reassembly

  -- A piece that is taken out can go behind the bytes in order.
  round-Next :
      (n : ℕ) (c : Connection P) (r : ReassemblySegment)
      → Draining n c
      → Slice base stream n (n + 65535) r
      → is_pending c.recv_nxt r ≡ true
      → is_ready c.recv_nxt r ≡ true
      → (c.read_closed ≡ false)
        × Next stream (count_of delivered c) (n + 65535) (trim_received c.recv_nxt r)
        × (1
            ≤ length (trim_received c.recv_nxt r).payload
              + bool_len (trim_received c.recv_nxt r).fin)
  round-Next n c r (v, lo, up, waiting) (o, e, piece, least, most) pending ready =
      let m = count_of delivered c in
      let near : Near o m = omega (arith, lo, up, least, most) in
      let start = ready-offset base o m c.recv_nxt r e v.number near ready in
      let fresh =
        pending-offset base o m c.recv_nxt r e v.number
          (fin-Near r.fin n o m (length r.payload) lo up least most) pending in
      let (f, end) =
        still_open c.read_closed r.fin m (length delivered + length c.recv_queue) (length stream) o
          (length r.payload) v.fin refl piece.1 fresh (Piece-end stream o r.payload piece.0)
          start in
      let next =
        trim_received-Next base stream m o c.recv_nxt (n + 65535) r v.number e near piece most start
          end in
      (f, next.0, omega (arith, next.1, fresh))

  -- A round that found a piece, and where the loop goes on from.
  round-Draining :
      (n : ℕ) (c : Connection P) (r : ReassemblySegment) (rest : List ReassemblySegment)
      (now_ms : ℕ)
      → Draining n c
      → Fits config c
      → remove_first (is_ready c.recv_nxt) (retain (is_pending c.recv_nxt) c.reassembly)
        ≡ some (r, rest)
      → let d =
          accept_segment
            (record c { reassembly = rest })
            (trim_received c.recv_nxt r)
            now_ms
            config in
        Draining n d.0
        × Fits config d.0
        × (d.1 ≡ true)
        × (count_of delivered c < count_of delivered d.0)
  round-Draining n c r rest now_ms v fits e =
      let S : ReassemblySegment → Type 0 = Slice base stream n (n + 65535) in
      let kept = retain (is_pending c.recv_nxt) c.reassembly in
      let pending = retain-All S (is_pending c.recv_nxt) c.reassembly v.3 in
      let bytes = sum_by-retain (λ r. length r.payload) (is_pending c.recv_nxt) c.reassembly in
      let segments = length-retain (is_pending c.recv_nxt) c.reassembly in
      let K : ReassemblySegment → Type 0 = λ r. S r × (is_pending c.recv_nxt r ≡ true) in
      let parted : Parted kept (some (r, rest)) =
        subst (Parted kept) e (remove_first-Parted (is_ready c.recv_nxt) kept) in
      let found : Found K (is_ready c.recv_nxt) (some (r, rest)) =
        subst (Found K (is_ready c.recv_nxt)) e
          (remove_first-Found K (is_ready c.recv_nxt) kept pending) in
      let r' = trim_received c.recv_nxt r in
      let c' : Connection P = record c { reassembly = rest } in
      let shorter = trim_received-shorter c.recv_nxt r in
      let w =
        accept_segment-Fits config c' r' now_ms fits.capacity
          (omega (arith, fits.bytes_fit, bytes, parted.0, shorter))
          (omega (arith, fits.segments_fit, segments, parted.1)) in
      let others = All-map K S rest (λ x h. h.0) found.2 in
      let (f, next, new) = round-Next n c r v found.0.0 found.0.1 found.1 in
      let g =
        accept_segment-Grows base stream delivered c' r' now_ms (n + 65535) config v.0 f next
          fits.capacity.0 (omega (arith, fits.bytes_fit, bytes, parted.0, shorter)) in
      (
        (g.0, omega (arith, v.1, g.1), omega (arith, g.2), rw (w.2) others),
        w.0,
        w.1,
        omega (arith, g.1, new),
      )

  -- The loop goes along the stream, and never back.
  pub drain_rounds-Draining :
      (fuel n : ℕ) (c : Connection P) (now_ms : ℕ)
      → Draining n c
      → Fits config c
      → let d = drain_rounds fuel c now_ms config in
        Draining n d × (count_of delivered c ≤ count_of delivered d)
  unfolding drain_rounds
  drain_rounds-Draining zero n c now_ms v fits = (v, omega arith)
  drain_rounds-Draining (suc fuel) n c now_ms v fits =
      let S : ReassemblySegment → Type 0 = Slice base stream n (n + 65535) in
      let kept = retain (is_pending c.recv_nxt) c.reassembly in
      let K : ReassemblySegment → Type 0 = λ r. S r × (is_pending c.recv_nxt r ≡ true) in
      let pending = retain-All S (is_pending c.recv_nxt) c.reassembly v.3 in
      elim (Option-cases (remove_first (is_ready c.recv_nxt) kept)) [
        | inl e ↦
            rw (e, drain_rounds)
              ((v.0, v.1, v.2, All-map K S kept (λ r h. h.0) pending), omega arith)
        | inr ((r, rest), e) ↦
            let w = round-Draining n c r rest now_ms v fits e in
            let d =
              (accept_segment (record c { reassembly = rest }) (trim_received c.recv_nxt r) now_ms
                config).0 in
            let more = drain_rounds-Draining fuel n d now_ms w.0 w.1 in
            rw (e, w.2, drain_rounds) (more.0, omega (arith, w.3, more.1))
      ]

  -- A piece that can be read from is read.
  pub drain_rounds-advances :
      (fuel n : ℕ) (c : Connection P) (now_ms : ℕ) (r : ReassemblySegment)
      (rest : List ReassemblySegment)
      → Draining n c
      → Fits config c
      → remove_first (is_ready c.recv_nxt) (retain (is_pending c.recv_nxt) c.reassembly)
        ≡ some (r, rest)
      → count_of delivered c < count_of delivered (drain_rounds (suc fuel) c now_ms config)
  unfolding drain_rounds
  drain_rounds-advances fuel n c now_ms r rest v fits e =
      let w = round-Draining n c r rest now_ms v fits e in
      let d =
        (accept_segment (record c { reassembly = rest }) (trim_received c.recv_nxt r) now_ms
          config).0 in
      let more = drain_rounds-Draining fuel n d now_ms w.0 w.1 in
      rw (e, w.2, drain_rounds) (omega (arith, w.3, more.1))
