-- ===== src/Connection/Receiver.antt =====
-- The receiving side of stack.rs and the stream of the peer: the bytes handed over, those in the
-- buffer, and the pieces that wait behind a gap.
pub mod Pieces
pub mod Chunks
pub mod Drain
pub mod Rounds
pub mod Data
pub mod History
pub mod Reads
pub mod Stall
pub mod Progress
use fips_tcp.Common.{
  All, Bool, List, arith, drop, false, length, take, true, wrapping_add, ℕ, ◌++◌, ◌+◌, ◌<◌, ◌^◌,
  ◌≡◌, ◌≤◌,
}
use fips_tcp.Types.{Config}
use fips_tcp.Seq.{before, before_or_equal}
use fips_tcp.Seq.Order.{before-wrapping_add}
use fips_tcp.Segments.{ReassemblySegment, bool_len, reassembly_end}
use fips_tcp.Connection.Receive.{is_ready, is_pending}
use fips_tcp.Connection.Buffer.{Bounds}

-- The end of a segment is that of the stream if the segment has a FIN.
abbrev pub FinAt : Bool → ℕ → ℕ → Type 0
FinAt true end total = end ≡ total
FinAt false end total = Unit

-- The number of sequence numbers that the receiver has taken: the bytes handed over and in the
-- buffer, and the FIN.
abbrev pub count : List ℕ → List ℕ → Bool → ℕ
count delivered queue closed = length delivered + length queue + bool_len closed

-- The bytes from an offset of the stream on, with a FIN at the end of the stream only.
abbrev pub Piece : List ℕ → ℕ → List ℕ → Bool → Type 0
Piece stream o payload fin =
    (payload ≡ take (length payload) (drop o stream))
    × FinAt fin (o + length payload) (length stream)

module _ (base : ℕ) (stream : List ℕ) where
  -- A segment is a piece of the stream between two offsets.
  abbrev pub Slice : ℕ → ℕ → ReassemblySegment → Type 0
  Slice lo hi r =
      (o : ℕ) × (r.seq ≡ wrapping_add base o)
      × Piece stream o r.payload r.fin
      × (lo ≤ o)
      × (o + length r.payload ≤ hi)

  -- The bytes in order, and the number that is waited for.
  pub record InOrder (delivered : List ℕ) (nxt : ℕ) (queue : List ℕ) (closed : Bool) : Type 0 where
    pub number : nxt ≡ wrapping_add base (count delivered queue closed)
    pub bytes : delivered ++ queue ≡ take (length delivered + length queue) stream
    pub fin : FinAt closed (length delivered + length queue) (length stream)

  -- The receiving side of an open connection.
  pub record Received (config : Config) (delivered : List ℕ) (capacity nxt : ℕ) (queue : List ℕ)
      (reassembly : List ReassemblySegment) (closed : Bool) : Type 0 where
    pub bounds : Bounds config capacity queue reassembly
    pub order : InOrder delivered nxt queue closed
    pub parts :
        All (Slice (count delivered queue closed) (count delivered queue closed + 65535)) reassembly

-- Offsets less than 2 ^ 30 apart.
abbrev pub Near : ℕ → ℕ → Type 0
Near i j = (i < j + 2 ^ 30) × (j < i + 2 ^ 30)

-- One number is that of one offset.
pub same_offset : (base i j : ℕ) → Near i j → wrapping_add base i ≡ wrapping_add base j → i ≡ j
same_offset base i j h e = omega (arith, h, e)

pub ready-offset :
    (base o n nxt : ℕ) (r : ReassemblySegment)
    → r.seq ≡ wrapping_add base o
    → nxt ≡ wrapping_add base n
    → Near o n
    → is_ready nxt r ≡ true
    → o ≤ n
unfolding is_ready
ready-offset base o n nxt r e f h k =
    ground (arith, k, h, e, f, before-wrapping_add base o n (omega (arith, h)) (omega (arith, h)))

pub unready-offset :
    (base o n nxt : ℕ) (r : ReassemblySegment)
    → r.seq ≡ wrapping_add base o
    → nxt ≡ wrapping_add base n
    → Near o n
    → is_ready nxt r ≡ false
    → n ≤ o
unfolding is_ready
unready-offset base o n nxt r e f h k =
    ground (arith, k, h, e, f, before-wrapping_add base o n (omega (arith, h)) (omega (arith, h)))

end-offset :
    (base o : ℕ) (r : ReassemblySegment)
    → r.seq ≡ wrapping_add base o
    → reassembly_end r ≡ wrapping_add base (o + length r.payload + bool_len r.fin)
unfolding reassembly_end
end-offset base o r e = omega (arith, e)

pub pending-offset :
    (base o n nxt : ℕ) (r : ReassemblySegment)
    → r.seq ≡ wrapping_add base o
    → nxt ≡ wrapping_add base n
    → Near (o + length r.payload + bool_len r.fin) n
    → is_pending nxt r ≡ true
    → n < o + length r.payload + bool_len r.fin
unfolding is_pending before_or_equal
pending-offset base o n nxt r e f h k =
    let end = o + length r.payload + bool_len r.fin in
    ground (
      arith,
      k,
      h,
      f,
      end-offset base o r e,
      before-wrapping_add base end n (omega (arith, h)) (omega (arith, h)),
    )

pub offset-pending :
    (base o n nxt : ℕ) (r : ReassemblySegment)
    → r.seq ≡ wrapping_add base o
    → nxt ≡ wrapping_add base n
    → Near (o + length r.payload + bool_len r.fin) n
    → n < o + length r.payload + bool_len r.fin
    → is_pending nxt r ≡ true
unfolding is_pending before_or_equal
offset-pending base o n nxt r e f h k =
    let end = o + length r.payload + bool_len r.fin in
    ground (
      arith,
      k,
      h,
      f,
      end-offset base o r e,
      before-wrapping_add base end n (omega (arith, h)) (omega (arith, h)),
    )
