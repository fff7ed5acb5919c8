-- ===== src/Stack/Encodes.antt =====
-- The encoding of the segments that a connection builds.
use fips_tcp.Common.{
  Bool, List, [], arith, false, if◌then◌else◌, is_some, none, ok, refl, some, sum_by, true, ℕ, ◌++◌,
  ◌≡◌, ◌≤◌,
}
use fips_tcp.Wire.{
  Segment, encode, ack_flag, contains, encode_options, encoded_header_len, encoded_len,
  fixed_header, resize, syn_flag,
}
use fips_tcp.Segments.{SegmentHeader, build_segment, syn_options}

-- What `encode` asks of a segment.
encode-parts :
    (s : Segment) (os : List ℕ)
    → 1 ≤ s.src_port
    → 1 ≤ s.dst_port
    → contains s.flags ack_flag ≡ is_some s.ack
    → encoded_header_len s ≤ 60
    → encode_options s.options ≡ ok os
    → (bytes : List ℕ) × (encode s ≡ ok bytes)
unfolding encode
encode-parts s os p q a h o = (
  resize (encoded_header_len s) (fixed_header s (encoded_header_len s) ++ os) ++ s.payload,
  ground (arith, p, q, a, h, o),
)

ack-by_flag : (b : Bool) (n : ℕ) → b ≡ is_some (if b then some n else none)
ack-by_flag true n = refl
ack-by_flag false n = refl

options-by_flag :
    (b : Bool) (mss : ℕ)
    → let options = if b then syn_options mss else [] in
      (os : List ℕ) × (encode_options options ≡ ok os) × (sum_by encoded_len options ≤ 8)
unfolding encode_options encoded_len
options-by_flag true mss = (_, refl, omega arith)
options-by_flag false mss = (_, refl, omega arith)

-- Every segment that `build_segment` makes with ports other than 0 can be encoded.
pub encode-build_segment :
    (h : SegmentHeader) (payload : List ℕ)
    → 1 ≤ h.local_port
    → 1 ≤ h.remote_port
    → (bytes : List ℕ) × (encode (build_segment h payload) ≡ ok bytes)
unfolding build_segment encoded_header_len
encode-build_segment h payload p q =
    let (os, e, n) = options-by_flag (contains h.flags syn_flag) h.mss in
    encode-parts (build_segment h payload) os p q (ack-by_flag (contains h.flags ack_flag) h.ack)
      (omega (arith, n)) e
