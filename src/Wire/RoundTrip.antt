-- ===== src/Wire/RoundTrip.antt =====
-- `Segment::decode` after `Segment::encode`.
use fips_tcp.Common.{
  All, Bool, IsU16, IsU32, List, Option, ap, append_assoc, arith, bit_and, drop, drop-length-append,
  if◌then◌else◌, is_some, length, length-append, length-replicate, none, ok, refl, replicate, some,
  subst, sum_by, sym, take, take_all, take-length-append, ℕ, ◌%◌, ◌*◌, ◌++◌, ◌+◌, ◌-◌, ◌/◌, ◌<◌,
  ◌∙◌, ◌≡◌, ◌≤◌,
}
use fips_tcp.Wire.Bits.{bit_or-offset, bit_and-low9}
use fips_tcp.Wire.Options.{IsCanonicalOption, encode_options-Reads, decode_options-padded}
use fips_tcp.Wire.{
  Segment, encoded_len, contains, ack_flag, unsupported_mask, encode_options, encoded_header_len,
  offset_and_flags, fixed_header, encode, value_or, resize, decode, decode_options, from_wire,
  u16_at, u32_at, read_segment,
}

-- The segments that stand for themselves on the wire: fields of their width, an ACK number
-- exactly with the ACK flag, and canonical options that fit the header.
pub record IsCanonical (s : Segment) : Type 0 where
  pub src_port : (1 ≤ s.src_port) × IsU16 s.src_port
  pub dst_port : (1 ≤ s.dst_port) × IsU16 s.dst_port
  pub seq : IsU32 s.seq
  pub ack_range : IsU32 (value_or s.ack 0)
  pub ack_flag_set : contains s.flags ack_flag ≡ is_some s.ack
  pub flags : s.flags < 256
  pub supported : bit_and s.flags unsupported_mask ≡ 0
  pub window : IsU16 s.window
  pub options : All IsCanonicalOption s.options
  pub options_fit : sum_by encoded_len s.options ≤ 40

u16_bytes : (n : ℕ) → IsU16 n → n / 256 % 256 * 256 + n % 256 ≡ n
u16_bytes n h = omega arith

u32_bytes :
    (n : ℕ)
    → IsU32 n
    → n / 16777216 % 256 * 16777216 + n / 65536 % 256 * 65536 + n / 256 % 256 * 256 + n % 256 ≡ n
u32_bytes n h = omega arith

-- The word of the header length and the flags.
offset_and_flags_lem :
    (len f : ℕ) → len ≤ 60 → len % 4 ≡ 0 → f < 256 → offset_and_flags len f ≡ len / 4 * 4096 + f
unfolding offset_and_flags
offset_and_flags_lem len f h k l =
    let e : len % 65536 / 4 * 4096 % 65536 ≡ len / 4 * 4096 = omega arith in
    rw e (bit_or-offset (len / 4) f (omega arith) l)

resize_lem :
    (n : ℕ) (bytes : List ℕ)
    → length bytes ≤ n
    → resize n bytes ≡ bytes ++ replicate (n - length bytes) 0
resize_lem n bytes h = ap (λ b. b ++ replicate (n - length bytes) 0) (take_all n bytes h)

length-fixed_header : (s : Segment) (len : ℕ) → length (fixed_header s len) ≡ 20
unfolding fixed_header
length-fixed_header s len = refl

-- What `encode` writes for a canonical segment.
encode-canonical :
    (s : Segment) (os : List ℕ)
    → IsCanonical s
    → encode_options s.options ≡ ok os
    → length os + 20 ≤ encoded_header_len s
    → encoded_header_len s ≤ 60
    → encode s
      ≡ ok (
          (fixed_header s (encoded_header_len s) ++ os)
          ++ replicate
              (encoded_header_len s - length (fixed_header s (encoded_header_len s) ++ os))
              0
          ++ s.payload)
unfolding encode
encode-canonical s os v e h k = ground (
  arith,
  e,
  resize_lem (encoded_header_len s) (fixed_header s (encoded_header_len s) ++ os),
  length-append (fixed_header s (encoded_header_len s)) os,
  length-fixed_header s (encoded_header_len s),
)

-- The fields that `decode` reads at their places in the twenty fixed bytes.
record Fields (s : Segment) (word : ℕ) (bytes : List ℕ) : Type 0 where
  src_port_at : u16_at bytes 0 ≡ s.src_port
  dst_port_at : u16_at bytes 2 ≡ s.dst_port
  seq_at : u32_at bytes 4 ≡ s.seq
  ack_at : u32_at bytes 8 ≡ value_or s.ack 0
  word_at : u16_at bytes 12 ≡ word
  window_at : u16_at bytes 14 ≡ s.window
  checksum_at : u16_at bytes 16 ≡ 0
  urgent_at : u16_at bytes 18 ≡ 0

fixed_header-Fields :
    (s : Segment) (len : ℕ) (rest : List ℕ)
    → IsCanonical s
    → len ≤ 60
    → len % 4 ≡ 0
    → Fields s (len / 4 * 4096 + s.flags) (fixed_header s len ++ rest)
unfolding fixed_header u16_at u32_at
fixed_header-Fields s len rest v h k =
    let word = offset_and_flags_lem len s.flags h k v.flags in
    record {
      src_port_at = u16_bytes s.src_port v.src_port.1;
      dst_port_at = u16_bytes s.dst_port v.dst_port.1;
      seq_at = u32_bytes s.seq v.seq;
      ack_at = u32_bytes (value_or s.ack 0) v.ack_range;
      word_at = omega (arith, word, v.flags);
      window_at = u16_bytes s.window v.window;
      checksum_at = refl;
      urgent_at = refl;
    }

ack-by_flag :
    (b : Bool) (a : Option ℕ) → b ≡ is_some a → (if b then some (value_or a 0) else none) ≡ a
ack-by_flag b none e = ground arith
ack-by_flag b (some n) e = ground arith

from_wire-supported : (f : ℕ) → bit_and f unsupported_mask ≡ 0 → from_wire f ≡ ok f
unfolding from_wire
from_wire-supported f h = ground arith

decode-Fields :
    (s : Segment) (len : ℕ) (bytes : List ℕ)
    → IsCanonical s
    → 20 ≤ len
    → len ≤ 60
    → len % 4 ≡ 0
    → len ≤ length bytes
    → Fields s (len / 4 * 4096 + s.flags) bytes
    → decode_options (drop 20 (take len bytes)) ≡ ok s.options
    → drop len bytes ≡ s.payload
    → decode bytes ≡ ok s
unfolding decode read_segment
decode-Fields s len bytes v h k m l f o p =
    let w : (len / 4 * 4096 + s.flags) / 4096 * 4 ≡ len = omega (arith, v.flags) in
    let g : (len / 4 * 4096 + s.flags) % 512 ≡ s.flags = omega (arith, v.flags) in
    rw
      (
        f.word_at,
        w,
        bit_and-low9 (len / 4 * 4096 + s.flags) (omega (arith, v.flags)),
        g,
        from_wire-supported s.flags v.supported,
        o,
        p,
      )
      (ground (arith, ack-by_flag (contains s.flags ack_flag) s.ack))

-- The header and the payload of what `encode` wrote.
split_bytes :
    (front opts pay : List ℕ) (len : ℕ)
    → length front ≡ 20
    → 20 + length opts ≡ len
    → let bytes = (front ++ opts) ++ pay in
      (drop 20 (take len bytes) ≡ opts) × (drop len bytes ≡ pay)
split_bytes front opts pay len e n =
    let f : len ≡ length (front ++ opts) = omega (arith, length-append front opts) in
    (
      rw (f, take-length-append) (rw (← e) (drop-length-append front opts)),
      rw f (drop-length-append (front ++ opts) pay),
    )

decode-laid_out :
    (s : Segment) (len : ℕ) (opts : List ℕ)
    → IsCanonical s
    → 20 + length opts ≡ len
    → len ≤ 60
    → len % 4 ≡ 0
    → decode_options opts ≡ ok s.options
    → decode ((fixed_header s len ++ opts) ++ s.payload) ≡ ok s
decode-laid_out s len opts v n h k e =
    let front = fixed_header s len in
    let bytes = (front ++ opts) ++ s.payload in
    let parts = split_bytes front opts s.payload len (length-fixed_header s len) n in
    let fields = fixed_header-Fields s len (opts ++ s.payload) v h k in
    decode-Fields s len bytes v (omega arith) h k
      (omega (
        arith,
        length-append (front ++ opts) s.payload,
        length-append front opts,
        length-fixed_header s len,
      ))
      (subst (Fields s (len / 4 * 4096 + s.flags)) (sym (append_assoc front opts s.payload)) fields)
      (rw parts.0 e) parts.1

header_lengths :
    (s : Segment)
    → IsCanonical s
    → (encoded_header_len s ≤ 60)
      × (encoded_header_len s % 4 ≡ 0)
      × (sum_by encoded_len s.options + 20 ≤ encoded_header_len s)
unfolding encoded_header_len
header_lengths s v = omega (arith, v.options_fit)

-- A canonical segment is encoded without error, into its header of at most 60 bytes and its
-- payload, and `decode` reads the same segment back.
pub decode-encode :
    (s : Segment)
    → IsCanonical s
    → (bytes : List ℕ) × (encode s ≡ ok bytes)
      × (length bytes ≡ encoded_header_len s + length s.payload)
      × (encoded_header_len s ≤ 60)
      × (decode bytes ≡ ok s)
decode-encode s v =
    let (os, e, l, reads) = encode_options-Reads s.options v.options in
    let (short, multiple, room) = header_lengths s v in
    let len = encoded_header_len s in
    let front = fixed_header s len in
    let n = len - length (front ++ os) in
    let opts = os ++ replicate n 0 in
    let a = length-append front os in
    let f = length-fixed_header s len in
    let k : 20 + length opts ≡ len =
      omega (arith, l, length-append os (replicate n 0), length-replicate n (let z : ℕ = 0 in z)) in
    (
      (front ++ opts) ++ s.payload,
      encode-canonical s os v e (omega (arith, l)) short
          ∙ ap (λ b. ok (b ++ s.payload)) (append_assoc front os (replicate n 0)),
      omega (arith, length-append (front ++ opts) s.payload, length-append front opts),
      short,
      decode-laid_out s len opts v k short multiple (decode_options-padded s.options os n reads),
    )
