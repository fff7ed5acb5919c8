-- ===== src/Wire/Canonical.antt =====
-- The segments that `Segment::decode` accepts.
use fips_tcp.Common.{
  All, Bool, Bool-cases, IsByte, IsU16, IsU32, List, Result, Yields, Yields-bind, Yields-eq_ok,
  Yields-guard, [], arith, bit_and, drop, err, false, get_or, if◌then◌else◌, inl, inr, is_some,
  length, length-drop, length-take, ltb, none, not, ok, refl, refuse_if, some, suc, sum_by, take,
  true, zero, ℕ, ◌*◌, ◌+◌, ◌-◌, ◌/◌, ◌<◌, ◌==◌, ◌>>=◌, ◌>>◌, ◌||◌, ◌∷◌, ◌≡◌, ◌≤◌,
}
use fips_tcp.Wire.Bits.{bit_and-low9, supported-lt}
use fips_tcp.Wire.Options.{IsCanonicalOption}
use fips_tcp.Wire.RoundTrip.{IsCanonical, decode-encode}
use fips_tcp.Wire.{
  Segment, WireError, TcpOption, decode_options_after, encoded_len, read_long_option, read_option,
  malformed_option, decode, decode_options, from_wire, header_len, u16_at, u32_at, unsupported_mask,
  value_or, ack_flag, contains, encode, read_segment, invalid_header_length, non_zero_checksum,
  truncated, urgent_unsupported, zero_port,
}

All-take : (n : ℕ) (xs : List ℕ) → All IsByte xs → All IsByte (take n xs)
All-take zero xs h = tt
All-take (suc n) [] h = tt
All-take (suc n) (x ∷ xs) h = (h.0, All-take n xs h.1)

All-drop : (n : ℕ) (xs : List ℕ) → All IsByte xs → All IsByte (drop n xs)
All-drop zero xs h = h
All-drop (suc n) [] h = tt
All-drop (suc n) (x ∷ xs) h = All-drop n xs h.1

get_or-IsByte : (xs : List ℕ) (i : ℕ) → All IsByte xs → IsByte (get_or xs i 0)
get_or-IsByte [] i h = omega arith
get_or-IsByte (x ∷ xs) zero h = h.0
get_or-IsByte (x ∷ xs) (suc i) h = get_or-IsByte xs i h.1

-- The options of a list and the bytes that they take.
abbrev CanonicalOptions : ℕ → List TcpOption → Type 0
CanonicalOptions n os = All IsCanonicalOption os × (sum_by encoded_len os ≤ n)

abbrev CanonicalOption : ℕ → TcpOption → Type 0
CanonicalOption len o = IsCanonicalOption o × (encoded_len o ≡ len)

read_option-Canonical :
    (kind len : ℕ) (body : List ℕ)
    → 2 ≤ kind
    → IsByte kind
    → IsByte len
    → length body + 2 ≡ len
    → All IsByte body
    → Yields (CanonicalOption len) (read_option kind len body)
unfolding read_option encoded_len
read_option-Canonical kind len body h k l n b =
    ground (arith, get_or-IsByte body 0 b, get_or-IsByte body 1 b)

-- What an option of several bytes takes of them.
abbrev LongOption : ℕ → ℕ × TcpOption → Type 0
LongOption n r = CanonicalOption r.0 r.1 × (2 ≤ r.0) × (r.0 ≤ n + 1)

read_long_option-Canonical :
    (kind : ℕ) (rest : List ℕ)
    → 2 ≤ kind
    → IsByte kind
    → All IsByte rest
    → Yields (LongOption (length rest)) (read_long_option kind rest)
unfolding read_long_option
read_long_option-Canonical kind [] h k b = tt
read_long_option-Canonical kind (len ∷ rest) h k b =
    Yields-guard (LongOption (suc (length rest))) (ltb len 2 || ltb (length rest + 2) len)
      malformed_option _
      λ fits.
        let n : (2 ≤ len) × (len ≤ length rest + 2) = ground arith in
        Yields-bind (CanonicalOption len) (LongOption (suc (length rest)))
          (read_option kind len (take (len - 2) rest)) _
          (read_option-Canonical kind len (take (len - 2) rest) h k b.0
            (omega (arith, length-take (len - 2) rest)) (All-take (len - 2) rest b.1))
          (λ o c. (c, n.0, omega arith))

-- An option in front of the options of the bytes behind it.
long_step :
    (rest : List ℕ) (r : Result WireError (ℕ × TcpOption))
    → Yields (LongOption (length rest)) r
    → ((n : ℕ) → Yields (CanonicalOptions (length rest - n)) (decode_options_after n rest))
    → Yields (CanonicalOptions (length rest + 1)) (elim r [
      | err e ↦ err e
      | ok (len, option) ↦ decode_options_after (len - 1) rest >>= λ os. ok (option ∷ os)
    ])
long_step rest (err e) l ih = tt
long_step rest (ok (len, o)) l ih =
    Yields-bind (CanonicalOptions (length rest - (len - 1))) (CanonicalOptions (length rest + 1))
      (decode_options_after (len - 1) rest) _ (ih (len - 1))
      (λ os c. ((l.0.0, c.0), omega (arith, l.0.1, c.1, l.1, l.2)))

decode_options_after-Canonical :
    (skip : ℕ) (bytes : List ℕ)
    → All IsByte bytes
    → Yields (CanonicalOptions (length bytes - skip)) (decode_options_after skip bytes)
unfolding decode_options_after encoded_len
decode_options_after-Canonical zero [] b = (tt, omega arith)
decode_options_after-Canonical (suc skip) [] b = (tt, omega arith)
decode_options_after-Canonical (suc skip) (x ∷ rest) b =
    let e : suc (length rest) - suc skip ≡ length rest - skip = omega arith in
    rw e (decode_options_after-Canonical skip rest b.1)
decode_options_after-Canonical zero (kind ∷ rest) b =
    let n : suc (length rest) - 0 ≡ length rest + 1 = omega arith in
    rw n (elim (Bool-cases (kind == 0)) [
      | inl e ↦ rw (e, decode_options_after) (tt, omega arith)
      | inr e ↦ elim (Bool-cases (kind == 1)) [
        | inl e' ↦
            rw (e, e', decode_options_after)
              (Yields-bind (CanonicalOptions (length rest - 0)) (CanonicalOptions (length rest + 1))
                (decode_options_after 0 rest) _ (decode_options_after-Canonical 0 rest b.1)
                (λ os c. ((tt, c.0), omega (arith, c.1))))
        | inr e' ↦
            rw (e, e', decode_options_after)
              (long_step rest (read_long_option kind rest)
                (read_long_option-Canonical kind rest (ground arith) b.0 b.1)
                (λ k. decode_options_after-Canonical k rest b.1))
      ]
    ])

abbrev FlagsCanonical : ℕ → Type 0
FlagsCanonical f = (f < 256) × (bit_and f unsupported_mask ≡ 0)

from_wire-Canonical :
    (word : ℕ) → word < 65536 → Yields FlagsCanonical (from_wire (bit_and word 0x1ff))
unfolding from_wire
from_wire-Canonical word h = ground (arith, bit_and-low9 word h, supported-lt (bit_and word 0x1ff))

is_some-by_flag : (b : Bool) (n : ℕ) → b ≡ is_some (if b then some n else none)
is_some-by_flag true n = refl
is_some-by_flag false n = refl

value_or-by_flag : (b : Bool) (n : ℕ) → IsU32 n → IsU32 (value_or (if b then some n else none) 0)
value_or-by_flag true n h = h
value_or-by_flag false n h = omega arith

u16_at-IsU16 : (bytes : List ℕ) (i : ℕ) → All IsByte bytes → IsU16 (u16_at bytes i)
unfolding u16_at
u16_at-IsU16 bytes i b = omega (arith, get_or-IsByte bytes i b, get_or-IsByte bytes (i + 1) b)

u32_at-IsU32 : (bytes : List ℕ) (i : ℕ) → All IsByte bytes → IsU32 (u32_at bytes i)
unfolding u32_at
u32_at-IsU32 bytes i b = omega (
  arith,
  get_or-IsByte bytes i b,
  get_or-IsByte bytes (i + 1) b,
  get_or-IsByte bytes (i + 2) b,
  get_or-IsByte bytes (i + 3) b,
)

read_segment-IsCanonical :
    (bytes : List ℕ) (len flags : ℕ) (os : List TcpOption)
    → All IsByte bytes
    → (1 ≤ u16_at bytes 0) × (1 ≤ u16_at bytes 2)
    → FlagsCanonical flags
    → CanonicalOptions 40 os
    → IsCanonical (read_segment bytes len flags os)
unfolding read_segment
read_segment-IsCanonical bytes len flags os b p f c = record {
  src_port = (p.0, u16_at-IsU16 bytes 0 b);
  dst_port = (p.1, u16_at-IsU16 bytes 2 b);
  seq = u32_at-IsU32 bytes 4 b;
  ack_range = value_or-by_flag (contains flags ack_flag) _ (u32_at-IsU32 bytes 8 b);
  ack_flag_set = is_some-by_flag (contains flags ack_flag) _;
  flags = f.0;
  supported = f.1;
  window = u16_at-IsU16 bytes 14 b;
  options = c.0;
  options_fit = c.1;
}

ports_pos : (a b : ℕ) → (a == 0 || b == 0) ≡ false → (1 ≤ a) × (1 ≤ b)
ports_pos a b h = ground arith

header_fits : (len n : ℕ) → (ltb len 20 || (ltb 60 len || ltb n len)) ≡ false → len ≤ 60
header_fits len n h = ground arith

options_length : (len : ℕ) (bytes : List ℕ) → len ≤ 60 → length (drop 20 (take len bytes)) ≤ 40
options_length len bytes h = omega (arith, length-drop 20 (take len bytes), length-take len bytes)

-- What follows the guards of `decode`.
parsed-IsCanonical :
    (bytes : List ℕ) (len : ℕ)
    → All IsByte bytes
    → (1 ≤ u16_at bytes 0) × (1 ≤ u16_at bytes 2)
    → len ≤ 60
    → Yields IsCanonical (do
      flags ← from_wire (bit_and (u16_at bytes 12) 0x1ff)
      options ← decode_options (drop header_len (take len bytes))
      ok (read_segment bytes len flags options))
unfolding decode_options
parsed-IsCanonical bytes len b p h =
    let opts = drop 20 (take len bytes) in
    let n = options_length len bytes h in
    let bs = All-drop 20 (take len bytes) (All-take len bytes b) in
    Yields-bind FlagsCanonical IsCanonical (from_wire (bit_and (u16_at bytes 12) 0x1ff)) _
      (from_wire-Canonical (u16_at bytes 12) (omega (arith, u16_at-IsU16 bytes 12 b)))
      λ flags f.
        Yields-bind (CanonicalOptions (length opts - 0)) IsCanonical (decode_options_after 0 opts) _
          (decode_options_after-Canonical 0 opts bs)
          λ os c. read_segment-IsCanonical bytes len flags os b p f (c.0, omega (arith, c.1, n))

-- Whatever bytes arrive, `decode` gives an error or a canonical segment.
pub decode-IsCanonical : (bytes : List ℕ) → All IsByte bytes → Yields IsCanonical (decode bytes)
unfolding decode
decode-IsCanonical bytes b =
    let len = u16_at bytes 12 / 4096 * 4 in
    let parsed : Result WireError Segment = (do
      flags ← from_wire (bit_and (u16_at bytes 12) 0x1ff)
      options ← decode_options (drop header_len (take len bytes))
      ok (read_segment bytes len flags options)) in
    let urgent = not (u16_at bytes 18 == 0) in
    let m1 = refuse_if urgent urgent_unsupported >> parsed in
    let checksum = not (u16_at bytes 16 == 0) in
    let m2 = refuse_if checksum non_zero_checksum >> m1 in
    let misfit = ltb len header_len || (ltb 60 len || ltb (length bytes) len) in
    let m3 = refuse_if misfit invalid_header_length >> m2 in
    let portless = u16_at bytes 0 == 0 || u16_at bytes 2 == 0 in
    let m4 = refuse_if portless zero_port >> m3 in
    Yields-guard IsCanonical (ltb (length bytes) header_len) truncated m4 λ _.
      Yields-guard IsCanonical portless zero_port m3 λ ports.
        Yields-guard IsCanonical misfit invalid_header_length m2 λ fits.
          Yields-guard IsCanonical checksum non_zero_checksum m1 λ _.
            Yields-guard IsCanonical urgent urgent_unsupported parsed λ _.
              parsed-IsCanonical bytes len b (ports_pos (u16_at bytes 0) (u16_at bytes 2) ports)
                (header_fits len (length bytes) fits)

-- A segment decoded from bytes can be encoded again, and the new bytes decode to the same
-- segment.
pub decode-encode-decode :
    (bytes : List ℕ) (s : Segment)
    → All IsByte bytes
    → decode bytes ≡ ok s
    → (again : List ℕ) × (encode s ≡ ok again) × (decode again ≡ ok s)
decode-encode-decode bytes s b e =
    let r =
      decode-encode s (Yields-eq_ok IsCanonical (decode bytes) (decode-IsCanonical bytes b) e) in
    (r.0, r.1, r.4)
