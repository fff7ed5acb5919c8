-- ===== src/Wire.antt =====
-- rust/fips-tcp/src/wire.rs: the segment and its byte format.
pub mod Options
pub mod Bits
pub mod RoundTrip
pub mod Canonical
use fips_tcp.Common.{
  Bool, List, Option, Result, [], any, as_u32, bit_and, bit_or, drop, err, false, get_or,
  if◌then◌else◌, is_some, leb, length, ltb, none, not, ok, refuse_if, replicate, some, suc, sum_by,
  take, true, u16_max, u8_max, wrapping_add, zero, ℕ, ◌%◌, ◌&&◌, ◌*◌, ◌++◌, ◌+◌, ◌-◌, ◌/◌, ◌==◌,
  ◌>>=◌, ◌>>◌, ◌||◌, ◌∷◌,
}

abbrev pub header_len : ℕ
header_len = 20

abbrev pub fips_option_kind : ℕ
fips_option_kind = 254

abbrev pub fips_version_number : ℕ
fips_version_number = 1

pub data WireError : Type 0 where
  truncated invalid_header_length non_zero_checksum urgent_unsupported : WireError
  unsupported_flags : ℕ → WireError
  zero_port ack_flag_mismatch header_too_long option_too_long malformed_option : WireError

-- `Flags(u16)` is its bits.
abbrev pub fin_flag : ℕ
fin_flag = 0x001

abbrev pub syn_flag : ℕ
syn_flag = 0x002

abbrev pub rst_flag : ℕ
rst_flag = 0x004

abbrev pub psh_flag : ℕ
psh_flag = 0x008

abbrev pub ack_flag : ℕ
ack_flag = 0x010

abbrev pub ece_flag : ℕ
ece_flag = 0x040

abbrev pub cwr_flag : ℕ
cwr_flag = 0x080

-- `Flags::union`
abbrev pub union : ℕ → ℕ → ℕ
union a b = bit_or a b

-- `SUPPORTED_MASK` is 0x0df, and this is its complement in 16 bits.
abbrev pub unsupported_mask : ℕ
unsupported_mask = 0xff20

unfoldable pub contains : ℕ → ℕ → Bool
contains bits flag = bit_and bits flag == flag

unfoldable pub from_wire : ℕ → Result WireError ℕ
from_wire bits =
    if bit_and bits unsupported_mask == 0 then ok bits else err (unsupported_flags bits)

pub data TcpOption : Type 0 where
  end_of_list no_operation : TcpOption
  max_segment_size_option : ℕ → TcpOption
  fips_version_option : ℕ → ℕ → TcpOption
  unknown_option : ℕ → List ℕ → TcpOption

unfoldable pub encoded_len : TcpOption → ℕ
encoded_len end_of_list = 1
encoded_len no_operation = 1
encoded_len (max_segment_size_option v) = 4
encoded_len (fips_version_option v r) = 4
encoded_len (unknown_option kind body) = length body + 2

-- `u16::to_be_bytes`, `u32::to_be_bytes`
unfoldable pub be16 : ℕ → List ℕ
be16 n = n / 256 % 256 ∷ n % 256 ∷ []

unfoldable pub be32 : ℕ → List ℕ
be32 n = n / 16777216 % 256 ∷ n / 65536 % 256 ∷ n / 256 % 256 ∷ n % 256 ∷ []

-- What `encode_into` appends.
unfoldable pub encode_option : TcpOption → Result WireError (List ℕ)
unfolding be16
encode_option end_of_list = ok (0 ∷ [])
encode_option no_operation = ok (1 ∷ [])
encode_option (max_segment_size_option v) = ok (2 ∷ 4 ∷ be16 v)
encode_option (fips_version_option version reserved) =
    ok (fips_option_kind ∷ 4 ∷ version ∷ reserved ∷ [])
encode_option (unknown_option kind body) = do
  let len = length body + 2
  refuse_if (ltb u8_max len) option_too_long
  refuse_if (leb kind 1) malformed_option
  ok (kind ∷ len ∷ body)

-- The loop of `encode` over the options.
unfoldable pub encode_options : List TcpOption → Result WireError (List ℕ)
unfolding encode_option
encode_options [] = ok []
encode_options (o ∷ os) = do bytes ← encode_option o; rest ← encode_options os; ok (bytes ++ rest)

pub record Segment : Type 0 where
  pub src_port : ℕ
  pub dst_port : ℕ
  pub seq : ℕ
  pub ack : Option ℕ
  pub flags : ℕ
  pub window : ℕ
  pub options : List TcpOption
  pub payload : List ℕ

-- `Segment::new`
unfoldable pub new : ℕ → ℕ → ℕ → Segment
new src_port dst_port seq = record {
  src_port = src_port;
  dst_port = dst_port;
  seq = seq;
  ack = none;
  flags = 0;
  window = u16_max;
  options = [];
  payload = [];
}

option_max_segment_size : TcpOption → Option ℕ
option_max_segment_size (max_segment_size_option v) = some v
option_max_segment_size _ = none

option_fips_version : TcpOption → Option ℕ
option_fips_version (fips_version_option version reserved) = some version
option_fips_version _ = none

is_fips_version : ℕ → TcpOption → Bool
is_fips_version expected (fips_version_option version reserved) =
    reserved == 0 && version == expected
is_fips_version expected _ = false

-- `Iterator::find_map`
find_map {ℓ κ} : {A : Type ℓ} {B : Type κ} → (A → Option B) → List A → Option B
find_map f [] = none
find_map f (x ∷ xs) = elim (f x) [ some b ↦ some b | none ↦ find_map f xs ]

unfoldable pub fips_version : Segment → Option ℕ
unfolding find_map option_fips_version
fips_version s = find_map option_fips_version s.options

unfoldable pub supports_fips_version : Segment → ℕ → Bool
unfolding is_fips_version
supports_fips_version s expected = any (is_fips_version expected) s.options

unfoldable pub max_segment_size : Segment → Option ℕ
unfolding find_map option_max_segment_size
max_segment_size s = find_map option_max_segment_size s.options

-- `u32::from(flags.contains(flag))`
unfoldable pub flag_len : ℕ → ℕ → ℕ
unfolding contains
flag_len bits flag = if contains bits flag then 1 else 0

unfoldable pub sequence_len : Segment → ℕ
unfolding flag_len
sequence_len s =
    wrapping_add (wrapping_add (as_u32 (length s.payload)) (flag_len s.flags syn_flag))
      (flag_len s.flags fin_flag)

-- `usize::next_multiple_of(4)`
abbrev pub next_multiple_of_4 : ℕ → ℕ
next_multiple_of_4 n = (n + 3) / 4 * 4

-- `Vec::resize(n, 0)`
abbrev pub resize : ℕ → List ℕ → List ℕ
resize n bytes = take n bytes ++ replicate (n - length bytes) 0

abbrev pub value_or : Option ℕ → ℕ → ℕ
value_or none d = d
value_or (some n) d = n

abbrev pub bool_eq : Bool → Bool → Bool
bool_eq true b = b
bool_eq false b = not b

-- The padded length of the header.
unfoldable pub encoded_header_len : Segment → ℕ
unfolding encoded_len
encoded_header_len s = header_len + next_multiple_of_4 (sum_by encoded_len s.options)

-- `((header_len as u16 / 4) << 12) | flags.bits()`
unfoldable pub offset_and_flags : ℕ → ℕ → ℕ
offset_and_flags len flags = bit_or (len % 65536 / 4 * 4096 % 65536) flags

-- The twenty fixed bytes.
unfoldable pub fixed_header : Segment → ℕ → List ℕ
unfolding be16 be32 offset_and_flags
fixed_header s len =
    be16 s.src_port
    ++ (be16 s.dst_port
        ++ (be32 s.seq
            ++ (be32 (value_or s.ack 0)
                ++ (be16 (offset_and_flags len s.flags) ++ (be16 s.window ++ (be16 0 ++ be16 0))))))

unfoldable pub encode : Segment → Result WireError (List ℕ)
encode s = do
  refuse_if (s.src_port == 0 || s.dst_port == 0) zero_port
  refuse_if (not (bool_eq (contains s.flags ack_flag) (is_some s.ack))) ack_flag_mismatch
  let len = encoded_header_len s
  refuse_if (ltb 60 len) header_too_long
  options ← encode_options s.options
  ok (resize len (fixed_header s len ++ options) ++ s.payload)

-- `u16::from_be_bytes` and `u32::from_be_bytes` at an index within the bytes.
unfoldable pub u16_at : List ℕ → ℕ → ℕ
u16_at bytes i = get_or bytes i 0 * 256 + get_or bytes (i + 1) 0

unfoldable pub u32_at : List ℕ → ℕ → ℕ
u32_at bytes i =
    get_or bytes i 0 * 16777216
    + get_or bytes (i + 1) 0 * 65536
    + get_or bytes (i + 2) 0 * 256
    + get_or bytes (i + 3) 0

-- The option with this kind, length byte and contents.
unfoldable pub read_option : ℕ → ℕ → List ℕ → Result WireError TcpOption
read_option kind len body =
    if kind == 2 && len == 4
    then ok (max_segment_size_option (get_or body 0 0 * 256 + get_or body 1 0))
    else (if kind == fips_option_kind && len == 4
        then ok (fips_version_option (get_or body 0 0) (get_or body 1 0))
        else (if kind == 2 || kind == fips_option_kind
            then err malformed_option
            else ok (unknown_option kind body)))

-- An option of several bytes: its length byte, if there is one, and the bytes after it.
unfoldable pub read_long_option : ℕ → List ℕ → Result WireError (ℕ × TcpOption)
unfolding read_option
read_long_option kind [] = err malformed_option
read_long_option kind (len ∷ rest) = do
  refuse_if (ltb len 2 || ltb (length rest + 2) len) malformed_option
  option ← read_option kind len (take (len - 2) rest)
  ok (len, option)

-- `decode_options`. The number says how many of the bytes belong to the option before, so that
-- `bytes = &bytes[len..]` is a recursion on the list.
unfoldable pub decode_options_after : ℕ → List ℕ → Result WireError (List TcpOption)
unfolding read_long_option
decode_options_after skip [] = ok []
decode_options_after (suc skip) (b ∷ rest) = decode_options_after skip rest
decode_options_after zero (kind ∷ rest) = elim (kind == 0) [
  | true ↦ ok []
  | false ↦ elim (kind == 1) [
    | true ↦ do options ← decode_options_after 0 rest; ok (no_operation ∷ options)
    | false ↦ elim (read_long_option kind rest) [
      | err e ↦ err e
      | ok (len, option) ↦ do options ← decode_options_after (len - 1) rest; ok (option ∷ options)
    ]
  ]
]

unfoldable pub decode_options : List ℕ → Result WireError (List TcpOption)
unfolding decode_options_after
decode_options bytes = decode_options_after 0 bytes

-- The segment of a header of `len` bytes with these flags and options.
unfoldable pub read_segment : List ℕ → ℕ → ℕ → List TcpOption → Segment
read_segment bytes len flags options = record {
  src_port = u16_at bytes 0;
  dst_port = u16_at bytes 2;
  seq = u32_at bytes 4;
  ack = if contains flags ack_flag then some (u32_at bytes 8) else none;
  flags = flags;
  window = u16_at bytes 14;
  options = options;
  payload = drop len bytes;
}

unfoldable pub decode : List ℕ → Result WireError Segment
decode bytes = do
  refuse_if (ltb (length bytes) header_len) truncated
  refuse_if (u16_at bytes 0 == 0 || u16_at bytes 2 == 0) zero_port
  let word = u16_at bytes 12
  let len = word / 4096 * 4
  refuse_if (ltb len header_len || (ltb 60 len || ltb (length bytes) len)) invalid_header_length
  refuse_if (not (u16_at bytes 16 == 0)) non_zero_checksum
  refuse_if (not (u16_at bytes 18 == 0)) urgent_unsupported
  flags ← from_wire (bit_and word 0x1ff)
  options ← decode_options (drop header_len (take len bytes))
  ok (read_segment bytes len flags options)
