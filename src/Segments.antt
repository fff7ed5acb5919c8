-- ===== src/Segments.antt =====
-- rust/fips-tcp/src/segment.rs and connection_types.rs: how a connection builds segments, and the
-- segments that it keeps, sent and received.
use fips_tcp.Common.{
  Bool, List, Option, [], as_u32, false, if◌then◌else◌, is_empty, leb, length, none, not, some,
  true, wrapping_add, ℕ, ◌&&◌, ◌==◌, ◌∷◌,
}
use fips_tcp.Wire.{
  Segment, TcpOption, ack_flag, contains, fin_flag, fips_version_number, fips_version_option,
  flag_len, max_segment_size_option, psh_flag, syn_flag, union,
}

pub record SegmentHeader : Type 0 where
  pub local_port : ℕ
  pub remote_port : ℕ
  pub seq : ℕ
  pub ack : ℕ
  pub window : ℕ
  pub mss : ℕ
  pub flags : ℕ

-- The options of a SYN.
abbrev pub syn_options : ℕ → List TcpOption
syn_options mss = max_segment_size_option mss ∷ fips_version_option fips_version_number 0 ∷ []

unfoldable pub build_segment : SegmentHeader → List ℕ → Segment
build_segment header payload = record {
  src_port = header.local_port;
  dst_port = header.remote_port;
  seq = header.seq;
  ack = if contains header.flags ack_flag then some header.ack else none;
  flags = header.flags;
  window = header.window;
  options = if contains header.flags syn_flag then syn_options header.mss else [];
  payload = payload;
}

abbrev pub option_eq : Option ℕ → ℕ → Bool
option_eq none n = false
option_eq (some m) n = m == n

unfoldable pub is_duplicate_ack_candidate : Segment → ℕ → ℕ → Bool
is_duplicate_ack_candidate s send_una remote_window =
    option_eq s.ack send_una
    && (is_empty s.payload
        && (not (contains s.flags syn_flag)
            && (not (contains s.flags fin_flag) && leb s.window remote_window)))

pub record TrackedSegment : Type 0 where
  pub seq : ℕ
  pub flags : ℕ
  pub payload : List ℕ
  pub sent_at_ms : ℕ
  pub transmissions : ℕ

-- `TrackedSegment::end_seq`
unfoldable pub tracked_end : TrackedSegment → ℕ
unfolding flag_len
tracked_end t =
    wrapping_add
      (wrapping_add (wrapping_add t.seq (as_u32 (length t.payload))) (flag_len t.flags syn_flag))
      (flag_len t.flags fin_flag)

pub record ReassemblySegment : Type 0 where
  pub seq : ℕ
  pub payload : List ℕ
  pub fin : Bool

abbrev pub bool_len : Bool → ℕ
bool_len true = 1
bool_len false = 0

-- `ReassemblySegment::end_seq`
unfoldable pub reassembly_end : ReassemblySegment → ℕ
reassembly_end r = wrapping_add (wrapping_add r.seq (as_u32 (length r.payload))) (bool_len r.fin)

-- The flags that the stack sends.
abbrev pub ack_psh : ℕ
ack_psh = union ack_flag psh_flag

abbrev pub fin_ack : ℕ
fin_ack = union fin_flag ack_flag

abbrev pub syn_ack : ℕ
syn_ack = union syn_flag ack_flag
