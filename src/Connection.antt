-- ===== src/Connection.antt =====
-- rust/fips-tcp/src/stack_types.rs and the small methods of `Connection` in stack.rs: the state of
-- one connection, its windows and the segments that carry no data.
pub mod Send
pub mod Ack
pub mod Receive
pub mod Input
pub mod Timer
pub mod Flight
pub mod Sender
pub mod History
pub mod Loops
pub mod Wakeup
pub mod Frame
pub mod Buffer
pub mod Receiver
pub mod Speech
pub mod Delivery
pub mod States
use fips_tcp.Common.{
  Bool, List, Option, [], false, length, min, none, sat_add, some, sum_by, true, u16_max, ℕ, ◌%◌,
  ◌-◌, ◌∷◌,
}
use fips_tcp.Segments.{build_segment, ReassemblySegment, SegmentHeader, TrackedSegment}
use fips_tcp.Wire.{Segment, ack_flag, rst_flag}
use fips_tcp.Types.{Config, State}
use fips_tcp.Seq.{distance}
use fips_tcp.Rtt
use fips_tcp.Rtt.{RttEstimator}
use fips_tcp.Reno
use fips_tcp.Reno.{Reno}
use fips_tcp.Marker
use fips_tcp.Marker.{SendProgress}

pub record Connection (P : Type 0) : Type 0 where
  pub peer : P
  pub local_port : ℕ
  pub remote_port : ℕ
  pub state : State
  pub send_una : ℕ
  pub send_nxt : ℕ
  pub recv_nxt : ℕ
  pub remote_window : ℕ
  pub mss : ℕ
  pub receive_capacity : ℕ
  pub max_transmissions : ℕ
  pub send_queue : List ℕ
  pub recv_queue : List ℕ
  pub reassembly : List ReassemblySegment
  pub unacked : List TrackedSegment
  pub rtt : RttEstimator
  pub reno : Reno
  pub duplicate_acks : ℕ
  pub rto_recovery_until : Option ℕ
  pub close_requested : Bool
  pub next_zero_window_probe_ms : Option ℕ
  pub zero_window_probes : ℕ
  pub read_closed : Bool
  pub send_progress : SendProgress
  pub fin_wait_2_until_ms : Option ℕ
  pub time_wait_until_ms : Option ℕ

pub record Update : Type 0 where
  pub segments : List Segment
  pub accepted : Bool
  pub closed : Bool

-- `Update::open`
abbrev pub open_update : List Segment → Update
open_update segments = record { segments = segments; accepted = false; closed = false }

-- The update of a connection that is to be removed.
abbrev pub closed_update : List Segment → Update
closed_update segments = record { segments = segments; accepted = false; closed = true }

pub record AckOutcome : Type 0 where
  pub fin_acked : Bool
  pub retransmit : Option Segment

abbrev pub option_list {ℓ} : {A : Type ℓ} → Option A → List A
option_list none = []
option_list (some a) = a ∷ []

-- `Option::get_or_insert`
abbrev pub get_or_insert : Option ℕ → ℕ → Option ℕ
get_or_insert none n = some n
get_or_insert (some m) n = some m

-- The bytes that wait in the reassembly queue.
abbrev pub reassembly_bytes : List ReassemblySegment → ℕ
reassembly_bytes = sum_by (λ r. length r.payload)

module _ {P : Type 0} where
  -- `Connection::new`; the last argument is the token that `SendProgress::new` draws.
  unfoldable pub new : P → ℕ → ℕ → State → ℕ → ℕ → Config → ℕ → Connection P
  unfolding Rtt.new Reno.new Marker.new
  new peer local_port remote_port state send_isn recv_nxt config token = record {
    peer = peer;
    local_port = local_port;
    remote_port = remote_port;
    state = state;
    send_una = send_isn;
    send_nxt = send_isn;
    recv_nxt = recv_nxt;
    remote_window = u16_max;
    mss = config.mss;
    receive_capacity = config.receive_buffer;
    max_transmissions = config.max_retransmissions;
    send_queue = [];
    recv_queue = [];
    reassembly = [];
    unacked = [];
    rtt = Rtt.new config.initial_rto_ms config.min_rto_ms config.max_rto_ms;
    reno = Reno.new config.mss;
    duplicate_acks = 0;
    rto_recovery_until = none;
    close_requested = false;
    next_zero_window_probe_ms = none;
    zero_window_probes = 0;
    read_closed = false;
    send_progress = Marker.new token;
    fin_wait_2_until_ms = none;
    time_wait_until_ms = none;
  }

  unfoldable pub available_window : Connection P → ℕ
  available_window c =
      c.receive_capacity - sat_add (length c.recv_queue) (reassembly_bytes c.reassembly)

  unfoldable pub available_window_u16 : Connection P → ℕ
  available_window_u16 c = min (available_window c) u16_max

  -- The header that every segment of a connection carries.
  abbrev pub header : Connection P → ℕ → ℕ → ℕ → SegmentHeader
  header c seq window flags = record {
    local_port = c.local_port;
    remote_port = c.remote_port;
    seq = seq;
    ack = c.recv_nxt;
    window = window;
    mss = c.mss % 65536;
    flags = flags;
  }

  unfoldable pub ack_segment : Connection P → Segment
  ack_segment c = build_segment (header c c.send_nxt (available_window_u16 c) ack_flag) []

  unfoldable pub reset_segment : Connection P → Segment
  reset_segment c = build_segment (header c c.send_nxt 0 rst_flag) []

  unfoldable pub segment_for : Connection P → TrackedSegment → Segment
  segment_for c t = build_segment (header c t.seq (available_window_u16 c) t.flags) t.payload

  -- The bytes of sequence space sent and not yet acknowledged.
  abbrev pub in_flight : Connection P → ℕ
  in_flight c = distance c.send_una c.send_nxt

  -- What the peer's window and the congestion window leave.
  abbrev pub available_to_send : Connection P → ℕ
  available_to_send c = min c.remote_window (Reno.window c.reno) - in_flight c
