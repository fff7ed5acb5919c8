-- ===== src/Connection/Ack.antt =====
-- stack.rs and connection_recovery.rs: cumulative acknowledgements and retransmission.
use fips_tcp.Common.{
  Bool, List, Option, [], drop, false, if◌then◌else◌, is_empty, leb, length, min, none, not,
  sat_suc8, some, ℕ, ◌&&◌, ◌+◌, ◌-◌, ◌==◌, ◌||◌, ◌∷◌,
}
use fips_tcp.Segments.{build_segment, TrackedSegment, tracked_end}
use fips_tcp.Wire.{Segment, contains, fin_flag, syn_flag}
use fips_tcp.Types.{Config}
use fips_tcp.Seq.{distance, after, before, before_or_equal}
use fips_tcp.Rtt
use fips_tcp.Rtt.{RttEstimator}
use fips_tcp.Reno
use fips_tcp.Marker
use fips_tcp.Connection.{Connection, AckOutcome, available_window_u16, header, in_flight}

-- What the loop of `apply_ack` has collected from the segments that it took off the front.
pub record Popped : Type 0 where
  pub rest : List TrackedSegment
  pub acked_payload : ℕ
  pub fin_acked : Bool
  pub rtt_sample : Option ℕ

-- One segment taken off.
unfoldable pub pop_one : RttEstimator → ℕ → TrackedSegment → List TrackedSegment → Popped → Popped
pop_one rtt now_ms t rest p = record {
  rest = rest;
  acked_payload = p.acked_payload + length t.payload;
  fin_acked = p.fin_acked || contains t.flags fin_flag;
  rtt_sample =
      if Rtt.can_sample rtt (tracked_end t) then some (now_ms - t.sent_at_ms) else p.rtt_sample;
}

-- The loop: it takes segments off while their end is not after the ACK.
unfoldable pub pop_acked : RttEstimator → ℕ → ℕ → List TrackedSegment → Popped → Popped
pop_acked rtt ack now_ms [] p = p
pop_acked rtt ack now_ms (t ∷ ts) p =
    let more = pop_acked rtt ack now_ms ts (pop_one rtt now_ms t ts p) in
    if before_or_equal (tracked_end t) ack then more else p

-- The ACK lies inside the oldest segment that is left, and that segment carries only data.
unfoldable pub splits : ℕ → TrackedSegment → Bool
splits ack t =
    before t.seq ack
    && (before ack (tracked_end t)
        && (not (contains t.flags syn_flag) && not (contains t.flags fin_flag)))

-- The acknowledged bytes of that segment.
abbrev pub split_count : ℕ → TrackedSegment → ℕ
split_count ack t = min (distance t.seq ack) (length t.payload)

unfoldable pub trim_front : ℕ → List TrackedSegment → List TrackedSegment
trim_front ack [] = []
trim_front ack (t ∷ ts) =
    if splits ack t
    then record t { payload = drop (split_count ack t) t.payload; seq = ack } ∷ ts
    else t ∷ ts

unfoldable pub trimmed : ℕ → List TrackedSegment → ℕ
trimmed ack [] = 0
trimmed ack (t ∷ ts) = if splits ack t then split_count ack t else 0

abbrev pub reaches : Option ℕ → ℕ → Bool
reaches none ack = false
reaches (some end) ack = not (before ack end)

abbrev pub sample_if : Option ℕ → RttEstimator → RttEstimator
sample_if none rtt = rtt
sample_if (some ms) rtt = Rtt.sample rtt ms

abbrev pub no_outcome : AckOutcome
no_outcome = record { fin_acked = false; retransmit = none }

module _ {P : Type 0} where
  -- `retransmit_oldest` at the oldest tracked segment.
  unfoldable pub retransmit :
      Connection P → TrackedSegment → List TrackedSegment → ℕ → Bool → Connection P × Option Segment
  retransmit c t rest now_ms timeout =
      if leb c.max_transmissions t.transmissions
      then (c, none)
      else (let again = record t {
        sent_at_ms = now_ms;
        transmissions = sat_suc8 t.transmissions;
      } in
          (
            record c {
              rtt = Rtt.on_retransmit c.rtt c.send_nxt;
              unacked = again ∷ rest;
              duplicate_acks = if timeout then 0 else c.duplicate_acks;
            },
            some (build_segment (header c t.seq (available_window_u16 c) t.flags) t.payload),
          ))

  unfoldable pub retransmit_oldest : Connection P → ℕ → Bool → Connection P × Option Segment
  retransmit_oldest c now_ms timeout = elim c.unacked [
    | [] ↦ (c, none)
    | t ∷ rest ↦ retransmit c t rest now_ms timeout
  ]

  -- `repair_timed_out_flight`, with `?` on the recovery point and on the oldest segment.
  unfoldable pub repair_timed_out_flight : Connection P → ℕ → Config → Connection P × Option Segment
  repair_timed_out_flight c now_ms config = elim c.rto_recovery_until [
    | none ↦ (c, none)
    | some end ↦ elim c.unacked [
      | [] ↦ (c, none)
      | oldest ∷ rest ↦
          if c.remote_window == 0 || leb config.max_retransmissions oldest.transmissions
          then (c, none)
          else retransmit_oldest c now_ms false
    ]
  ]

  -- `apply_ack` at `ack == send_una`.
  unfoldable pub repeat_ack : Connection P → ℕ → Bool → Connection P × AckOutcome
  repeat_ack c now_ms duplicate_candidate =
      if duplicate_candidate && not (is_empty c.unacked)
      then (let c1 : Connection P = record c {
        duplicate_acks = sat_suc8 c.duplicate_acks;
        reno = Reno.on_duplicate_ack c.reno;
      } in
          if c1.duplicate_acks == 3
          then (let (c2, segment) =
                retransmit_oldest (record c1 { reno = Reno.on_fast_loss c1.reno (in_flight c) })
                  now_ms false in
              (c2, record { fin_acked = false; retransmit = segment }))
          else (c1, no_outcome))
      else (record c { duplicate_acks = 0 }, no_outcome)

  -- The loop at the queue of a connection.
  abbrev pub popped : Connection P → ℕ → ℕ → Popped
  popped c ack now_ms =
      pop_acked c.rtt ack now_ms c.unacked
        (record { rest = c.unacked; acked_payload = 0; fin_acked = false; rtt_sample = none })

  -- `apply_ack` at an ACK that advances.
  unfoldable pub advance_ack : Connection P → ℕ → ℕ → Connection P × AckOutcome
  advance_ack c ack now_ms =
      let p = popped c ack now_ms in
      let acked_payload = p.acked_payload + trimmed ack p.rest in
      (
        record c {
          duplicate_acks = 0;
          unacked = trim_front ack p.rest;
          send_una = ack;
          rto_recovery_until =
              if reaches c.rto_recovery_until ack then none else c.rto_recovery_until;
          rtt = sample_if p.rtt_sample c.rtt;
          reno = Reno.on_ack c.reno acked_payload;
          send_progress = Marker.acknowledge c.send_progress acked_payload;
        },
        record { fin_acked = p.fin_acked; retransmit = none },
      )

  unfoldable pub apply_ack : Connection P → ℕ → ℕ → Bool → Connection P × AckOutcome
  apply_ack c ack now_ms duplicate_candidate =
      if after ack c.send_nxt || before ack c.send_una
      then (c, no_outcome)
      else (if ack == c.send_una
          then repeat_ack c now_ms duplicate_candidate
          else advance_ack c ack now_ms)
