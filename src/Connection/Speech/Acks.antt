-- ===== src/Connection/Speech/Acks.antt =====
-- What a connection says: acknowledgements and what is sent again.
use fips_tcp.Common.{
  All, Bool, Bool-cases, IsU32, List, List-cases, Option-cases, [], ap, arith, drop, false, inl,
  inr, is_empty, leb, length, length-drop, le→leb, none, not, refl, sat_suc8, subst, true,
  wrapping_add, ℕ, ◌&&◌, ◌+◌, ◌<◌, ◌==◌, ◌^◌, ◌||◌, ◌∙◌, ◌∷◌, ◌≡◌, ◌≤◌,
}
use native.Mathlib.Decide.{dec_le}
use fips_tcp.Types.{Config}
use fips_tcp.Seq.{distance, after, before}
use fips_tcp.Wire.{contains, fin_flag, flag_len}
use fips_tcp.Marker
use fips_tcp.Rtt.{RttEstimator}
use fips_tcp.Segments.{TrackedSegment, tracked_end, build_segment}
use fips_tcp.Connection.{Connection, option_list}
use fips_tcp.Connection.Ack.{
  Popped, apply_ack, advance_ack, repair_timed_out_flight, repeat_ack, retransmit,
  retransmit_oldest, pop_acked, trimmed, trim_front, pop_one, splits, split_count,
}
use fips_tcp.Connection.Flight.{
  Chain, bytes_of, control_len, seq_len, total, pop_acked-Acked, tracked_end_lem,
  distance-tracked_end, ends_by_lem, rest-pop_one, tracked_end-IsU32, trimmed-nil,
}
use fips_tcp.Connection.Sender.{Sends, total-lt}
use fips_tcp.Connection.Sender.Acks.{in_range}
use fips_tcp.Connection.Receiver.Pieces.{drop-Piece}
use fips_tcp.Connection.Speech.{finished, PartAt, Parts, Says, Speech, Speaks}

module _ (base : ℕ) (sent : List ℕ) where
  -- Without its first bytes a segment is the next piece.
  trim-PartAt :
      (done : Bool) (o ack : ℕ) (t : TrackedSegment)
      → IsU32 t.seq
      → IsU32 ack
      → seq_len t < 2 ^ 31
      → distance t.seq ack < 2 ^ 31
      → splits ack t ≡ true
      → PartAt base sent done o t
      → PartAt base sent done
          (o + split_count ack t)
          (record t { payload = drop (split_count ack t) t.payload; seq = ack })
  unfolding splits before distance control_len flag_len
  trim-PartAt done o ack t h k m d s (inl (e, f, y)) =
      absurd (ground (arith, ap length e, s, tracked_end_lem t))
  trim-PartAt done o ack t h k m d s (inr (e, p, w, y, f)) =
      let n = split_count ack t in
      let (next, fin) = split-facts t ack o h k m d s e in
      inr (
        next,
        drop-Piece sent o n t.payload p,
        omega (arith, w, length-drop n t.payload),
        y,
        rw fin tt,
      )
    where
      split-facts :
          (t : TrackedSegment) (ack o : ℕ)
          → IsU32 t.seq
          → IsU32 ack
          → seq_len t < 2 ^ 31
          → distance t.seq ack < 2 ^ 31
          → splits ack t ≡ true
          → t.seq ≡ wrapping_add base o
          → (ack ≡ wrapping_add base (o + split_count ack t)) × (contains t.flags fin_flag ≡ false)
      split-facts t ack o h k m d s e = (ground (arith, s, e, tracked_end_lem t), ground (arith, s))

  trim_front-Parts :
      (done : Bool) (o ack : ℕ) (t : TrackedSegment) (ts : List TrackedSegment)
      → IsU32 t.seq
      → IsU32 ack
      → seq_len t < 2 ^ 31
      → distance t.seq ack < 2 ^ 31
      → Parts base sent done o (t ∷ ts)
      → Parts base sent done (o + trimmed ack (t ∷ ts)) (trim_front ack (t ∷ ts))
  unfolding trim_front trimmed
  trim_front-Parts done o ack t ts h k m d v = elim (Bool-cases (splits ack t)) [
    | inl s ↦
        let n = split_count ack t in
        let next : o + length t.payload ≡ (o + n) + length (drop n t.payload) =
          omega (arith, length-drop n t.payload) in
        rw s
          (trim-PartAt done o ack t h k m d s v.0, subst (λ j. Parts base sent done j ts) next v.1)
    | inr s ↦
        let same : o ≡ o + 0 = omega arith in
        rw s (subst (λ j. Parts base sent done j (t ∷ ts)) same v)
  ]

  pop_acked-Parts :
      (rtt : RttEstimator) (done : Bool) (o a ack now_ms e : ℕ) (ts : List TrackedSegment)
      (p : Popped)
      → p.rest ≡ ts
      → IsU32 a
      → IsU32 ack
      → total ts < 2 ^ 31
      → distance a ack ≤ total ts
      → Chain a ts e
      → Parts base sent done o ts
      → let q = pop_acked rtt ack now_ms ts p in
        (m : ℕ) × (q.acked_payload + trimmed ack q.rest ≡ p.acked_payload + m)
        × Parts base sent done (o + m) (trim_front ack q.rest)
  unfolding pop_acked
  pop_acked-Parts rtt done o a ack now_ms e [] p s h k m d c v =
      rw s (0, omega (arith, (trimmed-nil ack).1), rw (trimmed-nil ack).0 tt)
  pop_acked-Parts rtt done o a ack now_ms e (t ∷ ts) p s h k m d c v =
      let by = ends_by_lem a ack t c.0 h k (omega arith) (omega arith) in
      elim (dec_le (seq_len t) (distance a ack)) [
        | yes covered ↦
            let (n, counted, parts) =
              pop_acked-Parts rtt done (o + length t.payload) (tracked_end t) ack now_ms e ts
                (pop_one rtt now_ms t ts p) (rest-pop_one rtt now_ms t ts p).0 (tracked_end-IsU32 t)
                k (omega arith) (omega (arith, distance-tracked_end a ack t c.0 h k covered)) c.2
                v.1 in
            let q = pop_acked rtt ack now_ms ts (pop_one rtt now_ms t ts p) in
            let there : (o + length t.payload) + n ≡ o + (length t.payload + n) = omega arith in
            rw (by, le→leb _ _ covered)
              (
                length t.payload + n,
                omega (arith, counted, (rest-pop_one rtt now_ms t ts p).1),
                subst (λ j. Parts base sent done j (trim_front ack q.rest)) there parts,
              )
        | no left ↦
            let stop : leb (seq_len t) (distance a ack) ≡ false = ground arith in
            let near : distance t.seq ack < 2 ^ 31 = rw c.0 (omega arith) in
            rw (by, stop, s)
              (
                trimmed ack (t ∷ ts),
                refl,
                trim_front-Parts done o ack t ts (rw c.0 h) k (omega arith) near v,
              )
      ]

  module _ {P : Type 0} where
    advance_ack-Speaks :
        (c : Connection P) (ack now_ms : ℕ)
        → Sends sent c
        → Speaks base sent c
        → IsU32 ack
        → distance c.send_una ack ≤ total c.unacked
        → Speaks base sent (advance_ack c ack now_ms).0
    unfolding advance_ack Marker.acknowledge
    advance_ack-Speaks c ack now_ms v w k h =
        let start : Popped = record {
          rest = c.unacked;
          acked_payload = 0;
          fin_acked = false;
          rtt_sample = none;
        } in
        let q = pop_acked c.rtt ack now_ms c.unacked start in
        let acked = c.send_progress.acked_payload_bytes in
        let (m, counted, parts) =
          pop_acked-Parts c.rtt (finished c.state) acked c.send_una ack now_ms c.send_nxt c.unacked
            start refl v.una_range k (omega (arith, total-lt v)) h v.chain w.parts in
        let (n, counted', left) =
          pop_acked-Acked c.rtt c.send_una ack now_ms c.send_nxt c.unacked start refl v.una_range k
            (omega (arith, total-lt v)) h v.chain in
        let here : acked + m ≡ acked + (q.acked_payload + trimmed ack q.rest) =
          omega (arith, counted) in
        let same : (acked + (q.acked_payload + trimmed ack q.rest))
              + length (bytes_of (trim_front ack q.rest))
            ≡ acked + length (bytes_of c.unacked) =
          omega (arith, counted', left.count) in
        record {
          parts =
              subst (λ j. Parts base sent (finished c.state) j (trim_front ack q.rest)) here parts;
          number = λ f. omega (arith, w.number f, same);
          rest = ap (λ j. drop j sent) same ∙ w.rest;
          within = omega (arith, same, w.within);
          emptied = w.emptied;
        }

    -- What is sent again is the oldest segment, as it is kept.
    pub retransmit_oldest-Tells :
        (c : Connection P) (now_ms : ℕ) (timeout : Bool)
        → Speaks base sent c
        → let r = retransmit_oldest c now_ms timeout in
          Speaks base sent r.0
          × All (Says base sent (finished c.state)) (option_list r.1)
          × (r.0.state ≡ c.state)
    unfolding retransmit_oldest retransmit build_segment
    retransmit_oldest-Tells c now_ms timeout v = elim (List-cases c.unacked) [
      | inl e ↦ rw (e, retransmit_oldest) (v, tt, refl)
      | inr (t, rest, e) ↦
          let acked = c.send_progress.acked_payload_bytes in
          let w = subst (λ u. Speech base sent c.send_nxt u c.send_queue acked c.state) e v in
          elim (Bool-cases (leb c.max_transmissions t.transmissions)) [
            | inl spent ↦ rw (e, spent, retransmit_oldest) (v, tt, refl)
            | inr more ↦
                rw (e, more, retransmit_oldest)
                  (
                    record {
                      parts = w.parts;
                      number = w.number;
                      rest = w.rest;
                      within = w.within;
                      emptied = w.emptied;
                    },
                    ((acked, w.parts.0), tt),
                    refl,
                  )
          ]
    ]

    pub repair_timed_out_flight-Tells :
        (c : Connection P) (now_ms : ℕ) (config : Config)
        → Speaks base sent c
        → let r = repair_timed_out_flight c now_ms config in
          Speaks base sent r.0
          × All (Says base sent (finished c.state)) (option_list r.1)
          × (r.0.state ≡ c.state)
    unfolding repair_timed_out_flight
    repair_timed_out_flight-Tells c now_ms config v = elim (Option-cases c.rto_recovery_until) [
      | inl e ↦ rw (e, repair_timed_out_flight) (v, tt, refl)
      | inr (end, e) ↦ elim (List-cases c.unacked) [
        | inl n ↦ rw (e, n, repair_timed_out_flight) (v, tt, refl)
        | inr (oldest, rest, n) ↦
            elim (Bool-cases
              (c.remote_window == 0 || leb config.max_retransmissions oldest.transmissions)) [
                | inl quiet ↦ rw (e, n, quiet, repair_timed_out_flight) (v, tt, refl)
                | inr going ↦
                    rw (e, n, going, repair_timed_out_flight)
                      (retransmit_oldest-Tells c now_ms false v)
              ]
      ]
    ]

    repeat_ack-Tells :
        (c : Connection P) (now_ms : ℕ) (duplicate : Bool)
        → Speaks base sent c
        → let r = repeat_ack c now_ms duplicate in
          Speaks base sent r.0
          × All (Says base sent (finished c.state)) (option_list r.1.retransmit)
          × (r.0.state ≡ c.state)
    unfolding repeat_ack
    repeat_ack-Tells c now_ms duplicate v =
        elim (Bool-cases (duplicate && not (is_empty c.unacked))) [
          | inr other ↦ rw (other, repeat_ack) (v, tt, refl)
          | inl again ↦ elim (Bool-cases (sat_suc8 c.duplicate_acks == 3)) [
            | inr few ↦ rw (again, few, repeat_ack) (v, tt, refl)
            | inl third ↦ rw (again, third, repeat_ack) (retransmit_oldest-Tells _ now_ms false v)
          ]
        ]

    pub apply_ack-Tells :
        (c : Connection P) (ack now_ms : ℕ) (duplicate : Bool)
        → Sends sent c
        → Speaks base sent c
        → IsU32 ack
        → let r = apply_ack c ack now_ms duplicate in
          Speaks base sent r.0
          × All (Says base sent (finished c.state)) (option_list r.1.retransmit)
          × (r.0.state ≡ c.state)
    unfolding apply_ack
    apply_ack-Tells c ack now_ms duplicate v w k =
        elim (Bool-cases (after ack c.send_nxt || before ack c.send_una)) [
          | inl outside ↦ rw (outside, apply_ack) (w, tt, refl)
          | inr inside ↦ elim (Bool-cases (ack == c.send_una)) [
            | inl same ↦ rw (inside, same, apply_ack) (repeat_ack-Tells c now_ms duplicate w)
            | inr other ↦
                rw (inside, other, apply_ack)
                  (
                    advance_ack-Speaks c ack now_ms v w k (in_range sent c ack v k inside),
                    unfold advance_ack in tt,
                    unfold advance_ack in refl,
                  )
          ]
        ]
