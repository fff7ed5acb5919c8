-- ===== src/Connection/Speech/Timers.antt =====
-- What a connection says: the timers, `read` and the creation of a connection.
use fips_tcp.Common.{
  All, Bool, Bool-cases, List, List-cases, Option, Option-cases, [], ap, arith, drop, inl, inr,
  is_some, leb, length, length-take, ltb, min, refl, sat_add, some, subst, sym, take, true, ℕ, ◌&&◌,
  ◌+◌, ◌==◌, ◌||◌, ◌∙◌, ◌∷◌, ◌≡◌, ◌≤◌,
}
use fips_tcp.Types.{Config, State}
use fips_tcp.Wire.{Segment, value_or, contains, syn_flag, fin_flag}
use fips_tcp.Connection.Receive
use fips_tcp.Rtt.{timeout_ms}
use fips_tcp.Connection.Ack.{retransmit_oldest}
use fips_tcp.Segments.{TrackedSegment, ack_psh, build_segment}
use fips_tcp.Connection.{Connection, option_list, available_window}
use fips_tcp.Connection.Send.{
  first_payload, probe_from_queue, zero_window_probe, send_tracked, flush_data,
}
use fips_tcp.Connection.Timer.{
  poll, count_probe, poll_open_window, poll_timed_out, poll_zero_window, send_probe, time_out,
  close_deadline, is_due, has_probe_payload,
}
use fips_tcp.Connection.Receiver.Pieces.{take-Piece}
use fips_tcp.Connection.Speech.{finished, Part, PartAt, Parts, Says, Speaks, Tells, Tells-then}
use fips_tcp.Connection.Speech.Data.{flush_data-Tells, send_data-Tells, psh_flags}
use fips_tcp.Connection.Speech.Acks.{retransmit_oldest-Tells}
use fips_tcp.Connection.Speech.Inputs.{ack_segment-Says}
use fips_tcp.Connection.Speech.Segments.{Updates}

module _ (base : ℕ) (sent : List ℕ) where
  -- The oldest segment with bytes is somewhere in the stream.
  first_payload-PartAt :
      (done : Bool) (o : ℕ) (ts : List TrackedSegment) (t : TrackedSegment)
      → first_payload ts ≡ some t
      → Parts base sent done o ts
      → (i : ℕ) × PartAt base sent done i t × (1 ≤ length t.payload)
  unfolding first_payload
  first_payload-PartAt done o [] t e v = absurd (ground (arith, e))
  first_payload-PartAt done o (x ∷ ts) t e v = elim (List-cases x.payload) [
    | inl n ↦ first_payload-PartAt done (o + length x.payload) ts t (ground (arith, e, n)) v.1
    | inr (b, bs, n) ↦
        let same : x ≡ t = ground (arith, e, n) in
        subst (λ y. (i : ℕ) × PartAt base sent done i y × (1 ≤ length y.payload)) same
          (o, v.0, omega (arith, ap length n))
  ]

  -- A probe carries the first byte of a segment.
  probe-Part :
      (done : Bool) (o : ℕ) (t : TrackedSegment)
      → 1 ≤ length t.payload
      → PartAt base sent done o t
      → Part base sent done o t.seq
          (take 1 t.payload)
          (contains ack_psh syn_flag)
          (contains ack_psh fin_flag)
  probe-Part done o t h (inl (e, f, y)) = absurd (omega (arith, h, ap length e))
  probe-Part done o t h (inr (e, p, w, y, f)) =
      rw (psh_flags.0, psh_flags.1)
        (inr (
          e,
          take-Piece sent o 1 t.payload p h,
          omega (arith, w, length-take 1 t.payload, h),
          refl,
          tt,
        ))

  module _ {P : Type 0} where
    abbrev Probes : State → Connection P × Option Segment → Type 0
    Probes st r =
        Speaks base sent r.0
        × All (Says base sent (finished st)) (option_list r.1)
        × (r.0.state ≡ st)

    probe_from_queue-Probes :
        (c : Connection P) (queue : List ℕ) (now_ms : ℕ)
        → Speaks base sent c
        → queue ≡ c.send_queue
        → Probes c.state (probe_from_queue c queue now_ms)
    unfolding probe_from_queue
    probe_from_queue-Probes c [] now_ms v q = (v, tt, refl)
    probe_from_queue-Probes c (byte ∷ rest) now_ms v q = elim (Bool-cases (finished c.state)) [
      | inl done ↦ absurd (ground (arith, q, v.emptied done))
      | inr going ↦
          let (w, s, e) = send_data-Tells base sent c (byte ∷ []) rest now_ms v q going in
          let r = send_tracked (record c { send_queue = rest }) ack_psh (byte ∷ []) now_ms in
          (w, (subst (λ x. Says base sent (finished x) r.1) e s, tt), e)
    ]

    zero_window_probe-Probes :
        (c : Connection P) (now_ms : ℕ)
        → Speaks base sent c
        → Probes c.state (zero_window_probe c now_ms)
    unfolding zero_window_probe build_segment
    zero_window_probe-Probes c now_ms v = elim (Option-cases (first_payload c.unacked)) [
      | inl e ↦ rw (e, zero_window_probe) (probe_from_queue-Probes c c.send_queue now_ms v refl)
      | inr (t, e) ↦
          let (o, p, h) =
            first_payload-PartAt (finished c.state) c.send_progress.acked_payload_bytes c.unacked t
              e v.parts in
          rw (e, zero_window_probe)
            (
              record {
                parts = v.parts;
                number = v.number;
                rest = v.rest;
                within = v.within;
                emptied = v.emptied;
              },
              ((o, probe-Part (finished c.state) o t h p), tt),
              refl,
            )
    ]

    send_probe-Updates :
        (c : Connection P) (now_ms : ℕ) (config : Config)
        → Speaks base sent c
        → Updates base sent c.state (send_probe c now_ms config)
    unfolding send_probe count_probe
    send_probe-Updates c now_ms config v =
        let r = zero_window_probe c now_ms in
        let (w, s, e) = zero_window_probe-Probes c now_ms v in
        let s' : All (Says base sent (finished r.0.state)) (option_list r.1) =
          subst (λ x. All (Says base sent (finished x)) (option_list r.1)) (sym e) s in
        elim (Bool-cases (leb config.max_retransmissions c.zero_window_probes)) [
          | inl spent ↦ rw (spent, send_probe) (v, tt, λ f. f)
          | inr more ↦ elim (Bool-cases (is_some r.1)) [
            | inl some_out ↦
                rw (more, some_out, send_probe)
                  (
                    record {
                      parts = w.parts;
                      number = w.number;
                      rest = w.rest;
                      within = w.within;
                      emptied = w.emptied;
                    },
                    s',
                    λ f. ap finished e ∙ f,
                  )
            | inr none_out ↦ rw (more, none_out, send_probe) (w, tt, λ f. ap finished e ∙ f)
          ]
        ]

    poll_timed_out-Updates :
        (c : Connection P) (oldest : TrackedSegment) (now_ms : ℕ) (config : Config)
        → Speaks base sent c
        → Updates base sent c.state (poll_timed_out c oldest now_ms config)
    unfolding poll_timed_out time_out
    poll_timed_out-Updates c oldest now_ms config v =
        elim (Bool-cases (leb config.max_retransmissions oldest.transmissions)) [
          | inl spent ↦ rw (spent, poll_timed_out) (v, tt, λ f. f)
          | inr more ↦
              let r = retransmit_oldest (time_out c) now_ms true in
              let (w, s, e) = retransmit_oldest-Tells base sent (time_out c) now_ms true v in
              rw (more, poll_timed_out)
                (Tells-then base sent c.state (r.0, option_list r.1) (flush_data r.0 now_ms)
                  (
                    w,
                    subst (λ x. All (Says base sent (finished x)) (option_list r.1)) (sym e) s,
                    λ f. ap finished e ∙ f,
                  )
                  (flush_data-Tells base sent r.0 now_ms w))
        ]

    poll_zero_window-Updates :
        (c : Connection P) (now_ms : ℕ) (config : Config)
        → Speaks base sent c
        → Updates base sent c.state (poll_zero_window c now_ms config)
    unfolding poll_zero_window
    poll_zero_window-Updates c now_ms config v =
        let deadline =
          value_or c.next_zero_window_probe_ms (sat_add now_ms config.initial_rto_ms) in
        elim (Bool-cases (leb deadline now_ms)) [
          | inl due ↦ rw (due, poll_zero_window) (send_probe-Updates _ now_ms config v)
          | inr early ↦ rw (early, poll_zero_window) (v, tt, λ f. f)
        ]

    poll_open_window-Updates :
        (c : Connection P) (now_ms : ℕ) (config : Config)
        → Speaks base sent c
        → Updates base sent c.state (poll_open_window c now_ms config)
    unfolding poll_open_window
    poll_open_window-Updates c now_ms config v =
        let flushed = flush_data-Tells base sent c now_ms v in
        elim (List-cases c.unacked) [
          | inl e ↦ rw (e, poll_open_window) flushed
          | inr (oldest, rest, e) ↦
              elim (Bool-cases (leb (sat_add oldest.sent_at_ms (timeout_ms c.rtt)) now_ms)) [
                | inl late ↦
                    rw (e, late, poll_open_window) (poll_timed_out-Updates c oldest now_ms config v)
                | inr early ↦ rw (e, early, poll_open_window) flushed
              ]
        ]

    pub poll-Updates :
        (c : Connection P) (now_ms : ℕ) (config : Config)
        → Speaks base sent c
        → Updates base sent c.state (poll c now_ms config)
    unfolding poll
    poll-Updates c now_ms config v = elim (Bool-cases (is_due (close_deadline c) now_ms)) [
      | inl over ↦ rw (over, poll) (v, tt, λ f. f)
      | inr before ↦
          elim (Bool-cases (c.remote_window == 0 && (c.close_requested || has_probe_payload c))) [
            | inl shut ↦ rw (before, shut, poll) (poll_zero_window-Updates c now_ms config v)
            | inr wide ↦ rw (before, wide, poll) (poll_open_window-Updates c now_ms config v)
          ]
    ]

    pub read-Tells :
        (c : Connection P) (n : ℕ)
        → Speaks base sent c
        → Tells base sent c.state ((Receive.read c n).0, (Receive.read c n).2)
    unfolding Receive.read
    read-Tells c n v =
        let count = min n (length c.recv_queue) in
        let c' : Connection P = record c { recv_queue = drop count c.recv_queue } in
        let a = ack_segment-Says base sent (finished c.state) c' in
        elim (Bool-cases (
          ltb 0 count
          && (ltb (available_window c) (available_window c') && Receive.updates_window c.state))) [
            | inl more ↦ rw more (v, (a, tt), λ f. f)
            | inr same ↦ rw same (v, tt, λ f. f)
          ]
