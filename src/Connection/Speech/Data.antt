-- ===== src/Connection/Speech/Data.antt =====
-- What a connection says: `flush_data`, `write` and `close`.
use fips_tcp.Common.{
  All, Bool, Bool-cases, List, List-cases, Yields, [], ap, arith, drop, drop-drop,
  drop-length-append, drop_le-append, false, inl, inr, length, length-append, length-drop, min, not,
  refl, subst, suc, sym, take, take-append-drop, take-length-append, true, wrapping_add, zero, ℕ,
  ◌++◌, ◌+◌, ◌-◌, ◌||◌, ◌∙◌, ◌∷◌, ◌≡◌, ◌≤◌,
}
use fips_tcp.Types.{
  Config, State, established, close_wait, syn_sent, syn_received, fin_wait_1, fin_wait_2, closing,
  last_ack, time_wait,
}
use fips_tcp.Wire.{contains, syn_flag, fin_flag, flag_len}
use fips_tcp.Marker
use fips_tcp.Segments.{TrackedSegment, tracked_end, ack_psh, fin_ack, build_segment}
use fips_tcp.Connection.{Connection, available_to_send, segment_for}
use fips_tcp.Connection.Send.{
  sends_data, write, close, can_send, send_fin, send_round, send_rounds, send_tracked, can_finish,
  fin_state, flush_data, unacked_bytes,
}
use fips_tcp.Connection.Flight.{bytes_of, bytes_of-append}
use fips_tcp.Connection.Speech.{
  finished, Part, PartAt, Parts, Says, Speech, Speaks, Tells, Tells-then, silent, Parts-append,
  Parts-Later, Parts-grows,
}

sends-unfinished : (st : State) → sends_data st ≡ true → finished st ≡ false
sends-unfinished established h = refl
sends-unfinished close_wait h = refl
sends-unfinished syn_sent h = absurd (ground (arith, h))
sends-unfinished syn_received h = absurd (ground (arith, h))
sends-unfinished fin_wait_1 h = absurd (ground (arith, h))
sends-unfinished fin_wait_2 h = absurd (ground (arith, h))
sends-unfinished closing h = absurd (ground (arith, h))
sends-unfinished last_ack h = absurd (ground (arith, h))
sends-unfinished time_wait h = absurd (ground (arith, h))

fin_state-finished : (st : State) → finished (fin_state st) ≡ true
fin_state-finished established = refl
fin_state-finished _ = refl

pub psh_flags : (contains ack_psh syn_flag ≡ false) × (contains ack_psh fin_flag ≡ false)
unfolding contains
psh_flags = (refl, refl)

fin_flags : (contains fin_ack syn_flag ≡ false) × (contains fin_ack fin_flag ≡ true)
unfolding contains
fin_flags = (refl, refl)

module _ (base : ℕ) (sent : List ℕ) where
  -- The bytes at the front of the queue have the next number.
  queue-Part :
      (nxt acked : ℕ) (unacked : List TrackedSegment) (bytes rest : List ℕ) (st : State)
      (done : Bool)
      → Speech base sent nxt unacked (bytes ++ rest) acked st
      → finished st ≡ false
      → Part base sent done
          (acked + length (bytes_of unacked))
          nxt
          bytes
          (contains ack_psh syn_flag)
          (contains ack_psh fin_flag)
  queue-Part nxt acked unacked bytes rest st done v f =
      let o = acked + length (bytes_of unacked) in
      let l = ap length v.rest in
      let within : o + length bytes ≤ length sent =
        omega (arith, l, v.within, length-append bytes rest, length-drop o sent) in
      rw (psh_flags.0, psh_flags.1)
        (inr (
          v.number f,
          sym (take-length-append bytes rest) ∙ ap (take (length bytes)) (sym v.rest),
          within,
          refl,
          tt,
        ))

  tracked_end-psh :
      (seq : ℕ) (bytes : List ℕ) (now_ms : ℕ)
      → tracked_end (record {
        seq = seq;
        flags = ack_psh;
        payload = bytes;
        sent_at_ms = now_ms;
        transmissions = 1;
      })
        ≡ wrapping_add seq (length bytes)
  unfolding tracked_end flag_len contains
  tracked_end-psh seq bytes now_ms = omega arith

  push-Speech :
      (nxt acked : ℕ) (unacked : List TrackedSegment) (bytes rest : List ℕ) (st : State)
      (t : TrackedSegment)
      → Speech base sent nxt unacked (bytes ++ rest) acked st
      → finished st ≡ false
      → PartAt base sent (finished st) (acked + length (bytes_of unacked)) t
      → t.payload ≡ bytes
      → tracked_end t ≡ wrapping_add nxt (length bytes)
      → Speech base sent (tracked_end t) (unacked ++ (t ∷ [])) rest acked st
  push-Speech nxt acked unacked bytes rest st t v f p b n =
      let o = acked + length (bytes_of unacked) in
      let e : acked + length (bytes_of (unacked ++ (t ∷ []))) ≡ o + length bytes = omega (
        arith,
        ap length (bytes_of-append unacked t),
        length-append (bytes_of unacked) t.payload,
        ap length b,
      ) in
      let l = ap length v.rest in
      record {
        parts = Parts-append base sent (finished st) acked unacked t v.parts p;
        number = λ g. n ∙ omega (arith, v.number f, e);
        rest =
            ap (λ j. drop j sent) e
            ∙ sym (drop-drop (length bytes) o (o + length bytes) sent refl)
            ∙ ap (drop (length bytes)) v.rest
            ∙ drop-length-append bytes rest;
        within = omega (arith, e, l, v.within, length-append bytes rest, length-drop o sent);
        emptied = λ g. absurd (ground (arith, f, g));
      }

  module _ {P : Type 0} where
    -- The front of the queue goes out as one data segment.
    pub send_data-Tells :
        (c : Connection P) (bytes rest : List ℕ) (now_ms : ℕ)
        → Speaks base sent c
        → bytes ++ rest ≡ c.send_queue
        → finished c.state ≡ false
        → let r = send_tracked (record c { send_queue = rest }) ack_psh bytes now_ms in
          Speaks base sent r.0 × Says base sent (finished r.0.state) r.1 × (r.0.state ≡ c.state)
    unfolding send_tracked segment_for build_segment
    send_data-Tells c bytes rest now_ms v e f =
        let v' : Speech base sent c.send_nxt c.unacked (bytes ++ rest)
            c.send_progress.acked_payload_bytes c.state =
          rw e v in
        let p =
          queue-Part c.send_nxt c.send_progress.acked_payload_bytes c.unacked bytes rest c.state
            (finished c.state) v' f in
        (
          push-Speech c.send_nxt c.send_progress.acked_payload_bytes c.unacked bytes rest c.state _
              v' f p refl (tracked_end-psh c.send_nxt bytes now_ms),
          (c.send_progress.acked_payload_bytes + length (bytes_of c.unacked), p),
          refl,
        )

    send_round-Tells :
        (c : Connection P) (now_ms : ℕ)
        → Speaks base sent c
        → finished c.state ≡ false
        → let r = send_round c now_ms in
          Speaks base sent r.0 × Says base sent (finished r.0.state) r.1 × (r.0.state ≡ c.state)
    unfolding send_round
    send_round-Tells c now_ms v f =
        let n = min (min (available_to_send c) c.mss) (length c.send_queue) in
        send_data-Tells c (take n c.send_queue) (drop n c.send_queue) now_ms v
          (take-append-drop n c.send_queue) f

    send_rounds-Tells :
        (fuel : ℕ) (c : Connection P) (now_ms : ℕ)
        → Speaks base sent c
        → finished c.state ≡ false
        → let r = send_rounds fuel c now_ms in
          Speaks base sent r.0
          × All (Says base sent (finished r.0.state)) r.1
          × (r.0.state ≡ c.state)
    unfolding send_rounds
    send_rounds-Tells zero c now_ms v f = (v, tt, refl)
    send_rounds-Tells (suc fuel) c now_ms v f = elim (Bool-cases (can_send c)) [
      | inl more ↦
          let c' = (send_round c now_ms).0 in
          let (w, s, e) = send_round-Tells c now_ms v f in
          let (w', s', e') = send_rounds-Tells fuel c' now_ms w (ap finished e ∙ f) in
          let d = (send_rounds fuel c' now_ms).0 in
          rw (more, send_rounds)
            (
              w',
              (subst (λ st. Says base sent (finished st) (send_round c now_ms).1) (sym e') s, s'),
              e' ∙ e,
            )
      | inr done ↦ rw (done, send_rounds) (v, tt, refl)
    ]

    send_fin-Tells :
        (c : Connection P) (now_ms : ℕ)
        → Speaks base sent c
        → finished c.state ≡ false
        → Tells base sent c.state (send_fin c now_ms)
    unfolding send_fin send_tracked segment_for build_segment
    send_fin-Tells c now_ms v f = elim (Bool-cases (can_finish c)) [
      | inr stay ↦ rw (stay, send_fin) (silent base sent c.state c v refl)
      | inl go ↦
          let acked = c.send_progress.acked_payload_bytes in
          let o = acked + length (bytes_of c.unacked) in
          let empty : c.send_queue ≡ [] = empty_if c go in
          let l = ap length (v.rest ∙ empty) in
          let end : o ≡ length sent = omega (arith, l, v.within, length-drop o sent) in
          let done = fin_state-finished c.state in
          let t : TrackedSegment = record {
            seq = c.send_nxt;
            flags = fin_ack;
            payload = [];
            sent_at_ms = now_ms;
            transmissions = 1;
          } in
          let p : PartAt base sent (finished (fin_state c.state)) o t =
            rw (fin_flags.0, fin_flags.1)
              (inr (v.number f, refl, omega (arith, v.within), refl, (done, omega (arith, end)))) in
          let same : acked + length (bytes_of (c.unacked ++ (t ∷ []))) ≡ o = omega (
            arith,
            ap length (bytes_of-append c.unacked t),
            length-append (bytes_of c.unacked) t.payload,
          ) in
          let w : Speech base sent (tracked_end t) (c.unacked ++ (t ∷ [])) c.send_queue acked
              (fin_state c.state) =
            record {
              parts =
                  Parts-append base sent (finished (fin_state c.state)) acked c.unacked t
                    (Parts-Later base sent (finished c.state) (finished (fin_state c.state)) acked
                      c.unacked (λ g. done) v.parts)
                    p;
              number = λ g. absurd (ground (arith, done, g));
              rest = ap (λ j. drop j sent) same ∙ v.rest;
              within = omega (arith, same, v.within);
              emptied = λ g. empty;
            } in
          rw (go, send_fin) (w, ((o, p), tt), λ g. done)
    ]
      where
        empty_if : (c : Connection P) → can_finish c ≡ true → c.send_queue ≡ []
        empty_if c go = elim (List-cases c.send_queue) [
          | inl e ↦ e
          | inr (x, xs, e) ↦ absurd (ground (arith, go, e))
        ]

    pub flush_data-Tells :
        (c : Connection P) (now_ms : ℕ)
        → Speaks base sent c
        → Tells base sent c.state (flush_data c now_ms)
    unfolding flush_data
    flush_data-Tells c now_ms v = elim (Bool-cases (sends_data c.state)) [
      | inr quiet ↦ rw (quiet, flush_data) (silent base sent c.state c v refl)
      | inl going ↦
          let f = sends-unfinished c.state going in
          let r = send_rounds (length c.send_queue) c now_ms in
          let (w, s, e) = send_rounds-Tells (length c.send_queue) c now_ms v f in
          rw (going, flush_data)
            (Tells-then base sent c.state r (send_fin r.0 now_ms) (w, s, λ g. ap finished e ∙ g)
              (send_fin-Tells r.0 now_ms w (ap finished e ∙ f)))
    ]

    pub close-Tells :
        (c : Connection P) (now_ms : ℕ)
        → Speaks base sent c
        → Tells base sent c.state ((close c now_ms).0, (close c now_ms).1.segments)
    unfolding close
    close-Tells c now_ms v =
        let flushed = flush_data-Tells (record c { close_requested = true }) now_ms v in
        let none_out = silent base sent c.state c v refl in ground (arith, flushed, none_out)

-- The bytes that a write takes join the queue.
accept-Speech :
    {P : Type 0} (base : ℕ) (sent bytes : List ℕ) (c : Connection P) (n : ℕ)
    → Speaks base sent c
    → finished c.state ≡ false
    → Speaks base (sent ++ bytes) (record c {
      send_queue = c.send_queue ++ bytes;
      send_progress = Marker.accept c.send_progress n;
    })
unfolding Marker.accept
accept-Speech base sent bytes c n v f =
    let acked = c.send_progress.acked_payload_bytes in
    let o = acked + length (bytes_of c.unacked) in
    record {
      parts =
          subst (λ b. Parts base (sent ++ bytes) b acked c.unacked) (sym f)
            (Parts-grows base sent bytes acked c.unacked
              (subst (λ b. Parts base sent b acked c.unacked) f v.parts));
      number = v.number;
      rest = drop_le-append o sent bytes v.within ∙ ap (λ x. x ++ bytes) v.rest;
      within = omega (arith, v.within, length-append sent bytes);
      emptied = λ g. absurd (ground (arith, f, g));
    }

pub write-Tells :
    {P : Type 0} (base : ℕ) (sent : List ℕ) (c : Connection P) (bytes : List ℕ) (now_ms : ℕ)
    (config : Config)
    → Speaks base sent c
    → Yields
        (λ r. Tells base (sent ++ take r.1 bytes) c.state (r.0, r.2) × (finished c.state ≡ false))
        (write c bytes now_ms config)
unfolding write
write-Tells base sent c bytes now_ms config v =
    let n =
      min (length bytes) (config.send_buffer - (length c.send_queue + unacked_bytes c.unacked)) in
    elim (Bool-cases (not (sends_data c.state) || c.close_requested)) [
      | inl refused ↦ rw (refused, write) tt
      | inr going ↦
          let f : finished c.state ≡ false = sends-unfinished c.state (ground (arith, going)) in
          rw (going, write)
            (
              flush_data-Tells base (sent ++ take n bytes) _ now_ms
                  (accept-Speech base sent (take n bytes) c n v f),
              f,
            )
    ]
