-- ===== src/Connection/Sender/Acks.antt =====
-- The stream of the sending side: `apply_ack`, retransmission and the repair of a flight.
use fips_tcp.Common.{
  Bool, Bool-cases, IsU32, List, List-cases, [], arith, false, inl, inr, leb, none, refl, sat_suc8,
  subst, sym, true, ℕ, ◌+◌, ◌<◌, ◌==◌, ◌^◌, ◌||◌, ◌∙◌, ◌∷◌, ◌≡◌, ◌≤◌,
}
use fips_tcp.Types.{Config}
use fips_tcp.Seq.{distance, after, before, in_closed_interval}
use fips_tcp.Seq.Order.{in_closed_interval_iff}
use fips_tcp.Marker
use fips_tcp.Reno
use fips_tcp.Connection.Ack.{Popped, pop_acked, trimmed, trim_front}
use fips_tcp.Segments.{TrackedSegment, tracked_end}
use fips_tcp.Connection.{Connection, in_flight}
use fips_tcp.Connection.Ack.{
  apply_ack, advance_ack, repair_timed_out_flight, repeat_ack, retransmit, retransmit_oldest,
}
use fips_tcp.Connection.Flight.{Chain, Chain-end, control_len, pop_acked-Acked, total}
use fips_tcp.Connection.Sender.{Inv, Sends, in_flight-eq, nxt_range, total-lt, Acked-Inv}

-- A chain that ends where it begins is empty.
empty-Chain :
    (a b : ℕ) (ts : List TrackedSegment)
    → Chain a ts b
    → a ≡ b
    → IsU32 a
    → total ts < 2 ^ 31
    → ts ≡ []
empty-Chain a b [] c e h k = refl
empty-Chain a b (t ∷ ts) c e h k = absurd (omega (arith, c.1, Chain-end a b (t ∷ ts) h c))

module _ {P : Type 0} (sent : List ℕ) where
  retransmit-Sends :
      (c : Connection P) (t : TrackedSegment) (rest : List TrackedSegment) (now_ms : ℕ)
      (timeout : Bool)
      → Sends sent c
      → c.unacked ≡ t ∷ rest
      → Sends sent (retransmit c t rest now_ms timeout).0
  unfolding retransmit tracked_end control_len
  retransmit-Sends c t rest now_ms timeout v e =
      let w =
        subst
          (λ u.
            Inv sent c.send_una c.send_nxt c.remote_window c.mss u c.send_queue c.send_progress
              c.state)
          e v in
      elim (Bool-cases (leb c.max_transmissions t.transmissions)) [
        | inl spent ↦ rw (spent, retransmit) v
        | inr more ↦
            rw (more, retransmit)
              (record {
                una_range = w.una_range;
                chain = w.chain;
                window_range = w.window_range;
                mss_pos = w.mss_pos;
                flight = w.flight;
                one_control = w.one_control;
                no_control = w.no_control;
                content = w.content;
                accepted = w.accepted;
                acked_le = w.acked_le;
              })
      ]

  pub retransmit_oldest-Sends :
      (c : Connection P) (now_ms : ℕ) (timeout : Bool)
      → Sends sent c
      → Sends sent (retransmit_oldest c now_ms timeout).0
  unfolding retransmit_oldest
  retransmit_oldest-Sends c now_ms timeout v = elim (List-cases c.unacked) [
    | inl e ↦ rw (e, retransmit_oldest) v
    | inr (t, rest, e) ↦ rw (e, retransmit_oldest) (retransmit-Sends c t rest now_ms timeout v e)
  ]

  pub repair_timed_out_flight-Sends :
      (c : Connection P) (now_ms : ℕ) (config : Config)
      → Sends sent c
      → Sends sent (repair_timed_out_flight c now_ms config).0
  unfolding repair_timed_out_flight
  repair_timed_out_flight-Sends c now_ms config v =
      let again = retransmit_oldest-Sends c now_ms false v in ground (arith, again)

  repeat_ack-Sends :
      (c : Connection P) (now_ms : ℕ) (duplicate : Bool)
      → Sends sent c
      → Sends sent (repeat_ack c now_ms duplicate).0
  unfolding repeat_ack
  repeat_ack-Sends c now_ms duplicate v =
      let c1 : Connection P = record c {
        duplicate_acks = sat_suc8 c.duplicate_acks;
        reno = Reno.on_fast_loss (Reno.on_duplicate_ack c.reno) (in_flight c);
      } in
      let again = retransmit_oldest-Sends c1 now_ms false v in ground (arith, again)

  -- An ACK in the range of the flight.
  pub in_range :
      (c : Connection P) (ack : ℕ)
      → Sends sent c
      → IsU32 ack
      → (after ack c.send_nxt || before ack c.send_una) ≡ false
      → distance c.send_una ack ≤ total c.unacked
  unfolding in_closed_interval
  in_range c ack v k h =
      let near : distance c.send_una c.send_nxt < 2 ^ 31 =
        omega (arith, in_flight-eq v, total-lt v) in
      let inside : in_closed_interval ack c.send_una c.send_nxt ≡ true = ground arith in
      omega (
        arith,
        in_flight-eq v,
        (in_closed_interval_iff ack c.send_una c.send_nxt k v.una_range (nxt_range v) near).0
            inside,
      )

  advance_ack-Sends :
      (c : Connection P) (ack now_ms : ℕ)
      → Sends sent c
      → IsU32 ack
      → distance c.send_una ack ≤ total c.unacked
      → Sends sent (advance_ack c ack now_ms).0
  unfolding advance_ack Marker.acknowledge
  advance_ack-Sends c ack now_ms v k h =
      let start : Popped = record {
        rest = c.unacked;
        acked_payload = 0;
        fin_acked = false;
        rtt_sample = none;
      } in
      let popped =
        pop_acked-Acked c.rtt c.send_una ack now_ms c.send_nxt c.unacked start refl v.una_range k
          (omega (arith, total-lt v)) h v.chain in
      let n = popped.0 in
      let w = popped.2 in
      let e : Popped.acked_payload (pop_acked c.rtt ack now_ms c.unacked start)
            + trimmed ack (Popped.rest (pop_acked c.rtt ack now_ms c.unacked start))
          ≡ n =
        omega (arith, popped.1) in
      subst
        (λ m.
          Inv sent ack c.send_nxt c.remote_window c.mss
            (trim_front ack (Popped.rest (pop_acked c.rtt ack now_ms c.unacked start))) c.send_queue
            (Marker.acknowledge c.send_progress m) c.state)
        (sym e)
        (Acked-Inv sent c.send_una c.send_nxt c.remote_window c.mss ack n c.unacked _ c.send_queue
          c.send_progress c.state v k w)

  -- `apply_ack` of any acknowledgement number, old, new, partial or beyond what was sent, keeps
  -- the sender's invariant: bytes leave the flight exactly as they are counted as acknowledged.
  pub apply_ack-Sends :
      (c : Connection P) (ack now_ms : ℕ) (duplicate : Bool)
      → Sends sent c
      → IsU32 ack
      → Sends sent (apply_ack c ack now_ms duplicate).0
  unfolding apply_ack
  apply_ack-Sends c ack now_ms duplicate v k =
      elim (Bool-cases (after ack c.send_nxt || before ack c.send_una)) [
        | inl outside ↦ rw (outside, apply_ack) v
        | inr inside ↦ elim (Bool-cases (ack == c.send_una)) [
          | inl same ↦ rw (inside, same, apply_ack) (repeat_ack-Sends c now_ms duplicate v)
          | inr other ↦
              rw (inside, other, apply_ack)
                (advance_ack-Sends c ack now_ms v k (in_range c ack v k inside))
        ]
      ]

  send_una-apply_ack :
      (c : Connection P) (now_ms : ℕ)
      → Sends sent c
      → let c' = (apply_ack c c.send_nxt now_ms false).0 in
        (c'.send_una ≡ c.send_nxt) × (c'.send_nxt ≡ c.send_nxt) × (c'.state ≡ c.state)
  unfolding apply_ack repeat_ack advance_ack after before distance
  send_una-apply_ack c now_ms v =
      ground (arith, in_flight-eq v, total-lt v, nxt_range v, v.una_range)

  pub unacked-apply_ack_all :
      (c : Connection P) (now_ms : ℕ)
      → Sends sent c
      → (apply_ack c c.send_nxt now_ms false).0.unacked ≡ []
  unacked-apply_ack_all c now_ms v =
      let w = apply_ack-Sends c c.send_nxt now_ms false v (nxt_range v) in
      let e = send_una-apply_ack c now_ms v in
      empty-Chain _ _ _ w.chain (e.0 ∙ sym e.1) w.una_range (omega (arith, total-lt w))
