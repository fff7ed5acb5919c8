-- ===== src/Connection/States.antt =====
-- The states of a connection as a step relation: the arrows of the TCP state diagram.
pub mod History
use fips_tcp.Common.{
  Bool, Bool-cases, List, List-cases, Option-cases, ap, arith, false, inl, inr, length, refl,
  retain, sat_suc8, subst, suc, sym, true, wrapping_add, zero, ℕ, ◌<◌, ◌∙◌, ◌≡◌, ◌⊎◌,
}
use fips_tcp.Types.{
  Config, State, StackError, close_wait, closing, established, fin_wait_1, fin_wait_2, last_ack,
  syn_received, syn_sent, time_wait, state_eq,
}
use fips_tcp.Wire.{
  Segment, contains, fin_flag, syn_flag, rst_flag, ack_flag, value_or, fips_version_number,
  supports_fips_version,
}
use fips_tcp.Seq.{after, before, in_closed_interval}
use fips_tcp.Segments.{TrackedSegment, ReassemblySegment, is_duplicate_ack_candidate, option_eq}
use fips_tcp.Reno
use fips_tcp.Connection.{Connection, option_list, in_flight}
use fips_tcp.Connection.Send
use fips_tcp.Connection.Send.{
  sends_data, can_send, send_fin, send_round, send_rounds, send_tracked, can_finish, fin_state,
  flush_data, negotiate_mss, update_remote_window,
}
use fips_tcp.Connection.Ack.{
  apply_ack, advance_ack, repeat_ack, repair_timed_out_flight, retransmit_oldest, retransmit,
}
use fips_tcp.Connection.Receive.{
  receive_stream_data, accept_segment, drain_rounds, enter_time_wait, is_pending, is_ready,
  on_remote_fin, remove_first, take_bytes, trim_received, drain_reassembly, insert_chunk,
  insert_received, received_chunk,
}
use fips_tcp.Connection.Input.{
  on_ack, on_segment, after_ack, finish, on_fin_acked, on_syn_received, on_syn_sent, receive_if,
  repair_if, on_synchronized, has_stream_data,
}

-- Our end closes (`closes_first`, `closes_second`), the peer's FIN arrives (`hears_fin`,
-- `fins_cross`, `hears_last_fin`), or our FIN is acknowledged.
pub data Transition : State → State → Type 0 where
  syn_answered : Transition syn_sent established
  syn_acked : Transition syn_received established
  closes_first : Transition established fin_wait_1
  hears_fin : Transition established close_wait
  closes_second : Transition close_wait last_ack
  fin_is_acked : Transition fin_wait_1 fin_wait_2
  fins_cross : Transition fin_wait_1 closing
  hears_last_fin : Transition fin_wait_2 time_wait
  crossed_fin_is_acked : Transition closing time_wait

-- Any number of transitions.
pub data Reaches : State → State → Type 0 where
  stays : {a b : State} → a ≡ b → Reaches a b
  moves : {a b c : State} → Transition a b → Reaches b c → Reaches a c

pub Reaches-then : {a b c : State} → Reaches a b → Reaches b c → Reaches a c
Reaches-then {c} (stays e) r = subst (λ x. Reaches x c) (sym e) r
Reaches-then (moves t q) r = moves t (Reaches-then q r)

-- How far a connection has come.
abbrev pub rank : State → ℕ
rank syn_sent = 0
rank syn_received = 0
rank established = 1
rank fin_wait_1 = 2
rank close_wait = 2
rank fin_wait_2 = 3
rank closing = 3
rank last_ack = 3
rank time_wait = 4

rank-Transition : {a b : State} → Transition a b → rank a < rank b
rank-Transition syn_answered = omega arith
rank-Transition syn_acked = omega arith
rank-Transition closes_first = omega arith
rank-Transition hears_fin = omega arith
rank-Transition closes_second = omega arith
rank-Transition fin_is_acked = omega arith
rank-Transition fins_cross = omega arith
rank-Transition hears_last_fin = omega arith
rank-Transition crossed_fin_is_acked = omega arith

-- A state that is left is not entered again.
pub rank-Reaches : {a b : State} → Reaches a b → (a ≡ b) ⊎ (rank a < rank b)
rank-Reaches (stays e) = inl e
rank-Reaches (moves {a} {b} {c} t q) = inr (further a b c (rank-Transition t) (rank-Reaches q))
  where
    further : (a b c : State) → rank a < rank b → (b ≡ c) ⊎ (rank b < rank c) → rank a < rank c
    further a b c h (inl e) = subst (λ x. rank a < rank x) e h
    further a b c h (inr k) = omega (arith, h, k)

fin_state-Reaches : (st : State) → sends_data st ≡ true → Reaches st (fin_state st)
fin_state-Reaches established h = moves closes_first (stays refl)
fin_state-Reaches close_wait h = moves closes_second (stays refl)
fin_state-Reaches syn_sent h = absurd (ground (arith, h))
fin_state-Reaches syn_received h = absurd (ground (arith, h))
fin_state-Reaches fin_wait_1 h = absurd (ground (arith, h))
fin_state-Reaches fin_wait_2 h = absurd (ground (arith, h))
fin_state-Reaches closing h = absurd (ground (arith, h))
fin_state-Reaches last_ack h = absurd (ground (arith, h))
fin_state-Reaches time_wait h = absurd (ground (arith, h))

module _ {P : Type 0} where
  pub state-send_rounds :
      (fuel : ℕ) (c : Connection P) (now_ms : ℕ) → (send_rounds fuel c now_ms).0.state ≡ c.state
  unfolding send_rounds send_round send_tracked
  state-send_rounds zero c now_ms = refl
  state-send_rounds (suc fuel) c now_ms = elim (Bool-cases (can_send c)) [
    | inl more ↦ rw (more, send_rounds) (state-send_rounds fuel (send_round c now_ms).0 now_ms)
    | inr done ↦ rw (done, send_rounds) refl
  ]

  send_fin-Reaches :
      (c : Connection P) (now_ms : ℕ)
      → sends_data c.state ≡ true
      → Reaches c.state (send_fin c now_ms).0.state
  unfolding send_fin send_tracked
  send_fin-Reaches c now_ms h = elim (Bool-cases (can_finish c)) [
    | inl go ↦ rw (go, send_fin) (fin_state-Reaches c.state h)
    | inr stay ↦ rw (stay, send_fin) (stays refl)
  ]

  pub flush_data-Reaches :
      (c : Connection P) (now_ms : ℕ) → Reaches c.state (flush_data c now_ms).0.state
  unfolding flush_data
  flush_data-Reaches c now_ms = elim (Bool-cases (sends_data c.state)) [
    | inr quiet ↦ rw (quiet, flush_data) (stays refl)
    | inl going ↦
        let same = state-send_rounds (length c.send_queue) c now_ms in
        rw (going, flush_data)
          (Reaches-then (stays (sym same)) (
            send_fin-Reaches (send_rounds (length c.send_queue) c now_ms).0 now_ms
              (ap sends_data same ∙ going)))
  ]

  on_remote_fin_at :
      (st : State) (c : Connection P) (now_ms : ℕ) (config : Config)
      → c.state ≡ st
      → Reaches st (on_remote_fin c now_ms config).state
  unfolding on_remote_fin enter_time_wait
  on_remote_fin_at established c now_ms config e =
      rw (e, on_remote_fin) (moves hears_fin (stays refl))
  on_remote_fin_at fin_wait_1 c now_ms config e =
      rw (e, on_remote_fin) (moves fins_cross (stays refl))
  on_remote_fin_at fin_wait_2 c now_ms config e =
      rw (e, on_remote_fin) (moves hears_last_fin (stays refl))
  on_remote_fin_at syn_sent c now_ms config e = rw (e, on_remote_fin) (stays (sym e))
  on_remote_fin_at syn_received c now_ms config e = rw (e, on_remote_fin) (stays (sym e))
  on_remote_fin_at close_wait c now_ms config e = rw (e, on_remote_fin) (stays (sym e))
  on_remote_fin_at closing c now_ms config e = rw (e, on_remote_fin) (stays (sym e))
  on_remote_fin_at last_ack c now_ms config e = rw (e, on_remote_fin) (stays (sym e))
  on_remote_fin_at time_wait c now_ms config e = rw (e, on_remote_fin) (stays (sym e))

  accept_segment-Reaches :
      (c : Connection P) (r : ReassemblySegment) (now_ms : ℕ) (config : Config)
      → Reaches c.state (accept_segment c r now_ms config).0.state
  unfolding accept_segment take_bytes
  accept_segment-Reaches c r now_ms config =
      let c' = record (take_bytes c r config) {
        recv_nxt = wrapping_add (take_bytes c r config).recv_nxt 1;
      } in
      let fin = on_remote_fin_at c.state c' now_ms config refl in
      let same : Reaches c.state c.state = stays refl in ground (arith, fin, same)

  drain_rounds-Reaches :
      (fuel : ℕ) (c : Connection P) (now_ms : ℕ) (config : Config)
      → Reaches c.state (drain_rounds fuel c now_ms config).state
  unfolding drain_rounds
  drain_rounds-Reaches zero c now_ms config = stays refl
  drain_rounds-Reaches (suc fuel) c now_ms config =
      elim (Option-cases
        (remove_first (is_ready c.recv_nxt) (retain (is_pending c.recv_nxt) c.reassembly))) [
          | inl e ↦ rw (e, drain_rounds) (stays refl)
          | inr ((r, rest), e) ↦
              let c' = record c { reassembly = rest } in
              let r' = trim_received c.recv_nxt r in
              let w = accept_segment-Reaches c' r' now_ms config in
              elim (Bool-cases (accept_segment c' r' now_ms config).1) [
                | inl more ↦
                    rw (e, more, drain_rounds)
                      (Reaches-then w (drain_rounds-Reaches fuel _ now_ms config))
                | inr last ↦ rw (e, last, drain_rounds) w
              ]
        ]

  state-insert_received :
      (c : Connection P) (seq : ℕ) (payload : List ℕ) (fin : Bool) (config : Config)
      → (insert_received c seq payload fin config).state ≡ c.state
  unfolding insert_received insert_chunk
  state-insert_received c seq payload fin config =
      elim (Option-cases (received_chunk c seq payload fin)) [
        | inl e ↦ rw (e, insert_received) refl
        | inr (chunk, e) ↦ rw (e, insert_received) (ground arith)
      ]

  pub receive_stream_data-Reaches :
      (c : Connection P) (s : Segment) (now_ms : ℕ) (config : Config)
      → Reaches c.state (receive_stream_data c s now_ms config).0.state
  unfolding receive_stream_data drain_reassembly
  receive_stream_data-Reaches c s now_ms config =
      Reaches-then
        (stays (sym (state-insert_received c s.seq s.payload (contains s.flags fin_flag) config)))
        (drain_rounds-Reaches _ _ now_ms config)

  pub state-retransmit_oldest :
      (c : Connection P) (now_ms : ℕ) (timeout : Bool)
      → (retransmit_oldest c now_ms timeout).0.state ≡ c.state
  unfolding retransmit_oldest retransmit
  state-retransmit_oldest c now_ms timeout = elim (List-cases c.unacked) [
    | inl e ↦ rw (e, retransmit_oldest) refl
    | inr (t, rest, e) ↦ rw (e, retransmit_oldest) (ground arith)
  ]

  pub state-repair_timed_out_flight :
      (c : Connection P) (now_ms : ℕ) (config : Config)
      → (repair_timed_out_flight c now_ms config).0.state ≡ c.state
  unfolding repair_timed_out_flight
  state-repair_timed_out_flight c now_ms config =
      ground (arith, state-retransmit_oldest c now_ms false)

  pub state-apply_ack :
      (c : Connection P) (ack now_ms : ℕ) (duplicate : Bool)
      → (apply_ack c ack now_ms duplicate).0.state ≡ c.state
  unfolding apply_ack repeat_ack advance_ack
  state-apply_ack c ack now_ms duplicate = ground (
    arith,
    state-retransmit_oldest
        (record c {
          duplicate_acks = sat_suc8 c.duplicate_acks;
          reno = Reno.on_fast_loss (Reno.on_duplicate_ack c.reno) (in_flight c);
        })
        now_ms false,
  )

  pub state-update_remote_window :
      (c : Connection P) (window now_ms : ℕ)
      → (update_remote_window c window now_ms).state ≡ c.state
  unfolding update_remote_window
  state-update_remote_window c window now_ms = ground arith
