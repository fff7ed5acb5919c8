-- ===== src/Connection/Speech/Segments.antt =====
-- What a connection says: `on_segment`.
use fips_tcp.Common.{
  All, Bool, Bool-cases, IsU32, List, Option-cases, [], ap, arith, false, if◌then◌else◌, inl, inr,
  ltb, not, refl, subst, sym, u16_max, wrapping_add, ℕ, ◌&&◌, ◌==◌, ◌∙◌, ◌≡◌, ◌≤◌,
}
use fips_tcp.Types.{Config, State, established, last_ack, syn_received, syn_sent, state_eq}
use fips_tcp.Wire.{
  Segment, contains, syn_flag, rst_flag, ack_flag, value_or, fips_version_number,
  supports_fips_version,
}
use fips_tcp.Seq.{after, in_closed_interval, distance}
use fips_tcp.Segments.{is_duplicate_ack_candidate, option_eq}
use fips_tcp.Connection.{Connection, option_list, available_window, Update}
use fips_tcp.Connection.Send.{negotiate_mss, update_remote_window}
use fips_tcp.Connection.Ack.{apply_ack, repair_timed_out_flight, retransmit_oldest}
use fips_tcp.Connection.Input.{
  on_ack, on_segment, after_ack, on_fin_acked, on_syn_received, on_syn_sent, repair_if,
  on_synchronized, on_reset,
}
use fips_tcp.Connection.Sender.{Sends, nxt_range}
use fips_tcp.Connection.Sender.Inputs.{update_remote_window-Sends, negotiate_mss-Sends}
use fips_tcp.Connection.Speech.{
  finished, Says, Speaks, Tells, Tells-then, state-Speech, All-Says-Later,
}
use fips_tcp.Connection.Speech.Acks.{
  apply_ack-Tells, retransmit_oldest-Tells, repair_timed_out_flight-Tells,
}
use fips_tcp.Connection.Speech.Inputs.{
  ack_segment-Says, update_remote_window-Keeps, negotiate_mss-Keeps, fin_acked_if, window_if,
  finish-Tells,
}

module _ {P : Type 0} (base : ℕ) (sent : List ℕ) where
  -- From a state on: the connection and its update.
  abbrev pub Updates : State → Connection P × Update → Type 0
  Updates st r = Tells base sent st (r.0, r.1.segments)

  on_reset-Updates :
      (c : Connection P) (s : Segment) → Speaks base sent c → Updates c.state (c, on_reset c s)
  unfolding on_reset
  on_reset-Updates c s v =
      let a = ack_segment-Says base sent (finished c.state) c in
      elim (Bool-cases (state_eq c.state syn_sent)) [
        | inl e ↦ rw (e, on_reset) (v, tt, λ f. f)
        | inr e ↦ elim (Bool-cases (s.seq == c.recv_nxt)) [
          | inl k ↦ rw (e, k, on_reset) (v, tt, λ f. f)
          | inr k ↦
              elim (Bool-cases (
                ltb 0 (available_window c)
                && ltb (distance c.recv_nxt s.seq) (available_window c))) [
                  | inl i ↦ rw (e, k, i, on_reset) (v, (a, tt), λ f. f)
                  | inr i ↦ rw (e, k, i, on_reset) (v, tt, λ f. f)
                ]
        ]
      ]

  on_syn_sent-Updates :
      (c : Connection P) (s : Segment) (now_ms : ℕ) (config : Config)
      → Sends sent c
      → Speaks base sent c
      → c.state ≡ syn_sent
      → s.window ≤ u16_max
      → Updates c.state (on_syn_sent c s now_ms config)
  unfolding on_syn_sent
  on_syn_sent-Updates c s now_ms config v w st h =
      elim (Bool-cases (
        contains s.flags syn_flag
        && (contains s.flags ack_flag
            && (option_eq s.ack c.send_nxt && supports_fips_version s fips_version_number)))) [
              | inr other ↦ rw (other, on_syn_sent) (w, tt, λ f. f)
              | inl answer ↦
                  let c0 = update_remote_window c s.window now_ms in
                  let c1 = negotiate_mss c0 s config in
                  let v1 =
                    negotiate_mss-Sends sent c0 s config
                      (update_remote_window-Sends sent c s.window now_ms v h) in
                  let (w1, e1) = negotiate_mss-Keeps base sent (finished c.state) c0 s config (
                    update_remote_window-Keeps base sent (finished c.state) c s.window now_ms
                      (w, refl)) in
                  let (w2, out, e2) =
                    apply_ack-Tells base sent c1 c1.send_nxt now_ms false v1 w1 (nxt_range v1) in
                  let begun = ap finished st in
                  let c2 = (apply_ack c1 c1.send_nxt now_ms false).0 in
                  let k : finished c2.state ≡ false = ap finished e2 ∙ e1 ∙ begun in
                  let c3 : Connection P = record c2 {
                    recv_nxt = wrapping_add s.seq 1;
                    state = established;
                  } in
                  rw (answer, on_syn_sent)
                    (
                      state-Speech base sent established w2 k,
                      (ack_segment-Says base sent false c3, tt),
                      λ f. absurd (ground (arith, f, begun)),
                    )
            ]

  on_syn_received-Updates :
      (c : Connection P) (s : Segment) (now_ms : ℕ) (config : Config)
      → Sends sent c
      → Speaks base sent c
      → c.state ≡ syn_received
      → Updates c.state (on_syn_received c s now_ms config)
  unfolding on_syn_received
  on_syn_received-Updates c s now_ms config v w st =
      elim (Bool-cases (
        contains s.flags syn_flag
        && (not (contains s.flags ack_flag) && wrapping_add s.seq 1 == c.recv_nxt))) [
          | inl again ↦
              let r = retransmit_oldest c now_ms false in
              let (w', out, e) = retransmit_oldest-Tells base sent c now_ms false w in
              rw (again, on_syn_received)
                (
                  w',
                  subst (λ x. All (Says base sent (finished x)) (option_list r.1)) (sym e) out,
                  λ f. ap finished e ∙ f,
                )
          | inr other ↦ elim (Bool-cases (not (option_eq s.ack c.send_nxt))) [
            | inl stay ↦ rw (other, stay, on_syn_received) (w, tt, λ f. f)
            | inr go ↦
                let begun = ap finished st in
                let c1 = (apply_ack c c.send_nxt now_ms false).0 in
                let (w1, out, e1) =
                  apply_ack-Tells base sent c c.send_nxt now_ms false v w (nxt_range v) in
                let (w2, e2) =
                  update_remote_window-Keeps base sent (finished c1.state) c1 s.window now_ms
                    (w1, refl) in
                let k = e2 ∙ ap finished e1 ∙ begun in
                rw (other, go, on_syn_received)
                  (finish-Tells base sent c.state
                    (record (update_remote_window c1 s.window now_ms) { state = established }) s []
                    now_ms config
                    (
                      state-Speech base sent established w2 k,
                      tt,
                      λ f. absurd (ground (arith, f, begun)),
                    ))
          ]
        ]

  after_ack-Tells :
      (st : State) (c : Connection P) (ack : ℕ) (s : Segment) (una : ℕ) (fin_acked : Bool)
      (output : List Segment) (now_ms : ℕ) (config : Config)
      → Tells base sent st (c, output)
      → Tells base sent st (after_ack c ack s una fin_acked output now_ms config)
  unfolding after_ack repair_if
  after_ack-Tells st c ack s una fin_acked output now_ms config (w, out, l) =
      let c2 = if fin_acked then on_fin_acked c now_ms config else c in
      let k2 = fin_acked_if base sent fin_acked (finished c.state) c now_ms config (w, refl) in
      let inside = in_closed_interval ack c2.send_una c2.send_nxt in
      let c3 = if inside then update_remote_window c2 s.window now_ms else c2 in
      let (w3, e3) = window_if base sent inside (finished c.state) c2 s.window now_ms k2 in
      let out3 : All (Says base sent (finished c3.state)) output =
        All-Says-Later base sent (finished c.state) (finished c3.state) output (λ f. e3 ∙ f) out in
      elim (Bool-cases (after c3.send_una una)) [
        | inr same ↦ rw (same, after_ack) (w3, out3, λ f. e3 ∙ l f)
        | inl advanced ↦
            let r = repair_timed_out_flight c3 now_ms config in
            let (w4, out4, e4) = repair_timed_out_flight-Tells base sent c3 now_ms config w3 in
            rw (advanced, after_ack)
              (Tells-then base sent st (c3, output) (r.0, option_list r.1) (w3, out3, λ f. e3 ∙ l f)
                (
                  w4,
                  subst (λ x. All (Says base sent (finished x)) (option_list r.1)) (sym e4) out4,
                  λ f. ap finished e4 ∙ f,
                ))
      ]

  on_ack-Updates :
      (c : Connection P) (ack : ℕ) (s : Segment) (now_ms : ℕ) (config : Config)
      → Sends sent c
      → Speaks base sent c
      → IsU32 ack
      → Updates c.state (on_ack c ack s now_ms config)
  unfolding on_ack
  on_ack-Updates c ack s now_ms config v w k =
      let duplicate = is_duplicate_ack_candidate s c.send_una c.remote_window in
      let r = apply_ack c ack now_ms duplicate in
      let (w1, out, e) = apply_ack-Tells base sent c ack now_ms duplicate v w k in
      let fin = r.1.fin_acked in
      let output = option_list r.1.retransmit in
      let t1 : Tells base sent c.state (r.0, output) = (
        w1,
        subst (λ x. All (Says base sent (finished x)) output) (sym e) out,
        λ f. ap finished e ∙ f,
      ) in
      elim (Bool-cases (fin && state_eq r.0.state last_ack)) [
        | inl last ↦ rw (last, on_ack) t1
        | inr more ↦
            let a = after_ack r.0 ack s c.send_una fin output now_ms config in
            rw (more, on_ack)
              (finish-Tells base sent c.state a.0 s a.1 now_ms config
                (after_ack-Tells c.state r.0 ack s c.send_una fin output now_ms config t1))
      ]

  on_synchronized-Updates :
      (c : Connection P) (s : Segment) (now_ms : ℕ) (config : Config)
      → Sends sent c
      → Speaks base sent c
      → IsU32 (value_or s.ack 0)
      → Updates c.state (on_synchronized c s now_ms config)
  unfolding on_synchronized
  on_synchronized-Updates c s now_ms config v w k = elim (Option-cases s.ack) [
    | inl e ↦
        rw (e, on_synchronized)
          (finish-Tells base sent c.state c s [] now_ms config (w, tt, λ f. f))
    | inr (ack, e) ↦ rw (e, on_synchronized) (on_ack-Updates c ack s now_ms config v w (rw e at k))
  ]

  on_open_at :
      (st : State) (c : Connection P) (s : Segment) (now_ms : ℕ) (config : Config)
      → Sends sent c
      → Speaks base sent c
      → IsU32 (value_or s.ack 0)
      → s.window ≤ u16_max
      → c.state ≡ st
      → contains s.flags rst_flag ≡ false
      → Updates st (on_segment c s now_ms config)
  unfolding on_segment
  on_open_at syn_sent c s now_ms config v w k h e n =
      rw (n, e, on_segment)
        (subst (λ x. Updates x (on_syn_sent c s now_ms config)) e
          (on_syn_sent-Updates c s now_ms config v w e h))
  on_open_at syn_received c s now_ms config v w k h e n =
      rw (n, e, on_segment)
        (subst (λ x. Updates x (on_syn_received c s now_ms config)) e
          (on_syn_received-Updates c s now_ms config v w e))
  on_open_at _ c s now_ms config v w k h e n =
      rw (n, e, on_segment)
        (subst (λ x. Updates x (on_synchronized c s now_ms config)) e
          (on_synchronized-Updates c s now_ms config v w k))

  pub on_segment-Updates :
      (c : Connection P) (s : Segment) (now_ms : ℕ) (config : Config)
      → Sends sent c
      → Speaks base sent c
      → IsU32 (value_or s.ack 0)
      → s.window ≤ u16_max
      → Updates c.state (on_segment c s now_ms config)
  unfolding on_segment
  on_segment-Updates c s now_ms config v w k h = elim (Bool-cases (contains s.flags rst_flag)) [
    | inl reset ↦ rw (reset, on_segment) (on_reset-Updates c s w)
    | inr other ↦ on_open_at c.state c s now_ms config v w k h refl other
  ]
