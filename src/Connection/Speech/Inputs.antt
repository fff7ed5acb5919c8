-- ===== src/Connection/Speech/Inputs.antt =====
-- What a connection says: the segments that arrive.
use fips_tcp.Common.{
  All-append, Bool, Bool-cases, List, Option-cases, [], ap, arith, false, if◌then◌else◌, inl, inr,
  refl, retain, suc, true, wrapping_add, zero, ℕ, ◌∙◌, ◌∷◌, ◌≡◌,
}
use fips_tcp.Types.{
  Config, State, close_wait, closing, established, fin_wait_1, fin_wait_2, last_ack, syn_received,
  syn_sent, time_wait,
}
use fips_tcp.Wire.{Segment, contains, fin_flag, syn_flag, ack_flag}
use fips_tcp.Segments.{ReassemblySegment, build_segment}
use fips_tcp.Connection.{Connection, ack_segment}
use fips_tcp.Connection.Send.{negotiate_mss, update_remote_window, flush_data}
use fips_tcp.Connection.Receive.{
  receive_stream_data, accept_segment, drain_rounds, enter_time_wait, is_pending, is_ready,
  on_remote_fin, remove_first, take_bytes, trim_received, drain_reassembly, insert_chunk,
  insert_received, received_chunk,
}
use fips_tcp.Connection.Input.{finish, on_fin_acked, receive_if, has_stream_data}
use fips_tcp.Connection.Speech.{
  finished, Says, Speaks, Tells, Tells-then, state-Speech, All-Says-Later,
}
use fips_tcp.Connection.Speech.Data.{flush_data-Tells}

ack_flags : (contains ack_flag syn_flag ≡ false) × (contains ack_flag fin_flag ≡ false)
unfolding contains
ack_flags = (refl, refl)

pub ack_segment-Says :
    {P : Type 0} (base : ℕ) (sent : List ℕ) (done : Bool) (c : Connection P)
    → Says base sent done (ack_segment c)
unfolding ack_segment build_segment
ack_segment-Says base sent done c = rw (ack_flags.0, ack_flags.1) (0, inl (refl, refl, tt))

module _ {P : Type 0} (base : ℕ) (sent : List ℕ) where
  -- The connection says nothing, and the FIN is sent or not as before.
  abbrev pub Keeps : Bool → Connection P → Type 0
  Keeps done c = Speaks base sent c × (finished c.state ≡ done)

  on_remote_fin_at :
      (st : State) (c : Connection P) (now_ms : ℕ) (config : Config)
      → Speaks base sent c
      → c.state ≡ st
      → Keeps (finished st) (on_remote_fin c now_ms config)
  unfolding on_remote_fin enter_time_wait
  on_remote_fin_at established c now_ms config v e =
      rw (e, on_remote_fin) (state-Speech base sent close_wait v (ap finished e), refl)
  on_remote_fin_at fin_wait_1 c now_ms config v e =
      rw (e, on_remote_fin) (state-Speech base sent closing v (ap finished e), refl)
  on_remote_fin_at fin_wait_2 c now_ms config v e =
      rw (e, on_remote_fin) (state-Speech base sent time_wait v (ap finished e), refl)
  on_remote_fin_at syn_sent c now_ms config v e = rw (e, on_remote_fin) (v, ap finished e)
  on_remote_fin_at syn_received c now_ms config v e = rw (e, on_remote_fin) (v, ap finished e)
  on_remote_fin_at close_wait c now_ms config v e = rw (e, on_remote_fin) (v, ap finished e)
  on_remote_fin_at closing c now_ms config v e = rw (e, on_remote_fin) (v, ap finished e)
  on_remote_fin_at last_ack c now_ms config v e = rw (e, on_remote_fin) (v, ap finished e)
  on_remote_fin_at time_wait c now_ms config v e = rw (e, on_remote_fin) (v, ap finished e)

  on_remote_fin-Keeps :
      (done : Bool) (c : Connection P) (now_ms : ℕ) (config : Config)
      → Keeps done c
      → Keeps done (on_remote_fin c now_ms config)
  on_remote_fin-Keeps done c now_ms config (v, e) =
      let (w, f) = on_remote_fin_at c.state c now_ms config v refl in (w, f ∙ e)

  accept_segment-Keeps :
      (done : Bool) (c : Connection P) (r : ReassemblySegment) (now_ms : ℕ) (config : Config)
      → Keeps done c
      → Keeps done (accept_segment c r now_ms config).0
  unfolding accept_segment take_bytes
  accept_segment-Keeps done c r now_ms config v =
      let fin =
        on_remote_fin-Keeps done
          (record (take_bytes c r config) {
            recv_nxt = wrapping_add (take_bytes c r config).recv_nxt 1;
          })
          now_ms config v in
      ground (arith, fin, v)

  drain_rounds-Keeps :
      (done : Bool) (fuel : ℕ) (c : Connection P) (now_ms : ℕ) (config : Config)
      → Keeps done c
      → Keeps done (drain_rounds fuel c now_ms config)
  unfolding drain_rounds
  drain_rounds-Keeps done zero c now_ms config v = v
  drain_rounds-Keeps done (suc fuel) c now_ms config v =
      elim (Option-cases
        (remove_first (is_ready c.recv_nxt) (retain (is_pending c.recv_nxt) c.reassembly))) [
          | inl e ↦ rw (e, drain_rounds) v
          | inr ((r, rest), e) ↦
              let c' = record c { reassembly = rest } in
              let r' = trim_received c.recv_nxt r in
              let w = accept_segment-Keeps done c' r' now_ms config v in
              elim (Bool-cases (accept_segment c' r' now_ms config).1) [
                | inl more ↦
                    rw (e, more, drain_rounds) (drain_rounds-Keeps done fuel _ now_ms config w)
                | inr last ↦ rw (e, last, drain_rounds) w
              ]
        ]

  insert_received-Keeps :
      (done : Bool) (c : Connection P) (seq : ℕ) (payload : List ℕ) (fin : Bool) (config : Config)
      → Keeps done c
      → Keeps done (insert_received c seq payload fin config)
  unfolding insert_received insert_chunk
  insert_received-Keeps done c seq payload fin config v =
      elim (Option-cases (received_chunk c seq payload fin)) [
        | inl e ↦ rw (e, insert_received) v
        | inr (chunk, e) ↦ rw (e, insert_received) (ground (arith, v))
      ]

  receive_stream_data-Keeps :
      (done : Bool) (c : Connection P) (s : Segment) (now_ms : ℕ) (config : Config)
      → Keeps done c
      → Keeps done (receive_stream_data c s now_ms config).0
  unfolding receive_stream_data drain_reassembly
  receive_stream_data-Keeps done c s now_ms config v =
      drain_rounds-Keeps done _ _ now_ms config
        (insert_received-Keeps done c s.seq s.payload (contains s.flags fin_flag) config v)

  pub update_remote_window-Keeps :
      (done : Bool) (c : Connection P) (window now_ms : ℕ)
      → Keeps done c
      → Keeps done (update_remote_window c window now_ms)
  unfolding update_remote_window
  update_remote_window-Keeps done c window now_ms v = ground (arith, v)

  pub negotiate_mss-Keeps :
      (done : Bool) (c : Connection P) (s : Segment) (config : Config)
      → Keeps done c
      → Keeps done (negotiate_mss c s config)
  unfolding negotiate_mss
  negotiate_mss-Keeps done c s config v = v

  on_fin_acked_at :
      (st : State) (c : Connection P) (now_ms : ℕ) (config : Config)
      → Speaks base sent c
      → c.state ≡ st
      → Keeps (finished st) (on_fin_acked c now_ms config)
  unfolding on_fin_acked enter_time_wait
  on_fin_acked_at fin_wait_1 c now_ms config v e =
      rw (e, on_fin_acked) (state-Speech base sent fin_wait_2 v (ap finished e), refl)
  on_fin_acked_at closing c now_ms config v e =
      rw (e, on_fin_acked) (state-Speech base sent time_wait v (ap finished e), refl)
  on_fin_acked_at _ c now_ms config v e = rw (e, on_fin_acked) (v, ap finished e)

  pub fin_acked_if :
      (b done : Bool) (c : Connection P) (now_ms : ℕ) (config : Config)
      → Keeps done c
      → Keeps done (if b then on_fin_acked c now_ms config else c)
  fin_acked_if true done c now_ms config (v, e) =
      let (w, f) = on_fin_acked_at c.state c now_ms config v refl in (w, f ∙ e)
  fin_acked_if false done c now_ms config v = v

  pub window_if :
      (b done : Bool) (c : Connection P) (window now_ms : ℕ)
      → Keeps done c
      → Keeps done (if b then update_remote_window c window now_ms else c)
  window_if true done c window now_ms v = update_remote_window-Keeps done c window now_ms v
  window_if false done c window now_ms v = v

  -- The segments so far, and those of the next step.
  receive_if-Tells :
      (st : State) (c : Connection P) (s : Segment) (output : List Segment) (now_ms : ℕ)
      (config : Config)
      → Tells base sent st (c, output)
      → Tells base sent st (receive_if c s output now_ms config)
  unfolding receive_if receive_stream_data
  receive_if-Tells st c s output now_ms config (v, o, l) = elim (Bool-cases (has_stream_data s)) [
    | inr none_in ↦ rw (none_in, receive_if) (v, o, l)
    | inl data_in ↦
        let d = (receive_stream_data c s now_ms config).0 in
        let (w, e) = receive_stream_data-Keeps (finished c.state) c s now_ms config (v, refl) in
        rw (data_in, receive_if)
          (
            w,
            All-append (Says base sent (finished d.state)) output (ack_segment d ∷ [])
                (All-Says-Later base sent (finished c.state) (finished d.state) output (λ f. e ∙ f)
                  o)
                (ack_segment-Says base sent (finished d.state) d, tt),
            λ f. e ∙ l f,
          )
  ]

  pub finish-Tells :
      (st : State) (c : Connection P) (s : Segment) (output : List Segment) (now_ms : ℕ)
      (config : Config)
      → Tells base sent st (c, output)
      → Tells base sent st (finish c s output now_ms config)
  unfolding finish
  finish-Tells st c s output now_ms config v =
      let r = receive_if c s output now_ms config in
      let w = receive_if-Tells st c s output now_ms config v in
      Tells-then base sent st r (flush_data r.0 now_ms) w
        (flush_data-Tells base sent r.0 now_ms w.0)
