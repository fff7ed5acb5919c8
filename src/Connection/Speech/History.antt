-- ===== src/Connection/Speech/History.antt =====
-- What a connection says in a history, from its creation on.
use fips_tcp.Common.{
  All, All-append, List, Result, Yields, [], ap, append-nil, append_assoc, arith, err, false, inl,
  inr, ok, refl, subst, take, true, wrapping_add, ℕ, ◌++◌, ◌∙◌, ◌∷◌, ◌≡◌, ◌⊎◌,
}
use fips_tcp.Types.{Config, StackError, syn_received, syn_sent}
use fips_tcp.Wire.{Segment, contains, syn_flag, fin_flag, flag_len}
use fips_tcp.Segments.{syn_ack, tracked_end, build_segment}
use fips_tcp.Marker.{SendProgress}
use fips_tcp.Connection.{Connection, new, segment_for}
use fips_tcp.Connection.Send
use fips_tcp.Connection.Send.{client, server, negotiate_mss, send_tracked, update_remote_window}
use fips_tcp.Connection.Receive
use fips_tcp.Connection.Timer
use fips_tcp.Connection.Input.{on_segment}
use fips_tcp.Connection.Sender.{Sends}
use fips_tcp.Connection.History
use fips_tcp.Connection.History.{Event, IsWireEvent, step, run, wrote, step-Sends}
use fips_tcp.Connection.Speech.{finished, Part, Says, Speaks, Tells, All-Says-Later, All-Says-grows}
use fips_tcp.Connection.Speech.Data.{write-Tells, close-Tells}
use fips_tcp.Connection.Speech.Segments.{on_segment-Updates}
use fips_tcp.Connection.Speech.Timers.{poll-Updates, read-Tells}

abbrev pub written_out :
    {P : Type 0} → Result StackError (Connection P × ℕ × List Segment) → List Segment
written_out (ok (c, n, out)) = out
written_out (err e) = []

module _ {P : Type 0} (config : Config) where
  -- The segments that an event sends.
  abbrev pub sends_out : Connection P → Event → List Segment
  sends_out c (History.segment s now_ms) = (on_segment c s now_ms config).1.segments
  sends_out c (History.write bytes now_ms) = written_out (Send.write c bytes now_ms config)
  sends_out c (History.read n) = (Receive.read c n).2
  sends_out c (History.close now_ms) = (Send.close c now_ms).1.segments
  sends_out c (History.poll now_ms) = (Timer.poll c now_ms config).1.segments

  -- All segments that a history sends, in order.
  unfoldable pub transcript : Connection P → List Event → List Segment
  transcript c [] = []
  transcript c (e ∷ es) = sends_out c e ++ transcript (step config c e).0 es

  module _ (base : ℕ) where
    -- A connection with its stream, and the segments that it has sent so far.
    abbrev pub Spoken : Connection P × List ℕ → List Segment → Type 0
    Spoken r outs = Speaks base r.1 r.0 × All (Says base r.1 (finished r.0.state)) outs

    told-Spoken :
        (sent : List ℕ) (c : Connection P) (outs : List Segment) (r : Connection P × List Segment)
        → Spoken (c, sent) outs
        → Tells base sent c.state r
        → Spoken (r.0, sent) (outs ++ r.1)
    told-Spoken sent c outs r (v, o) (w, s, l) = (
      w,
      All-append (Says base sent (finished r.0.state)) outs r.1
          (All-Says-Later base sent (finished c.state) (finished r.0.state) outs l o) s,
    )

    wrote-Spoken :
        (sent : List ℕ) (c : Connection P) (outs : List Segment) (bytes : List ℕ)
        (r : Result StackError (Connection P × ℕ × List Segment))
        → Spoken (c, sent) outs
        → Yields
            (λ q.
              Tells base (sent ++ take q.1 bytes) c.state (q.0, q.2) × (finished c.state ≡ false))
            r
        → Spoken
            ((wrote config c bytes r).0, sent ++ (wrote config c bytes r).1)
            (outs ++ written_out r)
    wrote-Spoken sent c outs bytes (ok (c', n, out)) (v, o) ((w, s, l), f) =
        let o' : All (Says base sent false) outs = subst (λ b. All (Says base sent b) outs) f o in
        let grown = All-Says-grows base sent (take n bytes) outs o' in
        (
          w,
          All-append (Says base (sent ++ take n bytes) (finished c'.state)) outs out
              (All-Says-Later base (sent ++ take n bytes) false (finished c'.state) outs
                (λ g. absurd (ground (arith, g))) grown)
              s,
        )
    wrote-Spoken sent c outs bytes (err e) v h = rw (append-nil sent, append-nil outs) v

    step-Spoken :
        (sent : List ℕ) (c : Connection P) (outs : List Segment) (e : Event)
        → Sends sent c
        → Spoken (c, sent) outs
        → IsWireEvent e
        → Spoken ((step config c e).0, sent ++ (step config c e).1) (outs ++ sends_out c e)
    unfolding step
    step-Spoken sent c outs (History.segment s now_ms) i v h = rw (append-nil sent) (
        told-Spoken sent c outs
          ((on_segment c s now_ms config).0, (on_segment c s now_ms config).1.segments) v
          (on_segment-Updates base sent c s now_ms config i v.0 h.0 h.1))
    step-Spoken sent c outs (History.write bytes now_ms) i v h =
        wrote-Spoken sent c outs bytes (Send.write c bytes now_ms config) v
          (write-Tells base sent c bytes now_ms config v.0)
    step-Spoken sent c outs (History.read n) i v h = rw (append-nil sent) (
        told-Spoken sent c outs ((Receive.read c n).0, (Receive.read c n).2) v
          (read-Tells base sent c n v.0))
    step-Spoken sent c outs (History.close now_ms) i v h = rw (append-nil sent) (
        told-Spoken sent c outs ((Send.close c now_ms).0, (Send.close c now_ms).1.segments) v
          (close-Tells base sent c now_ms v.0))
    step-Spoken sent c outs (History.poll now_ms) i v h = rw (append-nil sent) (
        told-Spoken sent c outs
          ((Timer.poll c now_ms config).0, (Timer.poll c now_ms config).1.segments) v
          (poll-Updates base sent c now_ms config v.0))

    -- Let a connection keep the sender's invariant and have said, in the segments that it sent so
    -- far, only pieces of the stream written so far: each has no data, or the bytes of the stream
    -- at the offset of its number, with a FIN only at the end of the stream, once no more can be
    -- written. Then this holds after every history of writes, reads, closes, polls and arriving
    -- segments with fields of their width, for all segments that it has sent, retransmissions and
    -- probes included.
    pub run-Spoken :
        (sent : List ℕ) (c : Connection P) (outs : List Segment) (es : List Event)
        → Sends sent c
        → Spoken (c, sent) outs
        → All IsWireEvent es
        → Spoken (run config c sent es) (outs ++ transcript c es)
    unfolding run transcript
    run-Spoken sent c outs [] i v h = rw (append-nil outs) v
    run-Spoken sent c outs (e ∷ es) i v h =
        rw⁻¹ (append_assoc outs (sends_out c e) (transcript (step config c e).0 es)) (
          run-Spoken (sent ++ (step config c e).1) (step config c e).0 (outs ++ sends_out c e) es
            (step-Sends config sent c e i h.0) (step-Spoken sent c outs e i v h.0) h.1)

syn_flags :
    (f : ℕ)
    → (f ≡ syn_flag) ⊎ (f ≡ syn_ack)
    → (contains f syn_flag ≡ true) × (contains f fin_flag ≡ false)
unfolding contains
syn_flags f (inl e) = rw e (refl, refl)
syn_flags f (inr e) = rw e (refl, refl)

tracked_end-syn :
    (seq f now_ms : ℕ)
    → (f ≡ syn_flag) ⊎ (f ≡ syn_ack)
    → tracked_end
        (record { seq = seq; flags = f; payload = []; sent_at_ms = now_ms; transmissions = 1 })
      ≡ wrapping_add seq 1
unfolding tracked_end flag_len contains
tracked_end-syn seq f now_ms (inl e) = rw e (omega arith)
tracked_end-syn seq f now_ms (inr e) = rw e (omega arith)

-- The SYN of a connection without a byte.
syn-Spoken :
    {P : Type 0} (base : ℕ) (c : Connection P) (f now_ms : ℕ)
    → (f ≡ syn_flag) ⊎ (f ≡ syn_ack)
    → wrapping_add c.send_nxt 1 ≡ base
    → c.unacked ≡ []
    → c.send_queue ≡ []
    → c.send_progress.acked_payload_bytes ≡ 0
    → let r = send_tracked c f [] now_ms in
      Speaks base [] r.0 × Says base [] (finished r.0.state) r.1
unfolding send_tracked segment_for build_segment
syn-Spoken base c f now_ms k b u q a =
    let (syn, fin) = syn_flags f k in
    let end = tracked_end-syn c.send_nxt f now_ms k in
    let p : Part base [] (finished c.state) 0 c.send_nxt [] (contains f syn_flag)
        (contains f fin_flag) =
      rw (syn, fin) (inl (refl, refl, b)) in
    rw (u, q, a)
      (
        record {
          parts = (p, tt);
          number = λ g. omega (arith, end, b);
          rest = refl;
          within = omega arith;
          emptied = λ g. refl;
        },
        (0, p),
      )

-- A connection opened by `client` has said its SYN.
pub client-Spoken :
    {P : Type 0} (peer : P) (local_port remote_port isn now_ms : ℕ) (config : Config) (token : ℕ)
    → let r = client peer local_port remote_port isn now_ms config token in
      Spoken config (wrapping_add isn 1) (r.0, []) r.1
unfolding client new
client-Spoken peer local_port remote_port isn now_ms config token =
    let (w, s) =
      syn-Spoken (wrapping_add isn 1) (new peer local_port remote_port syn_sent isn 0 config token)
        syn_flag now_ms (inl refl) refl refl refl refl in
    (w, (s, tt))

-- What a SYN changes in a new connection.
negotiated :
    {P : Type 0} (c : Connection P) (syn : Segment) (now_ms : ℕ) (config : Config)
    → let c' = negotiate_mss (update_remote_window c syn.window now_ms) syn config in
      (c'.send_nxt ≡ c.send_nxt)
      × (c'.unacked ≡ c.unacked)
      × (c'.send_queue ≡ c.send_queue)
      × (c'.send_progress ≡ c.send_progress)
unfolding update_remote_window negotiate_mss
negotiated c syn now_ms config = ground arith

-- A connection made by `server` has said the answer to the SYN.
pub server-Spoken :
    {P : Type 0} (peer : P) (syn : Segment) (isn now_ms : ℕ) (config : Config) (token : ℕ)
    → let r = server peer syn isn now_ms config token in
      Spoken config (wrapping_add isn 1) (r.0, []) r.1
unfolding server
server-Spoken peer syn isn now_ms config token =
    let c0 =
      new peer syn.dst_port syn.src_port syn_received isn (wrapping_add syn.seq 1) config token in
    let (n, u, q, g) = negotiated c0 syn now_ms config in
    let (w, s) =
      syn-Spoken (wrapping_add isn 1)
        (negotiate_mss (update_remote_window c0 syn.window now_ms) syn config) syn_ack now_ms
        (inr refl) (ap (λ x. wrapping_add x 1) n ∙ unfold new in refl) (u ∙ unfold new in refl)
        (q ∙ unfold new in refl)
        (ap (λ x. SendProgress.acked_payload_bytes x) g ∙ unfold new in refl) in
    (w, (s, tt))
