-- ===== src/Connection/Receiver/History.antt =====
-- Segments and the receiving side of a connection.
use fips_tcp.Common.{Bool, List, [], arith, false, refl, subst, sym, true, wrapping_add, ℕ, ◌≡◌}
use fips_tcp.Types.{Config, established, state_eq, syn_sent}
use fips_tcp.Wire.{Segment, contains, syn_flag}
use fips_tcp.Connection.{Connection}
use fips_tcp.Connection.Input.{has_stream_data, on_segment}
use fips_tcp.Connection.Receive.{receive_stream_data}
use fips_tcp.Connection.Buffer.{Bounds}
use fips_tcp.Connection.Frame.{Receives, Holds, With}
use fips_tcp.Connection.Frame.Data.{receive_stream_data-Keeps}
use fips_tcp.Connection.Frame.Input.{on_segment-Holds}
use fips_tcp.Connection.Receiver.{Received, count}
use fips_tcp.Connection.Receiver.Data.{Carries, receive_stream_data-Follows}
use fips_tcp.Connection.Receiver.Drain.{count_of}

-- The receiving side of a connection: before the answer to its SYN there is nothing, afterwards
-- the bytes follow the stream.
abbrev pub Heard : {P : Type 0} → ℕ → List ℕ → Config → List ℕ → Receives P
Heard base stream config delivered true peer local_port remote_port capacity nxt queue reassembly
      closed =
    (delivered ≡ [])
    × (queue ≡ [])
    × (reassembly ≡ [])
    × (closed ≡ false)
    × Bounds config capacity queue reassembly
Heard base stream config delivered false peer local_port remote_port capacity nxt queue reassembly
      closed =
    Received base stream config delivered capacity nxt queue reassembly closed

module _ (base : ℕ) (stream : List ℕ) where
  -- What is asked of a segment by whether the connection waits for the answer to its SYN, the
  -- segment has a SYN, and it has data: the number of a SYN that answers is the one before the
  -- stream, and data are those of the stream.
  abbrev pub SuitsBy : Bool → Bool → Bool → ℕ → Segment → Type 0
  SuitsBy true true data_in n s = wrapping_add s.seq 1 ≡ base
  SuitsBy true false data_in n s = Unit
  SuitsBy false syn true n s = Carries base stream n s
  SuitsBy false syn false n s = Unit

  abbrev pub Suits : Bool → ℕ → Segment → Type 0
  Suits waiting n s = SuitsBy waiting (contains s.flags syn_flag) (has_stream_data s) n s

module _ {P : Type 0} (base : ℕ) (stream : List ℕ) (config : Config) (delivered : List ℕ) where
  -- Before a segment that suits.
  abbrev Ready : ℕ → Segment → Receives P
  Ready n s waiting peer local_port remote_port capacity nxt queue reassembly closed =
      Heard base stream config delivered waiting peer local_port remote_port capacity nxt queue
        reassembly closed
      × (count delivered queue closed ≡ n)
      × Suits base stream waiting n s

  opened-Heard :
      (c : Connection P) (s : Segment) (n : ℕ)
      → contains s.flags syn_flag ≡ true
      → Holds (With true (Ready n s)) c
      → Holds
          (Heard base stream config delivered)
          (record c { recv_nxt = wrapping_add s.seq 1; state = established })
  opened-Heard c s n syn v =
      let q : Bool → Type 0 = λ b.
        Ready n s b c.peer c.local_port c.remote_port c.receive_capacity c.recv_nxt c.recv_queue
          c.reassembly c.read_closed in
      let ((d, queue, parts, closed, bounds), m, suits) = subst q v.1 v.0 in
      let answer : wrapping_add s.seq 1 ≡ base = rw syn at suits in
      record {
        bounds = bounds;
        order =
            rw (d, queue, closed)
              (record { number = omega (arith, answer); bytes = refl; fin = tt });
        parts = rw (parts) tt;
      }

  data-Heard :
      (c : Connection P) (s : Segment) (n now_ms : ℕ)
      → Holds (With false (Ready n s)) c
      → has_stream_data s ≡ true
      → Holds
          (With false (Heard base stream config delivered))
          (receive_stream_data c s now_ms config).0
  data-Heard c s n now_ms v data_in =
      let q : Bool → Type 0 = λ b.
        Ready n s b c.peer c.local_port c.remote_port c.receive_capacity c.recv_nxt c.recv_queue
          c.reassembly c.read_closed in
      let (heard, m, suits) = subst q v.1 v.0 in
      let carries : Carries base stream n s = rw data_in at suits in
      let d = (receive_stream_data c s now_ms config).0 in
      let w =
        receive_stream_data-Follows base stream delivered config c s now_ms heard
          (rw (m) carries) in
      let same : state_eq d.state syn_sent ≡ false =
        receive_stream_data-Keeps (λ waiting peer local_port remote_port. waiting ≡ false) config c
          s now_ms v.1 in
      let back : Bool → Type 0 = λ b.
        Heard base stream config delivered b d.peer d.local_port d.remote_port d.receive_capacity
          d.recv_nxt d.recv_queue d.reassembly d.read_closed in
      (subst back (sym same) w, same)

  pub on_segment-Heard :
      (c : Connection P) (s : Segment) (now_ms : ℕ)
      → Holds (Heard base stream config delivered) c
      → Suits base stream (state_eq c.state syn_sent) (count_of delivered c) s
      → Holds (Heard base stream config delivered) (on_segment c s now_ms config).0
  on_segment-Heard c s now_ms v suits =
      let n = count_of delivered c in
      on_segment-Holds (Ready n s) (Heard base stream config delivered) config s (λ d w. w.0)
        (λ d t w data_in. data-Heard d s n t w data_in) (λ d syn w. opened-Heard d s n syn w) c
        now_ms (v, refl, suits)
