-- ===== src/Connection/Delivery.antt =====
-- Two connections that talk to each other: what one sends is what the other receives, over a network
-- that loses, repeats, delays and reorders segments.
use fips_tcp.Common.{
  All, Bool, IsU32, List, [], ap, arith, false, inl, inr, length, length-append, length-take, ok,
  refl, subst, true, u16_max, wrapping_add, ℕ, ◌++◌, ◌+◌, ◌<◌, ◌^◌, ◌∷◌, ◌≡◌, ◌≤◌, ◌⊎◌,
}
use fips_tcp.Types.Valid.{validate-InBounds}
use fips_tcp.Types.{validate, Config, state_eq, syn_sent}
use fips_tcp.Wire.{Segment, contains, syn_flag, fin_flag}
use fips_tcp.Segments.{bool_len, ReassemblySegment, build_segment}
use fips_tcp.Connection.{Connection, new, segment_for, available_window_u16}
use fips_tcp.Connection.Send.{client, server, send_tracked}
use fips_tcp.Connection.Input.{has_stream_data}
use fips_tcp.Connection.Sender.{Sends}
use fips_tcp.Connection.Sender.Timers.{client-Sends, server-Sends}
use fips_tcp.Connection.Frame.{Holds}
use fips_tcp.Connection.History
use fips_tcp.Connection.History.{Event, IsWireEvent, step, run}
use fips_tcp.Connection.Receiver.{FinAt, count}
use fips_tcp.Connection.Receiver.Drain.{count_of}
use fips_tcp.Connection.Receiver.History.{Heard, Suits, SuitsBy}
use fips_tcp.Connection.Receiver.Reads.{
  AllSuit, Matches, SuitsEvent, client-Heard, handed, reads, reads-Matches, server-Heard,
  step-Heard,
}
use fips_tcp.Connection.Speech.{finished, Part, Says, FinIs}
use fips_tcp.Connection.Speech.History.{
  Spoken, client-Spoken, run-Spoken, server-Spoken, transcript,
}

abbrev pub Among : Segment → List Segment → Type 0
Among s [] = ⊥
Among s (x ∷ xs) = (x ≡ s) ⊎ Among s xs

-- A segment that arrives is one of those that were sent.
abbrev pub Arrives : List Segment → Event → Type 0
Arrives outs (History.segment s now_ms) = Among s outs
Arrives outs _ = Unit

Among-All :
    (Q : Segment → Type 0) (s : Segment) (outs : List Segment) → Among s outs → All Q outs → Q s
Among-All Q s [] m v = absurd m
Among-All Q s (x ∷ xs) (inl e) v = subst Q e v.0
Among-All Q s (x ∷ xs) (inr m) v = Among-All Q s xs m v.1

FinIs-FinAt : (fin done : Bool) (end total : ℕ) → FinIs fin done end total → FinAt fin end total
FinIs-FinAt true done end total (d, e) = e
FinIs-FinAt false done end total v = tt

module _ (base : ℕ) (stream : List ℕ) where
  said_by :
      (waiting syn data_in done : Bool) (n o : ℕ) (s : Segment)
      → n ≤ length stream + 1
      → length stream + 1 < 2 ^ 30
      → has_stream_data s ≡ data_in
      → Part base stream done o s.seq s.payload syn (contains s.flags fin_flag)
      → SuitsBy base stream waiting syn data_in n s
  said_by true true data_in done n o s h k d (inl (e, f, y)) = y
  said_by true true data_in done n o s h k d (inr (e, p, w, y, f)) = absurd (ground (arith, y))
  said_by true false data_in done n o s h k d v = tt
  said_by false syn false done n o s h k d v = tt
  said_by false syn true done n o s h k d (inl (e, f, y)) = absurd (ground (arith, d, e, f))
  said_by false syn true done n o s h k d (inr (e, p, w, y, f)) = (
    o,
    e,
    (omega (arith, h, k, w), omega (arith, h, k, w)),
    omega (arith, k, w),
    (p, FinIs-FinAt (contains s.flags fin_flag) done (o + length s.payload) (length stream) f),
  )

  -- What was said can be heard, in a stream that is not too long.
  Says-Suits :
      (waiting done : Bool) (n : ℕ) (s : Segment)
      → n ≤ length stream + 1
      → length stream + 1 < 2 ^ 30
      → Says base stream done s
      → Suits base stream waiting n s
  Says-Suits waiting done n s h k (o, v) =
      said_by waiting (contains s.flags syn_flag) (has_stream_data s) done n o s h k refl v

module _ {P : Type 0} (base : ℕ) (stream : List ℕ) (config : Config) where
  Heard-count :
      (waiting : Bool) (peer : P) (local_port remote_port capacity nxt : ℕ)
      (delivered queue : List ℕ) (reassembly : List ReassemblySegment) (closed : Bool)
      → Heard base stream config delivered waiting peer local_port remote_port capacity nxt queue
          reassembly closed
      → count delivered queue closed ≤ length stream + 1
  Heard-count false peer local_port remote_port capacity nxt delivered queue reassembly closed v =
      let l = ap length v.order.bytes in
      let one : bool_len closed ≤ 1 = ground arith in
      omega (
        arith,
        l,
        one,
        length-append delivered queue,
        length-take (length delivered + length queue) stream,
      )
  Heard-count true peer local_port remote_port capacity nxt delivered queue reassembly closed
        (d, q, parts, f, bounds) =
      rw (d, q, f) (omega arith)

  Arrives-SuitsEvent :
      (done : Bool) (outs : List Segment) (delivered : List ℕ) (c : Connection P) (e : Event)
      → All (Says base stream done) outs
      → length stream + 1 < 2 ^ 30
      → Holds (Heard base stream config delivered) c
      → Arrives outs e
      → SuitsEvent base stream config delivered c e
  Arrives-SuitsEvent done outs delivered c (History.segment s now_ms) said k v m =
      let waiting = state_eq c.state syn_sent in
      Says-Suits base stream waiting done (count_of delivered c) s
        (Heard-count waiting c.peer c.local_port c.remote_port c.receive_capacity c.recv_nxt
          delivered c.recv_queue c.reassembly c.read_closed v)
        k (Among-All (Says base stream done) s outs m said)
  Arrives-SuitsEvent done outs delivered c (History.write bytes now_ms) said k v m = tt
  Arrives-SuitsEvent done outs delivered c (History.read n) said k v m = tt
  Arrives-SuitsEvent done outs delivered c (History.close now_ms) said k v m = tt
  Arrives-SuitsEvent done outs delivered c (History.poll now_ms) said k v m = tt

  Arrives-AllSuit :
      (done : Bool) (outs : List Segment) (delivered : List ℕ) (c : Connection P) (es : List Event)
      → All (Says base stream done) outs
      → length stream + 1 < 2 ^ 30
      → Holds (Heard base stream config delivered) c
      → All (Arrives outs) es
      → AllSuit base stream config delivered c es
  Arrives-AllSuit done outs delivered c [] said k v m = tt
  Arrives-AllSuit done outs delivered c (e ∷ es) said k v m =
      let now = Arrives-SuitsEvent done outs delivered c e said k v m.0 in
      (
        now,
        Arrives-AllSuit done outs (delivered ++ handed config c e) (step config c e).0 es said k
            (step-Heard base stream config delivered c e v now) m.1,
      )

-- From one connection to another.
delivers :
    {P Q : Type 0} (base : ℕ) (config : Config) (c : Connection P) (outs : List Segment)
    (es : List Event) (config' : Config) (d : Connection Q) (fs : List Event)
    → let stream = (run config c [] es).1 in
      Sends [] c
      → Spoken config base (c, []) outs
      → All IsWireEvent es
      → length stream + 1 < 2 ^ 30
      → Holds (Heard base stream config' []) d
      → All (Arrives (outs ++ transcript config c es)) fs
      → let (d', all) = reads config' d [] fs in Matches stream all d'.recv_queue d'.read_closed
delivers base config c outs es config' d fs v w i k h m =
    let stream = (run config c [] es).1 in
    let said = (run-Spoken config base [] c outs es v w i).1 in
    reads-Matches base stream config' [] d fs h (
      Arrives-AllSuit base stream config' (finished (run config c [] es).0.state)
        (outs ++ transcript config c es) [] d fs said k h m)

-- The SYN of a client.
syn-seq :
    {P : Type 0} (peer : P) (local_port remote_port isn now_ms : ℕ) (config : Config) (token : ℕ)
    (syn : Segment)
    → (client peer local_port remote_port isn now_ms config token).1 ≡ syn ∷ []
    → (syn.seq ≡ isn) × (syn.window ≤ u16_max)
unfolding client send_tracked segment_for build_segment new available_window_u16
syn-seq peer local_port remote_port isn now_ms config token syn e =
    (ground (arith, e), ground (arith, e))

module _ {P : Type 0} where
  -- The stream that a new connection has written after a history.
  abbrev pub written : Config → Connection P × List Segment → List Event → List ℕ
  written config r es = (run config r.0 [] es).1

  -- The segments that it has sent, from its SYN on.
  abbrev pub said : Config → Connection P × List Segment → List Event → List Segment
  said config r es = r.1 ++ transcript config r.0 es

  -- The bytes that `read` has handed over, and those in the buffer, are the beginning of a stream.
  abbrev pub Hears : List ℕ → Config → Connection P × List Segment → List Event → Type 0
  Hears stream config r es =
      let (c, all) = reads config r.0 [] es in Matches stream all c.recv_queue c.read_closed

-- A client, and the server that its SYN has made.
module _ {P : Type 0} (peer : P) (local_port remote_port isn now_ms : ℕ) (config : Config)
    (token : ℕ) (peer' : P) (syn : Segment) (isn' now_ms' : ℕ) (config' : Config) (token' : ℕ) where
  -- A client and the server that its SYN has made, with valid configurations and initial numbers
  -- of 32 bits, go through any histories of writes, reads, closes, polls and arriving segments
  -- whose numbers have the width of their fields, in which each segment that arrives at one is
  -- among those that the other sent, in any order, any number of times or never. Then, when the
  -- streams that both have written are shorter than 2 ^ 30 - 1 bytes, in both directions all
  -- bytes that `read` has handed over at one, followed by those in its buffer, are the beginning
  -- of the stream of the other, and `read_closed` is set only when they are all of it.
  pub talk-Hears :
      (es fs : List Event)
      → (client peer local_port remote_port isn now_ms config token).1 ≡ syn ∷ []
      → validate config ≡ ok tt
      → validate config' ≡ ok tt
      → IsU32 isn
      → IsU32 isn'
      → All IsWireEvent es
      → All IsWireEvent fs
      → let a = client peer local_port remote_port isn now_ms config token in
        let b = server peer' syn isn' now_ms' config' token' in
        length (written config a es) + 1 < 2 ^ 30
        → length (written config' b fs) + 1 < 2 ^ 30
        → All (Arrives (said config' b fs)) es
        → All (Arrives (said config a es)) fs
        → Hears (written config a es) config' b fs × Hears (written config' b fs) config a es
  talk-Hears es fs e u u' n n' w w' l l' m m' =
      let a = client peer local_port remote_port isn now_ms config token in
      let b = server peer' syn isn' now_ms' config' token' in
      let bounds = validate-InBounds config u in
      let bounds' = validate-InBounds config' u' in
      let (seq, window) = syn-seq peer local_port remote_port isn now_ms config token syn e in
      let base : wrapping_add syn.seq 1 ≡ wrapping_add isn 1 = rw seq refl in
      (
        delivers (wrapping_add isn 1) config a.0 a.1 es config' b.0 fs
            (client-Sends peer local_port remote_port isn now_ms config token n bounds.mss)
            (client-Spoken peer local_port remote_port isn now_ms config token) w l
            (subst (λ x. Holds (Heard x (written config a es) config' []) b.0) base
              (server-Heard (written config a es) peer' syn isn' now_ms' config' token'
                bounds'.receive_buffer.1))
            m',
        delivers (wrapping_add isn' 1) config' b.0 b.1 fs config a.0 es
            (server-Sends peer' syn isn' now_ms' config' token' n' bounds'.mss window)
            (server-Spoken peer' syn isn' now_ms' config' token') w' l'
            (client-Heard (wrapping_add isn' 1) (written config' b fs) peer local_port remote_port
              isn now_ms config token bounds.receive_buffer.1)
            m,
      )
