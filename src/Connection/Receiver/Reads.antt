-- ===== src/Connection/Receiver/Reads.antt =====
-- Histories of a connection, with the bytes that `read` has handed over.
use fips_tcp.Common.{
  Bool, List, Result, Yields, [], ap, append-nil, append_assoc, arith, drop, err, false, length,
  length-append, length-drop, length-take, min, ok, refl, sym, take, take-append-drop, true,
  u16_max, wrapping_add, ℕ, ◌++◌, ◌+◌, ◌∙◌, ◌∷◌, ◌≡◌, ◌≤◌,
}
use fips_tcp.Types.{syn_received, Config, state_eq, syn_sent, StackError}
use fips_tcp.Wire.{Segment}
use fips_tcp.Connection.{Connection, new}
use fips_tcp.Segments.{ReassemblySegment}
use fips_tcp.Connection.Send
use fips_tcp.Connection.Receive
use fips_tcp.Connection.Send.{client, server, send_tracked, negotiate_mss}
use fips_tcp.Connection.Frame.{
  update_remote_window-Holds, Holds, close-Holds, poll-Holds, write-Holds,
}
use fips_tcp.Connection.History.{Event, segment, write, read, close, poll, step, wrote}
use fips_tcp.Connection.Receiver.{FinAt, Received}
use fips_tcp.Connection.Receiver.Drain.{count_of}
use fips_tcp.Connection.Receiver.History.{Heard, Suits, on_segment-Heard}

module _ {P : Type 0} (config : Config) where
  -- The bytes that an event hands over.
  abbrev pub handed : Connection P → Event → List ℕ
  handed c (read n) = (Receive.read c n).1
  handed c _ = []

  -- The connection after a history, and all bytes that it has handed over.
  unfoldable pub reads : Connection P → List ℕ → List Event → Connection P × List ℕ
  reads c delivered [] = (c, delivered)
  reads c delivered (e ∷ es) = reads (step config c e).0 (delivered ++ handed c e) es

module _ (stream : List ℕ) where
  -- The bytes handed over, then those in the buffer, are the beginning of the stream, and all of
  -- it where the stream is closed.
  abbrev pub Matches : List ℕ → List ℕ → Bool → Type 0
  Matches delivered queue closed =
      (delivered ++ queue ≡ take (length delivered + length queue) stream)
      × FinAt closed (length delivered + length queue) (length stream)

module _ (base : ℕ) (stream : List ℕ) (config : Config) where
  -- Bytes that are handed over leave the buffer.
  moved-Received :
      (n capacity nxt : ℕ) (delivered queue : List ℕ) (reassembly : List ReassemblySegment)
      (closed : Bool)
      → n ≤ length queue
      → Received base stream config delivered capacity nxt queue reassembly closed
      → Received base stream config
          (delivered ++ take n queue)
          capacity
          nxt
          (drop n queue)
          reassembly
          closed
  moved-Received n capacity nxt delivered queue reassembly closed h v =
      let k : length (delivered ++ take n queue) + length (drop n queue)
          ≡ length delivered + length queue =
        omega (
          arith,
          h,
          length-append delivered (take n queue),
          length-take n queue,
          length-drop n queue,
        ) in
      record {
        bounds = record {
          capacity = v.bounds.capacity;
          bytes_fit = omega (arith, v.bounds.bytes_fit, length-drop n queue);
          segments_fit = v.bounds.segments_fit;
        };
        order = record {
          number = rw (k) v.order.number;
          bytes =
              append_assoc delivered (take n queue) (drop n queue)
              ∙ ap (λ xs. delivered ++ xs) (take-append-drop n queue)
              ∙ v.order.bytes
              ∙ ap (λ j. take j stream) (sym k);
          fin = rw (k) v.order.fin;
        };
        parts = rw (k) v.parts;
      }

module _ {P : Type 0} (base : ℕ) (stream : List ℕ) (config : Config) where
  -- An arriving segment suits the connection at the time.
  abbrev pub SuitsEvent : List ℕ → Connection P → Event → Type 0
  SuitsEvent delivered c (segment s now_ms) =
      Suits base stream (state_eq c.state syn_sent) (count_of delivered c) s
  SuitsEvent delivered c _ = Unit

  abbrev pub AllSuit : List ℕ → Connection P → List Event → Type 0
  AllSuit delivered c [] = Unit
  AllSuit delivered c (e ∷ es) =
      SuitsEvent delivered c e × AllSuit (delivered ++ handed config c e) (step config c e).0 es

  wrote-Heard :
      (delivered : List ℕ) (c : Connection P) (bytes : List ℕ)
      (r : Result StackError (Connection P × ℕ × List Segment))
      → Holds (Heard base stream config delivered) c
      → Yields (λ q. Holds (Heard base stream config delivered) q.0) r
      → Holds (Heard base stream config (delivered ++ [])) (wrote config c bytes r).0
  wrote-Heard delivered c bytes (ok (c', n, out)) v h = rw (append-nil delivered) h
  wrote-Heard delivered c bytes (err e) v h = rw (append-nil delivered) v

  read_by-Heard :
      (waiting : Bool) (peer : P) (local_port remote_port n capacity nxt : ℕ)
      (delivered queue : List ℕ) (reassembly : List ReassemblySegment) (closed : Bool)
      → n ≤ length queue
      → Heard base stream config delivered waiting peer local_port remote_port capacity nxt queue
          reassembly closed
      → Heard base stream config
          (delivered ++ take n queue)
          waiting
          peer
          local_port
          remote_port
          capacity
          nxt
          (drop n queue)
          reassembly
          closed
  read_by-Heard false peer local_port remote_port n capacity nxt delivered queue reassembly closed h
        v =
      moved-Received base stream config n capacity nxt delivered queue reassembly closed h v
  read_by-Heard true peer local_port remote_port n capacity nxt delivered queue reassembly closed h
        (d, q, parts, f, bounds) =
      let none_left : length queue ≡ 0 = omega (arith, ap length q) in
      let z : n ≡ 0 = omega (arith, h, none_left) in
      rw (z, append-nil delivered) (d, q, parts, f, bounds)

  read-Heard :
      (delivered : List ℕ) (c : Connection P) (n : ℕ)
      → Holds (Heard base stream config delivered) c
      → Holds (Heard base stream config (delivered ++ (Receive.read c n).1)) (Receive.read c n).0
  unfolding Receive.read
  read-Heard delivered c n v =
      read_by-Heard (state_eq c.state syn_sent) c.peer c.local_port c.remote_port
        (min n (length c.recv_queue)) c.receive_capacity c.recv_nxt delivered c.recv_queue
        c.reassembly c.read_closed (omega arith) v

  pub step-Heard :
      (delivered : List ℕ) (c : Connection P) (e : Event)
      → Holds (Heard base stream config delivered) c
      → SuitsEvent delivered c e
      → Holds (Heard base stream config (delivered ++ handed config c e)) (step config c e).0
  unfolding step
  step-Heard delivered c (segment s now_ms) v h =
      rw (append-nil delivered) (on_segment-Heard base stream config delivered c s now_ms v h)
  step-Heard delivered c (write bytes now_ms) v h =
      wrote-Heard delivered c bytes (Send.write c bytes now_ms config) v
        (write-Holds (Heard base stream config delivered) c bytes now_ms config v)
  step-Heard delivered c (read n) v h = read-Heard delivered c n v
  step-Heard delivered c (close now_ms) v h =
      rw (append-nil delivered) (close-Holds (Heard base stream config delivered) c now_ms v)
  step-Heard delivered c (poll now_ms) v h =
      rw (append-nil delivered) (poll-Holds (Heard base stream config delivered) c now_ms config v)

  pub reads-Heard :
      (delivered : List ℕ) (c : Connection P) (es : List Event)
      → Holds (Heard base stream config delivered) c
      → AllSuit delivered c es
      → Holds
          (Heard base stream config (reads config c delivered es).1)
          (reads config c delivered es).0
  unfolding reads
  reads-Heard delivered c [] v h = v
  reads-Heard delivered c (e ∷ es) v h =
      reads-Heard (delivered ++ handed config c e) (step config c e).0 es
        (step-Heard delivered c e v h.0) h.1

  Heard-Matches :
      (waiting : Bool) (peer : P) (local_port remote_port capacity nxt : ℕ)
      (delivered queue : List ℕ) (reassembly : List ReassemblySegment) (closed : Bool)
      → Heard base stream config delivered waiting peer local_port remote_port capacity nxt queue
          reassembly closed
      → Matches stream delivered queue closed
  Heard-Matches false peer local_port remote_port capacity nxt delivered queue reassembly closed v =
      (v.order.bytes, v.order.fin)
  Heard-Matches true peer local_port remote_port capacity nxt delivered queue reassembly closed
        (d, q, parts, f, bounds) =
      rw (d, q, f) (refl, tt)

  -- From any connection that has heard a stream so far, through every history of writes, reads,
  -- closes, polls and arriving segments whose data are pieces of that stream, each less than 2 ^
  -- 30 from the count of the receiver and in any order, repeated or overlapping: all bytes that
  -- `read` has handed over, followed by those in the buffer, are the beginning of the stream, and
  -- `read_closed` is set only when they are all of it.
  pub reads-Matches :
      (delivered : List ℕ) (c : Connection P) (es : List Event)
      → Holds (Heard base stream config delivered) c
      → AllSuit delivered c es
      → let (d, all) = reads config c delivered es in Matches stream all d.recv_queue d.read_closed
  reads-Matches delivered c es v h =
      let d = (reads config c delivered es).0 in
      Heard-Matches (state_eq d.state syn_sent) d.peer d.local_port d.remote_port d.receive_capacity
        d.recv_nxt (reads config c delivered es).1 d.recv_queue d.reassembly d.read_closed
        (reads-Heard delivered c es v h)

-- A connection begins without a byte.
pub client-Heard :
    {P : Type 0} (base : ℕ) (stream : List ℕ) (peer : P) (local_port remote_port isn now_ms : ℕ)
    (config : Config) (token : ℕ)
    → config.receive_buffer ≤ u16_max
    → Holds
        (Heard base stream config [])
        (client peer local_port remote_port isn now_ms config token).0
unfolding client new send_tracked
client-Heard base stream peer local_port remote_port isn now_ms config token h = (
  refl,
  refl,
  refl,
  refl,
  record { capacity = (refl, h); bytes_fit = omega arith; segments_fit = omega arith },
)

-- A connection made by `server` from a SYN, with a receive buffer of at most 65535 bytes, has
-- heard nothing so far of any stream that begins behind the SYN.
pub server-Heard :
    {P : Type 0} (stream : List ℕ) (peer : P) (syn : Segment) (isn now_ms : ℕ) (config : Config)
    (token : ℕ)
    → config.receive_buffer ≤ u16_max
    → Holds
        (Heard (wrapping_add syn.seq 1) stream config [])
        (server peer syn isn now_ms config token).0
unfolding server new send_tracked negotiate_mss
server-Heard stream peer syn isn now_ms config token h =
    let start =
      new peer syn.dst_port syn.src_port syn_received isn (wrapping_add syn.seq 1) config token in
    update_remote_window-Holds (Heard (wrapping_add syn.seq 1) stream config []) start syn.window
      now_ms
      (record {
        bounds = record {
          capacity = (refl, h);
          bytes_fit = omega arith;
          segments_fit = omega arith;
        };
        order = record { number = omega arith; bytes = refl; fin = tt };
        parts = tt;
      })
