-- ===== src/Connection/History.antt =====
-- Histories of a connection: the calls of its stack in any order, at any times, and the stream of
-- the sending side.
use fips_tcp.Common.{
  All, IsU32, List, Result, Yields, [], ap, append-nil, arith, err, length, length-drop, ok, subst,
  sym, take, u16_max, ℕ, ◌++◌, ◌+◌, ◌↔◌, ◌∷◌, ◌≡◌, ◌≤◌,
}
use fips_tcp.Types.{Config, StackError}
use fips_tcp.Wire.{Segment, value_or}
use fips_tcp.Marker
use fips_tcp.Marker.{SendMarker, MarkerStatus, acked}
use fips_tcp.Connection.{Connection}
use fips_tcp.Connection.Send
use fips_tcp.Connection.Receive
use fips_tcp.Connection.Timer
use fips_tcp.Connection.Input.{on_segment}
use fips_tcp.Connection.Sender.{Sends}
use fips_tcp.Connection.Flight.{bytes_of}
use fips_tcp.Connection.Sender.Flush.{write-Sends, close-Sends}
use fips_tcp.Connection.Sender.Inputs.{on_segment-Sends}
use fips_tcp.Connection.Sender.Timers.{poll-Sends, read-Sends}

-- What the stack does with a connection; a number is the time of the call.
pub data Event : Type 0 where
  segment : Segment → ℕ → Event
  write : List ℕ → ℕ → Event
  read : ℕ → Event
  close : ℕ → Event
  poll : ℕ → Event

-- Fields of their width, as `decode` gives them.
abbrev pub IsWireEvent : Event → Type 0
IsWireEvent (segment s now_ms) = IsU32 (value_or s.ack 0) × (s.window ≤ u16_max)
IsWireEvent _ = Unit

module _ {P : Type 0} (config : Config) where
  -- The connection after a write, and the bytes that it took.
  abbrev pub wrote :
      Connection P
      → List ℕ
      → Result StackError (Connection P × ℕ × List Segment)
      → Connection P × List ℕ
  wrote c bytes (ok (c', n, out)) = (c', take n bytes)
  wrote c bytes (err e) = (c, [])

  -- The connection after an event, and the bytes that joined its stream.
  unfoldable pub step : Connection P → Event → Connection P × List ℕ
  step c (segment s now_ms) = ((on_segment c s now_ms config).0, [])
  step c (write bytes now_ms) = wrote c bytes (Send.write c bytes now_ms config)
  step c (read n) = ((Receive.read c n).0, [])
  step c (close now_ms) = ((Send.close c now_ms).0, [])
  step c (poll now_ms) = ((Timer.poll c now_ms config).0, [])

  -- The connection after a history, and the whole stream.
  unfoldable pub run : Connection P → List ℕ → List Event → Connection P × List ℕ
  run c sent [] = (c, sent)
  run c sent (e ∷ es) = run (step c e).0 (sent ++ (step c e).1) es

  wrote-Sends :
      (sent : List ℕ) (c : Connection P) (bytes : List ℕ)
      (r : Result StackError (Connection P × ℕ × List Segment))
      → Sends sent c
      → Yields (λ q. Sends (sent ++ take q.1 bytes) q.0 × (q.1 ≤ length bytes)) r
      → Sends (sent ++ (wrote c bytes r).1) (wrote c bytes r).0
  wrote-Sends sent c bytes (ok (c', n, out)) v h = h.0
  wrote-Sends sent c bytes (err e) v h = subst (λ s. Sends s c) (sym (append-nil sent)) v

  pub step-Sends :
      (sent : List ℕ) (c : Connection P) (e : Event)
      → Sends sent c
      → IsWireEvent e
      → Sends (sent ++ (step c e).1) (step c e).0
  unfolding step
  step-Sends sent c (segment s now_ms) v h =
      rw (append-nil sent) (on_segment-Sends sent c s now_ms config v h.0 h.1)
  step-Sends sent c (write bytes now_ms) v h =
      wrote-Sends sent c bytes (Send.write c bytes now_ms config) v
        (write-Sends sent c bytes now_ms config v)
  step-Sends sent c (read n) v h = rw (append-nil sent) (read-Sends sent c n v)
  step-Sends sent c (close now_ms) v h = rw (append-nil sent) (close-Sends sent c now_ms v)
  step-Sends sent c (poll now_ms) v h = rw (append-nil sent) (poll-Sends sent c now_ms config v)

  -- From any connection that keeps the sender's invariant for the bytes written so far, after
  -- every history of arriving segments with fields of their width, writes, reads, closes and
  -- polls at any times it keeps the invariant for the stream extended by the bytes that each
  -- write accepted: the unacknowledged bytes of the stream are, in order, those of the flight
  -- followed by the queue, and the flight fills the sequence space from `send_una` to `send_nxt`.
  pub run-Sends :
      (sent : List ℕ) (c : Connection P) (es : List Event)
      → Sends sent c
      → All IsWireEvent es
      → Sends (run c sent es).1 (run c sent es).0
  unfolding run
  run-Sends sent c [] v h = v
  run-Sends sent c (e ∷ es) v h =
      run-Sends (sent ++ (step c e).1) (step c e).0 es (step-Sends sent c e v h.0) h.1

-- For a marker of a connection and the same connection later on, both with the sender's
-- invariant: the marker is acknowledged exactly when the bytes still held all were written after
-- the marker.
pub marker-acked :
    {P : Type 0} (sent later : List ℕ) (c c' : Connection P) (id : ℕ)
    → Sends sent c
    → Sends later c'
    → c'.send_progress.connection_token ≡ c.send_progress.connection_token
    → (Marker.status c'.send_progress (Marker.marker c.send_progress id) ≡ acked)
      ↔ (length sent + length (bytes_of c'.unacked ++ c'.send_queue) ≤ length later)
unfolding Marker.status Marker.marker
marker-acked sent later c c' id v w e = ground (
  arith,
  v.accepted,
  w.acked_le,
  ap length w.content,
  length-drop c'.send_progress.acked_payload_bytes later,
)
