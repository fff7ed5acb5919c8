-- ===== src/Stack/History.antt =====
-- A call of a stack as an event with its arguments, and what it does to the tables.
use fips_tcp.Common.{Eq, List, ok, u64_max, ℕ, ◌<◌}
use fips_tcp.Stack.{Stack, Call, and_then}
use fips_tcp.Stack.Open.{connect, connect_from_with_isn}
use fips_tcp.Stack.Calls
use fips_tcp.Stack.Calls.{write_with_marker}
use fips_tcp.Stack.Input.{input}
use fips_tcp.Stack.Consistency.{IsConsistent}
use fips_tcp.Stack.Safety.{Succeeds, input-Succeeds, and_then-Succeeds}
use fips_tcp.Stack.Safety.Calls.{
  connect-Succeeds, abort-Succeeds, close-Succeeds, connect_from_with_isn-Succeeds,
  poll-IsConsistent, read-Succeeds, write_with_marker-Succeeds,
}

-- A call, with its arguments; the last number is the time, where the call takes one.
pub data Event (P : Type 0) : Type 0 where
  arrives : P → List ℕ → ℕ → Event P
  connects : P → ℕ → ℕ → Event P
  connects_from : P → ℕ → ℕ → ℕ → ℕ → Event P
  writes : ℕ → List ℕ → ℕ → Event P
  reads : ℕ → ℕ → Event P
  closes : ℕ → ℕ → Event P
  polls : ℕ → Event P
  aborts : ℕ → Event P

-- A call without its value.
abbrev pub finished : {P A : Type 0} → Call P A → Call P (Unit {0})
finished r = and_then r λ s a. (s, ok tt)

module _ {P : Type 0} ⦃e : Eq P⦄ where
  unfoldable pub step : Event P → Stack P → Call P (Unit {0})
  step (arrives peer bytes now_ms) s = input peer bytes now_ms s
  step (connects peer remote_port now_ms) s = finished (connect peer remote_port now_ms s)
  step (connects_from peer local_port remote_port isn now_ms) s =
      finished (connect_from_with_isn peer local_port remote_port isn now_ms s)
  step (writes id bytes now_ms) s = finished (write_with_marker id bytes now_ms s)
  step (reads id n) s = finished (Calls.read id n s)
  step (closes id now_ms) s = Calls.close id now_ms s
  step (polls now_ms) s = (Calls.poll now_ms s, ok tt)
  step (aborts id) s = Calls.abort id s

  finished-Succeeds : {A : Type 0} (r : Call P A) → Succeeds r → Succeeds (finished r)
  finished-Succeeds r v = and_then-Succeeds r (λ s a. (s, ok tt)) v (λ s a w. (w, tt))

  -- From a stack whose tables agree (every connection that `lookup` names is in `connections`,
  -- under the peer and ports that it is looked up by, and no identifier still to be given is in
  -- use), and whose identifiers are not exhausted, each of `input`, `connect`,
  -- `connect_from_with_isn`, `write_with_marker`, `read`, `close`, `poll` and `abort`, at any
  -- arguments, leaves such tables and does not panic.
  pub step-Succeeds :
      (x : Event P) (s : Stack P)
      → IsConsistent s
      → s.next_connection_id < u64_max
      → Succeeds (step x s)
  unfolding step
  step-Succeeds (arrives peer bytes now_ms) s v n = input-Succeeds peer bytes now_ms s v n
  step-Succeeds (connects peer remote_port now_ms) s v n =
      finished-Succeeds (connect peer remote_port now_ms s)
        (connect-Succeeds peer remote_port now_ms s v n)
  step-Succeeds (connects_from peer local_port remote_port isn now_ms) s v n =
      finished-Succeeds (connect_from_with_isn peer local_port remote_port isn now_ms s)
        (connect_from_with_isn-Succeeds peer local_port remote_port isn now_ms s v n)
  step-Succeeds (writes id bytes now_ms) s v n =
      finished-Succeeds (write_with_marker id bytes now_ms s)
        (write_with_marker-Succeeds id bytes now_ms s v)
  step-Succeeds (reads id k) s v n = finished-Succeeds (Calls.read id k s) (read-Succeeds id k s v)
  step-Succeeds (closes id now_ms) s v n = close-Succeeds id now_ms s v
  step-Succeeds (polls now_ms) s v n = (poll-IsConsistent now_ms s v, tt)
  step-Succeeds (aborts id) s v n = abort-Succeeds id s v
