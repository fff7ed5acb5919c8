-- ===== src/Endpoint/History.antt =====
-- A call of the adapter as an event with its arguments, and what it does to the soundness of the
-- endpoint.
use fips_tcp.Common.{Bool, List, arith, err, ok, u64_max, ℕ, ◌+◌, ◌<◌}
use fips_tcp.Stack
use fips_tcp.Stack.Open
use fips_tcp.Stack.Calls as StackCalls
use fips_tcp.Stack.Safety.{Succeeds}
use fips_tcp.Stack.Safety.Calls.{
  connect-Succeeds, abort-Succeeds, abort_peer-Succeeds, accept-IsConsistent, close-Succeeds,
  poll-IsConsistent, read-Succeeds, set_connection_reservation-Succeeds, write_with_marker-Succeeds,
}
use fips_tcp.Endpoint.Peer.{Fips, PeerKey, key_eq, from}
use fips_tcp.Endpoint.{Endpoint, Action, and_then, on_stack, flush, flushed}
use fips_tcp.Endpoint.Calls
use fips_tcp.Endpoint.Calls.{rolled_back}
use fips_tcp.Endpoint.Receive.{Admits, receive_with_clock, wait_for_input}
use fips_tcp.Endpoint.Safety.{
  IsSound, Stays, and_then-Stays, flush-Stays, flushed-Stays, on_stack-Stays,
  receive_with_clock-Stays, wait_for_input-Stays,
}

-- A call of the adapter, with its arguments. `receives` is the call with a clock and an admission
-- that every other receiving call is made of.
pub data Event (F : Fips) (S : Type 0) : Type 0 where
  accepts : Event F S
  reserves : ℕ → (F.Identity → Bool) → Event F S
  connects : F.Identity → ℕ → Event F S
  writes : ℕ → List ℕ → ℕ → Event F S
  reads : ℕ → ℕ → Event F S
  closes : ℕ → ℕ → Event F S
  aborts : ℕ → Event F S
  aborts_peer : F.Identity → Event F S
  polls : ℕ → Event F S
  waits : Event F S
  receives : (F.World → ℕ) → Admits F S → S → Event F S

module _ {F : Fips} where
  -- A call without its value.
  abbrev pub finished : {A : Type 0} → Action F A → Action F (Unit {0})
  finished r = and_then r λ ep a. (ep, ok tt)

  finished-Stays : {A : Type 0} (r : Action F A) → Stays r → Stays (finished r)
  finished-Stays r v = and_then-Stays r (λ ep a. (ep, ok tt)) v λ ep a w. (w, tt)

  -- A call of the stack, then what it has put out.
  sent-Stays :
      {A : Type 0} (ep : Endpoint F) (r : Stack.Call (PeerKey F) A)
      → IsSound ep
      → Succeeds r
      → Stays (flushed (on_stack ep r))
  sent-Stays ep r v w = flushed-Stays (on_stack ep r) (on_stack-Stays ep r v w)

  rolled_back-Stays :
      (id now_ms : ℕ) (r : Action F (Unit {0})) → Stays r → Stays (rolled_back id now_ms r)
  unfolding rolled_back
  rolled_back-Stays id now_ms (ep, ok u) v = v
  rolled_back-Stays id now_ms (ep, err x) v =
      (record { tables = (close-Succeeds id now_ms ep.stack v.0.tables).0; batch = v.0.batch }, v.1)

  connect-Stays :
      (peer : F.Identity) (now_ms : ℕ) (ep : Endpoint F)
      → IsSound ep
      → ep.stack.next_connection_id < u64_max
      → Stays (Calls.connect peer now_ms ep)
  unfolding Calls.connect
  connect-Stays peer now_ms ep v n =
      let r = Open.connect (from F peer) ep.fsp_service_port now_ms ep.stack in
      and_then-Stays (on_stack ep r) _
        (on_stack-Stays ep r v
          (connect-Succeeds (from F peer) ep.fsp_service_port now_ms ep.stack v.tables n))
        λ ep' id v'. rolled_back-Stays id now_ms (flush ep') (flush-Stays ep' v')

module _ {F : Fips} {S : Type 0} where
  unfoldable pub step : Event F S → Endpoint F → Action F (Unit {0})
  step accepts ep = ((Calls.accept ep).0, ok tt)
  step (reserves slots eligible) ep = Calls.set_connection_reservation slots eligible ep
  step (connects peer now_ms) ep = finished (Calls.connect peer now_ms ep)
  step (writes id bytes now_ms) ep = finished (Calls.write_with_marker id bytes now_ms ep)
  step (reads id max_bytes) ep = finished (Calls.read id max_bytes ep)
  step (closes id now_ms) ep = Calls.close id now_ms ep
  step (aborts id) ep = Calls.abort id ep
  step (aborts_peer peer) ep = finished (Calls.abort_peer peer ep)
  step (polls now_ms) ep = Calls.poll now_ms ep
  step waits ep = wait_for_input ep
  step (receives clock admitted st) ep = finished (receive_with_clock clock admitted st ep)

  -- From a sound endpoint (the tables of its stack agree, and at most 64 datagrams wait) with 64
  -- connection identifiers left, each of `accept`, `set_connection_reservation`, `connect`,
  -- `write_with_marker`, `read`, `close`, `abort`, `abort_peer`, `poll`, `wait_for_input` and the
  -- receiving call with a clock and an admission leaves a sound endpoint and does not panic,
  -- whatever datagrams arrive and whether they can be sent.
  pub step-Stays :
      (x : Event F S) (ep : Endpoint F)
      → IsSound ep
      → ep.stack.next_connection_id + 64 < u64_max
      → Stays (step x ep)
  unfolding step Calls.accept Calls.set_connection_reservation Calls.write_with_marker Calls.read
      Calls.close Calls.abort Calls.abort_peer Calls.poll
  step-Stays accepts ep v n = (
    record { tables = accept-IsConsistent ep.fsp_service_port ep.stack v.tables; batch = v.batch },
    tt,
  )
  step-Stays (reserves slots eligible) ep v n =
      on_stack-Stays ep _ v (
        set_connection_reservation-Succeeds ep.stack slots (λ peer. eligible peer.identity)
          v.tables)
  step-Stays (connects peer now_ms) ep v n =
      finished-Stays (Calls.connect peer now_ms ep)
        (connect-Stays peer now_ms ep v (omega (arith, n)))
  step-Stays (writes id bytes now_ms) ep v n =
      finished-Stays (Calls.write_with_marker id bytes now_ms ep) (
        sent-Stays ep (StackCalls.write_with_marker id bytes now_ms ep.stack) v
          (write_with_marker-Succeeds id bytes now_ms ep.stack v.tables))
  step-Stays (reads id max_bytes) ep v n = finished-Stays (Calls.read id max_bytes ep) (
      sent-Stays ep (StackCalls.read id max_bytes ep.stack) v
        (read-Succeeds id max_bytes ep.stack v.tables))
  step-Stays (closes id now_ms) ep v n =
      sent-Stays ep (StackCalls.close id now_ms ep.stack) v
        (close-Succeeds id now_ms ep.stack v.tables)
  step-Stays (aborts id) ep v n =
      sent-Stays ep (StackCalls.abort id ep.stack) v (abort-Succeeds id ep.stack v.tables)
  step-Stays (aborts_peer peer) ep v n = finished-Stays (Calls.abort_peer peer ep) (
      sent-Stays ep (StackCalls.abort_peer (from F peer) ep.stack) v
        (abort_peer-Succeeds (from F peer) ep.stack v.tables))
  step-Stays (polls now_ms) ep v n =
      flush-Stays (record ep { stack = StackCalls.poll now_ms ep.stack })
        (record { tables = poll-IsConsistent now_ms ep.stack v.tables; batch = v.batch })
  step-Stays waits ep v n = wait_for_input-Stays ep v
  step-Stays (receives clock admitted st) ep v n =
      finished-Stays (receive_with_clock clock admitted st ep)
        (receive_with_clock-Stays clock admitted st ep v n)
