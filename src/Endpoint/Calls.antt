-- ===== src/Endpoint/Calls.antt =====
-- The calls of the adapter on streams. A future is run to its end.
use fips_tcp.Common.{Bool, List, Option, err, none, ok, some, ℕ}
use fips_tcp.Types.{State}
use fips_tcp.Marker.{SendMarker, MarkerStatus}
use fips_tcp.Stack.Core
use fips_tcp.Stack.Open
use fips_tcp.Stack.Calls as StackCalls
use fips_tcp.Endpoint.Peer.{Fips, key_eq, from}
use fips_tcp.Endpoint.{Endpoint, Action, and_then, flush, flushed, on_stack}

module _ {F : Fips} where
  unfoldable pub accept : Endpoint F → Endpoint F × Option ℕ
  accept ep =
      let (s, id) = Open.accept ep.fsp_service_port ep.stack in (record ep { stack = s }, id)

  unfoldable pub set_connection_reservation :
      ℕ → (F.Identity → Bool) → Endpoint F → Action F (Unit {0})
  set_connection_reservation slots eligible ep =
      on_stack ep (Core.set_connection_reservation ep.stack slots (λ peer. eligible peer.identity))

  -- The end of `connect`: a connection whose SYN could not be sent is closed again.
  unfoldable pub rolled_back : ℕ → ℕ → Action F (Unit {0}) → Action F ℕ
  rolled_back id now_ms (ep, ok u) = (ep, ok id)
  rolled_back id now_ms (ep, err x) =
      (record ep { stack = (StackCalls.close id now_ms ep.stack).0 }, err x)

  unfoldable pub connect : F.Identity → ℕ → Endpoint F → Action F ℕ
  connect peer now_ms ep =
      and_then (on_stack ep (Open.connect (from F peer) ep.fsp_service_port now_ms ep.stack))
        λ ep' id. rolled_back id now_ms (flush ep')

  unfoldable pub write : ℕ → List ℕ → ℕ → Endpoint F → Action F ℕ
  write id bytes now_ms ep = flushed (on_stack ep (StackCalls.write id bytes now_ms ep.stack))

  unfoldable pub write_with_marker : ℕ → List ℕ → ℕ → Endpoint F → Action F (ℕ × SendMarker)
  write_with_marker id bytes now_ms ep =
      flushed (on_stack ep (StackCalls.write_with_marker id bytes now_ms ep.stack))

  unfoldable pub marker_status : SendMarker → Endpoint F → MarkerStatus
  marker_status m ep = StackCalls.marker_status m ep.stack

  unfoldable pub read : ℕ → ℕ → Endpoint F → Action F (List ℕ)
  read id max_bytes ep = flushed (on_stack ep (StackCalls.read id max_bytes ep.stack))

  unfoldable pub close : ℕ → ℕ → Endpoint F → Action F (Unit {0})
  close id now_ms ep = flushed (on_stack ep (StackCalls.close id now_ms ep.stack))

  unfoldable pub abort : ℕ → Endpoint F → Action F (Unit {0})
  abort id ep = flushed (on_stack ep (StackCalls.abort id ep.stack))

  unfoldable pub abort_peer : F.Identity → Endpoint F → Action F ℕ
  abort_peer peer ep = flushed (on_stack ep (StackCalls.abort_peer (from F peer) ep.stack))

  unfoldable pub next_poll_at : ℕ → Endpoint F → Option ℕ
  next_poll_at now_ms ep = StackCalls.next_poll_at now_ms ep.stack

  unfoldable pub poll : ℕ → Endpoint F → Action F (Unit {0})
  poll now_ms ep = flush (record ep { stack = StackCalls.poll now_ms ep.stack })

  unfoldable pub state : ℕ → Endpoint F → Option State
  state id ep = StackCalls.state id ep.stack

  unfoldable pub is_read_closed : ℕ → Endpoint F → Bool
  is_read_closed id ep = StackCalls.is_read_closed id ep.stack

  unfoldable pub peer : ℕ → Endpoint F → Option F.Identity
  peer id ep = elim (StackCalls.peer id ep.stack) [ none ↦ none | some key ↦ some key.identity ]

  unfoldable pub ports : ℕ → Endpoint F → Option (ℕ × ℕ)
  ports id ep = StackCalls.ports id ep.stack
