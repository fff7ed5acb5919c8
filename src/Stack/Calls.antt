-- ===== src/Stack/Calls.antt =====
-- stack.rs, stack_marker.rs, stack_abort.rs and stack_poll.rs: the calls on open connections.
use fips_tcp.Common.{
  Bool, Eq, List, Option, [], err, false, if◌then◌else◌, length, none, not, ok, retain, some, true,
  ℕ, ◌++◌, ◌==◌, ◌||◌, ◌∷◌,
}
use fips_tcp.Wire.{decode, encode}
use fips_tcp.Types.{Config, State, unknown_connection, wire}
use fips_tcp.Marker
use fips_tcp.Marker.{SendMarker, MarkerStatus, connection_gone}
use fips_tcp.Connection.{Connection, reset_segment}
use fips_tcp.Connection.Send
use fips_tcp.Connection.Receive
use fips_tcp.Connection.Timer
use fips_tcp.Connection.Timer.{min_time}
use fips_tcp.Stack.{Stack, Call, Outbound, and_then, stack}
use fips_tcp.Stack.Table.{nat_eq, get, insert}
use fips_tcp.Stack.Core.{key_eq, emit, remove_connection}

module _ {P : Type 0} where
  -- A connection that `get_mut` has changed.
  abbrev pub put : ℕ → Connection P → Stack P → Stack P
  put id c s = record s { connections = insert id c s.connections }

  unfoldable pub write_with_marker : ℕ → List ℕ → ℕ → Stack P → Call P (ℕ × SendMarker)
  write_with_marker id bytes now_ms s = elim (get id s.connections) [
    | none ↦ (s, err (stack unknown_connection))
    | some c ↦ elim (Send.write c bytes now_ms s.config) [
      | err e ↦ (s, err (stack e))
      | ok (c', accepted, segments) ↦
          and_then (emit id segments (put id c' s))
            λ s' u. (s', ok (accepted, Marker.marker c'.send_progress id))
    ]
  ]

  unfoldable pub write : ℕ → List ℕ → ℕ → Stack P → Call P ℕ
  write id bytes now_ms s = and_then (write_with_marker id bytes now_ms s) λ s' r. (s', ok r.0)

  unfoldable pub marker_status : SendMarker → Stack P → MarkerStatus
  marker_status m s = elim (get m.connection_id s.connections) [
    | none ↦ connection_gone
    | some c ↦ Marker.status c.send_progress m
  ]

  unfoldable pub read : ℕ → ℕ → Stack P → Call P (List ℕ)
  read id max_bytes s = elim (get id s.connections) [
    | none ↦ (s, err (stack unknown_connection))
    | some c ↦
        let (c', bytes, segments) = Receive.read c max_bytes in
        and_then (emit id segments (put id c' s)) λ s' u. (s', ok bytes)
  ]

  unfoldable pub state : ℕ → Stack P → Option State
  state id s = elim (get id s.connections) [ none ↦ none | some c ↦ some c.state ]

  unfoldable pub is_read_closed : ℕ → Stack P → Bool
  is_read_closed id s = elim (get id s.connections) [ none ↦ true | some c ↦ c.read_closed ]

  unfoldable pub peer : ℕ → Stack P → Option P
  peer id s = elim (get id s.connections) [ none ↦ none | some c ↦ some c.peer ]

  unfoldable pub ports : ℕ → Stack P → Option (ℕ × ℕ)
  ports id s = elim (get id s.connections) [
    | none ↦ none
    | some c ↦ some (c.local_port, c.remote_port)
  ]

  unfoldable pub drain_outbound : Stack P → Stack P × List (Outbound P)
  drain_outbound s = (record s { outbound = [] }, s.outbound)

  -- The earliest deadline of the connections.
  unfoldable pub earliest : ℕ → Config → List (ℕ × Connection P) → Option ℕ
  earliest now_ms config [] = none
  earliest now_ms config ((id, c) ∷ rest) =
      min_time (Timer.next_poll_at c now_ms config) (earliest now_ms config rest)

  unfoldable pub next_poll_at : ℕ → Stack P → Option ℕ
  next_poll_at now_ms s = earliest now_ms s.config s.connections

module _ {P : Type 0} ⦃e : Eq P⦄ where
  -- What `close`, `poll` and `input` do with the update of a connection, once its segments are out.
  abbrev pub remove_if : Bool → ℕ → Stack P → Stack P
  remove_if true id s = remove_connection id s
  remove_if false id s = s

  unfoldable pub close : ℕ → ℕ → Stack P → Call P (Unit {0})
  close id now_ms s = elim (get id s.connections) [
    | none ↦ (s, err (stack unknown_connection))
    | some c ↦
        let (c', update) = Send.close c now_ms in
        and_then (emit id update.segments (put id c' s))
          λ s' u. (remove_if update.closed id s', ok tt)
  ]

  -- `poll` at one connection; it ignores an error of `emit`.
  unfoldable pub poll_one : ℕ → ℕ → Stack P → Stack P
  poll_one now_ms id s = elim (get id s.connections) [
    | none ↦ s
    | some c ↦
        let (c', update) = Timer.poll c now_ms s.config in
        remove_if update.closed id (emit id update.segments (put id c' s)).0
  ]

  unfoldable pub poll_all : ℕ → List (ℕ × Connection P) → Stack P → Stack P
  poll_all now_ms [] s = s
  poll_all now_ms ((id, c) ∷ rest) s = poll_all now_ms rest (poll_one now_ms id s)

  unfoldable pub poll : ℕ → Stack P → Stack P
  poll now_ms s = poll_all now_ms s.connections s

  -- An outbound segment of another tuple, or one that does not decode, stays.
  unfoldable pub keeps_outbound : P → ℕ → ℕ → Outbound P → Bool
  keeps_outbound peer local_port remote_port o =
      if not (e.beq o.peer peer) then true else (elim (decode o.bytes) [
        | err w ↦ true
        | ok segment ↦ not (segment.src_port == local_port) || not (segment.dst_port == remote_port)
      ])

  unfoldable pub abort : ℕ → Stack P → Call P (Unit {0})
  abort id s = elim (get id s.connections) [
    | none ↦ (s, err (stack unknown_connection))
    | some c ↦ elim (encode (reset_segment c)) [
      | err w ↦ (s, err (stack (wire w)))
      | ok bytes ↦
          let kept = retain (keeps_outbound c.peer c.local_port c.remote_port) s.outbound in
          (
            remove_connection id
                (record s { outbound = kept ++ (record { peer = c.peer; bytes = bytes } ∷ []) }),
            ok tt,
          )
    ]
  ]

  unfoldable pub ids_of_peer : P → List (ℕ × Connection P) → List ℕ
  ids_of_peer peer [] = []
  ids_of_peer peer ((id, c) ∷ rest) =
      if e.beq c.peer peer then id ∷ ids_of_peer peer rest else ids_of_peer peer rest

  unfoldable pub abort_all : List ℕ → Stack P → Call P (Unit {0})
  abort_all [] s = (s, ok tt)
  abort_all (id ∷ ids) s = and_then (abort id s) λ s' u. abort_all ids s'

  unfoldable pub abort_peer : P → Stack P → Call P ℕ
  abort_peer peer s =
      let ids = ids_of_peer peer s.connections in
      and_then (abort_all ids s) λ s' u. (s', ok (length ids))
