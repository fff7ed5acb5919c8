-- ===== src/Stack/Open.antt =====
-- stack.rs: creating a stack, listening, accepting and connecting.
use fips_tcp.Common.{
  Eq, List, Option, [], err, if◌then◌else◌, is_some, max, none, not, ok, retain, some, ℕ, ◌+◌, ◌==◌,
  ◌||◌, ◌∷◌,
}
use fips_tcp.Types.{Config, already_listening, connection_exists, validate, zero_port}
use fips_tcp.Wire.{Segment}
use fips_tcp.Connection.{Connection}
use fips_tcp.Connection.Send.{client}
use fips_tcp.Stack.{Stack, Call, ConnectionKey, and_then, stack}
use fips_tcp.Stack.Table.{nat_eq, get, insert, remove}
use fips_tcp.Stack.Core.{
  key_eq, emit, allocate_connection_id, allocate_ephemeral_port, ensure_connection_capacity,
  first_ephemeral_port, mem, next_isn,
}

-- `Stack::new`; `none` is its panic on a configuration that is not valid.
unfoldable pub new : {P : Type 0} → Config → ℕ → ℕ → Option (Stack P)
new config isn_seed next_token = elim (validate config) [
  | err e ↦ none
  | ok u ↦ some (record {
    config = config;
    reservation = none;
    listeners = [];
    accepts = [];
    connections = [];
    lookup = [];
    outbound = [];
    next_connection_id = 1;
    next_ephemeral_port = first_ephemeral_port;
    isn_state = max isn_seed 1;
    next_token = next_token;
  })
]

module _ {P : Type 0} where
  -- `entry(port).or_default()`
  unfoldable pub accept_queue : ℕ → Stack P → List ℕ
  accept_queue port s = elim (get port s.accepts) [ none ↦ [] | some q ↦ q ]

  unfoldable pub listen : ℕ → Stack P → Call P (Unit {0})
  listen port s =
      if port == 0
      then (s, err (stack zero_port))
      else (if mem port s.listeners then (s, err (stack (already_listening port))) else (
        record s {
          listeners = port ∷ s.listeners;
          accepts = insert port (accept_queue port s) s.accepts;
        },
        ok tt,
      ))

  unfoldable pub close_listener : ℕ → Stack P → Stack P
  close_listener port s = record s {
    listeners = retain (λ p. not (p == port)) s.listeners;
    accepts = remove port s.accepts;
  }

  -- The loop of `accept`: the first connection of the queue that is still there.
  unfoldable pub pop_live : List (ℕ × Connection P) → List ℕ → Option ℕ × List ℕ
  pop_live connections [] = (none, [])
  pop_live connections (id ∷ queue) =
      let rest = pop_live connections queue in
      elim (get id connections) [ none ↦ rest | some c ↦ (some id, queue) ]

  unfoldable pub accept : ℕ → Stack P → Stack P × Option ℕ
  accept port s = elim (get port s.accepts) [
    | none ↦ (s, none)
    | some queue ↦
        let (id, rest) = pop_live s.connections queue in
        (record s { accepts = insert port rest s.accepts }, id)
  ]

module _ {P : Type 0} ⦃e : Eq P⦄ where
  -- A new connection enters both maps, and its first segments go out.
  unfoldable pub install :
      ConnectionKey P → ℕ → Connection P → List Segment → Stack P → Call P (Unit {0})
  install key id c segments s = emit id segments (record s {
    lookup = insert key id s.lookup;
    connections = insert id c s.connections;
    next_token = s.next_token + 1;
  })

  unfoldable pub connect_from_with_isn : P → ℕ → ℕ → ℕ → ℕ → Stack P → Call P ℕ
  connect_from_with_isn peer local_port remote_port isn now_ms s =
      if local_port == 0 || remote_port == 0
      then (s, err (stack zero_port))
      else (elim (ensure_connection_capacity s peer) [
        | err e ↦ (s, err e)
        | ok u ↦
            let key : ConnectionKey P = record {
              peer = peer;
              local_port = local_port;
              remote_port = remote_port;
            } in
            if is_some (get key s.lookup)
            then (s, err (stack connection_exists))
            else (let (s1, id) = allocate_connection_id s in
                let (c, segments) =
                  client peer local_port remote_port isn now_ms s.config s.next_token in
                and_then (install key id c segments s1) λ s2 u. (s2, ok id))
      ])

  unfoldable pub connect : P → ℕ → ℕ → Stack P → Call P ℕ
  connect peer remote_port now_ms s =
      and_then (allocate_ephemeral_port s peer remote_port) λ s1 local_port.
        let (s2, isn) = next_isn s1 in
        connect_from_with_isn peer local_port remote_port isn now_ms s2
