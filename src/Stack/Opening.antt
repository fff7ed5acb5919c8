-- ===== src/Stack/Opening.antt =====
-- The outcomes of `connect`: a failure, or a new connection and its SYN.
use fips_tcp.Common.{
  Bool-cases, Eq, List, Option-cases, Result-cases, [], arith, err, if◌then◌else◌, inl, inr, none,
  ok, refl, suc, sym, u16_max, zero, ℕ, ◌++◌, ◌+◌, ◌==◌, ◌||◌, ◌∙◌, ◌∷◌, ◌≡◌, ◌≤◌, ◌⊎◌,
}
use fips_tcp.Types.{Config, syn_sent}
use fips_tcp.Wire.{Segment, encode}
use fips_tcp.Connection
use fips_tcp.Connection.{Connection, segment_for}
use fips_tcp.Connection.Send.{client, send_tracked}
use fips_tcp.Stack.{Stack, Call, ConnectionKey, Failure, and_then}
use fips_tcp.Stack.Table.{nat_eq, get, get-insert_same, insert}
use fips_tcp.Stack.Core.{key_of, key_eq, emit, emit_to, allocate_ephemeral_port, next_isn}
use fips_tcp.Stack.Encodes.{encode-build_segment}
use fips_tcp.Stack.Core.{
  search_port, allocate_connection_id, first_ephemeral_port, ensure_connection_capacity,
}
use fips_tcp.Stack.Open.{connect, connect_from_with_isn, install}

module _ {P : Type 0} ⦃e : Eq P⦄ where
  -- The tables of two stacks agree.
  abbrev pub SameTables : Stack P → Stack P → Type 0
  SameTables s s' = (s'.connections ≡ s.connections) × (s'.lookup ≡ s.lookup)

  -- A call has entered a connection under the next identifier and a key that was not in use.
  abbrev pub Opened : Connection P → Stack P → Call P ℕ → Type 0
  Opened c s r =
      (r.1 ≡ ok s.next_connection_id)
      × (c.state ≡ syn_sent)
      × (get (key_of c) s.lookup ≡ none)
      × (r.0.connections ≡ insert s.next_connection_id c s.connections)
      × (r.0.lookup ≡ insert (key_of c) s.next_connection_id s.lookup)

  abbrev pub Opens : Stack P → Call P ℕ → Type 0
  Opens s r =
      (SameTables s r.0 × (f : Failure) × (r.1 ≡ err f)) ⊎ ((c : Connection P) × Opened c s r)

  install-sends :
      (key : ConnectionKey P) (id : ℕ) (c : Connection P) (segment : Segment) (bytes : List ℕ)
      (s : Stack P)
      → encode segment ≡ ok bytes
      → install key id c (segment ∷ []) s ≡ (
        record s {
          lookup = insert key id s.lookup;
          connections = insert id c s.connections;
          next_token = s.next_token + 1;
          outbound = s.outbound ++ (record { peer = c.peer; bytes = bytes } ∷ []);
        },
        ok tt,
      )
  unfolding install emit emit_to
  install-sends key id c segment bytes s h =
      rw (install, emit, get-insert_same id c s.connections, emit_to, h) refl

  client-syn :
      (peer : P) (local_port remote_port isn now_ms : ℕ) (config : Config) (token : ℕ)
      → 1 ≤ local_port
      → 1 ≤ remote_port
      → let r = client peer local_port remote_port isn now_ms config token in
        (segment : Segment) × (bytes : List ℕ) × (r.1 ≡ segment ∷ [])
        × (encode segment ≡ ok bytes)
        × (r.0.state ≡ syn_sent)
        × (key_of r.0 ≡ record { peer = peer; local_port = local_port; remote_port = remote_port })
  unfolding client send_tracked segment_for Connection.new
  client-syn peer local_port remote_port isn now_ms config token p q =
      let (bytes, h) = encode-build_segment _ [] p q in (_, bytes, refl, h, refl, refl)

  -- `search_port` moves the next port only.
  abbrev Searched : Stack P → Stack P → Type 0
  Searched s s' = SameTables s s' × (s'.next_connection_id ≡ s.next_connection_id)

  search_port-Searched :
      (attempts : ℕ) (s : Stack P) (peer : P) (remote_port : ℕ)
      → Searched s (search_port attempts s peer remote_port).0
  unfolding search_port
  search_port-Searched zero s peer remote_port = ((refl, refl), refl)
  search_port-Searched (suc attempts) s peer remote_port =
      let port = s.next_ephemeral_port in
      let s' : Stack P = record s {
        next_ephemeral_port = if port == u16_max then first_ephemeral_port else port + 1;
      } in
      let key : ConnectionKey P = record {
        peer = peer;
        local_port = port;
        remote_port = remote_port;
      } in
      elim (Option-cases (get key s.lookup)) [
        | inl free ↦ rw (free, search_port) ((refl, refl), refl)
        | inr (id, taken) ↦
            rw (taken, search_port) (search_port-Searched attempts s' peer remote_port)
      ]

  same-Opens : (s s' : Stack P) (r : Call P ℕ) → Searched s s' → Opens s' r → Opens s r
  same-Opens s s' r ((c, l), n) (inl ((c', l'), f, h)) = inl ((c' ∙ c, l' ∙ l), f, h)
  same-Opens s s' r ((c, l), n) (inr (d, (o, sent, free, c', l'))) =
      inr (d, rw (sym c, sym l, sym n) (o, sent, free, c', l'))

  Searched-Opens :
      (s : Stack P) (r : Call P ℕ) (f : Stack P → ℕ → Call P ℕ)
      → Searched s r.0
      → ((s' : Stack P) (port : ℕ) → Opens s' (f s' port))
      → Opens s (and_then r f)
  Searched-Opens s (s', ok port) f v k = same-Opens s s' (f s' port) v (k s' port)
  Searched-Opens s (s', err w) f v k = inl (v.0, w, refl)

  connect_from_with_isn-Opens :
      (peer : P) (local_port remote_port isn now_ms : ℕ) (s : Stack P)
      → Opens s (connect_from_with_isn peer local_port remote_port isn now_ms s)
  unfolding connect_from_with_isn allocate_connection_id
  connect_from_with_isn-Opens peer local_port remote_port isn now_ms s =
      let key : ConnectionKey P = record {
        peer = peer;
        local_port = local_port;
        remote_port = remote_port;
      } in
      let s1 = (allocate_connection_id s).0 in
      let id = s.next_connection_id in
      let made = client peer local_port remote_port isn now_ms s.config s.next_token in
      elim (Bool-cases (local_port == 0 || remote_port == 0)) [
        | inl a ↦ rw (a, connect_from_with_isn) (inl ((refl, refl), _, refl))
        | inr a ↦ elim (Result-cases (ensure_connection_capacity s peer)) [
          | inr (f, b) ↦ rw (a, b, connect_from_with_isn) (inl ((refl, refl), f, refl))
          | inl (u, b) ↦ elim (Option-cases (get key s.lookup)) [
            | inr (id', taken) ↦
                rw (a, b, taken, connect_from_with_isn) (inl ((refl, refl), _, refl))
            | inl free ↦
                let (segment, bytes, h, encodes, sent, same) =
                  client-syn peer local_port remote_port isn now_ms s.config s.next_token
                    (ground (arith, a)) (ground (arith, a)) in
                rw
                  (
                    a,
                    b,
                    free,
                    connect_from_with_isn,
                    h,
                    install-sends key id made.0 segment bytes s1 encodes,
                  )
                  (inr (made.0, (refl, sent, rw (same) free, refl, rw (same) refl)))
          ]
        ]
      ]

  -- `connect` of a stack fails and leaves both tables alone, or gives the next identifier and has
  -- entered under it one connection that waits for the answer to its SYN, and the identifier
  -- under the key of that connection, which was not in use.
  pub connect-Opens :
      (peer : P) (remote_port now_ms : ℕ) (s : Stack P)
      → Opens s (connect peer remote_port now_ms s)
  unfolding connect allocate_ephemeral_port next_isn
  connect-Opens peer remote_port now_ms s =
      Searched-Opens s (search_port 16384 s peer remote_port) _
        (search_port-Searched 16384 s peer remote_port)
        (λ s1 local_port. connect_from_with_isn-Opens peer local_port remote_port _ now_ms _)
