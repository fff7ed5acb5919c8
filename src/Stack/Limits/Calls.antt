-- ===== src/Stack/Limits/Calls.antt =====
-- The calls of the application under the limit on connections.
use fips_tcp.Common.{
  Bool-cases, Eq, List, Option-cases, Result-cases, [], arith, if◌then◌else◌, inl, inr, is_some, ok,
  some, suc, u16_max, zero, ℕ, ◌+◌, ◌==◌, ◌||◌, ◌∷◌, ◌≡◌,
}
use fips_tcp.Stack.{Stack, Call, ConnectionKey}
use fips_tcp.Stack.Table.{nat_eq, get}
use fips_tcp.Stack.Core.{
  emit, key_eq, search_port, allocate_connection_id, allocate_ephemeral_port,
  ensure_connection_capacity, first_ephemeral_port, next_isn,
}
use fips_tcp.Stack.Open.{connect, connect_from_with_isn, install}
use fips_tcp.Stack.Calls
use fips_tcp.Stack.Calls.{put, write_with_marker, poll_one, poll_all}
use fips_tcp.Stack.Limits.{
  InLimit, and_then-InLimit, emit-InLimit, input-InLimit, install-InLimit, put-InLimit,
  remove_connection-InLimit, remove_if-InLimit, capacity-room,
}
use fips_tcp.Stack.History
use fips_tcp.Stack.History.{
  Event, step, finished, arrives, connects, connects_from, writes, closes, polls, aborts,
}
use fips_tcp.Connection.{Connection, reset_segment}
use fips_tcp.Connection.Send
use fips_tcp.Connection.Send.{client}
use fips_tcp.Connection.Receive
use fips_tcp.Connection.Timer
use fips_tcp.Wire.{Segment, encode}

module _ {P : Type 0} ⦃e : Eq P⦄ (limit : ℕ) where
  -- A connection is changed in its place, and its segments go out.
  changed-InLimit :
      (id : ℕ) (c c' : Connection P) (segments : List Segment) (s : Stack P)
      → InLimit limit s
      → get id s.connections ≡ some c
      → InLimit limit (emit id segments (put id c' s)).0
  changed-InLimit id c c' segments s v g =
      emit-InLimit limit id segments (put id c' s) (put-InLimit limit id c c' s v g)

  write_with_marker-InLimit :
      (id : ℕ) (bytes : List ℕ) (now_ms : ℕ) (s : Stack P)
      → InLimit limit s
      → InLimit limit (write_with_marker id bytes now_ms s).0
  unfolding write_with_marker
  write_with_marker-InLimit id bytes now_ms s v = elim (Option-cases (get id s.connections)) [
    | inl a ↦ rw (a, write_with_marker) v
    | inr (c, a) ↦ elim (Result-cases (Send.write c bytes now_ms s.config)) [
      | inr (f, b) ↦ rw (a, b, write_with_marker) v
      | inl ((c', n, segments), b) ↦
          rw (a, b, write_with_marker)
            (and_then-InLimit limit (emit id segments (put id c' s)) _
              (changed-InLimit id c c' segments s v a) (λ s' u w. w))
    ]
  ]

  read-InLimit : (id n : ℕ) (s : Stack P) → InLimit limit s → InLimit limit (Calls.read id n s).0
  unfolding Calls.read
  read-InLimit id n s v = elim (Option-cases (get id s.connections)) [
    | inl a ↦ rw (a, Calls.read) v
    | inr (c, a) ↦
        let r = Receive.read c n in
        rw (a, Calls.read)
          (and_then-InLimit limit (emit id r.2 (put id r.0 s)) _
            (changed-InLimit id c r.0 r.2 s v a) (λ s' u w. w))
  ]

  close-InLimit :
      (id now_ms : ℕ) (s : Stack P) → InLimit limit s → InLimit limit (Calls.close id now_ms s).0
  unfolding Calls.close
  close-InLimit id now_ms s v = elim (Option-cases (get id s.connections)) [
    | inl a ↦ rw (a, Calls.close) v
    | inr (c, a) ↦
        let r = Send.close c now_ms in
        rw (a, Calls.close)
          (and_then-InLimit limit (emit id r.1.segments (put id r.0 s)) _
            (changed-InLimit id c r.0 r.1.segments s v a)
            (λ s' u w. remove_if-InLimit limit r.1.closed id s' w))
  ]

  poll_one-InLimit :
      (now_ms id : ℕ) (s : Stack P) → InLimit limit s → InLimit limit (poll_one now_ms id s)
  unfolding poll_one
  poll_one-InLimit now_ms id s v = elim (Option-cases (get id s.connections)) [
    | inl a ↦ rw (a, poll_one) v
    | inr (c, a) ↦
        let r = Timer.poll c now_ms s.config in
        rw (a, poll_one)
          (remove_if-InLimit limit r.1.closed id (emit id r.1.segments (put id r.0 s)).0
            (changed-InLimit id c r.0 r.1.segments s v a))
  ]

  poll_all-InLimit :
      (now_ms : ℕ) (cs : List (ℕ × Connection P)) (s : Stack P)
      → InLimit limit s
      → InLimit limit (poll_all now_ms cs s)
  unfolding poll_all
  poll_all-InLimit now_ms [] s v = v
  poll_all-InLimit now_ms ((id, c) ∷ rest) s v =
      poll_all-InLimit now_ms rest (poll_one now_ms id s) (poll_one-InLimit now_ms id s v)

  abort-InLimit : (id : ℕ) (s : Stack P) → InLimit limit s → InLimit limit (Calls.abort id s).0
  unfolding Calls.abort
  abort-InLimit id s v = elim (Option-cases (get id s.connections)) [
    | inl a ↦ rw (a, Calls.abort) v
    | inr (c, a) ↦ elim (Result-cases (encode (reset_segment c))) [
      | inl (bytes, b) ↦ rw (a, b, Calls.abort) (remove_connection-InLimit limit id _ v)
      | inr (f, b) ↦ rw (a, b, Calls.abort) v
    ]
  ]

  connect_from_with_isn-InLimit :
      (peer : P) (local_port remote_port isn now_ms : ℕ) (s : Stack P)
      → InLimit limit s
      → InLimit limit (connect_from_with_isn peer local_port remote_port isn now_ms s).0
  unfolding connect_from_with_isn allocate_connection_id
  connect_from_with_isn-InLimit peer local_port remote_port isn now_ms s v =
      let key : ConnectionKey P = record {
        peer = peer;
        local_port = local_port;
        remote_port = remote_port;
      } in
      let s1 = (allocate_connection_id s).0 in
      let id = s.next_connection_id in
      let made = client peer local_port remote_port isn now_ms s.config s.next_token in
      elim (Bool-cases (local_port == 0 || remote_port == 0)) [
        | inl a ↦ rw (a, connect_from_with_isn) v
        | inr a ↦ elim (Result-cases (ensure_connection_capacity s peer)) [
          | inr (f, b) ↦ rw (a, b, connect_from_with_isn) v
          | inl (u, b) ↦ elim (Bool-cases (is_some (get key s.lookup))) [
            | inl taken ↦ rw (a, b, taken, connect_from_with_isn) v
            | inr free ↦
                rw (a, b, free, connect_from_with_isn)
                  (and_then-InLimit limit (install key id made.0 made.1 s1) (λ s2 u. (s2, ok id))
                    (install-InLimit limit key id made.0 made.1 s1 v.0
                      (omega (arith, v.0, capacity-room limit s peer u b)))
                    (λ s2 u w. w))
          ]
        ]
      ]

  search_port-InLimit :
      (attempts : ℕ) (s : Stack P) (peer : P) (remote_port : ℕ)
      → InLimit limit s
      → InLimit limit (search_port attempts s peer remote_port).0
  unfolding search_port
  search_port-InLimit zero s peer remote_port v = v
  search_port-InLimit (suc attempts) s peer remote_port v =
      let port = s.next_ephemeral_port in
      let s' : Stack P = record s {
        next_ephemeral_port = if port == u16_max then first_ephemeral_port else port + 1;
      } in
      let key : ConnectionKey P = record {
        peer = peer;
        local_port = port;
        remote_port = remote_port;
      } in
      elim (Option-cases (get key s.lookup)) [
        | inl free ↦ rw (free, search_port) v
        | inr (id, taken) ↦
            rw (taken, search_port) (search_port-InLimit attempts s' peer remote_port v)
      ]

  connect-InLimit :
      (peer : P) (remote_port now_ms : ℕ) (s : Stack P)
      → InLimit limit s
      → InLimit limit (connect peer remote_port now_ms s).0
  unfolding connect allocate_ephemeral_port next_isn
  connect-InLimit peer remote_port now_ms s v =
      and_then-InLimit limit (search_port 16384 s peer remote_port) _
        (search_port-InLimit 16384 s peer remote_port v)
        λ s1 local_port w. connect_from_with_isn-InLimit peer local_port remote_port _ now_ms _ w

  finished-InLimit : {A : Type 0} (r : Call P A) → InLimit limit r.0 → InLimit limit (finished r).0
  finished-InLimit r v = and_then-InLimit limit r (λ s a. (s, ok tt)) v (λ s a w. w)

  -- A stack that holds at most as many connections as its configuration allows does so after each
  -- of `input`, `connect`, `connect_from_with_isn`, `write_with_marker`, `read`, `close`, `poll`
  -- and `abort`, at any arguments, and keeps the limit.
  pub step-InLimit : (x : Event P) (s : Stack P) → InLimit limit s → InLimit limit (step x s).0
  unfolding step Calls.poll
  step-InLimit (arrives peer bytes now_ms) s v = input-InLimit limit peer bytes now_ms s v
  step-InLimit (connects peer remote_port now_ms) s v =
      finished-InLimit (connect peer remote_port now_ms s)
        (connect-InLimit peer remote_port now_ms s v)
  step-InLimit (connects_from peer local_port remote_port isn now_ms) s v =
      finished-InLimit (connect_from_with_isn peer local_port remote_port isn now_ms s)
        (connect_from_with_isn-InLimit peer local_port remote_port isn now_ms s v)
  step-InLimit (writes id bytes now_ms) s v =
      finished-InLimit (write_with_marker id bytes now_ms s)
        (write_with_marker-InLimit id bytes now_ms s v)
  step-InLimit (History.reads id k) s v =
      finished-InLimit (Calls.read id k s) (read-InLimit id k s v)
  step-InLimit (closes id now_ms) s v = close-InLimit id now_ms s v
  step-InLimit (polls now_ms) s v = poll_all-InLimit now_ms s.connections s v
  step-InLimit (aborts id) s v = abort-InLimit id s v
