-- ===== src/Stack/Safety/Calls.antt =====
-- Panics and the consistency of the tables: the calls of the application.
use fips_tcp.Common.{
  Bool, Bool-cases, Eq, List, Option-cases, Result-cases, Yields-eq_ok, [], arith, err,
  if◌then◌else◌, inl, inr, is_some, leb, ok, refl, some, subst, suc, u16_max, u64_max, zero, ℕ, ◌+◌,
  ◌<◌, ◌==◌, ◌||◌, ◌∷◌, ◌≡◌,
}
use fips_tcp.Connection.{Connection, reset_segment, new}
use fips_tcp.Connection.Send
use fips_tcp.Connection.Send.{client, send_tracked}
use fips_tcp.Connection.Receive
use fips_tcp.Connection.Timer
use fips_tcp.Connection.Frame.{Holds, write-Holds, close-Holds, poll-Holds}
use fips_tcp.Types.{Config}
use fips_tcp.Wire.{Segment, encode}
use fips_tcp.Stack.{stack, panic, ConnectionKey, Stack, Call, and_then}
use fips_tcp.Stack.Table.{get, nat_eq}
use fips_tcp.Stack.Core.{
  key_of, key_eq, emit, allocate_connection_id, ensure_connection_capacity, first_ephemeral_port,
  search_port, allocate_ephemeral_port, next_isn, set_connection_reservation,
}
use fips_tcp.Stack.Open
use fips_tcp.Stack.Open.{connect, connect_from_with_isn, install}
use fips_tcp.Stack.Calls
use fips_tcp.Stack.Calls.{
  put, write_with_marker, poll_one, poll_all, abort_all, abort_peer, ids_of_peer,
}
use fips_tcp.Stack.Keys.{HasKey}
use fips_tcp.Stack.Consistency.{
  IsConsistent, emit-IsConsistent, put-IsConsistent, remove_connection-IsConsistent,
  remove_if-IsConsistent, IsSafe,
}
use fips_tcp.Stack.Safety.{
  Succeeds, key_of-HasKey, and_then-Succeeds, install-Succeeds, ensure_connection_capacity-IsSafe,
}

module _ {P : Type 0} ⦃e : Eq P⦄ where
  -- A connection is changed in its place, and its segments go out.
  changed-Succeeds :
      (id : ℕ) (c c' : Connection P) (segments : List Segment) (s : Stack P)
      → IsConsistent s
      → get id s.connections ≡ some c
      → Holds (HasKey (key_of c)) c'
      → Succeeds (emit id segments (put id c' s))
  changed-Succeeds id c c' segments s v g k =
      emit-IsConsistent id segments (put id c' s)
        (put-IsConsistent id c c' s v g (key_of-HasKey (key_of c) c' k))

  pub write_with_marker-Succeeds :
      (id : ℕ) (bytes : List ℕ) (now_ms : ℕ) (s : Stack P)
      → IsConsistent s
      → Succeeds (write_with_marker id bytes now_ms s)
  unfolding write_with_marker
  write_with_marker-Succeeds id bytes now_ms s v = elim (Option-cases (get id s.connections)) [
    | inl a ↦ rw (a, write_with_marker) (v, tt)
    | inr (c, a) ↦
        let keeps = write-Holds (HasKey (key_of c)) c bytes now_ms s.config (refl, refl, refl) in
        elim (Result-cases (Send.write c bytes now_ms s.config)) [
          | inl ((c', n, segments), b) ↦
              rw (a, b, write_with_marker)
                (and_then-Succeeds (emit id segments (put id c' s)) _
                  (changed-Succeeds id c c' segments s v a (
                    Yields-eq_ok (λ r. Holds (HasKey (key_of c)) r.0)
                      (Send.write c bytes now_ms s.config) keeps b))
                  (λ s' u w. (w, tt)))
          | inr (f, b) ↦ rw (a, b, write_with_marker) (v, tt)
        ]
  ]

  pub read-Succeeds : (id n : ℕ) (s : Stack P) → IsConsistent s → Succeeds (Calls.read id n s)
  unfolding Calls.read Receive.read
  read-Succeeds id n s v = elim (Option-cases (get id s.connections)) [
    | inl a ↦ rw (a, Calls.read) (v, tt)
    | inr (c, a) ↦
        rw (a, Calls.read)
          (and_then-Succeeds (emit id (Receive.read c n).2 (put id (Receive.read c n).0 s)) _
            (changed-Succeeds id c (Receive.read c n).0 (Receive.read c n).2 s v a
              (refl, refl, refl))
            (λ s' u w. (w, tt)))
  ]

  pub close-Succeeds :
      (id now_ms : ℕ) (s : Stack P) → IsConsistent s → Succeeds (Calls.close id now_ms s)
  unfolding Calls.close
  close-Succeeds id now_ms s v = elim (Option-cases (get id s.connections)) [
    | inl a ↦ rw (a, Calls.close) (v, tt)
    | inr (c, a) ↦
        let r = Send.close c now_ms in
        rw (a, Calls.close)
          (and_then-Succeeds (emit id r.1.segments (put id r.0 s)) _
            (changed-Succeeds id c r.0 r.1.segments s v a
              (close-Holds (HasKey (key_of c)) c now_ms (refl, refl, refl)))
            (λ s' u w. (remove_if-IsConsistent r.1.closed id s' w, tt)))
  ]

  poll_one-IsConsistent :
      (now_ms id : ℕ) (s : Stack P) → IsConsistent s → IsConsistent (poll_one now_ms id s)
  unfolding poll_one
  poll_one-IsConsistent now_ms id s v = elim (Option-cases (get id s.connections)) [
    | inl a ↦ rw (a, poll_one) v
    | inr (c, a) ↦
        let r = Timer.poll c now_ms s.config in
        rw (a, poll_one)
          (remove_if-IsConsistent r.1.closed id (emit id r.1.segments (put id r.0 s)).0
            (changed-Succeeds id c r.0 r.1.segments s v a
              (poll-Holds (HasKey (key_of c)) c now_ms s.config (refl, refl, refl))).0)
  ]

  poll_all-IsConsistent :
      (now_ms : ℕ) (cs : List (ℕ × Connection P)) (s : Stack P)
      → IsConsistent s
      → IsConsistent (poll_all now_ms cs s)
  unfolding poll_all
  poll_all-IsConsistent now_ms [] s v = v
  poll_all-IsConsistent now_ms ((id, c) ∷ rest) s v =
      poll_all-IsConsistent now_ms rest (poll_one now_ms id s) (poll_one-IsConsistent now_ms id s v)

  pub poll-IsConsistent :
      (now_ms : ℕ) (s : Stack P) → IsConsistent s → IsConsistent (Calls.poll now_ms s)
  unfolding Calls.poll
  poll-IsConsistent now_ms s v = poll_all-IsConsistent now_ms s.connections s v

  pub abort-Succeeds : (id : ℕ) (s : Stack P) → IsConsistent s → Succeeds (Calls.abort id s)
  unfolding Calls.abort
  abort-Succeeds id s v = elim (Option-cases (get id s.connections)) [
    | inl a ↦ rw (a, Calls.abort) (v, tt)
    | inr (c, a) ↦ elim (Result-cases (encode (reset_segment c))) [
      | inl (bytes, b) ↦
          rw (a, b, Calls.abort)
            (
              remove_connection-IsConsistent id _ (record { linked = v.linked; fresh = v.fresh }),
              tt,
            )
      | inr (f, b) ↦ rw (a, b, Calls.abort) (v, tt)
    ]
  ]

  client-key_of :
      (peer : P) (local_port remote_port isn now_ms : ℕ) (config : Config) (token : ℕ)
      → key_of (client peer local_port remote_port isn now_ms config token).0
        ≡ record { peer = peer; local_port = local_port; remote_port = remote_port }
  unfolding client new send_tracked
  client-key_of peer local_port remote_port isn now_ms config token = refl

  pub connect_from_with_isn-Succeeds :
      (peer : P) (local_port remote_port isn now_ms : ℕ) (s : Stack P)
      → IsConsistent s
      → s.next_connection_id < u64_max
      → Succeeds (connect_from_with_isn peer local_port remote_port isn now_ms s)
  unfolding connect_from_with_isn allocate_connection_id
  connect_from_with_isn-Succeeds peer local_port remote_port isn now_ms s v n =
      let key : ConnectionKey P = record {
        peer = peer;
        local_port = local_port;
        remote_port = remote_port;
      } in
      let s1 = (allocate_connection_id s).0 in
      let id = s.next_connection_id in
      let made = client peer local_port remote_port isn now_ms s.config s.next_token in
      let w =
        and_then-Succeeds (install key id made.0 made.1 s1) (λ s2 u. (s2, ok id))
          (install-Succeeds key id made.0 made.1 s1 v.linked v.fresh (omega (arith, n))
            (client-key_of peer local_port remote_port isn now_ms s.config s.next_token))
          (λ s2 u v2. (v2, tt)) in
      elim (Bool-cases (local_port == 0 || remote_port == 0)) [
        | inl a ↦ rw (a, connect_from_with_isn) (v, tt)
        | inr a ↦ elim (Result-cases (ensure_connection_capacity s peer)) [
          | inr (f, b) ↦
              rw (a, b, connect_from_with_isn)
                (v, subst IsSafe b (ensure_connection_capacity-IsSafe s peer))
          | inl (u, b) ↦ elim (Bool-cases (is_some (get key s.lookup))) [
            | inl taken ↦ rw (a, b, taken, connect_from_with_isn) (v, tt)
            | inr free ↦ rw (a, b, free, connect_from_with_isn) w
          ]
        ]
      ]

  search_port-Succeeds :
      (attempts : ℕ) (s : Stack P) (peer : P) (remote_port : ℕ)
      → IsConsistent s
      → Succeeds (search_port attempts s peer remote_port)
        × ((search_port attempts s peer remote_port).0.next_connection_id ≡ s.next_connection_id)
  unfolding search_port
  search_port-Succeeds zero s peer remote_port v = ((v, tt), refl)
  search_port-Succeeds (suc attempts) s peer remote_port v =
      let port = s.next_ephemeral_port in
      let s' : Stack P = record s {
        next_ephemeral_port = if port == u16_max then first_ephemeral_port else port + 1;
      } in
      let v' : IsConsistent s' = record { linked = v.linked; fresh = v.fresh } in
      let key : ConnectionKey P = record {
        peer = peer;
        local_port = port;
        remote_port = remote_port;
      } in
      elim (Option-cases (get key s.lookup)) [
        | inl free ↦ rw (free, search_port) ((v', tt), refl)
        | inr (id, taken) ↦
            rw (taken, search_port) (search_port-Succeeds attempts s' peer remote_port v')
      ]

  -- What follows a call starts from the stack that the call leaves.
  pub and_then_at :
      {A B : Type 0} (r : Call P A) (f : Stack P → A → Call P B)
      → Succeeds r
      → ((a : A) → Succeeds (f r.0 a))
      → Succeeds (and_then r f)
  and_then_at (s, ok a) f v k = k a
  and_then_at (s, err (stack w)) f v k = (v.0, tt)
  and_then_at (s, err panic) f v k = absurd v.1

  pub connect-Succeeds :
      (peer : P) (remote_port now_ms : ℕ) (s : Stack P)
      → IsConsistent s
      → s.next_connection_id < u64_max
      → Succeeds (connect peer remote_port now_ms s)
  unfolding connect allocate_ephemeral_port next_isn
  connect-Succeeds peer remote_port now_ms s v n =
      let r = search_port 16384 s peer remote_port in
      let w = search_port-Succeeds 16384 s peer remote_port v in
      and_then_at r _ w.0 λ local_port.
        let (s2, isn) = next_isn r.0 in
        connect_from_with_isn-Succeeds peer local_port remote_port isn now_ms s2
          (record { linked = w.0.0.linked; fresh = w.0.0.fresh }) (omega (arith, n, w.1))

  abort_all-Succeeds : (ids : List ℕ) (s : Stack P) → IsConsistent s → Succeeds (abort_all ids s)
  unfolding abort_all
  abort_all-Succeeds [] s v = (v, tt)
  abort_all-Succeeds (id ∷ ids) s v =
      and_then-Succeeds (Calls.abort id s) (λ s' u. abort_all ids s') (abort-Succeeds id s v)
        λ s' u w. abort_all-Succeeds ids s' w

  pub abort_peer-Succeeds : (peer : P) (s : Stack P) → IsConsistent s → Succeeds (abort_peer peer s)
  unfolding abort_peer
  abort_peer-Succeeds peer s v =
      and_then-Succeeds (abort_all (ids_of_peer peer s.connections) s) _
        (abort_all-Succeeds (ids_of_peer peer s.connections) s v) λ s' u w. (w, tt)

  pub set_connection_reservation-Succeeds :
      (s : Stack P) (slots : ℕ) (eligible : P → Bool)
      → IsConsistent s
      → Succeeds (set_connection_reservation s slots eligible)
  unfolding set_connection_reservation
  set_connection_reservation-Succeeds s slots eligible v =
      elim (Bool-cases (leb s.config.max_connections slots)) [
        | inl e ↦ rw (e, set_connection_reservation) (v, tt)
        | inr e ↦
            rw (e, set_connection_reservation) (record { linked = v.linked; fresh = v.fresh }, tt)
      ]

  pub accept-IsConsistent :
      (port : ℕ) (s : Stack P) → IsConsistent s → IsConsistent (Open.accept port s).0
  unfolding Open.accept
  accept-IsConsistent port s v = elim (Option-cases (get port s.accepts)) [
    | inl e ↦ rw (e, Open.accept) v
    | inr (q, e) ↦ rw (e, Open.accept) (record { linked = v.linked; fresh = v.fresh })
  ]
