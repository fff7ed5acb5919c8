-- ===== src/Stack/Safety/Counters.antt =====
-- How many connection identifiers the calls of an application use up.
use fips_tcp.Common.{
  Bool-cases, Eq, List, Option-cases, Result-cases, [], arith, err, if◌then◌else◌, inl, inr,
  is_some, ok, refl, suc, u16_max, zero, ℕ, ◌+◌, ◌==◌, ◌||◌, ◌∙◌, ◌∷◌, ◌≡◌,
}
use fips_tcp.Connection.{Connection}
use fips_tcp.Connection.Send
use fips_tcp.Connection.Send.{client}
use fips_tcp.Connection.Receive
use fips_tcp.Connection.Timer
use fips_tcp.Wire.{Segment}
use fips_tcp.Stack.{ConnectionKey, Stack, Call, and_then}
use fips_tcp.Stack.Table.{nat_eq, get}
use fips_tcp.Stack.Core.{
  emit, key_eq, search_port, allocate_connection_id, allocate_ephemeral_port,
  ensure_connection_capacity, first_ephemeral_port, next_isn,
}
use fips_tcp.Stack.Open.{connect, connect_from_with_isn, install}
use fips_tcp.Stack.Open
use fips_tcp.Stack.Calls
use fips_tcp.Stack.Calls.{put, write_with_marker, poll_one, poll_all, remove_if}
use fips_tcp.Stack.Safety.Identifiers.{Gives, emit-next, remove_if-next, removed-next}

-- What follows a call and leaves the stack alone does not count.
pub done-next :
    {P A B : Type 0} (r : Call P A) (f : A → B)
    → (and_then r λ s a. (s, ok (f a))).0.next_connection_id ≡ r.0.next_connection_id
done-next (s, ok a) f = refl
done-next (s, err w) f = refl

module _ {P : Type 0} ⦃e : Eq P⦄ where
  pub write_with_marker-next :
      (id : ℕ) (bytes : List ℕ) (now_ms : ℕ) (s : Stack P)
      → (write_with_marker id bytes now_ms s).0.next_connection_id ≡ s.next_connection_id
  unfolding write_with_marker
  write_with_marker-next id bytes now_ms s = elim (Option-cases (get id s.connections)) [
    | inl a ↦ rw (a, write_with_marker) refl
    | inr (c, a) ↦ elim (Result-cases (Send.write c bytes now_ms s.config)) [
      | inr (f, b) ↦ rw (a, b, write_with_marker) refl
      | inl ((c', n, segments), b) ↦
          rw (a, b, write_with_marker)
            (done-next (emit id segments (put id c' s)) _ ∙ emit-next id segments (put id c' s))
    ]
  ]

  pub read-next :
      (id n : ℕ) (s : Stack P) → (Calls.read id n s).0.next_connection_id ≡ s.next_connection_id
  unfolding Calls.read
  read-next id n s = elim (Option-cases (get id s.connections)) [
    | inl a ↦ rw (a, Calls.read) refl
    | inr (c, a) ↦
        let r = Receive.read c n in
        rw (a, Calls.read)
          (done-next (emit id r.2 (put id r.0 s)) _ ∙ emit-next id r.2 (put id r.0 s))
  ]

  pub close-next :
      (id now_ms : ℕ) (s : Stack P)
      → (Calls.close id now_ms s).0.next_connection_id ≡ s.next_connection_id
  unfolding Calls.close
  close-next id now_ms s = elim (Option-cases (get id s.connections)) [
    | inl a ↦ rw (a, Calls.close) refl
    | inr (c, a) ↦
        let r = Send.close c now_ms in
        rw (a, Calls.close)
          (removed-next r.1.closed id (emit id r.1.segments (put id r.0 s))
            ∙ emit-next id r.1.segments (put id r.0 s))
  ]

  poll_one-next :
      (now_ms id : ℕ) (s : Stack P)
      → (poll_one now_ms id s).next_connection_id ≡ s.next_connection_id
  unfolding poll_one
  poll_one-next now_ms id s = elim (Option-cases (get id s.connections)) [
    | inl a ↦ rw (a, poll_one) refl
    | inr (c, a) ↦
        let r = Timer.poll c now_ms s.config in
        rw (a, poll_one)
          (remove_if-next r.1.closed id (emit id r.1.segments (put id r.0 s)).0
            ∙ emit-next id r.1.segments (put id r.0 s))
  ]

  poll_all-next :
      (now_ms : ℕ) (cs : List (ℕ × Connection P)) (s : Stack P)
      → (poll_all now_ms cs s).next_connection_id ≡ s.next_connection_id
  unfolding poll_all
  poll_all-next now_ms [] s = refl
  poll_all-next now_ms ((id, c) ∷ rest) s =
      poll_all-next now_ms rest (poll_one now_ms id s) ∙ poll_one-next now_ms id s

  pub poll-next :
      (now_ms : ℕ) (s : Stack P) → (Calls.poll now_ms s).next_connection_id ≡ s.next_connection_id
  unfolding Calls.poll
  poll-next now_ms s = poll_all-next now_ms s.connections s

  pub accept-next :
      (port : ℕ) (s : Stack P) → (Open.accept port s).0.next_connection_id ≡ s.next_connection_id
  unfolding Open.accept
  accept-next port s = elim (Option-cases (get port s.accepts)) [
    | inl a ↦ rw (a, Open.accept) refl
    | inr (q, a) ↦ rw (a, Open.accept) refl
  ]

  install-next :
      (key : ConnectionKey P) (id : ℕ) (c : Connection P) (segments : List Segment) (s : Stack P)
      → (install key id c segments s).0.next_connection_id ≡ s.next_connection_id
  unfolding install
  install-next key id c segments s = emit-next id segments _

  pub connect_from_with_isn-next :
      (peer : P) (local_port remote_port isn now_ms : ℕ) (s : Stack P)
      → Gives s.next_connection_id
          (connect_from_with_isn peer local_port remote_port isn now_ms s).0
  unfolding connect_from_with_isn allocate_connection_id
  connect_from_with_isn-next peer local_port remote_port isn now_ms s =
      let key : ConnectionKey P = record {
        peer = peer;
        local_port = local_port;
        remote_port = remote_port;
      } in
      let s1 = (allocate_connection_id s).0 in
      let id = s.next_connection_id in
      let made = client peer local_port remote_port isn now_ms s.config s.next_token in
      elim (Bool-cases (local_port == 0 || remote_port == 0)) [
        | inl a ↦ rw (a, connect_from_with_isn) (omega arith)
        | inr a ↦ elim (Result-cases (ensure_connection_capacity s peer)) [
          | inr (f, b) ↦ rw (a, b, connect_from_with_isn) (omega arith)
          | inl (u, b) ↦ elim (Bool-cases (is_some (get key s.lookup))) [
            | inl taken ↦ rw (a, b, taken, connect_from_with_isn) (omega arith)
            | inr free ↦
                rw (a, b, free, connect_from_with_isn)
                  (omega (
                    arith,
                    done-next (install key id made.0 made.1 s1) (λ (u : Unit {0}). id),
                    install-next key id made.0 made.1 s1,
                  ))
          ]
        ]
      ]

  search_port-next :
      (attempts : ℕ) (s : Stack P) (peer : P) (remote_port : ℕ)
      → (search_port attempts s peer remote_port).0.next_connection_id ≡ s.next_connection_id
  unfolding search_port
  search_port-next zero s peer remote_port = refl
  search_port-next (suc attempts) s peer remote_port =
      let port = s.next_ephemeral_port in
      let s' : Stack P = record s {
        next_ephemeral_port = if port == u16_max then first_ephemeral_port else port + 1;
      } in
      let key : ConnectionKey P = record {
        peer = peer;
        local_port = port;
        remote_port = remote_port;
      } in
      elim (Option-cases (get key s.lookup)) [
        | inl free ↦ rw (free, search_port) refl
        | inr (id, taken) ↦ rw (taken, search_port) (search_port-next attempts s' peer remote_port)
      ]

  connected-next :
      (n : ℕ) (r : Call P ℕ) (f : Stack P → ℕ → Call P ℕ)
      → r.0.next_connection_id ≡ n
      → ((s : Stack P) (port : ℕ) → Gives s.next_connection_id (f s port).0)
      → Gives n (and_then r f).0
  connected-next n (s, ok port) f h k = omega (arith, h, k s port)
  connected-next n (s, err w) f h k = omega (arith, h)

  pub connect-next :
      (peer : P) (remote_port now_ms : ℕ) (s : Stack P)
      → Gives s.next_connection_id (connect peer remote_port now_ms s).0
  unfolding connect allocate_ephemeral_port next_isn
  connect-next peer remote_port now_ms s =
      connected-next s.next_connection_id (search_port 16384 s peer remote_port) _
        (search_port-next 16384 s peer remote_port)
        λ s1 local_port. connect_from_with_isn-next peer local_port remote_port _ now_ms _
