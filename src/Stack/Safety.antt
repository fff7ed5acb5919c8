-- ===== src/Stack/Safety.antt =====
-- Panics and the consistency of the tables: `Stack::input`.
pub mod Calls
pub mod Identifiers
pub mod Counters
use fips_tcp.Common.{
  Bool, Bool-cases, Eq, List, Option-cases, Result-cases, [], arith, err, false, inl, inr, leb,
  length, not, ok, refl, some, subst, sym, true, u64_max, wrapping_add, ℕ, ◌&&◌, ◌+◌, ◌<◌, ◌||◌,
  ◌∷◌, ◌≡◌,
}
use fips_tcp.Connection.{Connection, ack_segment, new}
use fips_tcp.Connection.Send.{negotiate_mss, send_tracked}
use fips_tcp.Connection.Send.{server}
use fips_tcp.Connection.Input.{on_segment}
use fips_tcp.Connection.Frame.{Holds, update_remote_window-Holds}
use fips_tcp.Types.{Config, syn_received}
use fips_tcp.Wire.{
  Segment, decode, ack_flag, contains, fips_version_number, rst_flag, supports_fips_version,
  syn_flag,
}
use fips_tcp.Stack.{ConnectionKey, Stack, Call, and_then, panic, stack}
use fips_tcp.Stack.Table.{get, nat_eq, insert}
use fips_tcp.Stack.Core.{
  key_of, key_eq, emit, allocate_connection_id, ensure_connection_capacity, mem, next_isn,
  peer_count, refused_by_reservation,
}
use fips_tcp.Stack.Open.{install}
use fips_tcp.Stack.Calls.{put, remove_if}
use fips_tcp.Stack.Input.{
  input, input_connection, input_syn, input_other, input_segment, input, accepted_if,
  challenges_syn, resets_handshake,
}
use fips_tcp.Stack.Keys.{HasKey, on_segment-HasKey}
use fips_tcp.Stack.Consistency.{
  IsConsistent, IsSafe, Linked, Fresh, insert-Linked, insert-Fresh, emit-IsConsistent,
  emit_reset-IsConsistent, put-IsConsistent, remove_if-IsConsistent,
}

pub key_of-HasKey :
    {P : Type 0} (key : ConnectionKey P) (c : Connection P) → Holds (HasKey key) c → key_of c ≡ key
key_of-HasKey key c v = ground (arith, v)

module _ {P : Type 0} ⦃e : Eq P⦄ where
  -- A call leaves consistent tables and does not panic.
  abbrev pub Succeeds : {A : Type 0} → Call P A → Type 0
  Succeeds r = IsConsistent r.0 × IsSafe r.1

  pub and_then-Succeeds :
      {A B : Type 0} (r : Call P A) (f : Stack P → A → Call P B)
      → Succeeds r
      → ((s : Stack P) (a : A) → IsConsistent s → Succeeds (f s a))
      → Succeeds (and_then r f)
  and_then-Succeeds (s, ok a) f v k = k s a v.0
  and_then-Succeeds (s, err (stack w)) f v k = (v.0, tt)
  and_then-Succeeds (s, err panic) f v k = absurd v.1

  pub install-Succeeds :
      (key : ConnectionKey P) (id : ℕ) (c : Connection P) (segments : List Segment) (s : Stack P)
      → Linked s.lookup s.connections
      → Fresh id s.connections
      → s.next_connection_id ≡ id + 1
      → key_of c ≡ key
      → Succeeds (install key id c segments s)
  unfolding install
  install-Succeeds key id c segments s v f n k = emit-IsConsistent id segments _ (record {
    linked = insert-Linked key id c s.lookup s.connections v f k;
    fresh =
        subst (λ m. Fresh m (insert id c s.connections)) (sym n)
          (insert-Fresh id c s.connections f);
  })

  accepted_if-IsConsistent :
      (b : Bool) (id : ℕ) (c : Connection P) (s : Stack P)
      → IsConsistent s
      → IsConsistent (accepted_if b id c s)
  unfolding accepted_if
  accepted_if-IsConsistent true id c s v = record { linked = v.linked; fresh = v.fresh }
  accepted_if-IsConsistent false id c s v = v

  input_connection-Succeeds :
      (peer : P) (id : ℕ) (c : Connection P) (segment : Segment) (now_ms : ℕ) (s : Stack P)
      → IsConsistent s
      → get id s.connections ≡ some c
      → Succeeds (input_connection peer id c segment now_ms s)
  unfolding input_connection
  input_connection-Succeeds peer id c segment now_ms s v g =
      let r = on_segment c segment now_ms s.config in
      let k =
        key_of-HasKey (key_of c) r.0
          (on_segment-HasKey (key_of c) s.config c segment now_ms (refl, refl, refl)) in
      let kept = put-IsConsistent id c r.0 s v g k in
      let s1 = accepted_if r.1.accepted id r.0 (put id r.0 s) in
      let w =
        and_then-Succeeds (emit id r.1.segments s1) _
          (emit-IsConsistent id r.1.segments s1
            (accepted_if-IsConsistent r.1.accepted id r.0 (put id r.0 s) kept))
          (λ s2 u v2. (remove_if-IsConsistent r.1.closed id s2 v2, tt)) in
      elim (Bool-cases (resets_handshake c segment)) [
        | inl a ↦ rw (a, input_connection) (emit_reset-IsConsistent peer segment s v)
        | inr a ↦ elim (Bool-cases (challenges_syn c segment)) [
          | inl b ↦ rw (a, b, input_connection) (emit-IsConsistent id (ack_segment c ∷ []) s v)
          | inr b ↦ rw (a, b, input_connection) w
        ]
      ]

  server-key_of :
      (peer : P) (syn : Segment) (isn now_ms : ℕ) (config : Config) (token : ℕ)
      → let c = (server peer syn isn now_ms config token).0 in
        key_of c ≡ record { peer = peer; local_port = syn.dst_port; remote_port = syn.src_port }
  unfolding server negotiate_mss send_tracked new
  server-key_of peer syn isn now_ms config token =
      let key : ConnectionKey P = record {
        peer = peer;
        local_port = syn.dst_port;
        remote_port = syn.src_port;
      } in
      let start =
        new peer syn.dst_port syn.src_port syn_received isn (wrapping_add syn.seq 1) config token in
      key_of-HasKey key (server peer syn isn now_ms config token).0
        (update_remote_window-Holds (HasKey key) start syn.window now_ms (refl, refl, refl))

  pub ensure_connection_capacity-IsSafe :
      (s : Stack P) (peer : P) → IsSafe (ensure_connection_capacity s peer)
  unfolding ensure_connection_capacity
  ensure_connection_capacity-IsSafe s peer =
      let full =
        leb s.config.max_connections (length s.connections)
        || leb s.config.max_connections_per_peer (peer_count peer s.connections) in
      elim (Bool-cases full) [
        | inl a ↦ rw (a, ensure_connection_capacity) tt
        | inr a ↦ elim (Bool-cases (refused_by_reservation s peer)) [
          | inl b ↦ rw (a, b, ensure_connection_capacity) tt
          | inr b ↦ rw (a, b, ensure_connection_capacity) tt
        ]
      ]

  input_syn-Succeeds :
      (peer : P) (segment : Segment) (now_ms : ℕ) (s : Stack P)
      → IsConsistent s
      → s.next_connection_id < u64_max
      → Succeeds (
          input_syn
            (record { peer = peer; local_port = segment.dst_port; remote_port = segment.src_port })
            segment
            now_ms
            s)
  unfolding input_syn allocate_connection_id next_isn
  input_syn-Succeeds peer segment now_ms s v n =
      let (s2, isn) = next_isn (allocate_connection_id s).0 in
      let made = server peer segment isn now_ms s.config s.next_token in
      let key : ConnectionKey P = record {
        peer = peer;
        local_port = segment.dst_port;
        remote_port = segment.src_port;
      } in
      let w =
        install-Succeeds key s.next_connection_id made.0 made.1 s2 v.linked v.fresh
          (omega (arith, n)) (server-key_of peer segment isn now_ms s.config s.next_token) in
      elim (Bool-cases (not (supports_fips_version segment fips_version_number))) [
        | inl a ↦ rw (a, input_syn) (emit_reset-IsConsistent peer segment s v)
        | inr a ↦ elim (Result-cases (ensure_connection_capacity s peer)) [
          | inl (u, b) ↦ rw (a, b, input_syn) w
          | inr (f, b) ↦
              rw (a, b, input_syn) (v, subst IsSafe b (ensure_connection_capacity-IsSafe s peer))
        ]
      ]

  input_other-Succeeds :
      (peer : P) (segment : Segment) (now_ms : ℕ) (s : Stack P)
      → IsConsistent s
      → s.next_connection_id < u64_max
      → Succeeds (
          input_other
            (record { peer = peer; local_port = segment.dst_port; remote_port = segment.src_port })
            segment
            now_ms
            s)
  unfolding input_other
  input_other-Succeeds peer segment now_ms s v n =
      let syn =
        contains segment.flags syn_flag
        && (not (contains segment.flags ack_flag) && mem segment.dst_port s.listeners) in
      elim (Bool-cases syn) [
        | inl a ↦ rw (a, input_other) (input_syn-Succeeds peer segment now_ms s v n)
        | inr a ↦ elim (Bool-cases (contains segment.flags rst_flag)) [
          | inl b ↦ rw (a, b, input_other) (v, tt)
          | inr b ↦ rw (a, b, input_other) (emit_reset-IsConsistent peer segment s v)
        ]
      ]

  input_segment-Succeeds :
      (peer : P) (segment : Segment) (now_ms : ℕ) (s : Stack P)
      → IsConsistent s
      → s.next_connection_id < u64_max
      → Succeeds (input_segment peer segment now_ms s)
  unfolding input_segment
  input_segment-Succeeds peer segment now_ms s v n =
      let key : ConnectionKey P = record {
        peer = peer;
        local_port = segment.dst_port;
        remote_port = segment.src_port;
      } in
      elim (Option-cases (get key s.lookup)) [
        | inl a ↦ rw (a, input_segment) (input_other-Succeeds peer segment now_ms s v n)
        | inr (id, a) ↦
            let (c, g, k) = v.linked key id a in
            rw (a, g, input_segment) (input_connection-Succeeds peer id c segment now_ms s v g)
      ]

  pub input-Succeeds :
      (peer : P) (bytes : List ℕ) (now_ms : ℕ) (s : Stack P)
      → IsConsistent s
      → s.next_connection_id < u64_max
      → Succeeds (input peer bytes now_ms s)
  unfolding input
  input-Succeeds peer bytes now_ms s v n = elim (Result-cases (decode bytes)) [
    | inl (segment, a) ↦ rw (a, input) (input_segment-Succeeds peer segment now_ms s v n)
    | inr (w, a) ↦ rw (a, input) (v, tt)
  ]

  -- A stack without connections.
  pub empty-IsConsistent : (s : Stack P) → s.lookup ≡ [] → s.connections ≡ [] → IsConsistent s
  unfolding get
  empty-IsConsistent s l c = record {
    linked = λ key id h. absurd (ground (arith, l, h));
    fresh = λ id d h. absurd (ground (arith, c, h));
  }
