-- ===== src/Stack/Safety/Identifiers.antt =====
-- How many connection identifiers `Stack::input` uses up.
use fips_tcp.Common.{
  Bool, Bool-cases, Eq, List, Option-cases, Result-cases, [], arith, err, false, inl, inr, not, ok,
  refl, true, ℕ, ◌+◌, ◌∙◌, ◌∷◌, ◌≡◌, ◌≤◌,
}
use fips_tcp.Connection.{Connection, ack_segment}
use fips_tcp.Connection.Input.{on_segment}
use fips_tcp.Wire.{Segment, decode, fips_version_number, supports_fips_version}
use fips_tcp.Stack.{ConnectionKey, Stack, Call, and_then}
use fips_tcp.Stack.Table.{nat_eq, get}
use fips_tcp.Stack.Core.{
  emit, remove_connection, key_eq, allocate_connection_id, emit_reset, ensure_connection_capacity,
  next_isn,
}
use fips_tcp.Stack.Open.{install}
use fips_tcp.Stack.Calls.{remove_if, put}
use fips_tcp.Stack.Input.{
  input, accepted_if, challenges_syn, input_connection, input_other, input_segment, input_syn,
  resets_handshake,
}

module _ {P : Type 0} ⦃e : Eq P⦄ where
  -- At most one identifier more is given.
  abbrev pub Gives : ℕ → Stack P → Type 0
  Gives n s = s.next_connection_id ≤ n + 1

  pub emit-next :
      (id : ℕ) (segments : List Segment) (s : Stack P)
      → (emit id segments s).0.next_connection_id ≡ s.next_connection_id
  unfolding emit
  emit-next id segments s = elim (Option-cases (get id s.connections)) [
    | inl h ↦ rw (h, emit) refl
    | inr (c, h) ↦ rw (h, emit) refl
  ]

  pub remove_if-next :
      (b : Bool) (id : ℕ) (s : Stack P)
      → (remove_if b id s).next_connection_id ≡ s.next_connection_id
  unfolding remove_connection
  remove_if-next false id s = refl
  remove_if-next true id s = elim (Option-cases (get id s.connections)) [
    | inl h ↦ rw (h, remove_connection) refl
    | inr (c, h) ↦ rw (h, remove_connection) refl
  ]

  accepted_if-next :
      (b : Bool) (id : ℕ) (c : Connection P) (s : Stack P)
      → (accepted_if b id c s).next_connection_id ≡ s.next_connection_id
  unfolding accepted_if
  accepted_if-next true id c s = refl
  accepted_if-next false id c s = refl

  pub removed-next :
      (b : Bool) (id : ℕ) (r : Call P (Unit {0}))
      → (and_then r λ s u. (remove_if b id s, ok tt)).0.next_connection_id ≡ r.0.next_connection_id
  removed-next b id (s, ok u) = remove_if-next b id s
  removed-next b id (s, err f) = refl

  input_connection-next :
      (peer : P) (id : ℕ) (c : Connection P) (segment : Segment) (now_ms : ℕ) (s : Stack P)
      → (input_connection peer id c segment now_ms s).0.next_connection_id ≡ s.next_connection_id
  unfolding input_connection emit_reset
  input_connection-next peer id c segment now_ms s =
      let r = on_segment c segment now_ms s.config in
      let s1 = accepted_if r.1.accepted id r.0 (put id r.0 s) in
      elim (Bool-cases (resets_handshake c segment)) [
        | inl a ↦ rw (a, input_connection) refl
        | inr a ↦ elim (Bool-cases (challenges_syn c segment)) [
          | inl b ↦ rw (a, b, input_connection) (emit-next id (ack_segment c ∷ []) s)
          | inr b ↦
              rw (a, b, input_connection)
                (removed-next r.1.closed id (emit id r.1.segments s1)
                  ∙ emit-next id r.1.segments s1
                  ∙ accepted_if-next r.1.accepted id r.0 (put id r.0 s))
        ]
      ]

  input_syn-next :
      (key : ConnectionKey P) (segment : Segment) (now_ms : ℕ) (s : Stack P)
      → Gives s.next_connection_id (input_syn key segment now_ms s).0
  unfolding input_syn emit_reset allocate_connection_id next_isn install
  input_syn-next key segment now_ms s =
      elim (Bool-cases (not (supports_fips_version segment fips_version_number))) [
        | inl a ↦ rw (a, input_syn) (omega arith)
        | inr a ↦ elim (Result-cases (ensure_connection_capacity s key.peer)) [
          | inr (f, b) ↦ rw (a, b, input_syn) (omega arith)
          | inl (u, b) ↦ rw (a, b, input_syn, emit-next) (omega arith)
        ]
      ]

  input_segment-next :
      (peer : P) (segment : Segment) (now_ms : ℕ) (s : Stack P)
      → Gives s.next_connection_id (input_segment peer segment now_ms s).0
  unfolding input_segment input_other emit_reset
  input_segment-next peer segment now_ms s =
      let key : ConnectionKey P = record {
        peer = peer;
        local_port = segment.dst_port;
        remote_port = segment.src_port;
      } in
      elim (Option-cases (get key s.lookup)) [
        | inl a ↦ rw (a, input_segment) (ground (arith, input_syn-next key segment now_ms s))
        | inr (id, a) ↦ elim (Option-cases (get id s.connections)) [
          | inl b ↦ rw (a, b, input_segment) (omega arith)
          | inr (c, b) ↦ rw (a, b, input_segment, input_connection-next) (omega arith)
        ]
      ]

  pub input-next :
      (peer : P) (bytes : List ℕ) (now_ms : ℕ) (s : Stack P)
      → Gives s.next_connection_id (input peer bytes now_ms s).0
  unfolding input
  input-next peer bytes now_ms s = elim (Result-cases (decode bytes)) [
    | inl (segment, a) ↦ rw (a, input) (input_segment-next peer segment now_ms s)
    | inr (w, a) ↦ rw (a, input) (omega arith)
  ]
