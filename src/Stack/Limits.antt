-- ===== src/Stack/Limits.antt =====
-- stack_admission.rs: the limit on the number of connections, and `input` under it.
pub mod Calls
use fips_tcp.Common.{
  Bool, Bool-cases, Eq, List, Option-cases, Result-cases, [], ap, arith, err, false, inl, inr,
  length, not, ok, refl, some, suc, true, ℕ, ◌+◌, ◌<◌, ◌==◌, ◌∷◌, ◌≡◌, ◌≤◌,
}
use fips_tcp.Connection.{Connection, ack_segment}
use fips_tcp.Wire.{Segment, decode, fips_version_number, supports_fips_version}
use fips_tcp.Stack.{ConnectionKey, Stack, Call, and_then}
use fips_tcp.Stack.Table.{nat_eq, get, insert, remove}
use fips_tcp.Stack.Core.{
  emit, key_eq, remove_connection, ensure_connection_capacity, allocate_connection_id, emit_reset,
  next_isn,
}
use fips_tcp.Stack.Open.{install}
use fips_tcp.Stack.Calls.{put, remove_if}
use fips_tcp.Stack.Input.{
  input, accepted_if, challenges_syn, input_connection, input_other, input_segment, input_syn,
  resets_handshake,
}
use fips_tcp.Connection.Input.{on_segment}

module _ {ℓ} {V : Type ℓ} where
  length-insert : (id : ℕ) (v : V) (m : List (ℕ × V)) → length (insert id v m) ≤ length m + 1
  unfolding insert
  length-insert id v [] = omega arith
  length-insert id v ((j, w) ∷ m) = elim (Bool-cases (j == id)) [
    | inl e ↦ rw (e, insert) (omega arith)
    | inr e ↦ rw (e, insert) (omega (arith, length-insert id v m))
  ]

  length-insert_known :
      (id : ℕ) (v w : V) (m : List (ℕ × V)) → get id m ≡ some w → length (insert id v m) ≡ length m
  unfolding insert get
  length-insert_known id v w [] h = absurd (ground (arith, h))
  length-insert_known id v w ((j, u) ∷ m) h = elim (Bool-cases (j == id)) [
    | inl e ↦ rw (e, insert) refl
    | inr e ↦
        let h' : get id m ≡ some w = rw e at h in
        rw (e, insert) (ap suc (length-insert_known id v w m h'))
  ]

  length-remove : (id : ℕ) (m : List (ℕ × V)) → length (remove id m) ≤ length m
  unfolding remove
  length-remove id [] = omega arith
  length-remove id ((j, w) ∷ m) = elim (Bool-cases (j == id)) [
    | inl e ↦ rw (e, remove) (omega (arith, length-remove id m))
    | inr e ↦ rw (e, remove) (omega (arith, length-remove id m))
  ]

module _ {P : Type 0} ⦃e : Eq P⦄ (limit : ℕ) where
  -- The limit is that of the configuration, and it is kept.
  abbrev pub InLimit : Stack P → Type 0
  InLimit s = (s.config.max_connections ≡ limit) × (length s.connections ≤ limit)

  pub emit-InLimit :
      (id : ℕ) (segments : List Segment) (s : Stack P) → InLimit s → InLimit (emit id segments s).0
  unfolding emit
  emit-InLimit id segments s v = elim (Option-cases (get id s.connections)) [
    | inl h ↦ rw (h, emit) v
    | inr (c, h) ↦ rw (h, emit) v
  ]

  pub put-InLimit :
      (id : ℕ) (c c' : Connection P) (s : Stack P)
      → InLimit s
      → get id s.connections ≡ some c
      → InLimit (put id c' s)
  put-InLimit id c c' s v h = (v.0, omega (arith, v.1, length-insert_known id c' c s.connections h))

  pub remove_connection-InLimit :
      (id : ℕ) (s : Stack P) → InLimit s → InLimit (remove_connection id s)
  unfolding remove_connection
  remove_connection-InLimit id s v = elim (Option-cases (get id s.connections)) [
    | inl h ↦ rw (h, remove_connection) v
    | inr (c, h) ↦
        rw (h, remove_connection) (v.0, omega (arith, v.1, length-remove id s.connections))
  ]

  pub remove_if-InLimit : (b : Bool) (id : ℕ) (s : Stack P) → InLimit s → InLimit (remove_if b id s)
  remove_if-InLimit true id s v = remove_connection-InLimit id s v
  remove_if-InLimit false id s v = v

  pub and_then-InLimit :
      {A B : Type 0} (r : Call P A) (f : Stack P → A → Call P B)
      → InLimit r.0
      → ((s : Stack P) (a : A) → InLimit s → InLimit (f s a).0)
      → InLimit (and_then r f).0
  and_then-InLimit (s, ok a) f v k = k s a v
  and_then-InLimit (s, err x) f v k = v

  -- There is room for one more.
  pub capacity-room :
      (s : Stack P) (peer : P) (u : Unit {0})
      → ensure_connection_capacity s peer ≡ ok u
      → length s.connections < s.config.max_connections
  unfolding ensure_connection_capacity
  capacity-room s peer u h = ground (arith, h)

  pub install-InLimit :
      (key : ConnectionKey P) (id : ℕ) (c : Connection P) (segments : List Segment) (s : Stack P)
      → s.config.max_connections ≡ limit
      → length s.connections < limit
      → InLimit (install key id c segments s).0
  unfolding install
  install-InLimit key id c segments s v h =
      emit-InLimit id segments _ (v, omega (arith, h, length-insert id c s.connections))

  input_connection-InLimit :
      (peer : P) (id : ℕ) (c : Connection P) (segment : Segment) (now_ms : ℕ) (s : Stack P)
      → InLimit s
      → get id s.connections ≡ some c
      → InLimit (input_connection peer id c segment now_ms s).0
  unfolding input_connection emit_reset accepted_if
  input_connection-InLimit peer id c segment now_ms s v g =
      let r = on_segment c segment now_ms s.config in
      let kept = put-InLimit id c r.0 s v g in
      let s1 = accepted_if r.1.accepted id r.0 (put id r.0 s) in
      let accepted : InLimit s1 = ground (arith, kept) in
      let w =
        and_then-InLimit (emit id r.1.segments s1) _ (emit-InLimit id r.1.segments s1 accepted)
          (λ s2 u v2. remove_if-InLimit r.1.closed id s2 v2) in
      elim (Bool-cases (resets_handshake c segment)) [
        | inl a ↦ rw (a, input_connection) v
        | inr a ↦ elim (Bool-cases (challenges_syn c segment)) [
          | inl b ↦ rw (a, b, input_connection) (emit-InLimit id (ack_segment c ∷ []) s v)
          | inr b ↦ rw (a, b, input_connection) w
        ]
      ]

  input_syn-InLimit :
      (key : ConnectionKey P) (segment : Segment) (now_ms : ℕ) (s : Stack P)
      → InLimit s
      → InLimit (input_syn key segment now_ms s).0
  unfolding input_syn emit_reset allocate_connection_id next_isn
  input_syn-InLimit key segment now_ms s v =
      elim (Bool-cases (not (supports_fips_version segment fips_version_number))) [
        | inl a ↦ rw (a, input_syn) v
        | inr a ↦ elim (Result-cases (ensure_connection_capacity s key.peer)) [
          | inr (f, b) ↦ rw (a, b, input_syn) v
          | inl (u, b) ↦
              rw (a, b, input_syn)
                (install-InLimit key s.next_connection_id _ _ _ v.0
                  (omega (arith, v.0, capacity-room s key.peer u b)))
        ]
      ]

  pub input-InLimit :
      (peer : P) (bytes : List ℕ) (now_ms : ℕ) (s : Stack P)
      → InLimit s
      → InLimit (input peer bytes now_ms s).0
  unfolding input input_segment input_other emit_reset
  input-InLimit peer bytes now_ms s v = elim (Result-cases (decode bytes)) [
    | inr (w, a) ↦ rw (a, input) v
    | inl (segment, a) ↦
        let key : ConnectionKey P = record {
          peer = peer;
          local_port = segment.dst_port;
          remote_port = segment.src_port;
        } in
        let syn = input_syn-InLimit key segment now_ms s v in
        elim (Option-cases (get key s.lookup)) [
          | inl b ↦ rw (a, input, b, input_segment) (ground (arith, v, syn))
          | inr (id, b) ↦ elim (Option-cases (get id s.connections)) [
            | inl d ↦ rw (a, input, b, d, input_segment) v
            | inr (c, d) ↦
                rw (a, input, b, d, input_segment)
                  (input_connection-InLimit peer id c segment now_ms s v d)
          ]
        ]
  ]
