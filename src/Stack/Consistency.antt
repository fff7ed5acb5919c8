-- ===== src/Stack/Consistency.antt =====
-- The two tables of a stack: what `lookup` names is in `connections`, under the peer and the ports
-- that it was looked up by.
use fips_tcp.Common.{
  Bool, Bool-cases, Eq, List, Option-cases, Result, Result-cases, [], ap, arith, err, false, inl,
  inr, ok, some, subst, sym, true, ℕ, ◌++◌, ◌+◌, ◌<◌, ◌==◌, ◌∙◌, ◌∷◌, ◌≡◌,
}
use fips_tcp.Connection.{Connection}
use fips_tcp.Wire.{Segment, encode}
use fips_tcp.Stack.{ConnectionKey, Stack, Failure, Outbound, panic, stack}
use fips_tcp.Stack.Table.{
  get, insert, remove, nat_eq, get-insert, get-remove, get-insert_other, get-insert_same,
  get-remove_other,
}
use fips_tcp.Stack.Core.{emit, emit_reset, emit_to, reset_for, key_of, key_eq, remove_connection}
use fips_tcp.Stack.Calls.{put, remove_if}

module _ {P : Type 0} ⦃e : Eq P⦄ where
  abbrev pub Linked : List (ConnectionKey P × ℕ) → List (ℕ × Connection P) → Type 0
  Linked lookup connections =
      (key : ConnectionKey P) (id : ℕ)
      → get key lookup ≡ some id
      → (c : Connection P) × (get id connections ≡ some c) × (key_of c ≡ key)

  abbrev pub Fresh : ℕ → List (ℕ × Connection P) → Type 0
  Fresh next connections = (id : ℕ) (c : Connection P) → get id connections ≡ some c → id < next

  -- `install` of a connection under an identifier that is not in use.
  pub insert-Linked :
      (key : ConnectionKey P) (id : ℕ) (c : Connection P) (lookup : List (ConnectionKey P × ℕ))
      (connections : List (ℕ × Connection P))
      → Linked lookup connections
      → Fresh id connections
      → key_of c ≡ key
      → Linked (insert key id lookup) (insert id c connections)
  insert-Linked key id c lookup connections v f k key' id' h =
      elim (Bool-cases (key_eq.beq key key')) [
        | inl same ↦
            let i : id ≡ id' = ground (arith, get-insert key key' id lookup, same, h) in
            (
              c,
              subst (λ j. get j (insert id c connections) ≡ some c) i
                  (get-insert_same id c connections),
              k ∙ (key_eq.beq_iff key key').0 same,
            )
        | inr other ↦
            let old = v key' id' (sym (get-insert_other key key' id lookup other) ∙ h) in
            let less = f id' old.0 old.1 in
            (old.0, get-insert_other id id' c connections (ground (arith, less)) ∙ old.1, old.2)
      ]

  pub insert-Fresh :
      (id : ℕ) (c : Connection P) (connections : List (ℕ × Connection P))
      → Fresh id connections
      → Fresh (id + 1) (insert id c connections)
  insert-Fresh id c connections f id' c' h = elim (Bool-cases (id == id')) [
    | inl same ↦ ground (arith, same)
    | inr other ↦
        let less = f id' c' (sym (get-insert_other id id' c connections other) ∙ h) in
        omega (arith, less)
  ]

  -- `put` of a connection in the place of one with the same key.
  put-Linked :
      (id : ℕ) (c c' : Connection P) (lookup : List (ConnectionKey P × ℕ))
      (connections : List (ℕ × Connection P))
      → Linked lookup connections
      → get id connections ≡ some c
      → key_of c' ≡ key_of c
      → Linked lookup (insert id c' connections)
  put-Linked id c c' lookup connections v g k key id' h =
      let old = v key id' h in
      elim (Bool-cases (id == id')) [
        | inl same ↦
            let i : id ≡ id' = ground (arith, same) in
            let o : c ≡ old.0 = ground (arith, g, old.1, i) in
            (
              c',
              subst (λ j. get j (insert id c' connections) ≡ some c') i
                  (get-insert_same id c' connections),
              k ∙ ap key_of o ∙ old.2,
            )
        | inr other ↦ (old.0, get-insert_other id id' c' connections other ∙ old.1, old.2)
      ]

  put-Fresh :
      (id next : ℕ) (c c' : Connection P) (connections : List (ℕ × Connection P))
      → Fresh next connections
      → get id connections ≡ some c
      → Fresh next (insert id c' connections)
  put-Fresh id next c c' connections f g id' d h = elim (Bool-cases (id == id')) [
    | inl same ↦ let less = f id c g in ground (arith, less, same)
    | inr other ↦ f id' d (sym (get-insert_other id id' c' connections other) ∙ h)
  ]

  -- `remove_connection`
  remove-Linked :
      (id : ℕ) (c : Connection P) (lookup : List (ConnectionKey P × ℕ))
      (connections : List (ℕ × Connection P))
      → Linked lookup connections
      → get id connections ≡ some c
      → Linked (remove (key_of c) lookup) (remove id connections)
  remove-Linked id c lookup connections v g key id' h =
      elim (Bool-cases (key_eq.beq (key_of c) key)) [
        | inl same ↦ absurd (ground (arith, get-remove (key_of c) key lookup, same, h))
        | inr other ↦
            let old = v key id' (sym (get-remove_other (key_of c) key lookup other) ∙ h) in
            elim (Bool-cases (id == id')) [
              | inl again ↦
                  let i : id ≡ id' = ground (arith, again) in
                  let o : c ≡ old.0 = ground (arith, g, old.1, i) in
                  let met : key_eq.beq (key_of c) key ≡ true =
                    (key_eq.beq_iff (key_of c) key).1 (ap key_of o ∙ old.2) in
                  absurd (ground (arith, met, other))
              | inr apart ↦ (old.0, get-remove_other id id' connections apart ∙ old.1, old.2)
            ]
      ]

  remove-Fresh :
      (id next : ℕ) (connections : List (ℕ × Connection P))
      → Fresh next connections
      → Fresh next (remove id connections)
  remove-Fresh id next connections f id' c h = elim (Bool-cases (id == id')) [
    | inl same ↦ absurd (ground (arith, get-remove id id' connections, same, h))
    | inr other ↦ f id' c (sym (get-remove_other id id' connections other) ∙ h)
  ]

-- The tables agree, and no identifier is in use that is still to be given.
pub record IsConsistent {P : Type 0} ⦃e : Eq P⦄ (s : Stack P) : Type 0 where
  pub linked : Linked s.lookup s.connections
  pub fresh : Fresh s.next_connection_id s.connections

-- The call did not panic.
abbrev pub IsSafe : {A : Type 0} → Result Failure A → Type 0
IsSafe (ok a) = Unit
IsSafe (err (stack e)) = Unit
IsSafe (err panic) = ⊥

emit_to-IsSafe :
    {P : Type 0} (peer : P) (segments : List Segment) (out : List (Outbound P))
    → IsSafe (emit_to peer segments out).1
unfolding emit_to
emit_to-IsSafe peer [] out = tt
emit_to-IsSafe peer (s ∷ ss) out = elim (Result-cases (encode s)) [
  | inl (bytes, e) ↦
      rw (e, emit_to) (emit_to-IsSafe peer ss (out ++ (record { peer = peer; bytes = bytes } ∷ [])))
  | inr (w, e) ↦ rw (e, emit_to) tt
]

module _ {P : Type 0} ⦃e : Eq P⦄ where
  pub emit-IsConsistent :
      (id : ℕ) (segments : List Segment) (s : Stack P)
      → IsConsistent s
      → IsConsistent (emit id segments s).0 × IsSafe (emit id segments s).1
  unfolding emit
  emit-IsConsistent id segments s v = elim (Option-cases (get id s.connections)) [
    | inl h ↦ rw (h, emit) (v, tt)
    | inr (c, h) ↦
        rw (h, emit)
          (record { linked = v.linked; fresh = v.fresh }, emit_to-IsSafe c.peer segments s.outbound)
  ]

  pub emit_reset-IsConsistent :
      (peer : P) (incoming : Segment) (s : Stack P)
      → IsConsistent s
      → IsConsistent (emit_reset peer incoming s).0 × IsSafe (emit_reset peer incoming s).1
  unfolding emit_reset
  emit_reset-IsConsistent peer incoming s v = (
    record { linked = v.linked; fresh = v.fresh },
    emit_to-IsSafe peer (reset_for incoming ∷ []) s.outbound,
  )

  pub remove_connection-IsConsistent :
      (id : ℕ) (s : Stack P) → IsConsistent s → IsConsistent (remove_connection id s)
  unfolding remove_connection
  remove_connection-IsConsistent id s v = elim (Option-cases (get id s.connections)) [
    | inl h ↦ rw (h, remove_connection) v
    | inr (c, h) ↦
        rw (h, remove_connection)
          (record {
            linked = remove-Linked id c s.lookup s.connections v.linked h;
            fresh = remove-Fresh id s.next_connection_id s.connections v.fresh;
          })
  ]

  pub remove_if-IsConsistent :
      (b : Bool) (id : ℕ) (s : Stack P) → IsConsistent s → IsConsistent (remove_if b id s)
  remove_if-IsConsistent true id s v = remove_connection-IsConsistent id s v
  remove_if-IsConsistent false id s v = v

  pub put-IsConsistent :
      (id : ℕ) (c c' : Connection P) (s : Stack P)
      → IsConsistent s
      → get id s.connections ≡ some c
      → key_of c' ≡ key_of c
      → IsConsistent (put id c' s)
  put-IsConsistent id c c' s v g k = record {
    linked = put-Linked id c c' s.lookup s.connections v.linked g k;
    fresh = put-Fresh id s.next_connection_id c c' s.connections v.fresh g;
  }
