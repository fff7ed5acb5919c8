-- ===== src/Stack/Aborts.antt =====
-- stack_abort.rs: what `abort` and `abort_peer` leave in the table of connections.
use fips_tcp.Common.{
  All, Bool-cases, Eq, List, Option-cases, Result-cases, [], arith, err, false, inl, inr, length,
  none, ok, some, subst, true, ℕ, ◌==◌, ◌∷◌, ◌≡◌,
}
use fips_tcp.Connection.{Connection, reset_segment}
use fips_tcp.Wire.{encode}
use fips_tcp.Stack.{Stack, Call, and_then}
use fips_tcp.Stack.Table.{nat_eq, get, get-remove, remove}
use fips_tcp.Stack.Core.{key_eq, remove_connection}
use fips_tcp.Stack.Calls.{abort, abort_all, abort_peer, ids_of_peer}

module _ {P : Type 0} ⦃e : Eq P⦄ where
  -- The connections of one stack are among those of another.
  abbrev Shrinks : Stack P → Stack P → Type 0
  Shrinks s s' =
      (id : ℕ) (c : Connection P) → get id s'.connections ≡ some c → get id s.connections ≡ some c

  -- A call that succeeds has removed a connection.
  abbrev Removes : ℕ → Stack P → Call P (Unit {0}) → Type 0
  Removes id s (s', ok u) = Shrinks s s' × (get id s'.connections ≡ none)
  Removes id s (s', err x) = Unit

  remove-Shrinks :
      (id : ℕ) (s : Stack P) (id' : ℕ) (c : Connection P)
      → get id' (remove id s.connections) ≡ some c
      → get id' s.connections ≡ some c
  remove-Shrinks id s id' c h = ground (arith, h, get-remove id id' s.connections)

  abort-Removes : (id : ℕ) (s : Stack P) → Removes id s (abort id s)
  unfolding abort remove_connection
  abort-Removes id s = elim (Option-cases (get id s.connections)) [
    | inl a ↦ rw (a, abort) tt
    | inr (c, a) ↦ elim (Result-cases (encode (reset_segment c))) [
      | inr (w, b) ↦ rw (a, b, abort) tt
      | inl (bytes, b) ↦
          let gone : get id (remove id s.connections) ≡ none =
            ground (arith, get-remove id id s.connections) in
          rw (a, b, abort, a, remove_connection) (remove-Shrinks id s, gone)
    ]
  ]

  -- A call that succeeds has removed the connections of a list.
  abbrev RemovesAll : List ℕ → Stack P → Call P (Unit {0}) → Type 0
  RemovesAll ids s (s', ok u) = Shrinks s s' × All (λ id. get id s'.connections ≡ none) ids
  RemovesAll ids s (s', err x) = Unit

  still_gone :
      (id : ℕ) (s s' : Stack P)
      → Shrinks s s'
      → get id s.connections ≡ none
      → get id s'.connections ≡ none
  still_gone id s s' h g = elim (Option-cases (get id s'.connections)) [
    | inl n ↦ n
    | inr (c, f) ↦ absurd (ground (arith, g, h id c f))
  ]

  both-RemovesAll :
      (id : ℕ) (ids : List ℕ) (s s1 : Stack P) (r : Call P (Unit {0}))
      → Shrinks s s1
      → get id s1.connections ≡ none
      → RemovesAll ids s1 r
      → RemovesAll (id ∷ ids) s r
  both-RemovesAll id ids s s1 (s', ok u) h g v =
      (λ id' c f. h id' c (v.0 id' c f), (still_gone id s1 s' v.0 g, v.1))
  both-RemovesAll id ids s s1 (s', err x) h g v = tt

  then-RemovesAll :
      (id : ℕ) (ids : List ℕ) (s : Stack P) (r : Call P (Unit {0}))
      → Removes id s r
      → ((s1 : Stack P) → RemovesAll ids s1 (abort_all ids s1))
      → RemovesAll (id ∷ ids) s (and_then r λ s' u. abort_all ids s')
  then-RemovesAll id ids s (s1, ok u) v k =
      both-RemovesAll id ids s s1 (abort_all ids s1) v.0 v.1 (k s1)
  then-RemovesAll id ids s (s1, err x) v k = tt

  abort_all-RemovesAll : (ids : List ℕ) (s : Stack P) → RemovesAll ids s (abort_all ids s)
  unfolding abort_all
  abort_all-RemovesAll [] s = (λ id c h. h, tt)
  abort_all-RemovesAll (id ∷ ids) s =
      then-RemovesAll id ids s (abort id s) (abort-Removes id s) (abort_all-RemovesAll ids)

  -- Every connection of the peer is in the list.
  ids_of_peer-complete :
      (S : ℕ → Type 0) (peer : P) (id : ℕ) (c : Connection P) (cs : List (ℕ × Connection P))
      → get id cs ≡ some c
      → e.beq c.peer peer ≡ true
      → All S (ids_of_peer peer cs)
      → S id
  unfolding get ids_of_peer
  ids_of_peer-complete S peer id c [] h k v = absurd (ground (arith, h))
  ids_of_peer-complete S peer id c ((j, d) ∷ cs) h k v = elim (Bool-cases (e.beq d.peer peer)) [
    | inl yours ↦
        let v' : S j × All S (ids_of_peer peer cs) = rw yours at v in
        elim (Bool-cases (j == id)) [
          | inl same ↦ let i : j ≡ id = ground (arith, same) in subst S i v'.0
          | inr other ↦
              let h' : get id cs ≡ some c = rw other at h in
              ids_of_peer-complete S peer id c cs h' k v'.1
        ]
    | inr theirs ↦
        let v' : All S (ids_of_peer peer cs) = rw theirs at v in
        elim (Bool-cases (j == id)) [
          | inl same ↦
              let h' : some d ≡ some c = rw same at h in absurd (ground (arith, h', k, theirs))
          | inr other ↦
              let h' : get id cs ≡ some c = rw other at h in
              ids_of_peer-complete S peer id c cs h' k v'
        ]
  ]

  -- A call that succeeds leaves no connection of the peer.
  abbrev pub Clears : {A : Type 0} → P → Call P A → Type 0
  Clears peer (s', ok n) =
      (id : ℕ) (c : Connection P) → get id s'.connections ≡ some c → e.beq c.peer peer ≡ false
  Clears peer (s', err x) = Unit

  counted-Clears :
      (peer : P) (n : ℕ) (s : Stack P) (r : Call P (Unit {0}))
      → RemovesAll (ids_of_peer peer s.connections) s r
      → Clears peer (and_then r λ s' u. (s', ok n))
  counted-Clears peer n s (s', err x) v = tt
  counted-Clears peer n s (s', ok u) v = λ id c h. elim (Bool-cases (e.beq c.peer peer)) [
    | inr other ↦ other
    | inl same ↦
        let gone : get id s'.connections ≡ none =
          ids_of_peer-complete (λ j. get j s'.connections ≡ none) peer id c s.connections
            (v.0 id c h) same v.1 in
        absurd (ground (arith, gone, h))
  ]

  -- When `abort_peer` succeeds, no identifier has a connection of the peer any more.
  pub abort_peer-Clears : (peer : P) (s : Stack P) → Clears peer (abort_peer peer s)
  unfolding abort_peer
  abort_peer-Clears peer s =
      counted-Clears peer (length (ids_of_peer peer s.connections)) s
        (abort_all (ids_of_peer peer s.connections) s)
        (abort_all-RemovesAll (ids_of_peer peer s.connections) s)
