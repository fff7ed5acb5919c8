-- ===== src/Stack/Undo.antt =====
-- Closing a connection that waits for the answer to its SYN, against opening it.
use fips_tcp.Common.{Eq, [], ap, arith, none, ok, refl, some, ℕ, ◌∙◌, ◌≡◌}
use fips_tcp.Types.{syn_sent}
use fips_tcp.Connection.{Connection, Update, closed_update}
use fips_tcp.Connection.Send
use fips_tcp.Stack.{ConnectionKey, Stack, and_then}
use fips_tcp.Stack.Table.{nat_eq, get, get-removed, insert, get-insert_other, get-insert_same}
use fips_tcp.Stack.Core.{key_of, key_eq, emit, remove_connection, emit_to}
use fips_tcp.Stack.Calls
use fips_tcp.Stack.Calls.{put}

module _ {P : Type 0} ⦃e : Eq P⦄ where
  -- Two stacks hold the same connections, by their identifiers and by their keys.
  abbrev pub SameMaps : Stack P → Stack P → Type 0
  SameMaps s s' =
      ((id : ℕ) → get id s'.connections ≡ get id s.connections)
      × ((key : ConnectionKey P) → get key s'.lookup ≡ get key s.lookup)

  close-waiting :
      (now_ms : ℕ) (c : Connection P)
      → c.state ≡ syn_sent
      → Send.close c now_ms ≡ (c, closed_update [])
  unfolding Send.close
  close-waiting now_ms c h = ground (arith, h)

  -- `close` removes a connection that waits for the answer to its SYN.
  close-syn_sent :
      (id now_ms : ℕ) (c : Connection P) (s : Stack P)
      → get id s.connections ≡ some c
      → c.state ≡ syn_sent
      → (Calls.close id now_ms s).0 ≡ remove_connection id (put id c s)
  unfolding Calls.close emit emit_to
  close-syn_sent id now_ms c s g h =
      let after : Connection P × Update → Stack P = λ r.
        (and_then (emit id r.1.segments (put id r.0 s))
          λ s' u. (Calls.remove_if r.1.closed id s', ok tt)).0 in
      rw (g, Calls.close)
        (ap after (close-waiting now_ms c h)
          ∙ rw (emit, get-insert_same id c s.connections, emit_to) refl)

  pub close-SameMaps :
      (id now_ms : ℕ) (c : Connection P) (s s' : Stack P)
      → get id s.connections ≡ none
      → get (key_of c) s.lookup ≡ none
      → c.state ≡ syn_sent
      → s'.connections ≡ insert id c s.connections
      → s'.lookup ≡ insert (key_of c) id s.lookup
      → SameMaps s (Calls.close id now_ms s').0
  unfolding remove_connection
  close-SameMaps id now_ms c s s' free unused sent cs ls =
      let found : get id s'.connections ≡ some c = rw (cs) (get-insert_same id c s.connections) in
      rw
        (
          close-syn_sent id now_ms c s' found sent,
          remove_connection,
          get-insert_same id c s'.connections,
        )
        (
          λ j. get-removed id j s.connections (insert id c s'.connections) free λ other.
              get-insert_other id j c s'.connections other
              ∙ ap (get j) cs
              ∙ get-insert_other id j c s.connections other,
          λ key.
              get-removed (key_of c) key s.lookup s'.lookup unused
                λ other. ap (get key) ls ∙ get-insert_other (key_of c) key id s.lookup other,
        )
