-- ===== src/Endpoint/Rollback.antt =====
-- `connect` of the adapter: what is left when it fails.
use fips_tcp.Common.{Option-cases, ap, arith, err, inl, inr, none, ok, ℕ, ◌≡◌}
use fips_tcp.Types.{syn_sent}
use fips_tcp.Connection.{Connection}
use fips_tcp.Stack.{Stack, Call, stack, panic}
use fips_tcp.Stack.Table.{nat_eq, get, insert}
use fips_tcp.Stack.Core.{key_of, key_eq}
use fips_tcp.Stack.Open
use fips_tcp.Stack.Calls.{drain_outbound}
use fips_tcp.Stack.Opening.{Opens, connect-Opens}
use fips_tcp.Stack.Undo.{SameMaps, close-SameMaps}
use fips_tcp.Stack.Consistency.{IsConsistent}
use fips_tcp.Endpoint.Peer.{Fips, PeerKey, key_eq as peer_eq, from}
use fips_tcp.Endpoint.{Endpoint, Action, Fault, and_then, on_stack, flush}
use fips_tcp.Endpoint.Calls.{rolled_back, connect}

module _ {F : Fips} where
  flushed-rolls_back :
      (id now_ms : ℕ) (c : Connection (PeerKey F)) (s : Stack (PeerKey F)) (r : Action F (Unit {0}))
      → get id s.connections ≡ none
      → get (key_of c) s.lookup ≡ none
      → c.state ≡ syn_sent
      → r.0.stack.connections ≡ insert id c s.connections
      → r.0.stack.lookup ≡ insert (key_of c) id s.lookup
      → (x : Fault F) → (rolled_back id now_ms r).1 ≡ err x
      → SameMaps s (rolled_back id now_ms r).0.stack
  unfolding rolled_back
  flushed-rolls_back id now_ms c s (ep, ok u) free unused sent cs ls x h =
      absurd (ground (arith, h))
  flushed-rolls_back id now_ms c s (ep, err y) free unused sent cs ls x h =
      close-SameMaps id now_ms c s ep.stack free unused sent cs ls

  opened-rolls_back :
      (now_ms : ℕ) (ep : Endpoint F) (r : Call (PeerKey F) ℕ)
      → get ep.stack.next_connection_id ep.stack.connections ≡ none
      → Opens ep.stack r
      → (x : Fault F)
      → let q = and_then (on_stack ep r) λ ep' id. rolled_back id now_ms (flush ep') in
        q.1 ≡ err x → SameMaps ep.stack q.0.stack
  unfolding flush drain_outbound
  opened-rolls_back now_ms ep (s, ok id) free (inl (same, f, h)) x k = absurd (ground (arith, h))
  opened-rolls_back now_ms ep (s, ok id) free (inr (c, (o, sent, unused, cs, ls))) x k =
      let i : id ≡ ep.stack.next_connection_id = ground (arith, o) in
      flushed-rolls_back id now_ms c ep.stack (flush (record ep { stack = s })) (rw (i) free) unused
        sent (rw (i) cs) (rw (i) ls) x k
  opened-rolls_back now_ms ep (s, err (stack w)) free (inl ((cs, ls), f, h)) x k =
      (λ id. ap (get id) cs, λ key. ap (get key) ls)
  opened-rolls_back now_ms ep (s, err panic) free (inl ((cs, ls), f, h)) x k =
      (λ id. ap (get id) cs, λ key. ap (get key) ls)
  opened-rolls_back now_ms ep (s, err w) free (inr (c, o)) x k = absurd (ground (arith, o.0))

  next-unused :
      (s : Stack (PeerKey F)) → IsConsistent s → get s.next_connection_id s.connections ≡ none
  next-unused s v = elim (Option-cases (get s.next_connection_id s.connections)) [
    | inl free ↦ free
    | inr (c, taken) ↦
        let less = v.fresh s.next_connection_id c taken in absurd (omega (arith, less))
  ]

  -- When `connect` of an endpoint fails, at a stack whose tables agree, the tables hold
  -- afterwards what they held before: every identifier has the same connection, or none, and
  -- every pair of a peer and ports the same identifier, or none. In particular, a connection
  -- whose SYN could not be sent is gone.
  pub connect-rolls_back :
      (peer : F.Identity) (now_ms : ℕ) (ep : Endpoint F) (x : Fault F)
      → IsConsistent ep.stack
      → (connect peer now_ms ep).1 ≡ err x
      → SameMaps ep.stack (connect peer now_ms ep).0.stack
  unfolding connect
  connect-rolls_back peer now_ms ep x v h =
      opened-rolls_back now_ms ep (Open.connect (from F peer) ep.fsp_service_port now_ms ep.stack)
        (next-unused ep.stack v) (connect-Opens (from F peer) ep.fsp_service_port now_ms ep.stack) x
        h
