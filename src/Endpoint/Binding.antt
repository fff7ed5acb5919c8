-- ===== src/Endpoint/Binding.antt =====
-- What `bind` and `bind_with_capability` of the adapter give.
use fips_tcp.Common.{
  Bool-cases, Option-cases, Result-cases, Yields, Yields-eq_ok, [], arith, err, false, inl, inr,
  max, none, ok, refl, some, subst, true, ℕ, ◌==◌, ◌≡◌, ◌≤◌,
}
use fips_tcp.Types.{Config, validate}
use fips_tcp.Stack.{Call, Stack, panic, stack}
use fips_tcp.Stack.Core.{first_ephemeral_port, mem}
use fips_tcp.Stack.Table.{nat_eq}
use fips_tcp.Stack.Open
use fips_tcp.Stack.Open.{listen}
use fips_tcp.Stack.Safety.{empty-IsConsistent}
use fips_tcp.Endpoint.Peer.{Fips, PeerKey, key_eq}
use fips_tcp.Endpoint.{Endpoint, Fault, panicked, adapter}
use fips_tcp.Endpoint.Bind.{left_by, bind, bind_with_capability, listening_stack, bound}
use fips_tcp.Endpoint.Safety.{IsSound, NoPanic}

module _ {F : Fips} where
  -- A stack that listens on a port and has no connection yet.
  abbrev pub Listens : ℕ → Stack (PeerKey F) → Type 0
  Listens port s =
      (1 ≤ port)
      × (mem port s.listeners ≡ true)
      × (s.connections ≡ [])
      × (s.lookup ≡ [])
      × (s.next_connection_id ≡ 1)

  -- An endpoint that owns a port other than 0, and listens on it.
  abbrev pub IsReady : ℕ → Endpoint F → Type 0
  IsReady port ep = IsSound ep × (ep.fsp_service_port ≡ port) × Listens port ep.stack

module _ (F : Fips) where
  listen-Listens :
      (port : ℕ) (s : Stack (PeerKey F))
      → 1 ≤ port
      → s.listeners ≡ []
      → s.connections ≡ []
      → s.lookup ≡ []
      → s.next_connection_id ≡ 1
      → ((listen port s).1 ≡ ok tt) × Listens port (listen port s).0
  unfolding listen
  listen-Listens port s p l c k n =
      let nonzero : (port == 0) ≡ false = ground (arith, p) in
      let found : (port == port) ≡ true = ground arith in
      rw (nonzero, listen, l) (refl, (p, rw (found) refl, c, k, n))

  left_by-Listens :
      (port : ℕ) (r : Call (PeerKey F) (Unit {0}))
      → r.1 ≡ ok tt
      → Listens port r.0
      → Yields (Listens port) (left_by {F = F} r) × NoPanic (left_by {F = F} r)
  left_by-Listens port (s, ok u) h k = (k, tt)
  left_by-Listens port (s, err (stack x)) h k = (tt, tt)
  left_by-Listens port (s, err panic) h k = absurd (ground (arith, h))

  new-empty :
      (config : Config) (isn_seed token : ℕ)
      → validate config ≡ ok tt
      → (s : Stack (PeerKey F)) × (Open.new config isn_seed token ≡ some s)
        × (s.listeners ≡ [])
        × (s.connections ≡ [])
        × (s.lookup ≡ [])
        × (s.next_connection_id ≡ 1)
  unfolding Open.new
  new-empty config isn_seed token v = (
    record {
      config = config;
      reservation = none;
      listeners = [];
      accepts = [];
      connections = [];
      lookup = [];
      outbound = [];
      next_connection_id = 1;
      next_ephemeral_port = first_ephemeral_port;
      isn_state = max isn_seed 1;
      next_token = token;
    },
    rw (Open.new, v) refl,
    refl,
    refl,
    refl,
    refl,
  )

  listening_stack-Listens :
      (port : ℕ) (config : Config) (isn_seed token : ℕ)
      → validate config ≡ ok tt
      → let r = listening_stack {F = F} port config isn_seed token in
        Yields (Listens port) r × NoPanic r
  unfolding listening_stack
  listening_stack-Listens port config isn_seed token v =
      let (s, made, l, c, k, n) = new-empty config isn_seed token v in
      elim (Bool-cases (port == 0)) [
        | inl at_zero ↦ rw (at_zero, listening_stack) (tt, tt)
        | inr nonzero ↦
            let h = listen-Listens port s (ground (arith, nonzero)) l c k n in
            rw (nonzero, listening_stack, made) (left_by-Listens port (listen port s) h.0 h.1)
      ]

  bound-IsReady :
      (port : ℕ) (s : Stack (PeerKey F)) (w : F.World)
      → Listens port s
      → IsReady port (bound port s w)
  bound-IsReady port s w h =
      (record { tables = empty-IsConsistent s h.3 h.2; batch = omega arith }, refl, h)

  same_fault :
      (x : Fault F)
      → NoPanic {F = F} {A = Stack (PeerKey F)} (err x)
      → NoPanic {F = F} {A = Endpoint F} (err x)
  same_fault (adapter e) h = tt
  same_fault panicked h = h

  -- With a valid configuration `bind` does not panic, and an endpoint that it gives is sound,
  -- owns the port that was asked for, which is not 0, and listens on it with a stack without
  -- connections.
  pub bind-IsReady :
      (port : ℕ) (config : Config) (isn_seed token : ℕ) (w : F.World)
      → validate config ≡ ok tt
      → let r = bind {F = F} port config isn_seed token w in Yields (IsReady port) r.1 × NoPanic r.1
  unfolding bind
  bind-IsReady port config isn_seed token w v =
      let v' = listening_stack-Listens port config isn_seed token v in
      elim (Result-cases (listening_stack {F = F} port config isn_seed token)) [
        | inr (x, e) ↦
            rw (e, bind)
              (tt, same_fault x (subst (λ r. NoPanic {F = F} {A = Stack (PeerKey F)} r) e v'.1))
        | inl (s, e) ↦ elim (Result-cases (F.register_service_receiver port w).1) [
          | inl (u, h) ↦
              rw (e, h, bind) (bound-IsReady port s _ (Yields-eq_ok (Listens port) _ v'.0 e), tt)
          | inr (y, h) ↦ rw (e, h, bind) (tt, tt)
        ]
      ]

  -- With a valid configuration, an endpoint that `bind_with_capability` gives owns the port of
  -- the capability, which is not 0, and it is sound and listens on that port with a stack without
  -- connections.
  pub bind_with_capability-IsReady :
      (capability : F.Capability) (config : Config) (isn_seed token : ℕ) (w : F.World)
      → validate config ≡ ok tt
      → Yields
          (λ ep.
            (F.fsp_port capability ≡ some ep.fsp_service_port) × IsReady ep.fsp_service_port ep)
          (bind_with_capability {F = F} capability config isn_seed token w).1
  unfolding bind_with_capability
  bind_with_capability-IsReady capability config isn_seed token w v =
      elim (Option-cases (F.fsp_port capability)) [
        | inl a ↦ rw (a, bind_with_capability) tt
        | inr (port, a) ↦
            let v' = listening_stack-Listens port config isn_seed token v in
            elim (Result-cases (listening_stack {F = F} port config isn_seed token)) [
              | inr (x, e) ↦ rw (a, e, bind_with_capability) tt
              | inl (s, e) ↦ elim (Result-cases (F.register_with_capability capability w).1) [
                | inl (u, h) ↦
                    rw (a, e, h, bind_with_capability)
                      (refl, bound-IsReady port s _ (Yields-eq_ok (Listens port) _ v'.0 e))
                | inr (y, h) ↦ rw (a, e, h, bind_with_capability) tt
              ]
            ]
      ]
