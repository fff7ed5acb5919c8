-- ===== src/Stack/Ports.antt =====
-- The search of `allocate_ephemeral_port` in stack.rs.
use fips_tcp.Common.{
  Bool-cases, Eq, Option-cases, ap, arith, err, if◌then◌else◌, inl, inr, none, ok, refl, some, suc,
  sym, u16_max, zero, ℕ, ◌%◌, ◌+◌, ◌-◌, ◌<◌, ◌==◌, ◌∙◌, ◌≡◌, ◌≤◌, ◌⊎◌,
}
use fips_tcp.Types.{no_ephemeral_port}
use fips_tcp.Stack.{ConnectionKey, Stack, Call, stack}
use fips_tcp.Stack.Table.{get}
use fips_tcp.Stack.Core.{allocate_ephemeral_port, first_ephemeral_port, key_eq, search_port}

-- The ports from 49152 to 65535.
abbrev pub IsEphemeral : ℕ → Type 0
IsEphemeral port = (49152 ≤ port) × (port ≤ 65535)

-- The port that comes a number of steps after another, around the range.
abbrev port_at : ℕ → ℕ → ℕ
port_at port k = 49152 + (port - 49152 + k) % 16384

abbrev next_port : ℕ → ℕ
next_port port = if port == u16_max then first_ephemeral_port else port + 1

next_port-IsEphemeral : (port : ℕ) → IsEphemeral port → IsEphemeral (next_port port)
next_port-IsEphemeral port h = ground (arith, h)

next_port-port_at :
    (port k : ℕ) → IsEphemeral port → port_at (next_port port) k ≡ port_at port (k + 1)
next_port-port_at port k h = elim (Bool-cases (port == u16_max)) [
  | inl e ↦ rw (e) (ground (arith, e))
  | inr e ↦ rw (e) (omega (arith, h))
]

-- The ports of the next attempts.
abbrev Tried : ℕ → ℕ → ℕ → Type 0
Tried attempts first port = (k : ℕ) × (k < attempts) × (port ≡ port_at first k)

module _ {P : Type 0} ⦃e : Eq P⦄ where
  -- The port is in use towards the peer.
  abbrev pub IsTaken : Stack P → P → ℕ → ℕ → Type 0
  IsTaken s peer remote_port port =
      (id : ℕ) × (get {V = ℕ} (record { peer = peer; local_port = port; remote_port = remote_port })
          s.lookup
        ≡ some id)

  -- A free port is found, or the ports of a set are all taken.
  abbrev pub Finds : (ℕ → Type 0) → Stack P → P → ℕ → Call P ℕ → Type 0
  Finds S s peer remote_port r =
      ((port : ℕ) × (r.1 ≡ ok port)
        × IsEphemeral port
        × (get (record { peer = peer; local_port = port; remote_port = remote_port }) s.lookup
            ≡ none))
      ⊎ ((r.1 ≡ err (stack no_ephemeral_port))
          × ((port : ℕ) → S port → IsTaken s peer remote_port port))

  Tried-next :
      (attempts : ℕ) (s s' : Stack P) (peer : P) (remote_port id : ℕ) (r : Call P ℕ)
      → IsEphemeral s.next_ephemeral_port
      → s'.lookup ≡ s.lookup
      → s'.next_ephemeral_port ≡ next_port s.next_ephemeral_port
      → get
          (record { peer = peer; local_port = s.next_ephemeral_port; remote_port = remote_port })
          s.lookup
        ≡ some id
      → Finds (Tried attempts s'.next_ephemeral_port) s' peer remote_port r
      → Finds (Tried (suc attempts) s.next_ephemeral_port) s peer remote_port r
  Tried-next attempts s s' peer remote_port id r range same next taken (inl (port, o, i, free)) =
      inl (port, o, i, rw⁻¹ same free)
  Tried-next attempts s s' peer remote_port id r range same next taken (inr (fails, all)) =
      inr (fails, λ port tried. tried_port tried.0 port tried.1 tried.2)
    where
      tried_port :
          (k port : ℕ)
          → k < suc attempts
          → port ≡ port_at s.next_ephemeral_port k
          → IsTaken s peer remote_port port
      tried_port zero port h at =
          let here : port ≡ s.next_ephemeral_port = omega (arith, at, range) in
          rw (here) (id, taken)
      tried_port (suc k) port h at =
          let there : port ≡ port_at s'.next_ephemeral_port k =
            at
            ∙ omega arith
            ∙ sym (next_port-port_at s.next_ephemeral_port k range)
            ∙ ap (λ p. port_at p k) (sym next) in
          rw⁻¹ same (all port (k, omega (arith, h), there))

  search_port-Finds :
      (attempts : ℕ) (s : Stack P) (peer : P) (remote_port : ℕ)
      → IsEphemeral s.next_ephemeral_port
      → Finds
          (Tried attempts s.next_ephemeral_port)
          s
          peer
          remote_port
          (search_port attempts s peer remote_port)
  unfolding search_port
  search_port-Finds zero s peer remote_port range =
      inr (refl, λ port tried. absurd (omega (arith, tried.1)))
  search_port-Finds (suc attempts) s peer remote_port range =
      let port = s.next_ephemeral_port in
      let s' : Stack P = record s { next_ephemeral_port = next_port port } in
      let key : ConnectionKey P = record {
        peer = peer;
        local_port = port;
        remote_port = remote_port;
      } in
      elim (Option-cases (get key s.lookup)) [
        | inl free ↦ rw (free, search_port) (inl (port, refl, range, free))
        | inr (id, taken) ↦
            rw (taken, search_port)
              (Tried-next attempts s s' peer remote_port id
                (search_port attempts s' peer remote_port) range refl refl taken
                (search_port-Finds attempts s' peer remote_port (next_port-IsEphemeral port range)))
      ]

  all-Tried :
      (s : Stack P) (peer : P) (remote_port first : ℕ) (r : Call P ℕ)
      → IsEphemeral first
      → Finds (Tried 16384 first) s peer remote_port r
      → Finds IsEphemeral s peer remote_port r
  all-Tried s peer remote_port first r range (inl found) = inl found
  all-Tried s peer remote_port first r range (inr (fails, all)) = inr (
    fails,
    λ port i. all port ((port + 16384 - first) % 16384, omega arith, omega (arith, i, range)),
  )

  -- When the next ephemeral port is in the range from 49152 to 65535, `allocate_ephemeral_port`
  -- gives a port of the range that is not in use towards the peer's port, or fails because all
  -- ports of the range are.
  pub allocate_ephemeral_port-Finds :
      (s : Stack P) (peer : P) (remote_port : ℕ)
      → IsEphemeral s.next_ephemeral_port
      → Finds IsEphemeral s peer remote_port (allocate_ephemeral_port s peer remote_port)
  unfolding allocate_ephemeral_port
  allocate_ephemeral_port-Finds s peer remote_port range =
      all-Tried s peer remote_port s.next_ephemeral_port (search_port 16384 s peer remote_port)
        range (search_port-Finds 16384 s peer remote_port range)
