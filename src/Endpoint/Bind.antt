-- ===== src/Endpoint/Bind.antt =====
-- `bind` and `bind_with_capability` of the adapter.
use fips_tcp.Common.{Result, [], err, if◌then◌else◌, none, ok, some, ℕ, ◌==◌}
use fips_tcp.Types.{Config}
use fips_tcp.Stack.{Failure, Stack, panic, stack}
use fips_tcp.Stack.Open
use fips_tcp.Stack.Open.{listen}
use fips_tcp.Endpoint.Peer.{Fips, PeerKey, key_eq}
use fips_tcp.Endpoint.{Endpoint, Fault, adapter, fips, invalid_service_port, panicked, tcp}

-- `CapabilityBindError`, or a panic of the code.
pub data CapabilityBindError (F : Fips) : Type 0 where
  from_adapter : Fault F → CapabilityBindError F
  registration : F.RegistrationError → CapabilityBindError F

module _ {F : Fips} where
  -- The stack that a call of it leaves; `?` on its error.
  abbrev pub left_by :
      {A : Type 0} → Stack (PeerKey F) × Result Failure A → Result (Fault F) (Stack (PeerKey F))
  left_by (s, ok a) = ok s
  left_by (s, err (stack e)) = err (adapter (tcp e))
  left_by (s, err panic) = err panicked

  -- The last argument is the value of the token counter of marker.rs.
  unfoldable pub listening_stack : ℕ → Config → ℕ → ℕ → Result (Fault F) (Stack (PeerKey F))
  listening_stack port config isn_seed token =
      if port == 0
      then err (adapter invalid_service_port)
      else (elim (Open.new config isn_seed token) [
        | none ↦ err panicked
        | some s ↦ left_by (listen port s)
      ])

  -- The endpoint that owns a service port.
  abbrev pub bound : ℕ → Stack (PeerKey F) → F.World → Endpoint F
  bound port s w = record { world = w; fsp_service_port = port; stack = s; receive_batch = [] }

  unfoldable pub bind : ℕ → Config → ℕ → ℕ → F.World → F.World × Result (Fault F) (Endpoint F)
  bind port config isn_seed token w = elim (listening_stack port config isn_seed token) [
    | err x ↦ (w, err x)
    | ok s ↦
        let (w', r) = F.register_service_receiver port w in
        elim r [ ok u ↦ (w', ok (bound port s w')) | err e ↦ (w', err (adapter (fips e))) ]
  ]

  unfoldable pub bind_with_capability :
      F.Capability
      → Config
      → ℕ
      → ℕ
      → F.World
      → F.World × Result (CapabilityBindError F) (Endpoint F)
  bind_with_capability capability config isn_seed token w = elim (F.fsp_port capability) [
    | none ↦ (w, err (registration F.missing_port))
    | some port ↦ elim (listening_stack port config isn_seed token) [
      | err x ↦ (w, err (from_adapter x))
      | ok s ↦
          let (w', r) = F.register_with_capability capability w in
          elim r [ ok u ↦ (w', ok (bound port s w')) | err e ↦ (w', err (registration e)) ]
    ]
  ]
