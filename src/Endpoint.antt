-- ===== src/Endpoint.antt =====
-- rust/fips-tcp-endpoint/src/lib.rs: the adapter of a stack to the service port of an endpoint,
-- its errors, and the sending of what a stack has put out.
pub mod Peer
pub mod Bind
pub mod Binding
pub mod Calls
pub mod Receive
pub mod Report
pub mod Rollback
pub mod Safety
pub mod History
use fips_tcp.Common.{List, Result, [], err, ok, ℕ, ◌∷◌}
use fips_tcp.Types.{StackError}
use fips_tcp.Stack
use fips_tcp.Stack.{Failure, Outbound, Stack, panic, stack}
use fips_tcp.Stack.Calls.{drain_outbound}
use Peer.{Datagram, Fips, PeerKey}

module _ (F : Fips) where
  -- `FipsTcpEndpoint`; `endpoint` and `receiver` are handles into the world.
  pub record Endpoint : Type 0 where
    pub world : F.World
    pub fsp_service_port : ℕ
    pub stack : Stack (PeerKey F)
    pub receive_batch : List (Datagram F.Identity)

  pub data AdapterError : Type 0 where
    closed : AdapterError
    invalid_service_port : AdapterError
    fips : F.EndpointError → AdapterError
    identity : F.IdentityError → AdapterError
    tcp : StackError → AdapterError

  -- How a call of the adapter fails: with an error that it returns, or by a panic of the code.
  pub data Fault : Type 0 where
    adapter : AdapterError → Fault
    panicked : Fault

  -- A call gives the endpoint that it leaves and its result.
  abbrev pub Action : Type 0 → Type 0
  Action A = Endpoint × Result Fault A

module _ (F : Fips) where
  -- The loop of `flush`, which an error ends.
  unfoldable pub send_all :
      List (Outbound (PeerKey F)) → ℕ → F.World → F.World × Result F.EndpointError (Unit {0})
  send_all [] port w = (w, ok tt)
  send_all (o ∷ os) port w =
      let (w', r) = F.send_datagram o.peer.identity port port o.bytes w in
      elim r [ ok u ↦ send_all os port w' | err e ↦ (w', err e) ]

module _ {F : Fips} where
  -- `?` on a call
  abbrev pub and_then : {A B : Type 0} → Action F A → (Endpoint F → A → Action F B) → Action F B
  and_then (ep, ok a) f = f ep a
  and_then (ep, err x) f = (ep, err x)

  -- `?` on a call of the stack: `From<StackError>`
  abbrev pub on_stack : {A : Type 0} → Endpoint F → Stack.Call (PeerKey F) A → Action F A
  on_stack ep (s, ok a) = (record ep { stack = s }, ok a)
  on_stack ep (s, err (stack e)) = (record ep { stack = s }, err (adapter (tcp e)))
  on_stack ep (s, err panic) = (record ep { stack = s }, err panicked)

  -- `?` on a call of the endpoint: `From<FipsEndpointError>`
  abbrev pub lifted : Result F.EndpointError (Unit {0}) → Result (Fault F) (Unit {0})
  lifted (ok u) = ok tt
  lifted (err e) = err (adapter (fips e))

  unfoldable pub flush : Endpoint F → Action F (Unit {0})
  flush ep =
      let (s, outbound) = drain_outbound ep.stack in
      let (w, r) = send_all F outbound ep.fsp_service_port ep.world in
      (record ep { stack = s; world = w }, lifted r)

  -- A call, then `flush`, then the value of the call.
  abbrev pub flushed : {A : Type 0} → Action F A → Action F A
  flushed r = and_then r λ ep a. and_then (flush ep) λ ep' u. (ep', ok a)
