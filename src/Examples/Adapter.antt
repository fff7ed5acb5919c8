-- ===== src/Examples/Adapter.antt =====
-- Runs at concrete inputs of the theorems about rust/fips-tcp-endpoint/src.
use fips_tcp.Common.{
  Bool, List, Option, Yields, [], arith, err, false, if◌then◌else◌, length, length-take, none, not,
  ok, refl, some, take, true, ℕ, ◌+◌, ◌↔◌, ◌∷◌, ◌≡◌, ◌≤◌,
}
use fips_tcp.Types.{default_config, validate}
use fips_tcp.Stack.{Stack, stack}
use fips_tcp.Stack.Safety.{empty-IsConsistent}
use fips_tcp.Endpoint.Peer.{Datagram, Fips, PeerKey, key_eq, from, from_iff}
use fips_tcp.Endpoint.{Endpoint, Fault, adapter, fips}
use fips_tcp.Endpoint.Calls.{connect}
use fips_tcp.Endpoint.Bind.{bind}
use fips_tcp.Endpoint.Binding.{IsReady, bind-IsReady}
use fips_tcp.Endpoint.Receive.{process_batch, empty_report, feed}
use fips_tcp.Endpoint.Report.{
  process_batch-accounts, feed-admissible, IsAccount, admissible, by_test, to_all,
}
use fips_tcp.Endpoint.Safety.{IsSound, Stays, NoPanic}
use fips_tcp.Endpoint.History
use fips_tcp.Endpoint.History.{step-Stays, accepts}
use fips_tcp.Stack.Undo.{SameMaps}
use fips_tcp.Endpoint.Rollback.{connect-rolls_back}

-- An identity is the parity and the x coordinate of its public key.
abbrev Name : Type 0
Name = Bool × ℕ

-- A datagram that is no segment, and one of another peer.
abbrev arrived : List (Datagram Name)
arrived =
    record { source_peer = (true, 5); destination_port = 9; «data» = 1 ∷ 2 ∷ [] }
    ∷ record { source_peer = (false, 6); destination_port = 9; «data» = [] }
    ∷ []

taken-bounded :
    (n : ℕ) (batch : List (Datagram Name)) → some (take n arrived) ≡ some batch → length batch ≤ n
taken-bounded n batch h = ground (arith, h, length-take n arrived)

same_name : (i j : Name) → i.1 ≡ j.1 → i.0 ≡ j.0 → i ≡ j
same_name i j h k = ground (arith, h, k)

-- The world is whether the endpoint can send.
abbrev network : Fips
network = record {
  Identity = Name;
  World = Bool;
  EndpointError = Unit;
  IdentityError = Unit;
  RegistrationError = Unit;
  Capability = Option ℕ;
  register_service_receiver = λ port w. (w, ok tt);
  fsp_port = λ capability. capability;
  missing_port = tt;
  register_with_capability = λ capability w. (w, ok tt);
  recv_batch_into = λ n w. (w, some (take n arrived));
  recv_batch-bounded = λ n w batch h. taken-bounded n batch h;
  send_datagram = λ peer source destination bytes w. (w, if w then ok tt else err tt);
  pubkey = λ i. i.1;
  is_odd = λ i. i.0;
  negated = λ i. (not i.0, i.1);
  pubkey-negated = λ i. refl;
  is_odd-negated = λ i. refl;
  identity_unique = same_name;
}

abbrev idle : Stack (PeerKey network)
idle = record {
  config = default_config;
  reservation = none;
  listeners = 9 ∷ [];
  accepts = (9, []) ∷ [];
  connections = [];
  lookup = [];
  outbound = [];
  next_connection_id = 1;
  next_ephemeral_port = 49152;
  isn_state = 7;
  next_token = 1;
}

-- An endpoint that cannot send, with the batch in hand.
abbrev offline : Endpoint network
offline = record { world = false; fsp_service_port = 9; stack = idle; receive_batch = arrived }

offline-IsSound : IsSound offline
offline-IsSound = record { tables = empty-IsConsistent idle refl refl; batch = omega arith }

from_iff_example :
    (from network (true, 5) ≡ from network (false, 5))
    ↔ (network.pubkey (true, 5) ≡ network.pubkey (false, 5))
from_iff_example = from_iff network (true, 5) (false, 5)

validate-default : validate default_config ≡ ok tt
unfolding validate
validate-default = refl

bind-IsReady_example :
    let r = bind {F = network} 9 default_config 7 1 true in Yields (IsReady 9) r.1 × NoPanic r.1
bind-IsReady_example = bind-IsReady network 9 default_config 7 1 true validate-default

step-Stays_example :
    Stays
      (History.step (History.receives (λ w. 10) (λ (st : ℕ) peer bytes. (st + 1, true)) 0) offline)
step-Stays_example =
    step-Stays (History.receives (λ w. 10) (λ (st : ℕ) peer bytes. (st + 1, true)) 0) offline
      offline-IsSound (omega arith)

process_batch-accounts_example :
    let r = process_batch (λ w. 10) (by_test network (λ peer bytes. peer.0)) tt offline in
    Yields (IsAccount 2) r.1 × (r.0.receive_batch ≡ [])
process_batch-accounts_example =
    process_batch-accounts (λ w. 10) (by_test network (λ peer bytes. peer.0)) tt offline

feed-admissible_example :
    let kept = admissible network (λ peer bytes. peer.0) arrived in
    (feed (by_test network (λ peer bytes. peer.0)) 10 tt arrived idle (empty_report 2)).0
    ≡ (feed (to_all network (λ peer bytes. peer.0)) 10 tt kept idle (empty_report 1)).0
feed-admissible_example =
    feed-admissible network (λ peer bytes. peer.0) 10 arrived idle (empty_report 2) (empty_report 1)

connect-fails : (connect (true, 5) 0 offline).1 ≡ err (adapter (fips tt))
unfolding connect fips_tcp.Stack.Open.connect fips_tcp.Stack.Core.allocate_ephemeral_port
    fips_tcp.Stack.Core.search_port fips_tcp.Stack.Table.get
    fips_tcp.Stack.Open.connect_from_with_isn fips_tcp.Stack.Core.ensure_connection_capacity
    fips_tcp.Stack.Core.next_isn fips_tcp.Stack.Core.peer_count fips_tcp.Stack.Open.install
    fips_tcp.Stack.Core.emit fips_tcp.Stack.Table.insert fips_tcp.Stack.Core.allocate_connection_id
    fips_tcp.Stack.Core.emit_to fips_tcp.Connection.Send.client fips_tcp.Wire.encode
    fips_tcp.Connection.Send.send_tracked fips_tcp.Connection.available_window
    fips_tcp.Connection.available_window_u16 fips_tcp.Connection.new fips_tcp.Connection.segment_for
    fips_tcp.Endpoint.Calls.rolled_back from fips_tcp.Endpoint.Peer.normalized
    fips_tcp.Endpoint.flush fips_tcp.Endpoint.send_all fips_tcp.Segments.build_segment
    fips_tcp.Stack.Calls.drain_outbound fips_tcp.Wire.be16 fips_tcp.Wire.be32 fips_tcp.Wire.contains
    fips_tcp.Wire.encode_option fips_tcp.Wire.encode_options fips_tcp.Wire.encoded_header_len
    fips_tcp.Wire.encoded_len fips_tcp.Wire.fixed_header fips_tcp.Wire.offset_and_flags
connect-fails = refl

connect-rolls_back_example : SameMaps offline.stack (connect (true, 5) 0 offline).0.stack
connect-rolls_back_example =
    connect-rolls_back (true, 5) 0 offline (adapter (fips tt)) offline-IsSound.tables connect-fails
