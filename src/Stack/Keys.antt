-- ===== src/Stack/Keys.antt =====
-- The peer and the ports that the stack looks a connection up by, over a segment.
use fips_tcp.Common.{false, ℕ, ◌≡◌}
use fips_tcp.Connection.{Connection}
use fips_tcp.Connection.Input.{on_segment}
use fips_tcp.Connection.Frame.{Receives, Holds}
use fips_tcp.Connection.Frame.Input.{on_segment-Holds}
use fips_tcp.Connection.Frame.Data.{receive_stream_data-Keeps}
use fips_tcp.Wire.{Segment}
use fips_tcp.Types.{Config}
use fips_tcp.Stack.{ConnectionKey}

abbrev pub HasKey : {P : Type 0} → ConnectionKey P → Receives P
HasKey key waiting peer local_port remote_port capacity recv_nxt queue reassembly closed =
    (peer ≡ key.peer) × (local_port ≡ key.local_port) × (remote_port ≡ key.remote_port)

module _ {P : Type 0} (key : ConnectionKey P) (config : Config) where
  pub on_segment-HasKey :
      (c : Connection P) (s : Segment) (now_ms : ℕ)
      → Holds (HasKey key) c
      → Holds (HasKey key) (on_segment c s now_ms config).0
  on_segment-HasKey c s now_ms v =
      on_segment-Holds (HasKey key) (HasKey key) config s (λ d w. w)
        (λ d t w data_in.
          receive_stream_data-Keeps
            (λ waiting peer local_port remote_port.
              ((peer ≡ key.peer) × (local_port ≡ key.local_port) × (remote_port ≡ key.remote_port))
              × (waiting ≡ false))
            config d s t w)
        (λ d syn w. w.0) c now_ms v
