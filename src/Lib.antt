-- ===== src/Lib.antt =====
-- A verification library for the Rust crates fips-tcp (rust/fips-tcp/src), a TCP stack without
-- clock or socket, fips-tcp-endpoint (rust/fips-tcp-endpoint/src), which sends its datagrams
-- through a mesh network, and interop-driver (rust/interop-driver/src), a program that runs a stack
-- by commands.
--
-- The program's parts and the files that model them:
--   Seq         seq.rs: the circular order of 32-bit sequence numbers.
--   Wire        wire.rs: `Flags`, `TcpOption`, `Segment`, `encode` and `decode`.
--   Types       types.rs: `Config` with `validate`, `State`, `StackError`.
--   Segments    segment.rs and connection_types.rs: `build_segment` and the segments that a
--               connection keeps, sent and received.
--   Reno, Rtt   reno.rs and rtt.rs: the congestion window and the retransmission timeout.
--   Marker      marker.rs: how far a write has been acknowledged.
--   Connection  stack_types.rs, and the `impl Connection` blocks of stack.rs (Send, Ack, Receive,
--               Input), connection_recovery.rs (Ack), connection_reset.rs (Input) and stack_poll.rs
--               (Timer). A method that changes `self` is a function from a connection to a
--               connection and what the method returns.
--   Stack       the `impl Stack` blocks of stack.rs, stack_marker.rs, stack_abort.rs,
--               stack_admission.rs and stack_poll.rs. A call gives the stack that it leaves and a
--               result; where the code would panic, the result says so.
--   Endpoint    lib.rs and peer.rs of fips-tcp-endpoint: `FipsTcpEndpoint` (Bind, Calls, Receive) and
--               `PeerKey` (Peer). The other files of the folder are proofs.
--   Driver      main.rs of interop-driver: the commands (Execute), bytes as text (Hex) and the loop of
--               `main` (Serve). The other files of the folder are proofs.
-- A stack decodes a datagram (Wire), finds the connection of its peer and ports (Stack.Table),
-- lets it take the segment (Connection.Input) and encodes the segments that come out. A connection
-- keeps its round-trip times (Rtt), its congestion window (Reno) and the progress of its writes
-- (Marker); time is a number that the caller gives. An endpoint owns a stack that listens on its
-- port: it feeds the stack with the batches that it receives, and sends what the stack puts out
-- after each call.
--
-- How the code is rendered:
--   * Bytes and machine words are natural numbers. `wrapping_*` is a remainder modulo the width,
--     `saturating_*` a minimum with the largest value; a `usize` has 64 bits. Sums of lengths of
--     lists in memory, the 128-bit counters of marker.rs and its token counter are unbounded.
--   * The peer type `P` is a parameter; the stack takes its equality as an instance.
--   * A `HashMap` is an association list (Stack.Table): the order in which the map would be walked,
--     which the code leaves open, is the list's.
--   * The loop of `flush_data` runs on the length of its queue, of which each round takes a byte at
--     least, that of `drain_reassembly` on one more than the number of waiting segments, of which
--     each round removes one. `decode_options` goes through the bytes one at a time and passes over
--     those of an option that it has read.
--   * The crate fips_core is a parameter, the record `Fips` of Endpoint.Peer: the types of identities
--     and errors, and its calls as functions of the state of a world that the handles refer to. An
--     asynchronous call is run to its end; a future that is dropped on the way is not modelled, nor
--     are debug assertions.
--   * The driver takes the reader of JSON, `serde_json::from_str`, as a parameter, from the text of a
--     line to a command or the text of an error. A line that cannot be read is such a text as well.
--     The calls of its output (`serde_json::to_writer`, `writeln!`, `flush`) are a parameter too, the
--     record `Output`, as functions of the output's state that may fail; `main` panics when one does.
--     `u8::from_str_radix`, `char::to_digit` and the slices of a text are written out.
--   * Errors are values of `Result`; the texts of `InvalidConfig` are constructors.
--
-- Connection.Sender has the invariant of the sending side: how the bytes that `write` accepted
-- relate to those acknowledged, the flight and the queue. Connection.Flight has the lemmas on
-- the flight, the children of Connection.Sender go through the operations, and
-- Connection.History puts the operations together. Connection.Receiver has the invariant of the
-- other direction: how the bytes handed over, those in the buffer and the segments that wait
-- behind a gap relate to the stream of the peer; its children go from the chunk that is stored
-- (Chunks) over the rounds of the drain (Drain, Rounds, Data) to segments and histories
-- (History, Reads); Progress and Stall are about the segment that fills the gap, with a place
-- and without. It and Connection.Buffer, about the bounds of the receive buffer, stand on what
-- Connection.Frame says of the operations that leave the receiving side alone; Connection.Loops
-- about the end of the loop of `flush_data`, Connection.Wakeup about the time of the next poll.
-- Connection.Speech is about the segments that a connection sends, as parts of the stream that was
-- written, from the pieces that go out (Data), are sent again (Acks) or probe a window (Timers) to
-- histories; Connection.Delivery lets two connections exchange their segments, which are taken
-- from the memory of one to that of the other: the bytes in between are those of Wire.
-- Connection.States has the state diagram as a relation, and how histories move in it.
-- Stack.Keys, Stack.Consistency, Stack.Safety and Stack.History are about the tables of the
-- stack, Stack.Opening and Stack.Undo about what `connect` enters and what takes it back,
-- Stack.Limits about the number of connections, Stack.Ports about the search of a port,
-- Stack.Aborts about what an abort leaves,
-- Stack.Encodes about the segments that are built. Endpoint.Safety and Endpoint.History go
-- through the calls of the adapter, Endpoint.Rollback is about a `connect` that fails,
-- Endpoint.Report about a batch, Endpoint.Binding about a new endpoint. Driver.Ready and
-- Driver.Answers are about the panics of the driver and its responses, Driver.Handles about the
-- handles that it gives for markers. Examples has runs at concrete inputs.
--
-- Not modelled: the texts of errors (`Display`), the ends of the token and byte counters of
-- marker.rs with the panics there, the calls of another library's stack in rust/smoltcp-oracle, and
-- the TypeScript port (ts/).
pub mod Common
pub mod Seq
pub mod Reno
pub mod Rtt
pub mod Marker
pub mod Types
pub mod Wire
pub mod Segments
pub mod Connection
pub mod Stack
pub mod Endpoint
pub mod Driver
pub mod Examples
