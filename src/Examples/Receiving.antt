-- ===== src/Examples/Receiving.antt =====
-- Runs at concrete inputs of the theorems about the receiving side of a connection.
use fips_tcp.Common.{List, [], arith, false, refl, some, ℕ, ◌<◌, ◌∷◌, ◌≡◌}
use fips_tcp.Types.{default_config, established}
use fips_tcp.Wire.{Segment}
use fips_tcp.Wire
use fips_tcp.Connection.{Connection, new}
use fips_tcp.Connection.History.{Event, segment, read, close}
use fips_tcp.Connection.Receive.{receive_stream_data}
use fips_tcp.Connection.Frame.{Holds}
use fips_tcp.Connection.Receiver.Data.{Carries, Follows, receive_stream_data-Follows}
use fips_tcp.Connection.Receiver.History.{Heard}
use fips_tcp.Connection.Receiver.Reads.{Matches, AllSuit, reads, reads-Matches}
use fips_tcp.Types.{Config}
use fips_tcp.Segments.{reassembly_end}
use fips_tcp.Seq.{before, before_or_equal}
use fips_tcp.Connection.Receive.{is_pending, is_ready, remove_first}
use fips_tcp.Connection.Receiver.Stall.{receive_stream_data-full}
use fips_tcp.Connection.{available_window}
use fips_tcp.Connection.Receiver.Drain.{count_of}
use fips_tcp.Connection.Receiver.Progress.{receive_stream_data-advances}

-- A connection that waits for byte 501 of its peer, whose stream has two bytes.
abbrev opened : Connection ℕ
opened = new 7 1000 2000 established 101 501 default_config 5

abbrev stream : List ℕ
stream = 9 ∷ 8 ∷ []

-- A segment with a part of the stream.
abbrev part : ℕ → List ℕ → ℕ → Segment
part seq payload flags = record {
  src_port = 2000;
  dst_port = 1000;
  seq = seq;
  ack = some 101;
  flags = flags;
  window = 65535;
  options = [];
  payload = payload;
}

opened-Follows : Follows 501 stream [] default_config opened
unfolding new
opened-Follows = record {
  bounds = record {
    capacity = (refl, omega arith);
    bytes_fit = omega arith;
    segments_fit = omega arith;
  };
  order = record { number = refl; bytes = refl; fin = tt };
  parts = tt;
}

opened-Heard : Holds (Heard 501 stream default_config []) opened
unfolding new
opened-Heard = opened-Follows

-- The second byte arrives first, with the FIN.
late_part-Carries : Carries 501 stream 0 (part 502 (8 ∷ []) 17)
unfolding Wire.contains
late_part-Carries = (1, refl, (omega arith, omega arith), omega arith, (refl, refl))

receive_stream_data-Follows_example :
    Follows 501 stream [] default_config
      (receive_stream_data opened (part 502 (8 ∷ []) 17) 10 default_config).0
unfolding new
receive_stream_data-Follows_example =
    receive_stream_data-Follows 501 stream [] default_config opened (part 502 (8 ∷ []) 17) 10
      opened-Follows late_part-Carries

abbrev history : List Event
history = segment (part 501 (9 ∷ []) 16) 10 ∷ read 10 ∷ close 20 ∷ []

history-AllSuit : AllSuit 501 stream default_config [] opened history
unfolding new Wire.contains
history-AllSuit = ((0, refl, (omega arith, omega arith), omega arith, (refl, tt)), (tt, (tt, tt)))

reads-Matches_example :
    let (d, all) = reads default_config opened [] history in
    Matches stream all d.recv_queue d.read_closed
reads-Matches_example =
    reads-Matches 501 stream default_config [] opened history opened-Heard history-AllSuit

-- Room for one segment, taken by the second byte.
abbrev narrow : Config
narrow = record default_config { max_reassembly_segments = 1 }

abbrev crowded : Connection ℕ
crowded = record opened { reassembly = record { seq = 502; payload = 8 ∷ []; fin = false } ∷ [] }

-- The first byte is refused.
receive_stream_data-full_example :
    (receive_stream_data crowded (part 501 (9 ∷ []) 16) 10 narrow).0 ≡ crowded
unfolding new is_pending is_ready before before_or_equal reassembly_end remove_first
receive_stream_data-full_example =
    receive_stream_data-full narrow crowded (part 501 (9 ∷ []) 16) 10 (omega arith) refl refl

receive_stream_data-advances_example :
    count_of [] opened
    < count_of [] (receive_stream_data opened (part 501 (9 ∷ []) 16) 10 default_config).0
unfolding new remove_first available_window Wire.contains
receive_stream_data-advances_example =
    receive_stream_data-advances 501 stream [] default_config opened (part 501 (9 ∷ []) 16) 10 0
      opened-Follows refl (omega arith, omega arith) (omega arith) (refl, tt) (omega arith)
      (omega arith) refl (omega arith) (omega arith)
