-- ===== src/Connection/Receiver/Data.antt =====
-- `receive_stream_data` of stack.rs at a segment of the stream.
use fips_tcp.Common.{
  All, Bool, List, [], arith, false, length, none, subst, suc, sym, wrapping_add, ℕ, ◌+◌, ◌<◌, ◌^◌,
  ◌∷◌, ◌≡◌, ◌≤◌,
}
use fips_tcp.Types.{Config}
use fips_tcp.Wire.{Segment, contains, fin_flag}
use fips_tcp.Connection.{Connection, available_window}
use fips_tcp.Connection.Receive.{
  drain_reassembly, drain_rounds, insert_received, is_ready, receive_stream_data, remove_first,
}
use fips_tcp.Segments.{ReassemblySegment}
use fips_tcp.Connection.Buffer.{Fits, drain_rounds-Fits}
use fips_tcp.Connection.Buffer.Data.{insert_received-Fits}
use fips_tcp.Connection.Receiver.{Near, Piece, Received, Slice, unready-offset}
use fips_tcp.Connection.Receiver.Chunks.{insert_received-Inserted}
use fips_tcp.Connection.Receiver.Drain.{count_of}
use fips_tcp.Connection.Receiver.Rounds.{Draining, drain_rounds-Draining, All-map}

-- When nothing is found nothing passes the test.
pub remove_first-none :
    (p : ReassemblySegment → Bool) (xs : List ReassemblySegment)
    → remove_first p xs ≡ none
    → All (λ x. p x ≡ false) xs
unfolding remove_first
remove_first-none p [] h = tt
remove_first-none p (x ∷ xs) h = (ground (arith, h), remove_first-none p xs (ground (arith, h)))

All-both :
    (S T : ReassemblySegment → Type 0) (xs : List ReassemblySegment)
    → All S xs
    → All T xs
    → All (λ x. S x × T x) xs
All-both S T [] v w = tt
All-both S T (x ∷ xs) v w = ((v.0, w.0), All-both S T xs v.1 w.1)

module _ (base : ℕ) (stream : List ℕ) where
  -- The data of a segment are a piece of the stream, near the count of the receiver.
  abbrev pub Carries : ℕ → Segment → Type 0
  Carries n s =
      (o : ℕ) × (s.seq ≡ wrapping_add base o)
      × Near o n
      × (length s.payload < 2 ^ 30)
      × Piece stream o s.payload (contains s.flags fin_flag)

module _ {P : Type 0} (base : ℕ) (stream delivered : List ℕ) (config : Config) where
  abbrev pub Follows : Connection P → Type 0
  Follows c =
      Received base stream config delivered c.receive_capacity c.recv_nxt c.recv_queue c.reassembly
        c.read_closed

  pub window-small : (c : Connection P) → Fits config c → available_window c ≤ 65535
  unfolding available_window
  window-small c v = omega (arith, v.capacity)

  -- At the end of the loop what waits is ahead of what is in order.
  drained-Follows :
      (n : ℕ) (c : Connection P)
      → Draining base stream delivered config n c
      → Fits config c
      → remove_first (is_ready c.recv_nxt) c.reassembly ≡ none
      → Follows c
  drained-Follows n c v fits end =
      let m = count_of delivered c in
      let S : ReassemblySegment → Type 0 = Slice base stream n (n + 65535) in
      let T : ReassemblySegment → Type 0 = λ r. is_ready c.recv_nxt r ≡ false in
      record {
        bounds = fits;
        order = v.0;
        parts =
            All-map (λ r. S r × T r) (Slice base stream m (m + 65535)) c.reassembly
              (λ r h.
                let o = h.0.0 in
                (
                  o,
                  h.0.1,
                  h.0.2,
                  unready-offset base o m c.recv_nxt r h.0.1 v.0.number
                      (omega (arith, v.1, v.2, h.0.3, h.0.4)) h.1,
                  omega (arith, v.1, h.0.4),
                ))
              (All-both S T c.reassembly v.3
                (remove_first-none (is_ready c.recv_nxt) c.reassembly end));
      }

  -- When the data of a segment are a piece of the stream less than 2 ^ 30 from the count of the
  -- receiver, and shorter than 2 ^ 30, `receive_stream_data` keeps the receiver's invariant: the
  -- bytes handed over and those in the buffer are the beginning of the stream, `recv_nxt` is the
  -- number of the next one, what waits are pieces of the stream ahead of it within the largest
  -- window, and the buffer is within its bounds.
  pub receive_stream_data-Follows :
      (c : Connection P) (s : Segment) (now_ms : ℕ)
      → Follows c
      → Carries base stream (count_of delivered c) s
      → Follows (receive_stream_data c s now_ms config).0
  unfolding receive_stream_data drain_reassembly
  receive_stream_data-Follows c s now_ms v (o, e, near, len, piece) =
      let n = count_of delivered c in
      let fin = contains s.flags fin_flag in
      let d = insert_received c s.seq s.payload fin config in
      let (same, waiting) =
        insert_received-Inserted base stream n o c s.seq s.payload fin config v.parts v.order.number
          (window-small c v.bounds) e near len piece in
      let fits = insert_received-Fits config c s.seq s.payload fin v.bounds in
      let start : Draining base stream delivered config n d =
        subst (Draining base stream delivered config n) (sym same)
          (v.order, omega arith, omega arith, waiting) in
      let (fits', end) =
        drain_rounds-Fits config (suc (length d.reassembly)) d now_ms fits (omega arith) in
      drained-Follows n (drain_rounds (suc (length d.reassembly)) d now_ms config)
        (drain_rounds-Draining base stream delivered config (suc (length d.reassembly)) n d now_ms
          start fits).0
        fits' end
