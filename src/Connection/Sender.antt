-- ===== src/Connection/Sender.antt =====
-- The sending side of a connection as a byte stream: what the application wrote, less what the
-- peer has acknowledged, is what the connection still holds.
pub mod Flush
pub mod Acks
pub mod Inputs
pub mod Timers
use fips_tcp.Common.{
  IsU32, List, [], ap, append_assoc, arith, drop, drop-drop, drop_le-append, false, length,
  length-append, length-drop, refl, subst, sum_by-append, sym, u16_max, ℕ, ◌++◌, ◌+◌, ◌∙◌, ◌∷◌, ◌≡◌,
  ◌≤◌, ◌⊎◌,
}
use fips_tcp.Types.{Config, State}
use fips_tcp.Seq.{distance}
use fips_tcp.Segments.{TrackedSegment, tracked_end}
use fips_tcp.Marker
use fips_tcp.Marker.{SendProgress}
use fips_tcp.Connection.{Connection}
use fips_tcp.Connection.Send.{sends_data}
use fips_tcp.Connection.Flight.{
  Chain, total-eq, Chain-end, Chain-append, bytes_of, bytes_of-append, control_len, controls,
  seq_len, total, Acked,
}

-- `sent` is every byte that the application wrote. The fields are those of a connection.
pub record Inv (sent : List ℕ) (una nxt window mss : ℕ) (unacked : List TrackedSegment)
    (queue : List ℕ) (progress : SendProgress) (st : State) : Type 0 where
  pub una_range : IsU32 una
  -- The unacknowledged segments fill the sequence space from `send_una` to `send_nxt`.
  pub chain : Chain una unacked nxt
  pub window_range : window ≤ u16_max
  pub mss_pos : 1 ≤ mss
  -- No more bytes are in flight than the largest window that a peer can advertise.
  pub flight : length (bytes_of unacked) ≤ u16_max
  pub one_control : controls unacked ≤ 1
  pub no_control : (sends_data st ≡ false) ⊎ (controls unacked ≡ 0)
  -- The bytes after those acknowledged are in flight or queued, in order.
  pub content : drop progress.acked_payload_bytes sent ≡ bytes_of unacked ++ queue
  pub accepted : progress.accepted_payload_bytes ≡ length sent
  pub acked_le : progress.acked_payload_bytes ≤ length sent

abbrev pub Sends : {P : Type 0} → List ℕ → Connection P → Type 0
Sends sent c =
    Inv sent c.send_una c.send_nxt c.remote_window c.mss c.unacked c.send_queue c.send_progress
      c.state

module _ {sent : List ℕ} {una nxt window mss : ℕ} {unacked : List TrackedSegment} {queue : List ℕ}
    {progress : SendProgress} {st : State}
    (v : Inv sent una nxt window mss unacked queue progress st) where
  pub total-lt : total unacked ≤ 65536
  total-lt = omega (arith, total-eq unacked)

  pub in_flight-eq : distance una nxt ≡ total unacked
  unfolding distance
  in_flight-eq = omega (arith, total-lt, Chain-end una nxt unacked v.una_range v.chain)

  pub nxt_range : IsU32 nxt
  nxt_range = omega (arith, Chain-end una nxt unacked v.una_range v.chain)

-- A segment is tracked: its bytes leave the front of the queue for the end of the flight.
pub push-Inv :
    (sent : List ℕ) (una nxt window mss : ℕ) (unacked : List TrackedSegment) (rest : List ℕ)
    (progress : SendProgress) (st st' : State) (t : TrackedSegment)
    → Inv sent una nxt window mss unacked (t.payload ++ rest) progress st
    → t.seq ≡ nxt
    → 1 ≤ seq_len t
    → (control_len t ≡ 0) ⊎ (length t.payload ≡ 0)
    → length (bytes_of unacked) + length t.payload ≤ u16_max
    → controls unacked + control_len t ≤ 1
    → (sends_data st' ≡ false) ⊎ (controls unacked + control_len t ≡ 0)
    → Inv sent una (tracked_end t) window mss (unacked ++ (t ∷ [])) rest progress st'
push-Inv sent una nxt window mss unacked rest progress st st' t v s l o f k n =
    let e = sum_by-append control_len unacked (t ∷ []) in
    let b = bytes_of-append unacked t in
    record {
      una_range = v.una_range;
      chain =
          Chain-append una nxt unacked t v.chain s
            (subst IsU32 (sym s) (nxt_range v), l, omega arith, o);
      window_range = v.window_range;
      mss_pos = v.mss_pos;
      flight = omega (arith, ap length b, length-append (bytes_of unacked) t.payload);
      one_control = omega (arith, e);
      no_control = ground (arith, e);
      content =
          v.content
          ∙ sym (append_assoc (bytes_of unacked) t.payload rest)
          ∙ ap (λ x. x ++ rest) (sym b);
      accepted = v.accepted;
      acked_le = v.acked_le;
    }

-- An ACK takes segments and bytes off the front of the flight.
pub Acked-Inv :
    (sent : List ℕ) (una nxt window mss ack n : ℕ) (unacked rest : List TrackedSegment)
    (queue : List ℕ) (progress : SendProgress) (st : State)
    → Inv sent una nxt window mss unacked queue progress st
    → IsU32 ack
    → Acked ack nxt unacked rest n
    → Inv sent ack nxt window mss rest queue (Marker.acknowledge progress n) st
unfolding Marker.acknowledge
Acked-Inv sent una nxt window mss ack n unacked rest queue progress st v k w =
    let a = progress.acked_payload_bytes in
    let held = ap length v.content in
    record {
      una_range = k;
      chain = w.chain;
      window_range = v.window_range;
      mss_pos = v.mss_pos;
      flight = omega (arith, v.flight, w.count);
      one_control = omega (arith, v.one_control, w.controls_le);
      no_control = ground (arith, v.no_control, w.controls_le);
      content =
          sym (drop-drop n a (a + n) sent refl)
          ∙ ap (drop n) v.content
          ∙ drop_le-append n (bytes_of unacked) queue (omega (arith, w.count))
          ∙ ap (λ x. x ++ queue) (sym w.bytes);
      accepted = v.accepted;
      acked_le = omega (
        arith,
        w.count,
        v.acked_le,
        held,
        length-drop a sent,
        length-append (bytes_of unacked) queue,
      );
    }
