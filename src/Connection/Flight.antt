-- ===== src/Connection/Flight.antt =====
-- The queue of unacknowledged segments as a stretch of the sequence space and of the byte stream.
use fips_tcp.Common.{
  IsU32, List, [], ap, append-nil, append_assoc, arith, drop, drop_le-append, drop_past-append,
  false, inl, leb, length, length-append, length-drop, le→leb, refl, subst, sum_by, sym, true,
  wrapping_add, ℕ, ◌++◌, ◌+◌, ◌-◌, ◌<◌, ◌^◌, ◌∙◌, ◌∷◌, ◌≡◌, ◌≤◌, ◌⊎◌,
}
use native.Mathlib.Decide.{dec_lt, dec_le}
use fips_tcp.Wire.{flag_len, fin_flag, syn_flag}
use fips_tcp.Segments.{TrackedSegment, tracked_end}
use fips_tcp.Seq.{distance, before, before_or_equal}
use fips_tcp.Rtt.{RttEstimator}
use fips_tcp.Connection.Ack.{Popped, trim_front, trimmed, splits, split_count, pop_acked, pop_one}

-- The SYN and FIN of a segment.
unfoldable pub control_len : TrackedSegment → ℕ
control_len t = flag_len t.flags syn_flag + flag_len t.flags fin_flag

-- The sequence numbers that a segment takes.
abbrev pub seq_len : TrackedSegment → ℕ
seq_len t = length t.payload + control_len t

-- A segment carries bytes, or a SYN or a FIN alone.
abbrev pub IsTracked : TrackedSegment → Type 0
IsTracked t =
    IsU32 t.seq
    × (1 ≤ seq_len t)
    × (control_len t ≤ 1)
    × ((control_len t ≡ 0) ⊎ (length t.payload ≡ 0))

-- The segments follow one another without gap from a sequence number to another.
abbrev pub Chain : ℕ → List TrackedSegment → ℕ → Type 0
Chain a [] e = a ≡ e
Chain a (t ∷ ts) e = (t.seq ≡ a) × IsTracked t × Chain (tracked_end t) ts e

abbrev pub total : List TrackedSegment → ℕ
total = sum_by seq_len

abbrev pub controls : List TrackedSegment → ℕ
controls = sum_by control_len

-- The bytes that the segments carry, in order.
abbrev pub bytes_of : List TrackedSegment → List ℕ
bytes_of [] = []
bytes_of (t ∷ ts) = t.payload ++ bytes_of ts

pub tracked_end_lem : (t : TrackedSegment) → tracked_end t ≡ wrapping_add t.seq (seq_len t)
unfolding tracked_end control_len
tracked_end_lem t = omega arith

pub total-eq : (ts : List TrackedSegment) → total ts ≡ length (bytes_of ts) + controls ts
total-eq [] = refl
total-eq (t ∷ ts) = omega (arith, total-eq ts, length-append t.payload (bytes_of ts))

pub Chain-end :
    (a e : ℕ) (ts : List TrackedSegment) → IsU32 a → Chain a ts e → e ≡ wrapping_add a (total ts)
Chain-end a e [] h c = omega arith
Chain-end a e (t ∷ ts) h c = omega (
  arith,
  tracked_end_lem t,
  Chain-end (tracked_end t) e ts (omega (arith, tracked_end_lem t)) c.2,
)

pub Chain-append :
    (a e : ℕ) (ts : List TrackedSegment) (t : TrackedSegment)
    → Chain a ts e
    → t.seq ≡ e
    → IsTracked t
    → Chain a (ts ++ (t ∷ [])) (tracked_end t)
Chain-append a e [] t c s v = (s ∙ sym c, v, refl)
Chain-append a e (x ∷ ts) t c s v = (c.0, c.1, Chain-append (tracked_end x) e ts t c.2 s v)

pub bytes_of-append :
    (ts : List TrackedSegment) (t : TrackedSegment)
    → bytes_of (ts ++ (t ∷ [])) ≡ bytes_of ts ++ t.payload
bytes_of-append [] t = append-nil t.payload
bytes_of-append (x ∷ ts) t =
    ap (◌++◌ x.payload) (bytes_of-append ts t)
    ∙ sym (append_assoc x.payload (bytes_of ts) t.payload)

-- The tests of `apply_ack` at a segment that begins `d` before the ACK.
pub ends_by_lem :
    (a ack : ℕ) (t : TrackedSegment)
    → t.seq ≡ a
    → IsU32 a
    → IsU32 ack
    → seq_len t < 2 ^ 31
    → distance a ack < 2 ^ 31
    → before_or_equal (tracked_end t) ack ≡ leb (seq_len t) (distance a ack)
unfolding before_or_equal before distance
ends_by_lem a ack t e h k l m = ground (arith, tracked_end_lem t)

pub distance-tracked_end :
    (a ack : ℕ) (t : TrackedSegment)
    → t.seq ≡ a
    → IsU32 a
    → IsU32 ack
    → seq_len t ≤ distance a ack
    → distance (tracked_end t) ack ≡ distance a ack - seq_len t
unfolding distance
distance-tracked_end a ack t e h k l = omega (arith, tracked_end_lem t)

-- What is left of a chain behind an ACK, and the bytes that went off its front.
pub record Acked (ack e : ℕ) (ts rest : List TrackedSegment) (n : ℕ) : Type 0 where
  pub chain : Chain ack rest e
  pub bytes : bytes_of rest ≡ drop n (bytes_of ts)
  pub count : n + length (bytes_of rest) ≡ length (bytes_of ts)
  pub shorter : total rest ≤ total ts
  pub controls_le : controls rest ≤ controls ts

splits-false : (a : ℕ) (t : TrackedSegment) → t.seq ≡ a → IsU32 a → splits a t ≡ false
unfolding splits before
splits-false a t e h = ground arith

splits-true :
    (a ack : ℕ) (t : TrackedSegment)
    → t.seq ≡ a
    → IsU32 a
    → IsU32 ack
    → seq_len t < 2 ^ 31
    → 0 < distance a ack
    → distance a ack < seq_len t
    → control_len t ≡ 0
    → splits ack t ≡ true
unfolding splits before distance control_len flag_len
splits-true a ack t e h k m p d z = ground (arith, tracked_end_lem t)

-- The segment without its first `n` bytes.
abbrev trim : ℕ → ℕ → TrackedSegment → TrackedSegment
trim n ack t = record t { payload = drop n t.payload; seq = ack }

tracked_end-trim :
    (a ack : ℕ) (t : TrackedSegment)
    → t.seq ≡ a
    → IsU32 a
    → IsU32 ack
    → distance a ack ≤ length t.payload
    → tracked_end (trim (distance a ack) ack t) ≡ tracked_end t
unfolding tracked_end distance
tracked_end-trim a ack t e h k d = omega (arith, length-drop (distance a ack) t.payload)

IsTracked-trim :
    (n ack : ℕ) (t : TrackedSegment)
    → IsU32 ack
    → control_len t ≡ 0
    → n < length t.payload
    → IsTracked (trim n ack t)
unfolding control_len
IsTracked-trim n ack t k z d = (k, omega (arith, length-drop n t.payload), omega arith, inl z)

-- An ACK that the head of the chain begins at leaves the chain as it is.
Acked-none : (a ack e : ℕ) (ts : List TrackedSegment) → a ≡ ack → Chain a ts e → Acked ack e ts ts 0
Acked-none a ack e ts h c = record {
  chain = subst (λ x. Chain x ts e) h c;
  bytes = refl;
  count = omega arith;
  shorter = omega arith;
  controls_le = omega arith;
}

Acked-trim :
    (a ack e : ℕ) (t : TrackedSegment) (ts : List TrackedSegment)
    → IsU32 a
    → IsU32 ack
    → control_len t ≡ 0
    → distance a ack < length t.payload
    → Chain a (t ∷ ts) e
    → Acked ack e (t ∷ ts) (trim (distance a ack) ack t ∷ ts) (distance a ack)
unfolding control_len
Acked-trim a ack e t ts h k z d c =
    let n = distance a ack in
    let l = length-drop n t.payload in
    let end = tracked_end-trim a ack t c.0 h k (omega arith) in
    let rest = subst (λ x. Chain x ts e) (sym end) c.2 in
    record {
      chain = (refl, IsTracked-trim n ack t k z d, rest);
      bytes = sym (drop_le-append n t.payload (bytes_of ts) (omega arith));
      count = omega (
        arith,
        l,
        length-append t.payload (bytes_of ts),
        length-append (drop n t.payload) (bytes_of ts),
      );
      shorter = omega (arith, l);
      controls_le = omega arith;
    }

distance-zero : (a ack : ℕ) → IsU32 a → IsU32 ack → distance a ack ≡ 0 → a ≡ ack
unfolding distance
distance-zero a ack h k e = omega arith

trim_front-Acked :
    (a ack e : ℕ) (t : TrackedSegment) (ts : List TrackedSegment)
    → IsU32 a
    → IsU32 ack
    → seq_len t < 2 ^ 31
    → distance a ack < seq_len t
    → Chain a (t ∷ ts) e
    → Acked ack e (t ∷ ts) (trim_front ack (t ∷ ts)) (trimmed ack (t ∷ ts))
unfolding trim_front trimmed
trim_front-Acked a ack e t ts h k m d c = elim (dec_lt 0 (distance a ack)) [
  | yes p ↦
      let z : control_len t ≡ 0 = omega (arith, c.1) in
      let n : split_count ack t ≡ distance a ack = rw c.0 (omega arith) in
      rw (splits-true a ack t c.0 h k m p d z, n) (Acked-trim a ack e t ts h k z (omega arith) c)
  | no p ↦
      let same = distance-zero a ack h k (omega arith) in
      rw (splits-false ack t (c.0 ∙ same) k) (Acked-none a ack e (t ∷ ts) same c)
]

-- Taking the head off a chain whose head the ACK covers.
Acked-cons :
    (ack e n : ℕ) (t : TrackedSegment) (ts rest : List TrackedSegment)
    → Acked ack e ts rest n
    → Acked ack e (t ∷ ts) rest (length t.payload + n)
Acked-cons ack e n t ts rest v = record {
  chain = v.chain;
  bytes = v.bytes ∙ sym (drop_past-append t.payload (bytes_of ts) n (length t.payload + n) refl);
  count = omega (arith, v.count, length-append t.payload (bytes_of ts));
  shorter = omega (arith, v.shorter);
  controls_le = omega (arith, v.controls_le);
}

pub rest-pop_one :
    (rtt : RttEstimator) (now_ms : ℕ) (t : TrackedSegment) (ts : List TrackedSegment) (p : Popped)
    → ((pop_one rtt now_ms t ts p).rest ≡ ts)
      × ((pop_one rtt now_ms t ts p).acked_payload ≡ p.acked_payload + length t.payload)
unfolding pop_one
rest-pop_one rtt now_ms t ts p = (refl, refl)

pub tracked_end-IsU32 : (t : TrackedSegment) → IsU32 (tracked_end t)
tracked_end-IsU32 t = omega (arith, tracked_end_lem t)

pub trimmed-nil : (ack : ℕ) → (trim_front ack [] ≡ []) × (trimmed ack [] ≡ 0)
unfolding trim_front trimmed
trimmed-nil ack = (refl, refl)

-- The loop of `apply_ack` and the trim behind it take off a chain what an ACK in its range covers.
pub pop_acked-Acked :
    (rtt : RttEstimator) (a ack now_ms e : ℕ) (ts : List TrackedSegment) (p : Popped)
    → p.rest ≡ ts
    → IsU32 a
    → IsU32 ack
    → total ts < 2 ^ 31
    → distance a ack ≤ total ts
    → Chain a ts e
    → let q = pop_acked rtt ack now_ms ts p in
      (n : ℕ) × (q.acked_payload + trimmed ack q.rest ≡ p.acked_payload + n)
      × Acked ack e ts (trim_front ack q.rest) n
unfolding pop_acked
pop_acked-Acked rtt a ack now_ms e [] p s h k m d c =
    let same = distance-zero a ack h k (omega arith) in
    rw s
      (0, omega (arith, (trimmed-nil ack).1), rw (trimmed-nil ack).0 (Acked-none a ack e [] same c))
pop_acked-Acked rtt a ack now_ms e (t ∷ ts) p s h k m d c =
    let by = ends_by_lem a ack t c.0 h k (omega arith) (omega arith) in
    elim (dec_le (seq_len t) (distance a ack)) [
      | yes covered ↦
          let ih =
            pop_acked-Acked rtt (tracked_end t) ack now_ms e ts (pop_one rtt now_ms t ts p)
              (rest-pop_one rtt now_ms t ts p).0 (tracked_end-IsU32 t) k (omega arith)
              (omega (arith, distance-tracked_end a ack t c.0 h k covered)) c.2 in
          rw (by, le→leb _ _ covered)
            (
              length t.payload + ih.0,
              omega (arith, ih.1, (rest-pop_one rtt now_ms t ts p).1),
              Acked-cons ack e ih.0 t ts _ ih.2,
            )
      | no left ↦
          let stop : leb (seq_len t) (distance a ack) ≡ false = ground arith in
          rw (by, stop, s)
            (
              trimmed ack (t ∷ ts),
              refl,
              trim_front-Acked a ack e t ts h k (omega arith) (omega arith) c,
            )
    ]
