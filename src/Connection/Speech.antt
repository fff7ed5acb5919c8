-- ===== src/Connection/Speech.antt =====
-- What a connection says: the segments that it sends, as pieces of the stream that its application
-- wrote.
pub mod Data
pub mod Acks
pub mod Inputs
pub mod Segments
pub mod Timers
pub mod History
use fips_tcp.Common.{
  All, All-append, Bool, List, [], ap, arith, drop, drop_le-append, false, inl, inr, length,
  length-append, length-drop, refl, subst, suc, sym, take, true, wrapping_add, zero, ℕ, ◌++◌, ◌+◌,
  ◌∙◌, ◌∷◌, ◌≡◌, ◌≤◌, ◌⊎◌,
}
use fips_tcp.Wire.{Segment, contains, syn_flag, fin_flag, flag_len}
use fips_tcp.Types.{State, fin_wait_1, fin_wait_2, closing, last_ack, time_wait}
use fips_tcp.Segments.{TrackedSegment, tracked_end}
use fips_tcp.Connection.{Connection}
use fips_tcp.Connection.Flight.{bytes_of, bytes_of-append, control_len, tracked_end_lem, total}

-- The FIN has been sent.
abbrev pub finished : State → Bool
finished fin_wait_1 = true
finished fin_wait_2 = true
finished closing = true
finished last_ack = true
finished time_wait = true
finished _ = false

abbrev pub Later : Bool → Bool → Type 0
Later a b = a ≡ true → b ≡ true

-- A SYN has the number before the stream.
abbrev pub SynAt : Bool → ℕ → ℕ → Type 0
SynAt true seq base = wrapping_add seq 1 ≡ base
SynAt false seq base = Unit

-- A FIN is sent at the end of the stream, once the state allows no more bytes.
abbrev pub FinIs : Bool → Bool → ℕ → ℕ → Type 0
FinIs true done end total = (done ≡ true) × (end ≡ total)
FinIs false done end total = Unit

-- A segment at an offset of the stream: without data, or with the bytes from there on.
abbrev pub Part : ℕ → List ℕ → Bool → ℕ → ℕ → List ℕ → Bool → Bool → Type 0
Part base sent done o seq payload syn fin =
    ((payload ≡ []) × (fin ≡ false) × SynAt syn seq base)
    ⊎ ((seq ≡ wrapping_add base o)
        × (payload ≡ take (length payload) (drop o sent))
        × (o + length payload ≤ length sent)
        × (syn ≡ false)
        × FinIs fin done (o + length payload) (length sent))

abbrev pub PartAt : ℕ → List ℕ → Bool → ℕ → TrackedSegment → Type 0
PartAt base sent done o t =
    Part base sent done o t.seq t.payload (contains t.flags syn_flag) (contains t.flags fin_flag)

-- The segments that are kept follow one another in the stream from an offset on.
abbrev pub Parts : ℕ → List ℕ → Bool → ℕ → List TrackedSegment → Type 0
Parts base sent done o [] = Unit
Parts base sent done o (t ∷ ts) =
    PartAt base sent done o t × Parts base sent done (o + length t.payload) ts

abbrev pub Says : ℕ → List ℕ → Bool → Segment → Type 0
Says base sent done s =
    (o : ℕ) × Part base sent done o s.seq s.payload (contains s.flags syn_flag)
      (contains s.flags fin_flag)

take_le-append : (n : ℕ) (xs ys : List ℕ) → n ≤ length xs → take n (xs ++ ys) ≡ take n xs
take_le-append zero xs ys h = refl
take_le-append (suc n) [] ys h = absurd (omega arith)
take_le-append (suc n) (x ∷ xs) ys h = ap (◌∷◌ x) (take_le-append n xs ys (omega arith))

FinIs-Later :
    (fin done done' : Bool) (end total : ℕ)
    → Later done done'
    → FinIs fin done end total
    → FinIs fin done' end total
FinIs-Later true done done' end total l (d, e) = (l d, e)
FinIs-Later false done done' end total l v = tt

FinIs-grows :
    (fin : Bool) (end total total' : ℕ) → FinIs fin false end total → FinIs fin false end total'
FinIs-grows true end total total' (d, e) = absurd (ground (arith, d))
FinIs-grows false end total total' v = tt

module _ (base : ℕ) (sent : List ℕ) where
  Part-Later :
      (done done' : Bool) (o seq : ℕ) (payload : List ℕ) (syn fin : Bool)
      → Later done done'
      → Part base sent done o seq payload syn fin
      → Part base sent done' o seq payload syn fin
  Part-Later done done' o seq payload syn fin l (inl v) = inl v
  Part-Later done done' o seq payload syn fin l (inr (s, p, w, n, f)) =
      inr (s, p, w, n, FinIs-Later fin done done' (o + length payload) (length sent) l f)

  -- The stream may grow before the FIN.
  Part-grows :
      (more : List ℕ) (o seq : ℕ) (payload : List ℕ) (syn fin : Bool)
      → Part base sent false o seq payload syn fin
      → Part base (sent ++ more) false o seq payload syn fin
  Part-grows more o seq payload syn fin (inl v) = inl v
  Part-grows more o seq payload syn fin (inr (s, p, w, n, f)) = inr (
    s,
    p
        ∙ sym (
            take_le-append (length payload) (drop o sent) more
              (omega (arith, w, length-drop o sent)))
        ∙ ap (take (length payload)) (sym (drop_le-append o sent more (omega (arith, w)))),
    omega (arith, w, length-append sent more),
    n,
    FinIs-grows fin (o + length payload) (length sent) (length (sent ++ more)) f,
  )

  pub Parts-Later :
      (done done' : Bool) (o : ℕ) (ts : List TrackedSegment)
      → Later done done'
      → Parts base sent done o ts
      → Parts base sent done' o ts
  Parts-Later done done' o [] l v = tt
  Parts-Later done done' o (t ∷ ts) l v = (
    Part-Later done done' o t.seq t.payload _ _ l v.0,
    Parts-Later done done' (o + length t.payload) ts l v.1,
  )

  pub Parts-grows :
      (more : List ℕ) (o : ℕ) (ts : List TrackedSegment)
      → Parts base sent false o ts
      → Parts base (sent ++ more) false o ts
  Parts-grows more o [] v = tt
  Parts-grows more o (t ∷ ts) v =
      (Part-grows more o t.seq t.payload _ _ v.0, Parts-grows more (o + length t.payload) ts v.1)

  pub Parts-append :
      (done : Bool) (o : ℕ) (ts : List TrackedSegment) (t : TrackedSegment)
      → Parts base sent done o ts
      → PartAt base sent done (o + length (bytes_of ts)) t
      → Parts base sent done o (ts ++ (t ∷ []))
  Parts-append done o [] t v p =
      let e : o + 0 ≡ o = omega arith in (subst (λ j. PartAt base sent done j t) e p, tt)
  Parts-append done o (x ∷ ts) t v p =
      let e : o + length (bytes_of (x ∷ ts)) ≡ (o + length x.payload) + length (bytes_of ts) =
        omega (arith, length-append x.payload (bytes_of ts)) in
      (
        v.0,
        Parts-append done (o + length x.payload) ts t v.1
            (subst (λ j. PartAt base sent done j t) e p),
      )

  pub All-Says-Later :
      (done done' : Bool) (ss : List Segment)
      → Later done done'
      → All (Says base sent done) ss
      → All (Says base sent done') ss
  All-Says-Later done done' [] l v = tt
  All-Says-Later done done' (s ∷ ss) l ((o, p), v) =
      ((o, Part-Later done done' o s.seq s.payload _ _ l p), All-Says-Later done done' ss l v)

  pub All-Says-grows :
      (more : List ℕ) (ss : List Segment)
      → All (Says base sent false) ss
      → All (Says base (sent ++ more) false) ss
  All-Says-grows more [] v = tt
  All-Says-grows more (s ∷ ss) ((o, p), v) =
      ((o, Part-grows more o s.seq s.payload _ _ p), All-Says-grows more ss v)

  -- The sending side, from the offset of the first byte that is not acknowledged on. The fields are
  -- those of a connection.
  pub record Speech (nxt : ℕ) (unacked : List TrackedSegment) (queue : List ℕ) (acked : ℕ)
      (st : State) : Type 0 where
    pub parts : Parts base sent (finished st) acked unacked
    pub number : finished st ≡ false → nxt ≡ wrapping_add base (acked + length (bytes_of unacked))
    pub rest : drop (acked + length (bytes_of unacked)) sent ≡ queue
    pub within : acked + length (bytes_of unacked) ≤ length sent
    pub emptied : finished st ≡ true → queue ≡ []

  abbrev pub Speaks : {P : Type 0} → Connection P → Type 0
  Speaks c = Speech c.send_nxt c.unacked c.send_queue c.send_progress.acked_payload_bytes c.state

  -- From a state on: the connection, and the segments that went out.
  abbrev pub Tells : {P : Type 0} → State → Connection P × List Segment → Type 0
  Tells st r =
      Speaks r.0
      × All (Says base sent (finished r.0.state)) r.1
      × Later (finished st) (finished r.0.state)

  pub state-Speech :
      {nxt : ℕ} {unacked : List TrackedSegment} {queue : List ℕ} {acked : ℕ} {st : State}
      (st' : State)
      → Speech nxt unacked queue acked st
      → finished st ≡ finished st'
      → Speech nxt unacked queue acked st'
  state-Speech {unacked} {acked} st' v e = record {
    parts = subst (λ b. Parts base sent b acked unacked) e v.parts;
    number = λ f. v.number (e ∙ f);
    rest = v.rest;
    within = v.within;
    emptied = λ f. v.emptied (e ∙ f);
  }

  -- One after the other.
  pub Tells-then :
      {P : Type 0} (st : State) (a b : Connection P × List Segment)
      → Tells st a
      → Tells a.0.state b
      → Tells st (b.0, a.1 ++ b.1)
  Tells-then st a b (va, oa, la) (vb, ob, lb) = (
    vb,
    All-append (Says base sent (finished b.0.state)) a.1 b.1
        (All-Says-Later (finished a.0.state) (finished b.0.state) a.1 lb oa) ob,
    λ f. lb (la f),
  )

  pub silent :
      {P : Type 0} (st : State) (c : Connection P)
      → Speaks c
      → finished c.state ≡ finished st
      → Tells st (c, [])
  silent st c v e = (v, tt, λ f. e ∙ f)
