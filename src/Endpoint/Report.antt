-- ===== src/Endpoint/Report.antt =====
-- What a receive report counts.
use fips_tcp.Common.{
  Bool, Bool-cases, List, Option-cases, Result, Yields, [], arith, err, inl, inr, length, none, ok,
  refl, retain, some, suc, true, ℕ, ◌+◌, ◌∙◌, ◌∷◌, ◌≡◌, ◌⊎◌,
}
use fips_tcp.Types.{connection_limit, wire}
use fips_tcp.Stack.{Failure, Stack, panic, stack}
use fips_tcp.Stack.Input.{input}
use fips_tcp.Endpoint.Peer.{Datagram, Fips, PeerKey, from, key_eq}
use fips_tcp.Endpoint.{Endpoint, Action, Fault, and_then, flush}
use fips_tcp.Endpoint.Receive.{
  Admits, ReceiveReport, counted, empty_report, feed, limited, process_batch, rejected,
}

-- The datagrams that a report has counted.
abbrev total : ReceiveReport → ℕ
total r = r.processed + rejected r

-- A report of the same batch that has counted `n` datagrams more.
abbrev Counts : ℕ → ReceiveReport → ReceiveReport → Type 0
Counts n r q = (q.datagrams ≡ r.datagrams) × (total q ≡ total r + n)

counted-Counts :
    (result : Result Failure (Unit {0})) (r q : ReceiveReport)
    → counted result r ≡ some q
    → Counts 1 r q
unfolding counted rejected
counted-Counts result r q h = ground (arith, h)

Counts-step :
    {F : Fips} (n : ℕ) (r r' : ReceiveReport) (result : Result (Fault F) ReceiveReport)
    → Counts 1 r r'
    → Yields (Counts n r') result
    → Yields (Counts (suc n) r) result
unfolding rejected
Counts-step n r r' (ok q) h k = (k.0 ∙ h.0, omega (arith, h.1, k.1))
Counts-step n r r' (err x) h k = tt

limited-Counts : (r : ReceiveReport) → Counts 1 r (limited r)
unfolding rejected
limited-Counts r = (refl, omega arith)

-- A report is of a whole batch, and its parts add up.
abbrev pub IsAccount : ℕ → ReceiveReport → Type 0
IsAccount count q = (q.datagrams ≡ count) × (q.datagrams ≡ q.processed + rejected q)

module _ {F : Fips} where
  -- The report goes out behind what the stack has put out, if that could be sent.
  sent-accounts :
      (count : ℕ) (q : ReceiveReport) (r : Action F (Unit {0}))
      → IsAccount count q
      → r.0.receive_batch ≡ []
      → let r' = and_then r λ ep u. (ep, ok q) in
        Yields (IsAccount count) r'.1 × (r'.0.receive_batch ≡ [])
  sent-accounts count q (ep, ok u) h e = (h, e)
  sent-accounts count q (ep, err x) h e = (tt, e)

  reported-accounts :
      (count : ℕ) (ep : Endpoint F) (result : Result (Fault F) ReceiveReport)
      → ep.receive_batch ≡ []
      → Yields (Counts count (empty_report count)) result
      → let r =
          and_then (ep, result) λ ep1 report. and_then (flush ep1) λ ep2 u. (ep2, ok report) in
        Yields (IsAccount count) r.1 × (r.0.receive_batch ≡ [])
  unfolding flush rejected
  reported-accounts count ep (ok q) e h =
      sent-accounts count q (flush ep) (h.0, h.0 ∙ omega (arith, h.1)) e
  reported-accounts count ep (err x) e h = (tt, e)

module _ {F : Fips} {S : Type 0} where
  -- The loop counts every datagram of the batch once, whatever becomes of it.
  feed-Counts :
      (admitted : Admits F S) (now_ms : ℕ) (st : S) (ds : List (Datagram F.Identity))
      (s : Stack (PeerKey F)) (r : ReceiveReport)
      → Yields (Counts (length ds) r) (feed admitted now_ms st ds s r).1
  unfolding feed rejected
  feed-Counts admitted now_ms st [] s r = (refl, omega arith)
  feed-Counts admitted now_ms st (d ∷ ds) s r =
      let (st', admits) = admitted st d.source_peer d.«data» in
      let (s', result) = input (from F d.source_peer) d.«data» now_ms s in
      elim (Bool-cases admits) [
        | inr e ↦
            rw (e, feed)
              (Counts-step (length ds) r (limited r) _ (limited-Counts r)
                (feed-Counts admitted now_ms st' ds s (limited r)))
        | inl e ↦ elim (Option-cases (counted result r)) [
          | inl panics ↦ rw (e, panics, feed) tt
          | inr (r', c) ↦
              rw (e, c, feed)
                (Counts-step (length ds) r r' _ (counted-Counts result r r' c)
                  (feed-Counts admitted now_ms st' ds s' r'))
        ]
      ]

  -- When a batch has been processed it is empty, and a report, if there is one, counts every
  -- datagram of the batch once: as many as the batch had, each processed or rejected.
  pub process_batch-accounts :
      (clock : F.World → ℕ) (admitted : Admits F S) (st : S) (ep : Endpoint F)
      → let r = process_batch clock admitted st ep in
        Yields (IsAccount (length ep.receive_batch)) r.1 × (r.0.receive_batch ≡ [])
  unfolding process_batch
  process_batch-accounts clock admitted st ep =
      let fed =
        feed admitted (clock ep.world) st ep.receive_batch ep.stack
          (empty_report (length ep.receive_batch)) in
      reported-accounts (length ep.receive_batch) (record ep { stack = fed.0; receive_batch = [] })
        fed.1 refl
        (feed-Counts admitted (clock ep.world) st ep.receive_batch ep.stack
          (empty_report (length ep.receive_batch)))

-- Whether a datagram makes the stack panic does not depend on the report.
counted-cases :
    (result : Result Failure (Unit {0})) (r q : ReceiveReport)
    → ((counted result r ≡ none) × (counted result q ≡ none))
      ⊎ ((r' : ReceiveReport) × (q' : ReceiveReport) × (counted result r ≡ some r')
          × (counted result q ≡ some q'))
unfolding counted
counted-cases (ok u) r q = inr (_, _, refl, refl)
counted-cases (err panic) r q = inl (refl, refl)
counted-cases (err (stack (wire e))) r q = inr (_, _, refl, refl)
counted-cases (err (stack connection_limit)) r q = inr (_, _, refl, refl)
counted-cases (err (stack _)) r q = inr (_, _, refl, refl)

module _ (F : Fips) (p : F.Identity → List ℕ → Bool) where
  -- An admission that depends on the peer and the bytes only.
  abbrev pub by_test : Admits F (Unit {0})
  by_test st peer bytes = (st, p peer bytes)

  abbrev pub to_all : Admits F (Unit {0})
  to_all st peer bytes = (st, true)

  -- The datagrams of a batch that the test admits.
  abbrev pub admissible : List (Datagram F.Identity) → List (Datagram F.Identity)
  admissible = retain (λ d. p d.source_peer d.«data»)

  -- When the admission of a batch depends on the peer and the bytes only, a datagram that is not
  -- admitted does nothing to the stack: the loop over the batch leaves the stack that the batch
  -- of the admitted datagrams alone leaves.
  pub feed-admissible :
      (now_ms : ℕ) (ds : List (Datagram F.Identity)) (s : Stack (PeerKey F)) (r q : ReceiveReport)
      → (feed by_test now_ms tt ds s r).0 ≡ (feed to_all now_ms tt (admissible ds) s q).0
  unfolding feed
  feed-admissible now_ms [] s r q = refl
  feed-admissible now_ms (d ∷ ds) s r q =
      let (s', result) = input (from F d.source_peer) d.«data» now_ms s in
      elim (Bool-cases (p d.source_peer d.«data»)) [
        | inr e ↦ rw (e, feed) (feed-admissible now_ms ds s (limited r) q)
        | inl e ↦ elim (counted-cases result r q) [
          | inl (a, b) ↦ rw (e, a, b, feed) refl
          | inr (r', q', a, b) ↦ rw (e, a, b, feed) (feed-admissible now_ms ds s' r' q')
        ]
      ]
