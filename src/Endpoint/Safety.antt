-- ===== src/Endpoint/Safety.antt =====
-- The soundness of an endpoint, and lemmas on the calls of the adapter about it.
use fips_tcp.Common.{
  Bool-cases, List, Option-cases, Result, [], arith, err, inl, inr, is_empty, length, ok, refl,
  some, u64_max, ℕ, ◌+◌, ◌<◌, ◌∷◌, ◌≡◌, ◌≤◌,
}
use fips_tcp.Stack.{Failure, Stack, Call, stack, panic}
use fips_tcp.Types.{wire, connection_limit}
use fips_tcp.Stack.Calls.{drain_outbound}
use fips_tcp.Stack.Input.{input}
use fips_tcp.Stack.Consistency.{IsConsistent, IsSafe}
use fips_tcp.Stack.Safety.{Succeeds, input-Succeeds}
use fips_tcp.Stack.Safety.Identifiers.{input-next}
use fips_tcp.Endpoint.Peer.{Datagram, Fips, PeerKey, key_eq, from}
use fips_tcp.Endpoint.{
  adapter, panicked, Endpoint, Action, Fault, and_then, on_stack, flush, flushed, lifted, send_all,
}
use fips_tcp.Endpoint.Receive.{
  Admits, ReceiveReport, counted, feed, limited, wait_for_input, empty_report, process_batch,
  receive_with_clock,
}

-- The tables of the stack agree, and the batch that waits is of the size that was asked for.
pub record IsSound {F : Fips} (ep : Endpoint F) : Type 0 where
  pub tables : IsConsistent ep.stack
  pub batch : length ep.receive_batch ≤ 64

counted-some :
    (result : Result Failure (Unit {0})) (r : ReceiveReport)
    → IsSafe result
    → (r' : ReceiveReport) × (counted result r ≡ some r')
unfolding counted
counted-some (ok u) r v = (_, refl)
counted-some (err (stack (wire w))) r v = (_, refl)
counted-some (err (stack connection_limit)) r v = (_, refl)
counted-some (err (stack _)) r v = (_, refl)
counted-some (err panic) r v = absurd v

module _ {F : Fips} where
  abbrev pub NoPanic : {A : Type 0} → Result (Fault F) A → Type 0
  NoPanic (ok a) = Unit
  NoPanic (err (adapter e)) = Unit
  NoPanic (err panicked) = ⊥

module _ (F : Fips) where
  lifted-NoPanic : (r : Result F.EndpointError (Unit {0})) → NoPanic (lifted {F = F} r)
  lifted-NoPanic (ok u) = tt
  lifted-NoPanic (err e) = tt

module _ {F : Fips} where
  -- A call leaves a sound endpoint and does not panic.
  abbrev pub Stays : {A : Type 0} → Action F A → Type 0
  Stays r = IsSound r.0 × NoPanic r.1

  pub and_then-Stays :
      {A B : Type 0} (r : Action F A) (f : Endpoint F → A → Action F B)
      → Stays r
      → ((ep : Endpoint F) (a : A) → IsSound ep → Stays (f ep a))
      → Stays (and_then r f)
  and_then-Stays (ep, ok a) f v k = k ep a v.0
  and_then-Stays (ep, err (adapter x)) f v k = (v.0, tt)
  and_then-Stays (ep, err panicked) f v k = absurd v.1

  pub on_stack-Stays :
      {A : Type 0} (ep : Endpoint F) (r : Call (PeerKey F) A)
      → IsSound ep
      → Succeeds r
      → Stays (on_stack ep r)
  on_stack-Stays ep (s, ok a) v w = (record { tables = w.0; batch = v.batch }, tt)
  on_stack-Stays ep (s, err (stack x)) v w = (record { tables = w.0; batch = v.batch }, tt)
  on_stack-Stays ep (s, err panic) v w = absurd w.1

  pub flush-Stays : (ep : Endpoint F) → IsSound ep → Stays (flush ep)
  unfolding flush drain_outbound
  flush-Stays ep v = (
    record {
      tables = record { linked = v.tables.linked; fresh = v.tables.fresh };
      batch = v.batch;
    },
    lifted-NoPanic F (send_all F ep.stack.outbound ep.fsp_service_port ep.world).1,
  )

  -- A call that sends what it has put out.
  pub flushed-Stays : {A : Type 0} (r : Action F A) → Stays r → Stays (flushed r)
  flushed-Stays r v = and_then-Stays r _ v λ ep a w.
      and_then-Stays (flush ep) (λ ep' u. (ep', ok a)) (flush-Stays ep w) λ ep' u z. (z, tt)

module _ {F : Fips} {S : Type 0} where
  -- A batch with an identifier left for each of its datagrams.
  pub feed-Stays :
      (admitted : Admits F S) (now_ms : ℕ) (st : S) (ds : List (Datagram F.Identity))
      (s : Stack (PeerKey F)) (r : ReceiveReport)
      → IsConsistent s
      → s.next_connection_id + length ds < u64_max
      → let q = feed admitted now_ms st ds s r in IsConsistent q.0 × NoPanic q.1
  unfolding feed
  feed-Stays admitted now_ms st [] s r v n = (v, tt)
  feed-Stays admitted now_ms st (d ∷ ds) s r v n =
      let (st', admits) = admitted st d.source_peer d.«data» in
      let (s', result) = input (from F d.source_peer) d.«data» now_ms s in
      let taken = input-Succeeds (from F d.source_peer) d.«data» now_ms s v (omega (arith, n)) in
      let more = input-next (from F d.source_peer) d.«data» now_ms s in
      let (r', c) = counted-some result r taken.1 in
      elim (Bool-cases admits) [
        | inr e ↦
            rw (e, feed) (feed-Stays admitted now_ms st' ds s (limited r) v (omega (arith, n)))
        | inl e ↦
            rw (e, c, feed)
              (feed-Stays admitted now_ms st' ds s' r' taken.0 (omega (arith, n, more)))
      ]

module _ {F : Fips} where
  pub wait_for_input-Stays : (ep : Endpoint F) → IsSound ep → Stays (wait_for_input ep)
  unfolding wait_for_input
  wait_for_input-Stays ep v =
      let (w, got) = F.recv_batch_into 64 ep.world in
      elim (Bool-cases (is_empty ep.receive_batch)) [
        | inr e ↦ rw (e, wait_for_input) (v, tt)
        | inl e ↦ elim (Option-cases got) [
          | inl none_left ↦
              rw (e, none_left, wait_for_input) (record { tables = v.tables; batch = v.batch }, tt)
          | inr (ds, some_left) ↦
              rw (e, some_left, wait_for_input)
                (
                  record {
                    tables = v.tables;
                    batch = F.recv_batch-bounded 64 ep.world ds some_left;
                  },
                  tt,
                )
        ]
      ]

  wait_for_input-stack : (ep : Endpoint F) → (wait_for_input ep).0.stack ≡ ep.stack
  unfolding wait_for_input
  wait_for_input-stack ep =
      let (w, got) = F.recv_batch_into 64 ep.world in
      elim (Bool-cases (is_empty ep.receive_batch)) [
        | inr e ↦ rw (e, wait_for_input) refl
        | inl e ↦ elim (Option-cases got) [
          | inl none_left ↦ rw (e, none_left, wait_for_input) refl
          | inr (ds, some_left) ↦ rw (e, some_left, wait_for_input) refl
        ]
      ]

  process_batch-Stays :
      {S : Type 0} (clock : F.World → ℕ) (admitted : Admits F S) (st : S) (ep : Endpoint F)
      → IsSound ep
      → ep.stack.next_connection_id + 64 < u64_max
      → Stays (process_batch clock admitted st ep)
  unfolding process_batch
  process_batch-Stays clock admitted st ep v n =
      let fed =
        feed admitted (clock ep.world) st ep.receive_batch ep.stack
          (empty_report (length ep.receive_batch)) in
      let w =
        feed-Stays admitted (clock ep.world) st ep.receive_batch ep.stack
          (empty_report (length ep.receive_batch)) v.tables (omega (arith, n, v.batch)) in
      and_then-Stays (record ep { stack = fed.0; receive_batch = [] }, fed.1) _
        (record { tables = w.0; batch = omega arith }, w.1)
        λ ep1 report v1.
          and_then-Stays (flush ep1) (λ ep2 u. (ep2, ok report)) (flush-Stays ep1 v1)
            λ ep2 u v2. (v2, tt)

  -- What follows the wait starts from the endpoint that the wait leaves.
  waited-Stays :
      {A : Type 0} (ep : Endpoint F) (r : Action F (Unit {0}))
      (f : Endpoint F → Unit {0} → Action F A)
      → Stays r
      → r.0.stack ≡ ep.stack
      → ((ep' : Endpoint F) → IsSound ep' → ep'.stack ≡ ep.stack → Stays (f ep' tt))
      → Stays (and_then r f)
  waited-Stays ep (ep', ok tt) f v s k = k ep' v.0 s
  waited-Stays ep (ep', err (adapter x)) f v s k = (v.0, tt)
  waited-Stays ep (ep', err panicked) f v s k = absurd v.1

  pub receive_with_clock-Stays :
      {S : Type 0} (clock : F.World → ℕ) (admitted : Admits F S) (st : S) (ep : Endpoint F)
      → IsSound ep
      → ep.stack.next_connection_id + 64 < u64_max
      → Stays (receive_with_clock clock admitted st ep)
  unfolding receive_with_clock
  receive_with_clock-Stays clock admitted st ep v n =
      waited-Stays ep (wait_for_input ep) (λ ep' u. process_batch clock admitted st ep')
        (wait_for_input-Stays ep v) (wait_for_input-stack ep)
        λ ep' v' same. process_batch-Stays clock admitted st ep' v' (rw (same) n)
