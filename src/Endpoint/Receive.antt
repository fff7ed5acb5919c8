-- ===== src/Endpoint/Receive.antt =====
-- The receiving calls of the adapter: one batch of datagrams goes into the stack.
use fips_tcp.Common.{
  Bool, List, Option, Result, [], err, false, if◌then◌else◌, is_empty, length, none, ok, some, true,
  ℕ, ◌+◌, ◌∷◌,
}
use fips_tcp.Types.{connection_limit, wire}
use fips_tcp.Stack.{Failure, Stack, panic, stack}
use fips_tcp.Stack.Input.{input}
use fips_tcp.Endpoint.Peer.{Datagram, Fips, PeerKey, from, key_eq}
use fips_tcp.Endpoint.{Endpoint, Action, Fault, adapter, and_then, closed, flush, panicked}

pub record ReceiveReport : Type 0 where
  pub datagrams : ℕ
  pub processed : ℕ
  pub malformed : ℕ
  pub connection_limited : ℕ
  pub other_errors : ℕ

-- `ReceiveReport::rejected`
unfoldable pub rejected : ReceiveReport → ℕ
rejected r = r.malformed + r.connection_limited + r.other_errors

-- The report of a batch before its first datagram.
abbrev pub empty_report : ℕ → ReceiveReport
empty_report count = record {
  datagrams = count;
  processed = 0;
  malformed = 0;
  connection_limited = 0;
  other_errors = 0;
}

abbrev pub limited : ReceiveReport → ReceiveReport
limited r = record r { connection_limited = r.connection_limited + 1 }

-- The report after a datagram that the stack took with a result; `none` for a panic.
unfoldable pub counted : Result Failure (Unit {0}) → ReceiveReport → Option ReceiveReport
counted (ok u) r = some (record r { processed = r.processed + 1 })
counted (err (stack (wire e))) r = some (record r { malformed = r.malformed + 1 })
counted (err (stack connection_limit)) r = some (limited r)
counted (err (stack _)) r = some (record r { other_errors = r.other_errors + 1 })
counted (err panic) r = none

-- `admitted` may keep a state of its own.
abbrev pub Admits : Fips → Type 0 → Type 0
Admits F S = S → F.Identity → List ℕ → S × Bool

module _ {F : Fips} where
  -- The loop over the batch.
  unfoldable pub feed :
      {S : Type 0}
      → Admits F S
      → ℕ
      → S
      → List (Datagram F.Identity)
      → Stack (PeerKey F)
      → ReceiveReport
      → Stack (PeerKey F) × Result (Fault F) ReceiveReport
  feed admitted now_ms st [] s r = (s, ok r)
  feed admitted now_ms st (d ∷ ds) s r =
      let (st', admits) = admitted st d.source_peer d.«data» in
      elim admits [
        | false ↦ feed admitted now_ms st' ds s (limited r)
        | true ↦
            let (s', result) = input (from F d.source_peer) d.«data» now_ms s in
            elim (counted result r) [
              | none ↦ (s', err panicked)
              | some r' ↦ feed admitted now_ms st' ds s' r'
            ]
      ]

  unfoldable pub wait_for_input : Endpoint F → Action F (Unit {0})
  wait_for_input ep =
      if is_empty ep.receive_batch
      then (let (w, got) = F.recv_batch_into 64 ep.world in
          elim got [
            | none ↦ (record ep { world = w }, err (adapter closed))
            | some ds ↦ (record ep { world = w; receive_batch = ds }, ok tt)
          ])
      else (ep, ok tt)

  -- The batch that was waited for goes through the stack, then what the stack has put out.
  unfoldable pub process_batch :
      {S : Type 0} → (F.World → ℕ) → Admits F S → S → Endpoint F → Action F ReceiveReport
  process_batch clock admitted st ep =
      let (s, result) =
        feed admitted (clock ep.world) st ep.receive_batch ep.stack
          (empty_report (length ep.receive_batch)) in
      let ep' : Endpoint F = record ep { stack = s; receive_batch = [] } in
      and_then (ep', result) λ ep1 report. and_then (flush ep1) λ ep2 u. (ep2, ok report)

  -- `receive_report_filtered_datagrams_with_clock`
  unfoldable pub receive_with_clock :
      {S : Type 0} → (F.World → ℕ) → Admits F S → S → Endpoint F → Action F ReceiveReport
  receive_with_clock clock admitted st ep =
      and_then (wait_for_input ep) λ ep' u. process_batch clock admitted st ep'

  unfoldable pub receive_report_filtered_datagrams :
      {S : Type 0} → ℕ → Admits F S → S → Endpoint F → Action F ReceiveReport
  receive_report_filtered_datagrams now_ms admitted st ep =
      receive_with_clock (λ w. now_ms) admitted st ep

  unfoldable pub receive_report_filtered :
      {S : Type 0} → ℕ → (S → F.Identity → S × Bool) → S → Endpoint F → Action F ReceiveReport
  receive_report_filtered now_ms admitted st ep =
      receive_report_filtered_datagrams now_ms (λ st' peer bytes. admitted st' peer) st ep

  unfoldable pub receive_report : ℕ → Endpoint F → Action F ReceiveReport
  receive_report now_ms ep =
      receive_report_filtered now_ms (λ (st : Unit {0}) peer. (st, true)) tt ep

  unfoldable pub receive : ℕ → Endpoint F → Action F ℕ
  receive now_ms ep = and_then (receive_report now_ms ep) λ ep' r. (ep', ok r.datagrams)
