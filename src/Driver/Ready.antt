-- ===== src/Driver/Ready.antt =====
-- rust/interop-driver/src/main.rs: what the driver's variables keep, and the panics of a command.
use fips_tcp.Common.{
  Bool, Bool-cases, Eq, List, Option-cases, Result, arith, err, false, inl, inr, leb, length, ok,
  refl, some, suc, sym, u64_max, ℕ, ◌+◌, ◌<◌, ◌==◌, ◌∙◌, ◌≡◌, ◌≤◌,
}
use fips_tcp.Driver.{
  Command, Driver, Fault, Settings, Value, auto_connect, error, listen, marker_status, panics,
  reserve, write_with_marker, configure, connect, input, poll, accept, write, read, close, state,
}
use fips_tcp.Driver.Hex.{decode_hex}
use fips_tcp.Driver.Hex.RoundTrip.{IsAscii, IsPrinted, Decoded, decode_hex-Decoded}
use fips_tcp.Driver.Execute.{
  answer, ask_marker, configuration, execute, keep_marker, reconfigure, with_bytes,
}
use fips_tcp.Driver.Serve.{initial, handle}
use fips_tcp.Marker.{SendMarker}
use fips_tcp.Stack.{Stack, Call, stack, panic}
use fips_tcp.Stack.Table.{get, insert, nat_eq, get-insert_other}
use fips_tcp.Stack.Core.{mem, set_connection_reservation}
use fips_tcp.Stack.Open
use fips_tcp.Stack.Calls
use fips_tcp.Stack.Input
use fips_tcp.Stack.Consistency.{IsConsistent}
use fips_tcp.Stack.Safety.{Succeeds, and_then-Succeeds, input-Succeeds, empty-IsConsistent}
use fips_tcp.Stack.Safety.Calls.{
  connect-Succeeds, close-Succeeds, connect_from_with_isn-Succeeds, poll-IsConsistent,
  read-Succeeds, write_with_marker-Succeeds, set_connection_reservation-Succeeds,
  accept-IsConsistent,
}
use fips_tcp.Stack.Safety.Identifiers.{Gives, input-next}
use fips_tcp.Stack.Safety.Counters.{
  done-next, write_with_marker-next, read-next, close-next, poll-next, accept-next, connect-next,
  connect_from_with_isn-next,
}
use fips_tcp.Types.{validate}

abbrev pub Below : ℕ → List (ℕ × SendMarker) → Type 0
Below next markers = (h : ℕ) (m : SendMarker) → get h markers ≡ some m → h < next

-- The tables of the stack agree, the handles given are below the next one, and neither these nor
-- the identifiers of connections run out within `n` more commands.
pub record IsReady {P : Type 0} ⦃e : Eq P⦄ (n : ℕ) (d : Driver P) : Type 0 where
  pub tables : IsConsistent d.stack
  pub handles : Below d.next_marker d.markers
  pub identifiers : d.stack.next_connection_id + n ≤ u64_max
  pub room : d.next_marker + n ≤ u64_max

-- A command whose configuration is valid and whose texts of bytes are ASCII.
abbrev pub IsRunnable : {P : Type 0} → Command P → Type 0
IsRunnable (configure settings) = validate (configuration settings) ≡ ok tt
IsRunnable (input peer bytes now_ms) = IsAscii bytes
IsRunnable (write id bytes now_ms) = IsAscii bytes
IsRunnable (write_with_marker id bytes now_ms) = IsAscii bytes
IsRunnable _ = Unit

pub insert-Below :
    (next : ℕ) (m : SendMarker) (markers : List (ℕ × SendMarker))
    → Below next markers
    → Below (next + 1) (insert next m markers)
insert-Below next m markers v h k g = elim (Bool-cases (next == h)) [
  | inl same ↦ ground (arith, same)
  | inr other ↦
      let less = v h k (sym (get-insert_other next h m markers other) ∙ g) in omega (arith, less)
]

module _ {P : Type 0} ⦃e : Eq P⦄ where
  abbrev pub Runs : ℕ → Driver P × Result Fault Value → Type 0
  Runs n r = IsReady n r.0 × IsPrinted r.1

  pub stay-IsReady : (n : ℕ) (d : Driver P) → IsReady (suc n) d → IsReady n d
  stay-IsReady n d v = record {
    tables = v.tables;
    handles = v.handles;
    identifiers = omega (arith, v.identifiers);
    room = omega (arith, v.room);
  }

  stack-IsReady :
      (n : ℕ) (d : Driver P) (s : Stack P)
      → IsReady (suc n) d
      → IsConsistent s
      → Gives d.stack.next_connection_id s
      → IsReady n (record d { stack = s })
  stack-IsReady n d s v c g = record {
    tables = c;
    handles = v.handles;
    identifiers = omega (arith, v.identifiers, g);
    room = omega (arith, v.room);
  }

  answer-Runs :
      {A : Type 0} (n : ℕ) (d : Driver P) (r : Call P A) (f : A → Value)
      → IsReady (suc n) d
      → Succeeds r
      → Gives d.stack.next_connection_id r.0
      → Runs n (answer d r f)
  answer-Runs n d (s, ok a) f v c g = (stack-IsReady n d s v c.0 g, tt)
  answer-Runs n d (s, err (stack w)) f v c g = (stack-IsReady n d s v c.0 g, tt)
  answer-Runs n d (s, err panic) f v c g = absurd c.1

  keep_marker-Runs :
      (n : ℕ) (d : Driver P) (r : Call P (ℕ × SendMarker))
      → IsReady (suc n) d
      → Succeeds r
      → Gives d.stack.next_connection_id r.0
      → Runs n (keep_marker d r)
  unfolding keep_marker
  keep_marker-Runs n d (s, ok (accepted, m)) v c g =
      let more : (d.next_marker == u64_max) ≡ false = ground (arith, v.room) in
      rw more (
        record {
          tables = c.0;
          handles = insert-Below d.next_marker m d.markers v.handles;
          identifiers = omega (arith, v.identifiers, g);
          room = omega (arith, v.room);
        },
        tt,
      )
  keep_marker-Runs n d (s, err (stack w)) v c g = (stack-IsReady n d s v c.0 g, tt)
  keep_marker-Runs n d (s, err panic) v c g = absurd c.1

  with_bytes-Runs :
      (n k : ℕ) (d : Driver P) (m : Result Fault (List ℕ))
      (f : List ℕ → Driver P × Result Fault Value)
      → IsReady (suc n) d
      → Decoded k m
      → ((bytes : List ℕ) → Runs n (f bytes))
      → Runs n (with_bytes d m f)
  with_bytes-Runs n k d (ok bytes) f v c g = g bytes
  with_bytes-Runs n k d (err (error w)) f v c g = (stay-IsReady n d v, tt)
  with_bytes-Runs n k d (err panics) f v c g = absurd c

  ask_marker-IsPrinted : (h : ℕ) (d : Driver P) → IsPrinted (ask_marker h d)
  unfolding ask_marker
  ask_marker-IsPrinted h d = elim (Option-cases (get h d.markers)) [
    | inl a ↦ rw (a, ask_marker) tt
    | inr (m, a) ↦ rw (a, ask_marker) tt
  ]

  reconfigure-Runs :
      (n : ℕ) (settings : Settings) (d : Driver P)
      → IsReady (suc n) d
      → validate (configuration settings) ≡ ok tt
      → Runs n (reconfigure settings d)
  unfolding reconfigure Open.new get
  reconfigure-Runs n settings d v c =
      rw (c, reconfigure, Open.new)
        (
          record {
            tables = empty-IsConsistent _ refl refl;
            handles = λ h m g. absurd (ground (arith, g));
            identifiers = omega (arith, v.room);
            room = omega (arith, v.room);
          },
          tt,
        )

  pub initial-IsReady :
      (next_token n : ℕ)
      → n < u64_max
      → (d : Driver P) × (initial next_token ≡ some d) × IsReady n d
  unfolding initial Open.new get validate
  initial-IsReady next_token n h = (
    _,
    refl,
    record {
      tables = empty-IsConsistent _ refl refl;
      handles = λ k m g. absurd (ground (arith, g));
      identifiers = omega (arith, h);
      room = omega (arith, h);
    },
  )

  listen-Succeeds :
      (port : ℕ) (s : Stack P)
      → IsConsistent s
      → Succeeds (Open.listen port s)
        × ((Open.listen port s).0.next_connection_id ≡ s.next_connection_id)
  unfolding Open.listen
  listen-Succeeds port s v = elim (Bool-cases (port == 0)) [
    | inl a ↦ rw (a, Open.listen) ((v, tt), refl)
    | inr a ↦ elim (Bool-cases (mem port s.listeners)) [
      | inl b ↦ rw (a, b, Open.listen) ((v, tt), refl)
      | inr b ↦ rw (a, b, Open.listen) ((record { linked = v.linked; fresh = v.fresh }, tt), refl)
    ]
  ]

  reservation-next :
      (s : Stack P) (slots : ℕ) (eligible : P → Bool)
      → (set_connection_reservation s slots eligible).0.next_connection_id ≡ s.next_connection_id
  unfolding set_connection_reservation
  reservation-next s slots eligible = elim (Bool-cases (leb s.config.max_connections slots)) [
    | inl a ↦ rw (a, set_connection_reservation) refl
    | inr a ↦ rw (a, set_connection_reservation) refl
  ]

  write-Succeeds :
      (id : ℕ) (bytes : List ℕ) (now_ms : ℕ) (s : Stack P)
      → IsConsistent s
      → Succeeds (Calls.write id bytes now_ms s)
  unfolding Calls.write
  write-Succeeds id bytes now_ms s v =
      and_then-Succeeds (Calls.write_with_marker id bytes now_ms s) _
        (write_with_marker-Succeeds id bytes now_ms s v) (λ s' r w. (w, tt))

  write-next :
      (id : ℕ) (bytes : List ℕ) (now_ms : ℕ) (s : Stack P)
      → (Calls.write id bytes now_ms s).0.next_connection_id ≡ s.next_connection_id
  unfolding Calls.write
  write-next id bytes now_ms s =
      done-next (Calls.write_with_marker id bytes now_ms s) _
      ∙ write_with_marker-next id bytes now_ms s

  pub execute-Runs :
      (n : ℕ) (command : Command P) (d : Driver P)
      → IsReady (suc n) d
      → IsRunnable command
      → Runs n (execute command d)
  unfolding execute
  execute-Runs n (configure settings) d v c = reconfigure-Runs n settings d v c
  execute-Runs n (reserve slots eligible) d v c =
      answer-Runs n d (set_connection_reservation d.stack slots (λ peer. mem peer eligible)) _ v
        (set_connection_reservation-Succeeds d.stack slots _ v.tables)
        (omega (arith, reservation-next d.stack slots (λ peer. mem peer eligible)))
  execute-Runs n (listen port) d v c =
      let l = listen-Succeeds port d.stack v.tables in
      answer-Runs n d (Open.listen port d.stack) _ v l.0 (omega (arith, l.1))
  execute-Runs n (connect peer local_port remote_port isn now_ms) d v c =
      answer-Runs n d (Open.connect_from_with_isn peer local_port remote_port isn now_ms d.stack) _
        v
        (connect_from_with_isn-Succeeds peer local_port remote_port isn now_ms d.stack v.tables
          (omega (arith, v.identifiers)))
        (connect_from_with_isn-next peer local_port remote_port isn now_ms d.stack)
  execute-Runs n (auto_connect peer remote_port now_ms) d v c =
      answer-Runs n d (Open.connect peer remote_port now_ms d.stack) _ v
        (connect-Succeeds peer remote_port now_ms d.stack v.tables (omega (arith, v.identifiers)))
        (connect-next peer remote_port now_ms d.stack)
  execute-Runs n (input peer bytes now_ms) d v c =
      with_bytes-Runs n (length bytes) d (decode_hex bytes) _ v (decode_hex-Decoded bytes c) λ bs.
        answer-Runs n d (Input.input peer bs now_ms d.stack) _ v
          (input-Succeeds peer bs now_ms d.stack v.tables (omega (arith, v.identifiers)))
          (input-next peer bs now_ms d.stack)
  execute-Runs n (poll now_ms) d v c = (
    stack-IsReady n d (Calls.poll now_ms d.stack) v (poll-IsConsistent now_ms d.stack v.tables)
        (omega (arith, poll-next now_ms d.stack)),
    tt,
  )
  execute-Runs n (accept port) d v c = (
    stack-IsReady n d (Open.accept port d.stack).0 v (accept-IsConsistent port d.stack v.tables)
        (omega (arith, accept-next port d.stack)),
    tt,
  )
  execute-Runs n (write id bytes now_ms) d v c =
      with_bytes-Runs n (length bytes) d (decode_hex bytes) _ v (decode_hex-Decoded bytes c) λ bs.
        answer-Runs n d (Calls.write id bs now_ms d.stack) _ v
          (write-Succeeds id bs now_ms d.stack v.tables)
          (omega (arith, write-next id bs now_ms d.stack))
  execute-Runs n (write_with_marker id bytes now_ms) d v c =
      with_bytes-Runs n (length bytes) d (decode_hex bytes) _ v (decode_hex-Decoded bytes c) λ bs.
        keep_marker-Runs n d (Calls.write_with_marker id bs now_ms d.stack) v
          (write_with_marker-Succeeds id bs now_ms d.stack v.tables)
          (omega (arith, write_with_marker-next id bs now_ms d.stack))
  execute-Runs n (marker_status handle) d v c = (stay-IsReady n d v, ask_marker-IsPrinted handle d)
  execute-Runs n (read id k now_ms) d v c =
      answer-Runs n d (Calls.read id k d.stack) _ v (read-Succeeds id k d.stack v.tables)
        (omega (arith, read-next id k d.stack))
  execute-Runs n (close id now_ms) d v c =
      answer-Runs n d (Calls.close id now_ms d.stack) _ v
        (close-Succeeds id now_ms d.stack v.tables) (omega (arith, close-next id now_ms d.stack))
  execute-Runs n (state id) d v c = (stay-IsReady n d v, tt)
