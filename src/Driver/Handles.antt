-- ===== src/Driver/Handles.antt =====
-- rust/interop-driver/src/main.rs: the handles that the driver gives for markers.
use fips_tcp.Common.{
  All, Bool-cases, Eq, List, Option-cases, Result, [], ap, arith, err, inl, inr, none, ok, refl,
  some, subst, u64_max, ℕ, ◌==◌, ◌∙◌, ◌∷◌, ◌≡◌,
}
use fips_tcp.Driver.{
  Command, Driver, Fault, Value, auto_connect, listen, marker_status, reserve, string,
  write_with_marker, written, configure, connect, input, poll, accept, write, read, close, state,
}
use fips_tcp.Driver.Hex.{decode_hex}
use fips_tcp.Driver.Execute.{answer, ask_marker, execute, keep_marker, with_bytes, status_name}
use fips_tcp.Driver.Ready.{Below, insert-Below}
use fips_tcp.Marker.{SendMarker}
use fips_tcp.Stack.{Call, stack, panic}
use fips_tcp.Stack.Table.{get, insert, nat_eq, get-insert_other, get-insert_same}
use fips_tcp.Stack.Calls

-- A command other than `Configure`.
abbrev pub KeepsStack : {P : Type 0} → Command P → Type 0
KeepsStack (configure settings) = ⊥
KeepsStack _ = Unit

-- The handles of the table are below the next one, and one of them names a marker.
abbrev pub Names : {P : Type 0} → ℕ → SendMarker → Driver P → Type 0
Names h m d = Below d.next_marker d.markers × (get h d.markers ≡ some m)

insert-Names :
    (h : ℕ) (m m' : SendMarker) (next : ℕ) (markers : List (ℕ × SendMarker))
    → Below next markers
    → get h markers ≡ some m
    → get h (insert next m' markers) ≡ some m
insert-Names h m m' next markers v g =
    let less = v h m g in get-insert_other next h m' markers (ground (arith, less)) ∙ g

unused : (next : ℕ) (markers : List (ℕ × SendMarker)) → Below next markers → get next markers ≡ none
unused next markers v = elim (Option-cases (get next markers)) [
  | inl a ↦ a
  | inr (m, a) ↦ let less = v next m a in absurd (omega (arith, less))
]

module _ {P : Type 0} where
  answer-Names :
      {A : Type 0} (h : ℕ) (m : SendMarker) (d : Driver P) (r : Call P A) (f : A → Value)
      → Names h m d
      → Names h m (answer d r f).0
  answer-Names h m d (s, ok a) f v = v
  answer-Names h m d (s, err (stack w)) f v = v
  answer-Names h m d (s, err panic) f v = v

  with_bytes-Names :
      (h : ℕ) (m : SendMarker) (d : Driver P) (b : Result Fault (List ℕ))
      (f : List ℕ → Driver P × Result Fault Value)
      → Names h m d
      → ((bytes : List ℕ) → Names h m (f bytes).0)
      → Names h m (with_bytes d b f).0
  with_bytes-Names h m d (ok bytes) f v g = g bytes
  with_bytes-Names h m d (err w) f v g = v

  keep_marker-Names :
      (h : ℕ) (m : SendMarker) (d : Driver P) (r : Call P (ℕ × SendMarker))
      → Names h m d
      → Names h m (keep_marker d r).0
  unfolding keep_marker
  keep_marker-Names h m d (s, err (stack w)) v = v
  keep_marker-Names h m d (s, err panic) v = v
  keep_marker-Names h m d (s, ok (accepted, m')) v = elim (Bool-cases (d.next_marker == u64_max)) [
    | inl full ↦ rw full v
    | inr room ↦ rw room (
      insert-Below d.next_marker m' d.markers v.0,
      insert-Names h m m' d.next_marker d.markers v.0 v.1,
    )
  ]

module _ {P : Type 0} ⦃e : Eq P⦄ where
  execute-Names :
      (h : ℕ) (m : SendMarker) (command : Command P) (d : Driver P)
      → Names h m d
      → KeepsStack command
      → Names h m (execute command d).0
  unfolding execute
  execute-Names h m (configure settings) d v k = absurd k
  execute-Names h m (reserve slots eligible) d v k = answer-Names h m d _ _ v
  execute-Names h m (listen port) d v k = answer-Names h m d _ _ v
  execute-Names h m (connect peer local_port remote_port isn now_ms) d v k =
      answer-Names h m d _ _ v
  execute-Names h m (auto_connect peer remote_port now_ms) d v k = answer-Names h m d _ _ v
  execute-Names h m (input peer bytes now_ms) d v k =
      with_bytes-Names h m d (decode_hex bytes) _ v (λ bs. answer-Names h m d _ _ v)
  execute-Names h m (poll now_ms) d v k = v
  execute-Names h m (accept port) d v k = v
  execute-Names h m (write id bytes now_ms) d v k =
      with_bytes-Names h m d (decode_hex bytes) _ v (λ bs. answer-Names h m d _ _ v)
  execute-Names h m (write_with_marker id bytes now_ms) d v k =
      with_bytes-Names h m d (decode_hex bytes) _ v (λ bs. keep_marker-Names h m d _ v)
  execute-Names h m (marker_status handle) d v k = v
  execute-Names h m (read id n now_ms) d v k = answer-Names h m d _ _ v
  execute-Names h m (close id now_ms) d v k = answer-Names h m d _ _ v
  execute-Names h m (state id) d v k = v

  -- The driver after some commands.
  unfoldable pub after_all : List (Command P) → Driver P → Driver P
  after_all [] d = d
  after_all (command ∷ commands) d = after_all commands (execute command d).0

  after_all-Names :
      (h : ℕ) (m : SendMarker) (commands : List (Command P)) (d : Driver P)
      → Names h m d
      → All KeepsStack commands
      → Names h m (after_all commands d)
  unfolding after_all
  after_all-Names h m [] d v k = v
  after_all-Names h m (command ∷ commands) d v k =
      after_all-Names h m commands (execute command d).0 (execute-Names h m command d v k.0) k.1

  kept-Names :
      (d : Driver P) (r : Call P (ℕ × SendMarker)) (a h : ℕ)
      → Below d.next_marker d.markers
      → (keep_marker d r).1 ≡ ok (written a h)
      → (m : SendMarker) × (r.1 ≡ ok (a, m))
        × (get h d.markers ≡ none)
        × Names h m (keep_marker d r).0
  unfolding keep_marker
  kept-Names d (s, err (stack w)) a h v k = absurd (ground (arith, k))
  kept-Names d (s, err panic) a h v k = absurd (ground (arith, k))
  kept-Names d (s, ok (n, m)) a h v k = elim (Bool-cases (d.next_marker == u64_max)) [
    | inl full ↦ absurd (ground (arith, k, full))
    | inr room ↦
        let i : d.next_marker ≡ h = ground (arith, k, room) in
        let j : n ≡ a = ground (arith, k, room) in
        rw room (
          m,
          ap (λ x. ok (x, m)) j,
          subst (λ x. get x d.markers ≡ none) i (unused d.next_marker d.markers v),
          (
            insert-Below d.next_marker m d.markers v,
            subst (λ x. get x (insert d.next_marker m d.markers) ≡ some m) i
                (get-insert_same d.next_marker m d.markers),
          ),
        )
  ]

  -- From a driver whose handles all are below the next one: when `WriteWithMarker` answers with a
  -- handle, that handle was not in use, and after any commands other than `Configure` a
  -- `MarkerStatus` of it answers the status of the marker that this write took from the stack.
  pub written-Names :
      (id : ℕ) (bytes : List ℕ) (now_ms : ℕ) (bs : List ℕ) (d : Driver P) (a h : ℕ)
      (commands : List (Command P))
      → Below d.next_marker d.markers
      → decode_hex bytes ≡ ok bs
      → (execute (write_with_marker id bytes now_ms) d).1 ≡ ok (written a h)
      → All KeepsStack commands
      → let later = after_all commands (execute (write_with_marker id bytes now_ms) d).0 in
        (m : SendMarker) × ((Calls.write_with_marker id bs now_ms d.stack).1 ≡ ok (a, m))
        × (get h d.markers ≡ none)
        × ((execute (marker_status h) later).1
            ≡ ok (string (status_name (Calls.marker_status m later.stack))))
  unfolding execute ask_marker
  written-Names id bytes now_ms bs d a h commands v b k c =
      let r = Calls.write_with_marker id bs now_ms d.stack in
      let k' : (keep_marker d r).1 ≡ ok (written a h) = rw b at k in
      let (m, x, y, z) = kept-Names d r a h v k' in
      let kept = after_all-Names h m commands (keep_marker d r).0 z c in
      rw b (m, x, y, rw (kept.1, ask_marker) refl)
