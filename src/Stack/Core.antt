-- ===== src/Stack/Core.antt =====
-- stack.rs: what the calls share. Sending segments, removing connections, and the numbers that
-- the stack hands out. Also stack_admission.rs.
use fips_tcp.Common.{
  Bool, Eq, List, Result, [], any, arith, as_u32, bit_xor, err, false, if◌then◌else◌, leb, length,
  max, none, not, ok, some, suc, true, u16_max, u64_mod, wrapping_add, zero, ℕ, ◌%◌, ◌&&◌, ◌*◌,
  ◌++◌, ◌+◌, ◌-◌, ◌/◌, ◌==◌, ◌^◌, ◌||◌, ◌↔◌, ◌∷◌, ◌≡◌,
}
use fips_tcp.Wire
use fips_tcp.Wire.{Segment, encode, ack_flag, rst_flag, sequence_len, union}
use fips_tcp.Types.{connection_limit, invalid_config, no_ephemeral_port, no_ordinary_capacity, wire}
use fips_tcp.Connection.{Connection}
use fips_tcp.Stack.{Stack, Call, ConnectionKey, Failure, Outbound, stack}
use fips_tcp.Stack.Table.{nat_eq, get, remove}

-- `HashMap::contains_key`, `HashSet::contains`
module _ {ℓ} {A : Type ℓ} ⦃e : Eq A⦄ where
  abbrev pub mem : A → List A → Bool
  mem a xs = any (λ x. e.beq x a) xs

-- The segments to one peer, encoded one by one; an error keeps those before it.
unfoldable pub emit_to :
    {P : Type 0}
    → P
    → List Segment
    → List (Outbound P)
    → List (Outbound P) × Result Failure (Unit {0})
emit_to peer [] out = (out, ok tt)
emit_to peer (segment ∷ segments) out = elim (encode segment) [
  | err e ↦ (out, err (stack (wire e)))
  | ok bytes ↦ emit_to peer segments (out ++ (record { peer = peer; bytes = bytes } ∷ []))
]

-- The reset that answers a segment of no connection.
unfoldable pub reset_for : Segment → Segment
reset_for incoming =
    let reset : Segment = record (Wire.new incoming.dst_port incoming.src_port 0) { window = 0 } in
    elim incoming.ack [
      | some ack ↦ record reset { seq = ack; flags = rst_flag }
      | none ↦ record reset {
        flags = union rst_flag ack_flag;
        ack = some (wrapping_add incoming.seq (sequence_len incoming));
      }
    ]

-- The state update of `next_isn` on 64 bits.
unfoldable pub xorshift : ℕ → ℕ
xorshift v =
    let a = bit_xor v (v * 2 ^ 13 % u64_mod) in
    let b = bit_xor a (a / 2 ^ 7) in bit_xor b (b * 2 ^ 17 % u64_mod)

abbrev pub first_ephemeral_port : ℕ
first_ephemeral_port = 49152

module _ {P : Type 0} where
  unfoldable pub emit : ℕ → List Segment → Stack P → Call P (Unit {0})
  emit id segments s = elim (get id s.connections) [
    | none ↦ (s, ok tt)
    | some c ↦ let (out, r) = emit_to c.peer segments s.outbound in (record s { outbound = out }, r)
  ]

  unfoldable pub emit_reset : P → Segment → Stack P → Call P (Unit {0})
  emit_reset peer incoming s =
      let (out, r) = emit_to peer (reset_for incoming ∷ []) s.outbound in
      (record s { outbound = out }, r)

  unfoldable pub allocate_connection_id : Stack P → Stack P × ℕ
  allocate_connection_id s = (
    record s { next_connection_id = max ((s.next_connection_id + 1) % u64_mod) 1 },
    s.next_connection_id,
  )

  unfoldable pub next_isn : Stack P → Stack P × ℕ
  next_isn s =
      let value = xorshift s.isn_state in
      (record s { isn_state = max value 1 }, as_u32 (bit_xor value (value / 2 ^ 32)))

  abbrev pub key_of : Connection P → ConnectionKey P
  key_of c = record { peer = c.peer; local_port = c.local_port; remote_port = c.remote_port }

module _ {P : Type 0} ⦃e : Eq P⦄ where
  -- The derived `PartialEq` of the keys.
  unfoldable pub key_beq : ConnectionKey P → ConnectionKey P → Bool
  key_beq a b =
      e.beq a.peer b.peer && (a.local_port == b.local_port && a.remote_port == b.remote_port)

  pub key_beq_iff : (a b : ConnectionKey P) → (key_beq a b ≡ true) ↔ (a ≡ b)
  unfolding key_beq
  key_beq_iff a b = ground (arith, e.beq_iff a.peer b.peer)

  instance abbrev pub key_eq : Eq (ConnectionKey P)
  key_eq = record { beq = key_beq; beq_iff = key_beq_iff }

  unfoldable pub remove_connection : ℕ → Stack P → Stack P
  remove_connection id s = elim (get id s.connections) [
    | none ↦ s
    | some c ↦ record s {
      connections = remove id s.connections;
      lookup = remove (key_of c) s.lookup;
    }
  ]

  -- The connections of one peer.
  unfoldable pub peer_count : P → List (ℕ × Connection P) → ℕ
  peer_count peer [] = 0
  peer_count peer ((id, c) ∷ rest) = (if e.beq c.peer peer then 1 else 0) + peer_count peer rest

  abbrev pub refused_by_reservation : Stack P → P → Bool
  refused_by_reservation s peer = elim s.reservation [
    | none ↦ false
    | some r ↦
        leb (s.config.max_connections - r.slots) (length s.connections) && not (r.eligible peer)
  ]

  unfoldable pub ensure_connection_capacity : Stack P → P → Result Failure (Unit {0})
  ensure_connection_capacity s peer =
      if leb s.config.max_connections (length s.connections)
        || leb s.config.max_connections_per_peer (peer_count peer s.connections)
      then err (stack connection_limit)
      else (if refused_by_reservation s peer then err (stack connection_limit) else ok tt)

  unfoldable pub set_connection_reservation : Stack P → ℕ → (P → Bool) → Call P (Unit {0})
  set_connection_reservation s slots eligible =
      if leb s.config.max_connections slots
      then (s, err (stack (invalid_config no_ordinary_capacity)))
      else (
        record s {
          reservation =
              if not (slots == 0)
              then some (record { slots = slots; eligible = eligible })
              else none;
        },
        ok tt,
      )

  -- The search of `allocate_ephemeral_port`, for a number of attempts.
  unfoldable pub search_port : ℕ → Stack P → P → ℕ → Call P ℕ
  search_port zero s peer remote_port = (s, err (stack no_ephemeral_port))
  search_port (suc attempts) s peer remote_port =
      let port = s.next_ephemeral_port in
      let s' : Stack P = record s {
        next_ephemeral_port = if port == u16_max then first_ephemeral_port else port + 1;
      } in
      let key : ConnectionKey P = record {
        peer = peer;
        local_port = port;
        remote_port = remote_port;
      } in
      elim (get key s.lookup) [
        | none ↦ (s', ok port)
        | some id ↦ search_port attempts s' peer remote_port
      ]

  unfoldable pub allocate_ephemeral_port : Stack P → P → ℕ → Call P ℕ
  allocate_ephemeral_port s peer remote_port = search_port 16384 s peer remote_port
