-- ===== src/Endpoint/Peer.antt =====
-- rust/fips-tcp-endpoint/src/peer.rs: the key of a peer, and what the adapter uses of the crate
-- fips_core.
use fips_tcp.Common.{
  ==_iff, Bool, Bool-cases, Eq, List, Option, Result, ap, false, inl, inr, length, not, refl, some,
  sym, true, ℕ, ◌==◌, ◌↔◌, ◌∙◌, ◌≡◌, ◌≤◌, ◌⊎◌,
}
use mathlib.Core.HLevel.{Σ_prop_path}

-- A datagram of `recv_batch_into`.
pub record Datagram (I : Type 0) : Type 0 where
  pub source_peer : I
  pub destination_port : ℕ
  pub «data» : List ℕ

-- `FipsEndpoint` and `FipsEndpointServiceReceiver` with their errors, over the state of the world
-- that their handles refer to, and `PeerIdentity` with its public key. The laws are those of the
-- points of a curve: a point and its negation have one x coordinate and different parities, and an
-- identity is determined by the coordinate and the parity.
pub record Fips : Type 1 where
  pub Identity : Type 0
  pub World : Type 0
  pub EndpointError : Type 0
  pub IdentityError : Type 0
  pub RegistrationError : Type 0
  pub Capability : Type 0
  pub register_service_receiver : ℕ → World → World × Result EndpointError (Unit {0})
  pub fsp_port : Capability → Option ℕ
  pub missing_port : RegistrationError
  pub register_with_capability : Capability → World → World × Result RegistrationError (Unit {0})
  pub recv_batch_into : ℕ → World → World × Option (List (Datagram Identity))
  -- A batch has at most the size that is asked for.
  pub recv_batch-bounded :
      (n : ℕ) (w : World) (batch : List (Datagram Identity))
      → (recv_batch_into n w).1 ≡ some batch
      → length batch ≤ n
  pub send_datagram : Identity → ℕ → ℕ → List ℕ → World → World × Result EndpointError (Unit {0})
  -- `pubkey`, `pubkey_full().serialize()[0] == 3` and `from_pubkey_full(pubkey_full().negate())`
  pub pubkey : Identity → ℕ
  pub is_odd : Identity → Bool
  pub negated : Identity → Identity
  pub pubkey-negated : (i : Identity) → pubkey (negated i) ≡ pubkey i
  pub is_odd-negated : (i : Identity) → is_odd (negated i) ≡ not (is_odd i)
  pub identity_unique : (i j : Identity) → pubkey i ≡ pubkey j → is_odd i ≡ is_odd j → i ≡ j

-- `PeerKey`, with the parity that `From<PeerIdentity>`, its only constructor in use, sees to.
pub record PeerKey (F : Fips) : Type 0 where
  pub identity : F.Identity
  pub is_even : F.is_odd identity ≡ false

is_even-IsProp : (F : Fips) (i : F.Identity) → IsProp (F.is_odd i ≡ false)
is_even-IsProp F i = hlevel

module _ (F : Fips) where
  unfoldable pub normalized :
      (peer : F.Identity) → (F.is_odd peer ≡ true) ⊎ (F.is_odd peer ≡ false) → PeerKey F
  normalized peer (inl odd) = record {
    identity = F.negated peer;
    is_even = F.is_odd-negated peer ∙ ap not odd;
  }
  normalized peer (inr even) = record { identity = peer; is_even = even }

  -- `PeerKey::from`
  unfoldable pub from : F.Identity → PeerKey F
  from peer = normalized peer (Bool-cases (F.is_odd peer))

module _ {F : Fips} where
  -- `PartialEq` of the keys.
  abbrev pub key_beq : PeerKey F → PeerKey F → Bool
  key_beq a b = F.pubkey a.identity == F.pubkey b.identity

  same_identity : (a b : PeerKey F) → a.identity ≡ b.identity → a ≡ b
  same_identity a b h =
      let pair : (a.identity, a.is_even) ≡ (b.identity, b.is_even) =
        Σ_prop_path (is_even-IsProp F) h in
      ap (λ p. record { identity = p.0; is_even = p.1 }) pair

  pub key_beq_iff : (a b : PeerKey F) → (key_beq a b ≡ true) ↔ (a ≡ b)
  key_beq_iff a b = (
    λ h.
        same_identity a b
          (F.identity_unique a.identity b.identity ((==_iff _ _).0 h) (a.is_even ∙ sym b.is_even)),
    λ e. (==_iff _ _).1 (ap (λ k. F.pubkey k.identity) e),
  )

  instance abbrev pub key_eq : Eq (PeerKey F)
  key_eq = record { beq = key_beq; beq_iff = key_beq_iff }

module _ (F : Fips) where
  pubkey-normalized :
      (peer : F.Identity) (c : (F.is_odd peer ≡ true) ⊎ (F.is_odd peer ≡ false))
      → F.pubkey (normalized F peer c).identity ≡ F.pubkey peer
  unfolding normalized
  pubkey-normalized peer (inl odd) = F.pubkey-negated peer
  pubkey-normalized peer (inr even) = refl

  pubkey-from : (peer : F.Identity) → F.pubkey (from F peer).identity ≡ F.pubkey peer
  unfolding from
  pubkey-from peer = pubkey-normalized peer (Bool-cases (F.is_odd peer))

  -- Two identities have one key exactly when they have one public key, whatever the parities.
  pub from_iff : (i j : F.Identity) → (from F i ≡ from F j) ↔ (F.pubkey i ≡ F.pubkey j)
  from_iff i j = (
    λ e. sym (pubkey-from i) ∙ ap (λ k. F.pubkey k.identity) e ∙ pubkey-from j,
    λ h.
        (key_beq_iff (from F i) (from F j)).0
          ((==_iff _ _).1 (pubkey-from i ∙ h ∙ sym (pubkey-from j))),
  )
