-- ===== src/Stack/Table.antt =====
-- The hash maps of the stack: association lists with the operations of `HashMap` that it uses.
use fips_tcp.Common.{
  ==_iff, Bool-cases, Eq, List, Option, [], arith, false, if◌then◌else◌, inl, inr, none, refl, some,
  ℕ, ◌==◌, ◌∙◌, ◌∷◌, ◌≡◌,
}

instance abbrev pub nat_eq : Eq ℕ
nat_eq = record { beq = ◌==◌; beq_iff = ==_iff }

module _ {ℓ κ} {K : Type ℓ} {V : Type κ} ⦃e : Eq K⦄ where
  unfoldable pub get : K → List (K × V) → Option V
  get k [] = none
  get k ((j, v) ∷ m) = if e.beq j k then some v else get k m

  -- A key that is there keeps its place.
  unfoldable pub insert : K → V → List (K × V) → List (K × V)
  insert k v [] = (k, v) ∷ []
  insert k v ((j, w) ∷ m) = if e.beq j k then (j, v) ∷ m else (j, w) ∷ insert k v m

  unfoldable pub remove : K → List (K × V) → List (K × V)
  remove k [] = []
  remove k ((j, w) ∷ m) = if e.beq j k then remove k m else (j, w) ∷ remove k m

  pub get-insert :
      (k j : K) (v : V) (m : List (K × V))
      → get j (insert k v m) ≡ (if e.beq k j then some v else get j m)
  unfolding get insert
  get-insert k j v [] = refl
  get-insert k j v ((i, w) ∷ m) =
      ground (arith, e.beq_iff k j, e.beq_iff i k, e.beq_iff i j, get-insert k j v m)

  pub get-remove :
      (k j : K) (m : List (K × V)) → get j (remove k m) ≡ (if e.beq k j then none else get j m)
  unfolding get remove
  get-remove k j [] = ground arith
  get-remove k j ((i, w) ∷ m) =
      ground (arith, e.beq_iff k j, e.beq_iff i k, e.beq_iff i j, get-remove k j m)

  pub get-insert_same : (k : K) (v : V) (m : List (K × V)) → get k (insert k v m) ≡ some v
  get-insert_same k v m = ground (arith, get-insert k k v m, e.beq_iff k k)

  pub get-insert_other :
      (k j : K) (v : V) (m : List (K × V)) → e.beq k j ≡ false → get j (insert k v m) ≡ get j m
  get-insert_other k j v m h = ground (arith, get-insert k j v m, h)

  pub get-remove_other :
      (k j : K) (m : List (K × V)) → e.beq k j ≡ false → get j (remove k m) ≡ get j m
  get-remove_other k j m h = ground (arith, get-remove k j m, h)

  -- A key that was not there is gone again.
  pub get-removed :
      (k j : K) (m m' : List (K × V))
      → get k m ≡ none
      → (e.beq k j ≡ false → get j m' ≡ get j m)
      → get j (remove k m') ≡ get j m
  get-removed k j m m' n h = elim (Bool-cases (e.beq k j)) [
    | inl same ↦ ground (arith, get-remove k j m', same, (e.beq_iff k j).0 same, n)
    | inr other ↦ get-remove_other k j m' other ∙ h other
  ]
