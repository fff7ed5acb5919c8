-- ===== src/Common/Results.antt =====
-- Rust's `Result<A, E>` with the `?` operator as bind.
use mathlib.Core.Path.{◌≡◌, refl, subst}
use mathlib.Core.Logic.{◌⊎◌, inl, inr}
use mathlib.Core.Bool.{Bool, true, false}

pub data Result {ℓ κ} (E : Type κ) (A : Type ℓ) : Type (ℓ ⊔ κ) where
  ok : A → Result E A
  err : E → Result E A

infixl 5 ◌>>=◌ ◌>>◌
abbrev pub ◌>>=◌ {ℓ ℓ' κ} :
    {E : Type κ} {A : Type ℓ} {B : Type ℓ'} → Result E A → (A → Result E B) → Result E B
ok a >>= f = f a
err e >>= f = err e

abbrev pub ◌>>◌ {ℓ κ} : {E : Type κ} {B : Type ℓ} → Result E (Unit {0}) → Result E B → Result E B
m >> k = m >>= λ _. k

-- `if bad { return Err(e) }`
abbrev pub refuse_if {κ} : {E : Type κ} → Bool → E → Result E (Unit {0})
refuse_if true e = err e
refuse_if false e = ok tt

-- A property of the value, where there is one.
abbrev pub Yields {ℓ ℓ' κ} : {E : Type κ} {A : Type ℓ} → (A → Type ℓ') → Result E A → Type ℓ'
Yields P (ok a) = P a
Yields P (err e) = Unit

pub Yields-bind {ℓ ℓ' κ ι ι'} :
    {E : Type κ} {A : Type ℓ} {B : Type ℓ'} (P : A → Type ι) (Q : B → Type ι') (m : Result E A)
    (f : A → Result E B)
    → Yields P m
    → ((a : A) → P a → Yields Q (f a))
    → Yields Q (m >>= f)
Yields-bind P Q (ok a) f h k = k a h
Yields-bind P Q (err e) f h k = tt

-- Behind a guard the test has failed.
pub Yields-guard {ℓ κ ι} :
    {E : Type κ} {B : Type ℓ} (Q : B → Type ι) (b : Bool) (e : E) (m : Result E B)
    → (b ≡ false → Yields Q m)
    → Yields Q (refuse_if b e >> m)
Yields-guard Q true e m k = tt
Yields-guard Q false e m k = k refl

pub Yields-eq_ok {ℓ ℓ' κ} :
    {E : Type κ} {A : Type ℓ} (P : A → Type ℓ') (m : Result E A) {a : A}
    → Yields P m
    → m ≡ ok a
    → P a
Yields-eq_ok P m h e = subst (Yields P) e h

pub Result-cases {ℓ κ} :
    {E : Type κ} {A : Type ℓ} (m : Result E A) → ((a : A) × (m ≡ ok a)) ⊎ ((e : E) × (m ≡ err e))
Result-cases (ok a) = inl (a, refl)
Result-cases (err e) = inr (e, refl)
