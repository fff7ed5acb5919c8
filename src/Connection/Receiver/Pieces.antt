-- ===== src/Connection/Receiver/Pieces.antt =====
-- Pieces of a stream: their beginnings, their ends, and putting them behind one another.
use fips_tcp.Common.{
  List, [], ap, arith, drop, drop-drop, length, length-drop, length-take, refl, suc, sym, take,
  zero, ℕ, ◌++◌, ◌+◌, ◌-◌, ◌∙◌, ◌∷◌, ◌≡◌, ◌≤◌,
}

module _ {ℓ} {A : Type ℓ} where
  take-nil : (n : ℕ) → take {A = A} n [] ≡ []
  take-nil zero = refl
  take-nil (suc n) = refl

  pub take-split : (k m : ℕ) (xs : List A) → take (k + m) xs ≡ take k xs ++ take m (drop k xs)
  take-split zero m xs = let e : 0 + m ≡ m = omega arith in ap (λ j. take j xs) e
  take-split (suc k) m [] = take-nil (suc k + m) ∙ sym (take-nil m)
  take-split (suc k) m (x ∷ xs) =
      let e : suc k + m ≡ suc (k + m) = omega arith in
      ap (λ j. take j (x ∷ xs)) e ∙ ap (◌∷◌ x) (take-split k m xs)

  pub take-take : (n m : ℕ) (xs : List A) → n ≤ m → take n (take m xs) ≡ take n xs
  take-take zero m xs h = refl
  take-take (suc n) zero xs h = absurd (omega arith)
  take-take (suc n) (suc m) [] h = refl
  take-take (suc n) (suc m) (x ∷ xs) h = ap (◌∷◌ x) (take-take n m xs (omega arith))

  pub drop-take : (n m : ℕ) (xs : List A) → drop n (take m xs) ≡ take (m - n) (drop n xs)
  drop-take zero m xs = let e : m ≡ m - 0 = omega arith in ap (λ j. take j xs) e
  drop-take (suc n) zero xs =
      let e : 0 ≡ 0 - suc n = omega arith in ap (λ j. take j (drop (suc n) xs)) e
  drop-take (suc n) (suc m) [] = sym (take-nil (suc m - suc n))
  drop-take (suc n) (suc m) (x ∷ xs) = drop-take n m xs ∙ ap (λ j. take j (drop n xs)) (omega arith)

module _ (stream : List ℕ) where
  -- The first bytes of a piece.
  pub take-Piece :
      (o m : ℕ) (payload : List ℕ)
      → payload ≡ take (length payload) (drop o stream)
      → m ≤ length payload
      → take m payload ≡ take (length (take m payload)) (drop o stream)
  take-Piece o m payload e h =
      let n : length (take m payload) ≡ m = omega (arith, h, length-take m payload) in
      ap (take m) e
      ∙ take-take m (length payload) (drop o stream) h
      ∙ ap (λ j. take j (drop o stream)) (sym n)

  -- The last bytes of a piece.
  pub drop-Piece :
      (o m : ℕ) (payload : List ℕ)
      → payload ≡ take (length payload) (drop o stream)
      → drop m payload ≡ take (length (drop m payload)) (drop (o + m) stream)
  drop-Piece o m payload e =
      ap (drop m) e
      ∙ drop-take m (length payload) (drop o stream)
      ∙ ap (take (length payload - m)) (drop-drop m o (o + m) stream refl)
      ∙ ap (λ j. take j (drop (o + m) stream)) (sym (length-drop m payload))

  -- A piece with bytes ends in the stream.
  pub Piece-end :
      (o : ℕ) (payload : List ℕ)
      → payload ≡ take (length payload) (drop o stream)
      → 1 ≤ length payload
      → o + length payload ≤ length stream
  Piece-end o payload e h =
      omega
        (arith, ap length e, length-take (length payload) (drop o stream), length-drop o stream, h)
