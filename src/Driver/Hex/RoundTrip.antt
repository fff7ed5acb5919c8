-- ===== src/Driver/Hex/RoundTrip.antt =====
-- rust/interop-driver/src/main.rs: bytes as hexadecimal text and back.
use fips_tcp.Common.{
  All, Bool-cases, IsByte, List, Option-cases, Result, [], arith, err, inl, inr, length, ok, refl,
  some, suc, true, ℕ, ◌%◌, ◌*◌, ◌/◌, ◌<◌, ◌==◌, ◌>>=◌, ◌∷◌, ◌≡◌,
}
use fips_tcp.Driver.{Fault, error, panics}
use fips_tcp.Driver.Hex.{
  encode_hex, decode_hex, decode_pairs, from_str_radix, hex_digit, starts_char, to_digit,
}

to_digit-hex_digit : (n : ℕ) → n < 16 → to_digit (hex_digit n) ≡ some n
unfolding to_digit
to_digit-hex_digit n h = ground arith

from_str_radix-hex_digit :
    (b : ℕ) → IsByte b → from_str_radix (hex_digit (b / 16)) (hex_digit (b % 16)) ≡ some b
unfolding from_str_radix
from_str_radix-hex_digit b h =
    ground
      (arith, to_digit-hex_digit (b / 16) (omega arith), to_digit-hex_digit (b % 16) (omega arith))

starts_char-encode_hex : (bytes : List ℕ) → All IsByte bytes → starts_char (encode_hex bytes) ≡ true
unfolding encode_hex
starts_char-encode_hex [] h = refl
starts_char-encode_hex (b ∷ bytes) h = ground arith

length-encode_hex : (bytes : List ℕ) → length (encode_hex bytes) ≡ 2 * length bytes
unfolding encode_hex
length-encode_hex [] = refl
length-encode_hex (b ∷ bytes) = omega (arith, length-encode_hex bytes)

decode_pairs-encode_hex :
    (bytes : List ℕ) → All IsByte bytes → decode_pairs (encode_hex bytes) ≡ ok bytes
unfolding decode_pairs encode_hex
decode_pairs-encode_hex [] h = refl
decode_pairs-encode_hex (b ∷ bytes) h =
    rw
      (
        starts_char-encode_hex bytes h.1,
        from_str_radix-hex_digit b h.0,
        decode_pairs-encode_hex bytes h.1,
      )
      refl

-- `decode_hex` of the text that `encode_hex` makes of bytes gives these bytes.
pub decode_hex-encode_hex :
    (bytes : List ℕ) → All IsByte bytes → decode_hex (encode_hex bytes) ≡ ok bytes
unfolding decode_hex
decode_hex-encode_hex bytes h =
    let e : length (encode_hex bytes) % 2 ≡ 0 = omega (arith, length-encode_hex bytes) in
    rw e (decode_pairs-encode_hex bytes h)

to_digit-Less : (c n : ℕ) → to_digit c ≡ some n → n < 16
unfolding to_digit
to_digit-Less c n h = ground (arith, h)

from_str_radix-IsByte : (a b n : ℕ) → from_str_radix a b ≡ some n → IsByte n
unfolding from_str_radix
from_str_radix-IsByte a b n h = elim (Bool-cases (a == b'+')) [
  | inl plus ↦ ground (arith, h, plus, to_digit-Less b n)
  | inr other ↦ elim (Option-cases (to_digit a)) [
    | inl x ↦ ground (arith, h, other, x)
    | inr (p, x) ↦ elim (Option-cases (to_digit b)) [
      | inl y ↦ ground (arith, h, other, x, y)
      | inr (q, y) ↦ ground (arith, h, other, x, y, to_digit-Less a p x, to_digit-Less b q y)
    ]
  ]
]

abbrev pub IsAscii : List ℕ → Type 0
IsAscii = All (λ c. c < 128)

-- A result that is printed: no panic.
abbrev pub IsPrinted : {A : Type 0} → Result Fault A → Type 0
IsPrinted (ok a) = Unit
IsPrinted (err (error e)) = Unit
IsPrinted (err panics) = ⊥

-- What the decoding of a text of a given length may be: bytes, half as many, or an error.
abbrev pub Decoded : ℕ → Result Fault (List ℕ) → Type 0
Decoded n (ok bytes) = All IsByte bytes × (n ≡ 2 * length bytes)
Decoded n (err (error e)) = Unit
Decoded n (err panics) = ⊥

starts_char-ascii : (value : List ℕ) → IsAscii value → starts_char value ≡ true
starts_char-ascii [] h = refl
starts_char-ascii (c ∷ cs) h = ground (arith, h.0)

Decoded-cons :
    (b : ℕ) (n : ℕ) (m : Result Fault (List ℕ))
    → IsByte b
    → Decoded n m
    → Decoded (suc (suc n)) (m >>= λ bytes. ok (b ∷ bytes))
Decoded-cons b n (ok bytes) h v = ((h, v.0), omega (arith, v.1))
Decoded-cons b n (err (error e)) h v = tt
Decoded-cons b n (err panics) h v = absurd v

decode_pairs-Decoded :
    (value : List ℕ)
    → IsAscii value
    → length value % 2 ≡ 0
    → Decoded (length value) (decode_pairs value)
unfolding decode_pairs
decode_pairs-Decoded [] h k = (tt, refl)
decode_pairs-Decoded (a ∷ []) h k = absurd (omega (arith, k))
decode_pairs-Decoded (a ∷ b ∷ rest) h k =
    let ih = decode_pairs-Decoded rest h.1.1 (omega (arith, k)) in
    elim (Option-cases (from_str_radix a b)) [
      | inl e ↦ rw (starts_char-ascii rest h.1.1, e) tt
      | inr (n, e) ↦
          rw (starts_char-ascii rest h.1.1, e)
            (Decoded-cons n (length rest) (decode_pairs rest) (from_str_radix-IsByte a b n e) ih)
    ]

-- On an ASCII text `decode_hex` does not panic: it fails with an error or gives bytes, half as
-- many as the text has characters.
pub decode_hex-Decoded :
    (value : List ℕ) → IsAscii value → Decoded (length value) (decode_hex value)
unfolding decode_hex
decode_hex-Decoded value h = elim (Bool-cases (length value % 2 == 0)) [
  | inl e ↦ rw e (decode_pairs-Decoded value h (ground (arith, e)))
  | inr e ↦ rw e tt
]
