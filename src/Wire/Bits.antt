-- ===== src/Wire/Bits.antt =====
-- The bit operations of wire.rs at the widths that it uses them, checked value by value.
use fips_tcp.Common.{
  ==_iff, Bool, arith, bit_and, bit_or, false, if◌then◌else◌, ltb, not, refl, suc, true, zero, ℕ,
  ◌%◌, ◌*◌, ◌+◌, ◌/◌, ◌<◌, ◌==◌, ◌||◌, ◌≡◌, ◌≤◌,
}
use native.Mathlib.Decide.{dec_le}

-- A test holds at a number and at every number before it, tried downwards.
passes : (test : ℕ → Bool) → ℕ → Bool
passes test zero = test 0
passes test (suc start) = if test (suc start) then passes test start else false

at_table : (test : ℕ → Bool) (start n : ℕ) → n ≤ start → passes test start ≡ true → test n ≡ true
unfolding passes
at_table test zero n le all = let top : n ≡ 0 = omega arith in rw top all
at_table test (suc start) n le all = elim (dec_le n start) [
  | yes below ↦ ground (arith, at_table test start n below)
  | no above ↦ let top : n ≡ suc start = omega arith in rw top (ground arith)
]

or_table : passes (λ n. bit_or (n / 256 * 4096) (n % 256) == n / 256 * 4096 + n % 256) 4095 ≡ true
unfolding passes
or_table = refl

and_table : passes (λ w. bit_and w 0x1ff == w % 512) 65535 ≡ true
unfolding passes
and_table = refl

supported_table : passes (λ f. not (bit_and f 0xff20 == 0) || ltb f 256) 511 ≡ true
unfolding passes
supported_table = refl

-- `(x << 12) | flags` for the four bits of the header length and eight flag bits.
pub bit_or-offset : (x f : ℕ) → x < 16 → f < 256 → bit_or (x * 4096) f ≡ x * 4096 + f
bit_or-offset x f h k =
    let e : (x * 256 + f) / 256 ≡ x = omega arith in
    let e' : (x * 256 + f) % 256 ≡ f = omega arith in
    rw (e, e') at ((==_iff _ _).0 (at_table _ 4095 (x * 256 + f) (omega arith) or_table))

-- `word & 0x1ff`
pub bit_and-low9 : (w : ℕ) → w < 65536 → bit_and w 0x1ff ≡ w % 512
bit_and-low9 w h = (==_iff _ _).0 (at_table _ 65535 w (omega arith) and_table)

-- Nine flag bits without an unsupported one are eight.
pub supported-lt : (f : ℕ) → f < 512 → bit_and f 0xff20 ≡ 0 → f < 256
supported-lt f h e = ground (arith, at_table _ 511 f (omega arith) supported_table)
