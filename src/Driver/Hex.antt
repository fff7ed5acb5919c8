-- ===== src/Driver/Hex.antt =====
-- rust/interop-driver/src/main.rs: `encode_hex` and `decode_hex`, on the bytes of a text.
pub mod RoundTrip
use fips_tcp.Common.{
  Bool, List, Option, Result, [], err, if◌then◌else◌, leb, length, ltb, none, not, ok, refuse_if,
  some, true, ℕ, ◌%◌, ◌&&◌, ◌*◌, ◌+◌, ◌-◌, ◌/◌, ◌==◌, ◌>>=◌, ◌>>◌, ◌∷◌,
}
use fips_tcp.Driver.{DriverError, Fault, error, invalid_digit, odd_length, panics}

-- `{:x}` of a number below 16.
abbrev pub hex_digit : ℕ → ℕ
hex_digit n = if ltb n 10 then b'0' + n else b'a' + (n - 10)

unfoldable pub encode_hex : List ℕ → List ℕ
encode_hex [] = []
encode_hex (byte ∷ bytes) = hex_digit (byte / 16) ∷ hex_digit (byte % 16) ∷ encode_hex bytes

-- `char::to_digit(16)`
unfoldable pub to_digit : ℕ → Option ℕ
to_digit c =
    if leb b'0' c && leb c b'9'
    then some (c - b'0')
    else (if leb b'a' c && leb c b'f'
        then some (c - b'a' + 10)
        else (if leb b'A' c && leb c b'F' then some (c - b'A' + 10) else none))

abbrev pub join_digits : Option ℕ → Option ℕ → Option ℕ
join_digits none low = none
join_digits (some high) none = none
join_digits (some high) (some low) = some (high * 16 + low)

-- `u8::from_str_radix` of two characters: it takes a plus sign before the digits.
unfoldable pub from_str_radix : ℕ → ℕ → Option ℕ
from_str_radix a b = if a == b'+' then to_digit b else join_digits (to_digit a) (to_digit b)

-- A text may be cut before a byte that does not continue a character.
abbrev pub starts_char : List ℕ → Bool
starts_char [] = true
starts_char (c ∷ cs) = not (leb 128 c && ltb c 192)

abbrev pub byte_of : Option ℕ → Result Fault ℕ
byte_of none = err (error invalid_digit)
byte_of (some n) = ok n

-- The iterator over the pairs, up to the first that fails; a slice inside a character panics.
unfoldable pub decode_pairs : List ℕ → Result Fault (List ℕ)
decode_pairs [] = ok []
decode_pairs (a ∷ []) = err panics
decode_pairs (a ∷ b ∷ rest) = do
  refuse_if (not (starts_char rest)) panics
  n ← byte_of (from_str_radix a b)
  bytes ← decode_pairs rest
  ok (n ∷ bytes)

unfoldable pub decode_hex : List ℕ → Result Fault (List ℕ)
decode_hex value = do refuse_if (not (length value % 2 == 0)) (error odd_length); decode_pairs value
