-- ===== src/Wire/Options.antt =====
-- The TCP options of wire.rs: what `encode` writes, `decode_options` reads back.
use fips_tcp.Common.{
  All, IsByte, IsU16, List, Result, [], ap, append-nil, append_assoc, arith, err, length,
  length-append, ok, refl, replicate, suc, sum_by, take-length-append, u8_max, zero, ℕ, ◌%◌, ◌*◌,
  ◌++◌, ◌+◌, ◌-◌, ◌/◌, ◌<◌, ◌>>=◌, ◌∙◌, ◌∷◌, ◌≡◌, ◌≤◌, ◌⊎◌,
}
use fips_tcp.Wire.{
  WireError, TcpOption, end_of_list, no_operation, max_segment_size_option, fips_version_option,
  unknown_option, encoded_len, encode_option, encode_options, read_option, read_long_option,
  decode_options_after, decode_options,
}

-- The options that stand for themselves on the wire: no end marker, numbers of their width, and
-- an unknown option neither of a kind that has a constructor nor longer than its length byte.
abbrev pub IsCanonicalOption : TcpOption → Type 0
IsCanonicalOption end_of_list = ⊥
IsCanonicalOption no_operation = Unit
IsCanonicalOption (max_segment_size_option v) = IsU16 v
IsCanonicalOption (fips_version_option version reserved) = IsByte version × IsByte reserved
IsCanonicalOption (unknown_option kind body) =
    (3 ≤ kind) × (kind < 254 ⊎ kind ≡ 255) × (length body + 2 ≤ u8_max)

abbrev pub prepend :
    List TcpOption → Result WireError (List TcpOption) → Result WireError (List TcpOption)
prepend os r = r >>= λ rest. ok (os ++ rest)

decode_options_after-skip :
    (xs rest : List ℕ) → decode_options_after (length xs) (xs ++ rest) ≡ decode_options_after 0 rest
unfolding decode_options_after
decode_options_after-skip [] [] = refl
decode_options_after-skip [] (x ∷ rest) = refl
decode_options_after-skip (x ∷ xs) rest = decode_options_after-skip xs rest

read_option-unknown :
    (kind len : ℕ) (body : List ℕ)
    → 3 ≤ kind
    → (kind < 254 ⊎ kind ≡ 255)
    → read_option kind len body ≡ ok (unknown_option kind body)
unfolding read_option
read_option-unknown kind len body h k = ground arith

read_long_option-unknown :
    (kind : ℕ) (body rest : List ℕ)
    → 3 ≤ kind
    → (kind < 254 ⊎ kind ≡ 255)
    → read_long_option kind ((length body + 2) ∷ (body ++ rest))
      ≡ ok (length body + 2, unknown_option kind body)
unfolding read_long_option
read_long_option-unknown kind body rest h k =
    let e : length body + 2 - 2 ≡ length body = omega arith in
    ground (
      arith,
      e,
      length-append body rest,
      take-length-append body rest,
      read_option-unknown kind (length body + 2) body h k,
    )

read_long_option-mss :
    (a b : ℕ) (rest : List ℕ)
    → read_long_option 2 (4 ∷ a ∷ b ∷ rest) ≡ ok (4, max_segment_size_option (a * 256 + b))
unfolding read_long_option
read_long_option-mss a b rest = ground arith

read_long_option-fips_version :
    (a b : ℕ) (rest : List ℕ)
    → read_long_option 254 (4 ∷ a ∷ b ∷ rest) ≡ ok (4, fips_version_option a b)
unfolding read_long_option
read_long_option-fips_version a b rest = ground arith

-- What one option writes, and how it is read with more bytes behind it.
abbrev Reads : TcpOption → List ℕ → Type 0
Reads o bytes =
    (length bytes ≡ encoded_len o)
    × ((rest : List ℕ)
        → decode_options_after 0 (bytes ++ rest) ≡ prepend (o ∷ []) (decode_options_after 0 rest))

decode_options_after-two :
    (a b : ℕ) (rest : List ℕ) → decode_options_after 2 (a ∷ b ∷ rest) ≡ decode_options_after 0 rest
decode_options_after-two a b rest = decode_options_after-skip (a ∷ b ∷ []) rest

decode_options_after-long :
    (kind len : ℕ) (o : TcpOption) (rest : List ℕ)
    → 2 ≤ kind
    → read_long_option kind rest ≡ ok (len, o)
    → decode_options_after 0 (kind ∷ rest) ≡ prepend (o ∷ []) (decode_options_after (len - 1) rest)
unfolding decode_options_after
decode_options_after-long kind len o rest h e = ground arith

unknown-Reads :
    (kind : ℕ) (body : List ℕ)
    → 3 ≤ kind
    → (kind < 254 ⊎ kind ≡ 255)
    → Reads (unknown_option kind body) (kind ∷ (length body + 2) ∷ body)
unfolding encoded_len
unknown-Reads kind body h k = (
  omega arith,
  λ rest.
      decode_options_after-long kind _ _ _ (omega arith)
        (read_long_option-unknown kind body rest h k)
      ∙ ap (prepend (unknown_option kind body ∷ [])) (
          let e : length body + 2 - 1 ≡ suc (length body) = omega arith in
          rw e (decode_options_after-skip ((length body + 2) ∷ body) rest)),
)

encode_option-Reads :
    (o : TcpOption)
    → IsCanonicalOption o
    → (bytes : List ℕ) × (encode_option o ≡ ok bytes) × (Reads o bytes)
unfolding encode_option encoded_len
encode_option-Reads end_of_list h = absurd h
encode_option-Reads no_operation h =
    (1 ∷ [], refl, (omega arith, λ rest. unfold decode_options_after in refl))
encode_option-Reads (max_segment_size_option v) h =
    let e : v / 256 % 256 * 256 + v % 256 ≡ v = omega arith in
    (
      _,
      refl,
      (
        omega arith,
        λ rest.
            decode_options_after-long 2 4 _ _ (omega arith)
              (read_long_option-mss _ _ rest ∙ ap (λ x. ok (4, max_segment_size_option x)) e)
            ∙ ap (prepend (max_segment_size_option v ∷ []))
                (decode_options_after-skip (4 ∷ v / 256 % 256 ∷ v % 256 ∷ []) rest),
      ),
    )
encode_option-Reads (fips_version_option version reserved) h = (
  _,
  refl,
  (
    omega arith,
    λ rest.
        decode_options_after-long 254 4 _ _ (omega arith) (read_long_option-fips_version _ _ rest)
        ∙ ap (prepend (fips_version_option version reserved ∷ []))
            (decode_options_after-skip (4 ∷ version ∷ reserved ∷ []) rest),
  ),
)
encode_option-Reads (unknown_option kind body) h =
    (kind ∷ (length body + 2) ∷ body, ground arith, unknown-Reads kind body h.0 h.1)

prepend-nil : (r : Result WireError (List TcpOption)) → r ≡ prepend [] r
prepend-nil (ok os) = refl
prepend-nil (err e) = refl

prepend-prepend :
    (o : TcpOption) (os : List TcpOption) (r : Result WireError (List TcpOption))
    → prepend (o ∷ []) (prepend os r) ≡ prepend (o ∷ os) r
prepend-prepend o os (ok r) = refl
prepend-prepend o os (err e) = refl

-- Canonical options are written in as many bytes as `encoded_len` counts, and are read back with
-- whatever follows them.
pub encode_options-Reads :
    (os : List TcpOption)
    → All IsCanonicalOption os
    → (bytes : List ℕ) × (encode_options os ≡ ok bytes)
      × (length bytes ≡ sum_by encoded_len os)
      × ((rest : List ℕ)
          → decode_options_after 0 (bytes ++ rest) ≡ prepend os (decode_options_after 0 rest))
unfolding encode_options
encode_options-Reads [] h = ([], refl, refl, λ rest. prepend-nil (decode_options_after 0 rest))
encode_options-Reads (o ∷ os) h =
    let (bytes, e, (len, reads)) = encode_option-Reads o h.0 in
    let (more, e', len', reads') = encode_options-Reads os h.1 in
    (
      bytes ++ more,
      rw (e, e') refl,
      omega (arith, length-append bytes more),
      λ rest. rw (append_assoc, reads, reads') (prepend-prepend o os (decode_options_after 0 rest)),
    )

-- The padding of a header reads as no option.
pub decode_options_after-padding : (n : ℕ) → decode_options_after 0 (replicate n 0) ≡ ok []
unfolding decode_options_after
decode_options_after-padding zero = refl
decode_options_after-padding (suc n) = refl

pub decode_options-padded :
    (os : List TcpOption) (bytes : List ℕ) (n : ℕ)
    → ((rest : List ℕ)
        → decode_options_after 0 (bytes ++ rest) ≡ prepend os (decode_options_after 0 rest))
    → decode_options (bytes ++ replicate n 0) ≡ ok os
unfolding decode_options
decode_options-padded os bytes n reads =
    reads (replicate n 0) ∙ ap (prepend os) (decode_options_after-padding n) ∙ ap ok (append-nil os)
