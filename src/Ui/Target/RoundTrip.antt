-- ===== src/Ui/Target/RoundTrip.antt =====
-- `percent_decode` reads what percent-encoding writes.
use magazine_core.Base.{
  ℕ, ◌+◌, ◌*◌, ◌-◌, ◌/◌, ◌%◌, ◌<◌, ◌≡◌, ◌≢◌, refl, ap, ◌∙◌, List, [], ◌∷◌, ◌++◌, some, Bool, true,
  false, All, All-append, arith, ltb, if◌then◌else◌, inl, inr, Bool-cases,
}
use magazine_core.Text.{Text}
use magazine_core.Text.Utf8.{as_bytes, encode_char, is_scalar}
use magazine_core.Text.Utf8.RoundTrip.{from_utf8-as_bytes}
use magazine_core.Ui.Target.{hex, decode_bytes, percent_decode}

-- A hexadecimal digit, in capitals or not.
abbrev pub hex_digit : Bool → ℕ → ℕ
hex_digit capital n =
    if ltb n 10 then n + b'0' else if capital then n - 10 + b'A' else n - 10 + b'a'

-- A byte as it is, or escaped.
abbrev pub encode_byte : (ℕ → Bool) → Bool → ℕ → List ℕ
encode_byte plain capital b =
    if plain b then b ∷ [] else b'%' ∷ hex_digit capital (b / 16) ∷ hex_digit capital (b % 16) ∷ []

-- Percent-encoding of a text: the bytes that are `plain` stand as they are, all others are escaped.
unfoldable pub percent_encode : (ℕ → Bool) → Bool → List ℕ → List ℕ
percent_encode plain capital [] = []
percent_encode plain capital (b ∷ bytes) =
    encode_byte plain capital b ++ percent_encode plain capital bytes

-- Only ASCII may stand as it is, and neither the percent sign nor the plus sign.
pub record IsPlain (plain : ℕ → Bool) : Type 0 where
  pub ascii : (b : ℕ) → plain b ≡ true → b < 0x80
  pub percent : plain b'%' ≡ false
  pub plus : plain b'+' ≡ false

hex-hex_digit : (capital : Bool) (n : ℕ) → n < 16 → hex (hex_digit capital n) ≡ some n
unfolding hex
hex-hex_digit capital n h = ground arith

decode_plain :
    (a : ℕ) (s bytes : List ℕ)
    → a ≢ b'%'
    → a ≢ b'+'
    → decode_bytes s ≡ some bytes
    → decode_bytes (a ∷ s) ≡ some (a ∷ bytes)
unfolding decode_bytes
decode_plain a [] bytes p q e = ground arith
decode_plain a (b ∷ []) bytes p q e = ground arith
decode_plain a (b ∷ c ∷ s) bytes p q e = ground arith

decode_escape :
    (b c high low : ℕ) (s bytes : List ℕ)
    → hex b ≡ some high
    → hex c ≡ some low
    → decode_bytes s ≡ some bytes
    → decode_bytes (b'%' ∷ b ∷ c ∷ s) ≡ some ((high * 16 + low) ∷ bytes)
unfolding decode_bytes
decode_escape b c high low s bytes p q e = ground arith

hex_digit-lt : (capital : Bool) (n : ℕ) → n < 16 → hex_digit capital n < 0x80
hex_digit-lt capital n h = ground arith

as_bytes_ascii : (bytes : List ℕ) → All (λ b. b < 0x80) bytes → as_bytes bytes ≡ bytes
unfolding as_bytes encode_char
as_bytes_ascii [] small = refl
as_bytes_ascii (b ∷ bytes) small = ground (arith, as_bytes_ascii bytes small.1)

encode_char-All : (c : ℕ) → is_scalar c ≡ true → All (λ b. b < 256) (encode_char c)
unfolding encode_char
encode_char-All c scalar = ground arith

as_bytes-All : (s : Text) → All (λ c. is_scalar c ≡ true) s → All (λ b. b < 256) (as_bytes s)
unfolding as_bytes
as_bytes-All [] scalars = tt
as_bytes-All (c ∷ s) scalars =
    All-append (λ b. b < 256) (encode_char c) (as_bytes s) (encode_char-All c scalars.0)
      (as_bytes-All s scalars.1)

module _ (plain : ℕ → Bool) (capital : Bool) (h : IsPlain plain) where
  decode-percent_encode :
      (bytes : List ℕ)
      → All (λ b. b < 256) bytes
      → decode_bytes (percent_encode plain capital bytes) ≡ some bytes
  unfolding percent_encode
  decode-percent_encode [] small = unfold decode_bytes in refl
  decode-percent_encode (b ∷ bytes) small = elim (Bool-cases (plain b)) [
    | inl yes_plain ↦ rw yes_plain (
        decode_plain b (percent_encode plain capital bytes) bytes (λ e. cc) (λ e. cc)
          (decode-percent_encode bytes small.1))
    | inr no_plain ↦ rw no_plain (
        decode_escape _ _ (b / 16) (b % 16) (percent_encode plain capital bytes) bytes
          (hex-hex_digit capital (b / 16) (omega arith))
          (hex-hex_digit capital (b % 16) (omega arith)) (decode-percent_encode bytes small.1)
        ∙ ap (λ (x : ℕ). some (x ∷ bytes)) (omega arith))
  ]

  encode-All-ascii :
      (bytes : List ℕ)
      → All (λ b. b < 256) bytes
      → All (λ b. b < 0x80) (percent_encode plain capital bytes)
  unfolding percent_encode
  encode-All-ascii [] small = tt
  encode-All-ascii (b ∷ bytes) small = elim (Bool-cases (plain b)) [
    | inl yes_plain ↦ rw yes_plain (h.ascii b yes_plain, encode-All-ascii bytes small.1)
    | inr no_plain ↦ rw no_plain (
      omega arith,
      (
        hex_digit-lt capital (b / 16) (omega arith),
        (hex_digit-lt capital (b % 16) (omega arith), encode-All-ascii bytes small.1),
      ),
    )
  ]

  -- A text of which any bytes but the plain ones are escaped, the digits in capitals or not, is
  -- decoded to itself.
  pub percent_decode-percent_encode :
      (s : Text)
      → All (λ c. is_scalar c ≡ true) s
      → percent_decode (percent_encode plain capital (as_bytes s)) ≡ some s
  unfolding percent_decode
  percent_decode-percent_encode s scalars =
      let small : All (λ b. b < 256) (as_bytes s) = as_bytes-All s scalars in
      let same : as_bytes (percent_encode plain capital (as_bytes s))
          ≡ percent_encode plain capital (as_bytes s) =
        as_bytes_ascii _ (encode-All-ascii (as_bytes s) small) in
      ground (arith, same, decode-percent_encode (as_bytes s) small, from_utf8-as_bytes s scalars)
