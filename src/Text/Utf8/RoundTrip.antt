-- ===== src/Text/Utf8/RoundTrip.antt =====
-- Decoding UTF-8 inverts encoding it.
use magazine_core.Base.{
  ℕ, zero, suc, ◌+◌, ◌≤◌, ◌<◌, ◌≡◌, refl, true, List, [], ◌∷◌, ◌++◌, some, arith, length,
  length-append, All,
}
use magazine_core.Text.Utf8.{is_scalar, encode_char, as_bytes, decode_char, decode_from, from_utf8}

pub decode_char-encode_char :
    (c : ℕ) (rest : List ℕ)
    → is_scalar c ≡ true
    → decode_char (encode_char c ++ rest) ≡ some (c, rest)
unfolding decode_char encode_char
decode_char-encode_char c rest h = ground arith

length-encode_char : (c : ℕ) → 1 ≤ length (encode_char c)
unfolding encode_char
length-encode_char c = ground arith

decode_from_cons :
    (fuel : ℕ) (bytes : List ℕ) (c : ℕ) (rest s : List ℕ)
    → 0 < length bytes
    → decode_char bytes ≡ some (c, rest)
    → decode_from fuel rest ≡ some s
    → decode_from (suc fuel) bytes ≡ some (c ∷ s)
unfolding decode_from
decode_from_cons fuel [] c rest s q e ih = absurd (omega arith)
decode_from_cons fuel (a ∷ bytes) c rest s q e ih = ground arith

length-encode_char_append :
    (c : ℕ) (rest : List ℕ) → 1 + length rest ≤ length (encode_char c ++ rest)
length-encode_char_append c rest =
    omega (arith, length-append (encode_char c) rest, length-encode_char c)

-- One character of `decode_from`.
decode_from_step :
    (fuel c : ℕ) (rest s : List ℕ)
    → is_scalar c ≡ true
    → length (encode_char c ++ rest) ≤ fuel
    → ((n : ℕ) → length rest ≤ n → decode_from n rest ≡ some s)
    → decode_from fuel (encode_char c ++ rest) ≡ some (c ∷ s)
decode_from_step zero c rest s h k next = absurd (omega (arith, length-encode_char_append c rest))
decode_from_step (suc fuel) c rest s h k next =
    decode_from_cons fuel (encode_char c ++ rest) c rest s
      (omega (arith, length-encode_char_append c rest)) (decode_char-encode_char c rest h)
      (next fuel (omega (arith, length-encode_char_append c rest)))

-- With a round for each byte at least, decoding gives the text back.
decode_from-as_bytes :
    (fuel : ℕ) (s : List ℕ)
    → All (λ c. is_scalar c ≡ true) s
    → length (as_bytes s) ≤ fuel
    → decode_from fuel (as_bytes s) ≡ some s
unfolding as_bytes
decode_from-as_bytes fuel [] h k = unfold decode_from in refl
decode_from-as_bytes fuel (c ∷ s) (hc, hs) k =
    decode_from_step fuel c (as_bytes s) s hc k (λ n hn. decode_from-as_bytes n s hs hn)

-- `String::from_utf8` inverts `str::as_bytes`.
pub from_utf8-as_bytes :
    (s : List ℕ) → All (λ c. is_scalar c ≡ true) s → from_utf8 (as_bytes s) ≡ some s
unfolding from_utf8
from_utf8-as_bytes s h = decode_from-as_bytes (length (as_bytes s)) s h (omega arith)
