-- ===== src/Go/Hex/Laws.antt =====
-- Hexadecimal round trip, and what a successful decoding says of its input.
use covenant_signer.Prelude.{
  ℕ, ◌+◌, ◌*◌, ◌/◌, ◌%◌, ◌<◌, ◌≡◌, refl, [], ◌∷◌, arith, All, length, some, inl, inr, Option-cases,
}
use covenant_signer.Go.Text.{Bytes, GoString}
use covenant_signer.Go.Outcome.{ok, bind-eq-ok, ok-injective}
use covenant_signer.Go.Hex.{digit, encode_to_string, from_digit, digit_value, decode_string}

abbrev pub IsByte : ℕ → Type 0
IsByte b = b < 256

from_digit-digit : (n : ℕ) → n < 16 → from_digit (digit n) ≡ some n
unfolding from_digit digit
from_digit-digit n h = ground arith

digit_value-digit : (n : ℕ) → n < 16 → digit_value (digit n) ≡ ok n
unfolding digit_value
digit_value-digit n h = rw (from_digit-digit n h, digit_value)

-- What is encoded decodes to the same bytes.
pub decode_string-encode_to_string :
    (bytes : Bytes) → All IsByte bytes → decode_string (encode_to_string bytes) ≡ ok bytes
unfolding decode_string encode_to_string
decode_string-encode_to_string [] h = refl
decode_string-encode_to_string (b ∷ bs) (h, hs) =
    let whole : b / 16 * 16 + b % 16 ≡ b = omega arith in
    rw (
      digit_value-digit (b / 16) (omega arith),
      digit_value-digit (b % 16) (omega arith),
      decode_string-encode_to_string bs hs,
      whole,
    )

from_digit-lt : (c v : ℕ) → from_digit c ≡ some v → v < 16
unfolding from_digit
from_digit-lt c v h = ground arith

digit_value-lt : (c : ℕ) {v : ℕ} → digit_value c ≡ ok v → v < 16
unfolding digit_value
digit_value-lt c {v} h = elim (Option-cases (from_digit c)) [
  | inl none_found ↦ let wrong = rw (none_found, digit_value) at h in cc
  | inr (u, found) ↦
      let same = ok-injective (rw (found, digit_value) at h) in
      rw (← same) (from_digit-lt c u found)
]

-- A text that decodes has two digits for each byte, and its bytes are below 256.
pub decode_string_sound :
    (s : GoString) (bytes : Bytes)
    → decode_string s ≡ ok bytes
    → (length s ≡ length bytes + length bytes) × All IsByte bytes
unfolding decode_string
decode_string_sound [] bytes h = rw (← ok-injective h) (refl, tt)
decode_string_sound (c ∷ []) bytes h = let (v, e, wrong) = bind-eq-ok (digit_value c) _ h in cc
decode_string_sound (c ∷ d ∷ rest) bytes h =
    let (high, e₁, h₁) = bind-eq-ok (digit_value c) _ h in
    let (low, e₂, h₂) = bind-eq-ok (digit_value d) _ h₁ in
    let (more, e₃, h₃) = bind-eq-ok (decode_string rest) _ h₂ in
    let (even, small) = decode_string_sound rest more e₃ in
    rw (← ok-injective h₃)
      (omega arith, (omega (arith, digit_value-lt c e₁, digit_value-lt d e₂), small))
