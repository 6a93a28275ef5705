-- ===== src/Go/Text/Decimal.antt =====
-- Decimal numbers: a reader, and that it reads what `fmt` prints.
use covenant_signer.Prelude.{
  ℕ, zero, suc, ◌+◌, ◌-◌, ◌*◌, ◌/◌, ◌%◌, ◌<◌, ◌≡◌, refl, ap, ◌∙◌, inl, inr, arith, Bool, true,
  false, ◌&&◌, Option, none, some, [], ◌∷◌, leb, ltb, ◌==◌, if◌then◌else◌, Bool-cases,
}
use covenant_signer.Prelude.Int.{ℤ, pos, negsuc}
use covenant_signer.Go.Text.{GoString, decimal_from, decimal, decimal_ℤ}

-- The digits of a text behind the number `n`
unfoldable pub read_digits : ℕ → GoString → Option ℕ
read_digits n [] = some n
read_digits n (c ∷ s) =
    let rest = read_digits (n * 10 + (c - b'0')) s in
    if leb b'0' c && leb c b'9' then rest else none

-- A text of at least one digit
unfoldable pub read_decimal : GoString → Option ℕ
unfolding read_digits
read_decimal [] = none
read_decimal (c ∷ s) = read_digits 0 (c ∷ s)

abbrev pub negated : Option ℕ → Option ℤ
negated (some (suc n)) = some (negsuc n)
negated (some zero) = some (pos 0)
negated none = none

abbrev pub positive : Option ℕ → Option ℤ
positive (some n) = some (pos n)
positive none = none

unfoldable pub read_ℤ : GoString → Option ℤ
unfolding read_decimal
read_ℤ [] = none
read_ℤ (c ∷ s) = if c == b'-' then negated (read_decimal s) else positive (read_decimal (c ∷ s))

-- A text of at least one digit, and only digits
abbrev pub digits : GoString → Bool
digits [] = true
digits (c ∷ s) = (leb b'0' c && leb c b'9') && digits s

decimal_from-digits :
    (fuel n : ℕ) (rest : GoString) → digits rest ≡ true → digits (decimal_from fuel n rest) ≡ true
unfolding decimal_from
decimal_from-digits zero n rest h = h
decimal_from-digits (suc fuel) n rest h =
    let digit : leb b'0' (b'0' + n % 10) && leb (b'0' + n % 10) b'9' ≡ true = ground arith in
    elim (Bool-cases (ltb n 10)) [
      | inl last ↦ rw (last, digit) h
      | inr more ↦ rw more (decimal_from-digits fuel (n / 10) ((b'0' + n % 10) ∷ rest) (rw digit h))
    ]

-- The text starts with a digit.
abbrev pub Starts : GoString → Type 0
Starts s = (c : ℕ) × (t : GoString) × (s ≡ c ∷ t) × (leb b'0' c ≡ true)

decimal_from-Starts :
    (fuel n : ℕ) (rest : GoString) → Starts rest → Starts (decimal_from fuel n rest)
unfolding decimal_from
decimal_from-Starts zero n rest h = h
decimal_from-Starts (suc fuel) n rest h =
    let here : Starts ((b'0' + n % 10) ∷ rest) = (b'0' + n % 10, rest, refl, ground arith) in
    elim (Bool-cases (ltb n 10)) [
      | inl last ↦ rw last here
      | inr more ↦ rw more (decimal_from-Starts fuel (n / 10) ((b'0' + n % 10) ∷ rest) here)
    ]

pub decimal-Starts : (n : ℕ) → Starts (decimal n)
unfolding decimal decimal_from
decimal-Starts n =
    let here : Starts ((b'0' + n % 10) ∷ []) = (b'0' + n % 10, [], refl, ground arith) in
    elim (Bool-cases (ltb n 10)) [
      | inl last ↦ rw last here
      | inr more ↦ rw more (decimal_from-Starts n (n / 10) ((b'0' + n % 10) ∷ []) here)
    ]

read_digit :
    (m d : ℕ) (rest : GoString)
    → d < 10
    → read_digits m ((b'0' + d) ∷ rest) ≡ read_digits (m * 10 + d) rest
unfolding read_digits
read_digit m d rest h =
    let is_digit : leb b'0' (b'0' + d) && leb (b'0' + d) b'9' ≡ true = ground arith in
    let value : b'0' + d - b'0' ≡ d = omega arith in rw (is_digit, value)

read_digits-decimal_from :
    (fuel n : ℕ) (rest : GoString)
    → n < fuel
    → read_digits 0 (decimal_from fuel n rest) ≡ read_digits n rest
unfolding decimal_from
read_digits-decimal_from zero n rest h = absurd (omega arith)
read_digits-decimal_from (suc fuel) n rest h = elim (Bool-cases (ltb n 10)) [
  | inl last ↦
      let whole : 0 * 10 + n % 10 ≡ n = ground arith in
      rw last (read_digit 0 (n % 10) rest (omega arith) ∙ ap (λ k. read_digits k rest) whole)
  | inr more ↦
      let whole : n / 10 * 10 + n % 10 ≡ n = omega arith in
      rw more (
        read_digits-decimal_from fuel (n / 10) ((b'0' + n % 10) ∷ rest) (ground arith)
        ∙ read_digit (n / 10) (n % 10) rest (omega arith)
        ∙ ap (λ k. read_digits k rest) whole)
]

read_decimal-Starts : (s : GoString) → Starts s → read_decimal s ≡ read_digits 0 s
unfolding read_decimal
read_decimal-Starts s (c, t, starts, digit) = rw starts

read_ℤ-Starts : (s : GoString) → Starts s → read_ℤ s ≡ positive (read_decimal s)
unfolding read_ℤ
read_ℤ-Starts s (c, t, starts, digit) =
    let not_minus : c == b'-' ≡ false = ground arith in rw (starts, not_minus)

-- A number printed in decimal is read back: the fuel of `decimal` is enough.
pub read_decimal-decimal : (n : ℕ) → read_decimal (decimal n) ≡ some n
unfolding decimal read_digits
read_decimal-decimal n =
    read_decimal-Starts (decimal n) (decimal-Starts n)
    ∙ read_digits-decimal_from (suc n) n [] (omega arith)

pub read_ℤ-decimal_ℤ : (z : ℤ) → read_ℤ (decimal_ℤ z) ≡ some z
unfolding read_ℤ decimal_ℤ
read_ℤ-decimal_ℤ (pos n) =
    read_ℤ-Starts (decimal n) (decimal-Starts n) ∙ ap positive (read_decimal-decimal n)
read_ℤ-decimal_ℤ (negsuc n) = ap negated (read_decimal-decimal (suc n))

pub decimal-digits : (n : ℕ) → digits (decimal n) ≡ true
unfolding decimal
decimal-digits n = decimal_from-digits (suc n) n [] refl
