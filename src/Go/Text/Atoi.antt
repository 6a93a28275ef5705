-- ===== src/Go/Text/Atoi.antt =====
-- strconv.Atoi, for an `int` of 64 bits, and strings.TrimSuffix of one byte.
use covenant_signer.Prelude.{
  ℕ, ◌≡◌, refl, ap, ◌∙◌, Bool, true, false, ◌&&◌, Option, none, some, [], ◌∷◌, ◌++◌, ltb, leb, ◌==◌,
  ◌^◌, if◌then◌else◌, arith,
}
use covenant_signer.Prelude.Int.{ℤ, pos, negsuc, pos_part, neg_part, IsInt64}
use covenant_signer.Go.Text.{GoString, str, decimal, decimal_ℤ}
use covenant_signer.Go.Text.Decimal.{
  read_ℤ, positive, read_decimal, read_ℤ-decimal_ℤ, Starts, decimal-Starts,
}
use covenant_signer.Go.Outcome.{Reply, answer, failure}

-- `strings.TrimSuffix(s, c)`
unfoldable pub trim_suffix : ℕ → GoString → GoString
trim_suffix c [] = []
trim_suffix c (d ∷ []) = if d == c then [] else d ∷ []
trim_suffix c (d ∷ e ∷ s) = d ∷ trim_suffix c (e ∷ s)

pub trim_suffix-append : (c : ℕ) (s : GoString) → trim_suffix c (s ++ c ∷ []) ≡ s
unfolding trim_suffix
trim_suffix-append c [] = ground arith
trim_suffix-append c (d ∷ []) = ground arith
trim_suffix-append c (d ∷ e ∷ s) = ap (λ t. d ∷ t) (trim_suffix-append c (e ∷ s))

abbrev is_int64 : ℤ → Bool
is_int64 z = ltb (pos_part z) (2 ^ 63) && leb (neg_part z) (2 ^ 63)

-- Decimal digits behind an optional sign
unfoldable pub read_signed : GoString → Option ℤ
unfolding read_ℤ read_decimal
read_signed [] = none
read_signed (c ∷ s) = if c == b'+' then positive (read_decimal s) else read_ℤ (c ∷ s)

-- The text of an error has the argument as it is.
abbrev in_range : GoString → Option ℤ → Reply ℤ
in_range s none = failure (str "strconv.Atoi: parsing \"" ++ (s ++ str "\": invalid syntax"))
in_range s (some z) =
    if is_int64 z
    then answer z
    else failure (str "strconv.Atoi: parsing \"" ++ (s ++ str "\": value out of range"))

unfoldable pub atoi : GoString → Reply ℤ
unfolding read_signed
atoi s = in_range s (read_signed s)

read_signed-Starts : (s : GoString) → Starts s → read_signed s ≡ read_ℤ s
unfolding read_signed
read_signed-Starts s (c, t, starts, digit) =
    let not_plus : c == b'+' ≡ false = ground arith in rw (starts, not_plus) refl

read_signed-decimal_ℤ : (z : ℤ) → read_signed (decimal_ℤ z) ≡ some z
unfolding read_signed decimal_ℤ
read_signed-decimal_ℤ (pos n) =
    read_signed-Starts (decimal n) (decimal-Starts n) ∙ read_ℤ-decimal_ℤ (pos n)
read_signed-decimal_ℤ (negsuc n) = read_ℤ-decimal_ℤ (negsuc n)

-- A number that fits an `int` is read back from its decimal text.
pub atoi-decimal_ℤ : (z : ℤ) → IsInt64 z → atoi (decimal_ℤ z) ≡ answer z
unfolding atoi
atoi-decimal_ℤ z in_range =
    let fits : is_int64 z ≡ true = ground arith in rw (read_signed-decimal_ℤ z, fits) refl
