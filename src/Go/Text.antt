-- ===== src/Go/Text.antt =====
-- Go's strings, as lists of bytes, and the decimal numbers that `fmt` prints by %d.
pub mod Decimal
pub mod Atoi
use covenant_signer.Prelude.{
  ℕ, zero, suc, ◌+◌, ◌/◌, ◌%◌, ◌≡◌, refl, String, List, [], ◌∷◌, if◌then◌else◌, ltb,
}
use covenant_signer.Prelude.Int.{ℤ, pos, negsuc}
use Prim.Native.Char.{code}

abbrev pub GoString : Type 0
GoString = List ℕ

abbrev pub Bytes : Type 0
Bytes = List ℕ

-- A text of the source, all of which are ASCII. It stays shut: a proof reads no literal.
unfoldable pub str : String → GoString
str String.[] = []
str (String.◌∷◌ c s) = code c ∷ str s

-- The digits of `n` in front of `rest`, with fuel above `n`.
unfoldable pub decimal_from : ℕ → ℕ → GoString → GoString
decimal_from zero n rest = rest
decimal_from (suc fuel) n rest =
    let digit = b'0' + n % 10 in
    let more = decimal_from fuel (n / 10) (digit ∷ rest) in if ltb n 10 then digit ∷ rest else more

unfoldable pub decimal : ℕ → GoString
unfolding decimal_from
decimal n = decimal_from (suc n) n []

unfoldable pub decimal_ℤ : ℤ → GoString
unfolding decimal
decimal_ℤ (pos n) = decimal n
decimal_ℤ (negsuc n) = b'-' ∷ decimal (suc n)

decimal_tests : decimal_ℤ (negsuc 4294967294) ≡ str "-4294967295"
unfolding decimal_ℤ str
decimal_tests = refl
