-- ===== src/Go/Hex.antt =====
-- encoding/hex: `EncodeToString` and `DecodeString`.

pub mod Laws
use covenant_signer.Prelude.{
  ℕ, ◌+◌, ◌-◌, ◌*◌, ◌/◌, ◌%◌, Bool, ◌&&◌, ◌||◌, not, Option, none, some, [], ◌∷◌, ◌++◌, leb, ltb,
  ◌==◌, if◌then◌else◌,
}
use covenant_signer.Go.Text.{GoString, Bytes, str}
use covenant_signer.Go.Outcome.{Outcome, ok, err, new, GoError, ◌>>=◌}

-- The table "0123456789abcdef"
unfoldable pub digit : ℕ → ℕ
digit n = if ltb n 10 then b'0' + n else b'a' + (n - 10)

unfoldable pub encode_to_string : Bytes → GoString
unfolding digit
encode_to_string [] = []
encode_to_string (b ∷ bs) = digit (b / 16) ∷ digit (b % 16) ∷ encode_to_string bs

-- The reverse table, in which both cases of a letter have the same value
unfoldable pub from_digit : ℕ → Option ℕ
from_digit c =
    if leb b'0' c && leb c b'9'
    then some (c - b'0')
    else if leb b'a' c && leb c b'f'
    then some (c - b'a' + 10)
    else if leb b'A' c && leb c b'F'
    then some (c - b'A' + 10)
    else none

-- A byte as %#U prints it: U+0067 'g', with the quoted character only if it is printable. The
-- characters from 128 on take two bytes of UTF-8.
upper_digit : ℕ → ℕ
upper_digit n = if ltb n 10 then b'0' + n else b'A' + (n - 10)

utf8 : ℕ → GoString
utf8 c = if ltb c 128 then c ∷ [] else (192 + c / 64) ∷ (128 + c % 64) ∷ []

is_printable : ℕ → Bool
is_printable c = leb 32 c && leb c 126 || leb 161 c && not (c == 173)

unicode : ℕ → GoString
unfolding upper_digit utf8 is_printable
unicode c =
    str "U+00"
    ++ (upper_digit (c / 16)
        ∷ upper_digit (c % 16)
        ∷ (if is_printable c then str " '" ++ (utf8 c ++ str "'") else []))

unfoldable pub invalid_byte_error : ℕ → GoError
unfolding unicode
invalid_byte_error c = new (str "encoding/hex: invalid byte: " ++ unicode c)

unfoldable pub err_length : GoError
err_length = new (str "encoding/hex: odd length hex string")

unfoldable pub digit_value : ℕ → Outcome ℕ
unfolding from_digit
digit_value c = elim (from_digit c) [ none ↦ err (invalid_byte_error c) | some v ↦ ok v ]

-- An invalid byte is reported before an odd length.
unfoldable pub decode_string : GoString → Outcome Bytes
unfolding digit_value
decode_string [] = ok []
decode_string (c ∷ []) = do _ ← digit_value c; err err_length
decode_string (c ∷ d ∷ rest) = do
  high ← digit_value c
  low ← digit_value d
  bytes ← decode_string rest
  ok ((high * 16 + low) ∷ bytes)
