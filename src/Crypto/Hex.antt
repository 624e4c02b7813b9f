-- ===== src/Crypto/Hex.antt =====
-- `hex.DecodeString` of encoding/hex, and the text that `openssl rand -hex` prints for bytes.
use kubeminds.Prelude.{
  ℕ, ◌+◌, ◌-◌, ◌*◌, ◌/◌, ◌%◌, ◌<◌, ◌≤◌, false, ◌≡◌, refl, [], ◌∷◌, Option, none, some, ◌&&◌, arith,
  leb, ltb, if◌then◌else◌,
}
use kubeminds.Prelude.Lists.{All, length}
use kubeminds.Prelude.Bytes.{Str, is_empty}

abbrev pub IsByte : ℕ → Type 0
IsByte b = b < 256

unfoldable pub hex_digit : ℕ → ℕ
hex_digit n = if ltb n 10 then b'0' + n else b'a' + (n - 10)

-- The value of a digit, in either case.
unfoldable pub hex_value : ℕ → Option ℕ
hex_value c =
    if leb b'0' c && leb c b'9'
    then some (c - b'0')
    else if leb b'a' c && leb c b'f'
    then some (c - b'a' + 10)
    else if leb b'A' c && leb c b'F'
    then some (c - b'A' + 10)
    else none

unfoldable pub hex_encode : Str → Str
unfolding hex_digit
hex_encode [] = []
hex_encode (b ∷ bs) = hex_digit (b / 16) ∷ hex_digit (b % 16) ∷ hex_encode bs

abbrev pub hex_byte : Option ℕ → Option ℕ → Option Str → Option Str
hex_byte (some h) (some l) (some bs) = some ((h * 16 + l) ∷ bs)
hex_byte _ _ _ = none

-- `none` stands for the error: a byte that is no digit, or an odd number of digits.
unfoldable pub hex_decode : Str → Option Str
unfolding hex_value
hex_decode [] = some []
hex_decode (c ∷ []) = none
hex_decode (h ∷ l ∷ cs) = hex_byte (hex_value h) (hex_value l) (hex_decode cs)

hex_value-hex_digit : (n : ℕ) → n < 16 → hex_value (hex_digit n) ≡ some n
unfolding hex_value hex_digit
hex_value-hex_digit n h = ground arith

pub hex_decode-hex_encode : (bs : Str) → All IsByte bs → hex_decode (hex_encode bs) ≡ some bs
unfolding hex_encode hex_decode
hex_decode-hex_encode [] h = refl
hex_decode-hex_encode (b ∷ bs) h =
    rw
      (
        hex_value-hex_digit (b / 16) (omega arith),
        hex_value-hex_digit (b % 16) (omega arith),
        hex_decode-hex_encode bs h.1,
      )
      (ground arith)

pub is_empty-hex_encode : (bs : Str) → 1 ≤ length bs → is_empty (hex_encode bs) ≡ false
unfolding hex_encode
is_empty-hex_encode [] h = ground arith
is_empty-hex_encode (b ∷ bs) h = refl
