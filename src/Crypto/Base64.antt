-- ===== src/Crypto/Base64.antt =====
-- `base64.StdEncoding` of encoding/base64: EncodeToString and DecodeString.
use kubeminds.Prelude.{
  ℕ, ◌+◌, ◌-◌, ◌*◌, ◌/◌, ◌%◌, ◌<◌, ◌≡◌, refl, [], ◌∷◌, Bool, true, false, Option, none, some, ◌&&◌,
  ◌||◌, not, arith, leb, ltb, ◌==◌, if◌then◌else◌,
}
use kubeminds.Prelude.Lists.{All, keep}
use kubeminds.Prelude.Bytes.{Str}
use kubeminds.Crypto.Hex.{IsByte}

-- The 64 digits.
unfoldable pub sextet_char : ℕ → ℕ
sextet_char n =
    if ltb n 26
    then b'A' + n
    else if ltb n 52
    then b'a' + (n - 26)
    else if ltb n 62
    then b'0' + (n - 52)
    else if n == 62
    then b'+'
    else b'/'

unfoldable pub sextet_value : ℕ → Option ℕ
sextet_value c =
    if leb b'A' c && leb c b'Z'
    then some (c - b'A')
    else if leb b'a' c && leb c b'z'
    then some (c - b'a' + 26)
    else if leb b'0' c && leb c b'9'
    then some (c - b'0' + 52)
    else if c == b'+'
    then some 62
    else if c == b'/'
    then some 63
    else none

-- Three bytes are four digits, and a rest of one or two bytes is padded.
unfoldable pub base64_encode : Str → Str
unfolding sextet_char
base64_encode [] = []
base64_encode (a ∷ []) = sextet_char (a / 4) ∷ sextet_char (a % 4 * 16) ∷ b'=' ∷ b'=' ∷ []
base64_encode (a ∷ b ∷ []) =
    sextet_char (a / 4) ∷ sextet_char (a % 4 * 16 + b / 16) ∷ sextet_char (b % 16 * 4) ∷ b'=' ∷ []
base64_encode (a ∷ b ∷ c ∷ rest) =
    sextet_char (a / 4)
    ∷ sextet_char (a % 4 * 16 + b / 16)
    ∷ sextet_char (b % 16 * 4 + c / 64)
    ∷ sextet_char (c % 64)
    ∷ base64_encode rest

-- The bytes of a quantum: the high bits that do not fit a byte are dropped.
abbrev one_byte : Option ℕ → Option ℕ → Option Str
one_byte (some p) (some q) = some ((p * 4 + q / 16) ∷ [])
one_byte _ _ = none

abbrev two_bytes : Option ℕ → Option ℕ → Option ℕ → Option Str
two_bytes (some p) (some q) (some r) = some ((p * 4 + q / 16) ∷ (q % 16 * 16 + r / 4) ∷ [])
two_bytes _ _ _ = none

abbrev three_bytes : Option ℕ → Option ℕ → Option ℕ → Option ℕ → Option Str → Option Str
three_bytes (some p) (some q) (some r) (some s) (some bs) =
    some ((p * 4 + q / 16) ∷ (q % 16 * 16 + r / 4) ∷ (r % 4 * 64 + s) ∷ bs)
three_bytes _ _ _ _ _ = none

-- The quanta; padding ends the text. `none` stands for the error.
unfoldable pub decode_quanta : Str → Option Str
unfolding sextet_value
decode_quanta [] = some []
decode_quanta (p ∷ q ∷ r ∷ s ∷ cs) =
    let rest = decode_quanta cs in
    if s == b'='
    then (elim cs [
      | _ ∷ _ ↦ none
      | [] ↦
          if r == b'='
          then one_byte (sextet_value p) (sextet_value q)
          else two_bytes (sextet_value p) (sextet_value q) (sextet_value r)
    ])
    else three_bytes (sextet_value p) (sextet_value q) (sextet_value r) (sextet_value s) rest
decode_quanta _ = none

-- Ends of lines are skipped, wherever they stand.
abbrev is_data : ℕ → Bool
is_data c = not (c == 10 || c == 13)

unfoldable pub base64_decode : Str → Option Str
unfolding decode_quanta keep
base64_decode s = decode_quanta (keep is_data s)

sextet_value-sextet_char : (n : ℕ) → n < 64 → sextet_value (sextet_char n) ≡ some n
unfolding sextet_value sextet_char
sextet_value-sextet_char n h = ground arith

sextet_char_not_pad : (n : ℕ) → n < 64 → (sextet_char n == b'=') ≡ false
unfolding sextet_char
sextet_char_not_pad n h = ground arith

sextet_char-is_data : (n : ℕ) → n < 64 → is_data (sextet_char n) ≡ true
unfolding sextet_char
sextet_char-is_data n h = ground arith

-- The digits of an encoding, none of which is the end of a line.
base64_encode-data : (bs : Str) → All IsByte bs → All (λ c. is_data c ≡ true) (base64_encode bs)
unfolding base64_encode
base64_encode-data [] h = tt
base64_encode-data (a ∷ []) h = (
  sextet_char-is_data (a / 4) (omega arith),
  (sextet_char-is_data (a % 4 * 16) (omega arith), (refl, (refl, (tt)))),
)
base64_encode-data (a ∷ b ∷ []) h = (
  sextet_char-is_data (a / 4) (omega arith),
  (
    sextet_char-is_data (a % 4 * 16 + b / 16) (omega arith),
    (sextet_char-is_data (b % 16 * 4) (omega arith), (refl, (tt))),
  ),
)
base64_encode-data (a ∷ b ∷ c ∷ rest) h = (
  sextet_char-is_data (a / 4) (omega arith),
  (
    sextet_char-is_data (a % 4 * 16 + b / 16) (omega arith),
    (
      sextet_char-is_data (b % 16 * 4 + c / 64) (omega arith),
      (sextet_char-is_data (c % 64) (omega arith), (base64_encode-data rest h.1.1.1)),
    ),
  ),
)

keep-all : (p : ℕ → Bool) (cs : Str) → All (λ c. p c ≡ true) cs → keep p cs ≡ cs
unfolding keep
keep-all p [] h = refl
keep-all p (c ∷ cs) h = rw (h.0, keep-all p cs h.1) refl

decode_quanta-base64_encode :
    (bs : Str) → All IsByte bs → decode_quanta (base64_encode bs) ≡ some bs
unfolding decode_quanta base64_encode
decode_quanta-base64_encode [] h = refl
decode_quanta-base64_encode (a ∷ []) h =
    rw
      (
        sextet_value-sextet_char (a / 4) (omega arith),
        sextet_value-sextet_char (a % 4 * 16) (omega arith),
      )
      (ground arith)
decode_quanta-base64_encode (a ∷ b ∷ []) h =
    rw
      (
        sextet_char_not_pad (b % 16 * 4) (omega arith),
        sextet_value-sextet_char (a / 4) (omega arith),
        sextet_value-sextet_char (a % 4 * 16 + b / 16) (omega arith),
        sextet_value-sextet_char (b % 16 * 4) (omega arith),
      )
      (ground arith)
decode_quanta-base64_encode (a ∷ b ∷ c ∷ rest) h =
    rw
      (
        sextet_char_not_pad (c % 64) (omega arith),
        sextet_value-sextet_char (a / 4) (omega arith),
        sextet_value-sextet_char (a % 4 * 16 + b / 16) (omega arith),
        sextet_value-sextet_char (b % 16 * 4 + c / 64) (omega arith),
        sextet_value-sextet_char (c % 64) (omega arith),
        decode_quanta-base64_encode rest h.1.1.1,
      )
      (ground arith)

pub base64_decode-base64_encode :
    (bs : Str) → All IsByte bs → base64_decode (base64_encode bs) ≡ some bs
unfolding base64_decode
base64_decode-base64_encode bs h =
    rw (keep-all is_data (base64_encode bs) (base64_encode-data bs h))
      (decode_quanta-base64_encode bs h)
