-- ===== src/Prelude/Decimal.antt =====
-- `strconv.Atoi` and `strconv.ParseInt`, and that they read back what Itoa and FormatInt print.
use Prim.Native.Nat.{ℕ, zero, suc, ◌+◌, ◌-◌, ◌*◌, ◌/◌, ◌%◌, ◌^◌, ◌<◌}
use mathlib.Core.Path.{◌≡◌, refl, ap, subst, ◌∙◌}
use mathlib.Core.Logic.{inl, inr}
use mathlib.Core.Bool.{◌&&◌}
use mathlib.Core.List.{[], ◌∷◌, ◌++◌, append-nil, append_assoc}
use mathlib.Core.Option.{Option, none, some}
use native.Mathlib.Omega.{arith}
use kubeminds.Prelude.Tests.{ltb, leb, ◌==◌, if◌then◌else◌, ltb→lt, Bool-cases}
use kubeminds.Prelude.Lists.{All}
use kubeminds.Prelude.Bytes.{Str, itoa, digits_fuel, IsDigit, itoa-IsDigit}
use kubeminds.Prelude.Int.{ℤ, pos, negsuc, int_text}

-- Decimal digits, after those that were read; `none` is a syntax error.
unfoldable pub digits_value : ℕ → Str → Option ℕ
digits_value n [] = some n
digits_value n (b ∷ bs) =
    let rest = digits_value (n * 10 + (b - b'0')) bs in
    if leb b'0' b && leb b b'9' then rest else none

-- A magnitude in 64 bits: out of range, `ParseInt` returns the nearest value with its error.
abbrev pub clamped : Option ℕ → ℤ
clamped none = pos 0
clamped (some n) = if ltb n (2 ^ 63) then pos n else pos (2 ^ 63 - 1)

abbrev pub clamped_negative : Option ℕ → ℤ
clamped_negative none = pos 0
clamped_negative (some n) =
    if n == 0 then pos 0 else if leb n (2 ^ 63) then negsuc (n - 1) else negsuc (2 ^ 63 - 1)

-- `strconv.Atoi` and `strconv.ParseInt(…, 10, 64)`, with the error dropped.
unfoldable pub parse_int : Str → ℤ
parse_int [] = pos 0
parse_int (b ∷ bs) =
    if b == b'-'
    then clamped_negative (digits_value 0 bs)
    else if b == b'+'
    then clamped (digits_value 0 bs)
    else clamped (digits_value 0 (b ∷ bs))

-- One digit.
digits_value-digit :
    (n d : ℕ) (rest : Str)
    → d < 10
    → digits_value n ((b'0' + d) ∷ rest) ≡ digits_value (n * 10 + d) rest
unfolding digits_value
digits_value-digit n d rest h =
    let same : b'0' + d - b'0' ≡ d = omega arith in rw (same) (ground arith)

digits_value-digits_fuel :
    (f n : ℕ) (rest : Str) → n < f → digits_value 0 (digits_fuel f n ++ rest) ≡ digits_value n rest
unfolding digits_fuel
digits_value-digits_fuel zero n rest h = ground arith
digits_value-digits_fuel (suc f) n rest h =
    let inner = digits_value-digits_fuel f (n / 10) ((b'0' + n % 10) ∷ rest) in
    elim (Bool-cases (ltb n 10)) [
      | inl y ↦
          rw (y, digits_fuel)
            (digits_value-digit 0 n rest (ltb→lt n 10 y)
              ∙ ap (λ m. digits_value m rest) (omega arith))
      | inr y ↦
          rw (y, digits_fuel, append_assoc (digits_fuel f (n / 10)), inner (ground arith))
            (digits_value-digit (n / 10) (n % 10) rest (omega arith)
              ∙ ap (λ m. digits_value m rest) (omega arith))
    ]

digits_value-itoa : (n : ℕ) → digits_value 0 (itoa n) ≡ some n
unfolding itoa digits_value
digits_value-itoa n =
    subst (λ s. digits_value 0 s ≡ some n) (append-nil (digits_fuel (suc n) n))
      (digits_value-digits_fuel (suc n) n [] (omega arith) ∙ refl)

-- The integers of 64 bits.
abbrev pub IsInt64 : ℤ → Type 0
IsInt64 (pos n) = n < 2 ^ 63
IsInt64 (negsuc n) = n < 2 ^ 63

parse_int-digits : (s : Str) → All IsDigit s → parse_int s ≡ clamped (digits_value 0 s)
unfolding parse_int digits_value
parse_int-digits [] h = refl
parse_int-digits (b ∷ bs) h = ground arith

pub parse_int-int_text : (z : ℤ) → IsInt64 z → parse_int (int_text z) ≡ z
unfolding int_text parse_int
parse_int-int_text (pos n) h =
    parse_int-digits (itoa n) (itoa-IsDigit n) ∙ rw (digits_value-itoa n) (ground arith)
parse_int-int_text (negsuc n) h = rw (digits_value-itoa (suc n)) (ground arith)
