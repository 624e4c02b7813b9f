-- ===== src/Prelude/Errors.antt =====
-- A Go pair `(A, error)`: a value, or the text of the error.
use mathlib.Core.Path.{◌≡◌, refl, ap}
use mathlib.Core.Logic.{◌≢◌, ◌⊎◌, inl, inr}
use mathlib.Core.List.{◌++◌}
use kubeminds.Prelude.Bytes.{Str}

pub data Fallible {ℓ} (A : Type ℓ) : Type ℓ where
  ok : A → Fallible A
  err : Str → Fallible A

pub Fallible-cases :
    {A : Type 0} (r : Fallible A) → ((a : A) × (r ≡ ok a)) ⊎ ((e : Str) × (r ≡ err e))
Fallible-cases (ok a) = inl (a, refl)
Fallible-cases (err e) = inr (e, refl)

pub err_ne_ok : {A : Type 0} {e : Str} {a : A} → err e ≢ ok a
err_ne_ok q = cc

-- The next step of a function that returns early on an error.
infixl 5 ◌>>=◌
abbrev pub ◌>>=◌ : {A B : Type 0} → Fallible A → (A → Fallible B) → Fallible B
(err text) >>= next = err text
(ok value) >>= next = next value

-- `fmt.Errorf("…: %w", err)`
abbrev pub wrap {ℓ} : {A : Type ℓ} → Str → Fallible A → Fallible A
wrap text (ok a) = ok a
wrap text (err e) = err (text ++ e)

pub after_ok :
    {A B : Type 0} {y : B} (step : Fallible A) {next : A → Fallible B}
    → (step >>= next) ≡ ok y
    → (x : A) × (step ≡ ok x) × (next x ≡ ok y)
after_ok (err text) e = absurd (err_ne_ok e)
after_ok (ok x) e = (x, refl, e)

pub wrap-eq-ok {ℓ} :
    {A : Type ℓ} (text : Str) (r : Fallible A) {a : A} → wrap text r ≡ ok a → r ≡ ok a
wrap-eq-ok text (ok a) h = h
wrap-eq-ok text (err e) h = cc

abbrev value_or {ℓ} : {A : Type ℓ} → A → Fallible A → A
value_or d (ok a) = a
value_or d (err e) = d

pub ok-injective {ℓ} : {A : Type ℓ} {a b : A} → ok a ≡ ok b → a ≡ b
ok-injective {a = a} e = ap (value_or a) e
