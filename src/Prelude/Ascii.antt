-- ===== src/Prelude/Ascii.antt =====
-- How the functions of Prelude.Utf8 and Prelude.Bytes treat a text that begins in ASCII, and lines.
use kubeminds.Prelude.{
  ℕ, ◌+◌, ◌≡◌, ◌≢◌, refl, ap, ◌∙◌, Bool, true, false, not, ◌&&◌, List, [], ◌∷◌, ◌++◌, map, arith,
}
use kubeminds.Prelude.Tests.{◌==◌, ltb, leb, if◌then◌else◌}
use kubeminds.Prelude.Lists.{all}
use kubeminds.Prelude.Bytes.{Str, concat, split_on, join}
use kubeminds.Prelude.Utf8.{
  decode_rune, chunks_from, chunks, runes, encode_rune, lower_rune, to_lower, is_space, trim_front,
  trim_back, trim_space,
}

abbrev pub is_ascii : Str → Bool
is_ascii = all (λ b. ltb b 0x80)

abbrev chunk : ℕ → ℕ × Str
chunk b = (b, b ∷ [])

chunks-ascii : (b : ℕ) (s : Str) → ltb b 0x80 ≡ true → chunks (b ∷ s) ≡ chunk b ∷ chunks s
unfolding chunks chunks_from decode_rune
chunks-ascii b s h = rw h refl

chunks-append : (p s : Str) → is_ascii p ≡ true → chunks (p ++ s) ≡ map chunk p ++ chunks s
chunks-append [] s h = refl
chunks-append (b ∷ p) s h =
    chunks-ascii b (p ++ s) (ground arith)
    ∙ ap (λ l. chunk b ∷ l) (chunks-append p s (ground arith))

abbrev pub lower_byte : ℕ → ℕ
lower_byte b = if leb b'A' b && leb b b'Z' then b + 32 else b

encode_lower :
    (fold : ℕ → ℕ) (b : ℕ) → ltb b 0x80 ≡ true → encode_rune (lower_rune fold b) ≡ lower_byte b ∷ []
unfolding encode_rune lower_rune
encode_lower fold b h = ground arith

abbrev lowered : (ℕ → ℕ) → List (ℕ × Str) → Str
lowered fold cs = concat (map (λ r. encode_rune (lower_rune fold r)) (map (λ c. c.0) cs))

to_lower-ascii :
    (fold : ℕ → ℕ) (b : ℕ) (s : Str)
    → ltb b 0x80 ≡ true
    → to_lower fold (b ∷ s) ≡ lower_byte b ∷ to_lower fold s
unfolding to_lower runes concat
to_lower-ascii fold b s h =
    ap (lowered fold) (chunks-ascii b s h)
    ∙ ap (λ l. l ++ lowered fold (chunks s)) (encode_lower fold b h)

-- The lower case of a text that begins in ASCII.
pub to_lower-append :
    (fold : ℕ → ℕ) (p s : Str)
    → is_ascii p ≡ true
    → to_lower fold (p ++ s) ≡ map lower_byte p ++ to_lower fold s
to_lower-append fold [] s h = refl
to_lower-append fold (b ∷ p) s h =
    to_lower-ascii fold b (p ++ s) (ground arith)
    ∙ ap (λ l. lower_byte b ∷ l) (to_lower-append fold p s (ground arith))

module _ {A : Type 0} (p : A → Bool) (x : A) (stays : p x ≡ false) where
  trim_back-cons : (ys : List A) → trim_back p (x ∷ ys) ≡ x ∷ trim_back p ys
  unfolding trim_back
  trim_back-cons ys = ground (arith, stays)

  -- An item that fails the test keeps what stands before it.
  trim_back-append : (xs ys : List A) → trim_back p (xs ++ x ∷ ys) ≡ xs ++ x ∷ trim_back p ys
  unfolding trim_back
  trim_back-append [] ys = trim_back-cons ys
  trim_back-append (z ∷ []) ys = rw (trim_back-cons ys) refl
  trim_back-append (z ∷ w ∷ xs) ys = rw (trim_back-append (w ∷ xs) ys) refl

abbrev texts : List (ℕ × Str) → Str
texts cs = concat (map (λ c. c.1) cs)

texts-append : (p : Str) (cs : List (ℕ × Str)) → texts (map chunk p ++ cs) ≡ p ++ texts cs
unfolding concat
texts-append [] cs = refl
texts-append (b ∷ p) cs = ap (λ l. b ∷ l) (texts-append p cs)

abbrev blank : ℕ × Str → Bool
blank c = is_space c.0

abbrev trimmed : List (ℕ × Str) → Str
trimmed cs = texts (trim_back blank (trim_front blank cs))

trim_front-keeps :
    (c : ℕ × Str) (cs : List (ℕ × Str)) → blank c ≡ false → trim_front blank (c ∷ cs) ≡ c ∷ cs
unfolding trim_front
trim_front-keeps c cs h = ground (arith, h)

-- Trimming keeps the text up to an ASCII byte that is no space, if it does not start with one.
pub trim_space-append :
    (b : ℕ) (mid : Str) (c : ℕ) (s : Str)
    → is_ascii (b ∷ mid) ≡ true
    → ltb c 0x80 ≡ true
    → is_space b ≡ false
    → is_space c ≡ false
    → (rest : Str) × (trim_space (b ∷ (mid ++ c ∷ s)) ≡ b ∷ (mid ++ c ∷ rest))
unfolding trim_space
trim_space-append b mid c s h k f g =
    let cs = chunks s in
    let split : chunks (b ∷ (mid ++ c ∷ s)) ≡ map chunk (b ∷ mid) ++ chunk c ∷ cs =
      chunks-append (b ∷ mid) (c ∷ s) h ∙ ap (λ l. map chunk (b ∷ mid) ++ l) (chunks-ascii c s k) in
    (
      texts (trim_back blank cs),
      ap trimmed split
          ∙ (ap (λ l. texts (trim_back blank l))
                (trim_front-keeps (chunk b) (map chunk mid ++ chunk c ∷ cs) f)
              ∙ (ap texts (trim_back-append blank (chunk c) g (map chunk (b ∷ mid)) cs)
                  ∙ texts-append (b ∷ mid) (chunk c ∷ trim_back blank cs))),
    )

-- A leading blank is cut.
pub trim_space-blank : (s : Str) → trim_space (0x20 ∷ s) ≡ trim_space s
unfolding trim_space trim_front is_space
trim_space-blank s = ap trimmed (chunks-ascii 0x20 s refl)

-- A text without a byte.
abbrev pub lacks : ℕ → Str → Bool
lacks c = all (λ b. not (b == c))

split_on-line : (c : ℕ) (s : Str) → lacks c s ≡ true → split_on c s ≡ s ∷ []
unfolding split_on
split_on-line c [] h = refl
split_on-line c (b ∷ s) h = ground (arith, split_on-line c s)

split_on-append :
    (c : ℕ) (s t : Str) → lacks c s ≡ true → split_on c (s ++ c ∷ t) ≡ s ∷ split_on c t
unfolding split_on
split_on-append c [] t h = ground arith
split_on-append c (b ∷ s) t h = ground (arith, split_on-append c s t)

-- Lines that are joined and split again.
pub split_on-join :
    (c : ℕ) (ps : List Str) → ps ≢ [] → all (lacks c) ps ≡ true → split_on c (join (c ∷ []) ps) ≡ ps
unfolding join
split_on-join c [] n h = absurd (n refl)
split_on-join c (p ∷ []) n h = split_on-line c p (ground arith)
split_on-join c (p ∷ q ∷ ps) n h =
    split_on-append c p (join (c ∷ []) (q ∷ ps)) (ground arith)
    ∙ ap (λ l. p ∷ l) (split_on-join c (q ∷ ps) (λ e. cc) (ground arith))
