-- ===== src/Prelude/Utf8.antt =====
-- UTF-8 as Go decodes it: `for _, r := range s`, `utf8.AppendRune`, `strings.TrimSpace` and
-- `strings.ToLower`. The lower-case table outside ASCII is an argument, `fold`.
use Prim.Native.Nat.{ℕ, zero, suc, ◌+◌, ◌-◌, ◌*◌, ◌/◌, ◌%◌}
use mathlib.Core.Bool.{Bool, ◌&&◌, ◌||◌}
use mathlib.Core.List.{List, [], ◌∷◌, map}
use kubeminds.Prelude.Tests.{◌==◌, ltb, leb, if◌then◌else◌}
use kubeminds.Prelude.Lists.{take}
use kubeminds.Prelude.Bytes.{Str, concat}

-- U+FFFD, which an invalid byte decodes to
abbrev pub rune_error : ℕ
rune_error = 0xfffd

abbrev within : ℕ → ℕ → ℕ → Bool
within lo hi b = leb lo b && leb b hi

abbrev continues : ℕ → Bool
continues = within 0x80 0xbf

-- The rune that starts with byte `b` before the bytes `rest`, and its width.
decode_two : ℕ → Str → ℕ × ℕ
decode_two b [] = (rune_error, 1)
decode_two b (c ∷ _) = if continues c then ((b - 0xc0) * 64 + (c - 0x80), 2) else (rune_error, 1)

decode_three : ℕ → Str → ℕ × ℕ
decode_three b [] = (rune_error, 1)
decode_three b (c ∷ []) = (rune_error, 1)
decode_three b (c ∷ d ∷ _) =
    if within (if b == 0xe0 then 0xa0 else 0x80) (if b == 0xed then 0x9f else 0xbf) c && continues d
    then ((b - 0xe0) * 4096 + (c - 0x80) * 64 + (d - 0x80), 3)
    else (rune_error, 1)

decode_four : ℕ → Str → ℕ × ℕ
decode_four b [] = (rune_error, 1)
decode_four b (c ∷ []) = (rune_error, 1)
decode_four b (c ∷ d ∷ []) = (rune_error, 1)
decode_four b (c ∷ d ∷ e ∷ _) =
    if within (if b == 0xf0 then 0x90 else 0x80) (if b == 0xf4 then 0x8f else 0xbf) c
      && (continues d && continues e)
    then ((b - 0xf0) * 262144 + (c - 0x80) * 4096 + (d - 0x80) * 64 + (e - 0x80), 4)
    else (rune_error, 1)

unfoldable pub decode_rune : ℕ → Str → ℕ × ℕ
unfolding decode_two decode_three decode_four
decode_rune b rest =
    if ltb b 0x80
    then (b, 1)
    else if ltb b 0xc2
    then (rune_error, 1)
    else if ltb b 0xe0
    then decode_two b rest
    else if ltb b 0xf0
    then decode_three b rest
    else if ltb b 0xf5
    then decode_four b rest
    else (rune_error, 1)

-- Each rune of a string with the bytes that it takes; `skip` bytes belong to the rune before.
unfoldable pub chunks_from : ℕ → Str → List (ℕ × Str)
unfolding decode_rune
chunks_from skip [] = []
chunks_from (suc skip) (b ∷ bs) = chunks_from skip bs
chunks_from zero (b ∷ bs) =
    ((decode_rune b bs).0, take (decode_rune b bs).1 (b ∷ bs))
    ∷ chunks_from ((decode_rune b bs).1 - 1) bs

unfoldable pub chunks : Str → List (ℕ × Str)
unfolding chunks_from
chunks = chunks_from 0

-- `for _, r := range s`
unfoldable pub runes : Str → List ℕ
unfolding chunks
runes s = map (λ c. c.0) (chunks s)

-- `utf8.AppendRune(nil, r)`
unfoldable pub encode_rune : ℕ → Str
encode_rune r =
    if ltb r 0x80
    then r ∷ []
    else if ltb r 0x800
    then (0xc0 + r / 64) ∷ (0x80 + r % 64) ∷ []
    else if within 0xd800 0xdfff r || ltb 0x10ffff r
    then 0xef ∷ 0xbf ∷ 0xbd ∷ []
    else if ltb r 0x10000
    then (0xe0 + r / 4096) ∷ (0x80 + r / 64 % 64) ∷ (0x80 + r % 64) ∷ []
    else (0xf0 + r / 262144) ∷ (0x80 + r / 4096 % 64) ∷ (0x80 + r / 64 % 64) ∷ (0x80 + r % 64) ∷ []

-- `unicode.ToLower`
unfoldable pub lower_rune : (ℕ → ℕ) → ℕ → ℕ
lower_rune fold r = if within b'A' b'Z' r then r + 32 else if ltb r 0x80 then r else fold r

-- `strings.ToLower(s)`
unfoldable pub to_lower : (ℕ → ℕ) → Str → Str
unfolding concat encode_rune lower_rune runes
to_lower fold s = concat (map (λ r. encode_rune (lower_rune fold r)) (runes s))

-- `unicode.IsSpace`
unfoldable pub is_space : ℕ → Bool
is_space r =
    within 9 13 r
    || (r == 0x20
        || (r == 0x85
            || (r == 0xa0
                || (r == 0x1680
                    || (within 0x2000 0x200a r
                        || (r == 0x2028
                            || (r == 0x2029 || (r == 0x202f || (r == 0x205f || r == 0x3000)))))))))

module _ {A : Type 0} where
  -- What stays when the leading, or the trailing, items that pass a test are cut.
  unfoldable pub trim_front : (A → Bool) → List A → List A
  trim_front p [] = []
  trim_front p (x ∷ xs) = let rest = trim_front p xs in if p x then rest else x ∷ xs

  unfoldable pub trim_back : (A → Bool) → List A → List A
  trim_back p [] = []
  trim_back p (x ∷ xs) = elim (trim_back p xs) [
    | [] ↦ if p x then [] else x ∷ []
    | y ∷ ys ↦ x ∷ y ∷ ys
  ]

-- `strings.TrimSpace(s)`
unfoldable pub trim_space : Str → Str
unfolding concat chunks is_space trim_front trim_back
trim_space s =
    concat
      (map (λ c. c.1) (trim_back (λ c. is_space c.0) (trim_front (λ c. is_space c.0) (chunks s))))
