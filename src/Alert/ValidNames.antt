-- ===== src/Alert/ValidNames.antt =====
-- The names of tasks (internal/alert/types.go, `sanitizeName`; internal/alert/creator.go,
-- `buildTaskName`) are valid in the cluster.
use kubeminds.Prelude.{
  ℕ, zero, suc, ◌^◌, ◌≤◌, ◌<◌, ◌≡◌, ◌≢◌, refl, ◌⊎◌, inl, inr, List, [], ◌∷◌, ◌++◌, map, arith,
  Bool-cases,
}
use kubeminds.Prelude.Tests.{ltb, if◌then◌else◌}
use kubeminds.Prelude.Lists.{All, All-append, All-map, length, take, length-append, length-take}
use kubeminds.Prelude.Bytes.{Str, lit, itoa, IsDigit, itoa-IsDigit, itoa_bounded, itoa_pos}
use kubeminds.Prelude.Utf8.{runes, to_lower, trim_front, trim_back}
use kubeminds.Alert.Types.{or_default}
use kubeminds.Alert.Names.{
  name_byte, is_dash, trim_right_dashes, trim_dashes, sanitize_name, build_task_name,
}

-- A lower-case letter, a digit or a dash.
abbrev pub IsNameByte : ℕ → Type 0
IsNameByte b = ((b'a' ≤ b) × (b ≤ b'z')) ⊎ (((b'0' ≤ b) × (b ≤ b'9')) ⊎ (b ≡ b'-'))

abbrev pub StartsPlain : Str → Type 0
StartsPlain [] = Unit
StartsPlain (b ∷ _) = b ≢ b'-'

abbrev pub EndsPlain : Str → Type 0
EndsPlain [] = Unit
EndsPlain (b ∷ []) = b ≢ b'-'
EndsPlain (b ∷ c ∷ s) = EndsPlain (c ∷ s)

map-IsNameByte : (rs : List ℕ) → All IsNameByte (map name_byte rs)
map-IsNameByte [] = tt
map-IsNameByte (r ∷ rs) = (ground arith, map-IsNameByte rs)

-- How `trim_back` goes on at the front of a list.
abbrev cut : ℕ → Str → Str
cut b [] = if is_dash b then [] else b ∷ []
cut b (c ∷ s) = b ∷ c ∷ s

trim_back-cons : (b : ℕ) (s : Str) → trim_back is_dash (b ∷ s) ≡ cut b (trim_back is_dash s)
unfolding trim_back
trim_back-cons b s = ground arith

module _ (P : ℕ → Type 0) where
  trim_front-All : (s : Str) → All P s → All P (trim_front is_dash s)
  unfolding trim_front
  trim_front-All [] h = tt
  trim_front-All (b ∷ s) h = elim (Bool-cases (is_dash b)) [
    | inl e ↦ rw e (trim_front-All s h.1)
    | inr e ↦ rw e h
  ]

  take-All : (n : ℕ) (s : Str) → All P s → All P (take n s)
  take-All zero s h = tt
  take-All (suc n) [] h = tt
  take-All (suc n) (b ∷ s) h = (h.0, take-All n s h.1)

  cut-All : (b : ℕ) (s : Str) → P b → All P s → All P (cut b s)
  cut-All b [] p h = elim (Bool-cases (is_dash b)) [ inl e ↦ rw e tt | inr e ↦ rw e (p, tt) ]
  cut-All b (c ∷ s) p h = (p, h)

  trim_back-All : (s : Str) → All P s → All P (trim_back is_dash s)
  trim_back-All [] h = unfold trim_back in tt
  trim_back-All (b ∷ s) h = rw (trim_back-cons b s) (cut-All b _ h.0 (trim_back-All s h.1))

trim_front-StartsPlain : (s : Str) → StartsPlain (trim_front is_dash s)
unfolding trim_front
trim_front-StartsPlain [] = tt
trim_front-StartsPlain (b ∷ s) = elim (Bool-cases (is_dash b)) [
  | inl e ↦ rw e (trim_front-StartsPlain s)
  | inr e ↦ rw e (ground arith)
]

take-StartsPlain : (n : ℕ) (s : Str) → StartsPlain s → StartsPlain (take n s)
take-StartsPlain zero s h = tt
take-StartsPlain (suc n) [] h = tt
take-StartsPlain (suc n) (b ∷ s) h = h

cut-StartsPlain : (b : ℕ) (s : Str) → b ≢ b'-' → StartsPlain (cut b s)
cut-StartsPlain b [] h = elim (Bool-cases (is_dash b)) [ inl e ↦ rw e tt | inr e ↦ rw e h ]
cut-StartsPlain b (c ∷ s) h = h

cut-EndsPlain : (b : ℕ) (s : Str) → EndsPlain s → EndsPlain (cut b s)
cut-EndsPlain b [] h = elim (Bool-cases (is_dash b)) [
  | inl e ↦ rw e tt
  | inr e ↦ rw e (ground arith)
]
cut-EndsPlain b (c ∷ s) h = h

cut-length : (b : ℕ) (s : Str) → length (cut b s) ≤ suc (length s)
cut-length b [] = ground arith
cut-length b (c ∷ s) = omega arith

trim_back-StartsPlain : (s : Str) → StartsPlain s → StartsPlain (trim_back is_dash s)
trim_back-StartsPlain [] h = unfold trim_back in tt
trim_back-StartsPlain (b ∷ s) h = rw (trim_back-cons b s) (cut-StartsPlain b _ h)

trim_back-EndsPlain : (s : Str) → EndsPlain (trim_back is_dash s)
trim_back-EndsPlain [] = unfold trim_back in tt
trim_back-EndsPlain (b ∷ s) =
    rw (trim_back-cons b s) (cut-EndsPlain b (trim_back is_dash s) (trim_back-EndsPlain s))

trim_back-length : (s : Str) → length (trim_back is_dash s) ≤ length s
trim_back-length [] = unfold trim_back in omega arith
trim_back-length (b ∷ s) =
    rw (trim_back-cons b s) (omega (arith, cut-length b (trim_back is_dash s), trim_back-length s))

-- What a segment of a resource name has to be.
pub record IsSegment (max_len : ℕ) (s : Str) : Type 0 where
  pub bytes : All IsNameByte s
  pub starts : StartsPlain s
  pub ends : EndsPlain s
  pub fits : length s ≤ max_len

-- Any text becomes letters, digits and dashes, with no dash at either end, within the length.
pub sanitize_name-IsSegment :
    (fold : ℕ → ℕ) (s : Str) (max_len : ℕ) → IsSegment max_len (sanitize_name fold s max_len)
unfolding sanitize_name trim_dashes trim_right_dashes
sanitize_name-IsSegment fold s max_len =
    shorten (map name_byte (runes (to_lower fold s))) (map-IsNameByte _)
  where
    shorten :
        (t : Str)
        → All IsNameByte t
        → IsSegment max_len (
            if ltb max_len (length (trim_dashes t))
            then trim_right_dashes (take max_len (trim_dashes t))
            else trim_dashes t)
    shorten t h =
        let front = trim_front is_dash t in
        let starts = trim_back-StartsPlain front (trim_front-StartsPlain t) in
        let bytes = trim_back-All IsNameByte front (trim_front-All IsNameByte t h) in
        elim (Bool-cases (ltb max_len (length (trim_dashes t)))) [
          | inl e ↦ rw e (record {
            bytes =
                trim_back-All IsNameByte (take max_len (trim_dashes t))
                  (take-All IsNameByte max_len (trim_dashes t) bytes);
            starts =
                trim_back-StartsPlain (take max_len (trim_dashes t))
                  (take-StartsPlain max_len (trim_dashes t) starts);
            ends = trim_back-EndsPlain (take max_len (trim_dashes t));
            fits = omega (
              arith,
              trim_back-length (take max_len (trim_dashes t)),
              length-take max_len (trim_dashes t),
            );
          })
          | inr e ↦ rw e (record {
            bytes = bytes;
            starts = starts;
            ends = trim_back-EndsPlain front;
            fits = ground arith;
          })
        ]

-- A label of the domain name system, as the names of objects are.
pub record IsDnsLabel (s : Str) : Type 0 where
  pub bytes : All IsNameByte s
  pub starts : StartsPlain s
  pub ends : EndsPlain s
  pub some_byte : 1 ≤ length s
  pub fits : length s ≤ 63

IsDigit-IsNameByte : (b : ℕ) → IsDigit b → IsNameByte b
IsDigit-IsNameByte b d = inr (inl d)

EndsPlain-append : (s t : Str) (b : ℕ) → EndsPlain (b ∷ t) → EndsPlain (s ++ (b ∷ t))
EndsPlain-append [] t b h = h
EndsPlain-append (c ∷ []) t b h = h
EndsPlain-append (c ∷ d ∷ s) t b h = EndsPlain-append (d ∷ s) t b h

digits-EndsPlain : (s : Str) → All IsDigit s → EndsPlain s
digits-EndsPlain [] h = tt
digits-EndsPlain (b ∷ []) h = omega arith
digits-EndsPlain (b ∷ c ∷ s) h = digits-EndsPlain (c ∷ s) h.1

or_default-IsSegment : (s : Str) → IsSegment 40 s → IsSegment 40 (or_default s (lit "unknown"))
unfolding lit
or_default-IsSegment [] h = record {
  bytes = omega arith;
  starts = omega arith;
  ends = omega arith;
  fits = omega arith;
}
or_default-IsSegment (b ∷ s) h = h

EndsPlain-cons : (b : ℕ) (s : Str) → 1 ≤ length s → EndsPlain s → EndsPlain (b ∷ s)
EndsPlain-cons b [] h e = absurd (omega arith)
EndsPlain-cons b (c ∷ s) h e = e

-- Until the year 318857 or so (10 ^ 16 ms), the name of a task is a valid label: letters, digits
-- and dashes, with no dash at either end, and at most 63 bytes, whatever the alert is called.
pub build_task_name-IsDnsLabel :
    (fold : ℕ → ℕ) (alert_name : Str) (millis : ℕ)
    → millis < 10 ^ 16
    → IsDnsLabel (build_task_name fold alert_name millis)
unfolding build_task_name lit
build_task_name-IsDnsLabel fold alert_name millis h =
    let middle = or_default (sanitize_name fold alert_name 40) (lit "unknown") in
    let seg = or_default-IsSegment _ (sanitize_name-IsSegment fold alert_name 40) in
    let tail_bytes = All-map (itoa millis) IsDigit-IsNameByte (itoa-IsDigit millis) in
    record {
      bytes =
          All-append IsNameByte (lit "alert-" ++ middle) (b'-' ∷ itoa millis)
            (All-append IsNameByte (lit "alert-") middle (omega arith) seg.bytes)
            (inr (inr refl), tail_bytes);
      starts = omega arith;
      ends = EndsPlain-append (lit "alert-" ++ middle) (itoa millis) b'-' (
          EndsPlain-cons b'-' (itoa millis) (itoa_pos millis)
            (digits-EndsPlain (itoa millis) (itoa-IsDigit millis)));
      some_byte = omega arith;
      fits =
          omega
            (arith, length-append middle (b'-' ∷ itoa millis), seg.fits, itoa_bounded 15 millis h);
    }
