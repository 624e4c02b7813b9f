-- ===== src/Agent/Answers.antt =====
-- How the last answer of the model is read (internal/agent/engine.go, `extractRootCause`), where it has
-- the form that the goal asks for.
use mathlib.Core.List.{append-nil, append_assoc}
use kubeminds.Prelude.{
  ℕ, ◌≡◌, ◌≢◌, refl, sym, ap, ◌∙◌, Bool, true, false, List, [], ◌∷◌, ◌++◌, arith,
}
use kubeminds.Prelude.Lists.{All, all}
use kubeminds.Prelude.Bytes.{Str, lit, is_empty, has_prefix, has_prefix-append, index_byte, join}
use kubeminds.Prelude.Utf8.{is_space, to_lower, trim_space}
use kubeminds.Prelude.Ascii.{
  to_lower-append, trim_space-append, trim_space-blank, lacks, split_on-join,
}
use kubeminds.Agent.RootCause.{
  Scan, marks_root_cause, marks_suggestion, after_colon, scan_line, scan_lines, no_lines, conclude,
  extract_root_cause,
}

abbrev pub newline : Str
newline = 10 ∷ []

-- Lines before the markers, and the two parts, each with further lines.
abbrev pub answer_lines : List Str → Str → List Str → Str → List Str → List Str
answer_lines before r rs s ss =
    before ++ ((lit "Root Cause: " ++ r) ∷ (rs ++ (lit "Suggestion: " ++ s) ∷ ss))

module _ (fold : ℕ → ℕ) where
  -- A line without a marker.
  pub record IsPlain (line : Str) : Type 0 where
    pub no_root_cause : marks_root_cause (to_lower fold (trim_space line)) ≡ false
    pub no_suggestion : marks_suggestion (to_lower fold (trim_space line)) ≡ false

  -- The text behind a marker: not empty, and with no blank at its ends.
  pub record IsValue (v : Str) : Type 0 where
    pub some_text : is_empty v ≡ false
    pub trimmed : trim_space v ≡ v

  scan_lines-append :
      (s : Scan) (xs ys : List Str)
      → scan_lines fold s (xs ++ ys) ≡ scan_lines fold (scan_lines fold s xs) ys
  unfolding scan_lines
  scan_lines-append s [] ys = refl
  scan_lines-append s (x ∷ xs) ys = scan_lines-append (scan_line fold s x) xs ys

  abbrev scan : List Str → List Str → Bool → Bool → Scan
  scan rs ss in_root_cause in_suggestion = record {
    root_cause_lines = rs;
    suggestion_lines = ss;
    in_root_cause = in_root_cause;
    in_suggestion = in_suggestion;
  }

  -- Lines without a marker go to the part that is open.
  scan-before :
      (xs : List Str)
      → All IsPlain xs
      → scan_lines fold (scan [] [] false false) xs ≡ scan [] [] false false
  unfolding scan_lines scan_line
  scan-before [] h = refl
  scan-before (x ∷ xs) (p, h) = rw (p.no_root_cause, p.no_suggestion) (scan-before xs h)

  scan-root_cause :
      (rs xs : List Str)
      → All IsPlain xs
      → scan_lines fold (scan rs [] true false) xs ≡ scan (rs ++ xs) [] true false
  unfolding scan_lines scan_line
  scan-root_cause rs [] h = ap (λ l. scan l [] true false) (sym (append-nil rs))
  scan-root_cause rs (x ∷ xs) (p, h) =
      rw (p.no_root_cause, p.no_suggestion)
        (scan-root_cause (rs ++ x ∷ []) xs h
          ∙ ap (λ l. scan l [] true false) (append_assoc rs (x ∷ []) xs))

  scan-suggestion :
      (rs ss xs : List Str)
      → All IsPlain xs
      → scan_lines fold (scan rs ss false true) xs ≡ scan rs (ss ++ xs) false true
  unfolding scan_lines scan_line
  scan-suggestion rs ss [] h = ap (λ l. scan rs l false true) (sym (append-nil ss))
  scan-suggestion rs ss (x ∷ xs) (p, h) =
      rw (p.no_root_cause, p.no_suggestion)
        (scan-suggestion rs (ss ++ x ∷ []) xs h
          ∙ ap (λ l. scan rs l false true) (append_assoc ss (x ∷ []) xs))

  root_cause-lower :
      (x : Str)
      → (rest : Str) × (to_lower fold (trim_space (lit "Root Cause: " ++ x))
          ≡ lit "root cause:" ++ rest)
  unfolding lit is_space
  root_cause-lower x =
      let (r, e) = trim_space-append b'R' (lit "oot Cause") b':' (0x20 ∷ x) refl refl refl refl in
      (to_lower fold r, ap (to_lower fold) e ∙ to_lower-append fold (lit "Root Cause:") r refl)

  suggestion-lower :
      (x : Str)
      → (rest : Str) × (to_lower fold (trim_space (lit "Suggestion: " ++ x))
          ≡ lit "suggestion:" ++ rest)
  unfolding lit is_space
  suggestion-lower x =
      let (r, e) = trim_space-append b'S' (lit "uggestion") b':' (0x20 ∷ x) refl refl refl refl in
      (to_lower fold r, ap (to_lower fold) e ∙ to_lower-append fold (lit "Suggestion:") r refl)

  after_colon-root_cause : (x : Str) → after_colon (lit "Root Cause: " ++ x) ≡ trim_space x
  unfolding after_colon index_byte lit
  after_colon-root_cause x = trim_space-blank x

  after_colon-suggestion : (x : Str) → after_colon (lit "Suggestion: " ++ x) ≡ trim_space x
  unfolding after_colon index_byte lit
  after_colon-suggestion x = trim_space-blank x

  scan_line-marked :
      (line x : Str)
      → IsValue x
      → marks_root_cause (to_lower fold (trim_space line)) ≡ true
      → after_colon line ≡ x
      → scan_line fold (scan [] [] false false) line ≡ scan (x ∷ []) [] true false
  unfolding scan_line
  scan_line-marked line x v m a = rw (m, a, v.some_text) refl

  scan_line-turned :
      (rs : List Str) (line x : Str)
      → IsValue x
      → marks_root_cause (to_lower fold (trim_space line)) ≡ false
      → marks_suggestion (to_lower fold (trim_space line)) ≡ true
      → after_colon line ≡ x
      → scan_line fold (scan rs [] true false) line ≡ scan rs (x ∷ []) false true
  unfolding scan_line
  scan_line-turned rs line x v n m a = rw (n, m, a, v.some_text) refl

  scan_line-root_cause :
      (x : Str)
      → IsValue x
      → scan_line fold (scan [] [] false false) (lit "Root Cause: " ++ x)
        ≡ scan (x ∷ []) [] true false
  unfolding marks_root_cause
  scan_line-root_cause x v =
      let (rest, e) = root_cause-lower x in
      scan_line-marked (lit "Root Cause: " ++ x) x v
        (ap marks_root_cause e ∙ ground (arith, has_prefix-append (lit "root cause:") rest))
        (after_colon-root_cause x ∙ v.trimmed)

  scan_line-suggestion :
      (rs : List Str) (x : Str)
      → IsValue x
      → scan_line fold (scan rs [] true false) (lit "Suggestion: " ++ x)
        ≡ scan rs (x ∷ []) false true
  unfolding marks_root_cause marks_suggestion has_prefix
  scan_line-suggestion rs x v =
      let (rest, e) = suggestion-lower x in
      scan_line-turned rs (lit "Suggestion: " ++ x) x v (ap marks_root_cause e)
        (ap marks_suggestion e) (after_colon-suggestion x ∙ v.trimmed)

  scan-answer :
      (before rs ss : List Str) (r s : Str)
      → All IsPlain before
      → All IsPlain rs
      → All IsPlain ss
      → IsValue r
      → IsValue s
      → scan_lines fold (scan [] [] false false) (answer_lines before r rs s ss)
        ≡ scan (r ∷ rs) (s ∷ ss) false true
  unfolding scan_lines
  scan-answer before rs ss r s hb hr hs v u =
      scan_lines-append (scan [] [] false false) before _
      ∙ (ap
            (λ t.
              scan_lines fold t
                ((lit "Root Cause: " ++ r) ∷ (rs ++ (lit "Suggestion: " ++ s) ∷ ss)))
            (scan-before before hb)
          ∙ (ap (λ t. scan_lines fold t (rs ++ (lit "Suggestion: " ++ s) ∷ ss))
                (scan_line-root_cause r v)
              ∙ (scan_lines-append (scan (r ∷ []) [] true false) rs _
                  ∙ (ap (λ t. scan_lines fold t ((lit "Suggestion: " ++ s) ∷ ss))
                        (scan-root_cause (r ∷ []) rs hr)
                      ∙ (ap (λ t. scan_lines fold t ss) (scan_line-suggestion (r ∷ rs) s u)
                          ∙ scan-suggestion (r ∷ rs) (s ∷ []) ss hs)))))

answer_lines-ne : (before rs ss : List Str) (r s : Str) → answer_lines before r rs s ss ≢ []
answer_lines-ne [] rs ss r s = λ e. cc
answer_lines-ne (b ∷ before) rs ss r s = λ e. cc

-- An answer in the form that the goal asks for is read back: behind any lines without a marker, a
-- line "Root Cause: " with a text, further lines without a marker, a line "Suggestion: " with a text,
-- and further lines without a marker. The root cause is then its text and the lines after it, and the
-- suggestion likewise, trimmed. The two texts are not empty and have no blank at their ends, and no line
-- holds a line end.
pub extract_root_cause-answer :
    (fold : ℕ → ℕ) (before rs ss : List Str) (r s : Str)
    → All (IsPlain fold) before
    → All (IsPlain fold) rs
    → All (IsPlain fold) ss
    → IsValue fold r
    → IsValue fold s
    → all (lacks 10) (answer_lines before r rs s ss) ≡ true
    → extract_root_cause fold (join newline (answer_lines before r rs s ss)) ≡ record {
      root_cause = trim_space (join newline (r ∷ rs));
      suggestion = trim_space (join newline (s ∷ ss));
    }
unfolding extract_root_cause
extract_root_cause-answer fold before rs ss r s hb hr hs v u lines =
    let content = join newline (answer_lines before r rs s ss) in
    ap
      (λ l.
        conclude content (scan_lines fold no_lines l).root_cause_lines
          (scan_lines fold no_lines l).suggestion_lines)
      (split_on-join 10 (answer_lines before r rs s ss) (answer_lines-ne before rs ss r s) lines)
    ∙ ap (λ t. conclude content t.root_cause_lines t.suggestion_lines)
        (scan-answer fold before rs ss r s hb hr hs v u)
