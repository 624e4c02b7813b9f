-- ===== src/Agent/RootCause.antt =====
-- internal/agent/engine.go, `extractRootCause`: the markers of the model's last answer. `fold` is
-- the lower-case table outside ASCII.
use kubeminds.Prelude.{ℕ, ◌+◌, Bool, true, false, ◌||◌, List, [], ◌∷◌, ◌++◌, none, some}
use kubeminds.Prelude.Tests.{if◌then◌else◌}
use kubeminds.Prelude.Lists.{drop, take}
use kubeminds.Prelude.Bytes.{Str, lit, is_empty, has_prefix, index_byte, split_on, join}
use kubeminds.Prelude.Utf8.{to_lower, trim_space}
use kubeminds.Agent.Types.{Result}

-- The variables of the loop.
pub record Scan : Type 0 where
  pub root_cause_lines : List Str
  pub suggestion_lines : List Str
  pub in_root_cause : Bool
  pub in_suggestion : Bool

-- "根因:" and "建议:" in UTF-8
abbrev root_cause_zh : Str
root_cause_zh = 0xe6 ∷ 0xa0 ∷ 0xb9 ∷ 0xe5 ∷ 0x9b ∷ 0xa0 ∷ b':' ∷ []

abbrev suggestion_zh : Str
suggestion_zh = 0xe5 ∷ 0xbb ∷ 0xba ∷ 0xe8 ∷ 0xae ∷ 0xae ∷ b':' ∷ []

unfoldable pub marks_root_cause : Str → Bool
unfolding has_prefix lit
marks_root_cause lower = has_prefix lower (lit "root cause:") || has_prefix lower root_cause_zh

unfoldable pub marks_suggestion : Str → Bool
unfolding has_prefix lit
marks_suggestion lower =
    has_prefix lower (lit "suggestion:")
    || (has_prefix lower suggestion_zh || has_prefix lower (lit "remediation:"))

-- `strings.TrimSpace(line[strings.Index(line, ":")+1:])`
unfoldable pub after_colon : Str → Str
unfolding trim_space index_byte
after_colon line =
    trim_space (elim (index_byte line b':') [ none ↦ line | some i ↦ drop (i + 1) line ])

append_value : Str → List Str → List Str
append_value val lines = if is_empty val then lines else lines ++ val ∷ []

-- One turn of the loop: the cases of its `switch`, in order.
unfoldable pub scan_line : (ℕ → ℕ) → Scan → Str → Scan
unfolding append_value marks_root_cause marks_suggestion to_lower trim_space after_colon
scan_line fold s line =
    let lower = to_lower fold (trim_space line) in
    if marks_root_cause lower
    then record s {
      root_cause_lines = append_value (after_colon line) s.root_cause_lines;
      in_root_cause = true;
      in_suggestion = false;
    }
    else if marks_suggestion lower
    then record s {
      suggestion_lines = append_value (after_colon line) s.suggestion_lines;
      in_root_cause = false;
      in_suggestion = true;
    }
    else if s.in_root_cause
    then record s { root_cause_lines = s.root_cause_lines ++ line ∷ [] }
    else if s.in_suggestion
    then record s { suggestion_lines = s.suggestion_lines ++ line ∷ [] }
    else s

unfoldable pub scan_lines : (ℕ → ℕ) → Scan → List Str → Scan
unfolding scan_line
scan_lines fold s [] = s
scan_lines fold s (line ∷ lines) = scan_lines fold (scan_line fold s line) lines

abbrev pub no_lines : Scan
no_lines = record {
  root_cause_lines = [];
  suggestion_lines = [];
  in_root_cause = false;
  in_suggestion = false;
}

abbrev pub joined : List Str → Str
joined lines = trim_space (join (10 ∷ []) lines)

-- The answer without markers: the first sentence, and all of it.
unfoldable pub fallback : Str → Result
unfolding trim_space index_byte
fallback content = elim (index_byte content b'.') [
  | some i ↦ record { root_cause = trim_space (take i content); suggestion = trim_space content }
  | none ↦ record { root_cause = trim_space content; suggestion = trim_space content }
]

abbrev pub conclude : Str → List Str → List Str → Result
conclude content [] ss = fallback content
conclude content (r ∷ rs) ss = record { root_cause = joined (r ∷ rs); suggestion = joined ss }

unfoldable pub extract_root_cause : (ℕ → ℕ) → Str → Result
unfolding scan_lines fallback split_on join trim_space
extract_root_cause fold content =
    let s = scan_lines fold no_lines (split_on 10 content) in
    conclude content s.root_cause_lines s.suggestion_lines
