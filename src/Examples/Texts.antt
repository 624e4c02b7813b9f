-- ===== src/Examples/Texts.antt =====
-- Texts outside ASCII, and the answers of a model (internal/agent/engine.go, `extractRootCause`).
use kubeminds.Prelude.{◌≡◌, refl, false, [], ◌∷◌}
use kubeminds.Prelude.Bytes.{Str, lit, str_eq, contains, has_prefix, join}
use kubeminds.Prelude.Maps.{lookup, label}
use kubeminds.Prelude.Errors.{Fallible, ok, err}
use kubeminds.Agent.Types.{user, Message}
use kubeminds.Agent.Mocks.{new_mock_llm_provider, at_step, mock_llm_chat}
use kubeminds.Llm.Mock.{new_mock_provider, infer_key, response_key, mock_chat}
use kubeminds.Prelude.Utf8.{trim_space, to_lower}
use kubeminds.Agent.RootCause.{marks_root_cause, marks_suggestion, extract_root_cause}
use kubeminds.Agent.Answers.{newline, answer_lines, IsPlain, extract_root_cause-answer}

trim_space_test :
    trim_space (32 ∷ 9 ∷ 0xe3 ∷ 0x80 ∷ 0x80 ∷ 65 ∷ 32 ∷ 66 ∷ 10 ∷ []) ≡ 65 ∷ 32 ∷ 66 ∷ []
unfolding trim_space
trim_space_test = refl

to_lower_test :
    to_lower (λ r. r) (65 ∷ 0xe6 ∷ 0xa0 ∷ 0xb9 ∷ 0xff ∷ [])
    ≡ 97 ∷ 0xe6 ∷ 0xa0 ∷ 0xb9 ∷ 0xef ∷ 0xbf ∷ 0xbd ∷ []
unfolding to_lower
to_lower_test = refl

-- The form that the prompt asks for.
extract_test :
    extract_root_cause
      (λ r. r)
      (lit "Done.\n  ROOT cause: no memory\nSuggestion: raise the limit\nand restart\n")
    ≡ record { root_cause = lit "no memory"; suggestion = lit "raise the limit\nand restart" }
unfolding extract_root_cause trim_space has_prefix
extract_test = refl

-- Without markers: the first sentence, and all of it.
extract_fallback_test :
    extract_root_cause (λ r. r) (lit "No memory. Raise the limit.")
    ≡ record { root_cause = lit "No memory"; suggestion = lit "No memory. Raise the limit." }
unfolding extract_root_cause trim_space has_prefix
extract_fallback_test = refl

-- The mock provider answers a question on an OOM in the form that the agent reads.
oom_question : Message
oom_question = record {
  type = user;
  content = lit "Why OOMKilled?";
  tool_calls = [];
  tool_call_id = [];
}

abbrev cause_of : Fallible Message → Str
cause_of (err e) = e
cause_of (ok m) = (extract_root_cause (λ r. r) m.content).root_cause

mock_oom_test :
    cause_of (mock_chat (oom_question ∷ []) [] new_mock_provider).0
    ≡ lit "Pod memory limit exceeded (OOMKilled)"
unfolding mock_chat new_mock_provider response_key infer_key contains lookup label str_eq
    oom_question extract_root_cause trim_space has_prefix
mock_oom_test = refl

-- A double answers its first call, fails in its second, and counts both.
mock_llm_test :
    let m = record new_mock_llm_provider {
      responses = (0, oom_question) ∷ [];
      error_trigger = (1, lit "timeout") ∷ [];
    } in
    let (first, m₁) = mock_llm_chat [] [] m in
    let (second, m₂) = mock_llm_chat [] [] m₁ in
    (first ≡ ok oom_question) × (second ≡ err (lit "timeout")) × (m₂.call_count ≡ 2)
unfolding mock_llm_chat at_step
mock_llm_test = (refl, refl, refl)

-- A preamble, a root cause of two lines and a suggestion.
reply_lines :
    join newline
      (answer_lines (lit "Done." ∷ []) (lit "OOM.") (lit "It is killed." ∷ []) (lit "Raise it.") [])
    ≡ lit "Done.\nRoot Cause: OOM.\nIt is killed.\nSuggestion: Raise it."
unfolding lit join
reply_lines = refl

abbrev plain :
    (line : Str)
    → marks_root_cause (to_lower (λ r. r) (trim_space line)) ≡ false
    → marks_suggestion (to_lower (λ r. r) (trim_space line)) ≡ false
    → IsPlain (λ r. r) line
plain line n m = record { no_root_cause = n; no_suggestion = m }

extract_root_cause-answer_example :
    extract_root_cause
      (λ r. r)
      (join newline (
        answer_lines
          (lit "Done." ∷ [])
          (lit "OOM.")
          (lit "It is killed." ∷ [])
          (lit "Raise it.")
          []))
    ≡ record {
      root_cause = trim_space (join newline (lit "OOM." ∷ lit "It is killed." ∷ []));
      suggestion = trim_space (join newline (lit "Raise it." ∷ []));
    }
unfolding lit trim_space to_lower marks_root_cause marks_suggestion has_prefix
extract_root_cause-answer_example =
    extract_root_cause-answer (λ r. r) (lit "Done." ∷ []) (lit "It is killed." ∷ []) [] (lit "OOM.")
      (lit "Raise it.") (plain (lit "Done.") refl refl, tt)
      (plain (lit "It is killed.") refl refl, tt) tt (record { some_text = refl; trimmed = refl })
      (record { some_text = refl; trimmed = refl }) refl
