-- ===== src/Agent/Mocks.antt =====
-- internal/agent/mocks.go: the doubles for tests. A map from steps is an association list, and a
-- double is a provider or a tool whose state is the double itself.
use kubeminds.Prelude.{ℕ, ◌+◌, ◌==◌, List, [], ◌∷◌, Option, none, some, if◌then◌else◌}
use kubeminds.Prelude.Bytes.{Str, lit}
use kubeminds.Prelude.Errors.{Fallible, ok, err}
use kubeminds.Agent.Types.{assistant, Message, SafetyLevel, read_only, Tool}

pub record MockLlmProvider : Type 0 where
  pub responses : List (ℕ × Message)
  pub error_trigger : List (ℕ × Str)
  pub call_count : ℕ

-- `NewMockLLMProvider`
abbrev pub new_mock_llm_provider : MockLlmProvider
new_mock_llm_provider = record { responses = []; error_trigger = []; call_count = 0 }

-- `m[step]`
unfoldable pub at_step : {A : Type 0} → ℕ → List (ℕ × A) → Option A
at_step step [] = none
at_step step ((k, a) ∷ entries) = if k == step then some a else at_step step entries

abbrev or_unknown : Option Message → Fallible Message
or_unknown (some m) = ok m
or_unknown none = ok (record {
  type = assistant;
  content = lit "I don't know what to do.";
  tool_calls = [];
  tool_call_id = [];
})

abbrev error_first : Option Str → Option Message → Fallible Message
error_first (some e) response = err e
error_first none response = or_unknown response

-- `Chat`
unfoldable pub mock_llm_chat :
    List Message
    → List (Tool MockLlmProvider)
    → MockLlmProvider
    → Fallible Message × MockLlmProvider
mock_llm_chat messages tools m = (
  error_first (at_step m.call_count m.error_trigger) (at_step m.call_count m.responses),
  record m { call_count = m.call_count + 1 },
)

-- `ExecutionCount` is the state that the tool runs on. A level that is not set reads as read-only.
pub record MockTool : Type 0 where
  pub name_val : Str
  pub desc_val : Str
  pub safety_level_val : Option SafetyLevel
  pub execute_func : Option (Str → Fallible Str)

abbrev level_or_read_only : Option SafetyLevel → SafetyLevel
level_or_read_only none = read_only
level_or_read_only (some l) = l

abbrev output : Option (Str → Fallible Str) → Str → Fallible Str
output none args = ok (lit "mock output")
output (some f) args = f args

-- The methods of the tool.
unfoldable pub mock_tool : MockTool → Tool ℕ
mock_tool m = record {
  name = m.name_val;
  description = m.desc_val;
  schema = lit "{}";
  safety_level = level_or_read_only m.safety_level_val;
  execute = λ args n. (output m.execute_func args, n + 1);
}
