-- ===== src/Llm/Mock.antt =====
-- internal/llm/mock.go: the provider with fixed answers, chosen by words of the conversation.
use kubeminds.Prelude.{ℕ, ◌+◌, ◌||◌, List, [], ◌∷◌, if◌then◌else◌}
use kubeminds.Prelude.Bytes.{Str, lit, contains}
use kubeminds.Prelude.Maps.{Labels, insert, label}
use kubeminds.Prelude.Errors.{Fallible, ok}
use kubeminds.Agent.Types.{assistant, Message, Tool}

pub record MockProvider : Type 0 where
  pub responses : Labels
  pub call_count : ℕ

-- `NewMockProvider`
unfoldable pub new_mock_provider : MockProvider
new_mock_provider = record {
  responses =
      (
        lit "oom",
        lit
            "Root Cause: Pod memory limit exceeded (OOMKilled)\nSuggestion: Increase memory limit in pod spec or optimize application memory usage",
      )
      ∷ (
        lit "imagepull",
        lit
            "Root Cause: Container image pull failed - registry unreachable or image does not exist\nSuggestion: Verify image URL, check registry credentials, or ensure registry is accessible",
      )
      ∷ (
        lit "crashloop",
        lit
            "Root Cause: Container crashes immediately after startup - application error or misconfiguration\nSuggestion: Check application logs for startup errors, verify environment variables and config maps",
      )
      ∷ (
        lit "notready",
        lit
            "Root Cause: Node status NotReady due to kubelet or network issues\nSuggestion: Check node kubelet status, verify network connectivity, drain and restart node if necessary",
      )
      ∷ (
        lit "default",
        lit
            "Root Cause: Pod diagnostic inconclusive - requires deeper investigation\nSuggestion: Collect more logs and events, check application health endpoints",
      )
      ∷ [];
  call_count = 0;
}

-- The key after one message more.
unfoldable pub infer_key : Str → Str → Str
infer_key key content =
    if contains content (lit "OOM") || contains content (lit "memory")
    then lit "oom"
    else if contains content (lit "ImagePull") || contains content (lit "image")
    then lit "imagepull"
    else if contains content (lit "CrashLoop") || contains content (lit "crash")
    then lit "crashloop"
    else if contains content (lit "NotReady") || contains content (lit "node")
    then lit "notready"
    else key

-- The loop over the messages.
unfoldable pub response_key : Str → List Message → Str
response_key key [] = key
response_key key (m ∷ ms) = response_key (infer_key key m.content) ms

-- `Chat`: a provider whose state is the mock itself.
unfoldable pub mock_chat :
    List Message → List (Tool MockProvider) → MockProvider → Fallible Message × MockProvider
mock_chat messages tools m = (
  ok (record {
    type = assistant;
    content = label (response_key (lit "default") messages) m.responses;
    tool_calls = [];
    tool_call_id = [];
  }),
  record m { call_count = m.call_count + 1 },
)

-- `SetResponse` and `GetCallCount`
unfoldable pub set_response : Str → Str → MockProvider → MockProvider
set_response key response m = record m { responses = insert key response m.responses }

unfoldable pub get_call_count : MockProvider → ℕ
get_call_count m = m.call_count
