-- ===== src/Llm/OpenAi.antt =====
-- internal/llm/openai.go: the provider over the OpenAI protocol. The HTTP client, the timer and the
-- JSON decoder are outside. Times are milliseconds.
use kubeminds.Prelude.{ℕ, List, [], ◌∷◌, ◌++◌, Option, map}
use kubeminds.Prelude.Bytes.{Str, lit}
use kubeminds.Prelude.Errors.{Fallible, ok, err}
use kubeminds.Llm.Backoff.{attempts}
use kubeminds.Agent.Types.{
  MessageType, user, assistant, tool, system, Message, ToolCall, Tool, LlmProvider,
}

-- `openai.ChatCompletionMessage`, `openai.Tool` and `openai.ChatCompletionRequest`, of the fields
-- that are set. A call has the fields of `ToolCall`, and its type is always that of a function.
pub record ChatMessage : Type 0 where
  pub role : Str
  pub content : Str
  pub tool_calls : List ToolCall
  pub tool_call_id : Str

pub record ToolDefinition : Type 0 where
  pub name : Str
  pub description : Str
  pub parameters : Str

pub record ChatRequest : Type 0 where
  pub model : Str
  pub messages : List ChatMessage
  pub tools : List ToolDefinition

-- A choice of the response: its content and its calls.
pub record Choice : Type 0 where
  pub content : Str
  pub tool_calls : List ToolCall

-- The client: one request, the wait of the retry loop (which the context may end with an error),
-- and `json.Unmarshal` of a schema to a raw message.
pub record Client (W : Type 0) : Type 0 where
  pub create_chat_completion : ChatRequest → W → Fallible (List Choice) × W
  pub wait : ℕ → W → Option Str × W
  pub raw_json : Str → Fallible Str

unfoldable pub role_of : MessageType → Str
unfolding lit
role_of user = lit "user"
role_of assistant = lit "assistant"
role_of tool = lit "tool"
role_of system = lit "system"

abbrev calls_for : MessageType → List ToolCall → List ToolCall
calls_for assistant calls = calls
calls_for _ calls = []

abbrev id_for : MessageType → Str → Str
id_for tool id = id
id_for _ id = []

unfoldable pub to_chat_message : Message → ChatMessage
unfolding role_of
to_chat_message m = record {
  role = role_of m.type;
  content = m.content;
  tool_calls = calls_for m.type m.tool_calls;
  tool_call_id = id_for m.type m.tool_call_id;
}

abbrev pub request_of : Str → List Message → List ToolDefinition → ChatRequest
request_of model messages definitions = record {
  model = model;
  messages = map to_chat_message messages;
  tools = definitions;
}

module _ {W : Type 0} (c : Client W) where
  unfoldable pub to_tools : List (Tool W) → Fallible (List ToolDefinition)
  unfolding lit
  to_tools [] = ok []
  to_tools (t ∷ ts) =
      let rest = to_tools ts in
      elim (c.raw_json t.schema) [
        | err e ↦ err (lit "failed to unmarshal tool schema for " ++ (t.name ++ (lit ": " ++ e)))
        | ok params ↦ elim rest [
          | err e ↦ err e
          | ok ds ↦
              ok (record { name = t.name; description = t.description; parameters = params } ∷ ds)
        ]
      ]

  abbrev pub api_error : Str → Str
  api_error e = lit "openai api error: " ++ e

  -- The first choice as the assistant's message.
  unfoldable pub to_reply : Fallible (List Choice) → Fallible Message
  unfolding lit
  to_reply (err e) = err e
  to_reply (ok []) = err (lit "no choices returned from openai")
  to_reply (ok (choice ∷ choices)) = ok (record {
    type = assistant;
    content = choice.content;
    tool_calls = choice.tool_calls;
    tool_call_id = [];
  })

  unfoldable pub send :
      Str → List Message → Fallible (List ToolDefinition) → W → Fallible Message × W
  unfolding to_chat_message attempts to_reply
  send model messages (err e) w = (err e, w)
  send model messages (ok definitions) w =
      let (response, w') =
        attempts (c.create_chat_completion (request_of model messages definitions)) c.wait api_error
          2 0 w in
      (to_reply response, w')

  -- `Chat`
  unfoldable pub chat : Str → LlmProvider W
  unfolding send to_tools
  chat model messages tools w = send model messages (to_tools tools) w
