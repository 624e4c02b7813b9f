-- ===== src/Llm/Anthropic.antt =====
-- internal/llm/anthropic.go: the provider over the Messages API of Anthropic. The HTTP client, the
-- timer and the JSON library are outside; `J` is the type of decoded JSON values.
use kubeminds.Prelude.{ℕ, List, [], ◌∷◌, ◌++◌, Option, none, some, map}
use kubeminds.Prelude.Bytes.{Str, lit}
use kubeminds.Prelude.Errors.{Fallible, ok, err, ◌>>=◌, wrap}
use kubeminds.Agent.Types.{
  MessageType, user, assistant, tool, system, Message, ToolCall, Tool, LlmProvider,
}
use kubeminds.Llm.Backoff.{attempts}

-- `defaultMaxTokens`
abbrev pub default_max_tokens : ℕ
default_max_tokens = 4096

-- The input of a tool call: a decoded value, or the text as it is.
pub data Input (J : Type 0) : Type 0 where
  decoded : J → Input J
  raw : Str → Input J

-- `anthropic.ContentBlockParamUnion`, of the blocks that are sent.
pub data ContentBlock (J : Type 0) : Type 0 where
  text_block : Str → ContentBlock J
  tool_use_block : Str → Input J → Str → ContentBlock J
  tool_result_block : Str → Str → ContentBlock J

-- `anthropic.MessageParam`, made by NewUserMessage or NewAssistantMessage.
pub data MessageParam (J : Type 0) : Type 0 where
  user_message : List (ContentBlock J) → MessageParam J
  assistant_message : List (ContentBlock J) → MessageParam J

-- `anthropic.ToolParam`: its properties and the required ones are parts of the decoded schema.
pub record ToolParam (J : Type 0) : Type 0 where
  pub name : Str
  pub description : Str
  pub properties : J
  pub required : List Str

pub record NewParams (J : Type 0) : Type 0 where
  pub model : Str
  pub max_tokens : ℕ
  pub messages : List (MessageParam J)
  pub system : List Str
  pub tools : List (ToolParam J)

-- A block of the response.
pub data ResponseBlock (J : Type 0) : Type 0 where
  text : Str → ResponseBlock J
  tool_use : Str → Str → J → ResponseBlock J
  other : ResponseBlock J

-- One request, the wait of the retry loop, `json.Unmarshal` to any value and to the two parts of a
-- schema, `json.Marshal`, and `%q`.
pub record Anthropic (J W : Type 0) : Type 0 where
  pub new_message : NewParams J → W → Fallible (List (ResponseBlock J)) × W
  pub wait : ℕ → W → Option Str × W
  pub unmarshal : Str → Fallible J
  pub unmarshal_schema : Str → Fallible (J × List Str)
  pub marshal : J → Fallible Str
  pub quote : Str → Str

module _ {J W : Type 0} (c : Anthropic J W) where
  -- Arguments that are no JSON are passed as text.
  abbrev input_or_raw : Str → Fallible J → Input J
  input_or_raw arguments (ok v) = decoded v
  input_or_raw arguments (err e) = raw arguments

  abbrev pub input_of : Str → Input J
  input_of arguments = input_or_raw arguments (c.unmarshal arguments)

  abbrev pub use_block : ToolCall → ContentBlock J
  use_block tc = tool_use_block tc.id (input_of tc.function.arguments) tc.function.name

  -- The text of a turn with calls, if it has any.
  abbrev pub text_if_any : Str → List (ContentBlock J)
  text_if_any [] = []
  text_if_any (b ∷ bs) = text_block (b ∷ bs) ∷ []

  abbrev pub assistant_blocks : Str → List ToolCall → List (ContentBlock J)
  assistant_blocks content [] = text_block content ∷ []
  assistant_blocks content (tc ∷ tcs) = text_if_any content ++ map use_block (tc ∷ tcs)

  -- The parameter for a message; `none` for a system message.
  abbrev pub param_for : MessageType → Str → List ToolCall → Str → Option (MessageParam J)
  param_for system content calls id = none
  param_for user content calls id = some (user_message (text_block content ∷ []))
  param_for assistant content calls id = some (assistant_message (assistant_blocks content calls))
  param_for tool content calls id = some (user_message (tool_result_block id content ∷ []))

  -- A system message goes to the first list, the others to the second.
  abbrev pub place :
      Str
      → Option (MessageParam J)
      → List Str × List (MessageParam J)
      → List Str × List (MessageParam J)
  place content none (blocks, messages) = (content ∷ blocks, messages)
  place content (some p) (blocks, messages) = (blocks, p ∷ messages)

  -- The loop over the conversation.
  unfoldable pub split_messages : List Message → List Str × List (MessageParam J)
  split_messages [] = ([], [])
  split_messages (m ∷ ms) =
      place m.content (param_for m.type m.content m.tool_calls m.tool_call_id) (split_messages ms)

  -- `convertTools`
  unfoldable pub convert_tools : List (Tool W) → Fallible (List (ToolParam J))
  convert_tools [] = ok []
  convert_tools (t ∷ ts) =
      let rest = convert_tools ts in
      (do
        schema ←
            wrap (lit "failed to parse schema for tool " ++ (c.quote t.name ++ lit ": "))
              (c.unmarshal_schema t.schema)
        params ← rest
        ok (
            record {
              name = t.name;
              description = t.description;
              properties = schema.0;
              required = schema.1;
            }
            ∷ params))

  -- `result.Content` with one more text block.
  abbrev pub add_text : Str → Str → Str
  add_text [] t = t
  add_text (b ∷ bs) t = (b ∷ bs) ++ (lit "\n" ++ t)

  -- The loop of `convertResponse`, on the content and the calls so far.
  unfoldable pub read_blocks : Str → List ToolCall → List (ResponseBlock J) → Fallible Message
  read_blocks content calls [] =
      ok (record { type = assistant; content = content; tool_calls = calls; tool_call_id = [] })
  read_blocks content calls (text t ∷ bs) = read_blocks (add_text content t) calls bs
  read_blocks content calls (tool_use id name input ∷ bs) = elim (c.marshal input) [
    | err e ↦ err (
        lit "anthropic: failed to marshal tool_use input for " ++ (c.quote name ++ (lit ": " ++ e)))
    | ok arguments ↦
        read_blocks content
          (calls
            ++ record { id = id; function = record { name = name; arguments = arguments } } ∷ [])
          bs
  ]
  read_blocks content calls (other ∷ bs) = read_blocks content calls bs

  -- `convertResponse`
  unfoldable pub convert_response : List (ResponseBlock J) → Fallible Message
  convert_response blocks = read_blocks [] [] blocks

  -- `callWithRetry`: the last error is returned as it is.
  abbrev pub as_it_is : Str → Str
  as_it_is e = e

  unfoldable pub call_with_retry : NewParams J → W → Fallible (List (ResponseBlock J)) × W
  call_with_retry params w = attempts (c.new_message params) c.wait as_it_is 2 0 w

  abbrev pub params_of : Str → List Message → List (ToolParam J) → NewParams J
  params_of model messages tools = record {
    model = model;
    max_tokens = default_max_tokens;
    messages = (split_messages messages).1;
    system = (split_messages messages).0;
    tools = tools;
  }

  abbrev pub reply_of : Fallible (List (ResponseBlock J)) → Fallible Message
  reply_of (err e) = err (lit "anthropic api error: " ++ e)
  reply_of (ok blocks) = convert_response blocks

  unfoldable pub send_params :
      Str → List Message → Fallible (List (ToolParam J)) → W → Fallible Message × W
  send_params model messages (err e) w = (err (lit "anthropic: failed to convert tools: " ++ e), w)
  send_params model messages (ok tools) w =
      let (response, w') = call_with_retry (params_of model messages tools) w in
      (reply_of response, w')

  -- `Chat`
  unfoldable pub anthropic_chat : Str → LlmProvider W
  anthropic_chat model messages tools w = send_params model messages (convert_tools tools) w
