-- ===== src/Llm/Answered.antt =====
-- internal/llm/openai.go: what a request says, and where a reply of Chat comes from.
use mathlib.Core.Path.{ap₂, subst}
use kubeminds.Prelude.{◌≡◌, refl, List, [], ◌∷◌, map, if◌then◌else◌, inl, inr}
use kubeminds.Prelude.Bytes.{Str, lit, str_eq}
use kubeminds.Prelude.Errors.{Fallible, ok, err, Fallible-cases, err_ne_ok, ok-injective}
use kubeminds.Agent.Types.{MessageType, user, assistant, tool, system, Message, ToolCall, Tool}
use kubeminds.Llm.Attempts.{FromServer, attempts-FromServer}
use kubeminds.Llm.OpenAi.{
  api_error, request_of, ChatMessage, ToolDefinition, ChatRequest, Choice, Client, to_chat_message,
  to_tools, to_reply, send, chat,
}

-- What a message says, in either form.
pub data Spoken : Type 0 where
  by_user by_system : Str → Spoken
  by_assistant : Str → List ToolCall → Spoken
  by_tool : Str → Str → Spoken
  unclear : Spoken

-- What the agent means by a message of the conversation.
abbrev said_by : MessageType → Str → List ToolCall → Str → Spoken
said_by user content calls id = by_user content
said_by system content calls id = by_system content
said_by assistant content calls id = by_assistant content calls
said_by tool content calls id = by_tool id content

abbrev pub said : Message → Spoken
said m = said_by m.type m.content m.tool_calls m.tool_call_id

-- What the server reads in a message of a request, by its role: the calls of an assistant, and the
-- call that an output answers.
unfoldable pub heard : ChatMessage → Spoken
heard m =
    if str_eq m.role (lit "user")
    then by_user m.content
    else if str_eq m.role (lit "system")
    then by_system m.content
    else if str_eq m.role (lit "assistant")
    then by_assistant m.content m.tool_calls
    else if str_eq m.role (lit "tool")
    then by_tool m.tool_call_id m.content
    else unclear

heard-to_chat_message : (m : Message) → heard (to_chat_message m) ≡ said m
unfolding heard to_chat_message str_eq lit
heard-to_chat_message m = go m.type m.content m.tool_calls m.tool_call_id
  where
    go :
        (k : MessageType) (content : Str) (calls : List ToolCall) (id : Str)
        → heard (
            to_chat_message
              (record { type = k; content = content; tool_calls = calls; tool_call_id = id }))
          ≡ said_by k content calls id
    go user content calls id = refl
    go system content calls id = refl
    go assistant content calls id = refl
    go tool content calls id = refl

heard-request : (ms : List Message) → map heard (map to_chat_message ms) ≡ map said ms
heard-request [] = refl
heard-request (m ∷ ms) = ap₂ (λ x xs. x ∷ xs) (heard-to_chat_message m) (heard-request ms)

module _ {W : Type 0} (c : Client W) where
  -- The tools of a request are those on offer, in order, each with its schema as it decodes.
  unfoldable pub Offers : List (Tool W) → List ToolDefinition → Type 0
  Offers [] [] = Unit
  Offers [] (d ∷ ds) = ⊥
  Offers (t ∷ ts) [] = ⊥
  Offers (t ∷ ts) (d ∷ ds) =
      (d.name ≡ t.name)
      × (d.description ≡ t.description)
      × (c.raw_json t.schema ≡ ok d.parameters)
      × Offers ts ds

  to_tools-Offers :
      (ts : List (Tool W)) (ds : List ToolDefinition) → to_tools c ts ≡ ok ds → Offers ts ds
  unfolding Offers to_tools
  to_tools-Offers [] [] e = tt
  to_tools-Offers [] (d ∷ ds) e = cc
  to_tools-Offers (t ∷ ts) ds e = elim (Fallible-cases (c.raw_json t.schema)) [
    | inr (x, f) ↦ absurd (err_ne_ok (rw (f, to_tools) at e))
    | inl (params, f) ↦ elim (Fallible-cases (to_tools c ts)) [
      | inr (x, g) ↦ absurd (err_ne_ok (rw (f, g, to_tools) at e))
      | inl (rest, g) ↦
          subst (Offers (t ∷ ts)) (ok-injective (rw (f, g, to_tools) at e))
            (refl, refl, f, to_tools-Offers ts rest g)
    ]
  ]

  -- Where a reply comes from.
  pub record IsReply (model : Str) (messages : List Message) (tools : List (Tool W))
      (reply : Message) : Type 0 where
    pub request : ChatRequest
    pub asked : request.model ≡ model
    pub says : map heard request.messages ≡ map said messages
    pub offers : Offers tools request.tools
    pub world : W
    pub choice : Choice
    pub rest : List Choice
    pub answered : (c.create_chat_completion request world).0 ≡ ok (choice ∷ rest)
    pub read :
        (reply.type ≡ assistant)
        × (reply.content ≡ choice.content)
        × (reply.tool_calls ≡ choice.tool_calls)

  to_reply-IsReply :
      (model : Str) (messages : List Message) (tools : List (Tool W)) (ds : List ToolDefinition)
      (reply : Message) (r : Fallible (List Choice))
      → Offers tools ds
      → FromServer (c.create_chat_completion (request_of model messages ds)) c.wait (api_error c) r
      → to_reply c r ≡ ok reply
      → IsReply model messages tools reply
  unfolding to_reply
  to_reply-IsReply model messages tools ds reply (err e) o h q = cc
  to_reply-IsReply model messages tools ds reply (ok []) o h q = cc
  to_reply-IsReply model messages tools ds reply (ok (choice ∷ rest)) o h q =
      let (w, e) = h (choice ∷ rest) refl in
      record {
        request = request_of model messages ds;
        asked = refl;
        says = heard-request messages;
        offers = o;
        world = w;
        choice = choice;
        rest = rest;
        answered = e;
        read = (cc, cc, cc);
      }

  send-IsReply :
      (model : Str) (messages : List Message) (tools : List (Tool W))
      (r : Fallible (List ToolDefinition)) (w : W) (reply : Message)
      → to_tools c tools ≡ r
      → (send c model messages r w).0 ≡ ok reply
      → IsReply model messages tools reply
  unfolding send
  send-IsReply model messages tools (err e) w reply o q = cc
  send-IsReply model messages tools (ok ds) w reply o q =
      let req = request_of model messages ds in
      to_reply-IsReply model messages tools ds reply _ (to_tools-Offers tools ds o)
        (attempts-FromServer (c.create_chat_completion req) c.wait (api_error c) 2 0 w) q

-- A reply of the model is the first choice of the answer to a request to the configured model, from
-- which the whole conversation can be read back, message by message, with the roles, the texts, the
-- calls of the assistant and the call that an output answers, and which offers each tool with its
-- description and its decoded schema; its text and its tool calls are those of the choice.
pub chat-IsReply :
    {W : Type 0} (c : Client W) (model : Str) (messages : List Message) (tools : List (Tool W))
    (w : W) (reply : Message)
    → (chat c model messages tools w).0 ≡ ok reply
    → IsReply c model messages tools reply
unfolding chat
chat-IsReply c model messages tools w reply q =
    send-IsReply c model messages tools (to_tools c tools) w reply refl q
