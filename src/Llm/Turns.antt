-- ===== src/Llm/Turns.antt =====
-- internal/llm/anthropic.go: nothing of a conversation is lost on the way to Anthropic.
use mathlib.Core.List.{append-nil}
use kubeminds.Prelude.{◌≡◌, refl, ap, List, [], ◌∷◌, ◌++◌, Option, none, some, map}
use kubeminds.Prelude.Bytes.{Str}
use kubeminds.Agent.Types.{MessageType, user, assistant, tool, system, Message, ToolCall}
use kubeminds.Llm.Anthropic.{
  Input, ContentBlock, text_block, tool_use_block, tool_result_block, MessageParam, user_message,
  assistant_message, Anthropic, input_of, use_block, assistant_blocks, param_for, place,
  split_messages,
}

-- A call as the model sees it.
pub record Use (J : Type 0) : Type 0 where
  pub id : Str
  pub name : Str
  pub input : Input J

-- What a turn of the conversation says, in either form.
pub data Turn (J : Type 0) : Type 0 where
  by_user : Str → Turn J
  by_assistant : Str → List (Use J) → Turn J
  by_tool : Str → Str → Turn J

module _ {J : Type 0} where
  -- The turn that a parameter of the request stands for, read off its blocks.
  abbrev pub text_of : List (ContentBlock J) → Str
  text_of [] = []
  text_of (text_block t ∷ bs) = t ++ text_of bs
  text_of (_ ∷ bs) = text_of bs

  abbrev pub uses_of : List (ContentBlock J) → List (Use J)
  uses_of [] = []
  uses_of (tool_use_block id input name ∷ bs) =
      record { id = id; name = name; input = input } ∷ uses_of bs
  uses_of (_ ∷ bs) = uses_of bs

  abbrev pub read_param : MessageParam J → Turn J
  read_param (user_message (tool_result_block id content ∷ bs)) = by_tool id content
  read_param (user_message bs) = by_user (text_of bs)
  read_param (assistant_message bs) = by_assistant (text_of bs) (uses_of bs)

abbrev pub add : {A : Type 0} → Option A → List A → List A
add none xs = xs
add (some x) xs = x ∷ xs

module _ {J W : Type 0} (c : Anthropic J W) where
  abbrev pub use_of : ToolCall → Use J
  use_of tc = record {
    id = tc.id;
    name = tc.function.name;
    input = input_of c tc.function.arguments;
  }

  abbrev turn_for : MessageType → Str → List ToolCall → Str → Option (Turn J)
  turn_for system content calls id = none
  turn_for user content calls id = some (by_user content)
  turn_for assistant content calls id = some (by_assistant content (map use_of calls))
  turn_for tool content calls id = some (by_tool id content)

  abbrev system_text : MessageType → Str → Option Str
  system_text system content = some content
  system_text _ content = none

  -- The turns of a conversation, without the system messages, and the texts of these.
  abbrev pub turns : List Message → List (Turn J)
  turns [] = []
  turns (m ∷ ms) = add (turn_for m.type m.content m.tool_calls m.tool_call_id) (turns ms)

  abbrev pub system_texts : List Message → List Str
  system_texts [] = []
  system_texts (m ∷ ms) = add (system_text m.type m.content) (system_texts ms)

  text_of-uses : (tcs : List ToolCall) → text_of (map (use_block c) tcs) ≡ []
  text_of-uses [] = refl
  text_of-uses (tc ∷ tcs) = text_of-uses tcs

  uses_of-uses : (tcs : List ToolCall) → uses_of (map (use_block c) tcs) ≡ map use_of tcs
  uses_of-uses [] = refl
  uses_of-uses (tc ∷ tcs) = ap (λ us. use_of tc ∷ us) (uses_of-uses tcs)

  -- The blocks of a turn of the assistant say its text and its calls.
  read_param-assistant :
      (content : Str) (tcs : List ToolCall)
      → read_param (assistant_message (assistant_blocks c content tcs))
        ≡ by_assistant content (map use_of tcs)
  read_param-assistant content [] = rw append-nil refl
  read_param-assistant [] (tc ∷ tcs) = rw (text_of-uses tcs, uses_of-uses tcs) refl
  read_param-assistant (b ∷ bs) (tc ∷ tcs) =
      rw (text_of-uses tcs, uses_of-uses tcs, append-nil bs) refl

  -- One message more.
  place-turns :
      (k : MessageType) (content : Str) (calls : List ToolCall) (id : Str)
      (r : List Str × List (MessageParam J)) (ts : List (Turn J)) (ss : List Str)
      → map read_param r.1 ≡ ts
      → r.0 ≡ ss
      → let r' = place c content (param_for c k content calls id) r in
        (map read_param r'.1 ≡ add (turn_for k content calls id) ts)
        × (r'.0 ≡ add (system_text k content) ss)
  place-turns system content calls id r ts ss t s = (t, ap (λ xs. content ∷ xs) s)
  place-turns user content calls id r ts ss t s = (rw (append-nil content, t) refl, s)
  place-turns assistant content calls id r ts ss t s =
      (rw (read_param-assistant content calls, t) refl, s)
  place-turns tool content calls id r ts ss t s = (rw t refl, s)

-- The request to Anthropic says exactly what the conversation says: each message but those of the
-- system is one parameter, in order, from whose blocks the speaker, the text, the calls with their
-- identifiers, names and inputs, and the call that an output answers can be read back; the texts of
-- the system messages stand in order in the field for them. An input is the decoded value of the
-- arguments, or their text if they are no JSON.
pub split_messages-turns :
    {J W : Type 0} (c : Anthropic J W) (messages : List Message)
    → (map read_param (split_messages c messages).1 ≡ turns c messages)
      × ((split_messages c messages).0 ≡ system_texts c messages)
unfolding split_messages
split_messages-turns c [] = (refl, refl)
split_messages-turns c (m ∷ ms) =
    let (t, s) = split_messages-turns c ms in
    place-turns c m.type m.content m.tool_calls m.tool_call_id (split_messages c ms) _ _ t s
