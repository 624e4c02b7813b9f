-- ===== src/Examples/Messages.antt =====
-- A conversation with Anthropic, with a tool call and its output (internal/llm/anthropic.go). JSON
-- values are their texts here.
use kubeminds.Prelude.{ℕ, ◌+◌, ◌≡◌, refl, ap, List, [], ◌∷◌, none, map}
use kubeminds.Prelude.Bytes.{Str, lit}
use kubeminds.Prelude.Errors.{ok, err}
use kubeminds.Agent.Types.{user, assistant, tool, system, MessageType, Message, ToolCall}
use kubeminds.Llm.Anthropic.{
  Anthropic, text, tool_use, other, split_messages, anthropic_chat, send_params, convert_tools,
  call_with_retry, convert_response, read_blocks,
}
use kubeminds.Llm.Backoff.{attempts}
use kubeminds.Llm.Turns.{read_param, turns, system_texts, split_messages-turns}
use kubeminds.Llm.Replies.{IsReply, anthropic_chat-IsReply}

abbrev claude : Anthropic Str ℕ
claude = record {
  new_message = λ params w. (
    ok (
        text []
        ∷ text (lit "Looking.")
        ∷ other
        ∷ text (lit "Wait.")
        ∷ tool_use (lit "t2") (lit "get_pod_spec") (lit "{}")
        ∷ []),
    w + 1,
  );
  wait = λ d w. (none, w);
  unmarshal = λ s. ok s;
  unmarshal_schema = λ s. err s;
  marshal = λ v. ok v;
  quote = λ s. s;
}

abbrev call : Str → Str → ToolCall
call id name = record { id = id; function = record { name = name; arguments = lit "{}" } }

abbrev says : MessageType → Str → List ToolCall → Str → Message
says type content calls id = record {
  type = type;
  content = content;
  tool_calls = calls;
  tool_call_id = id;
}

abbrev talk : List Message
talk =
    says system (lit "You are an SRE.") [] []
    ∷ says user (lit "why?") [] []
    ∷ says assistant [] (call (lit "t1") (lit "get_pod_logs") ∷ []) []
    ∷ says tool (lit "no logs") [] (lit "t1")
    ∷ []

split_messages-turns_example :
    (map read_param (split_messages claude talk).1 ≡ turns claude talk)
    × ((split_messages claude talk).0 ≡ system_texts claude talk)
split_messages-turns_example = split_messages-turns claude talk

abbrev answer : Message
answer = says assistant (lit "Looking.\nWait.") (call (lit "t2") (lit "get_pod_spec") ∷ []) []

answers : anthropic_chat claude (lit "m") talk [] 0 ≡ (ok answer, 1)
unfolding anthropic_chat send_params convert_tools call_with_retry attempts convert_response
    read_blocks
answers = refl

anthropic_chat-IsReply_example : IsReply claude (lit "m") talk [] answer
anthropic_chat-IsReply_example =
    anthropic_chat-IsReply claude (lit "m") talk [] 0 answer (ap (λ p. p.0) answers)
