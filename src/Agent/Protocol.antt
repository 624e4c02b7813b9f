-- ===== src/Agent/Protocol.antt =====
-- The protocol of tool calls in the conversation of a run (internal/agent/engine.go and memory.go).
use kubeminds.Prelude.{ℕ, ◌≡◌, ◌⊎◌, refl, inl, inr, Bool, List, [], ◌∷◌, ◌++◌, none}
use kubeminds.Prelude.Bytes.{Str}
use kubeminds.Agent.Types.{user, assistant, tool, Message, ToolCall, waiting_for_approval}
use kubeminds.Agent.Memory.{
  add_user_message, add_assistant_message, add_tool_output, add_assistant_tool_call,
}
use kubeminds.Agent.Engine.{Runtime, BaseAgent, Outcome, aborted}
use kubeminds.Agent.Rules.{Post, Rule, run-Post}
use kubeminds.Agent.Safety.{KeepsActs, Holds, act-keeps}
use kubeminds.Agent.Loop.{
  Run, Invocation, output, needs_approval, observe, settle, act, goal_message, run,
}

-- A conversation in which each request for tool calls is followed by their outputs, one for each
-- call, under its identifier and in order, but for the last calls, which are still owed.
pub data Owes : List Message → List ToolCall → Type 0 where
  empty : Owes [] []
  speaks :
      {ms ns : List Message} (m : Message)
      → Owes ms []
      → (m.type ≡ user) ⊎ (m.type ≡ assistant)
      → m.tool_calls ≡ []
      → ns ≡ ms ++ m ∷ []
      → Owes ns []
  requests :
      {ms ns : List Message} {calls : List ToolCall} (m : Message)
      → Owes ms []
      → m.type ≡ assistant
      → m.tool_calls ≡ calls
      → ns ≡ ms ++ m ∷ []
      → Owes ns calls
  answers :
      {ms ns : List Message} {call : ToolCall} {calls : List ToolCall} (m : Message)
      → Owes ms (call ∷ calls)
      → m.type ≡ tool
      → m.tool_call_id ≡ call.id
      → ns ≡ ms ++ m ∷ []
      → Owes ns calls

pub add_user_message-Owes :
    (text : Str) (ms : List Message) → Owes ms [] → Owes (add_user_message text ms) []
unfolding add_user_message
add_user_message-Owes text ms h = speaks _ h (inl refl) refl refl

add_assistant_message-Owes :
    (text : Str) (ms : List Message) → Owes ms [] → Owes (add_assistant_message text ms) []
unfolding add_assistant_message
add_assistant_message-Owes text ms h = speaks _ h (inr refl) refl refl

add_assistant_tool_call-Owes :
    (calls : List ToolCall) (ms : List Message)
    → Owes ms []
    → Owes (add_assistant_tool_call calls ms) calls
unfolding add_assistant_tool_call
add_assistant_tool_call-Owes calls ms h = requests _ h refl refl refl

add_tool_output-Owes :
    (call : ToolCall) (calls : List ToolCall) (text : Str) (ms : List Message)
    → Owes ms (call ∷ calls)
    → Owes (add_tool_output call.id text ms) calls
unfolding add_tool_output
add_tool_output-Owes call calls text ms h = answers _ h refl refl refl

module _ {W : Type 0} where
  -- What the run leaves: a conversation in which nothing is owed, or, where it waits for an approval,
  -- one that stops before the output of a call.
  pub data Left (o : Outcome) (s : Run W) : Type 0 where
    settled : Owes s.memory [] → Left o s
    held :
        (name : Str) (call : ToolCall) (calls : List ToolCall)
        → o ≡ aborted (waiting_for_approval name)
        → Owes s.memory (call ∷ calls)
        → Left o s

module _ {W : Type 0} (rt : Runtime W) (a : BaseAgent W) (approved : Bool) (P : W → Type 0) where
  -- `P` is kept by a question to the model with a conversation in which nothing is owed.
  pub record Asks : Type 0 where
    pub acts : KeepsActs rt a approved P
    pub keeps_chat : (ms : List Message) (w : W) → Owes ms [] → P w → P (a.llm ms a.tools w).1

  abbrev Open : List ToolCall → Run W → Type 0
  Open calls s = P s.world × Owes s.memory calls

  abbrev Ends : Outcome → Run W → Type 0
  Ends o s = P s.world × Left o s

  settle-Post :
      (step : ℕ) (call : ToolCall) (calls : List ToolCall) (i : Invocation) (s : Run W)
      → Holds rt a approved P (settle rt a approved step call i s)
      → Owes s.memory (call ∷ calls)
      → Post rt a approved
          (λ _. Open [])
          (λ _. Open [])
          (λ _. Open)
          Ends
          step
          calls
          (settle rt a approved step call i s)
  unfolding settle observe
  settle-Post step call calls (output text) s p h =
      (p, add_tool_output-Owes call calls text s.memory h)
  settle-Post step call calls (needs_approval name) s p h = (p, held name call calls refl h)

  Asks-Rule : Asks → Rule rt a approved (λ _. Open []) (λ _. Open []) (λ _. Open) Ends
  unfolding act
  Asks-Rule k = record {
    on_done = λ _ s p. (k.acts.keeps_done s.world p.0, p.1);
    on_cancel = λ _ s e h p w d. (p.0, settled p.1);
    on_chat = λ _ s h p. (k.keeps_chat s.memory s.world p.1 p.0, p.1);
    on_fail = λ _ s e p w d. (p.0, settled p.1);
    on_notify = λ _ s entry p. (k.acts.keeps_notify none entry s.world p.0, p.1);
    on_conclude = λ _ s content entry p. (
      k.acts.keeps_notify none entry s.world p.0,
      settled (add_assistant_message-Owes content s.memory p.1),
    );
    on_request =
        λ _ s call calls p. (p.0, add_assistant_tool_call-Owes (call ∷ calls) s.memory p.1);
    on_act = λ step call calls s p.
        settle-Post step call calls _ _ (act-keeps rt a approved P k.acts step call s p.0) p.1;
    on_loop = λ _ s p e. (p.0, settled p.1);
    on_next = λ _ s p. p;
    on_limit = λ s p. (p.0, settled p.1);
  }

-- The model is asked only with conversations in which every tool call of an earlier answer has its
-- output, under the identifier of the call and in order, right after the answer: what such questions
-- keep, and what asking the context and the clock, the callback and the tools that may run keep, a run
-- keeps. After it no call is left without its output, but where the run waits for an approval. It
-- holds for an agent whose memory is such a conversation.
pub run-Asks :
    {W : Type 0} (rt : Runtime W) (a : BaseAgent W) (approved : Bool) (P : W → Type 0)
    → Asks rt a approved P
    → Owes a.memory []
    → (goal : Str) (w : W) → P w
    → let (o, s) = run rt a approved goal w in P s.world × Left o s
run-Asks rt a approved P k h goal w p =
    run-Post rt a approved _ _ _ _ (Asks-Rule rt a approved P k) goal w
      (p, add_user_message-Owes (goal_message goal) a.memory h)
