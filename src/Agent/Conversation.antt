-- ===== src/Agent/Conversation.antt =====
-- The conversation and the answer of a run (internal/agent/engine.go), and the tools of an agent.
use mathlib.Core.List.{Memᴰ, append_assoc, append-nil}
use mathlib.Core.List.Memᴰ
use kubeminds.Prelude.{
  ℕ, ◌≡◌, ◌↔◌, refl, sym, ap, ◌∙◌, Bool, true, List, [], ◌∷◌, ◌++◌, arith, inl, inr, ◌⊎◌,
  Bool-cases, suc, ◌+◌, some,
}
use kubeminds.Prelude.Lists.{any, keep-mem, mem-keep}
use kubeminds.Prelude.Bytes.{Str, str_eq, str_eq_sound, str_eq_iff}
use kubeminds.Agent.Types.{
  Message, ToolCall, Tool, Result, cancelled, chat_failed, waiting_for_approval, loop_detected,
  exceeded_steps, MessageType, assistant,
}
use kubeminds.Agent.Memory.{
  add_user_message, add_assistant_message, add_tool_output, add_assistant_tool_call, get_history,
}
use kubeminds.Agent.RootCause.{extract_root_cause}
use kubeminds.Agent.Engine.{Runtime, BaseAgent, Outcome, concluded, aborted, available_tools}
use kubeminds.Agent.Repetition.{Repeats, detect_loop_iff}
use kubeminds.Prelude.Int.{rounds}
use kubeminds.Prelude.Errors.{err}
use kubeminds.Agent.Approval.{Waits, Explained, invoke-Explained}
use kubeminds.Agent.Rules.{Post, Rule, run-Post}
use kubeminds.Agent.Loop.{
  Run, Invocation, output, needs_approval, observe, settle, act, last_tool, goal_message, run,
}

-- The second conversation goes on where the first ends.
pub record Extends (m n : List Message) : Type 0 where
  pub added : List Message
  pub split : n ≡ m ++ added

Extends-append : (m n : List Message) (x : Message) → Extends m n → Extends m (n ++ x ∷ [])
Extends-append m n x e = record {
  added = e.added ++ x ∷ [];
  split = ap (λ l. l ++ x ∷ []) e.split ∙ append_assoc m e.added (x ∷ []);
}

-- The turns of the model in a conversation.
abbrev turn_of : MessageType → ℕ
turn_of assistant = 1
turn_of _ = 0

abbrev pub turns_in : List Message → ℕ
turns_in [] = 0
turns_in (m ∷ ms) = turn_of m.type + turns_in ms

turns_in-append :
    (ms : List Message) (x : Message) → turns_in (ms ++ x ∷ []) ≡ turns_in ms + turn_of x.type
turns_in-append [] x = omega arith
turns_in-append (m ∷ ms) x = omega (arith, turns_in-append ms x)

module _ {W : Type 0} (rt : Runtime W) (a : BaseAgent W) (approved : Bool) (m : List Message) where
  -- What the outcome of a run that starts with a conversation says of the state that it leaves.
  pub data Explains : Outcome → Run W → Type 0 where
    answered :
        {s : Run W} {r : Result} (content : Str) (before : List Message)
        → s.memory ≡ add_assistant_message content before
        → r ≡ extract_root_cause rt.fold content
        → Explains (concluded r) s
    cut_off :
        {s : Run W} {e : Str} (w : W)
        → rt.done w ≡ (some e, s.world)
        → Explains (aborted (cancelled e)) s
    no_reply :
        {s : Run W} {e : Str} (w : W)
        → a.llm (get_history s.memory) a.tools w ≡ (err e, s.world)
        → Explains (aborted (chat_failed e)) s
    held :
        {s : Run W} {name : Str}
        → Waits rt a approved name
        → Explains (aborted (waiting_for_approval name)) s
    repeated :
        {s : Run W} {name : Str}
        → Repeats s.recent_findings
        → name ≡ last_tool s.recent_findings
        → Explains (aborted (loop_detected name)) s
    used_up :
        {s : Run W}
        → turns_in s.memory ≡ turns_in m + rounds a.max_steps
        → Explains (aborted (exceeded_steps a.max_steps)) s

  -- The conversation has gone on, by as many turns of the model as there were steps.
  abbrev Grows : ℕ → Run W → Type 0
  Grows n s = Extends m s.memory × (turns_in s.memory ≡ turns_in m + n)

  abbrev Ends : Outcome → Run W → Type 0
  Ends o s = Extends m s.memory × Explains o s

  settle-Post :
      (step : ℕ) (call : ToolCall) (calls : List ToolCall) (i : Invocation) (s : Run W)
      → Explained rt a approved i
      → Grows (suc step) s
      → Post rt a approved Grows Grows
          (λ n _. Grows (suc n))
          Ends
          step
          calls
          (settle rt a approved step call i s)
  unfolding settle observe add_tool_output Explained
  settle-Post step call calls (output text) s h (p, n) =
      (Extends-append m s.memory _ p, omega (arith, turns_in-append s.memory))
  settle-Post step call calls (needs_approval name) s h (p, n) = (p, held (h name refl))

  Conversation-Rule : Rule rt a approved Grows Grows (λ n _. Grows (suc n)) Ends
  unfolding act add_assistant_message add_assistant_tool_call
  Conversation-Rule = record {
    on_done = λ _ s p. p;
    on_cancel = λ _ s e h p w d. (p.0, cut_off w d);
    on_chat = λ _ s h p. p;
    on_fail = λ _ s e p w d. (p.0, no_reply w d);
    on_notify = λ _ s entry p. p;
    on_conclude = λ _ s content entry p.
        (Extends-append m s.memory _ p.0, answered content s.memory refl refl);
    on_request = λ _ s call calls p.
        (Extends-append m s.memory _ p.0, omega (arith, p, turns_in-append s.memory));
    on_act = λ step call calls s p.
        settle-Post step call calls _ _ (invoke-Explained rt a approved call s.world) p;
    on_loop = λ _ s p e. (p.0, repeated ((detect_loop_iff s.recent_findings).0 e) refl);
    on_next = λ _ s p. p;
    on_limit = λ s p. (p.0, used_up p.1);
  }

-- After a run the conversation goes on from the agent's memory and the goal, with nothing dropped, and
-- its outcome is explained: a conclusion is read off the last message; a cancellation is the error of
-- the context, and a failed chat that of the model asked with the conversation as it is left; a run
-- that waits was not approved, and one of the agent's tools of that name is high-risk; loop detection
-- means that the findings end in three of the same call, with the tool's name reported; and the step
-- error means that the model has had as many turns as the limit.
pub run-Explains :
    {W : Type 0} (rt : Runtime W) (a : BaseAgent W) (approved : Bool) (goal : Str) (w : W)
    → let (o, s) = run rt a approved goal w in
      let start = add_user_message (goal_message goal) a.memory in
      Extends start s.memory × Explains rt a approved start o s
run-Explains rt a approved goal w =
    run-Post rt a approved _ _ _ _ (Conversation-Rule rt a approved _) goal w
      (record { added = []; split = sym (append-nil _) }, omega arith)

any-mem : (x : Str) (names : List Str) → any (λ name. str_eq name x) names ≡ true → Memᴰ x names
any-mem x [] e = cc
any-mem x (n ∷ names) e = elim (Bool-cases (str_eq n x)) [
  | inl h ↦ Memᴰ.head (sym (str_eq_sound n x h))
  | inr h ↦ Memᴰ.tail (any-mem x names (ground arith))
]

mem-any : (x : Str) (names : List Str) → Memᴰ x names → any (λ name. str_eq name x) names ≡ true
mem-any x [] m = absurd (Memᴰ.not-nil m)
mem-any x (n ∷ names) m = elim (Memᴰ.cases_cons m) [
  | inl e ↦ ground (arith, (str_eq_iff n x).1 (sym e))
  | inr t ↦ ground (arith, mem-any x names t)
]

-- An agent has exactly those tools that its skill names, or all if the skill names none.
pub available_tools_iff :
    {W : Type 0} (allowed : List Str) (tools : List (Tool W)) (t : Tool W)
    → Memᴰ t (available_tools allowed tools)
      ↔ (Memᴰ t tools × ((allowed ≡ []) ⊎ Memᴰ t.name allowed))
unfolding available_tools
available_tools_iff [] tools t = (λ m. (m, inl refl), λ h. h.0)
available_tools_iff (n ∷ ns) tools t = (
  λ m. let (i, e) = mem-keep _ tools m in (i, inr (any-mem t.name (n ∷ ns) e)),
  λ h.
      keep-mem _ tools h.0
        (elim h.1 [ inl e ↦ absurd (cons_ne_nil e) | inr m ↦ mem-any t.name (n ∷ ns) m ]),
)
  where
    cons_ne_nil : n ∷ ns ≡ [] → ⊥
    cons_ne_nil e = cc
