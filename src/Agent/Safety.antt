-- ===== src/Agent/Safety.antt =====
-- What a run of the agent (internal/agent/engine.go) may do to the world outside.
use mathlib.Core.List.{Memᴰ}
use kubeminds.Prelude.{
  ℕ, ◌≡◌, ◌≢◌, refl, inl, inr, Bool, true, List, [], ◌∷◌, Option, none, some, arith, Option-cases,
  Bool-cases,
}
use kubeminds.Prelude.Bytes.{Str, str_eq, str_eq_sound}
use kubeminds.Crd.{Finding}
use kubeminds.Agent.Types.{
  Message, ToolCall, Tool, SafetyLevel, read_only, low_risk, high_risk, forbidden, other,
}
use kubeminds.Agent.Engine.{Runtime, BaseAgent}
use kubeminds.Agent.Rules.{Rule, run-Post}
use kubeminds.Agent.Loop.{
  Run, Flow, next, return, find_tool, Invocation, output, needs_approval, execute_tool,
  check_safety, invoke, notify, observe, settle, act, run,
}

module _ {W : Type 0} where
  -- A tool that a run may execute: one of its own, not forbidden, and approved if it is high-risk.
  pub record May (tools : List (Tool W)) (approved : Bool) (t : Tool W) : Type 0 where
    pub offered : Memᴰ t tools
    pub allowed : t.safety_level ≢ forbidden
    pub cleared : t.safety_level ≡ high_risk → approved ≡ true

  pub find_tool-mem :
      (name : Str) (tools : List (Tool W)) {t : Tool W}
      → find_tool name tools ≡ some t
      → Memᴰ t tools × (t.name ≡ name)
  unfolding find_tool
  find_tool-mem name [] e = cc
  find_tool-mem name (u ∷ tools) e = elim (Bool-cases (str_eq u.name name)) [
    | inl h ↦ (Memᴰ.head (ground arith), ground (arith, str_eq_sound u.name name))
    | inr h ↦ let (m, q) = find_tool-mem name tools (ground arith) in (Memᴰ.tail m, q)
  ]

module _ {W : Type 0} (rt : Runtime W) (a : BaseAgent W) (approved : Bool) (P : W → Type 0) where
  -- `P` is kept by all that a run may do: ask the context, the clock and the model, notify, and
  -- execute the tools that it may.
  pub record Keeps : Type 0 where
    pub keeps_done : (w : W) → P w → P (rt.done w).1
    pub keeps_now : (w : W) → P w → P (rt.now w).1
    pub keeps_chat : (ms : List Message) (w : W) → P w → P (a.llm ms a.tools w).1
    pub keeps_notify : (f : Option Finding) (entry : Str) (w : W) → P w → P (notify a f entry w)
    pub keeps_execute :
        (t : Tool W) (args : Str) (w : W) → May a.tools approved t → P w → P (t.execute args w).1

  -- The same but for the model.
  pub record KeepsActs : Type 0 where
    pub keeps_done : (w : W) → P w → P (rt.done w).1
    pub keeps_now : (w : W) → P w → P (rt.now w).1
    pub keeps_notify : (f : Option Finding) (entry : Str) (w : W) → P w → P (notify a f entry w)
    pub keeps_execute :
        (t : Tool W) (args : Str) (w : W) → May a.tools approved t → P w → P (t.execute args w).1

  Keeps-acts : Keeps → KeepsActs
  Keeps-acts k = record {
    keeps_done = k.keeps_done;
    keeps_now = k.keeps_now;
    keeps_notify = k.keeps_notify;
    keeps_execute = k.keeps_execute;
  }

  -- The world of a flow.
  abbrev pub Holds : Flow W → Type 0
  Holds (next s) = P s.world
  Holds (return _ s) = P s.world

  module _ (k : KeepsActs) where
    execute_tool-keeps :
        (t : Tool W) (args : Str) (w : W)
        → May a.tools approved t
        → P w
        → P (execute_tool t args w).1
    unfolding execute_tool
    execute_tool-keeps t args w m p = ground (arith, k.keeps_execute t args w m p)

    check_safety-keeps :
        (t : Tool W) (l : SafetyLevel) (args : Str) (w : W)
        → Memᴰ t a.tools
        → t.safety_level ≡ l
        → P w
        → P (check_safety l t approved args w).1
    unfolding check_safety
    check_safety-keeps t read_only args w m e p =
        execute_tool-keeps t args w (record { offered = m; allowed = λ q. cc; cleared = λ q. cc }) p
    check_safety-keeps t low_risk args w m e p =
        execute_tool-keeps t args w (record { offered = m; allowed = λ q. cc; cleared = λ q. cc }) p
    check_safety-keeps t (other l) args w m e p =
        execute_tool-keeps t args w (record { offered = m; allowed = λ q. cc; cleared = λ q. cc }) p
    check_safety-keeps t forbidden args w m e p = p
    check_safety-keeps t high_risk args w m e p = elim (Bool-cases approved) [
      | inl yes' ↦
          rw (yes', check_safety)
            (execute_tool-keeps t args w
              (record { offered = m; allowed = λ q. cc; cleared = λ _. yes' }) p)
      | inr no' ↦ rw (no', check_safety) p
    ]

    invoke-keeps : (call : ToolCall) (w : W) → P w → P (invoke a.tools approved call w).1
    unfolding invoke
    invoke-keeps call w p = elim (Option-cases (find_tool call.function.name a.tools)) [
      | inl e ↦ rw (e, invoke) p
      | inr (t, e) ↦
          rw (e, invoke)
            (check_safety-keeps t t.safety_level call.function.arguments w
              (find_tool-mem call.function.name a.tools e).0 refl p)
    ]

    observe-keeps :
        (step : ℕ) (call : ToolCall) (text : Str) (s : Run W)
        → P s.world
        → P (observe rt a approved step call text s).world
    unfolding observe
    observe-keeps step call text s p = k.keeps_notify _ _ _ (k.keeps_now s.world p)

    settle-keeps :
        (step : ℕ) (call : ToolCall) (i : Invocation) (s : Run W)
        → P s.world
        → Holds (settle rt a approved step call i s)
    unfolding settle
    settle-keeps step call (output text) s p = observe-keeps step call text s p
    settle-keeps step call (needs_approval name) s p = p

    pub act-keeps :
        (step : ℕ) (call : ToolCall) (s : Run W) → P s.world → Holds (act rt a approved step call s)
    unfolding act
    act-keeps step call s p = settle-keeps step call _ _ (invoke-keeps call s.world p)

  -- The rule at `P`, a property of the world alone.
  Keeps-Rule :
      Keeps
      → Rule rt a approved
          (λ _ s. P s.world)
          (λ _ s. P s.world)
          (λ _ _ s. P s.world)
          (λ _ s. P s.world)
  Keeps-Rule k = record {
    on_done = λ _ s p. k.keeps_done s.world p;
    on_cancel = λ _ s e h p w d. p;
    on_chat = λ _ s h p. k.keeps_chat _ s.world p;
    on_fail = λ _ s e p w d. p;
    on_notify = λ _ s entry p. k.keeps_notify none entry s.world p;
    on_conclude = λ _ s content entry p. k.keeps_notify none entry s.world p;
    on_request = λ _ s call calls p. p;
    on_act = λ step call calls s p. act-keeps (Keeps-acts k) step call s p;
    on_loop = λ _ s p e. p;
    on_next = λ _ s p. p;
    on_limit = λ s p. p;
  }

-- A property of the outside that asking the context, the clock and the model, the checkpoint
-- callback, and executing a tool that is offered to the agent, is not forbidden and, if it is
-- high-risk, runs under an approval, all keep, holds after a run if it held before.
pub run-keeps :
    {W : Type 0} (rt : Runtime W) (a : BaseAgent W) (approved : Bool) (P : W → Type 0)
    → Keeps rt a approved P
    → (goal : Str) (w : W) → P w
    → P (run rt a approved goal w).1.world
run-keeps rt a approved P k = run-Post rt a approved _ _ _ _ (Keeps-Rule rt a approved P k)
