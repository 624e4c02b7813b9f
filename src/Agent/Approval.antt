-- ===== src/Agent/Approval.antt =====
-- When a run of the agent (internal/agent/engine.go) stops to wait for an approval.
use mathlib.Core.List.{Memᴰ}
use kubeminds.Prelude.{List, ℕ, ◌≡◌, ◌≢◌, refl, inl, inr, Bool, true, false, arith, Option-cases}
use kubeminds.Prelude.Bytes.{Str}
use kubeminds.Agent.Types.{
  ToolCall, Tool, SafetyLevel, read_only, low_risk, high_risk, forbidden, other,
  waiting_for_approval,
}
use kubeminds.Agent.Engine.{Runtime, BaseAgent, Outcome, aborted}
use kubeminds.Agent.Rules.{Post, Rule, run-Post}
use kubeminds.Agent.Loop.{
  Run, find_tool, Invocation, output, needs_approval, execute_tool, check_safety, invoke, settle,
  act, run,
}
use kubeminds.Agent.Safety.{find_tool-mem}

module _ {W : Type 0} where
  -- Execution itself never asks for an approval.
  execute_tool-ne :
      (t : Tool W) (args : Str) (w : W) (name : Str)
      → (execute_tool t args w).0 ≢ needs_approval name
  unfolding execute_tool
  execute_tool-ne t args w name = ground arith

  high_risk-refused :
      (t : Tool W) (approved : Bool) (args : Str) (w : W) (name : Str)
      → (check_safety high_risk t approved args w).0 ≡ needs_approval name
      → (approved ≡ false) × (t.name ≡ name)
  unfolding check_safety
  high_risk-refused t true args w name q = absurd (execute_tool-ne t args w name q)
  high_risk-refused t false args w name q = (refl, ground arith)

module _ {W : Type 0} (rt : Runtime W) (a : BaseAgent W) (approved : Bool) where
  -- Why a run waits: it had no approval, and one of its tools, of that name, is high-risk.
  pub record Waits (name : Str) : Type 0 where
    pub unapproved : approved ≡ false
    pub tool : Tool W
    pub offered : Memᴰ tool a.tools
    pub risky : tool.safety_level ≡ high_risk
    pub named : tool.name ≡ name

  abbrev pub Justified : Outcome → Type 0
  Justified o = (name : Str) → o ≡ aborted (waiting_for_approval name) → Waits name

  unfoldable pub Explained : Invocation → Type 0
  Explained i = (name : Str) → i ≡ needs_approval name → Waits name

  execute_tool-Explained : (t : Tool W) (args : Str) (w : W) → Explained (execute_tool t args w).0
  unfolding Explained
  execute_tool-Explained t args w name e = absurd (execute_tool-ne t args w name e)

  check_safety-Explained :
      (t : Tool W) (l : SafetyLevel) (args : Str) (w : W)
      → Memᴰ t a.tools
      → t.safety_level ≡ l
      → Explained (check_safety l t approved args w).0
  unfolding check_safety Explained
  check_safety-Explained t read_only args w m e = execute_tool-Explained t args w
  check_safety-Explained t low_risk args w m e = execute_tool-Explained t args w
  check_safety-Explained t (other l) args w m e = execute_tool-Explained t args w
  check_safety-Explained t forbidden args w m e = λ name q. cc
  check_safety-Explained t high_risk args w m e = λ name q.
      let (n, same) = high_risk-refused t approved args w name q in
      record { unapproved = n; tool = t; offered = m; risky = e; named = same }

  pub invoke-Explained : (call : ToolCall) (w : W) → Explained (invoke a.tools approved call w).0
  unfolding invoke Explained
  invoke-Explained call w = elim (Option-cases (find_tool call.function.name a.tools)) [
    | inl e ↦ rw (e, invoke) (λ name q. cc)
    | inr (t, e) ↦
        rw (e, invoke)
          (check_safety-Explained t t.safety_level call.function.arguments w
            (find_tool-mem call.function.name a.tools e).0 refl)
  ]

  settle-Justified :
      (step : ℕ) (call : ToolCall) (calls : List ToolCall) (i : Invocation) (s : Run W)
      → Explained i
      → Post rt a approved
          (λ _ _. Unit {0})
          (λ _ _. Unit {0})
          (λ _ _ _. Unit {0})
          (λ o _. Justified o)
          step
          calls
          (settle rt a approved step call i s)
  unfolding settle Explained
  settle-Justified step call calls (output text) s h = tt
  settle-Justified step call calls (needs_approval name) s h = λ n e. h n (ground arith)

  Justified-Rule :
      Rule rt a approved
        (λ _ _. Unit {0})
        (λ _ _. Unit {0})
        (λ _ _ _. Unit {0})
        (λ o _. Justified o)
  unfolding act
  Justified-Rule = record {
    on_done = λ _ s p. tt;
    on_cancel = λ _ s e h p w d name q. cc;
    on_chat = λ _ s h p. tt;
    on_fail = λ _ s e p w d name q. cc;
    on_notify = λ _ s entry p. tt;
    on_conclude = λ _ s content entry p name q. cc;
    on_request = λ _ s call calls p. tt;
    on_act =
        λ step call calls s p. settle-Justified step call calls _ _ (invoke-Explained call s.world);
    on_loop = λ _ s p e name q. cc;
    on_next = λ _ s p. tt;
    on_limit = λ s p name q. cc;
  }

-- If a run stops to wait for the approval of a tool, then it was not approved, and one of the
-- agent's own tools has that name and is high-risk.
pub run-Waits :
    {W : Type 0} (rt : Runtime W) (a : BaseAgent W) (approved : Bool) (goal : Str) (w : W)
    (name : Str)
    → (run rt a approved goal w).0 ≡ aborted (waiting_for_approval name)
    → Waits rt a approved name
run-Waits rt a approved goal w =
    run-Post rt a approved _ _ _ _ (Justified-Rule rt a approved) goal w tt
